-- ===== src/Loc/Shallow.antt =====
-- How deep the calls are for which InstLoc::postDom and InstLoc::dom can answer true.
use study_uafx.Base.{
  ℕ, zero, suc, ◌+◌, ◌-◌, ◌%◌, ◌≡◌, ◌≤◌, ◌<◌, refl, ap, ◌⊎◌, inl, inr, Bool, true, false, not, ◌||◌,
  Option, none, some, [], ◌∷◌, ◌==◌, length, leb, arith, Bool-cases,
}
use study_uafx.Cfg.{Cfg}
use study_uafx.Context.{CallSites}
use study_uafx.Context.Directory.{nonempty-of_odd}
use study_uafx.Loc.{InstLoc, as_inst, has_ctx, diverge}
use study_uafx.Loc.Dominance.{
  Trees, inst_order, inst_post_dom, inst_dom, site_at, drop_sites, share_func, must_reach,
  must_from, across, post_dom, dom,
}

site_at-drop_sites : (i k : ℕ) (c : CallSites) → site_at (drop_sites i c) k ≡ site_at c (i + k)
unfolding site_at drop_sites
site_at-drop_sites zero k c = let e : 0 + k ≡ k = omega arith in rw e
site_at-drop_sites (suc i) k [] = refl
site_at-drop_sites (suc i) k (a ∷ c) =
    let e : suc i + k ≡ suc (i + k) = omega arith in rw e (site_at-drop_sites i k c)

length-drop_sites : (i : ℕ) (c : CallSites) → length (drop_sites i c) ≡ length c - i
unfolding drop_sites
length-drop_sites zero c = omega arith
length-drop_sites (suc i) [] = omega arith
length-drop_sites (suc i) (a ∷ c) = omega (arith, length-drop_sites i c)

diverge-le : (c d : CallSites) → (diverge c d ≤ length c) × (diverge c d ≤ length d)
unfolding diverge
diverge-le [] d = (omega arith, omega arith)
diverge-le (a ∷ c) [] = (omega arith, omega arith)
diverge-le (a ∷ c) (b ∷ d) = (ground (arith, diverge-le c d), ground (arith, diverge-le c d))

deeper_site :
    (i k m : ℕ) (c rest : CallSites)
    → m ≡ i + k
    → drop_sites i c ≡ rest
    → site_at c m ≡ site_at rest k
deeper_site i k m c rest n e = rw (n, ← e, site_at-drop_sites i k c)

-- No call site of a context, at an odd index, is in the function that it enters.
abbrev pub CallsOther : Cfg → CallSites → Type 0
CallsOther g c = (k : ℕ) → k % 2 ≡ 1 → share_func g (site_at c k) (site_at c (suc k)) ≡ false

module _ (g : Cfg) (t : Trees) where
  inst_order-share_func :
      (tree : ℕ → ℕ → Bool) (x y : Option ℕ) (strict : Bool)
      → inst_order g tree x y strict ≡ true
      → share_func g x y ≡ true
  unfolding inst_order share_func
  inst_order-share_func tree none y strict h = cc
  inst_order-share_func tree (some x) none strict h = cc
  inst_order-share_func tree (some x) (some y) strict h = ground (arith, h)

  must_reach_shallow :
      (c rest : CallSites) (ip : ℕ) (end : Option ℕ)
      → CallsOther g c
      → length c % 2 ≡ 1
      → ip % 2 ≡ 0
      → ip < length c
      → drop_sites ip c ≡ rest
      → must_reach g t rest end ≡ true
      → length c ≡ suc ip
  unfolding must_reach inst_post_dom site_at
  must_reach_shallow c [] ip end calls odd even inside e h =
      absurd (omega (arith, length-drop_sites ip c, ap length e))
  must_reach_shallow c (a ∷ []) ip end calls odd even inside e h =
      omega (arith, length-drop_sites ip c, ap length e)
  must_reach_shallow c (a ∷ b ∷ []) ip end calls odd even inside e h =
      absurd (omega (arith, length-drop_sites ip c, ap length e))
  must_reach_shallow c (a ∷ b ∷ f ∷ rest) ip end calls odd even inside e h =
      let at_call : site_at c (suc ip) ≡ b = deeper_site ip 1 (suc ip) c _ (omega arith) e in
      let at_entry : site_at c (suc (suc ip)) ≡ f =
        deeper_site ip 2 (suc (suc ip)) c _ (omega arith) e in
      let apart : share_func g b f ≡ false =
        rw (← at_call, ← at_entry) (calls (suc ip) (omega arith)) in
      let passed : inst_order g (λ bsrc bend. t.post_dominates bend bsrc) b f false ≡ true =
        ground (arith, h) in
      absurd (ground (arith, apart, inst_order-share_func _ b f false passed))

  must_from_shallow :
      (this : InstLoc) (ip : ℕ)
      → CallsOther g this.ctx
      → length this.ctx % 2 ≡ 1
      → must_from g t this ip ≡ some true
      → length this.ctx ≡ suc ip
  unfolding must_from
  must_from_shallow this ip calls odd h =
      elim (Bool-cases (not (ip % 2 == 0) || leb (length this.ctx) ip)) [
        | inl stop ↦ ground (arith, stop, h)
        | inr ok ↦
            must_reach_shallow this.ctx _ ip (as_inst this.value) calls odd (ground (arith, ok))
              (ground (arith, ok)) refl (ground (arith, ok, h))
      ]

  inner_false :
      (related : Option ℕ → Option ℕ → Bool → Bool) (this against : InstLoc) (strict : Bool)
      (ip : ℕ)
      → CallsOther g this.ctx
      → length this.ctx % 2 ≡ 1
      → leb (length this.ctx) ip ≡ false
      → leb (length against.ctx) ip ≡ false
      → across g t related this against strict ip ≡ some true
      → ⊥
  unfolding across
  inner_false related this against strict ip calls odd part inner h =
      elim (Bool-cases (ip % 2 == 1)) [
        | inl call ↦ ground (arith, call, part, inner, h)
        | inr entry ↦
            elim (Bool-cases (related (site_at this.ctx ip) (site_at against.ctx ip) false)) [
              | inl met ↦
                  let deep : must_from g t this (suc ip) ≡ some true =
                    ground (arith, entry, part, inner, met, h) in
                  ground (arith, must_from_shallow this (suc ip) calls odd deep)
              | inr missed ↦ ground (arith, entry, part, inner, missed, h)
            ]
      ]

  across_shallow :
      (related : Option ℕ → Option ℕ → Bool → Bool) (this against : InstLoc) (strict : Bool)
      (ip : ℕ)
      → CallsOther g this.ctx
      → length this.ctx % 2 ≡ 1
      → ip ≤ length this.ctx
      → ip ≤ length against.ctx
      → length against.ctx % 2 ≡ 1
      → across g t related this against strict ip ≡ some true
      → (ip ≡ length this.ctx) ⊎ ((ip ≡ length against.ctx) × (length this.ctx ≡ suc (suc ip)))
  unfolding across
  across_shallow related this against strict ip calls odd le_this le_against odd_against h =
      elim (Bool-cases (leb (length this.ctx) ip)) [
        | inl whole ↦ inl (ground (arith, whole))
        | inr part ↦ elim (Bool-cases (leb (length against.ctx) ip)) [
          | inl past ↦ inr (
            ground (arith, past),
            must_from_shallow this (suc ip) calls odd (ground (arith, part, past, h)),
          )
          | inr inner ↦ absurd (inner_false related this against strict ip calls odd part inner h)
        ]
      ]

  -- Across calls, postDom can answer true for two locations with contexts only when the context of
  -- the first is a prefix of the other, or when it goes exactly one call deeper than the whole
  -- context of the other: never when they part at two call sites of one caller, and never through
  -- two calls. Contexts have odd length, and no call site is in the function that it enters.
  pub post_dom_shallow :
      (this against : InstLoc) (strict : Bool)
      → CallsOther g this.ctx
      → length this.ctx % 2 ≡ 1
      → length against.ctx % 2 ≡ 1
      → post_dom g t this (some against) strict ≡ some true
      → (diverge this.ctx against.ctx ≡ length this.ctx)
        ⊎ ((diverge this.ctx against.ctx ≡ length against.ctx)
            × (length this.ctx ≡ length against.ctx + 2))
  unfolding post_dom has_ctx
  post_dom_shallow this against strict calls odd odd_against h =
      let le = diverge-le this.ctx against.ctx in
      let some_this = nonempty-of_odd this.ctx odd in
      let some_against = nonempty-of_odd against.ctx odd_against in
      let k : across g t (λ x y s. inst_post_dom g t y x s) this against strict
            (diverge this.ctx against.ctx)
          ≡ some true =
        ground (arith, some_this, some_against, h, odd, odd_against) in
      elim (across_shallow (λ x y s. inst_post_dom g t y x s) this against strict _ calls odd le.0
        le.1 odd_against k) [ inl whole ↦ inl whole | inr (past, deep) ↦ inr (past, omega arith) ]

  -- The same of dom.
  pub dom_shallow :
      (this against : InstLoc) (strict : Bool)
      → CallsOther g this.ctx
      → length this.ctx % 2 ≡ 1
      → length against.ctx % 2 ≡ 1
      → dom g t this (some against) strict ≡ some true
      → (diverge this.ctx against.ctx ≡ length this.ctx)
        ⊎ ((diverge this.ctx against.ctx ≡ length against.ctx)
            × (length this.ctx ≡ length against.ctx + 2))
  unfolding dom has_ctx
  dom_shallow this against strict calls odd odd_against h =
      let le = diverge-le this.ctx against.ctx in
      let some_this = nonempty-of_odd this.ctx odd in
      let some_against = nonempty-of_odd against.ctx odd_against in
      let k : across g t (inst_dom g t) this against strict (diverge this.ctx against.ctx)
          ≡ some true =
        ground (arith, some_this, some_against, h, odd, odd_against) in
      elim (across_shallow (inst_dom g t) this against strict _ calls odd le.0 le.1 odd_against k) [
        | inl whole ↦ inl whole
        | inr (past, deep) ↦ inr (past, omega arith)
      ]
