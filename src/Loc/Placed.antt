-- ===== src/Loc/Placed.antt =====
-- Where getBlockersInCurrFunc sees a blocker: in the context of the location itself, or behind one of the
-- call sites of its function.
use study_uafx.Base.{
  ℕ, suc, ◌≡◌, refl, sym, ap, ◌∙◌, ◌↔◌, Bool, true, false, Option, some, List, [], ◌∷◌, ◌++◌,
  same_opt, same_opt_iff, length, take, select, arith, inl, inr, Bool-cases, is_empty,
  if◌then◌else◌,
}
use study_uafx.Context.{
  CallSites, PrefixResult, unrelated, identical, prefix_until, is_prefix, same_sites,
}
use study_uafx.Context.Callees.{PrefixMeans, is_prefix-PrefixMeans, append_nil}
use study_uafx.Loc.{InstLoc, as_inst, has_ctx, is_ctx_prefix}
use study_uafx.Loc.Dominance.{site_at}
use study_uafx.Loc.Blockers.{direct_site, behind_site, behind}

-- The blocker is the instruction in exactly this context.
abbrev pub IsHere : CallSites → ℕ → InstLoc → Type 0
IsHere ctx i bi = (bi.ctx ≡ ctx) × (as_inst bi.value ≡ some i)

-- The blocker's context goes on from this one through the call site.
abbrev pub IsThrough : CallSites → ℕ → InstLoc → Type 0
IsThrough ctx cs bi = (rest : CallSites) × (bi.ctx ≡ ctx ++ (some cs ∷ rest))

-- Whether it does.
abbrev pub is_through : CallSites → ℕ → InstLoc → Bool
is_through ctx cs bi = same_sites (take (suc (length ctx)) bi.ctx) (ctx ++ (some cs ∷ []))

site_at-append :
    (xs : CallSites) (y : Option ℕ) (r : CallSites) → site_at (xs ++ (y ∷ r)) (length xs) ≡ y
unfolding site_at
site_at-append [] y r = refl
site_at-append (x ∷ xs) y r = site_at-append xs y r

grown-not-empty : (xs : CallSites) (y : Option ℕ) (r : CallSites) → is_empty (xs ++ (y ∷ r)) ≡ false
grown-not-empty [] y r = refl
grown-not-empty (x ∷ xs) y r = refl

prefix_unique : (xs : CallSites) (y : Option ℕ) (r : CallSites) → xs ≡ xs ++ (y ∷ r) → ⊥
prefix_unique [] y r e = cc
prefix_unique (x ∷ xs) y r e = let f : xs ≡ xs ++ (y ∷ r) = cc (e) in prefix_unique xs y r f

split_unique :
    (xs : CallSites) (y z : Option ℕ) (r s : CallSites) → xs ++ (y ∷ r) ≡ xs ++ (z ∷ s) → y ≡ z
split_unique [] y z r s e = cc
split_unique (x ∷ xs) y z r s e =
    let f : xs ++ (y ∷ r) ≡ xs ++ (z ∷ s) = cc (e) in split_unique xs y z r s f

module _ (this bi : InstLoc) (i : ℕ) where
  module _ (there : has_ctx bi ≡ true) where
    direct_site-by :
        (r : PrefixResult)
        → is_prefix this.ctx (some bi.ctx) ≡ r
        → PrefixMeans this.ctx bi.ctx r
        → (direct_site this bi ≡ some i) ↔ IsHere this.ctx i bi
    unfolding direct_site is_ctx_prefix
    direct_site-by unrelated e m =
        rw (there, e) (λ h. cc, λ (c, q). absurd (m [] (c ∙ sym (append_nil this.ctx))))
    direct_site-by identical e m = rw (there, e) (λ h. (m, h), λ (c, q). q)
    direct_site-by (prefix_until n) e (k, (a, rest, f)) =
        rw (there, e) (λ h. cc, λ (c, q). absurd (prefix_unique this.ctx a rest (sym c ∙ f)))

    behind_site-by :
        (r : PrefixResult)
        → is_prefix this.ctx (some bi.ctx) ≡ r
        → PrefixMeans this.ctx bi.ctx r
        → (behind_site this bi ≡ some i) ↔ IsThrough this.ctx i bi
    unfolding behind_site is_ctx_prefix
    behind_site-by unrelated e m =
        rw (there, e) (λ h. cc, λ (rest, c). absurd (m (some i ∷ rest) c))
    behind_site-by identical e m =
        rw (there, e)
          (λ h. cc, λ (rest, c). absurd (prefix_unique this.ctx (some i) rest (sym m ∙ c)))
    behind_site-by (prefix_until n) e (k, (a, rest, f)) =
        let at_k : site_at bi.ctx n ≡ a = rw (f, k) (site_at-append this.ctx a rest) in
        rw (there, e, at_k)
          (
            λ h. (rest, f ∙ ap (λ t. this.ctx ++ (t ∷ rest)) h),
            λ (r, c). split_unique this.ctx a (some i) rest r (sym f ∙ c),
          )

  -- A blocker is filed as a direct one exactly when it is the instruction in the location's context.
  pub direct_site-IsHere :
      has_ctx this ≡ true → (direct_site this bi ≡ some i) ↔ IsHere this.ctx i bi
  unfolding direct_site has_ctx
  direct_site-IsHere local = elim (Bool-cases (has_ctx bi)) [
    | inl there ↦ direct_site-by there _ refl (is_prefix-PrefixMeans this.ctx bi.ctx)
    | inr global ↦
        rw (global, direct_site)
          (λ h. cc, λ (c, q). let k : has_ctx this ≡ false = rw (← c) global in cc (k, local))
  ]

  -- And under a call site exactly when its context goes on through that call site.
  pub behind_site-IsThrough : (behind_site this bi ≡ some i) ↔ IsThrough this.ctx i bi
  unfolding behind_site has_ctx
  behind_site-IsThrough = elim (Bool-cases (has_ctx bi)) [
    | inl there ↦ behind_site-by there _ refl (is_prefix-PrefixMeans this.ctx bi.ctx)
    | inr global ↦
        rw (global, behind_site)
          (
            λ h. cc,
            λ (rest, c).
                let k : is_empty bi.ctx ≡ false =
                  ap (λ t. is_empty t) c ∙ grown-not-empty this.ctx (some i) rest in
                ground (arith, k, global),
          )
  ]

is_through_by :
    (xs : CallSites) (y : Option ℕ) (c : CallSites)
    → (same_sites (take (suc (length xs)) c) (xs ++ (y ∷ [])) ≡ true)
      ↔ ((rest : CallSites) × (c ≡ xs ++ (y ∷ rest)))
unfolding same_sites
is_through_by [] y [] = (λ h. cc, λ (rest, e). cc)
is_through_by [] y (a ∷ c) = (
  λ h. (c, ap (λ t. t ∷ c) ((same_opt_iff a y).0 (ground (arith, h)))),
  λ (rest, e). let q : a ≡ y = cc (e) in ground (arith, (same_opt_iff a y).1 q),
)
is_through_by (x ∷ xs) y [] = (λ h. cc, λ (rest, e). cc)
is_through_by (x ∷ xs) y (a ∷ c) =
    let more = is_through_by xs y c in
    (
      λ h.
          let q : a ≡ x = (same_opt_iff a x).0 (ground (arith, h)) in
          let (rest, e) = more.0 (ground (arith, h)) in (rest, cc (q, e)),
      λ (rest, e).
          let q : a ≡ x = cc (e) in
          let f : c ≡ xs ++ (y ∷ rest) = cc (e) in
          ground (arith, (same_opt_iff a x).1 q, more.1 (rest, f)),
    )

is_through-behind_site :
    (this : InstLoc) (cs : ℕ) (bi : InstLoc)
    → same_opt (behind_site this bi) (some cs) ≡ is_through this.ctx cs bi
is_through-behind_site this cs bi =
    let filed = behind_site-IsThrough this bi cs in
    let goes = is_through_by this.ctx (some cs) bi.ctx in
    let same = same_opt_iff (behind_site this bi) (some cs) in
    elim (Bool-cases (is_through this.ctx cs bi)) [
      | inl on ↦ same.1 (filed.1 (goes.0 on)) ∙ sym on
      | inr off ↦ elim (Bool-cases (same_opt (behind_site this bi) (some cs))) [
        | inr n ↦ n ∙ sym off
        | inl y ↦ cc (goes.1 (filed.0 (same.0 y)))
      ]
    ]

-- The blockers filed under a call site are those whose contexts go on through it.
pub behind-select :
    (this : InstLoc) (cs : ℕ) (bis : List InstLoc)
    → behind this cs bis ≡ select (is_through this.ctx cs) bis
unfolding behind select
behind-select this cs [] = refl
behind-select this cs (bi ∷ bis) =
    rw (is_through-behind_site this cs bi)
      (ap (λ t. if is_through this.ctx cs bi then bi ∷ t else t) (behind-select this cs bis))
