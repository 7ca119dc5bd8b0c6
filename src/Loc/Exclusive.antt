-- ===== src/Loc/Exclusive.antt =====
-- Two locations of one block under one context: which of them dominates the other.
use study_uafx.Base.{
  ℕ, ◌%◌, ◌≡◌, ◌≢◌, refl, Bool, true, false, not, ◌&&◌, Option, some, List, [], ◌∷◌, same_opt_iff,
  ◌==◌, length, leb, ltb, arith, contains, Bool-cases, inl, inr, is_empty, ◌∙◌, ap,
}
use study_uafx.Cfg.{Cfg, IsVerified}
use study_uafx.Context.{CallSites}
use study_uafx.Loc.{loc, has_ctx, diverge, func_of}
use study_uafx.Loc.Dominance.{
  Trees, comes_first, ordered, inst_order, inst_post_dom, inst_dom, share_func, across, post_dom,
  dom,
}

comes_first_exclusive :
    (a c : ℕ) (xs : List ℕ)
    → a == c ≡ false
    → contains xs a ≡ true
    → contains xs c ≡ true
    → comes_first a c xs ≡ not (comes_first c a xs)
unfolding comes_first contains
comes_first_exclusive a c [] ne ma mc = cc
comes_first_exclusive a c (x ∷ xs) ne ma mc = elim (Bool-cases (x == a)) [
  | inl at_a ↦ elim (Bool-cases (x == c)) [
    | inl at_c ↦ ground (arith, at_a, at_c, ne)
    | inr off_c ↦ ground (arith, at_a, off_c)
  ]
  | inr off_a ↦ elim (Bool-cases (x == c)) [
    | inl at_c ↦ ground (arith, off_a, at_c)
    | inr off_c ↦ ground (
      arith,
      off_a,
      off_c,
      comes_first_exclusive a c xs ne (ground (arith, off_a, ma)) (ground (arith, off_c, mc)),
    )
  ]
]

pub diverge_self : (c : CallSites) → diverge c c ≡ length c
unfolding diverge
diverge_self [] = refl
diverge_self (a ∷ c) = ground (arith, (same_opt_iff a a).1 refl, diverge_self c)

module _ (g : Cfg) (t : Trees) where
  across_end :
      (related : Option ℕ → Option ℕ → Bool → Bool) (ctx : CallSites) (x y : ℕ) (strict : Bool)
      → length ctx % 2 ≡ 1
      → share_func g (some x) (some y) ≡ true
      → across g t related (loc x ctx) (loc y ctx) strict (length ctx)
        ≡ some (related (some x) (some y) strict)
  unfolding across
  across_end related ctx x y strict odd share =
      let some_site : length ctx == 0 ≡ false = ground (arith, odd) in
      let at_end : leb (length ctx) (length ctx) ≡ true = ground arith in
      let no_more : ltb (length ctx) (length ctx) ≡ false = ground arith in
      rw (some_site, at_end, no_more, share)

  nonempty : (ctx : CallSites) → length ctx % 2 ≡ 1 → is_empty ctx ≡ false
  nonempty [] odd = absurd (omega arith)
  nonempty (a ∷ ctx) odd = refl

  post_dom_end :
      (ctx : CallSites) (x y : ℕ) (strict : Bool)
      → length ctx % 2 ≡ 1
      → share_func g (some y) (some x) ≡ true
      → post_dom g t (loc y ctx) (some (loc x ctx)) strict
        ≡ some (inst_post_dom g t (some x) (some y) strict)
  unfolding post_dom has_ctx
  post_dom_end ctx x y strict odd share =
      let one : length ctx % 2 == 1 ≡ true = ground (arith, odd) in
      rw (nonempty ctx odd, one, diverge_self ctx)
        (across_end (λ x y s. inst_post_dom g t y x s) ctx y x strict odd share)

  dom_end :
      (ctx : CallSites) (x y : ℕ) (strict : Bool)
      → length ctx % 2 ≡ 1
      → share_func g (some x) (some y) ≡ true
      → dom g t (loc x ctx) (some (loc y ctx)) strict ≡ some (inst_dom g t (some x) (some y) strict)
  unfolding dom has_ctx
  dom_end ctx x y strict odd share =
      let one : length ctx % 2 == 1 ≡ true = ground (arith, odd) in
      rw (nonempty ctx odd, one, diverge_self ctx)
        (across_end (inst_dom g t) ctx x y strict odd share)

module _ (g : Cfg) (t : Trees) (b : ℕ) where
  share :
      (x y : ℕ) → g.parent x ≡ some b → g.parent y ≡ some b → share_func g (some x) (some y) ≡ true
  unfolding share_func func_of
  share x y px py = ground (arith, px, py)

  inst_order-comes_first :
      (tree : ℕ → ℕ → Bool) (x y : ℕ) (strict : Bool)
      → g.parent x ≡ some b
      → g.parent y ≡ some b
      → x == y ≡ false
      → (g.is_phi x && g.is_phi y) ≡ false
      → inst_order g tree (some x) (some y) strict ≡ comes_first x y (g.insts b)
  unfolding inst_order ordered func_of
  inst_order-comes_first tree x y strict px py ne phi = ground (arith, px, py, ne, phi)

  -- For two different instructions of one block of a verified module, not both phis, under one
  -- context of odd length: of the two locations exactly one post-dominates the other, and it is the
  -- one that the other dominates, strictly or not.
  pub post_dom_exclusive :
      (ctx : CallSites) (x y : ℕ) (strict : Bool)
      → IsVerified g
      → length ctx % 2 ≡ 1
      → g.parent x ≡ some b
      → g.parent y ≡ some b
      → x ≢ y
      → (g.is_phi x && g.is_phi y) ≡ false
      → (r : Bool) × (post_dom g t (loc y ctx) (some (loc x ctx)) strict ≡ some r)
        × (dom g t (loc x ctx) (some (loc y ctx)) strict ≡ some r)
        × (post_dom g t (loc x ctx) (some (loc y ctx)) strict ≡ some (not r))
        × (dom g t (loc y ctx) (some (loc x ctx)) strict ≡ some (not r))
  unfolding inst_post_dom inst_dom
  post_dom_exclusive ctx x y strict v odd px py ne phi =
      let ne_xy : x == y ≡ false = ground (arith, ne) in
      let ne_yx : y == x ≡ false = ground (arith, ne) in
      let phi_yx : (g.is_phi y && g.is_phi x) ≡ false = ground (arith, phi) in
      let flip : comes_first y x (g.insts b) ≡ not (comes_first x y (g.insts b)) =
        comes_first_exclusive y x (g.insts b) ne_yx ((v.linked b y).0 py) ((v.linked b x).0 px) in
      let forward =
        λ (tree : ℕ → ℕ → Bool). inst_order-comes_first tree x y strict px py ne_xy phi in
      let backward =
        λ (tree : ℕ → ℕ → Bool). inst_order-comes_first tree y x strict py px ne_yx phi_yx ∙ flip in
      (
        comes_first x y (g.insts b),
        post_dom_end g t ctx x y strict odd (share y x py px) ∙ ap some (forward _),
        dom_end g t ctx x y strict odd (share x y px py) ∙ ap some (forward _),
        post_dom_end g t ctx y x strict odd (share x y px py) ∙ ap some (backward _),
        dom_end g t ctx y x strict odd (share y x py px) ∙ ap some (backward _),
      )
