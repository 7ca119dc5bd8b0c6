-- ===== src/Loc/Dominance.antt =====
-- instPostDom and instDom inside one function, and InstLoc::postDom and InstLoc::dom across calls,
-- of llvm_analysis/MainAnalysisPasses/Utils/src/CFGUtils.cpp. LLVM's dominator trees are a parameter.
use study_uafx.Base.{
  ℕ, zero, suc, ◌%◌, Bool, true, false, not, ◌&&◌, ◌||◌, Option, none, some, List, [], ◌∷◌,
  same_opt, if◌then◌else◌, ◌==◌, length, leb, ltb,
}
use study_uafx.Cfg.{Cfg}
use study_uafx.Context.{CallSites}
use study_uafx.Loc.{InstLoc, as_inst, has_ctx, diverge, func_of}

-- `dominates(a, b)` of the two trees of the function that holds both blocks.
pub record Trees : Type 0 where
  pub post_dominates : ℕ → ℕ → Bool
  pub dominates : ℕ → ℕ → Bool

-- The loop through a block up to one of two instructions: whether that is the first of them.
unfoldable pub comes_first : ℕ → ℕ → List ℕ → Bool
comes_first src end [] = false
comes_first src end (i ∷ rest) =
    let later = comes_first src end rest in
    if i == src then true else if i == end then false else later

-- The relative order inside a block.
unfoldable pub ordered : Cfg → ℕ → ℕ → ℕ → Bool → Bool
unfolding comes_first
ordered g b src end strict =
    if src == end
    then not strict
    else if g.is_phi src && g.is_phi end
    then false
    else comes_first src end (g.insts b)

-- instPostDom and instDom; `tree` asks the tree for the blocks of `src` and `end`. The source is
-- undefined for an instruction in no block.
unfoldable pub inst_order : Cfg → (ℕ → ℕ → Bool) → Option ℕ → Option ℕ → Bool → Bool
unfolding ordered func_of
inst_order g tree none end strict = false
inst_order g tree (some src) none strict = false
inst_order g tree (some src) (some end) strict =
    if not (same_opt (func_of g src) (func_of g end)) then false else elim (g.parent src) [
      | none ↦ false
      | some bsrc ↦ elim (g.parent end) [
        | none ↦ false
        | some bend ↦ if not (bsrc == bend) then tree bsrc bend else ordered g bsrc src end strict
      ]
    ]

unfoldable pub inst_post_dom : Cfg → Trees → Option ℕ → Option ℕ → Bool → Bool
unfolding inst_order
inst_post_dom g t = inst_order g (λ bsrc bend. t.post_dominates bend bsrc)

unfoldable pub inst_dom : Cfg → Trees → Option ℕ → Option ℕ → Bool → Bool
unfolding inst_order
inst_dom g t = inst_order g t.dominates

-- The call site at an index.
unfoldable pub site_at : CallSites → ℕ → Option ℕ
site_at [] i = none
site_at (a ∷ c) zero = a
site_at (a ∷ c) (suc i) = site_at c i

unfoldable pub drop_sites : ℕ → CallSites → CallSites
drop_sites zero c = c
drop_sites (suc n) [] = []
drop_sites (suc n) (a ∷ c) = drop_sites n c

-- Both pointers are there and in one function.
unfoldable pub share_func : Cfg → Option ℕ → Option ℕ → Bool
unfolding func_of
share_func g none y = false
share_func g (some x) none = false
share_func g (some x) (some y) = same_opt (func_of g x) (func_of g y)

-- The loop (2) of both functions over the rest of the context, and the check of the location.
unfoldable pub must_reach : Cfg → Trees → CallSites → Option ℕ → Bool
unfolding inst_post_dom
must_reach g t [] end = true
must_reach g t (a ∷ []) none = true
must_reach g t (a ∷ []) (some end) = inst_post_dom g t a (some end) false
must_reach g t (a ∷ b ∷ c) end =
    let further = must_reach g t (b ∷ c) end in
    if inst_post_dom g t a b false then further else false

-- From index `ip` of the context of `this` on; `none` is a failed assertion.
unfoldable pub must_from : Cfg → Trees → InstLoc → ℕ → Option Bool
unfolding must_reach drop_sites
must_from g t this ip =
    if not (ip % 2 == 0) || leb (length this.ctx) ip
    then none
    else some (must_reach g t (drop_sites ip this.ctx) (as_inst this.value))

-- Past the common prefix, for an order inside one function: `related x y strict` holds the point
-- `x` of `this` against the point `y` of `other`.
unfoldable pub across :
    Cfg → Trees → (Option ℕ → Option ℕ → Bool → Bool) → InstLoc → InstLoc → Bool → ℕ → Option Bool
unfolding must_from site_at share_func
across g t related this other strict ip =
    if ip == 0
    then some false
    else if leb (length this.ctx) ip
    then (let x = as_inst this.value in
        let y = if ltb ip (length other.ctx) then site_at other.ctx ip else as_inst other.value in
        if share_func g x y then some (related x y strict) else some false)
    else if leb (length other.ctx) ip
    then (let x = site_at this.ctx ip in
        let y = as_inst other.value in
        if share_func g x y && related x y false then must_from g t this (suc ip) else some false)
    else if ip % 2 == 1
    then some false
    else if related (site_at this.ctx ip) (site_at other.ctx ip) false
    then must_from g t this (suc ip)
    else some false

-- `none` for `other` is a null pointer.
unfoldable pub post_dom : Cfg → Trees → InstLoc → Option InstLoc → Bool → Option Bool
unfolding across has_ctx diverge
post_dom g t this none strict = some false
post_dom g t this (some other) strict =
    if not (has_ctx this)
    then some false
    else if not (has_ctx other)
    then must_from g t this 0
    else if not (length this.ctx % 2 == 1) || not (length other.ctx % 2 == 1)
    then none
    else across g t (λ x y s. inst_post_dom g t y x s) this other strict
        (diverge this.ctx other.ctx)

unfoldable pub dom : Cfg → Trees → InstLoc → Option InstLoc → Bool → Option Bool
unfolding across has_ctx diverge
dom g t this none strict = some false
dom g t this (some other) strict =
    if not (has_ctx this) || not (has_ctx other)
    then some false
    else if not (length this.ctx % 2 == 1) || not (length other.ctx % 2 == 1)
    then none
    else across g t (inst_dom g t) this other strict (diverge this.ctx other.ctx)
