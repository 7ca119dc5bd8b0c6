-- ===== src/Trait/Laws.antt =====
-- The two ways in which the code asks whether a branch can be taken agree: the search for a store
-- that closes it (TraitSet::kill) and the z3 constraint (TraitCheck::getZ3Expr4Branch).
use study_uafx.Base.{
  ℕ, zero, suc, ◌≡◌, refl, ap, subst, inl, inr, Option-cases, Bool, true, false, not, ◌&&◌, none,
  some, List, [], ◌∷◌, ltb, ◌==◌, get_elem?, length, arith, Bool-cases,
}
use study_uafx.Base.Int.{ℤ, ltb_ℤ, leb_ℤ, eqb_ℤ}
use study_uafx.Trait.Check.{
  CheckPattern, def, eq, switch, Entity, constant, constant_set, TraitCheck, Predicate, fcmp_oeq,
  get_tc_pattern, constant_check_fail,
}
use study_uafx.Trait.Set.{TraitSet, assigned, case_index, is_assigned, kill}
use study_uafx.Trait.Branch.{
  IsInt64, Solver, Constraint, failed, null, expr, compare_expr, compare_expr_false, default_from,
  default_expr, case_expr, get_z3_expr_for_branch,
}

-- Reading an LLVM predicate with its operands swapped gives the pattern of the swapped check: for
-- every predicate, both values and both branches, the reversed pattern fails on (x, y) exactly
-- when the plain pattern fails on (y, x).
pub get_tc_pattern_reversed :
    (p : Predicate) (ns nc : ℤ) (taken : Bool)
    → constant_check_fail (get_tc_pattern p true) ns nc taken
      ≡ constant_check_fail (get_tc_pattern p false) nc ns taken
unfolding get_tc_pattern constant_check_fail
get_tc_pattern_reversed fcmp_oeq ns nc taken = ground arith
get_tc_pattern_reversed _ ns nc taken = ground arith

-- All cases of a switch fit in 64 bits, and no case comes twice.
abbrev pub AllInt64 : List ℤ → Type 0
AllInt64 [] = Unit {0}
AllInt64 (c ∷ cset) = IsInt64 c × AllInt64 cset

abbrev pub Absent : ℤ → List ℤ → Type 0
Absent c [] = Unit {0}
Absent c (d ∷ cset) = (eqb_ℤ d c ≡ false) × Absent c cset

abbrev pub IsCaseSet : List ℤ → Type 0
IsCaseSet [] = Unit {0}
IsCaseSet (c ∷ cset) = Absent c cset × IsCaseSet cset

Absent-get :
    (c : ℤ) (cset : List ℤ) (i : ℕ) (d : ℤ)
    → Absent c cset
    → get_elem? cset i ≡ some d
    → eqb_ℤ d c ≡ false
Absent-get c [] i d a e = cc
Absent-get c (x ∷ cset) zero d a e = ground arith
Absent-get c (x ∷ cset) (suc i) d a e = Absent-get c cset i d a.1 e

-- The index of a value is that of the one case that equals it.
case_index-get :
    (cset : List ℤ) (ns : ℤ) (dst : ℕ) (c : ℤ)
    → IsCaseSet cset
    → get_elem? cset dst ≡ some c
    → (case_index cset ns == dst) ≡ eqb_ℤ ns c
unfolding case_index
case_index-get [] ns dst c h e = cc
case_index-get (x ∷ cset) ns zero c h e = ground arith
case_index-get (x ∷ cset) ns (suc dst) c h e =
    ground (arith, case_index-get cset ns dst c h.1, Absent-get x cset dst c h.0)

-- The constants of a check are of their C++ types, and a switch has no case twice.
abbrev pub EntityFits : Entity → Type 0
EntityFits (constant n) = IsInt64 n
EntityFits (constant_set (some cset)) = AllInt64 cset × IsCaseSet cset
EntityFits _ = Unit {0}

AllInt64-get :
    (cset : List ℤ) (i : ℕ) (c : ℤ) → AllInt64 cset → get_elem? cset i ≡ some c → IsInt64 c
AllInt64-get [] i c fits e = cc
AllInt64-get (x ∷ cset) zero c fits e = let q : x ≡ c = cc in rw (← q) fits.0
AllInt64-get (x ∷ cset) (suc i) c fits e = AllInt64-get cset i c fits.1 e

module _ (z : Solver) where
  -- What a constraint says of a closed branch: its expression fails at the value.
  abbrev pub Agrees : Constraint z.Expr → ℤ → Bool → Type 0
  Agrees failed ns b = Unit {0}
  Agrees null ns b = Unit {0}
  Agrees (expr e) ns b = b ≡ not (z.holds e ns)

  -- The comparisons of the variable with a constant, read at a value.
  holds_compare :
      (nc ns : ℤ)
      → IsInt64 nc
      → (z.holds (z.equal z.v (z.bv_val nc)) ns ≡ eqb_ℤ ns nc)
        × (z.holds (z.differs z.v (z.bv_val nc)) ns ≡ not (eqb_ℤ ns nc))
        × (z.holds (z.less z.v (z.bv_val nc)) ns ≡ ltb_ℤ ns nc)
        × (z.holds (z.less (z.bv_val nc) z.v) ns ≡ ltb_ℤ nc ns)
        × (z.holds (z.at_most z.v (z.bv_val nc)) ns ≡ leb_ℤ ns nc)
        × (z.holds (z.at_most (z.bv_val nc) z.v) ns ≡ leb_ℤ nc ns)
  holds_compare nc ns h =
      let c = z.bv_val nc in
      (
        rw (z.holds-equal z.v c ns, z.value-v ns, z.value-bv_val nc ns h),
        rw (z.holds-differs z.v c ns, z.value-v ns, z.value-bv_val nc ns h),
        rw (z.holds-less z.v c ns, z.value-v ns, z.value-bv_val nc ns h),
        rw (z.holds-less c z.v ns, z.value-v ns, z.value-bv_val nc ns h),
        rw (z.holds-at_most z.v c ns, z.value-v ns, z.value-bv_val nc ns h),
        rw (z.holds-at_most c z.v ns, z.value-v ns, z.value-bv_val nc ns h),
      )

  compare_expr-Agrees :
      (pat : CheckPattern) (ns nc : ℤ)
      → IsInt64 nc
      → Agrees (compare_expr z pat nc) ns (constant_check_fail pat ns nc true)
  unfolding compare_expr constant_check_fail
  compare_expr-Agrees eq ns nc h = ground (arith, holds_compare nc ns h)
  compare_expr-Agrees def ns nc h = tt
  compare_expr-Agrees switch ns nc h = tt
  compare_expr-Agrees _ ns nc h = ground (arith, holds_compare nc ns h)

  compare_expr_false-Agrees :
      (pat : CheckPattern) (ns nc : ℤ)
      → IsInt64 nc
      → Agrees (compare_expr_false z pat nc) ns (constant_check_fail pat ns nc false)
  unfolding compare_expr_false constant_check_fail
  compare_expr_false-Agrees eq ns nc h = ground (arith, holds_compare nc ns h)
  compare_expr_false-Agrees def ns nc h = tt
  compare_expr_false-Agrees switch ns nc h = tt
  compare_expr_false-Agrees _ ns nc h = ground (arith, holds_compare nc ns h)

  -- And the default case is taken when every case differs.
  default_from-holds :
      (e : z.Expr) (cset : List ℤ) (ns : ℤ)
      → AllInt64 cset
      → z.holds (default_from z e cset) ns ≡ (z.holds e ns && case_index cset ns == length cset)
  unfolding default_from case_index
  default_from-holds e [] ns h = ground arith
  default_from-holds e (c ∷ cset) ns h =
      let more = z.both e (z.differs z.v (z.bv_val c)) in
      let ih = default_from-holds more cset ns h.1 in
      ground (
        arith,
        ih,
        z.holds-both e (z.differs z.v (z.bv_val c)) ns,
        z.holds-differs z.v (z.bv_val c) ns,
        z.value-v ns,
        z.value-bv_val c ns h.0,
      )

  default_expr-Agrees :
      (cset : List ℤ) (ns : ℤ) (dst : ℕ)
      → AllInt64 cset
      → dst == length cset ≡ true
      → Agrees (default_expr z cset) ns (not (case_index cset ns == dst))
  unfolding default_expr case_index
  default_expr-Agrees [] ns dst fits last = tt
  default_expr-Agrees (c ∷ cset) ns dst fits last = ground (
    arith,
    default_from-holds (z.differs z.v (z.bv_val c)) cset ns fits.1,
    holds_compare c ns fits.0,
  )

  case_expr-Agrees :
      (cset : List ℤ) (ns : ℤ) (dst : ℕ)
      → AllInt64 cset
      → IsCaseSet cset
      → Agrees (case_expr z cset dst) ns (not (case_index cset ns == dst))
  unfolding case_expr
  case_expr-Agrees cset ns dst fits once = elim (Option-cases (get_elem? cset dst)) [
    | inl past ↦ elim (Bool-cases (dst == length cset)) [
      | inl last ↦ rw (past, case_expr, last) (default_expr-Agrees cset ns dst fits last)
      | inr beyond ↦ rw (past, case_expr, beyond) tt
    ]
    | inr (c, e) ↦
        rw (e, case_expr)
          (ground (
            arith,
            case_index-get cset ns dst c once e,
            holds_compare c ns (AllInt64-get cset dst c fits e),
          ))
  ]

  kill_agrees_at :
      (s : TraitSet) (tc : TraitCheck) (dst : ℕ) (e : z.Expr) (x : Entity)
      → tc.entity ≡ x
      → s.pat ≡ assigned
      → EntityFits x
      → get_z3_expr_for_branch z tc dst ≡ expr e
      → kill s (some tc) dst ≡ some (not (z.holds e s.n))
  unfolding get_z3_expr_for_branch kill is_assigned
  kill_agrees_at s tc zero e (constant nc) q set fits h =
      let k : compare_expr z tc.pat nc ≡ expr e = (rw (q, get_z3_expr_for_branch) at h) in
      rw (q, kill, set)
        (ap some (
          subst (λ c. Agrees c s.n (constant_check_fail tc.pat s.n nc true)) k
            (compare_expr-Agrees tc.pat s.n nc fits)))
  kill_agrees_at s tc (suc zero) e (constant nc) q set fits h =
      let k : compare_expr_false z tc.pat nc ≡ expr e = (rw (q, get_z3_expr_for_branch) at h) in
      rw (q, kill, set)
        (ap some (
          subst (λ c. Agrees c s.n (constant_check_fail tc.pat s.n nc false)) k
            (compare_expr_false-Agrees tc.pat s.n nc fits)))
  kill_agrees_at s tc (suc (suc dst)) e (constant nc) q set fits h =
      let far : ltb 1 (suc (suc dst)) ≡ true = ground arith in
      let k : failed ≡ expr e = (rw (q, get_z3_expr_for_branch, far) at h) in cc
  kill_agrees_at s tc dst e (constant_set (some cs)) q set fits h =
      let k : case_expr z cs dst ≡ expr e = (rw (q, get_z3_expr_for_branch) at h) in
      rw (q, kill, set)
        (ap some (
          subst (λ c. Agrees c s.n (not (case_index cs s.n == dst))) k
            (case_expr-Agrees cs s.n dst fits.0 fits.1)))
  kill_agrees_at s tc dst e (constant_set none) q set fits h =
      let k : failed ≡ expr e = (rw (q, get_z3_expr_for_branch) at h) in cc
  kill_agrees_at s tc dst e _ q set fits h =
      let k : failed ≡ expr e = (rw (q, get_z3_expr_for_branch) at h) in cc

  -- Whenever getZ3Expr4Branch gives the constraint of a branch of a comparison with a constant or
  -- of a switch whose cases fit in 64 bits and are distinct, storing a constant kills that branch
  -- exactly when the constraint is false at the constant.
  pub kill_agrees :
      (s : TraitSet) (tc : TraitCheck) (dst : ℕ) (e : z.Expr)
      → s.pat ≡ assigned
      → EntityFits tc.entity
      → get_z3_expr_for_branch z tc dst ≡ expr e
      → kill s (some tc) dst ≡ some (not (z.holds e s.n))
  kill_agrees s tc dst e set fits h = kill_agrees_at s tc dst e tc.entity refl set fits h
