-- ===== src/Trait/Branch.antt =====
-- TraitCheck::getZ3Expr4Branch: the constraint of a branch, as a z3 expression over the one
-- variable `v`. z3 is a parameter: its 64-bit bit vector terms, read as signed integers, its
-- comparisons and its conjunction.
use study_uafx.Base.{
  ℕ, ◌^◌, ◌≤◌, ◌<◌, ◌≡◌, Bool, not, ◌&&◌, none, some, List, [], ◌∷◌, ltb, ◌==◌, if◌then◌else◌,
  get_elem?, length,
}
use study_uafx.Base.Int.{ℤ, pos_part, neg_part, ltb_ℤ, leb_ℤ, eqb_ℤ}
use study_uafx.Trait.Check.{
  CheckPattern, def, eq, ne, lt, le, gt, ge, switch, unknown, expression, variable, constant,
  constant_set, constant_masked, TraitCheck,
}

abbrev pub IsInt64 : ℤ → Type 0
IsInt64 c = (pos_part c < 2 ^ 63) × (neg_part c ≤ 2 ^ 63)

-- What the code uses of z3. `value` and `holds` read a term and an expression at a value of the
-- variable.
pub record Solver : Type 1 where
  pub Term : Type 0
  pub Expr : Type 0
  pub v : Term
  pub bv_val : ℤ → Term
  pub equal : Term → Term → Expr
  pub differs : Term → Term → Expr
  pub less : Term → Term → Expr
  pub at_most : Term → Term → Expr
  pub both : Expr → Expr → Expr
  pub value : Term → ℤ → ℤ
  pub holds : Expr → ℤ → Bool
  pub value-v : (x : ℤ) → value v x ≡ x
  pub value-bv_val : (c x : ℤ) → IsInt64 c → value (bv_val c) x ≡ c
  pub holds-equal : (a b : Term) (x : ℤ) → holds (equal a b) x ≡ eqb_ℤ (value a x) (value b x)
  pub holds-differs :
      (a b : Term) (x : ℤ) → holds (differs a b) x ≡ not (eqb_ℤ (value a x) (value b x))
  pub holds-less : (a b : Term) (x : ℤ) → holds (less a b) x ≡ ltb_ℤ (value a x) (value b x)
  pub holds-at_most : (a b : Term) (x : ℤ) → holds (at_most a b) x ≡ leb_ℤ (value a x) (value b x)
  pub holds-both : (e f : Expr) (x : ℤ) → holds (both e f) x ≡ (holds e x && holds f x)

-- The call fails with `ec` -1; or it returns an expression, which stays null for the default case
-- of a switch with no other case.
pub data Constraint (E : Type 0) : Type 0 where
  failed : Constraint E
  null : Constraint E
  expr : E → Constraint E

module _ (z : Solver) where
  open z use {Term, Expr, v, bv_val, equal, differs, less, at_most, both}

  -- The comparison of the true branch.
  unfoldable pub compare_expr : CheckPattern → ℤ → Constraint Expr
  compare_expr eq n = expr (equal v (bv_val n))
  compare_expr ne n = expr (differs v (bv_val n))
  compare_expr gt n = expr (less (bv_val n) v)
  compare_expr ge n = expr (at_most (bv_val n) v)
  compare_expr lt n = expr (less v (bv_val n))
  compare_expr le n = expr (at_most v (bv_val n))
  compare_expr def n = failed
  compare_expr switch n = failed

  -- And of the false one.
  unfoldable pub compare_expr_false : CheckPattern → ℤ → Constraint Expr
  compare_expr_false eq n = expr (differs v (bv_val n))
  compare_expr_false ne n = expr (equal v (bv_val n))
  compare_expr_false gt n = expr (at_most v (bv_val n))
  compare_expr_false ge n = expr (less v (bv_val n))
  compare_expr_false lt n = expr (at_most (bv_val n) v)
  compare_expr_false le n = expr (less (bv_val n) v)
  compare_expr_false def n = failed
  compare_expr_false switch n = failed

  -- The loop of the default case: the conjunction so far, and the cases left.
  unfoldable pub default_from : Expr → List ℤ → Expr
  default_from e [] = e
  default_from e (c ∷ cset) = default_from (both e (differs v (bv_val c))) cset

  unfoldable pub default_expr : List ℤ → Constraint Expr
  unfolding default_from
  default_expr [] = null
  default_expr (c ∷ cset) = expr (default_from (differs v (bv_val c)) cset)

  unfoldable pub case_expr : List ℤ → ℕ → Constraint Expr
  unfolding default_expr
  case_expr cset dst = elim (get_elem? cset dst) [
    | some c ↦ expr (equal v (bv_val c))
    | none ↦ if dst == length cset then default_expr cset else failed
  ]

  unfoldable pub get_z3_expr_for_branch : TraitCheck → ℕ → Constraint Expr
  unfolding compare_expr compare_expr_false case_expr
  get_z3_expr_for_branch tc dst = elim tc.entity [
    | unknown ↦ failed
    | expression ↦ failed
    | variable p ↦ failed
    | constant n ↦
        if ltb 1 dst
        then failed
        else if dst == 0
        then compare_expr tc.pat n
        else compare_expr_false tc.pat n
    | constant_set cset ↦ elim cset [ none ↦ failed | some cs ↦ case_expr cs dst ]
    | constant_masked bm ↦ failed
  ]
