-- ===== src/Constraint.antt =====
-- Path constraints on a variable: the class Constraint of
-- llvm_analysis/MainAnalysisPasses/Utils/include/Constraint.h. z3 is a parameter. The maps are lists of
-- a key with its expression, and `none` is a null block; a block with an empty optional is treated
-- by the code like one that is not in the map.
pub mod Adds
pub mod Merge
pub mod Values
pub mod Order
mod Tests
mod OrderTests
use study_uafx.Base.{
  ℕ, ◌≡◌, Bool, true, false, not, ◌&&◌, ◌||◌, Option, none, some, List, [], ◌∷◌, if◌then◌else◌,
  ◌==◌, is_empty, contains, insert,
}
use study_uafx.Base.Int.{ℤ, eqb_ℤ}

-- solver::check.
pub data CheckResult : Type 0 where
  sat unsat unknown : CheckResult

-- What the code uses of z3, for expressions over the one variable of a constraint; `holds` reads an
-- expression at a value of the variable.
pub record Smt : Type 1 where
  pub Expr : Type 0
  pub both : Expr → Expr → Expr
  pub either : Expr → Expr → Expr
  pub false_val : Expr
  pub is_value : ℤ → Expr
  pub not_value : ℤ → Expr
  pub check : Expr → CheckResult
  pub holds : Expr → ℤ → Bool
  pub holds-both : (e f : Expr) (x : ℤ) → holds (both e f) x ≡ (holds e x && holds f x)
  pub holds-either : (e f : Expr) (x : ℤ) → holds (either e f) x ≡ (holds e x || holds f x)
  pub holds-false_val : (x : ℤ) → holds false_val x ≡ false
  pub holds-is_value : (n x : ℤ) → holds (is_value n) x ≡ eqb_ℤ x n
  pub holds-not_value : (n x : ℤ) → holds (not_value n) x ≡ not (eqb_ℤ x n)
  pub check-unsat : (e : Expr) (x : ℤ) → check e ≡ unsat → holds e x ≡ false

-- `none` is a z3 expression that was never assigned.
module _ (z : Smt) where
  open z use {Expr, both, either, false_val, is_value, not_value, check}

  pub record Constraint : Type 0 where
    pub v : ℕ
    pub cons : List (ℕ × Expr)
    pub cons_edge : List (ℕ × ℕ × Expr)
    pub dead_bbs : List ℕ
    pub merged : List ℕ

  unfoldable pub lookup : List (ℕ × Expr) → ℕ → Option Expr
  lookup [] bb = none
  lookup ((b, e) ∷ cons) bb = let later = lookup cons bb in if b == bb then some e else later

  unfoldable pub store : ℕ → Expr → List (ℕ × Expr) → List (ℕ × Expr)
  store bb e [] = (bb, e) ∷ []
  store bb e ((b, f) ∷ cons) =
      let later = store bb e cons in if b == bb then (b, e) ∷ cons else (b, f) ∷ later

  unfoldable pub satisfiable : Expr → Bool
  satisfiable e = elim (check e) [ sat ↦ true | unsat ↦ false | unknown ↦ true ]

  -- The constraint of a live block becomes `e`, which is tested if `solve` says so.
  unfoldable pub set_constraint : Constraint → ℕ → Expr → Bool → Constraint × Bool
  unfolding store satisfiable
  set_constraint c bb e solve =
      if solve && not (satisfiable e)
      then (
        record {
          v = c.v;
          cons = store bb false_val c.cons;
          cons_edge = c.cons_edge;
          dead_bbs = insert bb c.dead_bbs;
          merged = c.merged;
        },
        false,
      )
      else (
        record {
          v = c.v;
          cons = store bb e c.cons;
          cons_edge = c.cons_edge;
          dead_bbs = c.dead_bbs;
          merged = c.merged;
        },
        true,
      )

  -- The constraint after the call, and its result.
  unfoldable pub add_constraint : Constraint → Expr → Option ℕ → Bool → Constraint × Bool
  unfolding lookup set_constraint
  add_constraint c con none solve = (c, true)
  add_constraint c con (some bb) solve =
      if contains c.dead_bbs bb then (c, false) else elim (lookup c.cons bb) [
        | none ↦ set_constraint c bb con solve
        | some old ↦ set_constraint c bb (both old con) true
      ]

  unfoldable pub lookup_edge : List (ℕ × ℕ × Expr) → ℕ → ℕ → Option Expr
  lookup_edge [] b0 b1 = none
  lookup_edge ((a0, a1, e) ∷ edges) b0 b1 =
      let later = lookup_edge edges b0 b1 in if a0 == b0 && a1 == b1 then some e else later

  unfoldable pub store_edge : ℕ → ℕ → Expr → List (ℕ × ℕ × Expr) → List (ℕ × ℕ × Expr)
  store_edge b0 b1 e [] = (b0, b1, e) ∷ []
  store_edge b0 b1 e ((a0, a1, f) ∷ edges) =
      let later = store_edge b0 b1 e edges in
      if a0 == b0 && a1 == b1 then (a0, a1, e) ∷ edges else (a0, a1, f) ∷ later

  unfoldable pub put_edge : Constraint → ℕ → ℕ → Expr → Constraint
  unfolding store_edge
  put_edge c b0 b1 e = record {
    v = c.v;
    cons = c.cons;
    cons_edge = store_edge b0 b1 e c.cons_edge;
    dead_bbs = c.dead_bbs;
    merged = c.merged;
  }

  unfoldable pub add_edge_constraint : Constraint → Expr → Option ℕ → Option ℕ → Constraint × Bool
  unfolding lookup_edge put_edge
  add_edge_constraint c con none b1 = (c, false)
  add_edge_constraint c con (some b0) none = (c, false)
  add_edge_constraint c con (some b0) (some b1) =
      if contains c.dead_bbs b0 || contains c.dead_bbs b1
      then (c, false)
      else elim (lookup_edge c.cons_edge b0 b1) [
        | none ↦ (put_edge c b0 b1 con, true)
        | some old ↦ (put_edge c b0 b1 (both old con), true)
      ]

  -- addConstraint2BBs, and addConstraint2AllBBs with the blocks of the function.
  unfoldable pub add_constraint_2_bbs : Constraint → Expr → List ℕ → Bool → Constraint
  unfolding add_constraint
  add_constraint_2_bbs c con [] solve = c
  add_constraint_2_bbs c con (bb ∷ bbs) solve =
      add_constraint_2_bbs (add_constraint c con (some bb) solve).0 con bbs solve

  -- The two loops of merge.
  unfoldable pub merge_cons : Constraint → List (ℕ × Expr) → Constraint
  unfolding add_constraint
  merge_cons c [] = c
  merge_cons c ((bb, e) ∷ cons) = merge_cons (add_constraint c e (some bb) false).0 cons

  unfoldable pub merge_edges : Constraint → List (ℕ × ℕ × Expr) → Constraint
  unfolding add_edge_constraint
  merge_edges c [] = c
  merge_edges c ((b0, b1, e) ∷ edges) =
      merge_edges (add_edge_constraint c e (some b0) (some b1)).0 edges

  -- A constraint to merge is given with its pointer.
  unfoldable pub merge : Constraint → Option (ℕ × Constraint) → Constraint
  unfolding merge_cons merge_edges
  merge c none = c
  merge c (some (p, d)) =
      if not (d.v == c.v) || contains c.merged p
      then c
      else let m = merge_edges (merge_cons c d.cons) d.cons_edge in
        record {
          v = m.v;
          cons = m.cons;
          cons_edge = m.cons_edge;
          dead_bbs = m.dead_bbs;
          merged = insert p m.merged;
        }

  unfoldable pub eqv_from : Expr → List ℤ → Expr
  eqv_from e [] = e
  eqv_from e (n ∷ vs) = eqv_from (either e (is_value n)) vs

  unfoldable pub get_eqv_expr : List ℤ → Option Expr
  unfolding eqv_from
  get_eqv_expr [] = none
  get_eqv_expr (n ∷ vs) = some (eqv_from (is_value n) vs)

  unfoldable pub neqv_from : Expr → List ℤ → Expr
  neqv_from e [] = e
  neqv_from e (n ∷ vs) = neqv_from (both e (not_value n)) vs

  unfoldable pub get_neqv_expr : List ℤ → Option Expr
  unfolding neqv_from
  get_neqv_expr [] = none
  get_neqv_expr (n ∷ vs) = some (neqv_from (not_value n) vs)
