-- ===== src/Constraint/Tests.antt =====
-- Constraints over predicates on the values, where `none` is the expression false: the only one the
-- solver finds unsatisfiable.
use study_uafx.Base.{
  ℕ, ◌≡◌, refl, Bool, true, false, not, ◌&&◌, ◌||◌, Option, none, some, [], ◌∷◌, contains, arith,
  ◌==◌,
}
use study_uafx.Base.Int.{ℤ, pos, eqb_ℤ}
use study_uafx.Constraint.{
  CheckResult, unsat, unknown, Smt, Constraint, lookup, add_constraint, merge, satisfiable,
  set_constraint,
}
use study_uafx.Constraint.Adds.{holds_at, DeadFalse, add_constraint-holds_at}
use study_uafx.Constraint.Merge.{IsMap, add_constraint-DeadFalse, merge-holds_at}

abbrev Pred : Type 0
Pred = Option (ℤ → Bool)

abbrev both_of : Pred → Pred → Pred
both_of none f = none
both_of (some p) none = none
both_of (some p) (some q) = some (λ x. p x && q x)

abbrev either_of : Pred → Pred → Pred
either_of none f = f
either_of (some p) none = some p
either_of (some p) (some q) = some (λ x. p x || q x)

abbrev check_of : Pred → CheckResult
check_of none = unsat
check_of (some p) = unknown

abbrev at : Pred → ℤ → Bool
at none x = false
at (some p) x = p x

at-both_of : (e f : Pred) (x : ℤ) → at (both_of e f) x ≡ (at e x && at f x)
at-both_of none f x = refl
at-both_of (some p) none x = ground arith
at-both_of (some p) (some q) x = refl

at-either_of : (e f : Pred) (x : ℤ) → at (either_of e f) x ≡ (at e x || at f x)
at-either_of none f x = refl
at-either_of (some p) none x = ground arith
at-either_of (some p) (some q) x = refl

at-unsat : (e : Pred) (x : ℤ) → check_of e ≡ unsat → at e x ≡ false
at-unsat none x h = refl
at-unsat (some p) x h = cc

abbrev preds : Smt
preds = record {
  Expr = Pred;
  both = both_of;
  either = either_of;
  false_val = none;
  is_value = λ n. some (λ x. eqb_ℤ x n);
  not_value = λ n. some (λ x. not (eqb_ℤ x n));
  check = check_of;
  holds = at;
  holds-both = at-both_of;
  holds-either = at-either_of;
  holds-false_val = λ x. refl;
  holds-is_value = λ n x. refl;
  holds-not_value = λ n x. refl;
  check-unsat = at-unsat;
}

abbrev small : Pred
small = some (λ x. eqb_ℤ x (pos 0) || eqb_ℤ x (pos 1))

abbrev not_zero : Pred
not_zero = some (λ x. not (eqb_ℤ x (pos 0)))

-- The value is 0 or 1 in block 1, and block 2 is dead.
abbrev before : Constraint preds
before = record {
  v = 7;
  cons = (1, small) ∷ (2, none) ∷ [];
  cons_edge = [];
  dead_bbs = 2 ∷ [];
  merged = [];
}

abbrev other : Constraint preds
other = record {
  v = 7;
  cons = (1, not_zero) ∷ (3, small) ∷ [];
  cons_edge = (1, 3, small) ∷ [];
  dead_bbs = [];
  merged = [];
}

dead_before : (b : ℕ) (x : ℤ) → contains (2 ∷ []) b ≡ true → holds_at preds before b x ≡ false
unfolding contains lookup
dead_before b x h = ground arith

before-DeadFalse : DeadFalse preds before
before-DeadFalse = record { dead_false = dead_before }

other-IsMap : IsMap preds other.cons
unfolding lookup
other-IsMap = (refl, (refl, tt))

dies : (add_constraint preds before none (some 3) true).1 ≡ false
unfolding add_constraint set_constraint lookup contains satisfiable
dies = refl

add_constraint-holds_at_example :
    holds_at preds (add_constraint preds before not_zero (some 1) true).0 1 (pos 1)
    ≡ (holds_at preds before 1 (pos 1) && (not (1 == 1) || at not_zero (pos 1)))
add_constraint-holds_at_example =
    add_constraint-holds_at preds before not_zero 1 1 true (pos 1) before-DeadFalse

add_constraint-DeadFalse_example :
    DeadFalse preds (add_constraint preds before none (some 3) true).0
add_constraint-DeadFalse_example =
    add_constraint-DeadFalse preds before none (some 3) true before-DeadFalse

merge-holds_at_example :
    holds_at preds (merge preds before (some (5, other))) 1 (pos 0)
    ≡ (holds_at preds before 1 (pos 0) && holds_at preds other 1 (pos 0))
unfolding contains
merge-holds_at_example =
    merge-holds_at preds before other 5 1 (pos 0) before-DeadFalse other-IsMap refl refl
