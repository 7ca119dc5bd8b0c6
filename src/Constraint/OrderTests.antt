-- ===== src/Constraint/OrderTests.antt =====
-- Partial-order constraints as predicates on the values of the locations.
use study_uafx.Base.{
  List, ℕ, ◌≡◌, refl, Bool, not, ◌&&◌, ◌||◌, Option, none, some, [], ◌∷◌, ◌==◌, ltb, ◌%◌,
  if◌then◌else◌,
}
use study_uafx.Base.Int.{ℤ, pos, ltb_ℤ}
use study_uafx.Base.Lists.{length}
use study_uafx.Constraint.Order.{
  Orders, po_add_constraint_or, meets, some_before, has_pair, po_add_constraint_or-meets,
  po_add_constraint_or-has_pair,
}

-- Constraints over predicates on the values of the locations.
abbrev orders : Orders
orders = record {
  Expr = (ℕ → ℤ) → Bool;
  less = λ a b f. ltb_ℤ (f a) (f b);
  either = λ d e f. d f || e f;
  holds = λ e f. e f;
  holds-less = λ a b f. refl;
  holds-either = λ d e f. refl;
}

-- A pair of one location twice, a pair with a missing one, and two that count.
abbrev pairs : List (Option ℕ)
pairs = some 1 ∷ some 1 ∷ none ∷ some 2 ∷ some 3 ∷ some 2 ∷ some 2 ∷ some 4 ∷ []

po_add_constraint_or-meets_example :
    meets orders (po_add_constraint_or orders [] pairs).0 (λ i. pos i) ≡ (
      if (po_add_constraint_or orders [] pairs).1
      then some_before pairs (λ i. pos i) && meets orders [] (λ i. pos i)
      else meets orders [] (λ i. pos i))
po_add_constraint_or-meets_example = po_add_constraint_or-meets orders [] pairs (λ i. pos i)

po_add_constraint_or-has_pair_example :
    (po_add_constraint_or orders [] pairs).1
    ≡ (not (ltb (length pairs) 4) && not (length pairs % 2 == 1) && has_pair pairs)
po_add_constraint_or-has_pair_example = po_add_constraint_or-has_pair orders [] pairs
