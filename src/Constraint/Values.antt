-- ===== src/Constraint/Values.antt =====
-- getEqvExpr and getNeqvExpr: the values their expressions hold of.
use study_uafx.Base.{◌≡◌, Bool, false, not, ◌&&◌, ◌||◌, Option, none, some, List, [], ◌∷◌, arith}
use study_uafx.Base.Int.{ℤ, eqb_ℤ}
use study_uafx.Constraint.{Smt, eqv_from, get_eqv_expr, neqv_from, get_neqv_expr}

-- Whether a value is among those listed.
abbrev pub among : List ℤ → ℤ → Bool
among [] x = false
among (n ∷ vs) x = eqb_ℤ x n || among vs x

or_assoc : (a b c : Bool) → ((a || b) || c) ≡ (a || (b || c))
or_assoc a b c = ground arith

and_not_or : (a b c : Bool) → ((a && not b) && not c) ≡ (a && not (b || c))
and_not_or a b c = ground arith

not_or : (a b : Bool) → some (not a && not b) ≡ some (not (a || b))
not_or a b = ground arith

module _ (z : Smt) where
  eqv_from-among :
      (e : z.Expr) (vs : List ℤ) (x : ℤ) → z.holds (eqv_from z e vs) x ≡ (z.holds e x || among vs x)
  unfolding eqv_from
  eqv_from-among e [] x = ground arith
  eqv_from-among e (n ∷ vs) x =
      rw
        (
          eqv_from-among (z.either e (z.is_value n)) vs x,
          z.holds-either e (z.is_value n) x,
          z.holds-is_value n x,
        )
        (or_assoc (z.holds e x) (eqb_ℤ x n) (among vs x))

  neqv_from-among :
      (e : z.Expr) (vs : List ℤ) (x : ℤ)
      → z.holds (neqv_from z e vs) x ≡ (z.holds e x && not (among vs x))
  unfolding neqv_from
  neqv_from-among e [] x = ground arith
  neqv_from-among e (n ∷ vs) x =
      rw
        (
          neqv_from-among (z.both e (z.not_value n)) vs x,
          z.holds-both e (z.not_value n) x,
          z.holds-not_value n x,
        )
        (and_not_or (z.holds e x) (eqb_ℤ x n) (among vs x))

  -- What an expression that may be missing says of a value.
  abbrev pub says : Option z.Expr → ℤ → Option Bool
  says none x = none
  says (some e) x = some (z.holds e x)

  -- For a list of values that is not empty, getEqvExpr returns an expression that holds exactly of
  -- the values listed, and getNeqvExpr one that holds exactly of the others.
  pub get_eqv_expr-among :
      (n : ℤ) (vs : List ℤ) (x : ℤ)
      → (says (get_eqv_expr z (n ∷ vs)) x ≡ some (among (n ∷ vs) x))
        × (says (get_neqv_expr z (n ∷ vs)) x ≡ some (not (among (n ∷ vs) x)))
  unfolding get_eqv_expr get_neqv_expr
  get_eqv_expr-among n vs x = (
    rw (eqv_from-among (z.is_value n) vs x, z.holds-is_value n x),
    rw (neqv_from-among (z.not_value n) vs x, z.holds-not_value n x)
        (not_or (eqb_ℤ x n) (among vs x)),
  )
