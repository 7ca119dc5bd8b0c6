-- ===== src/Constraint/Order.antt =====
-- The partial-order constraints of a sequence of locations: the class POConstraint of
-- llvm_analysis/MainAnalysisPasses/Utils/include/Constraint.h; Solve models its solve. z3 is a
-- parameter; the vector of expressions is a list, newest first, and a location is a number, `none` a
-- null pointer.
use study_uafx.Base.{
  ℕ, ◌≡◌, refl, ◌∙◌, Bool, true, false, not, ◌&&◌, ◌||◌, Option, none, some, List, [], ◌∷◌,
  if◌then◌else◌, ◌==◌, ltb, arith, Bool-cases, Option-cases, inl, inr, ==_iff, ◌%◌,
}
use study_uafx.Base.Int.{ℤ, ltb_ℤ}
use study_uafx.Base.Lists.{length}

-- What the code uses of z3 here: integer variables named by locations. `holds` reads an expression
-- under the values of the variables.
pub record Orders : Type 1 where
  pub Expr : Type 0
  pub less : ℕ → ℕ → Expr
  pub either : Expr → Expr → Expr
  pub holds : Expr → (ℕ → ℤ) → Bool
  pub holds-less : (a b : ℕ) (f : ℕ → ℤ) → holds (less a b) f ≡ ltb_ℤ (f a) (f b)
  pub holds-either : (d e : Expr) (f : ℕ → ℤ) → holds (either d e) f ≡ (holds d f || holds e f)

-- flt_locs: the pairs of two different locations.
unfoldable usable : List (Option ℕ) → List ℕ
usable [] = []
usable (a ∷ []) = []
usable (none ∷ b ∷ locs) = usable locs
usable (some a ∷ none ∷ locs) = usable locs
usable (some a ∷ some b ∷ locs) = let rest = usable locs in if a == b then rest else a ∷ b ∷ rest

-- Whether a pair of two locations has the smaller value first.
abbrev pub some_before : List (Option ℕ) → (ℕ → ℤ) → Bool
some_before [] f = false
some_before (a ∷ []) f = false
some_before (none ∷ b ∷ locs) f = some_before locs f
some_before (some a ∷ none ∷ locs) f = some_before locs f
some_before (some a ∷ some b ∷ locs) f = ltb_ℤ (f a) (f b) || some_before locs f

-- Whether the list has a pair of two different locations.
abbrev pub has_pair : List (Option ℕ) → Bool
has_pair [] = false
has_pair (a ∷ []) = false
has_pair (none ∷ b ∷ locs) = has_pair locs
has_pair (some a ∷ none ∷ locs) = has_pair locs
has_pair (some a ∷ some b ∷ locs) = not (a == b) || has_pair locs

abbrev any_less : List ℕ → (ℕ → ℤ) → Bool
any_less [] f = false
any_less (a ∷ []) f = false
any_less (a ∷ b ∷ locs) f = ltb_ℤ (f a) (f b) || any_less locs f

ltb_ℤ_irrefl : (n : ℤ) → ltb_ℤ n n ≡ false
ltb_ℤ_irrefl n = ground arith

usable-some_before :
    (locs : List (Option ℕ)) (f : ℕ → ℤ) → any_less (usable locs) f ≡ some_before locs f
unfolding usable
usable-some_before [] f = refl
usable-some_before (a ∷ []) f = refl
usable-some_before (none ∷ b ∷ locs) f = usable-some_before locs f
usable-some_before (some a ∷ none ∷ locs) f = usable-some_before locs f
usable-some_before (some a ∷ some b ∷ locs) f = elim (Bool-cases (a == b)) [
  | inl same ↦
      let q : a ≡ b = (==_iff a b).0 same in
      rw (same, q, ltb_ℤ_irrefl (f b)) (usable-some_before locs f)
  | inr other ↦ rw (other, usable-some_before locs f)
]

or_assoc : (a b c : Bool) → ((a || b) || c) ≡ (a || (b || c))
or_assoc a b c = ground arith

module _ (z : Orders) where
  unfoldable pub po_add_constraint : List z.Expr → Option ℕ → Option ℕ → List z.Expr
  po_add_constraint es none i1 = es
  po_add_constraint es (some i0) none = es
  po_add_constraint es (some i0) (some i1) = if i0 == i1 then es else z.less i0 i1 ∷ es

  unfoldable or_from : z.Expr → List ℕ → z.Expr
  or_from e [] = e
  or_from e (a ∷ []) = e
  or_from e (a ∷ b ∷ locs) = or_from (z.either e (z.less a b)) locs

  unfoldable or_expr : List ℕ → Option z.Expr
  unfolding or_from
  or_expr [] = none
  or_expr (a ∷ []) = none
  or_expr (a ∷ b ∷ locs) = some (or_from (z.less a b) locs)

  -- The constraints after the call, and whether the result is 0 and not -1.
  unfoldable pub po_add_constraint_or : List z.Expr → List (Option ℕ) → List z.Expr × Bool
  unfolding usable or_expr
  po_add_constraint_or es locs =
      if ltb (length locs) 4 || length locs % 2 == 1
      then (es, false)
      else elim (or_expr (usable locs)) [ none ↦ (es, false) | some e ↦ (e ∷ es, true) ]

  -- Whether values of the locations meet every constraint.
  abbrev pub meets : List z.Expr → (ℕ → ℤ) → Bool
  meets [] f = true
  meets (e ∷ es) f = z.holds e f && meets es f

  -- Whether two locations are the same, or missing, or the first has the smaller value.
  abbrev pub before_or_same : Option ℕ → Option ℕ → (ℕ → ℤ) → Bool
  before_or_same none b f = true
  before_or_same (some a) none f = true
  before_or_same (some a) (some b) f = a == b || ltb_ℤ (f a) (f b)

  -- addConstraint adds exactly the demand that the first location has the smaller value, and adds
  -- nothing for a missing location or for one location twice.
  pub po_add_constraint-meets :
      (es : List z.Expr) (a b : Option ℕ) (f : ℕ → ℤ)
      → meets (po_add_constraint es a b) f ≡ (before_or_same a b f && meets es f)
  unfolding po_add_constraint
  po_add_constraint-meets es none b f = refl
  po_add_constraint-meets es (some a) none f = refl
  po_add_constraint-meets es (some a) (some b) f = elim (Bool-cases (a == b)) [
    | inl same ↦ rw same
    | inr other ↦ rw (other, z.holds-less a b f)
  ]

  or_from-any_less :
      (e : z.Expr) (locs : List ℕ) (f : ℕ → ℤ)
      → z.holds (or_from e locs) f ≡ (z.holds e f || any_less locs f)
  unfolding or_from
  or_from-any_less e [] f = ground arith
  or_from-any_less e (a ∷ []) f = ground arith
  or_from-any_less e (a ∷ b ∷ locs) f =
      rw
        (
          or_from-any_less (z.either e (z.less a b)) locs f,
          z.holds-either e (z.less a b) f,
          z.holds-less a b f,
        )
        (or_assoc (z.holds e f) (ltb_ℤ (f a) (f b)) (any_less locs f))

  some_expr : (d e : z.Expr) → some d ≡ some e → d ≡ e
  some_expr d e h = cc

  or_expr-any_less :
      (locs : List ℕ) (e : z.Expr) (f : ℕ → ℤ)
      → or_expr locs ≡ some e
      → z.holds e f ≡ any_less locs f
  unfolding or_expr
  or_expr-any_less [] e f h = cc
  or_expr-any_less (a ∷ []) e f h = cc
  or_expr-any_less (a ∷ b ∷ locs) e f h = rw (
    ← some_expr (or_from (z.less a b) locs) e h,
    or_from-any_less (z.less a b) locs f,
    z.holds-less a b f,
  )

  -- addConstraintOr that succeeds adds exactly the demand that one pair of the list has its smaller
  -- value first, where a pair with a missing location, or of one location twice, does not count; when
  -- it fails it adds nothing.
  pub po_add_constraint_or-meets :
      (es : List z.Expr) (locs : List (Option ℕ)) (f : ℕ → ℤ)
      → meets (po_add_constraint_or es locs).0 f ≡ (
          if (po_add_constraint_or es locs).1 then some_before locs f && meets es f else meets es f)
  unfolding po_add_constraint_or
  po_add_constraint_or-meets es locs f =
      elim (Bool-cases (ltb (length locs) 4 || length locs % 2 == 1)) [
        | inl bad ↦ rw bad
        | inr good ↦ elim (Option-cases (or_expr (usable locs))) [
          | inl h ↦ rw (good, h)
          | inr (e, h) ↦
              let k : z.holds e f ≡ some_before locs f =
                or_expr-any_less (usable locs) e f h ∙ usable-some_before locs f in
              rw (good, h, k)
        ]
      ]

  abbrev present : Option z.Expr → Bool
  present none = false
  present (some e) = true

  or_expr-has_pair : (locs : List (Option ℕ)) → present (or_expr (usable locs)) ≡ has_pair locs
  unfolding or_expr usable
  or_expr-has_pair [] = refl
  or_expr-has_pair (a ∷ []) = refl
  or_expr-has_pair (none ∷ b ∷ locs) = or_expr-has_pair locs
  or_expr-has_pair (some a ∷ none ∷ locs) = or_expr-has_pair locs
  or_expr-has_pair (some a ∷ some b ∷ locs) = elim (Bool-cases (a == b)) [
    | inl same ↦ rw same (or_expr-has_pair locs)
    | inr other ↦ rw other
  ]

  -- addConstraintOr succeeds exactly when the list has an even number of at least four entries and a
  -- pair of two different locations that are not missing.
  pub po_add_constraint_or-has_pair :
      (es : List z.Expr) (locs : List (Option ℕ))
      → (po_add_constraint_or es locs).1
        ≡ (not (ltb (length locs) 4) && not (length locs % 2 == 1) && has_pair locs)
  unfolding po_add_constraint_or
  po_add_constraint_or-has_pair es locs =
      let pair = or_expr-has_pair locs in
      elim (Bool-cases (ltb (length locs) 4 || length locs % 2 == 1)) [
        | inl bad ↦ ground (arith, bad)
        | inr good ↦ elim (Option-cases (or_expr (usable locs))) [
          | inl h ↦
              let p : false ≡ has_pair locs = (rw h at pair) in
              rw (good, h) (ground (arith, good, p))
          | inr (e, h) ↦
              let p : true ≡ has_pair locs = (rw h at pair) in
              rw (good, h) (ground (arith, good, p))
        ]
      ]
