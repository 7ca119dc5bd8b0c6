-- ===== src/Constraint/Adds.antt =====
-- addConstraint: what the constraint of each block means after it, and the dead blocks.
use study_uafx.Base.{
  ℕ, ◌≡◌, refl, Bool, true, false, not, ◌&&◌, ◌||◌, Option, none, some, List, [], ◌∷◌,
  if◌then◌else◌, ◌==◌, contains, arith, Bool-cases, Option-cases, inl, inr, ==_iff,
}
use study_uafx.Base.Int.{ℤ}
use study_uafx.Constraint.{
  CheckResult, sat, unsat, unknown, Smt, Constraint, lookup, store, satisfiable, set_constraint,
  add_constraint,
}

verdict :
    (r : CheckResult) → (elim r [ sat ↦ true | unsat ↦ false | unknown ↦ true ]) ≡ false → r ≡ unsat
verdict sat h = cc
verdict unsat h = refl
verdict unknown h = cc

module _ (z : Smt) where
  lookup-store :
      (bb b : ℕ) (e : z.Expr) (cons : List (ℕ × z.Expr))
      → lookup z (store z bb e cons) b ≡ (if bb == b then some e else lookup z cons b)
  unfolding lookup store
  lookup-store bb b e [] = refl
  lookup-store bb b e ((a, f) ∷ cons) = elim (Bool-cases (a == bb)) [
    | inl same ↦ ground (arith, same)
    | inr other ↦ ground (arith, other, lookup-store bb b e cons)
  ]

  abbrev pub value_of : Option z.Expr → ℤ → Bool
  value_of none x = true
  value_of (some e) x = z.holds e x

  -- Whether a value meets the constraint of a block; a block without one is met.
  abbrev pub holds_at : Constraint z → ℕ → ℤ → Bool
  holds_at c bb x = value_of (lookup z c.cons bb) x

  -- The constraint of a dead block holds of no value.
  pub record DeadFalse (c : Constraint z) : Type 0 where
    pub dead_false : (bb : ℕ) (x : ℤ) → contains c.dead_bbs bb ≡ true → holds_at c bb x ≡ false

  stored :
      (bb b : ℕ) (e : z.Expr) (cons : List (ℕ × z.Expr)) (x : ℤ)
      → value_of (lookup z (store z bb e cons) b) x
        ≡ (if bb == b then z.holds e x else value_of (lookup z cons b) x)
  stored bb b e cons x = elim (Bool-cases (bb == b)) [
    | inl here ↦ rw (lookup-store bb b e cons, here)
    | inr there ↦ rw (lookup-store bb b e cons, there)
  ]

  pub satisfiable-false : (e : z.Expr) (x : ℤ) → satisfiable z e ≡ false → z.holds e x ≡ false
  unfolding satisfiable
  satisfiable-false e x h = z.check-unsat e x (verdict (z.check e) h)

  pub set_constraint-holds_at :
      (c : Constraint z) (bb b : ℕ) (e : z.Expr) (solve : Bool) (x : ℤ)
      → holds_at (set_constraint z c bb e solve).0 b x
        ≡ (if bb == b then z.holds e x else holds_at c b x)
  unfolding set_constraint
  set_constraint-holds_at c bb b e solve x = elim (Bool-cases (solve && not (satisfiable z e))) [
    | inr live ↦ rw live (stored bb b e c.cons x)
    | inl dead ↦
        let none_holds : z.holds e x ≡ false = satisfiable-false e x (ground (arith, dead)) in
        rw (dead, none_holds, ← z.holds-false_val x) (stored bb b z.false_val c.cons x)
  ]

  -- What the call adds: the constraint `con`, at the block `bb` alone.
  abbrev added : Constraint z → z.Expr → ℕ → ℕ → ℤ → Bool
  added c con bb b x = holds_at c b x && (not (bb == b) || z.holds con x)

  fresh :
      (c : Constraint z) (con : z.Expr) (bb b : ℕ) (x : ℤ)
      → lookup z c.cons bb ≡ none
      → (if bb == b then z.holds con x else holds_at c b x) ≡ added c con bb b x
  fresh c con bb b x e = elim (Bool-cases (bb == b)) [
    | inl here ↦
        let q : bb ≡ b = (==_iff bb b).0 here in
        let e' : lookup z c.cons b ≡ none = (rw q at e) in rw (here, e') (ground arith)
    | inr there ↦ rw there (ground arith)
  ]

  again :
      (c : Constraint z) (con old : z.Expr) (bb b : ℕ) (x : ℤ)
      → lookup z c.cons bb ≡ some old
      → (if bb == b then z.holds old x && z.holds con x else holds_at c b x) ≡ added c con bb b x
  again c con old bb b x e = elim (Bool-cases (bb == b)) [
    | inl here ↦
        let q : bb ≡ b = (==_iff bb b).0 here in
        let e' : lookup z c.cons b ≡ some old = (rw q at e) in rw (here, e') (ground arith)
    | inr there ↦ rw there (ground arith)
  ]

  -- When the constraint of each dead block holds of no value, addConstraint makes the constraint of
  -- its block the conjunction with the new one, for every value and whether it solves or not, and
  -- leaves the constraint of every other block as it is.
  pub add_constraint-holds_at :
      (c : Constraint z) (con : z.Expr) (bb b : ℕ) (solve : Bool) (x : ℤ)
      → DeadFalse c
      → holds_at (add_constraint z c con (some bb) solve).0 b x
        ≡ (holds_at c b x && (not (bb == b) || z.holds con x))
  unfolding add_constraint
  add_constraint-holds_at c con bb b solve x d = elim (Bool-cases (contains c.dead_bbs bb)) [
    | inl dead ↦ elim (Bool-cases (bb == b)) [
      | inl here ↦
          let q : bb ≡ b = (==_iff bb b).0 here in
          let f : holds_at c b x ≡ false = d.dead_false b x (rw q at dead) in rw (dead, f)
      | inr there ↦ rw (dead, there) (ground arith)
    ]
    | inr live ↦ elim (Option-cases (lookup z c.cons bb)) [
      | inl e ↦ rw (live, e, set_constraint-holds_at c bb b con solve x) (fresh c con bb b x e)
      | inr (old, e) ↦
          rw
            (
              live,
              e,
              set_constraint-holds_at c bb b (z.both old con) true x,
              z.holds-both old con x,
            )
            (again c con old bb b x e)
    ]
  ]

  set_constraint-holds :
      (c : Constraint z) (bb : ℕ) (e : z.Expr) (solve : Bool) (x : ℤ)
      → (set_constraint z c bb e solve).1 ≡ false
      → z.holds e x ≡ false
  unfolding set_constraint
  set_constraint-holds c bb e solve x h = elim (Bool-cases (solve && not (satisfiable z e))) [
    | inl dead ↦ satisfiable-false e x (ground (arith, dead))
    | inr live ↦ let k : true ≡ false = (rw live at h) in cc
  ]

  -- When the constraint of each dead block holds of no value and addConstraint answers false, no
  -- value meets both the constraint of the block and the new one.
  pub add_constraint_refused :
      (c : Constraint z) (con : z.Expr) (bb : ℕ) (solve : Bool) (x : ℤ)
      → DeadFalse c
      → (add_constraint z c con (some bb) solve).1 ≡ false
      → (holds_at c bb x && z.holds con x) ≡ false
  unfolding add_constraint
  add_constraint_refused c con bb solve x d h = elim (Bool-cases (contains c.dead_bbs bb)) [
    | inl dead ↦ rw (d.dead_false bb x dead)
    | inr live ↦ elim (Option-cases (lookup z c.cons bb)) [
      | inl e ↦
          let no : z.holds con x ≡ false =
            set_constraint-holds c bb con solve x (rw (live, e) at h) in
          rw (e, no)
      | inr (old, e) ↦
          let no : z.holds (z.both old con) x ≡ false =
            set_constraint-holds c bb (z.both old con) true x (rw (live, e) at h) in
          rw (e, ← z.holds-both old con x) no
    ]
  ]
