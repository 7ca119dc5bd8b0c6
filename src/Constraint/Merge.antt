-- ===== src/Constraint/Merge.antt =====
-- The dead blocks of a constraint, addConstraint2BBs, and merge.
use study_uafx.Base.{
  ℕ, ◌≡◌, refl, ap, ◌∙◌, Bool, true, false, not, ◌&&◌, ◌||◌, Option, none, some, List, [], ◌∷◌,
  ◌==◌, contains, insert, contains-insert, arith, Bool-cases, Option-cases, inl, inr, ==_iff,
}
use study_uafx.Base.Int.{ℤ}
use study_uafx.Constraint.{
  Smt, Constraint, lookup, satisfiable, set_constraint, add_constraint, add_constraint_2_bbs,
  lookup_edge, put_edge, add_edge_constraint, merge_cons, merge_edges, merge,
}
use study_uafx.Constraint.Adds.{
  value_of, holds_at, DeadFalse, satisfiable-false, set_constraint-holds_at,
  add_constraint-holds_at,
}

module _ (z : Smt) where
  set_constraint-DeadFalse :
      (c : Constraint z) (bb : ℕ) (e : z.Expr) (solve : Bool)
      → DeadFalse z c
      → contains c.dead_bbs bb ≡ false
      → DeadFalse z (set_constraint z c bb e solve).0
  unfolding set_constraint
  set_constraint-DeadFalse c bb e solve d live = record {
    dead_false = λ b x h.
        let meant = set_constraint-holds_at z c bb b e solve x in
        elim (Bool-cases (solve && not (satisfiable z e))) [
          | inr lives ↦
              let old : contains c.dead_bbs b ≡ true = (rw lives at h) in
              elim (Bool-cases (bb == b)) [
                | inl here ↦ let q : bb ≡ b = (==_iff bb b).0 here in cc (q, live, old)
                | inr there ↦ ground (arith, meant, there, d.dead_false b x old)
              ]
          | inl dies ↦
              let no_value = satisfiable-false z e x (ground (arith, dies)) in
              let both : contains (insert bb c.dead_bbs) b ≡ true = (rw dies at h) in
              elim (Bool-cases (bb == b)) [
                | inl here ↦ ground (arith, meant, here, no_value)
                | inr there ↦
                    let old : contains c.dead_bbs b ≡ true =
                      ground (arith, both, there, contains-insert bb b c.dead_bbs) in
                    ground (arith, meant, there, d.dead_false b x old)
              ]
        ];
  }

  -- addConstraint keeps the constraint of every dead block one that holds of no value, for every
  -- block, null included, and whether it solves or not.
  pub add_constraint-DeadFalse :
      (c : Constraint z) (con : z.Expr) (bb : Option ℕ) (solve : Bool)
      → DeadFalse z c
      → DeadFalse z (add_constraint z c con bb solve).0
  unfolding add_constraint
  add_constraint-DeadFalse c con none solve d = d
  add_constraint-DeadFalse c con (some bb) solve d = elim (Bool-cases (contains c.dead_bbs bb)) [
    | inl dead ↦ rw dead d
    | inr live ↦ elim (Option-cases (lookup z c.cons bb)) [
      | inl e ↦ rw (live, e) (set_constraint-DeadFalse c bb con solve d live)
      | inr (old, e) ↦ rw (live, e) (set_constraint-DeadFalse c bb (z.both old con) true d live)
    ]
  ]

  one_more :
      (h n : Bool) (bb b : ℕ) (bbs : List ℕ)
      → ((h && (not (bb == b) || n)) && (not (contains bbs b) || n))
        ≡ (h && (not (contains (bb ∷ bbs) b) || n))
  unfolding contains
  one_more h n bb b bbs = ground arith

  -- When the constraint of each dead block holds of no value, addConstraint2BBs makes the constraint
  -- of every block listed the conjunction with the new one, for every value, and leaves that of every
  -- other block as it is.
  pub add_constraint_2_bbs-holds_at :
      (c : Constraint z) (con : z.Expr) (bbs : List ℕ) (b : ℕ) (solve : Bool) (x : ℤ)
      → DeadFalse z c
      → holds_at z (add_constraint_2_bbs z c con bbs solve) b x
        ≡ (holds_at z c b x && (not (contains bbs b) || z.holds con x))
  unfolding add_constraint_2_bbs contains
  add_constraint_2_bbs-holds_at c con [] b solve x d = ground arith
  add_constraint_2_bbs-holds_at c con (bb ∷ bbs) b solve x d =
      let next = add_constraint z c con (some bb) solve in
      add_constraint_2_bbs-holds_at next.0 con bbs b solve x
        (add_constraint-DeadFalse c con (some bb) solve d)
      ∙ ap (λ t. t && (not (contains bbs b) || z.holds con x))
          (add_constraint-holds_at z c con bb b solve x d)
      ∙ one_more (holds_at z c b x) (z.holds con x) bb b bbs

  -- Every block is listed once.
  abbrev pub IsMap : List (ℕ × z.Expr) → Type 0
  IsMap [] = Unit {0}
  IsMap ((b, e) ∷ cons) = (lookup z cons b ≡ none) × IsMap cons

  first_entry :
      (c : Constraint z) (bb b : ℕ) (e : z.Expr) (cons : List (ℕ × z.Expr)) (x : ℤ)
      → lookup z cons bb ≡ none
      → ((holds_at z c b x && (not (bb == b) || z.holds e x)) && value_of z (lookup z cons b) x)
        ≡ (holds_at z c b x && value_of z (lookup z ((bb, e) ∷ cons) b) x)
  unfolding lookup
  first_entry c bb b e cons x h = elim (Bool-cases (bb == b)) [
    | inl here ↦
        let q : bb ≡ b = (==_iff bb b).0 here in
        let h' : lookup z cons b ≡ none = (rw q at h) in rw (here, h') (ground arith)
    | inr there ↦ rw there (ground arith)
  ]

  merge_cons-holds_at :
      (c : Constraint z) (cons : List (ℕ × z.Expr)) (b : ℕ) (x : ℤ)
      → DeadFalse z c
      → IsMap cons
      → holds_at z (merge_cons z c cons) b x ≡ (holds_at z c b x && value_of z (lookup z cons b) x)
  unfolding merge_cons lookup
  merge_cons-holds_at c [] b x d m = ground arith
  merge_cons-holds_at c ((bb, e) ∷ cons) b x d m =
      let next = add_constraint z c e (some bb) false in
      let rest =
        merge_cons-holds_at next.0 cons b x (add_constraint-DeadFalse c e (some bb) false d) m.1 in
      rest
      ∙ ap (λ t. t && value_of z (lookup z cons b) x) (add_constraint-holds_at z c e bb b false x d)
      ∙ first_entry c bb b e cons x m.0

  add_edge_constraint-cons :
      (c : Constraint z) (e : z.Expr) (b0 b1 : ℕ)
      → (add_edge_constraint z c e (some b0) (some b1)).0.cons ≡ c.cons
  unfolding add_edge_constraint put_edge
  add_edge_constraint-cons c e b0 b1 =
      elim (Bool-cases (contains c.dead_bbs b0 || contains c.dead_bbs b1)) [
        | inl dead ↦ rw dead
        | inr live ↦ elim (Option-cases (lookup_edge z c.cons_edge b0 b1)) [
          | inl h ↦ rw (live, h)
          | inr (old, h) ↦ rw (live, h)
        ]
      ]

  merge_edges-cons :
      (c : Constraint z) (edges : List (ℕ × ℕ × z.Expr)) → (merge_edges z c edges).cons ≡ c.cons
  unfolding merge_edges
  merge_edges-cons c [] = refl
  merge_edges-cons c ((b0, b1, e) ∷ edges) =
      merge_edges-cons (add_edge_constraint z c e (some b0) (some b1)).0 edges
      ∙ add_edge_constraint-cons c e b0 b1

  -- Merging a constraint on the same variable that was not merged before makes the constraint of
  -- every block the conjunction of the two, for every value, when the constraints of dead blocks
  -- hold of no value and the merged one lists each block once.
  pub merge-holds_at :
      (c d : Constraint z) (p b : ℕ) (x : ℤ)
      → DeadFalse z c
      → IsMap d.cons
      → d.v ≡ c.v
      → contains c.merged p ≡ false
      → holds_at z (merge z c (some (p, d))) b x ≡ (holds_at z c b x && holds_at z d b x)
  unfolding merge
  merge-holds_at c d p b x dead m same new =
      let on : not (d.v == c.v) || contains c.merged p ≡ false = ground (arith, same, new) in
      rw on (
        ap (λ cons. value_of z (lookup z cons b) x)
          (merge_edges-cons (merge_cons z c d.cons) d.cons_edge)
        ∙ merge_cons-holds_at c d.cons b x dead m)
