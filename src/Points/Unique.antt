-- ===== src/Points/Unique.antt =====
-- The first loop of updateFieldPointsTo_do: what holds of every new record.
use study_uafx.Base.{
  ℕ, Bool, true, false, Option, none, some, List, [], ◌∷◌, ◌++◌, if◌then◌else◌, Bool-cases,
  Option-cases, inl, inr,
}
use study_uafx.Base.Int.{ℤ}
use study_uafx.Loc.{InstLoc}
use study_uafx.Loc.Judge.{Judge}
use study_uafx.Points.{FieldPto, Points, points_to_same, with_strong}
use study_uafx.Points.Update.{
  merge_duplicate, copy_for, unique_from, set_strength, scan_old, scan_new,
}

abbrev pub All : (FieldPto → Type 0) → List FieldPto → Type 0
All P [] = Unit {0}
All P (t ∷ ts) = P t × All P ts

-- What holds of the copy of every record given.
abbrev pub Copies : (FieldPto → Type 0) → ℕ → ℤ → Option InstLoc → List (Option FieldPto) → Type 0
Copies P this fid l [] = Unit {0}
Copies P this fid l (none ∷ ptos) = Copies P this fid l ptos
Copies P this fid l (some pto ∷ ptos) = P (copy_for this fid l pto) × Copies P this fid l ptos

module _ (P : FieldPto → Type 0) where
  All-append : (ts us : List FieldPto) → All P ts → All P us → All P (ts ++ us)
  All-append [] us a b = b
  All-append (t ∷ ts) us a b = (a.0, All-append ts us a.1 b)

  if-All : (b : Bool) (t u : FieldPto) → P t → P u → P (if b then t else u)
  if-All true t u p q = p
  if-All false t u p q = q

  module _ (closed : (t : FieldPto) → P t → P (with_strong t)) where
    -- The list after a record, whether or not an earlier one is the same.
    merge_duplicate-All :
        (pto : FieldPto) (uniq : List FieldPto)
        → All P uniq
        → elim (merge_duplicate pto uniq) as (λ x. Type 0) [ none ↦ Unit {0} | some u ↦ All P u ]
    unfolding merge_duplicate
    merge_duplicate-All pto [] a = tt
    merge_duplicate-All pto (t ∷ uniq) a = elim (Bool-cases (points_to_same t pto)) [
      | inl same ↦ rw same (if-All _ t (with_strong t) a.0 (closed t a.0), a.1)
      | inr other ↦
          let later = merge_duplicate-All pto uniq a.1 in
          elim (Option-cases (merge_duplicate pto uniq)) [
            | inl e ↦ rw (other, e) tt
            | inr (u, e) ↦ let b : All P u = (rw e at later) in rw (other, e) (a.0, b)
          ]
    ]

    pub unique_from-All :
        (this : ℕ) (fid : ℤ) (l : Option InstLoc) (uniq : List FieldPto)
        (ptos : List (Option FieldPto))
        → All P uniq
        → Copies P this fid l ptos
        → All P (unique_from this fid l uniq ptos)
    unfolding unique_from
    unique_from-All this fid l uniq [] a c = a
    unique_from-All this fid l uniq (none ∷ ptos) a c = unique_from-All this fid l uniq ptos a c
    unique_from-All this fid l uniq (some pto ∷ ptos) a c =
        let merged = merge_duplicate-All pto uniq a in
        elim (Option-cases (merge_duplicate pto uniq)) [
          | inl e ↦
              rw (e, unique_from)
                (unique_from-All this fid l (uniq ++ (copy_for this fid l pto ∷ [])) ptos
                  (All-append uniq _ a (c.0, tt)) c.1)
          | inr (u, e) ↦
              let b : All P u = (rw e at merged) in
              rw (e, unique_from) (unique_from-All this fid l u ptos b c.1)
        ]

  pub set_strength-All :
      (weak : Option Bool)
      → ((b : Bool) (t : FieldPto) → P t → P (record t { is_weak = b }))
      → (uniq : List FieldPto) → All P uniq
      → All P (set_strength weak uniq)
  unfolding set_strength
  set_strength-All none closed uniq a = a
  set_strength-All (some b) closed [] a = tt
  set_strength-All (some b) closed (t ∷ uniq) a =
      (closed b t a.0, set_strength-All (some b) closed uniq a.1)

  add-All :
      (dup : Bool) (add : List FieldPto) (pto : FieldPto)
      → All P add
      → P pto
      → All P (if dup then add else add ++ (pto ∷ []))
  add-All true add pto a p = a
  add-All false add pto a p = All-append add (pto ∷ []) a (p, tt)

  pub scan_new-All :
      (w : Judge) (this : ℕ) (old : List ℕ) (st : Points) (del : List ℕ) (add uniq : List FieldPto)
      → All P uniq
      → All P add
      → All P (scan_new w this old st del add uniq).to_add
  unfolding scan_new
  scan_new-All w this old st del add [] a b = b
  scan_new-All w this old st del add (pto ∷ uniq) a b =
      let s = scan_old w this pto st del false old in
      scan_new-All w this old s.state s.to_del (if s.is_dup then add else add ++ (pto ∷ [])) uniq
        a.1 (add-All s.is_dup add pto b a.0)
