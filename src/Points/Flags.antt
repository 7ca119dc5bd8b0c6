-- ===== src/Points/Flags.antt =====
-- The steps of updateFieldPointsTo_do that change only the flags of records.
use study_uafx.Base.{
  ℕ, ◌≡◌, refl, ◌∙◌, ap, Bool, true, false, not, ◌&&◌, ◌||◌, List, [], ◌∷◌, ◌++◌, if◌then◌else◌,
  ◌==◌, insert, Bool-cases, Option-cases, inl, inr, ==_iff,
}
use study_uafx.Base.Int.{ℤ}
use study_uafx.Loc.Judge.{Judge}
use study_uafx.Points.{
  FieldPto, Points, same_pto, set_record, with_active, with_strong, mark_points_from,
  activate_field_pto, same_fields, reset_one, reset_each, with_reset, reset_ptos,
}
use study_uafx.Points.Update.{kills, refresh, scan_old, scan_new, deactivate_all}

-- A record but for its two flags.
pub core : FieldPto → FieldPto
core r = record r { is_weak = false; is_active = true }

core-with_active : (b : Bool) (r : FieldPto) → core (with_active b r) ≡ core r
unfolding core with_active
core-with_active b r = refl

core-with_strong : (r : FieldPto) → core (with_strong r) ≡ core r
unfolding core with_strong
core-with_strong r = refl

-- A change of flags only.
pub record SameLinks (st st' : Points) : Type 0 where
  pub next_same : st'.next ≡ st.next
  pub to_same : st'.points_to ≡ st.points_to
  pub from_same : st'.points_from ≡ st.points_from
  pub core_same : (k : ℕ) → core (st'.records k) ≡ core (st.records k)

pub SameLinks-refl : (st : Points) → SameLinks st st
SameLinks-refl st = record {
  next_same = refl;
  to_same = refl;
  from_same = refl;
  core_same = λ k. refl;
}

pub SameLinks-trans : (a b c : Points) → SameLinks a b → SameLinks b c → SameLinks a c
SameLinks-trans a b c p q = record {
  next_same = q.next_same ∙ p.next_same;
  to_same = q.to_same ∙ p.to_same;
  from_same = q.from_same ∙ p.from_same;
  core_same = λ k. q.core_same k ∙ p.core_same k;
}

set_record-SameLinks :
    (st : Points) (p : ℕ) (r : FieldPto)
    → core r ≡ core (st.records p)
    → SameLinks st (set_record st p r)
unfolding set_record
set_record-SameLinks st p r e = record {
  next_same = refl;
  to_same = refl;
  from_same = refl;
  core_same = λ k. elim (Bool-cases (k == p)) [
    | inl same ↦ let q : k ≡ p = (==_iff k p).0 same in rw (same, e, q) refl
    | inr other ↦ rw other refl
  ];
}

pub set_active-SameLinks :
    (st : Points) (p : ℕ) (b : Bool) → SameLinks st (set_record st p (with_active b (st.records p)))
set_active-SameLinks st p b = set_record-SameLinks st p _ (core-with_active b (st.records p))

pub set_strong-SameLinks :
    (st : Points) (p : ℕ) → SameLinks st (set_record st p (with_strong (st.records p)))
set_strong-SameLinks st p = set_record-SameLinks st p _ (core-with_strong (st.records p))

if-SameLinks :
    (b : Bool) (st s t : Points)
    → SameLinks st s
    → SameLinks st t
    → SameLinks st (if b then s else t)
if-SameLinks true st s t p q = p
if-SameLinks false st s t p q = q

mark_points_from-SameLinks :
    (st : Points) (pto : FieldPto) (act : Bool) (places : List ℕ)
    → SameLinks st (mark_points_from st pto act places)
unfolding mark_points_from
mark_points_from-SameLinks st pto act [] = SameLinks-refl st
mark_points_from-SameLinks st pto act (p ∷ places) =
    let st' =
      if same_fields (st.records p) pto
      then set_record st p (with_active act (st.records p))
      else st in
    SameLinks-trans st st' _
      (if-SameLinks (same_fields (st.records p) pto) st _ _ (set_active-SameLinks st p act)
        (SameLinks-refl st))
      (mark_points_from-SameLinks st' pto act places)

pub activate_field_pto-SameLinks :
    (st : Points) (this p : ℕ) (act : Bool) → SameLinks st (activate_field_pto st this p act)
unfolding activate_field_pto
activate_field_pto-SameLinks st this p act =
    let st' = set_record st p (with_active act (st.records p)) in
    elim (Option-cases (st.records p).target_object) [
      | inl e ↦ rw (e, activate_field_pto) (set_active-SameLinks st p act)
      | inr (t, e) ↦
          rw (e, activate_field_pto)
            (SameLinks-trans st st' _ (set_active-SameLinks st p act)
              (mark_points_from-SameLinks st' (st'.records p) act (st'.points_from t this)))
    ]

pub refresh-SameLinks :
    (st : Points) (this : ℕ) (pto : FieldPto) (e : ℕ) → SameLinks st (refresh st this pto e)
unfolding refresh
refresh-SameLinks st this pto e =
    let old = st.records e in
    let alike = old.is_weak && pto.is_weak || not old.is_weak && not pto.is_weak in
    let st' = if alike then st else set_record st e (with_strong old) in
    let first : SameLinks st st' =
      if-SameLinks alike st _ _ (SameLinks-refl st)
        (set_record-SameLinks st e _ (core-with_strong old)) in
    if-SameLinks (old.is_active && pto.is_active || not old.is_active && not pto.is_active) st _ _
      first (SameLinks-trans st st' _ first (activate_field_pto-SameLinks st' this e pto.is_active))

pub scan_old-SameLinks :
    (w : Judge) (this : ℕ) (pto : FieldPto) (st : Points) (del : List ℕ) (dup : Bool)
    (places : List ℕ)
    → SameLinks st (scan_old w this pto st del dup places).state
unfolding scan_old
scan_old-SameLinks w this pto st del dup [] = SameLinks-refl st
scan_old-SameLinks w this pto st del dup (e ∷ places) =
    let kill = kills w pto (st.records e) in
    let again = not kill && not dup && same_pto (st.records e) pto in
    let st' = if again then refresh st this pto e else st in
    SameLinks-trans st st' _
      (if-SameLinks again st _ _ (refresh-SameLinks st this pto e) (SameLinks-refl st))
      (scan_old-SameLinks w this pto st' (if kill then insert e del else del) (dup || again) places)

pub scan_new-SameLinks :
    (w : Judge) (this : ℕ) (old : List ℕ) (st : Points) (del : List ℕ) (add uniq : List FieldPto)
    → SameLinks st (scan_new w this old st del add uniq).state
unfolding scan_new
scan_new-SameLinks w this old st del add [] = SameLinks-refl st
scan_new-SameLinks w this old st del add (pto ∷ uniq) =
    SameLinks-trans st _ _ (scan_old-SameLinks w this pto st del false old) (
      let s = scan_old w this pto st del false old in
      scan_new-SameLinks w this old s.state s.to_del (if s.is_dup then add else add ++ (pto ∷ []))
        uniq)

pub deactivate_all-SameLinks :
    (st : Points) (this : ℕ) (del : List ℕ) → SameLinks st (deactivate_all st this del)
unfolding deactivate_all
deactivate_all-SameLinks st this [] = SameLinks-refl st
deactivate_all-SameLinks st this (p ∷ del) =
    SameLinks-trans st _ _ (activate_field_pto-SameLinks st this p false)
      (deactivate_all-SameLinks (activate_field_pto st this p false) this del)

pub core-target : (r s : FieldPto) → core r ≡ core s → r.target_object ≡ s.target_object
unfolding core
core-target r s e = ap (λ (x : FieldPto). x.target_object) e

pub core-source : (r s : FieldPto) → core r ≡ core s → r.src_object ≡ s.src_object
unfolding core
core-source r s e = ap (λ (x : FieldPto). x.src_object) e

pub core-field : (r s : FieldPto) → core r ≡ core s → r.field ≡ s.field
unfolding core
core-field r s e = ap (λ (x : FieldPto). x.field) e

pub core-dst_field : (r s : FieldPto) → core r ≡ core s → r.dst_field ≡ s.dst_field
unfolding core
core-dst_field r s e = ap (λ (x : FieldPto). x.dst_field) e

reset_one-SameLinks : (st : Points) (this entry p : ℕ) → SameLinks st (reset_one st this entry p)
unfolding reset_one
reset_one-SameLinks st this entry p = elim (Option-cases (st.records p).propagating_inst) [
  | inl e ↦ rw (e, reset_one) (SameLinks-refl st)
  | inr (l, e) ↦
      rw (e, reset_one)
        (if-SameLinks _ st _ _ (activate_field_pto-SameLinks st this p false)
          (if-SameLinks _ st _ _ (activate_field_pto-SameLinks st this p true) (SameLinks-refl st)))
]

reset_each-SameLinks :
    (st : Points) (this entry : ℕ) (places : List ℕ)
    → SameLinks st (reset_each st this entry places)
unfolding reset_each
reset_each-SameLinks st this entry [] = SameLinks-refl st
reset_each-SameLinks st this entry (p ∷ places) =
    SameLinks-trans st (reset_one st this entry p) _ (reset_one-SameLinks st this entry p)
      (reset_each-SameLinks (reset_one st this entry p) this entry places)

with_reset-SameLinks :
    (st : Points) (this : ℕ) (fid : ℤ) (entry : ℕ) → SameLinks st (with_reset st this fid entry)
with_reset-SameLinks st this fid entry = record {
  next_same = refl;
  to_same = refl;
  from_same = refl;
  core_same = λ k. refl;
}

pub reset_ptos-SameLinks :
    (st : Points) (this : ℕ) (fid : ℤ) (entry : ℕ) → SameLinks st (reset_ptos st this fid entry)
unfolding reset_ptos
reset_ptos-SameLinks st this fid entry = elim (Option-cases (st.last_reset this fid)) [
  | inl e ↦ rw (e, reset_ptos) (with_reset-SameLinks st this fid entry)
  | inr (last, e) ↦
      rw (e, reset_ptos)
        (if-SameLinks (last == entry) st _ _ (SameLinks-refl st) (
          SameLinks-trans st (with_reset st this fid entry) _
            (with_reset-SameLinks st this fid entry)
            (reset_each-SameLinks (with_reset st this fid entry) this entry
              (st.points_to this fid))))
]
