-- ===== src/Points/Twins.antt =====
-- activateFieldPto: which records a change of one record reaches.
use study_uafx.Base.{
  ℕ, ◌≡◌, refl, ◌∙◌, Bool, true, false, ◌&&◌, ◌||◌, none, some, List, [], ◌∷◌, if◌then◌else◌, ◌==◌,
  contains, arith, Bool-cases, Option-cases, inl, inr, ==_iff, ==_refl,
}
use study_uafx.Points.{
  FieldPto, Points, set_record, with_active, same_fields, mark_points_from, activate_field_pto,
}

with_active-same_fields :
    (act : Bool) (r s : FieldPto) → same_fields (with_active act r) s ≡ same_fields r s
unfolding with_active same_fields
with_active-same_fields act r s = refl

same_fields-with_active :
    (act : Bool) (r s : FieldPto) → same_fields r (with_active act s) ≡ same_fields r s
unfolding with_active same_fields
same_fields-with_active act r s = refl

pub with_active_twice :
    (act : Bool) (r : FieldPto) → with_active act (with_active act r) ≡ with_active act r
unfolding with_active
with_active_twice act r = refl

-- The step of the induction, where the first record is marked and where it is not.
marked :
    (st : Points) (pto : FieldPto) (act : Bool) (places : List ℕ) (p k : ℕ)
    → same_fields (st.records p) pto ≡ true
    → (if contains places k
          && same_fields ((set_record st p (with_active act (st.records p))).records k) pto
        then with_active act ((set_record st p (with_active act (st.records p))).records k)
        else (set_record st p (with_active act (st.records p))).records k)
      ≡ (if contains (p ∷ places) k && same_fields (st.records k) pto
          then with_active act (st.records k)
          else st.records k)
unfolding set_record contains
marked st pto act places p k hit = elim (Bool-cases (k == p)) [
  | inl same ↦
      let q : k ≡ p = (==_iff k p).0 same in
      rw q (
        rw
          (
            ==_refl p,
            hit,
            with_active-same_fields act (st.records p) pto,
            with_active_twice act (st.records p),
          )
          (ground (arith, hit)))
  | inr other ↦ let back : p == k ≡ false = ground (arith, other) in rw (other, back) refl
]

unmarked :
    (st : Points) (pto : FieldPto) (act : Bool) (places : List ℕ) (p k : ℕ)
    → same_fields (st.records p) pto ≡ false
    → (if contains places k && same_fields (st.records k) pto
        then with_active act (st.records k)
        else st.records k)
      ≡ (if contains (p ∷ places) k && same_fields (st.records k) pto
          then with_active act (st.records k)
          else st.records k)
unfolding contains
unmarked st pto act places p k miss = elim (Bool-cases (p == k)) [
  | inl same ↦ let q : p ≡ k = (==_iff p k).0 same in rw (← q, miss) (ground arith)
  | inr other ↦ rw other refl
]

mark_points_from-records :
    (st : Points) (pto : FieldPto) (act : Bool) (places : List ℕ) (k : ℕ)
    → (mark_points_from st pto act places).records k ≡ (
        if contains places k && same_fields (st.records k) pto
        then with_active act (st.records k)
        else st.records k)
unfolding mark_points_from contains
mark_points_from-records st pto act [] k = refl
mark_points_from-records st pto act (p ∷ places) k =
    let st' =
      if same_fields (st.records p) pto
      then set_record st p (with_active act (st.records p))
      else st in
    mark_points_from-records st' pto act places k
    ∙ elim (Bool-cases (same_fields (st.records p) pto)) [
      | inl hit ↦ rw hit (marked st pto act places p k hit)
      | inr miss ↦ rw miss (unmarked st pto act places p k miss)
    ]

-- Where the record has no target, and the end of the proof where it has one.
alone :
    (st : Points) (p : ℕ) (act : Bool) (k : ℕ)
    → (set_record st p (with_active act (st.records p))).records k
      ≡ (if k == p || false then with_active act (st.records k) else st.records k)
unfolding set_record
alone st p act k = elim (Bool-cases (k == p)) [
  | inl same ↦ let q : k ≡ p = (==_iff k p).0 same in rw (q, ==_refl p) refl
  | inr other ↦ rw other refl
]

listed :
    (st : Points) (p : ℕ) (act : Bool) (places : List ℕ) (k : ℕ)
    → (if contains places k
          && same_fields
              ((set_record st p (with_active act (st.records p))).records k)
              ((set_record st p (with_active act (st.records p))).records p)
        then with_active act ((set_record st p (with_active act (st.records p))).records k)
        else (set_record st p (with_active act (st.records p))).records k)
      ≡ (if k == p || contains places k && same_fields (st.records k) (st.records p)
          then with_active act (st.records k)
          else st.records k)
unfolding set_record
listed st p act places k = elim (Bool-cases (k == p)) [
  | inl same ↦
      let q : k ≡ p = (==_iff k p).0 same in
      rw q (rw (==_refl p) (ground (arith, with_active_twice act (st.records p))))
  | inr other ↦
      rw (other, ==_refl p, same_fields-with_active act (st.records k) (st.records p)) refl
]

-- Whether a change of the record `p` of `this` reaches the record `k`.
abbrev pub reached : Points → ℕ → ℕ → ℕ → Bool
reached st this p k = k == p || elim (st.records p).target_object as (λ x. Bool) [
  | none ↦ false
  | some t ↦ contains (st.points_from t this) k && same_fields (st.records k) (st.records p)
]

pub activate_field_pto-records :
    (st : Points) (this p : ℕ) (act : Bool) (k : ℕ)
    → (activate_field_pto st this p act).records k
      ≡ (if reached st this p k then with_active act (st.records k) else st.records k)
unfolding activate_field_pto set_record
activate_field_pto-records st this p act k = elim (Option-cases (st.records p).target_object) [
  | inl e ↦ rw (e, activate_field_pto) (alone st p act k)
  | inr (t, e) ↦
      let st' = set_record st p (with_active act (st.records p)) in
      rw (e, activate_field_pto)
        (mark_points_from-records st' (st'.records p) act (st'.points_from t this) k
          ∙ listed st p act (st.points_from t this) k)
]

-- Changing the state of one record of an object changes every record that its target lists as pointing
-- from the same object with the same two fields, whatever its site and its own state.
pub activate_field_pto_twins :
    (st : Points) (this p q t : ℕ) (act : Bool)
    → (st.records p).target_object ≡ some t
    → contains (st.points_from t this) q ≡ true
    → same_fields (st.records q) (st.records p) ≡ true
    → ((activate_field_pto st this p act).records q).is_active ≡ act
unfolding with_active
activate_field_pto_twins st this p q t act e listed same =
    let hit : reached st this p q ≡ true = rw (e, listed, same) (ground arith) in
    rw (activate_field_pto-records st this p act q, hit) refl
