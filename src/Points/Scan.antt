-- ===== src/Points/Scan.antt =====
-- updateFieldPointsTo_do: a record that points elsewhere than a new record passes its loop unchanged.
use study_uafx.Base.{
  ℕ, ◌≡◌, refl, sym, ◌∙◌, ap, Bool, true, false, not, ◌&&◌, ◌||◌, some, List, [], ◌∷◌,
  if◌then◌else◌, ◌==◌, contains, insert, contains-insert, arith, Bool-cases, Option-cases, inl, inr,
  ==_iff, ==_refl, same_opt, same_opt_iff,
}
use study_uafx.Loc.Judge.{Judge}
use study_uafx.Points.{
  FieldPto, Points, points_to_same, is_identical_points_to, same_pto, set_record, with_strong,
  activate_field_pto, same_fields,
}
use study_uafx.Points.Twins.{reached, activate_field_pto-records}
use study_uafx.Points.Flags.{refresh-SameLinks, set_strong-SameLinks}
use study_uafx.Points.Linked.{IsLinked, SameLinks-IsLinked}
use study_uafx.Points.Update.{kills, refresh, scan_old}

pub points_to_same_trans :
    (a b c : FieldPto)
    → points_to_same a b ≡ true
    → points_to_same b c ≡ true
    → points_to_same a c ≡ true
unfolding points_to_same
points_to_same_trans a b c h k =
    let p : a.target_object ≡ b.target_object =
      (same_opt_iff a.target_object b.target_object).0 (ground (arith, h)) in
    let q : b.target_object ≡ c.target_object =
      (same_opt_iff b.target_object c.target_object).0 (ground (arith, k)) in
    let same : same_opt a.target_object c.target_object ≡ true =
      (same_opt_iff a.target_object c.target_object).1 (p ∙ q) in
    ground (arith, same, h, k)

same_pto-points_to_same : (a b : FieldPto) → same_pto a b ≡ true → points_to_same a b ≡ true
unfolding same_pto is_identical_points_to points_to_same
same_pto-points_to_same a b h = ground (arith, h)

pub points_to_same_refl : (a : FieldPto) → points_to_same a a ≡ true
unfolding points_to_same
points_to_same_refl a = ground (arith, (same_opt_iff a.target_object a.target_object).1 refl)

-- Two records that point to different places are two records.
pub apart :
    (st : Points) (p e : ℕ) → points_to_same (st.records e) (st.records p) ≡ false → e == p ≡ false
apart st p e h = elim (Bool-cases (e == p)) [
  | inr other ↦ other
  | inl same ↦
      let q : e ≡ p = (==_iff e p).0 same in
      let r : points_to_same (st.records p) (st.records p) ≡ false = (rw q at h) in
      cc (r, points_to_same_refl (st.records p))
]

pub same_fields-points_to_same :
    (a b : FieldPto) (t : ℕ)
    → a.target_object ≡ some t
    → b.target_object ≡ some t
    → same_fields a b ≡ true
    → points_to_same a b ≡ true
unfolding same_fields points_to_same
same_fields-points_to_same a b t p q h =
    let same : same_opt a.target_object b.target_object ≡ true =
      (same_opt_iff a.target_object b.target_object).1 (p ∙ sym q) in
    ground (arith, same, h)

-- A change of a record does not reach one that points to another place.
pub unreached :
    (st : Points) (this p e : ℕ)
    → IsLinked st
    → points_to_same (st.records e) (st.records p) ≡ false
    → reached st this p e ≡ false
unreached st this p e l h =
    let other = apart st p e h in
    elim (Option-cases (st.records p).target_object) [
      | inl none_there ↦ rw (other, none_there) refl
      | inr (t, there) ↦ elim (Bool-cases (contains (st.points_from t this) e)) [
        | inr unlisted ↦ rw (other, there, unlisted) refl
        | inl listed ↦ elim (Bool-cases (same_fields (st.records e) (st.records p))) [
          | inr differ ↦ rw (other, there, listed, differ) refl
          | inl agree ↦
              let same =
                same_fields-points_to_same (st.records e) (st.records p) t
                  (l.from_target t this e listed) there agree in
              cc (h, same)
        ]
      ]
    ]

pub activate_unreached :
    (st : Points) (this p : ℕ) (act : Bool) (e : ℕ)
    → IsLinked st
    → points_to_same (st.records e) (st.records p) ≡ false
    → (activate_field_pto st this p act).records e ≡ st.records e
activate_unreached st this p act e l h =
    activate_field_pto-records st this p act e ∙ rw (unreached st this p e l h) refl

points_to_same-with_strong :
    (a b : FieldPto) → points_to_same a (with_strong b) ≡ points_to_same a b
unfolding points_to_same with_strong
points_to_same-with_strong a b = refl

pub set_record_other :
    (st : Points) (p e : ℕ) (r : FieldPto)
    → e == p ≡ false
    → (set_record st p r).records e ≡ st.records e
unfolding set_record
set_record_other st p e r h = rw h refl

set_record_self : (st : Points) (p : ℕ) (r : FieldPto) → (set_record st p r).records p ≡ r
unfolding set_record
set_record_self st p r = rw (==_refl p) refl

-- A state after a record was made strong or left.
module _ (st : Points) (this q e : ℕ) (l : IsLinked st)
    (h : points_to_same (st.records e) (st.records q) ≡ false) where
  strengthened : Bool → Points
  strengthened alike = if alike then st else set_record st q (with_strong (st.records q))

  strengthened-same : (alike : Bool) → (strengthened alike).records e ≡ st.records e
  unfolding strengthened
  strengthened-same true = refl
  strengthened-same false = set_record_other st q e _ (apart st q e h)

  strengthened_apart :
      (alike : Bool)
      → points_to_same ((strengthened alike).records e) ((strengthened alike).records q) ≡ false
  unfolding strengthened
  strengthened_apart true = h
  strengthened_apart false =
      rw
        (
          set_record_other st q e (with_strong (st.records q)) (apart st q e h),
          set_record_self st q (with_strong (st.records q)),
          points_to_same-with_strong (st.records e) (st.records q),
        )
        h

  strengthened-IsLinked : (alike : Bool) → IsLinked (strengthened alike)
  unfolding strengthened
  strengthened-IsLinked true = l
  strengthened-IsLinked false = SameLinks-IsLinked st _ (set_strong-SameLinks st q) l

  refresh_same : (pto : FieldPto) → (refresh st this pto q).records e ≡ st.records e
  unfolding refresh strengthened
  refresh_same pto =
      let old = st.records q in
      let alike = old.is_weak && pto.is_weak || not old.is_weak && not pto.is_weak in
      let same = strengthened-same alike in
      elim (Bool-cases (old.is_active && pto.is_active || not old.is_active && not pto.is_active)) [
        | inl yes_alike ↦ rw (yes_alike, refresh) same
        | inr differ ↦
            rw (differ, refresh)
              (activate_unreached (strengthened alike) this q pto.is_active e
                  (strengthened-IsLinked alike) (strengthened_apart alike)
                ∙ same)
      ]

counted :
    (del : List ℕ) (q e : ℕ) (kill k later : Bool)
    → (q == e ≡ true → kill ≡ k)
    → (contains (if kill then insert q del else del) e || later && k)
      ≡ (contains del e || (q == e || later) && k)
counted del q e kill k later same = elim (Bool-cases (q == e)) [
  | inl here ↦
      let s = same here in
      elim (Bool-cases kill) [
        | inl yes_kill ↦ rw (yes_kill, contains-insert q e del, here) (ground (arith, s, yes_kill))
        | inr no_kill ↦ rw (no_kill, here) (ground (arith, s, no_kill))
      ]
  | inr there ↦ elim (Bool-cases kill) [
    | inl yes_kill ↦ rw (yes_kill, contains-insert q e del, there) (ground arith)
    | inr no_kill ↦ rw (no_kill, there) (ground arith)
  ]
]

-- What a new record does not point to, the loop over the old records leaves as it is.
module _ (w : Judge) (this e : ℕ) (pto r : FieldPto) (differs : points_to_same r pto ≡ false) where
  refreshed :
      (st : Points) (q : ℕ) (again : Bool)
      → IsLinked st
      → st.records e ≡ r
      → (again ≡ true → same_pto (st.records q) pto ≡ true)
      → (if again then refresh st this pto q else st).records e ≡ r
  refreshed st q false l h s = h
  refreshed st q true l h s =
      let like : points_to_same (st.records q) pto ≡ true =
        same_pto-points_to_same (st.records q) pto (s refl) in
      let away : points_to_same (st.records e) (st.records q) ≡ false =
        elim (Bool-cases (points_to_same (st.records e) (st.records q))) [
          | inr out ↦ out
          | inl both ↦
              let bad = points_to_same_trans (st.records e) (st.records q) pto both like in
              let bad' : points_to_same r pto ≡ true = (rw h at bad) in cc (bad', differs)
        ] in
      refresh_same st this q e l away pto ∙ h

  again_same : (k d s : Bool) → (not k && not d && s) ≡ true → s ≡ true
  again_same k d s h = ground arith

  refreshed-IsLinked :
      (st : Points) (q : ℕ) (again : Bool)
      → IsLinked st
      → IsLinked (if again then refresh st this pto q else st)
  refreshed-IsLinked st q true l = SameLinks-IsLinked st _ (refresh-SameLinks st this pto q) l
  refreshed-IsLinked st q false l = l

  pub scan_old_same :
      (st : Points) (del : List ℕ) (dup : Bool) (places : List ℕ)
      → IsLinked st
      → st.records e ≡ r
      → ((scan_old w this pto st del dup places).state.records e ≡ r)
        × (contains (scan_old w this pto st del dup places).to_del e
            ≡ (contains del e || contains places e && kills w pto r))
  unfolding scan_old contains
  scan_old_same st del dup [] l h = (h, ground arith)
  scan_old_same st del dup (q ∷ places) l h =
      let kill = kills w pto (st.records q) in
      let again = not kill && not dup && same_pto (st.records q) pto in
      let st' = if again then refresh st this pto q else st in
      let del' = if kill then insert q del else del in
      let rest =
        scan_old_same st' del' (dup || again) places (refreshed-IsLinked st q again l)
          (refreshed st q again l h (λ a. again_same kill dup (same_pto (st.records q) pto) a)) in
      (
        rest.0,
        rest.1
            ∙ counted del q e kill (kills w pto r) (contains places e) (λ same.
              let at : q ≡ e = (==_iff q e).0 same in ap (kills w pto) (ap st.records at ∙ h)),
      )
