-- ===== src/Points/Update.antt =====
-- AliasObject::updateFieldPointsTo_do of
-- llvm_analysis/MainAnalysisPasses/SoundyAliasAnalysis/src/AliasObject.cpp.
use study_uafx.Base.{
  ℕ, suc, Bool, true, false, not, ◌&&◌, ◌||◌, Option, none, some, List, [], ◌∷◌, ◌++◌,
  if◌then◌else◌, ◌==◌, insert,
}
use study_uafx.Base.Int.{ℤ, eqb_ℤ}
use study_uafx.Loc.{InstLoc}
use study_uafx.Loc.Judge.{Judge}
use study_uafx.Points.{
  FieldPto, Points, points_to_same, same_pto, add_to_history, set_record, with_strong,
  activate_field_pto, add_points_from, entry_of, reset_ptos,
}

-- The first loop. A record that points to what an earlier one points to is left out, and makes that
-- one strong when their strengths differ; `none` is no earlier one.
unfoldable pub merge_duplicate : FieldPto → List FieldPto → Option (List FieldPto)
unfolding points_to_same
merge_duplicate pto [] = none
merge_duplicate pto (t ∷ uniq) =
    let later = merge_duplicate pto uniq in
    if points_to_same t pto
    then some (
        (if t.is_weak && pto.is_weak || not t.is_weak && not pto.is_weak then t else with_strong t)
        ∷ uniq)
    else elim later [ none ↦ none | some uniq' ↦ some (t ∷ uniq') ]

-- The copy of a record for the field `fid` of `this`.
unfoldable pub copy_for : ℕ → ℤ → Option InstLoc → FieldPto → FieldPto
unfolding add_to_history
copy_for this fid l pto = record pto {
  src_object = some this;
  field = fid;
  propagating_inst = l;
  history = add_to_history l pto.history;
}

unfoldable pub unique_from :
    ℕ → ℤ → Option InstLoc → List FieldPto → List (Option FieldPto) → List FieldPto
unfolding merge_duplicate copy_for
unique_from this fid l uniq [] = uniq
unique_from this fid l uniq (none ∷ ptos) = unique_from this fid l uniq ptos
unique_from this fid l uniq (some pto ∷ ptos) =
    unique_from this fid l
      (elim (merge_duplicate pto uniq) [
        | none ↦ uniq ++ (copy_for this fid l pto ∷ [])
        | some uniq' ↦ uniq'
      ])
      ptos

unfoldable pub set_strength : Option Bool → List FieldPto → List FieldPto
set_strength none uniq = uniq
set_strength (some weak) [] = []
set_strength (some weak) (pto ∷ uniq) =
    record pto { is_weak = weak } ∷ set_strength (some weak) uniq

-- Whether a new record kills an old one.
unfoldable pub kills : Judge → FieldPto → FieldPto → Bool
kills w pto e = e.is_active && not pto.is_weak && elim pto.propagating_inst as (λ x. Bool) [
  | none ↦ false
  | some l ↦ w.post_dominates l e.propagating_inst
]

-- An old record that is the new one again.
unfoldable pub refresh : Points → ℕ → FieldPto → ℕ → Points
unfolding set_record activate_field_pto
refresh st this pto e =
    let old = st.records e in
    let st' =
      if old.is_weak && pto.is_weak || not old.is_weak && not pto.is_weak
      then st
      else set_record st e (with_strong old) in
    if old.is_active && pto.is_active || not old.is_active && not pto.is_active
    then st'
    else activate_field_pto st' this e pto.is_active

pub record Scanned : Type 0 where
  pub state : Points
  pub to_del : List ℕ
  pub is_dup : Bool

-- The loop over the old records for one new record.
unfoldable pub scan_old : Judge → ℕ → FieldPto → Points → List ℕ → Bool → List ℕ → Scanned
unfolding kills refresh same_pto
scan_old w this pto st del dup [] = record { state = st; to_del = del; is_dup = dup }
scan_old w this pto st del dup (e ∷ places) =
    let kill = kills w pto (st.records e) in
    let again = not kill && not dup && same_pto (st.records e) pto in
    scan_old w this pto (if again then refresh st this pto e else st)
      (if kill then insert e del else del) (dup || again) places

pub record Sorted : Type 0 where
  pub state : Points
  pub to_del : List ℕ
  pub to_add : List FieldPto

-- The loop over the new records.
unfoldable pub scan_new :
    Judge → ℕ → List ℕ → Points → List ℕ → List FieldPto → List FieldPto → Sorted
unfolding scan_old
scan_new w this old st del add [] = record { state = st; to_del = del; to_add = add }
scan_new w this old st del add (pto ∷ uniq) =
    let s = scan_old w this pto st del false old in
    scan_new w this old s.state s.to_del (if s.is_dup then add else add ++ (pto ∷ [])) uniq

unfoldable pub deactivate_all : Points → ℕ → List ℕ → Points
unfolding activate_field_pto
deactivate_all st this [] = st
deactivate_all st this (p ∷ del) = deactivate_all (activate_field_pto st this p false) this del

-- A record on the heap, and its entry in `pointsTo`.
unfoldable pub place_new : Points → ℕ → ℤ → FieldPto → Points
place_new st this fid pto = record st {
  records = λ k. if k == st.next then pto else st.records k;
  next = suc st.next;
  points_to = λ o f.
      if o == this && eqb_ℤ f fid then st.points_to o f ++ (st.next ∷ []) else st.points_to o f;
}

unfoldable pub add_one : Points → ℕ → ℤ → FieldPto → Points
unfolding place_new add_points_from activate_field_pto
add_one st this fid pto =
    let st' = place_new st this fid pto in
    activate_field_pto
      (elim pto.target_object [ none ↦ st' | some t ↦ add_points_from st' t this st.next ]) this
      st.next true

unfoldable pub add_all : Points → ℕ → ℤ → List FieldPto → Points
unfolding add_one
add_all st this fid [] = st
add_all st this fid (pto ∷ add) = add_all (add_one st this fid pto) this fid add

-- `none` for `weak` leaves the strength of the records.
unfoldable pub update_field_points_to_do :
    Judge → Points → ℕ → ℤ → List (Option FieldPto) → Option InstLoc → Option Bool → Points
unfolding unique_from set_strength scan_new deactivate_all add_all
update_field_points_to_do w st this fid ptos l weak =
    let uniq = set_strength weak (unique_from this fid l [] ptos) in
    let s = scan_new w this (st.points_to this fid) st [] [] uniq in
    add_all (deactivate_all s.state this s.to_del) this fid s.to_add

-- updateFieldPointsTo; `host` and the field are those that getNestedObj finds.
unfoldable pub update_field_points_to :
    Judge → Points → ℕ → ℤ → List (Option FieldPto) → Option InstLoc → Option Bool → Points
unfolding reset_ptos update_field_points_to_do entry_of
update_field_points_to w st host fid [] l weak = st
update_field_points_to w st host fid (p ∷ ptos) none weak =
    update_field_points_to_do w st host fid (p ∷ ptos) none weak
update_field_points_to w st host fid (p ∷ ptos) (some l) weak = elim (entry_of l) [
  | none ↦ update_field_points_to_do w st host fid (p ∷ ptos) (some l) weak
  | some entry ↦
      update_field_points_to_do w (reset_ptos st host fid entry) host fid (p ∷ ptos) (some l) weak
]
