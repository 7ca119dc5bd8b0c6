-- ===== src/Points.antt =====
-- The points-to records of object fields: ObjectPointsTo and PointerPointsTo of
-- llvm_analysis/MainAnalysisPasses/SoundyAliasAnalysis/include/AliasObject.h, and the members of
-- AliasObject there and in SoundyAliasAnalysis/src/AliasObject.cpp that update and read them. A pointer
-- to a record is its place in `records`, since the lists of several objects share the records.
pub mod Update
pub mod Twins
pub mod Flags
pub mod Unique
pub mod Linked
pub mod Scan
pub mod Override
pub mod Replaced
mod Tests
use study_uafx.Base.{
  ℕ, zero, suc, ◌+◌, Bool, true, false, not, ◌&&◌, ◌||◌, Option, none, some, List, [], ◌∷◌, ◌++◌,
  if◌then◌else◌, ◌==◌, same_opt, is_empty, contains, insert, select,
}
use study_uafx.Base.Int.{ℤ, eqb_ℤ}
use study_uafx.Loc.{InstLoc, has_ctx}
use study_uafx.Loc.Judge.{Judge, same_loc, same_opt_loc}

-- `is_pointer` tells a PointerPointsTo from an ObjectPointsTo.
pub record FieldPto : Type 0 where
  pub is_pointer : Bool
  pub target_pointer : Option ℕ
  pub src_object : Option ℕ
  pub field : ℤ
  pub target_object : Option ℕ
  pub dst_field : ℤ
  pub propagating_inst : Option InstLoc
  pub history : List InstLoc
  pub is_weak : Bool
  pub is_creation : Bool
  pub is_active : Bool

unfoldable pub points_to_same : FieldPto → FieldPto → Bool
points_to_same p q = same_opt p.target_object q.target_object && eqb_ℤ p.dst_field q.dst_field

-- isIdenticalPointsTo, whose version is that of the first record.
unfoldable pub is_identical_points_to : FieldPto → FieldPto → Bool
unfolding points_to_same
is_identical_points_to p q =
    if p.is_pointer
    then q.is_pointer
      && same_opt p.target_pointer q.target_pointer
      && same_opt p.target_object q.target_object
      && eqb_ℤ p.field q.field
      && eqb_ℤ p.dst_field q.dst_field
    else eqb_ℤ p.field q.field && points_to_same p q

unfoldable pub same_pto : FieldPto → FieldPto → Bool
unfolding is_identical_points_to
same_pto p q = is_identical_points_to p q && same_opt_loc p.propagating_inst q.propagating_inst

unfoldable pub ends_with : InstLoc → List InstLoc → Bool
unfolding same_loc
ends_with l [] = false
ends_with l (m ∷ []) = same_loc m l
ends_with l (m ∷ n ∷ tr) = ends_with l (n ∷ tr)

-- add2History.
unfoldable pub add_to_history : Option InstLoc → List InstLoc → List InstLoc
unfolding ends_with
add_to_history none tr = tr
add_to_history (some l) tr = if ends_with l tr then tr else tr ++ (l ∷ [])

-- The records, and where they are listed: `points_to` by an object and its field, `points_from` by
-- the object pointed to and the one that points. Places from `next` on are free.
pub record Points : Type 0 where
  pub records : ℕ → FieldPto
  pub next : ℕ
  pub points_to : ℕ → ℤ → List ℕ
  pub points_from : ℕ → ℕ → List ℕ
  pub last_reset : ℕ → ℤ → Option ℕ

unfoldable pub set_record : Points → ℕ → FieldPto → Points
set_record st p r = record st { records = λ k. if k == p then r else st.records k }

unfoldable pub with_active : Bool → FieldPto → FieldPto
with_active b r = record r { is_active = b }

unfoldable pub with_strong : FieldPto → FieldPto
with_strong r = record r { is_weak = false }

unfoldable pub same_fields : FieldPto → FieldPto → Bool
same_fields p q = eqb_ℤ p.field q.field && eqb_ℤ p.dst_field q.dst_field

-- The loop of erasePointsFrom with a state to set.
unfoldable pub mark_points_from : Points → FieldPto → Bool → List ℕ → Points
unfolding set_record
mark_points_from st pto act [] = st
mark_points_from st pto act (p ∷ places) =
    mark_points_from
      (if same_fields (st.records p) pto
        then set_record st p (with_active act (st.records p))
        else st)
      pto act places

-- activateFieldPto of the object `this`.
unfoldable pub activate_field_pto : Points → ℕ → ℕ → Bool → Points
unfolding set_record mark_points_from
activate_field_pto st this p act =
    let st' = set_record st p (with_active act (st.records p)) in
    elim (st.records p).target_object [
      | none ↦ st'
      | some t ↦ mark_points_from st' (st'.records p) act (st'.points_from t this)
    ]

-- The first record of a list with the fields of another.
unfoldable pub find_fields : Points → FieldPto → List ℕ → Option ℕ
find_fields st pto [] = none
find_fields st pto (p ∷ places) =
    let later = find_fields st pto places in
    if same_fields (st.records p) pto then some p else later

unfoldable pub link_from : Points → ℕ → ℕ → ℕ → Points
link_from st t s p = record st {
  points_from =
      λ a b. if a == t && b == s then st.points_from a b ++ (p ∷ []) else st.points_from a b;
}

-- addPointsFrom of the object `t`.
unfoldable pub add_points_from : Points → ℕ → ℕ → ℕ → Points
unfolding find_fields link_from set_record
add_points_from st t src p =
    if not (same_opt (st.records p).target_object (some t))
    then st
    else elim (find_fields st (st.records p) (st.points_from t src)) [
      | none ↦ link_from st t src p
      | some q ↦ set_record st q (with_active true (st.records q))
    ]

-- The loop of resetPtos: the entry of a context is its first call site.
unfoldable pub entry_of : InstLoc → Option ℕ
entry_of l = elim l.ctx [ [] ↦ none | a ∷ c ↦ a ]

unfoldable pub reset_one : Points → ℕ → ℕ → ℕ → Points
unfolding activate_field_pto entry_of has_ctx
reset_one st this entry p = elim (st.records p).propagating_inst [
  | none ↦ st
  | some l ↦
      if (st.records p).is_active && has_ctx l && not (same_opt (entry_of l) (some entry))
      then activate_field_pto st this p false
      else if not (st.records p).is_active && not (has_ctx l)
      then activate_field_pto st this p true
      else st
]

unfoldable pub reset_each : Points → ℕ → ℕ → List ℕ → Points
unfolding reset_one
reset_each st this entry [] = st
reset_each st this entry (p ∷ places) = reset_each (reset_one st this entry p) this entry places

abbrev pub with_reset : Points → ℕ → ℤ → ℕ → Points
with_reset st this fid entry = record st {
  last_reset = λ o f. if o == this && eqb_ℤ f fid then some entry else st.last_reset o f;
}

unfoldable pub reset_ptos : Points → ℕ → ℤ → ℕ → Points
unfolding reset_each
reset_ptos st this fid entry = elim (st.last_reset this fid) [
  | none ↦ with_reset st this fid entry
  | some last ↦
      if last == entry
      then st
      else reset_each (with_reset st this fid entry) this entry (st.points_to this fid)
]

-- The strong updates among some records: what blocks the others.
unfoldable pub strong_sites : Points → List ℕ → List InstLoc
strong_sites st [] = []
strong_sites st (p ∷ places) =
    let rest = strong_sites st places in
    elim (st.records p).propagating_inst [
      | none ↦ rest
      | some l ↦ if (st.records p).is_weak then rest else l ∷ rest
    ]

-- getLivePtos, as it is built: without the path coverage test.
unfoldable pub get_live_ptos : Judge → Points → ℕ → ℤ → InstLoc → List ℕ
unfolding strong_sites
get_live_ptos w st this fid l =
    let active = select (λ p. (st.records p).is_active) (st.points_to this fid) in
    select (λ p. w.reaches l (st.records p).propagating_inst (strong_sites st active)) active
