-- ===== src/Points/Replaced.antt =====
-- What updateFieldPointsTo_do does to an old record of the field that has a place of its own.
use study_uafx.Base.{
  ℕ, ◌≡◌, refl, ◌∙◌, Bool, true, false, not, ◌&&◌, Option, none, some, List, [], ◌∷◌, ◌++◌,
  if◌then◌else◌, contains, arith, Bool-cases, Option-cases, inl, inr, is_empty,
}
use study_uafx.Base.Int.{ℤ}
use study_uafx.Loc.{InstLoc}
use study_uafx.Loc.Judge.{Judge}
use study_uafx.Points.{FieldPto, Points, points_to_same, with_active, with_strong}
use study_uafx.Points.Update.{
  kills, merge_duplicate, copy_for, unique_from, set_strength, scan_new, deactivate_all,
  update_field_points_to_do,
}
use study_uafx.Points.Unique.{All, Copies, set_strength-All, unique_from-All, scan_new-All}
use study_uafx.Points.Flags.{core, scan_new-SameLinks, deactivate_all-SameLinks}
use study_uafx.Points.Linked.{IsLinked, IsOwned, SameLinks-IsLinked, copy_for-IsOwned}
use study_uafx.Points.Override.{
  NoneSame, any_kills, scan_new_same, scan_new_listed, core-points_to_same, Alone,
  deactivate_all-records, add_all_same,
}

-- What is known of every new record, for an old record `r`.
abbrev IsNew : ℕ → ℤ → InstLoc → FieldPto → FieldPto → Type 0
IsNew this fid l r pto =
    IsOwned this fid pto × (points_to_same r pto ≡ false) × (pto.propagating_inst ≡ some l)

-- No record given points to what `r` points to.
abbrev pub NotSame : FieldPto → List (Option FieldPto) → Type 0
NotSame r [] = Unit {0}
NotSame r (none ∷ ptos) = NotSame r ptos
NotSame r (some pto ∷ ptos) = (points_to_same r pto ≡ false) × NotSame r ptos

module _ (this : ℕ) (fid : ℤ) (l : InstLoc) (r : FieldPto) where
  copy_for-IsNew :
      (pto : FieldPto)
      → points_to_same r pto ≡ false
      → IsNew this fid l r (copy_for this fid (some l) pto)
  unfolding copy_for points_to_same
  copy_for-IsNew pto h = (copy_for-IsOwned this fid (some l) pto, h, refl)

  with_strong-IsNew :
      (pto : FieldPto) → IsNew this fid l r pto → IsNew this fid l r (with_strong pto)
  unfolding with_strong points_to_same
  with_strong-IsNew pto h = h

  Copies-IsNew :
      (ptos : List (Option FieldPto))
      → NotSame r ptos
      → Copies (IsNew this fid l r) this fid (some l) ptos
  Copies-IsNew [] n = tt
  Copies-IsNew (none ∷ ptos) n = Copies-IsNew ptos n
  Copies-IsNew (some pto ∷ ptos) n = (copy_for-IsNew pto n.0, Copies-IsNew ptos n.1)

  set_weak-IsNew :
      (b : Bool) (pto : FieldPto)
      → IsNew this fid l r pto
      → IsNew this fid l r (record pto { is_weak = b })
  unfolding points_to_same
  set_weak-IsNew b pto h = h

  NoneSame-of_new : (uniq : List FieldPto) → All (IsNew this fid l r) uniq → NoneSame r uniq
  NoneSame-of_new [] a = tt
  NoneSame-of_new (pto ∷ uniq) a = (a.0.1, NoneSame-of_new uniq a.1)

  -- The same of a record with other flags.
  All-of_new :
      (v : FieldPto) (uniq : List FieldPto)
      → core v ≡ core r
      → All (IsNew this fid l r) uniq
      → All (λ pto. IsOwned this fid pto × (points_to_same v pto ≡ false)) uniq
  All-of_new v [] c a = tt
  All-of_new v (pto ∷ uniq) c a =
      ((a.0.0, core-points_to_same r v pto pto c refl ∙ a.0.1), All-of_new v uniq c a.1)

  any_kills-set_strength :
      (w : Judge) (b : Bool) (uniq : List FieldPto)
      → All (IsNew this fid l r) uniq
      → any_kills w (set_strength (some b) uniq) r
        ≡ (not (is_empty uniq) && (r.is_active && not b && w.post_dominates l r.propagating_inst))
  unfolding any_kills set_strength kills
  any_kills-set_strength w b [] a = refl
  any_kills-set_strength w b (pto ∷ uniq) a =
      let rest = any_kills-set_strength w b uniq a.1 in rw (a.0.2) (ground (arith, rest))

merge_duplicate_nonempty :
    (pto : FieldPto) (uniq : List FieldPto) → elim (merge_duplicate pto uniq) as (λ x. Type 0) [
      | none ↦ Unit {0}
      | some u ↦ is_empty u ≡ false
    ]
unfolding merge_duplicate
merge_duplicate_nonempty pto [] = tt
merge_duplicate_nonempty pto (t ∷ uniq) = elim (Bool-cases (points_to_same t pto)) [
  | inl same ↦ rw same refl
  | inr other ↦ elim (Option-cases (merge_duplicate pto uniq)) [
    | inl e ↦ rw (other, e) tt
    | inr (u, e) ↦ rw (other, e) refl
  ]
]

append_nonempty : (uniq : List FieldPto) (t : FieldPto) → is_empty (uniq ++ (t ∷ [])) ≡ false
append_nonempty [] t = refl
append_nonempty (u ∷ uniq) t = refl

unique_from_nonempty :
    (this : ℕ) (fid : ℤ) (l : Option InstLoc) (uniq : List FieldPto) (ptos : List (Option FieldPto))
    → is_empty uniq ≡ false
    → is_empty (unique_from this fid l uniq ptos) ≡ false
unfolding unique_from
unique_from_nonempty this fid l uniq [] h = h
unique_from_nonempty this fid l uniq (none ∷ ptos) h = unique_from_nonempty this fid l uniq ptos h
unique_from_nonempty this fid l uniq (some pto ∷ ptos) h =
    let merged = merge_duplicate_nonempty pto uniq in
    elim (Option-cases (merge_duplicate pto uniq)) [
      | inl e ↦
          rw (e, unique_from)
            (unique_from_nonempty this fid l (uniq ++ (copy_for this fid l pto ∷ [])) ptos
              (append_nonempty uniq _))
      | inr (u, e) ↦
          let some_there : is_empty u ≡ false = (rw e at merged) in
          rw (e, unique_from) (unique_from_nonempty this fid l u ptos some_there)
    ]

-- An update at a site that gives at least one record, strong or weak, leaves an old record of the
-- field as it was, but for one case: a strong update deactivates an active record whose site it
-- post-dominates. The old record is the only one of the field to point where it points, and no new
-- record points there.
pub update_field_points_to_do-records :
    (w : Judge) (st : Points) (this : ℕ) (fid : ℤ) (pto : FieldPto) (ptos : List (Option FieldPto))
    (l : InstLoc) (weak : Bool) (e : ℕ)
    → IsLinked st
    → contains (st.points_to this fid) e ≡ true
    → Alone st e (st.points_to this fid)
    → NotSame (st.records e) (some pto ∷ ptos)
    → (update_field_points_to_do w st this fid (some pto ∷ ptos) (some l) (some weak)).records e ≡ (
        if (st.records e).is_active
          && not weak
          && w.post_dominates l (st.records e).propagating_inst
        then with_active false (st.records e)
        else st.records e)
unfolding update_field_points_to_do contains
update_field_points_to_do-records w st this fid pto ptos l weak e linked listed single fresh =
    let r = st.records e in
    let old = st.points_to this fid in
    let uniq = unique_from this fid (some l) [] (some pto ∷ ptos) in
    let news : All (IsNew this fid l r) uniq =
      unique_from-All (IsNew this fid l r) (with_strong-IsNew this fid l r) this fid (some l) []
        (some pto ∷ ptos) tt (Copies-IsNew this fid l r (some pto ∷ ptos) fresh) in
    let forced = set_strength (some weak) uniq in
    let news' : All (IsNew this fid l r) forced =
      set_strength-All (IsNew this fid l r) (some weak) (set_weak-IsNew this fid l r) uniq news in
    let s = scan_new w this old st [] [] forced in
    let links = scan_new-SameLinks w this old st [] [] forced in
    let scanned = SameLinks-IsLinked st s.state links linked in
    let (same, counted) =
      scan_new_same w this e r old st [] [] forced linked refl
        (NoneSame-of_new this fid l r forced news') in
    let off = deactivate_all-records s.state this e s.to_del scanned (λ p m ne.
      core-points_to_same r (s.state.records e) (st.records p) (s.state.records p)
        (links.core_same e) (links.core_same p)
      ∙ single p (scan_new_listed w this old st [] [] forced p m) ne) in
    let cut = deactivate_all s.state this s.to_del in
    let links' = deactivate_all-SameLinks s.state this s.to_del in
    let news_add = scan_new-All (IsNew this fid l r) w this old st [] [] forced news' tt in
    let kept =
      add_all_same cut this e fid s.to_add (cut.records e)
        (SameLinks-IsLinked s.state cut links' scanned)
        (rw (links'.next_same, links.next_same) (linked.to_lives this fid e listed)) refl
        (All-of_new this fid l r (cut.records e) s.to_add (links'.core_same e ∙ links.core_same e)
          news_add) in
    let filled =
      unique_from_nonempty this fid (some l) (copy_for this fid (some l) pto ∷ []) ptos refl in
    let killed = any_kills-set_strength this fid l r w weak uniq news in
    let marked : contains s.to_del e
        ≡ (r.is_active && not weak && w.post_dominates l r.propagating_inst) =
      ground (arith, counted, listed, killed, filled) in
    kept ∙ off ∙ rw (marked, same) refl
