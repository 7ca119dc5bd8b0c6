-- ===== src/Points/Override.antt =====
-- updateFieldPointsTo_do: which old records a new update kills.
use study_uafx.Base.{
  ℕ, ◌≡◌, ◌≢◌, refl, sym, ◌∙◌, ap, ◌<◌, Bool, true, false, not, ◌&&◌, ◌||◌, some, List, [], ◌∷◌,
  ◌++◌, if◌then◌else◌, ◌==◌, contains, insert, contains-insert, arith, Bool-cases, Option-cases,
  inl, inr, ==_iff, ==_refl, same_opt, same_opt_iff,
}
use study_uafx.Base.Int.{ℤ, eqb_ℤ}
use study_uafx.Loc.Judge.{Judge}
use study_uafx.Points.{
  FieldPto, Points, points_to_same, same_pto, with_active, activate_field_pto, same_fields,
  find_fields, link_from, add_points_from,
}
use study_uafx.Points.Twins.{activate_field_pto-records, with_active_twice}
use study_uafx.Points.Scan.{
  set_record_other, same_fields-points_to_same, activate_unreached, scan_old_same,
}
use study_uafx.Points.Unique.{All}
use study_uafx.Points.Flags.{
  core, core-target, core-dst_field, core-target, activate_field_pto-SameLinks, scan_old-SameLinks,
}
use study_uafx.Points.Linked.{
  IsLinked, IsOwned, SameLinks-IsLinked, place_new-IsLinked, add_points_from-IsLinked,
  add_points_from-core, add_one-IsLinked, add_one-next, new_lives, new_source,
}
use study_uafx.Points.Update.{
  kills, refresh, scan_old, scan_new, deactivate_all, place_new, add_one, add_all,
}

-- No new record points to what `r` points to.
abbrev pub NoneSame : FieldPto → List FieldPto → Type 0
NoneSame r [] = Unit {0}
NoneSame r (pto ∷ uniq) = (points_to_same r pto ≡ false) × NoneSame r uniq

-- Whether some new record kills `r`.
unfoldable pub any_kills : Judge → List FieldPto → FieldPto → Bool
any_kills w [] r = false
any_kills w (pto ∷ uniq) r = kills w pto r || any_kills w uniq r

pub scan_new_same :
    (w : Judge) (this e : ℕ) (r : FieldPto) (old : List ℕ) (st : Points) (del : List ℕ)
    (add uniq : List FieldPto)
    → IsLinked st
    → st.records e ≡ r
    → NoneSame r uniq
    → ((scan_new w this old st del add uniq).state.records e ≡ r)
      × (contains (scan_new w this old st del add uniq).to_del e
          ≡ (contains del e || contains old e && any_kills w uniq r))
unfolding scan_new any_kills
scan_new_same w this e r old st del add [] l h n = (h, ground arith)
scan_new_same w this e r old st del add (pto ∷ uniq) l h n =
    let s = scan_old w this pto st del false old in
    let first = scan_old_same w this e pto r n.0 st del false old l h in
    let rest =
      scan_new_same w this e r old s.state s.to_del (if s.is_dup then add else add ++ (pto ∷ []))
        uniq (SameLinks-IsLinked st _ (scan_old-SameLinks w this pto st del false old) l) first.0
        n.1 in
    (rest.0, rest.1 ∙ ground (arith, first.1))

-- What is to be killed was listed.
scan_old_listed :
    (w : Judge) (this : ℕ) (pto : FieldPto) (st : Points) (del : List ℕ) (dup : Bool)
    (places : List ℕ) (p : ℕ)
    → contains (scan_old w this pto st del dup places).to_del p ≡ true
    → (contains del p || contains places p) ≡ true
unfolding scan_old contains
scan_old_listed w this pto st del dup [] p m = ground arith
scan_old_listed w this pto st del dup (q ∷ places) p m =
    let kill = kills w pto (st.records q) in
    let again = not kill && not dup && same_pto (st.records q) pto in
    let later =
      scan_old_listed w this pto (if again then refresh st this pto q else st)
        (if kill then insert q del else del) (dup || again) places p m in
    elim (Bool-cases kill) [
      | inl yes_kill ↦
          let more : contains (insert q del) p || contains places p ≡ true =
            (rw yes_kill at later) in
          ground (arith, more, contains-insert q p del)
      | inr no_kill ↦
          let more : contains del p || contains places p ≡ true = (rw no_kill at later) in
          ground (arith, more)
    ]

pub scan_new_listed :
    (w : Judge) (this : ℕ) (old : List ℕ) (st : Points) (del : List ℕ) (add uniq : List FieldPto)
    (p : ℕ)
    → contains (scan_new w this old st del add uniq).to_del p ≡ true
    → (contains del p || contains old p) ≡ true
unfolding scan_new
scan_new_listed w this old st del add [] p m = ground (arith, m)
scan_new_listed w this old st del add (pto ∷ uniq) p m =
    let s = scan_old w this pto st del false old in
    let later =
      scan_new_listed w this old s.state s.to_del (if s.is_dup then add else add ++ (pto ∷ [])) uniq
        p m in
    elim (Bool-cases (contains s.to_del p)) [
      | inl in_del ↦ scan_old_listed w this pto st del false old p in_del
      | inr out ↦ ground (arith, later, out)
    ]

-- Flags do not matter to where a record points.
pub core-points_to_same :
    (a a' b b' : FieldPto)
    → core a' ≡ core a
    → core b' ≡ core b
    → points_to_same a' b' ≡ points_to_same a b
unfolding points_to_same
core-points_to_same a a' b b' p q =
    rw (core-target a' a p, core-target b' b q, core-dst_field a' a p, core-dst_field b' b q) refl

-- The other records to be killed point to other places than `e`.
abbrev pub Alone : Points → ℕ → List ℕ → Type 0
Alone st e places =
    (p : ℕ)
    → contains places p ≡ true
    → p ≢ e
    → points_to_same (st.records e) (st.records p) ≡ false

deactivate_one :
    (st : Points) (this p e : ℕ)
    → IsLinked st
    → (p ≢ e → points_to_same (st.records e) (st.records p) ≡ false)
    → (activate_field_pto st this p false).records e
      ≡ (if p == e then with_active false (st.records e) else st.records e)
deactivate_one st this p e l away = elim (Bool-cases (p == e)) [
  | inl here ↦
      let back : e == p ≡ true = ground (arith, here) in
      rw (activate_field_pto-records st this p false e, here, back) refl
  | inr there ↦ rw there (activate_unreached st this p false e l (away (ground (arith, there))))
]

pub deactivate_all-records :
    (st : Points) (this e : ℕ) (del : List ℕ)
    → IsLinked st
    → Alone st e del
    → (deactivate_all st this del).records e
      ≡ (if contains del e then with_active false (st.records e) else st.records e)
unfolding deactivate_all contains
deactivate_all-records st this e [] l a = refl
deactivate_all-records st this e (p ∷ del) l a =
    let st' = activate_field_pto st this p false in
    let links = activate_field_pto-SameLinks st this p false in
    let first = deactivate_one st this p e l (a p (ground (arith, ==_refl p))) in
    let later = deactivate_all-records st' this e del (SameLinks-IsLinked st st' links l) (λ q m ne.
      core-points_to_same (st.records e) (st'.records e) (st.records q) (st'.records q)
        (links.core_same e) (links.core_same q)
      ∙ a q (ground (arith, m)) ne) in
    later ∙ elim (Bool-cases (p == e)) [
      | inl here ↦
          let now : st'.records e ≡ with_active false (st.records e) = first ∙ rw here refl in
          rw (here, now, with_active_twice false (st.records e)) (ground arith)
      | inr there ↦
          let now : st'.records e ≡ st.records e = first ∙ rw there refl in rw (there, now) refl
    ]

find_fields-listed :
    (st : Points) (pto : FieldPto) (places : List ℕ) (q : ℕ)
    → find_fields st pto places ≡ some q
    → (contains places q ≡ true) × (same_fields (st.records q) pto ≡ true)
unfolding find_fields contains
find_fields-listed st pto [] q h = cc
find_fields-listed st pto (p ∷ places) q h = elim (Bool-cases (same_fields (st.records p) pto)) [
  | inl hit ↦
      let found : some p ≡ some q = (rw hit at h) in
      let here : p ≡ q = ground (arith, found) in rw (← here) (ground (arith, ==_refl p), hit)
  | inr miss ↦
      let found : find_fields st pto places ≡ some q = (rw miss at h) in
      let rest = find_fields-listed st pto places q found in (ground (arith, rest.0), rest.1)
]

-- Adding a record leaves an old one that points elsewhere as it is.
module _ (st : Points) (this e : ℕ) (fid : ℤ) (pto : FieldPto) (l : IsLinked st)
    (lives : e < st.next) (away : points_to_same (st.records e) pto ≡ false) where
  placed_same : (place_new st this fid pto).records e ≡ st.records e
  unfolding place_new
  placed_same = let older : e == st.next ≡ false = ground (arith, lives) in rw older refl

  placed_self : (place_new st this fid pto).records st.next ≡ pto
  unfolding place_new
  placed_self = rw (==_refl st.next) refl

  linked_same :
      (t : ℕ)
      → IsLinked (place_new st this fid pto)
      → pto.target_object ≡ some t
      → (add_points_from (place_new st this fid pto) t this st.next).records e ≡ st.records e
  unfolding add_points_from link_from
  linked_same t ln target =
      let st' = place_new st this fid pto in
      let own : same_opt (st'.records st.next).target_object (some t) ≡ true =
        rw placed_self ((same_opt_iff pto.target_object (some t)).1 target) in
      elim (Option-cases (find_fields st' (st'.records st.next) (st'.points_from t this))) [
        | inl e_none ↦ rw (own, e_none, add_points_from) placed_same
        | inr (q, found) ↦
            let f = find_fields-listed st' (st'.records st.next) (st'.points_from t this) q found in
            let near : points_to_same (st'.records q) (st'.records st.next) ≡ true =
              same_fields-points_to_same (st'.records q) (st'.records st.next) t
                (ln.from_target t this q f.0)
                (ap (λ (x : FieldPto). x.target_object) placed_self ∙ target) f.1 in
            let like : points_to_same (st'.records q) pto ≡ true =
              ap (points_to_same (st'.records q)) (sym placed_self) ∙ near in
            let far : points_to_same (st'.records e) pto ≡ false =
              ap (λ (x : FieldPto). points_to_same x pto) placed_same ∙ away in
            let other : e == q ≡ false = elim (Bool-cases (e == q)) [
              | inr out ↦ out
              | inl here ↦
                  let same : e ≡ q = (==_iff e q).0 here in
                  let far' : points_to_same (st'.records q) pto ≡ false =
                    ap (λ (k : ℕ). points_to_same (st'.records k) pto) (sym same) ∙ far in
                  cc (like, far')
            ] in
            rw (own, found, add_points_from) (set_record_other st' q e _ other ∙ placed_same)
      ]

  add_one_same :
      pto.src_object ≡ some this
      → eqb_ℤ pto.field fid ≡ true
      → (add_one st this fid pto).records e ≡ st.records e
  unfolding add_one
  add_one_same src fld =
      let st' = place_new st this fid pto in
      let ln = place_new-IsLinked st this fid pto l src fld in
      let far : points_to_same (st'.records e) (st'.records st.next) ≡ false =
        ap (points_to_same (st'.records e)) placed_self
        ∙ ap (λ (x : FieldPto). points_to_same x pto) placed_same
        ∙ away in
      elim (Option-cases pto.target_object) [
        | inl no_target ↦
            rw (no_target, add_one)
              (activate_unreached st' this st.next true e ln far ∙ placed_same)
        | inr (t, target) ↦
            let linked = add_points_from st' t this st.next in
            let la =
              add_points_from-IsLinked st' t this st.next ln (new_lives st this fid pto)
                (new_source st this fid pto src) in
            rw (target, add_one)
              (activate_unreached linked this st.next true e la (
                  core-points_to_same (st'.records e) (linked.records e) (st'.records st.next)
                    (linked.records st.next) (add_points_from-core st' t this st.next e)
                    (add_points_from-core st' t this st.next st.next)
                  ∙ far)
                ∙ linked_same t ln target)
      ]

pub add_all_same :
    (st : Points) (this e : ℕ) (fid : ℤ) (add : List FieldPto) (r : FieldPto)
    → IsLinked st
    → e < st.next
    → st.records e ≡ r
    → All (λ pto. IsOwned this fid pto × (points_to_same r pto ≡ false)) add
    → (add_all st this fid add).records e ≡ r
unfolding add_all
add_all_same st this e fid [] r l lives h a = h
add_all_same st this e fid (pto ∷ add) r l lives h a =
    let (own, away) = a.0 in
    let same =
      add_one_same st this e fid pto l lives (ap (λ (x : FieldPto). points_to_same x pto) h ∙ away)
        own.0 own.1 in
    add_all_same (add_one st this fid pto) this e fid add r
      (add_one-IsLinked st this fid pto l own.0 own.1) (add_one-next st this fid pto e lives)
      (same ∙ h) a.1
