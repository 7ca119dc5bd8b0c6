-- ===== src/Points/Linked.antt =====
-- The lists of records and the records agree, and updateFieldPointsTo_do keeps that.
use study_uafx.Base.{
  ℕ, ◌≡◌, refl, ◌∙◌, ◌<◌, Bool, true, false, ◌&&◌, Option, none, some, List, [], ◌∷◌, ◌++◌,
  if◌then◌else◌, ◌==◌, contains, arith, Bool-cases, Option-cases, inl, inr, ==_iff, ==_refl,
  contains-append, same_opt, same_opt_iff, ◌⊎◌,
}
use study_uafx.Base.Int.{ℤ, eqb_ℤ}
use study_uafx.Loc.Judge.{Judge}
use study_uafx.Points.{
  FieldPto, Points, entry_of, set_record, with_strong, find_fields, link_from, add_points_from,
  reset_ptos,
}
use study_uafx.Points.Flags.{
  SameLinks, reset_ptos-SameLinks, core, core-target, core-source, core-field,
  activate_field_pto-SameLinks, scan_new-SameLinks, deactivate_all-SameLinks, set_active-SameLinks,
}
use study_uafx.Points.Unique.{All, Copies, set_strength-All, unique_from-All, scan_new-All}
use study_uafx.Loc.{InstLoc}
use study_uafx.Points.Update.{
  update_field_points_to, copy_for, unique_from, set_strength, place_new, add_one, add_all,
  update_field_points_to_do, scan_new, deactivate_all,
}

-- What is listed is on the heap, under the object and the field of the record.
pub record IsLinked (st : Points) : Type 0 where
  pub to_lives : (o : ℕ) (f : ℤ) (p : ℕ) → contains (st.points_to o f) p ≡ true → p < st.next
  pub to_source :
      (o : ℕ) (f : ℤ) (p : ℕ)
      → contains (st.points_to o f) p ≡ true
      → (st.records p).src_object ≡ some o
  pub to_field :
      (o : ℕ) (f : ℤ) (p : ℕ)
      → contains (st.points_to o f) p ≡ true
      → eqb_ℤ (st.records p).field f ≡ true
  pub from_lives : (t s p : ℕ) → contains (st.points_from t s) p ≡ true → p < st.next
  pub from_target :
      (t s p : ℕ) → contains (st.points_from t s) p ≡ true → (st.records p).target_object ≡ some t
  pub from_source :
      (t s p : ℕ) → contains (st.points_from t s) p ≡ true → (st.records p).src_object ≡ some s

pub SameLinks-IsLinked : (st st' : Points) → SameLinks st st' → IsLinked st → IsLinked st'
SameLinks-IsLinked st st' s l = record {
  to_lives = λ o f p m. rw s.next_same (l.to_lives o f p (rw s.to_same at m));
  to_source = λ o f p m. core-source _ _ (s.core_same p) ∙ l.to_source o f p (rw s.to_same at m);
  to_field = λ o f p m. rw (core-field _ _ (s.core_same p)) (l.to_field o f p (rw s.to_same at m));
  from_lives = λ t o p m. rw s.next_same (l.from_lives t o p (rw s.from_same at m));
  from_target =
      λ t o p m. core-target _ _ (s.core_same p) ∙ l.from_target t o p (rw s.from_same at m);
  from_source =
      λ t o p m. core-source _ _ (s.core_same p) ∙ l.from_source t o p (rw s.from_same at m);
}

eqb_ℤ_via : (a f fid : ℤ) → eqb_ℤ a fid ≡ true → eqb_ℤ f fid ≡ true → eqb_ℤ a f ≡ true
eqb_ℤ_via a f fid h k = ground arith

-- A place of a list with one more entry under a condition.
listed_more :
    (c : Bool) (old : List ℕ) (n p : ℕ)
    → contains (if c then old ++ (n ∷ []) else old) p ≡ true
    → (contains old p ≡ true) ⊎ ((c ≡ true) × (n ≡ p))
unfolding contains
listed_more true old n p m = elim (Bool-cases (contains old p)) [
  | inl before ↦ inl before
  | inr new ↦
      let whole = contains-append old (n ∷ []) p in
      let hit : n == p ≡ true = ground (arith, whole, new, m) in inr (refl, (==_iff n p).0 hit)
]
listed_more false old n p m = inl m

pub place_new-IsLinked :
    (st : Points) (this : ℕ) (fid : ℤ) (pto : FieldPto)
    → IsLinked st
    → pto.src_object ≡ some this
    → eqb_ℤ pto.field fid ≡ true
    → IsLinked (place_new st this fid pto)
unfolding place_new
place_new-IsLinked st this fid pto l src fld = record {
  to_lives = λ o f p m.
      elim (listed_more (o == this && eqb_ℤ f fid) (st.points_to o f) st.next p m) [
        | inl old ↦ omega (arith, l.to_lives o f p old)
        | inr (c, e) ↦ omega (arith, e)
      ];
  to_source = λ o f p m.
      elim (listed_more (o == this && eqb_ℤ f fid) (st.points_to o f) st.next p m) [
        | inl old ↦
            let older : p == st.next ≡ false = ground (arith, l.to_lives o f p old) in
            rw older (l.to_source o f p old)
        | inr (c, e) ↦
            let new : p == st.next ≡ true = ground (arith, e) in
            let own : this ≡ o = ground (arith, c) in rw (new, src, own) refl
      ];
  to_field = λ o f p m.
      elim (listed_more (o == this && eqb_ℤ f fid) (st.points_to o f) st.next p m) [
        | inl old ↦
            let older : p == st.next ≡ false = ground (arith, l.to_lives o f p old) in
            rw older (l.to_field o f p old)
        | inr (c, e) ↦
            let new : p == st.next ≡ true = ground (arith, e) in
            let same : eqb_ℤ f fid ≡ true = ground (arith, c) in
            rw new (eqb_ℤ_via pto.field f fid fld same)
      ];
  from_lives = λ t s p m. omega (arith, l.from_lives t s p m);
  from_target = λ t s p m.
      let older : p == st.next ≡ false = ground (arith, l.from_lives t s p m) in
      rw older (l.from_target t s p m);
  from_source = λ t s p m.
      let older : p == st.next ≡ false = ground (arith, l.from_lives t s p m) in
      rw older (l.from_source t s p m);
}

link_from-IsLinked :
    (st : Points) (t s p : ℕ)
    → IsLinked st
    → p < st.next
    → (st.records p).target_object ≡ some t
    → (st.records p).src_object ≡ some s
    → IsLinked (link_from st t s p)
unfolding link_from
link_from-IsLinked st t s p l lives target source = record {
  to_lives = l.to_lives;
  to_source = l.to_source;
  to_field = l.to_field;
  from_lives = λ a b q m. elim (listed_more (a == t && b == s) (st.points_from a b) p q m) [
    | inl old ↦ l.from_lives a b q old
    | inr (c, e) ↦ rw (← e) lives
  ];
  from_target = λ a b q m. elim (listed_more (a == t && b == s) (st.points_from a b) p q m) [
    | inl old ↦ l.from_target a b q old
    | inr (c, e) ↦ let own : a ≡ t = ground (arith, c) in rw (← e, own) target
  ];
  from_source = λ a b q m. elim (listed_more (a == t && b == s) (st.points_from a b) p q m) [
    | inl old ↦ l.from_source a b q old
    | inr (c, e) ↦ let own : b ≡ s = ground (arith, c) in rw (← e, own) source
  ];
}

pub add_points_from-IsLinked :
    (st : Points) (t s p : ℕ)
    → IsLinked st
    → p < st.next
    → (st.records p).src_object ≡ some s
    → IsLinked (add_points_from st t s p)
unfolding add_points_from
add_points_from-IsLinked st t s p l lives source =
    elim (Bool-cases (same_opt (st.records p).target_object (some t))) [
      | inr other ↦ rw (other, add_points_from) l
      | inl here ↦
          let target : (st.records p).target_object ≡ some t =
            (same_opt_iff (st.records p).target_object (some t)).0 here in
          elim (Option-cases (find_fields st (st.records p) (st.points_from t s))) [
            | inl e ↦
                rw (here, e, add_points_from) (link_from-IsLinked st t s p l lives target source)
            | inr (q, e) ↦
                rw (here, e, add_points_from)
                  (SameLinks-IsLinked st _ (set_active-SameLinks st q true) l)
          ]
    ]

pub new_lives :
    (st : Points) (this : ℕ) (fid : ℤ) (pto : FieldPto) → st.next < (place_new st this fid pto).next
unfolding place_new
new_lives st this fid pto = omega arith

pub new_source :
    (st : Points) (this : ℕ) (fid : ℤ) (pto : FieldPto)
    → pto.src_object ≡ some this
    → ((place_new st this fid pto).records st.next).src_object ≡ some this
unfolding place_new
new_source st this fid pto src = rw (==_refl st.next) src

pub add_points_from-core :
    (st : Points) (t s p k : ℕ) → core ((add_points_from st t s p).records k) ≡ core (st.records k)
unfolding add_points_from link_from
add_points_from-core st t s p k =
    elim (Bool-cases (same_opt (st.records p).target_object (some t))) [
      | inr other ↦ rw (other, add_points_from) refl
      | inl here ↦ elim (Option-cases (find_fields st (st.records p) (st.points_from t s))) [
        | inl e ↦ rw (here, e, add_points_from) refl
        | inr (q, e) ↦ rw (here, e, add_points_from) ((set_active-SameLinks st q true).core_same k)
      ]
    ]

pub add_one-IsLinked :
    (st : Points) (this : ℕ) (fid : ℤ) (pto : FieldPto)
    → IsLinked st
    → pto.src_object ≡ some this
    → eqb_ℤ pto.field fid ≡ true
    → IsLinked (add_one st this fid pto)
unfolding add_one
add_one-IsLinked st this fid pto l src fld =
    let st' = place_new st this fid pto in
    let placed : IsLinked st' = place_new-IsLinked st this fid pto l src fld in
    elim (Option-cases pto.target_object) [
      | inl e ↦
          rw (e, add_one)
            (SameLinks-IsLinked st' _ (activate_field_pto-SameLinks st' this st.next true) placed)
      | inr (t, e) ↦
          let linked : IsLinked (add_points_from st' t this st.next) =
            add_points_from-IsLinked st' t this st.next placed (new_lives st this fid pto)
              (new_source st this fid pto src) in
          rw (e, add_one)
            (SameLinks-IsLinked _ _
              (activate_field_pto-SameLinks (add_points_from st' t this st.next) this st.next true)
              linked)
    ]

add_points_from-next : (st : Points) (t s p : ℕ) → (add_points_from st t s p).next ≡ st.next
unfolding add_points_from link_from set_record
add_points_from-next st t s p = elim (Bool-cases (same_opt (st.records p).target_object (some t))) [
  | inr other ↦ rw (other, add_points_from) refl
  | inl here ↦ elim (Option-cases (find_fields st (st.records p) (st.points_from t s))) [
    | inl e ↦ rw (here, e, add_points_from) refl
    | inr (q, e) ↦ rw (here, e, add_points_from) refl
  ]
]

pub add_one-next :
    (st : Points) (this : ℕ) (fid : ℤ) (pto : FieldPto) (e : ℕ)
    → e < st.next
    → e < (add_one st this fid pto).next
unfolding add_one place_new
add_one-next st this fid pto e lives =
    let st' = place_new st this fid pto in
    elim (Option-cases pto.target_object) [
      | inl none_there ↦
          let links = activate_field_pto-SameLinks st' this st.next true in
          rw (none_there, add_one) (rw links.next_same (omega arith))
      | inr (t, there) ↦
          let linked = add_points_from st' t this st.next in
          let links = activate_field_pto-SameLinks linked this st.next true in
          rw (there, add_one)
            (rw (links.next_same, add_points_from-next st' t this st.next) (omega arith))
    ]

-- A record that carries the object and the field.
abbrev pub IsOwned : ℕ → ℤ → FieldPto → Type 0
IsOwned this fid pto = (pto.src_object ≡ some this) × (eqb_ℤ pto.field fid ≡ true)

add_all-IsLinked :
    (st : Points) (this : ℕ) (fid : ℤ) (add : List FieldPto)
    → IsLinked st
    → All (IsOwned this fid) add
    → IsLinked (add_all st this fid add)
unfolding add_all
add_all-IsLinked st this fid [] l a = l
add_all-IsLinked st this fid (pto ∷ add) l a =
    add_all-IsLinked (add_one st this fid pto) this fid add
      (add_one-IsLinked st this fid pto l a.0.0 a.0.1) a.1

pub copy_for-IsOwned :
    (this : ℕ) (fid : ℤ) (l : Option InstLoc) (pto : FieldPto)
    → IsOwned this fid (copy_for this fid l pto)
unfolding copy_for
copy_for-IsOwned this fid l pto = (refl, ground arith)

pub with_strong-IsOwned :
    (this : ℕ) (fid : ℤ) (pto : FieldPto)
    → IsOwned this fid pto
    → IsOwned this fid (with_strong pto)
unfolding with_strong
with_strong-IsOwned this fid pto h = h

pub copies :
    (this : ℕ) (fid : ℤ) (l : Option InstLoc) (ptos : List (Option FieldPto))
    → Copies (IsOwned this fid) this fid l ptos
copies this fid l [] = tt
copies this fid l (none ∷ ptos) = copies this fid l ptos
copies this fid l (some pto ∷ ptos) = (copy_for-IsOwned this fid l pto, copies this fid l ptos)

update_field_points_to_do-IsLinked :
    (w : Judge) (st : Points) (this : ℕ) (fid : ℤ) (ptos : List (Option FieldPto))
    (l : Option InstLoc) (weak : Option Bool)
    → IsLinked st
    → IsLinked (update_field_points_to_do w st this fid ptos l weak)
unfolding update_field_points_to_do
update_field_points_to_do-IsLinked w st this fid ptos l weak h =
    let uniq = set_strength weak (unique_from this fid l [] ptos) in
    let owned : All (IsOwned this fid) uniq =
      set_strength-All (IsOwned this fid) weak (λ b t k. k) (unique_from this fid l [] ptos)
        (unique_from-All (IsOwned this fid) (with_strong-IsOwned this fid) this fid l [] ptos tt
          (copies this fid l ptos)) in
    let s = scan_new w this (st.points_to this fid) st [] [] uniq in
    let scanned : IsLinked s.state =
      SameLinks-IsLinked st _ (scan_new-SameLinks w this (st.points_to this fid) st [] [] uniq) h in
    add_all-IsLinked (deactivate_all s.state this s.to_del) this fid s.to_add
      (SameLinks-IsLinked _ _ (deactivate_all-SameLinks s.state this s.to_del) scanned)
      (scan_new-All (IsOwned this fid) w this (st.points_to this fid) st [] [] uniq owned tt)

-- updateFieldPointsTo, with its reset when the entry function has changed, keeps the lists and the
-- records in agreement: what pointsTo of an object and a field lists are live records with that
-- object and field, and what pointsFrom lists are live records with that target and source.
pub update_field_points_to-IsLinked :
    (w : Judge) (st : Points) (host : ℕ) (fid : ℤ) (ptos : List (Option FieldPto))
    (l : Option InstLoc) (weak : Option Bool)
    → IsLinked st
    → IsLinked (update_field_points_to w st host fid ptos l weak)
unfolding update_field_points_to
update_field_points_to-IsLinked w st host fid [] l weak h = h
update_field_points_to-IsLinked w st host fid (p ∷ ptos) none weak h =
    update_field_points_to_do-IsLinked w st host fid (p ∷ ptos) none weak h
update_field_points_to-IsLinked w st host fid (p ∷ ptos) (some l) weak h =
    elim (Option-cases (entry_of l)) [
      | inl e ↦
          rw (e, update_field_points_to)
            (update_field_points_to_do-IsLinked w st host fid (p ∷ ptos) (some l) weak h)
      | inr (entry, e) ↦
          rw (e, update_field_points_to)
            (update_field_points_to_do-IsLinked w (reset_ptos st host fid entry) host fid (p ∷ ptos)
              (some l) weak (SameLinks-IsLinked st _ (reset_ptos-SameLinks st host fid entry) h))
    ]
