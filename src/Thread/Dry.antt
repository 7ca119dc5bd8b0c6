-- ===== src/Thread/Dry.antt =====
-- The dry run of Thread::insertLoc against the insertion.
use study_uafx.Base.{
  ℕ, suc, ◌≡◌, refl, ap, Bool, true, false, not, ◌||◌, Option, none, some, [], if◌then◌else◌, leb,
  ltb, length, Bool-cases, Option-cases, inl, inr,
}
use study_uafx.Loc.{InstLoc}
use study_uafx.Loc.Judge.{Judge}
use study_uafx.Thread.{Store, types_met}
use study_uafx.Thread.Insert.{
  Slot, at_index, no_way, avoidable, past_all, index_of, find_same, Inserted, closes, put_at,
  meet_same, put_last, put_slot, insert_between, insert_from, insert_loc, not_inevitable,
  is_success, test_insert_loc,
}

abbrev pub has_node : Inserted → Bool
has_node r = elim r.1 as (λ x. Bool) [ none ↦ false | some p ↦ true ]

abbrev succeeds : Inserted → Bool
succeeds r = is_success r.2

both_ways :
    (b : Bool) (x x' y y' : Inserted)
    → succeeds x ≡ has_node x'
    → succeeds y ≡ has_node y'
    → succeeds (if b then x else y) ≡ has_node (if b then x' else y')
both_ways true x x' y y' h k = h
both_ways false x x' y y' h k = k

put_at_dry :
    (st : Store) (tr : ℕ) (loc : InstLoc) (ty i : ℕ)
    → succeeds (put_at st tr loc ty i true) ≡ has_node (put_at st tr loc ty i false)
unfolding put_at is_success
put_at_dry st tr loc ty i = refl

meet_same_dry :
    (st : Store) (ty : ℕ) (merge : Bool) (first stop i p : ℕ)
    → succeeds (meet_same st ty merge first stop i p true)
      ≡ has_node (meet_same st ty merge first stop i p false)
unfolding meet_same is_success
meet_same_dry st ty merge first stop i p =
    both_ways (leb stop i || ltb i first) _ _ _ _ refl
      (both_ways (types_met (st.nodes p).ty ty) _ _ _ _ refl (both_ways merge _ _ _ _ refl refl))

put_last_dry :
    (w : Judge) (st : Store) (tr : ℕ) (loc : InstLoc) (ty : ℕ) (dom stopped : Bool)
    → succeeds (put_last w st tr loc ty dom stopped true)
      ≡ has_node (put_last w st tr loc ty dom stopped false)
unfolding put_last is_success
put_last_dry w st tr loc ty dom stopped =
    let seq = (st.threads tr).seq in
    let out : Inserted = (st, none, not_inevitable) in
    both_ways stopped _ _ _ _ refl (
      both_ways (not dom || closes w st.nodes loc seq) (put_at st tr loc ty (length seq) true)
        (put_at st tr loc ty (length seq) false) out out (put_at_dry st tr loc ty (length seq))
        refl)

put_slot_dry :
    (w : Judge) (st : Store) (tr : ℕ) (loc : InstLoc) (ty : ℕ) (dom stopped : Bool) (s : Slot)
    → succeeds (put_slot w st tr loc ty dom stopped true s)
      ≡ has_node (put_slot w st tr loc ty dom stopped false s)
unfolding put_slot is_success
put_slot_dry w st tr loc ty dom stopped (at_index i) = put_at_dry st tr loc ty i
put_slot_dry w st tr loc ty dom stopped no_way = refl
put_slot_dry w st tr loc ty dom stopped avoidable = refl
put_slot_dry w st tr loc ty dom stopped past_all = put_last_dry w st tr loc ty dom stopped

abbrev pub is_inserted : Option Inserted → Option Bool
is_inserted none = none
is_inserted (some r) = some (has_node r)

abbrev is_test_success : Option Inserted → Option Bool
is_test_success none = none
is_test_success (some r) = some (succeeds r)

module _ (w : Judge) (st : Store) (tr : ℕ) where
  insert_between_dry :
      (loc : InstLoc) (ty : ℕ) (merge dom : Bool) (first stop : ℕ) (prev : Option ℕ)
      (stopped : Bool)
      → succeeds (insert_between w st tr loc ty merge dom first stop prev stopped true)
        ≡ has_node (insert_between w st tr loc ty merge dom first stop prev stopped false)
  unfolding insert_between
  insert_between_dry loc ty merge dom first stop prev stopped =
      elim (Option-cases (find_same st.nodes loc (st.threads tr).seq)) [
        | inr ((i, p), found) ↦
            rw (insert_between, found) (meet_same_dry st ty merge first stop i p)
        | inl missing ↦ rw (insert_between, missing) (put_slot_dry w st tr loc ty dom stopped _)
      ]

  insert_from_dry :
      (loc : InstLoc) (ty : ℕ) (merge dom : Bool) (stop : ℕ) (stopped : Bool) (start_loc : Option ℕ)
      → is_test_success (insert_from w st tr loc ty merge dom stop stopped start_loc true)
        ≡ is_inserted (insert_from w st tr loc ty merge dom stop stopped start_loc false)
  unfolding insert_from is_success
  insert_from_dry loc ty merge dom stop stopped none =
      ap some (insert_between_dry loc ty merge dom 0 stop none stopped)
  insert_from_dry loc ty merge dom stop stopped (some s) =
      elim (Option-cases (index_of s (st.threads tr).seq)) [
        | inl missing ↦ rw (insert_from, missing) refl
        | inr (start, e) ↦ elim (Bool-cases (w.reaches loc (some (st.nodes s).loc) [])) [
          | inr away ↦ rw (insert_from, e, away, is_success) refl
          | inl r ↦
              rw (insert_from, e, r)
                (ap some (insert_between_dry loc ty merge dom (suc start) stop (some s) stopped))
        ]
      ]

  insert_loc_dry :
      (loc : Option InstLoc) (ty : ℕ) (merge dom : Bool) (stop_loc start_loc : Option ℕ)
      → is_test_success (insert_loc w st tr loc ty merge dom stop_loc start_loc true)
        ≡ is_inserted (insert_loc w st tr loc ty merge dom stop_loc start_loc false)
  unfolding insert_loc is_success
  insert_loc_dry none ty merge dom stop_loc start_loc = refl
  insert_loc_dry (some loc) ty merge dom none start_loc =
      insert_from_dry loc ty merge dom (length (st.threads tr).seq) false start_loc
  insert_loc_dry (some loc) ty merge dom (some s) start_loc =
      elim (Option-cases (index_of s (st.threads tr).seq)) [
        | inl missing ↦ rw (insert_loc, missing) refl
        | inr (stop, e) ↦
            rw (insert_loc, e) (insert_from_dry loc ty merge dom (suc stop) true start_loc)
      ]

  -- The dry run answers for the real one: testInsertLoc holds exactly when insertLoc of the same arguments
  -- returns a node, and fails an assertion exactly when it does.
  pub test_insert_loc-insert_loc :
      (loc : Option InstLoc) (ty : ℕ) (merge dom : Bool) (stop_loc start_loc : Option ℕ)
      → test_insert_loc w st tr loc ty merge dom stop_loc start_loc
        ≡ is_inserted (insert_loc w st tr loc ty merge dom stop_loc start_loc false)
  unfolding test_insert_loc
  test_insert_loc-insert_loc loc ty merge dom stop_loc start_loc =
      let dry = insert_loc_dry loc ty merge dom stop_loc start_loc in
      elim (Option-cases (insert_loc w st tr loc ty merge dom stop_loc start_loc true)) [
        | inl fails ↦ rw (test_insert_loc, fails) (rw fails at dry)
        | inr (r, e) ↦ rw (test_insert_loc, e) (rw e at dry)
      ]
