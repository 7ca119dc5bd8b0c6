-- ===== src/Points/Tests.antt =====
-- An object 1 whose field 0 points to object 2 since site 3 of the entry 0, under a judge for which a
-- later site post-dominates an earlier one.
use study_uafx.Base.{
  ℕ, ◌≡◌, refl, Bool, true, false, not, ◌&&◌, Option, none, some, [], ◌∷◌, if◌then◌else◌, ◌==◌, ltb,
  contains, select, insert, arith,
}
use study_uafx.Base.Int.{pos, eqb_ℤ}
use study_uafx.Loc.{InstLoc, loc, as_inst}
use study_uafx.Loc.Judge.{Judge, same_opt_loc, same_loc, same_value}
use study_uafx.Context.{same_sites}
use study_uafx.Points.{
  FieldPto, Points, points_to_same, same_pto, is_identical_points_to, add_to_history, ends_with,
  set_record, with_active, with_strong, same_fields, mark_points_from, activate_field_pto,
  find_fields, link_from, add_points_from, entry_of, reset_ptos, strong_sites, get_live_ptos,
}
use study_uafx.Points.Update.{
  update_field_points_to, update_field_points_to_do, unique_from, merge_duplicate, copy_for,
  set_strength, scan_new, scan_old, kills, refresh, deactivate_all, add_all, add_one, place_new,
}
use study_uafx.Points.Twins.{activate_field_pto_twins}
use study_uafx.Points.Linked.{IsLinked, update_field_points_to-IsLinked}
use study_uafx.Points.Override.{Alone}
use study_uafx.Points.Replaced.{update_field_points_to_do-records}

abbrev at : ℕ → InstLoc
at i = loc i (some 0 ∷ [])

abbrev number : InstLoc → ℕ
number l = elim (as_inst l.value) [ none ↦ 0 | some i ↦ i ]

abbrev later : InstLoc → Option InstLoc → Bool
later l none = true
later l (some m) = ltb (number m) (number l)

abbrev straight_line : Judge
straight_line = record {
  reaches = λ l m blocklist. later l m;
  post_dominates = later;
  dominates = λ l m strict. not (later l m);
}

abbrev to_object : ℕ → ℕ → FieldPto
to_object o i = record {
  is_pointer = false;
  target_pointer = none;
  src_object = some 1;
  field = pos 0;
  target_object = some o;
  dst_field = pos 0;
  propagating_inst = some (at i);
  history = at i ∷ [];
  is_weak = false;
  is_creation = false;
  is_active = true;
}

abbrev empty : Points
empty = record {
  records = λ k. to_object 0 0;
  next = 0;
  points_to = λ o f. [];
  points_from = λ t s. [];
  last_reset = λ o f. none;
}

abbrev one : Points
one = record {
  records = λ k. to_object 2 3;
  next = 1;
  points_to = λ o f. if o == 1 && eqb_ℤ f (pos 0) then 0 ∷ [] else [];
  points_from = λ t s. if t == 2 && s == 1 then 0 ∷ [] else [];
  last_reset = λ o f. none;
}

-- Object 1 points to object 2 in two records, of which the second is not in the list of object 2.
abbrev twins : Points
twins = record {
  records = λ k. if k == 0 then to_object 2 3 else to_object 2 5;
  next = 2;
  points_to = λ o f. if o == 1 && eqb_ℤ f (pos 0) then 0 ∷ 1 ∷ [] else [];
  points_from = λ t s. if t == 2 && s == 1 then 0 ∷ [] else [];
  last_reset = λ o f. none;
}

empty-IsLinked : IsLinked empty
unfolding contains
empty-IsLinked = record {
  to_lives = λ o f p m. cc;
  to_source = λ o f p m. cc;
  to_field = λ o f p m. cc;
  from_lives = λ t s p m. cc;
  from_target = λ t s p m. cc;
  from_source = λ t s p m. cc;
}

one-IsLinked : IsLinked one
unfolding contains
one-IsLinked = record {
  to_lives = λ o f p m. ground (arith, m);
  to_source = λ o f p m. ground (arith, m);
  to_field = λ o f p m. ground (arith, m);
  from_lives = λ t s p m. ground (arith, m);
  from_target = λ t s p m. ground (arith, m);
  from_source = λ t s p m. ground (arith, m);
}

one-Alone : Alone one 0 (one.points_to 1 (pos 0))
unfolding contains points_to_same
one-Alone p m ne = ground (arith, m, ne)

-- The update of the field with object 4 at site 7.
overwritten :
    get_live_ptos straight_line
      (update_field_points_to straight_line one 1
        (pos 0)
        (some (to_object 4 7) ∷ [])
        (some (at 7))
        (some false))
      1
      (pos 0)
      (at 9)
    ≡ 1 ∷ []
unfolding get_live_ptos strong_sites select update_field_points_to update_field_points_to_do
    reset_ptos unique_from merge_duplicate copy_for add_to_history ends_with same_loc same_value
    same_sites set_strength scan_new scan_old kills refresh deactivate_all add_all add_one place_new
    add_points_from find_fields link_from activate_field_pto mark_points_from set_record with_active
    with_strong same_fields points_to_same same_pto is_identical_points_to same_opt_loc insert
    contains entry_of
overwritten = refl

update_field_points_to-IsLinked_example : IsLinked (
    update_field_points_to straight_line one 1
      (pos 0)
      (some (to_object 4 7) ∷ [])
      (some (at 7))
      (some false))
update_field_points_to-IsLinked_example =
    update_field_points_to-IsLinked straight_line one 1 (pos 0) (some (to_object 4 7) ∷ [])
      (some (at 7)) (some false) one-IsLinked

update_field_points_to_do-records_example :
    (update_field_points_to_do straight_line one 1
        (pos 0)
        (some (to_object 4 7) ∷ [])
        (some (at 7))
        (some false)).records
      0
    ≡ (if true && not false && later (at 7) (some (at 3))
        then with_active false (to_object 2 3)
        else to_object 2 3)
unfolding contains points_to_same
update_field_points_to_do-records_example =
    update_field_points_to_do-records straight_line one 1 (pos 0) (to_object 4 7) [] (at 7) false 0
      one-IsLinked refl one-Alone (refl, tt)

activate_field_pto_twins_example :
    ((activate_field_pto twins 1 1 false).records 0).is_active ≡ false
unfolding contains same_fields
activate_field_pto_twins_example = activate_field_pto_twins twins 1 1 0 2 false refl refl refl
