-- ===== src/Uaf/Tests.antt =====
-- A load at site 7 of an object that is freed at site 5 and at site 8, with one lock from site 2 to
-- site 8.
use study_uafx.Base.{
  ℕ, ◌≡◌, refl, Bool, true, false, not, Option, none, some, List, [], ◌∷◌, if◌then◌else◌, ◌==◌, ltb,
  contains,
}
use study_uafx.Base.Int.{pos}
use study_uafx.Context.{same_sites, is_prefix}
use study_uafx.Loc.{InstLoc, loc, as_inst, is_ctx_prefix, has_ctx}
use study_uafx.Loc.Judge.{Judge, same_loc, same_value}
use study_uafx.Lockset.{Pto, LockInfo, Locks}
use study_uafx.Uaf.{Objects, PtoTarget, is_data_valid, visit_load_inst}
use study_uafx.Uaf.Held.{unlocks_after, is_related, meets_eqv, meet_eqv, hold_same_locks}
use study_uafx.Uaf.Exact.{is_warned, visit_load_inst-is_uaf}
use study_uafx.Sites.{
  Objs, get_emb_objs, emb_in, emb_at, get_field_free_sites, get_field_alloc_site,
}
use study_uafx.Sites.Exact.{IsNested}
use study_uafx.Uaf.Sourced.{objects_of, Sourced, visit_load_inst-Sourced}
use study_uafx.Uaf.Locked.{visit_load_inst_locked}

abbrev at : ℕ → InstLoc
at i = loc i (some 0 ∷ [])

abbrev number : InstLoc → ℕ
number l = elim (as_inst l.value) [ none ↦ 0 | some i ↦ i ]

abbrev later : InstLoc → Option InstLoc → Bool
later l none = true
later l (some m) = ltb (number m) (number l)

abbrev straight_line : Judge
straight_line = record {
  reaches = λ l m blocklist. later l m;
  post_dominates = later;
  dominates = λ l m strict. not (later l m);
}

abbrev two_frees : Objects
two_frees = record {
  get_field_alloc_site = λ o f. some (at 1);
  get_all_equivalent_objs = λ o. some o ∷ some 4 ∷ [];
  get_field_free_sites = λ o f. if o == 4 then some (at 5) ∷ some (at 8) ∷ [] else [];
}

abbrev one_target : List (Option PtoTarget)
one_target = some (record { target_object = some 3; dst_field = pos 0 }) ∷ []

-- The free before the load is seen there, the free after it is not.
visit_load_inst-is_uaf_example :
    is_warned (visit_load_inst straight_line (λ l u. false) (at 7) two_frees one_target) (at 5)
    ≡ true
unfolding is_data_valid same_loc same_value same_sites
visit_load_inst-is_uaf_example =
    visit_load_inst-is_uaf straight_line (λ l u. false) (at 7) two_frees one_target (at 5)

abbrev mutex : List (Option Pto)
mutex = some (record { target_object = 9; dst_field = 0 }) ∷ []

abbrev the_lock : LockInfo
the_lock = record { loc = at 2; lock = true; name = "mutex_lock"; objs = mutex; pairs = 0 ∷ [] }

abbrev one_lock : Locks
one_lock = record {
  locks = the_lock ∷ [];
  unlocks =
      record { loc = at 8; lock = false; name = "mutex_unlock"; objs = mutex; pairs = 0 ∷ [] } ∷ [];
}

visit_load_inst_locked_example :
    is_warned
      (visit_load_inst straight_line
        (λ l u. hold_same_locks straight_line (λ o. o ∷ []) one_lock (some l) (some u))
        (at 7)
        two_frees
        one_target)
      (at 5)
    ≡ false
unfolding unlocks_after is_related is_ctx_prefix has_ctx is_prefix meet_eqv meets_eqv contains
visit_load_inst_locked_example =
    visit_load_inst_locked straight_line (λ o. o ∷ []) one_lock (at 7) (at 5) two_frees one_target 0
      the_lock refl refl refl refl

-- A heap where the object 4 is freed at site 5, and none is nested.
abbrev flat : Objs
flat o = record {
  parent = none;
  emb_objs = [];
  is_seq = false;
  fields = [];
  free_sites = if o == 4 then (at 5, []) ∷ [] else [];
  alloc_loc = none;
}

no_host : (o p : ℕ) → (flat o).parent ≡ some p → ltb 0 0 ≡ true
no_host o p e = cc

none_embedded : (o e : ℕ) → contains (get_emb_objs (flat o) (pos 0)) e ≡ true → ltb 0 0 ≡ true
unfolding get_emb_objs emb_in emb_at contains
none_embedded o e m = cc

abbrev flat-IsNested : IsNested flat
flat-IsNested = record {
  up = λ o. 0;
  down = λ o. 0;
  up_falls = no_host;
  down_falls = none_embedded;
}

abbrev four : ℕ → List (Option ℕ)
four o = some o ∷ some 4 ∷ []

warned_at_five :
    is_warned
      (visit_load_inst straight_line (λ l u. false) (at 7) (objects_of flat 1 four) one_target)
      (at 5)
    ≡ true
unfolding is_data_valid same_loc same_value same_sites get_field_free_sites get_field_alloc_site
warned_at_five =
    visit_load_inst-is_uaf straight_line (λ l u. false) (at 7) (objects_of flat 1 four) one_target
      (at 5)

visit_load_inst-Sourced_example :
    Sourced flat flat-IsNested 1 four
      (λ o. refl)
      (λ o. refl)
      straight_line
      (λ l u. false)
      (at 7)
      one_target
      (at 5)
visit_load_inst-Sourced_example =
    (visit_load_inst-Sourced flat flat-IsNested 1 four (λ o. refl) (λ o. refl) straight_line
        (λ l u. false) (at 7) one_target (at 5)).0
      warned_at_five
