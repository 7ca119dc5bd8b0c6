-- ===== src/Taint/Tests.antt =====
-- A field of object 1 with a taint of the entry 0 at site 3, and a kill of it at site 5.
use study_uafx.Base.{
  ℕ, ◌≡◌, refl, sym, ap, ==_iff, Bool, true, false, not, Option, none, some, List, [], ◌∷◌,
  if◌then◌else◌, ◌==◌, ltb, contains, arith,
}
use study_uafx.Base.Int.{pos}
use study_uafx.Loc.{InstLoc, loc, as_inst}
use study_uafx.Loc.Judge.{Judge, same_opt_loc, same_loc, same_value}
use study_uafx.Context.{same_sites}
use study_uafx.Points.{entry_of}
use study_uafx.Taint.{
  TaintTag, new_flag, is_taint_equals, same_tags, is_tag_equals, ctx_of_trace, same_ctxs,
}
use study_uafx.Taint.Field.{
  FieldTaint, Flags, set_flag, with_active, reset_tfs, reset_at, do_get_tf,
}
use study_uafx.Taint.Add.{put_tf, add_tf}
use study_uafx.Taint.Overrides.{put_tf_deactivates}
use study_uafx.Taint.Reset.{reset_tfs-flags}
use study_uafx.Taint.Kill.{add_tf_clears}

abbrev at : ℕ → ℕ → InstLoc
at entry i = loc i (some entry ∷ [])

abbrev number : InstLoc → ℕ
number l = elim (as_inst l.value) [ none ↦ 0 | some i ↦ i ]

abbrev later : InstLoc → Option InstLoc → Bool
later l none = true
later l (some m) = ltb (number m) (number l)

abbrev straight_line : Judge
straight_line = record {
  reaches = λ l m blocklist. later l m;
  post_dominates = later;
  dominates = λ l m strict. not (later l m);
}

abbrev one_tag : ℕ → TaintTag
one_tag t = record { field_id = pos 0; v = some 7; type = none; is_global = false; priv = none }

abbrev taint_and_kill : Flags
taint_and_kill p =
    if p == 0
    then new_flag (some (at 0 3)) true (some 0) false true
    else new_flag (some (at 0 5)) false (some 0) false true

abbrev tainted_field : FieldTaint
tainted_field = record {
  this = 1;
  field_id = pos 0;
  target_taint = 0 ∷ [];
  priv = none;
  last_reset = some 0;
  winner_tfs = [];
}

abbrev no_rets : ℕ → Option (List ℕ)
no_rets f = none

put_tf_deactivates_example :
    (put_tf one_tag straight_line taint_and_kill tainted_field 1).0 0
    ≡ with_active false (new_flag (some (at 0 3)) true (some 0) false true)
unfolding set_flag is_taint_equals same_tags is_tag_equals same_opt_loc same_loc same_value
    same_sites ctx_of_trace same_ctxs contains new_flag
put_tf_deactivates_example =
    put_tf_deactivates one_tag straight_line taint_and_kill tainted_field 1 0 (at 0 5) refl
      (ground arith) refl

reset_tfs-flags_example :
    (reset_tfs straight_line no_rets taint_and_kill tainted_field 4).0 0
    ≡ with_active false (new_flag (some (at 0 3)) true (some 0) false true)
unfolding contains entry_of new_flag
reset_tfs-flags_example =
    reset_tfs-flags straight_line no_rets taint_and_kill tainted_field 0 4 0 refl (ground arith)

kill_over :
    (p : ℕ)
    → contains (0 ∷ []) p ≡ true
    → ((reset_at straight_line no_rets taint_and_kill tainted_field (some (at 0 5))).0 p).is_active
      ≡ true
    → (taint_and_kill p).is_tainted ≡ true
    → later (at 0 5) (taint_and_kill p).target_instr ≡ true
unfolding contains new_flag
kill_over p m a t =
    let e : 0 ≡ p = (==_iff 0 p).0 (ground (arith, m)) in
    ap (λ (k : ℕ). later (at 0 5) (taint_and_kill k).target_instr) (sym e)

add_tf_clears_example :
    do_get_tf straight_line
      (add_tf one_tag straight_line no_rets taint_and_kill tainted_field (some 1)).0
      (add_tf one_tag straight_line no_rets taint_and_kill tainted_field (some 1)).1
      (some (at 0 9))
    ≡ []
unfolding contains reset_at reset_tfs entry_of new_flag
add_tf_clears_example =
    add_tf_clears one_tag straight_line no_rets taint_and_kill tainted_field 1 (at 0 5)
      (some (at 0 9)) refl refl refl refl refl refl kill_over
