-- ===== src/Lockset/Tests.antt =====
-- A lock at instruction 2 and its unlock at 6 of a function of four blocks, on one object.
use study_uafx.Base.{
  ℕ, zero, suc, ◌≡◌, refl, true, false, Option, some, List, [], ◌∷◌, contains, select, insert,
  get_elem?,
}
use study_uafx.Flow.Tests.{diamond}
use study_uafx.Context.{is_prefix}
use study_uafx.Reach.{reachable_from_many, visit, visit_stop}
use study_uafx.Reach.Ends.{edges}
use study_uafx.Flow.{from_inst, is_potentially_reachable}
use study_uafx.Loc.Blockers.{has_parent}
use study_uafx.Loc.{loc, is_ctx_prefix}
use study_uafx.Loc.Paths.{reachable}
use study_uafx.Lockset.{Pto, LockInfo, Locks, entry, with_pairs, visit_call_inst}
use study_uafx.Lockset.Pairs.{some_inj}
use study_uafx.Lockset.Invariant.{IsPaired, visit_call_inst-IsPaired}

abbrev object : ℕ → List (Option Pto)
object n = some (record { target_object = 1; dst_field = 0 }) ∷ []

abbrev held : Locks
held = record {
  locks = entry (loc 2 (some 0 ∷ [])) true "mutex_lock" (object 0) ∷ [];
  unlocks = [];
}

abbrev released : Locks
released = record {
  locks = with_pairs (0 ∷ []) (entry (loc 2 (some 0 ∷ [])) true "mutex_lock" (object 0)) ∷ [];
  unlocks = with_pairs (0 ∷ []) (entry (loc 6 (some 0 ∷ [])) false "mutex_unlock" (object 0)) ∷ [];
}

no_pairs :
    (i j : ℕ) (t : LockInfo) → get_elem? held.locks i ≡ some t → contains t.pairs j ≡ true → ⊥
unfolding contains
no_pairs zero j t h c =
    let e : entry (loc 2 (some 0 ∷ [])) true "mutex_lock" (object 0) ≡ t = some_inj _ _ h in
    let k : contains [] j ≡ true = (rw (← e) at c) in cc
no_pairs (suc i) j t h c = cc

held-IsPaired : IsPaired held
held-IsPaired = record {
  forward = λ i j t h c. absurd (no_pairs i j t h c);
  backward = λ i j li h c. cc;
}

unlocks_held :
    visit_call_inst diamond
      (λ b. [])
      held
      (record { is_declaration = true; name = some "mutex_unlock" })
      (loc 6 (some 0 ∷ []))
      object
    ≡ some released
unfolding visit_call_inst is_ctx_prefix is_prefix reachable has_parent is_potentially_reachable
    from_inst contains reachable_from_many edges visit visit_stop select insert
unlocks_held = refl

visit_call_inst-IsPaired_example : IsPaired released
visit_call_inst-IsPaired_example =
    visit_call_inst-IsPaired diamond (λ b. []) held released
      (record { is_declaration = true; name = some "mutex_unlock" }) (loc 6 (some 0 ∷ [])) object
      held-IsPaired unlocks_held
