-- ===== src/Uaf/Held.antt =====
-- The locks held at a location: getLock4Loc, sameLockObjs and holdSameLocks of
-- llvm_analysis/MainAnalysisPasses/SoundyAliasAnalysis/include/ModuleState.h.
use text.Mathlib.Text.{◌==◌ as str_eq}
use study_uafx.Base.{
  ℕ, Bool, true, false, not, ◌&&◌, ◌||◌, Option, none, some, List, [], ◌∷◌, if◌then◌else◌, ◌==◌,
  contains, get_elem?, is_empty,
}
use study_uafx.Context.{PrefixResult, unrelated, identical, prefix_until}
use study_uafx.Loc.{InstLoc, is_ctx_prefix}
use study_uafx.Loc.Judge.{Judge}
use study_uafx.Lockset.{Pto, LockInfo, Locks}

-- The unlocks that a location reaches past the lock.
unfoldable pub unlocks_after : Judge → List LockInfo → InstLoc → InstLoc → List ℕ → List ℕ
unlocks_after w unlocks lock_loc loc [] = []
unlocks_after w unlocks lock_loc loc (j ∷ pairs) =
    let rest = unlocks_after w unlocks lock_loc loc pairs in
    elim (get_elem? unlocks j) [
      | none ↦ rest
      | some u ↦ if w.reaches u.loc (some loc) (lock_loc ∷ []) then j ∷ rest else rest
    ]

unfoldable pub is_related : PrefixResult → Bool
is_related unrelated = false
is_related identical = true
is_related (prefix_until n) = true

-- getLock4Loc: the locks around a location, each with its unlocks.
unfoldable pub get_lock_for_loc :
    Judge → List LockInfo → InstLoc → List LockInfo → List (LockInfo × List ℕ)
unfolding unlocks_after is_related is_ctx_prefix
get_lock_for_loc w unlocks loc [] = []
get_lock_for_loc w unlocks loc (t ∷ locks) =
    let rest = get_lock_for_loc w unlocks loc locks in
    let us = unlocks_after w unlocks t.loc loc t.pairs in
    if not (is_related (is_ctx_prefix t.loc loc)) || not (w.reaches loc (some t.loc) [])
    then rest
    else if is_empty us
    then rest
    else (t, us) ∷ rest

-- sameLockObjs of two locks; `eqv` are the objects that are equivalent to one.
unfoldable pub meets_eqv : List ℕ → Pto → List (Option Pto) → Bool
meets_eqv eqv p [] = false
meets_eqv eqv p (none ∷ objs) = meets_eqv eqv p objs
meets_eqv eqv p (some q ∷ objs) =
    q.dst_field == p.dst_field && contains eqv q.target_object || meets_eqv eqv p objs

unfoldable pub meet_eqv : (ℕ → List ℕ) → List (Option Pto) → List (Option Pto) → Bool
unfolding meets_eqv
meet_eqv eqv [] qs = false
meet_eqv eqv (none ∷ ps) qs = meet_eqv eqv ps qs
meet_eqv eqv (some p ∷ ps) qs = meets_eqv (eqv p.target_object) p qs || meet_eqv eqv ps qs

unfoldable pub same_lock_objs_eqv : (ℕ → List ℕ) → LockInfo → LockInfo → Bool
unfolding meet_eqv
same_lock_objs_eqv eqv k0 k1 = str_eq k0.name k1.name && meet_eqv eqv k0.objs k1.objs

unfoldable pub any_same : (ℕ → List ℕ) → LockInfo → List (LockInfo × List ℕ) → Bool
unfolding same_lock_objs_eqv
any_same eqv k [] = false
any_same eqv k ((t, us) ∷ locks) = same_lock_objs_eqv eqv k t || any_same eqv k locks

unfoldable pub any_pair : (ℕ → List ℕ) → List (LockInfo × List ℕ) → List (LockInfo × List ℕ) → Bool
unfolding any_same
any_pair eqv [] locks = false
any_pair eqv ((k, us) ∷ ks) locks = any_same eqv k locks || any_pair eqv ks locks

unfoldable pub hold_same_locks :
    Judge → (ℕ → List ℕ) → Locks → Option InstLoc → Option InstLoc → Bool
unfolding get_lock_for_loc any_pair
hold_same_locks w eqv st none loc1 = false
hold_same_locks w eqv st (some loc0) none = false
hold_same_locks w eqv st (some loc0) (some loc1) =
    any_pair eqv (get_lock_for_loc w st.unlocks loc0 st.locks)
      (get_lock_for_loc w st.unlocks loc1 st.locks)
