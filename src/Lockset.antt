-- ===== src/Lockset.antt =====
-- Locks: LockInfo of llvm_analysis/MainAnalysisPasses/Utils/include/LockInfo.h, and
-- LocksetAnalysisVisitor::visitCallInst of SoundyAliasAnalysis/src/LocksetAnalysisVisitor.cpp. A
-- pointer to a LockInfo is its place in `locks` or in `unlocks`.
pub mod Pairs
pub mod Invariant
mod Tests
use Prim.Native.Char.{code}
use Prim.Native.String.{String}
use text.Mathlib.Text.{starts_with, ◌==◌ as str_eq}
use study_uafx.Base.{
  ℕ, zero, suc, Bool, true, false, not, ◌&&◌, ◌||◌, Option, none, some, List, [], ◌∷◌, ◌++◌,
  if◌then◌else◌, ◌==◌, is_empty, contains, insert, length, get_elem?,
}
use study_uafx.Cfg.{Cfg}
use study_uafx.Context.{PrefixResult, unrelated, identical, prefix_until}
use study_uafx.Reach.{Outcome, answer, assert_failed, out_of_fuel}
use study_uafx.Loc.{InstLoc, is_ctx_prefix}
use study_uafx.Loc.Paths.{reachable}
use study_uafx.Kernel.{
  Function, is_lock_function, get_lock_arguments, mem_name, get_paired_lock_funcs,
}

-- PointerPointsTo: the object and the field that it points to.
pub record Pto : Type 0 where
  pub target_object : ℕ
  pub dst_field : ℕ

unfoldable pub points_to_same_object : Pto → Pto → Bool
points_to_same_object p q = p.target_object == q.target_object && p.dst_field == q.dst_field

pub record LockInfo : Type 0 where
  pub loc : InstLoc
  pub lock : Bool
  pub name : String
  pub objs : List (Option Pto)
  pub pairs : List ℕ

-- A new entry.
abbrev pub entry : InstLoc → Bool → String → List (Option Pto) → LockInfo
entry loc lock name objs = record { loc = loc; lock = lock; name = name; objs = objs; pairs = [] }

unfoldable pub hits_object : Option Pto → List (Option Pto) → Bool
unfolding points_to_same_object
hits_object none ts = false
hits_object (some p) [] = false
hits_object (some p) (none ∷ ts) = hits_object (some p) ts
hits_object (some p) (some t ∷ ts) = points_to_same_object t p || hits_object (some p) ts

unfoldable pub meets_objects : List (Option Pto) → List (Option Pto) → Bool
unfolding hits_object
meets_objects [] ts = false
meets_objects (p ∷ ps) ts = hits_object p ts || meets_objects ps ts

unfoldable pub same_lock_objs : LockInfo → LockInfo → Bool
unfolding meets_objects
same_lock_objs this other =
    is_empty this.objs && is_empty other.objs || meets_objects this.objs other.objs

-- The lists of the module state.
pub record Locks : Type 0 where
  pub locks : List LockInfo
  pub unlocks : List LockInfo

-- The locations of the unlocks at some places.
unfoldable pub unlock_locs : List LockInfo → List ℕ → List InstLoc
unlock_locs unlocks [] = []
unlock_locs unlocks (j ∷ pairs) = elim (get_elem? unlocks j) [
  | none ↦ unlock_locs unlocks pairs
  | some u ↦ u.loc ∷ unlock_locs unlocks pairs
]

-- Whether the unlock `li` is paired with the lock `t`.
unfoldable pub pairs_with :
    Cfg → (ℕ → List ℕ) → List LockInfo → List String → LockInfo → LockInfo → Outcome
unfolding mem_name same_lock_objs unlock_locs
pairs_with g idoms unlocks names li t =
    if not (mem_name names t.name) then answer false else elim (is_ctx_prefix t.loc li.loc) [
      | unrelated ↦ answer false
      | identical ↦
          if not (same_lock_objs li t)
          then answer false
          else reachable g idoms li.loc (some t.loc) (unlock_locs unlocks t.pairs)
      | prefix_until n ↦
          if not (same_lock_objs li t)
          then answer false
          else reachable g idoms li.loc (some t.loc) (unlock_locs unlocks t.pairs)
    ]

abbrev pub with_pairs : List ℕ → LockInfo → LockInfo
with_pairs pairs t = record {
  loc = t.loc;
  lock = t.lock;
  name = t.name;
  objs = t.objs;
  pairs = pairs;
}

unfoldable pub add_pair : ℕ → LockInfo → LockInfo
add_pair u t = with_pairs (insert u t.pairs) t

-- The loop over the locks, from place `i` on: the locks after it, and the places of those that are
-- paired with the unlock `li` at place `u`. The source goes from the last lock to the first, which
-- is the order of these calls.
unfoldable pub pair_locks :
    Cfg
    → (ℕ → List ℕ)
    → List LockInfo
    → List String
    → LockInfo
    → ℕ
    → ℕ
    → List LockInfo
    → Option (List LockInfo × List ℕ)
unfolding pairs_with add_pair
pair_locks g idoms unlocks names li u i [] = some ([], [])
pair_locks g idoms unlocks names li u i (t ∷ locks) =
    elim (pair_locks g idoms unlocks names li u (suc i) locks) [
      | none ↦ none
      | some (rest, pairs) ↦ elim (pairs_with g idoms unlocks names li t) [
        | answer r ↦ some (if r then (add_pair u t ∷ rest, i ∷ pairs) else (t ∷ rest, pairs))
        | assert_failed ↦ none
        | out_of_fuel ↦ none
      ]
    ]

unfoldable pub add_unlock : Cfg → (ℕ → List ℕ) → Locks → List String → LockInfo → Option Locks
unfolding pair_locks
add_unlock g idoms st names li =
    elim (pair_locks g idoms (st.unlocks ++ (li ∷ [])) names li (length st.unlocks) 0 st.locks) [
      | none ↦ none
      | some (locks, pairs) ↦
          some (record { locks = locks; unlocks = st.unlocks ++ (with_pairs pairs li ∷ []) })
    ]

-- The objects that the arguments of a call may point to.
unfoldable pub collect_objs : (ℕ → List (Option Pto)) → List ℕ → List (Option Pto)
collect_objs ptos [] = []
collect_objs ptos (n ∷ args) = ptos n ++ collect_objs ptos args

-- A call of a function at a location; `ptos` are the objects that its arguments point to, which the
-- alias analysis provides. `none` is a failed assertion of InstLoc::reachable. For a function with a
-- body the visitor of the callee goes on with the same state.
unfoldable pub visit_call_inst :
    Cfg → (ℕ → List ℕ) → Locks → Function → InstLoc → (ℕ → List (Option Pto)) → Option Locks
unfolding is_lock_function get_lock_arguments get_paired_lock_funcs add_unlock collect_objs
visit_call_inst g idoms st f loc ptos =
    if not f.is_declaration || not (is_lock_function f) then some st else elim f.name [
      | none ↦ some st
      | some name ↦
          let p = get_paired_lock_funcs name in
          let objs = collect_objs ptos (get_lock_arguments f) in
          elim p.is_lock [
            | none ↦ some st
            | some is_lock ↦
                if is_lock
                then some (record {
                  locks = st.locks ++ (entry loc true name objs ∷ []);
                  unlocks = st.unlocks;
                })
                else add_unlock g idoms st p.names (entry loc false name objs)
          ]
    ]
