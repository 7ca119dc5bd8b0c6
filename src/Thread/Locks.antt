-- ===== src/Thread/Locks.antt =====
-- The locks and the conditions of a schedule: addLockTrLocs, the mutual exclusion of
-- addSuppTrLocs, _mustKill and _noKill, of
-- llvm_analysis/MainAnalysisPasses/SoundyAliasAnalysis/src/ModuleState.cpp. A LockInfo of the lock map is
-- a number.
use study_uafx.Base.{
  ℕ, zero, suc, Bool, true, false, not, ◌&&◌, ◌||◌, Option, none, some, List, [], ◌∷◌, ◌++◌,
  if◌then◌else◌, ◌==◌, leb, length,
}
use study_uafx.Constraint.Order.{Orders, po_add_constraint_or}
use study_uafx.Loc.{InstLoc}
use study_uafx.Loc.Judge.{Judge}
use study_uafx.Thread.{Node, Store, get_tr}
use study_uafx.Thread.Insert.{
  Code, inserted, incompatible, duplicate, merged, refused, not_inevitable, passed, index_of,
  insert_loc,
}
use study_uafx.Thread.Methods.{remove_node}
use study_uafx.Thread.Sched.{ty_free}

abbrev pub ty_lock : ℕ
ty_lock = 4

abbrev pub ty_unlock : ℕ
ty_unlock = 8

unfoldable pub is_duplicate : Code → Bool
is_duplicate (inserted i) = false
is_duplicate incompatible = false
is_duplicate duplicate = true
is_duplicate merged = false
is_duplicate refused = false
is_duplicate not_inevitable = false
is_duplicate passed = false

unfoldable pub is_new : Code → Bool
is_new (inserted i) = true
is_new incompatible = false
is_new duplicate = false
is_new merged = false
is_new refused = false
is_new not_inevitable = false
is_new passed = false

-- A lock and an unlock of it, with the lock's number.
pub record Pair : Type 0 where
  pub lock : ℕ
  pub lock_loc : InstLoc
  pub unlock_loc : InstLoc

-- The regions of each lock: the nodes of the lock and of the unlock.
abbrev pub LockMap : Type 0
LockMap = List (ℕ × List (ℕ × ℕ))

unfoldable pub add_region : LockMap → ℕ → ℕ × ℕ → LockMap
add_region [] li r = (li, r ∷ []) ∷ []
add_region ((k, rs) ∷ m) li r = if k == li then (k, r ∷ rs) ∷ m else (k, rs) ∷ add_region m li r

-- The schedule's parts that addLockTrLocs changes.
pub record Locked : Type 0 where
  pub store : Store
  pub lock_map : LockMap
  pub new_locs : List ℕ

module _ (w : Judge) where
  -- The insertion of one pair around the node `p` of the thread `tr`; `none` is a failed assertion.
  unfoldable pub add_lock_pair : Locked → ℕ → ℕ → Pair → Option Locked
  unfolding insert_loc remove_node add_region is_duplicate is_new
  add_lock_pair st tr p e =
      elim (insert_loc w st.store tr (some e.lock_loc) ty_lock true false (some p) none false) [
        | none ↦ none
        | some (st1, none, r0) ↦ some (record st { store = st1 })
        | some (st1, some lk, r0) ↦
            elim (insert_loc w st1 tr (some e.unlock_loc) ty_unlock true false none (some p)
              false) [
                | none ↦ none
                | some (st2, none, r1) ↦ some (record st {
                  store = if is_duplicate r0 then st2 else (remove_node st2 tr (some lk) ty_lock).0;
                })
                | some (st2, some uk, r1) ↦ some (record {
                  store = st2;
                  lock_map = add_region st.lock_map e.lock (lk, uk);
                  new_locs =
                      (if is_new r1 then uk ∷ [] else [])
                      ++ ((if is_new r0 then lk ∷ [] else []) ++ st.new_locs);
                })
              ]
      ]

  -- addLockTrLocs of a node, whose thread the schedule lists; `pairs` are the locks around its location with one unlock each.
  unfoldable pub add_lock_pairs : Locked → ℕ → ℕ → List Pair → Option Locked
  unfolding add_lock_pair
  add_lock_pairs st tr p [] = some st
  add_lock_pairs st tr p (e ∷ pairs) = elim (add_lock_pair st tr p e) [
    | none ↦ none
    | some st' ↦ add_lock_pairs st' tr p pairs
  ]

  unfoldable pub add_lock_tr_locs : ℕ → (InstLoc → List Pair) → Locked → ℕ → Option Locked
  unfolding add_lock_pairs get_tr
  add_lock_tr_locs this locks_at st p = elim (get_tr (st.store.nodes p) this) [
    | none ↦ some st
    | some tr ↦ add_lock_pairs st tr p (locks_at (st.store.nodes p).loc)
  ]

-- The cluster of locks that a lock belongs to; `same` is sameLockObjs.
unfoldable pub is_like : (ℕ → ℕ → Bool) → ℕ → List ℕ → Bool
is_like same li [] = false
is_like same li (k ∷ ks) = same li k || is_like same li ks

unfoldable pub put_lock : (ℕ → ℕ → Bool) → ℕ → List (List ℕ) → List (List ℕ)
unfolding is_like
put_lock same li [] = (li ∷ []) ∷ []
put_lock same li (c ∷ cs) = if is_like same li c then (li ∷ c) ∷ cs else c ∷ put_lock same li cs

unfoldable pub eqv_locks : (ℕ → ℕ → Bool) → List (List ℕ) → LockMap → List (List ℕ)
unfolding put_lock
eqv_locks same cs [] = cs
eqv_locks same cs ((li, rs) ∷ m) = eqv_locks same (put_lock same li cs) m

unfoldable pub regions_of : LockMap → ℕ → List (ℕ × ℕ)
regions_of [] li = []
regions_of ((k, rs) ∷ m) li = if k == li then rs else regions_of m li

unfoldable pub regions_in : LockMap → List ℕ → List (ℕ × ℕ)
unfolding regions_of
regions_in m [] = []
regions_in m (li ∷ c) = regions_of m li ++ regions_in m c

module _ (z : Orders) where
  -- Two regions of a cluster do not overlap.
  unfoldable pub exclude : List z.Expr → ℕ × ℕ → ℕ × ℕ → List z.Expr
  unfolding po_add_constraint_or
  exclude po (lk0, uk0) (lk1, uk1) =
      if not (lk0 == lk1) && not (uk0 == uk1)
      then (po_add_constraint_or z po (some uk0 ∷ some lk1 ∷ some uk1 ∷ some lk0 ∷ [])).0
      else po

  unfoldable pub exclude_one : List z.Expr → ℕ × ℕ → List (ℕ × ℕ) → List z.Expr
  unfolding exclude
  exclude_one po e0 [] = po
  exclude_one po e0 (e1 ∷ rs) = exclude_one (exclude po e0 e1) e0 rs

  unfoldable pub exclude_all : List z.Expr → List (ℕ × ℕ) → List (ℕ × ℕ) → List z.Expr
  unfolding exclude_one
  exclude_all po [] rs = po
  exclude_all po (e0 ∷ es) rs = exclude_all (exclude_one po e0 rs) es rs

  unfoldable pub exclude_clusters : LockMap → List z.Expr → List (List ℕ) → List z.Expr
  unfolding exclude_all regions_in
  exclude_clusters m po [] = po
  exclude_clusters m po (c ∷ cs) =
      exclude_clusters m (exclude_all po (regions_in m c) (regions_in m c)) cs

  -- The end of addSuppTrLocs.
  unfoldable pub exclude_locks : (ℕ → ℕ → Bool) → LockMap → List z.Expr → List z.Expr
  unfolding exclude_clusters eqv_locks
  exclude_locks same m po = exclude_clusters m po (eqv_locks same [] m)

-- Where a node stands, the end if it does not.
unfoldable pub place_of : ℕ → List ℕ → ℕ
unfolding index_of
place_of p seq = elim (index_of p seq) [ none ↦ length seq | some i ↦ i ]

-- The thread of two nodes that are in one.
unfoldable pub common_tr : Store → ℕ → ℕ → ℕ → Option ℕ
unfolding get_tr
common_tr st this c k = elim (get_tr (st.nodes c) this) [
  | none ↦ none
  | some tr ↦ elim (get_tr (st.nodes k) this) [
    | none ↦ none
    | some tr' ↦ if tr == tr' then some tr else none
  ]
]

-- _mustKill of a check `c` and a killer `k` of it.
unfoldable pub must_kill : Store → ℕ → Option ℕ → Option ℕ → Bool
unfolding common_tr place_of
must_kill st this none k = false
must_kill st this (some c) none = false
must_kill st this (some c) (some k) = elim (common_tr st this c k) [
  | none ↦ false
  | some tr ↦ leb (place_of k (st.threads tr).seq) (place_of c (st.threads tr).seq)
]

-- Whether a node that only frees stands before the place.
unfoldable pub frees_before : (ℕ → Node) → ℕ → List ℕ → Bool
frees_before nodes zero seq = false
frees_before nodes (suc n) [] = false
frees_before nodes (suc n) (p ∷ seq) = (nodes p).ty == ty_free || frees_before nodes n seq

-- _noKill.
unfoldable pub no_kill : Judge → Store → ℕ → Option ℕ → Option ℕ → Bool
unfolding common_tr place_of frees_before
no_kill w st this none k = false
no_kill w st this (some c) none = false
no_kill w st this (some c) (some k) = elim (common_tr st this c k) [
  | none ↦ false
  | some tr ↦
      let seq = (st.threads tr).seq in
      leb (place_of k seq) (place_of c seq)
      && not (w.dominates (st.nodes k).loc (some (st.nodes c).loc) false)
      && not (frees_before st.nodes (place_of k seq) seq)
]
