-- ===== src/Lockset/Invariant.antt =====
-- The pairs of locks and unlocks stay symmetric and well matched under visitCallInst.
use Prim.Native.String.{String}
use study_uafx.Base.{
  ℕ, ◌+◌, ◌≡◌, refl, ap, sym, ◌∙◌, inl, inr, true, false, not, ◌||◌, Option, some, List, [], ◌∷◌,
  ◌++◌, ◌==◌, contains, insert, contains-insert, length, get_elem?, arith, Bool-cases, Option-cases,
  ==_iff, ==_refl,
}
use study_uafx.Cfg.{Cfg}
use study_uafx.Context.Lists.{get_append, get_last, get_appended}
use study_uafx.Loc.{InstLoc}
use study_uafx.Kernel.{
  Function, is_lock_function, get_lock_arguments, mem_name, get_paired_lock_funcs,
}
use study_uafx.Lockset.{
  LockInfo, Locks, Pto, same_lock_objs, add_pair, pair_locks, add_unlock, with_pairs, entry,
  visit_call_inst, collect_objs,
}
use study_uafx.Lockset.Pairs.{
  Steps, Row, pair_locks-Steps, Steps-above, Steps-Row, Steps-back, some_inj,
}

-- Whether the two lists agree on who is paired with whom, and each pair has paired function names
-- and a common object.
pub record IsPaired (st : Locks) : Type 0 where
  pub forward :
      (i j : ℕ) (t : LockInfo)
      → get_elem? st.locks i ≡ some t
      → contains t.pairs j ≡ true
      → (li : LockInfo) × (get_elem? st.unlocks j ≡ some li)
        × (contains li.pairs i ≡ true)
        × (mem_name (get_paired_lock_funcs li.name).names t.name ≡ true)
        × (same_lock_objs li t ≡ true)
  pub backward :
      (i j : ℕ) (li : LockInfo)
      → get_elem? st.unlocks j ≡ some li
      → contains li.pairs i ≡ true
      → (t : LockInfo) × (get_elem? st.locks i ≡ some t) × (contains t.pairs j ≡ true)

add_lock-IsPaired :
    (st : Locks) (t : LockInfo)
    → IsPaired st
    → t.pairs ≡ []
    → IsPaired (record { locks = st.locks ++ (t ∷ []); unlocks = st.unlocks })
unfolding contains
add_lock-IsPaired st t p fresh = record {
  forward = λ i j t' h c. elim (get_appended st.locks t i t' h) [
    | inl old ↦ p.forward i j t' old c
    | inr (n, e) ↦ let k : contains [] j ≡ true = (rw (e, fresh) at c) in cc
  ];
  backward = λ i j li h c.
      let (t', q, k) = p.backward i j li h c in (t', get_append st.locks (t ∷ []) i t' q, k);
}

module _ (g : Cfg) (idoms : ℕ → List ℕ) (st : Locks) (names : List String) (li : LockInfo)
    (after : List LockInfo) (ps : List ℕ) where
  abbrev u : ℕ
  u = length st.unlocks

  abbrev later : Locks
  later = record { locks = after; unlocks = st.unlocks ++ (with_pairs ps li ∷ []) }

  abbrev Loop : Type 0
  Loop = Steps g idoms (st.unlocks ++ (li ∷ [])) names li u 0 st.locks after ps

  zero_plus : (i : ℕ) → 0 + i ≡ i
  zero_plus i = omega arith

  -- A lock after the loop, with what it was before.
  origin :
      (i : ℕ) (t' : LockInfo)
      → Loop
      → get_elem? after i ≡ some t'
      → (t : LockInfo) × (get_elem? st.locks i ≡ some t)
        × Row g idoms (st.unlocks ++ (li ∷ [])) names li u t t' (contains ps i)
  origin i t' s h =
      let (t, q) =
        Steps-back g idoms (st.unlocks ++ (li ∷ [])) names li u 0 st.locks after ps i t' s h in
      let (t1, q1, row) =
        Steps-Row g idoms (st.unlocks ++ (li ∷ [])) names li u 0 st.locks after ps i t s q in
      let same : t1 ≡ t' = some_inj t1 t' (sym q1 ∙ h) in
      (t, q, rw (zero_plus i) at (rw (same) at row))

  old_pair :
      (i j : ℕ) (t t' : LockInfo)
      → IsPaired st
      → get_elem? st.locks i ≡ some t
      → contains t.pairs j ≡ true
      → t'.name ≡ t.name
      → t'.objs ≡ t.objs
      → (x : LockInfo) × (get_elem? later.unlocks j ≡ some x)
        × (contains x.pairs i ≡ true)
        × (mem_name (get_paired_lock_funcs x.name).names t'.name ≡ true)
        × (same_lock_objs x t' ≡ true)
  unfolding same_lock_objs
  old_pair i j t t' p q c n o =
      let (x, at_j, back, named, same) = p.forward i j t q c in
      (x, get_append st.unlocks _ j x at_j, back, rw n named, rw o same)

  loop_forward :
      (i j : ℕ) (t' : LockInfo)
      → names ≡ (get_paired_lock_funcs li.name).names
      → IsPaired st
      → Loop
      → get_elem? after i ≡ some t'
      → contains t'.pairs j ≡ true
      → (x : LockInfo) × (get_elem? later.unlocks j ≡ some x)
        × (contains x.pairs i ≡ true)
        × (mem_name (get_paired_lock_funcs x.name).names t'.name ≡ true)
        × (same_lock_objs x t' ≡ true)
  unfolding add_pair same_lock_objs
  loop_forward i j t' table p s h c =
      let (t, q, row) = origin i t' s h in
      elim row [
        | inr (e, b) ↦ old_pair i j t t' p q (rw e at c) (ap (λ x. x.name) e) (ap (λ x. x.objs) e)
        | inl (fits, e, b) ↦ elim (Bool-cases (u == j)) [
          | inl new ↦
              let place : u ≡ j = (==_iff u j).0 new in
              (
                with_pairs ps li,
                rw (← place) (get_last st.unlocks (with_pairs ps li)),
                b,
                rw (← table, e) fits.0,
                rw e fits.1,
              )
          | inr old ↦
              let k : contains (insert u t.pairs) j ≡ true = (rw e at c) in
              old_pair i j t t' p q (ground (arith, k, old, contains-insert u j t.pairs))
                (ap (λ x. x.name) e) (ap (λ x. x.objs) e)
        ]
      ]

  -- A lock before the loop, with what it is after.
  outcome :
      (i : ℕ) (t : LockInfo)
      → Loop
      → get_elem? st.locks i ≡ some t
      → (t' : LockInfo) × (get_elem? after i ≡ some t')
        × Row g idoms (st.unlocks ++ (li ∷ [])) names li u t t' (contains ps i)
  outcome i t s q =
      let (t', h, row) =
        Steps-Row g idoms (st.unlocks ++ (li ∷ [])) names li u 0 st.locks after ps i t s q in
      (t', h, rw (zero_plus i) at row)

  kept :
      (i j : ℕ) (t : LockInfo)
      → Loop
      → get_elem? st.locks i ≡ some t
      → contains t.pairs j ≡ true
      → (t' : LockInfo) × (get_elem? after i ≡ some t') × (contains t'.pairs j ≡ true)
  unfolding add_pair
  kept i j t s q c =
      let (t', h, row) = outcome i t s q in
      (
        t',
        h,
        elim row [
          | inr (e, b) ↦ rw e c
          | inl (fits, e, b) ↦ rw e (ground (arith, c, contains-insert u j t.pairs))
        ],
      )

  loop_backward :
      (i j : ℕ) (x : LockInfo)
      → IsPaired st
      → Loop
      → get_elem? later.unlocks j ≡ some x
      → contains x.pairs i ≡ true
      → (t : LockInfo) × (get_elem? after i ≡ some t) × (contains t.pairs j ≡ true)
  unfolding add_pair
  loop_backward i j x p s h c = elim (get_appended st.unlocks (with_pairs ps li) j x h) [
    | inl old ↦ let (t, q, k) = p.backward i j x old c in kept i j t s q k
    | inr (n, e) ↦
        let m : contains ps i ≡ true = (rw e at c) in
        let (k, t, place, q) =
          Steps-above g idoms (st.unlocks ++ (li ∷ [])) names li u 0 st.locks after ps i s m in
        let at_i : get_elem? st.locks i ≡ some t = rw (place, zero_plus k) q in
        let (t', h', row) = outcome i t s at_i in
        (
          t',
          h',
          elim row [
            | inr (e', b) ↦ cc
            | inl (fits, e', b) ↦
                rw (e', n) (ground (arith, contains-insert u u t.pairs, ==_refl u))
          ],
        )
  ]

  later-IsPaired :
      names ≡ (get_paired_lock_funcs li.name).names → IsPaired st → Loop → IsPaired later
  later-IsPaired table p s = record {
    forward = λ i j t h c. loop_forward i j t table p s h c;
    backward = λ i j x h c. loop_backward i j x p s h c;
  }

unwrap : (a b : Locks) → some a ≡ some b → a ≡ b
unwrap a b h = cc

add_unlock-IsPaired :
    (g : Cfg) (idoms : ℕ → List ℕ) (st st' : Locks) (names : List String) (li : LockInfo)
    → names ≡ (get_paired_lock_funcs li.name).names
    → IsPaired st
    → add_unlock g idoms st names li ≡ some st'
    → IsPaired st'
unfolding add_unlock
add_unlock-IsPaired g idoms st st' names li table p h =
    elim (Option-cases
      (pair_locks g idoms (st.unlocks ++ (li ∷ [])) names li (length st.unlocks) 0 st.locks)) [
        | inl e ↦ ground (arith, e, h)
        | inr ((after, ps), e) ↦
            let s =
              pair_locks-Steps g idoms (st.unlocks ++ (li ∷ [])) names li (length st.unlocks) 0
                st.locks after ps e in
            let k : some (record { locks = after; unlocks = st.unlocks ++ (with_pairs ps li ∷ []) })
                ≡ some st' =
              (rw (e, add_unlock) at h) in
            let q : later g idoms st names li after ps ≡ st' = unwrap _ _ k in
            rw (← q) (later-IsPaired g idoms st names li after ps table p s)
      ]

-- visitCallInst keeps the pairs symmetric: a lock lists an unlock exactly when the unlock lists the
-- lock; and each pair has paired function names and, as sameLockObjs tests it, a common object.
pub visit_call_inst-IsPaired :
    (g : Cfg) (idoms : ℕ → List ℕ) (st st' : Locks) (f : Function) (at_loc : InstLoc)
    (ptos : ℕ → List (Option Pto))
    → IsPaired st
    → visit_call_inst g idoms st f at_loc ptos ≡ some st'
    → IsPaired st'
unfolding visit_call_inst
visit_call_inst-IsPaired g idoms st st' f at_loc ptos p h =
    elim (Bool-cases (not f.is_declaration || not (is_lock_function f))) [
      | inl other ↦ let q : st ≡ st' = unwrap st st' (rw (other) at h) in rw (← q) p
      | inr locking ↦ elim (Option-cases f.name) [
        | inl e ↦ let q : st ≡ st' = unwrap st st' (rw (locking, e) at h) in rw (← q) p
        | inr (name, e) ↦
            let objs = collect_objs ptos (get_lock_arguments f) in
            elim (Option-cases (get_paired_lock_funcs name).is_lock) [
              | inl n ↦ let q : st ≡ st' = unwrap st st' (rw (locking, e, n) at h) in rw (← q) p
              | inr (is_lock, n) ↦ elim (Bool-cases is_lock) [
                | inl yes_lock ↦
                    let q = unwrap _ st' (rw (locking, e, n, yes_lock) at h) in
                    rw (← q) (add_lock-IsPaired st (entry at_loc true name objs) p refl)
                | inr no_lock ↦
                    add_unlock-IsPaired g idoms st st' (get_paired_lock_funcs name).names
                      (entry at_loc false name objs) refl p (rw (locking, e, n, no_lock) at h)
              ]
            ]
      ]
    ]
