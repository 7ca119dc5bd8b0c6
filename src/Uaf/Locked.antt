-- ===== src/Uaf/Locked.antt =====
-- A free and a load under one lock.
use study_uafx.Base.{
  ℕ, zero, suc, ◌≡◌, refl, ap, ◌∙◌, Bool, true, false, not, ◌&&◌, ◌||◌, Option, none, some, List,
  [], ◌∷◌, arith, Bool-cases, Option-cases, inl, inr, get_elem?, is_empty,
}
use study_uafx.Kernel.Names.{str_eq_refl}
use study_uafx.Loc.{InstLoc, is_ctx_prefix}
use study_uafx.Loc.Judge.{Judge}
use study_uafx.Lockset.{LockInfo, Locks}
use study_uafx.Uaf.{Objects, PtoTarget, visit_load_inst}
use study_uafx.Uaf.Held.{
  unlocks_after, is_related, get_lock_for_loc, meet_eqv, same_lock_objs_eqv, any_same, any_pair,
  hold_same_locks,
}
use study_uafx.Uaf.Exact.{is_uaf, is_warned, visit_load_inst-is_uaf}

and_false : (b : Bool) → (b && false || false) ≡ false
and_false true = refl
and_false false = refl

-- Whether a location stands between a lock and an unlock of it, in a callee of the lock's function.
abbrev pub is_around : Judge → List LockInfo → InstLoc → LockInfo → Bool
is_around w unlocks loc t =
    is_related (is_ctx_prefix t.loc loc)
    && w.reaches loc (some t.loc) []
    && not (is_empty (unlocks_after w unlocks t.loc loc t.pairs))

module _ (w : Judge) (eqv : ℕ → List ℕ) (unlocks : List LockInfo) (loc : InstLoc) where
  abbrev unlocks_of : LockInfo → List ℕ
  unlocks_of t = unlocks_after w unlocks t.loc loc t.pairs

  around_head :
      (u : LockInfo) (locks : List LockInfo)
      → is_around w unlocks loc u ≡ true
      → get_lock_for_loc w unlocks loc (u ∷ locks)
        ≡ (u, unlocks_of u) ∷ get_lock_for_loc w unlocks loc locks
  unfolding get_lock_for_loc
  around_head u locks a =
      let related : is_related (is_ctx_prefix u.loc loc) ≡ true = ground (arith, a) in
      let reached : w.reaches loc (some u.loc) [] ≡ true = ground (arith, a) in
      let left : is_empty (unlocks_of u) ≡ false = ground (arith, a) in
      rw (related, reached, left) refl

  around_skip :
      (u : LockInfo) (locks : List LockInfo)
      → is_around w unlocks loc u ≡ false
      → get_lock_for_loc w unlocks loc (u ∷ locks) ≡ get_lock_for_loc w unlocks loc locks
  unfolding get_lock_for_loc
  around_skip u locks a = elim (Bool-cases (is_related (is_ctx_prefix u.loc loc))) [
    | inr apart ↦ rw apart refl
    | inl related ↦ elim (Bool-cases (w.reaches loc (some u.loc) [])) [
      | inr away ↦ rw (related, away) refl
      | inl reached ↦
          let left : is_empty (unlocks_of u) ≡ true = ground (arith, a, related, reached) in
          rw (related, reached, left) refl
    ]
  ]

  around_tail :
      (holds : List (LockInfo × List ℕ) → Bool) (u : LockInfo) (locks : List LockInfo)
      → holds (get_lock_for_loc w unlocks loc locks) ≡ true
      → holds ((u, unlocks_of u) ∷ get_lock_for_loc w unlocks loc locks) ≡ true
      → holds (get_lock_for_loc w unlocks loc (u ∷ locks)) ≡ true
  around_tail holds u locks rest more = elim (Bool-cases (is_around w unlocks loc u)) [
    | inl a ↦ ap holds (around_head u locks a) ∙ more
    | inr away ↦ ap holds (around_skip u locks away) ∙ rest
  ]

  any_same-around :
      (locks : List LockInfo) (i : ℕ) (k t : LockInfo)
      → get_elem? locks i ≡ some t
      → is_around w unlocks loc t ≡ true
      → same_lock_objs_eqv eqv k t ≡ true
      → any_same eqv k (get_lock_for_loc w unlocks loc locks) ≡ true
  unfolding any_same
  any_same-around [] i k t e a s = cc
  any_same-around (u ∷ locks) zero k t e a s =
      let same : u ≡ t = cc (e) in
      let a' = ap (λ (x : LockInfo). is_around w unlocks loc x) same ∙ a in
      let s' = ap (λ (x : LockInfo). same_lock_objs_eqv eqv k x) same ∙ s in
      ap (any_same eqv k) (around_head u locks a') ∙ rw s' refl
  any_same-around (u ∷ locks) (suc i) k t e a s =
      let rest = any_same-around locks i k t e a s in
      around_tail (any_same eqv k) u locks rest (ground (arith, rest))

  any_pair-around :
      (locks : List LockInfo) (i : ℕ) (t : LockInfo) (others : List (LockInfo × List ℕ))
      → get_elem? locks i ≡ some t
      → is_around w unlocks loc t ≡ true
      → any_same eqv t others ≡ true
      → any_pair eqv (get_lock_for_loc w unlocks loc locks) others ≡ true
  unfolding any_pair
  any_pair-around [] i t others e a s = cc
  any_pair-around (u ∷ locks) zero t others e a s =
      let same : u ≡ t = cc (e) in
      let a' = ap (λ (x : LockInfo). is_around w unlocks loc x) same ∙ a in
      let s' = ap (λ (x : LockInfo). any_same eqv x others) same ∙ s in
      ap (λ (ls : List (LockInfo × List ℕ)). any_pair eqv ls others) (around_head u locks a')
      ∙ rw s' refl
  any_pair-around (u ∷ locks) (suc i) t others e a s =
      let rest = any_pair-around locks i t others e a s in
      around_tail (λ (ls : List (LockInfo × List ℕ)). any_pair eqv ls others) u locks rest
        (ground (arith, rest))

-- holdSameLocks holds for two locations around one lock.
hold_same_locks-around :
    (w : Judge) (eqv : ℕ → List ℕ) (st : Locks) (loc0 loc1 : InstLoc) (i : ℕ) (t : LockInfo)
    → get_elem? st.locks i ≡ some t
    → is_around w st.unlocks loc0 t ≡ true
    → is_around w st.unlocks loc1 t ≡ true
    → meet_eqv eqv t.objs t.objs ≡ true
    → hold_same_locks w eqv st (some loc0) (some loc1) ≡ true
unfolding hold_same_locks same_lock_objs_eqv
hold_same_locks-around w eqv st loc0 loc1 i t e a b o =
    let same : same_lock_objs_eqv eqv t t ≡ true = rw (str_eq_refl t.name, o) refl in
    any_pair-around w eqv st.unlocks loc0 st.locks i t (get_lock_for_loc w st.unlocks loc1 st.locks)
      e a (any_same-around w eqv st.unlocks loc1 st.locks i t t e b same)

no_uaf :
    (w : Judge) (held : InstLoc → InstLoc → Bool) (use_loc f : InstLoc) (os : Objects)
    (ptos : List (Option PtoTarget))
    → held f use_loc ≡ true
    → is_uaf w held use_loc os ptos f ≡ false
no_uaf w held use_loc f os [] h = refl
no_uaf w held use_loc f os (none ∷ ptos) h = no_uaf w held use_loc f os ptos h
no_uaf w held use_loc f os (some pto ∷ ptos) h = elim (Option-cases pto.target_object) [
  | inl null ↦ rw (null, no_uaf w held use_loc f os ptos h) refl
  | inr (obj, e) ↦ rw (e, h, no_uaf w held use_loc f os ptos h) (and_false _)
]

-- A load is never warned of a free site when one lock stands around both: each is in a callee of the
-- lock's function, reachable from the lock, and reaches an unlock of it past the lock, and the lock's
-- objects have one that is equivalent to one of them.
pub visit_load_inst_locked :
    (w : Judge) (eqv : ℕ → List ℕ) (st : Locks) (use_loc f : InstLoc) (os : Objects)
    (ptos : List (Option PtoTarget)) (i : ℕ) (t : LockInfo)
    → get_elem? st.locks i ≡ some t
    → is_around w st.unlocks f t ≡ true
    → is_around w st.unlocks use_loc t ≡ true
    → meet_eqv eqv t.objs t.objs ≡ true
    → is_warned
        (visit_load_inst w (λ l u. hold_same_locks w eqv st (some l) (some u)) use_loc os ptos)
        f
      ≡ false
visit_load_inst_locked w eqv st use_loc f os ptos i t e a b o =
    let held = λ (l u : InstLoc). hold_same_locks w eqv st (some l) (some u) in
    visit_load_inst-is_uaf w held use_loc os ptos f
    ∙ no_uaf w held use_loc f os ptos (hold_same_locks-around w eqv st f use_loc i t e a b o)
