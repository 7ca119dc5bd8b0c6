-- ===== src/Lockset/Pairs.antt =====
-- The loop of visitCallInst over the locks, for a new unlock: what it does to each of them.
use Prim.Native.String.{String}
use study_uafx.Base.{
  ℕ, zero, suc, ◌+◌, ◌≡◌, refl, sym, ◌⊎◌, inl, inr, Bool, true, false, Option, some, List, [], ◌∷◌,
  ◌==◌, contains, get_elem?, arith, Bool-cases, Option-cases,
}
use study_uafx.Cfg.{Cfg}
use study_uafx.Reach.{Outcome, answer, assert_failed, out_of_fuel}
use study_uafx.Context.{PrefixResult, unrelated, identical, prefix_until}
use study_uafx.Loc.{is_ctx_prefix}
use study_uafx.Kernel.{mem_name}
use study_uafx.Lockset.{LockInfo, same_lock_objs, pairs_with, add_pair, pair_locks}

pub some_inj : (t t' : LockInfo) → some t ≡ some t' → t ≡ t'
some_inj t t' h = cc

next_place : (i k : ℕ) → i + suc k ≡ suc i + k
next_place i k = omega arith

abbrev got : List LockInfo → List ℕ → Option (List LockInfo × List ℕ)
got locks pairs = some (locks, pairs)

got_inj : (a c : List LockInfo) (b d : List ℕ) → got a b ≡ got c d → (a ≡ c) × (b ≡ d)
got_inj a c b d h = (cc, cc)

module _ (g : Cfg) (idoms : ℕ → List ℕ) (unlocks : List LockInfo) (names : List String)
    (li : LockInfo) (u : ℕ) where
  -- The unlock may be paired with a lock.
  abbrev pub Fits : LockInfo → Type 0
  Fits t = (mem_name names t.name ≡ true) × (same_lock_objs li t ≡ true)

  -- What the loop does, lock by lock: each is paired or left alone.
  abbrev pub Steps : ℕ → List LockInfo → List LockInfo → List ℕ → Type 0
  Steps i [] after ps = (after ≡ []) × (ps ≡ [])
  Steps i (t ∷ locks) after ps =
      (rest : List LockInfo) × (more : List ℕ) × Steps (suc i) locks rest more
      × ((Fits t × (after ≡ add_pair u t ∷ rest) × (ps ≡ i ∷ more))
          ⊎ ((after ≡ t ∷ rest) × (ps ≡ more)))

  no_objects :
      (t : LockInfo) (w : PrefixResult)
      → is_ctx_prefix t.loc li.loc ≡ w
      → mem_name names t.name ≡ true
      → same_lock_objs li t ≡ false
      → pairs_with g idoms unlocks names li t ≡ answer true
      → ⊥
  unfolding pairs_with
  no_objects t unrelated e named apart h = ground (arith, e, named, apart, h)
  no_objects t identical e named apart h = ground (arith, e, named, apart, h)
  no_objects t (prefix_until n) e named apart h = ground (arith, e, named, apart, h)

  pairs_with-Fits : (t : LockInfo) → pairs_with g idoms unlocks names li t ≡ answer true → Fits t
  unfolding pairs_with
  pairs_with-Fits t h = elim (Bool-cases (mem_name names t.name)) [
    | inr other ↦ ground (arith, other, h)
    | inl named ↦ elim (Bool-cases (same_lock_objs li t)) [
      | inl same ↦ (named, same)
      | inr apart ↦ absurd (no_objects t _ refl named apart h)
    ]
  ]

  pair_step :
      (i : ℕ) (t : LockInfo) (locks rest after : List LockInfo) (more ps : List ℕ) (o : Outcome)
      → pair_locks g idoms unlocks names li u (suc i) locks ≡ some (rest, more)
      → pairs_with g idoms unlocks names li t ≡ o
      → pair_locks g idoms unlocks names li u i (t ∷ locks) ≡ some (after, ps)
      → (Fits t × (after ≡ add_pair u t ∷ rest) × (ps ≡ i ∷ more))
        ⊎ ((after ≡ t ∷ rest) × (ps ≡ more))
  unfolding pair_locks
  pair_step i t locks rest after more ps (answer true) e f h =
      let k : got (add_pair u t ∷ rest) (i ∷ more) ≡ got after ps = ground (arith, e, f, h) in
      let (same, also) = got_inj _ _ _ _ k in inl (pairs_with-Fits t f, sym same, sym also)
  pair_step i t locks rest after more ps (answer false) e f h =
      let k : got (t ∷ rest) more ≡ got after ps = ground (arith, e, f, h) in
      let (same, also) = got_inj _ _ _ _ k in inr (sym same, sym also)
  pair_step i t locks rest after more ps assert_failed e f h = ground (arith, e, f, h)
  pair_step i t locks rest after more ps out_of_fuel e f h = ground (arith, e, f, h)

  pub pair_locks-Steps :
      (i : ℕ) (locks after : List LockInfo) (ps : List ℕ)
      → pair_locks g idoms unlocks names li u i locks ≡ some (after, ps)
      → Steps i locks after ps
  unfolding pair_locks
  pair_locks-Steps i [] after ps h = (cc, cc)
  pair_locks-Steps i (t ∷ locks) after ps h =
      elim (Option-cases (pair_locks g idoms unlocks names li u (suc i) locks)) [
        | inl e ↦ ground (arith, e, h)
        | inr ((rest, more), e) ↦ (
          rest,
          more,
          pair_locks-Steps (suc i) locks rest more e,
          pair_step i t locks rest after more ps _ e refl h,
        )
      ]

  pub Steps-above :
      (i : ℕ) (locks after : List LockInfo) (ps : List ℕ) (m : ℕ)
      → Steps i locks after ps
      → contains ps m ≡ true
      → (k : ℕ) × (t : LockInfo) × (m ≡ i + k) × (get_elem? locks k ≡ some t)
  unfolding contains
  Steps-above i [] after ps m (e, f) c = cc
  Steps-above i (t ∷ locks) after ps m (rest, more, s, inl (fits, e, f)) c =
      elim (Bool-cases (i == m)) [
        | inl here ↦ (0, t, ground (arith, here), refl)
        | inr later ↦
            let (k, t', n, q) =
              Steps-above (suc i) locks rest more m s (ground (arith, later, f, c)) in
            (suc k, t', omega arith, q)
      ]
  Steps-above i (t ∷ locks) after ps m (rest, more, s, inr (e, f)) c =
      let (k, t', n, q) = Steps-above (suc i) locks rest more m s (ground (arith, f, c)) in
      (suc k, t', omega arith, q)

  -- What became of one lock: it is paired, and its place is among the pairs, or it is left alone.
  abbrev pub Row : LockInfo → LockInfo → Bool → Type 0
  Row t t' b = (Fits t × (t' ≡ add_pair u t) × (b ≡ true)) ⊎ ((t' ≡ t) × (b ≡ false))

  pub Steps-Row :
      (i : ℕ) (locks after : List LockInfo) (ps : List ℕ) (k : ℕ) (t : LockInfo)
      → Steps i locks after ps
      → get_elem? locks k ≡ some t
      → (t' : LockInfo) × (get_elem? after k ≡ some t') × Row t t' (contains ps (i + k))
  unfolding contains
  Steps-Row i [] after ps k t s h = cc
  Steps-Row i (t ∷ locks) after ps zero t' (rest, more, s, inl (fits, e, f)) h =
      let same : t ≡ t' = some_inj t t' h in
      (add_pair u t', rw (e, same), inl (rw (← same) fits, refl, ground (arith, f)))
  Steps-Row i (t ∷ locks) after ps zero t' (rest, more, s, inr (e, f)) h =
      let same : t ≡ t' = some_inj t t' h in
      let here : i + 0 ≡ i = omega arith in
      let absent : contains more i ≡ false = elim (Bool-cases (contains more i)) [
        | inl m ↦
            let (k, t'', n, q) = Steps-above (suc i) locks rest more i s m in absurd (omega arith)
        | inr absent ↦ absent
      ] in
      (t', rw (e, same), inr (refl, rw (f, here) absent))
  Steps-Row i (t ∷ locks) after ps (suc k) t' (rest, more, s, inl (fits, e, f)) h =
      let v : contains ps (i + suc k) ≡ contains more (suc i + k) =
        ground (arith, f, next_place i k) in
      let (r, q, row) = Steps-Row (suc i) locks rest more k t' s h in (r, rw e q, rw v row)
  Steps-Row i (t ∷ locks) after ps (suc k) t' (rest, more, s, inr (e, f)) h =
      let v : contains ps (i + suc k) ≡ contains more (suc i + k) =
        ground (arith, f, next_place i k) in
      let (r, q, row) = Steps-Row (suc i) locks rest more k t' s h in (r, rw e q, rw v row)

  pub Steps-back :
      (i : ℕ) (locks after : List LockInfo) (ps : List ℕ) (k : ℕ) (t' : LockInfo)
      → Steps i locks after ps
      → get_elem? after k ≡ some t'
      → (t : LockInfo) × (get_elem? locks k ≡ some t)
  Steps-back i [] after ps k t' (e, f) h = cc
  Steps-back i (t ∷ locks) after ps zero t' s h = (t, refl)
  Steps-back i (t ∷ locks) after ps (suc k) t' (rest, more, s, inl (fits, e, f)) h =
      Steps-back (suc i) locks rest more k t' s (rw e at h)
  Steps-back i (t ∷ locks) after ps (suc k) t' (rest, more, s, inr (e, f)) h =
      Steps-back (suc i) locks rest more k t' s (rw e at h)
