-- ===== src/Thread/Clusters.antt =====
-- The clusters of equivalent locks that addSuppTrLocs makes, when sameLockObjs is an equivalence.
use study_uafx.Base.{
  ℕ, ◌≡◌, refl, Bool, true, false, ◌&&◌, ◌||◌, List, [], ◌∷◌, ◌==◌, ==_iff, arith, Bool-cases, inl,
  inr, contains, ◌↔◌,
}
use study_uafx.Thread.Locks.{LockMap, is_like, put_lock, eqv_locks}

-- sameLockObjs is an equivalence.
pub record IsEquivalence (same : ℕ → ℕ → Bool) : Type 0 where
  pub same_refl : (a : ℕ) → same a a ≡ true
  pub same_sym : (a b : ℕ) → same a b ≡ true → same b a ≡ true
  pub same_trans : (a b c : ℕ) → same a b ≡ true → same b c ≡ true → same a c ≡ true

-- Some cluster has both locks.
unfoldable pub together : List (List ℕ) → ℕ → ℕ → Bool
together [] a b = false
together (c ∷ cs) a b = contains c a && contains c b || together cs a b

-- Some cluster has the lock.
abbrev placed : List (List ℕ) → ℕ → Bool
placed cs a = together cs a a

-- Whether a lock has an entry in the map.
unfoldable pub is_key : LockMap → ℕ → Bool
is_key [] a = false
is_key ((k, rs) ∷ m) a = k == a || is_key m a

module _ (same : ℕ → ℕ → Bool) (eqv : IsEquivalence same) where
  -- The locks of a cluster are like each other.
  abbrev IsSound : List (List ℕ) → Type 0
  IsSound cs = (a b : ℕ) → together cs a b ≡ true → same a b ≡ true

  -- A lock of a cluster is like no lock of a later one.
  abbrev IsSeparate : List (List ℕ) → Type 0
  IsSeparate [] = Unit {0}
  IsSeparate (c ∷ cs) =
      ((a b : ℕ) → contains c a ≡ true → placed cs b ≡ true → same a b ≡ false) × IsSeparate cs

  is_like-some :
      (li : ℕ) (c : List ℕ)
      → is_like same li c ≡ true
      → (k : ℕ) × (contains c k ≡ true) × (same li k ≡ true)
  unfolding is_like contains
  is_like-some li [] h = cc
  is_like-some li (k ∷ c) h = elim (Bool-cases (same li k)) [
    | inl e ↦ (k, ground (arith, (==_iff k k).1 refl), e)
    | inr n ↦ let (j, m, e) = is_like-some li c (ground (arith, h, n)) in (j, ground (arith, m), e)
  ]

  is_like-none :
      (li : ℕ) (c : List ℕ)
      → is_like same li c ≡ false
      → (a : ℕ) → contains c a ≡ true
      → same li a ≡ false
  unfolding is_like contains
  is_like-none li [] h a m = cc
  is_like-none li (k ∷ c) h a m = elim (Bool-cases (k == a)) [
    | inl here ↦ let e : k ≡ a = (==_iff k a).0 here in rw (← e) (ground (arith, h))
    | inr later ↦ is_like-none li c (ground (arith, h)) a (ground (arith, m, later))
  ]

  placed-put_lock :
      (li : ℕ) (cs : List (List ℕ)) (a : ℕ)
      → placed (put_lock same li cs) a ≡ (li == a || placed cs a)
  unfolding put_lock together contains
  placed-put_lock li [] a = ground arith
  placed-put_lock li (c ∷ cs) a = elim (Bool-cases (is_like same li c)) [
    | inl like ↦ rw like (ground arith)
    | inr other ↦ rw other (ground (arith, placed-put_lock li cs a))
  ]

  -- A lock that joins a cluster is like its locks.
  join-same :
      (li : ℕ) (c : List ℕ) (cs : List (List ℕ))
      → IsSound (c ∷ cs)
      → is_like same li c ≡ true
      → (a : ℕ) → contains (li ∷ c) a ≡ true
      → same li a ≡ true
  unfolding together contains
  join-same li c cs sound like a m = elim (Bool-cases (li == a)) [
    | inl here ↦ let e : li ≡ a = (==_iff li a).0 here in rw (← e) (eqv.same_refl li)
    | inr later ↦
        let (k, at_k, e) = is_like-some li c like in
        let at_a : contains c a ≡ true = ground (arith, m, later) in
        eqv.same_trans li k a e (sound k a (ground (arith, at_k, at_a)))
  ]

  put_lock-IsSound : (li : ℕ) (cs : List (List ℕ)) → IsSound cs → IsSound (put_lock same li cs)
  unfolding put_lock together contains
  put_lock-IsSound li [] sound a b t =
      let e : li ≡ a = (==_iff li a).0 (ground (arith, t)) in
      let f : li ≡ b = (==_iff li b).0 (ground (arith, t)) in rw (← e, ← f) (eqv.same_refl li)
  put_lock-IsSound li (c ∷ cs) sound a b t = elim (Bool-cases (is_like same li c)) [
    | inl like ↦
        let t' = (rw like at t) in
        elim (Bool-cases (together cs a b)) [
          | inl later ↦ sound a b (ground (arith, later))
          | inr here ↦
              let join = join-same li c cs sound like in
              eqv.same_trans a li b (eqv.same_sym li a (join a (ground (arith, t', here))))
                (join b (ground (arith, t', here)))
        ]
    | inr other ↦
        let t' = (rw other at t) in
        elim (Bool-cases (contains c a && contains c b)) [
          | inl here ↦ sound a b (ground (arith, here))
          | inr later ↦
              put_lock-IsSound li cs (λ x y h. sound x y (ground (arith, h))) a b
                (ground (arith, t', later))
        ]
  ]

  unlike : (a b c : ℕ) → same a b ≡ true → same a c ≡ false → same b c ≡ false
  unlike a b c e n = elim (Bool-cases (same b c)) [
    | inl y ↦ cc (eqv.same_trans a b c e y, n)
    | inr f ↦ f
  ]

  put_lock-IsSeparate :
      (li : ℕ) (cs : List (List ℕ)) → IsSound cs → IsSeparate cs → IsSeparate (put_lock same li cs)
  unfolding put_lock together
  put_lock-IsSeparate li [] sound apart = (λ a b m p. cc, tt)
  put_lock-IsSeparate li (c ∷ cs) sound (far, rest) = elim (Bool-cases (is_like same li c)) [
    | inl like ↦
        let (k, at_k, e) = is_like-some li c like in
        rw like (
          λ a b m p.
              let f : same k a ≡ true =
                eqv.same_trans k li a (eqv.same_sym li k e) (join-same li c cs sound like a m) in
              unlike k a b f (far k b at_k p),
          rest,
        )
    | inr other ↦ rw other (
      λ a b m p. elim (Bool-cases (li == b)) [
        | inl here ↦
            let f : li ≡ b = (==_iff li b).0 here in
            let n = is_like-none li c other a m in
            elim (Bool-cases (same a b)) [
              | inr q ↦ q
              | inl y ↦ let z : same li a ≡ true = rw f (eqv.same_sym a b y) in cc (z, n)
            ]
        | inr later ↦ far a b m (ground (arith, placed-put_lock li cs b, p, later))
      ],
      put_lock-IsSeparate li cs (λ x y h. sound x y (ground (arith, h))) rest,
    )
  ]

  IsSeparate-together :
      (cs : List (List ℕ)) (a b : ℕ)
      → IsSeparate cs
      → placed cs a ≡ true
      → placed cs b ≡ true
      → same a b ≡ true
      → together cs a b ≡ true
  unfolding together
  IsSeparate-together [] a b apart p q e = cc
  IsSeparate-together (c ∷ cs) a b (far, rest) p q e = elim (Bool-cases (contains c a)) [
    | inl x ↦ elim (Bool-cases (contains c b)) [
      | inl y ↦ ground (arith, x, y)
      | inr n ↦ cc (far a b x (ground (arith, q, n)), e)
    ]
    | inr n ↦ elim (Bool-cases (contains c b)) [
      | inl y ↦ cc (far b a y (ground (arith, p, n)), eqv.same_sym a b e)
      | inr k ↦
          ground
            (arith, IsSeparate-together cs a b rest (ground (arith, p, n)) (ground (arith, q, k)) e)
    ]
  ]

  record Clusters (m : LockMap) (cs cs' : List (List ℕ)) : Type 0 where
    sound : IsSound cs'
    separate : IsSeparate cs'
    all : (a : ℕ) → placed cs' a ≡ (is_key m a || placed cs a)

  eqv_locks-Clusters :
      (cs : List (List ℕ)) (m : LockMap)
      → IsSound cs
      → IsSeparate cs
      → Clusters m cs (eqv_locks same cs m)
  unfolding eqv_locks is_key
  eqv_locks-Clusters cs [] s d = record { sound = s; separate = d; all = λ a. refl }
  eqv_locks-Clusters cs ((li, rs) ∷ m) s d =
      let k =
        eqv_locks-Clusters (put_lock same li cs) m (put_lock-IsSound li cs s)
          (put_lock-IsSeparate li cs s d) in
      record {
        sound = k.sound;
        separate = k.separate;
        all = λ a. ground (arith, k.all a, placed-put_lock li cs a);
      }

  together-placed :
      (cs : List (List ℕ)) (a b : ℕ)
      → together cs a b ≡ true
      → (placed cs a ≡ true) × (placed cs b ≡ true)
  unfolding together
  together-placed [] a b t = cc
  together-placed (c ∷ cs) a b t = elim (Bool-cases (together cs a b)) [
    | inl later ↦
        let (p, q) = together-placed cs a b later in (ground (arith, p), ground (arith, q))
    | inr here ↦ (ground (arith, t, here), ground (arith, t, here))
  ]

  -- Two locks come into one cluster exactly when both are in the map and sameLockObjs answers true.
  pub eqv_locks-together :
      (m : LockMap) (a b : ℕ)
      → (together (eqv_locks same [] m) a b ≡ true)
        ↔ ((is_key m a ≡ true) × (is_key m b ≡ true) × (same a b ≡ true))
  unfolding together
  eqv_locks-together m a b =
      let k = eqv_locks-Clusters [] m (λ x y h. cc) tt in
      (
        λ t.
            let (p, q) = together-placed (eqv_locks same [] m) a b t in
            (ground (arith, k.all a, p), ground (arith, k.all b, q), k.sound a b t),
        λ (p, q, e).
            IsSeparate-together (eqv_locks same [] m) a b k.separate (ground (arith, k.all a, p))
              (ground (arith, k.all b, q)) e,
      )
