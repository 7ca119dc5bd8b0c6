-- ===== src/Thread/Apart.antt =====
-- When the regions of a lock map are apart, as sums and functions that the proofs on Thread.Locks use.
use study_uafx.Base.{
  ℕ, ◌≡◌, refl, Bool, true, false, ◌&&◌, ◌||◌, List, [], ◌∷◌, ◌==◌, ==_iff, arith, Bool-cases, inl,
  inr, ◌⊎◌, ◌↔◌, contains, ◌++◌,
}
use study_uafx.Base.Int.{ℤ, ltb_ℤ}
use study_uafx.Thread.Clusters.{together, is_key}
use study_uafx.Thread.Locks.{LockMap, regions_of, regions_in}

-- Two regions, each a lock and an unlock, do not overlap: one unlock is before the other lock. Regions
-- that share an end are not looked at, nor those of which each starts where the other ends.
abbrev pub is_apart : (ℕ → ℤ) → ℕ × ℕ → ℕ × ℕ → Bool
is_apart f (lk0, uk0) (lk1, uk1) =
    lk0 == lk1
    || uk0 == uk1
    || uk0 == lk1 && uk1 == lk0
    || ltb_ℤ (f uk0) (f lk1)
    || ltb_ℤ (f uk1) (f lk0)

abbrev pub is_apart_from : (ℕ → ℤ) → ℕ × ℕ → List (ℕ × ℕ) → Bool
is_apart_from f e0 [] = true
is_apart_from f e0 (e1 ∷ rs) = is_apart f e0 e1 && is_apart_from f e0 rs

abbrev pub are_apart : (ℕ → ℤ) → List (ℕ × ℕ) → List (ℕ × ℕ) → Bool
are_apart f [] rs = true
are_apart f (e0 ∷ es) rs = is_apart_from f e0 rs && are_apart f es rs

abbrev pub clusters_apart : (ℕ → ℤ) → LockMap → List (List ℕ) → Bool
clusters_apart f m [] = true
clusters_apart f m (c ∷ cs) = are_apart f (regions_in m c) (regions_in m c) && clusters_apart f m cs

-- A list of regions has the region.
abbrev pub Among : List (ℕ × ℕ) → ℕ × ℕ → Type 0
Among [] r = ⊥
Among (x ∷ xs) r = (x ≡ r) ⊎ Among xs r

-- A lock of the map has the region.
abbrev pub IsRegion : LockMap → ℕ → ℕ × ℕ → Type 0
IsRegion [] a r = ⊥
IsRegion ((k, rs) ∷ m) a r = ((k ≡ a) × Among rs r) ⊎ IsRegion m a r

-- The map has one entry for a lock.
abbrev pub HasKeysOnce : LockMap → Type 0
HasKeysOnce [] = Unit {0}
HasKeysOnce ((k, rs) ∷ m) = (is_key m k ≡ false) × HasKeysOnce m

Among-append : (xs ys : List (ℕ × ℕ)) (r : ℕ × ℕ) → Among (xs ++ ys) r ↔ (Among xs r ⊎ Among ys r)
Among-append [] ys r = (λ h. inr h, λ h. elim h [ inl q ↦ absurd q | inr q ↦ q ])
Among-append (x ∷ xs) ys r =
    let more = Among-append xs ys r in
    (
      λ h. elim h [
        | inl q ↦ inl (inl q)
        | inr q ↦ elim (more.0 q) [ inl u ↦ inl (inr u) | inr u ↦ inr u ]
      ],
      λ h. elim h [
        | inl q ↦ elim q [ inl u ↦ inl u | inr u ↦ inr (more.1 (inl u)) ]
        | inr q ↦ inr (more.1 (inr q))
      ],
    )

regions_in-Among :
    (m : LockMap) (c : List ℕ) (r : ℕ × ℕ)
    → Among (regions_in m c) r ↔ ((a : ℕ) × (contains c a ≡ true) × Among (regions_of m a) r)
unfolding regions_in contains
regions_in-Among m [] r = (λ h. absurd h, λ (a, e, q). cc)
regions_in-Among m (li ∷ c) r =
    let split = Among-append (regions_of m li) (regions_in m c) r in
    let more = regions_in-Among m c r in
    (
      λ h. elim (split.0 h) [
        | inl q ↦ (li, ground (arith, (==_iff li li).1 refl), q)
        | inr q ↦ let (a, e, u) = more.0 q in (a, ground (arith, e), u)
      ],
      λ (a, e, q). elim (Bool-cases (li == a)) [
        | inl here ↦
            let k : li ≡ a = (==_iff li a).0 here in
            let q' : Among (regions_of m li) r = rw k q in split.1 (inl q')
        | inr later ↦ split.1 (inr (more.1 (a, ground (arith, e, later), q)))
      ],
    )

pub IsRegion-is_key : (m : LockMap) (a : ℕ) (r : ℕ × ℕ) → IsRegion m a r → is_key m a ≡ true
unfolding is_key
IsRegion-is_key [] a r h = absurd h
IsRegion-is_key ((k, rs) ∷ m) a r h = elim h [
  | inl (e, q) ↦ ground (arith, (==_iff k a).1 e)
  | inr rest ↦ ground (arith, IsRegion-is_key m a r rest)
]

pub regions_of-IsRegion :
    (m : LockMap) (a : ℕ) (r : ℕ × ℕ) → HasKeysOnce m → Among (regions_of m a) r ↔ IsRegion m a r
unfolding regions_of
regions_of-IsRegion [] a r once = (λ h. h, λ h. h)
regions_of-IsRegion ((k, rs) ∷ m) a r (new, once) = elim (Bool-cases (k == a)) [
  | inr other ↦
      let more = regions_of-IsRegion m a r once in
      rw other (
        λ h. inr (more.0 h),
        λ h. elim h [ inl (e, q) ↦ cc ((==_iff k a).1 e, other) | inr rest ↦ more.1 rest ],
      )
  | inl same ↦
      let e : k ≡ a = (==_iff k a).0 same in
      rw same (
        λ h. inl (e, h),
        λ h. elim h [
          | inl (e', q) ↦ q
          | inr rest ↦
              let there : is_key m k ≡ true = rw e (IsRegion-is_key m a r rest) in cc (there, new)
        ],
      )
]

is_apart_from_iff :
    (f : ℕ → ℤ) (e0 : ℕ × ℕ) (rs : List (ℕ × ℕ))
    → (is_apart_from f e0 rs ≡ true) ↔ ((s : ℕ × ℕ) → Among rs s → is_apart f e0 s ≡ true)
is_apart_from_iff f e0 [] = (λ h s m. absurd m, λ h. refl)
is_apart_from_iff f e0 (e1 ∷ rs) =
    let more = is_apart_from_iff f e0 rs in
    (
      λ h s m. elim m [
        | inl e ↦ rw (← e) (ground (arith, h))
        | inr q ↦ more.0 (ground (arith, h)) s q
      ],
      λ h. ground (arith, h e1 (inl refl), more.1 (λ s m. h s (inr m))),
    )

are_apart_iff :
    (f : ℕ → ℤ) (es rs : List (ℕ × ℕ))
    → (are_apart f es rs ≡ true) ↔ ((r s : ℕ × ℕ) → Among es r → Among rs s → is_apart f r s ≡ true)
are_apart_iff f [] rs = (λ h r s m n. absurd m, λ h. refl)
are_apart_iff f (e0 ∷ es) rs =
    let one = is_apart_from_iff f e0 rs in
    let more = are_apart_iff f es rs in
    (
      λ h r s m n. elim m [
        | inl e ↦ rw (← e) (one.0 (ground (arith, h)) s n)
        | inr q ↦ more.0 (ground (arith, h)) r s q n
      ],
      λ h. ground (arith, one.1 (λ s n. h e0 s (inl refl) n), more.1 (λ r s m n. h r s (inr m) n)),
    )

pub clusters_apart_iff :
    (f : ℕ → ℤ) (m : LockMap) (cs : List (List ℕ))
    → (clusters_apart f m cs ≡ true) ↔ (
        (a b : ℕ) (r s : ℕ × ℕ)
        → together cs a b ≡ true
        → Among (regions_of m a) r
        → Among (regions_of m b) s
        → is_apart f r s ≡ true)
unfolding together
clusters_apart_iff f m [] = (λ h a b r s t p q. cc, λ h. refl)
clusters_apart_iff f m (c ∷ cs) =
    let one = are_apart_iff f (regions_in m c) (regions_in m c) in
    let more = clusters_apart_iff f m cs in
    (
      λ h a b r s t p q. elim (Bool-cases (together cs a b)) [
        | inl later ↦ more.0 (ground (arith, h)) a b r s later p q
        | inr here ↦
            one.0 (ground (arith, h)) r s
              ((regions_in-Among m c r).1 (a, ground (arith, t, here), p))
              ((regions_in-Among m c s).1 (b, ground (arith, t, here), q))
      ],
      λ h. ground (
        arith,
        one.1 (λ r s p q.
            let (a, x, p') = (regions_in-Among m c r).0 p in
            let (b, y, q') = (regions_in-Among m c s).0 q in
            h a b r s (ground (arith, x, y)) p' q'),
        more.1 (λ a b r s t p q. h a b r s (ground (arith, t)) p q),
      ),
    )
