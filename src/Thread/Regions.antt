-- ===== src/Thread/Regions.antt =====
-- The mutual exclusion of the regions of equivalent locks in a schedule.
use study_uafx.Base.{
  ℕ, ◌≡◌, refl, ap, ◌∙◌, Bool, true, false, not, ◌&&◌, ◌||◌, some, List, [], ◌∷◌, if◌then◌else◌,
  ◌==◌, arith, Bool-cases, inl, inr, ◌↔◌,
}
use study_uafx.Base.Int.{ℤ, ltb_ℤ}
use study_uafx.Constraint.Order.{
  Orders, meets, some_before, has_pair, po_add_constraint_or, po_add_constraint_or-meets,
  po_add_constraint_or-has_pair,
}
use study_uafx.Thread.Apart.{
  is_apart, is_apart_from, are_apart, clusters_apart, IsRegion, HasKeysOnce, IsRegion-is_key,
  regions_of-IsRegion, clusters_apart_iff,
}
use study_uafx.Thread.Clusters.{IsEquivalence, together, eqv_locks-together}
use study_uafx.Thread.Locks.{
  LockMap, eqv_locks, regions_in, exclude, exclude_one, exclude_all, exclude_clusters,
  exclude_locks,
}

-- The demand of a pair of regions without a shared end.
apart_demand :
    (lk uk p q a b m : Bool)
    → (not lk && not uk) ≡ true
    → (if not p || (not q || false) then (a || (b || false)) && m else m)
      ≡ ((lk || uk || p && q || a || b) && m)
apart_demand lk uk p q a b m d = ground (arith, d)

shared_demand :
    (lk uk p q a b m : Bool)
    → (not lk && not uk) ≡ false
    → m ≡ ((lk || uk || p && q || a || b) && m)
shared_demand lk uk p q a b m d = ground (arith, d)

module _ (z : Orders) (f : ℕ → ℤ) where
  exclude-meets :
      (po : List z.Expr) (e0 e1 : ℕ × ℕ)
      → meets z (exclude z po e0 e1) f ≡ (is_apart f e0 e1 && meets z po f)
  unfolding exclude
  exclude-meets po (lk0, uk0) (lk1, uk1) =
      let locs = some uk0 ∷ some lk1 ∷ some uk1 ∷ some lk0 ∷ [] in
      let m = meets z po f in
      let added = po_add_constraint_or-meets z po locs f in
      let ok : (po_add_constraint_or z po locs).1 ≡ has_pair locs =
        po_add_constraint_or-has_pair z po locs in
      let before = some_before locs f in
      let demand = ap (λ (b : Bool). if b then before && m else m) ok in
      elim (Bool-cases (not (lk0 == lk1) && not (uk0 == uk1))) [
        | inr shared ↦
            ap (λ (b : Bool). meets z (if b then (po_add_constraint_or z po locs).0 else po) f)
              shared
            ∙ shared_demand (lk0 == lk1) (uk0 == uk1) (uk0 == lk1) (uk1 == lk0)
                (ltb_ℤ (f uk0) (f lk1)) (ltb_ℤ (f uk1) (f lk0)) m shared
        | inl apart ↦
            ap (λ (b : Bool). meets z (if b then (po_add_constraint_or z po locs).0 else po) f)
              apart
            ∙ added
            ∙ demand
            ∙ apart_demand (lk0 == lk1) (uk0 == uk1) (uk0 == lk1) (uk1 == lk0)
                (ltb_ℤ (f uk0) (f lk1)) (ltb_ℤ (f uk1) (f lk0)) m apart
      ]

  exclude_one-meets :
      (po : List z.Expr) (e0 : ℕ × ℕ) (rs : List (ℕ × ℕ))
      → meets z (exclude_one z po e0 rs) f ≡ (is_apart_from f e0 rs && meets z po f)
  unfolding exclude_one
  exclude_one-meets po e0 [] = refl
  exclude_one-meets po e0 (e1 ∷ rs) =
      exclude_one-meets (exclude z po e0 e1) e0 rs ∙ ground (arith, exclude-meets po e0 e1)

  exclude_all-meets :
      (po : List z.Expr) (es rs : List (ℕ × ℕ))
      → meets z (exclude_all z po es rs) f ≡ (are_apart f es rs && meets z po f)
  unfolding exclude_all
  exclude_all-meets po [] rs = refl
  exclude_all-meets po (e0 ∷ es) rs =
      exclude_all-meets (exclude_one z po e0 rs) es rs ∙ ground (arith, exclude_one-meets po e0 rs)

  exclude_clusters-meets :
      (m : LockMap) (po : List z.Expr) (cs : List (List ℕ))
      → meets z (exclude_clusters z m po cs) f ≡ (clusters_apart f m cs && meets z po f)
  unfolding exclude_clusters
  exclude_clusters-meets m po [] = refl
  exclude_clusters-meets m po (c ∷ cs) =
      exclude_clusters-meets m (exclude_all z po (regions_in m c) (regions_in m c)) cs
      ∙ ground (arith, exclude_all-meets po (regions_in m c) (regions_in m c))

  -- The values keep any two regions of equivalent locks apart.
  abbrev pub IsExclusive : (ℕ → ℕ → Bool) → LockMap → Type 0
  IsExclusive same m =
      (a b : ℕ) (r s : ℕ × ℕ)
      → same a b ≡ true
      → IsRegion m a r
      → IsRegion m b s
      → is_apart f r s ≡ true

  clusters_apart-IsExclusive :
      (same : ℕ → ℕ → Bool) (m : LockMap)
      → IsEquivalence same
      → HasKeysOnce m
      → (clusters_apart f m (eqv_locks same [] m) ≡ true) ↔ IsExclusive same m
  clusters_apart-IsExclusive same m eqv once =
      let apart = clusters_apart_iff f m (eqv_locks same [] m) in
      (
        λ h a b r s e p q.
            let t : together (eqv_locks same [] m) a b ≡ true =
              (eqv_locks-together same eqv m a b).1
                (IsRegion-is_key m a r p, IsRegion-is_key m b s q, e) in
            apart.0 h a b r s t ((regions_of-IsRegion m a r once).1 p)
              ((regions_of-IsRegion m b s once).1 q),
        λ h. apart.1 (λ a b r s t p q.
            let (x, y, e) = (eqv_locks-together same eqv m a b).0 t in
            h a b r s e ((regions_of-IsRegion m a r once).0 p)
              ((regions_of-IsRegion m b s once).0 q)),
      )

  -- When sameLockObjs is an equivalence and the map has one entry for a lock, the values of the nodes
  -- meet the constraints after the locks have been added exactly when they met those before and any two
  -- regions of locks that sameLockObjs relates are apart: one unlock is before the other lock. Two
  -- regions that share a lock or an unlock, or of which each starts where the other ends, are not kept
  -- apart.
  pub exclude_locks-meets :
      (same : ℕ → ℕ → Bool) (m : LockMap) (po : List z.Expr)
      → IsEquivalence same
      → HasKeysOnce m
      → (meets z (exclude_locks z same m po) f ≡ true)
        ↔ ((meets z po f ≡ true) × IsExclusive same m)
  unfolding exclude_locks
  exclude_locks-meets same m po eqv once =
      let added = exclude_clusters-meets m po (eqv_locks same [] m) in
      let apart = clusters_apart-IsExclusive same m eqv once in
      (
        λ h. (ground (arith, added, h), apart.0 (ground (arith, added, h))),
        λ (p, q). ground (arith, added, p, apart.1 q),
      )
