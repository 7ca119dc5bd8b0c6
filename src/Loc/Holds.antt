-- ===== src/Loc/Holds.antt =====
-- Which lists of blockers hold one of a kind, and the keys that getBlockersInCurrFunc files them under.
use study_uafx.Base.{
  ℕ, ◌≡◌, ap, ◌↔◌, ◌⊎◌, inl, inr, true, Option, some, List, [], ◌∷◌, ◌==◌, contains,
  contains-insert, is_empty, arith, Bool-cases, Option-cases, ==_iff,
}
use study_uafx.Loc.{InstLoc}
use study_uafx.Loc.Blockers.{keys}

-- `bi` is in a list of locations.
abbrev pub Holds : List InstLoc → (InstLoc → Type 0) → Type 0
Holds [] P = ⊥
Holds (bi ∷ bis) P = P bi ⊎ Holds bis P

pub Holds-empty :
    (P : InstLoc → Type 0) (bis : List InstLoc) → is_empty bis ≡ true → Holds bis P → ⊥
Holds-empty P [] e h = h
Holds-empty P (bi ∷ bis) e h = cc

pub Holds-map :
    (P Q : InstLoc → Type 0) (bis : List InstLoc)
    → ((bi : InstLoc) → P bi → Q bi)
    → Holds bis P
    → Holds bis Q
Holds-map P Q [] f h = h
Holds-map P Q (bi ∷ bis) f h = elim h [
  | inl here ↦ inl (f bi here)
  | inr rest ↦ inr (Holds-map P Q bis f rest)
]

pub keys_iff :
    (f : InstLoc → Option ℕ) (bis : List InstLoc) (i : ℕ)
    → (contains (keys f bis) i ≡ true) ↔ Holds bis (λ bi. f bi ≡ some i)
unfolding keys contains
keys_iff f [] i = (λ h. cc, λ h. absurd h)
keys_iff f (bi ∷ bis) i = elim (Option-cases (f bi)) [
  | inl e ↦
      rw (e, keys)
        (
          λ h. inr ((keys_iff f bis i).0 h),
          λ h. elim h [ inl q ↦ cc | inr rest ↦ (keys_iff f bis i).1 rest ],
        )
  | inr (k, e) ↦
      rw (e, keys)
        (
          λ h. elim (Bool-cases (k == i)) [
            | inl here ↦ inl (ap some ((==_iff k i).0 here))
            | inr later ↦
                inr (
                  (keys_iff f bis i).0 (ground (arith, h, later, contains-insert k i (keys f bis))))
          ],
          λ h. elim h [
            | inl q ↦
                let same : k ≡ i = cc in
                ground (arith, contains-insert k i (keys f bis), (==_iff k i).1 same)
            | inr rest ↦ ground (arith, contains-insert k i (keys f bis), (keys_iff f bis i).1 rest)
          ],
        )
]
