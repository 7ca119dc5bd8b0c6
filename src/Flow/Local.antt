-- ===== src/Flow/Local.antt =====
-- What isPotentiallyReachable learns inside the block of `A` and the block of `B`.
use study_uafx.Base.{
  ℕ, ◌≡◌, refl, inl, inr, ⊎_elim, ◌≢◌, Bool, true, false, not, ◌&&◌, some, List, [], ◌∷◌, ◌==◌,
  if◌then◌else◌, ==_iff, ==_refl, Bool-cases, arith, contains,
}
use study_uafx.Cfg.{Cfg, IsVerified, IsOnce, in_block, in_block_iff, in_block_of_mem}
use study_uafx.Reach.Walk.{Hits}
use study_uafx.Flow.{
  from_inst, is_reachable_in_bb, any_of, blocked_before, Exit, arrived, blocked, left, leave,
}

-- No instruction of the list is a blocker.
abbrev pub Free : List ℕ → List ℕ → Type 0
Free blocklist xs = (i : ℕ) → contains xs i ≡ true → contains blocklist i ≡ false

-- The instructions of a block after a given one.
abbrev pub after : ℕ → List ℕ → List ℕ
after a [] = []
after a (x ∷ rest) = if x == a then rest else after a rest

pub any_of_sound :
    (p : ℕ → Bool) (xs : List ℕ)
    → any_of p xs ≡ true
    → (i : ℕ) × (contains xs i ≡ true) × (p i ≡ true)
unfolding any_of contains
any_of_sound p [] h = cc
any_of_sound p (x ∷ xs) h = elim (Bool-cases (p x)) [
  | inl hit ↦ (x, ground (arith, ==_refl x), hit)
  | inr miss ↦ let (i, m, q) = any_of_sound p xs (ground (arith, miss)) in (i, ground arith, q)
]

pub any_of_complete :
    (p : ℕ → Bool) (xs : List ℕ)
    → any_of p xs ≡ false
    → (i : ℕ) → contains xs i ≡ true
    → p i ≡ false
unfolding any_of contains
any_of_complete p [] h i m = cc
any_of_complete p (x ∷ xs) h i m = elim (Bool-cases (x == i)) [
  | inl same ↦ let q : x ≡ i = (==_iff x i).0 same in rw (← q) (ground arith)
  | inr other ↦ ground (arith, other, any_of_complete p xs _ i)
]

pub any_of-intro :
    (p : ℕ → Bool) (xs : List ℕ) (i : ℕ) → contains xs i ≡ true → p i ≡ true → any_of p xs ≡ true
unfolding any_of contains
any_of-intro p [] i m h = cc
any_of-intro p (x ∷ xs) i m h = elim (Bool-cases (x == i)) [
  | inl same ↦ let q : x ≡ i = (==_iff x i).0 same in rw q (ground (arith, h))
  | inr other ↦ ground (arith, other, any_of-intro p xs i)
]

pub from_inst-after : (a : ℕ) (xs : List ℕ) → contains xs a ≡ true → from_inst a xs ≡ a ∷ after a xs
unfolding from_inst contains
from_inst-after a [] m = cc
from_inst-after a (x ∷ xs) m = elim (Bool-cases (x == a)) [
  | inl same ↦ rw (same, (==_iff x a).0 same)
  | inr other ↦ rw other (from_inst-after a xs (ground (arith, other)))
]

-- What lies after an instruction of a block does not hold it again.
pub after-once : (a : ℕ) (xs : List ℕ) → IsOnce xs → contains (after a xs) a ≡ false
unfolding contains
after-once a [] once = refl
after-once a (x ∷ xs) once = elim (Bool-cases (x == a)) [
  | inl same ↦ rw (same, ← (==_iff x a).0 same) once.0
  | inr other ↦ rw other (after-once a xs once.1)
]

-- What each way to leave the block of `A` means, for the instructions after `A`.
abbrev pub Exited : ℕ → List ℕ → List ℕ → Exit → Type 0
Exited b blocklist xs arrived = Hits b blocklist xs
Exited b blocklist xs blocked = (¬ Hits b blocklist xs) × (¬ Free blocklist xs)
Exited b blocklist xs left = (¬ Hits b blocklist xs) × Free blocklist xs

Exited-cons :
    (b : ℕ) (blocklist : List ℕ) (i : ℕ) (rest : List ℕ) (x : Exit)
    → i == b ≡ false
    → contains blocklist i ≡ false
    → Exited b blocklist rest x
    → Exited b blocklist (i ∷ rest) x
unfolding contains
Exited-cons b blocklist i rest arrived miss free h = inr (free, h)
Exited-cons b blocklist i rest blocked miss free h =
    (⊎_elim (λ e. ground (arith, miss, e)) (λ p. h.0 p.1), λ f. h.1 (λ j m. f j (ground arith)))
Exited-cons b blocklist i rest left miss free h = (
  ⊎_elim (λ e. ground (arith, miss, e)) (λ p. h.0 p.1),
  λ j m. elim (Bool-cases (i == j)) [
    | inl same ↦ let q : i ≡ j = (==_iff i j).0 same in rw (← q) free
    | inr other ↦ h.1 j (ground (arith, other))
  ],
)

pub leave-Exited :
    (a b : ℕ) (blocklist xs : List ℕ)
    → contains xs a ≡ false
    → Exited b blocklist xs (leave a b blocklist xs)
unfolding leave contains
leave-Exited a b blocklist [] m = (λ h. h, λ i h. cc)
leave-Exited a b blocklist (i ∷ rest) m = elim (Bool-cases (i == b)) [
  | inl hit ↦ rw hit (inl ((==_iff i b).0 hit))
  | inr miss ↦
      let other : i == a ≡ false = ground arith in
      elim (Bool-cases (contains blocklist i)) [
        | inl stop ↦
            rw (miss, other, stop)
              (
                ⊎_elim (λ e. ground (arith, miss, e)) (λ p. cc),
                λ f. ground (arith, f i, ==_refl i, stop),
              )
        | inr free ↦
            rw (miss, other, free)
              (Exited-cons b blocklist i rest _ miss free
                (leave-Exited a b blocklist rest (ground arith)))
      ]
]

-- The scan passes over `A` itself.
pub leave-skip :
    (a b : ℕ) (blocklist rest : List ℕ)
    → a == b ≡ false
    → leave a b blocklist (a ∷ rest) ≡ leave a b blocklist rest
unfolding leave
leave-skip a b blocklist rest other = rw (other, ==_refl a)

pub mem_of_Hits : (b : ℕ) (blocklist xs : List ℕ) → Hits b blocklist xs → contains xs b ≡ true
unfolding contains
mem_of_Hits b blocklist (x ∷ xs) (inl e) = ground (arith, ==_refl b)
mem_of_Hits b blocklist (x ∷ xs) (inr (free, h)) = ground (arith, mem_of_Hits b blocklist xs h)
mem_of_Hits b blocklist [] h = absurd h

-- A blocker before `b` bars the way to `b`.
barred :
    (b i : ℕ) (blocklist xs : List ℕ)
    → IsOnce xs
    → i ≢ b
    → contains blocklist i ≡ true
    → contains (from_inst i xs) b ≡ true
    → ¬ Hits b blocklist xs
unfolding contains from_inst
barred b i blocklist [] once ne stop m h = h
barred b i blocklist (x ∷ xs) once ne stop m h = elim (Bool-cases (x == i)) [
  | inl same ↦
      let q : x ≡ i = (==_iff x i).0 same in
      ⊎_elim (λ e. ne (cc (q, e)))
        (λ p. let r : contains blocklist x ≡ true = rw q stop in cc (p.0, r)) h
  | inr other ↦
      let tail : contains (from_inst i xs) b ≡ true = (rw (other, from_inst) at m) in
      ⊎_elim
        (λ e.
          let r : contains xs b ≡ true = from_inst-sub i xs b tail in
          let k : contains xs b ≡ false = (rw e at once.0) in cc (r, k))
        (λ p. barred b i blocklist xs once.1 ne stop tail p.1) h
]
  where
    from_inst-sub :
        (i : ℕ) (xs : List ℕ) (b : ℕ) → contains (from_inst i xs) b ≡ true → contains xs b ≡ true
    from_inst-sub i [] b m = m
    from_inst-sub i (x ∷ xs) b m = elim (Bool-cases (x == i)) [
      | inl same ↦ rw (same, from_inst) at m
      | inr other ↦ ground (arith, other, from_inst-sub i xs b)
    ]

is_reachable_in_bb_sound :
    (g : Cfg) (block i b : ℕ)
    → g.parent i ≡ some block
    → is_reachable_in_bb g i b ≡ true
    → contains (from_inst i (g.insts block)) b ≡ true
unfolding is_reachable_in_bb
is_reachable_in_bb_sound g block i b p h = ground arith

module _ (g : Cfg) (v : IsVerified g) (to b : ℕ) (blocklist : List ℕ) where
  -- The shortcut before the path search: unless `b` is a blocker itself, it refuses rightly.
  pub blocked_before-not-Goal :
      in_block g to b ≡ true
      → contains blocklist b ≡ false
      → blocked_before g to b blocklist ≡ true
      → ¬ Hits b blocklist (g.insts to)
  unfolding blocked_before
  blocked_before-not-Goal here free h =
      let (i, m, q) = any_of_sound _ blocklist h in
      let inside : in_block g to i ≡ true = ground (arith, q) in
      let p : g.parent i ≡ some to = (in_block_iff g to i).0 inside in
      barred b i blocklist (g.insts to) (v.once to)
        (λ e. let k : contains blocklist b ≡ true = (rw e at m) in cc (k, free)) m
        (is_reachable_in_bb_sound g to i b p (ground (arith, q)))

pub after-sub : (a i : ℕ) (xs : List ℕ) → contains (after a xs) i ≡ true → contains xs i ≡ true
unfolding contains
after-sub a i [] m = m
after-sub a i (x ∷ xs) m = elim (Bool-cases (x == a)) [
  | inl same ↦ let k : contains xs i ≡ true = (rw same at m) in ground (arith, k)
  | inr other ↦
      let k : contains (after a xs) i ≡ true = (rw other at m) in ground (arith, after-sub a i xs k)
]

module _ (g : Cfg) (v : IsVerified g) (from a : ℕ) (pa : g.parent a ≡ some from) where
  -- The code's test for a blocker between `A` and the end of its block.
  abbrev pub comes_after : ℕ → Bool
  comes_after i = in_block g from i && not (i == a) && is_reachable_in_bb g a i

  comes_after_sound : (i : ℕ) → comes_after i ≡ true → contains (after a (g.insts from)) i ≡ true
  unfolding contains
  comes_after_sound i h =
      let m : contains (from_inst a (g.insts from)) i ≡ true =
        is_reachable_in_bb_sound g from a i pa (ground arith) in
      let k : contains (a ∷ after a (g.insts from)) i ≡ true =
        (rw (from_inst-after a (g.insts from) ((v.linked from a).0 pa)) at m) in
      ground (arith, k)

  comes_after_complete : (i : ℕ) → contains (after a (g.insts from)) i ≡ true → comes_after i ≡ true
  unfolding is_reachable_in_bb contains
  comes_after_complete i m =
      let here = in_block_of_mem g v from i (after-sub a i (g.insts from) m) in
      let split = from_inst-after a (g.insts from) ((v.linked from a).0 pa) in
      let once = after-once a (g.insts from) (v.once from) in
      elim (Bool-cases (i == a)) [
        | inl same ↦
            let q : i ≡ a = (==_iff i a).0 same in
            let k : contains (after a (g.insts from)) a ≡ true = (rw q at m) in cc (k, once)
        | inr other ↦ rw (pa, is_reachable_in_bb, split, here, other) (ground (arith, m))
      ]

  pub not_Free_of_blocked :
      (blocklist : List ℕ)
      → any_of comes_after blocklist ≡ true
      → ¬ Free blocklist (after a (g.insts from))
  not_Free_of_blocked blocklist h free =
      let (i, m, q) = any_of_sound _ blocklist h in cc (free i (comes_after_sound i q), m)

  pub Free-of_open :
      (blocklist : List ℕ)
      → any_of comes_after blocklist ≡ false
      → Free blocklist (after a (g.insts from))
  Free-of_open blocklist h i m = elim (Bool-cases (contains blocklist i)) [
    | inl stop ↦ cc (any_of_complete _ blocklist h i stop, comes_after_complete i m)
    | inr free ↦ free
  ]

-- A blocker counts as standing before itself.
pub blocked_before_self :
    (g : Cfg) (to b : ℕ) (blocklist : List ℕ)
    → IsVerified g
    → g.parent b ≡ some to
    → contains blocklist b ≡ true
    → blocked_before g to b blocklist ≡ true
unfolding blocked_before is_reachable_in_bb contains
blocked_before_self g to b blocklist v pb stop =
    let here = (in_block_iff g to b).1 pb in
    let split = from_inst-after b (g.insts to) ((v.linked to b).0 pb) in
    any_of-intro _ blocklist b stop (ground (arith, here, pb, split, ==_refl b))
