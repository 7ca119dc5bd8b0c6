-- ===== src/Trait/Masked.antt =====
-- TraitCheck::isContMasked: the range it returns is exactly the set bits of the mask, and it gives
-- up only at a gap.
use study_uafx.Base.{
  ℕ, zero, suc, ◌+◌, ◌/◌, ◌%◌, ◌^◌, ◌≤◌, ◌<◌, ◌≡◌, ◌≢◌, refl, Bool, false, ◌&&◌, none, some, leb,
  ltb, ◌==◌, arith, Bool-cases, Option-cases, inl, inr, ◌⊎◌,
}
use study_uafx.Base.Bits.{bit}
use study_uafx.Trait.Check.{
  CheckPattern, BitMasked, constant_masked, Range, unset, bits, mask_loop, range_of, is_cont_masked,
}

-- Whether bit `k` is in a range.
unfoldable pub in_range : Range → ℕ → Bool
in_range unset k = false
in_range (bits start last) k = leb start k && leb k last

from_low_bit :
    (mask i l left : ℕ)
    → (mask % 2 == 1) ≡ leb i l
    → ((j : ℕ) → j < left → bit (mask / 2) j ≡ leb (suc i + j) l)
    → (j : ℕ) → j < suc left
    → bit mask j ≡ leb (i + j) l
unfolding bit
from_low_bit mask i l left low high zero lt = ground (arith, low)
from_low_bit mask i l left low high (suc j) lt = ground (arith, high j (omega arith))

from_low_bit_in :
    (mask i s l left : ℕ)
    → (mask % 2 == 1) ≡ in_range (bits s l) i
    → ((j : ℕ) → j < left → bit (mask / 2) j ≡ in_range (bits s l) (suc i + j))
    → (j : ℕ) → j < suc left
    → bit mask j ≡ in_range (bits s l) (i + j)
unfolding bit in_range
from_low_bit_in mask i s l left low high zero lt = ground (arith, low)
from_low_bit_in mask i s l left low high (suc j) lt = ground (arith, high j (omega arith))

-- What the loop adds to a range that starts at `start`: the range still starts there, and bit
-- `i + j` joined it exactly where bit `j` of the rest of the mask is set.
grown :
    (left i mask start last s l : ℕ)
    → start ≤ last
    → last < i
    → mask_loop left i mask (bits start last) ≡ some (bits s l)
    → ((s ≡ start) × (last ≤ l) × ((l ≡ last) ⊎ (i ≡ suc last)))
      × ((j : ℕ) → j < left → bit mask j ≡ leb (i + j) l)
unfolding mask_loop bit
grown zero i mask start last s l a b h =
    ((ground (arith, h), ground (arith, h), inl (ground (arith, h))), λ j lt. absurd (omega arith))
grown (suc left) i mask start last s l a b h = elim (Bool-cases (mask % 2 == 1)) [
  | inl odd ↦ elim (Bool-cases (i == suc last)) [
    | inl next ↦
        let ((e, p, q), f) =
          grown left (suc i) (mask / 2) start (suc last) s l (omega arith) (ground arith)
            (ground (arith, odd, next)) in
        (
          (e, ground arith, inr (ground (arith, next))),
          from_low_bit mask i l left (ground (arith, odd, next)) f,
        )
    | inr gap ↦ ground (arith, odd, gap)
  ]
  | inr even ↦
      let ((e, p, q), f) =
        grown left (suc i) (mask / 2) start last s l a (omega arith) (ground (arith, even)) in
      ((e, p, inl (ground arith)), from_low_bit mask i l left (ground (arith, even)) f)
]

first :
    (left i mask s l : ℕ)
    → mask_loop left i mask unset ≡ some (bits s l)
    → ((i ≤ s) × (s ≤ l)) × ((j : ℕ) → j < left → bit mask j ≡ in_range (bits s l) (i + j))
unfolding mask_loop bit in_range
first zero i mask s l h = absurd (ground (arith, h))
first (suc left) i mask s l h = elim (Bool-cases (mask % 2 == 1)) [
  | inl odd ↦
      let ((e, p, q), f) =
        grown left (suc i) (mask / 2) i i s l (omega arith) (omega arith) (ground (arith, odd)) in
      (
        (ground arith, ground arith),
        from_low_bit_in mask i s l left (ground (arith, odd)) (λ j lt. ground (arith, f j lt, p)),
      )
  | inr even ↦
      let ((p, q), f) = first left (suc i) (mask / 2) s l (ground (arith, even)) in
      ((ground arith, q), from_low_bit_in mask i s l left (ground (arith, even)) f)
]

stays_set : (left i mask start last : ℕ) → mask_loop left i mask (bits start last) ≡ some unset → ⊥
unfolding mask_loop
stays_set zero i mask start last h = ground (arith, h)
stays_set (suc left) i mask start last h = ground (
  arith,
  h,
  stays_set left (suc i) (mask / 2) start (suc last),
  stays_set left (suc i) (mask / 2) start last,
)

none_set :
    (left i mask : ℕ)
    → mask_loop left i mask unset ≡ some unset
    → (j : ℕ) → j < left
    → bit mask j ≡ false
unfolding mask_loop bit
none_set zero i mask h j lt = absurd (omega arith)
none_set (suc left) i mask h zero lt = ground (arith, h, stays_set left (suc i) (mask / 2) i i)
none_set (suc left) i mask h (suc j) lt =
    none_set left (suc i) (mask / 2) (ground (arith, h, stays_set left (suc i) (mask / 2) i i)) j
      (omega arith)

no_gap :
    (left i mask start last l : ℕ)
    → last ≤ l
    → last < i
    → (l ≡ last) ⊎ (i ≡ suc last)
    → ((j : ℕ) → j < left → bit mask j ≡ leb (i + j) l)
    → mask_loop left i mask (bits start last) ≡ none
    → ⊥
unfolding mask_loop bit
no_gap zero i mask start last l a b c f h = ground (arith, h)
no_gap (suc left) i mask start last l a b c f h = elim (Bool-cases (mask % 2 == 1)) [
  | inl odd ↦
      no_gap left (suc i) (mask / 2) start (suc last) l (ground (arith, odd, c, f 0 (omega arith)))
        (ground (arith, odd, c, f 0 (omega arith)))
        (inr (ground (arith, odd, c, f 0 (omega arith))))
        (λ j lt. ground (arith, f (suc j) (omega arith)))
        (ground (arith, odd, c, h, f 0 (omega arith)))
  | inr even ↦
      no_gap left (suc i) (mask / 2) start last l a (omega arith)
        (inl (ground (arith, even, c, f 0 (omega arith))))
        (λ j lt. ground (arith, f (suc j) (omega arith))) (ground (arith, even, h))
]

no_gap_unset :
    (left i mask s l : ℕ)
    → s ≤ l
    → i ≤ s
    → ((j : ℕ) → j < left → bit mask j ≡ in_range (bits s l) (i + j))
    → mask_loop left i mask unset ≡ none
    → ⊥
unfolding mask_loop bit in_range
no_gap_unset zero i mask s l a b f h = ground (arith, h)
no_gap_unset (suc left) i mask s l a b f h = elim (Bool-cases (mask % 2 == 1)) [
  | inl odd ↦
      no_gap left (suc i) (mask / 2) i i l (ground (arith, odd, f 0 (omega arith))) (omega arith)
        (inr refl) (λ j lt. ground (arith, odd, f 0 (omega arith), f (suc j) (omega arith)))
        (ground (arith, odd, h))
  | inr even ↦
      no_gap_unset left (suc i) (mask / 2) s l a (ground (arith, even, f 0 (omega arith)))
        (λ j lt. ground (arith, f (suc j) (omega arith))) (ground (arith, even, h))
]

range_bits :
    (mask width st len : ℕ) (r : Range)
    → width < 2 ^ 32
    → mask_loop width 0 mask unset ≡ some r
    → range_of r ≡ (st, len)
    → (k : ℕ) → k < width
    → bit mask k ≡ (leb st k && ltb k (st + len))
unfolding in_range
range_bits mask width st len unset w h e k lt = ground (arith, none_set width 0 mask h k lt, e)
range_bits mask width st len (bits s l) w h e k lt =
    let ((p, q), f) = first width 0 mask s l h in ground (arith, f k lt, e)

-- The range isContMasked returns is exactly the set bits of the mask below its width: it never
-- misses or adds one. For a mask with no bit set the range it returns has no bit below the width.
pub is_cont_masked-range :
    (pat : CheckPattern) (bm : BitMasked) (st len : ℕ)
    → bm.width < 2 ^ 32
    → is_cont_masked record { pat = pat; entity = constant_masked (some bm) } ≡ some (st, len)
    → (k : ℕ) → k < bm.width
    → bit bm.mask k ≡ (leb st k && ltb k (st + len))
unfolding is_cont_masked
is_cont_masked-range pat bm st len w h = elim (Option-cases (mask_loop bm.width 0 bm.mask unset)) [
  | inl e ↦ absurd (ground (arith, h, e))
  | inr (r, e) ↦ range_bits bm.mask bm.width st len r w e (ground (arith, h, e))
]

-- isContMasked gives up only at a gap: it answers for every mask whose set bits below the width
-- are those from some `st` to some `last`.
pub is_cont_masked_answers :
    (pat : CheckPattern) (bm : BitMasked) (st last : ℕ)
    → st ≤ last
    → ((k : ℕ) → k < bm.width → bit bm.mask k ≡ (leb st k && leb k last))
    → is_cont_masked record { pat = pat; entity = constant_masked (some bm) } ≢ none
unfolding is_cont_masked in_range
is_cont_masked_answers pat bm st last a f h =
    no_gap_unset bm.width 0 bm.mask st last a (omega arith) (λ k lt. ground (arith, f k lt))
      (ground (arith, h))
