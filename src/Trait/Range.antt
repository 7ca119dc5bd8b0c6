-- ===== src/Trait/Range.antt =====
-- TraitSet::writeBitRange: what it reports of a bit range holds whatever the variable was before.
use study_uafx.Base.{
  ℕ, zero, suc, ◌+◌, ◌-◌, ◌%◌, ◌^◌, ◌<◌, ◌≡◌, refl, Bool, true, false, ◌&&◌, ◌||◌, ◌==◌, arith,
  Bool-cases, inl, inr,
}
use study_uafx.Base.Int.{ℤ}
use study_uafx.Base.Bits.{bit, bit_ℤ, bit_range, bit-bit_range, bit-flip}
use study_uafx.Trait.Set.{
  SetPattern, assigned, adjusted, Operator, op_and, op_or, TraitSet, fixed, write_bits,
  write_bit_range,
}

-- How a store of each kind makes the bits `y` of a variable from its bits `x`: an assignment, or
-- an update with & or | and the constant. Of other stores nothing is known.
abbrev pub Stores : SetPattern → Operator → ℤ → (ℕ → Bool) → (ℕ → Bool) → Type 0
Stores assigned op n x y = (i : ℕ) → y i ≡ bit_ℤ n i
Stores adjusted op_and n x y = (i : ℕ) → y i ≡ (x i && bit_ℤ n i)
Stores adjusted op_or n x y = (i : ℕ) → y i ≡ (x i || bit_ℤ n i)
Stores _ op n x y = Unit {0}

bit-zero : (j : ℕ) → bit 0 j ≡ false
unfolding bit
bit-zero zero = refl
bit-zero (suc j) = bit-zero j

bit-ones : (low len j : ℕ) → low + 1 ≡ 2 ^ len → j < len → bit low j ≡ true
bit-ones low len j e h =
    let q : low ≡ 2 ^ len - 1 - 0 % 2 ^ len = omega arith in rw (q, bit-flip 0 len j h, bit-zero j)

and-false : (b : Bool) → (b && false) ≡ false
and-false true = refl
and-false false = refl

or-true : (b : Bool) → (b || true) ≡ true
or-true true = refl
or-true false = refl

write_bits-Stores :
    (pat : SetPattern) (op : Operator) (n : ℤ) (st len r : ℕ) (x y : ℕ → Bool)
    → write_bits pat op (bit_range n st len) len ≡ fixed r
    → Stores pat op n x y
    → (j : ℕ) → j < len
    → y (st + j) ≡ bit r j
unfolding write_bits
write_bits-Stores assigned op n st len r x y h s j lt =
    let q : bit_range n st len ≡ r = cc in rw (s (st + j), ← bit-bit_range n st len j lt, q)
write_bits-Stores adjusted op_and n st len r x y h s j lt =
    elim (Bool-cases (bit_range n st len == 0)) [
      | inl clear ↦
          let r_zero : r ≡ 0 = ground (arith, clear) in
          let low_zero : bit_range n st len ≡ 0 = ground (arith, clear) in
          let bit_clear : bit_ℤ n (st + j) ≡ false =
            rw (← bit-bit_range n st len j lt, low_zero) (bit-zero j) in
          rw (s (st + j), bit_clear, r_zero, bit-zero j) (and-false (x (st + j)))
      | inr some_set ↦ ground (arith, some_set)
    ]
write_bits-Stores adjusted op_or n st len r x y h s j lt =
    elim (Bool-cases (bit_range n st len + 1 == 2 ^ len)) [
      | inl full ↦
          let r_low : bit_range n st len ≡ r = ground (arith, full) in
          let low_ones : bit_range n st len + 1 ≡ 2 ^ len = ground (arith, full) in
          let bit_set : bit_ℤ n (st + j) ≡ true =
            rw (← bit-bit_range n st len j lt) (bit-ones (bit_range n st len) len j low_ones lt) in
          let r_ones : bit r j ≡ true =
            rw (← r_low) (bit-ones (bit_range n st len) len j low_ones lt) in
          rw (s (st + j), bit_set, r_ones) (or-true (x (st + j)))
      | inr some_clear ↦ ground (arith, some_clear)
    ]
write_bits-Stores adjusted _ n st len r x y h s j lt = cc
write_bits-Stores _ op n st len r x y h s j lt = cc

-- When writeBitRange reports a result for the bits st .. st + len - 1, those bits of the variable
-- after the store are the bits of that result, whatever its bits were before.
pub write_bit_range-Stores :
    (t : TraitSet) (st len r : ℕ) (x y : ℕ → Bool)
    → write_bit_range t st len ≡ fixed r
    → Stores t.pat t.op t.n x y
    → (j : ℕ) → j < len
    → y (st + j) ≡ bit r j
unfolding write_bit_range
write_bit_range-Stores t st len r x y h =
    write_bits-Stores t.pat t.op t.n st len r x y (ground arith)
