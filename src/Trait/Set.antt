-- ===== src/Trait/Set.antt =====
-- TraitSet of Trait.h: what a store makes of a variable, and which branches it closes. Shifts that
-- C++ leaves undefined are answered by `undefined`.
use study_uafx.Base.{
  ℕ, suc, ◌+◌, ◌*◌, ◌%◌, ◌^◌, Bool, true, false, not, ◌||◌, Option, none, some, List, [], ◌∷◌, ◌==◌,
  ltb, leb, if◌then◌else◌,
}
use study_uafx.Base.Int.{ℤ, eqb_ℤ, to_unsigned, to_int}
use study_uafx.Base.Bits.{bit_range}
use study_uafx.Trait.Check.{
  CheckPattern, BitMasked, unknown, expression, variable, constant, constant_set, constant_masked,
  TraitCheck, constant_check_fail, is_cont_masked,
}

-- PT_DEF, PT_CONST, PT_ADJ, PT_VAR and PT_CONST_UNK.
pub data SetPattern : Type 0 where
  default assigned adjusted untraced assigned_unknown : SetPattern

-- OP_DEF, OP_ADD, OP_SUB, OP_MUL, OP_DIV, OP_MOD, OP_AND, OP_OR, OP_XOR, OP_SHL and OP_SHR.
pub data Operator : Type 0 where
  op_def op_add op_sub op_mul op_div op_mod op_and op_or op_xor op_shl op_shr : Operator

pub record TraitSet : Type 0 where
  pub pat : SetPattern
  pub n : ℤ
  pub op : Operator

pub data Write : Type 0 where
  -- the function returns false
  untouched : Write
  -- it returns true, with the result
  fixed : ℕ → Write
  -- a shift by at least the width of int
  undefined : Write

-- The result for the bits `low` of the constant in a range of `len` bits.
unfoldable pub write_bits : SetPattern → Operator → ℕ → ℕ → Write
write_bits assigned op low len = fixed low
write_bits adjusted op_and low len = if low == 0 then fixed 0 else untouched
write_bits adjusted op_or low len = if low + 1 == 2 ^ len then fixed low else untouched
write_bits adjusted _ low len = untouched
write_bits _ op low len = untouched

unfoldable pub write_bit_range : TraitSet → ℕ → ℕ → Write
unfolding write_bits
write_bit_range s st len =
    if leb 128 st || ltb 128 len || len == 0
    then untouched
    else if leb 32 st || leb 31 len
    then undefined
    else write_bits s.pat s.op (bit_range s.n st len) len

-- The loop of the switch case: the index of the first case of a value, or their number.
unfoldable pub case_index : List ℤ → ℤ → ℕ
case_index [] ns = 0
case_index (c ∷ cset) ns = let later = case_index cset ns in if eqb_ℤ c ns then 0 else suc later

unfoldable pub is_assigned : SetPattern → Bool
is_assigned assigned = true
is_assigned _ = false

-- Whether the set closes the branch `dst` of a masked check on the bits st .. st + len - 1.
unfoldable pub kill_masked : TraitSet → CheckPattern → BitMasked → ℕ → ℕ → ℕ → Option Bool
unfolding write_bit_range
kill_masked s pat bm dst st len = elim (write_bit_range s st len) [
  | untouched ↦ some false
  | undefined ↦ none
  | fixed ns ↦ some (
      constant_check_fail pat (to_int (ns * 2 ^ st % 2 ^ 32)) (to_int (to_unsigned bm.n))
        (dst == 0))
]

-- `none` is an undefined shift.
unfoldable pub kill : TraitSet → Option TraitCheck → ℕ → Option Bool
unfolding case_index is_assigned kill_masked
kill s none dst = some false
kill s (some tc) dst = elim tc.entity [
  | unknown ↦ some false
  | expression ↦ some false
  | variable v ↦ some false
  | constant nc ↦
      some (if is_assigned s.pat then constant_check_fail tc.pat s.n nc (dst == 0) else false)
  | constant_set cset ↦ elim cset [
    | none ↦ some false
    | some cs ↦ some (if is_assigned s.pat then not (case_index cs s.n == dst) else false)
  ]
  | constant_masked bm ↦ elim bm [
    | none ↦ some false
    | some m ↦ elim (is_cont_masked tc) [
      | none ↦ some false
      | some (st, len) ↦ kill_masked s tc.pat m dst st len
    ]
  ]
]
