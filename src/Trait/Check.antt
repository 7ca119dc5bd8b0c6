-- ===== src/Trait/Check.antt =====
-- TraitCheck of Trait.h: the patterns, the other entity of the comparison, the conversion of an
-- LLVM predicate, and the decision whether a branch can be taken.
use study_uafx.Base.{
  ℕ, zero, suc, ◌+◌, ◌-◌, ◌/◌, ◌%◌, ◌^◌, Bool, true, false, not, Option, none, some, List, ◌==◌,
  if◌then◌else◌,
}
use study_uafx.Base.Int.{ℤ, ltb_ℤ, leb_ℤ, eqb_ℤ}

-- PT_DEF, PT_EQ, PT_NE, PT_LT, PT_LE, PT_GT, PT_GE and PT_SWITCH.
pub data CheckPattern : Type 0 where
  def eq ne lt le gt ge switch : CheckPattern

-- VAL_BM.
pub record BitMasked : Type 0 where
  pub mask : ℕ
  pub width : ℕ
  pub n : ℤ

-- ET_DEF, ET_VAR, ET_CONST, ET_EXP, ET_CONST_SET and ET_CONST_BM, each with its member of the
-- union; `none` is a null pointer.
pub data Entity : Type 0 where
  unknown expression : Entity
  variable : Option ℕ → Entity
  constant : ℤ → Entity
  constant_set : Option (List ℤ) → Entity
  constant_masked : Option BitMasked → Entity

pub record TraitCheck : Type 0 where
  pub pat : CheckPattern
  pub entity : Entity

-- CmpInst::Predicate.
pub data Predicate : Type 0 where
  fcmp_false fcmp_oeq fcmp_ogt fcmp_oge fcmp_olt fcmp_ole fcmp_one fcmp_ord : Predicate
  fcmp_uno fcmp_ueq fcmp_ugt fcmp_uge fcmp_ult fcmp_ule fcmp_une fcmp_true : Predicate
  icmp_eq icmp_ne icmp_ugt icmp_uge icmp_ult icmp_ule icmp_sgt icmp_sge icmp_slt icmp_sle :
      Predicate

unfoldable pub get_tc_pattern : Predicate → Bool → CheckPattern
get_tc_pattern fcmp_oeq reversed = eq
get_tc_pattern fcmp_ueq reversed = eq
get_tc_pattern icmp_eq reversed = eq
get_tc_pattern fcmp_ogt reversed = if reversed then lt else gt
get_tc_pattern fcmp_ugt reversed = if reversed then lt else gt
get_tc_pattern icmp_ugt reversed = if reversed then lt else gt
get_tc_pattern icmp_sgt reversed = if reversed then lt else gt
get_tc_pattern fcmp_oge reversed = if reversed then le else ge
get_tc_pattern fcmp_uge reversed = if reversed then le else ge
get_tc_pattern icmp_uge reversed = if reversed then le else ge
get_tc_pattern icmp_sge reversed = if reversed then le else ge
get_tc_pattern fcmp_olt reversed = if reversed then gt else lt
get_tc_pattern fcmp_ult reversed = if reversed then gt else lt
get_tc_pattern icmp_ult reversed = if reversed then gt else lt
get_tc_pattern icmp_slt reversed = if reversed then gt else lt
get_tc_pattern fcmp_ole reversed = if reversed then ge else le
get_tc_pattern fcmp_ule reversed = if reversed then ge else le
get_tc_pattern icmp_ule reversed = if reversed then ge else le
get_tc_pattern icmp_sle reversed = if reversed then ge else le
get_tc_pattern fcmp_one reversed = ne
get_tc_pattern fcmp_une reversed = ne
get_tc_pattern icmp_ne reversed = ne
get_tc_pattern fcmp_true reversed = def
get_tc_pattern fcmp_false reversed = def
get_tc_pattern fcmp_ord reversed = def
get_tc_pattern fcmp_uno reversed = def

abbrev pub eqb : Bool → Bool → Bool
eqb true b = b
eqb false b = not b

-- The check compares `ns` with `nc`; the wanted branch, the true one or not, cannot be taken.
unfoldable pub constant_check_fail : CheckPattern → ℤ → ℤ → Bool → Bool
constant_check_fail eq ns nc taken = eqb (not (eqb_ℤ ns nc)) taken
constant_check_fail ne ns nc taken = eqb (eqb_ℤ ns nc) taken
constant_check_fail gt ns nc taken = eqb (leb_ℤ ns nc) taken
constant_check_fail ge ns nc taken = eqb (ltb_ℤ ns nc) taken
constant_check_fail lt ns nc taken = eqb (leb_ℤ nc ns) taken
constant_check_fail le ns nc taken = eqb (ltb_ℤ nc ns) taken
constant_check_fail def ns nc taken = false
constant_check_fail switch ns nc taken = false

-- `start` and `last` of the scan of a mask; `open` is -1 in both.
pub data Range : Type 0 where
  unset : Range
  bits : ℕ → ℕ → Range

-- The loop over the bits of a mask, from bit `i` on, with the rounds left; `none` is the early
-- return at a gap.
unfoldable pub mask_loop : ℕ → ℕ → ℕ → Range → Option Range
mask_loop zero i mask r = some r
mask_loop (suc left) i mask unset =
    let set = mask_loop left (suc i) (mask / 2) (bits i i) in
    let clear = mask_loop left (suc i) (mask / 2) unset in if mask % 2 == 1 then set else clear
mask_loop (suc left) i mask (bits start last) =
    let grown = mask_loop left (suc i) (mask / 2) (bits start (suc last)) in
    let clear = mask_loop left (suc i) (mask / 2) (bits start last) in
    if mask % 2 == 1 then (if i == suc last then grown else none) else clear

-- `st` and `len`, as unsigned numbers; with no bit set, -1 wraps around.
abbrev pub range_of : Range → ℕ × ℕ
range_of unset = (2 ^ 32 - 1, 1)
range_of (bits start last) = (start, last - start + 1)

unfoldable pub is_cont_masked : TraitCheck → Option (ℕ × ℕ)
unfolding mask_loop
is_cont_masked tc = elim tc.entity [
  | unknown ↦ none
  | expression ↦ none
  | variable v ↦ none
  | constant n ↦ none
  | constant_set cset ↦ none
  | constant_masked bm ↦ elim bm [
    | none ↦ none
    | some m ↦ elim (mask_loop m.width 0 m.mask unset) [ none ↦ none | some r ↦ some (range_of r) ]
  ]
]
