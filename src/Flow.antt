-- ===== src/Flow.antt =====
-- isReachableInBB and isPotentiallyReachable of
-- llvm_analysis/MainAnalysisPasses/Utils/src/CFGUtils.cpp: from one instruction to another of the
-- same function, around blocking instructions. `none` is a null pointer: no `A` is the function's
-- entry, no `B` is any return. The fuel is enough for every block of the function (Reach.Ends).
pub mod Local
pub mod Decide
pub mod Answers
pub mod Ends
pub mod Tests
use study_uafx.Base.{
  ℕ, zero, suc, ◌+◌, Bool, true, false, not, ◌&&◌, ◌||◌, Option, none, some, List, [], ◌∷◌, ◌==◌,
  if◌then◌else◌, contains, length, reverse, is_empty, same_opt,
}
use study_uafx.Cfg.{Cfg, in_block}
use study_uafx.Reach.{Outcome, answer, reachable_from_many}
use study_uafx.Reach.Ends.{edges}

-- The iterator range from an instruction to the end of its block.
unfoldable pub from_inst : ℕ → List ℕ → List ℕ
from_inst i [] = []
from_inst i (x ∷ rest) = if x == i then x ∷ rest else from_inst i rest

pub is_reachable_in_bb : Cfg → ℕ → ℕ → Bool
is_reachable_in_bb g a b = elim (g.parent a) [
  | none ↦ false
  | some block ↦ in_block g block b && contains (from_inst a (g.insts block)) b
]

-- Whether some blocker passes a test.
pub any_of : (ℕ → Bool) → List ℕ → Bool
any_of p [] = false
any_of p (x ∷ xs) = p x || any_of p xs

-- An unsigned limit, where 0 means none.
abbrev pub limit_of : ℕ → Option ℕ
limit_of zero = none
limit_of (suc n) = some (suc n)

-- The standard path search, over the blocks of the function of `block`.
pub search : Cfg → ℕ → Option ℕ → ℕ → List ℕ → List ℕ → Outcome
search g block stop limit blocklist work =
    reachable_from_many (edges g [] (g.blocks (g.func block)) + length work) g stop blocklist
      (limit_of limit) [] work

-- Whether a blocker stands before `b`, or is `b`, in the block of `b`.
pub blocked_before : Cfg → ℕ → ℕ → List ℕ → Bool
unfolding is_reachable_in_bb any_of
blocked_before g block b blocklist =
    any_of (λ i. in_block g block i && is_reachable_in_bb g i b) blocklist

-- `A` is null.
pub from_entry : Cfg → ℕ → ℕ → ℕ → List ℕ → Outcome
unfolding blocked_before search
from_entry g block b limit blocklist =
    if is_empty blocklist
    then answer true
    else if blocked_before g block b blocklist
    then answer false
    else search g block (some b) limit blocklist (g.entry (g.func block) ∷ [])

-- `B` is null.
pub to_return : Cfg → ℕ → ℕ → ℕ → List ℕ → Outcome
unfolding is_reachable_in_bb any_of search
to_return g block a limit blocklist =
    if is_empty blocklist
    then answer true
    else if any_of (λ i. in_block g block i && not (i == a) && is_reachable_in_bb g a i) blocklist
    then answer false
    else if is_empty (g.succs block)
    then answer true
    else search g block none limit blocklist (reverse (g.succs block))

-- How the scan from `A` to the end of its block ends.
pub data Exit : Type 0 where
  arrived blocked left : Exit

pub leave : ℕ → ℕ → List ℕ → List ℕ → Exit
leave a b blocklist [] = left
leave a b blocklist (i ∷ rest) =
    let further = leave a b blocklist rest in
    if i == b then arrived else if not (i == a) && contains blocklist i then blocked else further

-- Past the block of `A`.
pub beyond : Cfg → ℕ → ℕ → ℕ → ℕ → List ℕ → Outcome
unfolding blocked_before search
beyond g from to b limit blocklist =
    if from == to && from == g.entry (g.func from)
    then answer false
    else if is_empty (g.succs from)
    then answer false
    else if not (is_empty blocklist) && blocked_before g to b blocklist
    then answer false
    else search g from (some b) limit blocklist (reverse (g.succs from))

-- From `A` through its own block.
pub straight : Cfg → ℕ → ℕ → ℕ → ℕ → ℕ → List ℕ → Outcome
unfolding leave beyond
straight g from to a b limit blocklist = elim (leave a b blocklist (from_inst a (g.insts from))) [
  | arrived ↦ answer true
  | blocked ↦ answer false
  | left ↦ beyond g from to b limit blocklist
]

-- Both are given, in blocks of one function.
pub between : Cfg → ℕ → ℕ → ℕ → ℕ → ℕ → List ℕ → Outcome
unfolding straight
between g from to a b limit blocklist =
    if is_empty blocklist && not (from == to) && from == g.entry (g.func from)
    then answer true
    else if is_empty blocklist && not (from == to) && to == g.entry (g.func from)
    then answer false
    else straight g from to a b limit blocklist

unfoldable pub is_potentially_reachable : Cfg → Option ℕ → Option ℕ → ℕ → List ℕ → Outcome
unfolding from_entry to_return between
is_potentially_reachable g none none limit blocklist = answer true
is_potentially_reachable g none (some b) limit blocklist = elim (g.parent b) [
  | none ↦ answer true
  | some to ↦ from_entry g to b limit blocklist
]
is_potentially_reachable g (some a) none limit blocklist = elim (g.parent a) [
  | none ↦ answer true
  | some from ↦ to_return g from a limit blocklist
]
is_potentially_reachable g (some a) (some b) limit blocklist = elim (g.parent a) [
  | none ↦ answer true
  | some from ↦ elim (g.parent b) [
    | none ↦ answer true
    | some to ↦
        if g.func from == g.func to then between g from to a b limit blocklist else answer false
  ]
]
