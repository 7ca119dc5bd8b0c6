-- ===== src/Loc.antt =====
-- Instruction locations: the class InstLoc of
-- llvm_analysis/MainAnalysisPasses/Utils/include/CFGUtils.h and its members in Utils/src/CFGUtils.cpp.
-- One list of call sites has one context (Context.Directory), so a location holds the call sites of
-- its context; the empty list is a null context.
pub mod Dominance
pub mod Shallow
pub mod Exclusive
pub mod Blockers
pub mod Bypass
pub mod Placed
pub mod Holds
pub mod Steps
pub mod Exact
pub mod Paths
pub mod Answers
pub mod Judge
mod Tests
use study_uafx.Base.{
  ℕ, zero, suc, ◌+◌, Bool, true, false, not, ◌&&◌, Option, none, some, List, [], ◌∷◌, is_empty,
  same_opt, if◌then◌else◌,
}
use study_uafx.Cfg.{Cfg}
use study_uafx.Context.{CallSites, PrefixResult, unrelated, identical, is_prefix}

-- A Value*: an instruction, or something that is none.
pub data Value : Type 0 where
  instruction non_instruction : ℕ → Value

-- dyn_cast<Instruction>.
abbrev pub as_inst : Value → Option ℕ
as_inst (instruction i) = some i
as_inst (non_instruction n) = none

pub record InstLoc : Type 0 where
  pub value : Value
  pub ctx : CallSites

-- The location of an instruction.
abbrev pub loc : ℕ → CallSites → InstLoc
loc i c = record { value = instruction i; ctx = c }

unfoldable pub has_ctx : InstLoc → Bool
has_ctx l = not (is_empty l.ctx)

-- isCtxPrefix. The source is undefined for a location without a context against one that has it.
unfoldable pub is_ctx_prefix : InstLoc → InstLoc → PrefixResult
unfolding has_ctx
is_ctx_prefix this other =
    if not (has_ctx other)
    then (if has_ctx this then unrelated else identical)
    else is_prefix this.ctx (some other.ctx)

-- The loop to the first index at which two contexts differ.
unfoldable pub diverge : CallSites → CallSites → ℕ
diverge [] d = 0
diverge (a ∷ c) [] = 0
diverge (a ∷ c) (b ∷ d) = let further = diverge c d in if same_opt a b then suc further else 0

-- Instruction::getFunction().
unfoldable pub func_of : Cfg → ℕ → Option ℕ
func_of g i = elim (g.parent i) [ none ↦ none | some b ↦ some (g.func b) ]

-- getFunc of a location.
unfoldable pub get_func : Cfg → InstLoc → Option ℕ
unfolding func_of
get_func g l = elim (as_inst l.value) [ none ↦ none | some i ↦ func_of g i ]
