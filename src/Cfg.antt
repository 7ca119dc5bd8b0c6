-- ===== src/Cfg.antt =====
-- The LLVM view of a module that Utils/src/CFGUtils.cpp works on. LLVM owns these objects, so
-- they are an argument of every definition; instructions, blocks and functions are numbers, the
-- non-null pointers, and `Option` marks the pointers that may be null.
use study_uafx.Base.{
  ℕ, ◌≡◌, ◌↔◌, Bool, true, false, Option, some, List, [], ◌∷◌, contains, same_opt, same_opt_iff,
}

pub record Cfg : Type 0 where
  -- Instruction::getParent(); null for an instruction that is in no block
  pub parent : ℕ → Option ℕ
  -- the instructions of a block, in order
  pub insts : ℕ → List ℕ
  -- succ_begin .. succ_end
  pub succs : ℕ → List ℕ
  -- BasicBlock::getParent()
  pub func : ℕ → ℕ
  -- Function::getEntryBlock()
  pub entry : ℕ → ℕ
  -- the blocks of a function
  pub blocks : ℕ → List ℕ
  -- isa<PHINode>
  pub is_phi : ℕ → Bool

-- Whether an instruction is in a block.
abbrev pub in_block : Cfg → ℕ → ℕ → Bool
in_block g b i = same_opt (g.parent i) (some b)

-- No instruction is listed twice.
abbrev pub IsOnce : List ℕ → Type 0
IsOnce [] = Unit {0}
IsOnce (i ∷ rest) = (contains rest i ≡ false) × IsOnce rest

-- What LLVM's verifier guarantees of a module: the parent links and the instruction lists agree,
-- successors are blocks of the same function, and no branch leads to an entry block.
pub record IsVerified (g : Cfg) : Type 0 where
  pub linked : (b i : ℕ) → (g.parent i ≡ some b) ↔ (contains (g.insts b) i ≡ true)
  pub once : (b : ℕ) → IsOnce (g.insts b)
  pub owner : (f b : ℕ) → contains (g.blocks f) b ≡ true → g.func b ≡ f
  pub owned : (b i : ℕ) → g.parent i ≡ some b → contains (g.blocks (g.func b)) b ≡ true
  pub closed :
      (f b c : ℕ)
      → contains (g.blocks f) b ≡ true
      → contains (g.succs b) c ≡ true
      → contains (g.blocks f) c ≡ true
  pub entry_owned :
      (f b : ℕ) → contains (g.blocks f) b ≡ true → contains (g.blocks f) (g.entry f) ≡ true
  pub entry_top : (f b : ℕ) → contains (g.succs b) (g.entry f) ≡ false

module _ (g : Cfg) where
  pub in_block_iff : (b i : ℕ) → (in_block g b i ≡ true) ↔ (g.parent i ≡ some b)
  in_block_iff b i = same_opt_iff (g.parent i) (some b)

  -- An instruction lies in one block.
  pub in_block_unique : (b c i : ℕ) → in_block g b i ≡ true → in_block g c i ≡ true → b ≡ c
  in_block_unique b c i p q = cc ((in_block_iff b i).0 p, (in_block_iff c i).0 q)

  pub in_block_of_mem :
      IsVerified g → (b i : ℕ) → contains (g.insts b) i ≡ true → in_block g b i ≡ true
  in_block_of_mem v b i m = (in_block_iff b i).1 ((v.linked b i).1 m)
