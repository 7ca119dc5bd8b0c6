-- ===== src/Reach/Walk.antt =====
-- What the search of CFGUtils.cpp looks for, said without a worklist: walks from block to block
-- that meet no blocking instruction, and the block where such a walk arrives.
use study_uafx.Base.{ℕ, ◌≡◌, ◌⊎◌, true, false, Option, none, some, List, [], ◌∷◌, contains}
use study_uafx.Cfg.{Cfg, in_block}

-- No blocker lies in the block.
abbrev pub Clear : Cfg → List ℕ → ℕ → Type 0
Clear g blocklist b = (i : ℕ) → contains blocklist i ≡ true → in_block g b i ≡ false

-- `stop` occurs in the list, and no blocker stands before it.
abbrev pub Hits : ℕ → List ℕ → List ℕ → Type 0
Hits stop blocklist [] = ⊥
Hits stop blocklist (i ∷ rest) =
    (i ≡ stop) ⊎ ((contains blocklist i ≡ false) × Hits stop blocklist rest)

-- Where a walk may end: before `stop`, or in a block that returns from the function.
abbrev pub Goal : Cfg → Option ℕ → List ℕ → ℕ → Type 0
Goal g (some stop) blocklist b = (in_block g b stop ≡ true) × Hits stop blocklist (g.insts b)
Goal g none blocklist b = (g.succs b ≡ []) × Clear g blocklist b

-- The blocks that are entered from `roots` through clear blocks.
pub data Walk (g : Cfg) (blocklist roots : List ℕ) : ℕ → Type 0 where
  start : {b : ℕ} → contains roots b ≡ true → Walk g blocklist roots b
  next :
      {b c : ℕ}
      → Walk g blocklist roots b
      → Clear g blocklist b
      → contains (g.succs b) c ≡ true
      → Walk g blocklist roots c

-- A walk through clear blocks from `roots` to a goal.
abbrev pub Arrives : Cfg → Option ℕ → List ℕ → List ℕ → Type 0
Arrives g stop blocklist roots = (b : ℕ) × Walk g blocklist roots b × Goal g stop blocklist b

module _ {g : Cfg} {blocklist : List ℕ} where
  -- Roots may be replaced by walks that lead to them.
  pub Walk-trans :
      {xs ys : List ℕ} {c : ℕ}
      → ((b : ℕ) → contains xs b ≡ true → Walk g blocklist ys b)
      → Walk g blocklist xs c
      → Walk g blocklist ys c
  Walk-trans h (start m) = h _ m
  Walk-trans h (next w clear e) = next (Walk-trans h w) clear e

pub Arrives-trans :
    (g : Cfg) (stop : Option ℕ) (blocklist xs ys : List ℕ)
    → ((b : ℕ) → contains xs b ≡ true → Walk g blocklist ys b)
    → Arrives g stop blocklist xs
    → Arrives g stop blocklist ys
Arrives-trans g stop blocklist xs ys h (b, w, goal) = (b, Walk-trans h w, goal)
