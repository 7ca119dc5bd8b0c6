-- ===== src/Thread/Chain.antt =====
-- The locations of a thread as a trace: each reaches the next, and none stands there twice; and what
-- an insertion into a list does to both.
use study_uafx.Base.{
  ℕ, zero, suc, ◌≡◌, refl, Bool, true, false, not, ◌&&◌, ◌||◌, Option, none, some, List, [], ◌∷◌,
  arith, same_opt,
}
use study_uafx.Context.{CallSites, same_sites}
use study_uafx.Loc.{InstLoc, Value, instruction, non_instruction}
use study_uafx.Loc.Judge.{Judge, same_loc, same_value}

-- Whether a location can come right after another, or first.
unfoldable pub follows : Judge → Option InstLoc → InstLoc → Bool
follows w none l = true
follows w (some m) l = w.reaches l (some m) []

-- Whether each location reaches the next one, and `prev` the first one.
unfoldable pub is_chain_from : Judge → Option InstLoc → List InstLoc → Bool
unfolding follows
is_chain_from w prev [] = true
is_chain_from w prev (l ∷ ls) = follows w prev l && is_chain_from w (some l) ls

unfoldable pub has_loc : InstLoc → List InstLoc → Bool
unfolding same_loc
has_loc l [] = false
has_loc l (m ∷ ls) = same_loc m l || has_loc l ls

unfoldable pub is_distinct : List InstLoc → Bool
unfolding has_loc
is_distinct [] = true
is_distinct (l ∷ ls) = not (has_loc l ls) && is_distinct ls

unfoldable pub insert_loc_at : ℕ → InstLoc → List InstLoc → List InstLoc
insert_loc_at zero l ls = l ∷ ls
insert_loc_at (suc i) l [] = l ∷ []
insert_loc_at (suc i) l (m ∷ ls) = m ∷ insert_loc_at i l ls

same_value_comm : (u v : Value) → same_value u v ≡ same_value v u
unfolding same_value
same_value_comm (instruction i) (instruction j) = ground arith
same_value_comm (instruction i) (non_instruction n) = refl
same_value_comm (non_instruction m) (instruction j) = refl
same_value_comm (non_instruction m) (non_instruction n) = ground arith

same_opt_comm : (a b : Option ℕ) → same_opt a b ≡ same_opt b a
same_opt_comm none none = refl
same_opt_comm none (some b) = refl
same_opt_comm (some a) none = refl
same_opt_comm (some a) (some b) = ground arith

same_sites_comm : (c d : CallSites) → same_sites c d ≡ same_sites d c
unfolding same_sites
same_sites_comm [] [] = refl
same_sites_comm [] (b ∷ d) = refl
same_sites_comm (a ∷ c) [] = refl
same_sites_comm (a ∷ c) (b ∷ d) = rw (same_opt_comm a b, same_sites_comm c d) refl

pub same_loc_comm : (l m : InstLoc) → same_loc l m ≡ same_loc m l
unfolding same_loc
same_loc_comm l m = rw (same_value_comm l.value m.value, same_sites_comm l.ctx m.ctx) refl

pub has_loc-insert_loc_at :
    (a l : InstLoc) (i : ℕ) (ls : List InstLoc)
    → has_loc a (insert_loc_at i l ls) ≡ (same_loc l a || has_loc a ls)
unfolding has_loc insert_loc_at
has_loc-insert_loc_at a l zero ls = refl
has_loc-insert_loc_at a l (suc i) [] = refl
has_loc-insert_loc_at a l (suc i) (m ∷ ls) = ground (arith, has_loc-insert_loc_at a l i ls)

-- A location that is not there yet can be inserted anywhere.
pub insert_loc_at-is_distinct :
    (l : InstLoc) (i : ℕ) (ls : List InstLoc)
    → is_distinct ls ≡ true
    → has_loc l ls ≡ false
    → is_distinct (insert_loc_at i l ls) ≡ true
unfolding is_distinct has_loc insert_loc_at
insert_loc_at-is_distinct l zero ls d h = ground (arith, d, h)
insert_loc_at-is_distinct l (suc i) [] d h = refl
insert_loc_at-is_distinct l (suc i) (m ∷ ls) d h = ground (
  arith,
  d,
  h,
  insert_loc_at-is_distinct l i ls,
  has_loc-insert_loc_at m l i ls,
  same_loc_comm l m,
)
