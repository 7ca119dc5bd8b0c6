-- ===== src/Loc/Judge.antt =====
-- What the analyses ask of locations, as one interface, and the module's answers to it: the calls of
-- InstLoc::reachable, InstLoc::postDom and InstLoc::dom in SoundyAliasAnalysis.
use study_uafx.Base.{ℕ, Bool, true, false, ◌&&◌, Option, none, some, List, ◌==◌}
use study_uafx.Cfg.{Cfg}
use study_uafx.Context.{same_sites}
use study_uafx.Reach.{Outcome, answer, assert_failed, out_of_fuel}
use study_uafx.Loc.{Value, instruction, non_instruction, InstLoc}
use study_uafx.Loc.Dominance.{Trees, post_dom, dom}
use study_uafx.Loc.Paths.{reachable}

-- `post_dominates` is the strict question; `none` is a null location.
pub record Judge : Type 0 where
  pub reaches : InstLoc → Option InstLoc → List InstLoc → Bool
  pub post_dominates : InstLoc → Option InstLoc → Bool
  pub dominates : InstLoc → Option InstLoc → Bool → Bool

abbrev pub holds : Outcome → Bool
holds (answer r) = r
holds assert_failed = false
holds out_of_fuel = false

abbrev is_true : Option Bool → Bool
is_true none = false
is_true (some r) = r

unfoldable pub judge_of : Cfg → Trees → (ℕ → List ℕ) → Judge
unfolding reachable post_dom dom
judge_of g t idoms = record {
  reaches = λ this against blocklist. holds (reachable g idoms this against blocklist);
  post_dominates = λ this other. is_true (post_dom g t this other true);
  dominates = λ this other strict. is_true (dom g t this other strict);
}

-- Comparing two pointers to locations: one value under one context has one location.
unfoldable pub same_value : Value → Value → Bool
same_value (instruction i) (instruction j) = i == j
same_value (instruction i) (non_instruction n) = false
same_value (non_instruction m) (instruction j) = false
same_value (non_instruction m) (non_instruction n) = m == n

unfoldable pub same_loc : InstLoc → InstLoc → Bool
unfolding same_value same_sites
same_loc l m = same_value l.value m.value && same_sites l.ctx m.ctx

unfoldable pub same_opt_loc : Option InstLoc → Option InstLoc → Bool
unfolding same_loc
same_opt_loc none none = true
same_opt_loc none (some m) = false
same_opt_loc (some l) none = false
same_opt_loc (some l) (some m) = same_loc l m
