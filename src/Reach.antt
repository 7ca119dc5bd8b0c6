-- ===== src/Reach.antt =====
-- Reachability inside one function around blocking instructions: the functions
-- isPotentiallyReachableFromMany, isReachableInBB and isPotentiallyReachable of
-- llvm_analysis/MainAnalysisPasses/Utils/src/CFGUtils.cpp. Sets hold non-null pointers: each use
-- of a set in that code skips the null ones. A missing block list and an empty one are treated
-- alike by the code, so the list is empty in both cases.
pub mod Walk
pub mod Visit
pub mod Sound
pub mod Complete
pub mod Ends
use study_uafx.Base.{
  ◌≡◌, ℕ, zero, suc, ◌-◌, Bool, true, false, not, ◌&&◌, ◌||◌, Option, none, some, List, [], ◌∷◌,
  ◌++◌, reverse, ltb, ◌==◌, if◌then◌else◌, select, contains, is_empty, same_opt,
}
use study_uafx.Cfg.{Cfg, in_block}

-- What the visit of one block decides: the search returns true, or false; the path ends here; or
-- the search goes on to the successors. `trap` is a failed assertion.
pub data Verdict : Type 0 where
  found killed pruned explored trap : Verdict

-- The scan for `Stop` and the blockers before it in its block.
unfoldable pub scan_block : ℕ → List ℕ → List ℕ → Verdict
scan_block stop blockers [] = trap
scan_block stop blockers (i ∷ rest) =
    let later = scan_block stop blockers rest in
    if i == stop then found else if contains blockers i then killed else later

-- The blockers that lie in a block.
unfoldable pub blockers_in : Cfg → List ℕ → ℕ → List ℕ
blockers_in g blocklist b = select (in_block g b) blocklist

unfoldable pub visit_stop : Cfg → ℕ → List ℕ → ℕ → Verdict
unfolding blockers_in
visit_stop g stop blocklist b =
    let valid = blockers_in g blocklist b in
    if not (in_block g b stop)
    then (if is_empty valid then explored else pruned)
    else if is_empty valid
    then found
    else scan_block stop valid (g.insts b)

unfoldable pub visit_return : Cfg → List ℕ → ℕ → Verdict
unfolding blockers_in
visit_return g blocklist b =
    let valid = blockers_in g blocklist b in
    if is_empty (g.succs b)
    then (if is_empty valid then found else pruned)
    else if is_empty valid
    then explored
    else pruned

unfoldable pub visit : Cfg → Option ℕ → List ℕ → ℕ → Verdict
visit g (some stop) blocklist b = visit_stop g stop blocklist b
visit g none blocklist b = visit_return g blocklist b

pub data Outcome : Type 0 where
  answer : Bool → Outcome
  assert_failed : Outcome
  out_of_fuel : Outcome

abbrev pub Answers : Outcome → Type 0
Answers o = (r : Bool) × (o ≡ answer r)

-- The do-while loop. The head of `work` is the back of the vector; an empty `limit` is "no limit".
unfoldable pub reachable_from_many :
    ℕ → Cfg → Option ℕ → List ℕ → Option ℕ → List ℕ → List ℕ → Outcome
reachable_from_many fuel g stop blocklist limit visited [] = answer false
reachable_from_many zero g stop blocklist limit visited (b ∷ work) = out_of_fuel
reachable_from_many (suc fuel) g stop blocklist limit visited (b ∷ work) =
    let again = reachable_from_many fuel g stop blocklist limit visited work in
    let dropped = reachable_from_many fuel g stop blocklist limit (b ∷ visited) work in
    let deeper = λ (next : Option ℕ).
      reachable_from_many fuel g stop blocklist next (b ∷ visited) (reverse (g.succs b) ++ work) in
    if contains visited b then again else elim (visit g stop blocklist b) [
      | found ↦ answer true
      | killed ↦ answer false
      | trap ↦ assert_failed
      | pruned ↦ dropped
      | explored ↦ elim limit [
        | none ↦ deeper none
        | some n ↦ if n - 1 == 0 then answer true else deeper (some (n - 1))
      ]
    ]
