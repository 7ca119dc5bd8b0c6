-- ===== src/Loc/Tests.antt =====
-- Two functions: the blocks 0 to 3 of the first, 0 to 1 and 2, both to 3, and block 4 of the
-- second, with the instructions 2 b and 2 b + 1 in block b; instruction 2 calls the second.
use study_uafx.Base.{
  ℕ, zero, suc, ◌+◌, ◌*◌, ◌/◌, ◌≡◌, refl, ◌⊎◌, ◌↔◌, inl, inr, Bool, true, false, not, ◌||◌, none,
  some, List, [], ◌∷◌, ltb, ◌==◌, if◌then◌else◌, arith, contains, insert, select, Bool-cases,
}
use study_uafx.Cfg.{Cfg, IsVerified}
use study_uafx.Context.{CallSites, is_prefix}
use study_uafx.Reach.{Answers}
use study_uafx.Loc.{loc, has_ctx, diverge, func_of}
use study_uafx.Loc.Dominance.{Trees, post_dom, dom, share_func, site_at}
use study_uafx.Loc.Exclusive.{post_dom_exclusive}
use study_uafx.Loc.Shallow.{CallsOther, post_dom_shallow}
use study_uafx.Loc.Blockers.{bypass_call, get_blockers_in_curr_func}
use study_uafx.Loc.Exact.{Blocks, get_blockers_in_curr_func-exact}
use study_uafx.Loc.Paths.{reachable}
use study_uafx.Loc.Answers.{reachable-Answers}

abbrev calling : Cfg
calling = record {
  parent = λ i. if ltb i 10 then some (i / 2) else none;
  insts = λ b. if ltb b 5 then 2 * b ∷ (2 * b + 1) ∷ [] else [];
  succs =
      λ b. if b == 0 then 1 ∷ 2 ∷ [] else if b == 1 then 3 ∷ [] else if b == 2 then 3 ∷ [] else [];
  func = λ b. if ltb b 4 then 0 else 1;
  entry = λ f. if f == 0 then 0 else 4;
  blocks = λ f. if f == 0 then 0 ∷ 1 ∷ 2 ∷ 3 ∷ [] else if f == 1 then 4 ∷ [] else [];
  is_phi = λ i. false;
}

calling-IsVerified : IsVerified calling
unfolding contains
calling-IsVerified = record {
  linked = λ b i. (λ h. ground arith, λ h. ground arith);
  once = λ b. elim (Bool-cases (ltb b 5)) [
    | inl low ↦ rw low (ground arith, (refl, tt))
    | inr high ↦ rw high tt
  ];
  owner = λ f b h. ground arith;
  owned = λ b i h. ground arith;
  closed = λ f b c h e. ground arith;
  entry_owned = λ f b h. ground arith;
  entry_top = λ f b. ground arith;
}

abbrev main : CallSites
main = some 0 ∷ []

abbrev called : CallSites
called = some 0 ∷ some 2 ∷ some 8 ∷ []

-- The dominator trees of the two functions.
abbrev trees : Trees
trees = record { post_dominates = λ a b. a == 3 || a == b; dominates = λ a b. a == 0 || a == b }

abbrev idoms : ℕ → List ℕ
idoms b = if b == 0 || b == 4 then [] else 0 ∷ []

-- The blocker 9 in the callee stops the call at 2.
blocked_call :
    get_blockers_in_curr_func calling idoms (loc 3 main) (loc 9 called ∷ []) ≡ some (2 ∷ [])
unfolding get_blockers_in_curr_func is_prefix insert contains bypass_call select
blocked_call = refl

called-CallsOther : CallsOther calling called
unfolding share_func site_at func_of
called-CallsOther zero h = absurd (omega arith)
called-CallsOther (suc zero) h = refl
called-CallsOther (suc (suc zero)) h = absurd (omega arith)
called-CallsOther (suc (suc (suc k))) h = refl

post_dom_exclusive_example :
    (r : Bool) × (post_dom calling trees (loc 3 main) (some (loc 2 main)) true ≡ some r)
    × (dom calling trees (loc 2 main) (some (loc 3 main)) true ≡ some r)
    × (post_dom calling trees (loc 2 main) (some (loc 3 main)) true ≡ some (not r))
    × (dom calling trees (loc 3 main) (some (loc 2 main)) true ≡ some (not r))
post_dom_exclusive_example =
    post_dom_exclusive calling trees 1 main 2 3 true calling-IsVerified (omega arith) refl refl
      (omega arith) refl

post_dom_shallow_example : (diverge called main ≡ 3) ⊎ ((diverge called main ≡ 1) × (3 ≡ 1 + 2))
unfolding post_dom
post_dom_shallow_example =
    post_dom_shallow calling trees (loc 9 called) (loc 2 main) false called-CallsOther (omega arith)
      (omega arith) refl

get_blockers_in_curr_func-exact_example :
    (valid : List ℕ) × (get_blockers_in_curr_func calling idoms (loc 3 main) (loc 9 called ∷ [])
      ≡ some valid)
    × ((i : ℕ)
        → (contains valid i ≡ true)
          ↔ Blocks calling calling-IsVerified idoms (loc 3 main) (loc 9 called ∷ []) i)
unfolding has_ctx
get_blockers_in_curr_func-exact_example =
    get_blockers_in_curr_func-exact calling calling-IsVerified idoms (loc 3 main)
      (loc 9 called ∷ []) refl

reachable-Answers_example :
    Answers (reachable calling idoms (loc 7 main) (some (loc 8 called)) (loc 9 called ∷ []))
reachable-Answers_example =
    reachable-Answers calling calling-IsVerified idoms (loc 7 main) (loc 8 called)
      (loc 9 called ∷ []) (λ _. omega arith) (λ _. omega arith)
