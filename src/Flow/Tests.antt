-- ===== src/Flow/Tests.antt =====
-- A function of four blocks, 0 to 1 and 2, both to 3, with the instructions 2 b and 2 b + 1 in
-- block b: tests of the reachability code, and the theorems at concrete inputs.
use study_uafx.Base.{
  ◌+◌, ◌*◌, ◌/◌, ◌≡◌, refl, true, false, none, some, [], ◌∷◌, ltb, ◌==◌, if◌then◌else◌, arith,
  contains, select, inl, inr, Bool-cases, ◌⊎◌,
}
use study_uafx.Cfg.{Cfg, IsVerified}
use study_uafx.Flow.Ends.{is_potentially_reachable-Answers}
use study_uafx.Reach.{Answers, answer, reachable_from_many, visit, visit_stop, scan_block}
use study_uafx.Reach.Ends.{edges}
use study_uafx.Reach.Walk.{start, Arrives}
use study_uafx.Flow.Local.{Free}
use study_uafx.Flow.Decide.{Decides, Flows}
use study_uafx.Flow.Answers.{
  is_potentially_reachable-Decides, from_entry-Decides, to_return-Decides,
  is_potentially_reachable_conservative,
}
use study_uafx.Flow.{search, from_inst, is_potentially_reachable}

abbrev pub diamond : Cfg
diamond = record {
  parent = λ i. if ltb i 8 then some (i / 2) else none;
  insts = λ b. if ltb b 4 then 2 * b ∷ (2 * b + 1) ∷ [] else [];
  succs =
      λ b. if b == 0 then 1 ∷ 2 ∷ [] else if b == 1 then 3 ∷ [] else if b == 2 then 3 ∷ [] else [];
  func = λ b. 0;
  entry = λ f. 0;
  blocks = λ f. if f == 0 then 0 ∷ 1 ∷ 2 ∷ 3 ∷ [] else [];
  is_phi = λ i. false;
}

pub diamond-IsVerified : IsVerified diamond
unfolding contains
diamond-IsVerified = record {
  linked = λ b i. (λ h. ground arith, λ h. ground arith);
  once = λ b. elim (Bool-cases (ltb b 4)) [
    | inl low ↦ rw low (ground arith, (refl, tt))
    | inr high ↦ rw high tt
  ];
  owner = λ f b h. ground arith;
  owned = λ b i h. ground arith;
  closed = λ f b c h e. ground arith;
  entry_owned = λ f b h. ground arith;
  entry_top = λ f b. ground arith;
}

around_first : is_potentially_reachable diamond (some 0) (some 6) 0 (2 ∷ []) ≡ answer true
unfolding is_potentially_reachable search reachable_from_many edges visit visit_stop scan_block
    contains from_inst select
around_first = refl

around_both : is_potentially_reachable diamond (some 0) (some 6) 0 (2 ∷ 5 ∷ []) ≡ answer false
unfolding is_potentially_reachable search reachable_from_many edges visit visit_stop scan_block
    contains from_inst select
around_both = refl

is_potentially_reachable-Decides_example :
    Decides
      (is_potentially_reachable diamond (some 0) (some 6) 0 (2 ∷ []))
      (Flows diamond (2 ∷ []) 0 0 6)
unfolding contains
is_potentially_reachable-Decides_example =
    is_potentially_reachable-Decides diamond diamond-IsVerified (2 ∷ []) 0 3 0 6 refl refl refl refl
      refl

from_entry-Decides_example :
    Decides
      (is_potentially_reachable diamond none (some 6) 0 (2 ∷ 5 ∷ []))
      (Arrives diamond (some 6) (2 ∷ 5 ∷ []) (0 ∷ []))
unfolding contains
from_entry-Decides_example =
    from_entry-Decides diamond diamond-IsVerified (2 ∷ 5 ∷ []) 3 6 refl refl refl

to_return-Decides_example :
    Decides
      (is_potentially_reachable diamond (some 2) none 0 (4 ∷ []))
      (Free (4 ∷ []) (3 ∷ []) × ((false ≡ true) ⊎ Arrives diamond none (4 ∷ []) (3 ∷ [])))
to_return-Decides_example = to_return-Decides diamond diamond-IsVerified (4 ∷ []) 1 2 refl refl

is_potentially_reachable_conservative_example :
    is_potentially_reachable diamond (some 2) (some 7) 0 [] ≡ answer true
unfolding contains
is_potentially_reachable_conservative_example =
    is_potentially_reachable_conservative diamond diamond-IsVerified 1 3 2 7 refl refl refl
      (inr (inr (λ i h. refl, (3, start refl, (refl, inr (refl, inl refl))))))

is_potentially_reachable-Answers_example :
    Answers (is_potentially_reachable diamond (some 0) (some 6) 3 (2 ∷ 6 ∷ []))
is_potentially_reachable-Answers_example =
    is_potentially_reachable-Answers diamond diamond-IsVerified 3 (2 ∷ 6 ∷ []) (some 0) (some 6)
