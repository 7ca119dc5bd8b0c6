-- ===== src/Reach/Sound.antt =====
-- The worklist loop of isPotentiallyReachableFromMany: when it answers true, a walk arrives.
use study_uafx.Base.{
  ℕ, zero, suc, ◌≡◌, refl, inl, inr, true, false, Option, none, List, [], ◌∷◌, ◌++◌, reverse,
  ==_refl, Bool-cases, arith, contains, contains-append, contains-reverse,
}
use study_uafx.Cfg.{Cfg, IsVerified}
use study_uafx.Reach.Walk.{Clear, Walk, start, next, Arrives, Arrives-trans}
use study_uafx.Reach.Visit.{Judged, visit-Judged}
use study_uafx.Reach.{
  Verdict, found, killed, pruned, explored, trap, visit, Outcome, answer, reachable_from_many,
}

module _ (g : Cfg) (stop : Option ℕ) (blocklist : List ℕ) where
  abbrev run : ℕ → Option ℕ → List ℕ → List ℕ → Outcome
  run fuel limit visited work = reachable_from_many fuel g stop blocklist limit visited work

  -- Every root of the rest and of the successors is entered from `b ∷ work`.
  Walk-explored :
      (b : ℕ) (work : List ℕ)
      → Clear g blocklist b
      → (c : ℕ) → contains (reverse (g.succs b) ++ work) c ≡ true
      → Walk g blocklist (b ∷ work) c
  unfolding contains
  Walk-explored b work clear c m = elim (Bool-cases (contains (g.succs b) c)) [
    | inl edge ↦ next (start (ground (arith, ==_refl b))) clear edge
    | inr other ↦ start (
        ground
          (arith, contains-append (reverse (g.succs b)) work c, contains-reverse (g.succs b) c))
  ]

  Walk-rest :
      (b : ℕ) (work : List ℕ) (c : ℕ) → contains work c ≡ true → Walk g blocklist (b ∷ work) c
  unfolding contains
  Walk-rest b work c m = start (ground arith)

  sound_step :
      (fuel b : ℕ) (visited work : List ℕ) (w : Verdict)
      → ((seen more : List ℕ)
          → run fuel none seen more ≡ answer true
          → Arrives g stop blocklist more)
      → contains visited b ≡ false
      → visit g stop blocklist b ≡ w
      → Judged g stop blocklist b w
      → run (suc fuel) none visited (b ∷ work) ≡ answer true
      → Arrives g stop blocklist (b ∷ work)
  unfolding reachable_from_many contains
  sound_step fuel b visited work found ih new e j h = (b, start (ground (arith, ==_refl b)), j)
  sound_step fuel b visited work killed ih new e j h =
      let k : answer false ≡ answer true = (rw (new, e) at h) in cc
  sound_step fuel b visited work trap ih new e j h = absurd j
  sound_step fuel b visited work pruned ih new e j h =
      Arrives-trans g stop blocklist work (b ∷ work) (Walk-rest b work)
        (ih (b ∷ visited) work (rw (new, e) at h))
  sound_step fuel b visited work explored ih new e j h =
      Arrives-trans g stop blocklist _ (b ∷ work) (Walk-explored b work j.0)
        (ih (b ∷ visited) (reverse (g.succs b) ++ work) (rw (new, e) at h))

  pub loop_sound :
      IsVerified g
      → (fuel : ℕ) (visited work : List ℕ) → run fuel none visited work ≡ answer true
      → Arrives g stop blocklist work
  unfolding reachable_from_many
  loop_sound v zero visited [] h = cc
  loop_sound v zero visited (b ∷ work) h = cc
  loop_sound v (suc fuel) visited [] h = cc
  loop_sound v (suc fuel) visited (b ∷ work) h = elim (Bool-cases (contains visited b)) [
    | inl old ↦
        Arrives-trans g stop blocklist work (b ∷ work) (Walk-rest b work)
          (loop_sound v fuel visited work (rw old at h))
    | inr new ↦
        sound_step fuel b visited work _ (loop_sound v fuel) new refl
          (visit-Judged g blocklist b stop v) h
  ]
