-- ===== src/Reach/Ends.antt =====
-- The worklist loop of isPotentiallyReachableFromMany ends. A round pops one block and pushes the
-- successors of a block that it marks, so the edges out of the unmarked blocks bound the rounds.
use study_uafx.Base.{
  ℕ, zero, suc, ◌+◌, ◌-◌, ◌≤◌, ◌≡◌, refl, inl, inr, true, false, Option, none, some, List, [], ◌∷◌,
  ◌++◌, reverse, ◌==◌, if◌then◌else◌, ==_iff, ==_refl, Bool-cases, arith, contains, contains-append,
  contains-reverse, length, length-append, length-reverse,
}
use study_uafx.Cfg.{Cfg, IsVerified}
use study_uafx.Reach.Visit.{Judged, visit-Judged}
use study_uafx.Reach.{
  Answers, Verdict, found, killed, pruned, explored, trap, visit, Outcome, reachable_from_many,
}

module _ (g : Cfg) where
  -- The edges out of the blocks of a list that are not marked.
  unfoldable pub edges : List ℕ → List ℕ → ℕ
  edges visited [] = 0
  edges visited (b ∷ rest) =
      (if contains visited b then 0 else length (g.succs b)) + edges visited rest

  edges-mark-le :
      (visited : List ℕ) (b : ℕ) (all : List ℕ) → edges (b ∷ visited) all ≤ edges visited all
  unfolding edges contains
  edges-mark-le visited b [] = omega arith
  edges-mark-le visited b (c ∷ all) = ground (arith, edges-mark-le visited b all)

  edges-mark :
      (visited : List ℕ) (b : ℕ) (all : List ℕ)
      → contains visited b ≡ false
      → contains all b ≡ true
      → edges (b ∷ visited) all + length (g.succs b) ≤ edges visited all
  unfolding edges contains
  edges-mark visited b [] new m = cc
  edges-mark visited b (c ∷ all) new m = elim (Bool-cases (c == b)) [
    | inl same ↦
        let q : c ≡ b = (==_iff c b).0 same in
        rw q (ground (arith, ==_refl b, new, edges-mark-le visited b all))
    | inr other ↦ ground (arith, other, edges-mark visited b all)
  ]

  -- Every listed block, and every successor of one, is in `all`.
  abbrev pub Within : List ℕ → List ℕ → Type 0
  Within all work = (b : ℕ) → contains work b ≡ true → contains all b ≡ true

  abbrev pub IsClosed : List ℕ → Type 0
  IsClosed all =
      (b c : ℕ) → contains all b ≡ true → contains (g.succs b) c ≡ true → contains all c ≡ true

  Within-rest : (all : List ℕ) (b : ℕ) (work : List ℕ) → Within all (b ∷ work) → Within all work
  unfolding contains
  Within-rest all b work h c m = h c (ground arith)

  Within-head :
      (all : List ℕ) (b : ℕ) (work : List ℕ) → Within all (b ∷ work) → contains all b ≡ true
  unfolding contains
  Within-head all b work h = h b (ground (arith, ==_refl b))

  Within-explored :
      (all : List ℕ) (b : ℕ) (work : List ℕ)
      → IsClosed all
      → Within all (b ∷ work)
      → Within all (reverse (g.succs b) ++ work)
  unfolding contains
  Within-explored all b work closed h c m = elim (Bool-cases (contains (g.succs b) c)) [
    | inl edge ↦ closed b c (Within-head all b work h) edge
    | inr other ↦ h c (
        ground
          (arith, contains-append (reverse (g.succs b)) work c, contains-reverse (g.succs b) c))
  ]

module _ (g : Cfg) (stop : Option ℕ) (blocklist all : List ℕ) where
  abbrev run : ℕ → Option ℕ → List ℕ → List ℕ → Outcome
  run fuel limit visited work = reachable_from_many fuel g stop blocklist limit visited work

  ends_step :
      (fuel b : ℕ) (limit : Option ℕ) (visited work : List ℕ) (w : Verdict)
      → ((more : Option ℕ) (seen next : List ℕ)
          → Within g all next
          → edges g seen all + length next ≤ fuel
          → Answers (run fuel more seen next))
      → IsClosed g all
      → Within g all (b ∷ work)
      → edges g visited all + length work ≤ fuel
      → contains visited b ≡ false
      → visit g stop blocklist b ≡ w
      → Judged g stop blocklist b w
      → Answers (run (suc fuel) limit visited (b ∷ work))
  unfolding reachable_from_many
  ends_step fuel b limit visited work found ih closed h m new e j = rw (new, e) (true, refl)
  ends_step fuel b limit visited work killed ih closed h m new e j = rw (new, e) (false, refl)
  ends_step fuel b limit visited work trap ih closed h m new e j = absurd j
  ends_step fuel b limit visited work pruned ih closed h m new e j =
      rw (new, e)
        (ih limit (b ∷ visited) work (Within-rest g all b work h)
          (omega (arith, edges-mark g visited b all new (Within-head g all b work h))))
  ends_step fuel b none visited work explored ih closed h m new e j =
      rw (new, e)
        (ih none (b ∷ visited) (reverse (g.succs b) ++ work) (Within-explored g all b work closed h)
          (omega (
            arith,
            edges-mark g visited b all new (Within-head g all b work h),
            length-append (reverse (g.succs b)) work,
            length-reverse (g.succs b),
          )))
  ends_step fuel b (some n) visited work explored ih closed h m new e j =
      elim (Bool-cases (n - 1 == 0)) [
        | inl last ↦ rw (new, e, last) (true, refl)
        | inr more ↦
            rw (new, e, more)
              (ih (some (n - 1)) (b ∷ visited) (reverse (g.succs b) ++ work)
                (Within-explored g all b work closed h)
                (omega (
                  arith,
                  edges-mark g visited b all new (Within-head g all b work h),
                  length-append (reverse (g.succs b)) work,
                  length-reverse (g.succs b),
                )))
      ]

  -- With fuel for the blocks at hand and the edges still to follow, the loop answers.
  pub loop_ends :
      IsVerified g
      → IsClosed g all
      → (fuel : ℕ) (limit : Option ℕ) (visited work : List ℕ) → Within g all work
      → edges g visited all + length work ≤ fuel
      → Answers (run fuel limit visited work)
  unfolding reachable_from_many
  loop_ends v closed zero limit visited [] h m = (false, refl)
  loop_ends v closed zero limit visited (b ∷ work) h m = absurd (omega arith)
  loop_ends v closed (suc fuel) limit visited [] h m = (false, refl)
  loop_ends v closed (suc fuel) limit visited (b ∷ work) h m =
      elim (Bool-cases (contains visited b)) [
        | inl old ↦
            rw old (
              loop_ends v closed fuel limit visited work (Within-rest g all b work h) (omega arith))
        | inr new ↦
            ends_step fuel b limit visited work _ (loop_ends v closed fuel) closed h (omega arith)
              new refl (visit-Judged g blocklist b stop v)
      ]
