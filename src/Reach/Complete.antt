-- ===== src/Reach/Complete.antt =====
-- The worklist loop of isPotentiallyReachableFromMany: when it answers false, no walk arrives.
use study_uafx.Base.{
  ℕ, zero, suc, ◌≡◌, refl, sym, subst, inl, inr, true, false, ◌||◌, Option, none, some, ◌-◌, ◌==◌,
  List, [], ◌∷◌, ◌++◌, reverse, ◌==◌, ==_iff, Bool-cases, arith, contains, contains-append,
  contains-reverse,
}
use study_uafx.Cfg.{Cfg, IsVerified}
use study_uafx.Reach.Walk.{Clear, Goal, Walk, start, next, Arrives}
use study_uafx.Reach.Visit.{Judged, visit-Judged}
use study_uafx.Reach.{
  Verdict, found, killed, pruned, explored, trap, visit, Outcome, answer, reachable_from_many,
}

module _ (g : Cfg) (stop : Option ℕ) (blocklist : List ℕ) where
  abbrev run : ℕ → Option ℕ → List ℕ → List ℕ → Outcome
  run fuel limit visited work = reachable_from_many fuel g stop blocklist limit visited work

  -- What is known of the visited blocks: none is a goal, and their successors are at hand.
  pub record Covered (visited work : List ℕ) : Type 0 where
    pub no_goal : (b : ℕ) → contains visited b ≡ true → ¬ Goal g stop blocklist b
    pub at_hand :
        (b c : ℕ)
        → contains visited b ≡ true
        → Clear g blocklist b
        → contains (g.succs b) c ≡ true
        → (contains visited c || contains work c) ≡ true

  abbrev pub Roots : List ℕ → List ℕ → List ℕ → Type 0
  Roots roots visited work =
      (b : ℕ) → contains roots b ≡ true → (contains visited b || contains work b) ≡ true

  Covered-rest :
      (visited : List ℕ) (b : ℕ) (work : List ℕ)
      → contains visited b ≡ true
      → (c : ℕ) → (contains visited c || contains (b ∷ work) c) ≡ true
      → (contains visited c || contains work c) ≡ true
  unfolding contains
  Covered-rest visited b work old c h = elim (Bool-cases (b == c)) [
    | inl same ↦ let q : b ≡ c = (==_iff b c).0 same in rw (← q) (ground (arith, old))
    | inr other ↦ ground (arith, other)
  ]

  -- A block moves from the worklist to the visited set; its successors may be added.
  Covered-moved :
      (visited : List ℕ) (b : ℕ) (work more : List ℕ)
      → (c : ℕ) → (contains visited c || contains (b ∷ work) c) ≡ true
      → (contains (b ∷ visited) c || contains (more ++ work) c) ≡ true
  unfolding contains
  Covered-moved visited b work more c h = ground (arith, contains-append more work c)

  Covered-pruned :
      (visited : List ℕ) (b : ℕ) (work : List ℕ)
      → (¬ Clear g blocklist b)
      → (¬ Goal g stop blocklist b)
      → Covered visited (b ∷ work)
      → Covered (b ∷ visited) work
  unfolding contains
  Covered-pruned visited b work shut miss inv = record {
    no_goal = λ c m. elim (Bool-cases (b == c)) [
      | inl same ↦ subst (λ d. ¬ Goal g stop blocklist d) ((==_iff b c).0 same) miss
      | inr other ↦ inv.no_goal c (ground (arith, other))
    ];
    at_hand = λ c d m clear e. elim (Bool-cases (b == c)) [
      | inl same ↦ absurd (subst (λ x. ¬ Clear g blocklist x) ((==_iff b c).0 same) shut clear)
      | inr other ↦
          Covered-moved visited b work [] d (inv.at_hand c d (ground (arith, other)) clear e)
    ];
  }

  Covered-explored :
      (visited : List ℕ) (b : ℕ) (work : List ℕ)
      → (¬ Goal g stop blocklist b)
      → Covered visited (b ∷ work)
      → Covered (b ∷ visited) (reverse (g.succs b) ++ work)
  unfolding contains
  Covered-explored visited b work miss inv = record {
    no_goal = λ c m. elim (Bool-cases (b == c)) [
      | inl same ↦ subst (λ d. ¬ Goal g stop blocklist d) ((==_iff b c).0 same) miss
      | inr other ↦ inv.no_goal c (ground (arith, other))
    ];
    at_hand = λ c d m clear e. elim (Bool-cases (b == c)) [
      | inl same ↦
          let edge = subst (λ x. contains (g.succs x) d ≡ true) (sym ((==_iff b c).0 same)) e in
          ground (
            arith,
            edge,
            contains-append (reverse (g.succs b)) work d,
            contains-reverse (g.succs b) d,
          )
      | inr other ↦
          Covered-moved visited b work (reverse (g.succs b)) d
            (inv.at_hand c d (ground (arith, other)) clear e)
    ];
  }

  -- With an empty worklist every walk has been followed.
  Covered-end :
      (roots visited : List ℕ) {b : ℕ}
      → Covered visited []
      → Roots roots visited []
      → Walk g blocklist roots b
      → contains visited b ≡ true
  unfolding contains
  Covered-end roots visited inv r (start {b} m) = ground (arith, r b m)
  Covered-end roots visited inv r (next {b} {c} w clear e) =
      ground (arith, inv.at_hand b c (Covered-end roots visited inv r w) clear e)

  complete_step :
      (roots : List ℕ) (fuel b : ℕ) (limit : Option ℕ) (visited work : List ℕ) (w : Verdict)
      → ((limit : Option ℕ) (seen more : List ℕ)
          → Covered seen more
          → Roots roots seen more
          → run fuel limit seen more ≡ answer false
          → ¬ Arrives g stop blocklist roots)
      → Covered visited (b ∷ work)
      → Roots roots visited (b ∷ work)
      → contains visited b ≡ false
      → visit g stop blocklist b ≡ w
      → Judged g stop blocklist b w
      → run (suc fuel) limit visited (b ∷ work) ≡ answer false
      → ¬ Arrives g stop blocklist roots
  unfolding reachable_from_many
  complete_step roots fuel b limit visited work found ih inv r new e j h a =
      let k : answer true ≡ answer false = (rw (new, e) at h) in cc
  complete_step roots fuel b limit visited work killed ih inv r new e j h a = j a.0 a.2
  complete_step roots fuel b limit visited work trap ih inv r new e j h a = absurd j
  complete_step roots fuel b limit visited work pruned ih inv r new e j h a =
      ih limit (b ∷ visited) work (Covered-pruned visited b work j.0 j.1 inv)
        (λ c m. Covered-moved visited b work [] c (r c m)) (rw (new, e) at h) a
  complete_step roots fuel b none visited work explored ih inv r new e j h a =
      ih none (b ∷ visited) (reverse (g.succs b) ++ work) (Covered-explored visited b work j.1 inv)
        (λ c m. Covered-moved visited b work (reverse (g.succs b)) c (r c m)) (rw (new, e) at h) a
  complete_step roots fuel b (some n) visited work explored ih inv r new e j h a =
      elim (Bool-cases (n - 1 == 0)) [
        | inl last ↦ let k : answer true ≡ answer false = (rw (new, e, last) at h) in cc
        | inr further ↦
            ih (some (n - 1)) (b ∷ visited) (reverse (g.succs b) ++ work)
              (Covered-explored visited b work j.1 inv)
              (λ c m. Covered-moved visited b work (reverse (g.succs b)) c (r c m))
              (rw (new, e, further) at h) a
      ]

  pub loop_complete :
      IsVerified g
      → (roots : List ℕ) (fuel : ℕ) (limit : Option ℕ) (visited work : List ℕ)
      → Covered visited work
      → Roots roots visited work
      → run fuel limit visited work ≡ answer false
      → ¬ Arrives g stop blocklist roots
  unfolding reachable_from_many
  loop_complete v roots zero limit visited [] inv r h (b, w, goal) =
      inv.no_goal b (Covered-end roots visited inv r w) goal
  loop_complete v roots zero limit visited (b ∷ work) inv r h a = cc
  loop_complete v roots (suc fuel) limit visited [] inv r h (b, w, goal) =
      inv.no_goal b (Covered-end roots visited inv r w) goal
  loop_complete v roots (suc fuel) limit visited (b ∷ work) inv r h a =
      elim (Bool-cases (contains visited b)) [
        | inl old ↦
            loop_complete v roots fuel limit visited work
              (record {
                no_goal = inv.no_goal;
                at_hand =
                    λ c d m clear e. Covered-rest visited b work old d (inv.at_hand c d m clear e);
              })
              (λ c m. Covered-rest visited b work old c (r c m)) (rw old at h) a
        | inr new ↦
            complete_step roots fuel b limit visited work _ (loop_complete v roots fuel) inv r new
              refl (visit-Judged g blocklist b stop v) h a
      ]
