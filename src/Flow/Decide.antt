-- ===== src/Flow/Decide.antt =====
-- isPotentiallyReachable with no limit, as its callers outside the file use it: it answers, and its
-- answer is right.
use study_uafx.Base.{
  ℕ, ◌≡◌, refl, sym, subst, ◌⊎◌, inl, inr, ⊎_elim, ◌↔◌, ◌≢◌, Bool, true, false, not, ◌&&◌, Option,
  none, some, List, [], ◌∷◌, reverse, ◌==◌, ==_iff, Bool-cases, arith, contains, contains-reverse,
  is_empty, eq-nil_of_is_empty,
}
use study_uafx.Cfg.{Cfg, IsVerified, in_block, in_block_iff, in_block_unique}
use study_uafx.Reach.{Outcome, answer}
use study_uafx.Reach.Walk.{Hits, Walk, start, next, Arrives, Arrives-trans}
use study_uafx.Reach.Sound.{loop_sound}
use study_uafx.Reach.Complete.{loop_complete}
use study_uafx.Reach.Ends.{Within, loop_ends}
use study_uafx.Flow.Local.{
  Free, after, from_inst-after, after-once, Exited, leave-Exited, leave-skip,
  blocked_before-not-Goal,
}
use study_uafx.Flow.{
  from_inst, blocked_before, Exit, arrived, blocked, left, leave, straight, limit_of, search,
  beyond,
}

-- The outcome is an answer, and says whether a statement holds.
abbrev pub Decides : Outcome → Type 0 → Type 0
Decides o P = (r : Bool) × (o ≡ answer r) × ((r ≡ true) ↔ P)

pub decides_true : {P : Type 0} → P → Decides (answer true) P
decides_true p = (true, refl, (λ _. p, λ _. refl))

pub decides_false : {P : Type 0} → ¬ P → Decides (answer false) P
decides_false np = (false, refl, (λ e. cc, λ p. absurd (np p)))

pub Decides-map : {o : Outcome} {P Q : Type 0} → (P → Q) → (Q → P) → Decides o P → Decides o Q
Decides-map f h (r, e, k) = (r, e, (λ t. f (k.0 t), λ q. k.1 (h q)))

-- A walk along which an execution goes from `a` to `b` with no blocker after `a` and before `b`:
-- `a` is `b`, or `b` comes later in the block of `a`, or the rest of that block is free and a walk
-- from its successors arrives.
abbrev pub Flows : Cfg → List ℕ → ℕ → ℕ → ℕ → Type 0
Flows g blocklist from a b =
    (a ≡ b)
    ⊎ Hits b blocklist (after a (g.insts from))
    ⊎ Free blocklist (after a (g.insts from)) × Arrives g (some b) blocklist (g.succs from)

pub Decides-eq : (o p : Outcome) {P : Type 0} → o ≡ p → Decides p P → Decides o P
Decides-eq o p {P} e d = subst (λ x. Decides x P) (sym e) d

module _ (g : Cfg) (v : IsVerified g) (blocklist : List ℕ) where
  pub search-Decides :
      (block : ℕ) (stop : Option ℕ) (work : List ℕ)
      → Within g (g.blocks (g.func block)) work
      → Decides (search g block stop 0 blocklist work) (Arrives g stop blocklist work)
  unfolding search contains
  search-Decides block stop work within =
      let all = g.blocks (g.func block) in
      let (r, e) =
        loop_ends g stop blocklist all v (v.closed (g.func block)) _ none [] work within
          (omega arith) in
      (
        r,
        e,
        (
          λ t. loop_sound g stop blocklist v _ [] work (rw t at e),
          λ a. elim (Bool-cases r) [
            | inl t ↦ t
            | inr f ↦ absurd (
                loop_complete g stop blocklist v work _ none [] work
                  (record { no_goal = λ b m. cc; at_hand = λ b c m. cc }) (λ b m. m) (rw f at e) a)
          ],
        ),
      )

  pub Within-succs :
      (from : ℕ)
      → contains (g.blocks (g.func from)) from ≡ true
      → Within g (g.blocks (g.func from)) (reverse (g.succs from))
  Within-succs from own c m =
      v.closed (g.func from) from c own (ground (arith, contains-reverse (g.succs from) c))

  pub Within-entry :
      (to b : ℕ) → g.parent b ≡ some to → Within g (g.blocks (g.func to)) (g.entry (g.func to) ∷ [])
  unfolding contains
  Within-entry to b pb c m =
      let q : g.entry (g.func to) ≡ c = (==_iff (g.entry (g.func to)) c).0 (ground arith) in
      rw (← q) (v.entry_owned (g.func to) to (v.owned to b pb))

  pub Arrives-reverse :
      (stop : Option ℕ) (xs : List ℕ)
      → Arrives g stop blocklist (reverse xs)
      → Arrives g stop blocklist xs
  Arrives-reverse stop xs =
      Arrives-trans g stop blocklist (reverse xs) xs
        (λ b m. start (ground (arith, contains-reverse xs b)))

  pub reverse-Arrives :
      (stop : Option ℕ) (xs : List ℕ)
      → Arrives g stop blocklist xs
      → Arrives g stop blocklist (reverse xs)
  reverse-Arrives stop xs =
      Arrives-trans g stop blocklist xs (reverse xs)
        (λ b m. start (ground (arith, contains-reverse xs b)))

  -- No walk over edges leads to an entry block.
  Walk-not-entry : (f from : ℕ) {b : ℕ} → Walk g blocklist (g.succs from) b → b ≢ g.entry f
  Walk-not-entry f from (start {b} m) e = let k = v.entry_top f from in ground (arith, k, e)
  Walk-not-entry f from (next {b} {c} w clear edge) e =
      let k = v.entry_top f b in ground (arith, k, e)

  pub Arrives-entry :
      (from b : ℕ)
      → in_block g (g.entry (g.func from)) b ≡ true
      → ¬ Arrives g (some b) blocklist (g.succs from)
  Arrives-entry from b here (c, w, goal) =
      Walk-not-entry (g.func from) from w (in_block_unique g c _ b goal.0 here)

  Walk-nil : {c : ℕ} → ¬ Walk g blocklist [] c
  unfolding contains
  Walk-nil (start m) = cc
  Walk-nil (next w clear e) = Walk-nil w

  pub no_succs :
      (stop : Option ℕ) (xs : List ℕ) → is_empty xs ≡ true → ¬ Arrives g stop blocklist xs
  no_succs stop xs e (c, w, goal) =
      Walk-nil (subst (λ ys. Walk g blocklist ys c) (eq-nil_of_is_empty xs e) w)

  pub Arrives-blocked :
      (to b : ℕ) (roots : List ℕ)
      → in_block g to b ≡ true
      → contains blocklist b ≡ false
      → blocked_before g to b blocklist ≡ true
      → ¬ Arrives g (some b) blocklist roots
  Arrives-blocked to b roots here free h (c, w, goal) =
      blocked_before-not-Goal g v to b blocklist here free h
        (subst (λ d. Hits b blocklist (g.insts d)) (in_block_unique g c to b goal.0 here) goal.1)

  beyond-Decides :
      (from to a b : ℕ)
      → g.parent a ≡ some from
      → g.parent b ≡ some to
      → contains blocklist b ≡ false
      → Decides (beyond g from to b 0 blocklist) (Arrives g (some b) blocklist (g.succs from))
  unfolding beyond
  beyond-Decides from to a b pa pb free =
      let here = (in_block_iff g to b).1 pb in
      elim (Bool-cases (from == to && from == g.entry (g.func from))) [
        | inl top ↦
            let e : to ≡ g.entry (g.func from) = ground arith in
            rw top (decides_false (Arrives-entry from b (rw e at here)))
        | inr inner ↦ elim (Bool-cases (is_empty (g.succs from))) [
          | inl last ↦ rw (inner, last) (decides_false (no_succs (some b) (g.succs from) last))
          | inr more ↦
              elim (Bool-cases (not (is_empty blocklist) && blocked_before g to b blocklist)) [
                | inl stop ↦
                    rw (inner, more, stop)
                      (decides_false (Arrives-blocked to b (g.succs from) here free (ground arith)))
                | inr go ↦
                    rw (inner, more, go)
                      (Decides-map (Arrives-reverse (some b) (g.succs from))
                        (reverse-Arrives (some b) (g.succs from))
                        (search-Decides from (some b) (reverse (g.succs from))
                          (Within-succs from (v.owned from a pa))))
              ]
        ]
      ]

  straight_step :
      (from to a b : ℕ) (x : Exit)
      → g.parent a ≡ some from
      → g.parent b ≡ some to
      → contains blocklist b ≡ false
      → a == b ≡ false
      → leave a b blocklist (from_inst a (g.insts from)) ≡ x
      → Exited b blocklist (after a (g.insts from)) x
      → Decides (straight g from to a b 0 blocklist) (Flows g blocklist from a b)
  unfolding straight
  straight_step from to a b arrived pa pb free other e h =
      rw (e, straight) (decides_true (inr (inl h)))
  straight_step from to a b blocked pa pb free other e h =
      rw (e, straight)
        (decides_false (⊎_elim (λ q. ground (arith, other, q)) (⊎_elim h.0 (λ p. h.1 p.0))))
  straight_step from to a b left pa pb free other e h =
      rw (e, straight)
        (Decides-map (λ w. inr (inr (h.1, w)))
          (⊎_elim (λ q. ground (arith, other, q)) (⊎_elim (λ hit. absurd (h.0 hit)) (λ p. p.1)))
          (beyond-Decides from to a b pa pb free))

  pub straight-Decides :
      (from to a b : ℕ)
      → g.parent a ≡ some from
      → g.parent b ≡ some to
      → contains blocklist b ≡ false
      → Decides (straight g from to a b 0 blocklist) (Flows g blocklist from a b)
  unfolding straight leave
  straight-Decides from to a b pa pb free =
      let rest = after a (g.insts from) in
      let split = from_inst-after a (g.insts from) ((v.linked from a).0 pa) in
      elim (Bool-cases (a == b)) [
        | inl same ↦ rw (split, straight, leave, same) (decides_true (inl ((==_iff a b).0 same)))
        | inr other ↦
            straight_step from to a b (leave a b blocklist rest) pa pb free other
              (rw split (leave-skip a b blocklist rest other))
              (leave-Exited a b blocklist rest (after-once a (g.insts from) (v.once from)))
      ]

  -- In a verified module, from blocks of one function, the path search answers under every limit,
  -- with no failed assertion; and when a walk from the worklist arrives at its goal around the
  -- blockers, the answer is true.
  pub search_conservative :
      (block : ℕ) (stop : Option ℕ) (limit : ℕ) (work : List ℕ)
      → Within g (g.blocks (g.func block)) work
      → (r : Bool) × (search g block stop limit blocklist work ≡ answer r)
        × (Arrives g stop blocklist work → r ≡ true)
  unfolding search contains
  search_conservative block stop limit work within =
      let all = g.blocks (g.func block) in
      let (r, e) =
        loop_ends g stop blocklist all v (v.closed (g.func block)) _ (limit_of limit) [] work within
          (omega arith) in
      (
        r,
        e,
        λ a. elim (Bool-cases r) [
          | inl t ↦ t
          | inr f ↦ absurd (
              loop_complete g stop blocklist v work _ (limit_of limit) [] work
                (record { no_goal = λ b m. cc; at_hand = λ b c m. cc }) (λ b m. m) (rw f at e) a)
        ],
      )
