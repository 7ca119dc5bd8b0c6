-- ===== src/Flow/Answers.antt =====
-- isPotentiallyReachable as a whole, with no limit: the answer for each combination of arguments.
use study_uafx.Base.{
  ℕ, ◌≡◌, refl, ap, ◌⊎◌, inl, inr, ⊎_elim, ◌≢◌, true, false, not, ◌&&◌, none, some, List, [], ◌∷◌,
  reverse, ◌==◌, ==_iff, Bool-cases, arith, contains, is_empty,
}
use study_uafx.Cfg.{Cfg, IsVerified, in_block, in_block_iff, in_block_of_mem, in_block_unique}
use study_uafx.Reach.{answer}
use study_uafx.Reach.Walk.{Hits, Arrives}
use study_uafx.Flow.Local.{
  Free, after, after-sub, mem_of_Hits, from_inst-after, after-once, Exited, leave-Exited,
  leave-skip, blocked_before_self, comes_after, not_Free_of_blocked, Free-of_open,
}
use study_uafx.Flow.Decide.{
  Decides, decides_true, decides_false, Decides-map, Decides-eq, Flows, search-Decides,
  Within-succs, Within-entry, Arrives-reverse, reverse-Arrives, Arrives-blocked, Arrives-entry,
  straight-Decides,
}
use study_uafx.Flow.{
  any_of, blocked_before, from_inst, Exit, arrived, blocked, left, leave, beyond, search, straight,
  between, from_entry, to_return, is_potentially_reachable,
}

module _ (g : Cfg) (v : IsVerified g) (blocklist : List ℕ) where
  -- In a verified module, between two instructions of one function, with a block list that is not
  -- empty and does not hold the target, isPotentiallyReachable with no limit answers, and it answers
  -- true exactly when some execution path leads from the first to the second around the blockers.
  pub is_potentially_reachable-Decides :
      (from to a b : ℕ)
      → g.parent a ≡ some from
      → g.parent b ≡ some to
      → g.func from ≡ g.func to
      → is_empty blocklist ≡ false
      → contains blocklist b ≡ false
      → Decides
          (is_potentially_reachable g (some a) (some b) 0 blocklist)
          (Flows g blocklist from a b)
  unfolding is_potentially_reachable between
  is_potentially_reachable-Decides from to a b pa pb same some_block free =
      Decides-eq _ (straight g from to a b 0 blocklist) (ground (arith, pa, pb, same, some_block))
        (straight-Decides g v blocklist from to a b pa pb free)

  -- Null `A`, in a verified module: with no limit and a block list that is not empty and does not
  -- hold the target, isPotentiallyReachable answers, and it answers true exactly when a path from
  -- the function's entry block leads to the target around the blockers.
  pub from_entry-Decides :
      (to b : ℕ)
      → g.parent b ≡ some to
      → is_empty blocklist ≡ false
      → contains blocklist b ≡ false
      → Decides
          (is_potentially_reachable g none (some b) 0 blocklist)
          (Arrives g (some b) blocklist (g.entry (g.func to) ∷ []))
  unfolding is_potentially_reachable from_entry
  from_entry-Decides to b pb some_block free = elim (Bool-cases (blocked_before g to b blocklist)) [
    | inl stop ↦ Decides-eq _ (answer false) (ground (arith, pb, some_block, stop)) (
        decides_false (Arrives-blocked g v blocklist to b _ ((in_block_iff g to b).1 pb) free stop))
    | inr open_way ↦
        Decides-eq _ (search g to (some b) 0 blocklist (g.entry (g.func to) ∷ []))
          (ground (arith, pb, some_block, open_way))
          (search-Decides g v blocklist to (some b) (g.entry (g.func to) ∷ [])
            (Within-entry g v blocklist to b pb))
  ]

  -- Null `B`, in a verified module: with no limit and a block list that is not empty,
  -- isPotentiallyReachable answers, and it answers true exactly when no blocker comes after `A` in
  -- its block and either that block has no successor or a path from its successors leads to a block
  -- with none, around the blockers.
  pub to_return-Decides :
      (from a : ℕ)
      → g.parent a ≡ some from
      → is_empty blocklist ≡ false
      → Decides (is_potentially_reachable g (some a) none 0 blocklist) (
          Free blocklist (after a (g.insts from))
          × ((is_empty (g.succs from) ≡ true) ⊎ Arrives g none blocklist (g.succs from)))
  unfolding is_potentially_reachable to_return
  to_return-Decides from a pa some_block =
      elim (Bool-cases (any_of (comes_after g v from a pa) blocklist)) [
        | inl stop ↦
            Decides-eq _ (answer false) (ground (arith, pa, some_block, stop))
              (decides_false (λ p. not_Free_of_blocked g v from a pa blocklist stop p.0))
        | inr open_way ↦
            let free = Free-of_open g v from a pa blocklist open_way in
            elim (Bool-cases (is_empty (g.succs from))) [
              | inl last ↦
                  Decides-eq _ (answer true) (ground (arith, pa, some_block, open_way, last))
                    (decides_true (free, inl last))
              | inr more ↦
                  Decides-eq _ (search g from none 0 blocklist (reverse (g.succs from)))
                    (ground (arith, pa, some_block, open_way, more))
                    (Decides-map
                      (λ w. (free, inr (Arrives-reverse g v blocklist none (g.succs from) w)))
                      (λ p.
                        ⊎_elim (λ e. cc (e, more))
                          (reverse-Arrives g v blocklist none (g.succs from)) p.1)
                      (search-Decides g v blocklist from none (reverse (g.succs from))
                        (Within-succs g v blocklist from (v.owned from a pa))))
            ]
      ]

module _ (g : Cfg) (v : IsVerified g) where
  -- What stands after an instruction in its block stands in that block.
  in_block_of_Hits :
      (from a b : ℕ) (blocklist : List ℕ)
      → Hits b blocklist (after a (g.insts from))
      → in_block g from b ≡ true
  in_block_of_Hits from a b blocklist h =
      in_block_of_mem g v from b (after-sub a b (g.insts from) (mem_of_Hits b blocklist _ h))

  no_shortcut :
      (from to a b : ℕ)
      → g.parent a ≡ some from
      → g.parent b ≡ some to
      → g.func from ≡ g.func to
      → Flows g [] from a b
      → (not (from == to) && to == g.entry (g.func from)) ≡ false
  no_shortcut from to a b pa pb same (inl e) = ground (arith, pa, pb, e)
  no_shortcut from to a b pa pb same (inr (inl h)) =
      let q : from ≡ to =
        in_block_unique g from to b (in_block_of_Hits from a b [] h) ((in_block_iff g to b).1 pb) in
      ground (arith, q)
  no_shortcut from to a b pa pb same (inr (inr (free, w))) =
      elim (Bool-cases (to == g.entry (g.func from))) [
        | inl top ↦
            let q : to ≡ g.entry (g.func from) = ground arith in
            absurd (Arrives-entry g v [] from b (rw q at ((in_block_iff g to b).1 pb)) w)
        | inr inner ↦ ground (arith, inner)
      ]

  -- In a verified module, without blockers and without a limit: when an execution path leads from
  -- the first instruction to the second, of one function, isPotentiallyReachable answers true.
  pub is_potentially_reachable_conservative :
      (from to a b : ℕ)
      → g.parent a ≡ some from
      → g.parent b ≡ some to
      → g.func from ≡ g.func to
      → Flows g [] from a b
      → is_potentially_reachable g (some a) (some b) 0 [] ≡ answer true
  unfolding is_potentially_reachable between contains
  is_potentially_reachable_conservative from to a b pa pb same flows =
      let (r, e, k) = straight-Decides g v [] from to a b pa pb refl in
      let e' : straight g from to a b 0 [] ≡ answer true = (rw (k.1 flows) at e) in
      ground (arith, no_shortcut from to a b pa pb same flows, e')

  beyond_blocked_target :
      (from to b : ℕ) (blocklist : List ℕ)
      → g.parent b ≡ some to
      → contains blocklist b ≡ true
      → beyond g from to b 0 blocklist ≡ answer false
  unfolding beyond contains
  beyond_blocked_target from to b [] pb stop = cc
  beyond_blocked_target from to b (i ∷ rest) pb stop =
      ground (arith, blocked_before_self g to b (i ∷ rest) v pb stop)

  straight_blocked_target :
      (from to a b : ℕ) (blocklist : List ℕ) (x : Exit)
      → g.parent b ≡ some to
      → from ≢ to
      → contains blocklist b ≡ true
      → leave a b blocklist (from_inst a (g.insts from)) ≡ x
      → Exited b blocklist (after a (g.insts from)) x
      → straight g from to a b 0 blocklist ≡ answer false
  unfolding straight
  straight_blocked_target from to a b blocklist arrived pb ne stop e h = absurd (
      ne (
        in_block_unique g from to b (in_block_of_Hits from a b blocklist h)
          ((in_block_iff g to b).1 pb)))
  straight_blocked_target from to a b blocklist blocked pb ne stop e h = rw (e, straight)
  straight_blocked_target from to a b blocklist left pb ne stop e h =
      rw (e, straight) (beyond_blocked_target from to b blocklist pb stop)

  -- In a verified module, isPotentiallyReachable with no limit answers false for a target that is
  -- itself a blocker and lies in another block than the start, whatever the paths are.
  pub blocked_target :
      (from to a b : ℕ) (blocklist : List ℕ)
      → g.parent a ≡ some from
      → g.parent b ≡ some to
      → from ≢ to
      → contains blocklist b ≡ true
      → is_potentially_reachable g (some a) (some b) 0 blocklist ≡ answer false
  unfolding is_potentially_reachable between contains
  blocked_target from to a b [] pa pb ne stop = cc
  blocked_target from to a b (i ∷ rest) pa pb ne stop =
      let split = from_inst-after a (g.insts from) ((v.linked from a).0 pa) in
      let other : a == b ≡ false = elim (Bool-cases (a == b)) [
        | inl same ↦ let q : a ≡ b = (==_iff a b).0 same in absurd (ne (cc (ap g.parent q)))
        | inr differs ↦ differs
      ] in
      let skip : leave a b (i ∷ rest) (from_inst a (g.insts from))
          ≡ leave a b (i ∷ rest) (after a (g.insts from)) =
        (rw split (leave-skip a b (i ∷ rest) _ other)) in
      let k =
        straight_blocked_target from to a b (i ∷ rest) _ pb ne stop skip
          (leave-Exited a b (i ∷ rest) _ (after-once a (g.insts from) (v.once from))) in
      ground (arith, k)
