-- ===== src/Flow/Ends.antt =====
-- isPotentiallyReachable answers for all its arguments.
use study_uafx.Base.{
  ℕ, ◌≡◌, refl, true, false, not, ◌&&◌, Option, none, some, List, ◌==◌, Bool-cases, Option-cases,
  inl, inr, is_empty,
}
use study_uafx.Cfg.{Cfg, IsVerified, in_block}
use study_uafx.Reach.{Answers}
use study_uafx.Reach.Ends.{Within}
use study_uafx.Flow.Decide.{search_conservative, Within-succs, Within-entry}
use study_uafx.Flow.{
  any_of, blocked_before, is_reachable_in_bb, from_inst, Exit, arrived, blocked, left, leave,
  beyond, search, straight, between, from_entry, to_return, is_potentially_reachable,
}

module _ (g : Cfg) (v : IsVerified g) (limit : ℕ) (blocklist : List ℕ) where
  search-Answers :
      (b : ℕ) (stop : Option ℕ) (work : List ℕ)
      → Within g (g.blocks (g.func b)) work
      → Answers (search g b stop limit blocklist work)
  search-Answers b stop work h =
      let (r, e, k) = search_conservative g v blocklist b stop limit work h in (r, e)

  from_entry-Answers :
      (to b : ℕ) → g.parent b ≡ some to → Answers (from_entry g to b limit blocklist)
  unfolding from_entry
  from_entry-Answers to b pb = elim (Bool-cases (is_empty blocklist)) [
    | inl no_block ↦ rw no_block (true, refl)
    | inr some_block ↦ elim (Bool-cases (blocked_before g to b blocklist)) [
      | inl stop ↦ rw (some_block, stop) (false, refl)
      | inr open_way ↦
          rw (some_block, open_way)
            (search-Answers to (some b) _ (Within-entry g v blocklist to b pb))
    ]
  ]

  to_return-Answers :
      (from a : ℕ) → g.parent a ≡ some from → Answers (to_return g from a limit blocklist)
  unfolding to_return
  to_return-Answers from a pa =
      let stops =
        any_of (λ i. in_block g from i && not (i == a) && is_reachable_in_bb g a i) blocklist in
      elim (Bool-cases (is_empty blocklist)) [
        | inl no_block ↦ rw no_block (true, refl)
        | inr some_block ↦ elim (Bool-cases stops) [
          | inl stop ↦ rw (some_block, stop) (false, refl)
          | inr open_way ↦ elim (Bool-cases (is_empty (g.succs from))) [
            | inl last ↦ rw (some_block, open_way, last) (true, refl)
            | inr more ↦
                rw (some_block, open_way, more)
                  (search-Answers from none _ (Within-succs g v blocklist from (v.owned from a pa)))
          ]
        ]
      ]

  beyond-Answers :
      (from to a b : ℕ) → g.parent a ≡ some from → Answers (beyond g from to b limit blocklist)
  unfolding beyond
  beyond-Answers from to a b pa = elim (Bool-cases (from == to && from == g.entry (g.func from))) [
    | inl top ↦ rw top (false, refl)
    | inr inner ↦ elim (Bool-cases (is_empty (g.succs from))) [
      | inl last ↦ rw (inner, last) (false, refl)
      | inr more ↦ elim (Bool-cases (not (is_empty blocklist) && blocked_before g to b blocklist)) [
        | inl stop ↦ rw (inner, more, stop) (false, refl)
        | inr open_way ↦
            rw (inner, more, open_way)
              (search-Answers from (some b) _ (Within-succs g v blocklist from (v.owned from a pa)))
      ]
    ]
  ]

  exit-Answers :
      (from to a b : ℕ) (x : Exit)
      → g.parent a ≡ some from
      → leave a b blocklist (from_inst a (g.insts from)) ≡ x
      → Answers (straight g from to a b limit blocklist)
  unfolding straight
  exit-Answers from to a b arrived pa e = rw (e, straight) (true, refl)
  exit-Answers from to a b blocked pa e = rw (e, straight) (false, refl)
  exit-Answers from to a b left pa e = rw (e, straight) (beyond-Answers from to a b pa)

  between-Answers :
      (from to a b : ℕ) → g.parent a ≡ some from → Answers (between g from to a b limit blocklist)
  unfolding between
  between-Answers from to a b pa =
      elim (Bool-cases (is_empty blocklist && not (from == to) && from == g.entry (g.func from))) [
        | inl top ↦ rw top (true, refl)
        | inr inner ↦
            elim (Bool-cases
              (is_empty blocklist && not (from == to) && to == g.entry (g.func from))) [
                | inl back ↦ rw (inner, back) (false, refl)
                | inr on ↦ rw (inner, on) (exit-Answers from to a b _ pa refl)
              ]
      ]

  -- In a verified module, isPotentiallyReachable answers true or false for every pair of
  -- instructions, null ones included, every limit and every block list: its path search ends and
  -- its assertion holds.
  pub is_potentially_reachable-Answers :
      (a b : Option ℕ) → Answers (is_potentially_reachable g a b limit blocklist)
  unfolding is_potentially_reachable
  is_potentially_reachable-Answers none none = (true, refl)
  is_potentially_reachable-Answers none (some b) = elim (Option-cases (g.parent b)) [
    | inl e ↦ rw (e, is_potentially_reachable) (true, refl)
    | inr (to, e) ↦ rw (e, is_potentially_reachable) (from_entry-Answers to b e)
  ]
  is_potentially_reachable-Answers (some a) none = elim (Option-cases (g.parent a)) [
    | inl e ↦ rw (e, is_potentially_reachable) (true, refl)
    | inr (from, e) ↦ rw (e, is_potentially_reachable) (to_return-Answers from a e)
  ]
  is_potentially_reachable-Answers (some a) (some b) = elim (Option-cases (g.parent a)) [
    | inl e ↦ rw (e, is_potentially_reachable) (true, refl)
    | inr (from, e) ↦ elim (Option-cases (g.parent b)) [
      | inl f ↦ rw (e, is_potentially_reachable, f) (true, refl)
      | inr (to, f) ↦ elim (Bool-cases (g.func from == g.func to)) [
        | inl same ↦ rw (e, is_potentially_reachable, f, same) (between-Answers from to a b e)
        | inr differs ↦ rw (e, is_potentially_reachable, f, differs) (false, refl)
      ]
    ]
  ]
