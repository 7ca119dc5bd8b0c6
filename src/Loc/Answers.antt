-- ===== src/Loc/Answers.antt =====
-- The reachability of locations answers: no loop runs out of fuel and no assertion fails.
use study_uafx.Base.{
  ℕ, zero, suc, ◌+◌, ◌-◌, ◌*◌, ◌%◌, ◌≤◌, ◌<◌, ◌≡◌, refl, Bool, true, false, not, ◌&&◌, ◌||◌, Option,
  none, some, List, [], ◌==◌, length, leb, ltb, is_empty, arith, Bool-cases, Option-cases, inl, inr,
}
use study_uafx.Base.Int.{ℤ, pos}
use study_uafx.Cfg.{Cfg, IsVerified}
use study_uafx.Reach.{Answers}
use study_uafx.Flow.Ends.{is_potentially_reachable-Answers}
use study_uafx.Context.{CallSites}
use study_uafx.Loc.{InstLoc, loc, as_inst, has_ctx}
use study_uafx.Loc.Dominance.{site_at, share_func}
use study_uafx.Loc.Blockers.{has_parent, get_blockers_in_curr_func, end_test, can_reach_end}
use study_uafx.Loc.Exact.{get_blockers_in_curr_func-exact}
use study_uafx.Loc.Steps.{
  and_then-Answers, if-Answers, skip-Answers, IsPlaced, IsSite, prefix_sites-some, align-odd,
  diverge-bound,
}
use study_uafx.Loc.Paths.{
  align, segment, calls_down, returns_up, chainable, meet, reach_across, from_global, reachable,
  loc_in, get_inst_loc,
}

module _ (g : Cfg) (v : IsVerified g) (idoms : ℕ → List ℕ) where
  get_blockers_in_curr_func-some :
      (this : InstLoc) (blocklist : List InstLoc)
      → (valid : List ℕ) × (get_blockers_in_curr_func g idoms this blocklist ≡ some valid)
  unfolding get_blockers_in_curr_func
  get_blockers_in_curr_func-some this blocklist = elim (Bool-cases (has_ctx this)) [
    | inl local ↦
        let (valid, e, iff) = get_blockers_in_curr_func-exact g v idoms this blocklist local in
        (valid, e)
    | inr global ↦
        let skip : is_empty blocklist || not (has_ctx this) ≡ true = ground (arith, global) in
        rw skip ([], refl)
  ]

  end_test-Answers :
      (place : Option ℕ) (valid : List ℕ) (from_entry : Bool)
      → Answers (end_test g place valid from_entry)
  unfolding end_test
  end_test-Answers place valid from_entry =
      if-Answers (is_empty valid) _ _ (true, refl)
        (if-Answers (not (has_parent g place)) _ _ (true, refl)
          (if-Answers from_entry _ _ (is_potentially_reachable-Answers g v 0 valid none place)
            (is_potentially_reachable-Answers g v 0 valid place none)))

  can_reach_end-Answers :
      (this : InstLoc) (blocklist : List InstLoc) (from_entry : Bool)
      → Answers (can_reach_end g idoms this blocklist from_entry)
  unfolding can_reach_end
  can_reach_end-Answers this blocklist from_entry =
      let (valid, e) = get_blockers_in_curr_func-some this blocklist in
      rw (e, can_reach_end) (end_test-Answers (as_inst this.value) valid from_entry)

  module _ (this : InstLoc) (blocklist : List InstLoc) where
    segment-Answers :
        (i : ℕ) (from_entry : Bool)
        → IsSite this.ctx i
        → Answers (segment g idoms this blocklist i from_entry)
    unfolding segment loc_in get_inst_loc
    segment-Answers i from_entry site = elim (Option-cases (site_at this.ctx i)) [
      | inl e ↦ rw (e, segment) (true, refl)
      | inr (cs, e) ↦
          let (c, made) = prefix_sites-some this.ctx i site in
          rw (e, segment)
            (if-Answers (has_parent g (some cs)) _ _
              (rw made (can_reach_end-Answers (loc cs c) blocklist from_entry)) (true, refl))
    ]

    calls_down-Answers :
        (n ci : ℕ)
        → ci % 2 ≡ 1
        → length this.ctx ≤ ci + 2 * n
        → Answers (calls_down (suc n) g idoms this blocklist ci)
    unfolding calls_down
    calls_down-Answers zero ci odd h =
        let past : ltb ci (length this.ctx) ≡ false = ground (arith, h) in
        rw past (can_reach_end-Answers this blocklist true)
    calls_down-Answers (suc n) ci odd h = elim (Bool-cases (ltb ci (length this.ctx))) [
      | inr past ↦ rw past (can_reach_end-Answers this blocklist true)
      | inl inside ↦ rw inside (
          and_then-Answers _ _ (segment-Answers ci true (odd, ground (arith, inside)))
            (calls_down-Answers n (ci + 2) (omega arith) (omega arith)))
    ]

    returns_up-Answers :
        (fuel ci i : ℕ)
        → IsSite this.ctx i
        → i < 2 * fuel
        → Answers (returns_up fuel g idoms this blocklist ci i)
    unfolding returns_up
    returns_up-Answers zero ci i site h = absurd (omega arith)
    returns_up-Answers (suc fuel) ci i site h = elim (Bool-cases (ltb i 2)) [
      | inl top ↦
          if-Answers (ltb i ci) _ _ (true, refl)
            (and_then-Answers _ _ (segment-Answers i false site) (rw top (true, refl)))
      | inr below ↦
          if-Answers (ltb i ci) _ _ (true, refl)
            (and_then-Answers _ _ (segment-Answers i false site) (
              rw below (
                returns_up-Answers fuel ci (i - 2)
                  (ground (arith, below, site), ground (arith, below, site))
                  (ground (arith, below, h)))))
    ]

    chainable-Answers :
        (ci : ℤ) (call_from : Bool)
        → IsPlaced this
        → Answers (chainable g idoms this ci blocklist call_from)
    unfolding chainable
    chainable-Answers ci call_from odd = elim (Bool-cases (has_ctx this)) [
      | inr global ↦ if-Answers (is_empty blocklist) _ _ (true, refl) (rw global (true, refl))
      | inl local ↦
          let one : length this.ctx % 2 == 1 ≡ true = ground (arith, odd local) in
          if-Answers (is_empty blocklist) _ _ (true, refl)
            (rw (local, one)
              (if-Answers call_from _ _
                (calls_down-Answers (length this.ctx) (align ci) (align-odd ci) (omega arith))
                (and_then-Answers _ _ (can_reach_end-Answers this blocklist false)
                  (elim (Bool-cases (ltb (length this.ctx) 2)) [
                    | inl top ↦ rw top (true, refl)
                    | inr below ↦ rw below (
                        returns_up-Answers (length this.ctx) (align ci) (length this.ctx - 2)
                          (ground (arith, odd local, below), ground (arith, below))
                          (ground (arith, odd local)))
                  ]))))
    ]

  meet-Answers :
      (blocklist : List InstLoc) (new_ctx : Option CallSites) (src end : Option ℕ)
      → (c : CallSites) × (new_ctx ≡ some c)
      → Answers (meet g idoms blocklist new_ctx src end)
  unfolding meet loc_in get_inst_loc
  meet-Answers blocklist new_ctx none end made = (false, refl)
  meet-Answers blocklist new_ctx (some src) end (c, made) =
      if-Answers
        (not (has_parent g (some src))
          || not (has_parent g end)
          || not (share_func g (some src) end))
        _ _ (false, refl)
        (if-Answers (is_empty blocklist) _ _
          (is_potentially_reachable-Answers g v 0 [] (some src) end)
          (let (valid, e) = get_blockers_in_curr_func-some (loc src c) blocklist in
            rw (made, e) (is_potentially_reachable-Answers g v 0 valid (some src) end)))

  reach_across-Answers :
      (this against : InstLoc) (blocklist : List InstLoc) (ip : ℕ)
      → IsPlaced this
      → IsPlaced against
      → has_ctx against ≡ true
      → ip ≤ length against.ctx
      → Answers (reach_across g idoms this against blocklist ip)
  unfolding reach_across
  reach_across-Answers this against blocklist ip odd odd_against local_against inside =
      let down = chainable-Answers this blocklist (pos ip) true odd in
      let up = chainable-Answers against blocklist (pos ip) false odd_against in
      let uneven = odd_against local_against in
      let some_block = not (is_empty blocklist) in
      if-Answers (ip == 0) _ _ (false, refl)
        (elim (Bool-cases (leb (length this.ctx) ip)) [
          | inl at_end ↦ rw at_end (
              and_then-Answers _ _
                (if-Answers (some_block && ltb ip (length against.ctx)) _ _ up (true, refl))
                (meet-Answers blocklist _ _ _ (this.ctx, refl)))
          | inr deeper ↦ elim (Bool-cases (leb (length against.ctx) ip)) [
            | inl all ↦
                rw (deeper, all)
                  (and_then-Answers _ _ (if-Answers some_block _ _ down (true, refl)) (
                    meet-Answers blocklist _ _ _ (
                      prefix_sites-some this.ctx ip
                        (ground (arith, deeper, all, inside, uneven), ground (arith, deeper)))))
            | inr both ↦ elim (Bool-cases (ip % 2 == 1)) [
              | inr even ↦ rw (deeper, both, even) (false, refl)
              | inl site ↦
                  rw (deeper, both, site)
                    (and_then-Answers _ _
                      (if-Answers some_block _ _ (and_then-Answers _ _ up down) (true, refl))
                      (meet-Answers blocklist _ _ _ (
                        prefix_sites-some this.ctx ip
                          (ground (arith, site), ground (arith, deeper)))))
            ]
          ]
        ])

  from_global-Answers :
      (this : InstLoc) (blocklist : List InstLoc)
      → IsPlaced this
      → Answers (from_global g idoms this blocklist)
  unfolding from_global
  from_global-Answers this blocklist odd =
      if-Answers (is_empty blocklist) _ _ (true, refl)
        (if-Answers (has_ctx this) _ _ (chainable-Answers this blocklist (pos 0) true odd)
          (true, refl))

  -- In a verified module, for locations whose contexts, if any, have odd length, as the code asserts,
  -- InstLoc::reachable answers with every block list: its loops and the recursion of bypassCall end,
  -- and its assertions on the prefix contexts and on the locations in them hold.
  pub reachable-Answers :
      (this against : InstLoc) (blocklist : List InstLoc)
      → IsPlaced this
      → IsPlaced against
      → Answers (reachable g idoms this (some against) blocklist)
  unfolding reachable
  reachable-Answers this against blocklist odd odd_against = elim (Bool-cases (has_ctx against)) [
    | inr global ↦ rw global (from_global-Answers this blocklist odd)
    | inl local_against ↦ elim (Bool-cases (has_ctx this)) [
      | inr global ↦ rw (local_against, global) (false, refl)
      | inl local ↦
          let one : length this.ctx % 2 == 1 ≡ true = ground (arith, odd local) in
          let one_against : length against.ctx % 2 == 1 ≡ true =
            ground (arith, odd_against local_against) in
          skip-Answers (not (has_ctx against)) _ _ (ground (arith, local_against)) (
            skip-Answers (not (has_ctx this)) _ _ (ground (arith, local)) (
              skip-Answers (not (length this.ctx % 2 == 1) || not (length against.ctx % 2 == 1)) _ _
                (ground (arith, one, one_against))
                (reach_across-Answers this against blocklist _ odd odd_against local_against
                  (diverge-bound this.ctx against.ctx))))
    ]
  ]
