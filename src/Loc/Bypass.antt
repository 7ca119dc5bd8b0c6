-- ===== src/Loc/Bypass.antt =====
-- bypassCall ends: the recursion goes two call sites deeper each time, and contexts are finite.
use study_uafx.Base.{
  ℕ, zero, suc, ◌+◌, ◌-◌, ◌*◌, ◌≤◌, ◌≡◌, refl, Bool, true, false, not, ◌&&◌, ◌||◌, Option, none,
  some, List, [], ◌∷◌, same_opt, if◌then◌else◌, ◌==◌, length, ltb, insert, select, is_empty, arith,
  Bool-cases, inl, inr,
}
use study_uafx.Cfg.{Cfg, IsVerified}
use study_uafx.Reach.{Outcome, answer, assert_failed, out_of_fuel, Answers}
use study_uafx.Flow.Ends.{is_potentially_reachable-Answers}
use study_uafx.Loc.{InstLoc, func_of}
use study_uafx.Loc.Dominance.{site_at}
use study_uafx.Loc.Blockers.{
  get_doms_for_ret, of_call_site, call_keys, with_site, inst_bis, deeper_bis, or_else,
  true_blockers, off_path, group_end, group_rest, bypass_group, bypass_groups, bypass_call,
  is_there,
}

-- The contexts of the blockers have at most `n` call sites.
abbrev pub Within : ℕ → List InstLoc → Type 0
Within n [] = Unit {0}
Within n (bi ∷ bis) = (length bi.ctx ≤ n) × Within n bis

pub Within-select :
    (n : ℕ) (p : InstLoc → Bool) (bis : List InstLoc) → Within n bis → Within n (select p bis)
unfolding select
Within-select n p [] h = tt
Within-select n p (bi ∷ bis) h = elim (Bool-cases (p bi)) [
  | inl kept ↦ rw kept (h.0, Within-select n p bis h.1)
  | inr dropped ↦ rw dropped (Within-select n p bis h.1)
]

abbrev in_group : ℕ → InstLoc → Bool
in_group e bi =
    ltb e (length bi.ctx) && is_there (site_at bi.ctx e) && is_there (site_at bi.ctx (e - 1))

Within-of_call_site :
    (n e : ℕ) (cs : Option ℕ) (bis : List InstLoc) → Within n bis → Within n (of_call_site e cs bis)
unfolding of_call_site
Within-of_call_site n e cs [] h = tt
Within-of_call_site n e none (bi ∷ bis) h = elim (Bool-cases (in_group e bi)) [
  | inr off ↦ rw off (Within-of_call_site n e none bis h.1)
  | inl on ↦ rw on (h.0, Within-of_call_site n e (site_at bi.ctx (e - 1)) bis h.1)
]
Within-of_call_site n e (some c) (bi ∷ bis) h = elim (Bool-cases (in_group e bi)) [
  | inr off ↦ rw off (Within-of_call_site n e (some c) bis h.1)
  | inl on ↦ elim (Bool-cases (same_opt (some c) (site_at bi.ctx (e - 1)))) [
    | inl kept ↦ rw (on, kept) (h.0, Within-of_call_site n e (some c) bis h.1)
    | inr dropped ↦ rw (on, dropped) (Within-of_call_site n e (some c) bis h.1)
  ]
]

of_call_site-short :
    (e : ℕ) (cs : Option ℕ) (bis : List InstLoc) → Within e bis → of_call_site e cs bis ≡ []
unfolding of_call_site
of_call_site-short e cs [] h = refl
of_call_site-short e cs (bi ∷ bis) h =
    let off : ltb e (length bi.ctx) ≡ false = ground (arith, h.0) in
    rw off (of_call_site-short e cs bis h.1)

pub or_else-Answers : (o p : Outcome) → Answers o → Answers p → Answers (or_else o p)
unfolding or_else
or_else-Answers (answer true) p a b = (true, refl)
or_else-Answers (answer false) p a b = b
or_else-Answers assert_failed p (r, e) b = cc
or_else-Answers out_of_fuel p (r, e) b = cc

module _ (g : Cfg) (v : IsVerified g) where
  group_end-Answers :
      (ret_doms : List ℕ) (ei : ℕ) (bis : List ℕ) → Answers (group_end g ret_doms ei bis)
  unfolding group_end
  group_end-Answers ret_doms ei [] = (true, refl)
  group_end-Answers ret_doms ei (i ∷ []) = elim (Bool-cases (is_empty ret_doms)) [
    | inl no_doms ↦ rw no_doms (is_potentially_reachable-Answers g v 0 (i ∷ []) (some ei) none)
    | inr doms ↦ rw doms (_, refl)
  ]
  group_end-Answers ret_doms ei (i ∷ j ∷ bis) =
      is_potentially_reachable-Answers g v 0 (i ∷ j ∷ bis) (some ei) none

  module _ (idoms : ℕ → List ℕ) (sub : List InstLoc → Outcome) (n : ℕ)
      (ends : (bis : List InstLoc) → Within n bis → Answers (sub bis)) where
    true_blockers-some :
        (e : ℕ) (deeper : List InstLoc) (found sites : List ℕ)
        → Within n deeper
        → (more : List ℕ) × (true_blockers sub e deeper found sites ≡ some more)
    unfolding true_blockers with_site
    true_blockers-some e deeper found [] h = (found, refl)
    true_blockers-some e deeper found (cs ∷ sites) h =
        let (r, k) = ends (with_site (e + 1) cs deeper) (Within-select n _ deeper h) in
        rw (k, true_blockers)
          (true_blockers-some e deeper (if r then found else insert cs found) sites h)

    group_rest-Answers :
        (e ei : ℕ) (ret_doms : List ℕ) (deeper : List InstLoc) (here sites : List ℕ)
        → Within n deeper
        → Answers (group_rest g sub e ei ret_doms deeper here sites)
    unfolding group_rest
    group_rest-Answers e ei ret_doms deeper here sites h =
        let (found, k) = true_blockers-some e deeper here sites h in
        rw (k, group_rest) (group_end-Answers ret_doms ei found)

    single-Answers :
        (e : ℕ) (ret_doms : List ℕ) (deeper : List InstLoc) (here sites : List ℕ)
        → Within n deeper
        → Answers (elim here [
          | i ∷ more ↦ answer (off_path g ret_doms i)
          | [] ↦ elim sites [
            | [] ↦ answer true
            | cs ∷ more ↦
                if off_path g ret_doms cs then answer true else sub (with_site (e + 1) cs deeper)
          ]
        ])
    unfolding with_site
    single-Answers e ret_doms deeper (i ∷ more) sites h = (_, refl)
    single-Answers e ret_doms deeper [] [] h = (true, refl)
    single-Answers e ret_doms deeper [] (cs ∷ more) h = elim (Bool-cases (off_path g ret_doms cs)) [
      | inl off ↦ rw off (true, refl)
      | inr on ↦ rw on (ends (with_site (e + 1) cs deeper) (Within-select n _ deeper h))
    ]

    bypass_group-Answers :
        (e ei : ℕ) (bis : List InstLoc) → Within n bis → Answers (bypass_group g idoms sub e ei bis)
    unfolding bypass_group deeper_bis
    bypass_group-Answers e ei bis h =
        let here = inst_bis e bis in
        let deeper = deeper_bis g e bis in
        let sites = call_keys (e + 1) deeper in
        let ret_doms = get_doms_for_ret g idoms (func_of g ei) in
        let short = Within-select n _ bis h in
        elim (Bool-cases (is_empty here && is_empty sites)) [
          | inl nothing ↦ rw (nothing, bypass_group) (true, refl)
          | inr something ↦
              elim (Bool-cases (length here + length sites == 1 && not (is_empty ret_doms))) [
                | inl single ↦
                    rw (something, bypass_group, single)
                      (single-Answers e ret_doms deeper here sites short)
                | inr many ↦
                    rw (something, bypass_group, many)
                      (group_rest-Answers e ei ret_doms deeper here sites short)
              ]
        ]

    bypass_groups-Answers :
        (e : ℕ) (bis : List InstLoc) (keys : List ℕ)
        → Within n bis
        → Answers (bypass_groups g idoms sub e bis keys)
    unfolding bypass_groups with_site
    bypass_groups-Answers e bis [] h = (false, refl)
    bypass_groups-Answers e bis (ei ∷ keys) h =
        or_else-Answers _ _ (bypass_group-Answers e ei _ (Within-select n _ bis h))
          (bypass_groups-Answers e bis keys h)

  -- In a verified module, bypassCall answers when the fuel allows for the call sites after `e`, two
  -- at a time, of every blocker's context.
  pub bypass_call-Answers :
      (idoms : ℕ → List ℕ) (n : ℕ) (bis : List InstLoc) (e : ℕ)
      → Within (e + 2 * n) bis
      → Answers (bypass_call (suc n) g idoms bis e)
  unfolding bypass_call
  bypass_call-Answers idoms zero bis e h =
      let same : e + 2 * 0 ≡ e = omega arith in
      let gone = of_call_site-short e none bis (rw same at h) in
      let stop : is_empty bis || e == 0 || is_empty (of_call_site e none bis) ≡ true =
        ground (arith, gone) in
      rw stop (true, refl)
  bypass_call-Answers idoms (suc n) bis e h =
      let next : e + 2 * suc n ≡ e + 2 + 2 * n = omega arith in
      let kept = of_call_site e none bis in
      elim (Bool-cases (is_empty bis || e == 0 || is_empty kept)) [
        | inl stop ↦ rw stop (true, refl)
        | inr on ↦ rw on (
            bypass_groups-Answers idoms (λ deeper. bypass_call (suc n) g idoms deeper (e + 2))
              (e + 2 + 2 * n) (λ deeper short. bypass_call-Answers idoms n deeper (e + 2) short) e
              kept (call_keys e kept)
              (Within-of_call_site (e + 2 + 2 * n) e none bis (rw next at h)))
      ]
