-- ===== src/Loc/Exact.antt =====
-- getBlockersInCurrFunc: exactly which instructions block the function of a location.
use study_uafx.Base.{
  ℕ, suc, ◌+◌, ◌≤◌, ◌≡◌, refl, ap, ◌↔◌, ◌⊎◌, inl, inr, true, false, not, ◌||◌, Option, some, List,
  [], ◌∷◌, same_opt, ◌==◌, length, contains, insert, contains-insert, is_empty, arith, Bool-cases,
  ==_iff, sym, ◌∙◌, select,
}
use study_uafx.Cfg.{Cfg, IsVerified}
use study_uafx.Reach.{Outcome, answer, Answers}
use study_uafx.Loc.{InstLoc, has_ctx, func_of, get_func}
use study_uafx.Loc.Blockers.{
  bypass_call, has_parent, keys, direct_site, behind_site, behind, add_calls, total_sites,
  get_blockers_in_curr_func,
}
use study_uafx.Loc.Holds.{Holds, Holds-empty, Holds-map, keys_iff}
use study_uafx.Loc.Placed.{
  IsHere, IsThrough, is_through, direct_site-IsHere, behind_site-IsThrough, behind-select,
}
use study_uafx.Loc.Bypass.{Within, Within-select, bypass_call-Answers}

module _ (g : Cfg) (this : InstLoc) (sub : ℕ → Outcome) where
  -- A call site of the function of `this` that cannot be bypassed.
  abbrev pub Stops : ℕ → Type 0
  Stops i =
      (has_parent g (some i) ≡ true)
      × (same_opt (func_of g i) (get_func g this) ≡ true)
      × (sub i ≡ answer false)

  -- What the loop leaves of the call sites, from the blockers so far.
  abbrev Exact : List ℕ → List ℕ → Option (List ℕ) → Type 0
  Exact valid sites o =
      (all : List ℕ) × (o ≡ some all)
      × ((i : ℕ)
          → (contains all i ≡ true)
            ↔ ((contains valid i ≡ true) ⊎ ((contains sites i ≡ true) × Stops i)))

  Exact-skip :
      (valid sites : List ℕ) (cs : ℕ) (o : Option (List ℕ))
      → (Stops cs → ⊥)
      → Exact valid sites o
      → Exact valid (cs ∷ sites) o
  unfolding contains
  Exact-skip valid sites cs o never (all, e, iff) = (
    all,
    e,
    λ i. (
      λ h. elim ((iff i).0 h) [ inl q ↦ inl q | inr (m, st) ↦ inr (ground (arith, m), st) ],
      λ h. elim h [
        | inl q ↦ (iff i).1 (inl q)
        | inr (m, st) ↦ elim (Bool-cases (cs == i)) [
          | inl here ↦ let q : cs ≡ i = (==_iff cs i).0 here in absurd (never (rw q st))
          | inr later ↦ (iff i).1 (inr (ground (arith, m, later), st))
        ]
      ],
    ),
  )

  Exact-insert :
      (valid sites : List ℕ) (cs : ℕ) (o : Option (List ℕ))
      → Stops cs
      → Exact (insert cs valid) sites o
      → Exact valid (cs ∷ sites) o
  unfolding contains
  Exact-insert valid sites cs o stops (all, e, iff) = (
    all,
    e,
    λ i. (
      λ h. elim (Bool-cases (cs == i)) [
        | inl here ↦
            let q : cs ≡ i = (==_iff cs i).0 here in inr (ground (arith, here), rw (← q) stops)
        | inr later ↦ elim ((iff i).0 h) [
          | inl q ↦ inl (ground (arith, q, later, contains-insert cs i valid))
          | inr (m, st) ↦ inr (ground (arith, m), st)
        ]
      ],
      λ h. elim h [
        | inl q ↦ (iff i).1 (inl (ground (arith, q, contains-insert cs i valid)))
        | inr (m, st) ↦ elim (Bool-cases (cs == i)) [
          | inl here ↦ (iff i).1 (inl (ground (arith, here, contains-insert cs i valid)))
          | inr later ↦ (iff i).1 (inr (ground (arith, m, later), st))
        ]
      ],
    ),
  )

  add_calls-Exact :
      ((cs : ℕ) → Answers (sub cs))
      → (valid sites : List ℕ) → Exact valid sites (add_calls g this sub valid sites)
  unfolding add_calls contains
  add_calls-Exact ends valid [] =
      (valid, refl, λ i. (λ h. inl h, λ h. elim h [ inl q ↦ q | inr q ↦ cc ]))
  add_calls-Exact ends valid (cs ∷ sites) =
      elim (Bool-cases
        (not (has_parent g (some cs)) || not (same_opt (func_of g cs) (get_func g this)))) [
          | inl foreign ↦ rw foreign (
              Exact-skip valid sites cs _ (λ st. ground (arith, st, foreign))
                (add_calls-Exact ends valid sites))
          | inr local ↦
              let (r, k) = ends cs in
              elim (Bool-cases r) [
                | inl passed ↦
                    rw (local, k, passed)
                      (Exact-skip valid sites cs _ (λ st. cc (st.2, k, passed))
                        (add_calls-Exact ends valid sites))
                | inr stopped ↦
                    rw (local, k, stopped)
                      (Exact-insert valid sites cs _
                        (ground (arith, local), ground (arith, local), cc)
                        (add_calls-Exact ends (insert cs valid) sites))
              ]
        ]

Within-total : (n : ℕ) (bis : List InstLoc) → total_sites bis ≤ n → Within n bis
unfolding total_sites
Within-total n [] h = tt
Within-total n (bi ∷ bis) h = (omega arith, Within-total n bis (omega arith))

module _ (g : Cfg) (v : IsVerified g) (idoms : ℕ → List ℕ) (this : InstLoc)
    (blocklist : List InstLoc) where
  -- The call of bypassCall in the loop.
  abbrev asked : ℕ → Outcome
  asked cs =
      bypass_call (suc (total_sites blocklist)) g idoms (behind this cs blocklist)
        (length this.ctx + 1)

  -- What bypassCall answers of the call at `cs` for the blockers whose contexts go on through it.
  abbrev pub bypassed : ℕ → Outcome
  bypassed cs =
      bypass_call (suc (total_sites blocklist)) g idoms (select (is_through this.ctx cs) blocklist)
        (length this.ctx + 1)

  asked-bypassed : (cs : ℕ) → asked cs ≡ bypassed cs
  asked-bypassed cs =
      ap (λ bis. bypass_call (suc (total_sites blocklist)) g idoms bis (length this.ctx + 1))
        (behind-select this cs blocklist)

  asked-Answers : (cs : ℕ) → Answers (asked cs)
  unfolding behind
  asked-Answers cs =
      bypass_call-Answers g v idoms (total_sites blocklist) (behind this cs blocklist)
        (length this.ctx + 1) (Within-select _ _ blocklist (Within-total _ blocklist (omega arith)))

  -- What getBlockersInCurrFunc collects, from the places of the blockers.
  abbrev pub Blocks : ℕ → Type 0
  Blocks i =
      Holds blocklist (IsHere this.ctx i)
      ⊎ (Holds blocklist (IsThrough this.ctx i) × Stops g this bypassed i)

  keys-Blocks :
      (i : ℕ)
      → has_ctx this ≡ true
      → ((contains (keys (direct_site this) blocklist) i ≡ true)
          ⊎ ((contains (keys (behind_site this) blocklist) i ≡ true) × Stops g this asked i))
        ↔ Blocks i
  keys-Blocks i local =
      let direct = keys_iff (direct_site this) blocklist i in
      let calls = keys_iff (behind_site this) blocklist i in
      (
        λ m. elim m [
          | inl q ↦
              inl (
                Holds-map _ _ blocklist (λ bi. (direct_site-IsHere this bi i local).0) (direct.0 q))
          | inr (q, (p, f, stops)) ↦ inr (
            Holds-map _ _ blocklist (λ bi. (behind_site-IsThrough this bi i).0) (calls.0 q),
            (p, f, sym (asked-bypassed i) ∙ stops),
          )
        ],
        λ m. elim m [
          | inl q ↦
              inl (
                direct.1 (Holds-map _ _ blocklist (λ bi. (direct_site-IsHere this bi i local).1) q))
          | inr (q, (p, f, stops)) ↦ inr (
            calls.1 (Holds-map _ _ blocklist (λ bi. (behind_site-IsThrough this bi i).1) q),
            (p, f, asked-bypassed i ∙ stops),
          )
        ],
      )

  -- In a verified module, for a location with a context, getBlockersInCurrFunc collects exactly the
  -- instructions of the blockers that stand in exactly the location's context, and those call sites
  -- of the location's function through which the context of some blocker goes on and for which
  -- bypassCall answers, of all the blockers behind the call site, that there is no way around them.
  pub get_blockers_in_curr_func-exact :
      has_ctx this ≡ true
      → (valid : List ℕ) × (get_blockers_in_curr_func g idoms this blocklist ≡ some valid)
        × ((i : ℕ) → (contains valid i ≡ true) ↔ Blocks i)
  unfolding get_blockers_in_curr_func contains
  get_blockers_in_curr_func-exact h = elim (Bool-cases (is_empty blocklist)) [
    | inl nothing ↦ rw (nothing) (
      [],
      refl,
      λ i. (
        λ m. cc,
        λ m. elim m [
          | inl q ↦ absurd (Holds-empty _ blocklist nothing q)
          | inr (q, st) ↦ absurd (Holds-empty _ blocklist nothing q)
        ],
      ),
    )
    | inr something ↦
        let skip : is_empty blocklist || not (has_ctx this) ≡ false =
          ground (arith, something, h) in
        let (all, e, iff) =
          add_calls-Exact g this asked asked-Answers (keys (direct_site this) blocklist)
            (keys (behind_site this) blocklist) in
        rw skip (
          all,
          e,
          λ i. (λ m. (keys-Blocks i h).0 ((iff i).0 m), λ m. (iff i).1 ((keys-Blocks i h).1 m)),
        )
  ]
