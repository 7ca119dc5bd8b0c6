-- ===== src/Reach/Visit.antt =====
-- The visit of one block, judged against the walks.
use study_uafx.Base.{
  ℕ, ◌≡◌, inl, inr, ⊎_elim, true, false, Option, none, some, List, [], ◌∷◌, ◌==◌, ==_iff, ==_refl,
  Bool-cases, arith, contains, is_empty, select-none, select-some, contains-select,
  eq-nil_of_is_empty, ap, subst,
}
use study_uafx.Cfg.{Cfg, IsVerified, in_block, in_block_iff, in_block_unique, in_block_of_mem}
use study_uafx.Reach.Walk.{Clear, Hits, Goal}
use study_uafx.Reach.{
  Verdict, found, killed, pruned, explored, trap, scan_block, blockers_in, visit_stop, visit_return,
  visit,
}

-- What each verdict has to mean.
abbrev pub Judged : Cfg → Option ℕ → List ℕ → ℕ → Verdict → Type 0
Judged g stop blocklist b found = Goal g stop blocklist b
Judged g stop blocklist b killed = (c : ℕ) → ¬ Goal g stop blocklist c
Judged g stop blocklist b pruned = (¬ Clear g blocklist b) × (¬ Goal g stop blocklist b)
Judged g stop blocklist b explored = Clear g blocklist b × (¬ Goal g stop blocklist b)
Judged g stop blocklist b trap = ⊥

-- The scan of a block that holds `stop`.
abbrev Scanned : ℕ → List ℕ → List ℕ → Verdict → Type 0
Scanned stop blocklist xs found = Hits stop blocklist xs
Scanned stop blocklist xs killed = ¬ Hits stop blocklist xs
Scanned stop blocklist xs _ = ⊥

Scanned-cons :
    (stop : ℕ) (blocklist : List ℕ) (i : ℕ) (rest : List ℕ) (v : Verdict)
    → i == stop ≡ false
    → contains blocklist i ≡ false
    → Scanned stop blocklist rest v
    → Scanned stop blocklist (i ∷ rest) v
Scanned-cons stop blocklist i rest found miss free h = inr (free, h)
Scanned-cons stop blocklist i rest killed miss free h =
    ⊎_elim (λ e. ground (arith, miss, e)) (λ p. h p.1)
Scanned-cons stop blocklist i rest _ miss free h = h

scan_block-Scanned :
    (stop : ℕ) (blocklist valid xs : List ℕ)
    → ((i : ℕ) → contains xs i ≡ true → contains valid i ≡ contains blocklist i)
    → contains xs stop ≡ true
    → Scanned stop blocklist xs (scan_block stop valid xs)
unfolding scan_block contains
scan_block-Scanned stop blocklist valid [] same m = cc
scan_block-Scanned stop blocklist valid (i ∷ rest) same m = elim (Bool-cases (i == stop)) [
  | inl hit ↦ rw hit (inl ((==_iff i stop).0 hit))
  | inr miss ↦ elim (Bool-cases (contains valid i)) [
    | inl blocked ↦
        rw (miss, blocked)
          (⊎_elim (λ e. ground (arith, miss, e)) (λ p. ground (arith, same i, ==_refl i)))
    | inr free ↦
        rw (miss, free)
          (Scanned-cons stop blocklist i rest _ miss (ground (arith, same i, ==_refl i)) (
            scan_block-Scanned stop blocklist valid rest (λ j h. ground (arith, same j))
              (ground arith)))
  ]
]

module _ (g : Cfg) (blocklist : List ℕ) (b : ℕ) where
  Clear-of_empty : is_empty (blockers_in g blocklist b) ≡ true → Clear g blocklist b
  unfolding blockers_in
  Clear-of_empty e = select-none (in_block g b) blocklist e

  not_Clear_of_some : is_empty (blockers_in g blocklist b) ≡ false → ¬ Clear g blocklist b
  unfolding blockers_in
  not_Clear_of_some e clear =
      let (i, m, here) = select-some (in_block g b) blocklist e in cc (clear i m)

  contains-blockers_in :
      (i : ℕ)
      → in_block g b i ≡ true
      → contains (blockers_in g blocklist b) i ≡ contains blocklist i
  unfolding blockers_in
  contains-blockers_in i here = ground (arith, contains-select (in_block g b) blocklist i)

  visit_return-Judged : Judged g none blocklist b (visit_return g blocklist b)
  unfolding visit_return
  visit_return-Judged = elim (Bool-cases (is_empty (g.succs b))) [
    | inl last ↦ elim (Bool-cases (is_empty (blockers_in g blocklist b))) [
      | inl free ↦ rw (last, free) (eq-nil_of_is_empty _ last, Clear-of_empty free)
      | inr hit ↦ rw (last, hit) (not_Clear_of_some hit, λ goal. not_Clear_of_some hit goal.1)
    ]
    | inr more ↦ elim (Bool-cases (is_empty (blockers_in g blocklist b))) [
      | inl free ↦ rw (more, free) (Clear-of_empty free, λ goal. cc (ap is_empty goal.0))
      | inr hit ↦ rw (more, hit) (not_Clear_of_some hit, λ goal. not_Clear_of_some hit goal.1)
    ]
  ]

  Hits-of_free :
      (stop : ℕ) (xs : List ℕ)
      → ((i : ℕ) → contains xs i ≡ true → contains blocklist i ≡ false)
      → contains xs stop ≡ true
      → Hits stop blocklist xs
  unfolding contains
  Hits-of_free stop [] free m = cc
  Hits-of_free stop (i ∷ rest) free m = elim (Bool-cases (i == stop)) [
    | inl hit ↦ inl ((==_iff i stop).0 hit)
    | inr miss ↦ inr (
      ground (arith, free i, ==_refl i),
      Hits-of_free stop rest (λ j h. ground (arith, free j)) (ground arith),
    )
  ]

  Judged-of_Scanned :
      (stop : ℕ) (w : Verdict)
      → in_block g b stop ≡ true
      → Scanned stop blocklist (g.insts b) w
      → Judged g (some stop) blocklist b w
  Judged-of_Scanned stop found host h = (host, h)
  Judged-of_Scanned stop killed host h = λ c goal.
      h (
        subst (λ d. Hits stop blocklist (g.insts d)) (in_block_unique g c b stop goal.0 host)
          goal.1)
  Judged-of_Scanned stop _ host h = absurd h

  visit_stop-Judged :
      (stop : ℕ) → IsVerified g → Judged g (some stop) blocklist b (visit_stop g stop blocklist b)
  unfolding visit_stop
  visit_stop-Judged stop v = elim (Bool-cases (in_block g b stop)) [
    | inl host ↦
        let member = (v.linked b stop).0 ((in_block_iff g b stop).0 host) in
        elim (Bool-cases (is_empty (blockers_in g blocklist b))) [
          | inl free ↦
              rw (host, free)
                (
                  host,
                  Hits-of_free stop (g.insts b)
                      (λ i m. ground (arith, Clear-of_empty free i, in_block_of_mem g v b i m))
                      member,
                )
          | inr hit ↦
              rw (host, hit)
                (Judged-of_Scanned stop _ host (
                  scan_block-Scanned stop blocklist (blockers_in g blocklist b) (g.insts b)
                    (λ i m. contains-blockers_in i (in_block_of_mem g v b i m)) member))
        ]
    | inr other ↦ elim (Bool-cases (is_empty (blockers_in g blocklist b))) [
      | inl free ↦ rw (other, free) (Clear-of_empty free, λ goal. cc goal.0)
      | inr hit ↦ rw (other, hit) (not_Clear_of_some hit, λ goal. cc goal.0)
    ]
  ]

  pub visit-Judged :
      (stop : Option ℕ) → IsVerified g → Judged g stop blocklist b (visit g stop blocklist b)
  unfolding visit
  visit-Judged none v = visit_return-Judged
  visit-Judged (some stop) v = visit_stop-Judged stop v
