-- ===== src/Context/Lists.antt =====
-- Equality and prefixes of call-site lists, and the search of a list.
use study_uafx.Base.{
  ℕ, zero, suc, ◌+◌, ◌≡◌, ◌≤◌, refl, ◌==◌, ap, ◌↔◌, ◌⊎◌, inl, inr, Bool, true, false, none, some,
  List, [], ◌∷◌, ◌++◌, length, get_elem?, contains, same_opt_iff, Bool-cases, arith,
}
use study_uafx.Context.{CallSites, same_sites, find, matches, select_contexts}

pub eq-of_same_sites : (a b : CallSites) → same_sites a b ≡ true → a ≡ b
unfolding same_sites
eq-of_same_sites [] [] h = refl
eq-of_same_sites [] (b ∷ ys) h = cc
eq-of_same_sites (a ∷ xs) [] h = cc
eq-of_same_sites (a ∷ xs) (b ∷ ys) h =
    let e : a ≡ b = (same_opt_iff a b).0 (ground (arith, h)) in
    let f : xs ≡ ys = eq-of_same_sites xs ys (ground (arith, h)) in cc

pub same_sites_refl : (a : CallSites) → same_sites a a ≡ true
unfolding same_sites
same_sites_refl [] = refl
same_sites_refl (a ∷ xs) = ground (arith, (same_opt_iff a a).1 refl, same_sites_refl xs)

pub matches_iff : (a b : CallSites) → (matches a b ≡ true) ↔ ((rest : CallSites) × (b ≡ a ++ rest))
unfolding matches
matches_iff [] b = (λ h. (b, refl), λ h. refl)
matches_iff (a ∷ xs) [] = (λ h. cc, λ (rest, e). cc)
matches_iff (a ∷ xs) (b ∷ ys) = (
  λ h.
      let e : b ≡ a = (same_opt_iff b a).0 (ground (arith, h)) in
      let (rest, f) = (matches_iff xs ys).0 (ground (arith, h)) in (rest, cc),
  λ (rest, e).
      let hd : b ≡ a = cc in
      let tl : ys ≡ xs ++ rest = cc in
      ground (arith, (same_opt_iff b a).1 hd, (matches_iff xs ys).1 (rest, tl)),
)

module _ {ℓ} {A : Type ℓ} where
  pub get_append :
      (xs ys : List A) (i : ℕ) (a : A) → get_elem? xs i ≡ some a → get_elem? (xs ++ ys) i ≡ some a
  get_append [] ys i a h = cc
  get_append (x ∷ xs) ys zero a h = h
  get_append (x ∷ xs) ys (suc i) a h = get_append xs ys i a h

  pub get_last : (xs : List A) (a : A) → get_elem? (xs ++ (a ∷ [])) (length xs) ≡ some a
  get_last [] a = refl
  get_last (x ∷ xs) a = get_last xs a

  pub get_appended :
      (xs : List A) (x : A) (i : ℕ) (a : A)
      → get_elem? (xs ++ (x ∷ [])) i ≡ some a
      → (get_elem? xs i ≡ some a) ⊎ ((i ≡ length xs) × (a ≡ x))
  get_appended [] x zero a h = inr (refl, cc)
  get_appended [] x (suc i) a h = cc
  get_appended (y ∷ xs) x zero a h = inl h
  get_appended (y ∷ xs) x (suc i) a h = elim (get_appended xs x i a h) [
    | inl old ↦ inl old
    | inr (e, f) ↦ inr (ap suc e, f)
  ]

module _ (p : CallSites → Bool) where
  pub find-some :
      (k : ℕ) (dir : List CallSites) (i : ℕ)
      → find p k dir ≡ some i
      → (j : ℕ) × (c : CallSites) × (i ≡ k + j) × (get_elem? dir j ≡ some c) × (p c ≡ true)
  unfolding find
  find-some k [] i h = cc
  find-some k (c ∷ dir) i h = elim (Bool-cases (p c)) [
    | inl hit ↦ (0, c, ground (arith, hit, h), refl, hit)
    | inr miss ↦
        let (j, d, e, f, g) = find-some (suc k) dir i (ground (arith, miss, h)) in
        (suc j, d, omega arith, f, g)
  ]

  pub find-none :
      (k : ℕ) (dir : List CallSites) (j : ℕ) (c : CallSites)
      → find p k dir ≡ none
      → get_elem? dir j ≡ some c
      → p c ≡ false
  unfolding find
  find-none k [] j c h e = cc
  find-none k (d ∷ dir) zero c h e = elim (Bool-cases (p d)) [
    | inl hit ↦ ground (arith, hit, h)
    | inr miss ↦ let q : d ≡ c = cc in rw (← q) miss
  ]
  find-none k (d ∷ dir) (suc j) c h e = elim (Bool-cases (p d)) [
    | inl hit ↦ ground (arith, hit, h)
    | inr miss ↦ find-none (suc k) dir j c (ground (arith, miss, h)) e
  ]

  select_contexts-above :
      (k : ℕ) (dir : List CallSites) (m : ℕ) → contains (select_contexts p k dir) m ≡ true → k ≤ m
  unfolding select_contexts contains
  select_contexts-above k [] m h = cc
  select_contexts-above k (c ∷ dir) m h = elim (Bool-cases (p c)) [
    | inl hit ↦ elim (Bool-cases (k == m)) [
      | inl here ↦ ground (arith, here)
      | inr later ↦
          ground (arith, select_contexts-above (suc k) dir m (ground (arith, hit, h, later)))
    ]
    | inr miss ↦ ground (arith, select_contexts-above (suc k) dir m (ground (arith, miss, h)))
  ]

  pub select_contexts_sound :
      (k : ℕ) (dir : List CallSites) (i : ℕ)
      → contains (select_contexts p k dir) (k + i) ≡ true
      → (c : CallSites) × (get_elem? dir i ≡ some c) × (p c ≡ true)
  unfolding select_contexts contains
  select_contexts_sound k [] i h = cc
  select_contexts_sound k (c ∷ dir) zero h = elim (Bool-cases (p c)) [
    | inl hit ↦ (c, refl, hit)
    | inr miss ↦
        absurd (omega (arith, select_contexts-above (suc k) dir (k + 0) (ground (arith, miss, h))))
  ]
  select_contexts_sound k (c ∷ dir) (suc i) h =
      let next : k + suc i ≡ suc k + i = omega arith in
      select_contexts_sound (suc k) dir i (elim (Bool-cases (p c)) [
        | inl hit ↦ ground (arith, hit, h, next)
        | inr miss ↦ ground (arith, miss, h, next)
      ])

  pub select_contexts_complete :
      (k : ℕ) (dir : List CallSites) (i : ℕ) (c : CallSites)
      → get_elem? dir i ≡ some c
      → p c ≡ true
      → contains (select_contexts p k dir) (k + i) ≡ true
  unfolding select_contexts contains
  select_contexts_complete k [] i c e h = cc
  select_contexts_complete k (d ∷ dir) zero c e h =
      let q : d ≡ c = cc in let hit : p d ≡ true = (rw q h) in ground (arith, hit)
  select_contexts_complete k (d ∷ dir) (suc i) c e h =
      let next : k + suc i ≡ suc k + i = omega arith in
      let deeper = select_contexts_complete (suc k) dir i c e h in
      elim (Bool-cases (p d)) [
        | inl hit ↦ ground (arith, hit, deeper, next)
        | inr miss ↦ ground (arith, miss, deeper, next)
      ]
