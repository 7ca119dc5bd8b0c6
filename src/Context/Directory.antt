-- ===== src/Context/Directory.antt =====
-- CallContext::getContext keeps one context per list of call sites.
use study_uafx.Base.{
  ℕ, ◌%◌, ◌≡◌, ◌≢◌, refl, ◌⊎◌, inl, inr, Bool, true, false, ◌&&◌, Option, none, some, List, [], ◌∷◌,
  ◌++◌, length, get_elem?, Option-cases, Bool-cases, ◌==◌, arith, is_empty, same_opt_iff,
}
use study_uafx.Context.{
  CallSites, same, in_bucket, first_site, last_site, find_context, get_context,
}
use study_uafx.Context.Lists.{
  eq-of_same_sites, same_sites_refl, get_append, get_last, get_appended, find-some, find-none,
}

-- A directory holds call-site lists of odd length, each once.
pub record IsDirectory (dir : List CallSites) : Type 0 where
  pub odd : (i : ℕ) (c : CallSites) → get_elem? dir i ≡ some c → length c % 2 ≡ 1
  pub once : (i j : ℕ) (c : CallSites) → get_elem? dir i ≡ some c → get_elem? dir j ≡ some c → i ≡ j

pub find_context-some :
    (dir : List CallSites) (sites : CallSites) (i : ℕ)
    → find_context dir sites ≡ some i
    → get_elem? dir i ≡ some sites
unfolding find_context same
find_context-some dir sites i h =
    let (j, c, e, f, g) = find-some (λ c. in_bucket sites c && same c sites) 0 dir i h in
    let q : c ≡ sites = eq-of_same_sites c sites (ground (arith, g)) in
    let n : i ≡ j = omega arith in rw (n, f, q)

in_bucket_refl : (sites : CallSites) → in_bucket sites sites ≡ true
unfolding in_bucket
in_bucket_refl sites = ground (
  arith,
  (same_opt_iff (first_site sites) (first_site sites)).1 refl,
  (same_opt_iff (last_site sites) (last_site sites)).1 refl,
)

pub nonempty-of_odd : (sites : CallSites) → length sites % 2 ≡ 1 → is_empty sites ≡ false
nonempty-of_odd [] h = absurd (omega arith)
nonempty-of_odd (a ∷ xs) h = refl

find_context-none :
    (dir : List CallSites) (sites : CallSites) (j : ℕ)
    → length sites % 2 ≡ 1
    → find_context dir sites ≡ none
    → get_elem? dir j ≢ some sites
unfolding find_context same
find_context-none dir sites j odd h e =
    let miss = find-none (λ c. in_bucket sites c && same c sites) 0 dir j sites h e in
    ground (arith, miss, in_bucket_refl sites, same_sites_refl sites, nonempty-of_odd sites odd)

get_context-dir :
    (dir : List CallSites) (sites : CallSites) (create : Bool)
    → ((get_context dir (some sites) create).dir ≡ dir)
      ⊎ (((get_context dir (some sites) create).dir ≡ dir ++ (sites ∷ []))
          × (length sites % 2 ≡ 1)
          × (find_context dir sites ≡ none))
unfolding get_context
get_context-dir dir sites create = elim (Bool-cases (length sites % 2 == 0)) [
  | inl even ↦ rw even (inl refl)
  | inr odd ↦ elim (Option-cases (find_context dir sites)) [
    | inr (i, e) ↦ rw (odd, e) (inl refl)
    | inl e ↦ elim (Bool-cases create) [
      | inl new ↦ rw (odd, e, new) (inr (refl, ground (arith, odd), refl))
      | inr old ↦ rw (odd, e, old) (inl refl)
    ]
  ]
]

appended-IsDirectory :
    (dir : List CallSites) (sites : CallSites)
    → IsDirectory dir
    → length sites % 2 ≡ 1
    → ((j : ℕ) → get_elem? dir j ≢ some sites)
    → IsDirectory (dir ++ (sites ∷ []))
appended-IsDirectory dir sites d odd new = record {
  odd = λ i c h. elim (get_appended dir sites i c h) [
    | inl old ↦ d.odd i c old
    | inr (e, f) ↦ rw f odd
  ];
  once = λ i j c h k. elim (get_appended dir sites i c h) [
    | inl a ↦ elim (get_appended dir sites j c k) [
      | inl b ↦ d.once i j c a b
      | inr (e, f) ↦ absurd (new i (rw (← f) a))
    ]
    | inr (e, f) ↦ elim (get_appended dir sites j c k) [
      | inl b ↦ absurd (new j (rw (← f) b))
      | inr (e', f') ↦ cc
    ]
  ];
}

-- getContext keeps the directory one that holds each list of call sites of odd length once, for
-- every argument, null and of even length included.
pub get_context-IsDirectory :
    (dir : List CallSites) (sites : Option CallSites) (create : Bool)
    → IsDirectory dir
    → IsDirectory (get_context dir sites create).dir
unfolding get_context
get_context-IsDirectory dir none create d = d
get_context-IsDirectory dir (some sites) create d = elim (get_context-dir dir sites create) [
  | inl e ↦ rw e d
  | inr (e, odd, f) ↦
      rw e (appended-IsDirectory dir sites d odd (λ j. find_context-none dir sites j odd f))
]

pub get_context-keeps :
    (dir : List CallSites) (sites : CallSites) (create : Bool) (i : ℕ) (c : CallSites)
    → get_elem? dir i ≡ some c
    → get_elem? (get_context dir (some sites) create).dir i ≡ some c
get_context-keeps dir sites create i c h = elim (get_context-dir dir sites create) [
  | inl e ↦ rw e h
  | inr (e, odd, f) ↦ rw e (get_append dir (sites ∷ []) i c h)
]

pub get_context-context :
    (dir : List CallSites) (sites : CallSites) (create : Bool) (i : ℕ)
    → (get_context dir (some sites) create).context ≡ some i
    → get_elem? (get_context dir (some sites) create).dir i ≡ some sites
unfolding get_context
get_context-context dir sites create i h = elim (Bool-cases (length sites % 2 == 0)) [
  | inl even ↦ ground (arith, h, even)
  | inr odd ↦ elim (Option-cases (find_context dir sites)) [
    | inr (j, e) ↦
        let q : some j ≡ some i = (rw (odd, e) at h) in
        let n : j ≡ i = cc in rw (odd, e) (rw (← n) (find_context-some dir sites j e))
    | inl e ↦ elim (Bool-cases create) [
      | inl new ↦
          let q : some (length dir) ≡ some i = (rw (odd, e, new) at h) in
          let n : length dir ≡ i = cc in rw (odd, e, new) (rw (← n) (get_last dir sites))
      | inr old ↦ let q : none ≡ some i = (rw (odd, e, old) at h) in cc
    ]
  ]
]

pub find_context_complete :
    (dir : List CallSites) (sites : CallSites) (i : ℕ)
    → IsDirectory dir
    → get_elem? dir i ≡ some sites
    → find_context dir sites ≡ some i
find_context_complete dir sites i d h = elim (Option-cases (find_context dir sites)) [
  | inl e ↦ absurd (find_context-none dir sites i (d.odd i sites h) e h)
  | inr (j, e) ↦ let n : j ≡ i = d.once j i sites (find_context-some dir sites j e) h in rw (← n) e
]

-- The query: once a context with these call sites is on file, getContext returns it, creates
-- nothing and leaves the directory as it is, whether it may create or not.
pub get_context-found :
    (dir : List CallSites) (sites : CallSites) (create : Bool) (i : ℕ)
    → IsDirectory dir
    → get_elem? dir i ≡ some sites
    → get_context dir (some sites) create ≡ record { dir = dir; context = some i; created = false }
unfolding get_context
get_context-found dir sites create i d h =
    let odd : length sites % 2 == 0 ≡ false = ground (arith, d.odd i sites h) in
    rw (odd, find_context_complete dir sites i d h)

pub get_context-made :
    (dir : List CallSites) (sites : CallSites)
    → length sites % 2 ≡ 1
    → (i : ℕ) × ((get_context dir (some sites) true).context ≡ some i)
unfolding get_context
get_context-made dir sites odd =
    let q : length sites % 2 == 0 ≡ false = ground (arith, odd) in
    elim (Option-cases (find_context dir sites)) [
      | inl e ↦ (length dir, rw (q, e))
      | inr (j, e) ↦ (j, rw (q, e))
    ]

-- In a directory, the call that may create gives every list of call sites of odd length a context
-- with these call sites; contexts on file keep their place and call sites; and a later call with
-- the same call sites returns the same context and changes nothing.
pub get_context-canonical :
    (dir : List CallSites) (sites : CallSites) (create : Bool)
    → IsDirectory dir
    → length sites % 2 ≡ 1
    → let made = get_context dir (some sites) true in
      (i : ℕ) × (made.context ≡ some i)
      × (get_elem? made.dir i ≡ some sites)
      × ((j : ℕ) (c : CallSites) → get_elem? dir j ≡ some c → get_elem? made.dir j ≡ some c)
      × (get_context made.dir (some sites) create
          ≡ record { dir = made.dir; context = some i; created = false })
get_context-canonical dir sites create d odd =
    let (i, e) = get_context-made dir sites odd in
    let at_i = get_context-context dir sites true i e in
    (
      i,
      e,
      at_i,
      get_context-keeps dir sites true,
      get_context-found _ sites create i (get_context-IsDirectory dir (some sites) true d) at_i,
    )
