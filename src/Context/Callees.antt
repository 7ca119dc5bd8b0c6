-- ===== src/Context/Callees.antt =====
-- Prefixes of calling contexts, and the contexts of the callees of a call site.
use study_uafx.Base.{
  ℕ, zero, suc, ◌+◌, ◌-◌, ◌%◌, ◌≡◌, ◌≢◌, ◌<◌, refl, ap, ◌∙◌, if◌then◌else◌, ◌||◌, ◌↔◌, inl, inr,
  true, false, ◌&&◌, not, Option, some, List, [], ◌∷◌, ◌++◌, length, get_elem?, take, Option-cases,
  Bool-cases, ◌==◌, ltb, leb, arith, is_empty, same_opt, same_opt_iff, contains,
}
use study_uafx.Context.{
  CallSites, first_site, matches, PrefixResult, unrelated, identical, prefix_until, is_prefix,
  get_prefix, same_site, is_callee, indirect, body, get_callee_ctx, find_context,
}
use study_uafx.Context.Lists.{matches_iff, select_contexts_sound, select_contexts_complete}
use study_uafx.Context.Directory.{
  IsDirectory, nonempty-of_odd, find_context_complete, find_context-some, get_context-canonical,
}

length-append : (a b : CallSites) → length (a ++ b) ≡ length a + length b
length-append [] b = omega arith
length-append (x ∷ a) b = omega (arith, length-append a b)

nil-of_length : (a : CallSites) → length a ≡ 0 → a ≡ []
nil-of_length [] h = refl
nil-of_length (x ∷ a) h = absurd (omega arith)

pub append_nil : (a : CallSites) → a ++ [] ≡ a
append_nil [] = refl
append_nil (x ∷ a) = ap (λ t. x ∷ t) (append_nil a)

-- What the answers of isPrefix mean.
abbrev pub PrefixMeans : CallSites → CallSites → PrefixResult → Type 0
PrefixMeans this other identical = other ≡ this
PrefixMeans this other (prefix_until n) =
    (n ≡ length this) × ((a : Option ℕ) × (rest : CallSites) × (other ≡ this ++ (a ∷ rest)))
PrefixMeans this other unrelated = (rest : CallSites) → other ≢ this ++ rest

prefix_rest :
    (this other rest : CallSites)
    → other ≡ this ++ rest
    → PrefixMeans this other
        (if length this == length other then identical else prefix_until (length this))
prefix_rest this other [] e =
    let q : other ≡ this = e ∙ append_nil this in
    let n : length this == length other ≡ true = ground (arith, ap length q) in rw n q
prefix_rest this other (a ∷ rest) e =
    let n : length this == length other ≡ false =
      ground (arith, ap length e, length-append this (a ∷ rest)) in
    rw n (refl, (a, rest, e))

-- isPrefix answers 0 exactly for equal call sites, the length of the first context for call sites
-- that go on after it, and -1 exactly when the first is no prefix of the second.
pub is_prefix-PrefixMeans :
    (this other : CallSites) → PrefixMeans this other (is_prefix this (some other))
unfolding is_prefix
is_prefix-PrefixMeans this other = elim (Bool-cases (ltb (length other) (length this))) [
  | inl short ↦ rw short (λ rest e. ground (arith, short, ap length e, length-append this rest))
  | inr long ↦ elim (Bool-cases (matches this other)) [
    | inr differs ↦
        rw (long, differs) (λ rest e. ground (arith, differs, (matches_iff this other).1 (rest, e)))
    | inl agrees ↦
        let (rest, e) = (matches_iff this other).0 agrees in
        rw (long, agrees) (prefix_rest this other rest e)
  ]
]

take-length : (a : CallSites) (n : ℕ) → n ≡ length a → take n a ≡ a
take-length [] zero h = refl
take-length [] (suc n) h = absurd (omega arith)
take-length (x ∷ a) zero h = absurd (omega arith)
take-length (x ∷ a) (suc n) h = ap (λ t. x ∷ t) (take-length a n (omega arith))

pub length-take : (a : CallSites) (n : ℕ) → n < length a → length (take n a) ≡ n
length-take a zero h = refl
length-take [] (suc n) h = absurd (omega arith)
length-take (x ∷ a) (suc n) h = ap suc (length-take a n (omega arith))

-- In a directory, getPrefix with an even index below the number of call sites, and leave to create,
-- returns a context whose call sites are those up to the index.
pub get_prefix-take :
    (dir : List CallSites) (this : ℕ) (sites : CallSites) (ci : ℕ)
    → IsDirectory dir
    → get_elem? dir this ≡ some sites
    → ci % 2 ≡ 0
    → ci < length sites
    → let got = get_prefix dir this sites ci true in
      (i : ℕ) × (got.context ≡ some i) × (get_elem? got.dir i ≡ some (take (suc ci) sites))
unfolding get_prefix
get_prefix-take dir this sites ci d at_this even inside =
    let ok : leb (length sites) ci || not (ci % 2 == 0) ≡ false = ground (arith, even, inside) in
    elim (Bool-cases (ci == length sites - 1)) [
      | inl whole ↦
          rw (ok, whole)
            (this, refl, rw (take-length sites (suc ci) (ground (arith, whole, inside))) at_this)
      | inr part ↦
          let odd : length (take (suc ci) sites) % 2 ≡ 1 =
            rw (length-take sites (suc ci) (ground (arith, part, inside))) (omega arith) in
          let (i, e, f, keeps, again) =
            get_context-canonical dir (take (suc ci) sites) true d odd in
          rw (ok, part) (i, e, f)
    ]

get_at :
    (xs : CallSites) (y : Option ℕ) (r : CallSites) → get_elem? (xs ++ (y ∷ r)) (length xs) ≡ some y
get_at [] y r = refl
get_at (x ∷ xs) y r = get_at xs y r

is_callee_rest :
    (sites : CallSites) (ci : ℕ) (rest : CallSites)
    → length (sites ++ rest) ≡ length sites + 2
    → same_site (get_elem? (sites ++ rest) (length sites)) ci ≡ true
    → (x : Option ℕ) × (sites ++ rest ≡ sites ++ (some ci ∷ x ∷ []))
unfolding same_site
is_callee_rest sites ci [] n h = absurd (omega (arith, length-append sites []))
is_callee_rest sites ci (y ∷ []) n h = absurd (omega (arith, length-append sites (y ∷ [])))
is_callee_rest sites ci (y ∷ x ∷ []) n h =
    let k : same_opt y (some ci) ≡ true = (rw (get_at sites y (x ∷ [])) at h) in
    (x, ap (λ t. sites ++ (t ∷ x ∷ [])) ((same_opt_iff y (some ci)).0 k))
is_callee_rest sites ci (y ∷ x ∷ z ∷ rest) n h =
    absurd (omega (arith, length-append sites (y ∷ x ∷ z ∷ rest)))

is_callee_sound :
    (sites : CallSites) (ci : ℕ) (c : CallSites)
    → is_callee sites ci c ≡ true
    → (x : Option ℕ) × (c ≡ sites ++ (some ci ∷ x ∷ []))
unfolding is_callee
is_callee_sound sites ci c h =
    let (rest, e) = (matches_iff sites c).0 (ground (arith, h)) in
    let n : length c ≡ length sites + 2 = ground (arith, h) in
    let k : same_site (get_elem? c (length sites)) ci ≡ true = ground (arith, h) in
    let (x, f) = is_callee_rest sites ci rest (rw e at n) (rw e at k) in (x, e ∙ f)

is_callee_complete :
    (sites : CallSites) (ci : ℕ) (x : Option ℕ)
    → is_callee sites ci (sites ++ (some ci ∷ x ∷ [])) ≡ true
unfolding is_callee same_site
is_callee_complete sites ci x = ground (
  arith,
  length-append sites (some ci ∷ x ∷ []),
  get_at sites (some ci) (x ∷ []),
  (matches_iff sites (sites ++ (some ci ∷ x ∷ []))).1 (some ci ∷ x ∷ [], refl),
  (same_opt_iff (some ci) (some ci)).1 refl,
)

first_site-append :
    (sites rest : CallSites)
    → is_empty sites ≡ false
    → first_site (sites ++ rest) ≡ first_site sites
unfolding first_site
first_site-append [] rest h = cc
first_site-append (a ∷ sites) rest h = refl

zero_plus : (i : ℕ) → 0 + i ≡ i
zero_plus i = omega arith

-- For an indirect call under a context, getCalleeCtx succeeds and returns exactly the contexts on
-- file that go on from that context with this call site and one more entry.
pub get_callee_ctx-indirect :
    (dir : List CallSites) (sites : CallSites) (ci : ℕ)
    → is_empty sites ≡ false
    → (res : List ℕ) × (get_callee_ctx dir (some sites) ci indirect ≡ some res)
      × ((i : ℕ)
          → (contains res i ≡ true)
            ↔ ((x : Option ℕ) × (get_elem? dir i ≡ some (sites ++ (some ci ∷ x ∷ [])))))
unfolding get_callee_ctx
get_callee_ctx-indirect dir sites ci h =
    let p = λ (c : CallSites). same_opt (first_site c) (first_site sites) && is_callee sites ci c in
    (
      _,
      rw h,
      λ i. (
        λ m.
            let (c, e, f) = select_contexts_sound p 0 dir i (rw (zero_plus i) m) in
            let (x, k) = is_callee_sound sites ci c (ground (arith, f)) in (x, e ∙ ap some k),
        λ (x, e).
            let top = first_site-append sites (some ci ∷ x ∷ []) h in
            let same_top : same_opt (first_site (sites ++ (some ci ∷ x ∷ []))) (first_site sites)
                ≡ true =
              (same_opt_iff _ _).1 top in
            rw (zero_plus i) at (
              select_contexts_complete p 0 dir i _ e
                (ground (arith, same_top, is_callee_complete sites ci x))),
      ),
    )

-- For a direct call whose callee has a body, under a context of a directory, getCalleeCtx returns
-- one context exactly when the context of the call is on file, and then that one.
pub get_callee_ctx-direct :
    (dir : List CallSites) (sites : CallSites) (ci e i : ℕ)
    → IsDirectory dir
    → length sites % 2 ≡ 1
    → (get_callee_ctx dir (some sites) ci (body (some e)) ≡ some (i ∷ []))
      ↔ (get_elem? dir i ≡ some (sites ++ (some ci ∷ some e ∷ [])))
unfolding get_callee_ctx
get_callee_ctx-direct dir sites ci e i d odd =
    let callee = sites ++ (some ci ∷ some e ∷ []) in
    let n : length callee % 2 == 0 ≡ false =
      ground (arith, odd, length-append sites (some ci ∷ some e ∷ [])) in
    let full = nonempty-of_odd sites odd in
    elim (Option-cases (find_context dir callee)) [
      | inl f ↦ rw (full, n, f) (λ h. cc, λ h. cc (find_context_complete dir callee i d h, f))
      | inr (j, f) ↦
          rw (full, n, f)
            (
              λ h. let q : j ≡ i = cc in rw (← q) (find_context-some dir callee j f),
              λ h.
                  let q : j ≡ i = d.once j i callee (find_context-some dir callee j f) h in
                  ap (λ t. some (t ∷ [])) q,
            )
    ]
