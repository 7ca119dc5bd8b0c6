-- ===== src/Sites/Exact.antt =====
-- The free sites of an object field: those of the object, its hosts and what is embedded at the field.
use study_uafx.Base.{
  ℕ, zero, suc, ◌≡◌, refl, sym, ap, ◌∙◌, Bool, true, ◌||◌, Option, some, List, [], ◌∷◌, ◌++◌, ◌==◌,
  ltb, contains, arith, Bool-cases, Option-cases, inl, inr, ◌⊎◌, ◌↔◌, ==_iff, ==_refl,
}
use study_uafx.Base.Int.{ℤ, pos}
use study_uafx.Loc.{InstLoc}
use study_uafx.Sites.{
  Objs, get_emb_objs, all_emb, hosts, heads, with_first, locs_in, sites_of, get_free_sites,
  get_field_free_sites,
}
use study_uafx.Sites.Cover.{
  IsHost, IsHead, hosts_sound, hosts_complete, heads_sound, heads_complete, all_emb_source,
}
use study_uafx.Thread.Chain.{has_loc}

-- Objects are nested without a cycle: heights fall from an object to its host, and depths from one to
-- what is embedded at its start.
pub record IsNested (objs : Objs) : Type 0 where
  pub up : ℕ → ℕ
  pub down : ℕ → ℕ
  pub up_falls : (o p : ℕ) → (objs o).parent ≡ some p → ltb (up p) (up o) ≡ true
  pub down_falls :
      (o e : ℕ) → contains (get_emb_objs (objs o) (pos 0)) e ≡ true → ltb (down e) (down o) ≡ true

has_loc-append :
    (f : InstLoc) (xs ys : List InstLoc) → has_loc f (xs ++ ys) ≡ (has_loc f xs || has_loc f ys)
unfolding has_loc
has_loc-append f [] ys = refl
has_loc-append f (x ∷ xs) ys = ground (arith, has_loc-append f xs ys)

abbrev pub is_freed : Objs → ℕ → InstLoc → Bool
is_freed objs q f = has_loc f (locs_in (objs q).free_sites)

-- Whether a site frees the object, a host of it, or an object embedded at the start of the field.
abbrev pub FreesField : Objs → ℕ → ℤ → InstLoc → Type 0
FreesField objs o fid f =
    (q : ℕ) × (IsHost objs o q ⊎ IsHead objs (get_emb_objs (objs o) fid) q)
    × (is_freed objs q f ≡ true)

module _ (objs : Objs) where
  sites_of_source :
      (os : List ℕ) (f : InstLoc)
      → has_loc f (sites_of objs os) ≡ true
      → (q : ℕ) × (contains os q ≡ true) × (is_freed objs q f ≡ true)
  unfolding sites_of contains has_loc
  sites_of_source [] f m = cc
  sites_of_source (o ∷ os) f m =
      let split = sym (has_loc-append f (locs_in (objs o).free_sites) (sites_of objs os)) ∙ m in
      elim (Bool-cases (is_freed objs o f)) [
        | inl here ↦ (o, ground (arith, ==_refl o), here)
        | inr there ↦
            let (q, at_q, frees) = sites_of_source os f (ground (arith, split, there)) in
            (q, ground (arith, at_q), frees)
      ]

  sites_of_has :
      (os : List ℕ) (q : ℕ) (f : InstLoc)
      → contains os q ≡ true
      → is_freed objs q f ≡ true
      → has_loc f (sites_of objs os) ≡ true
  unfolding sites_of contains
  sites_of_has [] q f m n = cc
  sites_of_has (o ∷ os) q f m n =
      has_loc-append f (locs_in (objs o).free_sites) (sites_of objs os)
      ∙ elim (Bool-cases (o == q))
          as (λ x. (is_freed objs o f || has_loc f (sites_of objs os)) ≡ true) [
            | inl here ↦
                let same : is_freed objs o f ≡ true =
                  ap (λ (k : ℕ). is_freed objs k f) ((==_iff o q).0 here) ∙ n in
                ground (arith, same)
            | inr there ↦
                let later = sites_of_has os q f (ground (arith, m, there)) n in
                ground (arith, later)
          ]

module _ (objs : Objs) (nested : IsNested objs) where
  pub hosts_ends :
      (fuel o : ℕ)
      → ltb (nested.up o) fuel ≡ true
      → (hs : List ℕ) × (hosts objs fuel (some o) ≡ some hs)
  unfolding hosts
  hosts_ends zero o h = ground (arith, h)
  hosts_ends (suc fuel) o h = elim (Option-cases (objs o).parent) [
    | inl top ↦ (o ∷ [], ap (λ (x : Option ℕ). with_first (o ∷ []) (hosts objs fuel x)) top)
    | inr (p, parent) ↦
        let falls = nested.up_falls o p parent in
        let (hs, e) = hosts_ends fuel p (ground (arith, h, falls)) in
        (
          o ∷ hs,
          ap (λ (x : Option ℕ). with_first (o ∷ []) (hosts objs fuel x)) parent
              ∙ ap (with_first (o ∷ [])) e,
        )
  ]

  pub heads_ends :
      (fuel : ℕ) (es : List ℕ)
      → ((e : ℕ) → contains es e ≡ true → ltb (nested.down e) fuel ≡ true)
      → (hs : List ℕ) × (heads objs fuel es ≡ some hs)
  unfolding heads contains
  heads_ends fuel [] h = ([], refl)
  heads_ends zero (x ∷ es) h = let first = h x (ground (arith, ==_refl x)) in ground (arith, first)
  heads_ends (suc fuel) (x ∷ es) h =
      let (hs, e) = heads_ends fuel (all_emb objs (x ∷ es)) (λ k m.
        let (p, at_p, in_p) = all_emb_source objs (x ∷ es) k m in
        let falls = nested.down_falls p k in_p in
        let low = h p at_p in ground (arith, falls, low)) in
      ((x ∷ es) ++ hs, ap (with_first (x ∷ es)) e)

  field_sites :
      (fuel o : ℕ) (fid : ℤ) (hs es : List ℕ)
      → hosts objs fuel (some o) ≡ some hs
      → heads objs fuel (get_emb_objs (objs o) fid) ≡ some es
      → get_field_free_sites objs fuel o fid ≡ some (sites_of objs hs ++ sites_of objs es)
  unfolding get_field_free_sites get_free_sites
  field_sites fuel o fid hs es h e = rw (get_field_free_sites, get_free_sites, h, e) refl

  frees_to :
      (fuel o : ℕ) (fid : ℤ) (hs es : List ℕ) (f : InstLoc)
      → hosts objs fuel (some o) ≡ some hs
      → heads objs fuel (get_emb_objs (objs o) fid) ≡ some es
      → has_loc f (sites_of objs hs ++ sites_of objs es) ≡ true
      → FreesField objs o fid f
  frees_to fuel o fid hs es f h e m =
      let split = sym (has_loc-append f (sites_of objs hs) (sites_of objs es)) ∙ m in
      elim (Bool-cases (has_loc f (sites_of objs hs))) [
        | inl host ↦
            let (q, at_q, frees) = sites_of_source objs hs f host in
            (q, inl (hosts_sound objs fuel o q hs h at_q), frees)
        | inr other ↦
            let (q, at_q, frees) = sites_of_source objs es f (ground (arith, split, other)) in
            (q, inr (heads_sound objs fuel (get_emb_objs (objs o) fid) q es e at_q), frees)
      ]

  frees_from :
      (fuel o : ℕ) (fid : ℤ) (hs es : List ℕ) (f : InstLoc)
      → hosts objs fuel (some o) ≡ some hs
      → heads objs fuel (get_emb_objs (objs o) fid) ≡ some es
      → FreesField objs o fid f
      → has_loc f (sites_of objs hs ++ sites_of objs es) ≡ true
  frees_from fuel o fid hs es f h e (q, inl host, frees) =
      let there = sites_of_has objs hs q f (hosts_complete objs fuel o q hs h host) frees in
      has_loc-append f (sites_of objs hs) (sites_of objs es) ∙ ground (arith, there)
  frees_from fuel o fid hs es f h e (q, inr head, frees) =
      let there =
        sites_of_has objs es q f (heads_complete objs fuel (get_emb_objs (objs o) fid) q es e head)
          frees in
      has_loc-append f (sites_of objs hs) (sites_of objs es) ∙ ground (arith, there)

  -- When objects are nested without a cycle, enough fuel lets getFieldFreeSites of a field return, and it
  -- returns exactly the sites that free the object, one of its hosts, or an object embedded at the field
  -- or at the start of one that is, at any depth.
  pub get_field_free_sites-FreesField :
      (fuel o : ℕ) (fid : ℤ)
      → ltb (nested.up o) fuel ≡ true
      → ((e : ℕ) → contains (get_emb_objs (objs o) fid) e ≡ true → ltb (nested.down e) fuel ≡ true)
      → (sites : List InstLoc) × (get_field_free_sites objs fuel o fid ≡ some sites)
        × ((f : InstLoc) → (has_loc f sites ≡ true) ↔ FreesField objs o fid f)
  get_field_free_sites-FreesField fuel o fid high low =
      let (hs, h) = hosts_ends fuel o high in
      let (es, e) = heads_ends fuel (get_emb_objs (objs o) fid) low in
      (
        sites_of objs hs ++ sites_of objs es,
        field_sites fuel o fid hs es h e,
        λ f. (frees_to fuel o fid hs es f h e, frees_from fuel o fid hs es f h e),
      )
