-- ===== src/Sites/Alloc.antt =====
-- The allocation site of an object field: that of the nearest host that has one, or else one of what is
-- embedded at the field.
use study_uafx.Base.{
  ℕ, zero, suc, ◌≡◌, refl, sym, ap, ◌∙◌, true, Option, none, some, List, [], ◌∷◌, ◌==◌, ltb,
  contains, arith, Bool-cases, Option-cases, inl, inr, ◌⊎◌, ==_iff, ==_refl,
}
use study_uafx.Base.Int.{ℤ}
use study_uafx.Loc.{InstLoc}
use study_uafx.Sites.{Objs, get_emb_objs, hosts, first_alloc, get_field_alloc_site}
use study_uafx.Sites.Cover.{
  IsHost, IsHead, with_first_cases, hosts_complete, heads_sound, heads_complete,
}
use study_uafx.Sites.Exact.{IsNested, hosts_ends, heads_ends}

-- A site is that of the nearest one of an object and its hosts that has a site.
pub data IsNearest (objs : Objs) : ℕ → InstLoc → Type 0 where
  own : (o : ℕ) (l : InstLoc) → (objs o).alloc_loc ≡ some l → IsNearest objs o l
  above :
      (o p : ℕ) (l : InstLoc)
      → (objs o).alloc_loc ≡ none
      → (objs o).parent ≡ some p
      → IsNearest objs p l
      → IsNearest objs o l

-- What the allocation site of a field, or that there is none, means.
abbrev pub AllocatesField : Objs → ℕ → ℤ → Option InstLoc → Type 0
AllocatesField objs o fid none =
    (q : ℕ)
    → IsHost objs o q ⊎ IsHead objs (get_emb_objs (objs o) fid) q
    → (objs q).alloc_loc ≡ none
AllocatesField objs o fid (some l) =
    IsNearest objs o l
    ⊎ (((q : ℕ) → IsHost objs o q → (objs q).alloc_loc ≡ none)
        × ((q : ℕ) × IsHead objs (get_emb_objs (objs o) fid) q × ((objs q).alloc_loc ≡ some l)))

module _ (objs : Objs) where
  first_alloc_here :
      (o : ℕ) (os : List ℕ) (k : InstLoc)
      → (objs o).alloc_loc ≡ some k
      → first_alloc objs (o ∷ os) ≡ some k
  unfolding first_alloc
  first_alloc_here o os k e = rw (first_alloc, e) refl

  first_alloc_later :
      (o : ℕ) (os : List ℕ)
      → (objs o).alloc_loc ≡ none
      → first_alloc objs (o ∷ os) ≡ first_alloc objs os
  unfolding first_alloc
  first_alloc_later o os e = rw (first_alloc, e) refl

  first_alloc-some :
      (os : List ℕ) (l : InstLoc)
      → first_alloc objs os ≡ some l
      → (q : ℕ) × (contains os q ≡ true) × ((objs q).alloc_loc ≡ some l)
  unfolding first_alloc contains
  first_alloc-some [] l h = cc
  first_alloc-some (o ∷ os) l h = elim (Option-cases (objs o).alloc_loc) [
    | inr (k, e) ↦
        let found : some k ≡ some l = sym (first_alloc_here o os k e) ∙ h in
        (o, ground (arith, ==_refl o), e ∙ found)
    | inl e ↦
        let (q, m, a) = first_alloc-some os l (sym (first_alloc_later o os e) ∙ h) in
        (q, ground (arith, m), a)
  ]

  first_alloc-none :
      (os : List ℕ)
      → first_alloc objs os ≡ none
      → (q : ℕ) → contains os q ≡ true
      → (objs q).alloc_loc ≡ none
  unfolding first_alloc contains
  first_alloc-none [] h q m = cc
  first_alloc-none (o ∷ os) h q m = elim (Option-cases (objs o).alloc_loc) [
    | inr (k, e) ↦ let found : some k ≡ none = sym (first_alloc_here o os k e) ∙ h in cc
    | inl e ↦ elim (Bool-cases (o == q)) [
      | inl here ↦ let same : o ≡ q = (==_iff o q).0 here in rw (← same) e
      | inr later ↦
          first_alloc-none os (sym (first_alloc_later o os e) ∙ h) q (ground (arith, m, later))
    ]
  ]

  hosts-IsNearest :
      (fuel o : ℕ) (hs : List ℕ) (l : InstLoc)
      → hosts objs fuel (some o) ≡ some hs
      → first_alloc objs hs ≡ some l
      → IsNearest objs o l
  unfolding hosts first_alloc
  hosts-IsNearest zero o hs l e h = cc
  hosts-IsNearest (suc fuel) o hs l e h =
      let (rest, r, same) = with_first_cases (o ∷ []) hs (hosts objs fuel (objs o).parent) e in
      let h' : first_alloc objs (o ∷ rest) ≡ some l =
        ap (λ (xs : List ℕ). first_alloc objs xs) (sym same) ∙ h in
      elim (Option-cases (objs o).alloc_loc) [
        | inr (k, a) ↦ own o l (a ∙ (sym (first_alloc_here o rest k a) ∙ h'))
        | inl a ↦
            let found = sym (first_alloc_later o rest a) ∙ h' in
            elim (Option-cases (objs o).parent) [
              | inr (p, parent) ↦
                  let r' = ap (λ (x : Option ℕ). hosts objs fuel x) (sym parent) ∙ r in
                  above o p l a parent (hosts-IsNearest fuel p rest l r' found)
              | inl top ↦
                  let nil : some [] ≡ some rest =
                    ap (λ (x : Option ℕ). hosts objs fuel x) (sym top) ∙ r in
                  let nothing : [] ≡ rest = cc (nil) in
                  let bad : none ≡ some l =
                    ap (λ (xs : List ℕ). first_alloc objs xs) nothing ∙ found in
                  cc (bad)
            ]
      ]

  module _ (nested : IsNested objs) where
    -- When objects are nested without a cycle, enough fuel lets getFieldAllocSite of a field return: the
    -- site of the nearest one of the object and its hosts that has one; or, when none of them has a site,
    -- that of an object embedded at the field or at the start of one that is, at any depth; and null only
    -- when no host and no such object has a site.
    pub get_field_alloc_site-AllocatesField :
        (fuel o : ℕ) (fid : ℤ)
        → ltb (nested.up o) fuel ≡ true
        → ((e : ℕ)
            → contains (get_emb_objs (objs o) fid) e ≡ true
            → ltb (nested.down e) fuel ≡ true)
        → (site : Option InstLoc) × (get_field_alloc_site objs fuel o fid ≡ some site)
          × AllocatesField objs o fid site
    unfolding get_field_alloc_site
    get_field_alloc_site-AllocatesField fuel o fid high low =
        let (hs, h) = hosts_ends objs nested fuel o high in
        let (es, e) = heads_ends objs nested fuel (get_emb_objs (objs o) fid) low in
        elim (Option-cases (first_alloc objs hs)) [
          | inr (l, a) ↦
              rw (get_field_alloc_site, h, a) (some l, refl, inl (hosts-IsNearest fuel o hs l h a))
          | inl a ↦
              let bare : (q : ℕ) → IsHost objs o q → (objs q).alloc_loc ≡ none =
                λ q host. first_alloc-none hs a q (hosts_complete objs fuel o q hs h host) in
              elim (Option-cases (first_alloc objs es)) [
                | inr (l, b) ↦
                    let (q, m, at_q) = first_alloc-some es l b in
                    rw (get_field_alloc_site, h, a, e, b)
                      (
                        some l,
                        refl,
                        inr (
                          bare,
                          (q, heads_sound objs fuel (get_emb_objs (objs o) fid) q es e m, at_q),
                        ),
                      )
                | inl b ↦
                    rw (get_field_alloc_site, h, a, e, b)
                      (
                        none,
                        refl,
                        λ q covered. elim covered [
                          | inl host ↦ bare q host
                          | inr head ↦
                              first_alloc-none es b q
                                (heads_complete objs fuel (get_emb_objs (objs o) fid) q es e head)
                        ],
                      )
              ]
        ]
