-- ===== src/Uaf/Sourced.antt =====
-- The detector over the sites of AliasObject: the interface Objects filled by the component Sites.
use study_uafx.Base.{
  ℕ, ◌≡◌, refl, sym, ap, ◌∙◌, Bool, true, false, Option, none, some, List, [], ◌∷◌, ltb, arith,
  Bool-cases, inl, inr, ◌⊎◌, ◌↔◌,
}
use study_uafx.Base.Int.{ℤ}
use study_uafx.Loc.{InstLoc}
use study_uafx.Loc.Judge.{Judge}
use study_uafx.Sites.{Objs, get_field_free_sites, get_field_alloc_site}
use study_uafx.Sites.Exact.{IsNested, FreesField, get_field_free_sites-FreesField}
use study_uafx.Thread.Chain.{has_loc}
use study_uafx.Uaf.{Objects, PtoTarget, visit_load_inst}
use study_uafx.Uaf.Exact.{
  is_freed_at, is_freed_in, is_uaf_of, is_uaf, is_open, is_warned, visit_load_inst-is_uaf,
}

abbrev pub as_sites : List InstLoc → List (Option InstLoc)
as_sites [] = []
as_sites (l ∷ ls) = some l ∷ as_sites ls

-- What the objects of a heap answer, with fuel that does not run out.
abbrev pub objects_of : Objs → ℕ → (ℕ → List (Option ℕ)) → Objects
objects_of objs fuel eqv = record {
  get_field_alloc_site =
      λ o fid. elim (get_field_alloc_site objs fuel o fid) [ none ↦ none | some l ↦ l ];
  get_all_equivalent_objs = eqv;
  get_field_free_sites =
      λ o fid. elim (get_field_free_sites objs fuel o fid) [ none ↦ [] | some ls ↦ as_sites ls ];
}

is_freed_at-has_loc : (ls : List InstLoc) (f : InstLoc) → is_freed_at (as_sites ls) f ≡ has_loc f ls
unfolding has_loc
is_freed_at-has_loc [] f = refl
is_freed_at-has_loc (l ∷ ls) f = rw (is_freed_at-has_loc ls f) refl

-- A list of pointers that may be null holds one that is none.
abbrev pub Names : {A : Type 0} → List (Option A) → A → Type 0
Names [] x = ⊥
Names (none ∷ ys) x = Names ys x
Names (some y ∷ ys) x = (y ≡ x) ⊎ Names ys x

module _ (objs : Objs) (nested : IsNested objs) (fuel : ℕ) (eqv : ℕ → List (Option ℕ))
    (high : (o : ℕ) → ltb (nested.up o) fuel ≡ true)
    (low : (o : ℕ) → ltb (nested.down o) fuel ≡ true) where
  is_freed_at-FreesField :
      (eo : ℕ) (fid : ℤ) (f : InstLoc)
      → (is_freed_at ((objects_of objs fuel eqv).get_field_free_sites eo fid) f ≡ true)
        ↔ FreesField objs eo fid f
  is_freed_at-FreesField eo fid f =
      let (sites, e, iff) =
        get_field_free_sites-FreesField objs nested fuel eo fid (high eo) (λ k m. low k) in
      let read : is_freed_at ((objects_of objs fuel eqv).get_field_free_sites eo fid) f
          ≡ has_loc f sites =
        ap
          (λ (x : Option (List InstLoc)).
            is_freed_at
              (elim x as (λ y. List (Option InstLoc)) [ none ↦ [] | some ls ↦ as_sites ls ]) f)
          e
        ∙ is_freed_at-has_loc sites f in
      (λ h. (iff f).0 (sym read ∙ h), λ h. read ∙ (iff f).1 h)

  -- One of some objects is freed at a site with the field: as a whole, through a host or through an
  -- object embedded at the field.
  abbrev pub IsFreedOf : List (Option ℕ) → ℤ → InstLoc → Type 0
  IsFreedOf os fid f = (eo : ℕ) × Names os eo × FreesField objs eo fid f

  is_freed_in-IsFreedOf :
      (fid : ℤ) (os : List (Option ℕ)) (f : InstLoc)
      → (is_freed_in (objects_of objs fuel eqv) fid os f ≡ true) ↔ IsFreedOf os fid f
  is_freed_in-IsFreedOf fid [] f = (λ h. cc, λ h. absurd h.1)
  is_freed_in-IsFreedOf fid (none ∷ os) f = is_freed_in-IsFreedOf fid os f
  is_freed_in-IsFreedOf fid (some eo ∷ os) f =
      let one = is_freed_at-FreesField eo fid f in
      let more = is_freed_in-IsFreedOf fid os f in
      let at_one = is_freed_at ((objects_of objs fuel eqv).get_field_free_sites eo fid) f in
      (
        λ h. elim (Bool-cases at_one) [
          | inl here ↦ (eo, inl refl, one.0 here)
          | inr there ↦ let (eo', m, fr) = more.0 (ground (arith, h, there)) in (eo', inr m, fr)
        ],
        λ (eo', m, fr). elim m [
          | inl same ↦ let fr' : FreesField objs eo fid f = rw same fr in ground (arith, one.1 fr')
          | inr rest ↦ ground (arith, more.1 (eo', rest, fr))
        ],
      )

  module _ (w : Judge) (held : InstLoc → InstLoc → Bool) (use_loc : InstLoc) where
    -- The data condition, by the allocation site of the field of the pointer's object, if it has one.
    abbrev pub IsOpen : Option (Option InstLoc) → InstLoc → Type 0
    IsOpen none f = Unit {0}
    IsOpen (some none) f = Unit {0}
    IsOpen (some (some a)) f =
        (w.dominates a (some use_loc) false ≡ false) ⊎ (w.reaches use_loc (some f) [] ≡ true)

    -- What makes a record of the pointer a use after a free at a site.
    abbrev pub IsUaf : ℕ → ℤ → InstLoc → Type 0
    IsUaf obj fid f =
        IsFreedOf (eqv obj) fid f
        × (held f use_loc ≡ false)
        × IsOpen (get_field_alloc_site objs fuel obj fid) f

    is_open-IsOpen :
        (o : Option (Option InstLoc)) (f : InstLoc)
        → (is_open w held use_loc (elim o [ none ↦ none | some l ↦ l ]) f ≡ true) ↔ IsOpen o f
    is_open-IsOpen none f = (λ h. tt, λ h. refl)
    is_open-IsOpen (some none) f = (λ h. tt, λ h. refl)
    is_open-IsOpen (some (some a)) f = (
      λ h. elim (Bool-cases (w.dominates a (some use_loc) false)) [
        | inl d ↦ inr (ground (arith, h, d))
        | inr n ↦ inl n
      ],
      λ h. elim h [ inl n ↦ ground (arith, n) | inr r ↦ ground (arith, r) ],
    )

    is_uaf_of-IsUaf :
        (fid : ℤ) (obj : ℕ) (f : InstLoc)
        → (is_uaf_of w held use_loc (objects_of objs fuel eqv) fid (some obj) f ≡ true)
          ↔ IsUaf obj fid f
    is_uaf_of-IsUaf fid obj f =
        let freed = is_freed_in-IsFreedOf fid (eqv obj) f in
        let fresh = is_open-IsOpen (get_field_alloc_site objs fuel obj fid) f in
        (
          λ h. (freed.0 (ground (arith, h)), ground (arith, h), fresh.0 (ground (arith, h))),
          λ (a, b, c). ground (arith, freed.1 a, b, fresh.1 c),
        )

    -- Some record of a pointer, with a target object, is a use after a free at a site.
    abbrev pub Sourced : List (Option PtoTarget) → InstLoc → Type 0
    Sourced ptos f =
        (pto : PtoTarget) × Names ptos pto
        × (obj : ℕ) × (pto.target_object ≡ some obj)
        × IsUaf obj pto.dst_field f

    target-IsUaf :
        (fid : ℤ) (target : Option ℕ) (f : InstLoc)
        → (is_uaf_of w held use_loc (objects_of objs fuel eqv) fid target f ≡ true)
          ↔ ((obj : ℕ) × (target ≡ some obj) × IsUaf obj fid f)
    target-IsUaf fid none f = (λ h. cc, λ h. cc (h.1))
    target-IsUaf fid (some obj) f = (
      λ h. (obj, refl, (is_uaf_of-IsUaf fid obj f).0 h),
      λ (o, e, u).
          let same : obj ≡ o = cc (e) in
          let u' : IsUaf obj fid f = rw same u in (is_uaf_of-IsUaf fid obj f).1 u',
    )

    is_uaf-Sourced :
        (ptos : List (Option PtoTarget)) (f : InstLoc)
        → (is_uaf w held use_loc (objects_of objs fuel eqv) ptos f ≡ true) ↔ Sourced ptos f
    is_uaf-Sourced [] f = (λ h. cc, λ h. absurd h.1)
    is_uaf-Sourced (none ∷ ptos) f = is_uaf-Sourced ptos f
    is_uaf-Sourced (some pto ∷ ptos) f =
        let one = target-IsUaf pto.dst_field pto.target_object f in
        let more = is_uaf-Sourced ptos f in
        (
          λ h.
              elim (Bool-cases (
                is_uaf_of w held use_loc (objects_of objs fuel eqv) pto.dst_field pto.target_object
                  f)) [
                    | inl here ↦ let (obj, e, u) = one.0 here in (pto, inl refl, obj, e, u)
                    | inr there ↦
                        let (p, m, obj, e, u) = more.0 (ground (arith, h, there)) in
                        (p, inr m, obj, e, u)
                  ],
          λ (p, m, obj, e, u). elim m [
            | inl same ↦
                let e' : pto.target_object ≡ some obj = rw same e in
                let u' : IsUaf obj pto.dst_field f = rw same u in
                ground (arith, one.1 (obj, e', u'))
            | inr rest ↦ ground (arith, more.1 (p, rest, obj, e, u))
          ],
        )

    -- With objects that are nested without a cycle, a load is warned of a site exactly when some record
    -- of its pointer has a target object of which an equivalent object is freed there with the record's
    -- field - as a whole, through a host or through an object embedded at the field -, no lock is held
    -- at both, and the field has no allocation site that dominates the load, unless the load can be
    -- reached from the site.
    pub visit_load_inst-Sourced :
        (ptos : List (Option PtoTarget)) (f : InstLoc)
        → (is_warned (visit_load_inst w held use_loc (objects_of objs fuel eqv) ptos) f ≡ true)
          ↔ Sourced ptos f
    visit_load_inst-Sourced ptos f =
        let same = visit_load_inst-is_uaf w held use_loc (objects_of objs fuel eqv) ptos f in
        let iff = is_uaf-Sourced ptos f in (λ h. iff.0 (sym same ∙ h), λ h. same ∙ iff.1 h)
