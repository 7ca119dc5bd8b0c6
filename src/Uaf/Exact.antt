-- ===== src/Uaf/Exact.antt =====
-- The free sites that a load is warned of, against a description without the detector's caches.
use study_uafx.Base.{
  ℕ, ◌≡◌, refl, sym, ap, ◌∙◌, Bool, true, false, not, ◌&&◌, ◌||◌, Option, none, some, List, [], ◌∷◌,
  arith, Bool-cases, Option-cases, inl, inr, ==_iff,
}
use study_uafx.Base.Int.{ℤ}
use study_uafx.Context.Lists.{eq-of_same_sites}
use study_uafx.Loc.{InstLoc, Value, instruction, non_instruction}
use study_uafx.Loc.Judge.{Judge, same_loc, same_value}
use study_uafx.Thread.Chain.{has_loc}
use study_uafx.Uaf.{
  Objects, PtoTarget, Confirmed, Warning, is_data_valid, cached, is_control_valid, inspect,
  inspect_frees, inspect_objs, inspect_target, inspect_ptos, warn, visit_load_inst,
}

eq-of_same_value : (u v : Value) → same_value u v ≡ true → u ≡ v
unfolding same_value
eq-of_same_value (instruction i) (instruction j) h = ap instruction ((==_iff i j).0 h)
eq-of_same_value (instruction i) (non_instruction n) h = cc
eq-of_same_value (non_instruction m) (instruction j) h = cc
eq-of_same_value (non_instruction m) (non_instruction n) h = ap non_instruction ((==_iff m n).0 h)

eq-of_same_loc : (l m : InstLoc) → same_loc l m ≡ true → l ≡ m
unfolding same_loc
eq-of_same_loc l m h =
    let v = eq-of_same_value l.value m.value (ground (arith, h)) in
    let c = eq-of_same_sites l.ctx m.ctx (ground (arith, h)) in cc (v, c)

-- A site that is there already is not added.
known_already :
    (l f : InstLoc) (ls : List InstLoc)
    → has_loc l ls ≡ true
    → (c : Bool) → has_loc f ls ≡ (same_loc l f && c || has_loc f ls)
known_already l f ls known c = elim (Bool-cases (same_loc l f)) [
  | inr other ↦ rw other refl
  | inl same ↦
      let there : has_loc f ls ≡ true =
        ap (λ (m : InstLoc). has_loc m ls) (sym (eq-of_same_loc l f same)) ∙ known in
      ground (arith, there)
]

-- Whether a site is one of the free sites of a field.
abbrev pub is_freed_at : List (Option InstLoc) → InstLoc → Bool
is_freed_at [] f = false
is_freed_at (none ∷ frees) f = is_freed_at frees f
is_freed_at (some l ∷ frees) f = same_loc l f || is_freed_at frees f

-- Whether it is one of an equivalent object.
abbrev pub is_freed_in : Objects → ℤ → List (Option ℕ) → InstLoc → Bool
is_freed_in os fid [] f = false
is_freed_in os fid (none ∷ objs) f = is_freed_in os fid objs f
is_freed_in os fid (some eo ∷ objs) f =
    is_freed_at (os.get_field_free_sites eo fid) f || is_freed_in os fid objs f

abbrev pub has_first : List InstLoc → InstLoc → Bool
has_first [] f = false
has_first (l ∷ tr) f = same_loc l f

-- Whether a warning is about a free site.
abbrev pub is_warned : List Warning → InstLoc → Bool
is_warned [] f = false
is_warned (x ∷ ws) f = has_first x.trace f || is_warned ws f

module _ (w : Judge) (held : InstLoc → InstLoc → Bool) (use_loc : InstLoc) where
  -- Whether a freed object can be there at the load: there is no known allocation, or it does not
  -- dominate the load, or the load comes around again after the free.
  abbrev pub is_open : Option InstLoc → InstLoc → Bool
  is_open none f = true
  is_open (some a) f = not (w.dominates a (some use_loc) false) || w.reaches use_loc (some f) []

  is_data_valid-open :
      (alloc_loc : Option InstLoc) (f : InstLoc)
      → is_data_valid w alloc_loc use_loc f ≡ is_open alloc_loc f
  unfolding is_data_valid
  is_data_valid-open none f = refl
  is_data_valid-open (some a) f = ground arith

  -- Whether a free at a site can be seen at the load: no lock is held at both, and the freed object can
  -- be there.
  abbrev pub is_seen : Option InstLoc → InstLoc → Bool
  is_seen alloc_loc f = not (held f use_loc) && is_open alloc_loc f

  abbrev pub is_uaf_of : Objects → ℤ → Option ℕ → InstLoc → Bool
  is_uaf_of os fid none f = false
  is_uaf_of os fid (some obj) f =
      is_freed_in os fid (os.get_all_equivalent_objs obj) f
      && is_seen (os.get_field_alloc_site obj fid) f

  abbrev pub is_uaf : Objects → List (Option PtoTarget) → InstLoc → Bool
  is_uaf os [] f = false
  is_uaf os (none ∷ ptos) f = is_uaf os ptos f
  is_uaf os (some pto ∷ ptos) f = is_uaf_of os pto.dst_field pto.target_object f || is_uaf os ptos f

  -- The cache holds answers of holdSameLocks.
  abbrev IsCache : List (InstLoc × Bool) → Type 0
  IsCache cache = (l : InstLoc) (h : Bool) → cached cache l ≡ some h → h ≡ held l use_loc

  is_control_valid-held :
      (cache : List (InstLoc × Bool)) (l : InstLoc)
      → IsCache cache
      → (is_control_valid held use_loc cache (some l)).1 ≡ not (held l use_loc)
  unfolding is_control_valid
  is_control_valid-held cache l ok = elim (Option-cases (cached cache l)) [
    | inl new ↦ rw (is_control_valid, new) refl
    | inr (h, e) ↦ rw (is_control_valid, e) (ap not (ok l h e))
  ]

  is_control_valid-IsCache :
      (cache : List (InstLoc × Bool)) (l : InstLoc)
      → IsCache cache
      → IsCache (is_control_valid held use_loc cache (some l)).0
  unfolding is_control_valid cached
  is_control_valid-IsCache cache l ok k h q = elim (Option-cases (cached cache l)) [
    | inr (g, e) ↦ ok k h (rw (is_control_valid, e) at q)
    | inl new ↦
        let q' = rw (is_control_valid, new) at q in
        elim (Bool-cases (same_loc k l)) [
          | inr other ↦ ok k h (rw other at q')
          | inl same ↦
              let v : some (held l use_loc) ≡ some h = rw same at q' in
              let g : held l use_loc ≡ h = cc (v) in
              sym g ∙ ap (λ (m : InstLoc). held m use_loc) (sym (eq-of_same_loc k l same))
        ]
  ]

  -- The sites confirmed after some steps are those of `new` and those confirmed before.
  record Adds (st st' : Confirmed) (new : InstLoc → Bool) : Type 0 where
    cache_kept : IsCache st.ctl_cache → IsCache st'.ctl_cache
    confirms :
        IsCache st.ctl_cache
        → (f : InstLoc) → has_loc f st'.confirmed_frees ≡ (new f || has_loc f st.confirmed_frees)

  at_same :
      (alloc_loc : Option InstLoc) (l f : InstLoc) (b : Bool)
      → (same_loc l f && is_seen alloc_loc l || b) ≡ (same_loc l f && is_seen alloc_loc f || b)
  at_same alloc_loc l f b = elim (Bool-cases (same_loc l f)) [
    | inr other ↦ rw other refl
    | inl same ↦
        ap (λ (m : InstLoc). same_loc l f && is_seen alloc_loc m || b) (eq-of_same_loc l f same)
  ]

  -- What an inspected site adds, by the three tests of it.
  confirms_one :
      (alloc_loc : Option InstLoc) (st : Confirmed) (l f : InstLoc)
      → IsCache st.ctl_cache
      → has_loc f (inspect w held use_loc alloc_loc st (some l)).confirmed_frees
        ≡ (same_loc l f && is_seen alloc_loc l || has_loc f st.confirmed_frees)
  unfolding inspect has_loc
  confirms_one alloc_loc st l f ok =
      let valid = is_control_valid-held st.ctl_cache l ok in
      elim (Bool-cases (has_loc l st.confirmed_frees)) [
        | inl known ↦ rw known (known_already l f st.confirmed_frees known _)
        | inr fresh ↦ elim (Bool-cases (held l use_loc)) [
          | inl h ↦ rw (fresh, valid, h) (ground arith)
          | inr free ↦ elim (Bool-cases (is_open alloc_loc l)) [
            | inl d ↦ rw (fresh, valid, free, is_data_valid-open alloc_loc l, d) (ground arith)
            | inr stale ↦
                rw (fresh, valid, free, is_data_valid-open alloc_loc l, stale) (ground arith)
          ]
        ]
      ]

  inspect-IsCache :
      (alloc_loc : Option InstLoc) (st : Confirmed) (l : InstLoc)
      → IsCache st.ctl_cache
      → IsCache (inspect w held use_loc alloc_loc st (some l)).ctl_cache
  unfolding inspect
  inspect-IsCache alloc_loc st l ok =
      let kept = is_control_valid-IsCache st.ctl_cache l ok in
      let valid = (is_control_valid held use_loc st.ctl_cache (some l)).1 in
      elim (Bool-cases (has_loc l st.confirmed_frees)) [
        | inl known ↦ rw known ok
        | inr fresh ↦ elim (Bool-cases valid) [
          | inr h ↦ rw (fresh, h) kept
          | inl free ↦ elim (Bool-cases (is_data_valid w alloc_loc use_loc l)) [
            | inl d ↦ rw (fresh, free, d) kept
            | inr stale ↦ rw (fresh, free, stale) kept
          ]
        ]
      ]

  one-Adds :
      (alloc_loc : Option InstLoc) (st : Confirmed) (l : InstLoc)
      → Adds st
          (inspect w held use_loc alloc_loc st (some l))
          (λ f. same_loc l f && is_seen alloc_loc f)
  one-Adds alloc_loc st l = record {
    cache_kept = inspect-IsCache alloc_loc st l;
    confirms = λ ok f.
        confirms_one alloc_loc st l f ok ∙ at_same alloc_loc l f (has_loc f st.confirmed_frees);
  }

  Adds-refl : (st : Confirmed) → Adds st st (λ f. false)
  Adds-refl st = record { cache_kept = λ ok. ok; confirms = λ ok f. refl }

  Adds-trans :
      (st st' st'' : Confirmed) (m n k : InstLoc → Bool)
      → Adds st st' m
      → Adds st' st'' n
      → ((f : InstLoc) → (m f || n f) ≡ k f)
      → Adds st st'' k
  Adds-trans st st' st'' m n k a b both = record {
    cache_kept = λ ok. b.cache_kept (a.cache_kept ok);
    confirms = λ ok f. ground (arith, a.confirms ok f, b.confirms (a.cache_kept ok) f, both f);
  }

  frees-Adds :
      (alloc_loc : Option InstLoc) (st : Confirmed) (frees : List (Option InstLoc))
      → Adds st
          (inspect_frees w held use_loc alloc_loc st frees)
          (λ f. is_freed_at frees f && is_seen alloc_loc f)
  unfolding inspect_frees inspect
  frees-Adds alloc_loc st [] = Adds-refl st
  frees-Adds alloc_loc st (none ∷ frees) = frees-Adds alloc_loc st frees
  frees-Adds alloc_loc st (some l ∷ frees) =
      let next = inspect w held use_loc alloc_loc st (some l) in
      Adds-trans st next _ _ _ _ (one-Adds alloc_loc st l) (frees-Adds alloc_loc next frees)
        (λ f. ground arith)

  objs-Adds :
      (os : Objects) (alloc_loc : Option InstLoc) (fid : ℤ) (st : Confirmed)
      (objs : List (Option ℕ))
      → Adds st
          (inspect_objs w held use_loc os alloc_loc fid st objs)
          (λ f. is_freed_in os fid objs f && is_seen alloc_loc f)
  unfolding inspect_objs
  objs-Adds os alloc_loc fid st [] = Adds-refl st
  objs-Adds os alloc_loc fid st (none ∷ objs) = objs-Adds os alloc_loc fid st objs
  objs-Adds os alloc_loc fid st (some eo ∷ objs) =
      let next = inspect_frees w held use_loc alloc_loc st (os.get_field_free_sites eo fid) in
      Adds-trans st next _ _ _ _ (frees-Adds alloc_loc st (os.get_field_free_sites eo fid))
        (objs-Adds os alloc_loc fid next objs) (λ f. ground arith)

  target-Adds :
      (os : Objects) (st : Confirmed) (fid : ℤ) (obj : Option ℕ)
      → Adds st (inspect_target w held use_loc os st fid obj) (is_uaf_of os fid obj)
  unfolding inspect_target
  target-Adds os st fid none = Adds-refl st
  target-Adds os st fid (some obj) =
      objs-Adds os (os.get_field_alloc_site obj fid) fid st (os.get_all_equivalent_objs obj)

  ptos-Adds :
      (os : Objects) (st : Confirmed) (ptos : List (Option PtoTarget))
      → Adds st (inspect_ptos w held use_loc os st ptos) (is_uaf os ptos)
  unfolding inspect_ptos
  ptos-Adds os st [] = Adds-refl st
  ptos-Adds os st (none ∷ ptos) = ptos-Adds os st ptos
  ptos-Adds os st (some pto ∷ ptos) =
      let next = inspect_target w held use_loc os st pto.dst_field pto.target_object in
      Adds-trans st next _ _ _ _ (target-Adds os st pto.dst_field pto.target_object)
        (ptos-Adds os next ptos) (λ f. refl)

  warn-is_warned :
      (confirmed : List InstLoc) (f : InstLoc)
      → is_warned (warn w held use_loc confirmed) f ≡ has_loc f confirmed
  unfolding warn has_loc
  warn-is_warned [] f = refl
  warn-is_warned (l ∷ confirmed) f = elim (Bool-cases (same_loc l use_loc)) [
    | inl same ↦ rw (same, warn-is_warned confirmed f) refl
    | inr other ↦ rw (other, warn-is_warned confirmed f) refl
  ]

  nil-IsCache : IsCache []
  unfolding cached
  nil-IsCache l h q = cc

  -- A load is warned of a free site exactly when some object that its pointer may point to has an
  -- equivalent object that is freed there, no lock is held at both, and it is not the case that the
  -- allocation site of the field dominates the load while the free cannot reach it: neither the cache nor
  -- the order of the objects nor an earlier confirmation changes the answer.
  pub visit_load_inst-is_uaf :
      (os : Objects) (ptos : List (Option PtoTarget)) (f : InstLoc)
      → is_warned (visit_load_inst w held use_loc os ptos) f ≡ is_uaf os ptos f
  unfolding visit_load_inst has_loc cached
  visit_load_inst-is_uaf os ptos f =
      let start : Confirmed = record { ctl_cache = []; confirmed_frees = [] } in
      let adds = ptos-Adds os start ptos in
      warn-is_warned (inspect_ptos w held use_loc os start ptos).confirmed_frees f
      ∙ adds.confirms nil-IsCache f
      ∙ ground arith
