-- ===== src/Taint/Kill.antt =====
-- A taint kill, and what a field answers after it.
use study_uafx.Base.{
  ℕ, ◌≡◌, ◌≢◌, refl, sym, ap, ◌∙◌, Bool, true, false, ◌&&◌, Option, some, List, [], ◌∷◌, ◌==◌,
  contains, contains-select, select, arith, Bool-cases, Option-cases, inl, inr, ==_iff, ==_refl,
}
use study_uafx.Loc.{InstLoc}
use study_uafx.Loc.Judge.{Judge}
use study_uafx.Taint.{TaintTag, TaintFlag, is_taint_equals}
use study_uafx.Taint.Field.{FieldTaint, Flags, has_active_taint, do_get_tf, reset_at}
use study_uafx.Taint.Add.{put_tf, add_after_reset, add_tf}
use study_uafx.Taint.Overrides.{put_tf_deactivates}
use study_uafx.Taint.Keys.{
  reset_at-SameField, taint_key-is_tainted, taint_key-target_instr, put_tf-SameKeys,
  put_tf-target_taint,
}

-- Nothing passes a test that no member passes.
select-nil :
    (f : ℕ → Bool) (xs : List ℕ) → ((p : ℕ) → contains xs p ≡ true → f p ≡ false) → select f xs ≡ []
unfolding select contains
select-nil f [] h = refl
select-nil f (x ∷ xs) h =
    let first : f x ≡ false = h x (ground (arith, ==_refl x)) in
    rw first (select-nil f xs (λ p m. h p (ground (arith, m))))

none_left : (f : ℕ → Bool) → select f [] ≡ []
unfolding select
none_left f = refl

-- No flag of the field is both active and tainted.
abbrev Clean : Flags → FieldTaint → Type 0
Clean flags ft =
    (p : ℕ)
    → contains ft.target_taint p ≡ true
    → ((flags p).is_active && (flags p).is_tainted) ≡ false

Clean-do_get_tf :
    (w : Judge) (flags : Flags) (ft : FieldTaint) (l : Option InstLoc)
    → Clean flags ft
    → do_get_tf w flags ft l ≡ []
unfolding do_get_tf
Clean-do_get_tf w flags ft l c =
    let active = select (λ p. (flags p).is_active) ft.target_taint in
    let nothing : select (λ p. (flags p).is_tainted) active ≡ [] =
      select-nil (λ p. (flags p).is_tainted) active
        (λ p m.
          ground (arith, m, contains-select (λ p. (flags p).is_active) ft.target_taint p, c p)) in
    elim (Option-cases l) [
      | inl e ↦ rw (e, do_get_tf) nothing
      | inr (site, e) ↦ rw (e, do_get_tf) (rw nothing (none_left _))
    ]

has_active_taint-Clean :
    (flags : Flags) (tfs : List ℕ) (p : ℕ)
    → has_active_taint flags tfs ≡ false
    → contains tfs p ≡ true
    → ((flags p).is_active && (flags p).is_tainted) ≡ false
unfolding has_active_taint contains
has_active_taint-Clean flags [] p h m = cc
has_active_taint-Clean flags (q ∷ tfs) p h m = elim (Bool-cases (q == p)) [
  | inl here ↦
      let e : q ≡ p = (==_iff q p).0 here in
      let first : ((flags q).is_active && (flags q).is_tainted) ≡ false = ground (arith, h) in
      ap (λ (k : ℕ). (flags k).is_active && (flags k).is_tainted) (sym e) ∙ first
  | inr there ↦ has_active_taint-Clean flags tfs p (ground (arith, h)) (ground (arith, m, there))
]

module _ (tags : ℕ → TaintTag) (w : Judge) (flags : Flags) (ft : FieldTaint) (n : ℕ) (l : InstLoc)
    (at : (flags n).target_instr ≡ some l) (kill : (flags n).is_tainted ≡ false)
    (on : (flags n).is_active ≡ true) (strong : (flags n).is_weak ≡ false)
    (over : (p : ℕ)
      → contains ft.target_taint p ≡ true
      → (flags p).is_active ≡ true
      → (flags p).is_tainted ≡ true
      → w.post_dominates l (flags p).target_instr ≡ true) where
  -- A tainted flag is another taint than the kill.
  kill_differs :
      (p : ℕ) → (flags p).is_tainted ≡ true → is_taint_equals tags (flags n) (flags p) ≡ false
  unfolding is_taint_equals
  kill_differs p t = ground (arith, kill, t)

  not_self : (p : ℕ) → (flags p).is_tainted ≡ true → p ≢ n
  not_self p t e =
      let bad : (flags n).is_tainted ≡ true = ap (λ (k : ℕ). (flags k).is_tainted) (sym e) ∙ t in
      cc (bad, kill)

  put_off :
      (p : ℕ)
      → contains ft.target_taint p ≡ true
      → (((put_tf tags w flags ft n).0 p).is_active && ((put_tf tags w flags ft n).0 p).is_tainted)
        ≡ false
  put_off p m =
      let key =
        taint_key-is_tainted ((put_tf tags w flags ft n).0 p) (flags p)
          (put_tf-SameKeys tags w flags ft n p) in
      elim (Bool-cases (flags p).is_tainted) [
        | inr clean ↦ ground (arith, key, clean)
        | inl tainted ↦
            let now =
              put_tf_deactivates tags w flags ft n p l at (not_self p tainted)
                (kill_differs p tainted) in
            elim (Bool-cases (flags p).is_active) [
              | inl active ↦
                  let pd = over p m active tainted in
                  let off : ((put_tf tags w flags ft n).0 p).is_active ≡ false =
                    ap (λ (x : TaintFlag). x.is_active) now ∙ rw (m, active, on, strong, pd) refl in
                  ground (arith, off)
              | inr idle ↦
                  let off : ((put_tf tags w flags ft n).0 p).is_active ≡ false =
                    ap (λ (x : TaintFlag). x.is_active) now ∙ rw (m, idle) refl in
                  ground (arith, off)
            ]
      ]

  put_self :
      (((put_tf tags w flags ft n).0 n).is_active && ((put_tf tags w flags ft n).0 n).is_tainted)
      ≡ false
  put_self =
      let key =
        taint_key-is_tainted ((put_tf tags w flags ft n).0 n) (flags n)
          (put_tf-SameKeys tags w flags ft n n) in
      ground (arith, key, kill)

  put_tf-Clean : Clean (put_tf tags w flags ft n).0 (put_tf tags w flags ft n).1
  put_tf-Clean p m = elim (Bool-cases (contains ft.target_taint p)) [
    | inl old ↦ put_off p old
    | inr new ↦
        let more = put_tf-target_taint tags w flags ft n p m in
        let here : n == p ≡ true = ground (arith, more, new) in
        let e : n ≡ p = (==_iff n p).0 here in
        ap
          (λ (k : ℕ).
            ((put_tf tags w flags ft n).0 k).is_active
            && ((put_tf tags w flags ft n).0 k).is_tainted)
          (sym e)
        ∙ put_self
  ]

  add_after_reset_clears :
      (m : Option InstLoc)
      → contains (flags n).mem_tag ft.this ≡ false
      → do_get_tf w (add_after_reset tags w flags ft n).0 (add_after_reset tags w flags ft n).1 m
        ≡ []
  unfolding add_after_reset
  add_after_reset_clears m away = elim (Bool-cases (has_active_taint flags ft.target_taint)) [
    | inr idle ↦
        rw (kill, idle)
          (Clean-do_get_tf w flags ft m
            (λ p i. has_active_taint-Clean flags ft.target_taint p idle i))
    | inl busy ↦ rw (kill, busy, away) (Clean-do_get_tf w _ _ m put_tf-Clean)
  ]

-- A strong taint kill at a site that post-dominates the sites of all tainted flags of a field that are
-- active after the reset at the site leaves no taint: addTf of it makes doGetTf answer no flag, at
-- every later location and for none. The kill is active and was never in the field.
pub add_tf_clears :
    (tags : ℕ → TaintTag) (w : Judge) (rets : ℕ → Option (List ℕ)) (flags : Flags) (ft : FieldTaint)
    (n : ℕ) (l : InstLoc) (m : Option InstLoc)
    → (flags n).target_instr ≡ some l
    → (flags n).is_tainted ≡ false
    → (flags n).is_active ≡ true
    → (flags n).is_weak ≡ false
    → contains ft.target_taint n ≡ false
    → contains (flags n).mem_tag ft.this ≡ false
    → ((p : ℕ)
        → contains ft.target_taint p ≡ true
        → ((reset_at w rets flags ft (some l)).0 p).is_active ≡ true
        → (flags p).is_tainted ≡ true
        → w.post_dominates l (flags p).target_instr ≡ true)
    → do_get_tf w
        (add_tf tags w rets flags ft (some n)).0
        (add_tf tags w rets flags ft (some n)).1
        m
      ≡ []
unfolding add_tf
add_tf_clears tags w rets flags ft n l m at kill on strong fresh away over =
    let f0 = (reset_at w rets flags ft (some l)).0 in
    let ft0 = (reset_at w rets flags ft (some l)).1 in
    let same = reset_at-SameField w rets flags ft (some l) in
    let self : f0 n ≡ flags n = same.others_same n fresh in
    let kill0 : (f0 n).is_tainted ≡ false = ap (λ (x : TaintFlag). x.is_tainted) self ∙ kill in
    let over0 =
      λ (p : ℕ) (i : contains ft0.target_taint p ≡ true) (a : (f0 p).is_active ≡ true)
          (t : (f0 p).is_tainted ≡ true).
        ap (w.post_dominates l) (taint_key-target_instr (f0 p) (flags p) (same.keys_same p))
        ∙ over p (ap (λ (xs : List ℕ). contains xs p) (sym same.set_same) ∙ i) a
            (sym (taint_key-is_tainted (f0 p) (flags p) (same.keys_same p)) ∙ t) in
    let away0 : contains (f0 n).mem_tag ft0.this ≡ false =
      ap (λ (x : TaintFlag). contains x.mem_tag ft0.this) self
      ∙ ap (λ (k : ℕ). contains (flags n).mem_tag k) same.this_same
      ∙ away in
    let at0 = ap (λ (x : TaintFlag). x.target_instr) self ∙ at in
    let on0 : (f0 n).is_active ≡ true = ap (λ (x : TaintFlag). x.is_active) self ∙ on in
    let strong0 : (f0 n).is_weak ≡ false = ap (λ (x : TaintFlag). x.is_weak) self ∙ strong in
    rw at (add_after_reset_clears tags w f0 ft0 n l at0 kill0 on0 strong0 over0 m away0)
