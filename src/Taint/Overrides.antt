-- ===== src/Taint/Overrides.antt =====
-- FieldTaint::addTf: what a new flag does to an old one that is another taint.
use study_uafx.Base.{
  ℕ, ◌≡◌, ◌≢◌, refl, ap, ◌∙◌, Bool, true, false, not, ◌&&◌, ◌||◌, some, List, [], ◌∷◌, ◌++◌,
  if◌then◌else◌, ◌==◌, contains, contains-insert, insert, arith, Bool-cases, inl, inr, ==_iff,
  ==_refl,
}
use study_uafx.Loc.{InstLoc}
use study_uafx.Loc.Judge.{Judge}
use study_uafx.Taint.{TaintTag, TaintFlag, is_taint_equals, eqb}
use study_uafx.Taint.Field.{FieldTaint, Flags, set_flag, with_active}
use study_uafx.Taint.Add.{overrides, renew, merge_tf, deactivate, put_tf}

pub set_flag_other :
    (flags : Flags) (p k : ℕ) (tf : TaintFlag) → k == p ≡ false → set_flag flags p tf k ≡ flags k
unfolding set_flag
set_flag_other flags p k tf h = rw h refl

pub set_flag_self : (flags : Flags) (p : ℕ) (tf : TaintFlag) → set_flag flags p tf p ≡ tf
unfolding set_flag
set_flag_self flags p tf = rw (==_refl p) refl

weak_self : (b : Bool) → (if eqb b b then b else false) ≡ b
weak_self true = refl
weak_self false = refl

renew_self : (tf : TaintFlag) → renew tf tf ≡ tf
unfolding renew
renew_self tf = ap (λ (b : Bool). record tf { is_weak = b }) (weak_self tf.is_weak)

module _ (tags : ℕ → TaintTag) (w : Judge) where
  deactivate-flags :
      (flags : Flags) (del : List ℕ) (p : ℕ)
      → deactivate tags w flags del p
        ≡ (if contains del p then with_active false (flags p) else flags p)
  unfolding deactivate contains
  deactivate-flags flags [] p = refl
  deactivate-flags flags (q ∷ del) p =
      let flags' = set_flag flags q (with_active false (flags q)) in
      deactivate-flags flags' del p ∙ elim (Bool-cases (q == p)) [
        | inl here ↦
            let e : q ≡ p = (==_iff q p).0 here in
            rw (e, set_flag_self flags p (with_active false (flags p)), ==_refl p) (ground arith)
        | inr there ↦
            let back : p == q ≡ false = ground (arith, there) in
            rw (there, set_flag_other flags q p (with_active false (flags q)) back) refl
      ]

  -- The step of the loop for a flag that is another taint than the new one.
  kept_step :
      (n : ℕ) (flags : Flags) (q p : ℕ) (again : Bool)
      → p ≢ n
      → is_taint_equals tags (flags n) (flags p) ≡ false
      → (again ≡ true → (q == n || is_taint_equals tags (flags n) (flags q)) ≡ true)
      → (if again then set_flag flags q (renew (flags n) (flags q)) else flags) p ≡ flags p
  kept_step n flags q p false ne other a = refl
  kept_step n flags q p true ne other a = elim (Bool-cases (p == q)) [
    | inr there ↦ set_flag_other flags q p _ there
    | inl here ↦
        let e : p ≡ q = (==_iff p q).0 here in
        let hit : (p == n || is_taint_equals tags (flags n) (flags p)) ≡ true =
          ap (λ (k : ℕ). k == n || is_taint_equals tags (flags n) (flags k)) e ∙ a refl in
        let off : p == n ≡ false = ground (arith, ne) in
        let equal : is_taint_equals tags (flags n) (flags p) ≡ true = ground (arith, hit, off) in
        cc (equal, other)
  ]

  new_step :
      (n : ℕ) (flags : Flags) (q : ℕ) (again : Bool)
      → (if again then set_flag flags q (renew (flags n) (flags q)) else flags) n ≡ flags n
  new_step n flags q false = refl
  new_step n flags q true = elim (Bool-cases (n == q)) [
    | inr there ↦ set_flag_other flags q n _ there
    | inl here ↦
        let e : n ≡ q = (==_iff n q).0 here in
        rw (← e) (set_flag_self flags n (renew (flags n) (flags n)) ∙ renew_self (flags n))
  ]

  again_hit : (dup hit : Bool) → (not dup && hit) ≡ true → hit ≡ true
  again_hit dup hit h = ground arith

  counted :
      (del : List ℕ) (q p : ℕ) (over k later : Bool)
      → (q == p ≡ true → over ≡ k)
      → (contains (if over then insert q del else del) p || later && k)
        ≡ (contains del p || (q == p || later) && k)
  counted del q p over k later same = elim (Bool-cases (q == p)) [
    | inl here ↦
        let s = same here in
        elim (Bool-cases over) [
          | inl yes_over ↦
              rw (yes_over, contains-insert q p del, here) (ground (arith, s, yes_over))
          | inr no_over ↦ rw (no_over, here) (ground (arith, s, no_over))
        ]
    | inr there ↦ elim (Bool-cases over) [
      | inl yes_over ↦ rw (yes_over, contains-insert q p del, there) (ground arith)
      | inr no_over ↦ rw (no_over, there) (ground arith)
    ]
  ]

  pub merge_tf-other :
      (n : ℕ) (flags : Flags) (del : List ℕ) (dup : Bool) (tfs : List ℕ) (p : ℕ)
      → p ≢ n
      → is_taint_equals tags (flags n) (flags p) ≡ false
      → ((merge_tf tags w n flags del dup tfs).flags p ≡ flags p)
        × (contains (merge_tf tags w n flags del dup tfs).to_del p
            ≡ (contains del p || contains tfs p && overrides w (flags n) (flags p)))
  unfolding merge_tf contains
  merge_tf-other n flags del dup [] p ne other = (refl, ground arith)
  merge_tf-other n flags del dup (q ∷ tfs) p ne other =
      let over = overrides w (flags n) (flags q) in
      let hit = q == n || is_taint_equals tags (flags n) (flags q) in
      let again = not dup && hit in
      let flags' = if again then set_flag flags q (renew (flags n) (flags q)) else flags in
      let del' = if over then insert q del else del in
      let kept : flags' p ≡ flags p = kept_step n flags q p again ne other (again_hit dup hit) in
      let new : flags' n ≡ flags n = new_step n flags q again in
      let rest = merge_tf-other n flags' del' (dup || again) tfs p ne (rw (new, kept) other) in
      let same : overrides w (flags' n) (flags' p) ≡ overrides w (flags n) (flags p) =
        ap (λ (t : TaintFlag). overrides w t (flags' p)) new ∙ ap (overrides w (flags n)) kept in
      (
        rest.0 ∙ kept,
        rest.1
            ∙ ap (λ (b : Bool). contains del' p || contains tfs p && b) same
            ∙ counted del q p over (overrides w (flags n) (flags p)) (contains tfs p)
                (λ h. ap (λ (k : ℕ). overrides w (flags n) (flags k)) ((==_iff q p).0 h)),
      )

  over_at :
      (flags : Flags) (n p : ℕ) (l : InstLoc)
      → (flags n).target_instr ≡ some l
      → overrides w (flags n) (flags p) ≡ (
          (flags p).is_active
          && (flags n).is_active
          && not (flags n).is_weak
          && w.post_dominates l (flags p).target_instr)
  unfolding overrides
  over_at flags n p l at = rw at refl

  put_tf-overrides :
      (flags : Flags) (ft : FieldTaint) (n p : ℕ)
      → p ≢ n
      → is_taint_equals tags (flags n) (flags p) ≡ false
      → (put_tf tags w flags ft n).0 p ≡ (
          if contains ft.target_taint p && overrides w (flags n) (flags p)
          then with_active false (flags p)
          else flags p)
  unfolding put_tf contains
  put_tf-overrides flags ft n p ne other =
      let m = merge_tf tags w n flags [] false ft.target_taint in
      let (kept, marked) = merge_tf-other n flags [] false ft.target_taint p ne other in
      let off : p == n ≡ false = ground (arith, ne) in
      elim (Bool-cases m.is_dup) [
        | inl dup ↦ rw (dup, put_tf) (deactivate-flags m.flags m.to_del p ∙ rw (marked, kept) refl)
        | inr fresh ↦
            let stored =
              set_flag m.flags n
                (record (m.flags n) { mem_tag = (m.flags n).mem_tag ++ (ft.this ∷ []) }) in
            let passed : stored p ≡ flags p = set_flag_other m.flags n p _ off ∙ kept in
            rw (fresh, put_tf) (deactivate-flags stored m.to_del p ∙ rw (marked, passed) refl)
      ]

  -- Putting a flag of a site into a field deactivates an old flag that is another taint exactly when
  -- the field has it, both flags are active, the new one is strong and its site post-dominates that of
  -- the old one; else the old flag stays as it was, also in its other fields.
  pub put_tf_deactivates :
      (flags : Flags) (ft : FieldTaint) (n p : ℕ) (l : InstLoc)
      → (flags n).target_instr ≡ some l
      → p ≢ n
      → is_taint_equals tags (flags n) (flags p) ≡ false
      → (put_tf tags w flags ft n).0 p ≡ (
          if contains ft.target_taint p
            && ((flags p).is_active
                && (flags n).is_active
                && not (flags n).is_weak
                && w.post_dominates l (flags p).target_instr)
          then with_active false (flags p)
          else flags p)
  put_tf_deactivates flags ft n p l at ne other =
      rw (← over_at flags n p l at) (put_tf-overrides flags ft n p ne other)
