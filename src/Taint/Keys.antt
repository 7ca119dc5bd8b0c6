-- ===== src/Taint/Keys.antt =====
-- What addTf and a reset leave of every flag: all but whether it is active and weak, and the fields it
-- was in.
use study_uafx.Base.{
  ℕ, ◌≡◌, refl, sym, ap, ◌∙◌, Bool, true, false, not, ◌&&◌, ◌||◌, Option, none, some, List, [], ◌∷◌,
  ◌++◌, if◌then◌else◌, ◌==◌, contains, contains-append, insert, arith, Bool-cases, Option-cases,
  inl, inr, ==_iff, is_empty,
}
use study_uafx.Loc.{InstLoc}
use study_uafx.Loc.Judge.{Judge}
use study_uafx.Points.{entry_of}
use study_uafx.Taint.{TaintTag, TaintFlag, is_taint_equals}
use study_uafx.Taint.Field.{
  FieldTaint, Flags, set_flag, with_active, reset_flags, reset_tfs, reset_at, collect_winner_tfs,
  winners_at, has_winners,
}
use study_uafx.Taint.Add.{overrides, renew, merge_tf, deactivate, put_tf}
use study_uafx.Taint.Overrides.{set_flag_other, set_flag_self}
use study_uafx.Taint.Reset.{is_preset, of_entry, reset_flags-flags, reset_flag-with_active}

pub taint_key : TaintFlag → TaintFlag
taint_key tf = record tf { is_active = true; is_weak = false; mem_tag = [] }

abbrev pub SameKeys : Flags → Flags → Type 0
SameKeys f f' = (p : ℕ) → taint_key (f' p) ≡ taint_key (f p)

pub taint_key-is_tainted :
    (t u : TaintFlag) → taint_key t ≡ taint_key u → t.is_tainted ≡ u.is_tainted
unfolding taint_key
taint_key-is_tainted t u e = ap (λ (x : TaintFlag). x.is_tainted) e

pub taint_key-target_instr :
    (t u : TaintFlag) → taint_key t ≡ taint_key u → t.target_instr ≡ u.target_instr
unfolding taint_key
taint_key-target_instr t u e = ap (λ (x : TaintFlag). x.target_instr) e

-- Equality of taints reads the keys only.
pub taint_key-is_taint_equals :
    (tags : ℕ → TaintTag) (t t' u u' : TaintFlag)
    → taint_key t' ≡ taint_key t
    → taint_key u' ≡ taint_key u
    → is_taint_equals tags t' u' ≡ is_taint_equals tags t u
unfolding taint_key is_taint_equals
taint_key-is_taint_equals tags t t' u u' p q =
    ap (λ (x : TaintFlag). is_taint_equals tags x u') p ∙ ap (is_taint_equals tags t) q

set_flag-SameKeys :
    (flags : Flags) (q : ℕ) (tf : TaintFlag)
    → taint_key tf ≡ taint_key (flags q)
    → SameKeys flags (set_flag flags q tf)
set_flag-SameKeys flags q tf e p = elim (Bool-cases (p == q)) [
  | inr there ↦ ap taint_key (set_flag_other flags q p tf there)
  | inl here ↦
      let s : p ≡ q = (==_iff p q).0 here in
      ap (λ (k : ℕ). taint_key (set_flag flags q tf k)) s
      ∙ ap taint_key (set_flag_self flags q tf)
      ∙ e
      ∙ ap (λ (k : ℕ). taint_key (flags k)) (sym s)
]

taint_key-renew : (n tf : TaintFlag) → taint_key (renew n tf) ≡ taint_key tf
unfolding taint_key renew
taint_key-renew n tf = refl

taint_key-with_active : (b : Bool) (tf : TaintFlag) → taint_key (with_active b tf) ≡ taint_key tf
unfolding taint_key
taint_key-with_active b tf = refl

if-SameKeys : (b : Bool) (f g : Flags) → SameKeys f g → SameKeys f (if b then g else f)
if-SameKeys true f g s p = s p
if-SameKeys false f g s p = refl

module _ (tags : ℕ → TaintTag) (w : Judge) where
  merge_tf-SameKeys :
      (n : ℕ) (flags : Flags) (del : List ℕ) (dup : Bool) (tfs : List ℕ)
      → SameKeys flags (merge_tf tags w n flags del dup tfs).flags
  unfolding merge_tf
  merge_tf-SameKeys n flags del dup [] p = refl
  merge_tf-SameKeys n flags del dup (q ∷ tfs) p =
      let over = overrides w (flags n) (flags q) in
      let again = not dup && (q == n || is_taint_equals tags (flags n) (flags q)) in
      let flags' = set_flag flags q (renew (flags n) (flags q)) in
      merge_tf-SameKeys n (if again then flags' else flags) (if over then insert q del else del)
        (dup || again) tfs p
      ∙ if-SameKeys again flags flags'
          (set_flag-SameKeys flags q _ (taint_key-renew (flags n) (flags q))) p

  deactivate-SameKeys :
      (flags : Flags) (del : List ℕ) → SameKeys flags (deactivate tags w flags del)
  unfolding deactivate
  deactivate-SameKeys flags [] p = refl
  deactivate-SameKeys flags (q ∷ del) p =
      let flags' = set_flag flags q (with_active false (flags q)) in
      deactivate-SameKeys flags' del p
      ∙ set_flag-SameKeys flags q _ (taint_key-with_active false (flags q)) p

  marked_key :
      (tf : TaintFlag) (this : ℕ)
      → taint_key (record tf { mem_tag = tf.mem_tag ++ (this ∷ []) }) ≡ taint_key tf
  unfolding taint_key
  marked_key tf this = refl

  pub put_tf-SameKeys :
      (flags : Flags) (ft : FieldTaint) (n : ℕ) → SameKeys flags (put_tf tags w flags ft n).0
  unfolding put_tf
  put_tf-SameKeys flags ft n p =
      let m = merge_tf tags w n flags [] false ft.target_taint in
      let merged = merge_tf-SameKeys n flags [] false ft.target_taint p in
      let stored =
        set_flag m.flags n
          (record (m.flags n) { mem_tag = (m.flags n).mem_tag ++ (ft.this ∷ []) }) in
      elim (Bool-cases m.is_dup) [
        | inl dup ↦ rw (dup, put_tf) (deactivate-SameKeys m.flags m.to_del p ∙ merged)
        | inr new ↦
            rw (new, put_tf)
              (deactivate-SameKeys stored m.to_del p
                ∙ set_flag-SameKeys m.flags n _ (marked_key (m.flags n) ft.this) p
                ∙ merged)
      ]

module _ (tags : ℕ → TaintTag) (w : Judge) where
  -- The flags of the field after putting one in.
  pub put_tf-target_taint :
      (flags : Flags) (ft : FieldTaint) (n p : ℕ)
      → contains (put_tf tags w flags ft n).1.target_taint p ≡ true
      → (contains ft.target_taint p || n == p) ≡ true
  unfolding put_tf contains
  put_tf-target_taint flags ft n p m =
      elim (Bool-cases (merge_tf tags w n flags [] false ft.target_taint).is_dup) [
        | inl dup ↦
            let m' : contains ft.target_taint p ≡ true = (rw (dup, put_tf) at m) in
            ground (arith, m')
        | inr new ↦
            let m' : contains (ft.target_taint ++ (n ∷ [])) p ≡ true = (rw (new, put_tf) at m) in
            ground (arith, m', contains-append ft.target_taint (n ∷ []) p)
      ]

-- A reset.
reset_flags-SameKeys :
    (entry : ℕ) (flags : Flags) (tfs : List ℕ) → SameKeys flags (reset_flags entry flags tfs)
reset_flags-SameKeys entry flags tfs p =
    ap taint_key (reset_flags-flags entry flags tfs p) ∙ elim (Bool-cases (contains tfs p)) [
      | inr out ↦ rw out refl
      | inl listed ↦ rw listed (
          ap taint_key (reset_flag-with_active entry (flags p))
          ∙ taint_key-with_active
              (is_preset (flags p) || (flags p).is_active && of_entry entry (flags p)) (flags p))
    ]

collect_winner_tfs-target_taint :
    (w : Judge) (rets : ℕ → Option (List ℕ)) (flags : Flags) (ft : FieldTaint)
    → ((collect_winner_tfs w rets flags ft).target_taint ≡ ft.target_taint)
      × ((collect_winner_tfs w rets flags ft).this ≡ ft.this)
unfolding collect_winner_tfs
collect_winner_tfs-target_taint w rets flags ft = elim (Option-cases ft.last_reset) [
  | inl e ↦ rw (e, collect_winner_tfs) (refl, refl)
  | inr (entry, e) ↦ elim (Option-cases (rets entry)) [
    | inl f ↦ rw (e, f, collect_winner_tfs) (refl, refl)
    | inr (rs, f) ↦
        let tfs = winners_at w flags ft entry rs [] in
        elim (Bool-cases (has_winners ft.winner_tfs entry || is_empty tfs)) [
          | inl skip ↦ rw (e, f, collect_winner_tfs) (rw skip (refl, refl))
          | inr more ↦ rw (e, f, collect_winner_tfs) (rw more (refl, refl))
        ]
  ]
]

-- What a reset keeps: the keys, the set of flags, and the flags that are not in the field.
pub record SameField (flags flags' : Flags) (ft ft' : FieldTaint) : Type 0 where
  pub keys_same : SameKeys flags flags'
  pub set_same : ft'.target_taint ≡ ft.target_taint
  pub this_same : ft'.this ≡ ft.this
  pub others_same : (p : ℕ) → contains ft.target_taint p ≡ false → flags' p ≡ flags p

SameField-refl : (flags : Flags) (ft : FieldTaint) → SameField flags flags ft ft
SameField-refl flags ft = record {
  keys_same = λ p. refl;
  set_same = refl;
  this_same = refl;
  others_same = λ p h. refl;
}

reset_tfs-SameField :
    (w : Judge) (rets : ℕ → Option (List ℕ)) (flags : Flags) (ft : FieldTaint) (entry : ℕ)
    → SameField flags (reset_tfs w rets flags ft entry).0 ft (reset_tfs w rets flags ft entry).1
unfolding reset_tfs
reset_tfs-SameField w rets flags ft entry = elim (Option-cases ft.last_reset) [
  | inl e ↦
      rw (e, reset_tfs)
        (record {
          keys_same = λ p. refl;
          set_same = refl;
          this_same = refl;
          others_same = λ p h. refl;
        })
  | inr (last, e) ↦ elim (Bool-cases (last == entry)) [
    | inl same ↦
        rw (e, reset_tfs)
          (rw same (record {
            keys_same = λ p. refl;
            set_same = refl;
            this_same = refl;
            others_same = λ p h. refl;
          }))
    | inr new ↦
        let (set, this) = collect_winner_tfs-target_taint w rets flags ft in
        rw (e, reset_tfs)
          (rw new (record {
            keys_same = reset_flags-SameKeys entry flags ft.target_taint;
            set_same = set;
            this_same = this;
            others_same = λ p h. reset_flags-flags entry flags ft.target_taint p ∙ rw h refl;
          }))
  ]
]

pub reset_at-SameField :
    (w : Judge) (rets : ℕ → Option (List ℕ)) (flags : Flags) (ft : FieldTaint) (l : Option InstLoc)
    → SameField flags (reset_at w rets flags ft l).0 ft (reset_at w rets flags ft l).1
unfolding reset_at
reset_at-SameField w rets flags ft none = SameField-refl flags ft
reset_at-SameField w rets flags ft (some l) = elim (Option-cases (entry_of l)) [
  | inl e ↦ rw (e, reset_at) (SameField-refl flags ft)
  | inr (entry, e) ↦ rw (e, reset_at) (reset_tfs-SameField w rets flags ft entry)
]
