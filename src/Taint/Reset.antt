-- ===== src/Taint/Reset.antt =====
-- FieldTaint::resetTfs: the flags after a switch of the entry function.
use study_uafx.Base.{
  ℕ, ◌≡◌, ◌≢◌, refl, sym, ap, ◌∙◌, Bool, true, false, not, ◌&&◌, ◌||◌, Option, none, some, List, [],
  ◌∷◌, if◌then◌else◌, ◌==◌, contains, arith, Bool-cases, inl, inr, ==_iff, ==_refl, same_opt,
}
use study_uafx.Loc.{InstLoc}
use study_uafx.Loc.Judge.{Judge}
use study_uafx.Points.{entry_of}
use study_uafx.Taint.{TaintFlag}
use study_uafx.Taint.Field.{
  FieldTaint, Flags, set_flag, with_active, reset_flag, reset_flags, reset_tfs,
}
use study_uafx.Taint.Overrides.{set_flag_other, set_flag_self}

-- A flag that a reset switches on: inherent, or without a site.
abbrev pub is_preset : TaintFlag → Bool
is_preset tf =
    tf.is_inherent || elim tf.target_instr as (λ x. Bool) [ none ↦ true | some l ↦ false ]

-- A flag whose site lies under the entry.
abbrev pub of_entry : ℕ → TaintFlag → Bool
of_entry entry tf = elim tf.target_instr as (λ x. Bool) [
  | none ↦ false
  | some l ↦ same_opt (entry_of l) (some entry)
]

or_true : (a b : Bool) → true ≡ (a || true || b)
or_true a b = ground arith

none_of : (a : Bool) → false ≡ (a && false)
none_of a = ground arith

-- The cases of the loop's body; `here` says that the site lies under the entry.
local_flag :
    (tf : TaintFlag) (inh here : Bool)
    → (if inh
        then with_active true tf
        else if tf.is_active && not here
        then with_active false tf
        else tf)
      ≡ with_active (inh || false || tf.is_active && here) tf
local_flag tf true here = refl
local_flag tf false true =
    let off : tf.is_active && false ≡ false = ground arith in
    let on : tf.is_active ≡ (tf.is_active && true) = ground arith in
    rw off (ap (λ (b : Bool). with_active b tf) on)
local_flag tf false false = elim (Bool-cases tf.is_active) [
  | inl e ↦
      let on : tf.is_active && true ≡ true = ground (arith, e) in
      rw on (ap (λ (b : Bool). with_active b tf) (none_of tf.is_active))
  | inr e ↦
      let off : tf.is_active && true ≡ false = ground (arith, e) in
      rw off (ap (λ (b : Bool). with_active b tf) (ground (arith, e)))
]

pub reset_flag-with_active :
    (entry : ℕ) (tf : TaintFlag)
    → reset_flag entry tf ≡ with_active (is_preset tf || tf.is_active && of_entry entry tf) tf
unfolding reset_flag
reset_flag-with_active entry tf = by_site entry tf tf.target_instr
  where
    by_site :
        (entry : ℕ) (tf : TaintFlag) (site : Option InstLoc)
        → (elim site as (λ x. TaintFlag) [
          | none ↦ with_active true tf
          | some l ↦
              if tf.is_inherent
              then with_active true tf
              else if tf.is_active && not (same_opt (entry_of l) (some entry))
              then with_active false tf
              else tf
        ])
          ≡ with_active
              ((tf.is_inherent || elim site as (λ x. Bool) [ none ↦ true | some l ↦ false ])
                || tf.is_active && elim site as (λ x. Bool) [
                  | none ↦ false
                  | some l ↦ same_opt (entry_of l) (some entry)
                ])
              tf
    by_site entry tf none = ap (λ (b : Bool). with_active b tf) (ground arith)
    by_site entry tf (some l) = local_flag tf tf.is_inherent (same_opt (entry_of l) (some entry))

settled : (p a o : Bool) → (p || (p || a && o) && o) ≡ (p || a && o)
settled p a o = ground arith

reset_flag_twice :
    (entry : ℕ) (tf : TaintFlag) → reset_flag entry (reset_flag entry tf) ≡ reset_flag entry tf
reset_flag_twice entry tf =
    let p = is_preset tf in
    let o = of_entry entry tf in
    let e = reset_flag-with_active entry tf in
    ap (reset_flag entry) e
    ∙ reset_flag-with_active entry (with_active (p || tf.is_active && o) tf)
    ∙ ap (λ (b : Bool). with_active b tf) (settled p tf.is_active o)
    ∙ sym e

pub reset_flags-flags :
    (entry : ℕ) (flags : Flags) (tfs : List ℕ) (p : ℕ)
    → reset_flags entry flags tfs p
      ≡ (if contains tfs p then reset_flag entry (flags p) else flags p)
unfolding reset_flags contains
reset_flags-flags entry flags [] p = refl
reset_flags-flags entry flags (q ∷ tfs) p =
    reset_flags-flags entry (set_flag flags q (reset_flag entry (flags q))) tfs p
    ∙ elim (Bool-cases (q == p)) [
      | inl here ↦
          let e : q ≡ p = (==_iff q p).0 here in
          rw
            (
              e,
              set_flag_self flags p (reset_flag entry (flags p)),
              ==_refl p,
              reset_flag_twice entry (flags p),
            )
            (ground arith)
      | inr there ↦
          let back : p == q ≡ false = ground (arith, there) in
          rw (there, set_flag_other flags q p (reset_flag entry (flags q)) back) refl
    ]

-- After a switch of the entry function, a flag of the field is active exactly when it is inherent or
-- has no site, or was active and its site lies under the new entry; it keeps all its other fields,
-- and the flags of other fields keep all theirs.
pub reset_tfs-flags :
    (w : Judge) (rets : ℕ → Option (List ℕ)) (flags : Flags) (ft : FieldTaint) (last entry p : ℕ)
    → ft.last_reset ≡ some last
    → last ≢ entry
    → (reset_tfs w rets flags ft entry).0 p ≡ (
        if contains ft.target_taint p
        then with_active
            (is_preset (flags p) || (flags p).is_active && of_entry entry (flags p))
            (flags p)
        else flags p)
unfolding reset_tfs
reset_tfs-flags w rets flags ft last entry p was ne =
    let new : last == entry ≡ false = ground (arith, ne) in
    rw (was, reset_tfs)
      (rw new (
        reset_flags-flags entry flags ft.target_taint p
        ∙ rw (reset_flag-with_active entry (flags p)) refl))
