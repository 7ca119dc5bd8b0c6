-- ===== src/Taint/Add.antt =====
-- FieldTaint::addTf of
-- llvm_analysis/MainAnalysisPasses/SoundyAliasAnalysis/include/TaintInfo.h.
use study_uafx.Base.{
  ℕ, Bool, true, false, not, ◌&&◌, ◌||◌, Option, none, some, List, [], ◌∷◌, ◌++◌, if◌then◌else◌,
  ◌==◌, same_opt, contains, insert,
}
use study_uafx.Loc.Judge.{Judge}
use study_uafx.Taint.{TaintTag, TaintFlag, is_taint_equals, eqb}
use study_uafx.Taint.Field.{FieldTaint, Flags, set_flag, with_active, has_active_taint, reset_at}

-- Whether an active flag with the same tag is there, for a flag that was in this field before.
unfoldable pub has_same_tag : Flags → Option ℕ → List ℕ → Bool
has_same_tag flags tag [] = false
has_same_tag flags tag (p ∷ tfs) =
    (flags p).is_active && same_opt (flags p).tag tag || has_same_tag flags tag tfs

-- Whether a new flag overrides an old one.
unfoldable pub overrides : Judge → TaintFlag → TaintFlag → Bool
overrides w n tf =
    tf.is_active && n.is_active && not n.is_weak && elim n.target_instr as (λ x. Bool) [
      | none ↦ false
      | some l ↦ w.post_dominates l tf.target_instr
    ]

-- The old flag that is the new one again.
unfoldable pub renew : TaintFlag → TaintFlag → TaintFlag
renew n tf = record tf {
  is_weak = if eqb n.is_weak tf.is_weak then tf.is_weak else false;
  is_active = n.is_active;
}

pub record Merged : Type 0 where
  pub flags : Flags
  pub to_del : List ℕ
  pub is_dup : Bool

module _ (tags : ℕ → TaintTag) (w : Judge) where
  -- The loop over the old flags; `n` is the place of the new one.
  unfoldable pub merge_tf : ℕ → Flags → List ℕ → Bool → List ℕ → Merged
  unfolding overrides renew set_flag is_taint_equals
  merge_tf n flags del dup [] = record { flags = flags; to_del = del; is_dup = dup }
  merge_tf n flags del dup (p ∷ tfs) =
      let del' = if overrides w (flags n) (flags p) then insert p del else del in
      let again = not dup && (p == n || is_taint_equals tags (flags n) (flags p)) in
      merge_tf n (if again then set_flag flags p (renew (flags n) (flags p)) else flags) del'
        (dup || again) tfs

  unfoldable pub deactivate : Flags → List ℕ → Flags
  unfolding set_flag
  deactivate flags [] = flags
  deactivate flags (p ∷ del) = deactivate (set_flag flags p (with_active false (flags p))) del

  -- The flags, the field and the result, past the checks of addTf.
  unfoldable pub put_tf : Flags → FieldTaint → ℕ → Flags × FieldTaint × Bool
  unfolding merge_tf deactivate set_flag
  put_tf flags ft n =
      let m = merge_tf n flags [] false ft.target_taint in
      if m.is_dup then (deactivate m.flags m.to_del, ft, false) else (
        deactivate
            (set_flag m.flags n
              (record (m.flags n) { mem_tag = (m.flags n).mem_tag ++ (ft.this ∷ []) }))
            m.to_del,
        record ft { target_taint = ft.target_taint ++ (n ∷ []) },
        true,
      )

  -- addTf after the reset at the flag's site.
  unfoldable pub add_after_reset : Flags → FieldTaint → ℕ → Flags × FieldTaint × Bool
  unfolding has_active_taint has_same_tag put_tf
  add_after_reset flags ft n =
      if not (flags n).is_tainted && not (has_active_taint flags ft.target_taint)
      then (flags, ft, false)
      else if contains (flags n).mem_tag ft.this && has_same_tag flags (flags n).tag ft.target_taint
      then (flags, ft, false)
      else put_tf flags ft n

  unfoldable pub add_tf :
      (ℕ → Option (List ℕ)) → Flags → FieldTaint → Option ℕ → Flags × FieldTaint × Bool
  unfolding reset_at add_after_reset
  add_tf rets flags ft none = (flags, ft, false)
  add_tf rets flags ft (some n) =
      let (flags', ft') = reset_at w rets flags ft (flags n).target_instr in
      add_after_reset flags' ft' n
