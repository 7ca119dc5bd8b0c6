-- ===== src/Taint/Field.antt =====
-- The taint of an object field: the class FieldTaint of
-- llvm_analysis/MainAnalysisPasses/SoundyAliasAnalysis/include/TaintInfo.h. The flags stand on a heap,
-- since several fields hold the same flag. The return instructions of the function of an entry are an
-- argument, `none` for an entry without a function.
use study_uafx.Base.{
  ℕ, Bool, true, false, not, ◌&&◌, ◌||◌, Option, none, some, List, [], ◌∷◌, if◌then◌else◌, ◌==◌,
  same_opt, is_empty, insert, select,
}
use study_uafx.Base.Int.{ℤ}
use study_uafx.Loc.{InstLoc, loc}
use study_uafx.Loc.Judge.{Judge}
use study_uafx.Points.{entry_of}
use study_uafx.Taint.{TaintFlag}

pub record FieldTaint : Type 0 where
  pub this : ℕ
  pub field_id : ℤ
  pub target_taint : List ℕ
  pub priv : Option ℕ
  pub last_reset : Option ℕ
  pub winner_tfs : List (ℕ × List ℕ)

abbrev pub Flags : Type 0
Flags = ℕ → TaintFlag

unfoldable pub set_flag : Flags → ℕ → TaintFlag → Flags
set_flag flags p tf = λ k. if k == p then tf else flags k

abbrev pub with_active : Bool → TaintFlag → TaintFlag
with_active b tf = record tf { is_active = b }

unfoldable pub has_active_taint : Flags → List ℕ → Bool
has_active_taint flags [] = false
has_active_taint flags (p ∷ tfs) =
    (flags p).is_active && (flags p).is_tainted || has_active_taint flags tfs

-- The sites of the strong flags.
unfoldable pub strong_flags : Flags → List ℕ → List InstLoc
strong_flags flags [] = []
strong_flags flags (p ∷ tfs) =
    let rest = strong_flags flags tfs in
    elim (flags p).target_instr [
      | none ↦ rest
      | some l ↦ if (flags p).is_weak then rest else l ∷ rest
    ]

-- doGetTf; every caller keeps to the active flags.
unfoldable pub do_get_tf : Judge → Flags → FieldTaint → Option InstLoc → List ℕ
unfolding strong_flags
do_get_tf w flags ft l =
    let active = select (λ p. (flags p).is_active) ft.target_taint in
    let tainted = select (λ p. (flags p).is_tainted) active in
    elim l [
      | none ↦ tainted
      | some m ↦
          select (λ p. w.reaches m (flags p).target_instr (strong_flags flags active)) tainted
    ]

unfoldable pub has_winners : List (ℕ × List ℕ) → ℕ → Bool
has_winners [] entry = false
has_winners ((e, tfs) ∷ ws) entry = e == entry || has_winners ws entry

unfoldable pub insert_all : List ℕ → List ℕ → List ℕ
insert_all [] tfs = tfs
insert_all (p ∷ more) tfs = insert_all more (insert p tfs)

-- The flags that reach some return of the entry's function.
unfoldable pub winners_at : Judge → Flags → FieldTaint → ℕ → List ℕ → List ℕ → List ℕ
unfolding do_get_tf insert_all
winners_at w flags ft entry [] tfs = tfs
winners_at w flags ft entry (r ∷ rets) tfs =
    winners_at w flags ft entry rets
      (insert_all (do_get_tf w flags ft (some (loc r (some entry ∷ [])))) tfs)

unfoldable pub collect_winner_tfs : Judge → (ℕ → Option (List ℕ)) → Flags → FieldTaint → FieldTaint
unfolding winners_at has_winners
collect_winner_tfs w rets flags ft = elim ft.last_reset [
  | none ↦ ft
  | some entry ↦ elim (rets entry) [
    | none ↦ ft
    | some rs ↦
        let tfs = winners_at w flags ft entry rs [] in
        if has_winners ft.winner_tfs entry || is_empty tfs
        then ft
        else record ft { winner_tfs = (entry, tfs) ∷ ft.winner_tfs }
  ]
]

-- The loop of resetTfs.
unfoldable pub reset_flag : ℕ → TaintFlag → TaintFlag
unfolding entry_of
reset_flag entry tf = elim tf.target_instr as (λ x. TaintFlag) [
  | none ↦ with_active true tf
  | some l ↦
      if tf.is_inherent
      then with_active true tf
      else if tf.is_active && not (same_opt (entry_of l) (some entry))
      then with_active false tf
      else tf
]

unfoldable pub reset_flags : ℕ → Flags → List ℕ → Flags
unfolding set_flag reset_flag
reset_flags entry flags [] = flags
reset_flags entry flags (p ∷ tfs) =
    reset_flags entry (set_flag flags p (reset_flag entry (flags p))) tfs

unfoldable pub reset_tfs :
    Judge → (ℕ → Option (List ℕ)) → Flags → FieldTaint → ℕ → Flags × FieldTaint
unfolding reset_flags collect_winner_tfs
reset_tfs w rets flags ft entry = elim ft.last_reset [
  | none ↦ (flags, record ft { last_reset = some entry })
  | some last ↦ if last == entry then (flags, ft) else (
    reset_flags entry flags ft.target_taint,
    record (collect_winner_tfs w rets flags ft) { last_reset = some entry },
  )
]

-- The reset at the entry of a site.
unfoldable pub reset_at :
    Judge → (ℕ → Option (List ℕ)) → Flags → FieldTaint → Option InstLoc → Flags × FieldTaint
unfolding reset_tfs entry_of
reset_at w rets flags ft none = (flags, ft)
reset_at w rets flags ft (some l) = elim (entry_of l) [
  | none ↦ (flags, ft)
  | some entry ↦ reset_tfs w rets flags ft entry
]

unfoldable pub get_tf :
    Judge
    → (ℕ → Option (List ℕ))
    → Flags
    → FieldTaint
    → Option InstLoc
    → Flags × FieldTaint × List ℕ
unfolding reset_at do_get_tf
get_tf w rets flags ft l =
    let (flags', ft') = reset_at w rets flags ft l in (flags', ft', do_get_tf w flags' ft' l)

unfoldable pub all_winners : List (ℕ × List ℕ) → List ℕ → List ℕ
unfolding insert_all
all_winners [] r = r
all_winners ((e, tfs) ∷ ws) r = all_winners ws (insert_all tfs r)

unfoldable pub get_winners :
    Judge → (ℕ → Option (List ℕ)) → Flags → FieldTaint → FieldTaint × List ℕ
unfolding collect_winner_tfs all_winners
get_winners w rets flags ft =
    let ft' = collect_winner_tfs w rets flags ft in (ft', all_winners ft'.winner_tfs [])

unfoldable pub keep_tainted : Flags → List (ℕ × List ℕ) → List (ℕ × List ℕ)
keep_tainted flags [] = []
keep_tainted flags ((e, tfs) ∷ ws) =
    (e, select (λ p. not (flags p).is_inherent) tfs) ∷ keep_tainted flags ws

unfoldable pub remove_inh_tfs : Flags → FieldTaint → FieldTaint
unfolding keep_tainted
remove_inh_tfs flags ft = record ft {
  target_taint = select (λ p. not (flags p).is_inherent) ft.target_taint;
  winner_tfs = keep_tainted flags ft.winner_tfs;
}

unfoldable pub get_inherent_tf : Flags → FieldTaint → List ℕ
get_inherent_tf flags ft = select (λ p. (flags p).is_inherent) ft.target_taint
