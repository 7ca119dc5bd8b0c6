-- ===== src/Uaf.antt =====
-- Uaf: what a load is asked by UAFDetector of
-- llvm_analysis/MainAnalysisPasses/SoundyAliasAnalysis/src/bug_detectors/UAFDetector.cpp, and the locks
-- held at a location, of include/ModuleState.h.
pub mod Held
pub mod Exact
pub mod Locked
pub mod Sourced
mod Tests
use study_uafx.Base.{
  ℕ, Bool, true, false, not, ◌&&◌, ◌||◌, Option, none, some, List, [], ◌∷◌, ◌++◌, if◌then◌else◌,
}
use study_uafx.Base.Int.{ℤ}
use study_uafx.Loc.{InstLoc}
use study_uafx.Loc.Judge.{Judge, same_loc}
use study_uafx.Thread.Chain.{has_loc}

-- What the detector asks of the objects: the allocation site of a field, the objects that are equivalent
-- to one, the free sites of a field, and what a pointer points to.
pub record Objects : Type 0 where
  pub get_field_alloc_site : ℕ → ℤ → Option InstLoc
  pub get_all_equivalent_objs : ℕ → List (Option ℕ)
  pub get_field_free_sites : ℕ → ℤ → List (Option InstLoc)

-- PointerPointsTo: the target object, `none` for a null one, and its field.
pub record PtoTarget : Type 0 where
  pub target_object : Option ℕ
  pub dst_field : ℤ

-- The detector's cache of isControlValid, and the confirmed free sites.
pub record Confirmed : Type 0 where
  pub ctl_cache : List (InstLoc × Bool)
  pub confirmed_frees : List InstLoc

-- VulnerabilityWarning: the site and the trace.
pub record Warning : Type 0 where
  pub target_loc : InstLoc
  pub trace : List InstLoc

-- isDataValid; the use location is never null here.
unfoldable pub is_data_valid : Judge → Option InstLoc → InstLoc → InstLoc → Bool
is_data_valid w none use_loc free_loc = true
is_data_valid w (some alloc_loc) use_loc free_loc =
    not (w.dominates alloc_loc (some use_loc) false && not (w.reaches use_loc (some free_loc) []))

-- The cached answer of holdSameLocks.
unfoldable pub cached : List (InstLoc × Bool) → InstLoc → Option Bool
unfolding same_loc
cached [] l = none
cached ((t, held) ∷ cache) l = if same_loc l t then some held else cached cache l

-- isControlValid; `held` is holdSameLocks.
unfoldable pub is_control_valid :
    (InstLoc → InstLoc → Bool)
    → InstLoc
    → List (InstLoc × Bool)
    → Option InstLoc
    → List (InstLoc × Bool) × Bool
unfolding cached
is_control_valid held use_loc cache none = (cache, true)
is_control_valid held use_loc cache (some l) = elim (cached cache l) [
  | some h ↦ (cache, not h)
  | none ↦ ((l, held l use_loc) ∷ cache, not (held l use_loc))
]

module _ (w : Judge) (held : InstLoc → InstLoc → Bool) (use_loc : InstLoc) where
  -- One free site of an equivalent object.
  unfoldable pub inspect : Option InstLoc → Confirmed → Option InstLoc → Confirmed
  unfolding has_loc is_control_valid is_data_valid
  inspect alloc_loc st none = st
  inspect alloc_loc st (some l) =
      let (cache, valid) = is_control_valid held use_loc st.ctl_cache (some l) in
      let st' = record st { ctl_cache = cache } in
      if has_loc l st.confirmed_frees
      then st
      else if not valid
      then st'
      else if is_data_valid w alloc_loc use_loc l
      then record st' { confirmed_frees = l ∷ st.confirmed_frees }
      else st'

  unfoldable pub inspect_frees : Option InstLoc → Confirmed → List (Option InstLoc) → Confirmed
  unfolding inspect
  inspect_frees alloc_loc st [] = st
  inspect_frees alloc_loc st (l ∷ frees) = inspect_frees alloc_loc (inspect alloc_loc st l) frees

  unfoldable pub inspect_objs :
      Objects → Option InstLoc → ℤ → Confirmed → List (Option ℕ) → Confirmed
  unfolding inspect_frees
  inspect_objs os alloc_loc fid st [] = st
  inspect_objs os alloc_loc fid st (none ∷ objs) = inspect_objs os alloc_loc fid st objs
  inspect_objs os alloc_loc fid st (some eo ∷ objs) =
      inspect_objs os alloc_loc fid (inspect_frees alloc_loc st (os.get_field_free_sites eo fid))
        objs

  -- One record of the pointer, with its target object.
  unfoldable pub inspect_target : Objects → Confirmed → ℤ → Option ℕ → Confirmed
  unfolding inspect_objs
  inspect_target os st fid none = st
  inspect_target os st fid (some obj) =
      inspect_objs os (os.get_field_alloc_site obj fid) fid st (os.get_all_equivalent_objs obj)

  unfoldable pub inspect_ptos : Objects → Confirmed → List (Option PtoTarget) → Confirmed
  unfolding inspect_target
  inspect_ptos os st [] = st
  inspect_ptos os st (none ∷ ptos) = inspect_ptos os st ptos
  inspect_ptos os st (some pto ∷ ptos) =
      inspect_ptos os (inspect_target os st pto.dst_field pto.target_object) ptos

  -- The warnings of the confirmed frees; the constructor appends the use to the trace.
  unfoldable pub warn : List InstLoc → List Warning
  unfolding same_loc
  warn [] = []
  warn (l ∷ confirmed) =
      record {
        target_loc = use_loc;
        trace = if same_loc l use_loc then l ∷ [] else l ∷ use_loc ∷ [];
      }
      ∷ warn confirmed

  -- visitLoadInst: the warnings of a load through a pointer with these records.
  unfoldable pub visit_load_inst : Objects → List (Option PtoTarget) → List Warning
  unfolding inspect_ptos warn
  visit_load_inst os ptos =
      warn (inspect_ptos os (record { ctl_cache = []; confirmed_frees = [] }) ptos).confirmed_frees
