-- ===== src/Sites.antt =====
-- Sites: where the memory of an object field is allocated and freed, of the class AliasObject of
-- llvm_analysis/MainAnalysisPasses/SoundyAliasAnalysis/include/AliasObject.h. Objects stand on a heap;
-- the loops over hosts and embedded objects take fuel, `none` is exhausted fuel.
pub mod Cover
pub mod Exact
pub mod Alloc
mod Tests
use study_uafx.Base.{
  ℕ, zero, suc, Bool, true, false, not, ◌&&◌, ◌||◌, Option, none, some, List, [], ◌∷◌, ◌++◌,
  if◌then◌else◌, insert,
}
use study_uafx.Base.Int.{ℤ, pos, negsuc, ltb_ℤ, eqb_ℤ}
use study_uafx.Loc.{InstLoc}
use study_uafx.Loc.Judge.{same_loc}

-- The fields of an object that these methods read: its host, the objects embedded at its fields, whether
-- it is a sequence and its fields, its frees, and its allocation site when it is a heap location.
pub record Object : Type 0 where
  pub parent : Option ℕ
  pub emb_objs : List (ℤ × Option ℕ)
  pub is_seq : Bool
  pub fields : List ℤ
  pub free_sites : List (InstLoc × List ℕ)
  pub alloc_loc : Option InstLoc

abbrev pub Objs : Type 0
Objs = ℕ → Object

-- markFree; whether it has recorded the site.
unfoldable pub put_site : List (InstLoc × List ℕ) → InstLoc → ℕ → List (InstLoc × List ℕ)
unfolding same_loc
put_site [] l p = (l, p ∷ []) ∷ []
put_site ((m, ps) ∷ sites) l p =
    if same_loc m l then (m, insert p ps) ∷ sites else (m, ps) ∷ put_site sites l p

unfoldable pub mark_free : Object → Option InstLoc → Option ℕ → Object × Bool
unfolding put_site
mark_free o none pto = (o, false)
mark_free o (some l) none = (o, false)
mark_free o (some l) (some p) = (record o { free_sites = put_site o.free_sites l p }, true)

unfoldable pub emb_at : List (ℤ × Option ℕ) → ℤ → Option ℕ
emb_at [] fid = none
emb_at ((f, o) ∷ embs) fid = if eqb_ℤ f fid then o else emb_at embs fid

unfoldable pub emb_in : Object → List ℤ → List ℕ
unfolding emb_at
emb_in o [] = []
emb_in o (f ∷ fids) =
    let rest = emb_in o fids in elim (emb_at o.emb_objs f) [ none ↦ rest | some e ↦ e ∷ rest ]

-- getEmbObjs.
unfoldable pub get_emb_objs : Object → ℤ → List ℕ
unfolding emb_in
get_emb_objs o fid =
    emb_in o
      (fid ∷ (if not o.is_seq then [] else if ltb_ℤ fid (pos 0) then o.fields else negsuc 0 ∷ []))

unfoldable pub all_emb : Objs → List ℕ → List ℕ
unfolding get_emb_objs
all_emb objs [] = []
all_emb objs (e ∷ es) = get_emb_objs (objs e) (pos 0) ++ all_emb objs es

abbrev pub with_first : List ℕ → Option (List ℕ) → Option (List ℕ)
with_first xs none = none
with_first xs (some ys) = some (xs ++ ys)

-- An object and its hosts.
unfoldable pub hosts : Objs → ℕ → Option ℕ → Option (List ℕ)
hosts objs fuel none = some []
hosts objs zero (some o) = none
hosts objs (suc fuel) (some o) = with_first (o ∷ []) (hosts objs fuel (objs o).parent)

-- Objects and all objects embedded at their start.
unfoldable pub heads : Objs → ℕ → List ℕ → Option (List ℕ)
unfolding all_emb
heads objs fuel [] = some []
heads objs zero (e ∷ es) = none
heads objs (suc fuel) (e ∷ es) = with_first (e ∷ es) (heads objs fuel (all_emb objs (e ∷ es)))

unfoldable pub locs_in : List (InstLoc × List ℕ) → List InstLoc
locs_in [] = []
locs_in ((l, ps) ∷ sites) = l ∷ locs_in sites

unfoldable pub sites_of : Objs → List ℕ → List InstLoc
unfolding locs_in
sites_of objs [] = []
sites_of objs (o ∷ os) = locs_in (objs o).free_sites ++ sites_of objs os

-- getFreeSites and getFieldFreeSites.
unfoldable pub get_free_sites : Objs → ℕ → ℕ → Option (List InstLoc)
unfolding hosts sites_of
get_free_sites objs fuel o = elim (hosts objs fuel (some o)) [
  | none ↦ none
  | some hs ↦ some (sites_of objs hs)
]

unfoldable pub get_field_free_sites : Objs → ℕ → ℕ → ℤ → Option (List InstLoc)
unfolding get_free_sites heads get_emb_objs sites_of
get_field_free_sites objs fuel o fid = elim (get_free_sites objs fuel o) [
  | none ↦ none
  | some sites ↦ elim (heads objs fuel (get_emb_objs (objs o) fid)) [
    | none ↦ none
    | some es ↦ some (sites ++ sites_of objs es)
  ]
]

unfoldable pub first_alloc : Objs → List ℕ → Option InstLoc
first_alloc objs [] = none
first_alloc objs (o ∷ os) =
    let rest = first_alloc objs os in elim (objs o).alloc_loc [ none ↦ rest | some l ↦ some l ]

-- getFieldAllocSite; it looks at the embedded objects only when no host has a site.
unfoldable pub get_field_alloc_site : Objs → ℕ → ℕ → ℤ → Option (Option InstLoc)
unfolding hosts heads first_alloc get_emb_objs
get_field_alloc_site objs fuel o fid = elim (hosts objs fuel (some o)) [
  | none ↦ none
  | some hs ↦ elim (first_alloc objs hs) [
    | some l ↦ some (some l)
    | none ↦ elim (heads objs fuel (get_emb_objs (objs o) fid)) [
      | none ↦ none
      | some es ↦ some (first_alloc objs es)
    ]
  ]
]
