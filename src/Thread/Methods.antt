-- ===== src/Thread/Methods.antt =====
-- The other methods of Thread, of
-- llvm_analysis/MainAnalysisPasses/SoundyAliasAnalysis/include/ModuleState.h.
use study_uafx.Base.{
  ℕ, zero, suc, ◌-◌, Bool, true, false, ◌&&◌, Option, none, some, List, [], ◌∷◌, if◌then◌else◌,
  ◌==◌, length, get_elem?, reverse,
}
use study_uafx.Base.Int.{ℤ, pos, negsuc}
use study_uafx.Loc.{InstLoc}
use study_uafx.Loc.Judge.{Judge}
use study_uafx.Thread.{Node, Store, set_node, set_thread, types_without}
use study_uafx.Thread.Insert.{index_of, find_same, insert_loc}

-- Whether a way to the node `p` from the one before, and one from it to the next, is left.
unfoldable pub is_open : Judge → (ℕ → Node) → Option ℕ → ℕ → Option ℕ → List InstLoc → Bool
is_open w nodes prev p next blockers =
    elim prev as (λ x. Bool) [
      | none ↦ true
      | some q ↦ w.reaches (nodes p).loc (some (nodes q).loc) blockers
    ]
    && elim next as (λ x. Bool) [
      | none ↦ true
      | some q ↦ w.reaches (nodes q).loc (some (nodes p).loc) blockers
    ]

abbrev pub before : ℕ → List ℕ → Option ℕ
before i seq = elim i as (λ x. Option ℕ) [ zero ↦ none | suc j ↦ get_elem? seq j ]

unfoldable pub reachable_with_blockers : Judge → Store → ℕ → Option ℕ → List InstLoc → Bool
unfolding is_open index_of
reachable_with_blockers w st tr none blockers = false
reachable_with_blockers w st tr (some p) blockers =
    let seq = (st.threads tr).seq in
    elim (index_of p seq) [
      | none ↦ false
      | some i ↦ is_open w st.nodes (before i seq) p (get_elem? seq (suc i)) blockers
    ]

-- testLocInSeq: the start or the end that a position asks for.
unfoldable pub start_of : ℤ → List ℕ → Option ℕ
start_of (pos zero) seq = none
start_of (pos (suc n)) seq = get_elem? seq 0
start_of (negsuc n) seq = none

unfoldable pub end_of : ℤ → List ℕ → Option ℕ
end_of (pos n) seq = none
end_of (negsuc n) seq = get_elem? seq (length seq - 1)

unfoldable pub test_loc_in_seq : Judge → Store → ℕ → Option InstLoc → ℤ → Option (Store × Bool)
unfolding start_of end_of insert_loc
test_loc_in_seq w st tr none rpos = some (st, false)
test_loc_in_seq w st tr (some loc) rpos =
    let seq = (st.threads tr).seq in
    elim (insert_loc w st tr (some loc) 0 true false (end_of rpos seq) (start_of rpos seq) false) [
      | none ↦ none
      | some (st', none, ec) ↦ some (st', false)
      | some (st', some p, ec) ↦ some (st', true)
    ]

-- The loop of init, over the locations from the last to the first.
unfoldable pub init_from : Judge → Store → ℕ → List InstLoc → Option (Store × Bool)
unfolding insert_loc
init_from w st tr [] = some (st, true)
init_from w st tr (l ∷ locs) = elim (insert_loc w st tr (some l) 0 true false none none false) [
  | none ↦ none
  | some (st', none, ec) ↦ some (set_thread st' tr (record (st'.threads tr) { seq = [] }), false)
  | some (st', some p, ec) ↦ init_from w st' tr locs
]

-- Thread::init; whether there was no error.
unfoldable pub init : Judge → Store → ℕ → List InstLoc → Option (Store × Bool)
unfolding init_from
init w st tr locs = init_from w st tr (reverse locs)

unfoldable pub erase_at : ℕ → List ℕ → List ℕ
erase_at i [] = []
erase_at zero (x ∷ xs) = xs
erase_at (suc i) (x ∷ xs) = x ∷ erase_at i xs

-- A type is masked out; a node without a type goes.
unfoldable pub remove_at : Store → ℕ → ℕ → ℕ → ℕ → Store × ℤ
unfolding types_without set_node set_thread erase_at
remove_at st tr i p ty =
    let left = types_without (st.nodes p).ty ty in
    let st' = set_node st p (record (st.nodes p) { ty = left }) in
    let this = st.threads tr in
    if left == 0
    then (set_thread st' tr (record this { seq = erase_at i this.seq }), negsuc 0)
    else (st', pos i)

-- removeLoc of a location, and of a node.
unfoldable pub remove_loc : Store → ℕ → Option InstLoc → ℕ → Store × ℤ
unfolding remove_at find_same
remove_loc st tr none ty = (st, negsuc 2)
remove_loc st tr (some loc) ty = elim (find_same st.nodes loc (st.threads tr).seq) [
  | none ↦ (st, negsuc 1)
  | some (i, p) ↦ remove_at st tr i p ty
]

unfoldable pub remove_node : Store → ℕ → Option ℕ → ℕ → Store × ℤ
unfolding remove_at index_of
remove_node st tr none ty = (st, negsuc 2)
remove_node st tr (some p) ty = elim (index_of p (st.threads tr).seq) [
  | none ↦ (st, negsuc 1)
  | some i ↦ remove_at st tr i p ty
]
