-- ===== src/Thread/Insert.antt =====
-- Thread::insertLoc and the methods that go through it or past it, of
-- llvm_analysis/MainAnalysisPasses/SoundyAliasAnalysis/include/ModuleState.h.
use study_uafx.Base.{
  ℕ, zero, suc, ◌-◌, Bool, true, false, not, ◌&&◌, ◌||◌, Option, none, some, List, [], ◌∷◌,
  if◌then◌else◌, ◌==◌, leb, ltb, length,
}
use study_uafx.Loc.{InstLoc}
use study_uafx.Loc.Judge.{Judge, same_loc}
use study_uafx.Thread.{Node, Store, set_node, set_thread, new_node, types_met, types_joined}

-- The codes of the documentation of insertLoc: at an index, and from -1 to -6.
pub data Code : Type 0 where
  inserted : ℕ → Code
  incompatible : Code
  duplicate : Code
  merged : Code
  refused : Code
  not_inevitable : Code
  passed : Code

unfoldable pub index_of : ℕ → List ℕ → Option ℕ
index_of a [] = none
index_of a (x ∷ xs) =
    let rest = index_of a xs in
    if x == a then some 0 else elim rest as (λ r. Option ℕ) [ none ↦ none | some i ↦ some (suc i) ]

-- The first place of a location, and its node.
unfoldable pub find_same : (ℕ → Node) → InstLoc → List ℕ → Option (ℕ × ℕ)
unfolding same_loc
find_same nodes loc [] = none
find_same nodes loc (p ∷ seq) =
    let rest = find_same nodes loc seq in
    if same_loc (nodes p).loc loc
    then some (0, p)
    else elim rest as (λ r. Option (ℕ × ℕ)) [ none ↦ none | some (i, q) ↦ some (suc i, q) ]

-- Where the second loop ends.
pub data Slot : Type 0 where
  at_index : ℕ → Slot
  no_way : Slot
  avoidable : Slot
  past_all : Slot

-- Whether the location can be missed before the node `p`, which follows `prev`.
unfoldable pub can_miss : Judge → (ℕ → Node) → InstLoc → Option ℕ → ℕ → Bool
can_miss w nodes loc none p = not (w.dominates loc (some (nodes p).loc) true)
can_miss w nodes loc (some q) p = w.reaches (nodes p).loc (some (nodes q).loc) (loc ∷ [])

-- The second loop from the index `i`, over `left` more nodes.
unfoldable pub slot : Judge → (ℕ → Node) → InstLoc → Bool → Option ℕ → ℕ → ℕ → List ℕ → Slot
unfolding can_miss
slot w nodes loc dom prev i left [] = past_all
slot w nodes loc dom prev i zero (p ∷ seq) = past_all
slot w nodes loc dom prev i (suc left) (p ∷ seq) =
    let later = slot w nodes loc dom (some p) (suc i) left seq in
    if not (w.reaches (nodes p).loc (some loc) [])
    then if w.reaches loc (some (nodes p).loc) [] then later else no_way
    else if dom && can_miss w nodes loc prev p
    then avoidable
    else at_index i

unfoldable pub drop : ℕ → List ℕ → List ℕ
drop zero xs = xs
drop (suc n) [] = []
drop (suc n) (x ∷ xs) = drop n xs

unfoldable pub insert_at : ℕ → ℕ → List ℕ → List ℕ
insert_at zero a xs = a ∷ xs
insert_at (suc i) a [] = a ∷ []
insert_at (suc i) a (x ∷ xs) = x ∷ insert_at i a xs

unfoldable pub last_of : List ℕ → Option ℕ
last_of [] = none
last_of (x ∷ []) = some x
last_of (x ∷ y ∷ xs) = last_of (y ∷ xs)

abbrev pub Inserted : Type 0
Inserted = Store × Option ℕ × Code

abbrev pub new_loc : ℕ → ℕ → InstLoc → ℕ → Node
new_loc sched tr loc ty = record { loc = loc; ty = ty; tr = (sched, tr) ∷ []; ptos = [] }

-- A new node at an index.
unfoldable pub put_at : Store → ℕ → InstLoc → ℕ → ℕ → Bool → Inserted
unfolding new_node set_thread insert_at
put_at st tr loc ty i true = (st, none, inserted i)
put_at st tr loc ty i false =
    let this = st.threads tr in
    let (st', p) = new_node st (new_loc this.sched tr loc ty) in
    (set_thread st' tr (record this { seq = insert_at i p this.seq }), some p, inserted i)

-- The location is there already, at the index `i`.
unfoldable pub meet_same : Store → ℕ → Bool → ℕ → ℕ → ℕ → ℕ → Bool → Inserted
unfolding types_met types_joined set_node
meet_same st ty merge first stop i p dry =
    if leb stop i || ltb i first
    then (st, none, passed)
    else if types_met (st.nodes p).ty ty
    then (st, some p, duplicate)
    else if merge
    then (
      if dry
          then st
          else set_node st p (record (st.nodes p) { ty = types_joined (st.nodes p).ty ty }),
      some p,
      merged,
    )
    else (st, none, refused)

-- Whether a location cannot be missed after the last node.
unfoldable pub closes : Judge → (ℕ → Node) → InstLoc → List ℕ → Bool
unfolding last_of
closes w nodes loc seq = elim (last_of seq) [
  | none ↦ true
  | some p ↦ w.post_dominates loc (some (nodes p).loc)
]

-- After the second loop.
unfoldable pub put_last : Judge → Store → ℕ → InstLoc → ℕ → Bool → Bool → Bool → Inserted
unfolding put_at closes
put_last w st tr loc ty dom stopped dry =
    let seq = (st.threads tr).seq in
    if stopped
    then (st, none, passed)
    else if not dom || closes w st.nodes loc seq
    then put_at st tr loc ty (length seq) dry
    else (st, none, not_inevitable)

-- What the second loop and the code after it do.
unfoldable pub put_slot : Judge → Store → ℕ → InstLoc → ℕ → Bool → Bool → Bool → Slot → Inserted
unfolding put_at put_last
put_slot w st tr loc ty dom stopped dry (at_index i) = put_at st tr loc ty i dry
put_slot w st tr loc ty dom stopped dry no_way = (st, none, incompatible)
put_slot w st tr loc ty dom stopped dry avoidable = (st, none, not_inevitable)
put_slot w st tr loc ty dom stopped dry past_all = put_last w st tr loc ty dom stopped dry

-- insertLoc from the index `first` on, before the index `stop`.
unfoldable pub insert_between :
    Judge → Store → ℕ → InstLoc → ℕ → Bool → Bool → ℕ → ℕ → Option ℕ → Bool → Bool → Inserted
unfolding find_same meet_same slot drop put_slot
insert_between w st tr loc ty merge dom first stop prev stopped dry =
    let seq = (st.threads tr).seq in
    elim (find_same st.nodes loc seq) as (λ x. Inserted) [
      | some (i, p) ↦ meet_same st ty merge first stop i p dry
      | none ↦
          put_slot w st tr loc ty dom stopped dry
            (slot w st.nodes loc dom prev first (stop - first) (drop first seq))
    ]

-- insertLoc with a start location, or none; `stop` is the end of the range.
unfoldable pub insert_from :
    Judge → Store → ℕ → InstLoc → ℕ → Bool → Bool → ℕ → Bool → Option ℕ → Bool → Option Inserted
unfolding insert_between index_of
insert_from w st tr loc ty merge dom stop stopped none dry =
    some (insert_between w st tr loc ty merge dom 0 stop none stopped dry)
insert_from w st tr loc ty merge dom stop stopped (some s) dry =
    elim (index_of s (st.threads tr).seq) [
      | none ↦ none
      | some start ↦
          if not (w.reaches loc (some (st.nodes s).loc) [])
          then some (st, none, passed)
          else some (insert_between w st tr loc ty merge dom (suc start) stop (some s) stopped dry)
    ]

-- insertLoc; `none` is a failed assertion.
unfoldable pub insert_loc :
    Judge
    → Store
    → ℕ
    → Option InstLoc
    → ℕ
    → Bool
    → Bool
    → Option ℕ
    → Option ℕ
    → Bool
    → Option Inserted
unfolding insert_from index_of
insert_loc w st tr none ty merge dom stop_loc start_loc dry = some (st, none, refused)
insert_loc w st tr (some loc) ty merge dom none start_loc dry =
    insert_from w st tr loc ty merge dom (length (st.threads tr).seq) false start_loc dry
insert_loc w st tr (some loc) ty merge dom (some s) start_loc dry =
    elim (index_of s (st.threads tr).seq) [
      | none ↦ none
      | some stop ↦ insert_from w st tr loc ty merge dom (suc stop) true start_loc dry
    ]

unfoldable pub is_success : Code → Bool
is_success (inserted i) = true
is_success incompatible = false
is_success duplicate = true
is_success merged = true
is_success refused = false
is_success not_inevitable = false
is_success passed = false

unfoldable pub test_insert_loc :
    Judge → Store → ℕ → Option InstLoc → ℕ → Bool → Bool → Option ℕ → Option ℕ → Option Bool
unfolding insert_loc is_success
test_insert_loc w st tr loc ty merge dom stop_loc start_loc =
    elim (insert_loc w st tr loc ty merge dom stop_loc start_loc true) [
      | none ↦ none
      | some (st', p, ec) ↦ some (is_success ec)
    ]
