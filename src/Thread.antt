-- ===== src/Thread.antt =====
-- Thread: InstLocTr and Thread of
-- llvm_analysis/MainAnalysisPasses/SoundyAliasAnalysis/include/ModuleState.h. The locations of threads
-- and the threads stand on a heap, since a forked thread shares its locations. Types are words of 32
-- bits.
pub mod Insert
pub mod Methods
pub mod Chain
pub mod Slots
pub mod Keeps
pub mod Put
pub mod Trace
pub mod Dry
pub mod Init
pub mod Sched
pub mod Seq
pub mod Locks
pub mod Clusters
pub mod Apart
pub mod Regions
mod Tests
use study_uafx.Base.{
  ℕ, zero, suc, ◌+◌, ◌*◌, ◌/◌, ◌%◌, Bool, true, false, not, ◌&&◌, ◌||◌, Option, none, some, List,
  [], ◌∷◌, ◌++◌, if◌then◌else◌, ◌==◌, contains, insert, get_elem?,
}
use study_uafx.Base.Int.{ℤ, pos, negsuc}
use study_uafx.Loc.{InstLoc, Value}
use study_uafx.Loc.Judge.{same_loc, same_value}

-- The bits of two words.
unfoldable pub bitwise : (Bool → Bool → Bool) → ℕ → ℕ → ℕ → ℕ
bitwise f zero a b = 0
bitwise f (suc k) a b =
    2 * bitwise f k (a / 2) (b / 2) + (if f (a % 2 == 1) (b % 2 == 1) then 1 else 0)

unfoldable pub types_met : ℕ → ℕ → Bool
unfolding bitwise
types_met a b = not (bitwise (λ x y. x && y) 32 a b == 0)

unfoldable pub types_joined : ℕ → ℕ → ℕ
unfolding bitwise
types_joined = bitwise (λ x y. x || y) 32

unfoldable pub types_without : ℕ → ℕ → ℕ
unfolding bitwise
types_without = bitwise (λ x y. x && not y) 32

-- InstLocTr; `tr` maps a schedule to the thread, `ptos` a value to its records.
pub record Node : Type 0 where
  pub loc : InstLoc
  pub ty : ℕ
  pub tr : List (ℕ × ℕ)
  pub ptos : List (Value × List ℕ)

pub record Thread : Type 0 where
  pub id : ℤ
  pub seq : List ℕ
  pub sched : ℕ

pub record Store : Type 0 where
  pub nodes : ℕ → Node
  pub next_node : ℕ
  pub threads : ℕ → Thread
  pub next_thread : ℕ

unfoldable pub set_node : Store → ℕ → Node → Store
set_node st p n = record st { nodes = λ k. if k == p then n else st.nodes k }

unfoldable pub set_thread : Store → ℕ → Thread → Store
set_thread st t th = record st { threads = λ k. if k == t then th else st.threads k }

unfoldable pub new_thread : Store → Thread → Store × ℕ
unfolding set_thread
new_thread st th =
    (record (set_thread st st.next_thread th) { next_thread = suc st.next_thread }, st.next_thread)

unfoldable pub new_node : Store → Node → Store × ℕ
unfolding set_node
new_node st n = (record (set_node st st.next_node n) { next_node = suc st.next_node }, st.next_node)

unfoldable pub thread_in : List (ℕ × ℕ) → ℕ → Option ℕ
thread_in [] trs = none
thread_in ((s, t) ∷ tr) trs = if s == trs then some t else thread_in tr trs

-- getTr and setTr.
unfoldable pub get_tr : Node → ℕ → Option ℕ
unfolding thread_in
get_tr n trs = thread_in n.tr trs

abbrev pub set_tr : Node → ℕ → ℕ → Node
set_tr n trs t = record n { tr = (trs, t) ∷ n.tr }

unfoldable pub put_pto : List (Value × List ℕ) → Value → ℕ → List (Value × List ℕ)
unfolding same_value
put_pto [] v pto = (v, pto ∷ []) ∷ []
put_pto ((u, ps) ∷ ptos) v pto =
    if same_value u v then (u, insert pto ps) ∷ ptos else (u, ps) ∷ put_pto ptos v pto

unfoldable pub has_value : List Value → Value → Bool
unfolding same_value
has_value [] v = false
has_value (u ∷ vs) v = same_value u v || has_value vs v

-- addPto: `involved` are the operands of the instruction of the location.
unfoldable pub add_pto : (Value → List Value) → Node → Option Value → Option ℕ → Node
unfolding has_value put_pto
add_pto involved n none pto = n
add_pto involved n (some v) none = n
add_pto involved n (some v) (some pto) =
    if has_value (involved n.loc.value) v then record n { ptos = put_pto n.ptos v pto } else n

-- addPtos: `pointer` is the pointer of a record.
unfoldable pub add_ptos : (Value → List Value) → (ℕ → Option Value) → Node → List (Option ℕ) → Node
unfolding add_pto
add_ptos involved pointer n [] = n
add_ptos involved pointer n (none ∷ ptos) = add_ptos involved pointer n ptos
add_ptos involved pointer n (some p ∷ ptos) =
    add_ptos involved pointer (add_pto involved n (pointer p) (some p)) ptos

unfoldable pub share : Store → ℕ → ℕ → List ℕ → Store
unfolding set_node
share st trs ntr [] = st
share st trs ntr (p ∷ seq) = share (set_node st p (set_tr (st.nodes p) trs ntr)) trs ntr seq

-- Thread::fork for the schedule `trs`.
unfoldable pub fork_thread : Store → ℕ → ℕ → Store × ℕ
unfolding new_thread share
fork_thread st tr trs =
    let this = st.threads tr in
    let (st', ntr) = new_thread st (record { id = this.id; seq = this.seq; sched = trs }) in
    (share st' trs ntr this.seq, ntr)

-- getLoc by the place and by the location.
unfoldable pub get_loc_at : Store → ℕ → ℤ → Option ℕ
get_loc_at st tr (negsuc n) = none
get_loc_at st tr (pos i) = get_elem? (st.threads tr).seq i

unfoldable pub find_loc : (ℕ → Node) → InstLoc → List ℕ → Option ℕ
unfolding same_loc
find_loc nodes l [] = none
find_loc nodes l (p ∷ seq) = if same_loc (nodes p).loc l then some p else find_loc nodes l seq

unfoldable pub get_loc : Store → ℕ → Option InstLoc → Option ℕ
unfolding find_loc
get_loc st tr none = none
get_loc st tr (some l) = find_loc st.nodes l (st.threads tr).seq
