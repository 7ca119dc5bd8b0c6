-- ===== src/Thread/Init.antt =====
-- Thread::init of a trace.
use study_uafx.Base.{
  ℕ, ◌-◌, ◌≡◌, refl, sym, ap, ◌∙◌, Bool, true, false, ◌&&◌, Option, none, some, List, [], ◌∷◌,
  length, arith, reverse,
}
use mathlib.Core.List.{reverse_aux, reverse-reverse}
use study_uafx.Loc.{InstLoc}
use study_uafx.Loc.Judge.{Judge, same_loc}
use study_uafx.Thread.{Node, Store, set_thread}
use study_uafx.Thread.Insert.{
  slot, find_same, drop, Inserted, put_at, put_last, put_slot, insert_between, insert_from,
  insert_loc,
}
use study_uafx.Thread.Methods.{init, init_from}
use study_uafx.Thread.Chain.{follows, is_chain_from, has_loc, is_distinct, insert_loc_at}
use study_uafx.Thread.Slots.{locs_of}
use study_uafx.Thread.Keeps.{trace_of, is_trace, are_placed}
use study_uafx.Thread.Put.{trace_of-put_at, put_at-is_trace}

has_loc-find_same :
    (nodes : ℕ → Node) (loc : InstLoc) (seq : List ℕ)
    → has_loc loc (locs_of nodes seq) ≡ false
    → find_same nodes loc seq ≡ none
unfolding find_same has_loc locs_of
has_loc-find_same nodes loc [] h = refl
has_loc-find_same nodes loc (p ∷ seq) h =
    let there : same_loc (nodes p).loc loc ≡ false = ground (arith, h) in
    let rest = has_loc-find_same nodes loc seq (ground (arith, h)) in rw (there, rest) refl

-- A location that reaches the first one goes in front of it.
front_slot :
    (w : Judge) (nodes : ℕ → Node) (loc : InstLoc) (seq : List ℕ) (st : Store) (tr ty : ℕ)
    → is_chain_from w none (loc ∷ locs_of nodes seq) ≡ true
    → nodes ≡ st.nodes
    → seq ≡ (st.threads tr).seq
    → put_slot w st tr loc ty false false false (slot w nodes loc false none 0 (length seq) seq)
      ≡ put_at st tr loc ty 0 false
unfolding slot is_chain_from locs_of put_slot follows put_last
front_slot w nodes loc [] st tr ty c e f =
    ap (λ (xs : List ℕ). put_at st tr loc ty (length xs) false) (sym f)
front_slot w nodes loc (p ∷ seq) st tr ty c e f =
    let before : w.reaches (nodes p).loc (some loc) [] ≡ true = ground (arith, c) in rw before refl

module _ (w : Judge) (st : Store) (tr : ℕ) (loc : InstLoc) where
  between_front :
      is_chain_from w none (loc ∷ trace_of st tr) ≡ true
      → has_loc loc (trace_of st tr) ≡ false
      → insert_between w st tr loc 0 true false 0 (length (st.threads tr).seq) none false false
        ≡ put_at st tr loc 0 0 false
  unfolding trace_of drop insert_between put_at
  between_front c fresh =
      let missing = has_loc-find_same st.nodes loc (st.threads tr).seq fresh in
      let all : length (st.threads tr).seq - 0 ≡ length (st.threads tr).seq = omega arith in
      rw (insert_between, missing, all)
        (front_slot w st.nodes loc (st.threads tr).seq st tr 0 c refl refl)

  insert_front :
      is_chain_from w none (loc ∷ trace_of st tr) ≡ true
      → has_loc loc (trace_of st tr) ≡ false
      → insert_loc w st tr (some loc) 0 true false none none false
        ≡ some (put_at st tr loc 0 0 false)
  unfolding insert_loc insert_from
  insert_front c fresh = ap some (between_front c fresh)

is_trace-placed :
    (w : Judge) (st : Store) (tr : ℕ)
    → is_trace w st tr ≡ true
    → are_placed st.next_node (st.threads tr).seq ≡ true
unfolding is_trace
is_trace-placed w st tr t = ground (arith, t)

chain_tail :
    (w : Judge) (prev : Option InstLoc) (l : InstLoc) (ls : List InstLoc)
    → is_chain_from w prev (l ∷ ls) ≡ true
    → is_chain_from w none ls ≡ true
unfolding is_chain_from follows
chain_tail w prev l [] c = refl
chain_tail w prev l (m ∷ ls) c = ground (arith, c)

-- The list after `rs` has been put in front of it, one by one, is still a trace.
chain_rest :
    (w : Judge) (rs ls : List InstLoc)
    → is_chain_from w none (reverse_aux rs ls) ≡ true
    → is_chain_from w none ls ≡ true
chain_rest w [] ls c = c
chain_rest w (l ∷ rs) ls c = chain_tail w none l ls (chain_rest w rs (l ∷ ls) c)

distinct_rest :
    (rs ls : List InstLoc) → is_distinct (reverse_aux rs ls) ≡ true → is_distinct ls ≡ true
unfolding is_distinct
distinct_rest [] ls d = d
distinct_rest (l ∷ rs) ls d = ground (arith, distinct_rest rs (l ∷ ls) d)

-- It returns without an error, and the thread has these locations.
abbrev pub Starts : Judge → ℕ → List InstLoc → Option (Store × Bool) → Type 0
Starts w tr locs o = (st' : Store) × (o ≡ some (st', true)) × (trace_of st' tr ≡ locs)

init_from_step :
    (w : Judge) (st : Store) (tr : ℕ) (l : InstLoc) (rs : List InstLoc)
    → insert_loc w st tr (some l) 0 true false none none false ≡ some (put_at st tr l 0 0 false)
    → init_from w st tr (l ∷ rs) ≡ init_from w (put_at st tr l 0 0 false).0 tr rs
unfolding init_from put_at
init_from_step w st tr l rs put =
    ap
      (λ (o : Option Inserted). elim o as (λ x. Option (Store × Bool)) [
        | none ↦ none
        | some (st', none, ec) ↦
            some (set_thread st' tr (record (st'.threads tr) { seq = [] }), false)
        | some (st', some p, ec) ↦ init_from w st' tr rs
      ])
      put

-- An empty thread is a trace.
nil-is_trace :
    (w : Judge) (st : Store) (tr : ℕ) → (st.threads tr).seq ≡ [] → is_trace w st tr ≡ true
unfolding is_trace trace_of are_placed locs_of is_chain_from is_distinct
nil-is_trace w st tr empty =
    ap
      (λ (seq : List ℕ).
        are_placed st.next_node seq
        && is_chain_from w none (locs_of st.nodes seq)
        && is_distinct (locs_of st.nodes seq))
      empty

init_from-Starts :
    (w : Judge) (st : Store) (tr : ℕ) (rs : List InstLoc)
    → is_trace w st tr ≡ true
    → is_chain_from w none (reverse_aux rs (trace_of st tr)) ≡ true
    → is_distinct (reverse_aux rs (trace_of st tr)) ≡ true
    → Starts w tr (reverse_aux rs (trace_of st tr)) (init_from w st tr rs)
unfolding init_from is_distinct insert_loc_at
init_from-Starts w st tr [] t c d = (st, refl, refl)
init_from-Starts w st tr (l ∷ rs) t c d =
    let chain = chain_rest w rs (l ∷ trace_of st tr) c in
    let distinct = distinct_rest rs (l ∷ trace_of st tr) d in
    let fresh : has_loc l (trace_of st tr) ≡ false = ground (arith, distinct) in
    let put = insert_front w st tr l chain fresh in
    let st' = (put_at st tr l 0 0 false).0 in
    let t' : is_trace w st' tr ≡ true = put_at-is_trace w st tr l 0 0 false t fresh chain in
    let now : trace_of st' tr ≡ l ∷ trace_of st tr =
      trace_of-put_at st tr l 0 0 (is_trace-placed w st tr t) in
    let (last, e, all) =
      init_from-Starts w st' tr rs t'
        (ap (λ (ls : List InstLoc). is_chain_from w none (reverse_aux rs ls)) now ∙ c)
        (ap (λ (ls : List InstLoc). is_distinct (reverse_aux rs ls)) now ∙ d) in
    (last, init_from_step w st tr l rs put ∙ e, all ∙ ap (reverse_aux rs) now)

-- init of an empty thread with locations of which each reaches the next and none stands twice returns
-- without an error, and the thread has these locations in this order.
pub init-Starts :
    (w : Judge) (st : Store) (tr : ℕ) (locs : List InstLoc)
    → (st.threads tr).seq ≡ []
    → is_chain_from w none locs ≡ true
    → is_distinct locs ≡ true
    → Starts w tr locs (init w st tr locs)
unfolding init trace_of locs_of
init-Starts w st tr locs empty c d =
    let back : reverse_aux (reverse locs) [] ≡ locs = reverse-reverse locs in
    let nil : trace_of st tr ≡ [] = ap (locs_of st.nodes) empty in
    let all : reverse_aux (reverse locs) (trace_of st tr) ≡ locs =
      ap (reverse_aux (reverse locs)) nil ∙ back in
    let (last, e, same) =
      init_from-Starts w st tr (reverse locs) (nil-is_trace w st tr empty)
        (ap (is_chain_from w none) all ∙ c) (ap is_distinct all ∙ d) in
    (last, e, same ∙ all)
