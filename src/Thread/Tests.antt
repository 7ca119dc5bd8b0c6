-- ===== src/Thread/Tests.antt =====
-- A thread of a schedule 0 whose locations stand on one line of the entry 0.
use study_uafx.Base.{
  ℕ, ◌≡◌, refl, Bool, true, false, not, ◌&&◌, ◌||◌, Option, none, some, List, [], ◌∷◌,
  if◌then◌else◌, ◌==◌, ltb, contains, ==_iff, arith, ◌↔◌,
}
use study_uafx.Base.Int.{ℤ, pos, ltb_ℤ}
use study_uafx.Constraint.Order.{Orders, meets}
use study_uafx.Context.{same_sites}
use study_uafx.Loc.{InstLoc, loc, as_inst}
use study_uafx.Loc.Judge.{Judge, same_loc, same_value}
use study_uafx.Thread.{Node, Store}
use study_uafx.Thread.Insert.{Code, insert_loc, test_insert_loc}
use study_uafx.Thread.Methods.{init}
use study_uafx.Thread.Chain.{follows, is_chain_from, has_loc, is_distinct}
use study_uafx.Thread.Slots.{locs_of}
use study_uafx.Thread.Keeps.{are_placed, trace_of, is_trace}
use study_uafx.Thread.Trace.{LeavesTrace, insert_loc-LeavesTrace}
use study_uafx.Thread.Dry.{is_inserted, test_insert_loc-insert_loc}
use study_uafx.Thread.Init.{Starts, init-Starts}
use study_uafx.Thread.Locks.{LockMap, eqv_locks, exclude_locks}
use study_uafx.Thread.Clusters.{IsEquivalence, is_key}
use study_uafx.Thread.Regions.{IsExclusive, exclude_locks-meets}
use study_uafx.Thread.Sched.{Sched, add_seq_constraint}
use study_uafx.Thread.Seq.{are_rising, add_seq_constraint-meets}

abbrev at : ℕ → InstLoc
at i = loc i (some 0 ∷ [])

abbrev number : InstLoc → ℕ
number l = elim (as_inst l.value) [ none ↦ 0 | some i ↦ i ]

abbrev later : InstLoc → Option InstLoc → Bool
later l none = true
later l (some m) = ltb (number m) (number l)

abbrev straight_line : Judge
straight_line = record {
  reaches = λ l m blocklist. later l m;
  post_dominates = later;
  dominates = λ l m strict. not (later l m);
}

abbrev node_at : ℕ → Node
node_at i = record { loc = at i; ty = 1; tr = (0, 0) ∷ []; ptos = [] }

-- The thread 0 has two nodes, every other thread none.
abbrev two_nodes : Store
two_nodes = record {
  nodes = λ p. if p == 0 then node_at 3 else node_at 8;
  next_node = 2;
  threads = λ t. record { id = pos 0; seq = if t == 0 then 0 ∷ 1 ∷ [] else []; sched = 0 };
  next_thread = 1;
}

abbrev places : Option (Store × Option ℕ × Code) → Option (List ℕ)
places r = elim r as (λ x. Option (List ℕ)) [
  | none ↦ none
  | some (st, p, ec) ↦ some (st.threads 0).seq
]

-- A location between the two goes between them; one that is there is not put twice.
between_two :
    places (insert_loc straight_line two_nodes 0 (some (at 5)) 2 true false none none false)
    ≡ some (0 ∷ 2 ∷ 1 ∷ [])
unfolding insert_loc same_loc same_value same_sites
between_two = refl

not_twice :
    places (insert_loc straight_line two_nodes 0 (some (at 8)) 2 true false none none false)
    ≡ some (0 ∷ 1 ∷ [])
unfolding insert_loc same_loc same_value same_sites
not_twice = refl

insert_loc-LeavesTrace_example :
    LeavesTrace straight_line 0
      (insert_loc straight_line two_nodes 0 (some (at 5)) 2 true true (some 1) (some 0) false)
unfolding is_trace are_placed trace_of locs_of is_chain_from follows is_distinct has_loc same_loc
    same_value same_sites contains
insert_loc-LeavesTrace_example =
    insert_loc-LeavesTrace straight_line two_nodes 0 (some (at 5)) 2 true true (some 1) (some 0)
      false refl refl refl

test_insert_loc-insert_loc_example :
    test_insert_loc straight_line two_nodes 0 (some (at 5)) 2 true false none none
    ≡ is_inserted (insert_loc straight_line two_nodes 0 (some (at 5)) 2 true false none none false)
test_insert_loc-insert_loc_example =
    test_insert_loc-insert_loc straight_line two_nodes 0 (some (at 5)) 2 true false none none

init-Starts_example :
    Starts straight_line 1
      (at 2 ∷ at 4 ∷ at 9 ∷ [])
      (init straight_line two_nodes 1 (at 2 ∷ at 4 ∷ at 9 ∷ []))
unfolding is_chain_from follows is_distinct has_loc same_loc same_value same_sites
init-Starts_example = init-Starts straight_line two_nodes 1 (at 2 ∷ at 4 ∷ at 9 ∷ []) refl refl refl

abbrev orders : Orders
orders = record {
  Expr = (ℕ → ℤ) → Bool;
  less = λ a b f. ltb_ℤ (f a) (f b);
  either = λ d e f. d f || e f;
  holds = λ e f. e f;
  holds-less = λ a b f. refl;
  holds-either = λ d e f. refl;
}

abbrev one_thread : Sched orders
one_thread = record { this = 0; trs = 0 ∷ []; loc_tr0 = some 0; loc_tr1 = some 1; po = [] }

add_seq_constraint-meets_example :
    meets orders (add_seq_constraint orders two_nodes one_thread).po (λ p. pos p)
    ≡ (are_rising two_nodes (λ p. pos p) (0 ∷ []) && true)
unfolding is_trace are_placed trace_of locs_of is_chain_from follows is_distinct has_loc same_loc
    same_value same_sites
add_seq_constraint-meets_example =
    add_seq_constraint-meets orders (λ p. pos p) straight_line two_nodes one_thread refl

-- The regions of two locks on one object, and one of another.
abbrev three_regions : LockMap
three_regions = (0, (0, 1) ∷ []) ∷ (5, (2, 3) ∷ []) ∷ (6, (4, 5) ∷ []) ∷ []

abbrev one_mutex : ℕ → ℕ → Bool
one_mutex a b = ltb a 6 && ltb b 6 || a == b

two_clusters : eqv_locks one_mutex [] three_regions ≡ (5 ∷ 0 ∷ []) ∷ (6 ∷ []) ∷ []
unfolding eqv_locks
two_clusters = refl

one_mutex-IsEquivalence : IsEquivalence one_mutex
one_mutex-IsEquivalence = record {
  same_refl = λ a. ground (arith, (==_iff a a).1 refl);
  same_sym = λ a b h. ground (arith, h);
  same_trans = λ a b c h k. ground (arith, h, k);
}

exclude_locks-meets_example :
    (meets orders (exclude_locks orders one_mutex three_regions []) (λ p. pos p) ≡ true)
    ↔ ((true ≡ true) × IsExclusive orders (λ p. pos p) one_mutex three_regions)
unfolding is_key
exclude_locks-meets_example =
    exclude_locks-meets orders (λ p. pos p) one_mutex three_regions [] one_mutex-IsEquivalence
      (refl, (refl, (refl, tt)))
