-- ===== src/Thread/Put.antt =====
-- What a new node, a node that is there already and the end of Thread::insertLoc do to a trace.
use study_uafx.Base.{
  ℕ, suc, ◌≡◌, refl, ap, ◌∙◌, Bool, true, false, ◌||◌, none, some, List, [], ◌∷◌, if◌then◌else◌,
  leb, ltb, length, arith, Bool-cases, Option-cases, inl, inr, ==_refl,
}
use study_uafx.Loc.{InstLoc}
use study_uafx.Loc.Judge.{Judge, same_loc}
use study_uafx.Thread.{Node, Store, set_node, set_thread, new_node, types_met}
use study_uafx.Thread.Insert.{
  find_same, Inserted, put_at, new_loc, meet_same, put_last, not_inevitable,
}
use study_uafx.Thread.Chain.{is_chain_from, has_loc, insert_loc_at, insert_loc_at-is_distinct}
use study_uafx.Thread.Slots.{locs_of}
use study_uafx.Thread.Keeps.{
  are_placed, trace_of, is_trace, locs_of-set_node, locs_of-same, locs_of-insert_at,
  are_placed-insert_at,
}

pub find_same-has_loc :
    (nodes : ℕ → Node) (loc : InstLoc) (seq : List ℕ)
    → find_same nodes loc seq ≡ none
    → has_loc loc (locs_of nodes seq) ≡ false
unfolding find_same has_loc locs_of
find_same-has_loc nodes loc [] h = refl
find_same-has_loc nodes loc (p ∷ seq) h = elim (Bool-cases (same_loc (nodes p).loc loc)) [
  | inl here ↦ let bad : some (0, p) ≡ none = rw here at h in cc (bad)
  | inr there ↦ elim (Option-cases (find_same nodes loc seq)) [
    | inl missing ↦ rw there (find_same-has_loc nodes loc seq missing)
    | inr ((i, q), found) ↦ let bad : some (suc i, q) ≡ none = rw (there, found) at h in cc (bad)
  ]
]

-- A new node at an index puts its location there.
pub trace_of-put_at :
    (st : Store) (tr : ℕ) (loc : InstLoc) (ty i : ℕ)
    → are_placed st.next_node (st.threads tr).seq ≡ true
    → trace_of (put_at st tr loc ty i false).0 tr ≡ insert_loc_at i loc (trace_of st tr)
unfolding trace_of put_at set_thread new_node set_node
trace_of-put_at st tr loc ty i h =
    let x = new_loc (st.threads tr).sched tr loc ty in
    let kept = locs_of-set_node st x (st.threads tr).seq st.next_node h in
    let all =
      locs_of-insert_at (set_node st st.next_node x).nodes i st.next_node (st.threads tr).seq in
    let self : ((set_node st st.next_node x).nodes st.next_node).loc ≡ loc =
      rw (==_refl st.next_node) refl in
    rw (==_refl tr) (
      all
      ∙ ap
          (λ (l : InstLoc).
            insert_loc_at i l (locs_of (set_node st st.next_node x).nodes (st.threads tr).seq))
          self
      ∙ ap (insert_loc_at i loc) kept)

pub put_at-is_trace :
    (w : Judge) (st : Store) (tr : ℕ) (loc : InstLoc) (ty i : ℕ) (dry : Bool)
    → is_trace w st tr ≡ true
    → has_loc loc (trace_of st tr) ≡ false
    → is_chain_from w none (insert_loc_at i loc (trace_of st tr)) ≡ true
    → is_trace w (put_at st tr loc ty i dry).0 tr ≡ true
unfolding is_trace put_at
put_at-is_trace w st tr loc ty i true t fresh c = t
put_at-is_trace w st tr loc ty i false t fresh c =
    let placed : are_placed st.next_node (st.threads tr).seq ≡ true = ground (arith, t) in
    rw (trace_of-put_at st tr loc ty i placed, ==_refl tr)
      (ground (
        arith,
        t,
        c,
        are_placed-insert_at st.next_node i (st.threads tr).seq placed,
        insert_loc_at-is_distinct loc i (trace_of st tr),
        fresh,
      ))

pub set_node-is_trace :
    (w : Judge) (st : Store) (tr p : ℕ) (x : Node)
    → x.loc ≡ (st.nodes p).loc
    → is_trace w st tr ≡ true
    → is_trace w (set_node st p x) tr ≡ true
unfolding is_trace trace_of set_node
set_node-is_trace w st tr p x e t = rw (locs_of-same st x (st.threads tr).seq p e) t

pub meet_same-is_trace :
    (w : Judge) (st : Store) (tr ty : ℕ) (merge : Bool) (first stop i p : ℕ) (dry : Bool)
    → is_trace w st tr ≡ true
    → is_trace w (meet_same st ty merge first stop i p dry).0 tr ≡ true
unfolding meet_same
meet_same-is_trace w st tr ty merge first stop i p dry t =
    elim (Bool-cases (leb stop i || ltb i first)) [
      | inl out ↦ rw out t
      | inr within ↦ elim (Bool-cases (types_met (st.nodes p).ty ty)) [
        | inl met ↦ rw (within, met) t
        | inr new ↦ elim (Bool-cases merge) [
          | inr alone ↦ rw (within, new, alone) t
          | inl both ↦ elim (Bool-cases dry) [
            | inl test ↦ rw (within, new, both, test) t
            | inr real ↦ rw (within, new, both, real) (set_node-is_trace w st tr p _ refl t)
          ]
        ]
      ]
    ]

either_way :
    (w : Judge) (tr : ℕ) (b : Bool) (x y : Inserted)
    → is_trace w x.0 tr ≡ true
    → is_trace w y.0 tr ≡ true
    → is_trace w (if b then x else y).0 tr ≡ true
either_way w tr true x y h t = h
either_way w tr false x y h t = t

pub put_last-is_trace :
    (w : Judge) (st : Store) (tr : ℕ) (loc : InstLoc) (ty : ℕ) (dom stopped dry : Bool)
    → is_trace w st tr ≡ true
    → has_loc loc (trace_of st tr) ≡ false
    → (stopped ≡ false
        → is_chain_from w none (insert_loc_at (length (st.threads tr).seq) loc (trace_of st tr))
          ≡ true)
    → is_trace w (put_last w st tr loc ty dom stopped dry).0 tr ≡ true
unfolding put_last
put_last-is_trace w st tr loc ty dom true dry t fresh c = t
put_last-is_trace w st tr loc ty dom false dry t fresh c =
    either_way w tr _ _ (st, none, not_inevitable)
      (put_at-is_trace w st tr loc ty (length (st.threads tr).seq) dry t fresh (c refl)) t
