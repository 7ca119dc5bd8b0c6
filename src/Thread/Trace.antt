-- ===== src/Thread/Trace.antt =====
-- Thread::insertLoc keeps a thread a trace: its result on every branch.
use study_uafx.Base.{
  ℕ, suc, ◌-◌, ◌≡◌, refl, sym, ap, ◌∙◌, Bool, true, false, Option, none, some, List, [], ◌∷◌, ◌==◌,
  leb, length, contains, arith, Bool-cases, Option-cases, inl, inr,
}
use study_uafx.Loc.{InstLoc}
use study_uafx.Loc.Judge.{Judge}
use study_uafx.Thread.{Store}
use study_uafx.Thread.Insert.{
  Slot, at_index, no_way, avoidable, past_all, index_of, find_same, drop, Inserted, put_slot,
  insert_between, insert_from, insert_loc, refused, passed,
}
use study_uafx.Thread.Chain.{follows, is_chain_from, has_loc, insert_loc_at}
use study_uafx.Thread.Slots.{locs_of, opt_loc, keeps, slot-keeps}
use study_uafx.Thread.Keeps.{
  trace_of, is_trace, chain_after, chain_insert_after, locs_of-drop, index_of-cases,
}
use study_uafx.Thread.Put.{
  find_same-has_loc, put_at-is_trace, meet_same-is_trace, put_last-is_trace,
}

-- The range of the loop starts at the front, or right after a location that reaches the new one: a
-- chain from there on is a chain of the whole thread.
record Range (w : Judge) (st : Store) (tr : ℕ) (loc : InstLoc) (prev : Option ℕ) (first : ℕ)
    : Type 0 where
  prev_follows : follows w (opt_loc st.nodes prev) loc ≡ true
  rest_chain :
      is_chain_from w (opt_loc st.nodes prev) (locs_of st.nodes (drop first (st.threads tr).seq))
      ≡ true
  first_in : leb first (length (st.threads tr).seq) ≡ true
  whole_chain :
      (i : ℕ)
      → leb first i ≡ true
      → is_chain_from w
          (opt_loc st.nodes prev)
          (insert_loc_at (i - first) loc (locs_of st.nodes (drop first (st.threads tr).seq)))
        ≡ true
      → is_chain_from w none (insert_loc_at i loc (trace_of st tr)) ≡ true

index_of-bound :
    (s start : ℕ) (seq : List ℕ) → index_of s seq ≡ some start → leb (suc start) (length seq) ≡ true
unfolding index_of
index_of-bound s start [] e = cc
index_of-bound s start (q ∷ seq) e = elim (index_of-cases s q start seq e) [
  | inl (here, zeroth) ↦ ground (arith, zeroth)
  | inr (j, at_j, later) ↦ ground (arith, later, index_of-bound s j seq at_j)
]

module _ (w : Judge) (st : Store) (tr : ℕ) (loc : InstLoc) where
  Range-front : is_trace w st tr ≡ true → Range w st tr loc none 0
  unfolding is_trace trace_of follows opt_loc drop
  Range-front t = record {
    prev_follows = refl;
    rest_chain = ground (arith, t);
    first_in = ground arith;
    whole_chain = λ i past c.
        let same : i - 0 ≡ i = omega arith in
        ap (λ (k : ℕ). is_chain_from w none (insert_loc_at k loc (trace_of st tr))) (sym same) ∙ c;
  }

  Range-after :
      (s start : ℕ)
      → is_trace w st tr ≡ true
      → index_of s (st.threads tr).seq ≡ some start
      → w.reaches loc (some (st.nodes s).loc) [] ≡ true
      → Range w st tr loc (some s) (suc start)
  unfolding is_trace trace_of follows opt_loc
  Range-after s start t e r =
      let chain : is_chain_from w none (locs_of st.nodes (st.threads tr).seq) ≡ true =
        ground (arith, t) in
      record {
        prev_follows = r;
        rest_chain = chain_after w st.nodes none (st.threads tr).seq s start chain e;
        first_in = index_of-bound s start (st.threads tr).seq e;
        whole_chain = λ i past c.
            chain_insert_after w st.nodes none loc (st.threads tr).seq s start i chain e past c;
      }

  put_slot-is_trace :
      (ty : ℕ) (dom : Bool) (first stop : ℕ) (prev : Option ℕ) (stopped dry : Bool) (s : Slot)
      → is_trace w st tr ≡ true
      → has_loc loc (trace_of st tr) ≡ false
      → Range w st tr loc prev first
      → (stopped ≡ false → stop ≡ length (st.threads tr).seq)
      → keeps w loc
          (opt_loc st.nodes prev)
          (locs_of st.nodes (drop first (st.threads tr).seq))
          first
          (stop - first)
          s
        ≡ true
      → is_trace w (put_slot w st tr loc ty dom stopped dry s).0 tr ≡ true
  unfolding put_slot keeps
  put_slot-is_trace ty dom first stop prev stopped dry (at_index i) t fresh range all k =
      put_at-is_trace w st tr loc ty i dry t fresh
        (range.whole_chain i (ground (arith, k)) (ground (arith, k)))
  put_slot-is_trace ty dom first stop prev stopped dry no_way t fresh range all k = t
  put_slot-is_trace ty dom first stop prev stopped dry avoidable t fresh range all k = t
  put_slot-is_trace ty dom first stop prev stopped dry past_all t fresh range all k =
      put_last-is_trace w st tr loc ty dom stopped dry t fresh (λ go.
        let seq = (st.threads tr).seq in
        let left : stop - first ≡ length seq - first = ap (λ (x : ℕ). x - first) (all go) in
        let size = locs_of-drop st.nodes first seq in
        range.whole_chain (length seq) range.first_in (rw (← size) (ground (arith, k, left, size))))

  insert_between-is_trace :
      (ty : ℕ) (merge dom : Bool) (first stop : ℕ) (prev : Option ℕ) (stopped dry : Bool)
      → is_trace w st tr ≡ true
      → Range w st tr loc prev first
      → (stopped ≡ false → stop ≡ length (st.threads tr).seq)
      → is_trace w (insert_between w st tr loc ty merge dom first stop prev stopped dry).0 tr ≡ true
  unfolding insert_between trace_of
  insert_between-is_trace ty merge dom first stop prev stopped dry t range all =
      elim (Option-cases (find_same st.nodes loc (st.threads tr).seq)) [
        | inr ((i, p), found) ↦
            rw (insert_between, found) (meet_same-is_trace w st tr ty merge first stop i p dry t)
        | inl missing ↦
            rw (insert_between, missing)
              (put_slot-is_trace ty dom first stop prev stopped dry _ t
                (find_same-has_loc st.nodes loc (st.threads tr).seq missing) range all
                (slot-keeps w st.nodes loc dom prev first (stop - first)
                  (drop first (st.threads tr).seq) range.prev_follows range.rest_chain))
      ]

-- An optional node of the thread.
abbrev pub is_in : Option ℕ → List ℕ → Bool
is_in none seq = true
is_in (some s) seq = contains seq s

index_of-contains :
    (s : ℕ) (seq : List ℕ) → contains seq s ≡ true → (i : ℕ) × (index_of s seq ≡ some i)
unfolding index_of contains
index_of-contains s [] h = cc
index_of-contains s (q ∷ seq) h = elim (Bool-cases (q == s)) [
  | inl here ↦ (0, rw here refl)
  | inr there ↦
      let (i, e) = index_of-contains s seq (ground (arith, h, there)) in (suc i, rw (there, e) refl)
]

-- The insertion returns, and leaves a trace.
abbrev pub LeavesTrace : Judge → ℕ → Option Inserted → Type 0
LeavesTrace w tr o = (r : Inserted) × (o ≡ some r) × (is_trace w r.0 tr ≡ true)

module _ (w : Judge) (st : Store) (tr : ℕ) where
  insert_from-LeavesTrace :
      (loc : InstLoc) (ty : ℕ) (merge dom : Bool) (stop : ℕ) (stopped : Bool) (start_loc : Option ℕ)
      (dry : Bool)
      → is_trace w st tr ≡ true
      → (stopped ≡ false → stop ≡ length (st.threads tr).seq)
      → is_in start_loc (st.threads tr).seq ≡ true
      → LeavesTrace w tr (insert_from w st tr loc ty merge dom stop stopped start_loc dry)
  unfolding insert_from
  insert_from-LeavesTrace loc ty merge dom stop stopped none dry t all in_start = (
    _,
    refl,
    insert_between-is_trace w st tr loc ty merge dom 0 stop none stopped dry t
        (Range-front w st tr loc t) all,
  )
  insert_from-LeavesTrace loc ty merge dom stop stopped (some s) dry t all in_start =
      let (start, e) = index_of-contains s (st.threads tr).seq in_start in
      elim (Bool-cases (w.reaches loc (some (st.nodes s).loc) [])) [
        | inr away ↦ ((st, none, passed), rw (insert_from, e, away) refl, t)
        | inl r ↦ (
          insert_between w st tr loc ty merge dom (suc start) stop (some s) stopped dry,
          rw (insert_from, e, r) refl,
          insert_between-is_trace w st tr loc ty merge dom (suc start) stop (some s) stopped dry t
              (Range-after w st tr loc s start t e r) all,
        )
      ]

  -- insertLoc returns, for a stop and a start that are none or in the thread, and leaves a trace a trace:
  -- its nodes are on the heap, each location reaches the next, and none is there twice, whatever the
  -- location, the type, the flags and the outcome.
  pub insert_loc-LeavesTrace :
      (loc : Option InstLoc) (ty : ℕ) (merge dom : Bool) (stop_loc start_loc : Option ℕ)
      (dry : Bool)
      → is_trace w st tr ≡ true
      → is_in stop_loc (st.threads tr).seq ≡ true
      → is_in start_loc (st.threads tr).seq ≡ true
      → LeavesTrace w tr (insert_loc w st tr loc ty merge dom stop_loc start_loc dry)
  unfolding insert_loc
  insert_loc-LeavesTrace none ty merge dom stop_loc start_loc dry t in_stop in_start =
      ((st, none, refused), refl, t)
  insert_loc-LeavesTrace (some loc) ty merge dom none start_loc dry t in_stop in_start =
      insert_from-LeavesTrace loc ty merge dom _ false start_loc dry t (λ go. refl) in_start
  insert_loc-LeavesTrace (some loc) ty merge dom (some s) start_loc dry t in_stop in_start =
      let (stop, e) = index_of-contains s (st.threads tr).seq in_stop in
      let (r, is_r, kept) =
        insert_from-LeavesTrace loc ty merge dom (suc stop) true start_loc dry t (λ go. cc (go))
          in_start in
      (r, rw (insert_loc, e) is_r, kept)
