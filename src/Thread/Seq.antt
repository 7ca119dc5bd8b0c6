-- ===== src/Thread/Seq.antt =====
-- The constraints that ThreadSched::addSeqConstraint adds.
use study_uafx.Base.{
  ℕ, ◌≡◌, refl, ap, ◌∙◌, Bool, true, false, ◌&&◌, some, List, [], ◌∷◌, ◌==◌, arith, Bool-cases, inl,
  inr, ==_iff, ==_refl,
}
use study_uafx.Base.Int.{ℤ, ltb_ℤ}
use study_uafx.Constraint.Order.{Orders, meets, po_add_constraint, po_add_constraint-meets}
use study_uafx.Context.Lists.{same_sites_refl}
use study_uafx.Loc.{InstLoc, Value, instruction, non_instruction}
use study_uafx.Loc.Judge.{Judge, same_loc, same_value}
use study_uafx.Thread.{Node, Store}
use study_uafx.Thread.Chain.{has_loc, is_distinct}
use study_uafx.Thread.Slots.{locs_of}
use study_uafx.Thread.Keeps.{trace_of, is_trace}
use study_uafx.Thread.Sched.{Sched, add_seq, add_seqs, add_seq_constraint}

-- Whether the values of the nodes of a thread rise.
abbrev pub is_rising : (ℕ → ℤ) → List ℕ → Bool
is_rising f [] = true
is_rising f (p ∷ []) = true
is_rising f (p ∷ q ∷ seq) = ltb_ℤ (f p) (f q) && is_rising f (q ∷ seq)

abbrev pub are_rising : Store → (ℕ → ℤ) → List ℕ → Bool
are_rising st f [] = true
are_rising st f (tr ∷ trs) = is_rising f (st.threads tr).seq && are_rising st f trs

abbrev pub are_traces : Judge → Store → List ℕ → Bool
are_traces w st [] = true
are_traces w st (tr ∷ trs) = is_trace w st tr && are_traces w st trs

same_value_refl : (v : Value) → same_value v v ≡ true
unfolding same_value
same_value_refl (instruction i) = ==_refl i
same_value_refl (non_instruction n) = ==_refl n

same_loc_refl : (l : InstLoc) → same_loc l l ≡ true
unfolding same_loc
same_loc_refl l = rw (same_value_refl l.value, same_sites_refl l.ctx) refl

-- Two nodes of a trace are not one node.
other_node :
    (nodes : ℕ → Node) (p q : ℕ) (seq : List ℕ)
    → is_distinct (locs_of nodes (p ∷ q ∷ seq)) ≡ true
    → (p == q) ≡ false
unfolding is_distinct has_loc locs_of
other_node nodes p q seq d = elim (Bool-cases (p == q)) [
  | inr other ↦ other
  | inl here ↦
      let e : p ≡ q = (==_iff p q).0 here in
      let same : same_loc (nodes q).loc (nodes p).loc ≡ true =
        ap (λ (k : ℕ). same_loc (nodes q).loc (nodes k).loc) e ∙ same_loc_refl (nodes q).loc in
      ground (arith, d, same)
]

tail_distinct :
    (nodes : ℕ → Node) (p : ℕ) (seq : List ℕ)
    → is_distinct (locs_of nodes (p ∷ seq)) ≡ true
    → is_distinct (locs_of nodes seq) ≡ true
unfolding is_distinct locs_of
tail_distinct nodes p seq d = ground (arith, d)

module _ (z : Orders) (f : ℕ → ℤ) where
  add_seq-meets :
      (nodes : ℕ → Node) (po : List z.Expr) (seq : List ℕ)
      → is_distinct (locs_of nodes seq) ≡ true
      → meets z (add_seq z po seq) f ≡ (is_rising f seq && meets z po f)
  unfolding add_seq locs_of
  add_seq-meets nodes po [] d = refl
  add_seq-meets nodes po (p ∷ []) d = refl
  add_seq-meets nodes po (p ∷ q ∷ seq) d =
      let other = other_node nodes p q seq d in
      let one : meets z (po_add_constraint z po (some p) (some q)) f
          ≡ (ltb_ℤ (f p) (f q) && meets z po f) =
        po_add_constraint-meets z po (some p) (some q) f ∙ rw other refl in
      let rest =
        add_seq-meets nodes (po_add_constraint z po (some p) (some q)) (q ∷ seq)
          (tail_distinct nodes p (q ∷ seq) d) in
      rest ∙ ground (arith, one)

  add_seqs-meets :
      (w : Judge) (st : Store) (po : List z.Expr) (trs : List ℕ)
      → are_traces w st trs ≡ true
      → meets z (add_seqs z st po trs) f ≡ (are_rising st f trs && meets z po f)
  unfolding add_seqs is_trace trace_of
  add_seqs-meets w st po [] t = refl
  add_seqs-meets w st po (tr ∷ trs) t =
      let one = add_seq-meets st.nodes po (st.threads tr).seq (ground (arith, t)) in
      let rest = add_seqs-meets w st (add_seq z po (st.threads tr).seq) trs (ground (arith, t)) in
      rest ∙ ground (arith, one)

-- When all threads of a schedule are traces, addSeqConstraint adds exactly the demand that the values of
-- the nodes rise strictly along each thread.
pub add_seq_constraint-meets :
    (z : Orders) (f : ℕ → ℤ) (w : Judge) (st : Store) (sc : Sched z)
    → are_traces w st sc.trs ≡ true
    → meets z (add_seq_constraint z st sc).po f ≡ (are_rising st f sc.trs && meets z sc.po f)
unfolding add_seq_constraint
add_seq_constraint-meets z f w st sc t = add_seqs-meets z f w st sc.po sc.trs t
