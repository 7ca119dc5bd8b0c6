-- ===== src/Thread/Keeps.antt =====
-- Thread::insertLoc keeps a thread a trace.
use study_uafx.Base.{
  ℕ, zero, suc, ◌-◌, ◌≡◌, refl, Bool, true, false, ◌&&◌, Option, none, some, List, [], ◌∷◌, ◌==◌,
  leb, ltb, length, arith, Bool-cases, Option-cases, inl, inr, ◌⊎◌, ==_iff,
}
use study_uafx.Loc.{InstLoc}
use study_uafx.Loc.Judge.{Judge}
use study_uafx.Thread.{Node, Store, set_node}
use study_uafx.Thread.Insert.{index_of, drop, insert_at}
use study_uafx.Thread.Chain.{is_chain_from, is_distinct, insert_loc_at}
use study_uafx.Thread.Slots.{locs_of}

-- All nodes of a list are on the heap.
unfoldable pub are_placed : ℕ → List ℕ → Bool
are_placed n [] = true
are_placed n (p ∷ seq) = ltb p n && are_placed n seq

unfoldable pub trace_of : Store → ℕ → List InstLoc
unfolding locs_of
trace_of st tr = locs_of st.nodes (st.threads tr).seq

-- A thread is a trace: its nodes are on the heap, each location reaches the next, and none is there
-- twice.
unfoldable pub is_trace : Judge → Store → ℕ → Bool
unfolding are_placed trace_of is_chain_from is_distinct
is_trace w st tr =
    are_placed st.next_node (st.threads tr).seq
    && is_chain_from w none (trace_of st tr)
    && is_distinct (trace_of st tr)

pub index_of-cases :
    (s q start : ℕ) (seq : List ℕ)
    → index_of s (q ∷ seq) ≡ some start
    → ((q ≡ s) × (start ≡ 0)) ⊎ ((j : ℕ) × (index_of s seq ≡ some j) × (start ≡ suc j))
unfolding index_of
index_of-cases s q start seq e = elim (Bool-cases (q == s)) [
  | inl here ↦
      let first : some 0 ≡ some start = rw here at e in inl ((==_iff q s).0 here, cc (first))
  | inr there ↦ elim (Option-cases (index_of s seq)) [
    | inl none_there ↦ let bad : none ≡ some start = rw (there, none_there) at e in cc (bad)
    | inr (j, at_j) ↦
        let later : some (suc j) ≡ some start = rw (there, at_j) at e in inr (j, at_j, cc (later))
  ]
]

module _ (w : Judge) (nodes : ℕ → Node) where
  pub chain_after :
      (prev : Option InstLoc) (seq : List ℕ) (s start : ℕ)
      → is_chain_from w prev (locs_of nodes seq) ≡ true
      → index_of s seq ≡ some start
      → is_chain_from w (some (nodes s).loc) (locs_of nodes (drop (suc start) seq)) ≡ true
  unfolding is_chain_from locs_of drop index_of
  chain_after prev [] s start c e = cc
  chain_after prev (q ∷ seq) s start c e = elim (index_of-cases s q start seq e) [
    | inl (here, zeroth) ↦ rw (zeroth, ← here) (ground (arith, c))
    | inr (j, at_j, later) ↦
        rw later (chain_after (some (nodes q).loc) seq s j (ground (arith, c)) at_j)
  ]

  pub chain_insert_after :
      (prev : Option InstLoc) (loc : InstLoc) (seq : List ℕ) (s start i : ℕ)
      → is_chain_from w prev (locs_of nodes seq) ≡ true
      → index_of s seq ≡ some start
      → leb (suc start) i ≡ true
      → is_chain_from w
          (some (nodes s).loc)
          (insert_loc_at (i - suc start) loc (locs_of nodes (drop (suc start) seq)))
        ≡ true
      → is_chain_from w prev (insert_loc_at i loc (locs_of nodes seq)) ≡ true
  unfolding is_chain_from locs_of drop index_of insert_loc_at
  chain_insert_after prev loc [] s start i c e past after = cc
  chain_insert_after prev loc (q ∷ seq) s start zero c e past after = ground (arith, past)
  chain_insert_after prev loc (q ∷ seq) s start (suc i) c e past after =
      let shift : suc i - suc start ≡ i - start = omega arith in
      let after' = rw shift at after in
      elim (index_of-cases s q start seq e) [
        | inl (here, zeroth) ↦
            let same : i - 0 ≡ i = omega arith in
            let now = rw (zeroth, same, ← here) at after' in ground (arith, c, now)
        | inr (j, at_j, later) ↦
            let now = rw later at after' in
            let rest =
              chain_insert_after (some (nodes q).loc) loc seq s j i (ground (arith, c)) at_j
                (ground (arith, past, later)) now in
            ground (arith, c, rest)
      ]

pub locs_of-drop :
    (nodes : ℕ → Node) (n : ℕ) (seq : List ℕ) → length (locs_of nodes (drop n seq)) ≡ length seq - n
unfolding locs_of drop
locs_of-drop nodes zero [] = refl
locs_of-drop nodes zero (p ∷ seq) = omega (arith, locs_of-drop nodes zero seq)
locs_of-drop nodes (suc n) [] = omega arith
locs_of-drop nodes (suc n) (p ∷ seq) = omega (arith, locs_of-drop nodes n seq)

-- A new node does not touch the locations of the old ones.
pub locs_of-set_node :
    (st : Store) (x : Node) (seq : List ℕ) (p : ℕ)
    → are_placed p seq ≡ true
    → locs_of (set_node st p x).nodes seq ≡ locs_of st.nodes seq
unfolding locs_of set_node are_placed
locs_of-set_node st x [] p h = refl
locs_of-set_node st x (q ∷ seq) p h =
    let ne : (q == p) ≡ false = ground (arith, h) in
    rw (ne, locs_of-set_node st x seq p (ground (arith, h))) refl

-- A node that keeps its location keeps all locations.
pub locs_of-same :
    (st : Store) (x : Node) (seq : List ℕ) (p : ℕ)
    → x.loc ≡ (st.nodes p).loc
    → locs_of (set_node st p x).nodes seq ≡ locs_of st.nodes seq
unfolding locs_of set_node
locs_of-same st x [] p h = refl
locs_of-same st x (q ∷ seq) p h = elim (Bool-cases (q == p)) [
  | inr other ↦ rw (other, locs_of-same st x seq p h) refl
  | inl here ↦
      let e : q ≡ p = (==_iff q p).0 here in rw (here, locs_of-same st x seq p h, h, e) refl
]

pub locs_of-insert_at :
    (nodes : ℕ → Node) (i p : ℕ) (seq : List ℕ)
    → locs_of nodes (insert_at i p seq) ≡ insert_loc_at i (nodes p).loc (locs_of nodes seq)
unfolding locs_of insert_at insert_loc_at
locs_of-insert_at nodes zero p seq = refl
locs_of-insert_at nodes (suc i) p [] = refl
locs_of-insert_at nodes (suc i) p (q ∷ seq) = rw (locs_of-insert_at nodes i p seq) refl

are_placed_more : (n : ℕ) (seq : List ℕ) → are_placed n seq ≡ true → are_placed (suc n) seq ≡ true
unfolding are_placed
are_placed_more n [] h = refl
are_placed_more n (p ∷ seq) h = ground (arith, h, are_placed_more n seq)

pub are_placed-insert_at :
    (n i : ℕ) (seq : List ℕ)
    → are_placed n seq ≡ true
    → are_placed (suc n) (insert_at i n seq) ≡ true
unfolding are_placed insert_at
are_placed-insert_at n zero seq h = ground (arith, are_placed_more n seq h)
are_placed-insert_at n (suc i) [] h = ground arith
are_placed-insert_at n (suc i) (p ∷ seq) h = ground (arith, h, are_placed-insert_at n i seq)
