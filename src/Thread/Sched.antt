-- ===== src/Thread/Sched.antt =====
-- The schedule of threads that triggers a bug: the class ThreadSched of
-- llvm_analysis/MainAnalysisPasses/SoundyAliasAnalysis/include/ModuleState.h, without its alternatives
-- and its lock map. A null thread, which every loop skips, is not listed. What an object answers about the records that a site uses is an argument.
use study_uafx.Base.{
  ℕ, Bool, true, false, not, Option, none, some, List, [], ◌∷◌, ◌++◌, if◌then◌else◌, ◌==◌, length,
  contains,
}
use study_uafx.Base.Int.{pos}
use study_uafx.Constraint.Order.{Orders, po_add_constraint}
use study_uafx.Loc.{InstLoc, Value}
use study_uafx.Loc.Judge.{Judge}
use study_uafx.Thread.{Store, set_node, new_thread, get_tr, add_ptos}
use study_uafx.Thread.Insert.{Code, inserted, insert_loc}

pub record Sched (z : Orders) : Type 0 where
  pub this : ℕ
  pub trs : List ℕ
  pub loc_tr0 : Option ℕ
  pub loc_tr1 : Option ℕ
  pub po : List z.Expr

-- The records that a free and a use of an object go through at a site, and what a record and an
-- instruction are about.
pub record Records : Type 0 where
  pub get_free_ptos : ℕ → InstLoc → List (Option ℕ)
  pub get_use_ptos : ℕ → InstLoc → List (Option ℕ)
  pub involved : Value → List Value
  pub pointer : ℕ → Option Value

abbrev pub ty_free : ℕ
ty_free = 1

abbrev pub ty_use : ℕ
ty_use = 2

-- _setLocTrPtos.
unfoldable pub set_loc_tr_ptos : Records → Store → ℕ → Option ℕ → Store
unfolding set_node add_ptos
set_loc_tr_ptos rec st p none = st
set_loc_tr_ptos rec st p (some obj) =
    let n = st.nodes p in
    if n.ty == ty_free
    then set_node st p (add_ptos rec.involved rec.pointer n (rec.get_free_ptos obj n.loc))
    else if n.ty == ty_use
    then set_node st p (add_ptos rec.involved rec.pointer n (rec.get_use_ptos obj n.loc))
    else st

module _ (z : Orders) (w : Judge) where
  -- initThread; `none` is a failed assertion.
  unfoldable pub init_thread : Store → Sched z → Option InstLoc → ℕ → Option (Store × Option ℕ)
  unfolding new_thread insert_loc
  init_thread st sc none ty = some (st, none)
  init_thread st sc (some loc) ty =
      let (st', t) =
        new_thread st (record { id = pos (length sc.trs); seq = []; sched = sc.this }) in
      elim (insert_loc w st' t (some loc) ty true false none none false) [
        | none ↦ none
        | some (st'', p, ec) ↦ some (st'', p)
      ]

  -- initUAFThreads from the second location on; whether it ends without an error.
  unfoldable pub close_threads :
      Records → Store → Sched z → ℕ → Option ℕ → ℕ → Option ℕ → Option ℕ → Store × Sched z × Bool
  unfolding set_loc_tr_ptos get_tr po_add_constraint
  close_threads rec st sc p0 none tr0 obj0 obj1 = (st, record sc { loc_tr1 = none }, false)
  close_threads rec st sc p0 (some p1) tr0 obj0 obj1 =
      let st' = set_loc_tr_ptos rec (set_loc_tr_ptos rec st p0 obj0) p1 obj1 in
      let trs = sc.trs ++ (tr0 ∷ []) in
      let trs' = elim (get_tr (st'.nodes p1) sc.this) as (λ x. List ℕ) [
        | none ↦ trs
        | some tr1 ↦ if tr1 == tr0 then trs else trs ++ (tr1 ∷ [])
      ] in
      (
        st',
        record sc {
          loc_tr1 = some p1;
          trs = trs';
          po = po_add_constraint z sc.po (some p0) (some p1);
        },
        true,
      )

  -- Whether the insertion put the second location right after the first.
  abbrev is_second : Code → Bool
  is_second c = elim c as (λ x. Bool) [ inserted i ↦ i == 1 | _ ↦ false ]

  unfoldable pub init_uaf_threads :
      Records
      → Store
      → Sched z
      → Option InstLoc
      → Option ℕ
      → ℕ
      → Option InstLoc
      → Option ℕ
      → ℕ
      → Option (Store × Sched z × Bool)
  unfolding init_thread close_threads insert_loc get_tr
  init_uaf_threads rec st sc none obj0 ty0 loc1 obj1 ty1 = some (st, sc, false)
  init_uaf_threads rec st sc (some loc0) obj0 ty0 none obj1 ty1 = some (st, sc, false)
  init_uaf_threads rec st sc (some loc0) obj0 ty0 (some loc1) obj1 ty1 =
      elim (init_thread st sc (some loc0) ty0) [
        | none ↦ none
        | some (st1, none) ↦ some (st1, record sc { loc_tr0 = none }, false)
        | some (st1, some p0) ↦
            let sc1 = record sc { loc_tr0 = some p0 } in
            elim (get_tr (st1.nodes p0) sc.this) [
              | none ↦ none
              | some tr0 ↦
                  if w.reaches loc1 (some loc0) []
                  then elim (insert_loc w st1 tr0 (some loc1) ty1 true false none none false) [
                    | none ↦ none
                    | some (st2, p1, ec) ↦ some (
                        if is_second ec
                        then close_threads rec st2 sc1 p0 p1 tr0 obj0 obj1
                        else (st2, record sc1 { loc_tr1 = p1 }, false))
                  ]
                  else elim (init_thread st1 sc1 (some loc1) ty1) [
                    | none ↦ none
                    | some (st2, p1) ↦ some (close_threads rec st2 sc1 p0 p1 tr0 obj0 obj1)
                  ]
            ]
      ]

  -- The loop of addLoc.
  unfoldable pub add_loc_from :
      Store → List ℕ → InstLoc → ℕ → List ℕ → Bool → Option (Store × Option ℕ)
  unfolding insert_loc
  add_loc_from st [] loc ty block_list dom = some (st, none)
  add_loc_from st (tr ∷ trs) loc ty block_list dom =
      let next = λ (st' : Store). add_loc_from st' trs loc ty block_list dom in
      if contains block_list tr
      then next st
      else elim (insert_loc w st tr (some loc) ty true dom none none false) [
        | none ↦ none
        | some (st', none, ec) ↦ next st'
        | some (st', some p, ec) ↦ some (st', some p)
      ]

  unfoldable pub add_loc :
      Store
      → Sched z
      → Option InstLoc
      → ℕ
      → List ℕ
      → Bool
      → Bool
      → Option (Store × Sched z × Option ℕ)
  unfolding add_loc_from init_thread get_tr
  add_loc st sc none ty block_list dom create = some (st, sc, none)
  add_loc st sc (some loc) ty block_list dom create =
      elim (add_loc_from st sc.trs loc ty block_list dom) [
        | none ↦ none
        | some (st', some p) ↦ some (st', sc, some p)
        | some (st', none) ↦
            if not create then some (st', sc, none) else elim (init_thread st' sc (some loc) ty) [
              | none ↦ none
              | some (st'', none) ↦ some (st'', sc, none)
              | some (st'', some p) ↦ elim (get_tr (st''.nodes p) sc.this) [
                | none ↦ some (st'', sc, some p)
                | some tr ↦ some (st'', record sc { trs = sc.trs ++ (tr ∷ []) }, some p)
              ]
            ]
      ]

module _ (z : Orders) where
  -- addSeqConstraint of one thread, and of all.
  unfoldable pub add_seq : List z.Expr → List ℕ → List z.Expr
  unfolding po_add_constraint
  add_seq po [] = po
  add_seq po (p ∷ []) = po
  add_seq po (p ∷ q ∷ seq) = add_seq (po_add_constraint z po (some p) (some q)) (q ∷ seq)

  unfoldable pub add_seqs : Store → List z.Expr → List ℕ → List z.Expr
  unfolding add_seq
  add_seqs st po [] = po
  add_seqs st po (tr ∷ trs) = add_seqs st (add_seq po (st.threads tr).seq) trs

  unfoldable pub add_seq_constraint : Store → Sched z → Sched z
  unfolding add_seqs
  add_seq_constraint st sc = record sc { po = add_seqs st sc.po sc.trs }
