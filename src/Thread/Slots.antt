-- ===== src/Thread/Slots.antt =====
-- Where the second loop of Thread::insertLoc puts a location.
use study_uafx.Base.{
  ℕ, zero, suc, ◌-◌, ◌≡◌, refl, Bool, true, false, not, ◌&&◌, ◌||◌, Option, none, some, List, [],
  ◌∷◌, if◌then◌else◌, leb, length, arith, Bool-cases, inl, inr,
}
use study_uafx.Loc.{InstLoc}
use study_uafx.Loc.Judge.{Judge}
use study_uafx.Thread.{Node}
use study_uafx.Thread.Insert.{Slot, at_index, no_way, avoidable, past_all, slot}
use study_uafx.Thread.Chain.{follows, is_chain_from, insert_loc_at}

unfoldable pub locs_of : (ℕ → Node) → List ℕ → List InstLoc
locs_of nodes [] = []
locs_of nodes (p ∷ seq) = (nodes p).loc ∷ locs_of nodes seq

unfoldable pub opt_loc : (ℕ → Node) → Option ℕ → Option InstLoc
opt_loc nodes none = none
opt_loc nodes (some p) = some (nodes p).loc

-- Putting the location where the loop says makes a chain of the locations `ls` from the index `i` on.
unfoldable pub keeps : Judge → InstLoc → Option InstLoc → List InstLoc → ℕ → ℕ → Slot → Bool
unfolding is_chain_from insert_loc_at
keeps w loc prev ls i left (at_index j) =
    leb i j && is_chain_from w prev (insert_loc_at (j - i) loc ls)
keeps w loc prev ls i left no_way = true
keeps w loc prev ls i left avoidable = true
keeps w loc prev ls i left past_all =
    not (leb (length ls) left) || is_chain_from w prev (insert_loc_at (length ls) loc ls)

keeps-later :
    (w : Judge) (loc m : InstLoc) (prev : Option InstLoc) (ls : List InstLoc) (i left : ℕ)
    (s : Slot)
    → follows w prev m ≡ true
    → keeps w loc (some m) ls (suc i) left s ≡ true
    → keeps w loc prev (m ∷ ls) i (suc left) s ≡ true
unfolding keeps insert_loc_at is_chain_from
keeps-later w loc m prev ls i left (at_index j) f k =
    let e : j - i ≡ suc (j - suc i) = ground (arith, k) in rw e (ground (arith, f, k))
keeps-later w loc m prev ls i left no_way f k = refl
keeps-later w loc m prev ls i left avoidable f k = refl
keeps-later w loc m prev ls i left past_all f k = ground (arith, f, k)

module _ (w : Judge) (nodes : ℕ → Node) (loc : InstLoc) (dom : Bool) where
  here_or_avoidable :
      (c : Bool) (prev : Option InstLoc) (ls : List InstLoc) (i left : ℕ)
      → is_chain_from w prev (loc ∷ ls) ≡ true
      → keeps w loc prev ls i left (if c then avoidable else at_index i) ≡ true
  unfolding keeps insert_loc_at
  here_or_avoidable true prev ls i left h = refl
  here_or_avoidable false prev ls i left h =
      let e : i - i ≡ 0 = omega arith in rw e (ground (arith, h))

  -- The loop from the index `i` finds a place that keeps the chain.
  pub slot-keeps :
      (prev : Option ℕ) (i left : ℕ) (seq : List ℕ)
      → follows w (opt_loc nodes prev) loc ≡ true
      → is_chain_from w (opt_loc nodes prev) (locs_of nodes seq) ≡ true
      → keeps w loc
          (opt_loc nodes prev)
          (locs_of nodes seq)
          i
          left
          (slot w nodes loc dom prev i left seq)
        ≡ true
  unfolding slot keeps locs_of opt_loc is_chain_from insert_loc_at follows
  slot-keeps prev i left [] f c = ground (arith, f)
  slot-keeps prev i zero (p ∷ seq) f c = ground arith
  slot-keeps prev i (suc left) (p ∷ seq) f c =
      elim (Bool-cases (w.reaches (nodes p).loc (some loc) [])) [
        | inl before ↦
            rw before (
              here_or_avoidable _ (opt_loc nodes prev) _ i (suc left)
                (ground (arith, f, c, before)))
        | inr past ↦ elim (Bool-cases (w.reaches loc (some (nodes p).loc) [])) [
          | inr away ↦ rw (past, away) refl
          | inl after ↦
              let rest = slot-keeps (some p) (suc i) left seq after (ground (arith, c)) in
              rw (past, after)
                (keeps-later w loc (nodes p).loc (opt_loc nodes prev) (locs_of nodes seq) i left _
                  (ground (arith, c)) rest)
        ]
      ]
