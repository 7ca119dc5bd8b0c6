-- ===== src/Sites/Cover.antt =====
-- The hosts of an object and the objects embedded at its start, as relations, and the loops that
-- collect them.
use study_uafx.Base.{
  ℕ, zero, suc, ◌≡◌, refl, sym, ap, subst, ◌∙◌, true, false, ◌||◌, Option, none, some, List, [],
  ◌∷◌, ◌++◌, ◌==◌, contains, contains-append, arith, Bool-cases, Option-cases, inl, inr, ==_iff,
  ==_refl,
}
use study_uafx.Base.Int.{pos}
use study_uafx.Sites.{Objs, get_emb_objs, all_emb, hosts, heads, with_first}

pub data IsHost (objs : Objs) : ℕ → ℕ → Type 0 where
  itself : (o : ℕ) → IsHost objs o o
  up : (o p q : ℕ) → (objs o).parent ≡ some p → IsHost objs p q → IsHost objs o q

-- An object of a list, or embedded at the start of one, at any depth.
pub data IsHead (objs : Objs) : List ℕ → ℕ → Type 0 where
  listed : (es : List ℕ) (q : ℕ) → contains es q ≡ true → IsHead objs es q
  deeper :
      (es : List ℕ) (p q : ℕ)
      → contains es p ≡ true
      → IsHead objs (get_emb_objs (objs p) (pos 0)) q
      → IsHead objs es q

some_list : (a b : List ℕ) → some a ≡ some b → a ≡ b
some_list a b h = cc

-- A list put in front of a result that is there.
pub with_first_cases :
    (xs hs : List ℕ) (o : Option (List ℕ))
    → with_first xs o ≡ some hs
    → (rest : List ℕ) × (o ≡ some rest) × (hs ≡ xs ++ rest)
with_first_cases xs hs none e = cc
with_first_cases xs hs (some rest) e = (rest, refl, sym (some_list (xs ++ rest) hs e))

module _ (objs : Objs) where
  pub hosts_sound :
      (fuel o q : ℕ) (hs : List ℕ)
      → hosts objs fuel (some o) ≡ some hs
      → contains hs q ≡ true
      → IsHost objs o q
  unfolding hosts contains
  hosts_sound zero o q hs e m = cc
  hosts_sound (suc fuel) o q hs e m =
      let (rest, r, same) = with_first_cases (o ∷ []) hs (hosts objs fuel (objs o).parent) e in
      let m' : contains (o ∷ rest) q ≡ true = ap (λ (xs : List ℕ). contains xs q) (sym same) ∙ m in
      elim (Bool-cases (o == q)) [
        | inl here ↦ subst (IsHost objs o) ((==_iff o q).0 here) (itself o)
        | inr there ↦ elim (Option-cases (objs o).parent) [
          | inl top ↦
              let nil : some [] ≡ some rest =
                ap (λ (x : Option ℕ). hosts objs fuel x) (sym top) ∙ r in
              let nothing : [] ≡ rest = some_list [] rest nil in
              let bad : false ≡ true =
                ap (λ (xs : List ℕ). contains xs q) nothing ∙ ground (arith, m', there) in
              cc (bad)
          | inr (p, parent) ↦
              let r' = ap (λ (x : Option ℕ). hosts objs fuel x) (sym parent) ∙ r in
              up o p q parent (hosts_sound fuel p q rest r' (ground (arith, m', there)))
        ]
      ]

  pub hosts_complete :
      (fuel o q : ℕ) (hs : List ℕ)
      → hosts objs fuel (some o) ≡ some hs
      → IsHost objs o q
      → contains hs q ≡ true
  unfolding hosts contains
  hosts_complete zero o q hs e h = cc
  hosts_complete (suc fuel) o q hs e (itself o') =
      let (rest, r, same) = with_first_cases (o ∷ []) hs (hosts objs fuel (objs o).parent) e in
      ap (λ (xs : List ℕ). contains xs o) same ∙ ground (arith, ==_refl o)
  hosts_complete (suc fuel) o q hs e (up o' p q' parent k) =
      let (rest, r, same) = with_first_cases (o ∷ []) hs (hosts objs fuel (objs o).parent) e in
      let r' = ap (λ (x : Option ℕ). hosts objs fuel x) (sym parent) ∙ r in
      let later : contains rest q ≡ true = hosts_complete fuel p q rest r' k in
      ap (λ (xs : List ℕ). contains xs q) same ∙ ground (arith, later)

  pub all_emb_source :
      (es : List ℕ) (q : ℕ)
      → contains (all_emb objs es) q ≡ true
      → (p : ℕ) × (contains es p ≡ true) × (contains (get_emb_objs (objs p) (pos 0)) q ≡ true)
  unfolding all_emb contains
  all_emb_source [] q m = cc
  all_emb_source (e ∷ es) q m =
      let split : (contains (get_emb_objs (objs e) (pos 0)) q || contains (all_emb objs es) q)
          ≡ true =
        sym (contains-append (get_emb_objs (objs e) (pos 0)) (all_emb objs es) q) ∙ m in
      elim (Bool-cases (contains (get_emb_objs (objs e) (pos 0)) q)) [
        | inl here ↦ (e, ground (arith, ==_refl e), here)
        | inr there ↦
            let (p, at_p, in_p) = all_emb_source es q (ground (arith, split, there)) in
            (p, ground (arith, at_p), in_p)
      ]

  all_emb_has :
      (es : List ℕ) (p q : ℕ)
      → contains es p ≡ true
      → contains (get_emb_objs (objs p) (pos 0)) q ≡ true
      → contains (all_emb objs es) q ≡ true
  unfolding all_emb contains
  all_emb_has [] p q m n = cc
  all_emb_has (e ∷ es) p q m n =
      contains-append (get_emb_objs (objs e) (pos 0)) (all_emb objs es) q
      ∙ elim (Bool-cases (e == p))
          as (λ x.
            (contains (get_emb_objs (objs e) (pos 0)) q || contains (all_emb objs es) q) ≡ true) [
              | inl here ↦
                  let same : contains (get_emb_objs (objs e) (pos 0)) q ≡ true =
                    ap (λ (k : ℕ). contains (get_emb_objs (objs k) (pos 0)) q) ((==_iff e p).0 here)
                    ∙ n in
                  ground (arith, same)
              | inr there ↦
                  let later = all_emb_has es p q (ground (arith, m, there)) n in
                  ground (arith, later)
            ]

  -- What stands below the embedded objects of a list stands below the list.
  IsHead-all_emb : (es : List ℕ) (q : ℕ) → IsHead objs (all_emb objs es) q → IsHead objs es q
  IsHead-all_emb es q (listed es' q' m) =
      let (p, at_p, in_p) = all_emb_source es q m in
      deeper es p q at_p (listed (get_emb_objs (objs p) (pos 0)) q in_p)
  IsHead-all_emb es q (deeper es' p q' m h) =
      let (r, at_r, in_r) = all_emb_source es p m in
      deeper es r q at_r (deeper (get_emb_objs (objs r) (pos 0)) p q in_r h)

  IsHead-more :
      (xs ys : List ℕ) (q : ℕ)
      → ((p : ℕ) → contains xs p ≡ true → contains ys p ≡ true)
      → IsHead objs xs q
      → IsHead objs ys q
  IsHead-more xs ys q sub (listed xs' q' m) = listed ys q (sub q m)
  IsHead-more xs ys q sub (deeper xs' p q' m h) = deeper ys p q (sub p m) h

  pub heads_sound :
      (fuel : ℕ) (es : List ℕ) (q : ℕ) (hs : List ℕ)
      → heads objs fuel es ≡ some hs
      → contains hs q ≡ true
      → IsHead objs es q
  unfolding heads
  heads_sound fuel [] q hs e m =
      listed [] q (ap (λ (xs : List ℕ). contains xs q) (some_list [] hs e) ∙ m)
  heads_sound zero (x ∷ es) q hs e m = cc
  heads_sound (suc fuel) (x ∷ es) q hs e m =
      let (rest, r, same) =
        with_first_cases (x ∷ es) hs (heads objs fuel (all_emb objs (x ∷ es))) e in
      let m' : (contains (x ∷ es) q || contains rest q) ≡ true =
        sym (contains-append (x ∷ es) rest q)
        ∙ ap (λ (xs : List ℕ). contains xs q) (sym same)
        ∙ m in
      elim (Bool-cases (contains (x ∷ es) q)) [
        | inl here ↦ listed (x ∷ es) q here
        | inr there ↦
            IsHead-all_emb (x ∷ es) q
              (heads_sound fuel (all_emb objs (x ∷ es)) q rest r (ground (arith, m', there)))
      ]

  none_below : (q : ℕ) → IsHead objs [] q → contains [] q ≡ true
  unfolding contains
  none_below q (listed es q' m) = m
  none_below q (deeper es p q' m h) = cc

  pub heads_complete :
      (fuel : ℕ) (es : List ℕ) (q : ℕ) (hs : List ℕ)
      → heads objs fuel es ≡ some hs
      → IsHead objs es q
      → contains hs q ≡ true
  unfolding heads
  heads_complete fuel [] q hs e h =
      ap (λ (xs : List ℕ). contains xs q) (sym (some_list [] hs e)) ∙ none_below q h
  heads_complete zero (x ∷ es) q hs e h = cc
  heads_complete (suc fuel) (x ∷ es) q hs e (listed es' q' m) =
      let (rest, r, same) =
        with_first_cases (x ∷ es) hs (heads objs fuel (all_emb objs (x ∷ es))) e in
      ap (λ (xs : List ℕ). contains xs q) same ∙ contains-append (x ∷ es) rest q ∙ ground (arith, m)
  heads_complete (suc fuel) (x ∷ es) q hs e (deeper es' p q' m h) =
      let (rest, r, same) =
        with_first_cases (x ∷ es) hs (heads objs fuel (all_emb objs (x ∷ es))) e in
      let below =
        IsHead-more (get_emb_objs (objs p) (pos 0)) (all_emb objs (x ∷ es)) q
          (λ k n. all_emb_has (x ∷ es) p k m n) h in
      let later = heads_complete fuel (all_emb objs (x ∷ es)) q rest r below in
      ap (λ (xs : List ℕ). contains xs q) same
      ∙ contains-append (x ∷ es) rest q
      ∙ ground (arith, later)
