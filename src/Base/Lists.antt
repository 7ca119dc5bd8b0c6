-- ===== src/Base/Lists.antt =====
-- Lists measured and indexed by native numbers, and lists of numbers as finite sets.
use Prim.Native.Nat.{ℕ, zero, suc, ◌+◌}
use mathlib.Core.Path.{◌≡◌, refl, ap}
use mathlib.Core.Logic.{inl, inr}
use mathlib.Core.Bool.{Bool, true, false, ◌&&◌, ◌||◌}
use mathlib.Core.List.{List, [], ◌∷◌, ◌++◌, reverse, reverse-cons}
use mathlib.Core.Option.{Option, none, some}
use native.Mathlib.Omega.{arith}
use study_uafx.Base.Tests.{◌==◌, if◌then◌else◌, ==_iff, ==_refl, Bool-cases, is_empty}

module _ {ℓ} {A : Type ℓ} where
  abbrev pub length : List A → ℕ
  length [] = 0
  length (x ∷ xs) = suc (length xs)

  abbrev pub get_elem? : List A → ℕ → Option A
  get_elem? [] i = none
  get_elem? (x ∷ xs) zero = some x
  get_elem? (x ∷ xs) (suc i) = get_elem? xs i

  abbrev pub take : ℕ → List A → List A
  take zero xs = []
  take (suc n) [] = []
  take (suc n) (x ∷ xs) = x ∷ take n xs

  pub length-append : (xs ys : List A) → length (xs ++ ys) ≡ length xs + length ys
  length-append [] ys = omega arith
  length-append (x ∷ xs) ys = omega (arith, length-append xs ys)

  pub length-reverse : (xs : List A) → length (reverse xs) ≡ length xs
  length-reverse [] = refl
  length-reverse (x ∷ xs) =
      omega (
        arith,
        ap length (reverse-cons x xs),
        length-append (reverse xs) (x ∷ []),
        length-reverse xs,
      )

  -- The entries that pass a test, in their order.
  unfoldable pub select : (A → Bool) → List A → List A
  select p [] = []
  select p (x ∷ xs) = if p x then x ∷ select p xs else select p xs

-- A set of pointers is a list, and `contains` is membership.
unfoldable pub contains : List ℕ → ℕ → Bool
contains [] a = false
contains (x ∷ xs) a = x == a || contains xs a

pub contains-append :
    (xs ys : List ℕ) (a : ℕ) → contains (xs ++ ys) a ≡ (contains xs a || contains ys a)
unfolding contains
contains-append [] ys a = refl
contains-append (x ∷ xs) ys a = ground (arith, contains-append xs ys a)

pub contains-reverse : (xs : List ℕ) (a : ℕ) → contains (reverse xs) a ≡ contains xs a
unfolding contains
contains-reverse [] a = refl
contains-reverse (x ∷ xs) a =
    ground
      (arith, reverse-cons x xs, contains-append (reverse xs) (x ∷ []) a, contains-reverse xs a)

-- std::set::insert.
unfoldable pub insert : ℕ → List ℕ → List ℕ
insert a xs = if contains xs a then xs else a ∷ xs

pub contains-insert : (a b : ℕ) (xs : List ℕ) → contains (insert a xs) b ≡ (a == b || contains xs b)
unfolding insert contains
contains-insert a b xs = elim (Bool-cases (contains xs a)) [
  | inl old ↦ elim (Bool-cases (a == b)) [
    | inl same ↦ ground (arith, old)
    | inr other ↦ ground (arith, old)
  ]
  | inr new ↦ ground (arith, new)
]

module _ (p : ℕ → Bool) where
  pub contains-select : (xs : List ℕ) (a : ℕ) → contains (select p xs) a ≡ (contains xs a && p a)
  unfolding select contains
  contains-select [] a = refl
  contains-select (x ∷ xs) a = elim (Bool-cases (x == a)) [
    | inl same ↦
        let e : x ≡ a = (==_iff x a).0 same in
        elim (Bool-cases (p a)) [
          | inl hit ↦ rw e (ground (arith, contains-select xs a, ==_refl a))
          | inr miss ↦ rw e (ground (arith, contains-select xs a, ==_refl a))
        ]
    | inr other ↦ ground (arith, contains-select xs a)
  ]

  -- Nothing is selected exactly when no entry passes.
  pub select-none :
      (xs : List ℕ) → is_empty (select p xs) ≡ true → (a : ℕ) → contains xs a ≡ true → p a ≡ false
  unfolding select contains
  select-none [] e a m = cc
  select-none (x ∷ xs) e a m = elim (Bool-cases (x == a)) [
    | inl same ↦ let q : x ≡ a = (==_iff x a).0 same in rw (← q) (ground arith)
    | inr other ↦ ground (arith, select-none xs _ a)
  ]

  pub select-some :
      (xs : List ℕ)
      → is_empty (select p xs) ≡ false
      → (a : ℕ) × (contains xs a ≡ true) × (p a ≡ true)
  unfolding select contains
  select-some [] e = cc
  select-some (x ∷ xs) e = elim (Bool-cases (p x)) [
    | inl hit ↦ (x, ground (arith, ==_refl x), hit)
    | inr miss ↦ let (a, m, q) = select-some xs (ground arith) in (a, ground arith, q)
  ]
