-- ===== src/Loc/Steps.antt =====
-- Steps of the functions of Loc.Paths that answer, and the prefix contexts that they find.
use study_uafx.Base.{
  ℕ, suc, ◌-◌, ◌%◌, ◌≤◌, ◌<◌, ◌≡◌, refl, Bool, true, false, not, ◌||◌, Option, some, List, [], ◌∷◌,
  if◌then◌else◌, ◌==◌, length, leb, take, arith, Bool-cases, inl, inr, same_opt,
}
use study_uafx.Base.Int.{ℤ, pos, negsuc}
use study_uafx.Reach.{Outcome, answer, assert_failed, out_of_fuel, Answers}
use study_uafx.Context.{CallSites}
use study_uafx.Context.Callees.{length-take}
use study_uafx.Loc.{InstLoc, has_ctx, diverge}
use study_uafx.Loc.Paths.{and_then, align, prefix_sites}

pub and_then-Answers : (o p : Outcome) → Answers o → Answers p → Answers (and_then o p)
unfolding and_then
and_then-Answers (answer true) p a b = b
and_then-Answers (answer false) p a b = (false, refl)
and_then-Answers assert_failed p (r, e) b = cc
and_then-Answers out_of_fuel p (r, e) b = cc

pub if-Answers : (b : Bool) (o p : Outcome) → Answers o → Answers p → Answers (if b then o else p)
if-Answers true o p a c = a
if-Answers false o p a c = c

pub skip-Answers : (b : Bool) (o p : Outcome) → b ≡ false → Answers p → Answers (if b then o else p)
skip-Answers true o p e a = cc
skip-Answers false o p e a = a

-- A location whose context has odd length, or none.
abbrev pub IsPlaced : InstLoc → Type 0
IsPlaced l = has_ctx l ≡ true → length l.ctx % 2 ≡ 1

-- An index at which a call site of a context stands: an odd one.
abbrev pub IsSite : List (Option ℕ) → ℕ → Type 0
IsSite ctx i = (i % 2 ≡ 1) × (i < length ctx)

-- getPrefix before a call site returns a context.
pub prefix_sites-some :
    (ctx : CallSites) (i : ℕ) → IsSite ctx i → (c : CallSites) × (prefix_sites ctx (i - 1) ≡ some c)
unfolding prefix_sites
prefix_sites-some ctx i (odd, inside) =
    let ok : leb (length ctx) (i - 1) || not ((i - 1) % 2 == 0) ≡ false =
      ground (arith, odd, inside) in
    elim (Bool-cases (i - 1 == length ctx - 1)) [
      | inl whole ↦ rw (ok, whole) (ctx, refl)
      | inr part ↦
          let n : length (take (suc (i - 1)) ctx) ≡ suc (i - 1) =
            length-take ctx (suc (i - 1)) (ground (arith, part, inside)) in
          let uneven : length (take (suc (i - 1)) ctx) % 2 == 0 ≡ false =
            rw n (ground (arith, odd)) in
          rw (ok, part, uneven) (take (suc (i - 1)) ctx, refl)
    ]

pub align-odd : (ci : ℤ) → align ci % 2 ≡ 1
unfolding align
align-odd (negsuc n) = refl
align-odd (pos n) = ground arith

pub diverge-bound : (c d : CallSites) → diverge c d ≤ length d
unfolding diverge
diverge-bound [] d = omega arith
diverge-bound (a ∷ c) [] = omega arith
diverge-bound (a ∷ c) (b ∷ d) = elim (Bool-cases (same_opt a b)) [
  | inl same ↦ let h = diverge-bound c d in rw same (omega arith)
  | inr other ↦ rw other (omega arith)
]
