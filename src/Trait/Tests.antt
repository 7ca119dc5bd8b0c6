-- ===== src/Trait/Tests.antt =====
-- Runs of the traits on concrete checks and stores, with a solver that evaluates.
use study_uafx.Base.{
  ℕ, zero, suc, ◌<◌, ◌≡◌, refl, Bool, true, false, not, ◌&&◌, some, [], ◌∷◌, leb, arith,
}
use study_uafx.Base.Int.{ℤ, pos, negsuc, ltb_ℤ, leb_ℤ, eqb_ℤ}
use study_uafx.Base.Bits.{bit, bit_ℤ, bit_range}
use study_uafx.Trait.Check.{eq, switch, BitMasked, constant_set, TraitCheck, is_cont_masked}
use study_uafx.Trait.Set.{assigned, adjusted, op_def, op_and, write_bit_range, kill}
use study_uafx.Trait.Branch.{Solver, default_from, get_z3_expr_for_branch}
use study_uafx.Trait.Laws.{kill_agrees}
use study_uafx.Trait.Masked.{is_cont_masked-range}
use study_uafx.Trait.Range.{write_bit_range-Stores}

abbrev evaluator : Solver
evaluator = record {
  Term = ℤ → ℤ;
  Expr = ℤ → Bool;
  v = λ x. x;
  bv_val = λ c x. c;
  equal = λ a b x. eqb_ℤ (a x) (b x);
  differs = λ a b x. not (eqb_ℤ (a x) (b x));
  less = λ a b x. ltb_ℤ (a x) (b x);
  at_most = λ a b x. leb_ℤ (a x) (b x);
  both = λ e f x. e x && f x;
  value = λ t x. t x;
  holds = λ e x. e x;
  value-v = λ x. refl;
  value-bv_val = λ c x h. refl;
  holds-equal = λ a b x. refl;
  holds-differs = λ a b x. refl;
  holds-less = λ a b x. refl;
  holds-at_most = λ a b x. refl;
  holds-both = λ e f x. refl;
}

abbrev cases : TraitCheck
cases = record { pat = switch; entity = constant_set (some (pos 1 ∷ negsuc 0 ∷ pos 7 ∷ [])) }

-- The default branch is the one after the three cases.
kill_default : kill (record { pat = assigned; n = pos 5; op = op_def }) (some cases) 3 ≡ some false
unfolding kill
kill_default = refl

kill_first : kill (record { pat = assigned; n = pos 5; op = op_def }) (some cases) 0 ≡ some true
unfolding kill
kill_first = refl

kill_agrees_example :
    kill (record { pat = assigned; n = pos 5; op = op_def }) (some cases) 3 ≡ some false
unfolding get_z3_expr_for_branch default_from
kill_agrees_example =
    kill_agrees evaluator (record { pat = assigned; n = pos 5; op = op_def }) cases 3
      (λ x. not (eqb_ℤ x (pos 1)) && not (eqb_ℤ x (negsuc 0)) && not (eqb_ℤ x (pos 7))) refl
      (
        (
          (omega arith, omega arith),
          ((omega arith, omega arith), ((omega arith, omega arith), tt)),
        ),
        ((refl, (refl, tt)), ((refl, tt), (tt, tt))),
      )
      refl

abbrev masked : BitMasked
masked = record { mask = 12; width = 8; n = pos 4 }

is_cont_masked-range_example : bit 12 3 ≡ true
unfolding is_cont_masked
is_cont_masked-range_example = is_cont_masked-range eq masked 2 2 (omega arith) refl 3 (omega arith)

masked_bits : (k : ℕ) → k < 8 → bit 12 k ≡ (leb 2 k && leb k 3)
unfolding bit
masked_bits zero h = refl
masked_bits (suc zero) h = refl
masked_bits (suc (suc zero)) h = refl
masked_bits (suc (suc (suc zero))) h = refl
masked_bits (suc (suc (suc (suc zero)))) h = refl
masked_bits (suc (suc (suc (suc (suc zero))))) h = refl
masked_bits (suc (suc (suc (suc (suc (suc zero)))))) h = refl
masked_bits (suc (suc (suc (suc (suc (suc (suc zero))))))) h = refl
masked_bits (suc (suc (suc (suc (suc (suc (suc (suc k)))))))) h = absurd (omega arith)

write_bit_range-Stores_example : (bit 12 2 && bit_ℤ (pos 51) 2) ≡ bit 0 0
unfolding write_bit_range bit_range
write_bit_range-Stores_example =
    write_bit_range-Stores (record { pat = adjusted; n = pos 51; op = op_and }) 2 2 0
      (λ i. bit 12 i) (λ i. bit 12 i && bit_ℤ (pos 51) i) refl (λ i. refl) 0 (omega arith)
