-- ===== src/Kernel/Names.antt =====
-- The table of paired lock functions.
use Prim.Native.String.{String}
use text.Mathlib.Text.{◌==◌ as str_eq}
use text.Mathlib.TextEquality.{eq_iff}
use study_uafx.Base.{
  ◌≡◌, refl, sym, ◌∙◌, Bool, true, false, ◌||◌, none, some, List, [], ◌∷◌, if◌then◌else◌, arith,
  Bool-cases, inl, inr,
}
use study_uafx.Kernel.{
  lock_func_pair, Paired, mem_name, add_name, paired_from, get_paired_lock_funcs,
}

unfoldable row : String → String → String → String → Bool
row fn s lock unlock =
    if str_eq fn lock then str_eq unlock s else if str_eq fn unlock then str_eq lock s else false

-- Whether the table pairs a function with another.
abbrev links : String → String → List (String × String) → Bool
links fn s [] = false
links fn s ((lock, unlock) ∷ table) = row fn s lock unlock || links fn s table

mem_name-add_name :
    (x s : String) (xs : List String) → mem_name (add_name x xs) s ≡ (str_eq x s || mem_name xs s)
unfolding add_name mem_name
mem_name-add_name x s xs = elim (Bool-cases (mem_name xs x)) [
  | inr new ↦ ground (arith, new)
  | inl old ↦ elim (Bool-cases (str_eq x s)) [
    | inr other ↦ ground (arith, old, other)
    | inl same ↦
        let e : x ≡ s = (eq_iff x s).0 same in
        let m : mem_name xs s ≡ true = (rw e at old) in ground (arith, old, m, same)
  ]
]

paired_from-links :
    (fn s : String) (table : List (String × String)) (p : Paired)
    → mem_name (paired_from fn table p).names s ≡ (mem_name p.names s || links fn s table)
unfolding paired_from row
paired_from-links fn s [] p = ground arith
paired_from-links fn s ((lock, unlock) ∷ table) p =
    let locked =
      paired_from-links fn s table
        (record { names = add_name unlock p.names; is_lock = some true }) in
    let unlocked =
      paired_from-links fn s table
        (record { names = add_name lock p.names; is_lock = some false }) in
    let same = paired_from-links fn s table p in
    let added = mem_name-add_name unlock s p.names in
    let added_lock = mem_name-add_name lock s p.names in
    elim (Bool-cases (str_eq fn lock)) [
      | inl a ↦ ground (arith, a, locked, added)
      | inr b ↦ elim (Bool-cases (str_eq fn unlock)) [
        | inl c ↦ ground (arith, b, c, unlocked, added_lock)
        | inr d ↦ ground (arith, b, d, same)
      ]
    ]

-- No function of the table is its own pair.
abbrev Apart : List (String × String) → Type 0
Apart [] = Unit {0}
Apart ((lock, unlock) ∷ table) = (str_eq lock unlock ≡ false) × Apart table

pub str_eq_refl : (s : String) → str_eq s s ≡ true
str_eq_refl s = (eq_iff s s).1 refl

str_eq_sym : (s t : String) → str_eq s t ≡ false → str_eq t s ≡ false
str_eq_sym s t h = elim (Bool-cases (str_eq t s)) [
  | inl same ↦ let e : t ≡ s = (eq_iff t s).0 same in cc ((eq_iff s t).1 (sym e), h)
  | inr other ↦ other
]

row_sym :
    (a b lock unlock : String)
    → str_eq lock unlock ≡ false
    → row a b lock unlock ≡ true
    → row b a lock unlock ≡ true
unfolding row
row_sym a b lock unlock apart h = elim (Bool-cases (str_eq a lock)) [
  | inl p ↦
      let e : a ≡ lock = (eq_iff a lock).0 p in
      let f : unlock ≡ b = (eq_iff unlock b).0 (rw p at h) in
      rw (← f, e, str_eq_sym lock unlock apart, str_eq_refl unlock) (str_eq_refl lock)
  | inr np ↦ elim (Bool-cases (str_eq a unlock)) [
    | inr nq ↦ let k : false ≡ true = (rw (np, nq) at h) in cc
    | inl q ↦
        let e : a ≡ unlock = (eq_iff a unlock).0 q in
        let f : lock ≡ b = (eq_iff lock b).0 (rw (np, q) at h) in
        rw (← f, e, str_eq_refl lock) (str_eq_refl unlock)
  ]
]

links_sym :
    (a b : String) (table : List (String × String))
    → Apart table
    → links a b table ≡ true
    → links b a table ≡ true
links_sym a b [] h l = cc
links_sym a b ((lock, unlock) ∷ table) h l = elim (Bool-cases (row a b lock unlock)) [
  | inl here ↦ rw (row_sym a b lock unlock h.0 here)
  | inr later ↦ let rest = links_sym a b table h.1 (rw later at l) in ground (arith, rest)
]

table-Apart : Apart lock_func_pair
table-Apart =
    (refl, (refl, (refl, (refl, (refl, (refl, (refl, (refl, (refl, (refl, (refl, tt)))))))))))

-- get_paired_lock_funcs is symmetric: when it gives one function as a pair of another, it gives the
-- other as a pair of the one.
pub get_paired_lock_funcs_sym :
    (a b : String)
    → mem_name (get_paired_lock_funcs a).names b ≡ true
    → mem_name (get_paired_lock_funcs b).names a ≡ true
unfolding get_paired_lock_funcs mem_name
get_paired_lock_funcs_sym a b h =
    let start : Paired = record { names = []; is_lock = none } in
    let there : links a b lock_func_pair ≡ true =
      sym (paired_from-links a b lock_func_pair start) ∙ h in
    paired_from-links b a lock_func_pair start ∙ links_sym a b lock_func_pair table-Apart there
