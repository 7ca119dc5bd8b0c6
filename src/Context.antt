-- ===== src/Context.antt =====
-- Calling contexts: the class CallContext of llvm_analysis/MainAnalysisPasses/Utils/include/CFGUtils.h
-- and CallContext::getContext of Utils/src/CFGUtils.cpp. The directory of all contexts is a list in
-- the order of their creation, and a pointer to a context is its place there; the maps of the
-- source only group the contexts by their first and last call sites. A call site is a pointer that
-- may be null.
pub mod Lists
pub mod Directory
pub mod Callees
mod Tests
use study_uafx.Base.{
  ℕ, zero, suc, ◌+◌, ◌-◌, ◌*◌, ◌/◌, ◌%◌, Bool, true, false, not, ◌&&◌, ◌||◌, Option, none, some,
  List, [], ◌∷◌, ◌++◌, ltb, leb, ◌==◌, if◌then◌else◌, length, get_elem?, take, is_empty, same_opt,
}

abbrev pub CallSites : Type 0
CallSites = List (Option ℕ)

-- operator== of two vectors.
unfoldable pub same_sites : CallSites → CallSites → Bool
same_sites [] [] = true
same_sites [] (b ∷ ys) = false
same_sites (a ∷ xs) [] = false
same_sites (a ∷ xs) (b ∷ ys) = same_opt a b && same_sites xs ys

-- CallContext::same.
unfoldable pub same : CallSites → CallSites → Bool
same c sites = not (is_empty sites) && same_sites c sites

unfoldable pub first_site : CallSites → Option ℕ
first_site [] = none
first_site (a ∷ xs) = a

unfoldable pub last_site : CallSites → Option ℕ
last_site [] = none
last_site (a ∷ []) = a
last_site (a ∷ b ∷ xs) = last_site (b ∷ xs)

-- Whether the context is on file at dir[first][last] of the call sites.
unfoldable pub in_bucket : CallSites → CallSites → Bool
unfolding first_site last_site
in_bucket sites c =
    same_opt (first_site c) (first_site sites) && same_opt (last_site c) (last_site sites)

-- The place of the first context, from place `i` on, that passes a test.
unfoldable pub find : (CallSites → Bool) → ℕ → List CallSites → Option ℕ
find p i [] = none
find p i (c ∷ dir) = let later = find p (suc i) dir in if p c then some i else later

-- The search of getContext, through one bucket.
unfoldable pub find_context : List CallSites → CallSites → Option ℕ
unfolding find in_bucket same
find_context dir sites = find (λ c. in_bucket sites c && same c sites) 0 dir

-- The directory after the call, the context or a null pointer, and `*created`.
pub record Got : Type 0 where
  pub dir : List CallSites
  pub context : Option ℕ
  pub created : Bool

unfoldable pub get_context : List CallSites → Option CallSites → Bool → Got
unfolding find_context
get_context dir none create = record { dir = dir; context = none; created = false }
get_context dir (some sites) create =
    if length sites % 2 == 0
    then record { dir = dir; context = none; created = false }
    else elim (find_context dir sites) [
      | some i ↦ record { dir = dir; context = some i; created = false }
      | none ↦
          if create
          then record { dir = dir ++ (sites ∷ []); context = some (length dir); created = true }
          else record { dir = dir; context = none; created = false }
    ]

-- getPrefix of the context at `this`, whose call sites are `sites`.
unfoldable pub get_prefix : List CallSites → ℕ → CallSites → ℕ → Bool → Got
unfolding get_context
get_prefix dir this sites ci create =
    if leb (length sites) ci || not (ci % 2 == 0)
    then record { dir = dir; context = none; created = false }
    else if ci == length sites - 1
    then record { dir = dir; context = some this; created = false }
    else get_context dir (some (take (suc ci) sites)) create

unfoldable pub get_parent_context : List CallSites → ℕ → CallSites → Bool → Got
unfolding get_prefix
get_parent_context dir this sites create =
    if ltb (length sites) 3
    then record { dir = dir; context = none; created = false }
    else get_prefix dir this sites (length sites - 3) create

-- The loop over the call sites of the first list.
unfoldable pub matches : CallSites → CallSites → Bool
matches [] other = true
matches (a ∷ xs) [] = false
matches (a ∷ xs) (b ∷ ys) = same_opt b a && matches xs ys

-- isPrefix: -1, 0, or the first index after the prefix.
pub data PrefixResult : Type 0 where
  unrelated identical : PrefixResult
  prefix_until : ℕ → PrefixResult

unfoldable pub is_prefix : CallSites → Option CallSites → PrefixResult
unfolding matches
is_prefix this none = unrelated
is_prefix this (some other) =
    if ltb (length other) (length this)
    then unrelated
    else if not (matches this other)
    then unrelated
    else if length this == length other
    then identical
    else prefix_until (length this)

-- What getCalleeCtx reads of the call: no called function for an indirect call; a function without
-- a body; or one with the first instruction of its body, if any.
pub data Called : Type 0 where
  indirect declaration : Called
  body : Option ℕ → Called

unfoldable pub same_site : Option (Option ℕ) → ℕ → Bool
same_site none ci = false
same_site (some a) ci = same_opt a (some ci)

-- The test of the indirect case.
unfoldable pub is_callee : CallSites → ℕ → CallSites → Bool
unfolding matches same_site
is_callee sites ci c =
    length c == length sites + 2 && same_site (get_elem? c (length sites)) ci && matches sites c

-- The contexts, from place `i` on, that pass a test.
unfoldable pub select_contexts : (CallSites → Bool) → ℕ → List CallSites → List ℕ
select_contexts p i [] = []
select_contexts p i (c ∷ dir) =
    if p c then i ∷ select_contexts p (suc i) dir else select_contexts p (suc i) dir

-- The contexts added to the result, or -1. The context is given with its call sites.
unfoldable pub get_callee_ctx : List CallSites → Option CallSites → ℕ → Called → Option (List ℕ)
unfolding get_context select_contexts is_callee first_site
get_callee_ctx dir none ci called = none
get_callee_ctx dir (some sites) ci called = if is_empty sites then none else elim called [
  | declaration ↦ none
  | body entry ↦ elim entry [
    | none ↦ none
    | some e ↦ elim (get_context dir (some (sites ++ (some ci ∷ some e ∷ []))) false).context [
      | none ↦ none
      | some cctx ↦ some (cctx ∷ [])
    ]
  ]
  | indirect ↦ some (
      select_contexts (λ c. same_opt (first_site c) (first_site sites) && is_callee sites ci c) 0
        dir)
]
