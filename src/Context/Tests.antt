-- ===== src/Context/Tests.antt =====
-- A directory of two contexts: the entry 0, and the callee 9 of its call site 5.
use study_uafx.Base.{
  ℕ, zero, suc, ◌%◌, ◌≡◌, refl, ◌↔◌, true, false, Option, some, List, [], ◌∷◌, ◌++◌, length,
  get_elem?, arith, contains,
}
use study_uafx.Context.{
  same_sites, CallSites, get_context, is_prefix, prefix_until, get_callee_ctx, indirect,
}
use study_uafx.Context.Directory.{IsDirectory, get_context-IsDirectory, get_context-canonical}
use study_uafx.Context.Callees.{PrefixMeans, is_prefix-PrefixMeans, get_callee_ctx-indirect}

abbrev entry : CallSites
entry = some 0 ∷ []

abbrev callee : CallSites
callee = some 0 ∷ some 5 ∷ some 9 ∷ []

abbrev contexts : List CallSites
contexts = entry ∷ callee ∷ []

contexts_odd : (i : ℕ) (c : CallSites) → get_elem? contexts i ≡ some c → length c % 2 ≡ 1
contexts_odd zero c h = let e : entry ≡ c = cc in rw (← e) (omega arith)
contexts_odd (suc zero) c h = let e : callee ≡ c = cc in rw (← e) (omega arith)
contexts_odd (suc (suc i)) c h = cc

contexts_once :
    (i j : ℕ) (c : CallSites)
    → get_elem? contexts i ≡ some c
    → get_elem? contexts j ≡ some c
    → i ≡ j
contexts_once zero zero c h k = refl
contexts_once zero (suc zero) c h k = cc
contexts_once (suc zero) zero c h k = cc
contexts_once (suc zero) (suc zero) c h k = refl
contexts_once zero (suc (suc j)) c h k = cc
contexts_once (suc zero) (suc (suc j)) c h k = cc
contexts_once (suc (suc i)) j c h k = cc

contexts-IsDirectory : IsDirectory contexts
contexts-IsDirectory = record { odd = contexts_odd; once = contexts_once }

finds_callee : (get_context contexts (some callee) true).context ≡ some 1
unfolding get_context same_sites
finds_callee = refl

entry_is_prefix : is_prefix entry (some callee) ≡ prefix_until 1
unfolding is_prefix
entry_is_prefix = refl

get_context-IsDirectory_example : IsDirectory (get_context contexts (some (some 1 ∷ [])) true).dir
get_context-IsDirectory_example =
    get_context-IsDirectory contexts (some (some 1 ∷ [])) true contexts-IsDirectory

get_context-canonical_example :
    let made = get_context contexts (some (some 1 ∷ [])) true in
    (i : ℕ) × (made.context ≡ some i)
    × (get_elem? made.dir i ≡ some (some 1 ∷ []))
    × ((j : ℕ) (c : CallSites) → get_elem? contexts j ≡ some c → get_elem? made.dir j ≡ some c)
    × (get_context made.dir (some (some 1 ∷ [])) false
        ≡ record { dir = made.dir; context = some i; created = false })
get_context-canonical_example =
    get_context-canonical contexts (some 1 ∷ []) false contexts-IsDirectory (omega arith)

get_callee_ctx-indirect_example :
    (res : List ℕ) × (get_callee_ctx contexts (some entry) 5 indirect ≡ some res)
    × ((i : ℕ)
        → (contains res i ≡ true)
          ↔ ((x : Option ℕ) × (get_elem? contexts i ≡ some (entry ++ (some 5 ∷ x ∷ [])))))
get_callee_ctx-indirect_example = get_callee_ctx-indirect contexts entry 5 refl

is_prefix-PrefixMeans_example :
    PrefixMeans
      (some 0 ∷ [])
      (some 0 ∷ some 2 ∷ some 8 ∷ [])
      (is_prefix (some 0 ∷ []) (some (some 0 ∷ some 2 ∷ some 8 ∷ [])))
is_prefix-PrefixMeans_example = is_prefix-PrefixMeans (some 0 ∷ []) (some 0 ∷ some 2 ∷ some 8 ∷ [])
