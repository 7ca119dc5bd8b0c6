-- ===== src/Loc/Blockers.antt =====
-- Which blocking locations stop a call from returning: getRetBBs, getDominators, getDomsForRet,
-- bypassCall, InstLoc::getBlockersInCurrFunc and InstLoc::canReachEnd of
-- llvm_analysis/MainAnalysisPasses/Utils/src/CFGUtils.cpp. The maps of the source from a call site
-- or an entry to its blockers are read in the order in which their keys were met; the code only
-- asks whether some key passes a test, so the order of the addresses does not matter. The chain of
-- immediate dominators of a block is LLVM's, and a parameter.
use study_uafx.Base.{
  ℕ, zero, suc, ◌+◌, ◌-◌, Bool, true, false, not, ◌&&◌, ◌||◌, Option, none, some, List, [], ◌∷◌,
  same_opt, if◌then◌else◌, ◌==◌, length, leb, ltb, contains, insert, select, is_empty,
}
use study_uafx.Cfg.{Cfg}
use study_uafx.Context.{unrelated, identical, prefix_until}
use study_uafx.Reach.{Outcome, answer, assert_failed, out_of_fuel}
use study_uafx.Flow.{is_potentially_reachable}
use study_uafx.Loc.{InstLoc, as_inst, has_ctx, is_ctx_prefix, func_of, get_func}
use study_uafx.Loc.Dominance.{site_at, share_func}

unfoldable pub get_ret_bbs : Cfg → ℕ → List ℕ
get_ret_bbs g f = select (λ b. is_empty (g.succs b)) (g.blocks f)

-- The loop over the return blocks, with the intersection so far.
unfoldable pub doms_loop : (ℕ → List ℕ) → List ℕ → List ℕ → List ℕ
doms_loop idoms r [] = r
doms_loop idoms r (b ∷ rets) =
    let t = b ∷ idoms b in doms_loop idoms (if is_empty r then t else select (contains t) r) rets

unfoldable pub get_doms_for_ret : Cfg → (ℕ → List ℕ) → Option ℕ → List ℕ
unfolding get_ret_bbs doms_loop
get_doms_for_ret g idoms none = []
get_doms_for_ret g idoms (some f) = doms_loop idoms [] (get_ret_bbs g f)

unfoldable pub is_there : Option ℕ → Bool
is_there none = false
is_there (some i) = true

unfoldable pub has_parent : Cfg → Option ℕ → Bool
unfolding is_there
has_parent g none = false
has_parent g (some i) = is_there (g.parent i)

-- The blockers that belong to the call site `cs`, which the first of them sets.
unfoldable pub of_call_site : ℕ → Option ℕ → List InstLoc → List InstLoc
unfolding is_there site_at
of_call_site e cs [] = []
of_call_site e cs (bi ∷ bis) =
    let call = site_at bi.ctx (e - 1) in
    let skipped = of_call_site e cs bis in
    let kept = bi ∷ of_call_site e cs bis in
    let started = bi ∷ of_call_site e call bis in
    if ltb e (length bi.ctx) && is_there (site_at bi.ctx e) && is_there call
    then elim cs [ none ↦ started | some c ↦ if same_opt (some c) call then kept else skipped ]
    else skipped

-- The keys under which a loop files the blockers, each once.
unfoldable pub keys : (InstLoc → Option ℕ) → List InstLoc → List ℕ
keys f [] = []
keys f (bi ∷ bis) = elim (f bi) [ none ↦ keys f bis | some i ↦ insert i (keys f bis) ]

-- The first callees of the call site.
unfoldable pub call_keys : ℕ → List InstLoc → List ℕ
unfolding keys site_at
call_keys e = keys (λ bi. site_at bi.ctx e)

unfoldable pub with_site : ℕ → ℕ → List InstLoc → List InstLoc
unfolding site_at
with_site e key = select (λ bi. same_opt (site_at bi.ctx e) (some key))

-- The blockers in the callee itself.
unfoldable pub inst_bis : ℕ → List InstLoc → List ℕ
unfolding keys
inst_bis e = keys (λ bi. if leb (length bi.ctx) (e + 1) then as_inst bi.value else none)

-- And those behind another call site of the callee.
unfoldable pub deeper_bis : Cfg → ℕ → List InstLoc → List InstLoc
unfolding share_func has_parent
deeper_bis g e = select (λ bi.
    not (leb (length bi.ctx) (e + 1))
    && has_parent g (site_at bi.ctx e)
    && has_parent g (site_at bi.ctx (e + 1))
    && share_func g (site_at bi.ctx e) (site_at bi.ctx (e + 1)))

-- A first outcome, and what follows it when it is "false".
unfoldable pub or_else : Outcome → Outcome → Outcome
or_else (answer false) next = next
or_else (answer true) next = answer true
or_else assert_failed next = assert_failed
or_else out_of_fuel next = out_of_fuel

-- Whether the call of one callee, entered at `ei`, with its blockers, can return. `sub` is the
-- recursive call on the blockers behind a deeper call site.
unfoldable pub true_blockers :
    (List InstLoc → Outcome) → ℕ → List InstLoc → List ℕ → List ℕ → Option (List ℕ)
unfolding with_site
true_blockers sub e deeper found [] = some found
true_blockers sub e deeper found (cs ∷ sites) = elim (sub (with_site (e + 1) cs deeper)) [
  | answer r ↦ true_blockers sub e deeper (if r then found else insert cs found) sites
  | assert_failed ↦ none
  | out_of_fuel ↦ none
]

-- The only blocker lies in a block that not every way to the return passes.
unfoldable pub off_path : Cfg → List ℕ → ℕ → Bool
off_path g ret_doms i = elim (g.parent i) [ none ↦ true | some b ↦ not (contains ret_doms b) ]

-- The end of one group, when all its blockers are known.
unfoldable pub group_end : Cfg → List ℕ → ℕ → List ℕ → Outcome
unfolding off_path
group_end g ret_doms ei [] = answer true
group_end g ret_doms ei (i ∷ []) =
    if is_empty ret_doms
    then is_potentially_reachable g (some ei) none 0 (i ∷ [])
    else answer (off_path g ret_doms i)
group_end g ret_doms ei (i ∷ j ∷ bis) = is_potentially_reachable g (some ei) none 0 (i ∷ j ∷ bis)

unfoldable pub group_rest :
    Cfg → (List InstLoc → Outcome) → ℕ → ℕ → List ℕ → List InstLoc → List ℕ → List ℕ → Outcome
unfolding true_blockers group_end
group_rest g sub e ei ret_doms deeper here sites = elim (true_blockers sub e deeper here sites) [
  | none ↦ assert_failed
  | some found ↦ group_end g ret_doms ei found
]

unfoldable pub bypass_group :
    Cfg → (ℕ → List ℕ) → (List InstLoc → Outcome) → ℕ → ℕ → List InstLoc → Outcome
unfolding get_doms_for_ret call_keys inst_bis deeper_bis off_path or_else group_rest
bypass_group g idoms sub e ei bis =
    let here = inst_bis e bis in
    let deeper = deeper_bis g e bis in
    let sites = call_keys (e + 1) deeper in
    let ret_doms = get_doms_for_ret g idoms (func_of g ei) in
    if is_empty here && is_empty sites
    then answer true
    else if length here + length sites == 1 && not (is_empty ret_doms)
    then elim here [
      | i ∷ more ↦ answer (off_path g ret_doms i)
      | [] ↦ elim sites [
        | [] ↦ answer true
        | cs ∷ more ↦
            if off_path g ret_doms cs then answer true else sub (with_site (e + 1) cs deeper)
      ]
    ]
    else group_rest g sub e ei ret_doms deeper here sites

-- The loop over the groups.
unfoldable pub bypass_groups :
    Cfg → (ℕ → List ℕ) → (List InstLoc → Outcome) → ℕ → List InstLoc → List ℕ → Outcome
unfolding bypass_group or_else
bypass_groups g idoms sub e bis [] = answer false
bypass_groups g idoms sub e bis (ei ∷ keys) =
    or_else (bypass_group g idoms sub e ei (with_site e ei bis))
      (bypass_groups g idoms sub e bis keys)

unfoldable pub bypass_call : ℕ → Cfg → (ℕ → List ℕ) → List InstLoc → ℕ → Outcome
unfolding of_call_site bypass_groups
bypass_call zero g idoms bis e = out_of_fuel
bypass_call (suc fuel) g idoms bis e =
    let kept = of_call_site e none bis in
    let sub = λ (deeper : List InstLoc). bypass_call fuel g idoms deeper (e + 2) in
    if is_empty bis || e == 0 || is_empty kept
    then answer true
    else bypass_groups g idoms sub e kept (call_keys e kept)

-- The instruction of a blocker in exactly the function and context of `this`.
unfoldable pub direct_site : InstLoc → InstLoc → Option ℕ
unfolding has_ctx is_ctx_prefix
direct_site this bi = if not (has_ctx bi) then none else elim (is_ctx_prefix this bi) [
  | unrelated ↦ none
  | prefix_until r ↦ none
  | identical ↦ as_inst bi.value
]

-- The call site of `this`'s function behind which a blocker lies.
unfoldable pub behind_site : InstLoc → InstLoc → Option ℕ
unfolding has_ctx is_ctx_prefix site_at
behind_site this bi = if not (has_ctx bi) then none else elim (is_ctx_prefix this bi) [
  | unrelated ↦ none
  | identical ↦ none
  | prefix_until r ↦ site_at bi.ctx r
]

unfoldable pub behind : InstLoc → ℕ → List InstLoc → List InstLoc
unfolding behind_site
behind this cs = select (λ bi. same_opt (behind_site this bi) (some cs))

-- The loop over these call sites; `sub` asks whether the call can be bypassed.
unfoldable pub add_calls : Cfg → InstLoc → (ℕ → Outcome) → List ℕ → List ℕ → Option (List ℕ)
unfolding has_parent get_func func_of
add_calls g this sub valid [] = some valid
add_calls g this sub valid (cs ∷ sites) =
    if not (has_parent g (some cs)) || not (same_opt (func_of g cs) (get_func g this))
    then add_calls g this sub valid sites
    else elim (sub cs) [
      | answer r ↦ add_calls g this sub (if r then valid else insert cs valid) sites
      | assert_failed ↦ none
      | out_of_fuel ↦ none
    ]

-- The call sites of all contexts together: enough fuel for bypassCall (Loc.Bypass).
unfoldable pub total_sites : List InstLoc → ℕ
total_sites [] = 0
total_sites (bi ∷ bis) = length bi.ctx + total_sites bis

-- `validBis`, from an empty set; `none` when a call of bypassCall does not answer.
unfoldable pub get_blockers_in_curr_func :
    Cfg → (ℕ → List ℕ) → InstLoc → List InstLoc → Option (List ℕ)
unfolding has_ctx keys direct_site behind_site behind add_calls total_sites
get_blockers_in_curr_func g idoms this blocklist =
    if is_empty blocklist || not (has_ctx this)
    then some []
    else add_calls g this
        (λ cs.
          bypass_call (suc (total_sites blocklist)) g idoms (behind this cs blocklist)
            (length this.ctx + 1))
        (keys (direct_site this) blocklist) (keys (behind_site this) blocklist)

unfoldable pub end_test : Cfg → Option ℕ → List ℕ → Bool → Outcome
unfolding has_parent
end_test g place valid from_entry =
    if is_empty valid
    then answer true
    else if not (has_parent g place)
    then answer true
    else if from_entry
    then is_potentially_reachable g none place 0 valid
    else is_potentially_reachable g place none 0 valid

unfoldable pub can_reach_end : Cfg → (ℕ → List ℕ) → InstLoc → List InstLoc → Bool → Outcome
unfolding get_blockers_in_curr_func end_test
can_reach_end g idoms this blocklist from_entry =
    elim (get_blockers_in_curr_func g idoms this blocklist) [
      | none ↦ assert_failed
      | some valid ↦ end_test g (as_inst this.value) valid from_entry
    ]
