-- ===== src/Loc/Paths.antt =====
-- InstLoc::chainable, InstLoc::reachable, InstLoc::mreachable and getTrOrder of
-- llvm_analysis/MainAnalysisPasses/Utils/src/CFGUtils.cpp: reachability across calls, segment by
-- segment. The segments are at most as many as the call sites, which is the fuel of the two loops.
use study_uafx.Base.{
  ℕ, zero, suc, ◌+◌, ◌-◌, ◌%◌, Bool, true, false, not, ◌&&◌, ◌||◌, Option, none, some, List, [],
  ◌∷◌, if◌then◌else◌, ◌==◌, length, leb, ltb, take, is_empty,
}
use study_uafx.Base.Int.{ℤ, pos, negsuc}
use study_uafx.Cfg.{Cfg}
use study_uafx.Context.{CallSites}
use study_uafx.Reach.{Outcome, answer, assert_failed, out_of_fuel}
use study_uafx.Flow.{is_potentially_reachable}
use study_uafx.Loc.{InstLoc, loc, as_inst, has_ctx, diverge}
use study_uafx.Loc.Dominance.{site_at, share_func}
use study_uafx.Loc.Blockers.{has_parent, or_else, get_blockers_in_curr_func, can_reach_end}

-- A first outcome, and what follows it when it is "true".
unfoldable pub and_then : Outcome → Outcome → Outcome
and_then (answer true) next = next
and_then (answer false) next = answer false
and_then assert_failed next = assert_failed
and_then out_of_fuel next = out_of_fuel

-- The index aligned to a call site.
unfoldable pub align : ℤ → ℕ
align (negsuc n) = 1
align (pos n) = if n % 2 == 0 then n + 1 else n + 2

-- getPrefix of a context with these call sites, which is created: getContext refuses an even number
-- of them.
unfoldable pub prefix_sites : CallSites → ℕ → Option CallSites
prefix_sites sites ci =
    let up_to = take (suc ci) sites in
    if leb (length sites) ci || not (ci % 2 == 0)
    then none
    else if ci == length sites - 1
    then some sites
    else if length up_to % 2 == 0
    then none
    else some up_to

-- getLoc in a context that is not null: a null pointer for a null instruction.
unfoldable pub get_inst_loc : Option ℕ → CallSites → Option InstLoc
get_inst_loc none ctx = none
get_inst_loc (some i) ctx = some (loc i ctx)

-- The location of an instruction in a new context; `none` when the assertion on the context or the
-- one on the location fails.
unfoldable pub loc_in : Option ℕ → Option CallSites → Option InstLoc
unfolding get_inst_loc
loc_in inst none = none
loc_in inst (some ctx) = get_inst_loc inst ctx

-- The call site at an index, in the context of the prefix before it.
unfoldable pub segment : Cfg → (ℕ → List ℕ) → InstLoc → List InstLoc → ℕ → Bool → Outcome
unfolding site_at prefix_sites loc_in
segment g idoms this blocklist i from_entry = elim (site_at this.ctx i) [
  | none ↦ answer true
  | some cs ↦
      if has_parent g (some cs)
      then elim (loc_in (some cs) (prefix_sites this.ctx (i - 1))) [
        | none ↦ assert_failed
        | some il ↦ can_reach_end g idoms il blocklist from_entry
      ]
      else answer true
]

-- Down the call chain, and then in the function of the location.
unfoldable pub calls_down : ℕ → Cfg → (ℕ → List ℕ) → InstLoc → List InstLoc → ℕ → Outcome
unfolding segment and_then
calls_down zero g idoms this blocklist ci = out_of_fuel
calls_down (suc fuel) g idoms this blocklist ci =
    let deeper = calls_down fuel g idoms this blocklist (ci + 2) in
    if ltb ci (length this.ctx)
    then and_then (segment g idoms this blocklist ci true) deeper
    else can_reach_end g idoms this blocklist true

-- Back up the call chain, from index `i` to `ci`, which is at least 1.
unfoldable pub returns_up : ℕ → Cfg → (ℕ → List ℕ) → InstLoc → List InstLoc → ℕ → ℕ → Outcome
unfolding segment and_then
returns_up zero g idoms this blocklist ci i = out_of_fuel
returns_up (suc fuel) g idoms this blocklist ci i =
    let higher = returns_up fuel g idoms this blocklist ci (i - 2) in
    if ltb i ci
    then answer true
    else and_then (segment g idoms this blocklist i false) (if ltb i 2 then answer true else higher)

unfoldable pub chainable : Cfg → (ℕ → List ℕ) → InstLoc → ℤ → List InstLoc → Bool → Outcome
unfolding has_ctx align calls_down returns_up
chainable g idoms this ci blocklist call_from =
    if is_empty blocklist
    then answer true
    else if not (has_ctx this)
    then answer true
    else if not (length this.ctx % 2 == 1)
    then assert_failed
    else if call_from
    then calls_down (suc (length this.ctx)) g idoms this blocklist (align ci)
    else and_then (can_reach_end g idoms this blocklist false) (
        if ltb (length this.ctx) 2
        then answer true
        else returns_up (length this.ctx) g idoms this blocklist (align ci) (length this.ctx - 2))

-- The last step, inside the function of `src` and `end`; `new_ctx` is its context, or a null pointer.
unfoldable pub meet :
    Cfg → (ℕ → List ℕ) → List InstLoc → Option CallSites → Option ℕ → Option ℕ → Outcome
unfolding share_func loc_in
meet g idoms blocklist new_ctx none end = answer false
meet g idoms blocklist new_ctx (some src) end =
    if not (has_parent g (some src)) || not (has_parent g end) || not (share_func g (some src) end)
    then answer false
    else if is_empty blocklist
    then is_potentially_reachable g (some src) end 0 []
    else elim (loc_in (some src) new_ctx) [
      | none ↦ assert_failed
      | some il ↦ elim (get_blockers_in_curr_func g idoms il blocklist) [
        | none ↦ assert_failed
        | some valid ↦ is_potentially_reachable g (some src) end 0 valid
      ]
    ]

-- From the first index `ip` at which the contexts differ.
unfoldable pub reach_across : Cfg → (ℕ → List ℕ) → InstLoc → InstLoc → List InstLoc → ℕ → Outcome
unfolding chainable meet and_then site_at prefix_sites
reach_across g idoms this against blocklist ip =
    if ip == 0
    then answer false
    else if leb (length this.ctx) ip
    then (let deeper = ltb ip (length against.ctx) in
        let src = if deeper then site_at against.ctx ip else as_inst against.value in
        and_then
          (if not (is_empty blocklist) && deeper
            then chainable g idoms against (pos ip) blocklist false
            else answer true)
          (meet g idoms blocklist (some this.ctx) src (as_inst this.value)))
    else if leb (length against.ctx) ip
    then and_then
        (if not (is_empty blocklist)
          then chainable g idoms this (pos ip) blocklist true
          else answer true)
        (meet g idoms blocklist (prefix_sites this.ctx (ip - 1)) (as_inst against.value)
          (site_at this.ctx ip))
    else if ip % 2 == 1
    then and_then
        (if not (is_empty blocklist)
          then and_then (chainable g idoms against (pos ip) blocklist false)
              (chainable g idoms this (pos ip) blocklist true)
          else answer true)
        (meet g idoms blocklist (prefix_sites this.ctx (ip - 1)) (site_at against.ctx ip)
          (site_at this.ctx ip))
    else answer false

-- From outside of every function.
unfoldable pub from_global : Cfg → (ℕ → List ℕ) → InstLoc → List InstLoc → Outcome
unfolding chainable has_ctx
from_global g idoms this blocklist =
    if is_empty blocklist
    then answer true
    else if has_ctx this
    then chainable g idoms this (pos 0) blocklist true
    else answer true

unfoldable pub reachable : Cfg → (ℕ → List ℕ) → InstLoc → Option InstLoc → List InstLoc → Outcome
unfolding from_global reach_across has_ctx diverge
reachable g idoms this none blocklist = from_global g idoms this blocklist
reachable g idoms this (some against) blocklist =
    if not (has_ctx against)
    then from_global g idoms this blocklist
    else if not (has_ctx this)
    then answer false
    else if not (length this.ctx % 2 == 1) || not (length against.ctx % 2 == 1)
    then assert_failed
    else reach_across g idoms this against blocklist (diverge this.ctx against.ctx)

unfoldable pub mreachable : Cfg → (ℕ → List ℕ) → InstLoc → Option InstLoc → ℤ → Outcome
unfolding reachable has_ctx or_else
mreachable g idoms this none place = answer false
mreachable g idoms this (some refloc) place =
    if not (has_ctx refloc) then answer true else elim place [
      | negsuc n ↦ reachable g idoms refloc (some this) []
      | pos zero ↦
          or_else (reachable g idoms refloc (some this) [])
            (reachable g idoms this (some refloc) [])
      | pos (suc n) ↦ reachable g idoms this (some refloc) []
    ]

-- The loop over the neighbours of a trace, whose locations may be null; `none` is a call of
-- reachable that does not answer.
unfoldable pub order_from :
    Cfg → (ℕ → List ℕ) → ℕ → Option InstLoc → List (Option InstLoc) → Option ℕ
unfolding reachable
order_from g idoms order last [] = some order
order_from g idoms order last (none ∷ tr) = order_from g idoms order none tr
order_from g idoms order last (some l ∷ tr) = elim (reachable g idoms l last []) [
  | answer r ↦ order_from g idoms (if r then order else suc order) (some l) tr
  | assert_failed ↦ none
  | out_of_fuel ↦ none
]

unfoldable pub get_tr_order : Cfg → (ℕ → List ℕ) → List (Option InstLoc) → Option ℕ
unfolding order_from
get_tr_order g idoms [] = some 0
get_tr_order g idoms (l ∷ tr) = order_from g idoms 1 l tr
