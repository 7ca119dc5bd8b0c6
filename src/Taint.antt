-- ===== src/Taint.antt =====
-- Taint: TaintTag and TaintFlag of
-- llvm_analysis/MainAnalysisPasses/SoundyAliasAnalysis/include/TaintInfo.h, and getCtxOfLocTr of
-- Utils/src/CFGUtils.cpp. A pointer to a tag or to a flag is a number.
pub mod Field
pub mod Add
pub mod Overrides
pub mod Keys
pub mod Kill
pub mod Reset
mod Tests
use study_uafx.Base.{
  ℕ, Bool, true, false, not, ◌&&◌, ◌||◌, Option, none, some, List, [], ◌∷◌, ◌++◌, if◌then◌else◌,
  ◌==◌, same_opt, is_empty,
}
use study_uafx.Base.Int.{ℤ, eqb_ℤ}
use study_uafx.Context.{CallSites, same_sites}
use study_uafx.Loc.{InstLoc, has_ctx}
use study_uafx.Loc.Judge.{same_loc, same_opt_loc}

-- The fields that tags are compared by.
pub record TaintTag : Type 0 where
  pub field_id : ℤ
  pub v : Option ℕ
  pub type : Option ℕ
  pub is_global : Bool
  pub priv : Option ℕ

pub record TaintFlag : Type 0 where
  pub target_instr : Option InstLoc
  pub instruction_trace : List InstLoc
  pub tag : Option ℕ
  pub is_inherent : Bool
  pub is_active : Bool
  pub is_weak : Bool
  pub is_tainted : Bool
  pub load_tag : List ℕ
  pub mem_tag : List ℕ

unfoldable pub last_is : InstLoc → List InstLoc → Bool
unfolding same_loc
last_is l [] = false
last_is l (m ∷ []) = same_loc m l
last_is l (m ∷ n ∷ tr) = last_is l (n ∷ tr)

unfoldable pub add_instruction_to_trace : Option InstLoc → TaintFlag → TaintFlag
unfolding last_is
add_instruction_to_trace none tf = tf
add_instruction_to_trace (some l) tf =
    if last_is l tf.instruction_trace
    then tf
    else record tf { instruction_trace = tf.instruction_trace ++ (l ∷ []) }

-- The constructors of TaintFlag: a new flag, a copy, a copy for a site, a copy with a tag.
unfoldable pub new_flag : Option InstLoc → Bool → Option ℕ → Bool → Bool → TaintFlag
new_flag l tainted tag weak active = record {
  target_instr = l;
  instruction_trace = elim l as (λ x. List InstLoc) [ none ↦ [] | some m ↦ m ∷ [] ];
  tag = tag;
  is_inherent = false;
  is_active = active;
  is_weak = weak;
  is_tainted = tainted;
  load_tag = [];
  mem_tag = [];
}

unfoldable pub copy_flag : TaintFlag → TaintFlag
copy_flag tf = record tf { is_inherent = false }

unfoldable pub copy_flag_to : TaintFlag → Option InstLoc → TaintFlag
unfolding copy_flag add_instruction_to_trace
copy_flag_to tf l = add_instruction_to_trace l (record (copy_flag tf) { target_instr = l })

unfoldable pub copy_flag_tagged : TaintFlag → Option ℕ → TaintFlag
unfolding copy_flag
copy_flag_tagged tf tag = record (copy_flag tf) { tag = tag }

-- The contexts of a trace, each run of equal ones once; `last` is the one before.
unfoldable pub ctx_of_trace : Option CallSites → List InstLoc → List CallSites
unfolding has_ctx same_sites
ctx_of_trace last [] = []
ctx_of_trace last (l ∷ tr) =
    let skipped = ctx_of_trace last tr in
    let taken = ctx_of_trace (some l.ctx) tr in
    let again = elim last as (λ x. Bool) [ none ↦ false | some c ↦ same_sites c l.ctx ] in
    if not (has_ctx l) then skipped else if again then skipped else l.ctx ∷ taken

unfoldable pub same_ctxs : List CallSites → List CallSites → Bool
unfolding same_sites
same_ctxs [] [] = true
same_ctxs [] (d ∷ ds) = false
same_ctxs (c ∷ cs) [] = false
same_ctxs (c ∷ cs) (d ∷ ds) = same_sites c d && same_ctxs cs ds

abbrev pub eqb : Bool → Bool → Bool
eqb true b = b
eqb false b = not b

module _ (tags : ℕ → TaintTag) where
  -- isTagEquals, which never holds against a null pointer.
  unfoldable pub is_tag_equals : ℕ → Option ℕ → Bool
  is_tag_equals t none = false
  is_tag_equals t (some u) =
      t == u
      || eqb_ℤ (tags t).field_id (tags u).field_id
        && same_opt (tags t).v (tags u).v
        && same_opt (tags t).type (tags u).type
        && eqb (tags t).is_global (tags u).is_global
        && same_opt (tags t).priv (tags u).priv

  unfoldable pub same_tags : Option ℕ → Option ℕ → Bool
  unfolding is_tag_equals
  same_tags none none = true
  same_tags none (some u) = false
  same_tags (some t) u = is_tag_equals t u

  -- isTaintEquals of two flags at different addresses.
  unfoldable pub is_taint_equals : TaintFlag → TaintFlag → Bool
  unfolding same_tags ctx_of_trace same_ctxs
  is_taint_equals p q =
      eqb p.is_tainted q.is_tainted
      && same_tags p.tag q.tag
      && same_opt_loc p.target_instr q.target_instr
      && same_ctxs (ctx_of_trace none p.instruction_trace) (ctx_of_trace none q.instruction_trace)
