-- ===== src/Kernel.antt =====
-- The lock functions of the kernel: the tables and the name tests of
-- llvm_analysis/MainAnalysisPasses/LinuxKernelCustomizations/src/KernelFunctionChecker.cpp. Texts are
-- native strings, and a function is what these tests read of it.
pub mod Names
mod Tests
use Prim.Native.Char.{code}
use Prim.Native.String.{String}
use text.Mathlib.Text.{starts_with, ◌==◌ as str_eq}
use study_uafx.Base.{
  ℕ, Bool, true, false, not, ◌||◌, Option, none, some, List, [], ◌∷◌, if◌then◌else◌, ◌==◌,
}

pub record Function : Type 0 where
  pub is_declaration : Bool
  pub name : Option String

-- lock_function_arg_map, in the order of its keys.
abbrev pub lock_functions : List (String × List ℕ)
lock_functions =
    ("console_lock", [])
    ∷ ("console_unlock", [])
    ∷ ("down_read", 0 ∷ [])
    ∷ ("down_write", 0 ∷ [])
    ∷ ("mutex_lock", 0 ∷ [])
    ∷ ("mutex_unlock", 0 ∷ [])
    ∷ ("pthread_mutex_lock", 0 ∷ [])
    ∷ ("pthread_mutex_unlock", 0 ∷ [])
    ∷ ("raw_spin_lock", 0 ∷ [])
    ∷ ("raw_spin_unlock", 0 ∷ [])
    ∷ ("spin_lock", 0 ∷ [])
    ∷ ("spin_unlock", 0 ∷ [])
    ∷ ("up_read", 0 ∷ [])
    ∷ ("up_write", 0 ∷ [])
    ∷ []

-- lock_func_pair: each lock with its unlock.
abbrev pub lock_func_pair : List (String × String)
lock_func_pair =
    ("mutex_lock", "mutex_unlock")
    ∷ ("mutex_lock_nested", "mutex_unlock")
    ∷ ("_raw_spin_lock", "_raw_spin_unlock")
    ∷ ("_raw_spin_lock_irq", "_raw_spin_unlock_irq")
    ∷ ("_raw_spin_lock_irqsave", "_raw_spin_unlock_irqrestore")
    ∷ ("pthread_mutex_lock", "pthread_mutex_unlock")
    ∷ ("down_read", "up_read")
    ∷ ("down_read_nested", "up_read")
    ∷ ("down_write", "up_write")
    ∷ ("down_write_nested", "up_write")
    ∷ ("console_lock", "console_unlock")
    ∷ []

-- The name without its leading underscores.
unfoldable pub strip : String → String
strip String.[] = String.[]
strip (String.◌∷◌ c s) = let rest = strip s in if code c == 95 then rest else String.◌∷◌ c s

-- The arguments of the first entry that a name starts with.
unfoldable pub find_entry : String → List (String × List ℕ) → Option (List ℕ)
find_entry name [] = none
find_entry name ((cand, args) ∷ entries) =
    let later = find_entry name entries in if starts_with name cand then some args else later

-- The common part of is_lock_function and get_lock_arguments.
unfoldable pub lock_entry : Function → Option (List ℕ)
unfolding strip find_entry
lock_entry f =
    if not f.is_declaration
    then none
    else elim f.name [ none ↦ none | some name ↦ find_entry (strip name) lock_functions ]

unfoldable pub is_lock_function : Function → Bool
unfolding lock_entry
is_lock_function f = elim (lock_entry f) [ none ↦ false | some args ↦ true ]

unfoldable pub get_lock_arguments : Function → List ℕ
unfolding lock_entry
get_lock_arguments f = elim (lock_entry f) [ none ↦ [] | some args ↦ args ]

-- The paired functions, and what `*is_lock` is set to last, if it is.
pub record Paired : Type 0 where
  pub names : List String
  pub is_lock : Option Bool

unfoldable pub mem_name : List String → String → Bool
mem_name [] s = false
mem_name (x ∷ xs) s = str_eq x s || mem_name xs s

unfoldable pub add_name : String → List String → List String
unfolding mem_name
add_name s xs = if mem_name xs s then xs else s ∷ xs

-- The loop over the table, with the result so far.
unfoldable pub paired_from : String → List (String × String) → Paired → Paired
unfolding add_name
paired_from fn [] p = p
paired_from fn ((lock, unlock) ∷ table) p = paired_from fn table (
    if str_eq fn lock
    then record { names = add_name unlock p.names; is_lock = some true }
    else if str_eq fn unlock
    then record { names = add_name lock p.names; is_lock = some false }
    else p)

unfoldable pub get_paired_lock_funcs : String → Paired
unfolding paired_from
get_paired_lock_funcs fn = paired_from fn lock_func_pair (record { names = []; is_lock = none })
