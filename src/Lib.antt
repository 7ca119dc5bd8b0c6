-- ===== src/Lib.antt =====
-- A verification library of UAFX, a static detector of use-after-free in the Linux kernel. The
-- detector is a set of LLVM passes under llvm_analysis/MainAnalysisPasses (MAP below): a may-alias
-- analysis walks the call graph and records points-to and taint facts at instruction locations, that
-- is instructions under a calling context; the bug detector then asks whether a free can reach a use
-- around blocking instructions, whether the conditions on the way can hold, and which locks are
-- held. The library models the parts that decide these questions and proves them correct.
--
-- The parts and the files, from the bottom up:
--
-- Base and its children: shared names, lists, Boolean tests, signed integers, bits of integers.
-- Cfg: what LLVM gives of a module (blocks, instructions, successors, parents), an argument of every
--   definition, and what LLVM's verifier guarantees of it.
-- Reach (MAP/Utils/src/CFGUtils.cpp, isPotentiallyReachableFromMany): the worklist search over
--   blocks. Walk says what a path around blockers is; Visit, Sound, Complete and Ends prove the loop.
-- Flow (same file, isReachableInBB and isPotentiallyReachable): the entry points with their
--   shortcuts. Local reads single blocks, Decide and Answers prove the answers, Ends that there is
--   always one.
-- Context (MAP/Utils/include/CFGUtils.h, CallContext, and CallContext::getContext of CFGUtils.cpp):
--   the directory of calling contexts, their prefixes and the contexts of the callees of a call.
-- Loc (the class InstLoc, same files): Dominance has postDom and dom, with instPostDom and instDom;
--   Blockers has bypassCall, getBlockersInCurrFunc and canReachEnd; Paths has chainable, reachable,
--   mreachable and getTrOrder, with getPrefix and getLoc as they read there. Placed and Holds say where a
--   blocker stands, Steps which steps answer. Shallow, Exclusive, Bypass, Exact and Answers hold the
--   theorems.
-- Trait (MAP/SoundyAliasAnalysis/src/Trait.cpp and include/Trait.h): Check and Set model TraitCheck
--   and TraitSet, Branch getZ3Expr4Branch; Laws, Masked and Range hold the theorems.
-- Constraint (MAP/Utils/include/Constraint.h, the class Constraint): the path constraints of a value.
--   Adds holds what a constraint means and addConstraint, Merge the rest, Values getEqvExpr. Order
--   models addConstraint and addConstraintOr of the class POConstraint.
-- Points (MAP/SoundyAliasAnalysis/include/AliasObject.h and src/AliasObject.cpp): the points-to records
--   of object fields on a heap of records; Update is updateFieldPointsTo. Flags and Linked prove the
--   invariant, Unique, Scan, Override and Replaced what an update does to old records, Twins what a
--   change of one record reaches. Its questions of locations go through Loc.Judge.
-- Taint (MAP/SoundyAliasAnalysis/include/TaintInfo.h, with getCtxOfLocTr of CFGUtils.cpp): taint flags on
--   a heap, and the taint of an object field. Field has the class FieldTaint, Add its addTf; Overrides,
--   Keys and Kill prove what a new flag does to the old ones, Reset what a new entry does.
-- Thread (MAP/SoundyAliasAnalysis/include/ModuleState.h, InstLocTr, Thread and ThreadSched): the threads
--   that a schedule of a bug runs. Insert has insertLoc, Methods the other methods of Thread, Sched the
--   schedule, which hands its order to Constraint.Order, and Locks its locks (with
--   src/ModuleState.cpp). Chain, Slots, Keeps, Put and Trace prove what an
--   insertion keeps, Dry the test, Init the start, Seq and Regions the constraints, Clusters and
--   Apart which locks exclude each other.
-- Sites (MAP/SoundyAliasAnalysis/include/AliasObject.h): the free and the allocation sites of a field, which
--   the detector asks for. Cover says what hosts and embedded objects are, Exact which free sites are
--   found, Alloc which allocation site.
-- Uaf (MAP/SoundyAliasAnalysis/src/bug_detectors/UAFDetector.cpp): the detector at a load. Held has the
--   locks held at a location (include/ModuleState.h), Exact proves which free sites are warned of, Locked
--   what a common lock does, Sourced fills the interface of the objects with Sites.
-- Kernel (MAP/LinuxKernelCustomizations/src/KernelFunctionChecker.cpp): the lock functions by name.
-- Lockset (MAP/SoundyAliasAnalysis/src/LocksetAnalysisVisitor.cpp, MAP/Utils/include/LockInfo.h): the
--   pairing of locks and unlocks at a call, which asks Kernel for the names and Loc for reachability.
--
-- How the code is read. A pointer to an instruction, a block or a function is a number, and `none` is
-- a null pointer. A set is a list, read by membership only. Loops are structural, or take fuel: the
-- search over blocks gets the edges of the function's blocks plus the worklist, which each round
-- lowers (Reach.Ends); bypassCall goes two call sites deeper at each level, and gets the call sites of
-- all contexts (Loc.Bypass); the two loops of chainable get the length of the context; the loops over hosts
-- and embedded objects get a bound on how deep objects are nested (Sites.Exact). A failed
-- assertion and exhausted fuel are outcomes of their own, which the theorems rule out; the interface
-- Loc.Judge, through which Points, Taint, Thread and Uaf ask about locations, reads them as a no;
-- Loc.Answers proves that reachable has none in a verified module, for contexts of odd length, which the
-- code asserts. Machine integers matter in Trait, where conversions wrap
-- at 32 bits and shifts that C++ leaves undefined are an outcome, and in the types of Thread, which are
-- words of 32 bits.
--
-- Parameters. LLVM's module (Cfg), its dominator and post-dominator trees and chains of immediate
-- dominators, z3 (Trait.Branch.Solver, Constraint.Smt and
-- Constraint.Order.Orders, with the meaning of its expressions as laws). Parts of the repository that
-- are not modelled stand as arguments too: the objects that an argument points to (Lockset), the records
-- that a site uses (Thread.Sched.Records), the equivalent objects (Uaf.Objects, Uaf.Held), and the
-- returns of the function of an entry (Taint.Field).
--
-- Not modelled: the other parts of the alias objects and the transfer functions of the alias analysis,
-- which work on LLVM instructions; the rest of the module state (equivalent objects, the validation of a
-- free and a use); the taint of values; the visitors that walk the call graph; the list of warnings and
-- all printing; getExpr of Constraint; the solve of POConstraint, whose order stands on how z3 turns the
-- entries of a model into integers, and ThreadSched::validate, which only calls it; and the separate entry
-- point identifier.
pub mod Base
pub mod Cfg
pub mod Reach
pub mod Flow
pub mod Trait
pub mod Context
pub mod Loc
pub mod Kernel
pub mod Lockset
pub mod Constraint
pub mod Points
pub mod Taint
pub mod Thread
pub mod Uaf
pub mod Sites
