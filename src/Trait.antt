-- ===== src/Trait.antt =====
-- Condition traits: what a branch checks of a variable (TraitCheck) and what a store makes of it
-- (TraitSet), of llvm_analysis/MainAnalysisPasses/SoundyAliasAnalysis/src/Trait.cpp and
-- include/Trait.h. The tag `ty` and the union `val` of a check are one data type.
pub mod Check
pub mod Set
pub mod Branch
pub mod Laws
pub mod Masked
pub mod Range
mod Tests
