-- ===== src/X64.antt =====
-- The x86-64 verifier: src/x64/verify.c, src/x64/macroinst.c and src/x64/bdd.c.
pub mod Inst
pub mod State
pub mod Passes
pub mod Mnemonics
pub mod Check
pub mod Macro
pub mod Bdd
pub mod Verify
pub mod Policy
pub mod Layout
pub mod Control
pub mod Machine
pub mod Confined
pub mod Safety
pub mod Tests
mod Witnesses
