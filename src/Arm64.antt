-- ===== src/Arm64.antt =====
-- The arm64 verifier: src/arm64/verify.c.
pub mod Inst
pub mod State
pub mod Loads
pub mod Mnemonics
pub mod Regs
pub mod Check
pub mod Passes
pub mod Verify
pub mod Policy
pub mod Safety
pub mod Laws
pub mod Address
pub mod Tests
mod Witnesses
