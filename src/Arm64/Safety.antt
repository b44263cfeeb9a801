-- ===== src/Arm64/Safety.antt =====
-- The proofs on the checks of src/arm64/verify.c, from one operand to the whole code.
pub mod Branches
pub mod System
pub mod Operands
pub mod Memory
pub mod Writes
pub mod Insn
pub mod Total
pub mod Program
pub mod Entry
pub mod Modes
pub mod Bounds
pub mod Logs
pub mod Reports
