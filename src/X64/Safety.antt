-- ===== src/X64/Safety.antt =====
-- The proofs on the checks of src/x64, from one operand to the whole code.
pub mod Memory
pub mod Registers
pub mod Branches
pub mod Single
pub mod Unit
pub mod Bundle
pub mod Program
pub mod Entry
pub mod Control
pub mod Modes
pub mod Cover
pub mod Macros
pub mod Steps
pub mod Effects
pub mod Unreserved
pub mod Confined
pub mod Transfers
pub mod Strings
pub mod Sequences
pub mod Access
pub mod Counts
pub mod Assert
pub mod Contained
pub mod Logs
pub mod Reports
