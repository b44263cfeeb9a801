-- ===== src/Tool/Safety.antt =====
-- Proofs about tools/lfi-verify/main.c.
pub mod Decides
pub mod Segments
pub mod Rounds
pub mod Select
pub mod File
pub mod Entry
pub mod Quiet
pub mod Inputs
pub mod Program
pub mod Exit
pub mod Fields
pub mod Safe
pub mod Options
pub mod Linked
