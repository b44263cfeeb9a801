-- ===== src/Tool.antt =====
-- tools/lfi-verify: the command-line tool.
pub mod World
pub mod Policy
pub mod Safety
pub mod Elf
pub mod Verify
pub mod Args
pub mod Main
mod Tests
mod Witnesses
