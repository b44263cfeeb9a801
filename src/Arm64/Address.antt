-- ===== src/Arm64/Address.antt =====
-- The addresses that the memory operands of src/arm64/verify.c compute, as the Arm architecture
-- defines them, and what the sandbox keeps in the registers that they are computed from.
use lfi_verifier.Prelude.{
  ℕ, ◌+◌, ◌-◌, ◌*◌, ◌%◌, ◌^◌, ◌≤◌, ◌<◌, ◌≡◌, ltb, ◌==◌, add64, if◌then◌else◌,
}
use lfi_verifier.Arm64.Inst.{
  OpType, op_memuoff, op_memsoff, op_memsoffpre, op_memreg, Ext, ext_uxtw, ext_other, Op, Inst,
}

pub record Registers : Type 0 where
  pub x : ℕ → ℕ
  pub sp : ℕ

-- A base register, where 31 is sp.
abbrev pub base_value : Registers → ℕ → ℕ
base_value regs r = if r == 31 then regs.sp else regs.x r

-- A 16-bit pattern extended with its sign to 64 bits.
abbrev pub sext16 : ℕ → ℕ
sext16 n = if ltb n (2 ^ 15) then n else n + (2 ^ 64 - 2 ^ 16)

-- An offset register of value `off`. Of the extensions only uxtw is told apart.
abbrev pub extended : Ext → ℕ → ℕ → ℕ
extended ext_uxtw sc off = off % 2 ^ 32 * 2 ^ sc
extended ext_other sc off = off * 2 ^ sc

-- The address that an operand accesses; a base that is updated behind the access is accessed as it is.
unfoldable pub address_as : OpType → Registers → ℕ → Op → ℕ
address_as op_memuoff regs off op = add64 (base_value regs op.reg) op.uimm16
address_as op_memsoff regs off op = add64 (base_value regs op.reg) (sext16 op.simm16)
address_as op_memsoffpre regs off op = add64 (base_value regs op.reg) (sext16 op.simm16)
address_as op_memreg regs off op =
    add64 (base_value regs op.reg) (extended op.memreg_ext op.memreg_sc off)
address_as _ regs off op = base_value regs op.reg

abbrev pub address : Registers → ℕ → Op → ℕ
address regs off op = address_as op.type regs off op

-- What add (extended register) writes, where the register that is extended holds `off`: a destination
-- of 32 bits is written with zeros above.
abbrev pub add_ext : Registers → ℕ → Inst → ℕ
add_ext regs off dinst =
    add64 (base_value regs (dinst.ops 1).reg)
      (extended (dinst.ops 2).reggpext_ext (dinst.ops 2).reggpext_shift off)
    % (if (dinst.ops 0).reggp_sf == 1 then 2 ^ 64 else 2 ^ 32)

-- The offsets of an operand are 16 bits wide.
pub record Encoded (op : Op) : Type 0 where
  pub uimm16_max : op.uimm16 < 2 ^ 16
  pub simm16_max : op.simm16 < 2 ^ 16

-- The sandbox is the 4 GiB from `base` on, with room on either side in the address space: x27 holds
-- its base, and x28 and sp addresses in it.
pub record Sandboxed (base : ℕ) (regs : Registers) : Type 0 where
  pub room_below : 2 ^ 15 ≤ base
  pub room_above : base + 2 ^ 32 + 2 ^ 16 ≤ 2 ^ 64
  pub x27 : regs.x 27 ≡ base
  pub x28_min : base ≤ regs.x 28
  pub x28_max : regs.x 28 < base + 2 ^ 32
  pub sp_min : base ≤ regs.sp
  pub sp_max : regs.sp < base + 2 ^ 32

abbrev pub Inside : ℕ → ℕ → Type 0
Inside base a = (base ≤ a) × (a < base + 2 ^ 32)

-- In the sandbox, or in the 32 KiB below or the 64 KiB above it.
abbrev pub Near : ℕ → ℕ → Type 0
Near base a = (base ≤ a + 2 ^ 15) × (a < base + 2 ^ 32 + 2 ^ 16)
