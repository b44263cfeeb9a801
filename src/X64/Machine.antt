-- ===== src/X64/Machine.antt =====
-- What the x86-64 architecture computes by the instructions of the sequences in src/x64/macroinst.c.
use lfi_verifier.Prelude.{
  ℕ, ◌+◌, ◌-◌, ◌*◌, ◌/◌, ◌%◌, ◌^◌, ◌≤◌, ◌<◌, ◌≡◌, ◌≢◌, ◌⊎◌, true, some, List, drop, ◌&&◌, ◌==◌, is,
  add64, if◌then◌else◌,
}
use lfi_verifier.X64.Inst.{
  Reg, reg_none, reg_r14, reg_sp, rt_gpl, rt_gph, Operand, seg_other, Inst, Decoder, is_reg, is_mem,
  is_imm, reg_eq,
}

abbrev pub Registers : Type 0
Registers = Reg → ℕ

unfoldable pub set : Reg → ℕ → Registers → Registers
set r x regs q = if reg_eq q r then x else regs q

-- A register in an address; none counts as 0.
abbrev pub part : Registers → Reg → ℕ
part regs reg_none = 0
part regs r = regs r

-- The address of a memory operand of an instruction, relative to the segment; an address of 4 bytes has
-- zeros above.
unfoldable pub address : Registers → Inst → Operand → ℕ
address regs i op =
    add64 (part regs op.base + part regs op.index * 2 ^ op.scale) op.disp
    % (if i.addrsize == 4 then 2 ^ 32 else 2 ^ 64)

-- Inclusive or of two words; of overlapping bits nothing is said.
pub record IsOr (or : ℕ → ℕ → ℕ) : Type 0 where
  pub apart : (a b : ℕ) → a < 2 ^ 32 → b % 2 ^ 32 ≡ 0 → or a b ≡ a + b

module _ (or : ℕ → ℕ → ℕ) where
  -- What an instruction computes for its first operand, before it is cut to the size of the operand;
  -- `other` for a form that is not listed. The immediate of and is the pattern of -32.
  unfoldable pub computed : ℕ → Inst → Registers → ℕ
  computed other i regs =
      let a = regs (i.op 0).reg in
      let b = regs (i.op 1).reg in
      if is i.type "FDI_AND" && (is_imm (i.op 1).op_type && (i.op 1).imm == 0xffffffffffffffe0)
      then a / 32 * 32
      else if is i.type "FDI_MOV" && is_reg (i.op 1).op_type
      then b
      else if is i.type "FDI_ADD" && is_reg (i.op 1).op_type
      then a + b
      else if is i.type "FDI_OR" && is_reg (i.op 1).op_type
      then or a b
      else if is i.type "FDI_LEA"
      then address regs i (i.op 1)
      else other

  -- A register of 4 bytes is written with zeros above.
  abbrev pub kept : Inst → ℕ
  kept i = if (i.op 0).size == 4 then 2 ^ 32 else 2 ^ 64

  -- The registers after an instruction that writes its first operand, a register of 4 or 8 bytes.
  abbrev pub step : ℕ → Inst → Registers → Registers
  step other i regs = set (i.op 0).reg (computed other i regs % kept i) regs

-- The sandbox is the 4 GiB from a multiple of 4 GiB on, with room on either side in the address space.
pub record IsSandbox (base : ℕ) : Type 0 where
  pub aligned : base % 2 ^ 32 ≡ 0
  pub room_below : 2 ^ 31 ≤ base
  pub room_above : base + 2 ^ 32 + 2 ^ 31 ≤ 2 ^ 64

abbrev pub Inside : ℕ → ℕ → Type 0
Inside base a = (base ≤ a) × (a < base + 2 ^ 32)

-- In the sandbox or the 2 GiB on either side of it.
abbrev pub Near : ℕ → ℕ → Type 0
Near base a = (base ≤ a + 2 ^ 31) × (a < base + 2 ^ 32 + 2 ^ 31)

-- What the sandbox keeps in its reserved registers.
pub record IsReady (base : ℕ) (regs : Registers) : Type 0 where
  pub r14 : regs reg_r14 ≡ base
  pub sp : Inside base (regs reg_sp)

-- The pattern of a displacement of 32 bits.
abbrev pub IsDisp : ℕ → Type 0
IsDisp d = (d < 2 ^ 31) ⊎ ((2 ^ 64 - 2 ^ 31 ≤ d) × (d < 2 ^ 64))

-- The addresses of the instruction have 8 bytes and no segment base is added to them.
pub record IsPlain (i : Inst) : Type 0 where
  pub addrsize : i.addrsize ≡ 8
  pub segment : i.segment ≡ seg_other

-- No instruction in the buffer has a prefix for the size or the segment of its addresses.
abbrev pub NoPrefix : Decoder → List ℕ → Type 0
NoPrefix fd_decode buf = (off n : ℕ) (i : Inst) → fd_decode (drop off buf) ≡ some (n, i) → IsPlain i

-- The register that and or mov writes is a general one, and the displacement from a base register has
-- 32 bits. A mov with an absolute address has no base register and may have 64.
pub record MachineLaws (fd_decode : Decoder) : Type 0 where
  pub general :
      (buf : List ℕ) (n : ℕ) (i : Inst)
      → fd_decode buf ≡ some (n, i)
      → (i.type ≡ "FDI_AND") ⊎ (i.type ≡ "FDI_MOV")
      → is_reg (i.op 0).op_type ≡ true
      → ((i.op 0).reg_type ≡ rt_gpl) ⊎ ((i.op 0).reg_type ≡ rt_gph)
  pub disp :
      (buf : List ℕ) (n : ℕ) (i : Inst) (k : ℕ)
      → fd_decode buf ≡ some (n, i)
      → is_mem (i.op k).op_type ≡ true
      → (i.op k).base ≢ reg_none
      → IsDisp (i.op k).disp
