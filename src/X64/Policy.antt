-- ===== src/X64/Policy.antt =====
-- What the x86-64 sandbox allows of a single instruction, without reference to how it is checked.
use lfi_verifier.Prelude.{
  String, ℕ, ◌+◌, ◌%◌, ◌≤◌, ◌≡◌, ◌≢◌, ◌⊎◌, true, false, List, [], ◌∷◌, one_of, add64, ◌++◌,
}
use lfi_verifier.Options.{Options, box_stores}
use lfi_verifier.X64.Inst.{
  ot_reg, ot_mem, ot_off, rt_gpl, rt_gph, rt_vec, rt_fpu, Reg, reg_sp, reg_r14, reg_r15, reg_ip,
  reg_none, seg_gs, seg_other, Inst,
}
use lfi_verifier.X64.Check.{nmod, okmnem, ctxreg_tp_offset, cond_branches}

-- The base registers whose accesses stay within reach of the sandbox.
pub data IsBase : Reg → Type 0 where
  base_sp : IsBase reg_sp
  base_ip : IsBase reg_ip
  base_r14 : IsBase reg_r14

-- An operand that accesses no memory, or accesses it inside the sandbox.
pub data MemOk (opts : Options) (instr : Inst) (i : ℕ) : Type 0 where
  not_memory : (instr.op i).op_type ≢ ot_mem → MemOk opts instr i
  only_read : opts.box ≡ box_stores → nmod instr ≤ i → MemOk opts instr i
  segmented : instr.segment ≡ seg_gs → instr.addrsize ≡ 4 → MemOk opts instr i
  context :
      instr.segment ≡ seg_other
      → instr.addrsize ≡ 8
      → opts.ctxreg ≡ true
      → (instr.op i).base ≡ reg_r15
      → instr.type ≡ "FDI_MOV"
      → (instr.op i).size ≡ 8
      → (instr.op i).disp ≡ ctxreg_tp_offset
      → (instr.op i).index ≡ reg_none
      → MemOk opts instr i
  based :
      instr.segment ≡ seg_other
      → instr.addrsize ≡ 8
      → IsBase (instr.op i).base
      → (instr.op i).index ≡ reg_none
      → MemOk opts instr i

-- A register operand that is no reserved register, or is only read. Vector and floating-point
-- registers are free; registers of any other kind but the general ones are not.
pub data RegOk (opts : Options) (instr : Inst) (i : ℕ) : Type 0 where
  not_register : (instr.op i).op_type ≢ ot_reg → RegOk opts instr i
  vector : (instr.op i).reg_type ≡ rt_vec → RegOk opts instr i
  floating : (instr.op i).reg_type ≡ rt_fpu → RegOk opts instr i
  read :
      ((instr.op i).reg_type ≡ rt_gpl) ⊎ ((instr.op i).reg_type ≡ rt_gph)
      → nmod instr ≤ i
      → RegOk opts instr i
  unreserved :
      ((instr.op i).reg_type ≡ rt_gpl) ⊎ ((instr.op i).reg_type ≡ rt_gph)
      → (instr.op i).reg ≢ reg_sp
      → (instr.op i).reg ≢ reg_r14
      → (opts.ctxreg ≡ true → (instr.op i).reg ≢ reg_r15)
      → RegOk opts instr i

-- A statement about each of the four operands.
abbrev pub EachOp : (ℕ → Type 0) → Type 0
EachOp P = P 0 × P 1 × P 2 × P 3

-- The instructions that change the control flow.
abbrev pub branch_types : List String
branch_types = cond_branches ++ ("FDI_JMP" ∷ "FDI_CALL" ∷ "FDI_RET" ∷ [])

-- No branch, or one with an offset whose target is the start of a bundle.
pub data BranchOk (addr bundlesize : ℕ) (instr : Inst) : Type 0 where
  no_branch : one_of branch_types instr.type ≡ false → BranchOk addr bundlesize instr
  direct :
      one_of branch_types instr.type ≡ true
      → (instr.op 0).op_type ≡ ot_off
      → add64 (addr + instr.size) (instr.op 0).imm % bundlesize ≡ 0
      → BranchOk addr bundlesize instr

-- The policy for an instruction that is part of no macro.
pub record SafeInst (opts : Options) (addr bundlesize : ℕ) (instr : Inst) : Type 0 where
  pub legal : okmnem instr ≡ true
  pub branches : BranchOk addr bundlesize instr
  pub memory : (instr.type ≢ "FDI_LEA") × (instr.type ≢ "FDI_NOP") → EachOp (MemOk opts instr)
  pub registers : instr.type ≢ "FDI_NOP" → EachOp (RegOk opts instr)
