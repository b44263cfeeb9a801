-- ===== src/X64/Check.antt =====
-- The checks of src/x64/verify.c on one instruction: reserved registers, branches, mnemonics, memory.
use lfi_verifier.Prelude.{
  ℕ, ◌+◌, ◌%◌, Bool, true, false, not, ◌&&◌, ◌||◌, List, [], ◌∷◌, String, leb, ◌!=◌, is, one_of,
  add64, if◌then◌else◌,
}
use lfi_verifier.Options.{Options, is_stores}
use lfi_verifier.X64.Inst.{
  RegType, rt_gpl, rt_gph, rt_vec, rt_fpu, Reg, reg_sp, reg_r14, reg_r15, reg_ip, reg_none, Segment,
  seg_gs, seg_fs, Inst, is_reg, is_mem, is_off, reg_eq,
}
use lfi_verifier.X64.State.{Verifier, verr, verr_if}
use lfi_verifier.X64.Mnemonics.{base_instrs}

-- The build's default of -DCTXREG_TP_OFFSET.
abbrev pub ctxreg_tp_offset : ℕ
ctxreg_tp_offset = 16

-- How many of the leading operands an instruction modifies.
unfoldable pub nmod : Inst → ℕ
unfolding one_of
nmod instr =
    if one_of ("FDI_CMP" ∷ "FDI_TEST" ∷ []) instr.type
    then 0
    else if one_of ("FDI_XCHG" ∷ "FDI_MULX" ∷ "FDI_XADD" ∷ []) instr.type
    then 2
    else 1

-- The early returns of `reserved` on the kind of register, then its tests on a general register.
unfoldable pub reserved_as : RegType → Bool → Reg → Bool → Bool
reserved_as rt_vec ctxreg reg is_read_op = false
reserved_as rt_fpu ctxreg reg is_read_op = false
reserved_as rt_gpl ctxreg reg is_read_op =
    if reg_eq reg reg_r14 || reg_eq reg reg_sp
    then not is_read_op
    else if ctxreg && reg_eq reg reg_r15
    then not is_read_op
    else false
reserved_as rt_gph ctxreg reg is_read_op =
    if reg_eq reg reg_r14 || reg_eq reg reg_sp
    then not is_read_op
    else if ctxreg && reg_eq reg reg_r15
    then not is_read_op
    else false
reserved_as _ ctxreg reg is_read_op = true

unfoldable pub reserved : Options → Inst → ℕ → Bool
unfolding reserved_as
reserved opts instr op_index =
    reserved_as (instr.op op_index).reg_type opts.ctxreg (instr.op op_index).reg
      (leb (nmod instr) op_index)

-- The results of branchinfo: what it returns, and its three out parameters.
pub record BranchInfo : Type 0 where
  pub branch : Bool
  pub target : ℕ
  pub indirect : Bool
  pub cond : Bool

abbrev pub cond_branches : List String
cond_branches =
    "FDI_JA" ∷ "FDI_JBE" ∷ "FDI_JC" ∷ "FDI_JCXZ" ∷ "FDI_JG" ∷ "FDI_JGE" ∷ "FDI_JL" ∷ "FDI_JLE"
    ∷ "FDI_JNC" ∷ "FDI_JNO" ∷ "FDI_JNP" ∷ "FDI_JNS" ∷ "FDI_JNZ" ∷ "FDI_JO" ∷ "FDI_JP" ∷ "FDI_JS"
    ∷ "FDI_JZ" ∷ []

unfoldable pub branchinfo : ℕ → Inst → BranchInfo
branchinfo addr instr =
    let cond = one_of cond_branches instr.type in
    if cond || one_of ("FDI_JMP" ∷ "FDI_CALL" ∷ "FDI_RET" ∷ []) instr.type
    then (if is_off (instr.op 0).op_type
        then record {
          branch = true;
          target = add64 (addr + instr.size) (instr.op 0).imm;
          indirect = false;
          cond = cond;
        }
        else record { branch = true; target = 0; indirect = true; cond = cond })
    else record { branch = false; target = 0; indirect = false; cond = false }

unfoldable pub okmnem : Inst → Bool
unfolding one_of
okmnem instr = one_of base_instrs instr.type

-- for (size_t i = 0; i < 4; i++)
unfoldable pub for_ops : (ℕ → Verifier → Verifier) → Verifier → Verifier
for_ops body v = body 3 (body 2 (body 1 (body 0 v)))

-- What is checked of a memory operand with the context register for its base.
unfoldable pub chkmem_ctx : Inst → ℕ → Verifier → Verifier
unfolding verr_if
chkmem_ctx instr i v =
    let v₁ =
      verr_if (not (is instr.type "FDI_MOV")) instr "context register can only be used with mov"
        v in
    let v₂ =
      verr_if ((instr.op i).size != 8) instr "context register can only be used with 64-bit mov"
        v₁ in
    let v₃ =
      verr_if ((instr.op i).disp != ctxreg_tp_offset) instr
        "context register memory access has wrong displacement" v₂ in
    verr_if (not (reg_eq (instr.op i).index reg_none)) instr
      "context register memory access cannot have index register" v₃

unfoldable pub chkmem_base : Inst → ℕ → Verifier → Verifier
unfolding verr_if
chkmem_base instr i v =
    let v₁ =
      verr_if
        (not (reg_eq (instr.op i).base reg_sp)
          && (not (reg_eq (instr.op i).base reg_ip) && not (reg_eq (instr.op i).base reg_r14)))
        instr "invalid base register for memory access" v in
    verr_if (not (reg_eq (instr.op i).index reg_none)) instr
      "invalid index register for memory access" v₁

-- The checks of a memory operand by the instruction's segment.
unfoldable pub chkmem_seg : Segment → Inst → ℕ → Verifier → Verifier
unfolding verr verr_if chkmem_ctx chkmem_base
chkmem_seg seg_gs instr i v =
    verr_if (instr.addrsize != 4) instr "segmented memory access must use 32-bit address" v
chkmem_seg seg_fs instr i v = verr instr "use of %fs is not permitted" v
chkmem_seg _ instr i v =
    let v₁ =
      verr_if (instr.addrsize != 8) instr "non-segmented memory access must use 64-bit address" v in
    if v.opts.ctxreg && reg_eq (instr.op i).base reg_r15
    then chkmem_ctx instr i v₁
    else chkmem_base instr i v₁

-- The body of the loop of chkmem.
unfoldable pub chkmem_op : Inst → ℕ → Verifier → Verifier
unfolding chkmem_seg
chkmem_op instr i v =
    if not (is_mem (instr.op i).op_type)
    then v
    else if is_stores v.opts.box && leb (nmod instr) i
    then v
    else chkmem_seg instr.segment instr i v

unfoldable pub chkmem : Inst → Verifier → Verifier
unfolding chkmem_op for_ops
chkmem instr v =
    if is instr.type "FDI_LEA" || is instr.type "FDI_NOP" then v else for_ops (chkmem_op instr) v

-- The body of the loop of chkmod.
unfoldable pub chkmod_op : Inst → ℕ → Verifier → Verifier
unfolding verr_if
chkmod_op instr i v =
    verr_if (is_reg (instr.op i).op_type && reserved v.opts instr i) instr
      "modification of reserved register" v

unfoldable pub chkmod : Inst → Verifier → Verifier
unfolding chkmod_op for_ops
chkmod instr v = if is instr.type "FDI_NOP" then v else for_ops (chkmod_op instr) v

unfoldable pub chkbranch : Inst → Verifier → Verifier
unfolding branchinfo verr verr_if
chkbranch instr v =
    let info = branchinfo v.addr instr in
    if info.branch && not info.indirect
    then verr_if (info.target % v.bundlesize != 0) instr "jump target is not bundle-aligned" v
    else if info.branch && info.indirect
    then verr instr "invalid indirect branch" v
    else v
