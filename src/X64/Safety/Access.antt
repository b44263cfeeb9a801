-- ===== src/X64/Safety/Access.antt =====
-- The addresses that chkmem of src/x64/verify.c lets an instruction access.
use lfi_verifier.Prelude.{
  ℕ, zero, suc, ◌<◌, ◌≡◌, ◌≢◌, ◌⊎◌, inl, inr, refl, sym, subst, ◌∙◌, true, arith, add64,
}
use lfi_verifier.Options.{Options, box_full}
use lfi_verifier.X64.Inst.{
  ot_mem, Reg, reg_sp, reg_r14, reg_r15, reg_ip, reg_none, seg_gs, Operand, Inst,
}
use lfi_verifier.X64.Check.{nmod, ctxreg_tp_offset}
use lfi_verifier.X64.Policy.{
  IsBase, base_sp, base_ip, base_r14, MemOk, not_memory, only_read, segmented, context, based,
  EachOp,
}
use lfi_verifier.X64.Machine.{Registers, address, part, IsSandbox, Inside, Near, IsReady, IsDisp}

-- Where an operand accesses memory: in the sandbox or the 2 GiB on either side of it, in the gs segment
-- by an address of 32 bits, next to the code, or in the slot of the thread pointer.
pub data IsAccess (opts : Options) (instr : Inst) (base : ℕ) (regs : Registers) (op : Operand)
    : Type 0 where
  near : Near base (address regs instr op) → IsAccess opts instr base regs op
  in_segment : instr.segment ≡ seg_gs → instr.addrsize ≡ 4 → IsAccess opts instr base regs op
  in_code : op.base ≡ reg_ip → op.index ≡ reg_none → IsAccess opts instr base regs op
  in_context :
      opts.ctxreg ≡ true
      → op.base ≡ reg_r15
      → op.index ≡ reg_none
      → op.disp ≡ ctxreg_tp_offset
      → IsAccess opts instr base regs op

plain_address :
    (regs : Registers) (i : Inst) (op : Operand) (b : Reg)
    → i.addrsize ≡ 8
    → op.base ≡ b
    → op.index ≡ reg_none
    → address regs i op ≡ add64 (part regs b) op.disp
unfolding address add64
plain_address regs i op b a e x = rw (a, e, x) (omega arith)

inside-Near : (base a d : ℕ) → IsSandbox base → Inside base a → IsDisp d → Near base (add64 a d)
unfolding add64
inside-Near base a d sandbox (l, u) (inl small) =
    let above = sandbox.room_above in (omega arith, omega arith)
inside-Near base a d sandbox (l, u) (inr (negative, fits)) =
    let below = sandbox.room_below in let above = sandbox.room_above in (omega arith, omega arith)

base_present : {b : Reg} → IsBase b → b ≢ reg_none
base_present base_sp e = cc
base_present base_ip e = cc
base_present base_r14 e = cc

module _ (base : ℕ) (sandbox : IsSandbox base) (regs : Registers) (ready : IsReady base regs)
    (opts : Options) (instr : Inst) (i : ℕ) where
  abbrev op : Operand
  op = instr.op i

  based-IsAccess :
      {b : Reg}
      → instr.addrsize ≡ 8
      → IsBase b
      → op.base ≡ b
      → op.index ≡ reg_none
      → IsDisp op.disp
      → IsAccess opts instr base regs op
  based-IsAccess a base_sp e x d = near (
      subst (Near base) (sym (plain_address regs instr op reg_sp a e x))
        (inside-Near base (regs reg_sp) op.disp sandbox ready.sp d))
  based-IsAccess a base_ip e x d = in_code e x
  based-IsAccess a base_r14 e x d =
      let r14 = ready.r14 in
      near (
        subst (Near base) (sym (plain_address regs instr op reg_r14 a e x))
          (inside-Near base (regs reg_r14) op.disp sandbox (omega arith, omega arith) d))

  pub MemOk-IsAccess :
      MemOk opts instr i
      → op.op_type ≡ ot_mem
      → (opts.box ≡ box_full) ⊎ (i < nmod instr)
      → (op.base ≢ reg_none → IsDisp op.disp)
      → IsAccess opts instr base regs op
  MemOk-IsAccess (not_memory n) m w d = absurd (n m)
  MemOk-IsAccess (only_read s r) m (inl f) d = absurd (cc (sym f ∙ s))
  MemOk-IsAccess (only_read s r) m (inr l) d = absurd (omega arith)
  MemOk-IsAccess (segmented s a) m w d = in_segment s a
  MemOk-IsAccess (context _ _ c b _ _ e x) m w d = in_context c b x e
  MemOk-IsAccess (based _ a b x) m w d = based-IsAccess a b refl x (d (base_present b))

pub each : (P : ℕ → Type 0) → EachOp P → (i : ℕ) → i < 4 → P i
each P (a, b, c, d) zero l = a
each P (a, b, c, d) (suc zero) l = b
each P (a, b, c, d) (suc (suc zero)) l = c
each P (a, b, c, d) (suc (suc (suc zero))) l = d
each P (a, b, c, d) (suc (suc (suc (suc i)))) l = absurd (omega arith)
