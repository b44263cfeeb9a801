-- ===== src/Arm64/Safety/Memory.antt =====
-- chkmemops of src/arm64/verify.c against the policy for memory accesses.
use lfi_verifier.Prelude.{ℕ, Bool, not, ◌&&◌, ◌||◌}
use lfi_verifier.Arm64.Inst.{Inst, is_memuoff, is_memsoff}
use lfi_verifier.Arm64.State.{Verifier, verr_if}
use lfi_verifier.Arm64.Regs.{ctxreg, isload, ok_ctxreg_ldst}
use lfi_verifier.Arm64.Check.{for_ops, chkmem_op, chkmemops}
use lfi_verifier.Arm64.Passes.{Keeps, tested, next-Passes, EachOp, for_ops-Passes}
use lfi_verifier.Arm64.Policy.{MemOk, ContextOk}
use lfi_verifier.Arm64.Safety.Operands.{okmemop_iff, ctx_iff}

chkmem_op-Keeps :
    (dinst : Inst) (load : Bool) (i : ℕ) (v : Verifier)
    → Keeps
        (MemOk v.opts (dinst.ops i) load × ContextOk v.opts dinst (dinst.ops i))
        v
        (chkmem_op dinst load i v)
unfolding chkmem_op
chkmem_op-Keeps dinst load i v =
    next-Passes (λ o _. ContextOk o dinst (dinst.ops i)) (λ _ g. g)
      (λ u.
        verr_if
          ((is_memuoff (dinst.ops i).type || is_memsoff (dinst.ops i).type)
            && (ctxreg u.opts (dinst.ops i).reg && not (ok_ctxreg_ldst dinst)))
          dinst "context register can only be used with 64-bit ldr/str" u)
      (λ u. tested (ctx_iff u.opts dinst (dinst.ops i)) dinst _ u)
      (tested (okmemop_iff v.opts (dinst.ops i) load) dinst "illegal memory operand" v)

-- chkmemops leaves the verifier unfailed exactly if it was and the policy allows the memory access of
-- each operand; it keeps the guard of x30, the options and the address.
pub chkmemops-Keeps :
    (dinst : Inst) (v : Verifier)
    → Keeps
        (EachOp
          (λ i. MemOk v.opts (dinst.ops i) (isload dinst) × ContextOk v.opts dinst (dinst.ops i)))
        v
        (chkmemops dinst v)
unfolding chkmemops for_ops
chkmemops-Keeps dinst v =
    for_ops-Passes (λ o i. MemOk o (dinst.ops i) (isload dinst) × ContextOk o dinst (dinst.ops i))
      (λ _ _ g. g) (chkmem_op dinst (isload dinst)) (chkmem_op-Keeps dinst (isload dinst)) v
