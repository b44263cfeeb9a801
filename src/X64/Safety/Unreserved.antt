-- ===== src/X64/Safety/Unreserved.antt =====
-- The registers that `reserved` of src/x64/verify.c lets an instruction write, and what they leave ready.
use lfi_verifier.Prelude.{
  ℕ, ◌≤◌, ◌≡◌, ◌≢◌, ◌⊎◌, inl, inr, refl, sym, ap, subst, ◌∙◌, Bool, true, false, some, List, arith,
  false≢true, leb, one_of,
}
use lfi_verifier.Options.{Options}
use lfi_verifier.X64.Inst.{
  RegType, rt_gpl, rt_gph, Reg, reg_sp, reg_si, reg_di, reg_r11, reg_r14, reg_r15, reg_ip, reg_none,
  reg_other, Inst, Decoder, is_reg, reg_eq,
}
use lfi_verifier.X64.Check.{nmod, reserved, reserved_as}
use lfi_verifier.X64.Machine.{Registers, part, Inside, IsReady, MachineLaws}
use lfi_verifier.X64.Safety.Effects.{Sets}

-- A register that the sandbox does not rely on.
abbrev pub IsFree : Reg → Type 0
IsFree r = (r ≢ reg_r14) × (r ≢ reg_sp)

pub Sets-IsReady :
    {base x : ℕ} {q : Reg} {regs regs' : Registers}
    → Sets q x regs regs'
    → IsFree q
    → IsReady base regs
    → IsReady base regs'
Sets-IsReady {base} {x} {q} {regs} {regs'} s (n, n') ok = record {
  r14 = s.others reg_r14 (λ e. n (sym e)) ∙ ok.r14;
  sp = subst (Inside base) (sym (s.others reg_sp (λ e. n' (sym e)))) ok.sp;
}

-- What an absent register adds to an address is no more than a present one does.
pub part-le : (regs : Registers) (r : Reg) → part regs r ≤ regs r
part-le regs reg_none = omega arith
part-le regs reg_sp = omega arith
part-le regs reg_si = omega arith
part-le regs reg_di = omega arith
part-le regs reg_r11 = omega arith
part-le regs reg_r14 = omega arith
part-le regs reg_r15 = omega arith
part-le regs reg_ip = omega arith
part-le regs (reg_other k) = omega arith

written : (i : Inst) → (i.type ≡ "FDI_AND") ⊎ (i.type ≡ "FDI_MOV") → leb (nmod i) 0 ≡ false
unfolding nmod one_of
written i (inl t) = rw t refl
written i (inr t) = rw t refl

reserved-IsFree :
    (ctxreg : Bool) (t : RegType) (r : Reg)
    → (t ≡ rt_gpl) ⊎ (t ≡ rt_gph)
    → reserved_as t ctxreg r false ≡ false
    → IsFree r
unfolding reserved_as reg_eq
reserved-IsFree ctxreg t r (inl g) h =
    (λ e. false≢true (sym (rw (g, e) at h)), λ e. false≢true (sym (rw (g, e) at h)))
reserved-IsFree ctxreg t r (inr g) h =
    (λ e. false≢true (sym (rw (g, e) at h)), λ e. false≢true (sym (rw (g, e) at h)))

pub unreserved-IsFree :
    (fd_decode : Decoder) (laws : MachineLaws fd_decode) (opts : Options) (buf : List ℕ) (n : ℕ)
    (i : Inst)
    → fd_decode buf ≡ some (n, i)
    → (i.type ≡ "FDI_AND") ⊎ (i.type ≡ "FDI_MOV")
    → is_reg (i.op 0).op_type ≡ true
    → reserved opts i 0 ≡ false
    → IsFree (i.op 0).reg
unfolding reserved
unreserved-IsFree fd_decode laws opts buf n i d t r h =
    reserved-IsFree opts.ctxreg _ _ (laws.general buf n i d t r)
      (ap (λ b. reserved_as (i.op 0).reg_type opts.ctxreg (i.op 0).reg b) (sym (written i t)) ∙ h)
