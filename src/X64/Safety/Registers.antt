-- ===== src/X64/Safety/Registers.antt =====
-- chkmod of src/x64/verify.c against the policy for register operands.
use lfi_verifier.Prelude.{
  ℕ, ◌≡◌, ◌≢◌, ◌↔◌, ◌⊎◌, inl, inr, refl, Bool, true, false, not, ◌&&◌, ◌||◌, arith, leb, is,
  Bool-cases, if◌then◌else◌,
}
use lfi_verifier.Options.{Options}
use lfi_verifier.X64.Inst.{
  RegType, rt_gpl, rt_gph, rt_vec, rt_fpu, rt_other, Reg, reg_sp, reg_r14, reg_r15, Inst, is_reg,
  reg_eq, reg_eq_iff,
}
use lfi_verifier.X64.State.{Verifier}
use lfi_verifier.X64.Check.{nmod, reserved_as, reserved, chkmod_op, chkmod}
use lfi_verifier.X64.Passes.{Passes, verr_if-Passes, Passes-iff, for_ops-Passes, unless-Passes}
use lfi_verifier.X64.Policy.{RegOk, not_register, vector, floating, read, unreserved, EachOp}

-- The tests of a general register.
abbrev general_test : Bool → Reg → Bool → Bool
general_test ctx reg is_read_op =
    if reg_eq reg reg_r14 || reg_eq reg reg_sp
    then not is_read_op
    else if ctx && reg_eq reg reg_r15
    then not is_read_op
    else false

abbrev Unreserved : Bool → Reg → Type 0
Unreserved ctx reg = (reg ≢ reg_sp) × (reg ≢ reg_r14) × (ctx ≡ true → reg ≢ reg_r15)

Unreserved-of_test :
    (ctx : Bool) (reg : Reg) → general_test ctx reg false ≡ false → Unreserved ctx reg
Unreserved-of_test ctx reg h = (
  ground (arith, reg_eq_iff reg reg_sp),
  ground (arith, reg_eq_iff reg reg_r14),
  ground (arith, reg_eq_iff reg reg_r15),
)

test-of_Unreserved :
    (ctx : Bool) (reg : Reg) (rd : Bool) → Unreserved ctx reg → general_test ctx reg rd ≡ false
test-of_Unreserved ctx reg rd u =
    ground (arith, reg_eq_iff reg reg_sp, reg_eq_iff reg reg_r14, reg_eq_iff reg reg_r15)

general_test_read : (ctx : Bool) (reg : Reg) → general_test ctx reg true ≡ false
general_test_read ctx reg = ground arith

module _ (opts : Options) (instr : Inst) (i : ℕ) where
  abbrev IsGeneral : Type 0
  IsGeneral = ((instr.op i).reg_type ≡ rt_gpl) ⊎ ((instr.op i).reg_type ≡ rt_gph)

  RegOk-of_test :
      IsGeneral
      → general_test opts.ctxreg (instr.op i).reg (leb (nmod instr) i) ≡ false
      → RegOk opts instr i
  RegOk-of_test g h = elim (Bool-cases (leb (nmod instr) i)) [
    | inl r ↦ read g (ground arith)
    | inr w ↦
        let u = Unreserved-of_test opts.ctxreg (instr.op i).reg (rw w at h) in
        unreserved g u.0 u.1 u.2
  ]

  RegOk-of_reserved :
      (rt : RegType)
      → (instr.op i).reg_type ≡ rt
      → reserved_as rt opts.ctxreg (instr.op i).reg (leb (nmod instr) i) ≡ false
      → RegOk opts instr i
  unfolding reserved_as
  RegOk-of_reserved rt_vec e h = vector e
  RegOk-of_reserved rt_fpu e h = floating e
  RegOk-of_reserved rt_gpl e h = RegOk-of_test (inl e) h
  RegOk-of_reserved rt_gph e h = RegOk-of_test (inr e) h
  RegOk-of_reserved rt_other e h = cc

  general_reserved :
      IsGeneral
      → general_test opts.ctxreg (instr.op i).reg (leb (nmod instr) i) ≡ false
      → reserved opts instr i ≡ false
  unfolding reserved
  general_reserved (inl g) h = rw (g, reserved_as) h
  general_reserved (inr g) h = rw (g, reserved_as) h

  reserved-of_RegOk :
      is_reg (instr.op i).op_type ≡ true → RegOk opts instr i → reserved opts instr i ≡ false
  unfolding reserved
  reserved-of_RegOk m (not_register h) = absurd (h (ground arith))
  reserved-of_RegOk m (vector e) = rw (e, reserved_as)
  reserved-of_RegOk m (floating e) = rw (e, reserved_as)
  reserved-of_RegOk m (read g l) =
      let t : leb (nmod instr) i ≡ true = ground arith in
      general_reserved g (rw t (general_test_read opts.ctxreg (instr.op i).reg))
  reserved-of_RegOk m (unreserved g p q r) =
      general_reserved g (test-of_Unreserved opts.ctxreg (instr.op i).reg _ (p, q, r))

  RegOk-iff : ((is_reg (instr.op i).op_type && reserved opts instr i) ≡ false) ↔ RegOk opts instr i
  RegOk-iff = (to_ok, of_ok)
    where
      to_ok : (is_reg (instr.op i).op_type && reserved opts instr i) ≡ false → RegOk opts instr i
      to_ok h = elim (Bool-cases (is_reg (instr.op i).op_type)) [
        | inl m ↦ RegOk-of_reserved (instr.op i).reg_type refl (unfold reserved in rw m at h)
        | inr m ↦ not_register (ground arith)
      ]

      of_ok : RegOk opts instr i → (is_reg (instr.op i).op_type && reserved opts instr i) ≡ false
      of_ok k = elim (Bool-cases (is_reg (instr.op i).op_type)) [
        | inl m ↦ rw m (reserved-of_RegOk m k)
        | inr m ↦ rw m
      ]

chkmod_op-Passes :
    (instr : Inst) (i : ℕ) (v : Verifier) → Passes (RegOk v.opts instr i) v (chkmod_op instr i v)
unfolding chkmod_op
chkmod_op-Passes instr i v =
    Passes-iff (RegOk-iff v.opts instr i)
      (verr_if-Passes _ instr "modification of reserved register" v)

-- chkmod leaves the verifier unfailed exactly if it was and the instruction is a nop or the policy
-- allows each register operand; it keeps the options, the address and the bundle size.
pub chkmod-Passes :
    (instr : Inst) (v : Verifier)
    → Passes (is instr.type "FDI_NOP" ≡ false → EachOp (RegOk v.opts instr)) v (chkmod instr v)
unfolding chkmod
chkmod-Passes instr v =
    unless-Passes (is instr.type "FDI_NOP")
      (λ _. for_ops-Passes (λ o i. RegOk o instr i) (chkmod_op instr) (chkmod_op-Passes instr) v)
