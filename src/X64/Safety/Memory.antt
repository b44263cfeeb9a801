-- ===== src/X64/Safety/Memory.antt =====
-- chkmem of src/x64/verify.c against the policy for memory accesses.
use lfi_verifier.Prelude.{
  ℕ, ◌≡◌, ◌≢◌, ◌↔◌, ◌⊎◌, inl, inr, refl, Bool, true, false, not, ◌&&◌, ◌||◌, String, arith, eq_iff,
  leb, ◌!=◌, is, Bool-cases,
}
use lfi_verifier.Options.{Options, is_stores}
use lfi_verifier.X64.Inst.{
  Reg, reg_sp, reg_r14, reg_r15, reg_ip, reg_none, reg_si, Segment, seg_gs, seg_fs, seg_other, Inst,
  is_mem, reg_eq, reg_eq_iff,
}
use lfi_verifier.X64.State.{Verifier, verr_if}
use lfi_verifier.X64.Check.{
  ctxreg_tp_offset, nmod, chkmem_ctx, chkmem_base, chkmem_seg, chkmem_op, chkmem,
}
use lfi_verifier.X64.Passes.{
  Passes, verr_if-Passes, verr-Passes, skip-Passes, Passes-iff, Passes-trans, for_ops-Passes,
  unless-Passes,
}
use lfi_verifier.X64.Policy.{
  IsBase, base_sp, base_ip, base_r14, MemOk, not_memory, only_read, segmented, context, based,
  EachOp,
}

-- The policy for an operand with the context register for its base, and for one without.
abbrev CtxOk : Inst → ℕ → Type 0
CtxOk instr i =
    (instr.type ≡ "FDI_MOV")
    × ((instr.op i).size ≡ 8)
    × ((instr.op i).disp ≡ ctxreg_tp_offset)
    × ((instr.op i).index ≡ reg_none)

abbrev BasedOk : Inst → ℕ → Type 0
BasedOk instr i = IsBase (instr.op i).base × ((instr.op i).index ≡ reg_none)

number_iff : (m n : ℕ) → ((m != n) ≡ false) ↔ (m ≡ n)
number_iff m n = ground arith

type_iff : (t : String) → (not (is t "FDI_MOV") ≡ false) ↔ (t ≡ "FDI_MOV")
type_iff t = ground (arith, eq_iff t "FDI_MOV")

reg_iff : (r : Reg) → (not (reg_eq r reg_none) ≡ false) ↔ (r ≡ reg_none)
reg_iff r = ground (arith, reg_eq_iff r reg_none)

-- A test and the statement that it decides.
tested :
    {bad : Bool} {P : Type 0}
    → (bad ≡ false) ↔ P
    → (i : Inst) (m : String) (v : Verifier) → Passes P v (verr_if bad i m v)
tested {bad = bad} e i m v = Passes-iff e (verr_if-Passes bad i m v)

chkmem_ctx-Passes :
    (instr : Inst) (i : ℕ) (v : Verifier) → Passes (CtxOk instr i) v (chkmem_ctx instr i v)
unfolding chkmem_ctx
chkmem_ctx-Passes instr i v =
    Passes-iff (λ t. (t.0.0.0, t.0.0.1, t.0.1, t.1), λ t. (((t.0, t.1), t.2), t.3))
      (Passes-trans
        (Passes-trans
          (Passes-trans (tested (type_iff instr.type) instr _ v)
            (tested (number_iff (instr.op i).size 8) instr _ _))
          (tested (number_iff (instr.op i).disp ctxreg_tp_offset) instr _ _))
        (tested (reg_iff (instr.op i).index) instr _ _))

abbrev off_base : Reg → Bool
off_base r = not (reg_eq r reg_sp) && (not (reg_eq r reg_ip) && not (reg_eq r reg_r14))

IsBase-of_tests : (r : Reg) → off_base r ≡ false → IsBase r
unfolding reg_eq
IsBase-of_tests reg_sp h = base_sp
IsBase-of_tests reg_ip h = base_ip
IsBase-of_tests reg_r14 h = base_r14
IsBase-of_tests reg_si h = cc
IsBase-of_tests _ h = cc

tests-of_IsBase : {r : Reg} → IsBase r → off_base r ≡ false
unfolding reg_eq
tests-of_IsBase base_sp = refl
tests-of_IsBase base_ip = refl
tests-of_IsBase base_r14 = refl

chkmem_base-Passes :
    (instr : Inst) (i : ℕ) (v : Verifier) → Passes (BasedOk instr i) v (chkmem_base instr i v)
unfolding chkmem_base
chkmem_base-Passes instr i v =
    Passes-trans (tested (IsBase-of_tests (instr.op i).base, tests-of_IsBase) instr _ v)
      (tested (reg_iff (instr.op i).index) instr _ _)

-- The policy by segment, and what it says of the operand.
abbrev SegOk : Segment → Options → Inst → ℕ → Type 0
SegOk seg_gs opts instr i = instr.addrsize ≡ 4
SegOk seg_fs opts instr i = ⊥
SegOk seg_other opts instr i =
    (instr.addrsize ≡ 8)
    × ((opts.ctxreg ≡ true) × ((instr.op i).base ≡ reg_r15) × CtxOk instr i ⊎ BasedOk instr i)

not-IsBase-r15 : {r : Reg} → IsBase r → r ≢ reg_r15
unfolding reg_eq
not-IsBase-r15 b e = cc (rw e at (tests-of_IsBase b))

ctx_iff :
    (opts : Options) (r : Reg)
    → ((opts.ctxreg && reg_eq r reg_r15) ≡ true) ↔ ((opts.ctxreg ≡ true) × (r ≡ reg_r15))
ctx_iff opts r = ground (arith, reg_eq_iff r reg_r15)

addrsize-Passes :
    (n : ℕ) (instr : Inst) (m : String) (v : Verifier)
    → Passes (instr.addrsize ≡ n) v (verr_if (instr.addrsize != n) instr m v)
addrsize-Passes n instr m v = tested (number_iff instr.addrsize n) instr m v

chkmem_seg-Passes :
    (seg : Segment) (instr : Inst) (i : ℕ) (v : Verifier)
    → Passes (SegOk seg v.opts instr i) v (chkmem_seg seg instr i v)
unfolding chkmem_seg
chkmem_seg-Passes seg_gs instr i v = addrsize-Passes 4 instr _ v
chkmem_seg-Passes seg_fs instr i v = verr-Passes instr _ v
chkmem_seg-Passes seg_other instr i v =
    elim (Bool-cases (v.opts.ctxreg && reg_eq (instr.op i).base reg_r15)) [
      | inl e ↦
          let (c, b) = (ctx_iff v.opts (instr.op i).base).0 e in
          rw e (
            Passes-iff (λ t. (t.0, inl (c, b, t.1)), λ t. (t.0, ctx_part b t.1))
              (Passes-trans (addrsize-Passes 8 instr _ v) (chkmem_ctx-Passes instr i _)))
      | inr e ↦ rw e (
          Passes-iff (λ t. (t.0, inr t.1), λ t. (t.0, base_part e t.1))
            (Passes-trans (addrsize-Passes 8 instr _ v) (chkmem_base-Passes instr i _)))
    ]
  where
    ctx_part :
        (instr.op i).base ≡ reg_r15
        → ((v.opts.ctxreg ≡ true) × ((instr.op i).base ≡ reg_r15) × CtxOk instr i) ⊎ BasedOk instr i
        → CtxOk instr i
    ctx_part b (inl t) = t.2
    ctx_part b (inr t) = absurd (not-IsBase-r15 t.0 b)

    base_part :
        (v.opts.ctxreg && reg_eq (instr.op i).base reg_r15) ≡ false
        → ((v.opts.ctxreg ≡ true) × ((instr.op i).base ≡ reg_r15) × CtxOk instr i) ⊎ BasedOk instr i
        → BasedOk instr i
    base_part e (inl t) = absurd (cc (e, (ctx_iff v.opts (instr.op i).base).1 (t.0, t.1)))
    base_part e (inr t) = t

module _ (opts : Options) (instr : Inst) (i : ℕ) where
  MemOk-of_SegOk :
      (seg : Segment) → instr.segment ≡ seg → SegOk seg opts instr i → MemOk opts instr i
  MemOk-of_SegOk seg_gs e h = segmented e h
  MemOk-of_SegOk seg_fs e h = absurd h
  MemOk-of_SegOk seg_other e (a, inl t) = context e a t.0 t.1 t.2.0 t.2.1 t.2.2 t.2.3
  MemOk-of_SegOk seg_other e (a, inr t) = based e a t.0 t.1

  SegOk-of_MemOk :
      is_mem (instr.op i).op_type ≡ true
      → (is_stores opts.box && leb (nmod instr) i) ≡ false
      → MemOk opts instr i
      → SegOk instr.segment opts instr i
  SegOk-of_MemOk m w (not_memory h) = absurd (h (ground arith))
  SegOk-of_MemOk m w (only_read b l) = absurd (ground arith)
  SegOk-of_MemOk m w (segmented s a) = rw s a
  SegOk-of_MemOk m w (context s a c b t z d x) = rw s (a, inl (c, b, (t, z, d, x)))
  SegOk-of_MemOk m w (based s a b x) = rw s (a, inr (b, x))

  read_ok : (is_stores opts.box && leb (nmod instr) i) ≡ true → MemOk opts instr i
  read_ok h = only_read (ground arith) (ground arith)

chkmem_op-Passes :
    (instr : Inst) (i : ℕ) (v : Verifier) → Passes (MemOk v.opts instr i) v (chkmem_op instr i v)
unfolding chkmem_op
chkmem_op-Passes instr i v = elim (Bool-cases (is_mem (instr.op i).op_type)) [
  | inr e ↦ rw e (Passes-iff (λ _. not_memory (ground arith), λ _. tt) (skip-Passes v))
  | inl m ↦ rw m (elim (Bool-cases (is_stores v.opts.box && leb (nmod instr) i)) [
    | inl r ↦ rw r (Passes-iff (λ _. read_ok v.opts instr i r, λ _. tt) (skip-Passes v))
    | inr w ↦ rw w (
        Passes-iff
          (MemOk-of_SegOk v.opts instr i instr.segment refl, SegOk-of_MemOk v.opts instr i m w)
          (chkmem_seg-Passes instr.segment instr i v))
  ])
]

-- chkmem leaves the verifier unfailed exactly if it was and the instruction is an lea or a nop or the
-- policy allows the memory access of each operand; it keeps the options, the address and the bundle
-- size.
pub chkmem-Passes :
    (instr : Inst) (v : Verifier)
    → Passes
        ((is instr.type "FDI_LEA" || is instr.type "FDI_NOP") ≡ false → EachOp (MemOk v.opts instr))
        v
        (chkmem instr v)
unfolding chkmem
chkmem-Passes instr v =
    unless-Passes (is instr.type "FDI_LEA" || is instr.type "FDI_NOP")
      (λ _. for_ops-Passes (λ o i. MemOk o instr i) (chkmem_op instr) (chkmem_op-Passes instr) v)
