-- ===== src/Arm64/Safety/Operands.antt =====
-- okmemop, fixedreg and the context register test of src/arm64/verify.c against the policy.
use lfi_verifier.Prelude.{
  ℕ, ◌≡◌, ◌≢◌, ◌↔◌, inl, inr, refl, sym, ap, ◌∙◌, false≢true, Bool, true, false, not, ◌&&◌, ◌||◌,
  arith, eq_iff, one_of, ◌==◌, Bool-cases, if◌then◌else◌,
}
use lfi_verifier.Options.{Options, box_stores, is_stores}
use lfi_verifier.Arm64.Inst.{
  OpType, op_memuoff, op_memsoff, op_memsoffpre, op_memsoffpost, op_memreg, op_memregpost,
  op_meminc, op_reggp, op_reggpinc, op_reggpext, op_regsp, op_sysreg, op_other, Op, Inst, is_uxtw,
  is_memuoff, is_memsoff,
}
use lfi_verifier.Arm64.Regs.{
  ctxreg_tp_offset, rtsysreg, basereg, ctxreg, fixedreg, ldstreg, okrtcallimm, okmemop_as, okmemop,
  ok_ctxreg_ldst,
}
use lfi_verifier.Arm64.Policy.{
  IsAddress, address, stack, IsFixed, base, context, IsOffset, unsigned, signed, IsUpdate, pre,
  post, is_memory, MemOk, not_memory, free_offset, free_register, free_update, runtime_slot,
  context_slot, at_address, register_offset, ContextOk,
}

pub fixedreg_iff : (opts : Options) (r : ℕ) → (fixedreg opts r ≡ true) ↔ IsFixed opts r
unfolding fixedreg ctxreg
fixedreg_iff opts r = (to, of)
  where
    to : fixedreg opts r ≡ true → IsFixed opts r
    to h = elim (Bool-cases (r == 27)) [
      | inl e ↦ base (ground arith)
      | inr e ↦ context (ground arith) (ground arith)
    ]

    of : IsFixed opts r → fixedreg opts r ≡ true
    of (base e) = ground arith
    of (context c e) = ground arith

free-IsFixed : (opts : Options) (r : ℕ) → (not (fixedreg opts r) ≡ true) ↔ (¬ IsFixed opts r)
free-IsFixed opts r = (
  λ h f. cc (h, (fixedreg_iff opts r).1 f),
  λ n. elim (Bool-cases (fixedreg opts r)) [
    | inl f ↦ absurd (n ((fixedreg_iff opts r).0 f))
    | inr f ↦ rw f
  ],
)

ldstreg_iff : (r : ℕ) → (ldstreg r true ≡ true) ↔ IsAddress r
unfolding ldstreg
ldstreg_iff r = (to, of)
  where
    to : ldstreg r true ≡ true → IsAddress r
    to h = elim (Bool-cases (r == 31)) [
      | inl e ↦ stack (ground arith)
      | inr e ↦ address (ground arith)
    ]

    of : IsAddress r → ldstreg r true ≡ true
    of (address e) = ground arith
    of (stack e) = ground arith

module _ (opts : Options) (op : Op) (load : Bool) where
  abbrev free : Bool
  free = load && is_stores opts.box

  free_iff : (free ≡ true) ↔ ((opts.box ≡ box_stores) × (load ≡ true))
  free_iff = (λ h. (ground arith, ground arith), λ h. ground arith)

  abbrev offset_test : Bool
  offset_test =
      if free
      then true
      else if rtsysreg op.reg && okrtcallimm op.simm16
      then true
      else if ctxreg opts op.reg
      then op.uimm16 == ctxreg_tp_offset
      else ldstreg op.reg true

  offset_to : IsOffset op.type → offset_test ≡ true → MemOk opts op load
  unfolding rtsysreg ctxreg
  offset_to k h = elim (Bool-cases free) [
    | inl f ↦ let (b, l) = free_iff.0 f in free_offset b l k
    | inr f ↦ elim (Bool-cases (rtsysreg op.reg && okrtcallimm op.simm16)) [
      | inl r ↦ runtime_slot k (ground arith) (ground arith)
      | inr r ↦ elim (Bool-cases (ctxreg opts op.reg)) [
        | inl c ↦ context_slot k (ground arith) (ground arith) (ground arith)
        | inr c ↦ at_address (inl k) ((ldstreg_iff op.reg).0 (ground arith))
      ]
    ]
  ]

  update_to :
      IsUpdate op.type
      → (if free then not (fixedreg opts op.reg) else ldstreg op.reg true) ≡ true
      → MemOk opts op load
  update_to k h = elim (Bool-cases free) [
    | inl f ↦
        let (b, l) = free_iff.0 f in
        free_update b l (inl k) ((free-IsFixed opts op.reg).0 (rw f at h))
    | inr f ↦ at_address (inr k) ((ldstreg_iff op.reg).0 (rw f at h))
  ]

  MemOk-of_test : (t : OpType) → op.type ≡ t → okmemop_as t opts op free ≡ true → MemOk opts op load
  unfolding okmemop_as basereg
  MemOk-of_test op_memuoff e h = offset_to (rw e unsigned) h
  MemOk-of_test op_memsoff e h = offset_to (rw e signed) h
  MemOk-of_test op_memsoffpre e h = update_to (rw e pre) h
  MemOk-of_test op_memsoffpost e h = update_to (rw e post) h
  MemOk-of_test op_memreg e h = elim (Bool-cases free) [
    | inl f ↦ let (b, l) = free_iff.0 f in free_register b l e
    | inr f ↦ register_offset e (ground arith) (ground arith) (ground arith)
  ]
  MemOk-of_test op_memregpost e h = absurd (false≢true h)
  MemOk-of_test op_meminc e h = elim (Bool-cases free) [
    | inl f ↦
        let (b, l) = free_iff.0 f in
        free_update b l (inr e) ((free-IsFixed opts op.reg).0 (rw f at h))
    | inr f ↦ absurd (false≢true (rw f at h))
  ]
  MemOk-of_test op_reggp e h = not_memory (rw e)
  MemOk-of_test op_reggpinc e h = not_memory (rw e)
  MemOk-of_test op_reggpext e h = not_memory (rw e)
  MemOk-of_test op_regsp e h = not_memory (rw e)
  MemOk-of_test op_sysreg e h = not_memory (rw e)
  MemOk-of_test op_other e h = not_memory (rw e)

  offset_eq : {t : OpType} → IsOffset t → okmemop_as t opts op free ≡ offset_test
  unfolding okmemop_as
  offset_eq unsigned = refl
  offset_eq signed = refl

  update_eq :
      {t : OpType}
      → IsUpdate t
      → okmemop_as t opts op free
        ≡ (if free then not (fixedreg opts op.reg) else ldstreg op.reg true)
  unfolding okmemop_as
  update_eq pre = refl
  update_eq post = refl

  IsAddress-not-IsFixed : IsAddress op.reg → ¬ IsFixed opts op.reg
  IsAddress-not-IsFixed (address a) (base b) = omega arith
  IsAddress-not-IsFixed (stack a) (base b) = omega arith
  IsAddress-not-IsFixed (address a) (context _ b) = omega arith
  IsAddress-not-IsFixed (stack a) (context _ b) = omega arith

  address_offset : IsAddress op.reg → offset_test ≡ true
  unfolding ctxreg rtsysreg
  address_offset a = ground (arith, (ldstreg_iff op.reg).1 a, not_ctx a)
    where
      not_ctx : IsAddress op.reg → op.reg ≢ 25
      not_ctx (address a) b = omega arith
      not_ctx (stack a) b = omega arith

  address_update :
      IsAddress op.reg → (if free then not (fixedreg opts op.reg) else ldstreg op.reg true) ≡ true
  address_update a = elim (Bool-cases free) [
    | inl f ↦ rw f ((free-IsFixed opts op.reg).1 (IsAddress-not-IsFixed a))
    | inr f ↦ rw f ((ldstreg_iff op.reg).1 a)
  ]

  inc_eq : okmemop_as op_meminc opts op free ≡ (if free then not (fixedreg opts op.reg) else false)
  unfolding okmemop_as
  inc_eq = refl

  register_eq :
      okmemop_as op_memreg opts op free
      ≡ (if free then true else basereg op.reg && (is_uxtw op.memreg_ext && op.memreg_sc == 0))
  unfolding okmemop_as
  register_eq = refl

  other_test : (t : OpType) → is_memory t ≡ false → okmemop_as t opts op free ≡ true
  unfolding okmemop_as
  other_test op_reggp h = refl
  other_test op_reggpinc h = refl
  other_test op_reggpext h = refl
  other_test op_regsp h = refl
  other_test op_sysreg h = refl
  other_test op_other h = refl
  other_test _ h = absurd (false≢true (sym h))

  test-of_MemOk : MemOk opts op load → okmemop_as op.type opts op free ≡ true
  unfolding rtsysreg ctxreg basereg
  test-of_MemOk (not_memory h) = other_test op.type h
  test-of_MemOk (free_offset b l k) = offset_eq k ∙ ground (arith, free_iff.1 (b, l))
  test-of_MemOk (free_register b l e) =
      ap (λ t. okmemop_as t opts op free) e ∙ register_eq ∙ ground (arith, free_iff.1 (b, l))
  test-of_MemOk (free_update b l (inl k) n) =
      update_eq k ∙ rw (free_iff.1 (b, l)) ((free-IsFixed opts op.reg).1 n)
  test-of_MemOk (free_update b l (inr e) n) =
      ap (λ t. okmemop_as t opts op free) e
      ∙ inc_eq
      ∙ rw (free_iff.1 (b, l)) ((free-IsFixed opts op.reg).1 n)
  test-of_MemOk (runtime_slot k r s) = offset_eq k ∙ ground arith
  test-of_MemOk (context_slot k c r u) = offset_eq k ∙ ground arith
  test-of_MemOk (at_address (inl k) a) = offset_eq k ∙ address_offset a
  test-of_MemOk (at_address (inr k) a) = update_eq k ∙ address_update a
  test-of_MemOk (register_offset e r x s) =
      ap (λ t. okmemop_as t opts op free) e ∙ register_eq ∙ ground arith

  pub okmemop_iff : (not (okmemop opts op load) ≡ false) ↔ MemOk opts op load
  unfolding okmemop
  okmemop_iff = (λ h. MemOk-of_test op.type refl (ground arith), λ k. rw (test-of_MemOk k))

module _ (opts : Options) (dinst : Inst) (op : Op) where
  pub ctx_iff :
      (((is_memuoff op.type || is_memsoff op.type)
          && (ctxreg opts op.reg && not (ok_ctxreg_ldst dinst)))
        ≡ false)
      ↔ ContextOk opts dinst op
  unfolding ctxreg ok_ctxreg_ldst one_of
  ctx_iff = (to, of)
    where
      offset_type : {t : OpType} → IsOffset t → (is_memuoff t || is_memsoff t) ≡ true
      offset_type unsigned = refl
      offset_type signed = refl

      to :
          ((is_memuoff op.type || is_memsoff op.type)
              && (ctxreg opts op.reg && not (ok_ctxreg_ldst dinst)))
            ≡ false
          → ContextOk opts dinst op
      to h k c r = ground (
        arith,
        offset_type k,
        eq_iff dinst.mnem "DA64I_LDR_IMM",
        eq_iff dinst.mnem "DA64I_STR_IMM",
      )

      offset_of : (t : OpType) → (is_memuoff t || is_memsoff t) ≡ true → IsOffset t
      offset_of op_memuoff h = unsigned
      offset_of op_memsoff h = signed
      offset_of _ h = absurd (false≢true h)

      of :
          ContextOk opts dinst op
          → ((is_memuoff op.type || is_memsoff op.type)
              && (ctxreg opts op.reg && not (ok_ctxreg_ldst dinst)))
            ≡ false
      of k = elim (Bool-cases (is_memuoff op.type || is_memsoff op.type)) [
        | inr o ↦ rw o
        | inl o ↦ elim (Bool-cases (ctxreg opts op.reg)) [
          | inr c ↦ ground arith
          | inl c ↦ ground (
            arith,
            k (offset_of op.type o) (ground arith) (ground arith),
            eq_iff dinst.mnem "DA64I_LDR_IMM",
            eq_iff dinst.mnem "DA64I_STR_IMM",
          )
        ]
      ]
