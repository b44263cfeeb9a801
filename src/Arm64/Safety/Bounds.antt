-- ===== src/Arm64/Safety/Bounds.antt =====
-- okmemop and okmod of src/arm64/verify.c, read by the addresses that the machine computes.
use lfi_verifier.Prelude.{
  ◌↔◌, eq_iff, ap, Bool, Bool-cases, ℕ, ◌%◌, ◌^◌, ◌≤◌, ◌<◌, ◌≡◌, ◌⊎◌, inl, inr, refl, sym, ◌∙◌,
  subst, true, false, not, arith, add64, false≢true, ltb, ◌==◌,
}
use lfi_verifier.Options.{Options, box_full, box_stores}
use lfi_verifier.Arm64.Inst.{
  OpType, op_memreg, Ext, ext_uxtw, ext_other, is_uxtw, op_regsp, Inst, Op,
}
use lfi_verifier.Arm64.Regs.{addrreg, cfreg, basereg, okmemop, ctxreg_tp_offset}
use lfi_verifier.Arm64.Policy.{
  IsAddress, stack, IsOffset, unsigned, signed, IsUpdate, pre, post, WriteOk, no_register, free,
  guarded, MemOk, not_memory, free_offset, free_register, free_update, runtime_slot, context_slot,
  at_address, register_offset, is_memory,
}
use lfi_verifier.Arm64.Policy.{address as at_x28}
use lfi_verifier.Arm64.State.{Verifier}
use lfi_verifier.Arm64.Check.{is_gp, okmod, is_addr_guard}
use lfi_verifier.Arm64.Safety.Writes.{okmod_iff}
use lfi_verifier.Arm64.Address.{
  Registers, base_value, sext16, address_as, address, Encoded, Sandboxed, Near, Inside, add_ext,
}
use lfi_verifier.Arm64.Safety.Operands.{okmemop_iff}

free_excluded :
    (opts : Options) (load : Bool)
    → (opts.box ≡ box_full) ⊎ (load ≡ false)
    → opts.box ≡ box_stores
    → load ≡ true
    → ⊥
free_excluded opts load (inl f) b l = cc (sym f ∙ b)
free_excluded opts load (inr f) b l = false≢true (sym f ∙ l)

module _ (base : ℕ) (regs : Registers) (s : Sandboxed base regs) where
  Inside-Near : (a : ℕ) → Inside base a → Near base a
  Inside-Near a h = (omega arith, omega arith)

  unsigned-Near : (a n : ℕ) → Inside base a → n < 2 ^ 16 → Near base (add64 a n)
  unfolding add64
  unsigned-Near a n h l = (omega (arith, s.room_above), omega (arith, s.room_above))

  signed-Near : (a n : ℕ) → Inside base a → n < 2 ^ 16 → Near base (add64 a (sext16 n))
  unfolding add64
  signed-Near a n h l = elim (Bool-cases (ltb n (2 ^ 15))) [
    | inl e ↦ rw e (omega (arith, s.room_above), omega (arith, s.room_above))
    | inr e ↦
        let m : 2 ^ 15 ≤ n = ground arith in
        rw e (omega (arith, s.room_above, s.room_below), omega (arith, s.room_above, s.room_below))
  ]

  IsAddress-Inside : (r : ℕ) → IsAddress r → Inside base (base_value regs r)
  IsAddress-Inside r (at_x28 e) = rw e (s.x28_min, s.x28_max)
  IsAddress-Inside r (stack e) = rw e (s.sp_min, s.sp_max)

  base-Inside : (r : ℕ) → r ≡ 27 → Inside base (base_value regs r)
  base-Inside r e = rw (e, s.x27) (omega arith, omega arith)

  register-Near : (off : ℕ) → Near base (add64 base (off % 2 ^ 32))
  unfolding add64
  register-Near off = (omega (arith, s.room_above), omega (arith, s.room_above))

  sum-Inside : (off : ℕ) → Inside base (add64 base (off % 2 ^ 32) % 2 ^ 64)
  unfolding add64
  sum-Inside off = (omega (arith, s.room_above), omega (arith, s.room_above))

  module _ (off : ℕ) (op : Op) (enc : Encoded op) where
    offset-Near :
        {t : OpType}
        → IsOffset t
        → Inside base (base_value regs op.reg)
        → Near base (address_as t regs off op)
    unfolding address_as
    offset-Near unsigned h = unsigned-Near (base_value regs op.reg) op.uimm16 h enc.uimm16_max
    offset-Near signed h = signed-Near (base_value regs op.reg) op.simm16 h enc.simm16_max

    update-Near :
        {t : OpType}
        → IsUpdate t
        → Inside base (base_value regs op.reg)
        → Near base (address_as t regs off op)
    unfolding address_as
    update-Near pre h = signed-Near (base_value regs op.reg) op.simm16 h enc.simm16_max
    update-Near post h = Inside-Near (base_value regs op.reg) h

    register_offset-Near :
        op.type ≡ op_memreg
        → op.reg ≡ 27
        → op.memreg_ext ≡ ext_uxtw
        → op.memreg_sc ≡ 0
        → Near base (address regs off op)
    unfolding address_as
    register_offset-Near t e x c =
        rw (t, e, s.x27, x, c)
          (subst (λ n. Near base (add64 base n)) (omega arith) (register-Near off))

    MemOk-Near :
        (opts : Options) (load : Bool)
        → (opts.box ≡ box_full) ⊎ (load ≡ false)
        → is_memory op.type ≡ true
        → MemOk opts op load
        → Near base (address regs off op)
          ⊎ ((opts.ctxreg ≡ true) × (op.reg ≡ 25) × (op.uimm16 ≡ ctxreg_tp_offset))
    MemOk-Near opts load m t (not_memory h) = absurd (false≢true (sym h ∙ t))
    MemOk-Near opts load m t (free_offset b l _) = absurd (free_excluded opts load m b l)
    MemOk-Near opts load m t (free_register b l _) = absurd (free_excluded opts load m b l)
    MemOk-Near opts load m t (free_update b l _ _) = absurd (free_excluded opts load m b l)
    MemOk-Near opts load m t (runtime_slot o e _) = inl (offset-Near o (base-Inside op.reg e))
    MemOk-Near opts load m t (context_slot o c e u) = inr (c, e, u)
    MemOk-Near opts load m t (at_address (inl o) a) =
        inl (offset-Near o (IsAddress-Inside op.reg a))
    MemOk-Near opts load m t (at_address (inr o) a) =
        inl (update-Near o (IsAddress-Inside op.reg a))
    MemOk-Near opts load m t (register_offset ty e x c) = inl (register_offset-Near ty e x c)

-- A memory operand that okmemop accepts, in a full sandbox or where the instruction is no load, either
-- accesses an address in the 4 GiB of the sandbox, the 32 KiB below or the 64 KiB above it, if the
-- registers are as the sandbox keeps them, or has the context register for its base with the offset of
-- the thread pointer.
pub okmemop-Near :
    (base : ℕ) (regs : Registers) (off : ℕ) (opts : Options) (op : Op) (load : Bool)
    → Sandboxed base regs
    → Encoded op
    → (opts.box ≡ box_full) ⊎ (load ≡ false)
    → is_memory op.type ≡ true
    → okmemop opts op load ≡ true
    → Near base (address regs off op)
      ⊎ ((opts.ctxreg ≡ true) × (op.reg ≡ 25) × (op.uimm16 ≡ ctxreg_tp_offset))
okmemop-Near base regs off opts op load s enc m t h =
    MemOk-Near base regs s off op enc opts load m t ((okmemop_iff opts op load).0 (ap not h))

uxtw_iff : (e : Ext) → (is_uxtw e ≡ true) ↔ (e ≡ ext_uxtw)
uxtw_iff ext_uxtw = (λ _. refl, λ _. refl)
uxtw_iff ext_other = (λ h. absurd (false≢true h), λ h. cc)

-- What the guard instruction may write.
abbrev pub IsGuardDest : ℕ → Type 0
IsGuardDest r = (r ≡ 28) ⊎ (r ≡ 30) ⊎ (r ≡ 31)

guard_dest : (r : ℕ) → addrreg r true ≡ true → IsGuardDest r
unfolding addrreg cfreg
guard_dest r h = elim (Bool-cases (r == 28)) [
  | inl a ↦ inl (ground arith)
  | inr a ↦ elim (Bool-cases (r == 30)) [
    | inl b ↦ inr (inl (ground arith))
    | inr b ↦ inr (inr (ground arith))
  ]
]

-- The parts of the guard instruction that decide what it computes.
is_addr_guard_parts :
    (dinst : Inst)
    → is_addr_guard dinst ≡ true
    → (dinst.mnem ≡ "DA64I_ADD_EXT")
      × ((dinst.ops 1).reg ≡ 27)
      × ((dinst.ops 2).reggpext_ext ≡ ext_uxtw)
      × ((dinst.ops 2).reggpext_shift ≡ 0)
      × ((dinst.ops 0).reggp_sf ≡ 1)
      × IsGuardDest (dinst.ops 0).reg
unfolding is_addr_guard basereg addrreg cfreg
is_addr_guard_parts dinst h = (
  (eq_iff dinst.mnem "DA64I_ADD_EXT").0 (ground arith),
  ground arith,
  (uxtw_iff (dinst.ops 2).reggpext_ext).0 (ground arith),
  ground arith,
  ground arith,
  guard_dest (dinst.ops 0).reg (ground arith),
)

-- Where okmod accepts a write to x28, or to sp by an operand of its kind, the instruction is an add
-- of an extended register to x28, x30 or sp, and the value that it writes, which the size of its
-- destination cuts, is an address in the 4 GiB of the sandbox, if the registers are as the sandbox
-- keeps them.
pub okmod-Inside :
    (base : ℕ) (regs : Registers) (off : ℕ) (dinst : Inst) (op : Op) (v : Verifier)
    → Sandboxed base regs
    → is_gp op.type ≡ true
    → (op.reg ≡ 28) ⊎ ((op.type ≡ op_regsp) × (op.reg ≡ 31))
    → (okmod dinst op v).0 ≡ true
    → (dinst.mnem ≡ "DA64I_ADD_EXT")
      × IsGuardDest (dinst.ops 0).reg
      × Inside base (add_ext regs off dinst)
okmod-Inside base regs off dinst op v s g w h = accepted ((okmod_iff dinst op v).0 h)
  where
    accepted :
        WriteOk v.opts dinst op
        → (dinst.mnem ≡ "DA64I_ADD_EXT")
          × IsGuardDest (dinst.ops 0).reg
          × Inside base (add_ext regs off dinst)
    accepted (no_register n) = absurd (false≢true (sym n ∙ g))
    accepted (free _ n m) = elim w [ inl e ↦ absurd (n e) | inr (t, e) ↦ absurd (m t e) ]
    accepted (guarded _ a) =
        let (m, r, x, c, sf, dest) = is_addr_guard_parts dinst a in
        (
          m,
          dest,
          rw (sf, r, s.x27, x, c)
              (subst (λ n. Inside base (add64 base n % 2 ^ 64)) (omega arith)
                (sum-Inside base regs s off)),
        )
