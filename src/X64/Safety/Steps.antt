-- ===== src/X64/Safety/Steps.antt =====
-- What the instructions that src/x64/macroinst.c tests for do to the registers.
use lfi_verifier.Prelude.{
  ℕ, ◌*◌, ◌/◌, ◌%◌, ◌^◌, ◌≡◌, ◌≢◌, ◌⊎◌, inl, inr, refl, sym, ap, ◌∙◌, true, false, ◌&&◌, ◌==◌, is,
  eq_iff, Bool-cases, arith, if◌then◌else◌,
}
use lfi_verifier.X64.Inst.{Reg, reg_sp, reg_r14, Inst, is_reg, is_imm, reg_eq, reg_eq_iff}
use lfi_verifier.X64.State.{Verifier}
use lfi_verifier.X64.Check.{reserved}
use lfi_verifier.X64.Macro.{
  is_mask, is_add_base, mask_add, is_self_mov, is_trunc, is_rebase, assert_reg, is_lea_base,
}
use lfi_verifier.X64.Machine.{Registers, set, computed, kept, step}

set-same : (r : Reg) (x : ℕ) (regs : Registers) → set r x regs r ≡ x
unfolding set
set-same r x regs = ap (λ b. if b then x else regs r) ((reg_eq_iff r r).1 refl)

pub set-other : {r q : Reg} (x : ℕ) (regs : Registers) → q ≢ r → set r x regs q ≡ regs q
unfolding set
set-other {r} {q} x regs n = elim (Bool-cases (reg_eq q r)) [
  | inl e ↦ absurd (n ((reg_eq_iff q r).0 e))
  | inr e ↦ ap (λ b. if b then x else regs q) e
]

module _ (or : ℕ → ℕ → ℕ) (other : ℕ) (i : Inst) (regs : Registers) where
  abbrev r : Reg
  r = (i.op 0).reg

  -- The value of the register that is written.
  pub step-value : (x : ℕ) → computed or other i regs % kept or i ≡ x → step or other i regs r ≡ x
  step-value x h = set-same r _ regs ∙ h

  pub mask_parts :
      (v : Verifier)
      → is_mask v i ≡ true
      → (i.type ≡ "FDI_AND")
        × (((i.op 0).size == 4) ≡ true)
        × ((is_imm (i.op 1).op_type && (i.op 1).imm == 0xffffffffffffffe0) ≡ true)
        × (reserved v.opts i 0 ≡ false)
  unfolding is_mask
  mask_parts v h =
      ((eq_iff i.type "FDI_AND").0 (ground arith), ground arith, ground arith, ground arith)

  pub mask_value :
      (v : Verifier) → is_mask v i ≡ true → step or other i regs r ≡ regs r / 32 * 32 % 2 ^ 32
  unfolding computed
  mask_value v h = let (t, s, m, _) = mask_parts v h in step-value _ (rw (t, m, s) refl)

  pub self_mov_parts :
      (v : Verifier)
      → is_self_mov v i ≡ true
      → (i.type ≡ "FDI_MOV")
        × (is_reg (i.op 1).op_type ≡ true)
        × (((i.op 0).size == 4) ≡ true)
        × ((i.op 0).reg ≡ (i.op 1).reg)
        × (reserved v.opts i 0 ≡ false)
  unfolding is_self_mov
  self_mov_parts v h = (
    (eq_iff i.type "FDI_MOV").0 (ground arith),
    ground arith,
    ground arith,
    (reg_eq_iff _ _).0 (ground arith),
    ground arith,
  )

  pub self_mov_value :
      (v : Verifier) → is_self_mov v i ≡ true → step or other i regs r ≡ regs r % 2 ^ 32
  unfolding computed
  self_mov_value v h =
      let (t, m, s, e, _) = self_mov_parts v h in
      step-value _ (rw (t, m, s) (ap (λ q. regs q % 2 ^ 32) (sym e)))

  pub trunc_parts :
      (q : Reg)
      → is_trunc q i ≡ true
      → (i.type ≡ "FDI_MOV")
        × (is_reg (i.op 1).op_type ≡ true)
        × (((i.op 0).size == 4) ≡ true)
        × ((i.op 0).reg ≡ q)
        × ((i.op 1).reg ≡ q)
  unfolding is_trunc assert_reg
  trunc_parts q h = (
    (eq_iff i.type "FDI_MOV").0 (ground arith),
    ground arith,
    ground arith,
    (reg_eq_iff _ _).0 (ground arith),
    (reg_eq_iff _ _).0 (ground arith),
  )

  pub add_base_parts :
      (q : Reg)
      → is_add_base q i ≡ true
      → ((i.type ≡ "FDI_ADD") ⊎ (i.type ≡ "FDI_OR"))
        × (is_reg (i.op 1).op_type ≡ true)
        × (((i.op 0).size == 4) ≡ false)
        × ((i.op 0).reg ≡ q)
        × ((i.op 1).reg ≡ reg_r14)
  unfolding is_add_base mask_add
  add_base_parts q h = (
    elim (Bool-cases (is i.type "FDI_ADD")) [
      | inl t ↦ inl ((eq_iff i.type "FDI_ADD").0 t)
      | inr n ↦ inr ((eq_iff i.type "FDI_OR").0 (ground arith))
    ],
    ground arith,
    ground arith,
    (reg_eq_iff _ _).0 (ground arith),
    (reg_eq_iff _ _).0 (ground arith),
  )

  pub rebase_parts :
      (q : Reg)
      → is_rebase q i ≡ true
      → (i.type ≡ "FDI_LEA")
        × (((i.op 0).size == 4) ≡ false)
        × ((i.op 0).reg ≡ q)
        × ((i.op 1).base ≡ reg_r14)
        × ((i.op 1).index ≡ q)
        × ((i.op 1).disp ≡ 0)
        × ((i.op 1).scale ≡ 0)
  unfolding is_rebase assert_reg
  rebase_parts q h = (
    (eq_iff i.type "FDI_LEA").0 (ground arith),
    ground arith,
    (reg_eq_iff _ _).0 (ground arith),
    (reg_eq_iff _ _).0 (ground arith),
    (reg_eq_iff _ _).0 (ground arith),
    ground arith,
    ground arith,
  )

  pub lea_base_parts :
      is_lea_base i ≡ true
      → (i.type ≡ "FDI_LEA")
        × (((i.op 0).size == 4) ≡ false)
        × ((i.op 0).reg ≡ reg_sp)
        × ((i.op 1).base ≡ reg_sp)
        × ((i.op 1).index ≡ reg_r14)
        × ((i.op 1).disp ≡ 0)
        × ((i.op 1).scale ≡ 0)
  unfolding is_lea_base
  lea_base_parts h = (
    (eq_iff i.type "FDI_LEA").0 (ground arith),
    ground arith,
    (reg_eq_iff _ _).0 (ground arith),
    (reg_eq_iff _ _).0 (ground arith),
    (reg_eq_iff _ _).0 (ground arith),
    ground arith,
    ground arith,
  )
