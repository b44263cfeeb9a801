-- ===== src/X64/Safety/Effects.antt =====
-- The registers after an instruction that src/x64/macroinst.c tests for.
use lfi_verifier.Prelude.{
  ℕ, ◌+◌, ◌*◌, ◌/◌, ◌%◌, ◌^◌, ◌<◌, ◌≡◌, ◌≢◌, inl, inr, refl, sym, ap, ◌∙◌, true, ◌==◌, arith, add64,
  if◌then◌else◌,
}
use lfi_verifier.X64.Inst.{Reg, reg_sp, reg_r14, Inst, reg_eq_iff}
use lfi_verifier.X64.State.{Verifier}
use lfi_verifier.X64.Macro.{
  is_mask, is_add_base, is_self_mov, is_trunc, is_rebase, is_esp_op, is_lea_base,
}
use lfi_verifier.X64.Machine.{Registers, address, part, IsOr, computed, step, IsSandbox}
use lfi_verifier.X64.Safety.Steps.{
  set-other, step-value, mask_value, self_mov_value, trunc_parts, add_base_parts, rebase_parts,
  lea_base_parts,
}

-- One register gets a value, and the others keep theirs.
pub record Sets (q : Reg) (x : ℕ) (regs regs' : Registers) : Type 0 where
  pub value : regs' q ≡ x
  pub others : (p : Reg) → p ≢ q → regs' p ≡ regs p

module _ (or : ℕ → ℕ → ℕ) (other : ℕ) (i : Inst) (regs : Registers) where
  abbrev after : Registers
  after = step or other i regs

  pub step-Sets :
      {q : Reg} (x : ℕ) → (i.op 0).reg ≡ q → after (i.op 0).reg ≡ x → Sets q x regs after
  step-Sets x e h = record {
    value = ap after (sym e) ∙ h;
    others = λ p n. set-other _ regs (λ e'. n (e' ∙ e));
  }

  pub mask-Sets :
      (v : Verifier)
      → is_mask v i ≡ true
      → Sets (i.op 0).reg (regs (i.op 0).reg / 32 * 32 % 2 ^ 32) regs after
  mask-Sets v h = step-Sets _ refl (mask_value or other i regs v h)

  pub self_mov-Sets :
      (v : Verifier)
      → is_self_mov v i ≡ true
      → Sets (i.op 0).reg (regs (i.op 0).reg % 2 ^ 32) regs after
  self_mov-Sets v h = step-Sets _ refl (self_mov_value or other i regs v h)

  pub trunc-Sets : (q : Reg) → is_trunc q i ≡ true → Sets q (regs q % 2 ^ 32) regs after
  unfolding computed
  trunc-Sets q h =
      let (t, m, s, e, e') = trunc_parts or other i regs q h in
      step-Sets _ e (step-value or other i regs _ (rw (t, m, s) (ap (λ p. regs p % 2 ^ 32) e')))

  -- A 32-bit value is written to sp.
  pub esp-Sets : is_esp_op i ≡ true → (x : ℕ) × (x < 2 ^ 32) × Sets reg_sp x regs after
  unfolding is_esp_op
  esp-Sets h =
      let s : ((i.op 0).size == 4) ≡ true = ground arith in
      let e : (i.op 0).reg ≡ reg_sp = (reg_eq_iff _ _).0 (ground arith) in
      (
        computed or other i regs % 2 ^ 32,
        omega arith,
        step-Sets _ e (
            step-value or other i regs _
              (ap (λ b. computed or other i regs % (if b then 2 ^ 32 else 2 ^ 64)) s)),
      )

  module _ (base : ℕ) (sandbox : IsSandbox base) (r14 : regs reg_r14 ≡ base) where
    pub add_base-Sets :
        IsOr or
        → (q : Reg) → is_add_base q i ≡ true
        → regs q < 2 ^ 32
        → Sets q (base + regs q) regs after
    unfolding computed
    add_base-Sets law q h l =
        let (t, m, s, e, e') = add_base_parts or other i regs q h in
        let fits = sandbox.room_above in
        step-Sets _ e (
          step-value or other i regs _ (elim t [
            | inl add ↦
                rw (add, m, s)
                  (ap (λ p. (regs p + regs (i.op 1).reg) % 2 ^ 64) e
                    ∙ ap (λ p. (regs q + regs p) % 2 ^ 64) e'
                    ∙ omega arith)
            | inr both ↦
                let sum = law.apart (regs q) base l sandbox.aligned in
                rw (both, m, s)
                  (ap (λ p. or (regs p) (regs (i.op 1).reg) % 2 ^ 64) e
                    ∙ ap (λ p. or (regs q) (regs p) % 2 ^ 64) e'
                    ∙ ap (λ b. or (regs q) b % 2 ^ 64) r14
                    ∙ omega (arith, sum))
          ]))

    pub rebase-Sets :
        (q : Reg)
        → part regs q ≡ regs q
        → i.addrsize ≡ 8
        → is_rebase q i ≡ true
        → regs q < 2 ^ 32
        → Sets q (base + regs q) regs after
    unfolding computed address add64
    rebase-Sets q p a h l =
        let (t, s, e, b, x, d, c) = rebase_parts or other i regs q h in
        let fits = sandbox.room_above in
        step-Sets _ e (step-value or other i regs _ (rw (t, s, a, b, x, d, c) (omega arith)))

    pub lea_base-Sets :
        i.addrsize ≡ 8
        → is_lea_base i ≡ true
        → regs reg_sp < 2 ^ 32
        → Sets reg_sp (base + regs reg_sp) regs after
    unfolding computed address add64
    lea_base-Sets a h l =
        let (t, s, e, b, x, d, c) = lea_base_parts or other i regs h in
        let fits = sandbox.room_above in
        step-Sets _ e (step-value or other i regs _ (rw (t, s, a, b, x, d, c) (omega arith)))
