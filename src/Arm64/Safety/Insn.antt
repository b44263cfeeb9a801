-- ===== src/Arm64/Safety/Insn.antt =====
-- vchk of src/arm64/verify.c against the policy for an instruction word.
use lfi_verifier.Prelude.{
  ℕ, ◌≡◌, ◌≢◌, ◌↔◌, inl, inr, refl, sym, subst, ◌∙◌, false≢true, true, false, ◌&&◌, none, some,
  arith, eq_iff, leb, is, ◌==◌, Bool-cases, Option-cases, some-injective, require-eq-some,
  bind-eq-some,
}
use lfi_verifier.Arm64.Inst.{Inst, Disarm}
use lfi_verifier.Arm64.State.{Verifier, verrmin, verr, verr_if}
use lfi_verifier.Arm64.Regs.{isload, is_x30_ldr_guard, nmod, okmnem}
use lfi_verifier.Arm64.Check.{chkbranch, chksys, chkmemops, writeback_reg, overwrites, chkwriteback}
use lfi_verifier.Arm64.Verify.{is_hint, chk_writes, chk_inst, vchk}
use lfi_verifier.Arm64.Passes.{
  Keeps, skip-Keeps, verr-Keeps, verrmin-Keeps, tested, Passes-iff, then-Passes, next-Passes,
  Checks, some-Checks, EachOp,
}
use lfi_verifier.Arm64.Policy.{
  SysOk, MemOk, ContextOk, WritesOk, guard_next, Checked, SafeInsn, hint, probe, checked,
  guard_step, Known,
}
use lfi_verifier.Arm64.Safety.Branches.{chkbranch-Checks}
use lfi_verifier.Arm64.Safety.System.{chksys-Checks}
use lfi_verifier.Arm64.Safety.Memory.{chkmemops-Keeps}
use lfi_verifier.Arm64.Safety.Writes.{chkmods-Passes}

abbrev Distinct : Inst → ℕ → Type 0
Distinct dinst mask = mask ≡ 3 → (dinst.ops 0).reg ≢ (dinst.ops 1).reg

Distinct-iff :
    (dinst : Inst) (mask : ℕ)
    → ((mask == 3 && (dinst.ops 0).reg == (dinst.ops 1).reg) ≡ false) ↔ Distinct dinst mask
Distinct-iff dinst mask = (λ h m e. ground arith, of)
  where
    of : Distinct dinst mask → (mask == 3 && (dinst.ops 0).reg == (dinst.ops 1).reg) ≡ false
    of h = elim (Bool-cases (mask == 3)) [ inr m ↦ rw m | inl m ↦ ground (arith, h (ground arith)) ]

abbrev Writeback : Inst → Type 0
Writeback dinst = (r : ℕ) → writeback_reg dinst ≡ some r → overwrites dinst r ≡ false

chkwriteback-Keeps :
    (dinst : Inst) (v : Verifier) → Keeps (Writeback dinst) v (chkwriteback dinst v)
unfolding chkwriteback
chkwriteback-Keeps dinst v = elim (Option-cases (writeback_reg dinst)) [
  | inl e ↦ rw (e, chkwriteback) (Passes-iff (λ _ r h. cc, λ _. tt) (skip-Keeps v))
  | inr (r, e) ↦
      rw (e, chkwriteback)
        (tested
          (λ o s h. subst (λ x. overwrites dinst x ≡ false) (some-injective _ _ h) o, λ k. k r refl)
          dinst "unpredictable writeback to register" v)
]

chk_writes-Checks :
    (mask : ℕ) (dinst : Inst) (v : Verifier)
    → Checks
        ((EachOp (WritesOk v.opts dinst mask) × Distinct dinst mask) × Writeback dinst)
        (guard_next dinst mask v.x30_guarded)
        v
        (chk_writes mask dinst v)
unfolding chk_writes
chk_writes-Checks mask dinst v w e =
    some-Checks
      (next-Passes (λ _ _. Writeback dinst) (λ _ g. g) (chkwriteback dinst)
        (chkwriteback-Keeps dinst)
        (next-Passes (λ _ _. Distinct dinst mask) (λ _ g. g)
          (verr_if (mask == 3 && (dinst.ops 0).reg == (dinst.ops 1).reg) dinst _)
          (tested (Distinct-iff dinst mask) dinst
            "simultaneous modification of the same register is unpredictable")
          (chkmods-Passes dinst mask v)))
      w (require-eq-some (leb mask 3) _ e).1

module _ (d : Disarm) where
  abbrev mask_of : Inst → ℕ
  mask_of dinst = nmod (d.da64_group dinst.mnem) dinst

  chk_inst-Checks :
      (dinst : Inst) (v : Verifier)
      → Checks
          (Checked v.opts (d.da64_group dinst.mnem) v.x30_guarded dinst)
          (guard_next dinst (mask_of dinst) v.x30_guarded)
          v
          (chk_inst d dinst v)
  unfolding chk_inst
  chk_inst-Checks dinst v w e =
      let (v₁, e₁, r₁) = bind-eq-some (chkbranch (d.da64_group dinst.mnem) dinst v) _ e in
      let (v₂, e₂, r₂) = bind-eq-some (chksys dinst v₁) _ r₁ in
      let k₂ =
        then-Passes (λ _ _. SysOk dinst) (λ _ g. g)
          (chkbranch-Checks (d.da64_group dinst.mnem) dinst v v₁ e₁)
          (chksys-Checks dinst v₁ v₂ e₂) in
      let k₃ =
        next-Passes
          (λ o _.
            EachOp (λ i. MemOk o (dinst.ops i) (isload dinst) × ContextOk o dinst (dinst.ops i)))
          (λ _ g. g) (chkmemops dinst) (chkmemops-Keeps dinst) k₂ in
      Passes-iff
        (
          λ t. record {
            branches = t.0.0.0;
            system = t.0.0.1;
            memory = t.0.1;
            writes = t.1.0.0;
            distinct = t.1.0.1;
            writeback = t.1.1;
          },
          λ c. (((c.branches, c.system), c.memory), ((c.writes, c.distinct), c.writeback)),
        )
        (then-Passes
          (λ o _.
            (EachOp (WritesOk o dinst (mask_of dinst)) × Distinct dinst (mask_of dinst))
            × Writeback dinst)
          (λ _ g. guard_next dinst (mask_of dinst) g) k₃
          (chk_writes-Checks (mask_of dinst) dinst (chkmemops dinst v₂) w r₂))

  module _ (insn : ℕ) (v : Verifier) where
    abbrev dinst : Inst
    dinst = d.da64_decode insn

    vchk_hint : is_hint insn ≡ true → vchk d insn v ≡ some v
    unfolding vchk
    vchk_hint h = rw h

    vchk_unknown :
        is_hint insn ≡ false
        → is dinst.mnem "DA64I_UNKNOWN" ≡ true
        → vchk d insn v ≡ some (verrmin none "unknown instruction" v)
    unfolding vchk
    vchk_unknown h u = rw (h, u)

    vchk_illegal :
        is_hint insn ≡ false
        → is dinst.mnem "DA64I_UNKNOWN" ≡ false
        → okmnem dinst ≡ false
        → vchk d insn v ≡ some (verr dinst "illegal instruction" v)
    unfolding vchk
    vchk_illegal h u k = rw (h, u, k)

    vchk_probe :
        is_hint insn ≡ false
        → is dinst.mnem "DA64I_UNKNOWN" ≡ false
        → okmnem dinst ≡ true
        → is_x30_ldr_guard dinst ≡ true
        → vchk d insn v ≡ some v
    unfolding vchk
    vchk_probe h u k p = rw (h, u, k, p)

    vchk_checked :
        is_hint insn ≡ false
        → is dinst.mnem "DA64I_UNKNOWN" ≡ false
        → okmnem dinst ≡ true
        → is_x30_ldr_guard dinst ≡ false
        → vchk d insn v ≡ chk_inst d dinst v
    unfolding vchk
    vchk_checked h u k p = rw (h, u, k, p)

    SafeInsn-Known : is_hint insn ≡ false → SafeInsn d v.opts v.x30_guarded insn → Known d dinst
    SafeInsn-Known h (hint t) = absurd (false≢true (sym h ∙ t))
    SafeInsn-Known h (probe _ k _) = k
    SafeInsn-Known h (checked _ k _ _) = k

    SafeInsn-Checked :
        is_hint insn ≡ false
        → is_x30_ldr_guard dinst ≡ false
        → SafeInsn d v.opts v.x30_guarded insn
        → Checked v.opts (d.da64_group dinst.mnem) v.x30_guarded dinst
    SafeInsn-Checked h p (hint t) = absurd (false≢true (sym h ∙ t))
    SafeInsn-Checked h p (probe _ _ q) = absurd (false≢true (sym p ∙ q))
    SafeInsn-Checked h p (checked _ _ _ c) = c

    -- Where no assert fails, vchk leaves the verifier unfailed exactly if it was and the policy allows
    -- the instruction word; it steps the guard of x30, and keeps the options and the address.
    pub vchk-Checks :
        Checks
          (SafeInsn d v.opts v.x30_guarded insn)
          (guard_step d insn v.x30_guarded)
          v
          (vchk d insn v)
    unfolding guard_step
    vchk-Checks = elim (Bool-cases (is_hint insn)) [
      | inl h ↦ rw (vchk_hint h, h) (some-Checks (Passes-iff (λ _. hint h, λ _. tt) (skip-Keeps v)))
      | inr h ↦ elim (Bool-cases (is dinst.mnem "DA64I_UNKNOWN")) [
        | inl u ↦
            rw (vchk_unknown h u, h, u)
              (some-Checks (
                Passes-iff (λ x. absurd x, λ s. (SafeInsn-Known h s).0 ((eq_iff _ _).0 u))
                  (verrmin-Keeps none "unknown instruction" v)))
        | inr u ↦ elim (Bool-cases (okmnem dinst)) [
          | inr k ↦
              rw (vchk_illegal h u k, h, u, k)
                (some-Checks (
                  Passes-iff (λ x. absurd x, λ s. false≢true (sym k ∙ (SafeInsn-Known h s).1))
                    (verr-Keeps dinst "illegal instruction" v)))
          | inl k ↦ elim (Bool-cases (is_x30_ldr_guard dinst)) [
            | inl p ↦
                rw (vchk_probe h u k p, h, u, k, p)
                  (some-Checks (
                    Passes-iff
                      (λ _. probe h (λ e. false≢true (sym u ∙ (eq_iff _ _).1 e), k) p, λ _. tt)
                      (skip-Keeps v)))
            | inr p ↦
                rw (vchk_checked h u k p, h, u, k, p)
                  (λ w e.
                    Passes-iff
                      (
                        λ c. checked h ((λ t. false≢true (sym u ∙ (eq_iff _ _).1 t)), k) p c,
                        SafeInsn-Checked h p,
                      )
                      (chk_inst-Checks dinst v w e))
          ]
        ]
      ]
    ]
