-- ===== src/Arm64/Safety/System.antt =====
-- chksys of src/arm64/verify.c against the policy for system instructions.
use lfi_verifier.Prelude.{
  ℕ, ◌≡◌, ◌↔◌, inl, inr, refl, sym, ◌∙◌, false≢true, names_apart, Bool, true, false, not, ◌||◌,
  String, arith, eq_iff, is, one_of, ◌!=◌, Bool-cases, require-eq-some,
}
use lfi_verifier.Arm64.Inst.{OpType, op_sysreg, Inst, is_reggp, is_sysreg}
use lfi_verifier.Arm64.State.{Verifier}
use lfi_verifier.Arm64.Regs.{reg_addr, sysreg, sys_dc_zva}
use lfi_verifier.Arm64.Check.{chksys}
use lfi_verifier.Arm64.Passes.{verr-Keeps, skip-Keeps, tested, Passes-iff, Checks, some-Checks}
use lfi_verifier.Arm64.Policy.{SysOk, no_system, write_sysreg, read_sysreg, zero_line, system_mnems}

none_iff :
    (m : String)
    → (one_of system_mnems m ≡ false)
      ↔ ((is m "DA64I_MSR" ≡ false) × (is m "DA64I_MRS" ≡ false) × (is m "DA64I_SYS" ≡ false))
unfolding one_of
none_iff m = (λ h. (ground arith, ground arith, ground arith), λ h. ground arith)

not_iff : (b : Bool) → (not b ≡ false) ↔ (b ≡ true)
not_iff b = ground arith

pub zva_iff :
    (t : OpType) (r : ℕ)
    → ((not (is_sysreg t) || r != sys_dc_zva) ≡ false) ↔ ((t ≡ op_sysreg) × (r ≡ sys_dc_zva))
zva_iff t r = (λ h. (ground arith, ground arith), λ h. ground arith)

-- The parts of the policy by mnemonic.
module _ (dinst : Inst) where
  msr_part : is dinst.mnem "DA64I_MSR" ≡ true → SysOk dinst → sysreg (dinst.ops 0).sysreg ≡ true
  msr_part h (no_system n) = cc (((none_iff dinst.mnem).0 n).0)
  msr_part h (write_sysreg _ s) = s
  msr_part h (read_sysreg n _) = absurd (names_apart ((eq_iff _ _).0 h) n refl)
  msr_part h (zero_line n _ _ _) = absurd (names_apart ((eq_iff _ _).0 h) n refl)

  mrs_part : is dinst.mnem "DA64I_MRS" ≡ true → SysOk dinst → sysreg (dinst.ops 1).sysreg ≡ true
  mrs_part h (no_system n) = cc (((none_iff dinst.mnem).0 n).1)
  mrs_part h (write_sysreg n _) = absurd (names_apart ((eq_iff _ _).0 h) n refl)
  mrs_part h (read_sysreg _ s) = s
  mrs_part h (zero_line n _ _ _) = absurd (names_apart ((eq_iff _ _).0 h) n refl)

  abbrev ZeroLine : Type 0
  ZeroLine =
      ((dinst.ops 0).type ≡ op_sysreg)
      × ((dinst.ops 0).sysreg ≡ sys_dc_zva)
      × ((dinst.ops 1).reg ≡ 28)

  sys_part : is dinst.mnem "DA64I_SYS" ≡ true → SysOk dinst → ZeroLine
  sys_part h (no_system n) = absurd (false≢true (sym (((none_iff dinst.mnem).0 n).2) ∙ h))
  sys_part h (write_sysreg n _) = absurd (names_apart ((eq_iff _ _).0 h) n refl)
  sys_part h (read_sysreg n _) = absurd (names_apart ((eq_iff _ _).0 h) n refl)
  sys_part h (zero_line _ t s r) = (t, s, r)

x28_iff : (r : ℕ) → ((r != reg_addr) ≡ false) ↔ (r ≡ 28)
x28_iff r = ground arith

-- Where no assert fails, chksys leaves the verifier unfailed exactly if it was and the policy allows the
-- system instruction; it keeps the guard of x30, the options and the address.
pub chksys-Checks :
    (dinst : Inst) (v : Verifier) → Checks (SysOk dinst) v.x30_guarded v (chksys dinst v)
unfolding chksys
chksys-Checks dinst v = elim (Bool-cases (is dinst.mnem "DA64I_MSR")) [
  | inl a ↦ rw a (λ w e.
      some-Checks
        (Passes-iff (write_sysreg ((eq_iff _ _).0 a), msr_part dinst a)
          (tested (not_iff (sysreg (dinst.ops 0).sysreg)) dinst "write to illegal sysreg" v))
        w (require-eq-some (is_sysreg (dinst.ops 0).type) _ e).1)
  | inr a ↦ rw a (elim (Bool-cases (is dinst.mnem "DA64I_MRS")) [
    | inl b ↦ rw b (λ w e.
        some-Checks
          (Passes-iff (read_sysreg ((eq_iff _ _).0 b), mrs_part dinst b)
            (tested (not_iff (sysreg (dinst.ops 1).sysreg)) dinst "read from illegal sysreg" v))
          w (require-eq-some (is_sysreg (dinst.ops 1).type) _ e).1)
    | inr b ↦ rw b (elim (Bool-cases (is dinst.mnem "DA64I_SYS")) [
      | inr c ↦ rw c (
          some-Checks (
            Passes-iff (λ _. no_system ((none_iff dinst.mnem).1 (a, b, c)), λ _. tt)
              (skip-Keeps v)))
      | inl c ↦
          rw c
            (elim (Bool-cases
              (not (is_sysreg (dinst.ops 0).type) || (dinst.ops 0).sysreg != sys_dc_zva)) [
                | inl x ↦ rw x (
                    some-Checks (
                      Passes-iff (absurd, λ s. wrong_line x (sys_part dinst c s))
                        (verr-Keeps dinst _ v)))
                | inr x ↦
                    let z = (zva_iff (dinst.ops 0).type (dinst.ops 0).sysreg).0 x in
                    rw x (λ w e.
                      some-Checks
                        (Passes-iff
                          (zero_line ((eq_iff _ _).0 c) z.0 z.1, λ s. (sys_part dinst c s).2)
                          (tested (x28_iff (dinst.ops 1).reg) dinst "dc zva must use x28" v))
                        w (require-eq-some (is_reggp (dinst.ops 1).type) _ e).1)
              ])
    ])
  ])
]
  where
    wrong_line :
        (not (is_sysreg (dinst.ops 0).type) || (dinst.ops 0).sysreg != sys_dc_zva) ≡ true
        → ¬ ZeroLine dinst
    wrong_line x z =
        false≢true (sym ((zva_iff (dinst.ops 0).type (dinst.ops 0).sysreg).1 (z.0, z.1)) ∙ x)
