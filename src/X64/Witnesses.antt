-- ===== src/X64/Witnesses.antt =====
-- The theorems on the x86-64 verifier, applied to the sample code and its decoder.
use lfi_verifier.Prelude.{
  ℕ, ◌+◌, ◌^◌, if◌then◌else◌, ◌≤◌, ◌⊎◌, length, inl, ◌≡◌, ◌≢◌, ◌↔◌, [], ◌∷◌, refl, true, false,
  arith, is, ◌||◌,
}
use lfi_verifier.Options.{Options, box_stores, Relaxes}
use lfi_verifier.X64.Machine.{Registers}
use lfi_verifier.X64.Safety.Assert.{lfiv_verify_x64-ne-assert_failed}
use lfi_verifier.X64.Safety.Reports.{lfiv_verify_x64_reports}
use lfi_verifier.X64.Safety.Macros.{Run, macroinst-Run}
use lfi_verifier.X64.Safety.Cover.{lfiv_verify_x64_cover}
use lfi_verifier.X64.Safety.Modes.{lfiv_verify_x64_relax}
use lfi_verifier.X64.Inst.{Inst, reg_other, reg_r14, reg_sp, reg_eq}
use lfi_verifier.X64.Verify.{returns, assert_failed, initial, lfiv_verify_x64, chk_single}
use lfi_verifier.X64.Check.{chkmem, chkmod, chkbranch}
use lfi_verifier.X64.Policy.{EachOp, MemOk, RegOk, BranchOk, SafeInst}
use lfi_verifier.X64.Passes.{Passes}
use lfi_verifier.X64.Layout.{Bundled}
use lfi_verifier.X64.Control.{Reach, bundle_start, fall_through, UnitHere}
use lfi_verifier.X64.Safety.Memory.{chkmem-Passes}
use lfi_verifier.X64.Safety.Registers.{chkmod-Passes}
use lfi_verifier.X64.Safety.Branches.{chkbranch-Passes}
use lfi_verifier.X64.Safety.Single.{chk_single-Passes}
use lfi_verifier.X64.Safety.Entry.{lfiv_verify_x64_exact, lfiv_verify_x64_sound}
use lfi_verifier.X64.Safety.Control.{lfiv_verify_x64_control}
use lfi_verifier.X64.Tests.{
  inst, mem_op, gpr, rax, add_rax, jmp_short, and_eax, full, sample, decode, decode-laws, filtered,
  nop_decode, nop_bdd, nop_decode-laws, nop_bdd-LengthLaw, verdict,
}

lfiv_verify_x64_exact_example :
    ((lfiv_verify_x64 decode (λ _. 1) sample 0x1000 full).0 ≡ returns true)
    ↔ Bundled decode full 0x1000 sample 0
lfiv_verify_x64_exact_example =
    lfiv_verify_x64_exact decode (λ _. 1) sample 0x1000 full decode-laws (omega arith) refl

lfiv_verify_x64_sound_example : Bundled decode full 0x1000 sample 0
unfolding verdict
lfiv_verify_x64_sound_example =
    lfiv_verify_x64_sound decode (λ _. 1) sample 0x1000 full decode-laws (omega arith) refl

-- The nop behind the masked jump is reached, by falling through a bundle's first unit.
nop_reached : Reach decode full 0x1000 sample 8
unfolding verdict
nop_reached = fall_through (3, and_eax) (bundle_start {offset = 0} refl) refl refl

lfiv_verify_x64_control_example : UnitHere decode full 0x1000 sample 8
unfolding verdict
lfiv_verify_x64_control_example =
    lfiv_verify_x64_control decode (λ _. 1) sample 0x1000 full decode-laws (omega arith) refl refl 8
      nop_reached (omega arith)

abbrev store : Inst
store = inst "FDI_MOV" 4 (mem_op reg_r14) (gpr 8 rax)

chk_single-Passes_example :
    Passes
      (SafeInst full 0x1000 32 store)
      (initial 0x1000 full)
      (chk_single store (initial 0x1000 full))
chk_single-Passes_example = chk_single-Passes store (initial 0x1000 full)

chkmem-Passes_example :
    Passes
      ((is store.type "FDI_LEA" || is store.type "FDI_NOP") ≡ false → EachOp (MemOk full store))
      (initial 0x1000 full)
      (chkmem store (initial 0x1000 full))
chkmem-Passes_example = chkmem-Passes store (initial 0x1000 full)

chkmod-Passes_example :
    Passes
      (is add_rax.type "FDI_NOP" ≡ false → EachOp (RegOk full add_rax))
      (initial 0x1000 full)
      (chkmod add_rax (initial 0x1000 full))
chkmod-Passes_example = chkmod-Passes add_rax (initial 0x1000 full)

chkbranch-Passes_example :
    Passes
      (BranchOk 0x1000 32 (jmp_short 0x1e))
      (initial 0x1000 full)
      (chkbranch (jmp_short 0x1e) (initial 0x1000 full))
chkbranch-Passes_example = chkbranch-Passes (jmp_short 0x1e) (initial 0x1000 full)

-- Stores only, and no reports.
abbrev stores : Options
stores = record { box = box_stores; no_bdd = true; ctxreg = false; err = false }

full-Relaxes : Relaxes full stores
full-Relaxes = record { same_ctxreg = refl; box = inl refl }

lfiv_verify_x64_relax_example :
    (lfiv_verify_x64 decode (λ _. 1) sample 0x1000 stores).0 ≡ returns true
unfolding verdict
lfiv_verify_x64_relax_example =
    lfiv_verify_x64_relax decode (λ _. 1) sample 0x1000 full stores decode-laws (omega arith)
      full-Relaxes refl refl

macroinst-Run_example : Run decode sample 0 8 3
unfolding verdict
macroinst-Run_example =
    macroinst-Run decode (initial 0x1000 full) and_eax sample 3 refl
      (record { size = 8; ninstr = 3 }) refl

lfiv_verify_x64_cover_example :
    (end : ℕ) × (count : ℕ) × Run decode sample 0 end count
    × (end ≤ 32)
    × ((32 ≤ end) ⊎ (length sample ≤ end))
unfolding verdict
lfiv_verify_x64_cover_example =
    lfiv_verify_x64_cover decode (λ _. 1) sample 0x1000 full decode-laws (omega arith) refl 0 refl
      (omega arith)

-- mov rbx, 16(r14)
abbrev load_r14 : Inst
load_r14 = inst "FDI_MOV" 4 (gpr 8 (reg_other 3)) (record (mem_op reg_r14) { disp = 16 })

abbrev ready_regs : Registers
ready_regs r = if reg_eq r reg_r14 then 2 ^ 32 else if reg_eq r reg_sp then 2 ^ 32 + 0x1000 else 7

lfiv_verify_x64_reports_example :
    let r = lfiv_verify_x64 decode (λ _. 1) (0x4c ∷ 0x01 ∷ 0xf0 ∷ 0xff ∷ 0xe0 ∷ []) 0x1000 full in
    (r.0 ≡ returns false) ↔ (r.1.reports ≢ [])
lfiv_verify_x64_reports_example =
    lfiv_verify_x64_reports full refl decode (λ _. 1) (0x4c ∷ 0x01 ∷ 0xf0 ∷ 0xff ∷ 0xe0 ∷ []) 0x1000

lfiv_verify_x64-ne-assert_failed_example :
    (lfiv_verify_x64 nop_decode nop_bdd (0x90 ∷ 0x90 ∷ []) 0x1000 filtered).0 ≢ assert_failed
lfiv_verify_x64-ne-assert_failed_example =
    lfiv_verify_x64-ne-assert_failed nop_decode nop_decode-laws nop_bdd nop_bdd-LengthLaw
      (0x90 ∷ 0x90 ∷ []) 0x1000 filtered
