-- ===== src/Arm64/Witnesses.antt =====
-- The theorems on the arm64 verifier, applied to the sample code and its decoder.
use lfi_verifier.Prelude.{
  arith, ◌⊎◌, ◌==◌, if◌then◌else◌, inl, ◌≡◌, ◌↔◌, ◌≢◌, Bool, ◌%◌, refl, true, false, some, [],
  length,
}
use lfi_verifier.Options.{Options, box_stores, Relaxes}
use lfi_verifier.Arm64.Safety.Reports.{lfiv_verify_arm64_reports}
use lfi_verifier.Arm64.Safety.Modes.{lfiv_verify_arm64_relax}
use lfi_verifier.Arm64.Address.{Registers, Sandboxed, Near, Inside, address, add_ext}
use lfi_verifier.Arm64.Regs.{ctxreg_tp_offset}
use lfi_verifier.Arm64.Safety.Bounds.{IsGuardDest, okmemop-Near, okmod-Inside}
use lfi_verifier.Arm64.Inst.{group_branchreg}
use lfi_verifier.Arm64.State.{Verifier}
use lfi_verifier.Arm64.Regs.{isload}
use lfi_verifier.Arm64.Check.{chkbranch, chksys, chkmemops}
use lfi_verifier.Arm64.Verify.{initial, words, chkmods, vchk, lfiv_verify_arm64}
use lfi_verifier.Arm64.Policy.{
  BranchOk, SysOk, MemOk, ContextOk, WritesOk, SafeInsn, SafeRun, guard_step, guard_next,
}
use lfi_verifier.Arm64.Passes.{Passes, Keeps, Checks, EachOp}
use lfi_verifier.Arm64.Safety.Branches.{chkbranch-Checks}
use lfi_verifier.Arm64.Safety.System.{chksys-Checks}
use lfi_verifier.Arm64.Safety.Memory.{chkmemops-Keeps}
use lfi_verifier.Arm64.Safety.Writes.{chkmods-Passes}
use lfi_verifier.Arm64.Safety.Insn.{vchk-Checks}
use lfi_verifier.Arm64.Safety.Entry.{lfiv_verify_arm64_sound, lfiv_verify_arm64_exact}
use lfi_verifier.Arm64.Tests.{
  at_op, gp, guard_x28, full, sample, verdict, disarm, disarm-laws, ret, msr, load_x30, guard_x30,
}

sample_end : Verifier
sample_end = record { failed = false; addr = 0x101c; opts = full; x30_guarded = true; reports = [] }

lfiv_verify_arm64_sound_example : (length sample % 4 ≡ 0) × SafeRun disarm full true (words sample)
unfolding verdict sample_end
lfiv_verify_arm64_sound_example = lfiv_verify_arm64_sound disarm sample 0x1000 full sample_end refl

lfiv_verify_arm64_exact_example :
    ((v : Verifier) × (lfiv_verify_arm64 disarm sample 0x1000 full ≡ some (true, v)))
    ↔ ((length sample % 4 ≡ 0) × SafeRun disarm full true (words sample))
lfiv_verify_arm64_exact_example = lfiv_verify_arm64_exact disarm sample 0x1000 full disarm-laws

abbrev start : Verifier
start = initial 0x1000 full

chkbranch-Checks_example :
    Checks (BranchOk group_branchreg true ret) true start (chkbranch group_branchreg ret start)
chkbranch-Checks_example = chkbranch-Checks group_branchreg ret start

chksys-Checks_example : Checks (SysOk (msr 0xda20)) true start (chksys (msr 0xda20) start)
chksys-Checks_example = chksys-Checks (msr 0xda20) start

chkmemops-Keeps_example :
    Keeps
      (EachOp (λ i.
        MemOk full (load_x30.ops i) (isload load_x30) × ContextOk full load_x30 (load_x30.ops i)))
      start
      (chkmemops load_x30 start)
chkmemops-Keeps_example = chkmemops-Keeps load_x30 start

chkmods-Passes_example :
    Passes
      (EachOp (WritesOk full guard_x30 1))
      (guard_next guard_x30 1 true)
      start
      (chkmods guard_x30 1 start)
chkmods-Passes_example = chkmods-Passes guard_x30 1 start

vchk-Checks_example :
    Checks
      (SafeInsn disarm full true 0xf94003fe)
      (guard_step disarm 0xf94003fe true)
      start
      (vchk disarm 0xf94003fe start)
vchk-Checks_example = vchk-Checks disarm 0xf94003fe start

-- Stores only, and no reports.
abbrev stores : Options
stores = record { box = box_stores; no_bdd = true; ctxreg = false; err = false }

full-Relaxes : Relaxes full stores
full-Relaxes = record { same_ctxreg = refl; box = inl refl }

sample-accepted : (v : Verifier) × (lfiv_verify_arm64 disarm sample 0x1000 full ≡ some (true, v))
unfolding verdict sample_end
sample-accepted = (sample_end, refl)

lfiv_verify_arm64_relax_example :
    (v : Verifier) × (lfiv_verify_arm64 disarm sample 0x1000 stores ≡ some (true, v))
lfiv_verify_arm64_relax_example =
    lfiv_verify_arm64_relax disarm sample 0x1000 full stores disarm-laws full-Relaxes
      sample-accepted

-- A sandbox at 4 GiB.
abbrev registers : Registers
registers = record {
  x = λ r. if r == 27 then 0x100000000 else if r == 28 then 0x100000040 else 5;
  sp = 0x1000ff000;
}

registers-Sandboxed : Sandboxed 0x100000000 registers
registers-Sandboxed = record {
  room_below = omega arith;
  room_above = omega arith;
  x27 = refl;
  x28_min = omega arith;
  x28_max = omega arith;
  sp_min = omega arith;
  sp_max = omega arith;
}

okmemop-Near_example :
    Near 0x100000000 (address registers 0 (at_op 31))
    ⊎ ((false ≡ true) × ((at_op 31).reg ≡ 25) × ((at_op 31).uimm16 ≡ ctxreg_tp_offset))
unfolding verdict
okmemop-Near_example =
    okmemop-Near 0x100000000 registers 0 full (at_op 31) true registers-Sandboxed
      (record { uimm16_max = omega arith; simm16_max = omega arith }) (inl refl) refl refl

okmod-Inside_example :
    (guard_x28.mnem ≡ "DA64I_ADD_EXT")
    × IsGuardDest 28
    × Inside 0x100000000 (add_ext registers 0x1122334455 guard_x28)
unfolding verdict
okmod-Inside_example =
    okmod-Inside 0x100000000 registers 0x1122334455 guard_x28 (gp 28) start registers-Sandboxed refl
      (inl refl) refl

lfiv_verify_arm64_reports_example :
    (r : Bool × Verifier) × (lfiv_verify_arm64 disarm sample 0x1000 full ≡ some r)
    × ((r.0 ≡ false) ↔ ((length sample % 4 ≢ 0) ⊎ (r.1.reports ≢ [])))
lfiv_verify_arm64_reports_example =
    lfiv_verify_arm64_reports full refl disarm sample 0x1000 disarm-laws
