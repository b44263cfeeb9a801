-- ===== src/X64/Safety/Single.antt =====
-- vchkbundle of src/x64/verify.c, for an instruction that starts no macro.
use lfi_verifier.Prelude.{◌≡◌, false, not, ◌||◌, arith, eq_iff, is}
use lfi_verifier.Options.{Options}
use lfi_verifier.X64.Inst.{Inst}
use lfi_verifier.X64.State.{Verifier}
use lfi_verifier.X64.Check.{okmnem, chkbranch, chkmem, chkmod}
use lfi_verifier.X64.Verify.{chk_single}
use lfi_verifier.X64.Passes.{Passes, verr_if-Passes, Passes-iff, next-Passes}
use lfi_verifier.X64.Policy.{SafeInst, BranchOk, MemOk, RegOk, EachOp}
use lfi_verifier.X64.Safety.Memory.{chkmem-Passes}
use lfi_verifier.X64.Safety.Registers.{chkmod-Passes}
use lfi_verifier.X64.Safety.Branches.{chkbranch-Passes}

module _ (instr : Inst) where
  abbrev MemTest : Options → Type 0
  MemTest opts =
      (is instr.type "FDI_LEA" || is instr.type "FDI_NOP") ≡ false → EachOp (MemOk opts instr)

  abbrev RegTest : Options → Type 0
  RegTest opts = is instr.type "FDI_NOP" ≡ false → EachOp (RegOk opts instr)

  SafeInst-of_tests :
      (v : Verifier)
      → (((not (okmnem instr) ≡ false) × BranchOk v.addr v.bundlesize instr) × MemTest v.opts)
        × RegTest v.opts
      → SafeInst v.opts v.addr v.bundlesize instr
  SafeInst-of_tests v t = record {
    legal = ground arith;
    branches = t.0.0.1;
    memory = λ n. t.0.1 (ground (arith, eq_iff instr.type "FDI_LEA", eq_iff instr.type "FDI_NOP"));
    registers = λ n. t.1 (ground (arith, eq_iff instr.type "FDI_NOP"));
  }

  tests-of_SafeInst :
      (v : Verifier)
      → SafeInst v.opts v.addr v.bundlesize instr
      → (((not (okmnem instr) ≡ false) × BranchOk v.addr v.bundlesize instr) × MemTest v.opts)
        × RegTest v.opts
  tests-of_SafeInst v s = (
    (
      (ground (arith, s.legal), s.branches),
      λ e. s.memory (
        ground (arith, eq_iff instr.type "FDI_LEA"),
        ground (arith, eq_iff instr.type "FDI_NOP"),
      ),
    ),
    λ e. s.registers (ground (arith, eq_iff instr.type "FDI_NOP")),
  )

-- The four checks leave the verifier unfailed exactly if it was and the policy allows the instruction
-- at its address; they keep the options, the address and the bundle size.
pub chk_single-Passes :
    (instr : Inst) (v : Verifier)
    → Passes (SafeInst v.opts v.addr v.bundlesize instr) v (chk_single instr v)
unfolding chk_single
chk_single-Passes instr v =
    Passes-iff (SafeInst-of_tests instr v, tests-of_SafeInst instr v)
      (next-Passes (λ o _ _. RegTest instr o) (chkmod instr) (chkmod-Passes instr)
        (next-Passes (λ o _ _. MemTest instr o) (chkmem instr) (chkmem-Passes instr)
          (next-Passes (λ _ a b. BranchOk a b instr) (chkbranch instr) (chkbranch-Passes instr)
            (verr_if-Passes (not (okmnem instr)) instr "illegal instruction" v))))
