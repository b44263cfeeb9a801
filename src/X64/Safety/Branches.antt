-- ===== src/X64/Safety/Branches.antt =====
-- chkbranch of src/x64/verify.c against the policy for branches.
use lfi_verifier.Prelude.{
  ℕ, ◌+◌, ◌%◌, ◌≡◌, inl, inr, sym, ◌∙◌, true, false, ◌||◌, arith, one_of, one_of-append, Bool-cases,
  ◌!=◌, add64, [], ◌∷◌,
}
use lfi_verifier.X64.Inst.{Inst, is_off}
use lfi_verifier.X64.State.{Verifier}
use lfi_verifier.X64.Check.{branchinfo, cond_branches, chkbranch}
use lfi_verifier.X64.Passes.{Passes, verr_if-Passes, verr-Passes, skip-Passes, Passes-iff}
use lfi_verifier.X64.Policy.{branch_types, BranchOk, no_branch, direct}

branchinfo_none :
    (addr : ℕ) (instr : Inst)
    → one_of branch_types instr.type ≡ false
    → (branchinfo addr instr).branch ≡ false
unfolding branchinfo
branchinfo_none addr instr h =
    ground (arith, one_of-append cond_branches ("FDI_JMP" ∷ "FDI_CALL" ∷ "FDI_RET" ∷ []) instr.type)

module _ (addr bundlesize : ℕ) (instr : Inst) (b : one_of branch_types instr.type ≡ true) where
  is_branch_lem :
      (one_of cond_branches instr.type
        || one_of ("FDI_JMP" ∷ "FDI_CALL" ∷ "FDI_RET" ∷ []) instr.type)
      ≡ true
  is_branch_lem = sym (one_of-append cond_branches _ instr.type) ∙ b

  branchinfo_direct :
      is_off (instr.op 0).op_type ≡ true
      → branchinfo addr instr ≡ record {
        branch = true;
        target = add64 (addr + instr.size) (instr.op 0).imm;
        indirect = false;
        cond = one_of cond_branches instr.type;
      }
  unfolding branchinfo
  branchinfo_direct o = rw (is_branch_lem, o)

  branchinfo_indirect :
      is_off (instr.op 0).op_type ≡ false
      → branchinfo addr instr ≡ record {
        branch = true;
        target = 0;
        indirect = true;
        cond = one_of cond_branches instr.type;
      }
  unfolding branchinfo
  branchinfo_indirect o = rw (is_branch_lem, o)

  aligned :
      BranchOk addr bundlesize instr
      → (add64 (addr + instr.size) (instr.op 0).imm % bundlesize != 0) ≡ false
  aligned (no_branch h) = cc
  aligned (direct _ _ a) = ground arith

  not-indirect : is_off (instr.op 0).op_type ≡ false → ¬ BranchOk addr bundlesize instr
  not-indirect o (no_branch h) = cc
  not-indirect o (direct _ t _) = absurd (ground arith)

-- chkbranch leaves the verifier unfailed exactly if it was and the instruction is no branch, or one
-- with an offset whose target is a multiple of the bundle size; it keeps the options, the address and
-- the bundle size.
pub chkbranch-Passes :
    (instr : Inst) (v : Verifier)
    → Passes (BranchOk v.addr v.bundlesize instr) v (chkbranch instr v)
unfolding chkbranch
chkbranch-Passes instr v = elim (Bool-cases (one_of branch_types instr.type)) [
  | inr e ↦
      rw (branchinfo_none v.addr instr e) (Passes-iff (λ _. no_branch e, λ _. tt) (skip-Passes v))
  | inl b ↦ elim (Bool-cases (is_off (instr.op 0).op_type)) [
    | inl o ↦ rw (branchinfo_direct v.addr v.bundlesize instr b o) (
        Passes-iff
          (λ t. direct b (ground arith) (ground arith), aligned v.addr v.bundlesize instr b)
          (verr_if-Passes _ instr "jump target is not bundle-aligned" v))
    | inr o ↦ rw (branchinfo_indirect v.addr v.bundlesize instr b o) (
        Passes-iff (absurd, not-indirect v.addr v.bundlesize instr b o)
          (verr-Passes instr "invalid indirect branch" v))
  ]
]
