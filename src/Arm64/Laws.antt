-- ===== src/Arm64/Laws.antt =====
-- How the disarm decoder, which is not in the repository, groups and formats the instructions that
-- src/arm64/verify.c reads by their mnemonic.
use lfi_verifier.Prelude.{ℕ, ◌≡◌, true, String, List, [], ◌∷◌, is, one_of}
use lfi_verifier.Arm64.Inst.{group_branchreg, op_reggp, op_sysreg, Disarm}
use lfi_verifier.Arm64.Regs.{sys_dc_zva}

-- The class "unconditional branch (register)" of the Arm architecture.
abbrev pub branchreg_mnems : List String
branchreg_mnems =
    "DA64I_BR" ∷ "DA64I_BRAA" ∷ "DA64I_BRAAZ" ∷ "DA64I_BRAB" ∷ "DA64I_BRABZ" ∷ "DA64I_BLR"
    ∷ "DA64I_BLRAA" ∷ "DA64I_BLRAAZ" ∷ "DA64I_BLRAB" ∷ "DA64I_BLRABZ" ∷ "DA64I_RET" ∷ "DA64I_RETAA"
    ∷ "DA64I_RETAB" ∷ "DA64I_ERET" ∷ "DA64I_ERETAA" ∷ "DA64I_ERETAB" ∷ "DA64I_DRPS" ∷ []

-- The operands are those of the instructions' assembly: a register for br, blr and ret, a system
-- register first for msr and second for mrs, and a register for dc zva. The group DA64G_BRANCHREG has
-- instructions of its class only.
pub record DisarmLaws (d : Disarm) : Type 0 where
  pub branch_op :
      (insn : ℕ)
      → one_of ("DA64I_BLR" ∷ "DA64I_BR" ∷ "DA64I_RET" ∷ []) (d.da64_decode insn).mnem ≡ true
      → ((d.da64_decode insn).ops 0).type ≡ op_reggp
  pub msr_op :
      (insn : ℕ)
      → is (d.da64_decode insn).mnem "DA64I_MSR" ≡ true
      → ((d.da64_decode insn).ops 0).type ≡ op_sysreg
  pub mrs_op :
      (insn : ℕ)
      → is (d.da64_decode insn).mnem "DA64I_MRS" ≡ true
      → ((d.da64_decode insn).ops 1).type ≡ op_sysreg
  pub zva_op :
      (insn : ℕ)
      → is (d.da64_decode insn).mnem "DA64I_SYS" ≡ true
      → ((d.da64_decode insn).ops 0).type ≡ op_sysreg
      → ((d.da64_decode insn).ops 0).sysreg ≡ sys_dc_zva
      → ((d.da64_decode insn).ops 1).type ≡ op_reggp
  pub branchreg_group :
      (insn : ℕ)
      → d.da64_group (d.da64_decode insn).mnem ≡ group_branchreg
      → one_of branchreg_mnems (d.da64_decode insn).mnem ≡ true
