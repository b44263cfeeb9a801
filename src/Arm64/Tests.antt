-- ===== src/Arm64/Tests.antt =====
-- A decoder of a few real encodings, which meets the laws, and the theorems and the code run on it.
use lfi_verifier.Prelude.{
  ℕ, ◌≡◌, refl, inl, inr, false≢true, Bool, true, false, Option, none, some, List, [], ◌∷◌, String,
  ◌==◌, add64, one_of, is, if◌then◌else◌, Bool-cases,
}
use lfi_verifier.Options.{Options, box_full}
use lfi_verifier.Arm64.Inst.{
  op_reggp, op_reggpext, op_memuoff, op_other, op_sysreg, ext_uxtw, ext_other, Op, Inst, Group,
  group_branchreg, group_other, Disarm,
}
use lfi_verifier.Arm64.State.{verrmin, verr, verr_if, set_guarded}
use lfi_verifier.Arm64.Regs.{
  cfreg, rtsysreg, basereg, retreg, ctxreg, is_x30_guard, is_x30_ldr_guard, fixedreg, ldstreg,
  addrreg, sysreg, nmod_mnem, nmod, isload, okmnem, okrtcallimm, okmemop_as, okmemop,
  ok_ctxreg_ldst, sys_dc_zva,
}
use lfi_verifier.Arm64.Check.{
  chk_indirect, chk_direct, chkbranch, chksys, for_ops, chkmem_op, chkmemops, is_x30_load,
  is_addr_guard, okmod, chkmod_op, writeback_reg, overwrites, chkwriteback,
}
use lfi_verifier.Arm64.Verify.{
  is_hint, chkmods, chk_writes, chk_inst, vchk, insns_loop, words, finish, lfiv_verify_arm64,
}
use lfi_verifier.Arm64.Laws.{branchreg_mnems, DisarmLaws}

abbrev pub no_op : Op
no_op = record {
  type = op_other;
  reg = 0;
  reggp_sf = 0;
  reggpext_ext = ext_other;
  reggpext_sf = 0;
  reggpext_shift = 0;
  memreg_ext = ext_other;
  memreg_sc = 0;
  uimm16 = 0;
  simm16 = 0;
  sysreg = 0;
}

abbrev pub gp : ℕ → Op
gp r = record no_op { type = op_reggp; reg = r; reggp_sf = 1 }

abbrev pub uxtw : ℕ → Op
uxtw r = record no_op { type = op_reggpext; reg = r; reggpext_ext = ext_uxtw }

abbrev pub sys_op : ℕ → Op
sys_op r = record no_op { type = op_sysreg; sysreg = r }

abbrev pub at_op : ℕ → Op
at_op r = record no_op { type = op_memuoff; reg = r }

abbrev pub inst : String → Op → Op → Op → Inst
inst mnem a b c = record {
  mnem = mnem;
  ops = λ i. if i == 0 then a else if i == 1 then b else if i == 2 then c else no_op;
}

abbrev pub guard_x28 : Inst
guard_x28 = inst "DA64I_ADD_EXT" (gp 28) (gp 27) (uxtw 0)

abbrev pub guard_x30 : Inst
guard_x30 = inst "DA64I_ADD_EXT" (gp 30) (gp 27) (uxtw 30)

abbrev pub load_x30 : Inst
load_x30 = inst "DA64I_LDR_IMM" (gp 30) (at_op 31) no_op

abbrev pub br : ℕ → Inst
br r = inst "DA64I_BR" (gp r) no_op no_op

abbrev pub ret : Inst
ret = inst "DA64I_RET" (gp 30) no_op no_op

abbrev pub zva : Inst
zva = inst "DA64I_SYS" (sys_op 0x5ba1) (gp 28) no_op

abbrev pub unknown : Inst
unknown = inst "DA64I_UNKNOWN" no_op no_op no_op

abbrev pub msr : ℕ → Inst
msr r = inst "DA64I_MSR" (sys_op r) (gp 0) no_op

-- add x28, x27, w0, uxtw; add x30, x27, w30, uxtw; ldr x30, [sp]; br x28; br x0; ret;
-- dc zva, x28; msr fpcr, x0.
abbrev pub decode : ℕ → Inst
decode insn =
    if insn == 0x8b20437c
    then guard_x28
    else if insn == 0x8b3e437e
    then guard_x30
    else if insn == 0xf94003fe
    then load_x30
    else if insn == 0xd61f0380
    then br 28
    else if insn == 0xd61f0000
    then br 0
    else if insn == 0xd65f03c0
    then ret
    else if insn == 0xd50b743c
    then zva
    else if insn == 0xd51b4400
    then msr 0xda20
    else unknown

either : {A : Type 0} (P : A → Type 0) (b : Bool) {x y : A} → P x → P y → P (if b then x else y)
either P true p q = p
either P false p q = q

-- What holds of each of the instructions holds of all that is decoded.
decode-all :
    (P : Inst → Type 0)
    → P guard_x28
    → P guard_x30
    → P load_x30
    → P (br 28)
    → P (br 0)
    → P ret
    → P zva
    → P (msr 0xda20)
    → P unknown
    → (insn : ℕ) → P (decode insn)
decode-all P a b c e f g h i j insn = either P _ a (
    either P _ b
      (either P _ c (either P _ e (either P _ f (either P _ g (either P _ h (either P _ i j)))))))

unfoldable pub group : String → Group
group m = if one_of branchreg_mnems m then group_branchreg else group_other

unfoldable pub disarm : Disarm
unfolding group
disarm = record { da64_decode = decode; da64_group = group }

group_law : (m : String) → group m ≡ group_branchreg → one_of branchreg_mnems m ≡ true
unfolding group
group_law m h = elim (Bool-cases (one_of branchreg_mnems m)) [ inl e ↦ e | inr e ↦ cc (rw e at h) ]

pub disarm-laws : DisarmLaws disarm
unfolding disarm one_of
disarm-laws = record {
  branch_op =
      decode-all
        (λ i.
          one_of ("DA64I_BLR" ∷ "DA64I_BR" ∷ "DA64I_RET" ∷ []) i.mnem ≡ true
          → (i.ops 0).type ≡ op_reggp)
        (λ _. refl) (λ _. refl) (λ _. refl) (λ _. refl) (λ _. refl) (λ _. refl) no no no;
  msr_op =
      decode-all (λ i. is i.mnem "DA64I_MSR" ≡ true → (i.ops 0).type ≡ op_sysreg) no no no no no no
        no (λ _. refl) no;
  mrs_op =
      decode-all (λ i. is i.mnem "DA64I_MRS" ≡ true → (i.ops 1).type ≡ op_sysreg) no no no no no no
        no no no;
  zva_op =
      decode-all
        (λ i.
          is i.mnem "DA64I_SYS" ≡ true
          → (i.ops 0).type ≡ op_sysreg
          → (i.ops 0).sysreg ≡ sys_dc_zva
          → (i.ops 1).type ≡ op_reggp)
        no no no no no no (λ _ _ _. refl) no no;
  branchreg_group = λ insn h. group_law (decode insn).mnem h;
}
  where
    no : {A : Type 0} → false ≡ true → A
    no h = absurd (false≢true h)

abbrev pub full : Options
full = record { box = box_full; no_bdd = true; ctxreg = false; err = true }

abbrev pub bytes : ℕ → ℕ → ℕ → ℕ → List ℕ → List ℕ
bytes a b c e rest = e ∷ c ∷ b ∷ a ∷ rest

-- A guarded jump; then a return behind a guarded load of x30, and a cleared line.
abbrev pub sample : List ℕ
sample = bytes 0x8b 0x20 0x43 0x7c (
    bytes 0xd6 0x1f 0x03 0x80 (
      bytes 0xd5 0x03 0x20 0x1f (
        bytes 0xf9 0x40 0x03 0xfe
          (bytes 0x8b 0x3e 0x43 0x7e (bytes 0xd5 0x0b 0x74 0x3c (bytes 0xd6 0x5f 0x03 0xc0 []))))))

unfoldable pub verdict : List ℕ → Option Bool
unfolding disarm group one_of cfreg rtsysreg basereg retreg ctxreg is_x30_guard is_x30_ldr_guard
    fixedreg ldstreg addrreg sysreg nmod_mnem nmod isload okmnem okrtcallimm okmemop_as okmemop
    ok_ctxreg_ldst chk_indirect chk_direct chkbranch chksys for_ops chkmem_op chkmemops is_x30_load
    is_addr_guard okmod chkmod_op writeback_reg overwrites chkwriteback is_hint chkmods chk_writes
    chk_inst vchk insns_loop words finish lfiv_verify_arm64 verrmin verr verr_if set_guarded add64
verdict code = elim (lfiv_verify_arm64 disarm code 0x1000 full) [ none ↦ none | some r ↦ some r.0 ]

sample_passes : verdict sample ≡ some true
unfolding verdict
sample_passes = refl

-- A return behind the load alone, and a jump by a register that is not reserved.
unguarded_fails : verdict (bytes 0xf9 0x40 0x03 0xfe (bytes 0xd6 0x5f 0x03 0xc0 [])) ≡ some false
unfolding verdict
unguarded_fails = refl

free_jump_fails : verdict (bytes 0xd6 0x1f 0x00 0x00 []) ≡ some false
unfolding verdict
free_jump_fails = refl
