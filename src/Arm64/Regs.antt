-- ===== src/Arm64/Regs.antt =====
-- The register, operand and mnemonic tests of src/arm64/verify.c.
use lfi_verifier.Prelude.{
  ℕ, Bool, true, false, not, ◌&&◌, ◌||◌, [], ◌∷◌, ◌==◌, is, one_of, neg16, if◌then◌else◌,
}
use lfi_verifier.Options.{Options, is_stores}
use lfi_verifier.Arm64.Inst.{
  OpType, op_memuoff, op_memsoff, op_memsoffpre, op_memsoffpost, op_memreg, op_memregpost,
  op_meminc, Op, Group, group_branch, group_bcond, group_branchreg, group_casp, group_cas,
  group_ldatomic, group_swp, Inst, is_uxtw, is_memuoff,
}
use lfi_verifier.Arm64.Loads.{load_instrs}
use lfi_verifier.Arm64.Mnemonics.{base_instrs}

abbrev pub reg_addr : ℕ
reg_addr = 28

abbrev pub reg_base : ℕ
reg_base = 27

abbrev pub reg_ret : ℕ
reg_ret = 30

abbrev pub reg_ctx : ℕ
reg_ctx = 25

-- The build's default of -DCTXREG_TP_OFFSET.
abbrev pub ctxreg_tp_offset : ℕ
ctxreg_tp_offset = 16

unfoldable pub cfreg : ℕ → Bool
cfreg reg = reg == reg_addr || reg == reg_ret

unfoldable pub rtsysreg : ℕ → Bool
rtsysreg reg = reg == reg_base

unfoldable pub basereg : ℕ → Bool
basereg reg = reg == reg_base

unfoldable pub retreg : ℕ → Bool
retreg reg = reg == reg_ret

unfoldable pub ctxreg : Options → ℕ → Bool
ctxreg opts reg = opts.ctxreg && reg == reg_ctx

-- add x30, x27, wN, uxtw
unfoldable pub is_x30_guard : Inst → Bool
unfolding basereg
is_x30_guard dinst =
    if not (is dinst.mnem "DA64I_ADD_EXT")
    then false
    else (dinst.ops 0).reg == reg_ret
      && ((dinst.ops 0).reggp_sf == 1
          && (basereg (dinst.ops 1).reg
              && (is_uxtw (dinst.ops 2).reggpext_ext
                  && ((dinst.ops 2).reggpext_sf == 0 && (dinst.ops 2).reggpext_shift == 0))))

-- ldr xzr, [x30]
unfoldable pub is_x30_ldr_guard : Inst → Bool
is_x30_ldr_guard dinst =
    if not (is dinst.mnem "DA64I_LDR_IMM")
    then false
    else (dinst.ops 0).reg == 31
      && ((dinst.ops 0).reggp_sf == 1
          && (is_memuoff (dinst.ops 1).type
              && ((dinst.ops 1).reg == reg_ret && (dinst.ops 1).uimm16 == 0)))

unfoldable pub fixedreg : Options → ℕ → Bool
unfolding ctxreg
fixedreg opts reg = if reg == reg_base then true else if ctxreg opts reg then true else false

unfoldable pub ldstreg : ℕ → Bool → Bool
ldstreg reg sp = if sp && reg == 31 then true else if reg == reg_addr then true else false

unfoldable pub addrreg : ℕ → Bool → Bool
unfolding cfreg
addrreg reg sp =
    if sp && reg == 31
    then true
    else if cfreg reg
    then true
    else if reg == reg_addr || reg == reg_ret
    then true
    else false

-- SYS_fpsr, SYS_fpcr, SYS_dczid_el0 and the SYS_id_ registers.
unfoldable pub sysreg : ℕ → Bool
sysreg r =
    r == 0xda21
    || (r == 0xda20
        || (r == 0xd807
            || (r == 0xc020 || (r == 0xc021 || (r == 0xc024 || (r == 0xc030 || r == 0xc031))))))

abbrev pub sys_dc_zva : ℕ
sys_dc_zva = 0x5ba1

-- The second switch of nmod, on the mnemonic.
unfoldable pub nmod_mnem : Inst → ℕ
nmod_mnem dinst =
    if one_of
      ("DA64I_LDPW_POST" ∷ "DA64I_LDPW" ∷ "DA64I_LDPW_PRE" ∷ "DA64I_LDPSW_POST" ∷ "DA64I_LDPSW"
        ∷ "DA64I_LDPSW_PRE" ∷ "DA64I_LDPX_POST" ∷ "DA64I_LDPX" ∷ "DA64I_LDPX_PRE" ∷ "DA64I_LDNPW"
        ∷ "DA64I_LDNPX" ∷ "DA64I_LDXPW" ∷ "DA64I_LDXPX" ∷ "DA64I_LDAXPW" ∷ "DA64I_LDAXPX"
        ∷ "DA64I_LDP_FP_POST" ∷ "DA64I_LDP_FP" ∷ "DA64I_LDP_FP_PRE" ∷ [])
      dinst.mnem
    then 3
    else if one_of
        ("DA64I_STR_IMM" ∷ "DA64I_STR_REG" ∷ "DA64I_STRX_PRE" ∷ "DA64I_STRX_POST" ∷ "DA64I_STRB_IMM"
          ∷ "DA64I_STRB_REG" ∷ "DA64I_STRB_PRE" ∷ "DA64I_STRB_POST" ∷ "DA64I_STRH_IMM"
          ∷ "DA64I_STRH_REG" ∷ "DA64I_STRH_PRE" ∷ "DA64I_STRH_POST" ∷ "DA64I_STRW_IMM"
          ∷ "DA64I_STRW_REG" ∷ "DA64I_STRW_PRE" ∷ "DA64I_STRW_POST" ∷ "DA64I_STPX_POST"
          ∷ "DA64I_STPX" ∷ "DA64I_STPX_PRE" ∷ [])
        dinst.mnem
    then 0
    else 1

-- A bit mask of the operands that an instruction modifies; the group is DA64_GROUP(dinst->mnem).
unfoldable pub nmod : Group → Inst → ℕ
nmod group_branch dinst = 0
nmod group_bcond dinst = 0
nmod group_branchreg dinst = 0
nmod group_casp dinst = 3
nmod group_cas dinst = 3
nmod group_ldatomic dinst = 2
nmod group_swp dinst = 2
nmod _ dinst = nmod_mnem dinst

unfoldable pub isload : Inst → Bool
isload dinst = one_of load_instrs dinst.mnem

unfoldable pub okmnem : Inst → Bool
okmnem dinst = one_of base_instrs dinst.mnem

unfoldable pub okrtcallimm : ℕ → Bool
okrtcallimm simm16 =
    simm16 == 0
    || (simm16 == 8
        || (simm16 == 16
            || (simm16 == 24
                || (simm16 == neg16 8
                    || (simm16 == neg16 16 || (simm16 == neg16 24 || simm16 == neg16 32))))))

-- The switch of okmemop on the kind of operand; `free` is load && storesonly.
unfoldable pub okmemop_as : OpType → Options → Op → Bool → Bool
okmemop_as op_memuoff opts op free =
    if free
    then true
    else if rtsysreg op.reg && okrtcallimm op.simm16
    then true
    else if ctxreg opts op.reg
    then op.uimm16 == ctxreg_tp_offset
    else ldstreg op.reg true
okmemop_as op_memsoff opts op free =
    if free
    then true
    else if rtsysreg op.reg && okrtcallimm op.simm16
    then true
    else if ctxreg opts op.reg
    then op.uimm16 == ctxreg_tp_offset
    else ldstreg op.reg true
okmemop_as op_memsoffpre opts op free =
    if free then not (fixedreg opts op.reg) else ldstreg op.reg true
okmemop_as op_memsoffpost opts op free =
    if free then not (fixedreg opts op.reg) else ldstreg op.reg true
okmemop_as op_memreg opts op free =
    if free then true else basereg op.reg && (is_uxtw op.memreg_ext && op.memreg_sc == 0)
okmemop_as op_memregpost opts op free = false
okmemop_as op_meminc opts op free = if free then not (fixedreg opts op.reg) else false
okmemop_as _ opts op free = true

unfoldable pub okmemop : Options → Op → Bool → Bool
unfolding okmemop_as
okmemop opts op load = okmemop_as op.type opts op (load && is_stores opts.box)

unfoldable pub ok_ctxreg_ldst : Inst → Bool
unfolding one_of
ok_ctxreg_ldst dinst = one_of ("DA64I_LDR_IMM" ∷ "DA64I_STR_IMM" ∷ []) dinst.mnem
