-- ===== src/Arm64/Check.antt =====
-- The checks of src/arm64/verify.c on one instruction. `none` is the failure of an assert.
use lfi_verifier.Prelude.{
  ℕ, ◌/◌, ◌%◌, ◌^◌, Bool, true, false, not, ◌&&◌, ◌||◌, Option, none, some, [], ◌∷◌, String, ◌==◌,
  ◌!=◌, is, one_of, require, ◌>>◌, if◌then◌else◌,
}
use lfi_verifier.Arm64.Inst.{
  OpType, op_reggp, op_reggpinc, op_reggpext, op_regsp, op_memsoffpre, op_memsoffpost,
  op_memregpost, Op, Group, Inst, is_uxtw, is_reggp, is_sysreg, is_regsp, is_memuoff, is_memsoff,
  is_branch, is_branchreg,
}
use lfi_verifier.Arm64.State.{Verifier, verr, verr_if, set_guarded}
use lfi_verifier.Arm64.Regs.{
  reg_addr, cfreg, rtsysreg, basereg, retreg, ctxreg, is_x30_guard, fixedreg, addrreg, sysreg,
  sys_dc_zva, isload, okmemop, ok_ctxreg_ldst,
}

abbrev pub unguarded_msg : String
unguarded_msg = "x30 must be guarded before control flow"

-- The code that BR, RET and, unless it branches to the base register, BLR share.
unfoldable pub chk_indirect : Inst → Verifier → Option Verifier
chk_indirect dinst v = do
  require (is_reggp (dinst.ops 0).type)
  let v₁ = verr_if (not (cfreg (dinst.ops 0).reg)) dinst "indirect branch using illegal register" v
  some (verr_if (not v.x30_guarded) dinst unguarded_msg v₁)

-- The default case of chkbranch.
unfoldable pub chk_direct : Group → Inst → Verifier → Option Verifier
chk_direct group dinst v = do
  let v₁ = verr_if (is_branch group && not v.x30_guarded) dinst unguarded_msg v
  require (not (is_branchreg group))
  some v₁

unfoldable pub chkbranch : Group → Inst → Verifier → Option Verifier
unfolding chk_indirect chk_direct
chkbranch group dinst v =
    if is dinst.mnem "DA64I_BLR"
    then (if rtsysreg (dinst.ops 0).reg then some v else chk_indirect dinst v)
    else if one_of ("DA64I_BR" ∷ "DA64I_RET" ∷ []) dinst.mnem
    then chk_indirect dinst v
    else if one_of ("DA64I_RETAA" ∷ "DA64I_RETAB" ∷ []) dinst.mnem
    then some (verr dinst "authenticated returns are not allowed" v)
    else chk_direct group dinst v

unfoldable pub chksys : Inst → Verifier → Option Verifier
chksys dinst v =
    if is dinst.mnem "DA64I_MSR"
    then (do
      require (is_sysreg (dinst.ops 0).type)
      some (verr_if (not (sysreg (dinst.ops 0).sysreg)) dinst "write to illegal sysreg" v))
    else if is dinst.mnem "DA64I_MRS"
    then (do
      require (is_sysreg (dinst.ops 1).type)
      some (verr_if (not (sysreg (dinst.ops 1).sysreg)) dinst "read from illegal sysreg" v))
    else if is dinst.mnem "DA64I_SYS"
    then (if not (is_sysreg (dinst.ops 0).type) || (dinst.ops 0).sysreg != sys_dc_zva
        then some (verr dinst "illegal system instruction" v)
        else do
          require (is_reggp (dinst.ops 1).type)
          some (verr_if ((dinst.ops 1).reg != reg_addr) dinst "dc zva must use x28" v))
    else some v

-- for (size_t i = 0; i < 5; i++), sizeof(dinst->ops) / sizeof(struct Da64Op) being 5.
unfoldable pub for_ops {ℓ} : {A : Type ℓ} → (ℕ → A → A) → A → A
for_ops body v = body 4 (body 3 (body 2 (body 1 (body 0 v))))

-- The body of the loop of chkmemops.
unfoldable pub chkmem_op : Inst → Bool → ℕ → Verifier → Verifier
chkmem_op dinst load i v =
    let op = dinst.ops i in
    let v₁ = verr_if (not (okmemop v.opts op load)) dinst "illegal memory operand" v in
    verr_if
      ((is_memuoff op.type || is_memsoff op.type)
        && (ctxreg v₁.opts op.reg && not (ok_ctxreg_ldst dinst)))
      dinst "context register can only be used with 64-bit ldr/str" v₁

unfoldable pub chkmemops : Inst → Verifier → Verifier
chkmemops dinst v = for_ops (chkmem_op dinst (isload dinst)) v

-- The kinds of operand that name a register which may be written.
abbrev pub is_gp : OpType → Bool
is_gp op_reggp = true
is_gp op_reggpinc = true
is_gp op_reggpext = true
is_gp op_regsp = true
is_gp _ = false

-- ldr x30, [x27, #n] and ldur x30, [x27, #n].
unfoldable pub is_x30_load : Inst → Bool
is_x30_load dinst =
    is dinst.mnem "DA64I_LDR_IMM" && (is_memuoff (dinst.ops 1).type && rtsysreg (dinst.ops 1).reg)
    || is dinst.mnem "DA64I_LDURX" && (is_memsoff (dinst.ops 1).type && rtsysreg (dinst.ops 1).reg)

-- add x28, x27, wN, uxtw, the only way to write x28 or sp.
unfoldable pub is_addr_guard : Inst → Bool
is_addr_guard dinst =
    is dinst.mnem "DA64I_ADD_EXT"
    && (addrreg (dinst.ops 0).reg true
        && ((dinst.ops 0).reggp_sf == 1
            && (basereg (dinst.ops 1).reg
                && (is_uxtw (dinst.ops 2).reggpext_ext
                    && ((dinst.ops 2).reggpext_sf == 0 && (dinst.ops 2).reggpext_shift == 0)))))

-- okmod returns whether the write is legal, and keeps track of x30_guarded.
unfoldable pub okmod : Inst → Op → Verifier → Bool × Verifier
okmod dinst op v =
    if not (is_gp op.type)
    then (true, v)
    else if fixedreg v.opts op.reg
    then (false, v)
    else if not (addrreg op.reg (is_regsp op.type))
    then (true, v)
    else if retreg op.reg
    then (true, set_guarded (is_x30_guard dinst || is_x30_load dinst) v)
    else (is_addr_guard dinst, v)

-- The body of the loop of vchk over the operands that an instruction modifies.
unfoldable pub chkmod_op : Inst → ℕ → ℕ → Verifier → Verifier
chkmod_op dinst mask i v =
    if mask / 2 ^ i % 2 == 1
    then (let (ok, v') = okmod dinst (dinst.ops i) v in
        if ok then v' else verr dinst "illegal modification of reserved register" v')
    else v

-- Whether an operand writes its base register back.
abbrev pub is_prepost : OpType → Bool
is_prepost op_memsoffpre = true
is_prepost op_memsoffpost = true
is_prepost op_memregpost = true
is_prepost _ = false

-- The first loop of chkwriteback: `some memreg` where prepost is set.
unfoldable pub writeback_reg : Inst → Option ℕ
unfolding for_ops
writeback_reg dinst =
    for_ops (λ i found. if is_prepost (dinst.ops i).type then some (dinst.ops i).reg else found)
      none

-- The second loop of chkwriteback: it reports the first such operand, and stops.
unfoldable pub overwrites : Inst → ℕ → Bool
unfolding for_ops
overwrites dinst memreg =
    for_ops
      (λ i found.
        found
        || is_reggp (dinst.ops i).type && ((dinst.ops i).reg == memreg && (dinst.ops i).reg != 31))
      false

unfoldable pub chkwriteback : Inst → Verifier → Verifier
chkwriteback dinst v = elim (writeback_reg dinst) [
  | none ↦ v
  | some memreg ↦ verr_if (overwrites dinst memreg) dinst "unpredictable writeback to register" v
]
