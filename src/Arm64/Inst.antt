-- ===== src/Arm64/Inst.antt =====
-- What src/arm64/verify.c reads of a Da64Inst of the disarm decoder (a third-party header), and the
-- decoder, which is a parameter.
use lfi_verifier.Prelude.{ℕ, Bool, true, false, String}

-- DA_OP_REGGP, ..., DA_OP_SYSREG, and any other kind of operand.
pub data OpType : Type 0 where
  op_reggp op_reggpinc op_reggpext op_regsp : OpType
  op_memuoff op_memsoff op_memsoffpre op_memsoffpost : OpType
  op_memreg op_memregpost op_meminc : OpType
  op_sysreg op_other : OpType

-- DA_EXT_UXTW, and any other extension.
pub data Ext : Type 0 where
  ext_uxtw ext_other : Ext

-- DA64G_BRANCH, ..., DA64G_SWP, and any other group.
pub data Group : Type 0 where
  group_branch group_bcond group_branchreg : Group
  group_casp group_cas group_ldatomic group_swp group_other : Group

-- struct Da64Op. The C overlays the members behind `reg` in a union; here each can be read apart.
pub record Op : Type 0 where
  pub type : OpType
  pub reg : ℕ
  pub reggp_sf : ℕ
  pub reggpext_ext : Ext
  pub reggpext_sf : ℕ
  pub reggpext_shift : ℕ
  pub memreg_ext : Ext
  pub memreg_sc : ℕ
  pub uimm16 : ℕ
  pub simm16 : ℕ  -- int16_t, as its pattern
  pub sysreg : ℕ

-- `mnem` is the name of the DA64I_ enumerator.
pub record Inst : Type 0 where
  pub mnem : String
  pub ops : ℕ → Op

-- da64_decode and DA64_GROUP.
pub record Disarm : Type 0 where
  pub da64_decode : ℕ → Inst
  pub da64_group : String → Group

abbrev pub is_uxtw : Ext → Bool
is_uxtw ext_uxtw = true
is_uxtw ext_other = false

abbrev pub is_reggp : OpType → Bool
is_reggp op_reggp = true
is_reggp _ = false

abbrev pub is_sysreg : OpType → Bool
is_sysreg op_sysreg = true
is_sysreg _ = false

abbrev pub is_regsp : OpType → Bool
is_regsp op_regsp = true
is_regsp _ = false

abbrev pub is_memuoff : OpType → Bool
is_memuoff op_memuoff = true
is_memuoff _ = false

abbrev pub is_memsoff : OpType → Bool
is_memsoff op_memsoff = true
is_memsoff _ = false

-- DA64_GROUP(mnem) is DA64G_BRANCH, DA64G_BCOND or DA64G_BRANCHREG.
abbrev pub is_branch : Group → Bool
is_branch group_branch = true
is_branch group_bcond = true
is_branch group_branchreg = true
is_branch _ = false

abbrev pub is_branchreg : Group → Bool
is_branchreg group_branchreg = true
is_branchreg _ = false
