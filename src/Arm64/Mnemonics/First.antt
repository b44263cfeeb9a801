-- ===== src/Arm64/Mnemonics/First.antt =====
-- src/arm64/base.instrs: the mnemonics of its first 600 lines.
use lfi_verifier.Prelude.{String, List, [], ◌∷◌}

-- Lines 1 to 150.
abbrev pub part_0 : List String
part_0 =
    "DA64I_UDF" ∷ "DA64I_ADC" ∷ "DA64I_ADCS" ∷ "DA64I_SBC" ∷ "DA64I_SBCS" ∷ "DA64I_ADD_EXT"
    ∷ "DA64I_ADDS_EXT" ∷ "DA64I_SUB_EXT" ∷ "DA64I_SUBS_EXT" ∷ "DA64I_ADD_IMM" ∷ "DA64I_ADDS_IMM"
    ∷ "DA64I_SUB_IMM" ∷ "DA64I_SUBS_IMM" ∷ "DA64I_ADD_SHIFT" ∷ "DA64I_ADDS_SHIFT"
    ∷ "DA64I_SUB_SHIFT" ∷ "DA64I_SUBS_SHIFT" ∷ "DA64I_ADR" ∷ "DA64I_ADRP" ∷ "DA64I_AND_IMM"
    ∷ "DA64I_ORR_IMM" ∷ "DA64I_EOR_IMM" ∷ "DA64I_ANDS_IMM" ∷ "DA64I_AND_SHIFT" ∷ "DA64I_BIC_SHIFT"
    ∷ "DA64I_ORR_SHIFT" ∷ "DA64I_ORN_SHIFT" ∷ "DA64I_EOR_SHIFT" ∷ "DA64I_EON_SHIFT"
    ∷ "DA64I_ANDS_SHIFT" ∷ "DA64I_BICS_SHIFT" ∷ "DA64I_LSLV" ∷ "DA64I_LSRV" ∷ "DA64I_ASRV"
    ∷ "DA64I_RORV" ∷ "DA64I_MADD" ∷ "DA64I_MSUB" ∷ "DA64I_SMADDL" ∷ "DA64I_SMSUBL" ∷ "DA64I_UMADDL"
    ∷ "DA64I_UMSUBL" ∷ "DA64I_SMULH" ∷ "DA64I_UMULH" ∷ "DA64I_BCOND" ∷ "DA64I_B" ∷ "DA64I_BL"
    ∷ "DA64I_SBFM" ∷ "DA64I_BFM" ∷ "DA64I_UBFM" ∷ "DA64I_BR" ∷ "DA64I_BLR" ∷ "DA64I_RET"
    ∷ "DA64I_RETAA" ∷ "DA64I_RETAB" ∷ "DA64I_BRK" ∷ "DA64I_CBZ" ∷ "DA64I_CBNZ" ∷ "DA64I_TBZ"
    ∷ "DA64I_TBNZ" ∷ "DA64I_CCMN_IMM" ∷ "DA64I_CCMP_IMM" ∷ "DA64I_CCMN_REG" ∷ "DA64I_CCMP_REG"
    ∷ "DA64I_CLREX" ∷ "DA64I_DSB" ∷ "DA64I_DMB" ∷ "DA64I_ISB" ∷ "DA64I_CLZ" ∷ "DA64I_CLS"
    ∷ "DA64I_CSEL" ∷ "DA64I_CSINC" ∷ "DA64I_CSINV" ∷ "DA64I_CSNEG" ∷ "DA64I_EXTR" ∷ "DA64I_MOVN"
    ∷ "DA64I_MOVZ" ∷ "DA64I_MOVK" ∷ "DA64I_SYS" ∷ "DA64I_MSR" ∷ "DA64I_MRS" ∷ "DA64I_RBIT"
    ∷ "DA64I_REV16" ∷ "DA64I_REV" ∷ "DA64I_REV32" ∷ "DA64I_REV64" ∷ "DA64I_UDIV" ∷ "DA64I_SDIV"
    ∷ "DA64I_STLRB" ∷ "DA64I_LDARB" ∷ "DA64I_STLRH" ∷ "DA64I_LDARH" ∷ "DA64I_STLRW" ∷ "DA64I_LDARW"
    ∷ "DA64I_STLR" ∷ "DA64I_LDAR" ∷ "DA64I_STXRB" ∷ "DA64I_STLXRB" ∷ "DA64I_LDXRB" ∷ "DA64I_LDAXRB"
    ∷ "DA64I_STXRH" ∷ "DA64I_STLXRH" ∷ "DA64I_LDXRH" ∷ "DA64I_LDAXRH" ∷ "DA64I_STXRW"
    ∷ "DA64I_STLXRW" ∷ "DA64I_STXPW" ∷ "DA64I_STLXPW" ∷ "DA64I_LDXRW" ∷ "DA64I_LDAXRW"
    ∷ "DA64I_LDXPW" ∷ "DA64I_LDAXPW" ∷ "DA64I_STXRX" ∷ "DA64I_STLXRX" ∷ "DA64I_STXPX"
    ∷ "DA64I_STLXPX" ∷ "DA64I_LDXRX" ∷ "DA64I_LDAXRX" ∷ "DA64I_LDXPX" ∷ "DA64I_LDAXPX"
    ∷ "DA64I_STNPW" ∷ "DA64I_LDNPW" ∷ "DA64I_STNPX" ∷ "DA64I_LDNPX" ∷ "DA64I_STPW_POST"
    ∷ "DA64I_LDPW_POST" ∷ "DA64I_STPW" ∷ "DA64I_LDPW" ∷ "DA64I_STPW_PRE" ∷ "DA64I_LDPW_PRE"
    ∷ "DA64I_LDPSW_POST" ∷ "DA64I_LDPSW" ∷ "DA64I_LDPSW_PRE" ∷ "DA64I_STPX_POST" ∷ "DA64I_LDPX_POST"
    ∷ "DA64I_STPX" ∷ "DA64I_LDPX" ∷ "DA64I_STPX_PRE" ∷ []

-- Lines 151 to 300.
abbrev pub part_1 : List String
part_1 =
    "DA64I_LDPX_PRE" ∷ "DA64I_STURB" ∷ "DA64I_STRB_POST" ∷ "DA64I_STTRB" ∷ "DA64I_STRB_PRE"
    ∷ "DA64I_LDURB" ∷ "DA64I_LDRB_POST" ∷ "DA64I_LDTRB" ∷ "DA64I_LDRB_PRE" ∷ "DA64I_LDURSB"
    ∷ "DA64I_LDRSB_POST" ∷ "DA64I_LDTRSB" ∷ "DA64I_LDRSB_PRE" ∷ "DA64I_LDURSBW"
    ∷ "DA64I_LDRSBW_POST" ∷ "DA64I_LDTRSBW" ∷ "DA64I_LDRSBW_PRE" ∷ "DA64I_STURH" ∷ "DA64I_STRH_POST"
    ∷ "DA64I_STTRH" ∷ "DA64I_STRH_PRE" ∷ "DA64I_LDURH" ∷ "DA64I_LDRH_POST" ∷ "DA64I_LDTRH"
    ∷ "DA64I_LDRH_PRE" ∷ "DA64I_LDURSH" ∷ "DA64I_LDRSH_POST" ∷ "DA64I_LDTRSH" ∷ "DA64I_LDRSH_PRE"
    ∷ "DA64I_LDURSHW" ∷ "DA64I_LDRSHW_POST" ∷ "DA64I_LDTRSHW" ∷ "DA64I_LDRSHW_PRE" ∷ "DA64I_STURW"
    ∷ "DA64I_STRW_POST" ∷ "DA64I_STTRW" ∷ "DA64I_STRW_PRE" ∷ "DA64I_LDURW" ∷ "DA64I_LDRW_POST"
    ∷ "DA64I_LDTRW" ∷ "DA64I_LDRW_PRE" ∷ "DA64I_LDURSW" ∷ "DA64I_LDRSW_POST" ∷ "DA64I_LDTRSW"
    ∷ "DA64I_LDRSW_PRE" ∷ "DA64I_STURX" ∷ "DA64I_STRX_POST" ∷ "DA64I_STTRX" ∷ "DA64I_STRX_PRE"
    ∷ "DA64I_LDURX" ∷ "DA64I_LDRX_POST" ∷ "DA64I_LDTRX" ∷ "DA64I_LDRX_PRE" ∷ "DA64I_PRFUM"
    ∷ "DA64I_STRB_IMM" ∷ "DA64I_LDRB_IMM" ∷ "DA64I_LDRSB_IMM" ∷ "DA64I_LDRSBW_IMM"
    ∷ "DA64I_STRH_IMM" ∷ "DA64I_LDRH_IMM" ∷ "DA64I_LDRSH_IMM" ∷ "DA64I_LDRSHW_IMM"
    ∷ "DA64I_STRW_IMM" ∷ "DA64I_LDRW_IMM" ∷ "DA64I_LDRSW_IMM" ∷ "DA64I_STR_IMM" ∷ "DA64I_LDR_IMM"
    ∷ "DA64I_PRFM_IMM" ∷ "DA64I_STRB_REG" ∷ "DA64I_LDRB_REG" ∷ "DA64I_LDRSB_REG"
    ∷ "DA64I_LDRSBW_REG" ∷ "DA64I_STRH_REG" ∷ "DA64I_LDRH_REG" ∷ "DA64I_LDRSH_REG"
    ∷ "DA64I_LDRSHW_REG" ∷ "DA64I_STRW_REG" ∷ "DA64I_LDRW_REG" ∷ "DA64I_LDRSW_REG" ∷ "DA64I_STR_REG"
    ∷ "DA64I_LDR_REG" ∷ "DA64I_PRFM_REG" ∷ "DA64I_STNP_FP" ∷ "DA64I_LDNP_FP" ∷ "DA64I_STP_FP_POST"
    ∷ "DA64I_LDP_FP_POST" ∷ "DA64I_STP_FP" ∷ "DA64I_LDP_FP" ∷ "DA64I_STP_FP_PRE"
    ∷ "DA64I_LDP_FP_PRE" ∷ "DA64I_STUR_FP" ∷ "DA64I_STR_FP_POST" ∷ "DA64I_STR_FP_PRE"
    ∷ "DA64I_LDUR_FP" ∷ "DA64I_LDR_FP_POST" ∷ "DA64I_LDR_FP_PRE" ∷ "DA64I_STR_IMM_FP"
    ∷ "DA64I_LDR_IMM_FP" ∷ "DA64I_STR_REG_FP" ∷ "DA64I_LDR_REG_FP" ∷ "DA64I_ST4" ∷ "DA64I_ST1_4"
    ∷ "DA64I_ST3" ∷ "DA64I_ST1_3" ∷ "DA64I_ST1_1" ∷ "DA64I_ST2" ∷ "DA64I_ST1_2" ∷ "DA64I_LD4"
    ∷ "DA64I_LD1_4" ∷ "DA64I_LD3" ∷ "DA64I_LD1_3" ∷ "DA64I_LD1_1" ∷ "DA64I_LD2" ∷ "DA64I_LD1_2"
    ∷ "DA64I_ST4_POST" ∷ "DA64I_ST1_4_POST" ∷ "DA64I_ST3_POST" ∷ "DA64I_ST1_3_POST"
    ∷ "DA64I_ST1_1_POST" ∷ "DA64I_ST2_POST" ∷ "DA64I_ST1_2_POST" ∷ "DA64I_LD4_POST"
    ∷ "DA64I_LD1_4_POST" ∷ "DA64I_LD3_POST" ∷ "DA64I_LD1_3_POST" ∷ "DA64I_LD1_1_POST"
    ∷ "DA64I_LD2_POST" ∷ "DA64I_LD1_2_POST" ∷ "DA64I_ST1B" ∷ "DA64I_ST3B" ∷ "DA64I_ST1H"
    ∷ "DA64I_ST3H" ∷ "DA64I_ST1S" ∷ "DA64I_ST1D" ∷ "DA64I_ST3S" ∷ "DA64I_ST3D" ∷ "DA64I_ST2B"
    ∷ "DA64I_ST4B" ∷ "DA64I_ST2H" ∷ "DA64I_ST4H" ∷ "DA64I_ST2S" ∷ "DA64I_ST2D" ∷ "DA64I_ST4S"
    ∷ "DA64I_ST4D" ∷ "DA64I_LD1B" ∷ []

-- Lines 301 to 450.
abbrev pub part_2 : List String
part_2 =
    "DA64I_LD3B" ∷ "DA64I_LD1H" ∷ "DA64I_LD3H" ∷ "DA64I_LD1S" ∷ "DA64I_LD1D" ∷ "DA64I_LD3S"
    ∷ "DA64I_LD3D" ∷ "DA64I_LD2B" ∷ "DA64I_LD4B" ∷ "DA64I_LD2H" ∷ "DA64I_LD4H" ∷ "DA64I_LD2S"
    ∷ "DA64I_LD2D" ∷ "DA64I_LD4S" ∷ "DA64I_LD4D" ∷ "DA64I_ST1B_POST" ∷ "DA64I_ST3B_POST"
    ∷ "DA64I_ST1H_POST" ∷ "DA64I_ST3H_POST" ∷ "DA64I_ST1S_POST" ∷ "DA64I_ST1D_POST"
    ∷ "DA64I_ST3S_POST" ∷ "DA64I_ST3D_POST" ∷ "DA64I_ST2B_POST" ∷ "DA64I_ST4B_POST"
    ∷ "DA64I_ST2H_POST" ∷ "DA64I_ST4H_POST" ∷ "DA64I_ST2S_POST" ∷ "DA64I_ST2D_POST"
    ∷ "DA64I_ST4S_POST" ∷ "DA64I_ST4D_POST" ∷ "DA64I_LD1B_POST" ∷ "DA64I_LD3B_POST"
    ∷ "DA64I_LD1H_POST" ∷ "DA64I_LD3H_POST" ∷ "DA64I_LD1S_POST" ∷ "DA64I_LD1D_POST"
    ∷ "DA64I_LD3S_POST" ∷ "DA64I_LD3D_POST" ∷ "DA64I_LD2B_POST" ∷ "DA64I_LD4B_POST"
    ∷ "DA64I_LD2H_POST" ∷ "DA64I_LD4H_POST" ∷ "DA64I_LD2S_POST" ∷ "DA64I_LD2D_POST"
    ∷ "DA64I_LD4S_POST" ∷ "DA64I_LD4D_POST" ∷ "DA64I_LD1R" ∷ "DA64I_LD3R" ∷ "DA64I_LD2R"
    ∷ "DA64I_LD4R" ∷ "DA64I_LD1R_POST" ∷ "DA64I_LD3R_POST" ∷ "DA64I_LD2R_POST" ∷ "DA64I_LD4R_POST"
    ∷ "DA64I_FCVTZS_FIX" ∷ "DA64I_FCVTZU_FIX" ∷ "DA64I_SCVTF_FIX" ∷ "DA64I_UCVTF_FIX"
    ∷ "DA64I_FCVTNS" ∷ "DA64I_FCVTNU" ∷ "DA64I_FCVTAS" ∷ "DA64I_FCVTAU" ∷ "DA64I_FCVTPS"
    ∷ "DA64I_FCVTPU" ∷ "DA64I_FCVTMS" ∷ "DA64I_FCVTMU" ∷ "DA64I_FCVTZS" ∷ "DA64I_FCVTZU"
    ∷ "DA64I_SCVTF" ∷ "DA64I_UCVTF" ∷ "DA64I_FMOV_TOGP" ∷ "DA64I_FMOV_TOGP_HIGH" ∷ "DA64I_FMOV_FROM"
    ∷ "DA64I_FMOV_FROM_HIGH" ∷ "DA64I_FCVT" ∷ "DA64I_FRINTN" ∷ "DA64I_FRINTP" ∷ "DA64I_FRINTM"
    ∷ "DA64I_FRINTZ" ∷ "DA64I_FRINTA" ∷ "DA64I_FRINTX" ∷ "DA64I_FRINTI" ∷ "DA64I_FMOV"
    ∷ "DA64I_FABS" ∷ "DA64I_FNEG" ∷ "DA64I_FSQRT" ∷ "DA64I_FMOV_IMM" ∷ "DA64I_FMUL" ∷ "DA64I_FDIV"
    ∷ "DA64I_FADD" ∷ "DA64I_FSUB" ∷ "DA64I_FMAX" ∷ "DA64I_FMIN" ∷ "DA64I_FMAXNM" ∷ "DA64I_FMINNM"
    ∷ "DA64I_FNMUL" ∷ "DA64I_FCMP" ∷ "DA64I_FCMP_ZERO" ∷ "DA64I_FCMPE" ∷ "DA64I_FCMPE_ZERO"
    ∷ "DA64I_FCCMP" ∷ "DA64I_FCCMPE" ∷ "DA64I_FCSEL" ∷ "DA64I_FMADD" ∷ "DA64I_FMSUB"
    ∷ "DA64I_FNMADD" ∷ "DA64I_FNMSUB" ∷ "DA64I_DUP_SCALAR" ∷ "DA64I_DUP_ELEM" ∷ "DA64I_DUP_GP"
    ∷ "DA64I_INS_GP" ∷ "DA64I_INS_ELEM" ∷ "DA64I_SMOV" ∷ "DA64I_UMOV" ∷ "DA64I_TBL1" ∷ "DA64I_TBX1"
    ∷ "DA64I_TBL2" ∷ "DA64I_TBX2" ∷ "DA64I_TBL3" ∷ "DA64I_TBX3" ∷ "DA64I_TBL4" ∷ "DA64I_TBX4"
    ∷ "DA64I_UZP1" ∷ "DA64I_TRN1" ∷ "DA64I_ZIP1" ∷ "DA64I_UZP2" ∷ "DA64I_TRN2" ∷ "DA64I_ZIP2"
    ∷ "DA64I_EXT" ∷ "DA64I_SHADD" ∷ "DA64I_SRHADD" ∷ "DA64I_SHSUB" ∷ "DA64I_UHADD" ∷ "DA64I_URHADD"
    ∷ "DA64I_UHSUB" ∷ "DA64I_SQADD_SCALAR" ∷ "DA64I_SQSUB_SCALAR" ∷ "DA64I_UQADD_SCALAR"
    ∷ "DA64I_UQSUB_SCALAR" ∷ "DA64I_SQADD" ∷ "DA64I_SQSUB" ∷ "DA64I_UQADD" ∷ "DA64I_UQSUB"
    ∷ "DA64I_CMGT" ∷ "DA64I_CMGE" ∷ "DA64I_CMHI" ∷ "DA64I_CMHS" ∷ "DA64I_CMGTV" ∷ "DA64I_CMGEV" ∷ []

-- Lines 451 to 600.
abbrev pub part_3 : List String
part_3 =
    "DA64I_CMHIV" ∷ "DA64I_CMHSV" ∷ "DA64I_CMTST" ∷ "DA64I_CMEQ" ∷ "DA64I_CMTSTV" ∷ "DA64I_CMEQV"
    ∷ "DA64I_CMGT_ZERO" ∷ "DA64I_CMEQ_ZERO" ∷ "DA64I_CMLT_ZERO" ∷ "DA64I_CMGE_ZERO"
    ∷ "DA64I_CMLE_ZERO" ∷ "DA64I_CMGT_ZERO_VEC" ∷ "DA64I_CMEQ_ZERO_VEC" ∷ "DA64I_CMLT_ZERO_VEC"
    ∷ "DA64I_CMGE_ZERO_VEC" ∷ "DA64I_CMLE_ZERO_VEC" ∷ "DA64I_SUQADD_SCALAR" ∷ "DA64I_SQABS_SCALAR"
    ∷ "DA64I_ABS_SCALAR" ∷ "DA64I_USQADD_SCALAR" ∷ "DA64I_SQNEG_SCALAR" ∷ "DA64I_NEG_SCALAR"
    ∷ "DA64I_SUQADD_VEC" ∷ "DA64I_SQABS_VEC" ∷ "DA64I_ABS_VEC" ∷ "DA64I_USQADD_VEC"
    ∷ "DA64I_SQNEG_VEC" ∷ "DA64I_NEG_VEC" ∷ "DA64I_SADDLP" ∷ "DA64I_SADALP" ∷ "DA64I_UADDLP"
    ∷ "DA64I_UADALP" ∷ "DA64I_CLS_VEC" ∷ "DA64I_CLZ_VEC" ∷ "DA64I_CNT_VEC" ∷ "DA64I_NOT_VEC"
    ∷ "DA64I_RBIT_VEC" ∷ "DA64I_REV64_VEC" ∷ "DA64I_REV16_VEC" ∷ "DA64I_REV32_VEC"
    ∷ "DA64I_SQXTN_SCALAR" ∷ "DA64I_SQXTUN_SCALAR" ∷ "DA64I_UQXTN_SCALAR" ∷ "DA64I_XTN_VEC"
    ∷ "DA64I_SQXTN_VEC" ∷ "DA64I_SQXTUN_VEC" ∷ "DA64I_UQXTN_VEC" ∷ "DA64I_XTN2_VEC"
    ∷ "DA64I_SQXTN2_VEC" ∷ "DA64I_SQXTUN2_VEC" ∷ "DA64I_UQXTN2_VEC" ∷ "DA64I_SQSHL_SCALAR"
    ∷ "DA64I_SQRSHL_SCALAR" ∷ "DA64I_SSHL_SCALAR" ∷ "DA64I_SRSHL_SCALAR" ∷ "DA64I_UQSHL_SCALAR"
    ∷ "DA64I_UQRSHL_SCALAR" ∷ "DA64I_USHL_SCALAR" ∷ "DA64I_URSHL_SCALAR" ∷ "DA64I_SSHL"
    ∷ "DA64I_SQSHL" ∷ "DA64I_SRSHL" ∷ "DA64I_SQRSHL" ∷ "DA64I_USHL" ∷ "DA64I_UQSHL" ∷ "DA64I_URSHL"
    ∷ "DA64I_UQRSHL" ∷ "DA64I_SMAX" ∷ "DA64I_SMIN" ∷ "DA64I_SMAXP" ∷ "DA64I_SMINP" ∷ "DA64I_UMAX"
    ∷ "DA64I_UMIN" ∷ "DA64I_UMAXP" ∷ "DA64I_UMINP" ∷ "DA64I_SABD" ∷ "DA64I_SABA" ∷ "DA64I_UABD"
    ∷ "DA64I_UABA" ∷ "DA64I_ADD_SCALAR" ∷ "DA64I_SUB_SCALAR" ∷ "DA64I_ADD_VEC" ∷ "DA64I_SUB_VEC"
    ∷ "DA64I_ADDP" ∷ "DA64I_MLA_VEC" ∷ "DA64I_MUL_VEC" ∷ "DA64I_MLS_VEC" ∷ "DA64I_PMUL_VEC"
    ∷ "DA64I_SQDMULH_SCALAR" ∷ "DA64I_SQRDMULH_SCALAR" ∷ "DA64I_SQDMULH" ∷ "DA64I_SQRDMULH"
    ∷ "DA64I_FMAXNM_VEC" ∷ "DA64I_FMAX_VEC" ∷ "DA64I_FMINNM_VEC" ∷ "DA64I_FMIN_VEC"
    ∷ "DA64I_FMAXNMP_VEC" ∷ "DA64I_FMAXP_VEC" ∷ "DA64I_FMINNMP_VEC" ∷ "DA64I_FMINP_VEC"
    ∷ "DA64I_FCMEQ" ∷ "DA64I_FCMGE" ∷ "DA64I_FACGE" ∷ "DA64I_FCMGT" ∷ "DA64I_FACGT"
    ∷ "DA64I_FCMGT_ZERO" ∷ "DA64I_FCMEQ_ZERO" ∷ "DA64I_FCMLT_ZERO" ∷ "DA64I_FCMGE_ZERO"
    ∷ "DA64I_FCMLE_ZERO" ∷ "DA64I_FCMEQ_VEC" ∷ "DA64I_FCMGE_VEC" ∷ "DA64I_FACGE_VEC"
    ∷ "DA64I_FCMGT_VEC" ∷ "DA64I_FACGT_VEC" ∷ "DA64I_FCMGT_ZERO_VEC" ∷ "DA64I_FCMEQ_ZERO_VEC"
    ∷ "DA64I_FCMLT_ZERO_VEC" ∷ "DA64I_FCMGE_ZERO_VEC" ∷ "DA64I_FCMLE_ZERO_VEC" ∷ "DA64I_FABS_VEC"
    ∷ "DA64I_FNEG_VEC" ∷ "DA64I_FSQRT_VEC" ∷ "DA64I_FABD" ∷ "DA64I_FADD_VEC" ∷ "DA64I_FSUB_VEC"
    ∷ "DA64I_FADDP_VEC" ∷ "DA64I_FABD_VEC" ∷ "DA64I_FRECPE_SCALAR" ∷ "DA64I_FRECPX_SCALAR"
    ∷ "DA64I_FRSQRTE_SCALAR" ∷ "DA64I_URECPE_VEC" ∷ "DA64I_FRECPE_VEC" ∷ "DA64I_URSQRTE_VEC"
    ∷ "DA64I_FRSQRTE_VEC" ∷ "DA64I_FRECPS" ∷ "DA64I_FRSQRTS" ∷ "DA64I_FRECPSV" ∷ "DA64I_FRSQRTSV"
    ∷ "DA64I_FMULX" ∷ "DA64I_FMULXV" ∷ "DA64I_FMULV" ∷ "DA64I_FMLAV" ∷ "DA64I_FMLSV" ∷ "DA64I_FDIVV"
    ∷ "DA64I_ANDV" ∷ "DA64I_BICV" ∷ "DA64I_ORRV" ∷ "DA64I_ORNV" ∷ "DA64I_EORV" ∷ []
