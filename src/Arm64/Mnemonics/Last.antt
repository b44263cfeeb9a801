-- ===== src/Arm64/Mnemonics/Last.antt =====
-- src/arm64/base.instrs: the mnemonics from its line 601 on.
use lfi_verifier.Prelude.{String, List, [], ◌∷◌}

-- Lines 601 to 750.
abbrev pub part_4 : List String
part_4 =
    "DA64I_BSLV" ∷ "DA64I_BITV" ∷ "DA64I_BIFV" ∷ "DA64I_SADDL" ∷ "DA64I_SSUBL" ∷ "DA64I_UADDL"
    ∷ "DA64I_USUBL" ∷ "DA64I_SADDL2" ∷ "DA64I_SSUBL2" ∷ "DA64I_UADDL2" ∷ "DA64I_USUBL2"
    ∷ "DA64I_SADDW" ∷ "DA64I_SSUBW" ∷ "DA64I_UADDW" ∷ "DA64I_USUBW" ∷ "DA64I_SADDW2"
    ∷ "DA64I_SSUBW2" ∷ "DA64I_UADDW2" ∷ "DA64I_USUBW2" ∷ "DA64I_ADDHN" ∷ "DA64I_SUBHN"
    ∷ "DA64I_RADDHN" ∷ "DA64I_RSUBHN" ∷ "DA64I_ADDHN2" ∷ "DA64I_SUBHN2" ∷ "DA64I_RADDHN2"
    ∷ "DA64I_RSUBHN2" ∷ "DA64I_SABAL" ∷ "DA64I_SABDL" ∷ "DA64I_UABAL" ∷ "DA64I_UABDL"
    ∷ "DA64I_SABAL2" ∷ "DA64I_SABDL2" ∷ "DA64I_UABAL2" ∷ "DA64I_UABDL2" ∷ "DA64I_SMLAL"
    ∷ "DA64I_SMLSL" ∷ "DA64I_SMULL" ∷ "DA64I_UMLAL" ∷ "DA64I_UMLSL" ∷ "DA64I_UMULL" ∷ "DA64I_SMLAL2"
    ∷ "DA64I_SMLSL2" ∷ "DA64I_SMULL2" ∷ "DA64I_UMLAL2" ∷ "DA64I_UMLSL2" ∷ "DA64I_UMULL2"
    ∷ "DA64I_SQDMLAL_SCALAR" ∷ "DA64I_SQDMLSL_SCALAR" ∷ "DA64I_SQDMULL_SCALAR" ∷ "DA64I_SQDMLAL"
    ∷ "DA64I_SQDMLSL" ∷ "DA64I_SQDMULL" ∷ "DA64I_SQDMLAL2" ∷ "DA64I_SQDMLSL2" ∷ "DA64I_SQDMULL2"
    ∷ "DA64I_PMULL" ∷ "DA64I_PMULL64" ∷ "DA64I_PMULL2" ∷ "DA64I_PMULL264" ∷ "DA64I_SSHR_SCALAR"
    ∷ "DA64I_SSRA_SCALAR" ∷ "DA64I_SRSHR_SCALAR" ∷ "DA64I_SRSRA_SCALAR" ∷ "DA64I_USHR_SCALAR"
    ∷ "DA64I_USRA_SCALAR" ∷ "DA64I_URSHR_SCALAR" ∷ "DA64I_URSRA_SCALAR" ∷ "DA64I_SSHR"
    ∷ "DA64I_SSRA" ∷ "DA64I_SRSHR" ∷ "DA64I_SRSRA" ∷ "DA64I_USHR" ∷ "DA64I_USRA" ∷ "DA64I_URSHR"
    ∷ "DA64I_URSRA" ∷ "DA64I_SQSHL_IMM_SCALAR" ∷ "DA64I_SQSHLU_IMM_SCALAR"
    ∷ "DA64I_UQSHL_IMM_SCALAR" ∷ "DA64I_SQSHL_IMM" ∷ "DA64I_SQSHLU_IMM" ∷ "DA64I_UQSHL_IMM"
    ∷ "DA64I_SQSHRN_SCALAR" ∷ "DA64I_SQRSHRN_SCALAR" ∷ "DA64I_SQSHRUN_SCALAR"
    ∷ "DA64I_SQRSHRUN_SCALAR" ∷ "DA64I_UQSHRN_SCALAR" ∷ "DA64I_UQRSHRN_SCALAR" ∷ "DA64I_SHRN"
    ∷ "DA64I_RSHRN" ∷ "DA64I_SQSHRN" ∷ "DA64I_SQRSHRN" ∷ "DA64I_SQSHRUN" ∷ "DA64I_SQRSHRUN"
    ∷ "DA64I_UQSHRN" ∷ "DA64I_UQRSHRN" ∷ "DA64I_SHRN2" ∷ "DA64I_RSHRN2" ∷ "DA64I_SQSHRN2"
    ∷ "DA64I_SQRSHRN2" ∷ "DA64I_SQSHRUN2" ∷ "DA64I_SQRSHRUN2" ∷ "DA64I_UQSHRN2" ∷ "DA64I_UQRSHRN2"
    ∷ "DA64I_SSHLL" ∷ "DA64I_USHLL" ∷ "DA64I_SSHLL2" ∷ "DA64I_USHLL2" ∷ "DA64I_SHLL_VEC_ESZ"
    ∷ "DA64I_SHLL2_VEC_ESZ" ∷ "DA64I_SHL_SCALAR" ∷ "DA64I_SRI_SCALAR" ∷ "DA64I_SLI_SCALAR"
    ∷ "DA64I_SHL" ∷ "DA64I_SRI" ∷ "DA64I_SLI" ∷ "DA64I_SCVTF_SCALAR_FIX" ∷ "DA64I_FCVTZS_SCALAR_FIX"
    ∷ "DA64I_UCVTF_SCALAR_FIX" ∷ "DA64I_FCVTZU_SCALAR_FIX" ∷ "DA64I_SCVTF_VEC_FIX"
    ∷ "DA64I_FCVTZS_VEC_FIX" ∷ "DA64I_UCVTF_VEC_FIX" ∷ "DA64I_FCVTZU_VEC_FIX"
    ∷ "DA64I_FCVTNS_SCALAR" ∷ "DA64I_FCVTMS_SCALAR" ∷ "DA64I_FCVTAS_SCALAR" ∷ "DA64I_FCVTPS_SCALAR"
    ∷ "DA64I_FCVTZS_SCALAR" ∷ "DA64I_FCVTNU_SCALAR" ∷ "DA64I_FCVTMU_SCALAR" ∷ "DA64I_FCVTAU_SCALAR"
    ∷ "DA64I_FCVTPU_SCALAR" ∷ "DA64I_FCVTZU_SCALAR" ∷ "DA64I_FCVTNS_VEC" ∷ "DA64I_FCVTMS_VEC"
    ∷ "DA64I_FCVTAS_VEC" ∷ "DA64I_FCVTPS_VEC" ∷ "DA64I_FCVTZS_VEC" ∷ "DA64I_FCVTNU_VEC"
    ∷ "DA64I_FCVTMU_VEC" ∷ "DA64I_FCVTAU_VEC" ∷ "DA64I_FCVTPU_VEC" ∷ "DA64I_FCVTZU_VEC"
    ∷ "DA64I_FCVTL_VEC" ∷ "DA64I_FCVTL2_VEC" ∷ "DA64I_SCVTF_VEC_SCALAR" ∷ "DA64I_UCVTF_VEC_SCALAR"
    ∷ "DA64I_SCVTF_VEC" ∷ "DA64I_UCVTF_VEC" ∷ []

-- Lines 751 to 900.
abbrev pub part_5 : List String
part_5 =
    "DA64I_FCVTXN_SCALAR" ∷ "DA64I_FCVTN" ∷ "DA64I_FCVTXN" ∷ "DA64I_FCVTN2" ∷ "DA64I_FCVTXN2"
    ∷ "DA64I_FRINTN_VEC" ∷ "DA64I_FRINTM_VEC" ∷ "DA64I_FRINTP_VEC" ∷ "DA64I_FRINTZ_VEC"
    ∷ "DA64I_FRINTA_VEC" ∷ "DA64I_FRINTX_VEC" ∷ "DA64I_FRINTI_VEC" ∷ "DA64I_ADDP_SCALAR"
    ∷ "DA64I_SADDLV" ∷ "DA64I_SMAXV" ∷ "DA64I_SMINV" ∷ "DA64I_ADDV" ∷ "DA64I_UADDLV" ∷ "DA64I_UMAXV"
    ∷ "DA64I_UMINV" ∷ "DA64I_FMAXNMP_SCALAR" ∷ "DA64I_FADDP_SCALAR" ∷ "DA64I_FMAXP_SCALAR"
    ∷ "DA64I_FMINNMP_SCALAR" ∷ "DA64I_FMINP_SCALAR" ∷ "DA64I_FMAXNMV" ∷ "DA64I_FMAXV"
    ∷ "DA64I_FMINNMV" ∷ "DA64I_FMINV" ∷ "DA64I_SQDMULH_ELEM_SCALAR" ∷ "DA64I_SQRDMULH_ELEM_SCALAR"
    ∷ "DA64I_MUL_ELEM" ∷ "DA64I_SQDMULH_ELEM" ∷ "DA64I_SQRDMULH_ELEM" ∷ "DA64I_MLA_ELEM"
    ∷ "DA64I_MLS_ELEM" ∷ "DA64I_SQDMLAL_ELEM_SCALAR" ∷ "DA64I_SQDMLSL_ELEM_SCALAR"
    ∷ "DA64I_SQDMULL_ELEM_SCALAR" ∷ "DA64I_SMLAL_ELEM" ∷ "DA64I_SQDMLAL_ELEM" ∷ "DA64I_SMLSL_ELEM"
    ∷ "DA64I_SQDMLSL_ELEM" ∷ "DA64I_SMULL_ELEM" ∷ "DA64I_SQDMULL_ELEM" ∷ "DA64I_UMLAL_ELEM"
    ∷ "DA64I_UMLSL_ELEM" ∷ "DA64I_UMULL_ELEM" ∷ "DA64I_SMLAL2_ELEM" ∷ "DA64I_SQDMLAL2_ELEM"
    ∷ "DA64I_SMLSL2_ELEM" ∷ "DA64I_SQDMLSL2_ELEM" ∷ "DA64I_SMULL2_ELEM" ∷ "DA64I_SQDMULL2_ELEM"
    ∷ "DA64I_UMLAL2_ELEM" ∷ "DA64I_UMLSL2_ELEM" ∷ "DA64I_UMULL2_ELEM" ∷ "DA64I_FMLA_ELEM_SCALAR"
    ∷ "DA64I_FMLS_ELEM_SCALAR" ∷ "DA64I_FMUL_ELEM_SCALAR" ∷ "DA64I_FMULX_ELEM_SCALAR"
    ∷ "DA64I_FMLA_ELEM" ∷ "DA64I_FMLS_ELEM" ∷ "DA64I_FMUL_ELEM" ∷ "DA64I_FMULX_ELEM"
    ∷ "DA64I_MOVI32" ∷ "DA64I_ORRI32" ∷ "DA64I_MOVI16" ∷ "DA64I_ORRI16" ∷ "DA64I_MOVI32_MSL"
    ∷ "DA64I_MOVI8" ∷ "DA64I_FMOV32" ∷ "DA64I_MVNI32" ∷ "DA64I_BICI32" ∷ "DA64I_MVNI16"
    ∷ "DA64I_BICI16" ∷ "DA64I_MVNI32_MSL" ∷ "DA64I_MOVI64" ∷ "DA64I_FMOV64" ∷ "DA64I_CASB"
    ∷ "DA64I_CASLB" ∷ "DA64I_CASAB" ∷ "DA64I_CASALB" ∷ "DA64I_CASH" ∷ "DA64I_CASLH" ∷ "DA64I_CASAH"
    ∷ "DA64I_CASALH" ∷ "DA64I_CAS" ∷ "DA64I_CASL" ∷ "DA64I_CASA" ∷ "DA64I_CASAL" ∷ "DA64I_CASP"
    ∷ "DA64I_CASPL" ∷ "DA64I_CASPA" ∷ "DA64I_CASPAL" ∷ "DA64I_SWPB" ∷ "DA64I_SWPLB" ∷ "DA64I_SWPAB"
    ∷ "DA64I_SWPALB" ∷ "DA64I_SWPH" ∷ "DA64I_SWPLH" ∷ "DA64I_SWPAH" ∷ "DA64I_SWPALH" ∷ "DA64I_SWP"
    ∷ "DA64I_SWPL" ∷ "DA64I_SWPA" ∷ "DA64I_SWPAL" ∷ "DA64I_LDADDB" ∷ "DA64I_LDCLRB" ∷ "DA64I_LDEORB"
    ∷ "DA64I_LDSETB" ∷ "DA64I_LDSMAXB" ∷ "DA64I_LDSMINB" ∷ "DA64I_LDUMAXB" ∷ "DA64I_LDUMINB"
    ∷ "DA64I_LDADDLB" ∷ "DA64I_LDCLRLB" ∷ "DA64I_LDEORLB" ∷ "DA64I_LDSETLB" ∷ "DA64I_LDSMAXLB"
    ∷ "DA64I_LDSMINLB" ∷ "DA64I_LDUMAXLB" ∷ "DA64I_LDUMINLB" ∷ "DA64I_LDADDAB" ∷ "DA64I_LDCLRAB"
    ∷ "DA64I_LDEORAB" ∷ "DA64I_LDSETAB" ∷ "DA64I_LDSMAXAB" ∷ "DA64I_LDSMINAB" ∷ "DA64I_LDUMAXAB"
    ∷ "DA64I_LDUMINAB" ∷ "DA64I_LDADDALB" ∷ "DA64I_LDCLRALB" ∷ "DA64I_LDEORALB" ∷ "DA64I_LDSETALB"
    ∷ "DA64I_LDSMAXALB" ∷ "DA64I_LDSMINALB" ∷ "DA64I_LDUMAXALB" ∷ "DA64I_LDUMINALB" ∷ "DA64I_LDADDH"
    ∷ "DA64I_LDCLRH" ∷ "DA64I_LDEORH" ∷ "DA64I_LDSETH" ∷ "DA64I_LDSMAXH" ∷ "DA64I_LDSMINH"
    ∷ "DA64I_LDUMAXH" ∷ "DA64I_LDUMINH" ∷ "DA64I_LDADDLH" ∷ "DA64I_LDCLRLH" ∷ "DA64I_LDEORLH" ∷ []

-- Lines 901 to 1009.
abbrev pub part_6 : List String
part_6 =
    "DA64I_LDSETLH" ∷ "DA64I_LDSMAXLH" ∷ "DA64I_LDSMINLH" ∷ "DA64I_LDUMAXLH" ∷ "DA64I_LDUMINLH"
    ∷ "DA64I_LDADDAH" ∷ "DA64I_LDCLRAH" ∷ "DA64I_LDEORAH" ∷ "DA64I_LDSETAH" ∷ "DA64I_LDSMAXAH"
    ∷ "DA64I_LDSMINAH" ∷ "DA64I_LDUMAXAH" ∷ "DA64I_LDUMINAH" ∷ "DA64I_LDADDALH" ∷ "DA64I_LDCLRALH"
    ∷ "DA64I_LDEORALH" ∷ "DA64I_LDSETALH" ∷ "DA64I_LDSMAXALH" ∷ "DA64I_LDSMINALH"
    ∷ "DA64I_LDUMAXALH" ∷ "DA64I_LDUMINALH" ∷ "DA64I_LDADDW" ∷ "DA64I_LDCLRW" ∷ "DA64I_LDEORW"
    ∷ "DA64I_LDSETW" ∷ "DA64I_LDSMAXW" ∷ "DA64I_LDSMINW" ∷ "DA64I_LDUMAXW" ∷ "DA64I_LDUMINW"
    ∷ "DA64I_LDADDLW" ∷ "DA64I_LDCLRLW" ∷ "DA64I_LDEORLW" ∷ "DA64I_LDSETLW" ∷ "DA64I_LDSMAXLW"
    ∷ "DA64I_LDSMINLW" ∷ "DA64I_LDUMAXLW" ∷ "DA64I_LDUMINLW" ∷ "DA64I_LDADDAW" ∷ "DA64I_LDCLRAW"
    ∷ "DA64I_LDEORAW" ∷ "DA64I_LDSETAW" ∷ "DA64I_LDSMAXAW" ∷ "DA64I_LDSMINAW" ∷ "DA64I_LDUMAXAW"
    ∷ "DA64I_LDUMINAW" ∷ "DA64I_LDADDALW" ∷ "DA64I_LDCLRALW" ∷ "DA64I_LDEORALW" ∷ "DA64I_LDSETALW"
    ∷ "DA64I_LDSMAXALW" ∷ "DA64I_LDSMINALW" ∷ "DA64I_LDUMAXALW" ∷ "DA64I_LDUMINALW" ∷ "DA64I_LDADDX"
    ∷ "DA64I_LDCLRX" ∷ "DA64I_LDEORX" ∷ "DA64I_LDSETX" ∷ "DA64I_LDSMAXX" ∷ "DA64I_LDSMINX"
    ∷ "DA64I_LDUMAXX" ∷ "DA64I_LDUMINX" ∷ "DA64I_LDADDLX" ∷ "DA64I_LDCLRLX" ∷ "DA64I_LDEORLX"
    ∷ "DA64I_LDSETLX" ∷ "DA64I_LDSMAXLX" ∷ "DA64I_LDSMINLX" ∷ "DA64I_LDUMAXLX" ∷ "DA64I_LDUMINLX"
    ∷ "DA64I_LDADDAX" ∷ "DA64I_LDCLRAX" ∷ "DA64I_LDEORAX" ∷ "DA64I_LDSETAX" ∷ "DA64I_LDSMAXAX"
    ∷ "DA64I_LDSMINAX" ∷ "DA64I_LDUMAXAX" ∷ "DA64I_LDUMINAX" ∷ "DA64I_LDADDALX" ∷ "DA64I_LDCLRALX"
    ∷ "DA64I_LDEORALX" ∷ "DA64I_LDSETALX" ∷ "DA64I_LDSMAXALX" ∷ "DA64I_LDSMINALX"
    ∷ "DA64I_LDUMAXALX" ∷ "DA64I_LDUMINALX" ∷ "DA64I_AESMC" ∷ "DA64I_AESIMC" ∷ "DA64I_SUDOT_ELEM"
    ∷ "DA64I_BFDOT_ELEM" ∷ "DA64I_SDOT_ELEM" ∷ "DA64I_USDOT_ELEM" ∷ "DA64I_UDOT_ELEM"
    ∷ "DA64I_SDOT_VEC" ∷ "DA64I_USDOT_VEC" ∷ "DA64I_BFDOT_VEC" ∷ "DA64I_UDOT_VEC"
    ∷ "DA64I_SMMLA_VEC" ∷ "DA64I_USMMLA_VEC" ∷ "DA64I_BFMMLA_VEC" ∷ "DA64I_UMMLA_VEC"
    ∷ "DA64I_CRC32B" ∷ "DA64I_CRC32H" ∷ "DA64I_CRC32W" ∷ "DA64I_CRC32CB" ∷ "DA64I_CRC32CH"
    ∷ "DA64I_CRC32CW" ∷ "DA64I_CRC32X" ∷ "DA64I_CRC32CX" ∷ []
