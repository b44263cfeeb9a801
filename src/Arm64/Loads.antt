-- ===== src/Arm64/Loads.antt =====
-- The labels of src/arm64/loads.instrs, which isload of src/arm64/verify.c includes in its switch.
use lfi_verifier.Prelude.{String, List, [], ◌∷◌, ◌++◌}

-- Lines 1 to 150.
abbrev pub load_part_0 : List String
load_part_0 =
    "DA64I_LDARB" ∷ "DA64I_LDARH" ∷ "DA64I_LDARW" ∷ "DA64I_LDAR" ∷ "DA64I_LDXRB" ∷ "DA64I_LDAXRB"
    ∷ "DA64I_LDXRH" ∷ "DA64I_LDAXRH" ∷ "DA64I_LDXRW" ∷ "DA64I_LDAXRW" ∷ "DA64I_LDXPW"
    ∷ "DA64I_LDAXPW" ∷ "DA64I_LDXRX" ∷ "DA64I_LDAXRX" ∷ "DA64I_LDXPX" ∷ "DA64I_LDAXPX"
    ∷ "DA64I_LDNPW" ∷ "DA64I_LDNPX" ∷ "DA64I_LDPW_POST" ∷ "DA64I_LDPW" ∷ "DA64I_LDPW_PRE"
    ∷ "DA64I_LDPSW_POST" ∷ "DA64I_LDPSW" ∷ "DA64I_LDPSW_PRE" ∷ "DA64I_LDPX_POST" ∷ "DA64I_LDPX"
    ∷ "DA64I_LDPX_PRE" ∷ "DA64I_LDURB" ∷ "DA64I_LDRB_POST" ∷ "DA64I_LDTRB" ∷ "DA64I_LDRB_PRE"
    ∷ "DA64I_LDURSB" ∷ "DA64I_LDRSB_POST" ∷ "DA64I_LDTRSB" ∷ "DA64I_LDRSB_PRE" ∷ "DA64I_LDURSBW"
    ∷ "DA64I_LDRSBW_POST" ∷ "DA64I_LDTRSBW" ∷ "DA64I_LDRSBW_PRE" ∷ "DA64I_LDURH" ∷ "DA64I_LDRH_POST"
    ∷ "DA64I_LDTRH" ∷ "DA64I_LDRH_PRE" ∷ "DA64I_LDURSH" ∷ "DA64I_LDRSH_POST" ∷ "DA64I_LDTRSH"
    ∷ "DA64I_LDRSH_PRE" ∷ "DA64I_LDURSHW" ∷ "DA64I_LDRSHW_POST" ∷ "DA64I_LDTRSHW"
    ∷ "DA64I_LDRSHW_PRE" ∷ "DA64I_LDURW" ∷ "DA64I_LDRW_POST" ∷ "DA64I_LDTRW" ∷ "DA64I_LDRW_PRE"
    ∷ "DA64I_LDURSW" ∷ "DA64I_LDRSW_POST" ∷ "DA64I_LDTRSW" ∷ "DA64I_LDRSW_PRE" ∷ "DA64I_LDURX"
    ∷ "DA64I_LDRX_POST" ∷ "DA64I_LDTRX" ∷ "DA64I_LDRX_PRE" ∷ "DA64I_PRFUM" ∷ "DA64I_LDRB_IMM"
    ∷ "DA64I_LDRSB_IMM" ∷ "DA64I_LDRSBW_IMM" ∷ "DA64I_LDRH_IMM" ∷ "DA64I_LDRSH_IMM"
    ∷ "DA64I_LDRSHW_IMM" ∷ "DA64I_LDRW_IMM" ∷ "DA64I_LDRSW_IMM" ∷ "DA64I_LDR_IMM" ∷ "DA64I_PRFM_IMM"
    ∷ "DA64I_LDRB_REG" ∷ "DA64I_LDRSB_REG" ∷ "DA64I_LDRSBW_REG" ∷ "DA64I_LDRH_REG"
    ∷ "DA64I_LDRSH_REG" ∷ "DA64I_LDRSHW_REG" ∷ "DA64I_LDRW_REG" ∷ "DA64I_LDRSW_REG"
    ∷ "DA64I_LDR_REG" ∷ "DA64I_PRFM_REG" ∷ "DA64I_LDRW_LIT" ∷ "DA64I_LDR_LIT" ∷ "DA64I_LDRSW_LIT"
    ∷ "DA64I_PRFM_LIT" ∷ "DA64I_LDNP_FP" ∷ "DA64I_LDP_FP_POST" ∷ "DA64I_LDP_FP" ∷ "DA64I_LDP_FP_PRE"
    ∷ "DA64I_LDUR_FP" ∷ "DA64I_LDR_FP_POST" ∷ "DA64I_LDR_FP_PRE" ∷ "DA64I_LDR_IMM_FP"
    ∷ "DA64I_LDR_REG_FP" ∷ "DA64I_LDR_LIT_FP" ∷ "DA64I_LD4" ∷ "DA64I_LD1_4" ∷ "DA64I_LD3"
    ∷ "DA64I_LD1_3" ∷ "DA64I_LD1_1" ∷ "DA64I_LD2" ∷ "DA64I_LD1_2" ∷ "DA64I_LD4_POST"
    ∷ "DA64I_LD1_4_POST" ∷ "DA64I_LD3_POST" ∷ "DA64I_LD1_3_POST" ∷ "DA64I_LD1_1_POST"
    ∷ "DA64I_LD2_POST" ∷ "DA64I_LD1_2_POST" ∷ "DA64I_LD1B" ∷ "DA64I_LD3B" ∷ "DA64I_LD1H"
    ∷ "DA64I_LD3H" ∷ "DA64I_LD1S" ∷ "DA64I_LD1D" ∷ "DA64I_LD3S" ∷ "DA64I_LD3D" ∷ "DA64I_LD2B"
    ∷ "DA64I_LD4B" ∷ "DA64I_LD2H" ∷ "DA64I_LD4H" ∷ "DA64I_LD2S" ∷ "DA64I_LD2D" ∷ "DA64I_LD4S"
    ∷ "DA64I_LD4D" ∷ "DA64I_LD1B_POST" ∷ "DA64I_LD3B_POST" ∷ "DA64I_LD1H_POST" ∷ "DA64I_LD3H_POST"
    ∷ "DA64I_LD1S_POST" ∷ "DA64I_LD1D_POST" ∷ "DA64I_LD3S_POST" ∷ "DA64I_LD3D_POST"
    ∷ "DA64I_LD2B_POST" ∷ "DA64I_LD4B_POST" ∷ "DA64I_LD2H_POST" ∷ "DA64I_LD4H_POST"
    ∷ "DA64I_LD2S_POST" ∷ "DA64I_LD2D_POST" ∷ "DA64I_LD4S_POST" ∷ "DA64I_LD4D_POST" ∷ "DA64I_LD1R"
    ∷ "DA64I_LD3R" ∷ "DA64I_LD2R" ∷ "DA64I_LD4R" ∷ "DA64I_LD1R_POST" ∷ "DA64I_LD3R_POST" ∷ []

-- Lines 151 to 153.
abbrev pub load_part_1 : List String
load_part_1 = "DA64I_LD2R_POST" ∷ "DA64I_LD4R_POST" ∷ []

abbrev pub load_instrs : List String
load_instrs = load_part_0 ++ (load_part_1)
