-- ===== src/X64/Mnemonics.antt =====
-- The labels of src/x64/base.instrs that are not commented out, which okmnem of src/x64/verify.c
-- includes in its switch.
use lfi_verifier.Prelude.{String, List, [], ◌∷◌, ◌++◌}

-- Lines 1 to 150.
abbrev pub part_0 : List String
part_0 =
    "FDI_ADC" ∷ "FDI_ADCX" ∷ "FDI_ADD" ∷ "FDI_ADOX" ∷ "FDI_AESDEC" ∷ "FDI_AESDEC128KL"
    ∷ "FDI_AESDEC256KL" ∷ "FDI_AESDECLAST" ∷ "FDI_AESDECWIDE128KL" ∷ "FDI_AESDECWIDE256KL"
    ∷ "FDI_AESENC" ∷ "FDI_AESENC128KL" ∷ "FDI_AESENC256KL" ∷ "FDI_AESENCLAST"
    ∷ "FDI_AESENCWIDE128KL" ∷ "FDI_AESENCWIDE256KL" ∷ "FDI_AESIMC" ∷ "FDI_AESKEYGENASSIST"
    ∷ "FDI_AND" ∷ "FDI_ANDN" ∷ "FDI_AOR" ∷ "FDI_ARPL" ∷ "FDI_AXOR" ∷ "FDI_BEXTR" ∷ "FDI_BLSI"
    ∷ "FDI_BLSMSK" ∷ "FDI_BLSR" ∷ "FDI_BOUND" ∷ "FDI_BSF" ∷ "FDI_BSR" ∷ "FDI_BSWAP" ∷ "FDI_BT"
    ∷ "FDI_BTC" ∷ "FDI_BTR" ∷ "FDI_BTS" ∷ "FDI_BZHI" ∷ "FDI_CALL" ∷ "FDI_CLD" ∷ "FDI_CMOVA"
    ∷ "FDI_CMOVBE" ∷ "FDI_CMOVC" ∷ "FDI_CMOVG" ∷ "FDI_CMOVGE" ∷ "FDI_CMOVL" ∷ "FDI_CMOVLE"
    ∷ "FDI_CMOVNC" ∷ "FDI_CMOVNO" ∷ "FDI_CMOVNP" ∷ "FDI_CMOVNS" ∷ "FDI_CMOVNZ" ∷ "FDI_CMOVO"
    ∷ "FDI_CMOVP" ∷ "FDI_CMOVS" ∷ "FDI_CMOVZ" ∷ "FDI_CMP" ∷ "FDI_CMPBEXADD" ∷ "FDI_CMPBXADD"
    ∷ "FDI_CMPLEXADD" ∷ "FDI_CMPLXADD" ∷ "FDI_CMPNBEXADD" ∷ "FDI_CMPNBXADD" ∷ "FDI_CMPNLEXADD"
    ∷ "FDI_CMPNLXADD" ∷ "FDI_CMPNOXADD" ∷ "FDI_CMPNPXADD" ∷ "FDI_CMPNSXADD" ∷ "FDI_CMPNZXADD"
    ∷ "FDI_CMPOXADD" ∷ "FDI_CMPPXADD" ∷ "FDI_CMPSXADD" ∷ "FDI_CMPXCHG" ∷ "FDI_CMPXCHGD"
    ∷ "FDI_CMPZXADD" ∷ "FDI_CRC32" ∷ "FDI_C_EX" ∷ "FDI_C_SEP" ∷ "FDI_DEC" ∷ "FDI_DIV" ∷ []

-- Lines 751 to 900.
abbrev pub part_1 : List String
part_1 =
    "FDI_F2XM1" ∷ "FDI_FABS" ∷ "FDI_FADD" ∷ "FDI_FADDP" ∷ "FDI_FBLD" ∷ "FDI_FBSTP" ∷ "FDI_FCHS"
    ∷ "FDI_FCLEX" ∷ "FDI_FCMOVB" ∷ "FDI_FCMOVBE" ∷ "FDI_FCMOVE" ∷ "FDI_FCMOVNB" ∷ "FDI_FCMOVNBE"
    ∷ "FDI_FCMOVNE" ∷ "FDI_FCMOVNU" ∷ "FDI_FCMOVU" ∷ "FDI_FCOM" ∷ "FDI_FCOMI" ∷ "FDI_FCOMIP"
    ∷ "FDI_FCOMP" ∷ "FDI_FCOMPP" ∷ "FDI_FCOS" ∷ "FDI_FDECSTP" ∷ "FDI_FDIV" ∷ "FDI_FDIVP"
    ∷ "FDI_FDIVR" ∷ "FDI_FDIVRP" ∷ "FDI_FEMMS" ∷ "FDI_FFREE" ∷ "FDI_FIADD" ∷ "FDI_FICOM"
    ∷ "FDI_FICOMP" ∷ "FDI_FIDIV" ∷ "FDI_FIDIVR" ∷ "FDI_FILD" ∷ "FDI_FIMUL" ∷ "FDI_FINCSTP"
    ∷ "FDI_FINIT" ∷ "FDI_FIST" ∷ "FDI_FISTP" ∷ "FDI_FISTTP" ∷ "FDI_FISUB" ∷ "FDI_FISUBR" ∷ "FDI_FLD"
    ∷ "FDI_FLD1" ∷ "FDI_FLDCW" ∷ "FDI_FLDL2E" ∷ "FDI_FLDL2T" ∷ "FDI_FLDLG2" ∷ "FDI_FLDLN2"
    ∷ "FDI_FLDPI" ∷ "FDI_FLDZ" ∷ "FDI_FMUL" ∷ "FDI_FMULP" ∷ "FDI_FNOP" ∷ "FDI_FPATAN" ∷ "FDI_FPREM"
    ∷ "FDI_FPREM1" ∷ "FDI_FPTAN" ∷ "FDI_FRNDINT" ∷ "FDI_FRSTOR" ∷ "FDI_FSAVE" ∷ "FDI_FSCALE"
    ∷ "FDI_FSIN" ∷ "FDI_FSINCOS" ∷ "FDI_FSQRT" ∷ "FDI_FST" ∷ "FDI_FSTCW" ∷ "FDI_FSTENV" ∷ "FDI_FSTP"
    ∷ "FDI_FSTSW" ∷ "FDI_FSUB" ∷ "FDI_FSUBP" ∷ "FDI_FSUBR" ∷ "FDI_FSUBRP" ∷ "FDI_FTST" ∷ "FDI_FUCOM"
    ∷ "FDI_FUCOMI" ∷ "FDI_FUCOMIP" ∷ "FDI_FUCOMP" ∷ "FDI_FUCOMPP" ∷ "FDI_FWAIT" ∷ "FDI_FXAM"
    ∷ "FDI_FXCH" ∷ "FDI_FXTRACT" ∷ "FDI_FYL2X" ∷ "FDI_FYL2XP1" ∷ "FDI_GETSEC" ∷ "FDI_HLT"
    ∷ "FDI_IDIV" ∷ "FDI_IMUL" ∷ "FDI_INC" ∷ "FDI_INT3" ∷ "FDI_JA" ∷ "FDI_JBE" ∷ "FDI_JC"
    ∷ "FDI_JCXZ" ∷ "FDI_JG" ∷ "FDI_JGE" ∷ "FDI_JL" ∷ "FDI_JLE" ∷ "FDI_JMP" ∷ "FDI_JNC" ∷ "FDI_JNO"
    ∷ "FDI_JNP" ∷ "FDI_JNS" ∷ "FDI_JNZ" ∷ "FDI_JO" ∷ "FDI_JP" ∷ "FDI_JS" ∷ "FDI_JZ" ∷ []

-- Lines 901 to 1050.
abbrev pub part_2 : List String
part_2 = "FDI_LEA" ∷ "FDI_LZCNT" ∷ []

-- Lines 1051 to 1200.
abbrev pub part_3 : List String
part_3 =
    "FDI_MOV" ∷ "FDI_MOVABS" ∷ "FDI_MOVSX" ∷ "FDI_MOVZX" ∷ "FDI_MUL" ∷ "FDI_MULX" ∷ "FDI_NEG"
    ∷ "FDI_NOP" ∷ "FDI_NOT" ∷ "FDI_OR" ∷ "FDI_PEXT" ∷ "FDI_POP" ∷ "FDI_POPCNT" ∷ "FDI_PREFETCH"
    ∷ "FDI_PREFETCHIT0" ∷ "FDI_PREFETCHIT1" ∷ "FDI_PREFETCHNTA" ∷ "FDI_PREFETCHT0"
    ∷ "FDI_PREFETCHT1" ∷ "FDI_PREFETCHT2" ∷ "FDI_PREFETCHW" ∷ "FDI_PREFETCHWT1" ∷ "FDI_PUSH"
    ∷ "FDI_RCL" ∷ "FDI_RCR" ∷ "FDI_ROL" ∷ "FDI_ROR" ∷ "FDI_RORX" ∷ "FDI_SAR" ∷ "FDI_SARX"
    ∷ "FDI_SBB" ∷ "FDI_SETA" ∷ "FDI_SETBE" ∷ "FDI_SETC" ∷ "FDI_SETG" ∷ "FDI_SETGE" ∷ "FDI_SETL"
    ∷ "FDI_SETLE" ∷ "FDI_SETNC" ∷ "FDI_SETNO" ∷ "FDI_SETNP" ∷ "FDI_SETNS" ∷ "FDI_SETNZ" ∷ "FDI_SETO"
    ∷ "FDI_SETP" ∷ "FDI_SETS" ∷ "FDI_SETZ" ∷ "FDI_SHL" ∷ "FDI_SHLD" ∷ "FDI_SHLX" ∷ "FDI_SHR"
    ∷ "FDI_SHRD" ∷ "FDI_SHRX" ∷ "FDI_SSE_ADDPD" ∷ "FDI_SSE_ADDPS" ∷ "FDI_SSE_ADDSD"
    ∷ "FDI_SSE_ADDSS" ∷ "FDI_SSE_ADDSUBPD" ∷ "FDI_SSE_ADDSUBPS" ∷ "FDI_SSE_ANDNPD"
    ∷ "FDI_SSE_ANDNPS" ∷ "FDI_SSE_ANDPD" ∷ "FDI_SSE_ANDPS" ∷ "FDI_SSE_BLENDPD" ∷ "FDI_SSE_BLENDPS"
    ∷ "FDI_SSE_BLENDVPD" ∷ "FDI_SSE_BLENDVPS" ∷ "FDI_SSE_CMPPD" ∷ "FDI_SSE_CMPPS" ∷ "FDI_SSE_CMPSD"
    ∷ "FDI_SSE_CMPSS" ∷ "FDI_SSE_COMISD" ∷ []

-- Lines 1201 to 1350.
abbrev pub part_4 : List String
part_4 =
    "FDI_SSE_COMISS" ∷ "FDI_SSE_CVTDQ2PD" ∷ "FDI_SSE_CVTDQ2PS" ∷ "FDI_SSE_CVTPD2DQ"
    ∷ "FDI_SSE_CVTPD2PS" ∷ "FDI_SSE_CVTPS2DQ" ∷ "FDI_SSE_CVTPS2PD" ∷ "FDI_SSE_CVTSD2SI"
    ∷ "FDI_SSE_CVTSD2SS" ∷ "FDI_SSE_CVTSI2SD" ∷ "FDI_SSE_CVTSI2SS" ∷ "FDI_SSE_CVTSS2SD"
    ∷ "FDI_SSE_CVTSS2SI" ∷ "FDI_SSE_CVTTPD2DQ" ∷ "FDI_SSE_CVTTPS2DQ" ∷ "FDI_SSE_CVTTSD2SI"
    ∷ "FDI_SSE_CVTTSS2SI" ∷ "FDI_SSE_DIVPD" ∷ "FDI_SSE_DIVPS" ∷ "FDI_SSE_DIVSD" ∷ "FDI_SSE_DIVSS"
    ∷ "FDI_SSE_DPPD" ∷ "FDI_SSE_DPPS" ∷ "FDI_SSE_EXTRACTPS" ∷ "FDI_SSE_EXTRQ" ∷ "FDI_SSE_HADDPD"
    ∷ "FDI_SSE_HADDPS" ∷ "FDI_SSE_HSUBPD" ∷ "FDI_SSE_HSUBPS" ∷ "FDI_SSE_INSERTPS"
    ∷ "FDI_SSE_INSERTQ" ∷ "FDI_SSE_LDDQU" ∷ "FDI_SSE_MAXPD" ∷ "FDI_SSE_MAXPS" ∷ "FDI_SSE_MAXSD"
    ∷ "FDI_SSE_MAXSS" ∷ "FDI_SSE_MINPD" ∷ "FDI_SSE_MINPS" ∷ "FDI_SSE_MINSD" ∷ "FDI_SSE_MINSS"
    ∷ "FDI_SSE_MOVAPD" ∷ "FDI_SSE_MOVAPS" ∷ "FDI_SSE_MOVD" ∷ "FDI_SSE_MOVDDUP" ∷ "FDI_SSE_MOVDQA"
    ∷ "FDI_SSE_MOVDQU" ∷ "FDI_SSE_MOVHLPS" ∷ "FDI_SSE_MOVHPD" ∷ "FDI_SSE_MOVHPS" ∷ "FDI_SSE_MOVLHPS"
    ∷ "FDI_SSE_MOVLPD" ∷ "FDI_SSE_MOVLPS" ∷ "FDI_SSE_MOVMSKPD" ∷ "FDI_SSE_MOVMSKPS"
    ∷ "FDI_SSE_MOVNTDQ" ∷ "FDI_SSE_MOVNTDQA" ∷ "FDI_SSE_MOVNTPD" ∷ "FDI_SSE_MOVNTPS"
    ∷ "FDI_SSE_MOVNTSD" ∷ "FDI_SSE_MOVNTSS" ∷ "FDI_SSE_MOVQ" ∷ "FDI_SSE_MOVSD" ∷ "FDI_SSE_MOVSHDUP"
    ∷ "FDI_SSE_MOVSLDUP" ∷ "FDI_SSE_MOVSS" ∷ "FDI_SSE_MOVUPD" ∷ "FDI_SSE_MOVUPS" ∷ "FDI_SSE_MPSADBW"
    ∷ "FDI_SSE_MULPD" ∷ "FDI_SSE_MULPS" ∷ "FDI_SSE_MULSD" ∷ "FDI_SSE_MULSS" ∷ "FDI_SSE_ORPD"
    ∷ "FDI_SSE_ORPS" ∷ "FDI_SSE_PABSB" ∷ "FDI_SSE_PABSD" ∷ "FDI_SSE_PABSW" ∷ "FDI_SSE_PACKSSDW"
    ∷ "FDI_SSE_PACKSSWB" ∷ "FDI_SSE_PACKUSDW" ∷ "FDI_SSE_PACKUSWB" ∷ "FDI_SSE_PADDB"
    ∷ "FDI_SSE_PADDD" ∷ "FDI_SSE_PADDQ" ∷ "FDI_SSE_PADDSB" ∷ "FDI_SSE_PADDSW" ∷ "FDI_SSE_PADDUSB"
    ∷ "FDI_SSE_PADDUSW" ∷ "FDI_SSE_PADDW" ∷ "FDI_SSE_PALIGNR" ∷ "FDI_SSE_PAND" ∷ "FDI_SSE_PANDN"
    ∷ "FDI_SSE_PAVGB" ∷ "FDI_SSE_PAVGW" ∷ "FDI_SSE_PBLENDVB" ∷ "FDI_SSE_PBLENDW"
    ∷ "FDI_SSE_PCLMULQDQ" ∷ "FDI_SSE_PCMPEQB" ∷ "FDI_SSE_PCMPEQD" ∷ "FDI_SSE_PCMPEQQ"
    ∷ "FDI_SSE_PCMPEQW" ∷ "FDI_SSE_PCMPESTRI" ∷ "FDI_SSE_PCMPESTRM" ∷ "FDI_SSE_PCMPGTB"
    ∷ "FDI_SSE_PCMPGTD" ∷ "FDI_SSE_PCMPGTQ" ∷ "FDI_SSE_PCMPGTW" ∷ "FDI_SSE_PCMPISTRI"
    ∷ "FDI_SSE_PCMPISTRM" ∷ "FDI_SSE_PEXTRB" ∷ "FDI_SSE_PEXTRD" ∷ "FDI_SSE_PEXTRQ"
    ∷ "FDI_SSE_PEXTRW" ∷ "FDI_SSE_PHADDD" ∷ "FDI_SSE_PHADDSW" ∷ "FDI_SSE_PHADDW"
    ∷ "FDI_SSE_PHMINPOSUW" ∷ "FDI_SSE_PHSUBD" ∷ "FDI_SSE_PHSUBSW" ∷ "FDI_SSE_PHSUBW"
    ∷ "FDI_SSE_PINSRB" ∷ "FDI_SSE_PINSRD" ∷ "FDI_SSE_PINSRQ" ∷ "FDI_SSE_PINSRW"
    ∷ "FDI_SSE_PMADDUBSW" ∷ "FDI_SSE_PMADDWD" ∷ "FDI_SSE_PMAXSB" ∷ "FDI_SSE_PMAXSD"
    ∷ "FDI_SSE_PMAXSW" ∷ "FDI_SSE_PMAXUB" ∷ "FDI_SSE_PMAXUD" ∷ "FDI_SSE_PMAXUW" ∷ "FDI_SSE_PMINSB"
    ∷ "FDI_SSE_PMINSD" ∷ "FDI_SSE_PMINSW" ∷ "FDI_SSE_PMINUB" ∷ "FDI_SSE_PMINUD" ∷ "FDI_SSE_PMINUW"
    ∷ "FDI_SSE_PMOVMSKB" ∷ "FDI_SSE_PMOVSXBD" ∷ "FDI_SSE_PMOVSXBQ" ∷ "FDI_SSE_PMOVSXBW"
    ∷ "FDI_SSE_PMOVSXDQ" ∷ "FDI_SSE_PMOVSXWD" ∷ "FDI_SSE_PMOVSXWQ" ∷ "FDI_SSE_PMOVZXBD"
    ∷ "FDI_SSE_PMOVZXBQ" ∷ "FDI_SSE_PMOVZXBW" ∷ "FDI_SSE_PMOVZXDQ" ∷ []

-- Lines 1351 to 1500.
abbrev pub part_5 : List String
part_5 =
    "FDI_SSE_PMOVZXWD" ∷ "FDI_SSE_PMOVZXWQ" ∷ "FDI_SSE_PMULDQ" ∷ "FDI_SSE_PMULHRSW"
    ∷ "FDI_SSE_PMULHUW" ∷ "FDI_SSE_PMULHW" ∷ "FDI_SSE_PMULLD" ∷ "FDI_SSE_PMULLW" ∷ "FDI_SSE_PMULUDQ"
    ∷ "FDI_SSE_POR" ∷ "FDI_SSE_PSADBW" ∷ "FDI_SSE_PSHUFB" ∷ "FDI_SSE_PSHUFD" ∷ "FDI_SSE_PSHUFHW"
    ∷ "FDI_SSE_PSHUFLW" ∷ "FDI_SSE_PSIGNB" ∷ "FDI_SSE_PSIGND" ∷ "FDI_SSE_PSIGNW" ∷ "FDI_SSE_PSLLD"
    ∷ "FDI_SSE_PSLLDQ" ∷ "FDI_SSE_PSLLQ" ∷ "FDI_SSE_PSLLW" ∷ "FDI_SSE_PSRAD" ∷ "FDI_SSE_PSRAW"
    ∷ "FDI_SSE_PSRLD" ∷ "FDI_SSE_PSRLDQ" ∷ "FDI_SSE_PSRLQ" ∷ "FDI_SSE_PSRLW" ∷ "FDI_SSE_PSUBB"
    ∷ "FDI_SSE_PSUBD" ∷ "FDI_SSE_PSUBQ" ∷ "FDI_SSE_PSUBSB" ∷ "FDI_SSE_PSUBSW" ∷ "FDI_SSE_PSUBUSB"
    ∷ "FDI_SSE_PSUBUSW" ∷ "FDI_SSE_PSUBW" ∷ "FDI_SSE_PTEST" ∷ "FDI_SSE_PUNPCKHBW"
    ∷ "FDI_SSE_PUNPCKHDQ" ∷ "FDI_SSE_PUNPCKHQDQ" ∷ "FDI_SSE_PUNPCKHWD" ∷ "FDI_SSE_PUNPCKLBW"
    ∷ "FDI_SSE_PUNPCKLDQ" ∷ "FDI_SSE_PUNPCKLQDQ" ∷ "FDI_SSE_PUNPCKLWD" ∷ "FDI_SSE_PXOR"
    ∷ "FDI_SSE_RCPPS" ∷ "FDI_SSE_RCPSS" ∷ "FDI_SSE_ROUNDPD" ∷ "FDI_SSE_ROUNDPS" ∷ "FDI_SSE_ROUNDSD"
    ∷ "FDI_SSE_ROUNDSS" ∷ "FDI_SSE_RSQRTPS" ∷ "FDI_SSE_RSQRTSS" ∷ "FDI_SSE_SHUFPD"
    ∷ "FDI_SSE_SHUFPS" ∷ "FDI_SSE_SQRTPD" ∷ "FDI_SSE_SQRTPS" ∷ "FDI_SSE_SQRTSD" ∷ "FDI_SSE_SQRTSS"
    ∷ "FDI_SSE_SUBPD" ∷ "FDI_SSE_SUBPS" ∷ "FDI_SSE_SUBSD" ∷ "FDI_SSE_SUBSS" ∷ "FDI_SSE_UCOMISD"
    ∷ "FDI_SSE_UCOMISS" ∷ "FDI_SSE_UNPCKHPD" ∷ "FDI_SSE_UNPCKHPS" ∷ "FDI_SSE_UNPCKLPD"
    ∷ "FDI_SSE_UNPCKLPS" ∷ "FDI_SSE_XORPD" ∷ "FDI_SSE_XORPS" ∷ "FDI_STD" ∷ "FDI_SUB" ∷ "FDI_TEST"
    ∷ "FDI_TZCNT" ∷ "FDI_UD2" ∷ []

-- Lines 1801 to 1884.
abbrev pub part_6 : List String
part_6 = "FDI_XADD" ∷ "FDI_XCHG" ∷ "FDI_XCHG_NOP" ∷ "FDI_XOR" ∷ "FDI_PAUSE" ∷ []

abbrev pub base_instrs : List String
base_instrs = part_0 ++ (part_1 ++ (part_2 ++ (part_3 ++ (part_4 ++ (part_5 ++ (part_6))))))
