-- ===== src/X64/Tests.antt =====
-- A decoder of a few real encodings, which meets the laws, and the theorems and the code run on it.
use lfi_verifier.Prelude.{
  ℕ, ◌≤◌, ◌<◌, ◌≡◌, refl, true, false, ◌&&◌, Option, none, some, List, [], ◌∷◌, String, arith,
  length, ◌==◌, neg64, add64, one_of, drop, if◌then◌else◌, ◌⊎◌, inl, inr, sym, ◌∙◌, Bool,
  Bool-cases, Holds, Holds-some, some-injective, ap, ◌++◌,
}
use lfi_verifier.Options.{Options, box_full}
use lfi_verifier.X64.Inst.{
  ot_reg, ot_imm, ot_mem, ot_off, ot_other, rt_gpl, rt_other, Reg, reg_sp, reg_di, reg_r14,
  reg_none, reg_other, seg_other, Operand, Inst, reg_eq, Decoder, DecodeLaws, is_reg,
}
use lfi_verifier.X64.Safety.Assert.{LengthLaw}
use lfi_verifier.X64.Machine.{MachineLaws, IsPlain, NoPrefix}
use lfi_verifier.X64.State.{unknown, verr, verr_if, verrmin}
use lfi_verifier.X64.Check.{
  branchinfo, chkbranch, chkmem, chkmem_base, chkmem_ctx, chkmem_op, chkmem_seg, chkmod, chkmod_op,
  for_ops, nmod, okmnem, reserved_as, reserved,
}
use lfi_verifier.X64.Macro.{
  is_through, is_return_lea, ok_return, is_self_mov, is_index_load, is_sp_mnem, is_esp_op, or_next,
  macroinst, macroinst_load, macroinst_jmp, is_mask, is_add_base, macroinst_call, macroinst_modsp,
  macroinst_stos, is_trunc, assert_reg, call_loop, is_lea_base, is_rebase, is_rtjmp, macroinst_cmps,
  macroinst_movs, macroinst_rtcall, mask_add, okrtcalldisp,
}
use lfi_verifier.X64.Verify.{
  Outcome, returns, lfiv_verify_x64, bundles_loop, vchkbundle, vchk_loop, chk_inst, advance,
  bdd_loop, chk_single, memcpy, verify_bundles,
}

abbrev no_op : Operand
no_op = record {
  op_type = ot_other;
  size = 0;
  reg_type = rt_other;
  reg = reg_none;
  base = reg_none;
  index = reg_none;
  scale = 0;
  disp = 0;
  imm = 0;
}

abbrev pub gpr : ℕ → Reg → Operand
gpr size r = record no_op { op_type = ot_reg; size = size; reg_type = rt_gpl; reg = r }

abbrev imm_op : ℕ → Operand
imm_op n = record no_op { op_type = ot_imm; imm = n }

abbrev off_op : ℕ → Operand
off_op n = record no_op { op_type = ot_off; imm = n }

abbrev pub mem_op : Reg → Operand
mem_op r = record no_op { op_type = ot_mem; size = 8; base = r }

abbrev ops : Operand → Operand → ℕ → Operand
ops a b i = if i == 0 then a else if i == 1 then b else no_op

abbrev pub inst : String → ℕ → Operand → Operand → Inst
inst type size a b = record {
  type = type;
  size = size;
  segment = seg_other;
  addrsize = 8;
  op = ops a b;
}

abbrev pub rax : Reg
rax = reg_other 0

abbrev pub nop : Inst
nop = inst "FDI_NOP" 1 no_op no_op

abbrev pub jmp_short : ℕ → Inst
jmp_short n = inst "FDI_JMP" 2 (off_op n) no_op

abbrev pub jmp_rax : Inst
jmp_rax = inst "FDI_JMP" 2 (gpr 8 rax) no_op

abbrev pub and_eax : Inst
and_eax = inst "FDI_AND" 3 (gpr 4 rax) (imm_op (neg64 32))

abbrev pub add_rax : Inst
add_rax = inst "FDI_ADD" 3 (gpr 8 rax) (gpr 8 reg_r14)

abbrev load_esp : Inst
load_esp = inst "FDI_MOV" 2 (gpr 4 reg_sp) (mem_op rax)

abbrev add_rsp : Inst
add_rsp = inst "FDI_ADD" 3 (gpr 8 reg_sp) (gpr 8 reg_r14)

abbrev two : Inst → Option (ℕ × Inst)
two i = some (i.size, i)

-- jmp rel8, jmp *%rax and movl (%rax), %esp.
unfoldable pub decode_two : ℕ → ℕ → Option (ℕ × Inst)
decode_two a b =
    if a == 0xeb
    then two (jmp_short b)
    else if a == 0xff && b == 0xe0
    then two jmp_rax
    else if a == 0x8b && b == 0x20
    then two load_esp
    else none

unfoldable pub decode : Decoder
unfolding decode_two
decode [] = none
decode (a ∷ []) = if a == 0x90 then two nop else none
decode (a ∷ b ∷ []) = if a == 0x90 then two nop else decode_two a b
decode (a ∷ b ∷ c ∷ _) =
    if a == 0x90
    then two nop
    else if a == 0x83 && (b == 0xe0 && c == 0xe0)
    then two and_eax
    else if a == 0x4c && (b == 0x01 && c == 0xf0)
    then two add_rax
    else if a == 0x4c && (b == 0x01 && c == 0xf4)
    then two add_rsp
    else decode_two a b

abbrev Lawful : List ℕ → Type 0
Lawful buf =
    (n : ℕ) (i : Inst)
    → decode buf ≡ some (n, i)
    → (n ≡ i.size) × (0 < i.size) × (i.size ≤ 15) × (i.size ≤ length buf)

decode-Lawful : (buf : List ℕ) → Lawful buf
unfolding decode
decode-Lawful [] n i h = cc
decode-Lawful (a ∷ []) n i h = ground arith
decode-Lawful (a ∷ b ∷ []) n i h = ground arith
decode-Lawful (a ∷ b ∷ c ∷ r) n i h = ground arith

pub decode-laws : DecodeLaws decode
decode-laws = record {
  returns_size = λ buf n i h. (decode-Lawful buf n i h).0;
  size_pos = λ buf n i h. (decode-Lawful buf n i h).1;
  size_max = λ buf n i h. (decode-Lawful buf n i h).2;
  size_fits = λ buf n i h. (decode-Lawful buf n i h).3;
}

-- An operand without displacement, and of the general kind where it is a register; an instruction of
-- such operands and with addresses of 8 bytes.
Tame : Operand → Type 0
Tame op = (op.disp ≡ 0) × ((op.reg_type ≡ rt_gpl) ⊎ (is_reg op.op_type ≡ false))

AllTame : ℕ × Inst → Type 0
AllTame p = IsPlain p.1 × ((k : ℕ) → Tame (p.1.op k))

ops-AllTame :
    (type : String) (size n : ℕ) (a b : Operand) → Tame a → Tame b → AllTame (n, inst type size a b)
unfolding AllTame Tame
ops-AllTame type size n a b s t = (
  record { addrsize = refl; segment = refl },
  λ k. elim (Bool-cases (k == 0)) [
    | inl e ↦ rw e s
    | inr e ↦ elim (Bool-cases (k == 1)) [
      | inl e' ↦ rw (e, e') t
      | inr e' ↦ rw (e, e') (refl, inr refl)
    ]
  ],
)

Holds-if :
    (c : Bool) (m k : Option (ℕ × Inst))
    → Holds AllTame m
    → Holds AllTame k
    → Holds AllTame (if c then m else k)
Holds-if true m k h _ = h
Holds-if false m k _ h = h

Holds-none : Holds AllTame none
Holds-none = record { holds = λ b e. cc }

decode_two-AllTame : (a b : ℕ) → Holds AllTame (decode_two a b)
unfolding decode_two Tame
decode_two-AllTame a b =
    Holds-if (a == 0xeb) (two (jmp_short b)) _
      (Holds-some AllTame _
        (ops-AllTame "FDI_JMP" 2 2 (off_op b) no_op (refl, inr refl) (refl, inr refl)))
      (Holds-if (a == 0xff && b == 0xe0) (two jmp_rax) _
        (Holds-some AllTame _
          (ops-AllTame "FDI_JMP" 2 2 (gpr 8 rax) no_op (refl, inl refl) (refl, inr refl)))
        (Holds-if (a == 0x8b && b == 0x20) (two load_esp) none
          (Holds-some AllTame _ (
            ops-AllTame "FDI_MOV" 2 2 (gpr 4 reg_sp) (mem_op rax) (refl, inl refl)
              (refl, inr refl)))
          Holds-none))

nop-AllTame : Holds AllTame (two nop)
unfolding Tame
nop-AllTame =
    Holds-some AllTame _ (ops-AllTame "FDI_NOP" 1 1 no_op no_op (refl, inr refl) (refl, inr refl))

decode-AllTame : (buf : List ℕ) → Holds AllTame (decode buf)
unfolding decode Tame
decode-AllTame [] = Holds-none
decode-AllTame (a ∷ []) = Holds-if (a == 0x90) (two nop) none nop-AllTame Holds-none
decode-AllTame (a ∷ b ∷ []) =
    Holds-if (a == 0x90) (two nop) (decode_two a b) nop-AllTame (decode_two-AllTame a b)
decode-AllTame (a ∷ b ∷ c ∷ r) = Holds-if (a == 0x90) (two nop) _ nop-AllTame (
    Holds-if (a == 0x83 && (b == 0xe0 && c == 0xe0)) (two and_eax) _
      (Holds-some AllTame _ (
        ops-AllTame "FDI_AND" 3 3 (gpr 4 rax) (imm_op (neg64 32)) (refl, inl refl)
          (refl, inr refl)))
      (Holds-if (a == 0x4c && (b == 0x01 && c == 0xf0)) (two add_rax) _
        (Holds-some AllTame _
          (ops-AllTame "FDI_ADD" 3 3 (gpr 8 rax) (gpr 8 reg_r14) (refl, inl refl) (refl, inl refl)))
        (Holds-if (a == 0x4c && (b == 0x01 && c == 0xf4)) (two add_rsp) (decode_two a b)
          (Holds-some AllTame _ (
            ops-AllTame "FDI_ADD" 3 3 (gpr 8 reg_sp) (gpr 8 reg_r14) (refl, inl refl)
              (refl, inl refl)))
          (decode_two-AllTame a b))))

pub decode-machine : MachineLaws decode
unfolding AllTame Tame
decode-machine = record {
  general = λ buf n i d _ r. elim (((decode-AllTame buf).holds (n, i) d).1 0).1 [
    | inl t ↦ inl t
    | inr t ↦ absurd (cc (sym r ∙ t))
  ];
  disp = λ buf n i k d _ _.
      let (e, _) = ((decode-AllTame buf).holds (n, i) d).1 k in inl (omega arith);
}

pub decode-plain : (buf : List ℕ) → NoPrefix decode buf
unfolding AllTame
decode-plain buf off n i d = ((decode-AllTame (drop off buf)).holds (n, i) d).0

-- A decoder of nops, and a diagram that gives their length.
abbrev pub nop_decode : Decoder
nop_decode [] = none
nop_decode (b ∷ bs) = if b == 0x90 then two nop else none

abbrev pub nop_bdd : List ℕ → ℕ
nop_bdd [] = 0
nop_bdd (b ∷ bs) = if b == 0x90 then 1 else 0

nop_decode_lem :
    (buf : List ℕ) (p : ℕ × Inst) → nop_decode buf ≡ some p → (p ≡ (1, nop)) × (0 < length buf)
nop_decode_lem [] p h = cc
nop_decode_lem (b ∷ bs) p h = elim (Bool-cases (b == 0x90)) [
  | inl e ↦ (sym (some-injective _ _ (rw e at h)), omega arith)
  | inr e ↦ absurd (cc (rw e at h))
]

pub nop_decode-laws : DecodeLaws nop_decode
nop_decode-laws = record {
  returns_size = λ buf n i h.
      let (e, _) = nop_decode_lem buf (n, i) h in ap (λ q. q.0) e ∙ ap (λ q. q.1.size) (sym e);
  size_pos = λ buf n i h.
      let (e, _) = nop_decode_lem buf (n, i) h in let s = ap (λ q. q.1.size) e in omega (arith, s);
  size_max = λ buf n i h.
      let (e, _) = nop_decode_lem buf (n, i) h in let s = ap (λ q. q.1.size) e in omega (arith, s);
  size_fits = λ buf n i h.
      let (e, l) = nop_decode_lem buf (n, i) h in
      let s = ap (λ q. q.1.size) e in omega (arith, s, l);
}

pub nop_bdd-LengthLaw : LengthLaw nop_decode nop_bdd
nop_bdd-LengthLaw = record { agrees = agrees }
  where
    agrees :
        (bytes tail : List ℕ) (p : ℕ × Inst)
        → nop_decode bytes ≡ some p
        → (nop_bdd (bytes ++ tail) ≡ 0) ⊎ (nop_bdd (bytes ++ tail) ≡ p.1.size)
    agrees [] tail p h = cc
    agrees (b ∷ bs) tail p h = elim (Bool-cases (b == 0x90)) [
      | inl e ↦ let (q, _) = nop_decode_lem (b ∷ bs) p h in inr (rw e (sym (ap (λ q. q.1.size) q)))
      | inr e ↦ inl (rw e refl)
    ]

abbrev pub full : Options
full = record { box = box_full; no_bdd = true; ctxreg = false; err = true }

-- The same with the filter.
abbrev pub filtered : Options
filtered = record full { no_bdd = false }

-- and eax, -32; add rax, r14; jmp *rax; then a jump back to the start of the code.
abbrev pub sample : List ℕ
sample = 0x83 ∷ 0xe0 ∷ 0xe0 ∷ 0x4c ∷ 0x01 ∷ 0xf0 ∷ 0xff ∷ 0xe0 ∷ 0x90 ∷ 0xeb ∷ 0x15 ∷ []

-- The verdict on code at 0x1000.
unfoldable pub verdict : Options → List ℕ → Outcome
unfolding is_through is_return_lea ok_return is_self_mov is_index_load is_sp_mnem is_esp_op
    lfiv_verify_x64 bundles_loop vchkbundle vchk_loop chk_inst advance bdd_loop chk_single memcpy
    verify_bundles branchinfo chkbranch chkmem chkmem_base chkmem_ctx chkmem_op chkmem_seg chkmod
    chkmod_op for_ops nmod okmnem reserved_as reserved or_next macroinst macroinst_load
    macroinst_jmp is_mask is_add_base macroinst_call macroinst_modsp macroinst_stos is_trunc
    assert_reg call_loop is_lea_base is_rebase is_rtjmp macroinst_cmps macroinst_movs
    macroinst_rtcall mask_add okrtcalldisp unknown verr verr_if verrmin one_of add64 reg_eq decode
verdict opts code = (lfiv_verify_x64 decode (λ _. 1) code 0x1000 opts).0

sample_passes : verdict full sample ≡ returns true
unfolding verdict
sample_passes = refl

-- The jump without its mask is refused.
unmasked_fails : verdict full (0x4c ∷ 0x01 ∷ 0xf0 ∷ 0xff ∷ 0xe0 ∷ []) ≡ returns false
unfolding verdict
unmasked_fails = refl

-- Code at an address that is no multiple of 32: a jump to address 32, nops, and a mask across it.
abbrev pub unaligned : List ℕ
unaligned =
    0xeb ∷ 0x0e ∷ 0x90 ∷ 0x90 ∷ 0x90 ∷ 0x90 ∷ 0x90 ∷ 0x90 ∷ 0x90 ∷ 0x90 ∷ 0x90 ∷ 0x90 ∷ 0x90 ∷ 0x90
    ∷ 0x90 ∷ 0x83 ∷ 0xe0 ∷ 0xe0 ∷ []

-- It passes, though the jump lands inside an instruction.
unaligned_passes : (lfiv_verify_x64 decode (λ _. 1) unaligned 0x10 full).0 ≡ returns true
unfolding verdict
unaligned_passes = refl

-- In a full sandbox, a load through rax into esp passes behind which the base is added to rsp.
load_esp_passes : verdict full (0x8b ∷ 0x20 ∷ 0x4c ∷ 0x01 ∷ 0xf4 ∷ []) ≡ returns true
unfolding verdict
load_esp_passes = refl

-- mov edi, edi; lea rdi, (r14, rdi), and stos with an address-size prefix.
abbrev decode_stos : Decoder
decode_stos [] = none
decode_stos (a ∷ _) =
    if a == 0x89
    then two (inst "FDI_MOV" 2 (gpr 4 reg_di) (gpr 4 reg_di))
    else if a == 0x49
    then two (inst "FDI_LEA" 4 (gpr 8 reg_di) (record (mem_op reg_r14) { index = reg_di }))
    else if a == 0x67
    then two (record (inst "FDI_STOS" 2 no_op no_op) { addrsize = 4 })
    else none

-- They pass, though this stos writes at edi and not at rdi.
stos32_passes :
    (lfiv_verify_x64 decode_stos
      (λ _. 1)
      (0x89 ∷ 0xff ∷ 0x49 ∷ 0x8d ∷ 0x3c ∷ 0x3e ∷ 0x67 ∷ 0xaa ∷ [])
      0x1000
      full).0
    ≡ returns true
unfolding verdict
stos32_passes = refl
