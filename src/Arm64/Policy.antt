-- ===== src/Arm64/Policy.antt =====
-- What the arm64 sandbox allows of a single instruction, without reference to how it is checked.
use lfi_verifier.Prelude.{
  ℕ, ◌≡◌, ◌≢◌, ◌⊎◌, Bool, true, false, not, ◌&&◌, ◌||◌, String, some, List, [], ◌∷◌, is, one_of,
  ◌==◌, ◌/◌, ◌%◌, ◌^◌, if◌then◌else◌,
}
use lfi_verifier.Options.{Options, box_stores}
use lfi_verifier.Arm64.Inst.{
  OpType, op_memuoff, op_memsoff, op_memsoffpre, op_memsoffpost, op_memreg, op_memregpost,
  op_meminc, op_sysreg, op_regsp, ext_uxtw, Op, Group, Inst, Disarm, is_branch,
}
use lfi_verifier.Arm64.Regs.{
  ctxreg_tp_offset, okrtcallimm, isload, okmnem, sysreg, sys_dc_zva, nmod, is_x30_guard,
  is_x30_ldr_guard,
}
use lfi_verifier.Arm64.Passes.{EachOp}
use lfi_verifier.Arm64.Check.{is_gp, is_x30_load, is_addr_guard, writeback_reg, overwrites}
use lfi_verifier.Arm64.Verify.{is_hint}

-- x28 and, where `sp`, register 31 as the stack pointer.
pub data IsAddress : ℕ → Type 0 where
  address : {r : ℕ} → r ≡ 28 → IsAddress r
  stack : {r : ℕ} → r ≡ 31 → IsAddress r

-- The registers whose values the sandbox fixes: x27, and x25 where it is the context register.
pub data IsFixed (opts : Options) : ℕ → Type 0 where
  base : {r : ℕ} → r ≡ 27 → IsFixed opts r
  context : {r : ℕ} → opts.ctxreg ≡ true → r ≡ 25 → IsFixed opts r

-- Operand kinds: base and offset; base with write-back; no memory access.
pub data IsOffset : OpType → Type 0 where
  unsigned : IsOffset op_memuoff
  signed : IsOffset op_memsoff

pub data IsUpdate : OpType → Type 0 where
  pre : IsUpdate op_memsoffpre
  post : IsUpdate op_memsoffpost

abbrev pub is_memory : OpType → Bool
is_memory op_memuoff = true
is_memory op_memsoff = true
is_memory op_memsoffpre = true
is_memory op_memsoffpost = true
is_memory op_memreg = true
is_memory op_memregpost = true
is_memory op_meminc = true
is_memory _ = false

-- An operand that accesses no memory, or accesses it inside the sandbox.
pub data MemOk (opts : Options) (op : Op) (load : Bool) : Type 0 where
  not_memory : is_memory op.type ≡ false → MemOk opts op load
  free_offset : opts.box ≡ box_stores → load ≡ true → IsOffset op.type → MemOk opts op load
  free_register : opts.box ≡ box_stores → load ≡ true → op.type ≡ op_memreg → MemOk opts op load
  free_update :
      opts.box ≡ box_stores
      → load ≡ true
      → IsUpdate op.type ⊎ (op.type ≡ op_meminc)
      → ¬ IsFixed opts op.reg
      → MemOk opts op load
  runtime_slot : IsOffset op.type → op.reg ≡ 27 → okrtcallimm op.simm16 ≡ true → MemOk opts op load
  context_slot :
      IsOffset op.type
      → opts.ctxreg ≡ true
      → op.reg ≡ 25
      → op.uimm16 ≡ ctxreg_tp_offset
      → MemOk opts op load
  at_address : IsOffset op.type ⊎ IsUpdate op.type → IsAddress op.reg → MemOk opts op load
  register_offset :
      op.type ≡ op_memreg
      → op.reg ≡ 27
      → op.memreg_ext ≡ ext_uxtw
      → op.memreg_sc ≡ 0
      → MemOk opts op load

-- With the context register for its base, an offset operand stands in an ldr or str alone.
abbrev pub ContextOk : Options → Inst → Op → Type 0
ContextOk opts dinst op =
    IsOffset op.type
    → opts.ctxreg ≡ true
    → op.reg ≡ 25
    → (dinst.mnem ≡ "DA64I_LDR_IMM") ⊎ (dinst.mnem ≡ "DA64I_STR_IMM")

-- A register operand that may be written: any but the fixed registers, x28 and sp; x30 always, and
-- x28 and sp by the guard instruction.
pub data WriteOk (opts : Options) (dinst : Inst) (op : Op) : Type 0 where
  no_register : is_gp op.type ≡ false → WriteOk opts dinst op
  free :
      ¬ IsFixed opts op.reg
      → op.reg ≢ 28
      → (op.type ≡ op_regsp → op.reg ≢ 31)
      → WriteOk opts dinst op
  guarded : ¬ IsFixed opts op.reg → is_addr_guard dinst ≡ true → WriteOk opts dinst op

abbrev pub indirect_mnems : List String
indirect_mnems = "DA64I_BLR" ∷ "DA64I_BR" ∷ "DA64I_RET" ∷ "DA64I_RETAA" ∷ "DA64I_RETAB" ∷ []

-- The control flow that an instruction may make when the guard of x30 is `g`.
pub data BranchOk (group : Group) (g : Bool) (dinst : Inst) : Type 0 where
  direct :
      one_of indirect_mnems dinst.mnem ≡ false
      → (is_branch group ≡ true → g ≡ true)
      → BranchOk group g dinst
  runtime_call : dinst.mnem ≡ "DA64I_BLR" → (dinst.ops 0).reg ≡ 27 → BranchOk group g dinst
  indirect :
      (dinst.mnem ≡ "DA64I_BLR") ⊎ (dinst.mnem ≡ "DA64I_BR") ⊎ (dinst.mnem ≡ "DA64I_RET")
      → ((dinst.ops 0).reg ≡ 28) ⊎ ((dinst.ops 0).reg ≡ 30)
      → g ≡ true
      → BranchOk group g dinst

abbrev pub system_mnems : List String
system_mnems = "DA64I_MSR" ∷ "DA64I_MRS" ∷ "DA64I_SYS" ∷ []

pub data SysOk (dinst : Inst) : Type 0 where
  no_system : one_of system_mnems dinst.mnem ≡ false → SysOk dinst
  write_sysreg : dinst.mnem ≡ "DA64I_MSR" → sysreg (dinst.ops 0).sysreg ≡ true → SysOk dinst
  read_sysreg : dinst.mnem ≡ "DA64I_MRS" → sysreg (dinst.ops 1).sysreg ≡ true → SysOk dinst
  zero_line :
      dinst.mnem ≡ "DA64I_SYS"
      → (dinst.ops 0).type ≡ op_sysreg
      → (dinst.ops 0).sysreg ≡ sys_dc_zva
      → (dinst.ops 1).reg ≡ 28
      → SysOk dinst

-- Bit `i` of the mask of modified operands.
abbrev pub modified : ℕ → ℕ → Bool
modified mask i = mask / 2 ^ i % 2 == 1

abbrev pub WritesOk : Options → Inst → ℕ → ℕ → Type 0
WritesOk opts dinst mask i = modified mask i ≡ true → WriteOk opts dinst (dinst.ops i)

-- Whether an operand is x30, and whether an instruction writes it there.
abbrev pub names_x30 : Op → Bool
names_x30 op = is_gp op.type && op.reg == 30

abbrev pub written : Inst → ℕ → ℕ → Bool
written dinst mask i = modified mask i && names_x30 (dinst.ops i)

-- An instruction that leaves an address of the sandbox in x30, if it writes x30.
abbrev pub guards : Inst → Bool
guards dinst = is_x30_guard dinst || is_x30_load dinst

-- Whether x30 is guarded behind an instruction that modifies the operands of the mask.
abbrev pub guard_next : Inst → ℕ → Bool → Bool
guard_next dinst mask g =
    if written dinst mask 0
      || (written dinst mask 1
          || (written dinst mask 2 || (written dinst mask 3 || written dinst mask 4)))
    then guards dinst
    else g

-- The policy for an instruction that is checked in full, when the guard of x30 is `g`.
pub record Checked (opts : Options) (group : Group) (g : Bool) (dinst : Inst) : Type 0 where
  pub branches : BranchOk group g dinst
  pub system : SysOk dinst
  pub memory :
      EachOp (λ i. MemOk opts (dinst.ops i) (isload dinst) × ContextOk opts dinst (dinst.ops i))
  pub writes : EachOp (WritesOk opts dinst (nmod group dinst))
  pub distinct : nmod group dinst ≡ 3 → (dinst.ops 0).reg ≢ (dinst.ops 1).reg
  pub writeback : (r : ℕ) → writeback_reg dinst ≡ some r → overwrites dinst r ≡ false

module _ (d : Disarm) where
  abbrev pub Known : Inst → Type 0
  Known dinst = (dinst.mnem ≢ "DA64I_UNKNOWN") × (okmnem dinst ≡ true)

  -- The policy for an instruction word, when the guard of x30 is `g`.
  pub data SafeInsn (opts : Options) (g : Bool) (insn : ℕ) : Type 0 where
    hint : is_hint insn ≡ true → SafeInsn opts g insn
    probe :
        is_hint insn ≡ false
        → Known (d.da64_decode insn)
        → is_x30_ldr_guard (d.da64_decode insn) ≡ true
        → SafeInsn opts g insn
    checked :
        is_hint insn ≡ false
        → Known (d.da64_decode insn)
        → is_x30_ldr_guard (d.da64_decode insn) ≡ false
        → Checked opts (d.da64_group (d.da64_decode insn).mnem) g (d.da64_decode insn)
        → SafeInsn opts g insn

  -- Whether x30 is guarded behind an instruction word: a hint, a probe and an instruction that is
  -- refused leave it as it was.
  unfoldable pub guard_step : ℕ → Bool → Bool
  guard_step insn g =
      let dinst = d.da64_decode insn in
      if is_hint insn
        || (is dinst.mnem "DA64I_UNKNOWN" || (not (okmnem dinst) || is_x30_ldr_guard dinst))
      then g
      else guard_next dinst (nmod (d.da64_group dinst.mnem) dinst) g

  -- The code runs through safe instructions, the guard being `g` before it and intact behind it.
  pub data SafeRun (opts : Options) : Bool → List ℕ → Type 0 where
    end : {g : Bool} → g ≡ true → SafeRun opts g []
    insn :
        {g : Bool} {i : ℕ} {code : List ℕ}
        → SafeInsn opts g i
        → SafeRun opts (guard_step i g) code
        → SafeRun opts g (i ∷ code)
