-- ===== src/X64/Confined.antt =====
-- What the sequences of src/x64/macroinst.c do to a machine that is ready for the sandbox.
use lfi_verifier.Prelude.{
  ℕ, ◌+◌, ◌%◌, ◌≡◌, ◌⊎◌, true, some, String, List, [], ◌∷◌, one_of, drop, add64,
}
use lfi_verifier.X64.Inst.{reg_r11, reg_ip, reg_si, reg_di, Inst, Decoder, is_reg, is_mem}
use lfi_verifier.X64.Macro.{MacroInst, okrtcalldisp}
use lfi_verifier.X64.Machine.{Registers, address, step, Inside, Near, IsReady, IsPlain}

module _ (or : ℕ → ℕ → ℕ) (base : ℕ) where
  -- Ready, and at a branch through a register to the start of a bundle in the sandbox.
  pub record IsTarget (jmp : Inst) (regs : Registers) : Type 0 where
    pub ready : IsReady base regs
    pub inside : Inside base (regs (jmp.op 0).reg)
    pub aligned : regs (jmp.op 0).reg % 32 ≡ 0

  -- The registers after the mask of a branch and the addition of the base, which give it its target.
  abbrev pub Masks : Inst → Inst → Inst → Type 0
  Masks first add jmp =
      (o o' : ℕ) (regs : Registers)
      → IsReady base regs
      → IsTarget jmp (step or o' add (step or o first regs))

  -- The registers after the two instructions that point di into the sandbox.
  abbrev pub Points : Inst → Inst → Type 0
  Points mov lea =
      (o o' : ℕ) (regs : Registers)
      → IsReady base regs
      → let regs' = step or o' lea (step or o mov regs) in
        IsReady base regs' × Inside base (regs' reg_di)

-- lea of an address relative to the next instruction into r11.
pub record IsReturnAddress (lea : Inst) : Type 0 where
  pub type : lea.type ≡ "FDI_LEA"
  pub reg : (lea.op 0).reg ≡ reg_r11
  pub base : (lea.op 1).base ≡ reg_ip

-- A branch through a register.
abbrev pub IsThrough : String → Inst → Type 0
IsThrough name jmp = (jmp.type ≡ name) × (is_reg (jmp.op 0).op_type ≡ true)

module _ (fd_decode : Decoder) where
  -- In the buffer, nops from one offset to another.
  pub data Nops (buf : List ℕ) (from : ℕ) : ℕ → Type 0 where
    no_nops : Nops buf from from
    one_more :
        {off : ℕ} (i : ℕ × Inst)
        → Nops buf from off
        → fd_decode (drop off buf) ≡ some i
        → i.1.type ≡ "FDI_NOP"
        → Nops buf from (off + i.1.size)

module _ (fd_decode : Decoder) (or : ℕ → ℕ → ℕ) (base addr bundlesize : ℕ) where
  -- The effect of a sequence from its first instruction on, whatever the registers are before it as
  -- long as they are ready, and whatever instructions compute that `computed` does not list.
  pub data IsConfined (first : Inst) (buf : List ℕ) (m : MacroInst) : Type 0 where
    jump :
        (add jmp : ℕ × Inst)
        → fd_decode (drop first.size buf) ≡ some add
        → fd_decode (drop (first.size + add.1.size) buf) ≡ some jmp
        → IsThrough "FDI_JMP" jmp.1
        → Masks or base first add.1 jmp.1
        → IsConfined first buf m
    -- Nothing but nops stands before a call, which returns to the start of a bundle.
    call :
        (add jmp : ℕ × Inst) (off : ℕ)
        → fd_decode (drop first.size buf) ≡ some add
        → Nops fd_decode buf (first.size + add.1.size) off
        → fd_decode (drop off buf) ≡ some jmp
        → IsThrough "FDI_CALL" jmp.1
        → m.size ≡ off + jmp.1.size
        → add64 addr m.size % 32 ≡ 0
        → Masks or base first add.1 jmp.1
        → IsConfined first buf m
    load :
        (i : ℕ × Inst)
        → fd_decode (drop first.size buf) ≡ some i
        → i.1.type ≡ "FDI_MOV"
        → IsPlain i.1
        → ((o o' : ℕ) (regs : Registers)
            → IsReady base regs
            → let regs' = step or o first regs in
              Near base (address regs' i.1 (i.1.op 1)) × IsReady base (step or o' i.1 regs'))
        → IsConfined first buf m
    -- The first instruction is one that writes its first operand only.
    sets_sp :
        (i : ℕ × Inst)
        → one_of ("FDI_MOV" ∷ "FDI_ADD" ∷ "FDI_AND" ∷ "FDI_SUB" ∷ "FDI_LEA" ∷ []) first.type ≡ true
        → fd_decode (drop first.size buf) ≡ some i
        → ((o o' : ℕ) (regs : Registers)
            → IsReady base regs
            → IsReady base (step or o' i.1 (step or o first regs)))
        → IsConfined first buf m
    -- stos
    one_string :
        (lea stos : ℕ × Inst)
        → fd_decode (drop first.size buf) ≡ some lea
        → fd_decode (drop (first.size + lea.1.size) buf) ≡ some stos
        → stos.1.type ≡ "FDI_STOS"
        → IsPlain stos.1
        → Points or base first lea.1
        → IsConfined first buf m
    -- movs and cmps
    two_strings :
        (lea mov lea' last : ℕ × Inst)
        → fd_decode (drop first.size buf) ≡ some lea
        → fd_decode (drop (first.size + lea.1.size) buf) ≡ some mov
        → fd_decode (drop (first.size + lea.1.size + mov.1.size) buf) ≡ some lea'
        → fd_decode (drop (first.size + lea.1.size + mov.1.size + lea'.1.size) buf) ≡ some last
        → (last.1.type ≡ "FDI_MOVS") ⊎ (last.1.type ≡ "FDI_CMPS")
        → IsPlain last.1
        → ((o₁ o₂ o₃ o₄ : ℕ) (regs : Registers)
            → IsReady base regs
            → let regs' =
                step or o₄ lea'.1 (step or o₃ mov.1 (step or o₂ lea.1 (step or o₁ first regs))) in
              IsReady base regs' × Inside base (regs' reg_di) × Inside base (regs' reg_si))
        → IsConfined first buf m
    -- A jump through a slot of the runtime call table, with a return address behind it or at the start
    -- of a bundle.
    runtime :
        (jmp : ℕ × Inst)
        → IsReturnAddress first
        → fd_decode (drop first.size buf) ≡ some jmp
        → jmp.1.type ≡ "FDI_JMP"
        → is_mem (jmp.1.op 0).op_type ≡ true
        → IsPlain jmp.1
        → okrtcalldisp (jmp.1.op 0).disp ≡ true
        → ((first.op 1).disp ≡ jmp.1.size)
          ⊎ (add64 (addr + first.size) (first.op 1).disp % bundlesize ≡ 0)
        → ((o : ℕ) (regs : Registers)
            → IsReady base regs
            → let regs' = step or o first regs in
              IsReady base regs'
              × (address regs' jmp.1 (jmp.1.op 0) ≡ add64 base (jmp.1.op 0).disp))
        → IsConfined first buf m
