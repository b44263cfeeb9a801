-- ===== src/X64/Safety/Contained.antt =====
-- What accepted x86-64 code does to a machine, wherever control reaches.
use lfi_verifier.Prelude.{ℕ, ◌+◌, ◌%◌, ◌≤◌, ◌<◌, ◌≡◌, ◌≢◌, some, List, drop, add64}
use lfi_verifier.Options.{Options}
use lfi_verifier.X64.Inst.{ot_mem, Inst, Decoder}
use lfi_verifier.X64.Policy.{SafeInst}
use lfi_verifier.X64.Machine.{Registers, IsReady}
use lfi_verifier.X64.Confined.{IsConfined}
use lfi_verifier.X64.Macro.{MacroInst}
use lfi_verifier.X64.Safety.Access.{IsAccess}

module _ (fd_decode : Decoder) (or : ℕ → ℕ → ℕ) (base : ℕ) (opts : Options) (addr : ℕ)
    (code : List ℕ) where
  -- At the offset stands a macro with its effect, or a safe instruction whose memory operands access what
  -- the sandbox allows when the registers are ready. It ends in the offset's bundle.
  pub data IsContained (offset : ℕ) : Type 0 where
    contained_macro :
        (p : ℕ × Inst) (m : MacroInst)
        → fd_decode (drop offset code) ≡ some p
        → IsConfined fd_decode or base (add64 addr offset) 32 p.1 (drop offset code) m
        → offset % 32 + m.size ≤ 32
        → IsContained offset
    contained_single :
        (p : ℕ × Inst)
        → fd_decode (drop offset code) ≡ some p
        → SafeInst opts (add64 addr offset) 32 p.1
        → (p.1.type ≢ "FDI_LEA"
            → p.1.type ≢ "FDI_NOP"
            → (i : ℕ) → i < 4
            → (p.1.op i).op_type ≡ ot_mem
            → (regs : Registers) → IsReady base regs
            → IsAccess opts p.1 base regs (p.1.op i))
        → offset % 32 + p.0 ≤ 32
        → IsContained offset
