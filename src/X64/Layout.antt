-- ===== src/X64/Layout.antt =====
-- What the x86-64 sandbox allows of code: bundles of 32 bytes, each cut into safe instructions and
-- macros that end inside it.
use lfi_verifier.Prelude.{ℕ, ◌+◌, ◌≤◌, ◌<◌, ◌≡◌, ◌⊎◌, none, some, List, length, drop, add64}
use lfi_verifier.Options.{Options}
use lfi_verifier.X64.Inst.{Inst, Decoder}
use lfi_verifier.X64.Macro.{MacroInst, macroinst}
use lfi_verifier.X64.Verify.{initial}
use lfi_verifier.X64.Policy.{SafeInst}

module _ (fd_decode : Decoder) (opts : Options) where
  -- One unit at an address: a macro, or a safe instruction of `ret` bytes that starts none.
  pub data UnitOk (addr : ℕ) (rest : List ℕ) (ret : ℕ) (instr : Inst) : MacroInst → Type 0 where
    macro :
        {m : MacroInst}
        → macroinst fd_decode (initial addr opts) instr rest ≡ some m
        → UnitOk addr rest ret instr m
    single :
        {m : MacroInst}
        → macroinst fd_decode (initial addr opts) instr rest ≡ none
        → m ≡ record { size = ret; ninstr = 1 }
        → SafeInst opts addr 32 instr
        → UnitOk addr rest ret instr m

  -- The bundle `buf`, loaded at `base`, is cut into units from the offset `count` on.
  pub data Tiled (base : ℕ) (buf : List ℕ) : ℕ → Type 0 where
    stop : {count : ℕ} → (32 ≤ count) ⊎ (length buf ≤ count) → Tiled base buf count
    step :
        {count : ℕ} (p : ℕ × Inst) (m : MacroInst)
        → count < 32
        → count < length buf
        → fd_decode (drop count buf) ≡ some p
        → UnitOk (add64 base count) (drop count buf) p.0 p.1 m
        → count + m.size ≤ 32
        → Tiled base buf (count + m.size)
        → Tiled base buf count

  -- The code, loaded at `base`, is cut into bundles from the offset `count` on.
  pub data Bundled (base : ℕ) (code : List ℕ) : ℕ → Type 0 where
    finished : {count : ℕ} → length code ≤ count → Bundled base code count
    bundle :
        {count : ℕ}
        → count < length code
        → Tiled (add64 base count) (drop count code) 0
        → Bundled base code (count + 32)
        → Bundled base code count
