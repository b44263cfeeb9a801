-- ===== src/X64/Control.antt =====
-- How control moves through code: the offsets at which a processor may begin a unit of it.
use lfi_verifier.Prelude.{ℕ, ◌+◌, ◌%◌, ◌≤◌, ◌≡◌, true, none, some, List, drop, add64, one_of}
use lfi_verifier.Options.{Options}
use lfi_verifier.X64.Inst.{Inst, Decoder, ot_off}
use lfi_verifier.X64.Macro.{MacroInst, macroinst}
use lfi_verifier.X64.Verify.{initial, chk_inst}
use lfi_verifier.X64.Policy.{branch_types}
use lfi_verifier.X64.Layout.{UnitOk}

module _ (fd_decode : Decoder) (opts : Options) (base : ℕ) (code : List ℕ) where
  -- The macro or instruction `p` at the offset.
  abbrev pub unit_at : ℕ → ℕ × Inst → MacroInst
  unit_at offset p =
      (chk_inst fd_decode p.0 p.1 (drop offset code) (initial (add64 base offset) opts)).0

  -- The entry of the code and the targets of masked jumps and of returns are starts of bundles; a
  -- unit falls through to its end; a branch with an offset goes to its target.
  pub data Reach : ℕ → Type 0 where
    bundle_start : {offset : ℕ} → offset % 32 ≡ 0 → Reach offset
    fall_through :
        {offset next : ℕ} (p : ℕ × Inst)
        → Reach offset
        → fd_decode (drop offset code) ≡ some p
        → next ≡ offset + (unit_at offset p).size
        → Reach next
    direct_branch :
        {offset target : ℕ} (p : ℕ × Inst)
        → Reach offset
        → fd_decode (drop offset code) ≡ some p
        → macroinst fd_decode (initial (add64 base offset) opts) p.1 (drop offset code) ≡ none
        → one_of branch_types p.1.type ≡ true
        → (p.1.op 0).op_type ≡ ot_off
        → add64 base target ≡ add64 (add64 base offset + p.1.size) (p.1.op 0).imm
        → Reach target

  -- A safe unit that starts at the offset and ends in the offset's bundle.
  pub data UnitHere (offset : ℕ) : Type 0 where
    here :
        (p : ℕ × Inst) (m : MacroInst)
        → fd_decode (drop offset code) ≡ some p
        → UnitOk fd_decode opts (add64 base offset) (drop offset code) p.0 p.1 m
        → offset % 32 + m.size ≤ 32
        → UnitHere offset
