-- ===== src/Arm64/Verify.antt =====
-- vchk and lfiv_verify_arm64 of src/arm64/verify.c.
use lfi_verifier.Prelude.{
  ℕ, ◌+◌, ◌*◌, ◌%◌, Bool, true, false, not, ◌&&◌, ◌||◌, Option, none, some, List, [], ◌∷◌, leb,
  ◌==◌, ◌!=◌, is, require, ◌>>=◌, ◌>>◌, length, add64, if◌then◌else◌,
}
use lfi_verifier.Options.{Options}
use lfi_verifier.Arm64.Inst.{Inst, Disarm}
use lfi_verifier.Arm64.State.{Verifier, verrmin, verr, verr_if}
use lfi_verifier.Arm64.Regs.{is_x30_ldr_guard, nmod, okmnem}
use lfi_verifier.Arm64.Check.{chkbranch, chksys, for_ops, chkmemops, chkmod_op, chkwriteback}

-- INSN_NOP, INSN_YIELD, ..., INSN_CNTD_X0, which vchk accepts by their encoding.
unfoldable pub is_hint : ℕ → Bool
is_hint insn =
    insn == 0xd503201f
    || (insn == 0xd503203f
        || (insn == 0xd503219f
            || (insn == 0xd50321df
                || (insn == 0xd50323bf
                    || (insn == 0xd50324ff
                        || (insn == 0xd503233f
                            || (insn == 0xd50324df
                                || (insn == 0xd503249f
                                    || (insn == 0xd503245f
                                        || (insn == 0xd503241f
                                            || (insn == 0xd50320ff || insn == 0x04e0e3e0)))))))))))

-- The operands that an instruction modifies.
unfoldable pub chkmods : Inst → ℕ → Verifier → Verifier
chkmods dinst mask v = for_ops (chkmod_op dinst mask) v

-- The end of vchk, from its computation of the mask.
unfoldable pub chk_writes : ℕ → Inst → Verifier → Option Verifier
chk_writes mask dinst v = do
  let v₁ = chkmods dinst mask v
  require (leb mask 3)
  let same = mask == 3 && (dinst.ops 0).reg == (dinst.ops 1).reg
  let v₂ = verr_if same dinst "simultaneous modification of the same register is unpredictable" v₁
  some (chkwriteback dinst v₂)

module _ (d : Disarm) where
  open d use {da64_decode, da64_group}

  -- The checks of a known and legal instruction.
  unfoldable pub chk_inst : Inst → Verifier → Option Verifier
  chk_inst dinst v = do
    v₁ ← chkbranch (da64_group dinst.mnem) dinst v
    v₂ ← chksys dinst v₁
    chk_writes (nmod (da64_group dinst.mnem) dinst) dinst (chkmemops dinst v₂)

  unfoldable pub vchk : ℕ → Verifier → Option Verifier
  vchk insn v =
      let dinst = da64_decode insn in
      if is_hint insn
      then some v
      else if is dinst.mnem "DA64I_UNKNOWN"
      then some (verrmin none "unknown instruction" v)
      else if not (okmnem dinst)
      then some (verr dinst "illegal instruction" v)
      else if is_x30_ldr_guard dinst
      then some v
      else chk_inst dinst v

  -- The loop of lfiv_verify_arm64: false for its early return.
  unfoldable pub insns_loop : List ℕ → Verifier → Option (Bool × Verifier)
  insns_loop [] v = some (true, v)
  insns_loop (insn ∷ insns) v = do
    v₁ ← vchk insn v
    let v₂ = record v₁ { addr = add64 v₁.addr 4 }
    let rest = insns_loop insns v₂
    if v₂.failed && not v₂.opts.err then some (false, v₂) else rest

-- The uint32_t at each fourth byte, on a little-endian machine.
unfoldable pub words : List ℕ → List ℕ
words (a ∷ b ∷ c ∷ e ∷ bytes) = (a + 256 * b + 65536 * c + 16777216 * e) ∷ words bytes
words _ = []

abbrev pub initial : ℕ → Options → Verifier
initial addr opts = record {
  failed = false;
  addr = addr;
  opts = opts;
  x30_guarded = true;
  reports = [];
}

-- What follows the loop.
unfoldable pub finish : Bool × Verifier → Bool × Verifier
finish (done, v) =
    let v' = if v.x30_guarded then v else verrmin none "x30 is unguarded at end of code" v in
    if done then (not v'.failed, v') else (false, v)

-- `none` is the failure of an assert.
unfoldable pub lfiv_verify_arm64 : Disarm → List ℕ → ℕ → Options → Option (Bool × Verifier)
lfiv_verify_arm64 d code addr opts =
    if length code % 4 != 0
    then some (false, initial addr opts)
    else do end ← insns_loop d (words code) (initial addr opts); some (finish end)
