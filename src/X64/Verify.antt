-- ===== src/X64/Verify.antt =====
-- The loops of src/x64/verify.c: vchkbundle over one bundle, and lfiv_verify_x64 over the code.
use lfi_verifier.Prelude.{
  ℕ, zero, suc, ◌+◌, Bool, true, false, not, ◌&&◌, ◌||◌, none, some, List, [], ◌∷◌, ◌++◌, ltb, ◌==◌,
  drop, length, add64, if◌then◌else◌,
}
use lfi_verifier.Options.{Options}
use lfi_verifier.X64.Inst.{Inst, Decoder}
use lfi_verifier.X64.State.{Verifier, verr, verr_if, unknown}
use lfi_verifier.X64.Check.{okmnem, chkbranch, chkmem, chkmod}
use lfi_verifier.X64.Macro.{MacroInst, macroinst}

-- What vchkbundle does with an instruction that starts no macro: all four checks.
unfoldable pub chk_single : Inst → Verifier → Verifier
unfolding verr_if
chk_single instr v =
    let v₁ = verr_if (not (okmnem instr)) instr "illegal instruction" v in
    chkmod instr (chkmem instr (chkbranch instr v₁))

-- v->addr += mi.size;
unfoldable pub advance : ℕ → Verifier → Verifier
advance n v = record v { addr = add64 v.addr n }

module _ (fd_decode : Decoder) where
  -- The macro at an instruction, or the instruction itself after its checks.
  unfoldable pub chk_inst : ℕ → Inst → List ℕ → Verifier → MacroInst × Verifier
  chk_inst ret instr rest v = elim (macroinst fd_decode v instr rest) [
    | none ↦ (record { size = ret; ninstr = 1 }, chk_single instr v)
    | some m ↦ (m, v)
  ]

  -- The loop of vchkbundle, from the offset `count`: the verifier and the number of instructions.
  -- Each round passes at least one byte, so 32 rounds are enough.
  unfoldable pub vchk_loop : ℕ → List ℕ → ℕ → ℕ → Verifier → Verifier × ℕ
  vchk_loop zero buf count ninstr v = (v, ninstr)
  vchk_loop (suc fuel) buf count ninstr v =
      elim (ltb count v.bundlesize && ltb count (length buf)) [
        | false ↦ (v, ninstr)
        | true ↦ elim (fd_decode (drop count buf)) [
          | none ↦ (unknown v, ninstr)
          | some (ret, instr) ↦
              let (m, v') = chk_inst ret instr (drop count buf) v in
              let spans = verr instr "instruction spans bundle boundary" v' in
              let rest =
                vchk_loop fuel buf (count + m.size) (ninstr + m.ninstr) (advance m.size v') in
              if ltb v'.bundlesize (count + m.size)
              then (record spans { aborted = true }, ninstr)
              else rest
        ]
      ]

  unfoldable pub vchkbundle : List ℕ → Verifier → Verifier × ℕ
  vchkbundle buf v = vchk_loop 32 buf 0 0 v

  -- The second loop of lfiv_verify_x64, from the offset `count`: false for its early return.
  unfoldable pub bundles_loop : ℕ → List ℕ → ℕ → ℕ → Verifier → Bool × Verifier × ℕ
  bundles_loop zero code count ninstr v = (true, v, ninstr)
  bundles_loop (suc fuel) code count ninstr v = elim (ltb count (length code)) [
    | false ↦ (true, v, ninstr)
    | true ↦
        let (v', n) = vchkbundle (drop count code) v in
        let rest = bundles_loop fuel code (count + v'.bundlesize) (ninstr + n) v' in
        if v'.failed && not v'.opts.err || v'.aborted then (false, v', ninstr + n) else rest
  ]

-- memcpy(insn_buf, xs, length xs): what lies behind them stays.
unfoldable pub memcpy : List ℕ → List ℕ → List ℕ
memcpy insn_buf xs = xs ++ drop (length xs) insn_buf

-- What a call of lfiv_verify_x64 comes to: a result, or the failure of its assert.
pub data Outcome : Type 0 where
  returns : Bool → Outcome
  assert_failed : Outcome

module _ (lfi_x86_bdd : List ℕ → ℕ) where
  -- The first loop of lfiv_verify_x64: false for its early return. A round with n = 0 returns, so
  -- `length code` rounds are enough.
  unfoldable pub bdd_loop : ℕ → List ℕ → ℕ → ℕ → List ℕ → Verifier → Bool × ℕ × Verifier
  bdd_loop zero code count ninstr insn_buf v = (true, ninstr, v)
  bdd_loop (suc fuel) code count ninstr insn_buf v = elim (ltb count (length code)) [
    | false ↦ (true, ninstr, v)
    | true ↦
        let tail = ltb (length (drop count code)) 15 in
        let buf' = if tail then memcpy insn_buf (drop count code) else insn_buf in
        let n = lfi_x86_bdd (if tail then buf' else drop count code) in
        let rest = bdd_loop fuel code (count + n) (ninstr + 1) buf' (advance n v) in
        if n == 0 then (false, ninstr, unknown v) else rest
  ]

-- uint8_t insn_buf[15] = {0};
abbrev pub zero_buf : List ℕ
zero_buf = 0 ∷ 0 ∷ 0 ∷ 0 ∷ 0 ∷ 0 ∷ 0 ∷ 0 ∷ 0 ∷ 0 ∷ 0 ∷ 0 ∷ 0 ∷ 0 ∷ 0 ∷ []

abbrev pub initial : ℕ → Options → Verifier
initial addr opts = record {
  failed = false;
  aborted = false;
  addr = addr;
  opts = opts;
  bundlesize = 32;
  reports = [];
}

module _ (fd_decode : Decoder) where
  -- What follows the first loop: its instruction count is compared at the end.
  unfoldable pub verify_bundles : List ℕ → ℕ → Verifier → Outcome × Verifier
  verify_bundles code bdd_ninstr v =
      let (done, v', ninstr) = bundles_loop fd_decode (length code) code 0 0 v in
      if not done
      then (returns false, v')
      else if not v.opts.no_bdd && (not v'.failed && not (bdd_ninstr == ninstr))
      then (assert_failed, v')
      else (returns (not v'.failed), v')

module _ (fd_decode : Decoder) (lfi_x86_bdd : List ℕ → ℕ) where
  unfoldable pub lfiv_verify_x64 : List ℕ → ℕ → Options → Outcome × Verifier
  unfolding verify_bundles
  lfiv_verify_x64 code addr opts =
      let (found, bdd_ninstr, v) =
        bdd_loop lfi_x86_bdd (length code) code 0 0 zero_buf (initial addr opts) in
      let bundles = verify_bundles fd_decode code bdd_ninstr (record v { addr = addr }) in
      if opts.no_bdd
      then verify_bundles fd_decode code 0 (initial addr opts)
      else if found
      then bundles
      else (returns false, v)
