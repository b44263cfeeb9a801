-- ===== src/X64/Safety/Assert.antt =====
-- The assert of lfiv_verify_x64 of src/x64/verify.c, which compares the counts of its loops.
use lfi_verifier.Prelude.{
  ℕ, zero, suc, ◌+◌, ◌≤◌, ◌<◌, ◌≡◌, ◌≢◌, ◌⊎◌, inl, inr, refl, sym, ap, ◌∙◌, subst, Bool, true,
  false, not, ◌&&◌, some, List, [], arith, ltb, ◌==◌, length, drop, length-drop, ◌++◌, append-nil,
  Bool-cases, if◌then◌else◌, false≢true,
}
use lfi_verifier.Options.{Options}
use lfi_verifier.X64.Inst.{Inst, Decoder, DecodeLaws}
use lfi_verifier.X64.State.{Verifier}
use lfi_verifier.X64.Verify.{
  advance, memcpy, bdd_loop, zero_buf, initial, Outcome, returns, assert_failed, verify_bundles,
  lfiv_verify_x64,
}
use lfi_verifier.X64.Safety.Entry.{
  filled, found, bdd_loop-stop, bdd_loop-more, bdd_run, main_run, bdd_run_reset,
  lfiv_verify_x64-off, lfiv_verify_x64-on,
}
use lfi_verifier.X64.Safety.Macros.{Run, finish, next}
use lfi_verifier.X64.Safety.Counts.{bundles_loop-IsWalk}

-- Where the diagram gives a length to bytes that start with an instruction, it is the instruction's.
pub record LengthLaw (fd_decode : Decoder) (lfi_x86_bdd : List ℕ → ℕ) : Type 0 where
  pub agrees :
      (bytes tail : List ℕ) (p : ℕ × Inst)
      → fd_decode bytes ≡ some p
      → (lfi_x86_bdd (bytes ++ tail) ≡ 0) ⊎ (lfi_x86_bdd (bytes ++ tail) ≡ p.1.size)

module _ (fd_decode : Decoder) (laws : DecodeLaws fd_decode) where
  -- No instruction is decoded behind the code.
  inside_code :
      (code : List ℕ) (count : ℕ) (p : ℕ × Inst)
      → fd_decode (drop count code) ≡ some p
      → count < length code
  inside_code code count p d = omega (
    arith,
    length-drop count code,
    laws.size_pos (drop count code) p.0 p.1 d,
    laws.size_fits (drop count code) p.0 p.1 d,
  )

  module _ (lfi_x86_bdd : List ℕ → ℕ) (agree : LengthLaw fd_decode lfi_x86_bdd) where
    found-agrees :
        (f : ℕ) (code : List ℕ) (count ninstr : ℕ) (buf : List ℕ) (v : Verifier) (p : ℕ × Inst)
        → fd_decode (drop count code) ≡ some p
        → let n = found lfi_x86_bdd f code count ninstr buf v in (n ≡ 0) ⊎ (n ≡ p.1.size)
    unfolding memcpy
    found-agrees f code count ninstr buf v p d =
        elim (Bool-cases (ltb (length (drop count code)) 15)) [
          | inl t ↦
              rw (t) (agree.agrees (drop count code) (drop (length (drop count code)) buf) p d)
          | inr t ↦ rw t (
              subst (λ b. (lfi_x86_bdd b ≡ 0) ⊎ (lfi_x86_bdd b ≡ p.1.size))
                (append-nil (drop count code)) (agree.agrees (drop count code) [] p d))
        ]

    bdd_loop_count :
        (fuel : ℕ) (code : List ℕ) (count ninstr : ℕ) (buf : List ℕ) (v : Verifier) {end n : ℕ}
        → length code ≤ fuel + count
        → Run fd_decode code count end n
        → length code ≤ end
        → let r = bdd_loop lfi_x86_bdd fuel code count ninstr buf v in r.0 ≡ true → r.1 ≡ ninstr + n
    bdd_loop_count zero code count ninstr buf v u (finish e k) l h = unfold bdd_loop in omega arith
    bdd_loop_count zero code count ninstr buf v u (next p m rest d q k run) l h =
        let i = inside_code code count p d in absurd (omega arith)
    bdd_loop_count (suc f) code count ninstr buf v u (finish e k) l h =
        let past : ltb count (length code) ≡ false = ground arith in
        ap (λ r. r.1) (bdd_loop-stop lfi_x86_bdd f code count ninstr buf v past) ∙ omega arith
    bdd_loop_count (suc f) code count ninstr buf v {end = end} u (next p m rest d q k run) l h =
        let i = inside_code code count p d in
        let t : ltb count (length code) ≡ true = ground arith in
        let e = bdd_loop-more lfi_x86_bdd f code count ninstr buf v t in
        let size = found lfi_x86_bdd f code count ninstr buf v in
        elim (Bool-cases (size == 0)) [
          | inl z ↦ absurd (false≢true (rw (e, z) at h))
          | inr z ↦
              let same : size ≡ p.1.size = elim (found-agrees f code count ninstr buf v p d) [
                | inl none' ↦ absurd (ground arith)
                | inr same ↦ same
              ] in
              let pos = laws.size_pos (drop count code) p.0 p.1 d in
              rw (e, z)
                (bdd_loop_count f code (count + size) (ninstr + 1)
                    (filled lfi_x86_bdd f code count ninstr buf v) (advance size v) (omega arith)
                    (subst (λ y. Run fd_decode code y end rest) (omega (arith, q, same)) run) l
                    (rw (e, z) at h)
                  ∙ omega arith)
        ]

    assert_parts :
        (done off failed same : Bool) (v : Verifier)
        → let r : Outcome × Verifier =
            if not done
            then (returns false, v)
            else if not off && (not failed && not same)
            then (assert_failed, v)
            else (returns (not failed), v) in
          r.0 ≡ assert_failed → (done ≡ true) × (failed ≡ false) × (same ≡ false)
    assert_parts done off failed same v h = (ground arith, ground arith, ground arith)

    module _ (code : List ℕ) (addr : ℕ) (opts : Options) where
      abbrev start : Verifier
      start = initial addr opts

      abbrev bdd : Bool × ℕ × Verifier
      bdd = bdd_run fd_decode lfi_x86_bdd code addr opts

      abbrev bundles : Bool × Verifier × ℕ
      bundles = main_run fd_decode lfi_x86_bdd code addr opts

      counts_agree : bdd.0 ≡ true → bundles.0 ≡ true → bundles.1.failed ≡ false → bdd.1 ≡ bundles.2
      counts_agree known done ok =
          let (end, n, run, m, l) =
            bundles_loop-IsWalk fd_decode laws (length code) code 0 0 start (omega arith) refl done
              ok in
          bdd_loop_count (length code) code 0 0 zero_buf start (omega arith) run l known ∙ sym m

      bundles_assert :
          bdd.0 ≡ true → (verify_bundles fd_decode code bdd.1 start).0 ≡ assert_failed → ⊥
      unfolding verify_bundles
      bundles_assert known h =
          let (done, ok, differ) =
            assert_parts bundles.0 opts.no_bdd bundles.1.failed (bdd.1 == bundles.2) bundles.1 h in
          let same = counts_agree known done ok in ground arith

      off_assert :
          opts.no_bdd ≡ true → (verify_bundles fd_decode code 0 start).0 ≡ assert_failed → ⊥
      unfolding verify_bundles
      off_assert off h = ground arith

      -- The assert on the instruction counts of lfiv_verify_x64 holds for every code, address and
      -- options, with a lawful decoder, if a length that the decision diagram gives is the decoder's:
      -- where both loops pass, they count the same instructions, macros or not.
      pub lfiv_verify_x64-ne-assert_failed :
          (lfiv_verify_x64 fd_decode lfi_x86_bdd code addr opts).0 ≢ assert_failed
      lfiv_verify_x64-ne-assert_failed h = elim (Bool-cases opts.no_bdd) [
        | inl off ↦
            off_assert off (
              ap (λ r. r.0) (sym (lfiv_verify_x64-off fd_decode lfi_x86_bdd code addr opts off))
              ∙ h)
        | inr on ↦
            let h' =
              ap (λ r. r.0) (sym (lfiv_verify_x64-on fd_decode lfi_x86_bdd code addr opts on))
              ∙ h in
            elim (Bool-cases bdd.0) [
              | inl b ↦
                  bundles_assert b
                    (rw (b, bdd_run_reset fd_decode lfi_x86_bdd code addr opts b) at h')
              | inr b ↦ absurd (cc (rw b at h'))
            ]
      ]
