-- ===== src/Dispatch/Answers.antt =====
-- What the verifiers of src/x64 and src/arm64 answer through the function pointer of src/include/lfiv.h.
use lfi_verifier.Prelude.{
  ℕ, ◌≡◌, ◌≢◌, refl, sym, ap, ◌∙◌, Bool, true, false, none, some, Option, List, String, arith,
}
use lfi_verifier.Options.{Options}
use lfi_verifier.X64.Inst.{Decoder}
use lfi_verifier.X64.State.{Verifier}
use lfi_verifier.X64.Verify.{Outcome, returns, assert_failed, lfiv_verify_x64, verify_bundles}
use lfi_verifier.Arm64.Inst.{Disarm}
use lfi_verifier.Arm64.State.{Verifier as Arm64Verifier}
use lfi_verifier.Arm64.Verify.{lfiv_verify_arm64}
use lfi_verifier.Arm64.Laws.{DisarmLaws}
use lfi_verifier.Arm64.Safety.Entry.{lfiv_verify_arm64_total}
use lfi_verifier.Dispatch.{
  Answer, answer, assertion, x64_messages, arm64_messages, verify_x64, verify_arm64,
}

module _ (fd_decode : Decoder) (lfi_x86_bdd : List ℕ → ℕ) (code : List ℕ) (addr : ℕ)
    (opts : Options) where
  pub verify_x64-returns :
      {msgs : List String}
      → verify_x64 fd_decode lfi_x86_bdd code addr opts ≡ answer true msgs
      → (lfiv_verify_x64 fd_decode lfi_x86_bdd code addr opts).0 ≡ returns true
  unfolding verify_x64
  verify_x64-returns {msgs} h = returned (lfiv_verify_x64 fd_decode lfi_x86_bdd code addr opts) h
    where
      returned :
          (r : Outcome × Verifier)
          → elim r.0 [ returns b ↦ answer b (x64_messages r.1.reports) | assert_failed ↦ assertion ]
            ≡ answer true msgs
          → r.0 ≡ returns true
      returned (returns true, v) h = refl
      returned (returns false, v) h = cc
      returned (assert_failed, v) h = cc

  pub verify_x64-ne-assertion :
      (lfiv_verify_x64 fd_decode lfi_x86_bdd code addr opts).0 ≢ assert_failed
      → verify_x64 fd_decode lfi_x86_bdd code addr opts ≢ assertion
  unfolding verify_x64
  verify_x64-ne-assertion = answered (lfiv_verify_x64 fd_decode lfi_x86_bdd code addr opts)
    where
      answered :
          (r : Outcome × Verifier)
          → r.0 ≢ assert_failed
          → elim r.0 [ returns b ↦ answer b (x64_messages r.1.reports) | assert_failed ↦ assertion ]
            ≢ assertion
      answered (returns b, v) n h = cc
      answered (assert_failed, v) n h = n refl

  -- Without the filter there is nothing that the assert compares.
  pub no_bdd-ne-assertion :
      opts.no_bdd ≡ true → verify_x64 fd_decode lfi_x86_bdd code addr opts ≢ assertion
  unfolding lfiv_verify_x64 verify_bundles
  no_bdd-ne-assertion e = verify_x64-ne-assertion (λ h. ground arith)

module _ (d : Disarm) (code : List ℕ) (addr : ℕ) (opts : Options) where
  pub verify_arm64-some :
      {msgs : List String}
      → verify_arm64 d code addr opts ≡ answer true msgs
      → (v : Arm64Verifier) × (lfiv_verify_arm64 d code addr opts ≡ some (true, v))
  unfolding verify_arm64
  verify_arm64-some {msgs} h = returned (lfiv_verify_arm64 d code addr opts) h
    where
      returned :
          (r : Option (Bool × Arm64Verifier))
          → elim r [ none ↦ assertion | some (b, v) ↦ answer b (arm64_messages v.reports) ]
            ≡ answer true msgs
          → (v : Arm64Verifier) × (r ≡ some (true, v))
      returned none h = cc
      returned (some (true, v)) h = (v, refl)
      returned (some (false, v)) h = cc

  pub verify_arm64-ne-assertion : DisarmLaws d → verify_arm64 d code addr opts ≢ assertion
  unfolding verify_arm64
  verify_arm64-ne-assertion laws h =
      let (r, e) = lfiv_verify_arm64_total d code addr opts laws in cc (ap answered (sym e) ∙ h)
    where
      answered : Option (Bool × Arm64Verifier) → Answer
      answered r = elim r [ none ↦ assertion | some (b, v) ↦ answer b (arm64_messages v.reports) ]
