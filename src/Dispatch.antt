-- ===== src/Dispatch.antt =====
-- src/include/lfiv.h: struct LFIVerifier and lfiv_verify, with src/riscv64/verify.c. The verifiers of
-- the other architectures are brought to the shape of the function pointer.
pub mod Answers
use lfi_verifier.Prelude.{ℕ, Bool, true, false, Option, none, some, List, [], ◌∷◌, ◌++◌, String}
use lfi_verifier.Options.{Options}
use lfi_verifier.X64.Inst.{Decoder}
use lfi_verifier.X64.State.{Report}
use lfi_verifier.X64.Verify.{Outcome, lfiv_verify_x64}
use lfi_verifier.Arm64.Inst.{Disarm}
use lfi_verifier.Arm64.State.{Report as Arm64Report}
use lfi_verifier.Arm64.Verify.{lfiv_verify_arm64}

-- What a call of a verifier comes to: the result and the messages that it gave to err, the first
-- first; or the failure of an assert.
pub data Answer : Type 0 where
  answer : Bool → List String → Answer
  assertion : Answer

abbrev pub Verify : Type 0
Verify = List ℕ → ℕ → Options → Answer

abbrev pub x64_messages : List Report → List String
x64_messages [] = []
x64_messages (r ∷ rs) = x64_messages rs ++ (r.msg ∷ [])

abbrev pub arm64_messages : List Arm64Report → List String
arm64_messages [] = []
arm64_messages (r ∷ rs) = arm64_messages rs ++ (r.msg ∷ [])

unfoldable pub verify_x64 : Decoder → (List ℕ → ℕ) → Verify
verify_x64 fd_decode lfi_x86_bdd code addr opts =
    let (outcome, v) = lfiv_verify_x64 fd_decode lfi_x86_bdd code addr opts in
    elim outcome [
      | Outcome.returns b ↦ answer b (x64_messages v.reports)
      | Outcome.assert_failed ↦ assertion
    ]

unfoldable pub verify_arm64 : Disarm → Verify
verify_arm64 d code addr opts = elim (lfiv_verify_arm64 d code addr opts) [
  | none ↦ assertion
  | some (b, v) ↦ answer b (arm64_messages v.reports)
]

-- The stub of src/riscv64/verify.c.
unfoldable pub lfiv_verify_riscv64 : Verify
lfiv_verify_riscv64 code addr opts = answer true []

-- `verify` is none where the pointer is NULL.
pub record LfiVerifier : Type 0 where
  pub opts : Options
  pub verify : Option Verify

unfoldable pub lfiv_verify : LfiVerifier → List ℕ → ℕ → Answer
lfiv_verify v code addr = elim v.verify [ none ↦ answer false [] | some f ↦ f code addr v.opts ]
