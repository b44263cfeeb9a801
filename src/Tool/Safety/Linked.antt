-- ===== src/Tool/Safety/Linked.antt =====
-- verify of tools/lfi-verify/main.c with the verifiers of src/x64 and src/arm64 linked in.
use lfi_verifier.Prelude.{ℕ, ◌≡◌, sym, ap, ◌∙◌, Bool, true, List, String}
use lfi_verifier.Options.{Options}
use lfi_verifier.X64.Inst.{Decoder, DecodeLaws}
use lfi_verifier.X64.Safety.Assert.{LengthLaw, lfiv_verify_x64-ne-assert_failed}
use lfi_verifier.Arm64.Inst.{Disarm}
use lfi_verifier.Arm64.Laws.{DisarmLaws}
use lfi_verifier.Dispatch.Answers.{verify_x64-ne-assertion, verify_arm64-ne-assertion}
use lfi_verifier.Tool.World.{World, Env, go}
use lfi_verifier.Tool.Verify.{Args, verify}
use lfi_verifier.Tool.Policy.{IsReliable}
use lfi_verifier.Tool.Safety.Entry.{verify_total}
use lfi_verifier.Tool.Safety.Safe.{IsLinked}

module _ (fd_decode : Decoder) (d : Disarm) (lfi_x86_bdd : List ℕ → ℕ) (e : Env)
    (laws : DisarmLaws d) (decode : DecodeLaws fd_decode) (agree : LengthLaw fd_decode lfi_x86_bdd)
    (linked : IsLinked fd_decode d e lfi_x86_bdd) (opts : Options)
    (malloc : (calls size : ℕ) → e.malloc calls size ≡ true)
    (clock : (calls : ℕ) → e.clock_gettime calls ≡ true) where
  linked-IsReliable : IsReliable e opts
  linked-IsReliable = record {
    malloc = malloc;
    clock_gettime = clock;
    x64 = λ code addr h.
        verify_x64-ne-assertion fd_decode lfi_x86_bdd code addr opts
          (lfiv_verify_x64-ne-assert_failed fd_decode decode lfi_x86_bdd agree code addr opts)
          (ap (λ g. g code addr opts) (sym linked.x64_linked) ∙ h);
    arm64 = λ code addr h.
        verify_arm64-ne-assertion d code addr opts laws
          (ap (λ g. g code addr opts) (sym linked.arm64_linked) ∙ h);
  }

  -- verify, linked with the verifiers of the repository and lawful decoders, returns for every file name,
  -- whatever bytes the file has, in whatever process and under all options: neither its own assert nor
  -- one of a verifier fails. A length that the decision diagram gives is the decoder's, and malloc and
  -- clock_gettime succeed.
  pub verify_linked_total :
      (args : Args) (filename : String) (w : World)
      → w.v.opts ≡ opts
      → (b : Bool) × (w' : World) × (verify e args filename w ≡ go b w')
  verify_linked_total args filename w same =
      verify_total e opts args filename w same linked-IsReliable
