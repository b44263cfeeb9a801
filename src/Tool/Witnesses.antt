-- ===== src/Tool/Witnesses.antt =====
-- The theorems on the tool, applied to the sample files.
use lfi_verifier.Prelude.{
  ℕ, ◌≡◌, ◌↔◌, ◌⊎◌, inl, refl, subst, Bool, true, false, ◌&&◌, and-true, none, some, some-injective,
  List, [], ◌∷◌, String, is, ltb, All, arith, if◌then◌else◌,
}
use lfi_verifier.Options.{box_stores}
use lfi_verifier.X64.Tests.{
  decode, decode-laws, full, filtered, nop_decode, nop_bdd, nop_decode-laws, nop_bdd-LengthLaw,
}
use lfi_verifier.Arm64.Tests.{disarm, disarm-laws}
use lfi_verifier.Dispatch.{verify_x64}
use lfi_verifier.Dispatch.Answers.{no_bdd-ne-assertion, verify_arm64-ne-assertion}
use lfi_verifier.Tool.World.{World, Env, go, stop, exits}
use lfi_verifier.Tool.Args.{Settings, defaults, option_loop}
use lfi_verifier.Tool.Verify.{verify}
use lfi_verifier.Tool.Main.{main}
use lfi_verifier.Tool.Policy.{IsReliable}
use lfi_verifier.Tool.Safety.Decides.{SaidRefused}
use lfi_verifier.Tool.Safety.Entry.{
  IsAcceptable, verify-IsAcceptable, verify_exact, verify_resources,
}
use lfi_verifier.Tool.Safety.Exit.{AllAcceptable, main_exact, main_rejects}
use lfi_verifier.Tool.Safety.Linked.{verify_linked_total}
use lfi_verifier.Tool.Safety.Fields.{IsBytes}
use lfi_verifier.Tool.Safety.Safe.{IsSafeFile, IsLinked, main_safe}
use lfi_verifier.Tool.Safety.Options.{options_for, option_loop-options_for}
use lfi_verifier.Tool.Tests.{good_file, bad_file, files, env, world, args, run, run_main, left}

unfoldable all_bytes : List ℕ → Bool
all_bytes [] = true
all_bytes (b ∷ bs) = ltb b 256 && all_bytes bs

all_bytes-IsBytes : (bs : List ℕ) → all_bytes bs ≡ true → IsBytes bs
unfolding all_bytes
all_bytes-IsBytes [] h = tt
all_bytes-IsBytes (b ∷ bs) h = let (p, q) = and-true _ _ h in (ground arith, all_bytes-IsBytes bs q)

env-IsBytes : (name : String) (file : List ℕ) → files name ≡ some file → IsBytes file
unfolding all_bytes
env-IsBytes name file = opened (is name "good") (is name "bad")
  where
    opened :
        (a b : Bool)
        → (if a then some good_file else if b then some bad_file else none) ≡ some file
        → IsBytes file
    opened true b h = subst IsBytes (some-injective _ _ h) (all_bytes-IsBytes good_file refl)
    opened false true h = subst IsBytes (some-injective _ _ h) (all_bytes-IsBytes bad_file refl)
    opened false false h = cc

env-IsLinked : IsLinked decode disarm env (λ _. 1)
env-IsLinked = record { x64_linked = refl; arm64_linked = refl; bytes = env-IsBytes }

env-IsReliable : IsReliable env full
env-IsReliable = record {
  malloc = λ _ _. refl;
  clock_gettime = λ _. refl;
  x64 = λ code addr. no_bdd-ne-assertion decode (λ _. 1) code addr full refl;
  arm64 = λ code addr. verify_arm64-ne-assertion disarm code addr full disarm-laws;
}

verify-IsAcceptable_example : IsAcceptable env args full "good"
unfolding run
verify-IsAcceptable_example =
    verify-IsAcceptable env full args "good" world refl (left (verify env args "good" world)) refl

-- The tool with the decoder of nops and its diagram.
abbrev nop_env : Env
nop_env = record env { lfiv_verify_x64 = verify_x64 nop_decode nop_bdd }

nop_env-IsLinked : IsLinked nop_decode disarm nop_env nop_bdd
nop_env-IsLinked = record { x64_linked = refl; arm64_linked = refl; bytes = env-IsBytes }

verify_linked_total_example :
    let w = record world { v = record { opts = filtered; verify = none } } in
    (b : Bool) × (w' : World) × (verify nop_env args "good" w ≡ go b w')
verify_linked_total_example =
    verify_linked_total nop_decode disarm nop_bdd nop_env disarm-laws nop_decode-laws
      nop_bdd-LengthLaw nop_env-IsLinked filtered (λ _ _. refl) (λ _. refl) args "good"
      (record world { v = record { opts = filtered; verify = none } }) refl

verify_exact_example :
    ((w : World) × (verify env args "good" world ≡ go true w)) ↔ IsAcceptable env args full "good"
verify_exact_example = verify_exact env full args "good" world refl env-IsReliable

verify_resources_example :
    let w = left (verify env args "bad" world) in
    ((w.files ≡ 0) × (w.blocks ≡ 0))
    ⊎ ((◌≡◌ {A = Bool} false false) × (w.files ≡ 1) × (w.blocks ≡ 1) × SaidRefused w)
unfolding run
verify_resources_example =
    verify_resources env full args "bad" world refl false (left (verify env args "bad" world)) refl

main_safe_example :
    (s : Settings) × (w : World) × (option_loop env "lfi-verify"
        (env.getopt_long ("good" ∷ [])).0
        defaults
        world
      ≡ go s w)
    × All (IsSafeFile decode disarm env (record s.opts { err = true })) ("good" ∷ [])
unfolding run_main
main_safe_example =
    main_safe decode disarm (λ _. 1) env decode-laws env-IsLinked "lfi-verify" ("good" ∷ []) world
      (left (main env "lfi-verify" ("good" ∷ []) world)) refl

abbrev no_bdd : Settings
no_bdd = record defaults { opts = record defaults.opts { no_bdd = true } }

main_exact_example :
    ((w : World) × (main env "lfi-verify" ("good" ∷ []) world ≡ go 0 w))
    ↔ AllAcceptable env "lfi-verify" ("good" ∷ []) no_bdd
unfolding run_main
main_exact_example =
    main_exact env "lfi-verify" ("good" ∷ []) world no_bdd world refl (omega arith) (omega arith)
      env-IsReliable

main_rejects_example :
    (w : World) × (main env "lfi-verify" [] world ≡ stop (exits 1) w) × (w.opens ≡ 0)
main_rejects_example = main_rejects env "lfi-verify" [] world (inl refl)

-- --n=1 --arch=arm64 --sandbox=stores --ctxreg
abbrev arm64_stores : Settings
arm64_stores = record {
  n = 1;
  arch = some "arm64";
  opts = record { box = box_stores; no_bdd = false; ctxreg = true; err = false };
}

option_loop-options_for_example :
    option_loop env "lfi-verify" (options_for "1" arm64_stores) defaults world
    ≡ go arm64_stores world
unfolding run_main
option_loop-options_for_example =
    option_loop-options_for env "lfi-verify" world "1" arm64_stores refl refl refl
