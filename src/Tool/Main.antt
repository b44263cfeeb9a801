-- ===== src/Tool/Main.antt =====
-- main of tools/lfi-verify/main.c.
use lfi_verifier.Prelude.{
  ℕ, Bool, true, false, not, ◌||◌, none, List, [], ◌∷◌, ◌++◌, String, leb, length, if◌then◌else◌,
}
use lfi_verifier.Options.{Options}
use lfi_verifier.Tool.World.{exits, go, M, ◌>>=◌, ◌>>◌, Env, say, fail}
use lfi_verifier.Tool.Verify.{Args, verify}
use lfi_verifier.Tool.Args.{Settings, defaults, usage, option_loop}

abbrev pub inputmax : ℕ
inputmax = 128

-- The loop that stores the arguments from optind.
unfoldable pub store_inputs : List String → Args → M Args
store_inputs [] args = go args
store_inputs (name ∷ names) args =
    if leb inputmax (length args.inputs)
    then say "too many input files\n" [] >> fail (exits 1) >> go args
    else store_inputs names (record args { inputs = args.inputs ++ (name ∷ []) })

-- struct LFIVerifier v = { .opts = opts };
abbrev pub set_opts : Options → M (Unit {0})
set_opts opts w = go tt (record w { v = record { opts = opts; verify = none } })

module _ (e : Env) where
  unfoldable pub verify_loop : Args → List String → Bool → M Bool
  verify_loop args [] failed = go failed
  verify_loop args (name ∷ names) failed = do
    ok ← verify e args name
    verify_loop args names (failed || not ok)

  -- What follows the loop over the options.
  unfoldable pub run_inputs : String → List String → Settings → M ℕ
  run_inputs prog operands s = do
    if leb (length operands) 0 then usage prog else go tt
    args ← store_inputs operands (record { n = s.n; inputs = []; arch = s.arch })
    set_opts (record s.opts { err = true })
    failed ← verify_loop args args.inputs false
    go (if failed then 1 else 0)

  -- The status that main returns. `prog` is argv[0], and argv what is behind it.
  unfoldable pub main : String → List String → M ℕ
  main prog argv = do
    let (opts, operands) = e.getopt_long argv
    s ← option_loop e prog opts defaults
    run_inputs prog operands s
