-- ===== src/Tool/Args.antt =====
-- The options of tools/lfi-verify/main.c: archname and the loop over getopt_long.
use lfi_verifier.Prelude.{
  ℕ, true, false, ◌&&◌, Option, none, some, List, [], ◌∷◌, String, is, one_of, if◌then◌else◌,
}
use lfi_verifier.Options.{Options, box_full, box_stores}
use lfi_verifier.Tool.World.{
  exits, go, M, ◌>>=◌, ◌>>◌, Opt, opt_h, opt_a, opt_n, opt_s, opt_long, opt_other, Env, say, fail,
}

-- What the loop sets: args.n, args.arch and opts.
pub record Settings : Type 0 where
  pub n : ℕ
  pub arch : Option String
  pub opts : Options

-- The objects with static storage start as zero; main sets args.n.
abbrev pub defaults : Settings
defaults = record {
  n = 1;
  arch = none;
  opts = record { box = box_full; no_bdd = false; ctxreg = false; err = false };
}

abbrev usage_text : String
usage_text =
    "Usage: %s [OPTION...] INPUT...\n\n  -h, --help              show help\n  -a, --arch=ARCH         run on architecture (x64,arm64)\n  -n, --n=NUM             run the verifier n times (for benchmarking)\n  -s, --sandbox=TYPE      select sandbox type (full,stores)\n      --no-bdd            disable the BDD filter (x86-64)\n      --ctxreg            enable context register (x25 on arm64, r15 on x64)\n"

unfoldable pub usage : String → M (Unit {0})
usage prog = say usage_text (some prog ∷ []) >> fail (exits 1)

-- What follows the call of archname.
unfoldable pub set_arch : String → Option String → Settings → M Settings
set_arch optarg none s w =
    (say "unknown architecture: %s\n" (some optarg ∷ []) >> fail (exits 1) >> go s) w
set_arch optarg (some arch) s w = go (record s { arch = some arch }) w

module _ (e : Env) where
  unfoldable pub archname : String → Option String
  archname s =
      if e.arch_x64 && one_of ("amd64" ∷ "x64" ∷ "x86_64" ∷ []) s
      then some "x64"
      else if e.arch_arm64 && one_of ("arm64" ∷ "aarch64" ∷ []) s
      then some "arm64"
      else none

  -- The switch on what getopt_long returns.
  unfoldable pub option_step : String → Opt → Settings → M Settings
  option_step prog opt_h s = usage prog >> go s
  option_step prog (opt_a optarg) s = set_arch optarg (archname optarg) s
  option_step prog (opt_n optarg) s = go (record s { n = e.atoi optarg })
  option_step prog (opt_s optarg) s =
      if is optarg "full"
      then go (record s { opts = record s.opts { box = box_full } })
      else if is optarg "stores"
      then go (record s { opts = record s.opts { box = box_stores } })
      else say "unsupported sandbox type: %s\n" (some optarg ∷ []) >> fail (exits 1) >> go s
  option_step prog (opt_long name) s =
      if is name "no-bdd"
      then go (record s { opts = record s.opts { no_bdd = true } })
      else if is name "ctxreg"
      then go (record s { opts = record s.opts { ctxreg = true } })
      else go s
  option_step prog opt_other s = go s

  unfoldable pub option_loop : String → List Opt → Settings → M Settings
  option_loop prog [] s = go s
  option_loop prog (o ∷ os) s = option_step prog o s >>= option_loop prog os
