-- ===== src/Tool/Safety/Options.antt =====
-- The option loop of main on the options that ask for given settings.
use lfi_verifier.Prelude.{
  ℕ, ◌≡◌, refl, sym, ap, ◌∙◌, Bool, true, false, Option, none, some, List, [], ◌∷◌, String,
}
use lfi_verifier.Options.{Options, BoxType, box_full, box_stores}
use lfi_verifier.Tool.World.{World, Env, go, ◌>>=◌, Opt, opt_a, opt_n, opt_s, opt_long}
use lfi_verifier.Tool.Args.{Settings, defaults, archname, set_arch, option_step, option_loop}

-- The argument of -s.
abbrev box_name : BoxType → String
box_name box_full = "full"
box_name box_stores = "stores"

abbrev with_flag : Bool → String → List Opt → List Opt
with_flag true name rest = opt_long name ∷ rest
with_flag false name rest = rest

abbrev with_arch : Option String → List Opt → List Opt
with_arch none rest = rest
with_arch (some arch) rest = opt_a arch ∷ rest

abbrev flags_for : Options → List Opt
flags_for opts = with_flag opts.no_bdd "no-bdd" (with_flag opts.ctxreg "ctxreg" [])

-- The options that ask for settings, with `num` for the argument of -n.
abbrev pub options_for : String → Settings → List Opt
options_for num s = opt_n num ∷ with_arch s.arch (opt_s (box_name s.opts.box) ∷ flags_for s.opts)

-- A name that archname knows as it stands, if there is one.
abbrev pub IsKnown : Env → Option String → Type 0
IsKnown e none = Unit
IsKnown e (some arch) = archname e arch ≡ some arch

module _ (e : Env) (prog : String) (w : World) where
  abbrev settings : ℕ → Option String → BoxType → Bool → Bool → Settings
  settings n arch box no_bdd ctxreg = record {
    n = n;
    arch = arch;
    opts = record { box = box; no_bdd = no_bdd; ctxreg = ctxreg; err = false };
  }

  option_loop-with_flag :
      (n : ℕ) (arch : Option String) (box : BoxType) (no_bdd ctxreg : Bool)
      → option_loop e prog
          (with_flag no_bdd "no-bdd" (with_flag ctxreg "ctxreg" []))
          (settings n arch box false false)
          w
        ≡ go (settings n arch box no_bdd ctxreg) w
  unfolding option_loop option_step
  option_loop-with_flag n arch box true true = refl
  option_loop-with_flag n arch box true false = refl
  option_loop-with_flag n arch box false true = refl
  option_loop-with_flag n arch box false false = refl

  option_loop-box_name :
      (n : ℕ) (arch : Option String) (box : BoxType) (rest : List Opt)
      → option_loop e prog (opt_s (box_name box) ∷ rest) (settings n arch box_full false false) w
        ≡ option_loop e prog rest (settings n arch box false false) w
  unfolding option_loop option_step
  option_loop-box_name n arch box_full rest = refl
  option_loop-box_name n arch box_stores rest = refl

  option_loop-with_arch :
      (n : ℕ) (arch : Option String) (rest : List Opt)
      → IsKnown e arch
      → option_loop e prog (with_arch arch rest) (settings n none box_full false false) w
        ≡ option_loop e prog rest (settings n arch box_full false false) w
  unfolding option_loop option_step set_arch
  option_loop-with_arch n none rest k = refl
  option_loop-with_arch n (some arch) rest k =
      ap
        (λ o.
          (set_arch arch o (settings n none box_full false false) >>= option_loop e prog rest) w)
        k

  -- The options that ask for given settings set them, for an architecture that is known by its own name
  -- and a number that atoi reads; err is not yet set.
  pub option_loop-options_for :
      (num : String) (s : Settings)
      → e.atoi num ≡ s.n
      → IsKnown e s.arch
      → s.opts.err ≡ false
      → option_loop e prog (options_for num s) defaults w ≡ go s w
  unfolding option_loop option_step
  option_loop-options_for num s number known unset =
      ap
        (λ n.
          option_loop e prog (with_arch s.arch (opt_s (box_name s.opts.box) ∷ flags_for s.opts))
            (settings n none box_full false false) w)
        number
      ∙ option_loop-with_arch s.n s.arch _ known
      ∙ option_loop-box_name s.n s.arch s.opts.box (flags_for s.opts)
      ∙ option_loop-with_flag s.n s.arch s.opts.box s.opts.no_bdd s.opts.ctxreg
      ∙ ap (λ b. go (record s { opts = record s.opts { err = b } }) w) (sym unset)
