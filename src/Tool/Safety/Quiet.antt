-- ===== src/Tool/Safety/Quiet.antt =====
-- The option loop of main, and what it leaves alone.
use lfi_verifier.Prelude.{
  ◌≡◌, refl, ◌∙◌, Bool, true, false, none, some, Option, List, [], ◌∷◌, String, is, if◌then◌else◌,
}
use lfi_verifier.Tool.World.{
  World, Env, Step, exits, go, stop, M, ◌>>=◌, Opt, opt_h, opt_a, opt_n, opt_s, opt_long, opt_other,
}
use lfi_verifier.Tool.Args.{Settings, option_step, option_loop, usage, archname, set_arch}

-- A step that opens no file, and stops only with status 1.
unfoldable pub IsQuiet {ℓ} : {A : Type ℓ} → World → Step A → Type 0
IsQuiet w (go _ w') = w'.opens ≡ w.opens
IsQuiet w (stop s w') = (s ≡ exits 1) × (w'.opens ≡ w.opens)

IsQuiet-if {ℓ} :
    {A : Type ℓ} (b : Bool) (m k : M A) (w : World)
    → IsQuiet w (m w)
    → IsQuiet w (k w)
    → IsQuiet w ((if b then m else k) w)
IsQuiet-if true m k w h _ = h
IsQuiet-if false m k w _ h = h

IsQuiet-bind {ℓ κ} :
    {A : Type ℓ} {B : Type κ} (m : M A) (f : A → M B) (w : World)
    → IsQuiet w (m w)
    → ((a : A) (w' : World) → IsQuiet w' (f a w'))
    → IsQuiet w ((m >>= f) w)
unfolding IsQuiet
IsQuiet-bind {A = A} {B = B} m f w q h = after (m w) q
  where
    from : (w' : World) (r : Step B) → w'.opens ≡ w.opens → IsQuiet w' r → IsQuiet w r
    from w' (go b w₁) p e = e ∙ p
    from w' (stop s w₁) p (e, e') = (e, e' ∙ p)

    after :
        (r : Step A) → IsQuiet w r → IsQuiet w (elim r [ go a w' ↦ f a w' | stop s w' ↦ stop s w' ])
    after (go a w') e = from w' (f a w') e (h a w')
    after (stop s w') e = e

module _ (e : Env) (prog : String) where
  option_step-IsQuiet : (o : Opt) (s : Settings) (w : World) → IsQuiet w (option_step e prog o s w)
  unfolding IsQuiet option_step usage set_arch
  option_step-IsQuiet opt_h s w = (refl, refl)
  option_step-IsQuiet (opt_a a) s w = known (archname e a)
    where
      known : (o : Option String) → IsQuiet w (set_arch a o s w)
      known none = (refl, refl)
      known (some arch) = refl
  option_step-IsQuiet (opt_n a) s w = refl
  option_step-IsQuiet (opt_s a) s w =
      IsQuiet-if (is a "full") _ _ w refl (IsQuiet-if (is a "stores") _ _ w refl (refl, refl))
  option_step-IsQuiet (opt_long a) s w =
      IsQuiet-if (is a "no-bdd") _ _ w refl (IsQuiet-if (is a "ctxreg") _ _ w refl refl)
  option_step-IsQuiet opt_other s w = refl

  pub option_loop-IsQuiet :
      (os : List Opt) (s : Settings) (w : World) → IsQuiet w (option_loop e prog os s w)
  unfolding IsQuiet option_loop
  option_loop-IsQuiet [] s w = refl
  option_loop-IsQuiet (o ∷ os) s w =
      IsQuiet-bind (option_step e prog o s) (option_loop e prog os) w (option_step-IsQuiet o s w)
        (λ a w'. option_loop-IsQuiet os a w')
