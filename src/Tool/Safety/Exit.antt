-- ===== src/Tool/Safety/Exit.antt =====
-- The exit status of main of tools/lfi-verify/main.c.
use lfi_verifier.Prelude.{
  ℕ, ◌<◌, ◌≤◌, ◌≡◌, ◌↔◌, inl, inr, refl, sym, ap, ◌∙◌, Bool, true, false, List, String, length, All,
  if◌then◌else◌,
}
use lfi_verifier.Tool.World.{World, Env, Step, exits, go, stop}
use lfi_verifier.Tool.Args.{Settings, defaults, option_loop}
use lfi_verifier.Tool.Main.{verify_loop, run_inputs, main, inputmax}
use lfi_verifier.Tool.Policy.{IsReliable}
use lfi_verifier.Tool.Safety.Entry.{IsAcceptable}
use lfi_verifier.Tool.Safety.Quiet.{IsQuiet, option_loop-IsQuiet}
use lfi_verifier.Tool.Safety.Inputs.{LoopEnds, verify_loop-Ends}
use lfi_verifier.Tool.Safety.Program.{
  bind-eq-go, args_of, opts_of, IsBadCount, count_cases, run_inputs_room, run_inputs_rejects,
  started,
}

-- return 1 or return 0 behind the loop over the inputs.
abbrev status_of : Step Bool → Step ℕ
status_of r = elim r [ go failed w ↦ go (if failed then 1 else 0) w | stop s w ↦ stop s w ]

module _ (e : Env) (prog : String) (operands : List String) (s : Settings) where
  -- Every input is to be accepted under the options that were read.
  abbrev pub AllAcceptable : Type 0
  AllAcceptable = All (IsAcceptable e (args_of s operands) (opts_of s)) operands

  status_of_sound :
      (r : Step Bool) (w' : World)
      → LoopEnds e (args_of s operands) (opts_of s) operands false r
      → status_of r ≡ go 0 w'
      → AllAcceptable
  unfolding LoopEnds
  status_of_sound (go true w) w' l h = cc
  status_of_sound (go false w) w' l h = (l.0 refl).1
  status_of_sound (stop t w) w' l h = cc

  status_of_complete :
      (r : Step Bool)
      → LoopEnds e (args_of s operands) (opts_of s) operands false r
      → IsReliable e (opts_of s)
      → AllAcceptable
      → (w' : World) × (status_of r ≡ go 0 w')
  unfolding LoopEnds
  status_of_complete (go true w) l ok all = let f = l.1 ok refl all in cc
  status_of_complete (go false w) l ok all = (w, refl)
  status_of_complete (stop t w) l ok all = absurd (l.1 ok)

  module _ (w : World) where
    looped :
        LoopEnds e
          (args_of s operands)
          (opts_of s)
          operands
          false
          (verify_loop e (args_of s operands) operands false (started s w))
    looped = verify_loop-Ends e (args_of s operands) (opts_of s) operands false (started s w) refl

    run_inputs-sound : (w' : World) → run_inputs e prog operands s w ≡ go 0 w' → AllAcceptable
    run_inputs-sound w' h = elim (count_cases operands) [
      | inl bad ↦ let (w₁, q, _) = run_inputs_rejects e prog operands s w bad in cc
      | inr (some', fits) ↦
          status_of_sound _ w' looped (sym (run_inputs_room e prog operands s w some' fits) ∙ h)
    ]

module _ (e : Env) (prog : String) (argv : List String) (w : World) where
  abbrev operands : List String
  operands = (e.getopt_long argv).1

  abbrev read_options : Step Settings
  read_options = option_loop e prog (e.getopt_long argv).0 defaults w

  -- Where main returns 0, whatever the system does, the options were read and every input is a file
  -- that is to be accepted under them.
  pub main_sound :
      (w' : World)
      → main e prog argv w ≡ go 0 w'
      → (s : Settings) × (w₁ : World) × (read_options ≡ go s w₁) × AllAcceptable e prog operands s
  unfolding main
  main_sound w' h =
      let (s, w₁, p, q) =
        bind-eq-go (option_loop e prog (e.getopt_long argv).0 defaults) (run_inputs e prog operands)
          w h in
      (s, w₁, p, run_inputs-sound e prog operands s w₁ w' q)

  -- On a reliable system, where the options can be read and 1 to 128 inputs are given, main returns 0
  -- exactly if every input is a file that is to be accepted under the options.
  pub main_exact :
      (s : Settings) (w₁ : World)
      → read_options ≡ go s w₁
      → 0 < length operands
      → length operands ≤ inputmax
      → IsReliable e (opts_of s)
      → ((w' : World) × (main e prog argv w ≡ go 0 w')) ↔ AllAcceptable e prog operands s
  unfolding main
  main_exact s w₁ read some' fits ok =
      let ran : main e prog argv w ≡ run_inputs e prog operands s w₁ =
        ap (λ r. elim r [ go t w' ↦ run_inputs e prog operands t w' | stop t w' ↦ stop t w' ])
          read in
      let passed = run_inputs_room e prog operands s w₁ some' fits in
      (
        λ h. run_inputs-sound e prog operands s w₁ h.0 (sym ran ∙ h.1),
        λ all.
            let (w', q) =
              status_of_complete e prog operands s _ (looped e prog operands s w₁) ok all in
            (w', ran ∙ passed ∙ q),
      )

  -- With no input, or more than 128, main ends with status 1 and has opened no file.
  pub main_rejects :
      IsBadCount operands
      → (w' : World) × (main e prog argv w ≡ stop (exits 1) w') × (w'.opens ≡ w.opens)
  unfolding main IsQuiet
  main_rejects bad = ran read_options (option_loop-IsQuiet e prog (e.getopt_long argv).0 defaults w)
    where
      ran :
          (r : Step Settings)
          → IsQuiet w r
          → (w' : World) × (elim r as (λ _. Step ℕ) [
            | go s w' ↦ run_inputs e prog operands s w'
            | stop s w' ↦ stop s w'
          ]
              ≡ stop (exits 1) w')
            × (w'.opens ≡ w.opens)
      ran (go s w₁) p =
          let (w', h, q) = run_inputs_rejects e prog operands s w₁ bad in (w', h, q ∙ p)
      ran (stop s w') (p, q) = (w', ap (λ t. stop t w') p, q)
