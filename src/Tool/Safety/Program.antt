-- ===== src/Tool/Safety/Program.antt =====
-- main of tools/lfi-verify/main.c: what its exit status says of the inputs.
use lfi_verifier.Prelude.{
  ℕ, ◌≤◌, ◌<◌, ◌≡◌, ◌⊎◌, inl, inr, refl, ap, ◌∙◌, true, false, none, List, [], String, arith,
  Bool-cases, leb, length, if◌then◌else◌,
}
use lfi_verifier.Options.{Options}
use lfi_verifier.Tool.World.{World, Env, Step, exits, go, stop, M, ◌>>=◌, ◌>>◌}
use lfi_verifier.Tool.Verify.{Args}
use lfi_verifier.Tool.Args.{Settings, usage}
use lfi_verifier.Tool.Main.{store_inputs, verify_loop, run_inputs, inputmax, set_opts}
use lfi_verifier.Tool.Safety.Inputs.{store_inputs_room, store_inputs_many}

-- Every step of a chain that goes through goes through.
pub bind-eq-go {ℓ κ} :
    {A : Type ℓ} {B : Type κ} (m : M A) (f : A → M B) (w : World) {b : B} {w' : World}
    → (m >>= f) w ≡ go b w'
    → (a : A) × (w₁ : World) × (m w ≡ go a w₁) × (f a w₁ ≡ go b w')
bind-eq-go {A = A} {B = B} m f w {b} {w'} = inverted (m w)
  where
    inverted :
        (r : Step A)
        → elim r [ go a w' ↦ f a w' | stop s w' ↦ stop s w' ] ≡ go b w'
        → (a : A) × (w₁ : World) × (r ≡ go a w₁) × (f a w₁ ≡ go b w')
    inverted (go a w₁) h = (a, w₁, refl, h)
    inverted (stop s w₁) h = cc

-- args of args.h once the inputs are stored, and opts once main has set err.
abbrev pub args_of : Settings → List String → Args
args_of s operands = record { n = s.n; inputs = operands; arch = s.arch }

abbrev pub opts_of : Settings → Options
opts_of s = record s.opts { err = true }

-- The process where the loop over the inputs starts.
abbrev pub started : Settings → World → World
started s w = record w { v = record { opts = opts_of s; verify = none } }

-- No input, or more than INPUTMAX.
abbrev pub IsBadCount : List String → Type 0
IsBadCount operands = (length operands ≡ 0) ⊎ (inputmax < length operands)

pub count_cases :
    (operands : List String)
    → IsBadCount operands ⊎ ((0 < length operands) × (length operands ≤ inputmax))
count_cases operands = elim (Bool-cases (leb (length operands) 0)) [
  | inl none' ↦ inl (inl (ground arith))
  | inr some' ↦ elim (Bool-cases (leb (length operands) inputmax)) [
    | inl fits ↦ inr (ground arith, ground arith)
    | inr many ↦ inl (inr (ground arith))
  ]
]

module _ (e : Env) (prog : String) (operands : List String) (s : Settings) where
  -- run_inputs from where the inputs are stored, and to where the first test is passed.
  abbrev pub after_store : Args → M ℕ
  after_store args = do
    set_opts (opts_of s)
    failed ← verify_loop e args args.inputs false
    go (if failed then 1 else 0)

  abbrev after_count : M ℕ
  after_count = store_inputs operands (args_of s []) >>= after_store

  run_inputs_counted :
      (w : World) → 0 < length operands → run_inputs e prog operands s w ≡ after_count w
  unfolding run_inputs
  run_inputs_counted w h =
      let some' : leb (length operands) 0 ≡ false = ground arith in
      ap (λ b. ((if b then usage prog else go tt) >> after_count) w) some'

  pub run_inputs_room :
      (w : World)
      → 0 < length operands
      → length operands ≤ inputmax
      → run_inputs e prog operands s w ≡ after_store (args_of s operands) w
  run_inputs_room w h l =
      run_inputs_counted w h
      ∙ ap (λ r. elim r [ go a w' ↦ after_store a w' | stop t w' ↦ stop t w' ])
          (store_inputs_room operands (args_of s []) w (omega arith))

  pub run_inputs_rejects :
      (w : World)
      → IsBadCount operands
      → (w' : World) × (run_inputs e prog operands s w ≡ stop (exits 1) w') × (w'.opens ≡ w.opens)
  unfolding run_inputs usage
  run_inputs_rejects w (inl z) =
      let none' : leb (length operands) 0 ≡ true = ground arith in
      (_, ap (λ b. ((if b then usage prog else go tt) >> after_count) w) none', refl)
  run_inputs_rejects w (inr many) =
      let (w', h, q) = store_inputs_many operands (args_of s []) w (omega arith) (omega arith) in
      (
        w',
        run_inputs_counted w (omega arith)
            ∙ ap (λ r. elim r [ go a w' ↦ after_store a w' | stop t w' ↦ stop t w' ]) h,
        q,
      )
