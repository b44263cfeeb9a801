-- ===== src/Tool/Safety/Inputs.antt =====
-- The loop of main over the inputs.
use lfi_verifier.Prelude.{
  ◌+◌, ◌≤◌, ◌<◌, ◌≡◌, inl, inr, refl, sym, ap, ◌∙◌, Bool, true, false, not, ◌||◌, List, [], ◌∷◌,
  ◌++◌, String, arith, Bool-cases, leb, length, append-nil, append_assoc, length-append, All,
  if◌then◌else◌,
}
use lfi_verifier.Options.{Options}
use lfi_verifier.Tool.World.{World, Env, Step, exits, say, fail, go, stop, ◌>>◌}
use lfi_verifier.Tool.Verify.{Args, verify}
use lfi_verifier.Tool.Main.{store_inputs, verify_loop, inputmax}
use lfi_verifier.Tool.Policy.{IsReliable}
use lfi_verifier.Tool.Safety.Entry.{IsAcceptable, IsFatal, Ended, verify-Ended}

module _ (e : Env) (args : Args) (opts : Options) where
  -- What the loop over the inputs ends in.
  unfoldable pub LoopEnds : List String → Bool → Step Bool → Type 0
  LoopEnds names failed (go b w) =
      (b ≡ false → (failed ≡ false) × All (IsAcceptable e args opts) names)
      × (IsReliable e opts → failed ≡ false → All (IsAcceptable e args opts) names → b ≡ false)
  LoopEnds names failed (stop s w) = IsFatal s × (IsReliable e opts → ⊥)

  -- A loop that starts with an input, from what the loop over the other inputs ends in.
  LoopEnds-accepted :
      (name : String) (names : List String) (failed : Bool) (r : Step Bool)
      → IsAcceptable e args opts name
      → LoopEnds names (failed || not true) r
      → LoopEnds (name ∷ names) failed r
  unfolding LoopEnds
  LoopEnds-accepted name names failed (go b w) x (sound, complete) = (
    λ h. let (f, all) = sound h in (ground arith, (x, all)),
    λ ok f all. complete ok (ground arith) all.1,
  )
  LoopEnds-accepted name names failed (stop s w) x l = l

  LoopEnds-refused :
      (name : String) (names : List String) (failed : Bool) (r : Step Bool)
      → (IsReliable e opts → IsAcceptable e args opts name → ⊥)
      → LoopEnds names (failed || not false) r
      → LoopEnds (name ∷ names) failed r
  unfolding LoopEnds
  LoopEnds-refused name names failed (go b w) n (sound, complete) =
      (λ h. let f = (sound h).0 in absurd (ground arith), λ ok f all. absurd (n ok all.0))
  LoopEnds-refused name names failed (stop s w) n l = l

  pub verify_loop-Ends :
      (names : List String) (failed : Bool) (w : World)
      → w.v.opts ≡ opts
      → LoopEnds names failed (verify_loop e args names failed w)
  unfolding LoopEnds verify_loop
  verify_loop-Ends [] failed w same = (λ h. (h, tt), λ _ h _. h)
  verify_loop-Ends (name ∷ names) failed w same =
      rest_Ends (verify e args name w) (verify-Ended e opts args name w same)
        (λ f w'. verify_loop-Ends names f w')
    where
      rest_Ends :
          (r : Step Bool)
          → Ended e opts args name w.files w.blocks r
          → ((f : Bool) (w' : World)
              → w'.v.opts ≡ opts
              → LoopEnds names f (verify_loop e args names f w'))
          → LoopEnds (name ∷ names) failed (elim r [
            | go ok w' ↦ verify_loop e args names (failed || not ok) w'
            | stop s w' ↦ stop s w'
          ])
      rest_Ends (go true w') (_, _, o, x) rest =
          LoopEnds-accepted name names failed _ x (rest (failed || not true) w' o)
      rest_Ends (go false w') (_, o, n) rest =
          LoopEnds-refused name names failed _ n (rest (failed || not false) w' o)
      rest_Ends (stop s w') l rest = l

-- The argument after which `args` has the next name.
abbrev with_input : Args → String → Args
with_input args name = record args { inputs = args.inputs ++ (name ∷ []) }

store_inputs_next :
    (name : String) (names : List String) (args : Args) (w : World)
    → leb inputmax (length args.inputs) ≡ false
    → store_inputs (name ∷ names) args w ≡ store_inputs names (with_input args name) w
unfolding store_inputs
store_inputs_next name names args w room =
    ap
      (λ b.
        (if b
            then say "too many input files\n" [] >> fail (exits 1) >> go args
            else store_inputs names (with_input args name))
          w)
      room

-- The inputs are stored as long as there is room.
pub store_inputs_room :
    (names : List String) (args : Args) (w : World)
    → length args.inputs + length names ≤ inputmax
    → store_inputs names args w ≡ go (record args { inputs = args.inputs ++ names }) w
unfolding store_inputs
store_inputs_room [] args w h =
    ap (λ l. go (record args { inputs = l }) w) (sym (append-nil args.inputs))
store_inputs_room (name ∷ names) args w h =
    store_inputs_next name names args w (ground arith)
    ∙ store_inputs_room names (with_input args name) w
        (omega (arith, length-append args.inputs (name ∷ [])))
    ∙ ap (λ l. go (record args { inputs = l }) w) (append_assoc args.inputs (name ∷ []) names)

-- More inputs than there is room for end the process with status 1.
pub store_inputs_many :
    (names : List String) (args : Args) (w : World)
    → length args.inputs ≤ inputmax
    → inputmax < length args.inputs + length names
    → (w' : World) × (store_inputs names args w ≡ stop (exits 1) w') × (w'.opens ≡ w.opens)
unfolding store_inputs
store_inputs_many [] args w h l = absurd (omega arith)
store_inputs_many (name ∷ names) args w h l =
    elim (Bool-cases (leb inputmax (length args.inputs))) [
      | inl full ↦ (
        _,
        ap
            (λ b.
              (if b
                  then say "too many input files\n" [] >> fail (exits 1) >> go args
                  else store_inputs names (with_input args name))
                w)
            full,
        refl,
      )
      | inr room ↦
          let longer = length-append args.inputs (name ∷ []) in
          let (w', e, q) =
            store_inputs_many names (with_input args name) w (ground (arith, longer))
              (omega (arith, longer)) in
          (w', store_inputs_next name names args w room ∙ e, q)
    ]
