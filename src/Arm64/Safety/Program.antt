-- ===== src/Arm64/Safety/Program.antt =====
-- The loop of lfiv_verify_arm64 of src/arm64/verify.c against the runs of safe instructions.
use lfi_verifier.Prelude.{
  ℕ, ◌≡◌, inl, inr, refl, sym, subst, ap, ◌∙◌, false≢true, Bool, true, false, not, ◌&&◌, Option,
  some, List, [], ◌∷◌, add64, Bool-cases, some-injective, bind-eq-some, ◌>>=◌, if◌then◌else◌,
}
use lfi_verifier.Options.{Options}
use lfi_verifier.Arm64.Inst.{Disarm}
use lfi_verifier.Arm64.State.{Verifier}
use lfi_verifier.Arm64.Passes.{Passes}
use lfi_verifier.Arm64.Verify.{vchk, insns_loop}
use lfi_verifier.Arm64.Policy.{SafeInsn, SafeRun, end, insn, guard_step}
use lfi_verifier.Arm64.Laws.{DisarmLaws}
use lfi_verifier.Arm64.Safety.Insn.{vchk-Checks}
use lfi_verifier.Arm64.Safety.Total.{Returns, Returns-bind, vchk-Returns}

abbrev step : Verifier → Verifier
step v = record v { addr = add64 v.addr 4 }

-- The loop ended, found no failure, and left x30 guarded.
abbrev pub Ended : Bool × Verifier → Type 0
Ended r = (r.0 ≡ true) × (r.1.failed ≡ false) × (r.1.x30_guarded ≡ true)

module _ (d : Disarm) where
  abbrev rest : List ℕ → Verifier → Option (Bool × Verifier)
  rest code v = if v.failed && not v.opts.err then some (false, v) else insns_loop d code v

  insns_loop-next :
      (i : ℕ) (code : List ℕ) (v : Verifier)
      → insns_loop d (i ∷ code) v ≡ (vchk d i v >>= λ w. rest code (step w))
  unfolding insns_loop
  insns_loop-next i code v = refl

  insns_loop-some :
      (i : ℕ) (code : List ℕ) (v w : Verifier)
      → vchk d i v ≡ some w
      → w.failed ≡ false
      → insns_loop d (i ∷ code) v ≡ insns_loop d code (step w)
  insns_loop-some i code v w e f =
      insns_loop-next i code v
      ∙ ap (λ x. x >>= λ u. rest code (step u)) e
      ∙ ap (λ b. if b && not w.opts.err then some (false, step w) else insns_loop d code (step w)) f

  insns_loop-nil : (v : Verifier) → insns_loop d [] v ≡ some (true, v)
  unfolding insns_loop
  insns_loop-nil v = refl

  run_after :
      {P : Type 0} {g : Bool} {v w : Verifier} (code : List ℕ)
      → Passes P g v w
      → SafeRun d w.opts w.x30_guarded code
      → SafeRun d v.opts g code
  run_after {g = g} {w = w} code p s =
      subst (λ o. SafeRun d o g code) p.same_opts (subst (λ x. SafeRun d w.opts x code) p.guard s)

  run_before :
      {P : Type 0} {g : Bool} {v w : Verifier} (code : List ℕ)
      → Passes P g v w
      → SafeRun d v.opts g code
      → SafeRun d w.opts w.x30_guarded code
  run_before {g = g} {w = w} code p s =
      subst (λ x. SafeRun d w.opts x code) (sym p.guard)
        (subst (λ o. SafeRun d o g code) (sym p.same_opts) s)

  pub insns_loop-accept :
      (code : List ℕ) (v : Verifier) (r : Bool × Verifier)
      → insns_loop d code v ≡ some r
      → Ended r
      → (v.failed ≡ false) × SafeRun d v.opts v.x30_guarded code
  insns_loop-accept [] v r e (a, b, c) =
      let q = some-injective _ _ (sym (insns_loop-nil v) ∙ e) in
      (ap (λ t. t.1.failed) q ∙ b, end (ap (λ t. t.1.x30_guarded) q ∙ c))
  insns_loop-accept (i ∷ code) v r e h =
      let (w, e₁, e₂) = bind-eq-some (vchk d i v) _ (sym (insns_loop-next i code v) ∙ e) in
      let p = vchk-Checks d i v w e₁ in
      elim (Bool-cases (w.failed && not w.opts.err)) [
        | inl s ↦ absurd (false≢true (ap (λ t. t.0) (some-injective _ _ (rw s at e₂)) ∙ h.0))
        | inr s ↦
            let (f, s') = insns_loop-accept code (step w) r (rw s at e₂) h in
            ((p.accept f).0, insn (p.accept f).1 (run_after code p s'))
      ]

  SafeRun-next :
      {o : Options} {g : Bool} {i : ℕ} {code : List ℕ}
      → SafeRun d o g (i ∷ code)
      → SafeInsn d o g i × SafeRun d o (guard_step d i g) code
  SafeRun-next (insn s r) = (s, r)

  SafeRun-end : {o : Options} {g : Bool} → SafeRun d o g [] → g ≡ true
  SafeRun-end (end h) = h

  pub insns_loop-pass :
      DisarmLaws d
      → (code : List ℕ) (v : Verifier) → v.failed ≡ false
      → SafeRun d v.opts v.x30_guarded code
      → (w : Verifier) × (insns_loop d code v ≡ some (true, w)) × Ended (true, w)
  insns_loop-pass laws [] v f s = (v, insns_loop-nil v, (refl, f, SafeRun-end s))
  insns_loop-pass laws (i ∷ code) v f s =
      let (w, e) = vchk-Returns d laws i v in
      let p = vchk-Checks d i v w e in
      let (here, later) = SafeRun-next s in
      let f' = p.pass f here in
      let (u, e', h) = insns_loop-pass laws code (step w) f' (run_before code p later) in
      (u, insns_loop-some i code v w e f' ∙ e', h)

  -- The loop returns, whether or not it ends.
  pub insns_loop-Returns :
      DisarmLaws d → (code : List ℕ) (v : Verifier) → Returns (insns_loop d code v)
  insns_loop-Returns laws [] v = (_, insns_loop-nil v)
  insns_loop-Returns laws (i ∷ code) v = subst Returns (sym (insns_loop-next i code v)) (
      Returns-bind (vchk-Returns d laws i v) (λ w. elim (Bool-cases (w.failed && not w.opts.err)) [
        | inl s ↦ rw s (_, refl)
        | inr s ↦ rw s (insns_loop-Returns laws code (step w))
      ]))
