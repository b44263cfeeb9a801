-- ===== src/Arm64/Safety/Reports.antt =====
-- The error reports of src/arm64/verify.c over a run of lfiv_verify_arm64.
use lfi_verifier.Prelude.{
  ℕ, ◌%◌, ◌≡◌, ◌≢◌, ◌↔◌, ◌⊎◌, inl, inr, refl, sym, ap, subst, ◌∙◌, Bool, true, false, not, ◌&&◌,
  ◌==◌, none, some, some-injective, List, [], ◌∷◌, if◌then◌else◌, if-either, any_entry_iff, Holds,
  Holds-some, Holds-bind, bind-eq-some, Bool-cases, add64, length, arith,
}
use lfi_verifier.Options.{Options}
use lfi_verifier.Arm64.Inst.{Disarm}
use lfi_verifier.Arm64.State.{Verifier, verrmin}
use lfi_verifier.Arm64.Verify.{insns_loop, words, initial, finish, lfiv_verify_arm64}
use lfi_verifier.Arm64.Laws.{DisarmLaws}
use lfi_verifier.Arm64.Safety.Logs.{Logged, verrmin-Logged, vchk-IsLogged}
use lfi_verifier.Arm64.Safety.Entry.{unaligned, aligned, lfiv_verify_arm64_total}

early_absurd : (f e : Bool) → f && not e ≡ true → e ≡ true → ⊥
early_absurd f e h k = ground arith

not-false : (b : Bool) → not b ≡ false → b ≡ true
not-false b h = ground arith

module _ (opts : Options) (err : opts.err ≡ true) (d : Disarm) where
  -- With `err` set the loop goes on to the end.
  abbrev IsWhole : Bool × Verifier → Type 0
  IsWhole r = (r.0 ≡ true) × Logged opts err r.1

  insns_loop-IsWhole :
      (insns : List ℕ) (v : Verifier) → Logged opts err v → Holds IsWhole (insns_loop d insns v)
  unfolding insns_loop
  insns_loop-IsWhole [] v h = Holds-some IsWhole _ (refl, h)
  insns_loop-IsWhole (insn ∷ insns) v h = Holds-bind IsWhole _ _ (λ v₁ e₁.
      let h₁ = (vchk-IsLogged opts err d insn v h).holds v₁ e₁ in
      let v₂ : Verifier = record v₁ { addr = add64 v₁.addr 4 } in
      let h₂ : Logged opts err v₂ = record { same = h₁.same; logs = h₁.logs } in
      if-either (λ o. Holds IsWhole o) (v₂.failed && not v₂.opts.err)
        (λ e.
          absurd (early_absurd v₁.failed v₁.opts.err e (ap (λ (o : Options). o.err) h₁.same ∙ err)))
        (λ _. insns_loop-IsWhole insns v₂ h₂))

  -- The outcome is a refusal exactly if there is a report.
  abbrev Explained : Bool × Verifier → Type 0
  Explained r = (r.0 ≡ false) ↔ (r.1.reports ≢ [])

  finish-Explained : (v : Verifier) → Logged opts err v → Explained (finish (true, v))
  unfolding finish
  finish-Explained v h =
      let w = if v.x30_guarded then v else verrmin none "x30 is unguarded at end of code" v in
      let h' : Logged opts err w =
        if-either (Logged opts err) v.x30_guarded (λ _. h)
          (λ _. verrmin-Logged opts err none _ v h) in
      (
        λ e. (any_entry_iff w.reports).0 (sym h'.logs ∙ not-false w.failed e),
        λ n. ap not (h'.logs ∙ (any_entry_iff w.reports).1 n),
      )

  -- With `err` set and a lawful decoder, lfiv_verify_arm64 returns on every code, and it returns false
  -- exactly if the code is no whole number of instructions, which it does not report, or it called
  -- `err`.
  pub lfiv_verify_arm64_reports :
      (code : List ℕ) (addr : ℕ)
      → DisarmLaws d
      → (r : Bool × Verifier) × (lfiv_verify_arm64 d code addr opts ≡ some r)
        × ((r.0 ≡ false) ↔ ((length code % 4 ≢ 0) ⊎ (r.1.reports ≢ [])))
  lfiv_verify_arm64_reports code addr laws = elim (Bool-cases (length code % 4 == 0)) [
    | inr n ↦
        let m : length code % 4 ≢ 0 = ground arith in
        ((false, initial addr opts), unaligned d code addr opts m, (λ _. inl m, λ _. refl))
    | inl z ↦
        let m : length code % 4 ≡ 0 = ground arith in
        let (r, e) = lfiv_verify_arm64_total d code addr opts laws in
        let (end, run, fin) = bind-eq-some _ _ (sym (aligned d code addr opts m) ∙ e) in
        let h =
          (insns_loop-IsWhole (words code) (initial addr opts)
              (record { same = refl; logs = refl })).holds
            end run in
        let x =
          subst Explained (some-injective _ _ fin)
            (subst (λ b. Explained (finish (b, end.1))) (sym h.0) (finish-Explained end.1 h.1)) in
        (r, e, (λ f. inr (x.0 f), λ t. elim t [ inl n ↦ absurd (n m) | inr n ↦ x.1 n ]))
  ]
