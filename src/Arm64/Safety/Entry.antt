-- ===== src/Arm64/Safety/Entry.antt =====
-- lfiv_verify_arm64 of src/arm64/verify.c against the runs of safe instructions.
use lfi_verifier.Prelude.{
  ℕ, ◌≡◌, ◌≢◌, ◌↔◌, inl, inr, refl, sym, ap, ◌∙◌, false≢true, Bool, true, false, some, List, arith,
  ◌%◌, ◌==◌, ◌!=◌, length, Bool-cases, some-injective, bind-eq-some, ◌>>=◌,
}
use lfi_verifier.Options.{Options}
use lfi_verifier.Arm64.Inst.{Disarm}
use lfi_verifier.Arm64.State.{Verifier, verrmin}
use lfi_verifier.Arm64.Verify.{insns_loop, words, initial, finish, lfiv_verify_arm64}
use lfi_verifier.Arm64.Policy.{SafeRun}
use lfi_verifier.Arm64.Laws.{DisarmLaws}
use lfi_verifier.Arm64.Safety.Total.{Returns, Returns-bind}
use lfi_verifier.Arm64.Safety.Program.{
  Ended, insns_loop-accept, insns_loop-pass, insns_loop-Returns,
}

finish-accept : (r : Bool × Verifier) → (finish r).0 ≡ true → Ended r
unfolding finish verrmin
finish-accept (done, v) h = ground arith

finish-pass : (r : Bool × Verifier) → Ended r → (finish r).0 ≡ true
unfolding finish
finish-pass (done, v) h = ground arith

module _ (d : Disarm) (code : List ℕ) (addr : ℕ) (opts : Options) where
  pub unaligned :
      length code % 4 ≢ 0 → lfiv_verify_arm64 d code addr opts ≡ some (false, initial addr opts)
  unfolding lfiv_verify_arm64
  unaligned h = elim (Bool-cases (length code % 4 != 0)) [
    | inl e ↦ rw e
    | inr e ↦ absurd (h (ground arith))
  ]

  pub aligned :
      length code % 4 ≡ 0
      → lfiv_verify_arm64 d code addr opts
        ≡ (insns_loop d (words code) (initial addr opts) >>= λ end. some (finish end))
  unfolding lfiv_verify_arm64
  aligned h = rw h

  -- Code that lfiv_verify_arm64 accepts, with any decoder and options, has a whole number of
  -- instructions, and runs through safe instructions with x30 guarded before and behind it.
  pub lfiv_verify_arm64_sound :
      (v : Verifier)
      → lfiv_verify_arm64 d code addr opts ≡ some (true, v)
      → (length code % 4 ≡ 0) × SafeRun d opts true (words code)
  lfiv_verify_arm64_sound v h = elim (Bool-cases (length code % 4 == 0)) [
    | inr n ↦
        absurd
          (false≢true (ap (λ r. r.0) (some-injective _ _ (sym (unaligned (ground arith)) ∙ h))))
    | inl z ↦
        let e : length code % 4 ≡ 0 = ground arith in
        let (r, e₁, e₂) =
          bind-eq-some (insns_loop d (words code) (initial addr opts)) _ (sym (aligned e) ∙ h) in
        let ended = finish-accept r (ap (λ t. t.0) (some-injective _ _ e₂)) in
        (e, (insns_loop-accept d (words code) (initial addr opts) r e₁ ended).1)
  ]

  module _ (laws : DisarmLaws d) where
    -- With a lawful decoder lfiv_verify_arm64 returns on every code: no assert fails.
    pub lfiv_verify_arm64_total : Returns (lfiv_verify_arm64 d code addr opts)
    lfiv_verify_arm64_total = elim (Bool-cases (length code % 4 == 0)) [
      | inr n ↦ (_, unaligned (ground arith))
      | inl z ↦
          let (r, e) =
            Returns-bind (insns_loop-Returns d laws (words code) (initial addr opts))
              (λ end. (finish end, refl)) in
          (r, aligned (ground arith) ∙ e)
    ]

    -- With a lawful decoder lfiv_verify_arm64 accepts exactly the code that has a whole number of
    -- instructions and runs through safe instructions with x30 guarded before and behind it.
    pub lfiv_verify_arm64_exact :
        ((v : Verifier) × (lfiv_verify_arm64 d code addr opts ≡ some (true, v)))
        ↔ ((length code % 4 ≡ 0) × SafeRun d opts true (words code))
    lfiv_verify_arm64_exact = (
      λ h. lfiv_verify_arm64_sound h.0 h.1,
      λ s.
          let (w, e, ended) = insns_loop-pass d laws (words code) (initial addr opts) refl s.1 in
          (
            (finish (true, w)).1,
            aligned s.0
                ∙ ap (λ x. x >>= λ end. some (finish end)) e
                ∙ ap (λ b. some (b, (finish (true, w)).1)) (finish-pass (true, w) ended),
          ),
    )
