-- ===== src/X64/Safety/Entry.antt =====
-- lfiv_verify_x64 of src/x64/verify.c, with and without the decision diagram, against the cut of code
-- into bundles.
use lfi_verifier.Prelude.{
  ℕ, zero, suc, ◌+◌, ◌<◌, ◌^◌, ◌≡◌, ◌↔◌, inl, inr, refl, sym, ap, ◌∙◌, subst, Bool, true, false,
  List, arith, ltb, ◌==◌, length, drop, add64, Bool-cases, if◌then◌else◌, false≢true,
}
use lfi_verifier.Options.{Options}
use lfi_verifier.X64.Inst.{Decoder, DecodeLaws}
use lfi_verifier.X64.State.{Verifier, unknown}
use lfi_verifier.X64.Verify.{
  returns, advance, bundles_loop, memcpy, bdd_loop, zero_buf, initial, verify_bundles,
  lfiv_verify_x64,
}
use lfi_verifier.X64.Layout.{Bundled}
use lfi_verifier.X64.Safety.Program.{Accepts, bundles_loop-accept, bundles_loop-pass}

module _ (lfi_x86_bdd : List ℕ → ℕ) (fuel : ℕ) (code : List ℕ) (count ninstr : ℕ) (buf : List ℕ)
    (v : Verifier) where
  abbrev pub filled : List ℕ
  filled = if ltb (length (drop count code)) 15 then memcpy buf (drop count code) else buf

  abbrev pub found : ℕ
  found = lfi_x86_bdd (if ltb (length (drop count code)) 15 then filled else drop count code)

  pub bdd_loop-stop :
      ltb count (length code) ≡ false
      → bdd_loop lfi_x86_bdd (suc fuel) code count ninstr buf v ≡ (true, ninstr, v)
  unfolding bdd_loop
  bdd_loop-stop e = rw (e, bdd_loop)

  pub bdd_loop-more :
      ltb count (length code) ≡ true
      → bdd_loop lfi_x86_bdd (suc fuel) code count ninstr buf v ≡ (
          if found == 0
          then (false, ninstr, unknown v)
          else bdd_loop lfi_x86_bdd fuel code (count + found) (ninstr + 1) filled (advance found v))
  unfolding bdd_loop
  bdd_loop-more e = rw (e, bdd_loop)

-- The verifiers that differ in the address alone.
abbrev SameButAddr : Verifier → Verifier → Type 0
SameButAddr v w = (a : ℕ) → ◌≡◌ {A = Verifier} (record v { addr = a }) (record w { addr = a })

abbrev Ends : Verifier → Bool × ℕ × Verifier → Type 0
Ends v r = r.0 ≡ true → SameButAddr r.2 v

-- Where the first loop runs to its end, it changed the address only.
bdd_loop-Ends :
    (lfi_x86_bdd : List ℕ → ℕ) (fuel : ℕ) (code : List ℕ) (count ninstr : ℕ) (buf : List ℕ)
    (v : Verifier)
    → Ends v (bdd_loop lfi_x86_bdd fuel code count ninstr buf v)
unfolding advance
bdd_loop-Ends bdd zero code count ninstr buf v = unfold bdd_loop in λ _ a. refl
bdd_loop-Ends bdd (suc f) code count ninstr buf v = elim (Bool-cases (ltb count (length code))) [
  | inr s ↦ subst (Ends v) (sym (bdd_loop-stop bdd f code count ninstr buf v s)) (λ _ a. refl)
  | inl t ↦
      let n = found bdd f code count ninstr buf v in
      subst (Ends v) (sym (bdd_loop-more bdd f code count ninstr buf v t))
        (elim (Bool-cases (n == 0)) [
          | inl z ↦ rw z (λ e. absurd (false≢true e))
          | inr z ↦ rw z (
              bdd_loop-Ends bdd f code (count + n) (ninstr + 1)
                (filled bdd f code count ninstr buf v) (advance n v))
        ])
]

module _ (fd_decode : Decoder) (lfi_x86_bdd : List ℕ → ℕ) (code : List ℕ) (addr : ℕ)
    (opts : Options) where
  abbrev pub bdd_run : Bool × ℕ × Verifier
  bdd_run = bdd_loop lfi_x86_bdd (length code) code 0 0 zero_buf (initial addr opts)

  abbrev pub main_run : Bool × Verifier × ℕ
  main_run = bundles_loop fd_decode (length code) code 0 0 (initial addr opts)

  -- With the filter off, or passed, the verdict is that of the second loop.
  pub lfiv_verify_x64-off :
      opts.no_bdd ≡ true
      → lfiv_verify_x64 fd_decode lfi_x86_bdd code addr opts
        ≡ verify_bundles fd_decode code 0 (initial addr opts)
  unfolding lfiv_verify_x64
  lfiv_verify_x64-off e = rw e

  pub lfiv_verify_x64-on :
      opts.no_bdd ≡ false
      → lfiv_verify_x64 fd_decode lfi_x86_bdd code addr opts ≡ (
          if bdd_run.0
          then verify_bundles fd_decode code bdd_run.1 (record (bdd_run.2) { addr = addr })
          else (returns false, bdd_run.2))
  unfolding lfiv_verify_x64
  lfiv_verify_x64-on e = rw e

  -- Acceptance by the part behind the filter is acceptance by the second loop.
  verify_bundles-accept :
      (n : ℕ)
      → (verify_bundles fd_decode code n (initial addr opts)).0 ≡ returns true
      → Accepts main_run
  unfolding verify_bundles
  verify_bundles-accept n h = ground arith

  verify_bundles-pass :
      opts.no_bdd ≡ true
      → Accepts main_run
      → (verify_bundles fd_decode code 0 (initial addr opts)).0 ≡ returns true
  unfolding verify_bundles
  verify_bundles-pass e acc = ground arith

  pub bdd_run_reset :
      bdd_run.0 ≡ true → ◌≡◌ {A = Verifier} (record (bdd_run.2) { addr = addr }) (initial addr opts)
  bdd_run_reset h =
      bdd_loop-Ends lfi_x86_bdd (length code) code 0 0 zero_buf (initial addr opts) h addr

  accept-Accepts :
      (lfiv_verify_x64 fd_decode lfi_x86_bdd code addr opts).0 ≡ returns true → Accepts main_run
  accept-Accepts h = elim (Bool-cases opts.no_bdd) [
    | inl e ↦ verify_bundles-accept 0 (ap (λ r. r.0) (sym (lfiv_verify_x64-off e)) ∙ h)
    | inr e ↦
        let h' = ap (λ r. r.0) (sym (lfiv_verify_x64-on e)) ∙ h in
        elim (Bool-cases bdd_run.0) [
          | inl b ↦ verify_bundles-accept bdd_run.1 (rw (b, bdd_run_reset b) at h')
          | inr b ↦ absurd (cc (rw b at h'))
        ]
  ]

  module _ (laws : DecodeLaws fd_decode) (fits : addr < 2 ^ 64) where
    at_start : addr ≡ add64 addr 0
    unfolding add64
    at_start = omega arith

    -- Code at an address below 2 ^ 64 that lfiv_verify_x64 accepts, with any decision diagram and any
    -- options and a lawful decoder, is cut into bundles of 32 bytes and these into macros and safe
    -- instructions that do not cross a bundle's end.
    pub lfiv_verify_x64_sound :
        (lfiv_verify_x64 fd_decode lfi_x86_bdd code addr opts).0 ≡ returns true
        → Bundled fd_decode opts addr code 0
    lfiv_verify_x64_sound h =
        (bundles_loop-accept fd_decode laws addr code (length code) 0 0 (initial addr opts)
          (omega arith) (refl, refl, λ _. at_start) (accept-Accepts h)).1

    -- With no_bdd set and a lawful decoder, lfiv_verify_x64 accepts code at an address below 2 ^ 64
    -- exactly if it is cut into bundles of 32 bytes and these into macros and safe instructions that
    -- do not cross a bundle's end.
    pub lfiv_verify_x64_exact :
        opts.no_bdd ≡ true
        → ((lfiv_verify_x64 fd_decode lfi_x86_bdd code addr opts).0 ≡ returns true)
          ↔ Bundled fd_decode opts addr code 0
    lfiv_verify_x64_exact e = (
      lfiv_verify_x64_sound,
      λ b.
          ap (λ r. r.0) (lfiv_verify_x64-off e)
          ∙ verify_bundles-pass e (
              bundles_loop-pass fd_decode laws addr code (length code) 0 0 (initial addr opts)
                (omega arith) (refl, refl, λ _. at_start) (refl, b)),
    )
