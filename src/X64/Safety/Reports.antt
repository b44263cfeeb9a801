-- ===== src/X64/Safety/Reports.antt =====
-- The error reports of src/x64/verify.c over a run of lfiv_verify_x64.
use lfi_verifier.Prelude.{
  ℕ, zero, suc, ◌+◌, ◌≡◌, ◌≢◌, ◌↔◌, refl, sym, ◌∙◌, Bool, true, false, not, ◌&&◌, ◌==◌, none, some,
  List, [], ltb, length, drop, arith, false≢true, any_entry_iff, if-either, Bool-cases,
  Option-cases, inl, inr, subst, ap,
}
use lfi_verifier.Options.{Options}
use lfi_verifier.X64.Inst.{Inst, Decoder}
use lfi_verifier.X64.State.{Verifier, verr, unknown}
use lfi_verifier.X64.Macro.{macroinst}
use lfi_verifier.X64.Verify.{
  chk_inst, advance, vchk_loop, vchkbundle, bundles_loop, bdd_loop, zero_buf, initial, Outcome,
  returns, assert_failed, verify_bundles, lfiv_verify_x64,
}
use lfi_verifier.X64.Safety.Logs.{verrmin_failed, Logged, verrmin-Logged, chk_single-Logged}
use lfi_verifier.X64.Safety.Unit.{chk_inst-none, chk_inst-some}
use lfi_verifier.X64.Safety.Bundle.{
  vchk_loop-zero, vchk_loop-stop, vchk_loop-unknown, vchk_loop-some,
}
use lfi_verifier.X64.Safety.Entry.{
  filled, found, bdd_loop-stop, bdd_loop-more, bdd_run, lfiv_verify_x64-off, lfiv_verify_x64-on,
}
use lfi_verifier.X64.Safety.Program.{after, early, bundles_loop-stop, bundles_loop-more}

module _ (opts : Options) (err : opts.err ≡ true) where
  unknown-Logged : (v : Verifier) → Logged opts err v → Logged opts err (unknown v)
  unfolding unknown
  unknown-Logged v h = verrmin-Logged opts err none "unknown instruction" v h

  advance-Logged : (n : ℕ) (v : Verifier) → Logged opts err v → Logged opts err (advance n v)
  unfolding advance
  advance-Logged n v h = record { same = h.same; aborts = h.aborts; logs = h.logs }

  -- The verifier that goes on to the next instruction, or aborts after an instruction that spans.
  abort-Logged :
      (i : Inst) (v : Verifier)
      → Logged opts err v
      → Logged opts err (record (verr i "instruction spans bundle boundary" v) { aborted = true })
  unfolding verr
  abort-Logged i v h =
      let k = verrmin-Logged opts err (some i) "instruction spans bundle boundary" v h in
      record {
        same = k.same;
        aborts = λ _. verrmin_failed (some i) "instruction spans bundle boundary" v;
        logs = k.logs;
      }

  module _ (fd_decode : Decoder) where
    chk_inst-Logged :
        (ret : ℕ) (i : Inst) (rest : List ℕ) (v : Verifier)
        → Logged opts err v
        → Logged opts err (chk_inst fd_decode ret i rest v).1
    chk_inst-Logged ret i rest v h = elim (Option-cases (macroinst fd_decode v i rest)) [
      | inl e ↦
          subst (λ c. Logged opts err c.1) (sym (chk_inst-none fd_decode ret i rest v e))
            (chk_single-Logged opts err i v h)
      | inr (m, e) ↦
          subst (λ c. Logged opts err c.1) (sym (chk_inst-some fd_decode ret i rest v m e)) h
    ]

    vchk_loop-Logged :
        (fuel : ℕ) (buf : List ℕ) (count ninstr : ℕ) (v : Verifier)
        → Logged opts err v
        → Logged opts err (vchk_loop fd_decode fuel buf count ninstr v).0
    vchk_loop-Logged zero buf count ninstr v h =
        subst (λ r. Logged opts err r.0) (sym (vchk_loop-zero fd_decode buf count ninstr v)) h
    vchk_loop-Logged (suc f) buf count ninstr v h =
        elim (Bool-cases (ltb count v.bundlesize && ltb count (length buf))) [
          | inr s ↦
              subst (λ r. Logged opts err r.0)
                (sym (vchk_loop-stop fd_decode f buf count ninstr v s)) h
          | inl t ↦ elim (Option-cases (fd_decode (drop count buf))) [
            | inl d ↦
                subst (λ r. Logged opts err r.0)
                  (sym (vchk_loop-unknown fd_decode f buf count ninstr v t d)) (unknown-Logged v h)
            | inr (p, d) ↦
                let c = chk_inst fd_decode p.0 p.1 (drop count buf) v in
                let h' = chk_inst-Logged p.0 p.1 (drop count buf) v h in
                subst (λ r. Logged opts err r.0)
                  (sym (vchk_loop-some fd_decode f buf count ninstr v p t d))
                  (if-either {A = Verifier × ℕ} (λ r. Logged opts err r.0)
                    (ltb c.1.bundlesize (count + c.0.size)) (λ _. abort-Logged p.1 c.1 h')
                    (λ _.
                      vchk_loop-Logged f buf (count + c.0.size) (ninstr + c.0.ninstr)
                        (advance c.0.size c.1) (advance-Logged c.0.size c.1 h')))
          ]
        ]

    vchkbundle-Logged :
        (buf : List ℕ) (v : Verifier)
        → Logged opts err v
        → Logged opts err (vchkbundle fd_decode buf v).0
    unfolding vchkbundle
    vchkbundle-Logged buf v h = vchk_loop-Logged 32 buf 0 0 v h

  -- A loop of lfiv_verify_x64 that ended, or returned early because of a failure.
  abbrev Settled : Bool → Verifier → Type 0
  Settled done v = Logged opts err v × (done ≡ false → v.failed ≡ true)

  module _ (fd_decode : Decoder) where
    bundles_loop-Settled :
        (fuel : ℕ) (code : List ℕ) (count ninstr : ℕ) (v : Verifier)
        → Logged opts err v
        → let r = bundles_loop fd_decode fuel code count ninstr v in Settled r.0 r.1
    bundles_loop-Settled zero code count ninstr v h =
        unfold bundles_loop in (h, λ e. absurd (false≢true (sym e)))
    bundles_loop-Settled (suc f) code count ninstr v h =
        elim (Bool-cases (ltb count (length code))) [
          | inr s ↦
              subst (λ r. Settled r.0 r.1)
                (sym (bundles_loop-stop fd_decode f code count ninstr v s))
                (h, λ e. absurd (false≢true (sym e)))
          | inl t ↦
              let a = after fd_decode f code count ninstr v in
              let h' = vchkbundle-Logged fd_decode (drop count code) v h in
              subst (λ r. Settled r.0 r.1)
                (sym (bundles_loop-more fd_decode f code count ninstr v t))
                (if-either {A = Bool × Verifier × ℕ} (λ r. Settled r.0 r.1) (early fd_decode a.0)
                  (λ e. (h', λ _. ground (arith, h'.aborts)))
                  (λ _. bundles_loop-Settled f code (count + a.0.bundlesize) (ninstr + a.1) a.0 h'))
        ]

  module _ (lfi_x86_bdd : List ℕ → ℕ) where
    unknown_failed : (v : Verifier) → (unknown v).failed ≡ true
    unfolding unknown
    unknown_failed v = verrmin_failed none "unknown instruction" v

    bdd_loop-Settled :
        (fuel : ℕ) (code : List ℕ) (count ninstr : ℕ) (buf : List ℕ) (v : Verifier)
        → Logged opts err v
        → let r = bdd_loop lfi_x86_bdd fuel code count ninstr buf v in Settled r.0 r.2
    bdd_loop-Settled zero code count ninstr buf v h =
        unfold bdd_loop in (h, λ e. absurd (false≢true (sym e)))
    bdd_loop-Settled (suc f) code count ninstr buf v h =
        elim (Bool-cases (ltb count (length code))) [
          | inr s ↦
              subst (λ r. Settled r.0 r.2)
                (sym (bdd_loop-stop lfi_x86_bdd f code count ninstr buf v s))
                (h, λ e. absurd (false≢true (sym e)))
          | inl t ↦
              let n = found lfi_x86_bdd f code count ninstr buf v in
              subst (λ r. Settled r.0 r.2)
                (sym (bdd_loop-more lfi_x86_bdd f code count ninstr buf v t))
                (if-either {A = Bool × ℕ × Verifier} (λ r. Settled r.0 r.2) (n == 0)
                  (λ _. (unknown-Logged v h, λ _. unknown_failed v))
                  (λ _.
                    bdd_loop-Settled f code (count + n) (ninstr + 1)
                      (filled lfi_x86_bdd f code count ninstr buf v) (advance n v)
                      (advance-Logged n v h)))
        ]

  -- The outcome is a refusal exactly if there is a report.
  abbrev Explained : Outcome × Verifier → Type 0
  Explained r = (r.0 ≡ returns false) ↔ (r.1.reports ≢ [])

  refused-Explained :
      (v : Verifier) → Logged opts err v → v.failed ≡ true → Explained (returns false, v)
  refused-Explained v h f = (λ _. (any_entry_iff v.reports).0 (sym h.logs ∙ f), λ _. refl)

  returned-Explained : (v : Verifier) → Logged opts err v → Explained (returns (not v.failed), v)
  returned-Explained v h = (
    λ e.
        (any_entry_iff v.reports).0
          (sym h.logs ∙ elim (Bool-cases v.failed) [ inl f ↦ f | inr f ↦ absurd (cc (rw f at e)) ]),
    λ n. ap (λ b. returns (not b)) (h.logs ∙ (any_entry_iff v.reports).1 n),
  )

  assert-Explained :
      (v : Verifier) → Logged opts err v → v.failed ≡ false → Explained (assert_failed, v)
  assert-Explained v h f = (
    λ e. absurd (cc e),
    λ n. absurd (false≢true (sym f ∙ h.logs ∙ (any_entry_iff v.reports).1 n)),
  )

  verify_bundles-Explained :
      (fd_decode : Decoder) (code : List ℕ) (n : ℕ) (v : Verifier)
      → Logged opts err v
      → Explained (verify_bundles fd_decode code n v)
  unfolding verify_bundles
  verify_bundles-Explained fd_decode code n v h =
      let r = bundles_loop fd_decode (length code) code 0 0 v in
      let (h', e) = bundles_loop-Settled fd_decode (length code) code 0 0 v h in
      if-either {A = Outcome × Verifier} Explained (not r.0)
        (λ d. refused-Explained r.1 h' (e (ground arith)))
        (λ _.
          if-either {A = Outcome × Verifier} Explained
            (not v.opts.no_bdd && (not r.1.failed && not (n == r.2)))
            (λ a. assert-Explained r.1 h' (ground arith)) (λ _. returned-Explained r.1 h'))

  initial-Logged : (addr : ℕ) → Logged opts err (initial addr opts)
  initial-Logged addr = record { same = refl; aborts = λ e. e; logs = refl }

  -- With `err` set, lfiv_verify_x64 returns false exactly if it called `err`, whatever the decoder, the
  -- decision diagram, the code and its address: no code is refused without a report, and none is
  -- reported and then accepted or asserted on.
  pub lfiv_verify_x64_reports :
      (fd_decode : Decoder) (lfi_x86_bdd : List ℕ → ℕ) (code : List ℕ) (addr : ℕ)
      → let r = lfiv_verify_x64 fd_decode lfi_x86_bdd code addr opts in
        (r.0 ≡ returns false) ↔ (r.1.reports ≢ [])
  lfiv_verify_x64_reports fd_decode lfi_x86_bdd code addr = elim (Bool-cases opts.no_bdd) [
    | inl e ↦
        subst Explained (sym (lfiv_verify_x64-off fd_decode lfi_x86_bdd code addr opts e))
          (verify_bundles-Explained fd_decode code 0 (initial addr opts) (initial-Logged addr))
    | inr e ↦
        let b = bdd_run fd_decode lfi_x86_bdd code addr opts in
        let (h, f) =
          bdd_loop-Settled lfi_x86_bdd (length code) code 0 0 zero_buf (initial addr opts)
            (initial-Logged addr) in
        subst Explained (sym (lfiv_verify_x64-on fd_decode lfi_x86_bdd code addr opts e)) (
          if-either {A = Outcome × Verifier} Explained b.0
            (λ _.
              verify_bundles-Explained fd_decode code b.1 (record (b.2) { addr = addr })
                (record { same = h.same; aborts = h.aborts; logs = h.logs }))
            (λ d. refused-Explained b.2 h (f d)))
  ]
