-- ===== src/X64/Safety/Counts.antt =====
-- The instruction count of the second loop of lfiv_verify_x64 of src/x64/verify.c.
use lfi_verifier.Prelude.{
  ℕ, zero, suc, ◌+◌, ◌≤◌, ◌<◌, ◌≡◌, ◌⊎◌, inl, inr, refl, sym, ap, ◌∙◌, subst, true, false, ◌&&◌,
  some, List, arith, ltb, length, drop, length-drop, Bool-cases, Option-cases, leb, false≢true,
}
use lfi_verifier.X64.Inst.{Inst, Decoder, DecodeLaws}
use lfi_verifier.X64.State.{Verifier, verr, unknown}
use lfi_verifier.X64.Macro.{macroinst}
use lfi_verifier.X64.Verify.{chk_inst, advance, vchk_loop, vchkbundle, bundles_loop}
use lfi_verifier.X64.Safety.Single.{chk_single-Passes}
use lfi_verifier.X64.Safety.Unit.{chk_inst-none, chk_inst-some, chk_inst_pos}
use lfi_verifier.X64.Safety.Bundle.{
  vchk_loop-zero, vchk_loop-stop, vchk_loop-unknown, vchk_loop-some,
}
use lfi_verifier.X64.Safety.Program.{
  after, early, bundles_loop-stop, bundles_loop-more, bundles_loop_failed,
}
use lfi_verifier.X64.Safety.Macros.{Run, finish, next, macroinst-Run}
use lfi_verifier.X64.Safety.Cover.{Run-shift, Run-append}

module _ (fd_decode : Decoder) (laws : DecodeLaws fd_decode) where
  chk_inst-Run :
      (p : ℕ × Inst) (rest : List ℕ) (v : Verifier)
      → fd_decode rest ≡ some p
      → let m = (chk_inst fd_decode p.0 p.1 rest v).0 in Run fd_decode rest 0 m.size m.ninstr
  chk_inst-Run p rest v d = elim (Option-cases (macroinst fd_decode v p.1 rest)) [
    | inl e ↦
        subst (λ c. Run fd_decode rest 0 c.0.size c.0.ninstr)
          (sym (chk_inst-none fd_decode p.0 p.1 rest v e))
          (next p p.0 0 d (omega (arith, laws.returns_size rest p.0 p.1 d)) refl (finish refl refl))
    | inr (m, e) ↦
        subst (λ c. Run fd_decode rest 0 c.0.size c.0.ninstr)
          (sym (chk_inst-some fd_decode p.0 p.1 rest v m e))
          (macroinst-Run fd_decode v p.1 rest p.0 d m e)
  ]

  chk_inst_bundlesize :
      (ret : ℕ) (i : Inst) (rest : List ℕ) (v : Verifier)
      → (chk_inst fd_decode ret i rest v).1.bundlesize ≡ v.bundlesize
  chk_inst_bundlesize ret i rest v = elim (Option-cases (macroinst fd_decode v i rest)) [
    | inl e ↦
        ap (λ c. c.1.bundlesize) (chk_inst-none fd_decode ret i rest v e)
        ∙ (chk_single-Passes i v).same_bundlesize
    | inr (m, e) ↦ ap (λ c. c.1.bundlesize) (chk_inst-some fd_decode ret i rest v m e)
  ]

  -- A bundle that is walked from the offset `count` to its end, or to the end of the code.
  abbrev Walked : List ℕ → ℕ → ℕ → Verifier × ℕ → Type 0
  Walked buf count ninstr r =
      (end : ℕ) × (n : ℕ) × Run fd_decode buf count end n
      × (r.1 ≡ ninstr + n)
      × (r.0.bundlesize ≡ 32)
      × (end ≤ 32)
      × ((32 ≤ end) ⊎ (length buf ≤ end))

  failed_verr :
      (i : Inst) (v : Verifier) → (verr i "instruction spans bundle boundary" v).failed ≡ true
  unfolding verr
  failed_verr i v = ground arith

  failed_unknown : (v : Verifier) → (unknown v).failed ≡ true
  unfolding unknown
  failed_unknown v = ground arith

  vchk_loop-Walked :
      (fuel : ℕ) (buf : List ℕ) (count ninstr : ℕ) (v : Verifier)
      → 32 ≤ fuel + count
      → count ≤ 32
      → v.bundlesize ≡ 32
      → (vchk_loop fd_decode fuel buf count ninstr v).0.failed ≡ false
      → Walked buf count ninstr (vchk_loop fd_decode fuel buf count ninstr v)
  unfolding advance
  vchk_loop-Walked zero buf count ninstr v f l b h =
      subst (Walked buf count ninstr) (sym (vchk_loop-zero fd_decode buf count ninstr v))
        (count, 0, finish refl refl, omega arith, b, l, inl (omega arith))
  vchk_loop-Walked (suc f) buf count ninstr v u l b h =
      elim (Bool-cases (ltb count v.bundlesize && ltb count (length buf))) [
        | inr s ↦
            subst (Walked buf count ninstr) (sym (vchk_loop-stop fd_decode f buf count ninstr v s))
              (count, 0, finish refl refl, omega arith, b, l, ground arith)
        | inl t ↦ elim (Option-cases (fd_decode (drop count buf))) [
          | inl d ↦ absurd (
              false≢true (
                sym (
                  ap (λ r. r.0.failed) (sym (vchk_loop-unknown fd_decode f buf count ninstr v t d))
                  ∙ h)
                ∙ failed_unknown v))
          | inr (p, d) ↦
              let c = chk_inst fd_decode p.0 p.1 (drop count buf) v in
              let e = vchk_loop-some fd_decode f buf count ninstr v p t d in
              elim (Bool-cases (ltb c.1.bundlesize (count + c.0.size))) [
                | inl long ↦ absurd (false≢true (sym (rw (e, long) at h) ∙ failed_verr p.1 c.1))
                | inr fits ↦
                    let same = chk_inst_bundlesize p.0 p.1 (drop count buf) v ∙ b in
                    let some_size : 0 < c.0.size =
                      chk_inst_pos fd_decode p.0 p.1 (drop count buf) v (
                        omega (
                          arith,
                          laws.size_pos (drop count buf) p.0 p.1 d,
                          laws.returns_size (drop count buf) p.0 p.1 d,
                        )) in
                    let room : count + c.0.size ≤ 32 = ground arith in
                    let (end, n, run, m, bs, most, all) =
                      vchk_loop-Walked f buf (count + c.0.size) (ninstr + c.0.ninstr)
                        (advance c.0.size c.1) (omega arith) room same (rw (e, fits) at h) in
                    let unit : Run fd_decode buf count (count + c.0.size) c.0.ninstr =
                      subst (λ x. Run fd_decode buf x (count + c.0.size) c.0.ninstr) (omega arith)
                        (Run-shift fd_decode laws v.opts count
                          (chk_inst-Run p (drop count buf) v d)) in
                    rw (e, fits)
                      (
                        end,
                        c.0.ninstr + n,
                        Run-append fd_decode laws v.opts run unit,
                        omega (arith, m),
                        bs,
                        most,
                        all,
                      )
              ]
        ]
      ]

  vchkbundle-Walked :
      (buf : List ℕ) (v : Verifier)
      → v.bundlesize ≡ 32
      → (vchkbundle fd_decode buf v).0.failed ≡ false
      → Walked buf 0 0 (vchkbundle fd_decode buf v)
  unfolding vchkbundle
  vchkbundle-Walked buf v b h = vchk_loop-Walked 32 buf 0 0 v (omega arith) (omega arith) b h

  -- The code is walked from the offset `count` to its end, by as many instructions as were counted.
  abbrev pub IsWalk : List ℕ → ℕ → ℕ → ℕ → Type 0
  IsWalk code count ninstr total =
      (end : ℕ) × (n : ℕ) × Run fd_decode code count end n
      × (total ≡ ninstr + n)
      × (length code ≤ end)

  bundles_loop_end :
      (fuel : ℕ) (code : List ℕ) (count ninstr : ℕ) (v : Verifier)
      → length code ≤ count
      → (bundles_loop fd_decode fuel code count ninstr v).2 ≡ ninstr
  bundles_loop_end zero code count ninstr v l = unfold bundles_loop in refl
  bundles_loop_end (suc f) code count ninstr v l =
      let past : ltb count (length code) ≡ false = ground arith in
      ap (λ r. r.2) (bundles_loop-stop fd_decode f code count ninstr v past)

  filled_bundle :
      (code : List ℕ) (count end : ℕ) {size : ℕ}
      → (32 ≤ end) ⊎ (length (drop count code) ≤ end)
      → end ≤ 32
      → size ≡ 32
      → leb (length code) (count + end) ≡ false
      → end ≡ size
  filled_bundle code count end (inl l) most bs more = omega arith
  filled_bundle code count end (inr l) most bs more =
      let short = length-drop count code in absurd (ground arith)

  pub bundles_loop-IsWalk :
      (fuel : ℕ) (code : List ℕ) (count ninstr : ℕ) (v : Verifier)
      → length code ≤ fuel + count
      → v.bundlesize ≡ 32
      → let r = bundles_loop fd_decode fuel code count ninstr v in
        r.0 ≡ true → r.1.failed ≡ false → IsWalk code count ninstr r.2
  bundles_loop-IsWalk zero code count ninstr v u b done ok =
      unfold bundles_loop in (count, 0, finish refl refl, omega arith, omega arith)
  bundles_loop-IsWalk (suc f) code count ninstr v u b done ok =
      elim (Bool-cases (ltb count (length code))) [
        | inr s ↦
            subst (λ r. IsWalk code count ninstr r.2)
              (sym (bundles_loop-stop fd_decode f code count ninstr v s))
              (count, 0, finish refl refl, omega arith, ground arith)
        | inl t ↦
            let e = bundles_loop-more fd_decode f code count ninstr v t in
            let a = after fd_decode f code count ninstr v in
            elim (Bool-cases (early fd_decode a.0)) [
              | inl x ↦ absurd (false≢true (rw (e, x) at done))
              | inr x ↦
                  let done' = rw (e, x) at done in
                  let ok' = rw (e, x) at ok in
                  let passed =
                    bundles_loop_failed fd_decode f code (count + a.0.bundlesize) (ninstr + a.1) a.0
                      ok' in
                  let (end, n, run, m, bs, most, all) =
                    vchkbundle-Walked (drop count code) v b passed in
                  let here : Run fd_decode code count (count + end) n =
                    subst (λ y. Run fd_decode code y (count + end) n) (omega arith)
                      (Run-shift fd_decode laws v.opts count run) in
                  rw (e, x)
                    (elim (Bool-cases (leb (length code) (count + end))) [
                      | inl whole ↦
                          let l : length code ≤ count + end = ground arith in
                          let z =
                            bundles_loop_end f code (count + a.0.bundlesize) (ninstr + a.1) a.0
                              (omega (arith, bs)) in
                          (count + end, n, here, omega (arith, z, m), l)
                      | inr more ↦
                          let full : end ≡ a.0.bundlesize =
                            filled_bundle code count end all most bs more in
                          let (end', n', run', m', l') =
                            bundles_loop-IsWalk f code (count + a.0.bundlesize) (ninstr + a.1) a.0
                              (omega (arith, bs)) bs done' ok' in
                          (
                            end',
                            n + n',
                            Run-append fd_decode laws v.opts run'
                                (subst (λ y. Run fd_decode code count (count + y) n) full here),
                            omega (arith, m, m'),
                            l',
                          )
                    ])
            ]
      ]
