-- ===== src/X64/Safety/Program.antt =====
-- The second loop of lfiv_verify_x64 of src/x64/verify.c against the cut of code into bundles.
use lfi_verifier.Prelude.{
  ℕ, zero, suc, ◌+◌, ◌≤◌, ◌<◌, ◌≡◌, inl, inr, refl, sym, ◌∙◌, subst, Bool, true, false, not, ◌&&◌,
  ◌||◌, List, arith, ltb, length, drop, length-drop, add64, add64-add64, Bool-cases, Option-cases,
  if◌then◌else◌, false≢true,
}
use lfi_verifier.Options.{Options}
use lfi_verifier.X64.Inst.{Inst, Decoder, DecodeLaws}
use lfi_verifier.X64.State.{Verifier, verr, unknown}
use lfi_verifier.X64.Macro.{macroinst}
use lfi_verifier.X64.Verify.{chk_inst, advance, vchk_loop, vchkbundle, bundles_loop}
use lfi_verifier.X64.Layout.{Tiled, Bundled, finished, bundle}
use lfi_verifier.X64.Safety.Single.{chk_single-Passes}
use lfi_verifier.X64.Safety.Unit.{chk_inst-none, chk_inst-some}
use lfi_verifier.X64.Safety.Bundle.{
  BundlePasses, vchk_loop-Passes, vchk_loop-zero, vchk_loop-stop, vchk_loop-unknown, vchk_loop-some,
}

module _ (fd_decode : Decoder) where
  chk_inst_failed :
      (ret : ℕ) (instr : Inst) (rest : List ℕ) (v : Verifier)
      → (chk_inst fd_decode ret instr rest v).1.failed ≡ false
      → v.failed ≡ false
  chk_inst_failed ret instr rest v h = elim (Option-cases (macroinst fd_decode v instr rest)) [
    | inl e ↦
        ((chk_single-Passes instr v).accept
          (rw (chk_inst-none fd_decode ret instr rest v e) at h)).0
    | inr (m, e) ↦ rw (chk_inst-some fd_decode ret instr rest v m e) at h
  ]

  -- A failure is never forgotten.
  vchk_loop_failed :
      (fuel : ℕ) (buf : List ℕ) (count ninstr : ℕ) (v : Verifier)
      → (vchk_loop fd_decode fuel buf count ninstr v).0.failed ≡ false
      → v.failed ≡ false
  unfolding unknown verr advance
  vchk_loop_failed zero buf count ninstr v h = rw (vchk_loop-zero fd_decode buf count ninstr v) at h
  vchk_loop_failed (suc f) buf count ninstr v h =
      elim (Bool-cases (ltb count v.bundlesize && ltb count (length buf))) [
        | inr s ↦ rw (vchk_loop-stop fd_decode f buf count ninstr v s) at h
        | inl t ↦ elim (Option-cases (fd_decode (drop count buf))) [
          | inl d ↦ ground (arith, vchk_loop-unknown fd_decode f buf count ninstr v t d)
          | inr (p, d) ↦
              let c = chk_inst fd_decode p.0 p.1 (drop count buf) v in
              elim (Bool-cases (ltb c.1.bundlesize (count + c.0.size))) [
                | inl long ↦ ground (arith, vchk_loop-some fd_decode f buf count ninstr v p t d)
                | inr fits ↦ chk_inst_failed p.0 p.1 (drop count buf) v (
                    vchk_loop_failed f buf (count + c.0.size) (ninstr + c.0.ninstr)
                      (advance c.0.size c.1)
                      (rw (vchk_loop-some fd_decode f buf count ninstr v p t d, fits) at h))
              ]
        ]
      ]

  module _ (fuel : ℕ) (code : List ℕ) (count ninstr : ℕ) (v : Verifier) where
    abbrev pub after : Verifier × ℕ
    after = vchkbundle fd_decode (drop count code) v

    pub bundles_loop-stop :
        ltb count (length code) ≡ false
        → bundles_loop fd_decode (suc fuel) code count ninstr v ≡ (true, v, ninstr)
    unfolding bundles_loop
    bundles_loop-stop e = rw (e, bundles_loop)

    pub bundles_loop-more :
        ltb count (length code) ≡ true
        → bundles_loop fd_decode (suc fuel) code count ninstr v ≡ (
            if after.0.failed && not after.0.opts.err || after.0.aborted
            then (false, after.0, ninstr + after.1)
            else bundles_loop fd_decode fuel code
                (count + after.0.bundlesize)
                (ninstr + after.1)
                after.0)
    unfolding bundles_loop
    bundles_loop-more e = rw (e, bundles_loop)

  vchkbundle_failed :
      (buf : List ℕ) (v : Verifier)
      → (vchkbundle fd_decode buf v).0.failed ≡ false
      → v.failed ≡ false
  unfolding vchkbundle
  vchkbundle_failed buf v h = vchk_loop_failed 32 buf 0 0 v h

  abbrev pub early : Verifier → Bool
  early v = v.failed && not v.opts.err || v.aborted

  pub bundles_loop_failed :
      (fuel : ℕ) (code : List ℕ) (count ninstr : ℕ) (v : Verifier)
      → (bundles_loop fd_decode fuel code count ninstr v).1.failed ≡ false
      → v.failed ≡ false
  bundles_loop_failed zero code count ninstr v h = unfold bundles_loop in h
  bundles_loop_failed (suc f) code count ninstr v h = elim (Bool-cases (ltb count (length code))) [
    | inr s ↦ rw (bundles_loop-stop f code count ninstr v s) at h
    | inl t ↦
        let a = after f code count ninstr v in
        let h' = rw (bundles_loop-more f code count ninstr v t) at h in
        vchkbundle_failed (drop count code) v (elim (Bool-cases (early a.0)) [
          | inl e ↦ rw e at h'
          | inr e ↦
              bundles_loop_failed f code (count + a.0.bundlesize) (ninstr + a.1) a.0 (rw e at h')
        ])
  ]

-- From the offset `count` on, the loop runs to its end and finds no failure.
abbrev pub Accepts : Bool × Verifier × ℕ → Type 0
Accepts r = (r.0 ≡ true) × (r.1.failed ≡ false)

module _ (fd_decode : Decoder) (laws : DecodeLaws fd_decode) (base : ℕ) (code : List ℕ) where
  -- The verifier stands at the offset `count`, unless it is behind the code.
  abbrev At : ℕ → Verifier → Type 0
  At count v =
      (v.bundlesize ≡ 32) × (v.aborted ≡ false) × (count < length code → v.addr ≡ add64 base count)

  add64_zero : (a b : ℕ) → add64 (add64 a b) 0 ≡ add64 a b
  unfolding add64
  add64_zero a b = omega arith

  vchkbundle-Passes :
      (count : ℕ) (v : Verifier)
      → At count v
      → count < length code
      → BundlePasses
          (Tiled fd_decode v.opts (add64 base count) (drop count code) 0)
          (add64 base count)
          (length (drop count code))
          v
          (vchkbundle fd_decode (drop count code) v).0
  unfolding vchkbundle
  vchkbundle-Passes count v (b, _, e) l =
      vchk_loop-Passes fd_decode laws (add64 base count) (drop count code) 32 0 0 v (omega arith)
        (omega arith) b (e l ∙ sym (add64_zero base count))

  -- After a bundle that passed, the verifier stands at the next.
  At-next :
      (count : ℕ) (v w : Verifier)
      → At count v
      → BundlePasses
          (Tiled fd_decode v.opts (add64 base count) (drop count code) 0)
          (add64 base count)
          (length (drop count code))
          v
          w
      → w.failed ≡ false
      → At (count + 32) w
  At-next count v w (b, ab, e) p f =
      let (_, _, keeps, addr) = p.accept f in
      (
        p.same_bundlesize ∙ b,
        keeps ∙ ab,
        λ l. addr (omega (arith, length-drop count code)) ∙ add64-add64 base count 32,
      )

  module _ (count : ℕ) (v : Verifier) where
    abbrev Expected : Type 0
    Expected = (v.failed ≡ false) × Bundled fd_decode v.opts base code count

  next_count :
      {count : ℕ} {v w : Verifier} {P : Type 0} {n m : ℕ} (f ninstr : ℕ)
      → BundlePasses P n m v w
      → At count v
      → Accepts (bundles_loop fd_decode f code (count + w.bundlesize) ninstr w)
      → Accepts (bundles_loop fd_decode f code (count + 32) ninstr w)
  next_count {count = count} {w = w} f ninstr p at acc =
      subst (λ z. Accepts (bundles_loop fd_decode f code (count + z) ninstr w))
        (p.same_bundlesize ∙ at.0) acc

  pub bundles_loop-accept :
      (fuel count ninstr : ℕ) (v : Verifier)
      → length code ≤ fuel + count
      → At count v
      → Accepts (bundles_loop fd_decode fuel code count ninstr v)
      → Expected count v
  bundles_loop-accept zero count ninstr v h at acc =
      (bundles_loop_failed fd_decode zero code count ninstr v acc.1, finished (omega arith))
  bundles_loop-accept (suc f) count ninstr v h at acc =
      let ok = bundles_loop_failed fd_decode (suc f) code count ninstr v acc.1 in
      elim (Bool-cases (ltb count (length code))) [
        | inr s ↦ (ok, finished (ground arith))
        | inl t ↦
            let l : count < length code = ground arith in
            let a = after fd_decode f code count ninstr v in
            let p = vchkbundle-Passes count v at l in
            let acc' : Accepts (
                if early fd_decode a.0
                then (false, a.0, ninstr + a.1)
                else bundles_loop fd_decode f code (count + a.0.bundlesize) (ninstr + a.1) a.0) =
              subst Accepts (bundles_loop-more fd_decode f code count ninstr v t) acc in
            elim (Bool-cases (early fd_decode a.0)) [
              | inl e ↦ absurd (false≢true (rw e at acc').0)
              | inr e ↦
                  let go_on = next_count f (ninstr + a.1) p at (rw e at acc') in
                  let f' =
                    bundles_loop_failed fd_decode f code (count + 32) (ninstr + a.1) a.0 go_on.1 in
                  let (_, rest) =
                    bundles_loop-accept f (count + 32) (ninstr + a.1) a.0 (omega arith)
                      (At-next count v a.0 at p f') go_on in
                  (
                    ok,
                    bundle l (p.accept f').1
                        (subst (λ o. Bundled fd_decode o base code (count + 32)) p.same_opts rest),
                  )
            ]
      ]

  Bundled-next :
      {opts : Options} {count : ℕ}
      → count < length code
      → Bundled fd_decode opts base code count
      → Tiled fd_decode opts (add64 base count) (drop count code) 0
        × Bundled fd_decode opts base code (count + 32)
  Bundled-next l (finished h) = absurd (omega arith)
  Bundled-next l (bundle _ t r) = (t, r)

  pub bundles_loop-pass :
      (fuel count ninstr : ℕ) (v : Verifier)
      → length code ≤ fuel + count
      → At count v
      → Expected count v
      → Accepts (bundles_loop fd_decode fuel code count ninstr v)
  bundles_loop-pass zero count ninstr v h at (ok, bs) = unfold bundles_loop in (refl, ok)
  bundles_loop-pass (suc f) count ninstr v h at (ok, bs) =
      elim (Bool-cases (ltb count (length code))) [
        | inr s ↦ rw (bundles_loop-stop fd_decode f code count ninstr v s) (refl, ok)
        | inl t ↦
            let l : count < length code = ground arith in
            let a = after fd_decode f code count ninstr v in
            let p = vchkbundle-Passes count v at l in
            let (tile, rest) = Bundled-next l bs in
            let f' = p.pass ok tile in
            let at' = At-next count v a.0 at p f' in
            let e : early fd_decode a.0 ≡ false = ground (arith, f', at'.1) in
            rw (bundles_loop-more fd_decode f code count ninstr v t, e, p.same_bundlesize ∙ at.0)
              (bundles_loop-pass f (count + 32) (ninstr + a.1) a.0 (omega arith) at' (
                f',
                subst (λ o. Bundled fd_decode o base code (count + 32)) (sym p.same_opts) rest,
              ))
      ]
