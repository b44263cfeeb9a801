-- ===== src/X64/Safety/Bundle.antt =====
-- The loop of vchkbundle of src/x64/verify.c against the cut of a bundle into safe units.
use lfi_verifier.Prelude.{
  ℕ, zero, suc, ◌+◌, ◌≤◌, ◌<◌, ◌≡◌, ◌⊎◌, inl, inr, refl, sym, ap, ◌∙◌, subst, true, false, ◌&&◌,
  none, some, some-injective, List, arith, ltb, length, drop, add64, add64-add64, Bool-cases,
  Option-cases, if◌then◌else◌, false≢true,
}
use lfi_verifier.Options.{Options}
use lfi_verifier.X64.Inst.{Inst, Decoder, DecodeLaws}
use lfi_verifier.X64.State.{Verifier, verr, unknown}
use lfi_verifier.X64.Macro.{MacroInst}
use lfi_verifier.X64.Verify.{advance, chk_inst, vchk_loop}
use lfi_verifier.X64.Passes.{Passes}
use lfi_verifier.X64.Layout.{UnitOk, Tiled, stop, step}
use lfi_verifier.X64.Safety.Unit.{chk_inst-Passes, UnitOk-unique, chk_inst_pos}

-- From `v` to `v'` a bundle that is loaded at `base` passed exactly if `P`; if it did and code may
-- follow, the verifier stands at the next bundle.
pub record BundlePasses (P : Type 0) (base size : ℕ) (v v' : Verifier) : Type 0 where
  pub accept :
      v'.failed ≡ false
      → (v.failed ≡ false) × P × (v'.aborted ≡ v.aborted) × (32 ≤ size → v'.addr ≡ add64 base 32)
  pub pass : v.failed ≡ false → P → v'.failed ≡ false
  pub same_opts : v'.opts ≡ v.opts
  pub same_bundlesize : v'.bundlesize ≡ v.bundlesize

-- A bundle that fails, where no policy holds.
fails-BundlePasses :
    {P : Type 0} {base size : ℕ} {v v' : Verifier}
    → v'.failed ≡ true
    → ¬ P
    → v'.opts ≡ v.opts
    → v'.bundlesize ≡ v.bundlesize
    → BundlePasses P base size v v'
fails-BundlePasses f n o b = record {
  accept = λ h. absurd (false≢true (sym h ∙ f));
  pass = λ _ p. absurd (n p);
  same_opts = o;
  same_bundlesize = b;
}

pub vchk_loop-zero :
    (fd_decode : Decoder) (buf : List ℕ) (count ninstr : ℕ) (v : Verifier)
    → vchk_loop fd_decode zero buf count ninstr v ≡ (v, ninstr)
unfolding vchk_loop
vchk_loop-zero fd_decode buf count ninstr v = refl

module _ (fd_decode : Decoder) (fuel : ℕ) (buf : List ℕ) (count ninstr : ℕ) (v : Verifier) where
  pub vchk_loop-stop :
      (ltb count v.bundlesize && ltb count (length buf)) ≡ false
      → vchk_loop fd_decode (suc fuel) buf count ninstr v ≡ (v, ninstr)
  unfolding vchk_loop
  vchk_loop-stop e = rw (e, vchk_loop)

  pub vchk_loop-unknown :
      (ltb count v.bundlesize && ltb count (length buf)) ≡ true
      → fd_decode (drop count buf) ≡ none
      → vchk_loop fd_decode (suc fuel) buf count ninstr v ≡ (unknown v, ninstr)
  unfolding vchk_loop
  vchk_loop-unknown e d = rw (e, d, vchk_loop)

  pub vchk_loop-some :
      (p : ℕ × Inst)
      → (ltb count v.bundlesize && ltb count (length buf)) ≡ true
      → fd_decode (drop count buf) ≡ some p
      → vchk_loop fd_decode (suc fuel) buf count ninstr v ≡ (
          let c = chk_inst fd_decode p.0 p.1 (drop count buf) v in
          if ltb c.1.bundlesize (count + c.0.size)
          then (
            record (verr p.1 "instruction spans bundle boundary" c.1) { aborted = true },
            ninstr,
          )
          else vchk_loop fd_decode fuel buf
              (count + c.0.size)
              (ninstr + c.0.ninstr)
              (advance c.0.size c.1))
  unfolding vchk_loop
  vchk_loop-some p e d = rw (e, d, vchk_loop)

module _ (fd_decode : Decoder) (opts : Options) (base : ℕ) (buf : List ℕ) where
  Tiled-some :
      {count : ℕ} (p : ℕ × Inst)
      → count < 32
      → count < length buf
      → fd_decode (drop count buf) ≡ some p
      → Tiled fd_decode opts base buf count
      → (m : MacroInst) × UnitOk fd_decode opts (add64 base count) (drop count buf) p.0 p.1 m
        × (count + m.size ≤ 32)
        × Tiled fd_decode opts base buf (count + m.size)
  Tiled-some p a b d (stop (inl h)) = absurd (omega arith)
  Tiled-some p a b d (stop (inr h)) = absurd (omega arith)
  Tiled-some p a b d (step {count = k} q m _ _ e u l t) = (
    m,
    subst (λ r. UnitOk fd_decode opts (add64 base k) (drop k buf) r.0 r.1 m)
        (some-injective _ _ (sym e ∙ d)) u,
    l,
    t,
  )

  not-Tiled-none :
      {count : ℕ}
      → count < 32
      → count < length buf
      → fd_decode (drop count buf) ≡ none
      → ¬ Tiled fd_decode opts base buf count
  not-Tiled-none a b d (stop (inl h)) = omega arith
  not-Tiled-none a b d (stop (inr h)) = omega arith
  not-Tiled-none a b d (step q m _ _ e u l t) = cc

module _ (fd_decode : Decoder) (laws : DecodeLaws fd_decode) (base : ℕ) (buf : List ℕ) where
  abbrev Goal : ℕ → Verifier → Verifier → Type 0
  Goal count v v' = BundlePasses (Tiled fd_decode v.opts base buf count) base (length buf) v v'

  -- The end of the bundle or of the code.
  ended :
      (count : ℕ) (v : Verifier)
      → (32 ≤ count) ⊎ (length buf ≤ count)
      → count ≤ 32
      → v.addr ≡ add64 base count
      → Goal count v v
  ended count v h k e = record {
    accept = λ f. (f, stop h, refl, λ n. e ∙ ap (add64 base) (full h n));
    pass = λ f _. f;
    same_opts = refl;
    same_bundlesize = refl;
  }
    where
      full : (32 ≤ count) ⊎ (length buf ≤ count) → 32 ≤ length buf → count ≡ 32
      full (inl g) n = omega arith
      full (inr g) n = omega arith

  module _ (count : ℕ) (p : ℕ × Inst) (v : Verifier) (a : count < 32) (l : count < length buf)
      (d : fd_decode (drop count buf) ≡ some p) (b : v.bundlesize ≡ 32)
      (e : v.addr ≡ add64 base count) where
    abbrev unit : MacroInst × Verifier
    unit = chk_inst fd_decode p.0 p.1 (drop count buf) v

    abbrev UnitAt : MacroInst → Type 0
    UnitAt m = UnitOk fd_decode v.opts (add64 base count) (drop count buf) p.0 p.1 m

    unit-Passes : Passes (UnitAt unit.0) v unit.1
    unit-Passes =
        subst (λ x. Passes (UnitOk fd_decode v.opts x (drop count buf) p.0 p.1 unit.0) v unit.1) e
          (chk_inst-Passes fd_decode p.0 p.1 (drop count buf) v b)

    -- The units of a tiling are those that the loop finds.
    Tiled-next :
        Tiled fd_decode v.opts base buf count
        → UnitAt unit.0
          × (count + unit.0.size ≤ 32)
          × Tiled fd_decode v.opts base buf (count + unit.0.size)
    Tiled-next t =
        let (m, u, fit, t') = Tiled-some fd_decode v.opts base buf p a l d t in
        let same : m ≡ unit.0 =
          UnitOk-unique fd_decode p.0 p.1 (drop count buf) v b
            (subst (λ x. UnitOk fd_decode v.opts x (drop count buf) p.0 p.1 m) (sym e) u) in
        (
          subst UnitAt same u,
          subst (λ x. count + x.size ≤ 32) same fit,
          subst (λ x. Tiled fd_decode v.opts base buf (count + x.size)) same t',
        )

    -- The loop, one unit further.
    round :
        (w : Verifier)
        → count + unit.0.size ≤ 32
        → Goal (count + unit.0.size) (advance unit.0.size unit.1) w
        → Goal count v w
    unfolding advance
    round w fit ih = record {
      accept = λ f.
          let (f₁, t, ab, ad) = ih.accept f in
          let (f₀, u) = unit-Passes.accept f₁ in
          (
            f₀,
            step p unit.0 a l d u fit (
                subst (λ o. Tiled fd_decode o base buf (count + unit.0.size)) unit-Passes.same_opts
                  t),
            ab ∙ unit-Passes.same_aborted,
            ad,
          );
      pass = λ f t.
          let (u, _, t') = Tiled-next t in
          ih.pass (unit-Passes.pass f u) (
            subst (λ o. Tiled fd_decode o base buf (count + unit.0.size))
              (sym unit-Passes.same_opts) t');
      same_opts = ih.same_opts ∙ unit-Passes.same_opts;
      same_bundlesize = ih.same_bundlesize ∙ unit-Passes.same_bundlesize;
    }

    unit_pos : 0 < unit.0.size
    unit_pos =
        chk_inst_pos fd_decode p.0 p.1 (drop count buf) v
          (omega (arith, laws.returns_size _ p.0 p.1 d, laws.size_pos _ p.0 p.1 d))

    unit_bundlesize : unit.1.bundlesize ≡ 32
    unit_bundlesize = unit-Passes.same_bundlesize ∙ b

    unit_addr : add64 unit.1.addr unit.0.size ≡ add64 base (count + unit.0.size)
    unit_addr =
        ap (λ x. add64 x unit.0.size) (unit-Passes.same_addr ∙ e)
        ∙ add64-add64 base count unit.0.size

    too_long :
        (w : Verifier)
        → w.failed ≡ true
        → w.opts ≡ unit.1.opts
        → w.bundlesize ≡ unit.1.bundlesize
        → 32 < count + unit.0.size
        → Goal count v w
    too_long w f o z long =
        fails-BundlePasses f (λ t. absurd (omega (arith, (Tiled-next t).1)))
          (o ∙ unit-Passes.same_opts) (z ∙ unit-Passes.same_bundlesize)

  -- The loop from any offset of the bundle, with fuel for the bytes that are left.
  pub vchk_loop-Passes :
      (fuel count ninstr : ℕ) (v : Verifier)
      → 32 ≤ fuel + count
      → count ≤ 32
      → v.bundlesize ≡ 32
      → v.addr ≡ add64 base count
      → Goal count v (vchk_loop fd_decode fuel buf count ninstr v).0
  unfolding unknown verr advance
  vchk_loop-Passes zero count ninstr v h k b e =
      rw (vchk_loop-zero fd_decode buf count ninstr v) (ended count v (inl (omega arith)) k e)
  vchk_loop-Passes (suc f) count ninstr v h k b e =
      elim (Bool-cases (ltb count v.bundlesize && ltb count (length buf))) [
        | inr s ↦
            rw (vchk_loop-stop fd_decode f buf count ninstr v s) (ended count v (stopped s) k e)
        | inl t ↦
            let a : count < 32 = ground arith in
            let l : count < length buf = ground arith in
            elim (Option-cases (fd_decode (drop count buf))) [
              | inl d ↦ rw (vchk_loop-unknown fd_decode f buf count ninstr v t d) (
                  fails-BundlePasses (ground arith) (not-Tiled-none fd_decode v.opts base buf a l d)
                    (ground arith) (ground arith))
              | inr (p, d) ↦
                  let c = unit count p v a l d b e in
                  rw (vchk_loop-some fd_decode f buf count ninstr v p t d)
                    (elim (Bool-cases (ltb c.1.bundlesize (count + c.0.size))) [
                      | inl long ↦ rw long (
                          too_long count p v a l d b e _ (ground arith) (ground arith)
                            (ground arith) (ground (arith, unit_bundlesize count p v a l d b e)))
                      | inr fits ↦
                          let fit : count + c.0.size ≤ 32 =
                            ground (arith, unit_bundlesize count p v a l d b e) in
                          rw fits (
                            round count p v a l d b e _ fit (
                              vchk_loop-Passes f (count + c.0.size) (ninstr + c.0.ninstr)
                                (advance c.0.size c.1) (omega (arith, unit_pos count p v a l d b e))
                                fit (unit_bundlesize count p v a l d b e)
                                (unit_addr count p v a l d b e)))
                    ])
            ]
      ]
    where
      stopped :
          (ltb count v.bundlesize && ltb count (length buf)) ≡ false
          → (32 ≤ count) ⊎ (length buf ≤ count)
      stopped s = ground arith
