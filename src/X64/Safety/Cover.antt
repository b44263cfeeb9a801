-- ===== src/X64/Safety/Cover.antt =====
-- How far the bytes of code that lfiv_verify_x64 of src/x64/verify.c accepts are decoded.
use lfi_verifier.Prelude.{
  ℕ, ◌+◌, ◌/◌, ◌%◌, ◌≤◌, ◌<◌, ◌^◌, ◌≡◌, ◌⊎◌, true, refl, sym, ap, subst, ◌∙◌, some, List, arith,
  length, drop,
}
use lfi_verifier.Options.{Options}
use lfi_verifier.X64.Inst.{Inst, Decoder, DecodeLaws}
use lfi_verifier.X64.Macro.{MacroInst}
use lfi_verifier.X64.Verify.{initial, returns, lfiv_verify_x64}
use lfi_verifier.X64.Layout.{UnitOk, macro, single, Tiled, stop, step}
use lfi_verifier.X64.Safety.Macros.{Run, finish, next, macroinst-Run}
use lfi_verifier.X64.Safety.Entry.{lfiv_verify_x64_sound}
use lfi_verifier.X64.Safety.Control.{drop-drop, Bundled-Cut}

module _ (fd_decode : Decoder) (laws : DecodeLaws fd_decode) (opts : Options) where
  pub Run-shift :
      {buf : List ℕ} (c : ℕ) {start end count : ℕ}
      → Run fd_decode (drop c buf) start end count
      → Run fd_decode buf (c + start) (c + end) count
  Run-shift c (finish e k) = finish (ap (λ x. c + x) e) k
  Run-shift {buf = buf} c {start = start} (next p mid rest d m k r) =
      next p (c + mid) rest (ap fd_decode (sym (drop-drop start c buf)) ∙ d) (omega arith) k
        (Run-shift c r)

  pub Run-append :
      {buf : List ℕ} {mid end more : ℕ}
      → Run fd_decode buf mid end more
      → {start count : ℕ} → Run fd_decode buf start mid count
      → Run fd_decode buf start end (count + more)
  Run-append {buf = buf} {mid = mid} {end = end} {more = more} s {count = count} (finish e k) =
      subst (λ x. Run fd_decode buf x end (count + more)) (sym e)
        (subst (λ c. Run fd_decode buf mid end c) (omega arith) s)
  Run-append s (next p m rest d q k r) = next p m _ d q (omega arith) (Run-append s r)

  UnitOk-Run :
      {addr : ℕ} {buf : List ℕ} (p : ℕ × Inst) {m : MacroInst}
      → fd_decode buf ≡ some p
      → UnitOk fd_decode opts addr buf p.0 p.1 m
      → Run fd_decode buf 0 m.size m.ninstr
  UnitOk-Run {addr = addr} {buf = buf} p {m = m} d (macro h) =
      macroinst-Run fd_decode (initial addr opts) p.1 buf p.0 d m h
  UnitOk-Run {buf = buf} p {m = m} d (single _ e _) =
      subst (λ x. Run fd_decode buf 0 x.size x.ninstr) (sym e)
        (next p p.0 0 d (omega (arith, laws.returns_size buf p.0 p.1 d)) refl (finish refl refl))

  -- A run from an offset of the bundle to its end, or to the end of the code.
  abbrev Covered : List ℕ → ℕ → Type 0
  Covered buf start =
      (end : ℕ) × (count : ℕ) × Run fd_decode buf start end count
      × (end ≤ 32)
      × ((32 ≤ end) ⊎ (length buf ≤ end))

  Tiled-Covered :
      {base : ℕ} {buf : List ℕ} {start : ℕ}
      → Tiled fd_decode opts base buf start
      → start ≤ 32
      → Covered buf start
  Tiled-Covered {start = start} (stop h) l = (start, 0, finish refl refl, l, h)
  Tiled-Covered {buf = buf} {start = start} (step p m _ _ d u f t) l =
      let (end, count, r, most, all) = Tiled-Covered t f in
      let unit = Run-shift start (UnitOk-Run p d u) in
      (
        end,
        m.ninstr + count,
        Run-append r
            (subst (λ s. Run fd_decode buf s (start + m.size) m.ninstr) (omega arith) unit),
        most,
        all,
      )

module _ (fd_decode : Decoder) (lfi_x86_bdd : List ℕ → ℕ) (code : List ℕ) (addr : ℕ)
    (opts : Options) (laws : DecodeLaws fd_decode) (fits : addr < 2 ^ 64) where
  -- Where lfiv_verify_x64 accepts code at an address below 2 ^ 64, from the start of each bundle
  -- instructions are decoded one after another, the macros' included, up to the end of the bundle and
  -- not beyond, or up to the end of the code.
  pub lfiv_verify_x64_cover :
      (lfiv_verify_x64 fd_decode lfi_x86_bdd code addr opts).0 ≡ returns true
      → (start : ℕ) → start % 32 ≡ 0
      → start < length code
      → (end : ℕ) × (count : ℕ) × Run fd_decode (drop start code) 0 end count
        × (end ≤ 32)
        × ((32 ≤ end) ⊎ (length (drop start code) ≤ end))
  lfiv_verify_x64_cover h start a l =
      Tiled-Covered fd_decode laws opts
        (Bundled-Cut fd_decode laws opts addr code (start / 32) start
          (lfiv_verify_x64_sound fd_decode lfi_x86_bdd code addr opts laws fits h) (omega arith) l)
        (omega arith)
