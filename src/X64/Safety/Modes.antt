-- ===== src/X64/Safety/Modes.antt =====
-- How the verdict of src/x64/verify.c depends on the options.
use lfi_verifier.Prelude.{ℕ, ◌<◌, ◌^◌, ◌≡◌, refl, sym, ◌∙◌, subst, true, List}
use lfi_verifier.Options.{Options, Relaxes, Relaxes-stores}
use lfi_verifier.X64.Inst.{Inst, Decoder, DecodeLaws}
use lfi_verifier.X64.Check.{reserved}
use lfi_verifier.X64.Macro.{
  is_self_mov, is_index_load, ok_return, MacroInst, macroinst, macroinst_load, macroinst_jmp,
  macroinst_call, macroinst_modsp, macroinst_stos, macroinst_movs, macroinst_cmps, macroinst_rtcall,
  is_mask,
}
use lfi_verifier.X64.Verify.{initial, returns, lfiv_verify_x64}
use lfi_verifier.X64.Policy.{
  MemOk, not_memory, only_read, segmented, context, based, RegOk, not_register, vector, floating,
  read, unreserved, SafeInst,
}
use lfi_verifier.X64.Layout.{UnitOk, macro, single, Tiled, stop, step, Bundled, finished, bundle}
use lfi_verifier.X64.Safety.Entry.{lfiv_verify_x64_sound, lfiv_verify_x64_exact}

module _ {o o' : Options} (r : Relaxes o o') where
  MemOk-relax : (instr : Inst) (i : ℕ) → MemOk o instr i → MemOk o' instr i
  MemOk-relax instr i (not_memory h) = not_memory h
  MemOk-relax instr i (only_read b h) = only_read (Relaxes-stores r b) h
  MemOk-relax instr i (segmented s a) = segmented s a
  MemOk-relax instr i (context s a c b t z d x) = context s a (r.same_ctxreg ∙ c) b t z d x
  MemOk-relax instr i (based s a b x) = based s a b x

  RegOk-relax : (instr : Inst) (i : ℕ) → RegOk o instr i → RegOk o' instr i
  RegOk-relax instr i (not_register h) = not_register h
  RegOk-relax instr i (vector h) = vector h
  RegOk-relax instr i (floating h) = floating h
  RegOk-relax instr i (read k h) = read k h
  RegOk-relax instr i (unreserved k s b c) = unreserved k s b (λ e. c (sym r.same_ctxreg ∙ e))

  SafeInst-relax : (addr n : ℕ) (instr : Inst) → SafeInst o addr n instr → SafeInst o' addr n instr
  SafeInst-relax addr n instr s = record {
    legal = s.legal;
    branches = s.branches;
    memory = λ h.
        let (a, b, c, d) = s.memory h in
        (
          MemOk-relax instr 0 a,
          MemOk-relax instr 1 b,
          MemOk-relax instr 2 c,
          MemOk-relax instr 3 d,
        );
    registers = λ h.
        let (a, b, c, d) = s.registers h in
        (
          RegOk-relax instr 0 a,
          RegOk-relax instr 1 b,
          RegOk-relax instr 2 c,
          RegOk-relax instr 3 d,
        );
  }

  module _ (fd_decode : Decoder) where
    -- The macros read the context register's option alone.
    macroinst_ctxreg :
        (addr : ℕ) (first : Inst) (buf : List ℕ)
        → macroinst fd_decode (initial addr o') first buf
          ≡ macroinst fd_decode (initial addr o) first buf
    unfolding is_self_mov is_index_load ok_return macroinst macroinst_load macroinst_jmp
        macroinst_call macroinst_modsp macroinst_stos macroinst_movs macroinst_cmps macroinst_rtcall
        is_mask reserved
    macroinst_ctxreg addr first buf =
        subst
          (λ c.
            macroinst fd_decode (initial addr o') first buf
            ≡ macroinst fd_decode (initial addr (record o { ctxreg = c })) first buf)
          r.same_ctxreg refl

    UnitOk-relax :
        {addr ret : ℕ} {rest : List ℕ} {instr : Inst} {m : MacroInst}
        → UnitOk fd_decode o addr rest ret instr m
        → UnitOk fd_decode o' addr rest ret instr m
    UnitOk-relax {addr = addr} {rest = rest} {instr = instr} (macro h) =
        macro (macroinst_ctxreg addr instr rest ∙ h)
    UnitOk-relax {addr = addr} {rest = rest} {instr = instr} (single h e s) =
        single (macroinst_ctxreg addr instr rest ∙ h) e (SafeInst-relax addr 32 instr s)

    Tiled-relax :
        {base : ℕ} {buf : List ℕ} {count : ℕ}
        → Tiled fd_decode o base buf count
        → Tiled fd_decode o' base buf count
    Tiled-relax (stop h) = stop h
    Tiled-relax (step p m a b d u f t) = step p m a b d (UnitOk-relax u) f (Tiled-relax t)

    Bundled-relax :
        {base : ℕ} {code : List ℕ} {count : ℕ}
        → Bundled fd_decode o base code count
        → Bundled fd_decode o' base code count
    Bundled-relax (finished h) = finished h
    Bundled-relax (bundle l t b) = bundle l (Tiled-relax t) (Bundled-relax b)

module _ (fd_decode : Decoder) (lfi_x86_bdd : List ℕ → ℕ) (code : List ℕ) (addr : ℕ)
    (opts opts' : Options) (laws : DecodeLaws fd_decode) (fits : addr < 2 ^ 64) where
  -- With no_bdd set, the same ctxreg, and the same sandbox type or a full one before, lfiv_verify_x64
  -- accepts under the new options whatever it accepts under the old, with any diagram and whether or
  -- not errors are reported.
  pub lfiv_verify_x64_relax :
      Relaxes opts opts'
      → opts'.no_bdd ≡ true
      → (lfiv_verify_x64 fd_decode lfi_x86_bdd code addr opts).0 ≡ returns true
      → (lfiv_verify_x64 fd_decode lfi_x86_bdd code addr opts').0 ≡ returns true
  lfiv_verify_x64_relax r n h =
      (lfiv_verify_x64_exact fd_decode lfi_x86_bdd code addr opts' laws fits n).1 (
        Bundled-relax r fd_decode
          (lfiv_verify_x64_sound fd_decode lfi_x86_bdd code addr opts laws fits h))
