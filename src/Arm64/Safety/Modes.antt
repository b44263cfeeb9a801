-- ===== src/Arm64/Safety/Modes.antt =====
-- How the verdict of src/arm64/verify.c depends on the options.
use lfi_verifier.Prelude.{ℕ, ◌≡◌, sym, ◌∙◌, Bool, true, some, List}
use lfi_verifier.Options.{Options, Relaxes, Relaxes-stores}
use lfi_verifier.Arm64.Inst.{Op, Inst, Group, Disarm}
use lfi_verifier.Arm64.State.{Verifier}
use lfi_verifier.Arm64.Regs.{isload, nmod}
use lfi_verifier.Arm64.Verify.{lfiv_verify_arm64}
use lfi_verifier.Arm64.Passes.{EachOp}
use lfi_verifier.Arm64.Laws.{DisarmLaws}
use lfi_verifier.Arm64.Policy.{
  IsFixed, base, context, MemOk, not_memory, free_offset, free_register, free_update, runtime_slot,
  context_slot, at_address, register_offset, ContextOk, WriteOk, no_register, free, guarded,
  WritesOk, Checked, SafeInsn, hint, probe, checked, SafeRun, end, insn,
}
use lfi_verifier.Arm64.Safety.Entry.{lfiv_verify_arm64_sound, lfiv_verify_arm64_exact}

EachOp-map : (P Q : ℕ → Type 0) → ((i : ℕ) → P i → Q i) → EachOp P → EachOp Q
EachOp-map P Q f (a, b, c, d, e) = (f 0 a, f 1 b, f 2 c, f 3 d, f 4 e)

module _ {o o' : Options} (r : Relaxes o o') where
  IsFixed-before : {x : ℕ} → IsFixed o' x → IsFixed o x
  IsFixed-before (base e) = base e
  IsFixed-before (context c e) = context (sym r.same_ctxreg ∙ c) e

  MemOk-relax : {op : Op} {load : Bool} → MemOk o op load → MemOk o' op load
  MemOk-relax (not_memory h) = not_memory h
  MemOk-relax (free_offset b l t) = free_offset (Relaxes-stores r b) l t
  MemOk-relax (free_register b l t) = free_register (Relaxes-stores r b) l t
  MemOk-relax (free_update b l t n) =
      free_update (Relaxes-stores r b) l t (λ f. n (IsFixed-before f))
  MemOk-relax (runtime_slot t e i) = runtime_slot t e i
  MemOk-relax (context_slot t c e i) = context_slot t (r.same_ctxreg ∙ c) e i
  MemOk-relax (at_address t a) = at_address t a
  MemOk-relax (register_offset t e x s) = register_offset t e x s

  ContextOk-relax : (dinst : Inst) (op : Op) → ContextOk o dinst op → ContextOk o' dinst op
  ContextOk-relax dinst op h t c e = h t (sym r.same_ctxreg ∙ c) e

  WriteOk-relax : (dinst : Inst) (op : Op) → WriteOk o dinst op → WriteOk o' dinst op
  WriteOk-relax dinst op (no_register h) = no_register h
  WriteOk-relax dinst op (free n a s) = free (λ f. n (IsFixed-before f)) a s
  WriteOk-relax dinst op (guarded n a) = guarded (λ f. n (IsFixed-before f)) a

  Checked-relax :
      {group : Group} {g : Bool} {dinst : Inst} → Checked o group g dinst → Checked o' group g dinst
  Checked-relax {group = group} {dinst = dinst} s = record {
    branches = s.branches;
    system = s.system;
    memory =
        EachOp-map (λ i. MemOk o (dinst.ops i) (isload dinst) × ContextOk o dinst (dinst.ops i))
          (λ i. MemOk o' (dinst.ops i) (isload dinst) × ContextOk o' dinst (dinst.ops i))
          (λ i m. (MemOk-relax m.0, ContextOk-relax dinst (dinst.ops i) m.1)) s.memory;
    writes =
        EachOp-map (WritesOk o dinst (nmod group dinst)) (WritesOk o' dinst (nmod group dinst))
          (λ i w m. WriteOk-relax dinst (dinst.ops i) (w m)) s.writes;
    distinct = s.distinct;
    writeback = s.writeback;
  }

  module _ (d : Disarm) where
    SafeInsn-relax : {g : Bool} {i : ℕ} → SafeInsn d o g i → SafeInsn d o' g i
    SafeInsn-relax (hint h) = hint h
    SafeInsn-relax (probe h k p) = probe h k p
    SafeInsn-relax (checked h k p c) = checked h k p (Checked-relax c)

    SafeRun-relax : {g : Bool} {code : List ℕ} → SafeRun d o g code → SafeRun d o' g code
    SafeRun-relax (end h) = end h
    SafeRun-relax (insn s t) = insn (SafeInsn-relax s) (SafeRun-relax t)

module _ (d : Disarm) (code : List ℕ) (addr : ℕ) (opts opts' : Options) (laws : DisarmLaws d) where
  -- With a lawful decoder, the same ctxreg, and the same sandbox type or a full one before,
  -- lfiv_verify_arm64 accepts under the new options whatever it accepts under the old, whether or not
  -- errors are reported.
  pub lfiv_verify_arm64_relax :
      Relaxes opts opts'
      → (v : Verifier) × (lfiv_verify_arm64 d code addr opts ≡ some (true, v))
      → (v : Verifier) × (lfiv_verify_arm64 d code addr opts' ≡ some (true, v))
  lfiv_verify_arm64_relax r h =
      let (size, run) = lfiv_verify_arm64_sound d code addr opts h.0 h.1 in
      (lfiv_verify_arm64_exact d code addr opts' laws).1 (size, SafeRun-relax r d run)
