-- ===== src/X64/Safety/Transfers.antt =====
-- The sequences of src/x64/macroinst.c that branch: jmp, call and rtcall.
use lfi_verifier.Prelude.{
  ℕ, zero, suc, ◌+◌, ◌%◌, ◌≡◌, ◌⊎◌, inl, inr, refl, ap, subst, ◌∙◌, true, none, some, Option, List,
  drop, is, ◌==◌, ==_iff, eq_iff, Bool-cases, arith, ltb, add64, Holds, Holds-some, Holds-bind,
  Holds-require,
}
use lfi_verifier.X64.Inst.{reg_r11, reg_r14, reg_none, Inst, Decoder, is_mem, reg_eq_iff}
use lfi_verifier.X64.State.{Verifier}
use lfi_verifier.X64.Macro.{
  MacroInst, macroinst_jmp, macroinst_call, macroinst_rtcall, call_loop, is_mask, is_add_base,
  is_through, is_return_lea, is_rtjmp, ok_return, okrtcalldisp,
}
use lfi_verifier.X64.Machine.{step, IsOr, IsSandbox, NoPrefix, MachineLaws}
use lfi_verifier.X64.Confined.{
  Nops, no_nops, one_more, IsReturnAddress, IsConfined, jump, call, runtime,
}
use lfi_verifier.X64.Safety.Steps.{mask_parts}
use lfi_verifier.X64.Safety.Effects.{step-Sets}
use lfi_verifier.X64.Safety.Confined.{
  through_reg, is_through-IsThrough, masks, r11-IsFree, address_lem,
}
use lfi_verifier.X64.Safety.Macros.{call_loop-stop, call_loop-more}
use lfi_verifier.X64.Safety.Unreserved.{IsFree, Sets-IsReady, unreserved-IsFree}

module _ (fd_decode : Decoder) (laws : MachineLaws fd_decode) (or : ℕ → ℕ → ℕ) (law : IsOr or)
    (base : ℕ) (sandbox : IsSandbox base) (v : Verifier) (first : Inst) (buf : List ℕ) (n : ℕ)
    (e : fd_decode buf ≡ some (n, first)) (plain : NoPrefix fd_decode buf) where
  abbrev P : MacroInst → Type 0
  P m = IsConfined fd_decode or base v.addr v.bundlesize first buf m

  mask-IsFree : is_mask v first ≡ true → IsFree (first.op 0).reg
  unfolding is_mask
  mask-IsFree h =
      let (t, _, _, r) = mask_parts or 0 first (λ _. 0) v h in
      unreserved-IsFree fd_decode laws v.opts buf n first e (inl t) (ground arith) r

  pub jmp-Confined : Holds P (macroinst_jmp fd_decode v first buf)
  unfolding macroinst_jmp
  jmp-Confined = Holds-require P (is_mask v first) _ (λ h.
      Holds-bind P (fd_decode (drop first.size buf)) _ (λ add d₁.
        Holds-require P (is_add_base (first.op 0).reg add.1) _ (λ h₁.
          Holds-bind P (fd_decode (drop (first.size + add.1.size) buf)) _ (λ jmp d₂.
            Holds-require P (is_through "FDI_JMP" (first.op 0).reg jmp.1) _ (λ h₂. Holds-some P _ (
              jump add jmp d₁ d₂ (is_through-IsThrough "FDI_JMP" (first.op 0).reg jmp.1 h₂) (
                masks or law base sandbox v first add.1 jmp.1 (mask-IsFree h) h h₁
                  (through_reg "FDI_JMP" (first.op 0).reg jmp.1 h₂))))))))

  return_parts : is_return_lea first ≡ true → IsReturnAddress first
  unfolding is_return_lea
  return_parts h = record {
    type = (eq_iff first.type "FDI_LEA").0 (ground arith);
    reg = (reg_eq_iff _ _).0 (ground arith);
    base = (reg_eq_iff _ _).0 (ground arith);
  }

  rtjmp_parts :
      (i : Inst)
      → is_rtjmp i ≡ true
      → (i.type ≡ "FDI_JMP")
        × (is_mem (i.op 0).op_type ≡ true)
        × ((i.op 0).base ≡ reg_r14)
        × ((i.op 0).index ≡ reg_none)
        × ((i.op 0).scale ≡ 0)
        × (okrtcalldisp (i.op 0).disp ≡ true)
  unfolding is_rtjmp
  rtjmp_parts i h = (
    (eq_iff i.type "FDI_JMP").0 (ground arith),
    ground arith,
    (reg_eq_iff _ _).0 (ground arith),
    (reg_eq_iff _ _).0 (ground arith),
    ground arith,
    ground arith,
  )

  return_cases :
      (i : Inst)
      → ok_return v first i ≡ true
      → ((first.op 1).disp ≡ i.size)
        ⊎ (add64 (v.addr + first.size) (first.op 1).disp % v.bundlesize ≡ 0)
  unfolding ok_return
  return_cases i h = elim (Bool-cases ((first.op 1).disp == i.size)) [
    | inl t ↦ inl ((==_iff _ _).0 t)
    | inr t ↦ inr ((==_iff _ _).0 (ground arith))
  ]

  pub rtcall-Confined : Holds P (macroinst_rtcall fd_decode v first buf)
  unfolding macroinst_rtcall
  rtcall-Confined = Holds-require P (is_return_lea first) _ (λ h.
      Holds-bind P (fd_decode (drop first.size buf)) _ (λ jmp d.
        Holds-require P (is_rtjmp jmp.1) _ (λ h₁. Holds-require P (ok_return v first jmp.1) _ (λ h₂.
          Holds-some P _ (
            let (y, mem, b, x, c, ok) = rtjmp_parts jmp.1 h₁ in
            runtime jmp (return_parts h) d y mem (plain first.size jmp.0 jmp.1 d) ok
              (return_cases jmp.1 h₂)
              (λ o regs ready.
                let regs₁ = step or o first regs in
                let s = step-Sets or o first regs {q = reg_r11} _ (return_parts h).reg refl in
                let ready₁ = Sets-IsReady s r11-IsFree ready in
                (
                  ready₁,
                  address_lem base regs₁ jmp.1 (jmp.1.op 0) reg_none
                        (plain first.size jmp.0 jmp.1 d).addrsize ready₁.r14 b x c
                      ∙ ap (λ a. add64 a (jmp.1.op 0).disp) (omega arith),
                )))))))

  -- The last instruction of the loop over the nops, and where it ends.
  abbrev Last : ℕ → ℕ → Option Inst → Type 0
  Last from count none = Unit
  Last from count (some i) =
      (off : ℕ) × (k : ℕ) × Nops fd_decode buf from off
      × (fd_decode (drop off buf) ≡ some (k, i))
      × (count ≡ off + i.size)

  call_loop-Last :
      (from f count icount : ℕ) (last : Option Inst)
      → Nops fd_decode buf from count
      → Last from count last
      → Holds (λ r. Last from r.0 r.2) (call_loop fd_decode f buf count icount last)
  call_loop-Last from zero count icount last nops l =
      unfold call_loop in record { holds = λ b e. cc }
  call_loop-Last from (suc f) count icount last nops l = elim (Bool-cases (ltb count 32)) [
    | inr h ↦
        rw (call_loop-stop fd_decode v first buf n e f count icount last h)
          (Holds-some (λ r. Last from r.0 r.2) _ l)
    | inl h ↦ rw (call_loop-more fd_decode v first buf n e f count icount last h) (
        Holds-bind (λ r. Last from r.0 r.2) (fd_decode (drop count buf)) _
          (λ p d. elim (Bool-cases (is p.1.type "FDI_NOP")) [
            | inl t ↦ rw t (
                call_loop-Last from f (count + p.1.size) (icount + 1) (some p.1)
                  (one_more p nops d ((eq_iff p.1.type "FDI_NOP").0 t)) (count, p.0, nops, d, refl))
            | inr t ↦ rw t (Holds-some (λ r. Last from r.0 r.2) _ (count, p.0, nops, d, refl))
          ]))
  ]

  pub call-Confined : Holds P (macroinst_call fd_decode v first buf)
  unfolding macroinst_call
  call-Confined = Holds-require P (is_mask v first) _ (λ h.
      Holds-bind P (fd_decode (drop first.size buf)) _ (λ add d₁.
        Holds-require P (is_add_base (first.op 0).reg add.1) _ (λ h₁.
          Holds-bind P (call_loop fd_decode 32 buf (first.size + add.1.size) 2 none) _ (λ r d₂.
            Holds-require P (add64 v.addr r.0 % 32 == 0) _ (λ aligned. Holds-bind P r.2 _ (λ i last.
              Holds-require P (is_through "FDI_CALL" (first.op 0).reg i) _ (λ h₂. Holds-some P _ (
                let from = first.size + add.1.size in
                let l = (call_loop-Last from 32 from 2 none no_nops tt).holds r d₂ in
                let (off, k, nops, d₃, c) = subst (Last from r.0) last l in
                call add (k, i) off d₁ nops d₃
                  (is_through-IsThrough "FDI_CALL" (first.op 0).reg i h₂) c ((==_iff _ _).0 aligned)
                  (masks or law base sandbox v first add.1 i (mask-IsFree h) h h₁
                    (through_reg "FDI_CALL" (first.op 0).reg i h₂))))))))))
