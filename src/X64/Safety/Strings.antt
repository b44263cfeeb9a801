-- ===== src/X64/Safety/Strings.antt =====
-- The sequences of src/x64/macroinst.c for string instructions: stos, movs and cmps.
use lfi_verifier.Prelude.{
  ℕ, ◌+◌, ◌≡◌, refl, sym, subst, true, some, List, drop, is, eq_iff, inl, inr, Holds, Holds-some,
  Holds-bind, Holds-require,
}
use lfi_verifier.X64.Inst.{reg_si, reg_di, Inst, Decoder}
use lfi_verifier.X64.State.{Verifier}
use lfi_verifier.X64.Macro.{
  MacroInst, macroinst_stos, macroinst_movs, macroinst_cmps, is_trunc, is_rebase,
}
use lfi_verifier.X64.Machine.{
  Registers, step, IsOr, IsSandbox, Inside, IsReady, NoPrefix, MachineLaws,
}
use lfi_verifier.X64.Confined.{IsConfined, one_string, two_strings}
use lfi_verifier.X64.Safety.Confined.{points, di-IsFree, si-IsFree}

module _ (fd_decode : Decoder) (laws : MachineLaws fd_decode) (or : ℕ → ℕ → ℕ) (law : IsOr or)
    (base : ℕ) (sandbox : IsSandbox base) (v : Verifier) (first : Inst) (buf : List ℕ) (n : ℕ)
    (e : fd_decode buf ≡ some (n, first)) (plain : NoPrefix fd_decode buf) where
  abbrev P : MacroInst → Type 0
  P m = IsConfined fd_decode or base v.addr v.bundlesize first buf m

  pub stos-Confined : Holds P (macroinst_stos fd_decode v first buf)
  unfolding macroinst_stos
  stos-Confined = Holds-require P (is_trunc reg_di first) _ (λ h.
      Holds-bind P (fd_decode (drop first.size buf)) _ (λ lea d₁.
        Holds-require P (is_rebase reg_di lea.1) _ (λ h₁.
          Holds-bind P (fd_decode (drop (first.size + lea.1.size) buf)) _ (λ stos d₂.
            Holds-require P (is stos.1.type "FDI_STOS") _ (λ s. Holds-some P _ (
              one_string lea stos d₁ d₂ ((eq_iff stos.1.type "FDI_STOS").0 s)
                (plain (first.size + lea.1.size) stos.0 stos.1 d₂)
                (λ o o' regs ready.
                  let (ready', inside, _) =
                    points or law base sandbox reg_di first lea.1 di-IsFree (λ _. refl)
                      (plain first.size lea.0 lea.1 d₁).addrsize h h₁ o o' regs ready in
                  (ready', inside))))))))

  -- Both string registers, as movs and cmps set them.
  two :
      (lea mov lea' : Inst)
      → lea.addrsize ≡ 8
      → lea'.addrsize ≡ 8
      → is_trunc reg_di first ≡ true
      → is_rebase reg_di lea ≡ true
      → is_trunc reg_si mov ≡ true
      → is_rebase reg_si lea' ≡ true
      → (o₁ o₂ o₃ o₄ : ℕ) (regs : Registers) → IsReady base regs
      → let regs' = step or o₄ lea' (step or o₃ mov (step or o₂ lea (step or o₁ first regs))) in
        IsReady base regs' × Inside base (regs' reg_di) × Inside base (regs' reg_si)
  two lea mov lea' a a' h₁ h₂ h₃ h₄ o₁ o₂ o₃ o₄ regs ready =
      let regs₁ = step or o₂ lea (step or o₁ first regs) in
      let (ready₁, di, _) =
        points or law base sandbox reg_di first lea di-IsFree (λ _. refl) a h₁ h₂ o₁ o₂ regs
          ready in
      let (ready₂, si, others) =
        points or law base sandbox reg_si mov lea' si-IsFree (λ _. refl) a' h₃ h₄ o₃ o₄ regs₁
          ready₁ in
      (ready₂, subst (Inside base) (sym (others reg_di (λ e. cc))) di, si)

  pub movs-Confined : Holds P (macroinst_movs fd_decode v first buf)
  unfolding macroinst_movs
  movs-Confined = Holds-require P (is_trunc reg_di first) _ (λ h₁.
      Holds-bind P (fd_decode (drop first.size buf)) _ (λ lea d₁.
        Holds-require P (is_rebase reg_di lea.1) _ (λ h₂.
          Holds-bind P (fd_decode (drop (first.size + lea.1.size) buf)) _ (λ mov d₂.
            Holds-require P (is_trunc reg_si mov.1) _ (λ h₃.
              Holds-bind P (fd_decode (drop (first.size + lea.1.size + mov.1.size) buf)) _
                (λ lea₂ d₃. Holds-require P (is_rebase reg_si lea₂.1) _ (λ h₄.
                  Holds-bind P
                    (fd_decode (drop (first.size + lea.1.size + mov.1.size + lea₂.1.size) buf)) _
                    (λ movs d₄. Holds-require P (is movs.1.type "FDI_MOVS") _ (λ s. Holds-some P _ (
                      two_strings lea mov lea₂ movs d₁ d₂ d₃ d₄
                        (inl ((eq_iff movs.1.type "FDI_MOVS").0 s))
                        (plain (first.size + lea.1.size + mov.1.size + lea₂.1.size) movs.0 movs.1
                          d₄)
                        (two lea.1 mov.1 lea₂.1 (plain first.size lea.0 lea.1 d₁).addrsize
                          (plain (first.size + lea.1.size + mov.1.size) lea₂.0 lea₂.1 d₃).addrsize
                          h₁ h₂ h₃ h₄)))))))))))

  pub cmps-Confined : Holds P (macroinst_cmps fd_decode v first buf)
  unfolding macroinst_cmps
  cmps-Confined = Holds-require P (is_trunc reg_di first) _ (λ h₁.
      Holds-bind P (fd_decode (drop first.size buf)) _ (λ lea d₁.
        Holds-require P (is_rebase reg_di lea.1) _ (λ h₂.
          Holds-bind P (fd_decode (drop (first.size + lea.1.size) buf)) _ (λ mov d₂.
            Holds-require P (is_trunc reg_si mov.1) _ (λ h₃.
              Holds-bind P (fd_decode (drop (first.size + lea.1.size + mov.1.size) buf)) _
                (λ lea₂ d₃. Holds-require P (is_rebase reg_si lea₂.1) _ (λ h₄.
                  Holds-bind P
                    (fd_decode (drop (first.size + lea.1.size + mov.1.size + lea₂.1.size) buf)) _
                    (λ cmps d₄. Holds-require P (is cmps.1.type "FDI_CMPS") _ (λ s. Holds-some P _ (
                      two_strings lea mov lea₂ cmps d₁ d₂ d₃ d₄
                        (inr ((eq_iff cmps.1.type "FDI_CMPS").0 s))
                        (plain (first.size + lea.1.size + mov.1.size + lea₂.1.size) cmps.0 cmps.1
                          d₄)
                        (two lea.1 mov.1 lea₂.1 (plain first.size lea.0 lea.1 d₁).addrsize
                          (plain (first.size + lea.1.size + mov.1.size) lea₂.0 lea₂.1 d₃).addrsize
                          h₁ h₂ h₃ h₄)))))))))))
