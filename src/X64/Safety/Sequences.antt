-- ===== src/X64/Safety/Sequences.antt =====
-- The sequences of src/x64/macroinst.c against their effects.
use lfi_verifier.Prelude.{
  ℕ, ◌+◌, ◌^◌, ◌<◌, ◌≡◌, inl, inr, refl, sym, subst, ◌∙◌, true, false, ◌||◌, some, one_of, [], ◌∷◌,
  List, drop, eq_iff, Bool-cases, arith, Holds, Holds-some, Holds-bind, Holds-require,
}
use lfi_verifier.X64.Inst.{Reg, reg_sp, reg_r14, Inst, Decoder, is_reg, is_mem, reg_eq_iff}
use lfi_verifier.X64.State.{Verifier}
use lfi_verifier.X64.Check.{reserved}
use lfi_verifier.X64.Macro.{
  MacroInst, macroinst_load, macroinst_modsp, is_add_base, is_self_mov, is_index_load, is_sp_mnem,
  is_esp_op, is_lea_base,
}
use lfi_verifier.X64.Machine.{part, step, IsOr, IsSandbox, Near, NoPrefix, MachineLaws}
use lfi_verifier.X64.Confined.{IsConfined, load, sets_sp}
use lfi_verifier.X64.Safety.Steps.{self_mov_parts}
use lfi_verifier.X64.Safety.Effects.{
  Sets, step-Sets, self_mov-Sets, esp-Sets, add_base-Sets, lea_base-Sets,
}
use lfi_verifier.X64.Safety.Confined.{address_lem, disp-Near}
use lfi_verifier.X64.Safety.Unreserved.{IsFree, Sets-IsReady, part-le, unreserved-IsFree}

module _ (fd_decode : Decoder) (laws : MachineLaws fd_decode) (or : ℕ → ℕ → ℕ) (law : IsOr or)
    (base : ℕ) (sandbox : IsSandbox base) (v : Verifier) (first : Inst) (buf : List ℕ) (n : ℕ)
    (e : fd_decode buf ≡ some (n, first)) (plain : NoPrefix fd_decode buf) where
  abbrev P : MacroInst → Type 0
  P m = IsConfined fd_decode or base v.addr v.bundlesize first buf m

  load_parts :
      (r : Reg) (i : Inst)
      → is_index_load v r i ≡ true
      → (i.type ≡ "FDI_MOV")
        × (is_reg (i.op 0).op_type ≡ true)
        × (reserved v.opts i 0 ≡ false)
        × (is_mem (i.op 1).op_type ≡ true)
        × ((i.op 1).base ≡ reg_r14)
        × ((i.op 1).index ≡ r)
        × ((i.op 1).scale ≡ 0)
  unfolding is_index_load
  load_parts r i h = (
    (eq_iff i.type "FDI_MOV").0 (ground arith),
    ground arith,
    ground arith,
    ground arith,
    (reg_eq_iff _ _).0 (ground arith),
    (reg_eq_iff _ _).0 (ground arith),
    ground arith,
  )

  self_mov-IsFree : is_self_mov v first ≡ true → IsFree (first.op 0).reg
  unfolding is_self_mov
  self_mov-IsFree h =
      let (t, _, _, _, r) = self_mov_parts or 0 first (λ _. 0) v h in
      unreserved-IsFree fd_decode laws v.opts buf n first e (inr t) (ground arith) r

  pub load-Confined : Holds P (macroinst_load fd_decode v first buf)
  unfolding macroinst_load
  load-Confined = Holds-require P (is_self_mov v first) _ (λ h.
      Holds-bind P (fd_decode (drop first.size buf)) _ (λ i d.
        Holds-require P (is_index_load v (first.op 0).reg i.1) _ (λ h₁. Holds-some P _ (
          let r = (first.op 0).reg in
          let (t, dest, free, m, b, x, c) = load_parts r i.1 h₁ in
          let plain_load = plain first.size i.0 i.1 d in
          load i d t plain_load (λ o o' regs ready.
            let regs₁ = step or o first regs in
            let s = self_mov-Sets or o first regs v h in
            let ready₁ = Sets-IsReady s (self_mov-IsFree h) ready in
            let below : part regs₁ r < 2 ^ 32 = omega (arith, part-le regs₁ r, s.value) in
            let near =
              disp-Near base (part regs₁ r) (i.1.op 1).disp sandbox below
                (laws.disp (drop first.size buf) i.0 i.1 1 d m (λ e. cc (sym b ∙ e))) in
            let free' =
              unreserved-IsFree fd_decode laws v.opts (drop first.size buf) i.0 i.1 d (inr t) dest
                free in
            (
              subst (Near base)
                  (sym
                    (address_lem base regs₁ i.1 (i.1.op 1) r plain_load.addrsize ready₁.r14 b x c))
                  near,
              Sets-IsReady (step-Sets or o' i.1 regs₁ _ refl refl) free' ready₁,
            ))))))

  sp_mnem_lem :
      is_sp_mnem first ≡ true
      → one_of ("FDI_MOV" ∷ "FDI_ADD" ∷ "FDI_AND" ∷ "FDI_SUB" ∷ "FDI_LEA" ∷ []) first.type ≡ true
  unfolding is_sp_mnem
  sp_mnem_lem h = h

  pub modsp-Confined : Holds P (macroinst_modsp fd_decode v first buf)
  unfolding macroinst_modsp
  modsp-Confined = Holds-require P (is_sp_mnem first) _ (λ k.
      Holds-require P (is_esp_op first) _ (λ h.
        Holds-bind P (fd_decode (drop first.size buf)) _ (λ add d₁.
          Holds-require P (is_add_base reg_sp add.1 || is_lea_base add.1) _ (λ h₁. Holds-some P _ (
            sets_sp add (sp_mnem_lem k) d₁ (λ o o' regs ready.
              let (x, l, s) = esp-Sets or o first regs h in
              let regs₁ = step or o first regs in
              let r14 : regs₁ reg_r14 ≡ base = s.others reg_r14 (λ e. cc) ∙ ready.r14 in
              let below : regs₁ reg_sp < 2 ^ 32 = omega (arith, s.value, l) in
              let s₁ : Sets reg_sp (base + regs₁ reg_sp) regs₁ (step or o' add.1 regs₁) =
                elim (Bool-cases (is_add_base reg_sp add.1)) [
                  | inl t ↦ add_base-Sets or o' add.1 regs₁ base sandbox r14 law reg_sp t below
                  | inr t ↦
                      lea_base-Sets or o' add.1 regs₁ base sandbox r14
                        (plain first.size add.0 add.1 d₁).addrsize (ground arith) below
                ] in
              record {
                r14 = s₁.others reg_r14 (λ e. cc) ∙ r14;
                sp = (omega (arith, s₁.value), omega (arith, s₁.value, below));
              }))))))
