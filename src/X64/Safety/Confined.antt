-- ===== src/X64/Safety/Confined.antt =====
-- The sequences of src/x64/macroinst.c keep a machine in its sandbox.
use lfi_verifier.Prelude.{
  ℕ, ◌+◌, ◌^◌, ◌<◌, ◌≡◌, ◌≢◌, inl, inr, ap, ◌∙◌, true, String, arith, add64, eq_iff,
}
use lfi_verifier.X64.Inst.{Reg, reg_si, reg_di, reg_r11, reg_r14, Inst, Operand, reg_eq_iff}
use lfi_verifier.X64.State.{Verifier}
use lfi_verifier.X64.Macro.{is_trunc, is_rebase, is_mask, is_add_base, is_through}
use lfi_verifier.X64.Machine.{
  Registers, address, part, step, IsOr, IsSandbox, Inside, Near, IsReady, IsDisp,
}
use lfi_verifier.X64.Confined.{Masks, IsThrough}
use lfi_verifier.X64.Safety.Effects.{mask-Sets, trunc-Sets, add_base-Sets, rebase-Sets}
use lfi_verifier.X64.Safety.Unreserved.{IsFree, Sets-IsReady}

pub through_reg :
    (name : String) (r : Reg) (i : Inst) → is_through name r i ≡ true → (i.op 0).reg ≡ r
unfolding is_through
through_reg name r i h = (reg_eq_iff _ _).0 (ground arith)

pub is_through-IsThrough :
    (name : String) (r : Reg) (i : Inst) → is_through name r i ≡ true → IsThrough name i
unfolding is_through
is_through-IsThrough name r i h = ((eq_iff i.type name).0 (ground arith), ground arith)

pub di-IsFree : IsFree reg_di
di-IsFree = (λ e. cc, λ e. cc)

pub si-IsFree : IsFree reg_si
si-IsFree = (λ e. cc, λ e. cc)

pub r11-IsFree : IsFree reg_r11
r11-IsFree = (λ e. cc, λ e. cc)

-- The address of an operand with the base of the sandbox and an index that is not scaled.
pub address_lem :
    (base : ℕ) (regs : Registers) (i : Inst) (op : Operand) (r : Reg)
    → i.addrsize ≡ 8
    → regs reg_r14 ≡ base
    → op.base ≡ reg_r14
    → op.index ≡ r
    → op.scale ≡ 0
    → address regs i op ≡ add64 (base + part regs r) op.disp
unfolding address add64
address_lem base regs i op r a r14 b x c = rw (a, b, x, c) (omega arith)

-- A displacement reaches no further than the room around the sandbox.
pub disp-Near :
    (base x d : ℕ) → IsSandbox base → x < 2 ^ 32 → IsDisp d → Near base (add64 (base + x) d)
unfolding add64
disp-Near base x d sandbox l (inl small) =
    let above = sandbox.room_above in (omega arith, omega arith)
disp-Near base x d sandbox l (inr (negative, fits)) =
    let below = sandbox.room_below in let above = sandbox.room_above in (omega arith, omega arith)

module _ (or : ℕ → ℕ → ℕ) (law : IsOr or) (base : ℕ) (sandbox : IsSandbox base) where
  -- The mask and the addition give a branch its target.
  pub masks :
      (v : Verifier) (first add jmp : Inst)
      → IsFree (first.op 0).reg
      → is_mask v first ≡ true
      → is_add_base (first.op 0).reg add ≡ true
      → (jmp.op 0).reg ≡ (first.op 0).reg
      → Masks or base first add jmp
  masks v first add jmp free h h₁ e o o' regs ready =
      let r = (first.op 0).reg in
      let s = mask-Sets or o first regs v h in
      let ready₁ = Sets-IsReady s free ready in
      let below : step or o first regs r < 2 ^ 32 = omega (arith, s.value) in
      let s₁ =
        add_base-Sets or o' add (step or o first regs) base sandbox ready₁.r14 law r h₁ below in
      let t = ap (step or o' add (step or o first regs)) e ∙ s₁.value in
      let aligned = sandbox.aligned in
      record {
        ready = Sets-IsReady s₁ free ready₁;
        inside = (omega (arith, t), omega (arith, t, below));
        aligned = omega (arith, t, s.value, aligned);
      }

  -- The truncation and the addition point a string register into the sandbox.
  pub points :
      (q : Reg) (mov lea : Inst)
      → IsFree q
      → ((regs : Registers) → part regs q ≡ regs q)
      → lea.addrsize ≡ 8
      → is_trunc q mov ≡ true
      → is_rebase q lea ≡ true
      → (o o' : ℕ) (regs : Registers) → IsReady base regs
      → let regs' = step or o' lea (step or o mov regs) in
        IsReady base regs' × Inside base (regs' q) × ((p : Reg) → p ≢ q → regs' p ≡ regs p)
  points q mov lea free present a h h₁ o o' regs ready =
      let s = trunc-Sets or o mov regs q h in
      let ready₁ = Sets-IsReady s free ready in
      let regs₁ = step or o mov regs in
      let below : regs₁ q < 2 ^ 32 = omega (arith, s.value) in
      let s₁ = rebase-Sets or o' lea regs₁ base sandbox ready₁.r14 q (present regs₁) a h₁ below in
      (
        Sets-IsReady s₁ free ready₁,
        (omega (arith, s₁.value), omega (arith, s₁.value, below)),
        λ p n. s₁.others p n ∙ s.others p n,
      )
