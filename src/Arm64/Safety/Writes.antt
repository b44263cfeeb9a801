-- ===== src/Arm64/Safety/Writes.antt =====
-- okmod of src/arm64/verify.c and the loop of vchk over the modified operands against the policy.
use lfi_verifier.Prelude.{
  ℕ, ◌≡◌, ◌↔◌, inl, inr, refl, sym, subst, String, ◌∙◌, false≢true, Bool, true, false, ◌&&◌, ◌||◌,
  arith, ◌==◌, Bool-cases, if◌then◌else◌,
}
use lfi_verifier.Options.{Options}
use lfi_verifier.Arm64.Inst.{Op, Inst, is_regsp}
use lfi_verifier.Arm64.State.{Verifier, verr, set_guarded}
use lfi_verifier.Arm64.Regs.{cfreg, retreg, fixedreg, addrreg}
use lfi_verifier.Arm64.Check.{for_ops, is_gp, is_addr_guard, okmod, chkmod_op}
use lfi_verifier.Arm64.Verify.{chkmods}
use lfi_verifier.Arm64.Passes.{
  Passes, skip-Keeps, verr-Keeps, Passes-iff, Passes-trans, EachOp, for_ops-Passes,
}
use lfi_verifier.Arm64.Policy.{
  IsFixed, base, context, WriteOk, no_register, free, guarded, names_x30, guards, modified,
  WritesOk, written, guard_next,
}
use lfi_verifier.Arm64.Safety.Operands.{fixedreg_iff}

not-fixed_x30 : (opts : Options) (r : ℕ) → r ≡ 30 → fixedreg opts r ≡ false
not-fixed_x30 opts r e = elim (Bool-cases (fixedreg opts r)) [
  | inr f ↦ f
  | inl f ↦ absurd (no_x30 ((fixedreg_iff opts r).0 f))
]
  where
    no_x30 : ¬ IsFixed opts r
    no_x30 (base b) = omega arith
    no_x30 (context _ b) = omega arith

okmod_state :
    (dinst : Inst) (op : Op) (v : Verifier)
    → (okmod dinst op v).1 ≡ (if names_x30 op then set_guarded (guards dinst) v else v)
unfolding okmod retreg addrreg cfreg
okmod_state dinst op v = ground (arith, not-fixed_x30 v.opts op.reg)

module _ (dinst : Inst) (op : Op) (v : Verifier) where
  to_ok : (okmod dinst op v).0 ≡ true → WriteOk v.opts dinst op
  unfolding okmod retreg addrreg cfreg
  to_ok h = elim (Bool-cases (is_gp op.type)) [
    | inr g ↦ no_register g
    | inl g ↦ elim (Bool-cases (fixedreg v.opts op.reg)) [
      | inl f ↦ absurd (ground arith)
      | inr f ↦
          let n : ¬ IsFixed v.opts op.reg =
            λ x. false≢true (sym f ∙ (fixedreg_iff v.opts op.reg).1 x) in
          elim (Bool-cases (is_addr_guard dinst)) [
            | inl a ↦ guarded n a
            | inr a ↦ free n (ground arith) (λ t. ground arith)
          ]
    ]
  ]

  unfixed : ¬ IsFixed v.opts op.reg → fixedreg v.opts op.reg ≡ false
  unfixed n = elim (Bool-cases (fixedreg v.opts op.reg)) [
    | inl f ↦ absurd (n ((fixedreg_iff v.opts op.reg).0 f))
    | inr f ↦ f
  ]

  of_ok : WriteOk v.opts dinst op → (okmod dinst op v).0 ≡ true
  unfolding okmod retreg addrreg cfreg
  of_ok (no_register g) = ground arith
  of_ok (guarded n a) = ground (arith, unfixed n)
  of_ok (free n a s) = ground (arith, unfixed n, stack_ok)
    where
      stack_ok : (is_regsp op.type && op.reg == 31) ≡ false
      stack_ok = elim (Bool-cases (is_regsp op.type)) [
        | inr t ↦ rw t
        | inl t ↦ ground (arith, s (ground arith))
      ]

  pub okmod_iff : ((okmod dinst op v).0 ≡ true) ↔ WriteOk v.opts dinst op
  okmod_iff = (to_ok, of_ok)

-- The guard after a round.
abbrev guard_after : Inst → ℕ → ℕ → Bool → Bool
guard_after dinst mask i g = if written dinst mask i then guards dinst else g

set-Passes :
    (b : Bool) (dinst : Inst) (v : Verifier)
    → Passes
        (Unit {0})
        (if b then guards dinst else v.x30_guarded)
        v
        (if b then set_guarded (guards dinst) v else v)
unfolding set_guarded
set-Passes b dinst v = ground arith

verr-set :
    (b : Bool) (dinst : Inst) (m : String) (v w : Verifier) {g : Bool}
    → Passes (Unit {0}) g v w
    → Passes ⊥ g v (verr dinst m w)
verr-set b dinst m v w {g = g} k =
    Passes-iff (λ t. t.1, absurd)
      (subst (λ x. Passes (Unit {0} × ⊥) x v (verr dinst m w)) k.guard
        (Passes-trans k (verr-Keeps dinst m w)))

chkmod_op-Passes :
    (dinst : Inst) (mask i : ℕ) (v : Verifier)
    → Passes
        (WritesOk v.opts dinst mask i)
        (guard_after dinst mask i v.x30_guarded)
        v
        (chkmod_op dinst mask i v)
unfolding chkmod_op
chkmod_op-Passes dinst mask i v = elim (Bool-cases (modified mask i)) [
  | inr e ↦ rw e (Passes-iff (λ _ f. absurd (false≢true f), λ _. tt) (skip-Keeps v))
  | inl e ↦
      let st =
        subst
          (Passes (Unit {0}) (if names_x30 (dinst.ops i) then guards dinst else v.x30_guarded) v)
          (sym (okmod_state dinst (dinst.ops i) v))
          (set-Passes (names_x30 (dinst.ops i)) dinst v) in
      rw e (elim (Bool-cases (okmod dinst (dinst.ops i) v).0) [
        | inl k ↦ rw k (Passes-iff (λ _ _. to_ok dinst (dinst.ops i) v k, λ _. tt) st)
        | inr k ↦ rw k (
            Passes-iff (absurd, λ w. false≢true (sym k ∙ of_ok dinst (dinst.ops i) v (w refl)))
              (verr-set true dinst _ v _ st))
      ])
]

-- The rounds together step the guard as the policy says.
any_of :
    (a b c d e g h : Bool)
    → (if e then h else if d then h else if c then h else if b then h else if a then h else g)
      ≡ (if a || (b || (c || (d || e))) then h else g)
any_of a b c d e g h = ground arith

guard_rounds :
    (dinst : Inst) (mask : ℕ) (g : Bool)
    → for_ops (guard_after dinst mask) g ≡ guard_next dinst mask g
unfolding for_ops
guard_rounds dinst mask g =
    any_of (written dinst mask 0) (written dinst mask 1) (written dinst mask 2)
      (written dinst mask 3) (written dinst mask 4) g (guards dinst)

-- The loop over the modified operands leaves the verifier unfailed exactly if it was and the policy
-- allows each write; it takes the guard of x30 to what the writes leave, and keeps the options and the
-- address.
pub chkmods-Passes :
    (dinst : Inst) (mask : ℕ) (v : Verifier)
    → Passes
        (EachOp (WritesOk v.opts dinst mask))
        (guard_next dinst mask v.x30_guarded)
        v
        (chkmods dinst mask v)
unfolding chkmods
chkmods-Passes dinst mask v =
    subst (λ g. Passes (EachOp (WritesOk v.opts dinst mask)) g v (for_ops (chkmod_op dinst mask) v))
      (guard_rounds dinst mask v.x30_guarded)
      (for_ops-Passes (λ o i. WritesOk o dinst mask i) (λ _ i. guard_after dinst mask i)
        (chkmod_op dinst mask) (chkmod_op-Passes dinst mask) v)
