-- ===== src/Arm64/Safety/Logs.antt =====
-- The reports of verr and verrmin of src/arm64/verify.c, and of vchk and the checks that it makes.
use lfi_verifier.Prelude.{
  ℕ, ◌/◌, ◌%◌, ◌^◌, ◌≡◌, inl, inr, refl, sym, ap, ◌∙◌, Bool, true, false, not, ◌==◌, some, String,
  Option, ◌∷◌, if◌then◌else◌, if-either, any_entry, false≢true, Holds, Holds-some, Holds-bind,
  Holds-require, require, ◌>>◌, Option-cases,
}
use lfi_verifier.Options.{Options}
use lfi_verifier.Arm64.Inst.{Inst, Group, Disarm, Op, is_regsp}
use lfi_verifier.Arm64.State.{Verifier, verr, verr_if, verrmin, set_guarded}
use lfi_verifier.Arm64.Regs.{fixedreg, addrreg, retreg}
use lfi_verifier.Arm64.Check.{
  chk_indirect, chk_direct, chkbranch, chksys, for_ops, chkmem_op, chkmemops, is_gp, okmod,
  chkmod_op, chkwriteback, writeback_reg, overwrites,
}
use lfi_verifier.Arm64.Verify.{chkmods, chk_writes, chk_inst, vchk}

module _ (opts : Options) (err : opts.err ≡ true) where
  -- With `err` set, the verifier has failed exactly if it has reported.
  pub record Logged (v : Verifier) : Type 0 where
    pub same : v.opts ≡ opts
    pub logs : v.failed ≡ any_entry v.reports

  pub verrmin-Logged :
      (i : Option Inst) (m : String) (v : Verifier) → Logged v → Logged (verrmin i m v)
  unfolding verrmin
  verrmin-Logged i m v h =
      if-either Logged v.opts.err
        {x = record v {
          failed = true;
          reports = record { at = v.addr; inst = i; msg = m } ∷ v.reports;
        }}
        {y = record v { failed = true }} (λ _. record { same = h.same; logs = refl })
        (λ e. absurd (false≢true (sym e ∙ ap (λ o. o.err) h.same ∙ err)))

  verr-Logged : (i : Inst) (m : String) (v : Verifier) → Logged v → Logged (verr i m v)
  unfolding verr
  verr-Logged i m v h = verrmin-Logged (some i) m v h

  verr_if-Logged :
      (b : Bool) (i : Inst) (m : String) (v : Verifier) → Logged v → Logged (verr_if b i m v)
  unfolding verr_if
  verr_if-Logged true i m v h = verrmin-Logged (some i) m v h
  verr_if-Logged false i m v h = h

  set_guarded-Logged : (b : Bool) (v : Verifier) → Logged v → Logged (set_guarded b v)
  unfolding set_guarded
  set_guarded-Logged b v h = record { same = h.same; logs = h.logs }

  abbrev pub IsLogged : Option Verifier → Type 0
  IsLogged o = Holds Logged o

  done : (v : Verifier) → Logged v → IsLogged (some v)
  done v h = Holds-some Logged v h

  if-IsLogged :
      (b : Bool) (m n : Option Verifier) → IsLogged m → IsLogged n → IsLogged (if b then m else n)
  if-IsLogged b m n h k = if-either IsLogged b (λ _. h) (λ _. k)

  require-IsLogged : (b : Bool) (m : Option Verifier) → IsLogged m → IsLogged (require b >> m)
  require-IsLogged b m h = Holds-require Logged b m (λ _. h)

  chk_indirect-IsLogged : (i : Inst) (v : Verifier) → Logged v → IsLogged (chk_indirect i v)
  unfolding chk_indirect
  chk_indirect-IsLogged i v h = search (require-IsLogged, done, verr_if-Logged)

  chk_direct-IsLogged :
      (g : Group) (i : Inst) (v : Verifier) → Logged v → IsLogged (chk_direct g i v)
  unfolding chk_direct
  chk_direct-IsLogged g i v h = search (require-IsLogged, done, verr_if-Logged)

  chkbranch-IsLogged : (g : Group) (i : Inst) (v : Verifier) → Logged v → IsLogged (chkbranch g i v)
  unfolding chkbranch
  chkbranch-IsLogged g i v h =
      search (if-IsLogged, done, verr-Logged, chk_indirect-IsLogged, chk_direct-IsLogged)

  chksys-IsLogged : (i : Inst) (v : Verifier) → Logged v → IsLogged (chksys i v)
  unfolding chksys
  chksys-IsLogged i v h =
      search (if-IsLogged, require-IsLogged, done, verr-Logged, verr_if-Logged) depth 12

  chkmem_op-Logged :
      (i : Inst) (load : Bool) (k : ℕ) (v : Verifier) → Logged v → Logged (chkmem_op i load k v)
  unfolding chkmem_op
  chkmem_op-Logged i load k v h = search verr_if-Logged

  chkmemops-Logged : (i : Inst) (v : Verifier) → Logged v → Logged (chkmemops i v)
  unfolding chkmemops for_ops
  chkmemops-Logged i v h = search chkmem_op-Logged depth 8

  okmod-Logged : (i : Inst) (op : Op) (v : Verifier) → Logged v → Logged (okmod i op v).1
  unfolding okmod
  okmod-Logged i op v h =
      if-either {A = Bool × Verifier} (λ r. Logged r.1) (not (is_gp op.type)) (λ _. h)
        (λ _.
          if-either {A = Bool × Verifier} (λ r. Logged r.1) (fixedreg v.opts op.reg) (λ _. h)
            (λ _.
              if-either {A = Bool × Verifier} (λ r. Logged r.1)
                (not (addrreg op.reg (is_regsp op.type))) (λ _. h)
                (λ _.
                  if-either {A = Bool × Verifier} (λ r. Logged r.1) (retreg op.reg)
                    (λ _. set_guarded-Logged _ v h) (λ _. h))))

  chkmod_op-Logged :
      (i : Inst) (mask k : ℕ) (v : Verifier) → Logged v → Logged (chkmod_op i mask k v)
  unfolding chkmod_op
  chkmod_op-Logged i mask k v h =
      let r = okmod i (i.ops k) v in
      let h' = okmod-Logged i (i.ops k) v h in
      if-either Logged (mask / 2 ^ k % 2 == 1)
        (λ _. if-either Logged r.0 (λ _. h') (λ _. verr-Logged i _ r.1 h')) (λ _. h)

  chkmods-Logged : (i : Inst) (mask : ℕ) (v : Verifier) → Logged v → Logged (chkmods i mask v)
  unfolding chkmods for_ops
  chkmods-Logged i mask v h = search chkmod_op-Logged

  chkwriteback-Logged : (i : Inst) (v : Verifier) → Logged v → Logged (chkwriteback i v)
  unfolding chkwriteback
  chkwriteback-Logged i v h = elim (Option-cases (writeback_reg i)) [
    | inl e ↦ rw (e, chkwriteback) h
    | inr (m, e) ↦ rw (e, chkwriteback) (verr_if-Logged (overwrites i m) i _ v h)
  ]

  chk_writes-IsLogged :
      (mask : ℕ) (i : Inst) (v : Verifier) → Logged v → IsLogged (chk_writes mask i v)
  unfolding chk_writes
  chk_writes-IsLogged mask i v h =
      search (require-IsLogged, done, chkwriteback-Logged, verr_if-Logged, chkmods-Logged)

  module _ (d : Disarm) where
    open d use {da64_decode, da64_group}

    chk_inst-IsLogged : (i : Inst) (v : Verifier) → Logged v → IsLogged (chk_inst d i v)
    unfolding chk_inst
    chk_inst-IsLogged i v h = Holds-bind Logged _ _ (λ v₁ e₁. Holds-bind Logged _ _ (λ v₂ e₂.
        let h₁ = (chkbranch-IsLogged (da64_group i.mnem) i v h).holds v₁ e₁ in
        let h₂ = (chksys-IsLogged i v₁ h₁).holds v₂ e₂ in
        chk_writes-IsLogged _ i (chkmemops i v₂) (chkmemops-Logged i v₂ h₂)))

    pub vchk-IsLogged : (insn : ℕ) (v : Verifier) → Logged v → IsLogged (vchk d insn v)
    unfolding vchk
    vchk-IsLogged insn v h =
        let i = da64_decode insn in
        search (if-IsLogged, done, verr-Logged, verrmin-Logged, chk_inst-IsLogged)
