-- ===== src/X64/Safety/Logs.antt =====
-- The reports of verr and verrmin of src/x64/verify.c, and of the checks on one instruction.
use lfi_verifier.Prelude.{
  ℕ, ◌≡◌, refl, sym, ◌∙◌, Bool, true, false, not, ◌&&◌, ◌||◌, some, String, Option, ap, is, leb,
  false≢true, any_entry, if-either,
}
use lfi_verifier.Options.{Options, is_stores}
use lfi_verifier.X64.Inst.{Inst, Segment, seg_gs, seg_fs, seg_other, is_mem, reg_eq, reg_r15}
use lfi_verifier.X64.State.{Verifier, verr, verr_if, verrmin}
use lfi_verifier.X64.Check.{
  for_ops, chkmem, chkmem_op, chkmem_seg, chkmem_ctx, chkmem_base, chkmod, chkmod_op, chkbranch,
  branchinfo, nmod,
}
use lfi_verifier.X64.Verify.{chk_single}

pub verrmin_failed : (i : Option Inst) (m : String) (v : Verifier) → (verrmin i m v).failed ≡ true
unfolding verrmin
verrmin_failed i m v =
    if-either {A = Verifier} (λ w. w.failed ≡ true) v.opts.err (λ _. refl) (λ _. refl)

module _ (opts : Options) (err : opts.err ≡ true) where
  -- With `err` set, the verifier has failed exactly if it has reported.
  pub record Logged (v : Verifier) : Type 0 where
    pub same : v.opts ≡ opts
    pub aborts : v.aborted ≡ true → v.failed ≡ true
    pub logs : v.failed ≡ any_entry v.reports

  pub verrmin-Logged :
      (i : Option Inst) (m : String) (v : Verifier) → Logged v → Logged (verrmin i m v)
  unfolding verrmin
  verrmin-Logged i m v h =
      if-either Logged v.opts.err (λ _. record { same = h.same; aborts = λ _. refl; logs = refl })
        (λ e. absurd (false≢true (sym e ∙ ap (λ o. o.err) h.same ∙ err)))

  verr_if-Logged :
      (b : Bool) (i : Inst) (m : String) (v : Verifier) → Logged v → Logged (verr_if b i m v)
  unfolding verr_if verr
  verr_if-Logged true i m v h = verrmin-Logged (some i) m v h
  verr_if-Logged false i m v h = h

  for_ops-Logged :
      (body : ℕ → Verifier → Verifier)
      → ((k : ℕ) (v : Verifier) → Logged v → Logged (body k v))
      → (v : Verifier) → Logged v
      → Logged (for_ops body v)
  unfolding for_ops
  for_ops-Logged body keeps v h =
      keeps 3 (body 2 (body 1 (body 0 v)))
        (keeps 2 (body 1 (body 0 v)) (keeps 1 (body 0 v) (keeps 0 v h)))

  chkmem_ctx-Logged : (i : Inst) (k : ℕ) (v : Verifier) → Logged v → Logged (chkmem_ctx i k v)
  unfolding chkmem_ctx
  chkmem_ctx-Logged i k v h = search verr_if-Logged

  chkmem_base-Logged : (i : Inst) (k : ℕ) (v : Verifier) → Logged v → Logged (chkmem_base i k v)
  unfolding chkmem_base
  chkmem_base-Logged i k v h = search verr_if-Logged

  chkmem_seg-Logged :
      (s : Segment) (i : Inst) (k : ℕ) (v : Verifier) → Logged v → Logged (chkmem_seg s i k v)
  unfolding chkmem_seg verr
  chkmem_seg-Logged seg_gs i k v h = verr_if-Logged _ i _ v h
  chkmem_seg-Logged seg_fs i k v h = verrmin-Logged (some i) _ v h
  chkmem_seg-Logged seg_other i k v h =
      if-either Logged (v.opts.ctxreg && reg_eq (i.op k).base reg_r15)
        (λ _. chkmem_ctx-Logged i k _ (verr_if-Logged _ i _ v h))
        (λ _. chkmem_base-Logged i k _ (verr_if-Logged _ i _ v h))

  chkmem-Logged : (i : Inst) (v : Verifier) → Logged v → Logged (chkmem i v)
  unfolding chkmem chkmem_op
  chkmem-Logged i v h =
      if-either Logged (is i.type "FDI_LEA" || is i.type "FDI_NOP") (λ _. h)
        (λ _.
          for_ops-Logged (chkmem_op i)
            (λ k w l.
              if-either Logged (not (is_mem (i.op k).op_type)) (λ _. l)
                (λ _.
                  if-either Logged (is_stores w.opts.box && leb (nmod i) k) (λ _. l)
                    (λ _. chkmem_seg-Logged i.segment i k w l)))
            v h)

  chkmod-Logged : (i : Inst) (v : Verifier) → Logged v → Logged (chkmod i v)
  unfolding chkmod chkmod_op
  chkmod-Logged i v h =
      if-either Logged (is i.type "FDI_NOP") (λ _. h)
        (λ _. for_ops-Logged (chkmod_op i) (λ k w l. verr_if-Logged _ i _ w l) v h)

  chkbranch-Logged : (i : Inst) (v : Verifier) → Logged v → Logged (chkbranch i v)
  unfolding chkbranch verr
  chkbranch-Logged i v h =
      let info = branchinfo v.addr i in
      if-either Logged (info.branch && not info.indirect) (λ _. verr_if-Logged _ i _ v h)
        (λ _.
          if-either Logged (info.branch && info.indirect) (λ _. verrmin-Logged (some i) _ v h)
            (λ _. h))

  pub chk_single-Logged : (i : Inst) (v : Verifier) → Logged v → Logged (chk_single i v)
  unfolding chk_single
  chk_single-Logged i v h =
      chkmod-Logged i _ (chkmem-Logged i _ (chkbranch-Logged i _ (verr_if-Logged _ i _ v h)))
