-- ===== src/X64/Safety/Unit.antt =====
-- One round of vchkbundle of src/x64/verify.c: a macro, or an instruction after its checks.
use lfi_verifier.Prelude.{
  ℕ, ◌<◌, ◌≡◌, inl, inr, refl, ◌↔◌, sym, ◌∙◌, subst, Option, none, some, List, arith, ltb,
  Bool-cases, Option-cases,
}
use lfi_verifier.X64.Inst.{Inst, Decoder}
use lfi_verifier.X64.State.{Verifier}
use lfi_verifier.X64.Macro.{
  is_self_mov, is_index_load, ok_return, MacroInst, or_next, macroinst, macroinst_load,
  macroinst_jmp, macroinst_call, macroinst_modsp, macroinst_stos, macroinst_movs, macroinst_cmps,
  macroinst_rtcall, is_mask,
}
use lfi_verifier.X64.Verify.{initial, chk_single, chk_inst}
use lfi_verifier.X64.Passes.{Passes, skip-Passes, Passes-iff}
use lfi_verifier.X64.Policy.{SafeInst}
use lfi_verifier.X64.Layout.{UnitOk, macro, single}
use lfi_verifier.X64.Safety.Single.{chk_single-Passes}

or_next_pos :
    (a b : Option MacroInst) {m : MacroInst}
    → ((m' : MacroInst) → b ≡ some m' → 0 < m'.size)
    → or_next a b ≡ some m
    → 0 < m.size
unfolding or_next
or_next_pos none b k h = k _ h
or_next_pos (some a) b k h = elim (Bool-cases (ltb 0 a.size)) [
  | inl t ↦ ground arith
  | inr t ↦ k _ (rw t at h)
]

module _ (fd_decode : Decoder) where
  -- A macro is never empty.
  pub macroinst_pos :
      (v : Verifier) (first : Inst) (buf : List ℕ) (m : MacroInst)
      → macroinst fd_decode v first buf ≡ some m
      → 0 < m.size
  unfolding macroinst
  macroinst_pos v first buf m h =
      or_next_pos (macroinst_load fd_decode v first buf) _
        (λ m h.
          or_next_pos (macroinst_jmp fd_decode v first buf) _
            (λ m h.
              or_next_pos (macroinst_call fd_decode v first buf) _
                (λ m h.
                  or_next_pos (macroinst_modsp fd_decode v first buf) _
                    (λ m h.
                      or_next_pos (macroinst_stos fd_decode v first buf) _
                        (λ m h.
                          or_next_pos (macroinst_movs fd_decode v first buf) _
                            (λ m h.
                              or_next_pos (macroinst_cmps fd_decode v first buf) _
                                (λ m h.
                                  or_next_pos (macroinst_rtcall fd_decode v first buf) none
                                    (λ m h. cc) h)
                                h)
                            h)
                        h)
                    h)
                h)
            h)
        h

  -- The macros read only the options, the address and the bundle size of the verifier.
  pub macroinst_view :
      (v : Verifier) (first : Inst) (buf : List ℕ)
      → v.bundlesize ≡ 32
      → macroinst fd_decode v first buf ≡ macroinst fd_decode (initial v.addr v.opts) first buf
  unfolding is_self_mov is_index_load ok_return macroinst macroinst_load macroinst_jmp
      macroinst_call macroinst_modsp macroinst_stos macroinst_movs macroinst_cmps macroinst_rtcall
      is_mask
  macroinst_view v first buf e =
      subst
        (λ b.
          macroinst fd_decode v first buf
          ≡ macroinst fd_decode (record (initial v.addr v.opts) { bundlesize = b }) first buf)
        e refl

  UnitOk-single_iff :
      (v : Verifier) (instr : Inst) (rest : List ℕ) (ret : ℕ)
      → v.bundlesize ≡ 32
      → macroinst fd_decode v instr rest ≡ none
      → SafeInst v.opts v.addr v.bundlesize instr
        ↔ UnitOk fd_decode v.opts v.addr rest ret instr (record { size = ret; ninstr = 1 })
  UnitOk-single_iff v instr rest ret b e = (
    λ s.
        single (sym (macroinst_view v instr rest b) ∙ e) refl
          (subst (λ n. SafeInst v.opts v.addr n instr) b s),
    λ u. subst (λ n. SafeInst v.opts v.addr n instr) (sym b) (safe u),
  )
    where
      safe :
          {m : MacroInst}
          → UnitOk fd_decode v.opts v.addr rest ret instr m
          → SafeInst v.opts v.addr 32 instr
      safe (macro h) = absurd (cc (e, macroinst_view v instr rest b))
      safe (single _ _ s) = s

  module _ (ret : ℕ) (instr : Inst) (rest : List ℕ) (v : Verifier) where
    pub chk_inst-none :
        macroinst fd_decode v instr rest ≡ none
        → chk_inst fd_decode ret instr rest v
          ≡ (record { size = ret; ninstr = 1 }, chk_single instr v)
    unfolding chk_inst
    chk_inst-none e = rw (e, chk_inst)

    pub chk_inst-some :
        (m : MacroInst)
        → macroinst fd_decode v instr rest ≡ some m
        → chk_inst fd_decode ret instr rest v ≡ (m, v)
    unfolding chk_inst
    chk_inst-some m e = rw (e, chk_inst)

    -- A unit passes exactly if it is allowed.
    pub chk_inst-Passes :
        v.bundlesize ≡ 32
        → Passes
            (UnitOk fd_decode v.opts v.addr rest ret instr (chk_inst fd_decode ret instr rest v).0)
            v
            (chk_inst fd_decode ret instr rest v).1
    chk_inst-Passes b = elim (Option-cases (macroinst fd_decode v instr rest)) [
      | inl e ↦
          rw (chk_inst-none e)
            (Passes-iff (UnitOk-single_iff v instr rest ret b e) (chk_single-Passes instr v))
      | inr (m, e) ↦ rw (chk_inst-some m e) (
          Passes-iff (λ _. macro (sym (macroinst_view v instr rest b) ∙ e), λ _. tt)
            (skip-Passes v))
    ]

    -- Which unit starts at an offset is determined.
    pub UnitOk-unique :
        {m : MacroInst}
        → v.bundlesize ≡ 32
        → UnitOk fd_decode v.opts v.addr rest ret instr m
        → m ≡ (chk_inst fd_decode ret instr rest v).0
    UnitOk-unique {m = m} b (macro h) = rw (chk_inst-some m (macroinst_view v instr rest b ∙ h))
    UnitOk-unique b (single h e _) = rw (chk_inst-none (macroinst_view v instr rest b ∙ h)) e

    pub chk_inst_pos : 0 < ret → 0 < (chk_inst fd_decode ret instr rest v).0.size
    chk_inst_pos h = elim (Option-cases (macroinst fd_decode v instr rest)) [
      | inl e ↦ rw (chk_inst-none e) h
      | inr (m, e) ↦ rw (chk_inst-some m e) (macroinst_pos v instr rest m e)
    ]
