-- ===== src/X64/Safety/Macros.antt =====
-- The runs of instructions that src/x64/macroinst.c recognises.
use lfi_verifier.Prelude.{
  ℕ, zero, suc, ◌+◌, ◌%◌, ◌≡◌, inl, inr, refl, subst, true, false, ◌||◌, Option, none, some, List,
  arith, ltb, ◌==◌, is, drop, ◌>>=◌, Holds, Holds-some, Holds-bind, Holds-require, add64,
  if◌then◌else◌, Bool-cases,
}
use lfi_verifier.X64.Inst.{Inst, Decoder, reg_di, reg_si, reg_sp}
use lfi_verifier.X64.State.{Verifier}
use lfi_verifier.X64.Macro.{
  MacroInst, or_next, macroinst, macroinst_load, macroinst_jmp, macroinst_call, macroinst_modsp,
  macroinst_stos, macroinst_movs, macroinst_cmps, macroinst_rtcall, call_loop, is_trunc, is_rebase,
  is_mask, is_add_base, is_through, is_return_lea, is_rtjmp, ok_return, is_self_mov, is_index_load,
  is_sp_mnem, is_esp_op, is_lea_base,
}

-- From the offset `start` to `end` of the buffer, `count` instructions follow one another.
pub data Run (fd_decode : Decoder) (buf : List ℕ) : ℕ → ℕ → ℕ → Type 0 where
  finish : {start end count : ℕ} → start ≡ end → count ≡ 0 → Run fd_decode buf start end count
  next :
      {start end count : ℕ} (p : ℕ × Inst) (mid rest : ℕ)
      → fd_decode (drop start buf) ≡ some p
      → mid ≡ start + p.1.size
      → count ≡ suc rest
      → Run fd_decode buf mid end rest
      → Run fd_decode buf start end count

module _ (fd_decode : Decoder) (v : Verifier) (first : Inst) (buf : List ℕ) (n : ℕ)
    (e : fd_decode buf ≡ some (n, first)) where
  abbrev IsRun : MacroInst → Type 0
  IsRun m = Run fd_decode buf 0 m.size m.ninstr

  start-Run :
      {end count : ℕ} → Run fd_decode buf first.size end count → Run fd_decode buf 0 end (suc count)
  start-Run r = next (n, first) first.size _ e (omega arith) refl r

  step-Run :
      {start end count : ℕ} (p : ℕ × Inst)
      → fd_decode (drop start buf) ≡ some p
      → Run fd_decode buf (start + p.1.size) end count
      → Run fd_decode buf start end (suc count)
  step-Run p d r = next p _ _ d refl refl r

  last-Run :
      {start : ℕ} (p : ℕ × Inst)
      → fd_decode (drop start buf) ≡ some p
      → Run fd_decode buf start (start + p.1.size) 1
  last-Run p d = step-Run p d (finish refl refl)

  stos-Run : Holds IsRun (macroinst_stos fd_decode v first buf)
  unfolding macroinst_stos
  stos-Run = Holds-require IsRun (is_trunc reg_di first) _ (λ _.
      Holds-bind IsRun (fd_decode (drop first.size buf)) _ (λ lea d₁.
        Holds-require IsRun (is_rebase reg_di lea.1) _ (λ _.
          Holds-bind IsRun (fd_decode (drop (first.size + lea.1.size) buf)) _ (λ stos d₂.
            Holds-require IsRun (is stos.1.type "FDI_STOS") _
              (λ _. Holds-some IsRun _ (start-Run (step-Run lea d₁ (last-Run stos d₂))))))))

  movs-Run : Holds IsRun (macroinst_movs fd_decode v first buf)
  unfolding macroinst_movs
  movs-Run = Holds-require IsRun (is_trunc reg_di first) _ (λ _.
      Holds-bind IsRun (fd_decode (drop first.size buf)) _ (λ lea d₁.
        Holds-require IsRun (is_rebase reg_di lea.1) _ (λ _.
          Holds-bind IsRun (fd_decode (drop (first.size + lea.1.size) buf)) _ (λ mov d₂.
            Holds-require IsRun (is_trunc reg_si mov.1) _ (λ _.
              Holds-bind IsRun (fd_decode (drop (first.size + lea.1.size + mov.1.size) buf)) _
                (λ lea₂ d₃. Holds-require IsRun (is_rebase reg_si lea₂.1) _ (λ _.
                  Holds-bind IsRun
                    (fd_decode (drop (first.size + lea.1.size + mov.1.size + lea₂.1.size) buf)) _
                    (λ movs d₄. Holds-require IsRun (is movs.1.type "FDI_MOVS") _ (λ _.
                      Holds-some IsRun _ (
                        start-Run (
                          step-Run lea d₁
                            (step-Run mov d₂ (step-Run lea₂ d₃ (last-Run movs d₄))))))))))))))

  cmps-Run : Holds IsRun (macroinst_cmps fd_decode v first buf)
  unfolding macroinst_cmps
  cmps-Run = Holds-require IsRun (is_trunc reg_di first) _ (λ _.
      Holds-bind IsRun (fd_decode (drop first.size buf)) _ (λ lea d₁.
        Holds-require IsRun (is_rebase reg_di lea.1) _ (λ _.
          Holds-bind IsRun (fd_decode (drop (first.size + lea.1.size) buf)) _ (λ mov d₂.
            Holds-require IsRun (is_trunc reg_si mov.1) _ (λ _.
              Holds-bind IsRun (fd_decode (drop (first.size + lea.1.size + mov.1.size) buf)) _
                (λ lea₂ d₃. Holds-require IsRun (is_rebase reg_si lea₂.1) _ (λ _.
                  Holds-bind IsRun
                    (fd_decode (drop (first.size + lea.1.size + mov.1.size + lea₂.1.size) buf)) _
                    (λ cmps d₄. Holds-require IsRun (is cmps.1.type "FDI_CMPS") _ (λ _.
                      Holds-some IsRun _ (
                        start-Run (
                          step-Run lea d₁
                            (step-Run mov d₂ (step-Run lea₂ d₃ (last-Run cmps d₄))))))))))))))

  jmp-Run : Holds IsRun (macroinst_jmp fd_decode v first buf)
  unfolding macroinst_jmp
  jmp-Run = Holds-require IsRun (is_mask v first) _ (λ _.
      Holds-bind IsRun (fd_decode (drop first.size buf)) _ (λ add d₁.
        Holds-require IsRun (is_add_base (first.op 0).reg add.1) _ (λ _.
          Holds-bind IsRun (fd_decode (drop (first.size + add.1.size) buf)) _ (λ jmp d₂.
            Holds-require IsRun (is_through "FDI_JMP" (first.op 0).reg jmp.1) _
              (λ _. Holds-some IsRun _ (start-Run (step-Run add d₁ (last-Run jmp d₂))))))))

  rtcall-Run : Holds IsRun (macroinst_rtcall fd_decode v first buf)
  unfolding macroinst_rtcall
  rtcall-Run = Holds-require IsRun (is_return_lea first) _ (λ _.
      Holds-bind IsRun (fd_decode (drop first.size buf)) _ (λ jmp d₁.
        Holds-require IsRun (is_rtjmp jmp.1) _ (λ _.
          Holds-require IsRun (ok_return v first jmp.1) _
            (λ _. Holds-some IsRun _ (start-Run (last-Run jmp d₁))))))

  load-Run : Holds IsRun (macroinst_load fd_decode v first buf)
  unfolding macroinst_load
  load-Run = Holds-require IsRun (is_self_mov v first) _ (λ _.
      Holds-bind IsRun (fd_decode (drop first.size buf)) _ (λ load d₁.
        Holds-require IsRun (is_index_load v (first.op 0).reg load.1) _
          (λ _. Holds-some IsRun _ (start-Run (last-Run load d₁)))))

  modsp-Run : Holds IsRun (macroinst_modsp fd_decode v first buf)
  unfolding macroinst_modsp
  modsp-Run = Holds-require IsRun (is_sp_mnem first) _ (λ _.
      Holds-require IsRun (is_esp_op first) _ (λ _.
        Holds-bind IsRun (fd_decode (drop first.size buf)) _ (λ add d₁.
          Holds-require IsRun (is_add_base reg_sp add.1 || is_lea_base add.1) _
            (λ _. Holds-some IsRun _ (start-Run (last-Run add d₁))))))

  -- The nops behind the mask, up to the call.
  abbrev LoopRun : ℕ → ℕ → ℕ × ℕ × Option Inst → Type 0
  LoopRun count icount r = (j : ℕ) × (r.1 ≡ icount + j) × Run fd_decode buf count r.0 j

  longer :
      (count icount : ℕ) (p : ℕ × Inst) (r : ℕ × ℕ × Option Inst)
      → fd_decode (drop count buf) ≡ some p
      → LoopRun (count + p.1.size) (icount + 1) r
      → LoopRun count icount r
  longer count icount p r d (j, k, run) = (suc j, omega arith, step-Run p d run)

  pub call_loop-stop :
      (f count icount : ℕ) (last : Option Inst)
      → ltb count 32 ≡ false
      → call_loop fd_decode (suc f) buf count icount last ≡ some (count, icount, last)
  unfolding call_loop
  call_loop-stop f count icount last h = rw (h, call_loop)

  abbrev pub round : ℕ → ℕ → ℕ → ℕ × Inst → Option (ℕ × ℕ × Option Inst)
  round f count icount p =
      if is p.1.type "FDI_NOP"
      then call_loop fd_decode f buf (count + p.1.size) (icount + 1) (some p.1)
      else some (count + p.1.size, icount + 1, some p.1)

  pub call_loop-more :
      (f count icount : ℕ) (last : Option Inst)
      → ltb count 32 ≡ true
      → call_loop fd_decode (suc f) buf count icount last
        ≡ (fd_decode (drop count buf) >>= round f count icount)
  unfolding call_loop
  call_loop-more f count icount last h = rw (h, call_loop)

  call_loop-Run :
      (f count icount : ℕ) (last : Option Inst)
      → Holds (LoopRun count icount) (call_loop fd_decode f buf count icount last)
  call_loop-Run zero count icount last = unfold call_loop in record { holds = λ b e. cc }
  call_loop-Run (suc f) count icount last = elim (Bool-cases (ltb count 32)) [
    | inr h ↦
        rw (call_loop-stop f count icount last h)
          (Holds-some (LoopRun count icount) _ (0, omega arith, finish refl refl))
    | inl h ↦ rw (call_loop-more f count icount last h) (
        Holds-bind (LoopRun count icount) (fd_decode (drop count buf)) (round f count icount)
          (λ p d. elim (Bool-cases (is p.1.type "FDI_NOP")) [
            | inl t ↦
                let r = call_loop-Run f (count + p.1.size) (icount + 1) (some p.1) in
                rw t (record { holds = λ b e. longer count icount p b d (r.holds b e) })
            | inr t ↦ rw t (
                Holds-some (LoopRun count icount) _ (
                  longer count icount p (count + p.1.size, icount + 1, some p.1) d
                    (0, omega arith, finish refl refl)))
          ]))
  ]

  call-Run : Holds IsRun (macroinst_call fd_decode v first buf)
  unfolding macroinst_call
  call-Run = Holds-require IsRun (is_mask v first) _ (λ _.
      Holds-bind IsRun (fd_decode (drop first.size buf)) _ (λ add d₁.
        Holds-require IsRun (is_add_base (first.op 0).reg add.1) _ (λ _.
          Holds-bind IsRun (call_loop fd_decode 32 buf (first.size + add.1.size) 2 none) _ (λ r d₂.
            let (j, k, run) = (call_loop-Run 32 (first.size + add.1.size) 2 none).holds r d₂ in
            Holds-require IsRun (add64 v.addr r.0 % 32 == 0) _ (λ _.
              Holds-bind IsRun r.2 _ (λ jmp _.
                Holds-require IsRun (is_through "FDI_CALL" (first.op 0).reg jmp) _ (λ _.
                  Holds-some IsRun _ (
                    subst (λ c. Run fd_decode buf 0 r.0 c) (omega arith)
                      (start-Run (step-Run add d₁ run))))))))))

  Holds-or_next :
      (a b : Option MacroInst) → Holds IsRun a → Holds IsRun b → Holds IsRun (or_next a b)
  unfolding or_next
  Holds-or_next none b h k = k
  Holds-or_next (some m) b h k = elim (Bool-cases (ltb 0 m.size)) [
    | inl t ↦ rw t h
    | inr t ↦ rw t k
  ]

  -- What macroinst recognises at an instruction that is decoded at the start of the buffer is a run of
  -- as many instructions as it counts, decoded one after another up to the size that it returns.
  pub macroinst-Run :
      (m : MacroInst)
      → macroinst fd_decode v first buf ≡ some m
      → Run fd_decode buf 0 m.size m.ninstr
  unfolding macroinst
  macroinst-Run =
      (Holds-or_next _ _ load-Run (
        Holds-or_next _ _ jmp-Run (
          Holds-or_next _ _ call-Run (
            Holds-or_next _ _ modsp-Run (
              Holds-or_next _ _ stos-Run (
                Holds-or_next _ _ movs-Run (
                  Holds-or_next _ _ cmps-Run
                    (Holds-or_next _ none rtcall-Run (record { holds = λ b e. cc }))))))))).holds
