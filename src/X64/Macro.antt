-- ===== src/X64/Macro.antt =====
-- src/x64/macroinst.c: the instruction sequences that are accepted as one. A return of {-1, 0} is
-- `none`. The C takes instructions at `buf + offset`, with `size - offset` bytes left: here the
-- buffer is the list of its bytes, and those are `drop offset buf`.
mod Parts
use lfi_verifier.Prelude.{
  ℕ, zero, suc, ◌+◌, ◌%◌, Bool, not, ◌&&◌, ◌||◌, Option, none, some, List, [], ◌∷◌, one_of, ltb,
  ◌==◌, is, drop, require, ◌>>=◌, ◌>>◌, add64, neg64, String, if◌then◌else◌,
}
use lfi_verifier.X64.Inst.{
  Reg, reg_sp, reg_si, reg_di, reg_r11, reg_r14, reg_ip, reg_none, Inst, Decoder, is_reg, is_imm,
  is_mem, reg_eq,
}
use lfi_verifier.X64.State.{Verifier}
use lfi_verifier.X64.Check.{reserved}
unfoldable pub use lfi_verifier.X64.Macro.Parts.{
  assert_reg, mask_add, is_trunc, is_rebase, is_mask, is_add_base, okrtcalldisp, is_rtjmp,
  is_through, is_return_lea, ok_return, is_self_mov, is_index_load, is_sp_mnem, is_esp_op,
  is_lea_base,
}

pub record MacroInst : Type 0 where
  pub size : ℕ
  pub ninstr : ℕ

abbrev pub mi : ℕ → ℕ → Option MacroInst
mi size ninstr = some (record { size = size; ninstr = ninstr })

-- MACROINST(FN): return what FN returns if its size is positive, else go on.
unfoldable pub or_next : Option MacroInst → Option MacroInst → Option MacroInst
or_next none next = next
or_next (some m) next = if ltb 0 m.size then some m else next

module _ (fd_decode : Decoder) where
  unfoldable pub macroinst_stos : Verifier → Inst → List ℕ → Option MacroInst
  macroinst_stos v i_mov buf = do
    require (is_trunc reg_di i_mov)
    (_, i_lea) ← fd_decode (drop i_mov.size buf)
    require (is_rebase reg_di i_lea)
    (_, i_stos) ← fd_decode (drop (i_mov.size + i_lea.size) buf)
    require (is i_stos.type "FDI_STOS")
    mi (i_mov.size + i_lea.size + i_stos.size) 3

  -- macroinst_movs and macroinst_cmps differ in the last instruction only.
  unfoldable pub macroinst_movs : Verifier → Inst → List ℕ → Option MacroInst
  macroinst_movs v i_mov buf = do
    require (is_trunc reg_di i_mov)
    (_, i_lea) ← fd_decode (drop i_mov.size buf)
    require (is_rebase reg_di i_lea)
    (_, i_mov2) ← fd_decode (drop (i_mov.size + i_lea.size) buf)
    require (is_trunc reg_si i_mov2)
    (_, i_lea2) ← fd_decode (drop (i_mov.size + i_lea.size + i_mov2.size) buf)
    require (is_rebase reg_si i_lea2)
    (_, i_movs) ← fd_decode (drop (i_mov.size + i_lea.size + i_mov2.size + i_lea2.size) buf)
    require (is i_movs.type "FDI_MOVS")
    mi (i_mov.size + i_lea.size + i_mov2.size + i_lea2.size + i_movs.size) 5

  unfoldable pub macroinst_cmps : Verifier → Inst → List ℕ → Option MacroInst
  macroinst_cmps v i_mov buf = do
    require (is_trunc reg_di i_mov)
    (_, i_lea) ← fd_decode (drop i_mov.size buf)
    require (is_rebase reg_di i_lea)
    (_, i_mov2) ← fd_decode (drop (i_mov.size + i_lea.size) buf)
    require (is_trunc reg_si i_mov2)
    (_, i_lea2) ← fd_decode (drop (i_mov.size + i_lea.size + i_mov2.size) buf)
    require (is_rebase reg_si i_lea2)
    (_, i_cmps) ← fd_decode (drop (i_mov.size + i_lea.size + i_mov2.size + i_lea2.size) buf)
    require (is i_cmps.type "FDI_CMPS")
    mi (i_mov.size + i_lea.size + i_mov2.size + i_lea2.size + i_cmps.size) 5

  unfoldable pub macroinst_jmp : Verifier → Inst → List ℕ → Option MacroInst
  macroinst_jmp v i_and buf = do
    require (is_mask v i_and)
    (_, i_add) ← fd_decode (drop i_and.size buf)
    require (is_add_base (i_and.op 0).reg i_add)
    (_, i_jmp) ← fd_decode (drop (i_and.size + i_add.size) buf)
    require (is_through "FDI_JMP" (i_and.op 0).reg i_jmp)
    mi (i_and.size + i_add.size + i_jmp.size) 3

  unfoldable pub macroinst_rtcall : Verifier → Inst → List ℕ → Option MacroInst
  macroinst_rtcall v i_lea buf = do
    require (is_return_lea i_lea)
    (_, i_jmp) ← fd_decode (drop i_lea.size buf)
    require (is_rtjmp i_jmp)
    require (ok_return v i_lea i_jmp)
    mi (i_lea.size + i_jmp.size) 2

  -- The loop of macroinst_call over the nops: the final count, icount and i_jmp. Each round adds at
  -- least one byte to `count`, so 32 rounds are enough.
  unfoldable pub call_loop : ℕ → List ℕ → ℕ → ℕ → Option Inst → Option (ℕ × ℕ × Option Inst)
  call_loop zero buf count icount i_jmp = none
  call_loop (suc fuel) buf count icount i_jmp =
      let round : Option (ℕ × ℕ × Option Inst) = do
        (_, i) ← fd_decode (drop count buf)
        let rest = call_loop fuel buf (count + i.size) (icount + 1) (some i)
        if is i.type "FDI_NOP" then rest else some (count + i.size, icount + 1, some i)
      in if ltb count 32 then round else some (count, icount, i_jmp)

  unfoldable pub macroinst_call : Verifier → Inst → List ℕ → Option MacroInst
  macroinst_call v i_and buf = do
    require (is_mask v i_and)
    (_, i_add) ← fd_decode (drop i_and.size buf)
    require (is_add_base (i_and.op 0).reg i_add)
    (count, icount, last) ← call_loop 32 buf (i_and.size + i_add.size) 2 none
    require (add64 v.addr count % 32 == 0)
    i_jmp ← last
    require (is_through "FDI_CALL" (i_and.op 0).reg i_jmp)
    mi count icount

  unfoldable pub macroinst_load : Verifier → Inst → List ℕ → Option MacroInst
  macroinst_load v i_mov buf = do
    require (is_self_mov v i_mov)
    (_, i_load) ← fd_decode (drop i_mov.size buf)
    require (is_index_load v (i_mov.op 0).reg i_load)
    mi (i_mov.size + i_load.size) 2

  unfoldable pub macroinst_modsp : Verifier → Inst → List ℕ → Option MacroInst
  macroinst_modsp v i_mov buf = do
    require (is_sp_mnem i_mov)
    require (is_esp_op i_mov)
    (_, i_add) ← fd_decode (drop i_mov.size buf)
    require (is_add_base reg_sp i_add || is_lea_base i_add)
    mi (i_mov.size + i_add.size) 2

  unfoldable pub macroinst : Verifier → Inst → List ℕ → Option MacroInst
  unfolding or_next
  macroinst v first buf = or_next (macroinst_load v first buf) (
      or_next (macroinst_jmp v first buf) (
        or_next (macroinst_call v first buf) (
          or_next (macroinst_modsp v first buf) (
            or_next (macroinst_stos v first buf) (
              or_next (macroinst_movs v first buf) (
                or_next (macroinst_cmps v first buf)
                  (or_next (macroinst_rtcall v first buf) none)))))))
