-- ===== src/X64/Macro/Parts.antt =====
-- The tests of src/x64/macroinst.c on the single instructions of its sequences.
use lfi_verifier.Prelude.{
  ℕ, ◌+◌, ◌%◌, Bool, not, ◌&&◌, ◌||◌, [], ◌∷◌, one_of, ◌==◌, is, add64, neg64, String,
}
use lfi_verifier.X64.Inst.{
  Reg, reg_sp, reg_r11, reg_r14, reg_ip, reg_none, Inst, is_reg, is_imm, is_mem, reg_eq,
}
use lfi_verifier.X64.State.{Verifier}
use lfi_verifier.X64.Check.{reserved}

unfoldable pub assert_reg : Inst → ℕ → Reg → ℕ → Bool
assert_reg instr op_index reg op_size =
    is_reg (instr.op op_index).op_type
    && (reg_eq (instr.op op_index).reg reg && (instr.op op_index).size == op_size)

unfoldable pub mask_add : Inst → Bool
mask_add instr = is instr.type "FDI_ADD" || is instr.type "FDI_OR"

-- movl %eR, %eR, as stos, movs and cmps test it.
unfoldable pub is_trunc : Reg → Inst → Bool
unfolding assert_reg
is_trunc r i = is i.type "FDI_MOV" && (assert_reg i 0 r 4 && assert_reg i 1 r 4)

-- leaq (%r14, %rR), %rR, as stos, movs and cmps test it.
unfoldable pub is_rebase : Reg → Inst → Bool
unfolding assert_reg
is_rebase r i =
    is i.type "FDI_LEA"
    && (assert_reg i 0 r 8
        && (is_mem (i.op 1).op_type
            && (reg_eq (i.op 1).base reg_r14
                && (reg_eq (i.op 1).index r && ((i.op 1).disp == 0 && (i.op 1).scale == 0)))))

-- andl $0xffffffe0, %eX, as jmp and call test it.
unfoldable pub is_mask : Verifier → Inst → Bool
is_mask v i =
    is i.type "FDI_AND"
    && (is_reg (i.op 0).op_type
        && (not (reserved v.opts i 0)
            && ((i.op 0).size == 4
                && (is_imm (i.op 1).op_type && (i.op 1).imm == 0xffffffffffffffe0))))

-- addq %r14, %rX (or orq), as jmp, call and modsp test it.
unfoldable pub is_add_base : Reg → Inst → Bool
unfolding mask_add
is_add_base r i =
    mask_add i
    && (is_reg (i.op 0).op_type
        && (is_reg (i.op 1).op_type
            && ((i.op 0).size == 8
                && ((i.op 1).size == 8 && (reg_eq (i.op 1).reg reg_r14 && reg_eq (i.op 0).reg r)))))

-- The displacements of the runtime call table that a sandbox may jump through.
unfoldable pub okrtcalldisp : ℕ → Bool
okrtcalldisp disp =
    disp == 0
    || (disp == 8
        || (disp == 16
            || (disp == 24
                || (disp == neg64 8
                    || (disp == neg64 16 || (disp == neg64 24 || disp == neg64 32))))))

-- jmpq *N(%r14), as rtcall tests it.
unfoldable pub is_rtjmp : Inst → Bool
unfolding okrtcalldisp
is_rtjmp i =
    is i.type "FDI_JMP"
    && (is_mem (i.op 0).op_type
        && (reg_eq (i.op 0).base reg_r14
            && (reg_eq (i.op 0).index reg_none
                && ((i.op 0).scale == 0 && okrtcalldisp (i.op 0).disp))))

-- jmp or call through a register.
unfoldable pub is_through : String → Reg → Inst → Bool
is_through name r i = is i.type name && (is_reg (i.op 0).op_type && reg_eq (i.op 0).reg r)

-- leaq N(%rip), %r11, as rtcall tests it, and the test on the return address that it computes.
unfoldable pub is_return_lea : Inst → Bool
is_return_lea i =
    is i.type "FDI_LEA"
    && (is_reg (i.op 0).op_type
        && (reg_eq (i.op 0).reg reg_r11
            && (is_mem (i.op 1).op_type && reg_eq (i.op 1).base reg_ip)))

unfoldable pub ok_return : Verifier → Inst → Inst → Bool
ok_return v i_lea i_jmp =
    (i_lea.op 1).disp == i_jmp.size
    || add64 (v.addr + i_lea.size) (i_lea.op 1).disp % v.bundlesize == 0

-- movl %eX, %eX and movq (%r14, %rX), %rY, as load tests them.
unfoldable pub is_self_mov : Verifier → Inst → Bool
is_self_mov v i =
    is i.type "FDI_MOV"
    && (is_reg (i.op 0).op_type
        && (is_reg (i.op 1).op_type
            && ((i.op 0).size == 4
                && ((i.op 1).size == 4
                    && (not (reserved v.opts i 0) && reg_eq (i.op 0).reg (i.op 1).reg)))))

unfoldable pub is_index_load : Verifier → Reg → Inst → Bool
is_index_load v r i =
    is i.type "FDI_MOV"
    && (is_reg (i.op 0).op_type
        && (not (reserved v.opts i 0)
            && (is_mem (i.op 1).op_type
                && (reg_eq (i.op 1).base reg_r14
                    && (reg_eq (i.op 1).index r && (i.op 1).scale == 0)))))

-- The first instruction of modsp: its mnemonic and its first operand, %esp.
unfoldable pub is_sp_mnem : Inst → Bool
is_sp_mnem i = one_of ("FDI_MOV" ∷ "FDI_ADD" ∷ "FDI_AND" ∷ "FDI_SUB" ∷ "FDI_LEA" ∷ []) i.type

unfoldable pub is_esp_op : Inst → Bool
is_esp_op i = is_reg (i.op 0).op_type && ((i.op 0).size == 4 && reg_eq (i.op 0).reg reg_sp)

-- leaq (%rsp, %r14, 1), %rsp, as modsp tests it.
unfoldable pub is_lea_base : Inst → Bool
is_lea_base i =
    is i.type "FDI_LEA"
    && (is_mem (i.op 1).op_type
        && (reg_eq (i.op 1).base reg_sp
            && (reg_eq (i.op 1).index reg_r14
                && ((i.op 1).disp == 0
                    && ((i.op 1).scale == 0
                        && (is_reg (i.op 0).op_type
                            && ((i.op 0).size == 8 && reg_eq (i.op 0).reg reg_sp)))))))
