-- ===== src/X64/Inst.antt =====
-- What src/x64 reads of an FdInstr of the fadec decoder (a third-party header): the values of
-- FD_TYPE, FD_SIZE, FD_SEGMENT, FD_ADDRSIZE and, for each operand, of the FD_OP_ macros. The
-- decoder itself is a parameter, and `DecodeLaws` is what its documentation promises.
use lfi_verifier.Prelude.{
  ℕ, ◌≤◌, ◌<◌, ◌≡◌, Bool, true, false, String, Option, some, List, length, ◌==◌, ◌↔◌, arith,
}

-- FD_OT_REG, FD_OT_IMM, FD_OT_MEM, FD_OT_OFF, and any other kind of operand.
pub data OpType : Type 0 where
  ot_reg ot_imm ot_mem ot_off ot_other : OpType

-- FD_RT_GPL, FD_RT_GPH, FD_RT_VEC, FD_RT_FPU, and any other kind of register.
pub data RegType : Type 0 where
  rt_gpl rt_gph rt_vec rt_fpu rt_other : RegType

-- The numbers of FD_REG_SP, FD_REG_SI, ..., FD_REG_NONE; `reg_other` stands for the rest.
pub data Reg : Type 0 where
  reg_sp reg_si reg_di reg_r11 reg_r14 reg_r15 reg_ip reg_none : Reg
  reg_other : ℕ → Reg

-- FD_SEGMENT is compared with FD_REG_GS and FD_REG_FS only.
pub data Segment : Type 0 where
  seg_gs seg_fs seg_other : Segment

pub record Operand : Type 0 where
  pub op_type : OpType
  pub size : ℕ
  pub reg_type : RegType
  pub reg : Reg
  pub base : Reg
  pub index : Reg
  pub scale : ℕ
  pub disp : ℕ  -- int64_t, as its pattern
  pub imm : ℕ  -- int64_t, as its pattern

-- `type` is the name of the FDI_ enumerator.
pub record Inst : Type 0 where
  pub type : String
  pub size : ℕ
  pub segment : Segment
  pub addrsize : ℕ
  pub op : ℕ → Operand

abbrev pub is_reg : OpType → Bool
is_reg ot_reg = true
is_reg _ = false

abbrev pub is_imm : OpType → Bool
is_imm ot_imm = true
is_imm _ = false

abbrev pub is_mem : OpType → Bool
is_mem ot_mem = true
is_mem _ = false

abbrev pub is_off : OpType → Bool
is_off ot_off = true
is_off _ = false

unfoldable pub reg_eq : Reg → Reg → Bool
reg_eq reg_sp reg_sp = true
reg_eq reg_si reg_si = true
reg_eq reg_di reg_di = true
reg_eq reg_r11 reg_r11 = true
reg_eq reg_r14 reg_r14 = true
reg_eq reg_r15 reg_r15 = true
reg_eq reg_ip reg_ip = true
reg_eq reg_none reg_none = true
reg_eq (reg_other m) (reg_other n) = m == n
reg_eq _ _ = false

pub reg_eq_iff : (r s : Reg) → (reg_eq r s ≡ true) ↔ (r ≡ s)
unfolding reg_eq
reg_eq_iff r s = ground arith

-- fd_decode(buf, len, 64, 0, &instr) on the bytes at hand: `none` where it returns a negative
-- number, else what it returns and the instruction.
abbrev pub Decoder : Type 0
Decoder = List ℕ → Option (ℕ × Inst)

-- A decoded instruction has at least one byte and at most fifteen, all of them in the buffer, and
-- fd_decode returns that number.
pub record DecodeLaws (fd_decode : Decoder) : Type 0 where
  pub returns_size : (buf : List ℕ) (n : ℕ) (i : Inst) → fd_decode buf ≡ some (n, i) → n ≡ i.size
  pub size_pos : (buf : List ℕ) (n : ℕ) (i : Inst) → fd_decode buf ≡ some (n, i) → 0 < i.size
  pub size_max : (buf : List ℕ) (n : ℕ) (i : Inst) → fd_decode buf ≡ some (n, i) → i.size ≤ 15
  pub size_fits :
      (buf : List ℕ) (n : ℕ) (i : Inst) → fd_decode buf ≡ some (n, i) → i.size ≤ length buf
