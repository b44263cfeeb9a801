-- ===== src/X64/Bdd.antt =====
-- src/x64/bdd.c: the walk through the decision diagram that gives an instruction's length. The bytes
-- of the diagram, the generated table lfi_bdd_data of x86-all.bdd.h, are a parameter.
pub mod Walks
mod Tests
use lfi_verifier.Prelude.{
  ℕ, zero, suc, ◌+◌, ◌-◌, ◌*◌, ◌/◌, ◌%◌, ◌^◌, Option, none, some, Bool, List, ◌==◌, ◌!=◌, get_or,
  if◌then◌else◌,
}

-- struct BDDNode. A terminal flag says that lo or hi is a result and no index.
pub record BddNode : Type 0 where
  pub v : ℕ
  pub lo : ℕ
  pub hi : ℕ
  pub terminal_hi : Bool
  pub terminal_lo : Bool

-- (input[v/8] >> (7 - (v % 8))) & 1
unfoldable pub input_bit : List ℕ → ℕ → Bool
input_bit input v = get_or input (v / 8) 0 / 2 ^ (7 - v % 8) % 2 == 1

module _ (nodes : ℕ → BddNode) where
  -- The recursion of `lookup`; `none` is a walk that is longer than the fuel. What it returns is
  -- a uint8_t.
  unfoldable pub lookup : ℕ → BddNode → List ℕ → Option ℕ
  lookup zero n input = none
  lookup (suc fuel) n input =
      let below_hi = lookup fuel (nodes n.hi) input in
      let below_lo = lookup fuel (nodes n.lo) input in
      if input_bit input n.v
      then (if n.terminal_hi then some (n.hi % 256) else below_hi)
      else if n.terminal_lo
      then some (n.lo % 256)
      else below_lo

module _ (lfi_bdd_data : List ℕ) where
  abbrev data_byte : ℕ → ℕ
  data_byte i = get_or lfi_bdd_data i 0

  -- A uint16_t of the table, on a little-endian machine.
  unfoldable pub data_word : ℕ → ℕ
  data_word i = data_byte i + 256 * data_byte (i + 1)

  unfoldable pub entry : ℕ
  unfolding data_word
  entry = data_word 0

  -- bdd_nodes[i]: eight bytes each, behind the entry.
  unfoldable pub bdd_nodes : ℕ → BddNode
  bdd_nodes i = record {
    v = data_word (2 + 8 * i);
    lo = data_word (4 + 8 * i);
    hi = data_word (6 + 8 * i);
    terminal_hi = data_byte (8 + 8 * i) != 0;
    terminal_lo = data_byte (9 + 8 * i) != 0;
  }

  unfoldable pub lfi_x86_bdd : ℕ → List ℕ → Option ℕ
  lfi_x86_bdd fuel input = lookup bdd_nodes fuel (bdd_nodes entry) input
