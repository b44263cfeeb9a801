-- ===== src/X64/Bdd/Tests.antt =====
-- A small diagram, and the theorems on lfi_x86_bdd applied to it.
use lfi_verifier.Prelude.{
  ℕ, zero, suc, ◌<◌, ◌≡◌, ◌↔◌, refl, false≢true, sym, some, List, [], ◌∷◌, arith, get_or, length,
  ◌++◌,
}
use lfi_verifier.X64.Bdd.{input_bit, lookup, data_word, entry, bdd_nodes, lfi_x86_bdd}
use lfi_verifier.X64.Bdd.Walks.{
  Walk, Ordered, lfi_x86_bdd_total, lfi_x86_bdd_exact, lfi_x86_bdd_prefix,
}

-- The first bit of the first byte, then the second bit of the second: the lengths 1, 2 and 0.
abbrev table : List ℕ
table = 0 ∷ 0 ∷ 0 ∷ 0 ∷ 1 ∷ 0 ∷ 1 ∷ 0 ∷ 0 ∷ 1 ∷ 9 ∷ 0 ∷ 0 ∷ 0 ∷ 2 ∷ 0 ∷ 1 ∷ 1 ∷ []

two_bytes : lfi_x86_bdd table 10 (0x80 ∷ 0x40 ∷ []) ≡ some 2
unfolding lfi_x86_bdd lookup bdd_nodes entry data_word input_bit
two_bytes = refl

no_length : lfi_x86_bdd table 10 (0x80 ∷ 0x10 ∷ []) ≡ some 0
unfolding lfi_x86_bdd lookup bdd_nodes entry data_word input_bit
no_length = refl

table-Ordered : Ordered (bdd_nodes table) 2 10
unfolding bdd_nodes data_word
table-Ordered zero l = record {
  below = omega arith;
  hi_edge = λ _. (omega arith, omega arith);
  lo_edge = λ h. absurd (false≢true (sym h));
}
table-Ordered (suc zero) l = record {
  below = omega arith;
  hi_edge = λ h. absurd (false≢true (sym h));
  lo_edge = λ h. absurd (false≢true (sym h));
}
table-Ordered (suc (suc i)) l = absurd (omega arith)

table-entry : entry table < 2
unfolding entry data_word
table-entry = omega arith

lfi_x86_bdd_total_example : (r : ℕ) × (lfi_x86_bdd table 10 (0x80 ∷ 0x40 ∷ []) ≡ some r)
lfi_x86_bdd_total_example =
    lfi_x86_bdd_total table 2 10 table-Ordered 10 (omega arith) table-entry (0x80 ∷ 0x40 ∷ [])

lfi_x86_bdd_exact_example :
    (lfi_x86_bdd table 10 (0x80 ∷ 0x40 ∷ []) ≡ some 2)
    ↔ Walk (bdd_nodes table) (0x80 ∷ 0x40 ∷ []) (bdd_nodes table (entry table)) 2
lfi_x86_bdd_exact_example =
    lfi_x86_bdd_exact table 2 10 table-Ordered 10 (omega arith) table-entry (0x80 ∷ 0x40 ∷ []) 2

-- Fifteen nops, with a byte behind them and without.
abbrev nops : List ℕ
nops =
    0x90 ∷ 0x90 ∷ 0x90 ∷ 0x90 ∷ 0x90 ∷ 0x90 ∷ 0x90 ∷ 0x90 ∷ 0x90 ∷ 0x90 ∷ 0x90 ∷ 0x90 ∷ 0x90 ∷ 0x90
    ∷ 0x90 ∷ []

prefix_agrees : (xs ys : List ℕ) (i : ℕ) → i < length xs → get_or (xs ++ ys) i 0 ≡ get_or xs i 0
prefix_agrees [] ys i l = absurd (omega arith)
prefix_agrees (x ∷ xs) ys zero l = refl
prefix_agrees (x ∷ xs) ys (suc i) l = prefix_agrees xs ys i (omega arith)

lfi_x86_bdd_prefix_example : lfi_x86_bdd table 10 (nops ++ (0xc3 ∷ [])) ≡ lfi_x86_bdd table 10 nops
lfi_x86_bdd_prefix_example =
    lfi_x86_bdd_prefix table 2 10 table-Ordered 10 (omega arith) table-entry (omega arith)
      (nops ++ (0xc3 ∷ [])) nops (prefix_agrees nops (0xc3 ∷ []))
