-- ===== src/Arm64/Mnemonics.antt =====
-- src/arm64/base.instrs: the mnemonics that okmnem accepts.
mod First
mod Last
use lfi_verifier.Prelude.{String, List, [], ◌∷◌, ◌++◌}
use lfi_verifier.Arm64.Mnemonics.First.{part_0, part_1, part_2, part_3}
use lfi_verifier.Arm64.Mnemonics.Last.{part_4, part_5, part_6}

abbrev pub base_instrs : List String
base_instrs = part_0 ++ (part_1 ++ (part_2 ++ (part_3 ++ (part_4 ++ (part_5 ++ (part_6))))))
