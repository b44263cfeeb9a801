-- ===== src/Tool/Safety/Fields.antt =====
-- Fields of a file of bytes are machine words.
use lfi_verifier.Prelude.{ℕ, zero, suc, ◌^◌, ◌<◌, List, [], ◌∷◌, take, drop, All, arith}
use lfi_verifier.Tool.Elf.{le, Ehdr, phdr_of, field, sizeof_phdr}
use lfi_verifier.Tool.Verify.{entry_at}
use lfi_verifier.Tool.Policy.{slice, phdr_at}

abbrev pub IsBytes : List ℕ → Type 0
IsBytes file = All (λ b. b < 256) file

take-IsBytes : (n : ℕ) (xs : List ℕ) → IsBytes xs → IsBytes (take n xs)
take-IsBytes zero xs h = tt
take-IsBytes (suc n) [] h = tt
take-IsBytes (suc n) (x ∷ xs) h = (h.0, take-IsBytes n xs h.1)

drop-IsBytes : (n : ℕ) (xs : List ℕ) → IsBytes xs → IsBytes (drop n xs)
drop-IsBytes zero xs h = h
drop-IsBytes (suc n) [] h = tt
drop-IsBytes (suc n) (x ∷ xs) h = drop-IsBytes n xs h.1

le-take-lt : (n : ℕ) (xs : List ℕ) → IsBytes xs → le (take n xs) < 256 ^ n
unfolding le
le-take-lt zero xs h = omega arith
le-take-lt (suc n) [] h = omega (arith, le-take-lt n [] tt)
le-take-lt (suc n) (x ∷ xs) h = omega (arith, le-take-lt n xs h.1, h.0)

pub p_vaddr-lt :
    (file : List ℕ) (ehdr : Ehdr) (i : ℕ) → IsBytes file → (phdr_at file ehdr i).p_vaddr < 2 ^ 64
unfolding phdr_of field
p_vaddr-lt file ehdr i h =
    let at = entry_at ehdr.e_phoff i sizeof_phdr in
    let entry = slice file at sizeof_phdr in
    le-take-lt 8 (drop 16 entry)
      (drop-IsBytes 16 entry (take-IsBytes sizeof_phdr (drop at file) (drop-IsBytes at file h)))
