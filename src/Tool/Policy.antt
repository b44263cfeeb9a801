-- ===== src/Tool/Policy.antt =====
-- When verify of tools/lfi-verify/main.c is to accept a file, said without its order of reads and tests.
use lfi_verifier.Prelude.{
  ℕ, zero, suc, ◌+◌, ◌*◌, ◌%◌, ◌^◌, ◌<◌, ◌≡◌, ◌≢◌, refl, true, Option, List, String, length, take,
  drop, if◌then◌else◌, arith,
}
use lfi_verifier.Options.{Options}
use lfi_verifier.Dispatch.{answer, assertion, Verify}
use lfi_verifier.Tool.World.{Env}
use lfi_verifier.Tool.Elf.{
  Ehdr, Phdr, ehdr_of, phdr_of, sizeof_ehdr, sizeof_phdr, sizeof_shdr, em_x86_64, em_aarch64,
}
use lfi_verifier.Tool.Verify.{Args, is_elf64, wants, entry_at, is_exec, rounds}

-- The bytes of a file from an offset.
abbrev pub slice : List ℕ → ℕ → ℕ → List ℕ
slice file off n = take n (drop off file)

-- The file has all of them, and the offset is one that fseek takes.
pub record IsReadable (file : List ℕ) (off n : ℕ) : Type 0 where
  pub seeks : off < 2 ^ 63
  pub reads : length (slice file off n) ≡ n

abbrev pub header : List ℕ → Ehdr
header file = ehdr_of (slice file 0 sizeof_ehdr)

abbrev pub phdr_at : List ℕ → Ehdr → ℕ → Phdr
phdr_at file ehdr i = phdr_of (slice file (entry_at ehdr.e_phoff i sizeof_phdr) sizeof_phdr)

abbrev pub segment_of : List ℕ → Phdr → List ℕ
segment_of file phdr = slice file phdr.p_offset phdr.p_filesz

-- The bytes of a segment are in the file, and the verifier accepts them at its address.
pub record IsAccepted (f : Verify) (opts : Options) (file : List ℕ) (phdr : Phdr) : Type 0 where
  pub contents : IsReadable file phdr.p_offset phdr.p_filesz
  pub accepts :
      (msgs : List String) × (f (segment_of file phdr) phdr.p_vaddr opts ≡ answer true msgs)

pub record OkEntry (f : Verify) (opts : Options) (file : List ℕ) (ehdr : Ehdr) (i : ℕ)
    : Type 0 where
  pub entry : IsReadable file (entry_at ehdr.e_phoff i sizeof_phdr) sizeof_phdr
  pub exec : is_exec (phdr_at file ehdr i) ≡ true → IsAccepted f opts file (phdr_at file ehdr i)

-- The verifier for a machine, if it is built in and the architecture is the one asked for or none was.
pub data IsSelected (e : Env) (arch : Option String) (machine : ℕ) : Verify → Type 0 where
  x64 :
      machine ≡ em_x86_64
      → e.arch_x64 ≡ true
      → wants arch "x64" ≡ true
      → IsSelected e arch machine e.lfiv_verify_x64
  arm64 :
      machine ≡ em_aarch64
      → e.arch_arm64 ≡ true
      → wants arch "arm64" ≡ true
      → IsSelected e arch machine e.lfiv_verify_arm64

pub IsSelected-unique :
    {e : Env} {arch : Option String} {machine : ℕ} {f g : Verify}
    → IsSelected e arch machine f
    → IsSelected e arch machine g
    → f ≡ g
IsSelected-unique (x64 _ _ _) (x64 _ _ _) = refl
IsSelected-unique (x64 p _ _) (arm64 q _ _) = absurd (omega arith)
IsSelected-unique (arm64 p _ _) (x64 q _ _) = absurd (omega arith)
IsSelected-unique (arm64 _ _ _) (arm64 _ _ _) = refl

-- How many of the first entries are executable segments.
unfoldable pub execs : List ℕ → Ehdr → ℕ → ℕ
execs file ehdr zero = 0
execs file ehdr (suc k) = execs file ehdr k + (if is_exec (phdr_at file ehdr k) then 1 else 0)

-- `counted` is about the unsigned int in which the segments of all rounds are counted.
pub record IsVerified (e : Env) (args : Args) (opts : Options) (file : List ℕ) : Type 0 where
  pub reads : length (slice file 0 sizeof_ehdr) ≡ sizeof_ehdr
  pub elf : is_elf64 (header file).e_ident ≡ true
  pub f : Verify
  pub selected : IsSelected e args.arch (header file).e_machine f
  pub sections :
      (i : ℕ)
      → i < (header file).e_shnum
      → IsReadable file (entry_at (header file).e_shoff i sizeof_shdr) sizeof_shdr
  pub entries : (i : ℕ) → i < (header file).e_phnum → OkEntry f opts file (header file) i
  pub counted : rounds args.n * execs file (header file) (header file).e_phnum % 2 ^ 32 ≢ 0

-- The system never fails the program: malloc and clock_gettime succeed, and no assert of a verifier
-- fails.
pub record IsReliable (e : Env) (opts : Options) : Type 0 where
  pub malloc : (calls size : ℕ) → e.malloc calls size ≡ true
  pub clock_gettime : (calls : ℕ) → e.clock_gettime calls ≡ true
  pub x64 : (code : List ℕ) (addr : ℕ) → e.lfiv_verify_x64 code addr opts ≢ assertion
  pub arm64 : (code : List ℕ) (addr : ℕ) → e.lfiv_verify_arm64 code addr opts ≢ assertion
