-- ===== src/Tool/Verify.antt =====
-- verify of tools/lfi-verify/main.c.
use lfi_verifier.Prelude.{
  ℕ, zero, suc, ◌+◌, ◌*◌, ◌%◌, ◌^◌, Bool, true, false, not, ◌&&◌, Option, none, some, List, [], ◌∷◌,
  String, ltb, ◌==◌, is, length, add64, if◌then◌else◌,
}
use lfi_verifier.Dispatch.{Verify}
use lfi_verifier.Tool.World.{
  goto_err, refused, Step, go, stop, M, ◌>>=◌, ◌>>◌, Env, say, fail, check, fseek, fread, opened,
  assert_verify, fclose, free, call_verify, alloc, time_ns,
}
use lfi_verifier.Tool.Elf.{
  Ehdr, Phdr, ehdr_of, phdr_of, shdr_of, sizeof_ehdr, sizeof_phdr, sizeof_shdr, em_x86_64,
  em_aarch64, pt_load,
}

-- struct Args of args.h; `n` is the pattern of an int, and ninputs the length of `inputs`.
pub record Args : Type 0 where
  pub n : ℕ
  pub inputs : List String
  pub arch : Option String

-- for (int i = first; i < first + rounds; ++i), with the variables that the body changes
unfoldable pub for {ℓ} : {S : Type ℓ} → ℕ → ℕ → (ℕ → S → M S) → S → M S
for zero i body s = go s
for (suc k) i body s = body i s >>= for k (suc i) body

-- memcmp(ehdr.e_ident, ELFMAG, SELFMAG) == 0 && ehdr.e_ident[EI_CLASS] == ELFCLASS64
unfoldable pub is_elf64 : List ℕ → Bool
is_elf64 (a ∷ b ∷ c ∷ d ∷ class ∷ _) =
    a == 0x7f && b == 0x45 && c == 0x4c && d == 0x46 && class == 2
is_elf64 _ = false

-- !args.arch || strcmp(args.arch, name) == 0
unfoldable pub wants : Option String → String → Bool
wants none name = true
wants (some arch) name = is arch name

-- v->verify = f;
abbrev pub set_verify : Verify → M (Unit {0})
set_verify f w = go tt (record w { v = record w.v { verify = some f } })

-- The read of an entry of a table, and of the header.
unfoldable pub read_at : List ℕ → ℕ → ℕ → M (List ℕ)
read_at file off n = do
  ok ← fseek off
  check ok "seek failed: %s\n"
  got ← fread file n
  check (length got == n) "read failed: %s\n"
  go got

unfoldable pub entry_at : ℕ → ℕ → ℕ → ℕ
entry_at table i size = add64 table (i * size)

-- The loop over the sections.
abbrev pub android_relr : String
android_relr = "warning: SHT_ANDROID_RELR section might not be supported by your libc\n"

unfoldable pub section_step : List ℕ → Ehdr → ℕ → Unit {0} → M (Unit {0})
section_step file ehdr i _ = do
  b ← read_at file (entry_at ehdr.e_shoff i sizeof_shdr) sizeof_shdr
  if (shdr_of b).sh_type == 0x6fffff00 then say android_relr [] else go tt

-- if (!ok) { fprintf(stderr, ...); free(segment); goto err; }
abbrev pub check_free : Bool → String → M (Unit {0})
check_free true format w = go tt w
check_free false format w = (say format [] >> free >> fail goto_err) w

-- phdr.p_type == PT_LOAD && (phdr.p_flags & PF_X)
unfoldable pub is_exec : Phdr → Bool
is_exec phdr = phdr.p_type == pt_load && phdr.p_flags % 2 == 1

-- `segments`, an unsigned int, and `total`, a size_t.
pub record Counts : Type 0 where
  pub segments : ℕ
  pub total : ℕ

abbrev pub counted : Phdr → Counts → Counts
counted phdr c = record {
  segments = (c.segments + 1) % 2 ^ 32;
  total = add64 c.total phdr.p_filesz;
}

-- The rounds of `for (int n = 0; n < args.n; n++)`: none where args.n is negative.
unfoldable pub rounds : ℕ → ℕ
rounds n = if ltb n (2 ^ 31) then n else 0

-- The label err.
unfoldable pub at_err : Step Bool → Step Bool
at_err (stop goto_err w) = (fclose >> go false) w
at_err (stop refused w) = go false w
at_err s = s

-- What follows the call of lfiv_verify.
unfoldable pub finish_segment : Phdr → Counts → Bool → M Counts
finish_segment phdr c accepted = do
  if accepted then go tt else say "verification failed\n" [] >> fail refused
  free
  go (counted phdr c)

module _ (e : Env) where
  -- The switch on e_machine.
  unfoldable pub select : Option String → ℕ → M (Unit {0})
  select arch machine =
      if machine == em_x86_64
      then if e.arch_x64 && wants arch "x64"
        then set_verify e.lfiv_verify_x64
        else say "error: ELF file is x64, not %s\n" (arch ∷ []) >> fail goto_err
      else if machine == em_aarch64
      then if e.arch_arm64 && wants arch "arm64"
        then set_verify e.lfiv_verify_arm64
        else say "error: ELF file is arm64, not %s\n" (arch ∷ []) >> fail goto_err
      else say "ELF architecture is not x64 or arm64\n" [] >> fail goto_err

  -- What is done with an executable segment.
  unfoldable pub exec_segment : List ℕ → Phdr → Counts → M Counts
  exec_segment file phdr c = do
    got_block ← alloc e phdr.p_filesz
    check got_block "error: out of memory\n"
    ok ← fseek phdr.p_offset
    check_free ok "seek failed: %s\n"
    segment ← fread file phdr.p_filesz
    check_free (length segment == phdr.p_filesz) "read failed: %s\n"
    accepted ← call_verify segment phdr.p_vaddr
    finish_segment phdr c accepted

  unfoldable pub segment_step : List ℕ → Ehdr → ℕ → Counts → M Counts
  segment_step file ehdr i c = do
    b ← read_at file (entry_at ehdr.e_phoff i sizeof_phdr) sizeof_phdr
    if is_exec (phdr_of b) then exec_segment file (phdr_of b) c else go c

  -- What verify does from the loop over the sections to its last test.
  unfoldable pub scan_file : Args → List ℕ → Ehdr → M (Unit {0})
  scan_file args file ehdr = do
    for ehdr.e_shnum 0 (section_step file ehdr) tt
    assert_verify
    time_ns e
    c ←
        for (rounds args.n) 0 (λ _. for ehdr.e_phnum 0 (segment_step file ehdr))
          (record { segments = 0; total = 0 })
    time_ns e
    check (not (c.segments == 0)) "no executable program segments found\n"

  -- What verify does on an open file, up to its last test.
  unfoldable pub check_file : Args → List ℕ → M (Unit {0})
  check_file args file = do
    header ← fread file sizeof_ehdr
    check (length header == sizeof_ehdr) "failed to read ELF header: %s\n"
    let ehdr = ehdr_of header
    check (is_elf64 ehdr.e_ident) "not a valid 64-bit ELF file\n"
    select args.arch ehdr.e_machine
    scan_file args file ehdr

  unfoldable pub verify_file : Args → List ℕ → M Bool
  verify_file args file = do
    check_file args file
    fclose
    say "verification passed (%.1f MiB/s)\n" []
    go true

  -- What follows fopen.
  unfoldable pub verify_opened : Args → String → Option (List ℕ) → M Bool
  verify_opened args filename none w =
      (say "failed to open %s: %s\n" (some filename ∷ []) >> go false) w
  verify_opened args filename (some file) w = at_err ((opened >> verify_file args file) w)

  unfoldable pub verify : Args → String → M Bool
  verify args filename = verify_opened args filename (e.fopen filename)
