-- ===== src/Tool/Elf.antt =====
-- The structs of tools/lfi-verify/elfdefinitions.h that main.c reads, as a little-endian host lays them
-- out, and the constants that it compares.
use lfi_verifier.Prelude.{ℕ, ◌+◌, ◌*◌, List, [], ◌∷◌, take, drop}

-- The number that bytes hold, the lowest first.
unfoldable pub le : List ℕ → ℕ
le [] = 0
le (b ∷ bs) = b + 256 * le bs

-- The field of `n` bytes at an offset.
unfoldable pub field : ℕ → ℕ → List ℕ → ℕ
unfolding le
field off n bytes = le (take n (drop off bytes))

-- Elf64_Ehdr
pub record Ehdr : Type 0 where
  pub e_ident : List ℕ
  pub e_type : ℕ
  pub e_machine : ℕ
  pub e_version : ℕ
  pub e_entry : ℕ
  pub e_phoff : ℕ
  pub e_shoff : ℕ
  pub e_flags : ℕ
  pub e_ehsize : ℕ
  pub e_phentsize : ℕ
  pub e_phnum : ℕ
  pub e_shentsize : ℕ
  pub e_shnum : ℕ
  pub e_shstrndx : ℕ

-- Elf64_Phdr
pub record Phdr : Type 0 where
  pub p_type : ℕ
  pub p_flags : ℕ
  pub p_offset : ℕ
  pub p_vaddr : ℕ
  pub p_paddr : ℕ
  pub p_filesz : ℕ
  pub p_memsz : ℕ
  pub p_align : ℕ

-- Elf64_Shdr
pub record Shdr : Type 0 where
  pub sh_name : ℕ
  pub sh_type : ℕ
  pub sh_flags : ℕ
  pub sh_addr : ℕ
  pub sh_offset : ℕ
  pub sh_size : ℕ
  pub sh_link : ℕ
  pub sh_info : ℕ
  pub sh_addralign : ℕ
  pub sh_entsize : ℕ

abbrev pub sizeof_ehdr : ℕ
sizeof_ehdr = 64

abbrev pub sizeof_phdr : ℕ
sizeof_phdr = 56

abbrev pub sizeof_shdr : ℕ
sizeof_shdr = 64

unfoldable pub ehdr_of : List ℕ → Ehdr
ehdr_of b = record {
  e_ident = take 16 b;
  e_type = field 16 2 b;
  e_machine = field 18 2 b;
  e_version = field 20 4 b;
  e_entry = field 24 8 b;
  e_phoff = field 32 8 b;
  e_shoff = field 40 8 b;
  e_flags = field 48 4 b;
  e_ehsize = field 52 2 b;
  e_phentsize = field 54 2 b;
  e_phnum = field 56 2 b;
  e_shentsize = field 58 2 b;
  e_shnum = field 60 2 b;
  e_shstrndx = field 62 2 b;
}

unfoldable pub phdr_of : List ℕ → Phdr
phdr_of b = record {
  p_type = field 0 4 b;
  p_flags = field 4 4 b;
  p_offset = field 8 8 b;
  p_vaddr = field 16 8 b;
  p_paddr = field 24 8 b;
  p_filesz = field 32 8 b;
  p_memsz = field 40 8 b;
  p_align = field 48 8 b;
}

unfoldable pub shdr_of : List ℕ → Shdr
shdr_of b = record {
  sh_name = field 0 4 b;
  sh_type = field 4 4 b;
  sh_flags = field 8 8 b;
  sh_addr = field 16 8 b;
  sh_offset = field 24 8 b;
  sh_size = field 32 8 b;
  sh_link = field 40 4 b;
  sh_info = field 44 4 b;
  sh_addralign = field 48 8 b;
  sh_entsize = field 56 8 b;
}

abbrev pub em_x86_64 : ℕ
em_x86_64 = 62

abbrev pub em_aarch64 : ℕ
em_aarch64 = 183

abbrev pub pt_load : ℕ
pt_load = 1
