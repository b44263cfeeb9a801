-- ===== src/Tool/Tests.antt =====
-- The tool run on small files, with the sample decoders of both verifiers linked in.
use lfi_verifier.Prelude.{
  ℕ, zero, suc, ◌≡◌, refl, Bool, true, false, Option, none, some, List, [], ◌∷◌, ◌++◌, String, is,
  if◌then◌else◌,
}
use lfi_verifier.X64.Tests.{decode, sample, verdict, full}
use lfi_verifier.Arm64.Tests.{disarm}
use lfi_verifier.Dispatch.{verify_x64, verify_arm64, lfiv_verify}
use lfi_verifier.Tool.World.{
  World, Step, go, stop, Env, opt_long, answered, call_verify, showerr, time_ns,
}
use lfi_verifier.Tool.Elf.{ehdr_of, phdr_of, shdr_of, field, le}
use lfi_verifier.Tool.Verify.{
  Args, for, is_elf64, wants, read_at, entry_at, section_step, is_exec, finish_segment, select,
  exec_segment, segment_step, rounds, scan_file, check_file, verify_file, at_err, verify_opened,
  verify,
}
use lfi_verifier.Tool.Args.{usage, archname, set_arch, option_step, option_loop}
use lfi_verifier.Tool.Main.{store_inputs, verify_loop, run_inputs, main}

abbrev zeros : ℕ → List ℕ
zeros zero = []
zeros (suc n) = 0 ∷ zeros n

-- An ELF header with a table of one program header behind it.
abbrev elf_header : List ℕ
elf_header =
    (0x7f ∷ 0x45 ∷ 0x4c ∷ 0x46 ∷ 2 ∷ 1 ∷ 1 ∷ [])
    ++ zeros 9
    ++ (2 ∷ 0 ∷ 62 ∷ 0 ∷ 1 ∷ [])
    ++ zeros 11
    ++ (64 ∷ [])
    ++ zeros 19
    ++ (64 ∷ 0 ∷ 56 ∷ 0 ∷ 1 ∷ 0 ∷ [])
    ++ zeros 6

-- The code at 0x1000, of the size 11, from the offset 120.
abbrev program_header : List ℕ
program_header =
    (1 ∷ 0 ∷ 0 ∷ 0 ∷ 5 ∷ 0 ∷ 0 ∷ 0 ∷ 120 ∷ [])
    ++ zeros 8
    ++ (0x10 ∷ [])
    ++ zeros 14
    ++ (11 ∷ [])
    ++ zeros 7
    ++ (11 ∷ [])
    ++ zeros 15

abbrev pub good_file : List ℕ
good_file = elf_header ++ program_header ++ sample

-- The same without the mask of the jump.
abbrev pub bad_file : List ℕ
bad_file =
    elf_header
    ++ program_header
    ++ (0x90 ∷ 0x90 ∷ 0x90 ∷ 0x4c ∷ 0x01 ∷ 0xf0 ∷ 0xff ∷ 0xe0 ∷ 0x90 ∷ 0xeb ∷ 0x15 ∷ [])

abbrev pub files : String → Option (List ℕ)
files name =
    if is name "good" then some good_file else if is name "bad" then some bad_file else none

-- The command is called with --no-bdd, and its arguments are inputs.
abbrev pub env : Env
env = record {
  arch_x64 = true;
  arch_arm64 = true;
  lfiv_verify_x64 = verify_x64 decode (λ _. 1);
  lfiv_verify_arm64 = verify_arm64 disarm;
  fopen = files;
  malloc = λ _ _. true;
  clock_gettime = λ _. true;
  atoi = λ _. 1;
  getopt_long = λ argv. (opt_long "no-bdd" ∷ [], argv);
}

abbrev pub world : World
world = record {
  log = [];
  files = 0;
  opens = 0;
  blocks = 0;
  pos = 0;
  calls = 0;
  v = record { opts = full; verify = none };
}

abbrev pub args : Args
args = record { n = 1; inputs = "good" ∷ []; arch = none }

-- What is seen of a run: the result, and the open files and blocks.
abbrev seen {ℓ} : {A : Type ℓ} → Step A → Option (A × ℕ × ℕ)
seen (go a w) = some (a, w.files, w.blocks)
seen (stop s w) = none

unfoldable pub run : String → Option (Bool × ℕ × ℕ)
unfolding verdict verify_x64 verify_arm64 lfiv_verify answered call_verify showerr time_ns ehdr_of
    phdr_of shdr_of field le for is_elf64 wants read_at entry_at section_step is_exec finish_segment
    select exec_segment segment_step rounds scan_file check_file verify_file at_err verify_opened
    verify
run name = seen (verify env args name world)

unfoldable pub run_main : List String → Option (ℕ × ℕ × ℕ)
unfolding run usage archname set_arch option_step option_loop store_inputs verify_loop run_inputs
    main
run_main argv = seen (main env "lfi-verify" argv world)

good_passes : run "good" ≡ some (true, 0, 0)
unfolding run
good_passes = refl

-- The file and the block of a segment that is refused stay.
bad_leaks : run "bad" ≡ some (false, 1, 1)
unfolding run
bad_leaks = refl

missing_fails : run "other" ≡ some (false, 0, 0)
unfolding run
missing_fails = refl

all_good : run_main ("good" ∷ "good" ∷ []) ≡ some (0, 0, 0)
unfolding run_main
all_good = refl

one_bad : run_main ("good" ∷ "bad" ∷ "good" ∷ []) ≡ some (1, 1, 1)
unfolding run_main
one_bad = refl

-- The process that a run leaves.
abbrev pub left {ℓ} : {A : Type ℓ} → Step A → World
left (go a w) = w
left (stop s w) = w
