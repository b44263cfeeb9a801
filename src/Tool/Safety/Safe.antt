-- ===== src/Tool/Safety/Safe.antt =====
-- The tool with the verifiers of src/x64 and src/arm64 linked in: from the exit status to the code.
use lfi_verifier.Prelude.{
  ℕ, ◌<◌, ◌≡◌, ◌%◌, ◌^◌, sym, ap, ◌∙◌, true, some, Option, List, [], ◌∷◌, String, length, All,
}
use lfi_verifier.Options.{Options}
use lfi_verifier.X64.Inst.{Decoder, DecodeLaws}
use lfi_verifier.X64.Layout.{Bundled}
use lfi_verifier.X64.Safety.Entry.{lfiv_verify_x64_sound}
use lfi_verifier.Arm64.Inst.{Disarm}
use lfi_verifier.Arm64.Policy.{SafeRun}
use lfi_verifier.Arm64.Verify.{words}
use lfi_verifier.Arm64.Safety.Entry.{lfiv_verify_arm64_sound}
use lfi_verifier.Dispatch.{Verify, answer, verify_x64, verify_arm64}
use lfi_verifier.Dispatch.Answers.{verify_x64-returns, verify_arm64-some}
use lfi_verifier.Tool.World.{World, Env, go}
use lfi_verifier.Tool.Elf.{em_x86_64, em_aarch64}
use lfi_verifier.Tool.Verify.{Args, is_exec}
use lfi_verifier.Tool.Args.{Settings, defaults, option_loop}
use lfi_verifier.Tool.Main.{main}
use lfi_verifier.Tool.Policy.{header, phdr_at, segment_of, IsSelected, x64, arm64}
use lfi_verifier.Tool.Safety.Entry.{IsAcceptable}
use lfi_verifier.Tool.Safety.Program.{args_of, opts_of}
use lfi_verifier.Tool.Safety.Exit.{main_sound}
use lfi_verifier.Tool.Safety.Fields.{IsBytes, p_vaddr-lt}

module _ (fd_decode : Decoder) (d : Disarm) where
  -- What the policy of its machine says of a segment at an address.
  pub data IsSafe (opts : Options) (machine : ℕ) (code : List ℕ) (addr : ℕ) : Type 0 where
    x64_code :
        machine ≡ em_x86_64 → Bundled fd_decode opts addr code 0 → IsSafe opts machine code addr
    arm64_code :
        machine ≡ em_aarch64
        → length code % 4 ≡ 0
        → SafeRun d opts true (words code)
        → IsSafe opts machine code addr

  -- Every executable segment of the file that the name opens is safe at its address.
  pub record IsSafeFile (e : Env) (opts : Options) (filename : String) : Type 0 where
    pub file : List ℕ
    pub opens : e.fopen filename ≡ some file
    pub segments :
        (i : ℕ)
        → i < (header file).e_phnum
        → is_exec (phdr_at file (header file) i) ≡ true
        → let phdr = phdr_at file (header file) i in
          IsSafe opts (header file).e_machine (segment_of file phdr) phdr.p_vaddr

  -- The verifiers that the tool calls are those of the repository, over these decoders, and files are
  -- made of bytes.
  pub record IsLinked (e : Env) (lfi_x86_bdd : List ℕ → ℕ) : Type 0 where
    pub x64_linked : e.lfiv_verify_x64 ≡ verify_x64 fd_decode lfi_x86_bdd
    pub arm64_linked : e.lfiv_verify_arm64 ≡ verify_arm64 d
    pub bytes : (filename : String) (file : List ℕ) → e.fopen filename ≡ some file → IsBytes file

  module _ (lfi_x86_bdd : List ℕ → ℕ) (e : Env) (laws : DecodeLaws fd_decode)
      (linked : IsLinked e lfi_x86_bdd) where
    selected-IsSafe :
        {arch : Option String} {machine : ℕ} {f : Verify} (opts : Options) (code : List ℕ)
        (addr : ℕ) {msgs : List String}
        → IsSelected e arch machine f
        → addr < 2 ^ 64
        → f code addr opts ≡ answer true msgs
        → IsSafe opts machine code addr
    selected-IsSafe opts code addr (x64 m _ _) l h = x64_code m (
        lfiv_verify_x64_sound fd_decode lfi_x86_bdd code addr opts laws l (
          verify_x64-returns fd_decode lfi_x86_bdd code addr opts
            (ap (λ g. g code addr opts) (sym linked.x64_linked) ∙ h)))
    selected-IsSafe opts code addr (arm64 m _ _) l h =
        let (v, a) =
          verify_arm64-some d code addr opts
            (ap (λ g. g code addr opts) (sym linked.arm64_linked) ∙ h) in
        let (n, r) = lfiv_verify_arm64_sound d code addr opts v a in arm64_code m n r

    IsAcceptable-IsSafeFile :
        (args : Args) (opts : Options) (filename : String)
        → IsAcceptable e args opts filename
        → IsSafeFile e opts filename
    IsAcceptable-IsSafeFile args opts filename x =
        let v = x.verified in
        record {
          file = x.file;
          opens = x.opens;
          segments = λ i l exec.
              let phdr = phdr_at x.file (header x.file) i in
              let (msgs, h) = ((v.entries i l).exec exec).accepts in
              selected-IsSafe opts (segment_of x.file phdr) phdr.p_vaddr v.selected
                (p_vaddr-lt x.file (header x.file) i (linked.bytes filename x.file x.opens)) h;
        }

    All-IsSafeFile :
        (args : Args) (opts : Options) (names : List String)
        → All (IsAcceptable e args opts) names
        → All (IsSafeFile e opts) names
    All-IsSafeFile args opts [] all = tt
    All-IsSafeFile args opts (name ∷ names) all =
        (IsAcceptable-IsSafeFile args opts name all.0, All-IsSafeFile args opts names all.1)

    -- Where lfi-verify, linked with the verifiers of the repository and a lawful x64 decoder, returns 0,
    -- the options were read, and every executable segment of every input is at its address what
    -- the policy of its machine allows under them: x64 code cut into bundles of macros and
    -- safe instructions, or arm64 code that runs through safe instructions with x30 guarded.
    pub main_safe :
        (prog : String) (argv : List String) (w w' : World)
        → main e prog argv w ≡ go 0 w'
        → (s : Settings) × (w₁ : World) × (option_loop e prog (e.getopt_long argv).0 defaults w
            ≡ go s w₁)
          × All (IsSafeFile e (opts_of s)) (e.getopt_long argv).1
    main_safe prog argv w w' h =
        let (s, w₁, read, all) = main_sound e prog argv w w' h in
        (s, w₁, read, All-IsSafeFile (args_of s (e.getopt_long argv).1) (opts_of s) _ all)
