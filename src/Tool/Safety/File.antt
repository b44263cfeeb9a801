-- ===== src/Tool/Safety/File.antt =====
-- verify of tools/lfi-verify/main.c on an open file, up to its last test, against the policy.
use lfi_verifier.Prelude.{
  ℕ, zero, suc, ◌*◌, ◌%◌, ◌^◌, ◌<◌, ◌≡◌, ◌≢◌, refl, subst, true, not, List, ◌==◌, ==_iff, length,
  arith,
}
use lfi_verifier.Options.{Options}
use lfi_verifier.Dispatch.{assertion, Verify, LfiVerifier}
use lfi_verifier.Tool.World.{World, Env, assert_verify, time_ns}
use lfi_verifier.Tool.Elf.{Ehdr, sizeof_ehdr, sizeof_shdr}
use lfi_verifier.Tool.Verify.{
  Args, select, rounds, for, section_step, segment_step, entry_at, is_elf64, scan_file, check_file,
}
use lfi_verifier.Tool.Policy.{
  slice, header, IsReadable, IsSelected, x64, arm64, IsSelected-unique, IsReliable, IsVerified,
  OkEntry, execs,
}
use lfi_verifier.Tool.Safety.Decides.{
  Base, OnBase, Decides, Decides-bind, Decides-check, Decides-check_last, Decides-loop,
}
use lfi_verifier.Tool.Safety.Segments.{Gives, section_step-Decides}
use lfi_verifier.Tool.Safety.Rounds.{Counted, rounds-Decides}
use lfi_verifier.Tool.Safety.Select.{
  linked_to, select-Decides, assert_verify-Decides, time_ns-Decides,
}

-- A reliable system's verifiers fail no assert, whichever is selected.
selected-sure :
    (e : Env) (opts : Options) {arch : _} {machine : ℕ} {f : Verify}
    → IsSelected e arch machine f
    → IsReliable e opts
    → (code : List ℕ) (addr : ℕ) → f code addr opts ≢ assertion
selected-sure e opts (x64 _ _ _) ok = ok.x64
selected-sure e opts (arm64 _ _ _) ok = ok.arm64

some_rounds : (k m : ℕ) → k * m % 2 ^ 32 ≢ 0 → 0 < k
some_rounds zero m h = absurd (h (omega arith))
some_rounds (suc k) m h = omega arith

module _ (e : Env) (opts : Options) (args : Args) (file : List ℕ) (base : Base) (blocks : ℕ)
    (v : LfiVerifier) (same : v.opts ≡ opts) where
  abbrev Reliable : Type 0
  Reliable = IsReliable e opts

  abbrev Verified : Type 0
  Verified = IsVerified e args opts file

  abbrev ehdr : Ehdr
  ehdr = header file

  abbrev Done : Unit {0} → World → Type 0
  Done _ _ = Unit

  scan_file-Decides :
      (f : Verify)
      → IsSelected e args.arch ehdr.e_machine f
      → length (slice file 0 sizeof_ehdr) ≡ sizeof_ehdr
      → is_elf64 ehdr.e_ident ≡ true
      → (w : World) → OnBase base w
      → w.blocks ≡ blocks
      → w.v ≡ linked_to v f
      → Decides Reliable base blocks Verified Done (scan_file e args file ehdr w)
  unfolding scan_file
  scan_file-Decides f s read elf w p q h =
      let u = linked_to v f in
      let k = rounds args.n in
      let total = execs file ehdr ehdr.e_phnum in
      let Sections =
        (i : ℕ)
        → i < ehdr.e_shnum
        → IsReadable file (entry_at ehdr.e_shoff i sizeof_shdr) sizeof_shdr in
      let Entries = (i : ℕ) → i < ehdr.e_phnum → OkEntry f opts file ehdr i in
      Decides-bind Reliable base blocks Verified Sections Done (Gives u tt)
        (for ehdr.e_shnum 0 (section_step file ehdr) tt) _ w
        (Decides-loop Reliable base blocks
          (λ i. IsReadable file (entry_at ehdr.e_shoff i sizeof_shdr) sizeof_shdr) (λ _. Gives u tt)
          (section_step file ehdr)
          (λ i _ w' p' q' t. section_step-Decides Reliable base blocks u file ehdr i w' p' q' t.1)
          ehdr.e_shnum tt w p q (refl, h))
        (λ x. x.sections)
        (λ _ w₀ p₀ q₀ sections g₀.
          Decides-bind Reliable base blocks Verified Unit Done (Gives u tt) assert_verify _ w₀
            (assert_verify-Decides e opts base blocks v f w₀ p₀ q₀ g₀.1) (λ _. tt)
            (λ _ w₁ p₁ q₁ _ g₁.
              Decides-bind Reliable base blocks Verified Unit Done (Gives u tt) (time_ns e) _ w₁
                (time_ns-Decides e opts base blocks u w₁ p₁ q₁ g₁.1) (λ _. tt)
                (λ _ w₂ p₂ q₂ _ g₂.
                  Decides-bind Reliable base blocks Verified ((r : ℕ) → r < k → Entries) Done
                    (Counted u (k * total))
                    (for k 0 (λ _. for ehdr.e_phnum 0 (segment_step e file ehdr)) _) _ w₂
                    (rounds-Decides base blocks u f opts refl same e (selected-sure e opts s) file
                      ehdr k (record { segments = 0; total = 0 }) w₂ p₂ q₂ (omega arith, g₂.1))
                    (λ x _ _.
                      subst (λ g. (i : ℕ) → i < ehdr.e_phnum → OkEntry g opts file ehdr i)
                        (IsSelected-unique x.selected s) x.entries)
                    (λ c w₃ p₃ q₃ all g₃.
                      Decides-bind Reliable base blocks Verified Unit Done (Gives u tt) (time_ns e)
                        _ w₃ (time_ns-Decides e opts base blocks u w₃ p₃ q₃ g₃.1) (λ _. tt)
                        (λ _ w₄ p₄ q₄ _ _.
                          Decides-check_last Reliable base blocks Verified Done
                            (not (c.segments == 0)) _ w₄
                            (λ _ x. let n = x.counted in let m = g₃.0 in ground arith) p₄ q₄
                            (λ some_found.
                              let found : k * total % 2 ^ 32 ≢ 0 =
                                λ z. let m = g₃.0 in ground arith in
                              (
                                record {
                                  reads = read;
                                  elf = elf;
                                  f = f;
                                  selected = s;
                                  sections = sections;
                                  entries = all 0 (some_rounds k total found);
                                  counted = found;
                                },
                                tt,
                              )))))))

  pub check_file-Decides :
      (w : World)
      → OnBase base w
      → w.blocks ≡ blocks
      → w.v ≡ v
      → Decides Reliable base blocks Verified Done (check_file e args file (record w { pos = 0 }))
  unfolding check_file
  check_file-Decides w p q h =
      Decides-check Reliable base blocks Verified Done _ _ _ _ (λ _ x. (==_iff _ _).1 x.reads) p
        (λ _. q)
        (λ a.
          Decides-check Reliable base blocks Verified Done (is_elf64 ehdr.e_ident) _ _ _
            (λ _ x. x.elf) p (λ _. q)
            (λ b.
              Decides-bind Reliable base blocks Verified
                ((f : Verify) × IsSelected e args.arch ehdr.e_machine f) Done
                (λ _ w'.
                  (f : Verify) × IsSelected e args.arch ehdr.e_machine f × (w'.v ≡ linked_to v f))
                (select e args.arch ehdr.e_machine) _ _
                (select-Decides e opts base blocks v args.arch ehdr.e_machine _ p q h)
                (λ x. (x.f, x.selected))
                (λ _ w' p' q' _ s. scan_file-Decides s.0 s.1 ((==_iff _ _).0 a) b w' p' q' s.2)))
