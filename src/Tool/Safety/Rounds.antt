-- ===== src/Tool/Safety/Rounds.antt =====
-- The loops of verify over the program headers and over the rounds, and the count of segments.
use lfi_verifier.Prelude.{
  ℕ, suc, ◌+◌, ◌*◌, ◌%◌, ◌^◌, ◌<◌, ◌≡◌, ◌≢◌, ap, ◌∙◌, inl, inr, some, List, Bool-cases, arith,
}
use lfi_verifier.Options.{Options}
use lfi_verifier.Dispatch.{assertion, Verify, LfiVerifier}
use lfi_verifier.Tool.World.{World, Env}
use lfi_verifier.Tool.Elf.{Ehdr}
use lfi_verifier.Tool.Verify.{for, is_exec, Counts, segment_step}
use lfi_verifier.Tool.Policy.{phdr_at, IsReliable, OkEntry, execs}
use lfi_verifier.Tool.Safety.Decides.{Base, OnBase, Decides, Decides-map, Decides-loop}
use lfi_verifier.Tool.Safety.Segments.{Gives, stepped, segment_step-Decides}

-- The unsigned count of segments, where so many were found.
abbrev pub Counted : LfiVerifier → ℕ → Counts → World → Type 0
Counted v n c w = (c.segments ≡ n % 2 ^ 32) × (w.v ≡ v)

stepped-segments :
    (file : List ℕ) (ehdr : Ehdr) (i n : ℕ) (c : Counts)
    → c.segments ≡ (n + execs file ehdr i) % 2 ^ 32
    → (stepped file ehdr i c).segments ≡ (n + execs file ehdr (suc i)) % 2 ^ 32
unfolding execs
stepped-segments file ehdr i n c h = elim (Bool-cases (is_exec (phdr_at file ehdr i))) [
  | inl e ↦ rw e (omega arith)
  | inr e ↦ rw e (omega arith)
]

module _ (base : Base) (blocks : ℕ) (v : LfiVerifier) (f : Verify) (opts : Options)
    (linked : v.verify ≡ some f) (same : v.opts ≡ opts) (e : Env)
    (sure : IsReliable e opts → (code : List ℕ) (addr : ℕ) → f code addr opts ≢ assertion)
    (file : List ℕ) (ehdr : Ehdr) where
  abbrev Reliable : Type 0
  Reliable = IsReliable e opts

  -- Every entry of the table.
  abbrev AllEntries : Type 0
  AllEntries = (i : ℕ) → i < ehdr.e_phnum → OkEntry f opts file ehdr i

  entries-Decides :
      (n : ℕ) (c : Counts) (w : World)
      → OnBase base w
      → w.blocks ≡ blocks
      → Counted v n c w
      → Decides Reliable base blocks AllEntries
          (Counted v (n + execs file ehdr ehdr.e_phnum))
          (for ehdr.e_phnum 0 (segment_step e file ehdr) c w)
  unfolding execs
  entries-Decides n c w p q h =
      let I : ℕ → Counts → World → Type 0 = λ i. Counted v (n + execs file ehdr i) in
      Decides-loop Reliable base blocks (OkEntry f opts file ehdr) I (segment_step e file ehdr)
        (λ i s u p' q' t.
          Decides-map Reliable base blocks (OkEntry f opts file ehdr i) (OkEntry f opts file ehdr i)
            (I (suc i)) (Gives v (stepped file ehdr i s)) _
            (segment_step-Decides Reliable base blocks v f opts linked same e (λ r. r) sure file
              ehdr i s u p' q' t.1)
            (λ x. x)
            (λ s' u' x y.
              (x, (ap (λ z. z.segments) y.0 ∙ stepped-segments file ehdr i n s t.0, y.1))))
        ehdr.e_phnum c w p q (h.0 ∙ omega arith, h.1)

  -- The rounds find the segments as often as there are rounds.
  pub rounds-Decides :
      (k : ℕ) (c : Counts) (w : World)
      → OnBase base w
      → w.blocks ≡ blocks
      → Counted v 0 c w
      → Decides Reliable base blocks
          ((r : ℕ) → r < k → AllEntries)
          (Counted v (k * execs file ehdr ehdr.e_phnum))
          (for k 0 (λ _. for ehdr.e_phnum 0 (segment_step e file ehdr)) c w)
  rounds-Decides k c w p q h =
      let total = execs file ehdr ehdr.e_phnum in
      Decides-loop Reliable base blocks (λ _. AllEntries) (λ r. Counted v (r * total))
        (λ _. for ehdr.e_phnum 0 (segment_step e file ehdr))
        (λ r s u p' q' t.
          Decides-map Reliable base blocks AllEntries AllEntries (Counted v (suc r * total))
            (Counted v (r * total + total)) _ (entries-Decides (r * total) s u p' q' t) (λ x. x)
            (λ s' u' x y. (x, (y.0 ∙ ap (λ m. m % 2 ^ 32) (omega arith), y.1))))
        k c w p q (h.0 ∙ omega arith, h.1)
