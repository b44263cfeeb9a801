-- ===== src/Tool/Safety/Segments.antt =====
-- The loops of verify: what an entry of the section and of the program header table has to meet.
use lfi_verifier.Prelude.{
  ℕ, suc, ◌^◌, ◌≡◌, ◌≢◌, refl, sym, ap, subst, ◌∙◌, true, false, some, List, [], ltb, ◌==◌, ==_iff,
  length, arith, if◌then◌else◌, take, drop,
}
use lfi_verifier.Options.{Options}
use lfi_verifier.Dispatch.{Answer, answer, assertion, Verify, LfiVerifier, lfiv_verify}
use lfi_verifier.Tool.World.{World, Env, say, go, ◌>>=◌, answered, call_verify}
use lfi_verifier.Tool.Elf.{Ehdr, Phdr, shdr_of, phdr_of, sizeof_phdr, sizeof_shdr}
use lfi_verifier.Tool.Verify.{
  android_relr, read_at, entry_at, section_step, is_exec, Counts, counted, finish_segment,
  exec_segment, segment_step,
}
use lfi_verifier.Tool.Policy.{
  slice, IsReadable, phdr_at, segment_of, IsAccepted, IsReliable, OkEntry,
}
use lfi_verifier.Tool.Safety.Decides.{
  Base, OnBase, Decides, Decides-bind, Decides-if, Decides-map, Decides-check, Decides-check_free,
}

-- The step gives this, and leaves the verifier.
abbrev pub Gives {ℓ} : {A : Type ℓ} → LfiVerifier → A → A → World → Type ℓ
Gives v a b w = (b ≡ a) × (w.v ≡ v)

-- The counts after an entry.
abbrev pub stepped : List ℕ → Ehdr → ℕ → Counts → Counts
stepped file ehdr i c = let phdr = phdr_at file ehdr i in if is_exec phdr then counted phdr c else c

module _ (Reliable : Type 0) (base : Base) (blocks : ℕ) (v : LfiVerifier) where
  pub read_at-Decides :
      (file : List ℕ) (off n : ℕ) (w : World)
      → OnBase base w
      → w.blocks ≡ blocks
      → w.v ≡ v
      → Decides Reliable base blocks
          (IsReadable file off n)
          (Gives v (slice file off n))
          (read_at file off n w)
  unfolding read_at
  read_at-Decides file off n w p q h =
      let P = IsReadable file off n in
      Decides-check Reliable base blocks P _ (ltb off (2 ^ 63)) _ _ _
        (λ _ r. let s = r.seeks in ground arith) p (λ _. q)
        (λ e.
          let got : take n (drop (if ltb off (2 ^ 63) then off else w.pos) file)
              ≡ slice file off n =
            ap (λ b. take n (drop (if b then off else w.pos) file)) e in
          Decides-check Reliable base blocks P _ _ _ _ _
            (λ _ r. (==_iff _ _).1 (ap length got ∙ r.reads)) p (λ _. q)
            (λ full. (
              p,
              q,
              record { seeks = ground arith; reads = sym (ap length got) ∙ (==_iff _ _).0 full },
              (got, h),
            )))

  pub section_step-Decides :
      (file : List ℕ) (ehdr : Ehdr) (i : ℕ) (w : World)
      → OnBase base w
      → w.blocks ≡ blocks
      → w.v ≡ v
      → Decides Reliable base blocks
          (IsReadable file (entry_at ehdr.e_shoff i sizeof_shdr) sizeof_shdr)
          (Gives v tt)
          (section_step file ehdr i tt w)
  unfolding section_step
  section_step-Decides file ehdr i w p q h =
      let P = IsReadable file (entry_at ehdr.e_shoff i sizeof_shdr) sizeof_shdr in
      let at = entry_at ehdr.e_shoff i sizeof_shdr in
      Decides-bind Reliable base blocks P P (Gives v tt) (Gives v (slice file at sizeof_shdr))
        (read_at file at sizeof_shdr) _ w (read_at-Decides file at sizeof_shdr w p q h) (λ r. r)
        (λ b w' p' q' r t.
          Decides-if Reliable base blocks P (Gives v tt) ((shdr_of b).sh_type == 0x6fffff00)
            (say android_relr []) (go tt) w' (λ _. (p', q', r, (refl, t.1)))
            (λ _. (p', q', r, (refl, t.1))))

  module _ (f : Verify) (opts : Options) where
    module _ (linked : v.verify ≡ some f) (same : v.opts ≡ opts) where
      lfiv_verify_linked : (code : List ℕ) (addr : ℕ) → lfiv_verify v code addr ≡ f code addr opts
      unfolding lfiv_verify
      lfiv_verify_linked code addr = rw (linked, same, lfiv_verify) refl

      finish_segment-Decides :
          (file : List ℕ) (phdr : Phdr) (c : Counts) (w : World) (a : Answer)
          → f (segment_of file phdr) phdr.p_vaddr opts ≡ a
          → (Reliable → f (segment_of file phdr) phdr.p_vaddr opts ≢ assertion)
          → IsReadable file phdr.p_offset phdr.p_filesz
          → OnBase base w
          → w.blocks ≡ suc blocks
          → w.v ≡ v
          → Decides Reliable base blocks
              (IsAccepted f opts file phdr)
              (Gives v (counted phdr c))
              ((answered a >>= finish_segment phdr c) w)
      unfolding finish_segment answered
      finish_segment-Decides file phdr c w (answer true msgs) e sure r p q h =
          (p, omega arith, record { contents = r; accepts = (msgs, e) }, (refl, h))
      finish_segment-Decides file phdr c w (answer false msgs) e sure r p q h =
          ((p, q, (_, refl)), λ ok x. let (msgs', e') = x.accepts in cc)
      finish_segment-Decides file phdr c w assertion e sure r p q h =
          (λ ok. sure ok e, λ ok x. sure ok e)

      module _ (e : Env) (reliable : Reliable → IsReliable e opts)
          (sure : Reliable → (code : List ℕ) (addr : ℕ) → f code addr opts ≢ assertion) where
        exec_segment-Decides :
            (file : List ℕ) (phdr : Phdr) (c : Counts) (w : World)
            → OnBase base w
            → w.blocks ≡ blocks
            → w.v ≡ v
            → Decides Reliable base blocks
                (IsAccepted f opts file phdr)
                (Gives v (counted phdr c))
                (exec_segment e file phdr c w)
        unfolding exec_segment call_verify
        exec_segment-Decides file phdr c w p q h =
            let P = IsAccepted f opts file phdr in
            let got = e.malloc w.calls phdr.p_filesz in
            let off = phdr.p_offset in
            let n = phdr.p_filesz in
            Decides-check Reliable base blocks P _ got _ _ _
              (λ ok _. (reliable ok).malloc w.calls n) p
              (λ no. ap (λ b. if b then suc w.blocks else w.blocks) no ∙ q)
              (λ yes.
                let q' : (if got then suc w.blocks else w.blocks) ≡ suc blocks =
                  ap (λ b. if b then suc w.blocks else w.blocks) yes ∙ ap suc q in
                Decides-check_free Reliable base blocks P _ (ltb off (2 ^ 63)) _ _ _
                  (λ _ r. let s = r.contents.seeks in ground arith) p q'
                  (λ seeks.
                    let read : take n (drop (if ltb off (2 ^ 63) then off else w.pos) file)
                        ≡ segment_of file phdr =
                      ap (λ b. take n (drop (if b then off else w.pos) file)) seeks in
                    Decides-check_free Reliable base blocks P _ _ _ _ _
                      (λ _ r. (==_iff _ _).1 (ap length read ∙ r.contents.reads)) p q'
                      (λ full.
                        finish_segment-Decides file phdr c _ _
                          (sym (
                            ap (λ b. lfiv_verify w.v b phdr.p_vaddr) read
                            ∙ ap (λ u. lfiv_verify u (segment_of file phdr) phdr.p_vaddr) h
                            ∙ lfiv_verify_linked (segment_of file phdr) phdr.p_vaddr))
                          (λ ok. sure ok (segment_of file phdr) phdr.p_vaddr)
                          (record {
                            seeks = ground arith;
                            reads = sym (ap length read) ∙ (==_iff _ _).0 full;
                          })
                          p q' h)))

        pub segment_step-Decides :
            (file : List ℕ) (ehdr : Ehdr) (i : ℕ) (c : Counts) (w : World)
            → OnBase base w
            → w.blocks ≡ blocks
            → w.v ≡ v
            → Decides Reliable base blocks
                (OkEntry f opts file ehdr i)
                (Gives v (stepped file ehdr i c))
                (segment_step e file ehdr i c w)
        unfolding segment_step
        segment_step-Decides file ehdr i c w p q h =
            let P = OkEntry f opts file ehdr i in
            let at = entry_at ehdr.e_phoff i sizeof_phdr in
            let phdr = phdr_at file ehdr i in
            let T = Gives v (stepped file ehdr i c) in
            Decides-bind Reliable base blocks P (IsReadable file at sizeof_phdr) T
              (Gives v (slice file at sizeof_phdr)) (read_at file at sizeof_phdr) _ w
              (read_at-Decides file at sizeof_phdr w p q h) (λ r. r.entry)
              (λ b w' p' q' r t.
                subst
                  (λ b.
                    Decides Reliable base blocks P T (
                      (if is_exec (phdr_of b) then exec_segment e file (phdr_of b) c else go c) w'))
                  (sym t.0)
                  (Decides-if Reliable base blocks P T (is_exec phdr) (exec_segment e file phdr c)
                    (go c) w'
                    (λ yes.
                      Decides-map Reliable base blocks P (IsAccepted f opts file phdr) T
                        (Gives v (counted phdr c)) _ (exec_segment-Decides file phdr c w' p' q' t.1)
                        (λ x. x.exec yes)
                        (λ c' w'' x u. (
                          record { entry = r; exec = λ _. x },
                          (u.0 ∙ ap (λ d. if d then counted phdr c else c) (sym yes), u.1),
                        )))
                    (λ no. (
                      p',
                      q',
                      record { entry = r; exec = λ yes. absurd (cc (sym yes ∙ no)) },
                      (ap (λ d. if d then counted phdr c else c) (sym no), t.1),
                    ))))
