-- ===== src/Tool/Safety/Select.antt =====
-- The switch of verify on the machine, and its reads of the clock.
use lfi_verifier.Prelude.{
  ℕ, ◌≡◌, refl, sym, ap, ◌∙◌, false, ◌&&◌, inl, inr, Option, none, some, subst, [], ◌∷◌, String,
  ◌==◌, ==_iff, Bool-cases, arith, if◌then◌else◌, false≢true, and-true,
}
use lfi_verifier.Options.{Options}
use lfi_verifier.Dispatch.{Verify, LfiVerifier}
use lfi_verifier.Tool.World.{
  World, Env, Step, go, stop, aborts, assert_verify, goto_err, say, fail, ◌>>◌, time_ns,
}
use lfi_verifier.Tool.Elf.{em_x86_64, em_aarch64}
use lfi_verifier.Tool.Verify.{set_verify, wants, select}
use lfi_verifier.Tool.Policy.{IsSelected, x64, arm64, IsReliable}
use lfi_verifier.Tool.Safety.Decides.{Base, OnBase, Decides, Decides-if}
use lfi_verifier.Tool.Safety.Segments.{Gives}

-- The verifier once its function is set.
abbrev pub linked_to : LfiVerifier → Verify → LfiVerifier
linked_to v f = record v { verify = some f }

module _ (e : Env) (opts : Options) (base : Base) (blocks : ℕ) (v : LfiVerifier) where
  abbrev Reliable : Type 0
  Reliable = IsReliable e opts

  pub select-Decides :
      (arch : Option String) (machine : ℕ) (w : World)
      → OnBase base w
      → w.blocks ≡ blocks
      → w.v ≡ v
      → Decides Reliable base blocks
          ((f : Verify) × IsSelected e arch machine f)
          (λ _ w'. (f : Verify) × IsSelected e arch machine f × (w'.v ≡ linked_to v f))
          (select e arch machine w)
  unfolding select
  select-Decides arch machine w p q h =
      let P = (f : Verify) × IsSelected e arch machine f in
      let Q : Unit {0} → World → Type 0 =
        λ _ w'. (f : Verify) × IsSelected e arch machine f × (w'.v ≡ linked_to v f) in
      let bad64 = say "error: ELF file is x64, not %s\n" (arch ∷ []) >> fail goto_err in
      let bad_arm = say "error: ELF file is arm64, not %s\n" (arch ∷ []) >> fail goto_err in
      let is_x64 = machine == em_x86_64 in
      let is_arm = machine == em_aarch64 in
      let ok64 = e.arch_x64 && wants arch "x64" in
      let ok_arm = e.arch_arm64 && wants arch "arm64" in
      let linked : (f : Verify) → record w.v { verify = some f } ≡ linked_to v f =
        λ f. ap (λ u. linked_to u f) h in
      Decides-if Reliable base blocks P Q is_x64
        (if ok64 then set_verify e.lfiv_verify_x64 else bad64)
        (if is_arm
          then if ok_arm then set_verify e.lfiv_verify_arm64 else bad_arm
          else say "ELF architecture is not x64 or arm64\n" [] >> fail goto_err)
        w
        (λ a.
          Decides-if Reliable base blocks P Q ok64 (set_verify e.lfiv_verify_x64) bad64 w
            (λ b.
              let (c, d) = and-true _ _ b in
              let s = x64 ((==_iff _ _).0 a) c d in (p, q, (_, s), (_, s, linked _)))
            (λ n. ((p, q), λ _ s. not_x64 (s.1) ((==_iff _ _).0 a) n)))
        (λ a.
          Decides-if Reliable base blocks P Q is_arm
            (if ok_arm then set_verify e.lfiv_verify_arm64 else bad_arm)
            (say "ELF architecture is not x64 or arm64\n" [] >> fail goto_err) w
            (λ b.
              Decides-if Reliable base blocks P Q ok_arm (set_verify e.lfiv_verify_arm64) bad_arm w
                (λ g.
                  let (c, d) = and-true _ _ g in
                  let s = arm64 ((==_iff _ _).0 b) c d in (p, q, (_, s), (_, s, linked _)))
                (λ n. ((p, q), λ _ s. not_arm64 s.1 ((==_iff _ _).0 b) n)))
            (λ b. ((p, q), λ _ s. neither s.1 a b)))
    where
      not_x64 :
          {arch : Option String} {machine : ℕ} {f : Verify}
          → IsSelected e arch machine f
          → machine ≡ em_x86_64
          → (e.arch_x64 && wants arch "x64") ≡ false
          → ⊥
      not_x64 (x64 _ b c) _ n = ground arith
      not_x64 (arm64 a _ _) m _ = omega arith

      not_arm64 :
          {arch : Option String} {machine : ℕ} {f : Verify}
          → IsSelected e arch machine f
          → machine ≡ em_aarch64
          → (e.arch_arm64 && wants arch "arm64") ≡ false
          → ⊥
      not_arm64 (x64 a _ _) m _ = omega arith
      not_arm64 (arm64 _ b c) _ n = ground arith

      neither :
          {arch : Option String} {machine : ℕ} {f : Verify}
          → IsSelected e arch machine f
          → (machine == em_x86_64) ≡ false
          → (machine == em_aarch64) ≡ false
          → ⊥
      neither (x64 a _ _) n _ = ground arith
      neither (arm64 a _ _) _ n = ground arith

  -- The assert behind the loop over the sections holds once a function is set.
  pub assert_verify-Decides :
      (f : Verify) (w : World)
      → OnBase base w
      → w.blocks ≡ blocks
      → w.v ≡ linked_to v f
      → Decides Reliable base blocks Unit (Gives (linked_to v f) tt) (assert_verify w)
  assert_verify-Decides f w p q h =
      let passed : assert_verify w ≡ go tt w =
        ap
          (λ (u : LfiVerifier). elim u.verify as (λ _. Step (Unit {0})) [
            | none ↦ stop aborts w
            | some _ ↦ go tt w
          ])
          h in
      subst (Decides Reliable base blocks Unit (Gives (linked_to v f) tt)) (sym passed)
        (p, q, tt, (refl, h))

  pub time_ns-Decides :
      (w : World)
      → OnBase base w
      → w.blocks ≡ blocks
      → w.v ≡ v
      → Decides Reliable base blocks Unit (Gives v tt) (time_ns e w)
  unfolding time_ns
  time_ns-Decides w p q h = elim (Bool-cases (e.clock_gettime w.calls)) [
    | inl yes' ↦ rw yes' (p, q, tt, (refl, h))
    | inr no' ↦ rw no' (
      (refl, λ ok. false≢true (sym no' ∙ ok.clock_gettime w.calls)),
      λ ok _. false≢true (sym no' ∙ ok.clock_gettime w.calls),
    )
  ]
