-- ===== src/Tool/Safety/Entry.antt =====
-- verify of tools/lfi-verify/main.c against the policy.
use lfi_verifier.Prelude.{
  ℕ, suc, ◌≡◌, ◌↔◌, ◌⊎◌, inl, inr, refl, sym, ap, subst, ◌∙◌, Bool, true, false, none, some,
  some-injective, Option, List, [], String, arith,
}
use lfi_verifier.Options.{Options}
use lfi_verifier.Tool.World.{
  World, Env, Step, Stop, goto_err, refused, exits, aborts, go, stop, ◌>>◌, fclose, say,
}
use lfi_verifier.Tool.Verify.{Args, verify_file, verify_opened, at_err, verify}
use lfi_verifier.Tool.Policy.{IsReliable, IsVerified}
use lfi_verifier.Tool.Safety.Decides.{Decides, SaidRefused}
use lfi_verifier.Tool.Safety.File.{check_file-Decides}

-- A stop that ends the process: with status 1, or by a failed assert.
abbrev pub IsFatal : Stop → Type 0
IsFatal s = (s ≡ exits 1) ⊎ (s ≡ aborts)

-- The file that the name opens is to be accepted.
pub record IsAcceptable (e : Env) (args : Args) (opts : Options) (filename : String) : Type 0 where
  pub file : List ℕ
  pub opens : e.fopen filename ≡ some file
  pub verified : IsVerified e args opts file

module _ (e : Env) (opts : Options) (args : Args) (filename : String) where
  -- What a call of verify ends in, where so many files and blocks were open before.
  abbrev pub Ended : ℕ → ℕ → Step Bool → Type 0
  Ended files blocks (go true w) =
      (w.files ≡ files)
      × (w.blocks ≡ blocks)
      × (w.v.opts ≡ opts)
      × IsAcceptable e args opts filename
  Ended files blocks (go false w) =
      (((w.files ≡ files) × (w.blocks ≡ blocks))
        ⊎ ((w.files ≡ suc files) × (w.blocks ≡ suc blocks) × SaidRefused w))
      × (w.v.opts ≡ opts)
      × (IsReliable e opts → IsAcceptable e args opts filename → ⊥)
  Ended files blocks (stop s w) = IsFatal s × (IsReliable e opts → ⊥)

  IsVerified-of :
      {file : List ℕ}
      → e.fopen filename ≡ some file
      → IsAcceptable e args opts filename
      → IsVerified e args opts file
  IsVerified-of o x =
      subst (IsVerified e args opts) (some-injective _ _ (sym x.opens ∙ o)) x.verified

  -- Behind check_file come fclose and the label err.
  at_err-Ended :
      (file : List ℕ) (files blocks : ℕ) (r : Step (Unit {0}))
      → e.fopen filename ≡ some file
      → Decides
          (IsReliable e opts)
          (record { files = suc files; opts = opts })
          blocks
          (IsVerified e args opts file)
          (λ _ _. Unit)
          r
      → Ended files blocks (
          at_err (elim r [
            | go _ w ↦ (fclose >> say "verification passed (%.1f MiB/s)\n" [] >> go true) w
            | stop s w ↦ stop s w
          ]))
  unfolding at_err
  at_err-Ended file files blocks (go _ w) o (p, q, x, _) =
      (omega (arith, p.0), q, p.1, record { file = file; opens = o; verified = x })
  at_err-Ended file files blocks (stop goto_err w) o (l, n) =
      (inl (omega (arith, l.0.0), l.1), l.0.1, λ ok x. n ok (IsVerified-of o x))
  at_err-Ended file files blocks (stop refused w) o (l, n) =
      (inr (l.0.0, l.1, l.2), l.0.1, λ ok x. n ok (IsVerified-of o x))
  at_err-Ended file files blocks (stop (exits _) w) o (l, n) = (inl (ap exits l.0), l.1)
  at_err-Ended file files blocks (stop aborts w) o (l, n) = (inr refl, l)

  verify_opened-Ended :
      (o : Option (List ℕ)) (w : World)
      → e.fopen filename ≡ o
      → w.v.opts ≡ opts
      → Ended w.files w.blocks (verify_opened e args filename o w)
  unfolding verify_opened verify_file
  verify_opened-Ended none w o same = (inl (refl, refl), same, λ ok x. cc)
  verify_opened-Ended (some file) w o same = at_err-Ended file w.files w.blocks _ o (
      check_file-Decides e opts args file (record { files = suc w.files; opts = opts }) w.blocks w.v
        same (record w { files = suc w.files; opens = suc w.opens }) (refl, same) refl refl)

  pub verify-Ended :
      (w : World) → w.v.opts ≡ opts → Ended w.files w.blocks (verify e args filename w)
  unfolding verify
  verify-Ended w same = verify_opened-Ended (e.fopen filename) w refl same

  module _ (w : World) (same : w.v.opts ≡ opts) where
    -- A call of verify that returns true, whatever the system does, was for a file that can be opened and
    -- is to be accepted: a 64-bit ELF file for a machine that is built in and asked for, with readable
    -- tables, whose executable segments, at least one, lie in the file and pass the verifier.
    pub verify-IsAcceptable :
        (w' : World) → verify e args filename w ≡ go true w' → IsAcceptable e args opts filename
    verify-IsAcceptable w' h = (subst (Ended w.files w.blocks) h (verify-Ended w same)).3

    -- On a reliable system verify returns.
    pub verify_total :
        IsReliable e opts → (b : Bool) × (w' : World) × (verify e args filename w ≡ go b w')
    verify_total ok = returned (verify e args filename w) (verify-Ended w same)
      where
        returned :
            (r : Step Bool) → Ended w.files w.blocks r → (b : Bool) × (w' : World) × (r ≡ go b w')
        returned (go b w') _ = (b, w', refl)
        returned (stop s w') n = absurd (n.1 ok)

    -- On a reliable system verify returns true exactly for a file that is to be accepted.
    pub verify_exact :
        IsReliable e opts
        → ((w' : World) × (verify e args filename w ≡ go true w'))
          ↔ IsAcceptable e args opts filename
    verify_exact ok = (
      λ h. verify-IsAcceptable h.0 h.1,
      λ x. let (b, w', h) = verify_total ok in accepted b w' h x,
    )
      where
        accepted :
            (b : Bool) (w' : World)
            → verify e args filename w ≡ go b w'
            → IsAcceptable e args opts filename
            → (w' : World) × (verify e args filename w ≡ go true w')
        accepted true w' h x = (w', h)
        accepted false w' h x =
            absurd ((subst (Ended w.files w.blocks) h (verify-Ended w same)).2 ok x)

    -- When verify returns, as many files and blocks are open as before; or it returns false, its last
    -- line says that the verification failed, and one file and one block more are open.
    pub verify_resources :
        (b : Bool) (w' : World)
        → verify e args filename w ≡ go b w'
        → ((w'.files ≡ w.files) × (w'.blocks ≡ w.blocks))
          ⊎ ((b ≡ false) × (w'.files ≡ suc w.files) × (w'.blocks ≡ suc w.blocks) × SaidRefused w')
    verify_resources b w' h = held b (subst (Ended w.files w.blocks) h (verify-Ended w same))
      where
        held :
            (b : Bool)
            → Ended w.files w.blocks (go b w')
            → ((w'.files ≡ w.files) × (w'.blocks ≡ w.blocks))
              ⊎ ((b ≡ false)
                  × (w'.files ≡ suc w.files)
                  × (w'.blocks ≡ suc w.blocks)
                  × SaidRefused w')
        held true (p, q, _, _) = inl (p, q)
        held false (inl s, _, _) = inl s
        held false (inr (p, q, s), _, _) = inr (refl, p, q, s)
