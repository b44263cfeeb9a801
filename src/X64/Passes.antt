-- ===== src/X64/Passes.antt =====
-- How checks of src/x64/verify.c are composed: what one accepts, and what it does to the rest of the
-- verifier.
use lfi_verifier.Prelude.{
  subst, sym, refl, false≢true, true, if◌then◌else◌, ℕ, ◌≡◌, ◌↔◌, ◌∙◌, Bool, false, String, arith,
}
use lfi_verifier.X64.Inst.{Inst}
use lfi_verifier.X64.Check.{for_ops}
use lfi_verifier.Options.{Options}
use lfi_verifier.X64.State.{Verifier, verr, verr_if}

-- From `v` to `v'` a check passed exactly if `P`.
pub record Passes (P : Type 0) (v v' : Verifier) : Type 0 where
  pub accept : v'.failed ≡ false → (v.failed ≡ false) × P
  pub pass : v.failed ≡ false → P → v'.failed ≡ false
  pub same_opts : v'.opts ≡ v.opts
  pub same_addr : v'.addr ≡ v.addr
  pub same_bundlesize : v'.bundlesize ≡ v.bundlesize
  pub same_aborted : v'.aborted ≡ v.aborted

pub verr_if-Passes :
    (bad : Bool) (i : Inst) (m : String) (v : Verifier) → Passes (bad ≡ false) v (verr_if bad i m v)
unfolding verr_if
verr_if-Passes bad i m v = ground arith

pub verr-Passes : (i : Inst) (m : String) (v : Verifier) → Passes ⊥ v (verr i m v)
unfolding verr
verr-Passes i m v = ground arith

pub skip-Passes : (v : Verifier) → Passes (Unit {0}) v v
skip-Passes v = ground arith

pub Passes-iff : {P Q : Type 0} {v v' : Verifier} → P ↔ Q → Passes P v v' → Passes Q v v'
Passes-iff e h = record {
  accept = λ f. ((h.accept f).0, e.0 (h.accept f).1);
  pass = λ f q. h.pass f (e.1 q);
  same_opts = h.same_opts;
  same_addr = h.same_addr;
  same_bundlesize = h.same_bundlesize;
  same_aborted = h.same_aborted;
}

-- One check after another.
pub Passes-trans :
    {P Q : Type 0} {u v w : Verifier} → Passes P u v → Passes Q v w → Passes (P × Q) u w
Passes-trans h k = record {
  accept = λ f. ((h.accept (k.accept f).0).0, ((h.accept (k.accept f).0).1, (k.accept f).1));
  pass = λ f pq. k.pass (h.pass f pq.0) pq.1;
  same_opts = k.same_opts ∙ h.same_opts;
  same_addr = k.same_addr ∙ h.same_addr;
  same_bundlesize = k.same_bundlesize ∙ h.same_bundlesize;
  same_aborted = k.same_aborted ∙ h.same_aborted;
}

-- A check whose policy depends on the verifier, after one that leaves it alone.
pub next-Passes :
    (P : Options → ℕ → ℕ → Type 0) (body : Verifier → Verifier)
    → ((w : Verifier) → Passes (P w.opts w.addr w.bundlesize) w (body w))
    → {Q : Type 0} {v u : Verifier} → Passes Q v u
    → Passes (Q × P v.opts v.addr v.bundlesize) v (body u)
next-Passes P body h {v = v} {u = u} k = Passes-trans k (
    subst (λ o. Passes (P o v.addr v.bundlesize) u (body u)) k.same_opts
      (subst (λ a. Passes (P u.opts a v.bundlesize) u (body u)) k.same_addr
        (subst (λ b. Passes (P u.opts u.addr b) u (body u)) k.same_bundlesize (h u))))

-- The loop over the operands passes if each round does.
module _ (P : Options → ℕ → Type 0) (body : ℕ → Verifier → Verifier)
    (h : (i : ℕ) (v : Verifier) → Passes (P v.opts i) v (body i v)) where
  pub for_ops-Passes :
      (v : Verifier) → Passes (P v.opts 0 × P v.opts 1 × P v.opts 2 × P v.opts 3) v (for_ops body v)
  unfolding for_ops
  for_ops-Passes v =
      Passes-iff (λ t. (t.0.0.0, t.0.0.1, t.0.1, t.1), λ t. (((t.0, t.1), t.2), t.3))
        (next-Passes (λ o _ _. P o 3) (body 3) (h 3)
          (next-Passes (λ o _ _. P o 2) (body 2) (h 2)
            (next-Passes (λ o _ _. P o 1) (body 1) (h 1) (h 0 v))))

-- A check that an instruction's type may exempt.
pub unless-Passes :
    {P : Type 0} (c : Bool) {v v' : Verifier}
    → (c ≡ false → Passes P v v')
    → Passes (c ≡ false → P) v (if c then v else v')
unless-Passes true {v = v} h =
    Passes-iff (λ _ e. absurd (false≢true (sym e)), λ _. tt) (skip-Passes v)
unless-Passes false h = Passes-iff (λ p _. p, λ f. f refl) (h refl)
