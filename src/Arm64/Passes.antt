-- ===== src/Arm64/Passes.antt =====
-- How checks of src/arm64/verify.c are composed: what one accepts, and what it does to the rest of the
-- verifier.
use lfi_verifier.Prelude.{
  ℕ, ◌≡◌, subst, ◌↔◌, ◌∙◌, Bool, false, String, Option, some, some-injective, arith,
}
use lfi_verifier.Options.{Options}
use lfi_verifier.Arm64.Inst.{Inst}
use lfi_verifier.Arm64.Check.{for_ops}
use lfi_verifier.Arm64.State.{Verifier, verrmin, verr, verr_if}

-- From `v` to `v'` a check passed exactly if `P`, and left the guard at `g`.
pub record Passes (P : Type 0) (g : Bool) (v v' : Verifier) : Type 0 where
  pub accept : v'.failed ≡ false → (v.failed ≡ false) × P
  pub pass : v.failed ≡ false → P → v'.failed ≡ false
  pub guard : v'.x30_guarded ≡ g
  pub same_opts : v'.opts ≡ v.opts
  pub same_addr : v'.addr ≡ v.addr

abbrev pub Keeps : Type 0 → Verifier → Verifier → Type 0
Keeps P v v' = Passes P v.x30_guarded v v'

pub verr_if-Keeps :
    (bad : Bool) (i : Inst) (m : String) (v : Verifier) → Keeps (bad ≡ false) v (verr_if bad i m v)
unfolding verr_if
verr_if-Keeps bad i m v = ground arith

pub verr-Keeps : (i : Inst) (m : String) (v : Verifier) → Keeps ⊥ v (verr i m v)
unfolding verr
verr-Keeps i m v = ground arith

pub verrmin-Keeps : (i : Option Inst) (m : String) (v : Verifier) → Keeps ⊥ v (verrmin i m v)
unfolding verrmin
verrmin-Keeps i m v = ground arith

pub skip-Keeps : (v : Verifier) → Keeps (Unit {0}) v v
skip-Keeps v = ground arith

pub Passes-iff :
    {P Q : Type 0} {g : Bool} {v v' : Verifier} → P ↔ Q → Passes P g v v' → Passes Q g v v'
Passes-iff e h = record {
  accept = λ f. ((h.accept f).0, e.0 (h.accept f).1);
  pass = λ f q. h.pass f (e.1 q);
  guard = h.guard;
  same_opts = h.same_opts;
  same_addr = h.same_addr;
}

-- A test and the statement that it decides.
pub tested :
    {bad : Bool} {P : Type 0}
    → (bad ≡ false) ↔ P
    → (i : Inst) (m : String) (v : Verifier) → Keeps P v (verr_if bad i m v)
tested {bad = bad} e i m v = Passes-iff e (verr_if-Keeps bad i m v)

pub Passes-trans :
    {P Q : Type 0} {g h : Bool} {u v w : Verifier}
    → Passes P g u v
    → Passes Q h v w
    → Passes (P × Q) h u w
Passes-trans p q = record {
  accept = λ f. ((p.accept (q.accept f).0).0, ((p.accept (q.accept f).0).1, (q.accept f).1));
  pass = λ f pq. q.pass (p.pass f pq.0) pq.1;
  guard = q.guard;
  same_opts = q.same_opts ∙ p.same_opts;
  same_addr = q.same_addr ∙ p.same_addr;
}

-- A check whose policy and guard depend on the verifier, after one that leaves the options alone.
pub then-Passes :
    (P : Options → Bool → Type 0) (next : Options → Bool → Bool)
    → {Q : Type 0} {g : Bool} {v u w : Verifier} → Passes Q g v u
    → Passes (P u.opts u.x30_guarded) (next u.opts u.x30_guarded) u w
    → Passes (Q × P v.opts g) (next v.opts g) v w
then-Passes P next {g = g} {u = u} {w = w} k h = Passes-trans k (
    subst (λ o. Passes (P o g) (next o g) u w) k.same_opts
      (subst (λ x. Passes (P u.opts x) (next u.opts x) u w) k.guard h))

pub next-Passes :
    (P : Options → Bool → Type 0) (next : Options → Bool → Bool) (body : Verifier → Verifier)
    → ((w : Verifier) → Passes (P w.opts w.x30_guarded) (next w.opts w.x30_guarded) w (body w))
    → {Q : Type 0} {g : Bool} {v u : Verifier} → Passes Q g v u
    → Passes (Q × P v.opts g) (next v.opts g) v (body u)
next-Passes P next body h {u = u} k = then-Passes P next k (h u)

-- A check that can stop at an assert: what holds if it does not.
abbrev pub Checks : Type 0 → Bool → Verifier → Option Verifier → Type 0
Checks P g v r = (w : Verifier) → r ≡ some w → Passes P g v w

pub some-Checks : {P : Type 0} {g : Bool} {v w : Verifier} → Passes P g v w → Checks P g v (some w)
some-Checks {P = P} {g = g} {v = v} h w e = subst (Passes P g v) (some-injective _ _ e) h

-- A statement about each of the five operands.
abbrev pub EachOp : (ℕ → Type 0) → Type 0
EachOp P = P 0 × P 1 × P 2 × P 3 × P 4

-- The loop over the operands, where a round depends on the options and steps the guard.
module _ (P : Options → ℕ → Type 0) (next : Options → ℕ → Bool → Bool)
    (body : ℕ → Verifier → Verifier)
    (h : (i : ℕ) (v : Verifier)
      → Passes (P v.opts i) (next v.opts i v.x30_guarded) v (body i v)) where
  then_round :
      {Q : Type 0} {g : Bool} {v u : Verifier} (i : ℕ)
      → Passes Q g v u
      → Passes (Q × P v.opts i) (next v.opts i g) v (body i u)
  then_round i = next-Passes (λ o _. P o i) (λ o. next o i) (body i) (h i)

  pub for_ops-Passes :
      (v : Verifier)
      → Passes (EachOp (P v.opts)) (for_ops (next v.opts) v.x30_guarded) v (for_ops body v)
  unfolding for_ops
  for_ops-Passes v =
      Passes-iff
        (λ t. (t.0.0.0.0, t.0.0.0.1, t.0.0.1, t.0.1, t.1), λ t. ((((t.0, t.1), t.2), t.3), t.4))
        (then_round 4 (then_round 3 (then_round 2 (then_round 1 (h 0 v)))))
