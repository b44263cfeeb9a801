-- ===== src/Arm64/Safety/Branches.antt =====
-- chkbranch of src/arm64/verify.c against the policy for control flow.
use lfi_verifier.Prelude.{
  ℕ, ◌≡◌, ◌↔◌, ◌⊎◌, inl, inr, refl, subst, Bool, true, false, not, ◌&&◌, ◌||◌, List, [], ◌∷◌,
  String, arith, eq_iff, is, one_of, Bool-cases, require-eq-some,
}
use lfi_verifier.Arm64.Inst.{Group, Inst, is_reggp, is_branch, is_branchreg}
use lfi_verifier.Arm64.State.{Verifier, verr_if}
use lfi_verifier.Arm64.Regs.{cfreg, rtsysreg}
use lfi_verifier.Arm64.Check.{unguarded_msg, chk_indirect, chk_direct, chkbranch}
use lfi_verifier.Arm64.Passes.{
  Passes, Keeps, verr-Keeps, skip-Keeps, tested, Passes-iff, Passes-trans, Checks, some-Checks,
}
use lfi_verifier.Arm64.Policy.{BranchOk, direct, runtime_call, indirect, indirect_mnems}

abbrev IndirectOk : Bool → Inst → Type 0
IndirectOk g dinst = (((dinst.ops 0).reg ≡ 28) ⊎ ((dinst.ops 0).reg ≡ 30)) × (g ≡ true)

cfreg_iff : (r : ℕ) → (not (cfreg r) ≡ false) ↔ ((r ≡ 28) ⊎ (r ≡ 30))
unfolding cfreg
cfreg_iff r = ground arith

rtsysreg_iff : (r : ℕ) → (rtsysreg r ≡ true) ↔ (r ≡ 27)
unfolding rtsysreg
rtsysreg_iff r = ground arith

not_iff : (b : Bool) → (not b ≡ false) ↔ (b ≡ true)
not_iff b = ground arith

chk_indirect-Checks :
    (dinst : Inst) (v : Verifier)
    → Checks (IndirectOk v.x30_guarded dinst) v.x30_guarded v (chk_indirect dinst v)
unfolding chk_indirect
chk_indirect-Checks dinst v w e =
    some-Checks
      (Passes-trans
        (tested (cfreg_iff (dinst.ops 0).reg) dinst "indirect branch using illegal register" v)
        (guard_kept _
          (tested (cfreg_iff (dinst.ops 0).reg) dinst "indirect branch using illegal register" v)))
      w (require-eq-some (is_reggp (dinst.ops 0).type) _ e).1
  where
    guard_kept :
        {P : Type 0} (u : Verifier)
        → Keeps P v u
        → Passes
            (v.x30_guarded ≡ true)
            v.x30_guarded
            u
            (verr_if (not v.x30_guarded) dinst unguarded_msg u)
    guard_kept u k =
        subst
          (λ g.
            Passes (v.x30_guarded ≡ true) g u (verr_if (not v.x30_guarded) dinst unguarded_msg u))
          k.guard (tested (not_iff v.x30_guarded) dinst unguarded_msg u)

direct_iff :
    (group : Group) (g : Bool)
    → ((is_branch group && not g) ≡ false) ↔ (is_branch group ≡ true → g ≡ true)
direct_iff group g = (
  λ h e. ground arith,
  λ h. elim (Bool-cases (is_branch group)) [ inl e ↦ ground (arith, h e) | inr e ↦ rw e ],
)

chk_direct-Checks :
    (group : Group) (dinst : Inst) (v : Verifier)
    → Checks
        (is_branch group ≡ true → v.x30_guarded ≡ true)
        v.x30_guarded
        v
        (chk_direct group dinst v)
unfolding chk_direct
chk_direct-Checks group dinst v w e =
    some-Checks (tested (direct_iff group v.x30_guarded) dinst unguarded_msg v) w
      (require-eq-some (not (is_branchreg group)) _ e).1

abbrev pub two_mnems : List String
two_mnems = "DA64I_BR" ∷ "DA64I_RET" ∷ []

abbrev pub auth_mnems : List String
auth_mnems = "DA64I_RETAA" ∷ "DA64I_RETAB" ∷ []

-- The five mnemonics fall into the three classes of the switch.
pub listed_iff :
    (m : String)
    → (one_of indirect_mnems m ≡ false)
      ↔ ((is m "DA64I_BLR" ≡ false) × (one_of two_mnems m ≡ false) × (one_of auth_mnems m ≡ false))
unfolding one_of
listed_iff m = (λ h. (ground arith, ground arith, ground arith), λ h. ground arith)

pub two_iff : (m : String) → (one_of two_mnems m ≡ true) ↔ ((m ≡ "DA64I_BR") ⊎ (m ≡ "DA64I_RET"))
unfolding one_of
two_iff m = ground (arith, eq_iff m "DA64I_BR", eq_iff m "DA64I_RET")

auth_apart :
    (m : String)
    → one_of auth_mnems m ≡ true
    → (is m "DA64I_BLR" ≡ false) × (one_of two_mnems m ≡ false)
unfolding one_of
auth_apart m h = elim (Bool-cases (is m "DA64I_RETAA")) [
  | inl a ↦ rw ((eq_iff m "DA64I_RETAA").0 a) (refl, refl)
  | inr a ↦
      let b : is m "DA64I_RETAB" ≡ true = ground arith in
      rw ((eq_iff m "DA64I_RETAB").0 b) (refl, refl)
]

module _ (group : Group) (g : Bool) (dinst : Inst) where
  -- What the policy says in each class.
  indirect_of :
      (is dinst.mnem "DA64I_BLR" || one_of two_mnems dinst.mnem) ≡ true
      → (is dinst.mnem "DA64I_BLR" ≡ true → rtsysreg (dinst.ops 0).reg ≡ false)
      → BranchOk group g dinst
      → IndirectOk g dinst
  unfolding rtsysreg
  indirect_of c n (direct h _) =
      let l = (listed_iff dinst.mnem).0 h in absurd (ground (arith, l.0, l.1))
  indirect_of c n (runtime_call m r) =
      absurd (ground (arith, n ((eq_iff dinst.mnem "DA64I_BLR").1 m)))
  indirect_of c n (indirect _ r h) = (r, h)

  named :
      is dinst.mnem "DA64I_BLR" ≡ false
      → one_of two_mnems dinst.mnem ≡ false
      → BranchOk group g dinst
      → (one_of indirect_mnems dinst.mnem ≡ false) × (is_branch group ≡ true → g ≡ true)
  named a b (direct h f) = (h, f)
  named a b (runtime_call m _) = absurd (ground (arith, (eq_iff dinst.mnem "DA64I_BLR").1 m))
  named a b (indirect (inl m) _ _) = absurd (ground (arith, (eq_iff dinst.mnem "DA64I_BLR").1 m))
  named a b (indirect (inr m) _ _) = absurd (ground (arith, (two_iff dinst.mnem).1 m))

  auth_refused : one_of auth_mnems dinst.mnem ≡ true → ¬ BranchOk group g dinst
  auth_refused h b =
      let (p, q) = auth_apart dinst.mnem h in
      let l = (listed_iff dinst.mnem).0 (named p q b).0 in ground (arith, l.2)

-- Where no assert fails, chkbranch leaves the verifier unfailed exactly if it was and the policy allows
-- the control flow; it keeps the guard of x30, the options and the address.
pub chkbranch-Checks :
    (group : Group) (dinst : Inst) (v : Verifier)
    → Checks (BranchOk group v.x30_guarded dinst) v.x30_guarded v (chkbranch group dinst v)
unfolding chkbranch
chkbranch-Checks group dinst v = elim (Bool-cases (is dinst.mnem "DA64I_BLR")) [
  | inl b ↦
      let m = (eq_iff dinst.mnem "DA64I_BLR").0 b in
      rw b (elim (Bool-cases (rtsysreg (dinst.ops 0).reg)) [
        | inl r ↦ rw r (
            some-Checks (
              Passes-iff (λ _. runtime_call m ((rtsysreg_iff (dinst.ops 0).reg).0 r), λ _. tt)
                (skip-Keeps v)))
        | inr r ↦ rw r (λ w e.
            Passes-iff
              (λ t. indirect (inl m) t.0 t.1, indirect_of group _ dinst (ground arith) (λ _. r))
              (chk_indirect-Checks dinst v w e))
      ])
  | inr b ↦ rw b (elim (Bool-cases (one_of two_mnems dinst.mnem)) [
    | inl t ↦ rw t (λ w e.
        Passes-iff
          (
            λ x. indirect (inr ((two_iff dinst.mnem).0 t)) x.0 x.1,
            indirect_of group _ dinst (ground arith) (λ y. cc),
          )
          (chk_indirect-Checks dinst v w e))
    | inr t ↦ rw t (elim (Bool-cases (one_of auth_mnems dinst.mnem)) [
      | inl a ↦
          rw a
            (some-Checks (Passes-iff (absurd, auth_refused group _ dinst a) (verr-Keeps dinst _ v)))
      | inr a ↦ rw a (λ w e.
          Passes-iff
            (
              λ f. direct ((listed_iff dinst.mnem).1 (b, t, a)) f,
              λ k. (named group _ dinst b t k).1,
            )
            (chk_direct-Checks group dinst v w e))
    ])
  ])
]
