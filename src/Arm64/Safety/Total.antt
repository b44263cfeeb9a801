-- ===== src/Arm64/Safety/Total.antt =====
-- The asserts of chkbranch, chksys and vchk of src/arm64/verify.c, with a lawful decoder.
use lfi_verifier.Prelude.{
  ℕ, ◌≡◌, inl, inr, refl, sym, ap, ◌∙◌, false≢true, Bool, true, false, not, ◌||◌, ◌&&◌, and-true,
  eq_iff, subst, List, Option, some, [], ◌∷◌, String, arith, is, one_of, leb, ◌!=◌, Bool-cases,
  require, ◌>>=◌, ◌>>◌, if◌then◌else◌,
}
use lfi_verifier.Arm64.Inst.{
  op_reggp, Group, group_branch, group_bcond, group_branchreg, group_casp, group_cas,
  group_ldatomic, group_swp, group_other, Inst, Disarm, is_sysreg, is_branchreg,
}
use lfi_verifier.Arm64.State.{Verifier}
use lfi_verifier.Arm64.Regs.{rtsysreg, nmod, nmod_mnem, okmnem, is_x30_ldr_guard, sys_dc_zva}
use lfi_verifier.Arm64.Check.{chk_indirect, chk_direct, chkbranch, chksys}
use lfi_verifier.Arm64.Verify.{is_hint, chk_writes, chk_inst, vchk}
use lfi_verifier.Arm64.Policy.{indirect_mnems}
use lfi_verifier.Arm64.Mnemonics.{base_instrs}
use lfi_verifier.Arm64.Laws.{branchreg_mnems, DisarmLaws}
use lfi_verifier.Arm64.Safety.Branches.{listed_iff, two_mnems, auth_mnems}
use lfi_verifier.Arm64.Safety.System.{zva_iff}

abbrev pub Returns : {A : Type 0} → Option A → Type 0
Returns {A = A} o = (a : A) × (o ≡ some a)

pub Returns-bind :
    {A B : Type 0} {o : Option A} {f : A → Option B}
    → Returns o
    → ((a : A) → Returns (f a))
    → Returns (o >>= f)
Returns-bind {f = f} (a, e) h = let (b, e') = h a in (b, ap (λ x. x >>= f) e ∙ e')

Returns-require :
    {A : Type 0} {b : Bool} {k : Option A} → b ≡ true → Returns k → Returns (require b >> k)
Returns-require {k = k} e h = rw e h

three_way : (a b : Bool) → leb (if a then 3 else if b then 0 else 1) 3 ≡ true
three_way a b = ground arith

nmod_mnem_max : (dinst : Inst) → leb (nmod_mnem dinst) 3 ≡ true
unfolding nmod_mnem
nmod_mnem_max dinst = three_way _ _

nmod_max : (group : Group) (dinst : Inst) → leb (nmod group dinst) 3 ≡ true
unfolding nmod
nmod_max group_branch dinst = refl
nmod_max group_bcond dinst = refl
nmod_max group_branchreg dinst = refl
nmod_max group_casp dinst = refl
nmod_max group_cas dinst = refl
nmod_max group_ldatomic dinst = refl
nmod_max group_swp dinst = refl
nmod_max group_other dinst = nmod_mnem_max dinst

chk_indirect-Returns :
    (dinst : Inst) (v : Verifier) → (dinst.ops 0).type ≡ op_reggp → Returns (chk_indirect dinst v)
unfolding chk_indirect
chk_indirect-Returns dinst v e = rw e (_, refl)

chk_direct-Returns :
    (group : Group) (dinst : Inst) (v : Verifier)
    → is_branchreg group ≡ false
    → Returns (chk_direct group dinst v)
unfolding chk_direct
chk_direct-Returns group dinst v e = rw e (_, refl)

-- The mnemonics of a list that are legal are those that chkbranch handles.
unfoldable legal_handled : List String → Bool
legal_handled [] = true
legal_handled (n ∷ ns) = (not (one_of base_instrs n) || one_of indirect_mnems n) && legal_handled ns

implied : (a b : Bool) → (not a || b) ≡ true → a ≡ true → b ≡ true
implied a b h k = ground arith

or-right : (a b : Bool) → a ≡ false → (a || b) ≡ true → b ≡ true
or-right a b h k = ground arith

legal_branch :
    (ns : List String)
    → legal_handled ns ≡ true
    → (m : String) → one_of ns m ≡ true
    → one_of base_instrs m ≡ true
    → one_of indirect_mnems m ≡ true
unfolding one_of legal_handled
legal_branch [] h m i k = absurd (false≢true i)
legal_branch (n ∷ ns) h m i k = elim (Bool-cases (is m n)) [
  | inl e ↦
      subst (λ x. one_of indirect_mnems x ≡ true) (sym ((eq_iff m n).0 e))
        (implied _ _ (and-true _ _ h).0
          (subst (λ x. one_of base_instrs x ≡ true) ((eq_iff m n).0 e) k))
  | inr e ↦ legal_branch ns (and-true _ _ h).1 m (or-right _ _ e i) k
]

branchreg_handled : legal_handled branchreg_mnems ≡ true
unfolding one_of legal_handled
branchreg_handled = refl

legal_mnem : (dinst : Inst) → okmnem dinst ≡ true → one_of base_instrs dinst.mnem ≡ true
unfolding okmnem
legal_mnem dinst h = h

module _ (d : Disarm) (laws : DisarmLaws d) (insn : ℕ) where
  abbrev dinst : Inst
  dinst = d.da64_decode insn

  abbrev group : Group
  group = d.da64_group dinst.mnem

  branch_iff :
      (m : String)
      → (is m "DA64I_BLR" || one_of two_mnems m) ≡ true
      → one_of ("DA64I_BLR" ∷ "DA64I_BR" ∷ "DA64I_RET" ∷ []) m ≡ true
  unfolding one_of
  branch_iff m h = h

  not_branchreg :
      okmnem dinst ≡ true → one_of indirect_mnems dinst.mnem ≡ false → is_branchreg group ≡ false
  not_branchreg k n = elim (Bool-cases (is_branchreg group)) [
    | inr h ↦ h
    | inl h ↦ absurd (
        false≢true (
          sym n
          ∙ legal_branch branchreg_mnems branchreg_handled dinst.mnem
              (laws.branchreg_group insn (group_of group h)) (legal_mnem dinst k)))
  ]
    where
      group_of : (g : Group) → is_branchreg g ≡ true → g ≡ group_branchreg
      group_of group_branchreg h = refl
      group_of group_branch h = absurd (false≢true h)
      group_of group_bcond h = absurd (false≢true h)
      group_of group_casp h = absurd (false≢true h)
      group_of group_cas h = absurd (false≢true h)
      group_of group_ldatomic h = absurd (false≢true h)
      group_of group_swp h = absurd (false≢true h)
      group_of group_other h = absurd (false≢true h)

  chkbranch-Returns : okmnem dinst ≡ true → (v : Verifier) → Returns (chkbranch group dinst v)
  unfolding chkbranch
  chkbranch-Returns k v = elim (Bool-cases (is dinst.mnem "DA64I_BLR")) [
    | inl b ↦ rw b (elim (Bool-cases (rtsysreg (dinst.ops 0).reg)) [
      | inl r ↦ rw r (_, refl)
      | inr r ↦ rw r (chk_indirect-Returns dinst v (laws.branch_op insn (branch_iff _ (rw b refl))))
    ])
    | inr b ↦ rw b (elim (Bool-cases (one_of two_mnems dinst.mnem)) [
      | inl t ↦
          rw t (chk_indirect-Returns dinst v (laws.branch_op insn (branch_iff _ (rw (b, t) refl))))
      | inr t ↦ rw t (elim (Bool-cases (one_of auth_mnems dinst.mnem)) [
        | inl a ↦ rw a (_, refl)
        | inr a ↦ rw a (
            chk_direct-Returns group dinst v
              (not_branchreg k ((listed_iff dinst.mnem).1 (b, t, a))))
      ])
    ])
  ]

  chksys-Returns : (v : Verifier) → Returns (chksys dinst v)
  unfolding chksys
  chksys-Returns v = elim (Bool-cases (is dinst.mnem "DA64I_MSR")) [
    | inl a ↦ rw (a, laws.msr_op insn a) (_, refl)
    | inr a ↦ rw a (elim (Bool-cases (is dinst.mnem "DA64I_MRS")) [
      | inl b ↦ rw (b, laws.mrs_op insn b) (_, refl)
      | inr b ↦ rw b (elim (Bool-cases (is dinst.mnem "DA64I_SYS")) [
        | inr c ↦ rw c (_, refl)
        | inl c ↦
            rw c
              (elim (Bool-cases
                (not (is_sysreg (dinst.ops 0).type) || (dinst.ops 0).sysreg != sys_dc_zva)) [
                  | inl x ↦ rw x (_, refl)
                  | inr x ↦
                      let (t, r) = (zva_iff (dinst.ops 0).type (dinst.ops 0).sysreg).0 x in
                      rw (x, laws.zva_op insn c t r) (_, refl)
                ])
      ])
    ])
  ]

  chk_inst-Returns : okmnem dinst ≡ true → (v : Verifier) → Returns (chk_inst d dinst v)
  unfolding chk_inst chk_writes
  chk_inst-Returns k v = Returns-bind (chkbranch-Returns k v) (λ v₁.
      Returns-bind (chksys-Returns v₁) (λ v₂. Returns-require (nmod_max group dinst) (_, refl)))

  pub vchk-Returns : (v : Verifier) → Returns (vchk d insn v)
  unfolding vchk
  vchk-Returns v = elim (Bool-cases (is_hint insn)) [
    | inl h ↦ rw h (_, refl)
    | inr h ↦ rw h (elim (Bool-cases (is dinst.mnem "DA64I_UNKNOWN")) [
      | inl u ↦ rw u (_, refl)
      | inr u ↦ rw u (elim (Bool-cases (okmnem dinst)) [
        | inr k ↦ rw k (_, refl)
        | inl k ↦ rw k (elim (Bool-cases (is_x30_ldr_guard dinst)) [
          | inl p ↦ rw p (_, refl)
          | inr p ↦ rw p (chk_inst-Returns k v)
        ])
      ])
    ])
  ]
