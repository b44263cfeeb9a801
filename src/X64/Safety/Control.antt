-- ===== src/X64/Safety/Control.antt =====
-- The flow of control in code that lfiv_verify_x64 of src/x64/verify.c accepts.
use lfi_verifier.Prelude.{
  ℕ, zero, suc, ◌+◌, ◌*◌, ◌/◌, ◌%◌, ◌≤◌, ◌<◌, ◌^◌, ◌≡◌, inl, inr, refl, sym, ap, ◌∙◌, subst, true,
  none, some, List, [], ◌∷◌, arith, length, drop, length-drop, add64, add64-add64, one_of,
  false≢true, some-injective, ltb, Bool-cases,
}
use lfi_verifier.Options.{Options}
use lfi_verifier.X64.Inst.{Inst, Decoder, DecodeLaws}
use lfi_verifier.X64.Macro.{MacroInst, macroinst}
use lfi_verifier.X64.Verify.{initial, lfiv_verify_x64, returns}
use lfi_verifier.X64.Policy.{branch_types, SafeInst, BranchOk, no_branch, direct}
use lfi_verifier.X64.Layout.{UnitOk, macro, single, Tiled, stop, step, Bundled, finished, bundle}
use lfi_verifier.X64.Control.{
  unit_at, Reach, bundle_start, fall_through, direct_branch, UnitHere, here,
}
use lfi_verifier.X64.Safety.Unit.{UnitOk-unique}
use lfi_verifier.X64.Safety.Entry.{lfiv_verify_x64_sound}

drop-nil : {A : Type 0} (n : ℕ) → ◌≡◌ {A = List A} (drop n []) []
drop-nil zero = refl
drop-nil (suc n) = refl

suc_add : (n m : ℕ) → suc (n + m) ≡ suc n + m
suc_add n m = omega arith

pub drop-drop : {A : Type 0} (m n : ℕ) (xs : List A) → drop m (drop n xs) ≡ drop (n + m) xs
drop-drop m zero xs = ap (λ k. drop k xs) (omega arith)
drop-drop m (suc n) [] = drop-nil m ∙ sym (drop-nil (suc n + m))
drop-drop m (suc n) (x ∷ xs) = drop-drop m n xs ∙ ap (λ k. drop k (x ∷ xs)) (suc_add n m)

-- Aligned code has its aligned addresses at aligned offsets.
target_offset :
    (base target goal : ℕ)
    → base % 32 ≡ 0
    → add64 base target ≡ goal
    → goal % 32 ≡ 0
    → target % 32 ≡ 0
unfolding add64
target_offset base target goal a e h = omega arith

UnitOk-SafeInst :
    {fd_decode : Decoder} {opts : Options} {addr ret : ℕ} {rest : List ℕ} {instr : Inst}
    {m : MacroInst}
    → macroinst fd_decode (initial addr opts) instr rest ≡ none
    → UnitOk fd_decode opts addr rest ret instr m
    → SafeInst opts addr 32 instr
UnitOk-SafeInst n (macro h) = absurd (cc)
UnitOk-SafeInst n (single _ _ s) = s

module _ (fd_decode : Decoder) (laws : DecodeLaws fd_decode) (opts : Options) (base : ℕ)
    (code : List ℕ) where
  -- The cut of the bundle that starts at `start`, from the offset `at` in it on.
  abbrev Cut : ℕ → ℕ → Type 0
  Cut start at = Tiled fd_decode opts (add64 base start) (drop start code) at

  pub Bundled-Cut :
      {count : ℕ} (n start : ℕ)
      → Bundled fd_decode opts base code count
      → start ≡ count + n * 32
      → start < length code
      → Cut start 0
  Bundled-Cut n start (finished h) e l = absurd (omega arith)
  Bundled-Cut zero start (bundle _ t r) e l = subst (λ s. Cut s 0) (omega arith) t
  Bundled-Cut (suc n) start (bundle _ t r) e l = Bundled-Cut n start r (omega arith) l

  -- At an offset that is behind the code, or where the cut of its bundle goes on.
  abbrev OnCut : ℕ → Type 0
  OnCut offset = offset < length code → Cut (offset / 32 * 32) (offset % 32)

  OnCut-aligned : Bundled fd_decode opts base code 0 → (offset : ℕ) → offset % 32 ≡ 0 → OnCut offset
  OnCut-aligned b offset a l =
      subst (λ c. Cut (offset / 32 * 32) c) (sym a)
        (Bundled-Cut (offset / 32) (offset / 32 * 32) b (omega arith) (omega arith))

  -- The unit that starts at an offset, and the cut behind it.
  abbrev UnitAt : ℕ → Type 0
  UnitAt offset =
      (p : ℕ × Inst) × (m : MacroInst) × (fd_decode (drop offset code) ≡ some p)
      × UnitOk fd_decode opts (add64 base offset) (drop offset code) p.0 p.1 m
      × (offset % 32 + m.size ≤ 32)
      × Cut (offset / 32 * 32) (offset % 32 + m.size)

  module _ (offset : ℕ) where
    whole : offset / 32 * 32 + offset % 32 ≡ offset
    whole = omega arith

    drop_whole : drop (offset % 32) (drop (offset / 32 * 32) code) ≡ drop offset code
    drop_whole = drop-drop (offset % 32) (offset / 32 * 32) code ∙ ap (λ k. drop k code) whole

    abbrev start_addr : ℕ
    start_addr = add64 (add64 base (offset / 32 * 32)) (offset % 32)

    add64_whole : start_addr ≡ add64 base offset
    add64_whole = add64-add64 base (offset / 32 * 32) (offset % 32) ∙ ap (add64 base) whole

    Cut-UnitAt : offset < length code → Cut (offset / 32 * 32) (offset % 32) → UnitAt offset
    Cut-UnitAt l (stop (inl h)) = absurd (omega arith)
    Cut-UnitAt l (stop (inr h)) = absurd (omega (arith, length-drop (offset / 32 * 32) code, whole))
    Cut-UnitAt l (step p m _ _ e u f t) = (
      p,
      m,
      ap fd_decode (sym drop_whole) ∙ e,
      subst (λ a. UnitOk fd_decode opts a (drop offset code) p.0 p.1 m) add64_whole
          (subst (λ b. UnitOk fd_decode opts start_addr b p.0 p.1 m) drop_whole u),
      f,
      t,
    )

  -- Behind the unit the cut of the same bundle goes on, or that of the next begins.
  UnitAt-OnCut :
      Bundled fd_decode opts base code 0
      → (offset : ℕ) → (u : UnitAt offset) → OnCut (offset + u.1.size)
  UnitAt-OnCut b offset (p, m, _, _, f, t) l = elim (Bool-cases (ltb (offset % 32 + m.size) 32)) [
    | inl k ↦
        let k' : offset % 32 + m.size < 32 = ground arith in
        subst (λ s. Cut s ((offset + m.size) % 32)) (omega arith)
          (subst (λ c. Cut (offset / 32 * 32) c) (omega arith) t)
    | inr k ↦
        let k' : offset % 32 + m.size ≡ 32 = ground arith in
        OnCut-aligned b (offset + m.size) (omega arith) l
  ]

  -- What is known of the unit at an offset, whatever is decoded there.
  UnitAt-decoded :
      (offset : ℕ) (p : ℕ × Inst) (u : UnitAt offset)
      → fd_decode (drop offset code) ≡ some p
      → UnitOk fd_decode opts (add64 base offset) (drop offset code) p.0 p.1 u.1
        × (u.1 ≡ unit_at fd_decode opts base code offset p)
  UnitAt-decoded offset p (q, m, e, u, _, _) h =
      let same = some-injective _ _ (sym e ∙ h) in
      let u' =
        subst (λ r. UnitOk fd_decode opts (add64 base offset) (drop offset code) r.0 r.1 m) same
          u in
      (
        u',
        UnitOk-unique fd_decode p.0 p.1 (drop offset code) (initial (add64 base offset) opts) refl
            u',
      )

  decoded_inside :
      (offset : ℕ) (p : ℕ × Inst) → fd_decode (drop offset code) ≡ some p → offset < length code
  decoded_inside offset p h =
      omega (arith, laws.size_pos _ p.0 p.1 h, laws.size_fits _ p.0 p.1 h, length-drop offset code)

  target_aligned :
      (offset target : ℕ) (p : ℕ × Inst)
      → base % 32 ≡ 0
      → UnitAt offset
      → fd_decode (drop offset code) ≡ some p
      → macroinst fd_decode (initial (add64 base offset) opts) p.1 (drop offset code) ≡ none
      → one_of branch_types p.1.type ≡ true
      → add64 base target ≡ add64 (add64 base offset + p.1.size) (p.1.op 0).imm
      → target % 32 ≡ 0
  target_aligned offset target p a u e n b t =
      aligned (UnitOk-SafeInst n (UnitAt-decoded offset p u e).0).branches
    where
      aligned : BranchOk (add64 base offset) 32 p.1 → target % 32 ≡ 0
      aligned (no_branch h) = absurd (false≢true (sym h ∙ b))
      aligned (direct _ _ h) = target_offset base target _ a t h

  Reach-OnCut :
      base % 32 ≡ 0
      → Bundled fd_decode opts base code 0
      → (offset : ℕ) → Reach fd_decode opts base code offset
      → OnCut offset
  Reach-OnCut a b offset (bundle_start z) = OnCut-aligned b offset z
  Reach-OnCut a b offset (fall_through {offset = o} p r e n) =
      let u = Cut-UnitAt o (decoded_inside o p e) (Reach-OnCut a b o r (decoded_inside o p e)) in
      subst OnCut (ap (λ m. o + m.size) (UnitAt-decoded o p u e).1 ∙ sym n) (UnitAt-OnCut b o u)
  Reach-OnCut a b offset (direct_branch {offset = o} p r e n d f t) =
      let u = Cut-UnitAt o (decoded_inside o p e) (Reach-OnCut a b o r (decoded_inside o p e)) in
      OnCut-aligned b offset (target_aligned o offset p a u e n d t)

  UnitAt-UnitHere : {offset : ℕ} → UnitAt offset → UnitHere fd_decode opts base code offset
  UnitAt-UnitHere (p, m, e, u, f, _) = here p m e u f

module _ (fd_decode : Decoder) (lfi_x86_bdd : List ℕ → ℕ) (code : List ℕ) (addr : ℕ)
    (opts : Options) (laws : DecodeLaws fd_decode) (fits : addr < 2 ^ 64) where
  -- Where lfiv_verify_x64 accepts code at a bundle-aligned address below 2 ^ 64, every offset that
  -- control reaches, from the start of any bundle by falling through and by branches with an offset,
  -- is behind the code or starts a safe unit that ends in its bundle.
  pub lfiv_verify_x64_control :
      addr % 32 ≡ 0
      → (lfiv_verify_x64 fd_decode lfi_x86_bdd code addr opts).0 ≡ returns true
      → (offset : ℕ) → Reach fd_decode opts addr code offset
      → offset < length code
      → UnitHere fd_decode opts addr code offset
  lfiv_verify_x64_control a h offset r l =
      let b = lfiv_verify_x64_sound fd_decode lfi_x86_bdd code addr opts laws fits h in
      UnitAt-UnitHere fd_decode laws opts addr code (
        Cut-UnitAt fd_decode laws opts addr code offset l
          (Reach-OnCut fd_decode laws opts addr code a b offset r l))
