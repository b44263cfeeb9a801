-- ===== src/Tool/Safety/Decides.antt =====
-- How the steps of verify compose: a step goes on only if its condition holds, and what it holds open.
use lfi_verifier.Prelude.{
  ℕ, zero, suc, ◌+◌, ◌≤◌, ◌<◌, ◌≡◌, refl, sym, Bool, true, false, inl, inr, List, [], ◌∷◌, String,
  arith, subst, false≢true, Bool-cases, if◌then◌else◌, ◌==◌, ==_iff,
}
use lfi_verifier.Options.{Options}
use lfi_verifier.Tool.World.{
  Line, World, Stop, goto_err, refused, exits, aborts, Step, go, stop, M, ◌>>=◌, ◌>>◌, check,
}
use lfi_verifier.Tool.Verify.{for, check_free}

-- The open files and the options that stay as they are.
pub record Base : Type 0 where
  pub files : ℕ
  pub opts : Options

abbrev pub OnBase : Base → World → Type 0
OnBase base w = (w.files ≡ base.files) × (w.v.opts ≡ base.opts)

-- The last line says that verification failed.
abbrev pub SaidRefused : World → Type 0
SaidRefused w =
    (log : List Line) × (w.log ≡ record { format = "verification failed\n"; args = [] } ∷ log)

-- What a stop leaves open, where `files` and `blocks` are open on the way; exit and a failed assert
-- happen only if the system is not reliable.
abbrev pub Left : Type 0 → Base → ℕ → Stop → World → Type 0
Left Reliable base blocks goto_err w = OnBase base w × (w.blocks ≡ blocks)
Left Reliable base blocks refused w = OnBase base w × (w.blocks ≡ suc blocks) × SaidRefused w
Left Reliable base blocks (exits n) w = (n ≡ 1) × (Reliable → ⊥)
Left Reliable base blocks aborts w = Reliable → ⊥

module _ (Reliable : Type 0) (base : Base) (blocks : ℕ) where
  -- The step goes on only if the condition `P` holds, with `Q` of its result and the files and blocks
  -- that were open; on a reliable system it stops only if `P` does not hold.
  abbrev pub Decides {ℓ} : {A : Type ℓ} → Type 0 → (A → World → Type 0) → Step A → Type 0
  Decides P Q (go a w) = OnBase base w × (w.blocks ≡ blocks) × P × Q a w
  Decides P Q (stop s w) = Left Reliable base blocks s w × (Reliable → P → ⊥)

  pub Decides-bind {ℓ κ} :
      {A : Type ℓ} {B : Type κ} (P R : Type 0) (Q : B → World → Type 0) (T : A → World → Type 0)
      (m : M A) (f : A → M B) (w : World)
      → Decides R T (m w)
      → (P → R)
      → ((a : A) (w' : World)
          → OnBase base w'
          → w'.blocks ≡ blocks
          → R
          → T a w'
          → Decides P Q (f a w'))
      → Decides P Q ((m >>= f) w)
  Decides-bind {A = A} {B = B} P R Q T m f w = after (m w)
    where
      after :
          (r : Step A)
          → Decides R T r
          → (P → R)
          → ((a : A) (w' : World)
              → OnBase base w'
              → w'.blocks ≡ blocks
              → R
              → T a w'
              → Decides P Q (f a w'))
          → Decides P Q (elim r [ go a w' ↦ f a w' | stop s w' ↦ stop s w' ])
      after (go a w') (p, q, r, t) _ k = k a w' p q r t
      after (stop s w') (l, n) imp k = (l, λ ok p. n ok (imp p))

  pub Decides-map {ℓ} :
      {A : Type ℓ} (P R : Type 0) (Q T : A → World → Type 0) (r : Step A)
      → Decides R T r
      → (P → R)
      → ((a : A) (w : World) → R → T a w → P × Q a w)
      → Decides P Q r
  Decides-map P R Q T (go a w) (p, q, r, t) imp k = let (p₁, q₁) = k a w r t in (p, q, p₁, q₁)
  Decides-map P R Q T (stop s w) (l, n) imp k = (l, λ ok p. n ok (imp p))

  pub Decides-if {ℓ} :
      {A : Type ℓ} (P : Type 0) (Q : A → World → Type 0) (b : Bool) (m k : M A) (w : World)
      → (b ≡ true → Decides P Q (m w))
      → (b ≡ false → Decides P Q (k w))
      → Decides P Q ((if b then m else k) w)
  Decides-if P Q true m k w h _ = h refl
  Decides-if P Q false m k w _ h = h refl

  pub Decides-check {ℓ} :
      {B : Type ℓ} (P : Type 0) (Q : B → World → Type 0) (b : Bool) (format : String) (k : M B)
      (w : World)
      → (Reliable → P → b ≡ true)
      → OnBase base w
      → (b ≡ false → w.blocks ≡ blocks)
      → (b ≡ true → Decides P Q (k w))
      → Decides P Q ((check b format >> k) w)
  Decides-check P Q true format k w imp p q h = h refl
  Decides-check P Q false format k w imp p q h = ((p, q refl), λ ok x. false≢true (imp ok x))

  -- A test that is the last step.
  pub Decides-check_last :
      (P : Type 0) (Q : Unit {0} → World → Type 0) (b : Bool) (format : String) (w : World)
      → (Reliable → P → b ≡ true)
      → OnBase base w
      → w.blocks ≡ blocks
      → (b ≡ true → P × Q tt w)
      → Decides P Q (check b format w)
  Decides-check_last P Q true format w imp p q h = let (x, y) = h refl in (p, q, x, y)
  Decides-check_last P Q false format w imp p q h = ((p, q), λ ok x. false≢true (imp ok x))

  pub Decides-check_free {ℓ} :
      {B : Type ℓ} (P : Type 0) (Q : B → World → Type 0) (b : Bool) (format : String) (k : M B)
      (w : World)
      → (Reliable → P → b ≡ true)
      → OnBase base w
      → w.blocks ≡ suc blocks
      → (b ≡ true → Decides P Q (k w))
      → Decides P Q ((check_free b format >> k) w)
  Decides-check_free P Q true format k w imp p q h = h refl
  Decides-check_free P Q false format k w imp p q h =
      ((p, omega arith), λ ok x. false≢true (imp ok x))

  -- The loop from an `i`; `I` is its invariant.
  Decides-for {ℓ} :
      {S : Type ℓ} (P : ℕ → Type 0) (I : ℕ → S → World → Type 0) (body : ℕ → S → M S)
      → ((i : ℕ) (s : S) (w : World)
          → OnBase base w
          → w.blocks ≡ blocks
          → I i s w
          → Decides (P i) (I (suc i)) (body i s w))
      → (k i : ℕ) (s : S) (w : World) → OnBase base w
      → w.blocks ≡ blocks
      → I i s w
      → Decides ((j : ℕ) → i ≤ j → j < i + k → P j) (I (i + k)) (for k i body s w)
  unfolding for
  Decides-for P I body step zero i s w p q h =
      (p, q, λ j l u. absurd (omega arith), subst (λ n. I n s w) (omega arith) h)
  Decides-for P I body step (suc k) i s w p q h =
      Decides-bind ((j : ℕ) → i ≤ j → j < i + suc k → P j) (P i) (I (i + suc k)) (I (suc i))
        (body i s) (for k (suc i) body) w (step i s w p q h)
        (λ all. all i (omega arith) (omega arith))
        (λ s' w' p' q' here h'.
          Decides-map ((j : ℕ) → i ≤ j → j < i + suc k → P j)
            ((j : ℕ) → suc i ≤ j → j < suc i + k → P j) (I (i + suc k)) (I (suc i + k))
            (for k (suc i) body s' w') (Decides-for P I body step k (suc i) s' w' p' q' h')
            (λ all j l u. all j (omega arith) (omega arith))
            (λ a w'' all h''. (
              λ j l u. elim (Bool-cases (j == i)) [
                | inl e ↦ subst P (sym ((==_iff j i).0 e)) here
                | inr n ↦ all j (ground arith) (omega arith)
              ],
              subst (λ n. I n a w'') (omega arith) h'',
            )))

  -- A loop goes through only if the condition of every round holds.
  pub Decides-loop {ℓ} :
      {S : Type ℓ} (P : ℕ → Type 0) (I : ℕ → S → World → Type 0) (body : ℕ → S → M S)
      → ((i : ℕ) (s : S) (w : World)
          → OnBase base w
          → w.blocks ≡ blocks
          → I i s w
          → Decides (P i) (I (suc i)) (body i s w))
      → (k : ℕ) (s : S) (w : World) → OnBase base w
      → w.blocks ≡ blocks
      → I 0 s w
      → Decides ((j : ℕ) → j < k → P j) (I k) (for k 0 body s w)
  Decides-loop P I body step k s w p q h =
      Decides-map ((j : ℕ) → j < k → P j) ((j : ℕ) → 0 ≤ j → j < 0 + k → P j) (I k) (I (0 + k))
        (for k 0 body s w) (Decides-for P I body step k 0 s w p q h)
        (λ all j l u. all j (omega arith))
        (λ a w' all t.
          (λ j u. all j (omega arith) (omega arith), subst (λ n. I n a w') (omega arith) t))
