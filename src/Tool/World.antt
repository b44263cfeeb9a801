-- ===== src/Tool/World.antt =====
-- The process of tools/lfi-verify/main.c: what it prints and holds, and what it asks of its system.
use lfi_verifier.Prelude.{
  ℕ, suc, ◌+◌, ◌-◌, ◌^◌, Bool, true, false, Option, none, some, List, [], ◌∷◌, String, ltb, length,
  take, drop, if◌then◌else◌,
}
use lfi_verifier.Dispatch.{Answer, answer, assertion, Verify, LfiVerifier, lfiv_verify}

-- A call of fprintf or printf: the format, and the strings for its conversions. A NULL pointer is none;
-- strerror(errno) and the rate of the last message are left out.
pub record Line : Type 0 where
  pub format : String
  pub args : List (Option String)

-- `log` has the latest line first. `files` and `blocks` count the open streams and the blocks of malloc
-- that are not freed, `opens` all streams that were opened; `pos` is the offset in the open stream; `calls` counts the calls that may fail.
pub record World : Type 0 where
  pub log : List Line
  pub files : ℕ
  pub opens : ℕ
  pub blocks : ℕ
  pub pos : ℕ
  pub calls : ℕ
  pub v : LfiVerifier

-- How a computation ends early: by `goto err`, by `return false` where verification failed, by exit or
-- a return from main, or by a failed assert.
pub data Stop : Type 0 where
  goto_err refused : Stop
  exits : ℕ → Stop
  aborts : Stop

pub data Step {ℓ} (A : Type ℓ) : Type ℓ where
  go : A → World → Step A
  stop : Stop → World → Step A

abbrev pub M {ℓ} : Type ℓ → Type ℓ
M A = World → Step A

infixl 5 ◌>>=◌ ◌>>◌
abbrev pub ◌>>=◌ {ℓ κ} : {A : Type ℓ} {B : Type κ} → M A → (A → M B) → M B
◌>>=◌ m f w = elim (m w) [ go a w' ↦ f a w' | stop s w' ↦ stop s w' ]

abbrev pub ◌>>◌ {ℓ κ} : {A : Type ℓ} {B : Type κ} → M A → M B → M B
m >> k = m >>= λ _. k

-- What getopt_long returns, with optarg, and the name of a long option that has no letter.
pub data Opt : Type 0 where
  opt_h : Opt
  opt_a opt_n opt_s : String → Opt
  opt_long : String → Opt
  opt_other : Opt

-- What the code is built with and asks of its system: ARCH_X64 and ARCH_ARM64, the verifiers that are
-- linked in, and functions of the C library. fopen gives the bytes of a file; malloc and clock_gettime
-- say whether a call succeeds, given how many went before; atoi gives the pattern of an int;
-- getopt_long gives what its calls return and the arguments from optind.
pub record Env : Type 0 where
  pub arch_x64 : Bool
  pub arch_arm64 : Bool
  pub lfiv_verify_x64 : Verify
  pub lfiv_verify_arm64 : Verify
  pub fopen : String → Option (List ℕ)
  pub malloc : ℕ → ℕ → Bool
  pub clock_gettime : ℕ → Bool
  pub atoi : String → ℕ
  pub getopt_long : List String → List Opt × List String

abbrev pub say : String → List (Option String) → M (Unit {0})
say format args w = go tt (record w { log = record { format = format; args = args } ∷ w.log })

abbrev pub fail : Stop → M (Unit {0})
fail s w = stop s w

-- if (!ok) { fprintf(stderr, ...); goto err; }
abbrev pub check : Bool → String → M (Unit {0})
check true format w = go tt w
check false format w = (say format [] >> fail goto_err) w

-- An offset of 2 ^ 63 or more is a negative long, which fseek refuses.
abbrev pub fseek : ℕ → M Bool
fseek off w = let ok = ltb off (2 ^ 63) in go ok (record w { pos = if ok then off else w.pos })

-- What is read, which is shorter at the end of the file.
abbrev pub fread : List ℕ → ℕ → M (List ℕ)
fread file n w =
    let got = take n (drop w.pos file) in go got (record w { pos = w.pos + length got })

abbrev pub opened : M (Unit {0})
opened w = go tt (record w { files = suc w.files; opens = suc w.opens; pos = 0 })

-- assert(v->verify != NULL);
abbrev pub assert_verify : M (Unit {0})
assert_verify w = elim w.v.verify [ none ↦ stop aborts w | some _ ↦ go tt w ]

abbrev pub fclose : M (Unit {0})
fclose w = go tt (record w { files = w.files - 1 })

abbrev pub free : M (Unit {0})
free w = go tt (record w { blocks = w.blocks - 1 })

-- showerr
unfoldable pub showerr : List String → List Line → List Line
showerr [] log = log
showerr (m ∷ ms) log = showerr ms (record { format = "%s\n"; args = some m ∷ [] } ∷ log)

-- What the process makes of an answer: the messages went to showerr.
unfoldable pub answered : Answer → M Bool
unfolding showerr
answered assertion w = stop aborts w
answered (answer ok msgs) w = go ok (record w { log = showerr msgs w.log })

-- The call of lfiv_verify.
unfoldable pub call_verify : List ℕ → ℕ → M Bool
unfolding answered
call_verify code addr w = answered (lfiv_verify w.v code addr) w

module _ (e : Env) where
  -- Whether malloc gives a block.
  abbrev pub alloc : ℕ → M Bool
  alloc size w =
      let ok = e.malloc w.calls size in
      go ok (record w { blocks = if ok then suc w.blocks else w.blocks; calls = suc w.calls })

  -- time_ns, without the time.
  unfoldable pub time_ns : M (Unit {0})
  time_ns w =
      let w' = record w { calls = suc w.calls } in
      if e.clock_gettime w.calls then go tt w' else stop (exits 1) w'
