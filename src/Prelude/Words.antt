-- ===== src/Prelude/Words.antt =====
-- Machine words are native numbers below their modulus; a signed word is its two's complement pattern.
use mathlib.Core.Path.{◌≡◌}
use native.Mathlib.Omega.{arith}
use Prim.Native.Nat.{ℕ, ◌+◌, ◌-◌, ◌%◌, ◌^◌}

-- 2 ^ 64, as uintptr_t, size_t and uint64_t count.
abbrev pub u64_mod : ℕ
u64_mod = 2 ^ 64

unfoldable pub add64 : ℕ → ℕ → ℕ
add64 a b = (a + b) % 2 ^ 64

-- The pattern of -n in an int64_t, and in an int16_t.
abbrev pub neg64 : ℕ → ℕ
neg64 n = 2 ^ 64 - n

abbrev pub neg16 : ℕ → ℕ
neg16 n = 2 ^ 16 - n

pub add64-add64 : (a b c : ℕ) → add64 (add64 a b) c ≡ add64 a (b + c)
unfolding add64
add64-add64 a b c = omega arith
