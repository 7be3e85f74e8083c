-- ===== src/Base/Words.antt =====
-- 32-bit machine words as native numbers. An `int` is its bit pattern.
use Prim.Native.Nat.{ℕ, ◌+◌, ◌-◌, ◌*◌, ◌%◌, ◌^◌}
use mathlib.Core.Bool.{Bool, ◌&&◌}
use mango_os.Base.Tests.{ltb, leb}

abbrev pub u32_mod : ℕ
u32_mod = 2 ^ 32

abbrev pub add32 : ℕ → ℕ → ℕ
add32 a b = (a + b) % 2 ^ 32

-- `-` on ℕ stops at 0, so the modulus is added first.
abbrev pub sub32 : ℕ → ℕ → ℕ
sub32 a b = (a + 2 ^ 32 - b) % 2 ^ 32

abbrev pub mul32 : ℕ → ℕ → ℕ
mul32 a b = (a * b) % 2 ^ 32

abbrev pub inc32 : ℕ → ℕ
inc32 a = (a + 1) % 2 ^ 32

abbrev pub dec32 : ℕ → ℕ
dec32 a = (a + (2 ^ 32 - 1)) % 2 ^ 32

-- `x > 0` of an `int`.
abbrev pub is_pos32 : ℕ → Bool
is_pos32 a = ltb 0 a && ltb a (2 ^ 31)

-- `x < 0` of an `int`, and -1.
abbrev pub is_neg32 : ℕ → Bool
is_neg32 a = leb (2 ^ 31) a

abbrev pub minus_one : ℕ
minus_one = 2 ^ 32 - 1
