-- ===== src/Prelude/Int64.antt =====
-- Go's `int64` and `uint64`: bit patterns below 2^64.
use Prim.Native.Nat.{ℕ, ◌+◌, ◌*◌, ◌%◌}
use mathlib.Core.Bool.{Bool}
use transport_go.Prelude.Tests.{ltb}

-- 2^64, and 2^63, the pattern of the least int64.
abbrev pub word : ℕ
word = 18446744073709551616

abbrev pub sign_bit : ℕ
sign_bit = 9223372036854775808

-- a + b and a * b on 64 bits.
abbrev pub add64 : ℕ → ℕ → ℕ
add64 a b = (a + b) % word

abbrev pub mul64 : ℕ → ℕ → ℕ
mul64 a b = (a * b) % word

-- a < b, read as signed.
abbrev pub signed_lt : ℕ → ℕ → Bool
signed_lt a b = ltb (add64 a sign_bit) (add64 b sign_bit)
