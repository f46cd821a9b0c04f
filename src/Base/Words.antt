-- ===== src/Base/Words.antt =====
-- `unsigned long` arithmetic of a 64-bit machine; an `int` is its 32-bit pattern.
use Prim.Native.Nat.{ℕ, ◌+◌, ◌-◌, ◌*◌, ◌%◌, ◌^◌}

abbrev pub word_mod : ℕ
word_mod = 2 ^ 64

abbrev pub add64 : ℕ → ℕ → ℕ
add64 a b = (a + b) % 2 ^ 64

-- The subtrahend is below 2 ^ 64; `-` on ℕ stops at 0, so the modulus is added first.
abbrev pub sub64 : ℕ → ℕ → ℕ
sub64 a b = (a + 2 ^ 64 - b) % 2 ^ 64

abbrev pub mul64 : ℕ → ℕ → ℕ
mul64 a b = (a * b) % 2 ^ 64

-- The cast to `int`.
abbrev pub to_int : ℕ → ℕ
to_int a = a % 2 ^ 32

abbrev pub dec_int : ℕ → ℕ
dec_int a = (a + 2 ^ 32 - 1) % 2 ^ 32
