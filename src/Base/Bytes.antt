-- ===== src/Base/Bytes.antt =====
-- The bytes of a word, which `^` treats one by one.
use Prim.Native.Nat.{ℕ, zero, suc, ◌*◌, ◌/◌, ◌%◌, ◌^◌, ◌<◌, bit_xor}
use mathlib.Core.Path.{◌≡◌, refl, ◌∙◌}
use native.Mathlib.Omega.{arith}
use cloud_memory_security.Base.Bits.{bit_xor-bytes}

-- The `i`-th byte, from the lowest.
abbrev pub byte_of : ℕ → ℕ → ℕ
byte_of v i = v / 2 ^ (8 * i) % 2 ^ 8

-- `v` without its lowest `i` bytes.
abbrev pub shifted : ℕ → ℕ → ℕ
shifted zero v = v
shifted (suc i) v = shifted i v / 2 ^ 8

pub byte_of-shifted : (i v : ℕ) → i < 8 → byte_of v i ≡ shifted i v % 2 ^ 8
byte_of-shifted zero v lt = omega arith
byte_of-shifted (suc zero) v lt = omega arith
byte_of-shifted (suc (suc zero)) v lt = omega arith
byte_of-shifted (suc (suc (suc zero))) v lt = omega arith
byte_of-shifted (suc (suc (suc (suc zero)))) v lt = omega arith
byte_of-shifted (suc (suc (suc (suc (suc zero))))) v lt = omega arith
byte_of-shifted (suc (suc (suc (suc (suc (suc zero)))))) v lt = omega arith
byte_of-shifted (suc (suc (suc (suc (suc (suc (suc zero))))))) v lt = omega arith
byte_of-shifted (suc (suc (suc (suc (suc (suc (suc (suc i)))))))) v lt = absurd (omega arith)

shifted-bit_xor : (i v k : ℕ) → shifted i (bit_xor v k) ≡ bit_xor (shifted i v) (shifted i k)
shifted-bit_xor zero v k = refl
shifted-bit_xor (suc i) v k =
    rw (shifted-bit_xor i v k) (bit_xor-bytes (shifted i v) (shifted i k)).0

-- Each byte of the sum is the sum of the bytes.
pub byte_of-bit_xor :
    (i v k : ℕ) → i < 8 → byte_of (bit_xor v k) i ≡ bit_xor (byte_of v i) (byte_of k i)
byte_of-bit_xor i v k lt =
    byte_of-shifted i (bit_xor v k) lt
    ∙ rw (shifted-bit_xor i v k, byte_of-shifted i v lt, byte_of-shifted i k lt)
        (bit_xor-bytes (shifted i v) (shifted i k)).1
