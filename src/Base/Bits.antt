-- ===== src/Base/Bits.antt =====
-- `^` on words: it undoes itself, and stays below a power of 2.
use Prim.Native.Nat.{
  ℕ, zero, suc, ◌+◌, ◌*◌, ◌/◌, ◌%◌, ◌^◌, ◌≤◌, ◌<◌, bit_xor, bit_xor-bitwise, digits, differ,
}
use mathlib.Core.Path.{◌≡◌, refl, sym, ◌∙◌}
use native.Mathlib.Nat.{pow-suc}
use native.Mathlib.Omega.{arith}

abbrev xor_digits : ℕ → ℕ → ℕ → ℕ
xor_digits = digits (λ y. y) differ

xor_zero : (n b : ℕ) → xor_digits n zero b ≡ b
xor_zero zero b = refl
xor_zero (suc n) b = refl

-- The rounds do not matter where the first argument is no larger.
xor_rounds : (a n m b : ℕ) → a ≤ n → a ≤ m → xor_digits n a b ≡ xor_digits m a b
xor_rounds zero n m b le le' = xor_zero n b ∙ sym (xor_zero m b)
xor_rounds (suc a) zero m b le le' = absurd (omega arith)
xor_rounds (suc a) (suc n) zero b le le' = absurd (omega arith)
xor_rounds (suc a) (suc n) (suc m) b le le' =
    omega (arith, xor_rounds (suc a / 2) n m (b / 2) (omega arith) (omega arith))

zero-bit_xor : (b : ℕ) → bit_xor 0 b ≡ b
zero-bit_xor b = bit_xor-bitwise 0 b

-- The lowest bit, and the rest.
pub bit_xor-half : (a b : ℕ) → bit_xor a b ≡ bit_xor (a / 2) (b / 2) * 2 + differ (a % 2) (b % 2)
bit_xor-half zero b = omega (arith, zero-bit_xor b, zero-bit_xor (b / 2))
bit_xor-half (suc a) b = omega (
  arith,
  bit_xor-bitwise (suc a) b,
  bit_xor-bitwise (suc a / 2) (b / 2),
  xor_rounds (suc a / 2) a (suc a / 2) (b / 2) (omega arith) (omega arith),
)

differ_bits : (x y : ℕ) → x < 2 → y < 2 → (differ x y < 2) × (differ (differ x y) y ≡ x)
differ_bits zero zero p q = (omega arith, refl)
differ_bits zero (suc zero) p q = (omega arith, refl)
differ_bits (suc zero) zero p q = (omega arith, refl)
differ_bits (suc zero) (suc zero) p q = (omega arith, refl)
differ_bits (suc (suc x)) y p q = absurd (omega arith)
differ_bits zero (suc (suc y)) p q = absurd (omega arith)
differ_bits (suc zero) (suc (suc y)) p q = absurd (omega arith)

bit_xor_undo_rounds : (n a b : ℕ) → a ≤ n → b ≤ n → bit_xor (bit_xor a b) b ≡ a
bit_xor_undo_rounds zero zero zero p q = refl
bit_xor_undo_rounds zero (suc a) b p q = absurd (omega arith)
bit_xor_undo_rounds zero zero (suc b) p q = absurd (omega arith)
bit_xor_undo_rounds (suc n) a b p q =
    let x = bit_xor (a / 2) (b / 2) in
    let d = differ (a % 2) (b % 2) in
    let bits = differ_bits (a % 2) (b % 2) (omega arith) (omega arith) in
    let whole : bit_xor a b ≡ x * 2 + d = bit_xor-half a b in
    let half : bit_xor a b / 2 ≡ x = omega arith in
    let low : bit_xor a b % 2 ≡ d = omega arith in
    bit_xor-half (bit_xor a b) b
    ∙ rw (half, low)
        (rw (bits.1)
          (omega (arith, bit_xor_undo_rounds n (a / 2) (b / 2) (omega arith) (omega arith))))

pub bit_xor_undo : (a b : ℕ) → bit_xor (bit_xor a b) b ≡ a
bit_xor_undo a b = bit_xor_undo_rounds (a + b) a b (omega arith) (omega arith)

pub bit_xor-lt : (k a b : ℕ) → a < 2 ^ k → b < 2 ^ k → bit_xor a b < 2 ^ k
bit_xor-lt zero a b p q =
    let none_left : a ≡ 0 = omega arith in
    let none' : b ≡ 0 = omega arith in rw (none_left, none') (omega arith)
bit_xor-lt (suc k) a b p q =
    let bits = differ_bits (a % 2) (b % 2) (omega arith) (omega arith) in
    omega (
      arith,
      pow-suc 2 k,
      bit_xor-half a b,
      bit_xor-lt k (a / 2) (b / 2) (omega (arith, pow-suc 2 k)) (omega (arith, pow-suc 2 k)),
    )

-- `h` times the `k`-th power of 2.
abbrev doubled : ℕ → ℕ → ℕ
doubled zero h = h
doubled (suc k) h = doubled k h * 2

bit_xor_parts :
    (k h l h' l' : ℕ)
    → l < doubled k 1
    → l' < doubled k 1
    → bit_xor (doubled k h + l) (doubled k h' + l') ≡ doubled k (bit_xor h h') + bit_xor l l'
bit_xor_parts zero h l h' l' p q =
    let none_left : l ≡ 0 = omega arith in
    let none' : l' ≡ 0 = omega arith in
    let here : h + 0 ≡ h = omega arith in
    let here' : h' + 0 ≡ h' = omega arith in rw (none_left, none', here, here') (omega arith)
bit_xor_parts (suc k) h l h' l' p q =
    let half : (doubled k h * 2 + l) / 2 ≡ doubled k h + l / 2 = omega arith in
    let half' : (doubled k h' * 2 + l') / 2 ≡ doubled k h' + l' / 2 = omega arith in
    let low : (doubled k h * 2 + l) % 2 ≡ l % 2 = omega arith in
    let low' : (doubled k h' * 2 + l') % 2 ≡ l' % 2 = omega arith in
    bit_xor-half (doubled k h * 2 + l) (doubled k h' * 2 + l')
    ∙ rw (half, half', low, low')
        (omega (
          arith,
          bit_xor-half l l',
          bit_xor_parts k h (l / 2) h' (l' / 2) (omega arith) (omega arith),
        ))

bit_xor-cong : (a b a' b' : ℕ) → a ≡ a' → b ≡ b' → bit_xor a b ≡ bit_xor a' b'
bit_xor-cong a b a' b' e f = cc

-- The lowest byte, and the rest.
pub bit_xor-bytes :
    (a b : ℕ)
    → (bit_xor a b / 2 ^ 8 ≡ bit_xor (a / 2 ^ 8) (b / 2 ^ 8))
      × (bit_xor a b % 2 ^ 8 ≡ bit_xor (a % 2 ^ 8) (b % 2 ^ 8))
bit_xor-bytes a b =
    let lt = bit_xor-lt 8 (a % 2 ^ 8) (b % 2 ^ 8) (omega arith) (omega arith) in
    let parts : bit_xor a b
        ≡ bit_xor (a / 2 ^ 8) (b / 2 ^ 8) * 2 ^ 8 + bit_xor (a % 2 ^ 8) (b % 2 ^ 8) =
      bit_xor-cong a b (doubled 8 (a / 2 ^ 8) + a % 2 ^ 8) (doubled 8 (b / 2 ^ 8) + b % 2 ^ 8)
        (omega arith) (omega arith)
      ∙ bit_xor_parts 8 (a / 2 ^ 8) (a % 2 ^ 8) (b / 2 ^ 8) (b % 2 ^ 8) (omega arith) (omega arith)
      ∙ omega arith in
    (omega arith, omega arith)
