-- ===== src/Cipher/Bytes.antt =====
-- The bytes of a word in memory.
use cloud_memory_security.Base.{
  byte_of, ℕ, zero, suc, ◌+◌, ◌*◌, ◌^◌, ◌<◌, ◌≡◌, refl, ◌∙◌, ◌==◌, if◌then◌else◌, arith,
}
use cloud_memory_security.Memory.{Mem, load64, store64, user_end}

-- Every cell of user memory is a byte.
abbrev pub UserBytes : Mem → Type 0
UserBytes m = (a : ℕ) → a < user_end → m a < 2 ^ 8

abbrev one_of_bytes : (b0 b1 b2 b3 b4 b5 b6 b7 i : ℕ) → ℕ
one_of_bytes b0 b1 b2 b3 b4 b5 b6 b7 i =
    if i == 0
    then b0
    else if i == 1
    then b1
    else if i == 2
    then b2
    else if i == 3
    then b3
    else if i == 4
    then b4
    else if i == 5
    then b5
    else if i == 6
    then b6
    else b7

-- The bytes of a word that is the sum of eight bytes.
module _ (b0 b1 b2 b3 b4 b5 b6 b7 : ℕ) (l0 : b0 < 256) (l1 : b1 < 256) (l2 : b2 < 256)
    (l3 : b3 < 256) (l4 : b4 < 256) (l5 : b5 < 256) (l6 : b6 < 256) (l7 : b7 < 256) where
  byte_of_sum :
      (i : ℕ)
      → i < 8
      → byte_of
          (b0
            + b1 * 2 ^ 8
            + b2 * 2 ^ 16
            + b3 * 2 ^ 24
            + b4 * 2 ^ 32
            + b5 * 2 ^ 40
            + b6 * 2 ^ 48
            + b7 * 2 ^ 56)
          i
        ≡ one_of_bytes b0 b1 b2 b3 b4 b5 b6 b7 i
  byte_of_sum zero lt = omega arith
  byte_of_sum (suc zero) lt = omega arith
  byte_of_sum (suc (suc zero)) lt = omega arith
  byte_of_sum (suc (suc (suc zero))) lt = omega arith
  byte_of_sum (suc (suc (suc (suc zero)))) lt = omega arith
  byte_of_sum (suc (suc (suc (suc (suc zero))))) lt = omega arith
  byte_of_sum (suc (suc (suc (suc (suc (suc zero)))))) lt = omega arith
  byte_of_sum (suc (suc (suc (suc (suc (suc (suc zero))))))) lt = omega arith
  byte_of_sum (suc (suc (suc (suc (suc (suc (suc (suc i)))))))) lt = absurd (omega arith)

one_of_cells :
    (m : Mem) (p i : ℕ)
    → i < 8
    → one_of_bytes
        (m p)
        (m (p + 1))
        (m (p + 2))
        (m (p + 3))
        (m (p + 4))
        (m (p + 5))
        (m (p + 6))
        (m (p + 7))
        i
      ≡ m (p + i)
one_of_cells m p zero lt = let e : p + 0 ≡ p = omega arith in rw e
one_of_cells m p (suc zero) lt = refl
one_of_cells m p (suc (suc zero)) lt = refl
one_of_cells m p (suc (suc (suc zero))) lt = refl
one_of_cells m p (suc (suc (suc (suc zero)))) lt = refl
one_of_cells m p (suc (suc (suc (suc (suc zero))))) lt = refl
one_of_cells m p (suc (suc (suc (suc (suc (suc zero)))))) lt = refl
one_of_cells m p (suc (suc (suc (suc (suc (suc (suc zero))))))) lt = refl
one_of_cells m p (suc (suc (suc (suc (suc (suc (suc (suc i)))))))) lt = absurd (omega arith)

-- The byte of the word that has it is the byte itself.
pub byte_of-load64 :
    (m : Mem) (p i a : ℕ)
    → ((b : ℕ) → b < p + 8 → m b < 2 ^ 8)
    → i < 8
    → a ≡ p + i
    → byte_of (load64 m p) i ≡ m a
unfolding load64
byte_of-load64 m p i a bytes lt e =
    byte_of_sum (m p) (m (p + 1)) (m (p + 2)) (m (p + 3)) (m (p + 4)) (m (p + 5)) (m (p + 6))
      (m (p + 7)) (bytes p (omega arith)) (bytes (p + 1) (omega arith))
      (bytes (p + 2) (omega arith)) (bytes (p + 3) (omega arith)) (bytes (p + 4) (omega arith))
      (bytes (p + 5) (omega arith)) (bytes (p + 6) (omega arith)) (bytes (p + 7) (omega arith)) i lt
    ∙ one_of_cells m p i lt
    ∙ rw e

pub store64-UserBytes : (m : Mem) (p v : ℕ) → UserBytes m → UserBytes (store64 m p v)
unfolding store64
store64-UserBytes m p v bytes a lt = ground (arith, bytes a lt)
