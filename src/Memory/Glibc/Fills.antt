-- ===== src/Memory/Glibc/Fills.antt =====
-- The copy of glibc's memset (test/user_level_memset.c), compared with memset.
use cloud_memory_security.Base.{
  ℕ, zero, suc, ◌+◌, ◌-◌, ◌*◌, ◌/◌, ◌%◌, ◌^◌, ◌≤◌, ◌<◌, ◌≡◌, refl, ◌∙◌, inl, inr, Bool, true, false,
  ◌&&◌, arith, leb, ◌==◌, ==_iff, if◌then◌else◌, add64, sub64, Run, ok, Bool-cases,
}
use cloud_memory_security.Memory.{Mem, within, memset, store64}
use cloud_memory_security.Memory.Glibc.{
  store_byte, spread, align, set_words, set_blocks, set_bytes, glibc_memset,
}

-- A word whose eight bytes are 1.
abbrev ones : ℕ
ones = 0x0101010101010101

all_below : ℕ → (ℕ → Bool) → Bool
all_below zero p = true
all_below (suc n) p = p n && all_below n p

all_below_lem : (n : ℕ) (p : ℕ → Bool) (x : ℕ) → all_below n p ≡ true → x < n → p x ≡ true
unfolding all_below
all_below_lem zero p x h lt = absurd (omega arith)
all_below_lem (suc n) p x h lt = ground (arith, all_below_lem n p x)

spread_table : all_below 256 (λ c. spread c == c * ones) ≡ true
unfolding all_below spread
spread_table = refl

spread_mod : (c : ℕ) → spread c ≡ spread (c % 2 ^ 8)
unfolding spread
spread_mod c = let e : c % 2 ^ 8 % 2 ^ 8 ≡ c % 2 ^ 8 = omega arith in rw e

spread-ones : (c : ℕ) → spread c ≡ c % 2 ^ 8 * ones
spread-ones c =
    spread_mod c
    ∙ (==_iff (spread (c % 2 ^ 8)) (c % 2 ^ 8 * ones)).0
        (all_below_lem 256 (λ x. spread x == x * ones) (c % 2 ^ 8) spread_table (omega arith))

byte_of_ones : (c i : ℕ) → c < 256 → i < 8 → c * ones / 2 ^ (8 * i) % 2 ^ 8 ≡ c
byte_of_ones c zero lt h = omega arith
byte_of_ones c (suc zero) lt h = omega arith
byte_of_ones c (suc (suc zero)) lt h = omega arith
byte_of_ones c (suc (suc (suc zero))) lt h = omega arith
byte_of_ones c (suc (suc (suc (suc zero)))) lt h = omega arith
byte_of_ones c (suc (suc (suc (suc (suc zero))))) lt h = omega arith
byte_of_ones c (suc (suc (suc (suc (suc (suc zero)))))) lt h = omega arith
byte_of_ones c (suc (suc (suc (suc (suc (suc (suc zero))))))) lt h = omega arith
byte_of_ones c (suc (suc (suc (suc (suc (suc (suc (suc i)))))))) lt h = absurd (omega arith)

-- The byte at `a` after `[p, p + n)` was filled with `c`.
abbrev filled : Mem → (p c n a : ℕ) → ℕ
filled m p c n a = if within p (p + n) a then c % 2 ^ 8 else m a

store64-spread : (m : Mem) (p c a : ℕ) → store64 m p (spread c) a ≡ filled m p c 8 a
unfolding store64
store64-spread m p c a = elim (Bool-cases (within p (p + 8) a)) [
  | inr out ↦ rw out
  | inl inside ↦
      rw inside (rw (spread-ones c) (byte_of_ones (c % 2 ^ 8) (a - p) (omega arith) (ground arith)))
]

set_bytes_lem :
    (n c p : ℕ) (m : Mem) (a : ℕ) → p + n < 2 ^ 64 → set_bytes n c p m a ≡ filled m p c n a
unfolding set_bytes
set_bytes_lem zero c p m a lt = ground arith
set_bytes_lem (suc n) c p m a lt =
    let next : add64 p 1 ≡ p + 1 = omega arith in
    rw next (ground (arith, set_bytes_lem n c (p + 1) (store_byte m p c) a))

set_words_lem :
    (n c p : ℕ) (m : Mem) (a : ℕ)
    → p + 8 * n < 2 ^ 64
    → set_words n (spread c) p m a ≡ filled m p c (8 * n) a
unfolding set_words
set_words_lem zero c p m a lt = ground arith
set_words_lem (suc n) c p m a lt =
    let next : add64 p 8 ≡ p + 8 = omega arith in
    rw next
      (ground (arith, set_words_lem n c (p + 8) (store64 m p (spread c)) a, store64-spread m p c a))

set_blocks_lem :
    (n c p : ℕ) (m : Mem) (a : ℕ)
    → p + 64 * n < 2 ^ 64
    → set_blocks n (spread c) p m a ≡ filled m p c (64 * n) a
unfolding set_blocks
set_blocks_lem zero c p m a lt = ground arith
set_blocks_lem (suc n) c p m a lt =
    let next : add64 p 64 ≡ p + 64 = omega arith in
    rw next (
      ground (
        arith,
        set_blocks_lem n c (p + 64) (set_words 8 (spread c) p m) a,
        set_words_lem 8 c p m a,
      ))

-- The bytes up to the next address that 8 divides.
abbrev gap : ℕ → ℕ
gap p = 7 * p % 8

align-suc :
    (n c p len : ℕ) (m : Mem)
    → (p % 8 == 0) ≡ false
    → p + len < 2 ^ 64
    → 0 < len
    → align (suc n) c p len m ≡ align n c (p + 1) (len - 1) (store_byte m p c)
unfolding align
align-suc n c p len m more top pos =
    let next : add64 p 1 ≡ p + 1 = omega arith in
    let fewer : sub64 len 1 ≡ len - 1 = omega arith in rw (more, align) (rw next (rw fewer))

abbrev stopped : ℕ → ℕ → Mem → Run (ℕ × ℕ × Mem)
stopped p n m = ok (p, n, m)

ok_same : (p q n k : ℕ) (m : Mem) → p ≡ q → n ≡ k → stopped p n m ≡ stopped q k m
ok_same p q n k m e f = cc

align_lem :
    (rounds c p len : ℕ) (m : Mem)
    → gap p < rounds
    → gap p ≤ len
    → p + len < 2 ^ 64
    → (m' : Mem) × (align rounds c p len m ≡ ok (p + gap p, len - gap p, m'))
      × ((a : ℕ) → m' a ≡ filled m p c (gap p) a)
unfolding align
align_lem zero c p len m lt le top = absurd (omega arith)
align_lem (suc n) c p len m lt le top = elim (Bool-cases (p % 8 == 0)) [
  | inl done ↦
      let none_left : gap p ≡ 0 = ground arith in
      let here : p + gap p ≡ p = omega arith in
      let rest : len - gap p ≡ len = omega arith in
      (m, rw (done, align) (rw here (rw rest)), λ a. ground arith)
  | inr more ↦
      let some_left : gap p ≡ suc (gap (p + 1)) = ground arith in
      let (m', run, fills) =
        align_lem n c (p + 1) (len - 1) (store_byte m p c) (omega arith) (omega arith)
          (omega arith) in
      (
        m',
        align-suc n c p len m more (omega arith) (omega arith)
            ∙ run
            ∙ ok_same (p + 1 + gap (p + 1)) (p + gap p) (len - 1 - gap (p + 1)) (len - gap p) m'
                (omega arith) (omega arith),
        λ a. fills a ∙ ground arith,
      )
]

-- On a range below the end of the address space, glibc_memset with 8 rounds for the alignment ends, and
-- every byte is then what memset leaves there.
pub glibc_memset-memset :
    (dstpp c len : ℕ) (m : Mem)
    → dstpp + len < 2 ^ 64
    → (m' : Mem) × (glibc_memset 8 dstpp c len m ≡ ok m')
      × ((a : ℕ) → m' a ≡ memset m dstpp (c % 2 ^ 8) len a)
unfolding glibc_memset memset
glibc_memset-memset dstpp c len m top = elim (Bool-cases (leb 8 len)) [
  | inr short ↦ (set_bytes len c dstpp m, rw short, λ a. set_bytes_lem len c dstpp m a top)
  | inl long ↦
      let (m1, run, aligned) = align_lem 8 c dstpp len m (omega arith) (ground arith) top in
      let p1 = dstpp + gap dstpp in
      let rest = len - gap dstpp in
      let p2 = add64 p1 (rest / 64 * 64) in
      let p3 = add64 p2 (rest % 64 / 8 * 8) in
      let m2 = set_blocks (rest / 64) (spread c) p1 m1 in
      let m3 = set_words (rest % 64 / 8) (spread c) p2 m2 in
      let at2 : p2 ≡ p1 + rest / 64 * 64 = ground arith in
      let at3 : p3 ≡ p2 + rest % 64 / 8 * 8 = ground arith in
      (
        set_bytes (rest % 64 % 8) c p3 m3,
        rw long (rw run),
        λ a.
            set_bytes_lem (rest % 64 % 8) c p3 m3 a (ground arith)
            ∙ ground (
              arith,
              set_words_lem (rest % 64 / 8) c p2 m2 a,
              set_blocks_lem (rest / 64) c p1 m1 a,
              aligned a,
            ),
      )
]
