-- ===== src/Cipher/Words.antt =====
-- The loop over the words of kernel_probe/stack_encrypt.c, byte by byte.
use cloud_memory_security.Base.{
  byte_of, byte_of-bit_xor, ℕ, zero, suc, ◌+◌, ◌-◌, ◌*◌, ◌/◌, ◌%◌, ◌^◌, ◌≤◌, ◌<◌, ◌≡◌, ◌∙◌, inl,
  inr, true, false, arith, ltb, leb, leb→le, leb→lt, if◌then◌else◌, add64, bit_xor, Run, ok,
  Bool-cases,
}
use cloud_memory_security.Memory.{Mem, within, load64, store64, user_end}
use cloud_memory_security.Cipher.{xor_words, xor_tail}
use cloud_memory_security.Cipher.Bytes.{UserBytes, byte_of-load64, store64-UserBytes}

-- The words end at the first address above `user_rbp`.
abbrev pub stop_at : ℕ → ℕ → ℕ
stop_at p user_rbp = if leb p user_rbp then p + ((user_rbp - p) / 8 + 1) * 8 else p

-- The byte at `a` once the words of `[p, q)` were XORed.
abbrev pub xored : Mem → (p q key a : ℕ) → ℕ
xored m p q key a = if within p q a then bit_xor (m a) (byte_of key ((a - p) % 8)) else m a

store64-xor :
    (m : Mem) (p key a : ℕ)
    → UserBytes m
    → p + 8 ≤ user_end
    → within p (p + 8) a ≡ true
    → store64 m p (bit_xor (load64 m p) key) a ≡ bit_xor (m a) (byte_of key (a - p))
unfolding store64
store64-xor m p key a bytes top inside =
    rw (inside, byte_of-bit_xor (a - p) (load64 m p) key (ground arith))
      (rw (
        byte_of-load64 m p (a - p) a (λ b lt. bytes b (omega arith)) (ground arith) (ground arith)))

xored_step :
    (m : Mem) (p q key a : ℕ)
    → UserBytes m
    → p + 8 ≤ user_end
    → p + 8 ≤ q
    → xored (store64 m p (bit_xor (load64 m p) key)) (p + 8) q key a ≡ xored m p q key a
xored_step m p q key a bytes top le = elim (Bool-cases (within p (p + 8) a)) [
  | inl first ↦
      let behind : within (p + 8) q a ≡ false = ground arith in
      let inside : within p q a ≡ true = ground arith in
      let index : (a - p) % 8 ≡ a - p = ground arith in
      rw (behind, inside, index) (store64-xor m p key a bytes top first)
  | inr other ↦
      let as_before : store64 m p (bit_xor (load64 m p) key) a ≡ m a = unfold store64 in rw other in
      elim (Bool-cases (within (p + 8) q a)) [
        | inl later ↦
            let inside : within p q a ≡ true = ground arith in
            let index : (a - p) % 8 ≡ (a - (p + 8)) % 8 = ground arith in
            rw (later, inside, index, as_before)
        | inr out ↦
            let outside : within p q a ≡ false = ground arith in rw (out, outside, as_before)
      ]
]

xor_words-suc :
    (n p user_rbp key : ℕ) (m : Mem)
    → leb p user_rbp ≡ true
    → p + 8 < 2 ^ 64
    → xor_words (suc n) p user_rbp key m
      ≡ xor_words n (p + 8) user_rbp key (store64 m p (bit_xor (load64 m p) key))
unfolding xor_words
xor_words-suc n p user_rbp key m more top =
    let next : add64 p 8 ≡ p + 8 = omega arith in rw (more, xor_words) (rw next)

stop_at_step :
    (p user_rbp : ℕ) → leb p user_rbp ≡ true → stop_at (p + 8) user_rbp ≡ stop_at p user_rbp
stop_at_step p user_rbp more = ground arith

stop_at-leb : (p user_rbp : ℕ) → leb p user_rbp ≡ true → p + 8 ≤ stop_at p user_rbp
stop_at-leb p user_rbp more = rw more (omega arith)

abbrev ended : ℕ → Mem → Run (ℕ × Mem)
ended q m = ok (q, m)

ended_same : (q k : ℕ) (m : Mem) → q ≡ k → ended q m ≡ ended k m
ended_same q k m e = cc

pub xor_words-xored :
    (rounds p user_rbp key : ℕ) (m : Mem)
    → UserBytes m
    → user_rbp + 8 ≤ user_end
    → p ≤ user_rbp + 8
    → user_rbp + 8 < p + 8 * rounds
    → (m' : Mem) × (xor_words rounds p user_rbp key m ≡ ok (stop_at p user_rbp, m'))
      × ((a : ℕ) → m' a ≡ xored m p (stop_at p user_rbp) key a)
unfolding xor_words
xor_words-xored zero p user_rbp key m bytes top le enough = absurd (omega arith)
xor_words-xored (suc n) p user_rbp key m bytes top le enough = elim (Bool-cases (leb p user_rbp)) [
  | inr past ↦ (m, rw (past, xor_words), λ a. rw past (ground arith))
  | inl more ↦
      let same = stop_at_step p user_rbp more in
      let (m', run, fills) =
        xor_words-xored n (p + 8) user_rbp key (store64 m p (bit_xor (load64 m p) key))
          (store64-UserBytes m p (bit_xor (load64 m p) key) bytes) top
          (omega (arith, leb→le p user_rbp more)) (omega arith) in
      (
        m',
        xor_words-suc n p user_rbp key m more (omega (arith, leb→le p user_rbp more))
            ∙ run
            ∙ ended_same (stop_at (p + 8) user_rbp) (stop_at p user_rbp) m' same,
        λ a.
            fills a
            ∙ rw same (
                xored_step m p (stop_at p user_rbp) key a bytes
                  (omega (arith, leb→le p user_rbp more)) (stop_at-leb p user_rbp more)),
      )
]

-- No byte is left behind the words.
pub xor_tail-stop_at :
    (p user_rbp key : ℕ) (m : Mem) → xor_tail (stop_at p user_rbp) user_rbp key m ≡ m
unfolding xor_tail
xor_tail-stop_at p user_rbp key m = elim (Bool-cases (leb p user_rbp)) [
  | inl more ↦
      let none_left : ltb (stop_at p user_rbp) user_rbp ≡ false = rw more (ground arith) in
      rw none_left
  | inr past ↦
      let none_left : ltb (stop_at p user_rbp) user_rbp ≡ false =
        rw past (ground (arith, leb→lt p user_rbp past)) in
      rw none_left
]

pub stop_at-le : (p user_rbp : ℕ) → p ≤ user_rbp + 8 → stop_at p user_rbp ≤ user_rbp + 8
stop_at-le p user_rbp le = ground arith
