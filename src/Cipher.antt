-- ===== src/Cipher.antt =====
-- kernel_probe/stack_encrypt.c: the parameters are set aside, the stack is XORed with a key, and the
-- parameters are put back. encrypt_stack and decrypt_stack have the same body.
pub mod Bytes
pub mod Params
pub mod RoundTrip
pub mod Words
mod Tests
use cloud_memory_security.Base.{
  ℕ, zero, suc, ◌+◌, ◌-◌, ◌%◌, ◌^◌, bit_xor, List, [], ◌∷◌, ltb, leb, if◌then◌else◌, add64, Run, ok,
  oops, hung, ◌>>=◌, ◌==◌, ◌*◌, ◌≤◌, ◌<◌, ◌≡◌, refl, inl, inr, true, false, not, ◌&&◌, arith,
  Bool-cases, leb→le, leb→lt,
}
use cloud_memory_security.Memory.{
  Mem, Machine, memcpy, load64, store64, set_mem, alloc, kfree, user_end,
}
use cloud_memory_security.Probe.Paras.{Para}

-- The sum of the parameters' sizes.
unfoldable pub total_size : ℕ → List Para → ℕ
total_size total [] = total
total_size total (p ∷ plt) = total_size (add64 total p.size) plt

-- `memcpy(buf + offset, (char *)tmp->addr, tmp->size)` for every parameter.
unfoldable pub save_paras : (buf offset : ℕ) → List Para → Mem → Mem
save_paras buf offset [] m = m
save_paras buf offset (p ∷ plt) m =
    save_paras buf (add64 offset p.size) plt (memcpy m (add64 buf offset) p.addr p.size)

-- `memcpy((char *)tmp->addr, buf + offset, tmp->size)` for every parameter.
unfoldable pub restore_paras : (buf offset : ℕ) → List Para → Mem → Mem
restore_paras buf offset [] m = m
restore_paras buf offset (p ∷ plt) m =
    restore_paras buf (add64 offset p.size) plt (memcpy m p.addr (add64 buf offset) p.size)

-- `for(p = user_rsp; p <= user_rbp; p++) *p = *p^key`, with the rounds left: the pointer it ends at,
-- and the memory.
unfoldable pub xor_words : (rounds p user_rbp key : ℕ) → Mem → Run (ℕ × Mem)
xor_words zero p user_rbp key m = hung
xor_words (suc n) p user_rbp key m = elim (leb p user_rbp) [
  | true ↦ xor_words n (add64 p 8) user_rbp key (store64 m p (bit_xor (load64 m p) key))
  | false ↦ ok (p, m)
]

-- The bytes from `p` on, with the rounds left.
unfoldable pub xor_bytes : (delta p key : ℕ) → Mem → Mem
xor_bytes zero p key m = m
xor_bytes (suc delta) p key m =
    xor_bytes delta (p + 1) key (λ a. if a == p then bit_xor (m p) (key % 2 ^ 8) else m a)

-- What is left after the words.
unfoldable pub xor_tail : (p user_rbp key : ℕ) → Mem → Mem
xor_tail p user_rbp key m = if ltb p user_rbp then xor_bytes (user_rbp - p) p key m else m

module _ (kmalloc : ℕ → ℕ → ℕ) where
  -- What both functions do once they have the block.
  unfoldable pub xor_with :
      (buf rounds user_rsp user_rbp : ℕ) → List Para → (key : ℕ) → Machine → Run Machine
  xor_with buf rounds user_rsp user_rbp plt key s = do
    (p, m) ← xor_words rounds user_rsp user_rbp key (save_paras buf 0 plt s.mem)
    ok (kfree buf (set_mem s (restore_paras buf 0 plt (xor_tail p user_rbp key m))))

  -- A block that was not allocated is written to, unless no parameter has a byte.
  unfoldable pub encrypt_stack :
      (rounds user_rsp user_rbp : ℕ) → List Para → (key : ℕ) → Machine → Run Machine
  encrypt_stack rounds user_rsp user_rbp plt key s =
      let (buf, s') = alloc kmalloc (total_size 0 plt) s in
      elim ((buf == 0) && not (total_size 0 plt == 0)) [
        | true ↦ oops
        | false ↦ xor_with buf rounds user_rsp user_rbp plt key s'
      ]

  unfoldable pub decrypt_stack :
      (rounds user_rsp user_rbp : ℕ) → List Para → (key : ℕ) → Machine → Run Machine
  decrypt_stack rounds user_rsp user_rbp plt key s =
      let (buf, s') = alloc kmalloc (total_size 0 plt) s in
      elim ((buf == 0) && not (total_size 0 plt == 0)) [
        | true ↦ oops
        | false ↦ xor_with buf rounds user_rsp user_rbp plt key s'
      ]

-- With rounds for every word of a user stack, the loop over the words ends, behind `user_rbp`, and the
-- loop over the bytes that are left then changes nothing.
pub xor_words_lem :
    (rounds p user_rbp key : ℕ) (m : Mem)
    → user_rbp < user_end
    → p ≤ user_rbp + 8
    → user_rbp + 8 < p + 8 * rounds
    → (q : ℕ) × (m' : Mem) × (xor_words rounds p user_rbp key m ≡ ok (q, m'))
      × (user_rbp < q)
      × (xor_tail q user_rbp key m' ≡ m')
unfolding xor_words xor_tail
xor_words_lem zero p user_rbp key m top le enough = absurd (omega arith)
xor_words_lem (suc n) p user_rbp key m top le enough = elim (Bool-cases (leb p user_rbp)) [
  | inl more ↦
      let next : add64 p 8 ≡ p + 8 = omega arith in
      rw (more, next, xor_words)
        (xor_words_lem n (p + 8) user_rbp key (store64 m p (bit_xor (load64 m p) key)) top
          (omega (arith, leb→le p user_rbp more)) (omega arith))
  | inr past ↦
      let lt : user_rbp < p = leb→lt p user_rbp past in
      let none_left : ltb p user_rbp ≡ false = ground arith in
      rw (past, xor_words) (p, m, refl, lt, rw none_left)
]
