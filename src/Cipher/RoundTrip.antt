-- ===== src/Cipher/RoundTrip.antt =====
-- encrypt_stack, and decrypt_stack behind it.
use cloud_memory_security.Base.{
  byte_of, ℕ, ◌+◌, ◌-◌, ◌*◌, ◌%◌, ◌^◌, ◌≤◌, ◌<◌, ◌≡◌, refl, ◌∙◌, Bool, false, List, ◌∷◌, arith,
  ◌==◌, if◌then◌else◌, bit_xor, bit_xor_undo, bit_xor-lt, Run, ok,
}
use cloud_memory_security.Memory.{Mem, Machine, within, alloc, kfree, user_end}
use cloud_memory_security.Memory.Alloc.{KernelHeap, max_block}
use cloud_memory_security.Probe.Paras.{Para}
use cloud_memory_security.Cipher.{
  total_size, save_paras, restore_paras, xor_words, xor_with, encrypt_stack, decrypt_stack,
}
use cloud_memory_security.Cipher.Bytes.{UserBytes}
use cloud_memory_security.Cipher.Words.{
  stop_at, xored, xor_words-xored, xor_tail-stop_at, stop_at-le,
}
use cloud_memory_security.Cipher.Params.{
  covers, sizes, InUser, total_size-sizes, Holds-congr, save_paras-outside, save_paras-Holds,
  restore_paras-user,
}

-- The byte at `a` after a run: a parameter's as it was, any other of the words XORed.
abbrev pub crypted : Mem → List Para → (user_rsp user_rbp key a : ℕ) → ℕ
crypted m plt user_rsp user_rbp key a =
    if covers plt a then m a else xored m user_rsp (stop_at user_rsp user_rbp) key a

xored_congr : (m m' : Mem) (p q key a : ℕ) → m a ≡ m' a → xored m p q key a ≡ xored m' p q key a
xored_congr m m' p q key a e = rw e

rest_same : (b : Bool) (x y z : ℕ) → y ≡ z → (if b then x else y) ≡ (if b then x else z)
rest_same b x y z e = rw e

-- The run returns, with one more call of kmalloc, whose block it freed; every byte of user memory is
-- as `crypted` says.
pub record Crypts (kmalloc : ℕ → ℕ → ℕ) (user_rsp user_rbp : ℕ) (plt : List Para) (key : ℕ)
    (s : Machine) (r : Run Machine) : Type 0 where
  pub s' : Machine
  pub returns : r ≡ ok s'
  pub allocs : s'.allocs ≡ s.allocs + 1
  pub freed : s'.freed ≡ kmalloc s.allocs (sizes plt) ∷ s.freed
  pub user : (a : ℕ) → a < user_end → s'.mem a ≡ crypted s.mem plt user_rsp user_rbp key a

module _ (kmalloc : ℕ → ℕ → ℕ) (calls : ℕ) (heap : KernelHeap kmalloc calls) (rounds : ℕ)
    (user_rsp user_rbp : ℕ) (plt : List Para) (key : ℕ) where
  -- A stack in user memory, with rounds for its words, and parameters in user memory, 4 MB in all.
  pub record IsStack : Type 0 where
    pub top : user_rbp + 8 ≤ user_end
    pub ordered : user_rsp ≤ user_rbp + 8
    pub enough : user_rbp + 8 < user_rsp + 8 * rounds
    pub in_user : InUser plt
    pub small : sizes plt ≤ max_block

  -- One call of kmalloc more.
  abbrev counted : Machine → Machine
  counted s = record s { allocs = s.allocs + 1 }

  -- The machine of a run whose words ended with `m'`.
  abbrev finished : Machine → Mem → Machine
  finished s m' =
      let buf = kmalloc s.allocs (sizes plt) in
      record s { mem = restore_paras buf 0 plt m'; allocs = s.allocs + 1; freed = buf ∷ s.freed }

  xor_with-finished :
      (s : Machine) (m' : Mem)
      → xor_words rounds user_rsp user_rbp key
          (save_paras (kmalloc s.allocs (sizes plt)) 0 plt s.mem)
        ≡ ok (stop_at user_rsp user_rbp, m')
      → xor_with kmalloc (kmalloc s.allocs (sizes plt)) rounds user_rsp user_rbp plt key (counted s)
        ≡ ok (finished s m')
  unfolding xor_with kfree
  xor_with-finished s m' run = rw run (rw (xor_tail-stop_at user_rsp user_rbp key m'))

  xor_with-Crypts :
      (s : Machine) (r : Run Machine)
      → IsStack
      → s.allocs < calls
      → UserBytes s.mem
      → r
        ≡ xor_with kmalloc
            (kmalloc s.allocs (sizes plt))
            rounds
            user_rsp
            user_rbp
            plt
            key
            (counted s)
      → Crypts kmalloc user_rsp user_rbp plt key s r
  xor_with-Crypts s r st call bytes e =
      let buf : ℕ = kmalloc s.allocs (sizes plt) in
      let above : user_end ≤ buf = heap.kernel s.allocs (sizes plt) call st.small in
      let room : buf + 0 + sizes plt < 2 ^ 64 =
        omega (arith, heap.top s.allocs (sizes plt) call st.small) in
      let m : Mem = save_paras buf 0 plt s.mem in
      let as_before : (a : ℕ) → a < user_end → m a ≡ s.mem a =
        λ a low. save_paras-outside buf s.mem 0 plt s.mem a room (ground arith) in
      let holds = save_paras-Holds buf s.mem 0 plt s.mem above room st.in_user (λ a low. refl) in
      let words =
        xor_words-xored rounds user_rsp user_rbp key m
          (λ a low. omega (arith, as_before a low, bytes a low)) st.top st.ordered st.enough in
      let m' : Mem = words.0 in
      let kernel : (a : ℕ) → user_end ≤ a → m' a ≡ m a = λ a high.
        let out : within user_rsp (stop_at user_rsp user_rbp) a ≡ false =
          ground (arith, stop_at-le user_rsp user_rbp st.ordered, st.top) in
        words.2 a ∙ rw out in
      record {
        s' = finished s m';
        returns = e ∙ xor_with-finished s m' words.1;
        allocs = refl;
        freed = refl;
        user = λ a low.
            restore_paras-user buf s.mem 0 plt m' a above room st.in_user
              (Holds-congr buf s.mem 0 plt m m' above kernel holds) low
            ∙ rest_same (covers plt a) (s.mem a) (m' a)
                (xored s.mem user_rsp (stop_at user_rsp user_rbp) key a)
                (words.2 a
                  ∙ xored_congr m s.mem user_rsp (stop_at user_rsp user_rbp) key a
                      (as_before a low));
      }

  encrypt_stack-xor_with :
      (s : Machine)
      → total_size 0 plt ≡ sizes plt
      → (kmalloc s.allocs (sizes plt) == 0) ≡ false
      → encrypt_stack kmalloc rounds user_rsp user_rbp plt key s
        ≡ xor_with kmalloc
            (kmalloc s.allocs (sizes plt))
            rounds
            user_rsp
            user_rbp
            plt
            key
            (counted s)
  unfolding encrypt_stack alloc
  encrypt_stack-xor_with s total block = rw (encrypt_stack, total) (rw block (rw (alloc, total)))

  -- It encrypts.
  pub encrypt_stack-Crypts :
      (s : Machine)
      → IsStack
      → s.allocs < calls
      → UserBytes s.mem
      → Crypts kmalloc user_rsp user_rbp plt key s
          (encrypt_stack kmalloc rounds user_rsp user_rbp plt key s)
  encrypt_stack-Crypts s st call bytes =
      let total : total_size 0 plt ≡ sizes plt =
        total_size-sizes 0 plt (omega (arith, st.small)) ∙ omega arith in
      let block : (kmalloc s.allocs (sizes plt) == 0) ≡ false =
        ground (arith, heap.kernel s.allocs (sizes plt) call st.small) in
      xor_with-Crypts s (encrypt_stack kmalloc rounds user_rsp user_rbp plt key s) st call bytes
        (encrypt_stack-xor_with s total block)

  decrypt_stack-xor_with :
      (s : Machine)
      → total_size 0 plt ≡ sizes plt
      → (kmalloc s.allocs (sizes plt) == 0) ≡ false
      → decrypt_stack kmalloc rounds user_rsp user_rbp plt key s
        ≡ xor_with kmalloc
            (kmalloc s.allocs (sizes plt))
            rounds
            user_rsp
            user_rbp
            plt
            key
            (counted s)
  unfolding decrypt_stack alloc
  decrypt_stack-xor_with s total block = rw (decrypt_stack, total) (rw block (rw (alloc, total)))

  -- So does its twin.
  pub decrypt_stack-Crypts :
      (s : Machine)
      → IsStack
      → s.allocs < calls
      → UserBytes s.mem
      → Crypts kmalloc user_rsp user_rbp plt key s
          (decrypt_stack kmalloc rounds user_rsp user_rbp plt key s)
  decrypt_stack-Crypts s st call bytes =
      let total : total_size 0 plt ≡ sizes plt =
        total_size-sizes 0 plt (omega (arith, st.small)) ∙ omega arith in
      let block : (kmalloc s.allocs (sizes plt) == 0) ≡ false =
        ground (arith, heap.kernel s.allocs (sizes plt) call st.small) in
      xor_with-Crypts s (decrypt_stack kmalloc rounds user_rsp user_rbp plt key s) st call bytes
        (decrypt_stack-xor_with s total block)

  blocks_same :
      (i j : ℕ) (fs gs : List ℕ)
      → i ≡ j
      → fs ≡ gs
      → kmalloc i (sizes plt) ∷ fs ≡ kmalloc j (sizes plt) ∷ gs
  blocks_same i j fs gs e f = cc

  crypted-UserBytes :
      (m m' : Mem)
      → UserBytes m
      → ((a : ℕ) → a < user_end → m' a ≡ crypted m plt user_rsp user_rbp key a)
      → UserBytes m'
  crypted-UserBytes m m' bytes user a low =
      let i = (a - user_rsp) % 8 in
      let sum : bit_xor (m a) (byte_of key i) < 2 ^ 8 =
        bit_xor-lt 8 (m a) (byte_of key i) (bytes a low) (omega arith) in
      ground (arith, user a low, bytes a low)

  crypted_twice :
      (m m' : Mem) (a : ℕ)
      → m' a ≡ crypted m plt user_rsp user_rbp key a
      → crypted m' plt user_rsp user_rbp key a ≡ m a
  crypted_twice m m' a e = ground (arith, bit_xor_undo (m a) (byte_of key ((a - user_rsp) % 8)), e)

  -- A stack in user memory with parameters in user memory, of 4 MB at most, is encrypted and then
  -- decrypted with the same key, from the memory and the allocator that encrypt_stack left: both
  -- calls return, in between each byte of the words that is no parameter's is XORed with its byte of
  -- the key and every other byte of user memory is as it was, and at the end every byte of user
  -- memory is. Both blocks were freed.
  pub decrypt_stack-encrypt_stack :
      (s : Machine)
      → IsStack
      → s.allocs + 1 < calls
      → UserBytes s.mem
      → (s1 s2 : Machine) × (encrypt_stack kmalloc rounds user_rsp user_rbp plt key s ≡ ok s1)
        × (decrypt_stack kmalloc rounds user_rsp user_rbp plt key s1 ≡ ok s2)
        × ((a : ℕ) → a < user_end → s1.mem a ≡ crypted s.mem plt user_rsp user_rbp key a)
        × ((a : ℕ) → a < user_end → s2.mem a ≡ s.mem a)
        × (s2.freed ≡ kmalloc (s.allocs + 1) (sizes plt) ∷ kmalloc s.allocs (sizes plt) ∷ s.freed)
  decrypt_stack-encrypt_stack s st call bytes =
      let e = encrypt_stack-Crypts s st (omega arith) bytes in
      let d =
        decrypt_stack-Crypts e.s' st (omega (arith, e.allocs))
          (crypted-UserBytes s.mem e.s'.mem bytes e.user) in
      (
        e.s',
        d.s',
        e.returns,
        d.returns,
        e.user,
        λ a low. d.user a low ∙ crypted_twice s.mem e.s'.mem a (e.user a low),
        d.freed
            ∙ blocks_same e.s'.allocs (s.allocs + 1) e.s'.freed
                (kmalloc s.allocs (sizes plt) ∷ s.freed) e.allocs e.freed,
      )
