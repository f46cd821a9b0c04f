-- ===== src/Probe/Pointers/Steps.antt =====
-- The rounds of restore_pointers, by what their parts come to.
use cloud_memory_security.Base.{
  ◌-◌, ◌^◌, ℕ, suc, ◌+◌, ◌<◌, ◌≡◌, refl, true, false, List, [], ◌∷◌, none, some, ◌==◌, dec_int,
  arith, ok, Status, success,
}
use cloud_memory_security.Memory.{Mem, Machine, within, load64, store64, memcpy, set_mem}
use cloud_memory_security.Cipher.Bytes.{byte_of-load64}
use cloud_memory_security.StackBuf.{Sbuf}
use cloud_memory_security.Probe.Paras.{Para, find_in_stack_buf}
use cloud_memory_security.Probe.Pointers.{
  add_hole, copy_pointer, follow, copy_target, restore_pointer, restore_pointers,
}

pub load64_at :
    (m m' : Mem) (p q : ℕ)
    → ((i b c : ℕ) → i < 8 → b ≡ p + i → c ≡ q + i → m b ≡ m' c)
    → load64 m p ≡ load64 m' q
unfolding load64
load64_at m m' p q same = omega (
  arith,
  same 0 p q (omega arith) (omega arith) (omega arith),
  same 1 (p + 1) (q + 1) (omega arith) refl refl,
  same 2 (p + 2) (q + 2) (omega arith) refl refl,
  same 3 (p + 3) (q + 3) (omega arith) refl refl,
  same 4 (p + 4) (q + 4) (omega arith) refl refl,
  same 5 (p + 5) (q + 5) (omega arith) refl refl,
  same 6 (p + 6) (q + 6) (omega arith) refl refl,
  same 7 (p + 7) (q + 7) (omega arith) refl refl,
)

-- The cell that was stored is the one that is loaded.
pub load64-store64 :
    (m m' : Mem) (a q : ℕ)
    → ((b : ℕ) → m' b < 2 ^ 8)
    → load64 (store64 m a (load64 m' q)) a ≡ load64 m' q
unfolding store64
load64-store64 m m' a q bytes = load64_at (store64 m a (load64 m' q)) m' a q (λ i b c lt e f.
    let inside : within a (a + 8) b ≡ true = ground arith in
    let place : b - a ≡ i = omega arith in
    rw inside (rw place (byte_of-load64 m' q i c (λ d h. bytes d) lt f)))

module _ (kmalloc : ℕ → ℕ → ℕ) where
  pub follow-suc :
      (n a p next : ℕ) (b b' : Sbuf) (s s' : Machine)
      → find_in_stack_buf a 8 b ≡ some p
      → copy_pointer kmalloc a p b s ≡ ok (b', s')
      → load64 s'.mem a ≡ next
      → follow kmalloc (suc n) a b s ≡ follow kmalloc n next b' s'
  unfolding follow
  follow-suc n a p next b b' s s' found copied loads = rw (found, follow) (rw copied (rw loads))

  pub copy_target-none :
      (a size : ℕ) (b : Sbuf) (s : Machine)
      → find_in_stack_buf a size b ≡ none
      → copy_target kmalloc a size b s ≡ ok (b, s)
  unfolding copy_target
  copy_target-none a size b s missed = rw (missed, copy_target)

  pub copy_target-some :
      (a size p : ℕ) (b : Sbuf) (s : Machine)
      → find_in_stack_buf a size b ≡ some p
      → copy_target kmalloc a size b s
        ≡ add_hole kmalloc p size b (set_mem s (memcpy s.mem a p size))
  unfolding copy_target
  copy_target-some a size p b s found = rw (found, copy_target)

  pub restore_pointer-found :
      (tmp : Para) (p t : ℕ) (b b1 b2 b3 : Sbuf) (s s1 s2 s3 : Machine)
      → find_in_stack_buf tmp.addr 8 b ≡ some p
      → copy_pointer kmalloc tmp.addr p b s ≡ ok (b1, s1)
      → follow kmalloc (dec_int tmp.pointer) (load64 s1.mem tmp.addr) b1 s1 ≡ ok (t, b2, s2)
      → copy_target kmalloc t tmp.size b2 s2 ≡ ok (b3, s3)
      → restore_pointer kmalloc tmp b s ≡ ok (success, record tmp { pointer = 0 }, b3, s3)
  unfolding restore_pointer
  restore_pointer-found tmp p t b b1 b2 b3 s s1 s2 s3 found copied followed reached =
      rw (found, restore_pointer) (rw copied (rw followed (rw reached)))

  pub restore_pointers-value :
      (p : Para) (plt plt' : List Para) (b b' : Sbuf) (s s' : Machine) (status : Status)
      → (p.pointer == 0) ≡ true
      → restore_pointers kmalloc plt b s ≡ ok (status, plt', b', s')
      → restore_pointers kmalloc (p ∷ plt) b s ≡ ok (status, p ∷ plt', b', s')
  unfolding restore_pointers
  restore_pointers-value p plt plt' b b' s s' status value run =
      rw (value, restore_pointers) (rw run)

  pub restore_pointers-pointer :
      (p p' : Para) (plt plt' : List Para) (b b1 b2 : Sbuf) (s s1 s2 : Machine) (status : Status)
      → (p.pointer == 0) ≡ false
      → restore_pointer kmalloc p b s ≡ ok (success, p', b1, s1)
      → restore_pointers kmalloc plt b1 s1 ≡ ok (status, plt', b2, s2)
      → restore_pointers kmalloc (p ∷ plt) b s ≡ ok (status, p' ∷ plt', b2, s2)
  unfolding restore_pointers
  restore_pointers-pointer p p' plt plt' b b1 b2 s s1 s2 status pointer first run =
      rw (pointer, restore_pointers) (rw first (rw run))

  pub restore_pointers-nil :
      (b : Sbuf) (s : Machine) → restore_pointers kmalloc [] b s ≡ ok (success, [], b, s)
  unfolding restore_pointers
  restore_pointers-nil b s = refl
