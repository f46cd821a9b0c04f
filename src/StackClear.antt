-- ===== src/StackClear.antt =====
-- clear_stack/stack_clear.c: the function that gcc's instrumentation calls at the end of every call, which
-- overwrites the frame of the function that ends. Its register rbp, which holds the address of its own
-- frame, is an argument.
use cloud_memory_security.Base.{
  ℕ, zero, suc, ◌+◌, ◌-◌, ◌^◌, ◌≤◌, ◌<◌, ◌≡◌, refl, ◌∙◌, inl, inr, true, false, arith, ltb, add64,
  sub64, Run, ok, hung, Bool-cases,
}
use cloud_memory_security.Memory.{Mem, memset, load64}

-- The loop, with the rounds left.
unfoldable pub clear_bytes : ℕ → (stop i : ℕ) → Mem → Run Mem
clear_bytes zero stop i m = hung
clear_bytes (suc n) stop i m = elim (ltb i stop) [
  | true ↦ clear_bytes n stop (add64 i 1) (memset m i b'0' 1)
  | false ↦ ok m
]

unfoldable pub cyg_profile_func_exit : (rounds rbp : ℕ) → Mem → Run Mem
unfolding clear_bytes
cyg_profile_func_exit rounds rbp m =
    let pre_rbp = load64 m rbp in clear_bytes rounds (sub64 pre_rbp 64) (add64 rbp 64) m

-- A loop up to an address that has a round for every byte, and one more, leaves what memset leaves.
clear_bytes-memset :
    (n stop i : ℕ) (m : Mem)
    → stop < 2 ^ 64
    → stop - i < n
    → (m' : Mem) × (clear_bytes n stop i m ≡ ok m')
      × ((a : ℕ) → m' a ≡ memset m i b'0' (stop - i) a)
unfolding clear_bytes memset
clear_bytes-memset zero stop i m top enough = absurd (omega arith)
clear_bytes-memset (suc n) stop i m top enough = elim (Bool-cases (ltb i stop)) [
  | inr done ↦ (m, rw (clear_bytes, done) refl, λ a. ground arith)
  | inl more ↦
      let next : add64 i 1 ≡ i + 1 = ground arith in
      let (m', run, cleared) =
        clear_bytes-memset n stop (i + 1) (memset m i b'0' 1) top (ground arith) in
      (m', rw (clear_bytes, more) (rw next run), λ a. cleared a ∙ ground arith)
]

-- With a round for every byte and one more the function ends: the bytes of the frame that the register
-- leads to, from 64 above the function's own to 64 below that, are '0', and no other has changed.
cyg_profile_func_exit_lem :
    (rounds rbp : ℕ) (m : Mem)
    → rbp + 64 < 2 ^ 64
    → 64 ≤ load64 m rbp
    → load64 m rbp < 2 ^ 64
    → load64 m rbp - rbp < rounds
    → (m' : Mem) × (cyg_profile_func_exit rounds rbp m ≡ ok m')
      × ((a : ℕ) → m' a ≡ memset m (rbp + 64) b'0' (load64 m rbp - 64 - (rbp + 64)) a)
unfolding cyg_profile_func_exit
cyg_profile_func_exit_lem rounds rbp m top low top' enough =
    let start : add64 rbp 64 ≡ rbp + 64 = omega arith in
    let stop : sub64 (load64 m rbp) 64 ≡ load64 m rbp - 64 = omega arith in
    rw (start, stop)
      (clear_bytes-memset rounds (load64 m rbp - 64) (rbp + 64) m (omega arith) (omega arith))
