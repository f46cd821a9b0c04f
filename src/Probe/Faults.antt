-- ===== src/Probe/Faults.antt =====
-- Where the loop of jsys_encrypt_stack goes wrong: a parameter that wraps round the address space, and
-- a copy that failed.
use cloud_memory_security.Base.{
  ℕ, zero, suc, ◌+◌, ◌-◌, ◌^◌, ◌≤◌, ◌<◌, ◌≡◌, ◌≢◌, inl, inr, List, arith, ◌==◌, add64, mul64, ok,
  Bool-cases, Run-cases,
}
use cloud_memory_security.Memory.{Machine, alloc, memset, user_end}
use cloud_memory_security.StackBuf.{Sbuf, copy_stack_buf, grow, sizeof_sbuf}
use cloud_memory_security.Probe.Paras.{Para, contains}
use cloud_memory_security.Probe.Scan.{Slot, live, flush, scan}

module _ (kmalloc : ℕ → ℕ → ℕ) where
  -- If the caller declares a parameter at `a` whose size takes the address back by `k`, and none in
  -- between, the loop that has come to these addresses never ends well, whatever number of rounds it
  -- runs.
  pub scan_wraps :
      (user_rbp a k : ℕ) (plt : List Para)
      → k ≤ a
      → 0 < k
      → a ≤ user_rbp
      → user_rbp < user_end
      → contains a plt ≡ 2 ^ 64 - k
      → ((j : ℕ) → a ≤ j + k → j < a → contains j plt ≡ 0)
      → (n i prev_rsp : ℕ) (slot : Slot) (s : Machine) (r : Slot × Machine) → a ≤ i + k
      → i ≤ a
      → scan kmalloc user_rbp plt n i prev_rsp slot s ≢ ok r
  unfolding scan
  scan_wraps user_rbp a k plt le pos below top back between zero i prev_rsp slot s r lo hi h = cc
  scan_wraps user_rbp a k plt le pos below top back between (suc n) i prev_rsp slot s r lo hi h =
      elim (Bool-cases (i == a)) [
        | inr before ↦ ground (
          arith,
          between i,
          scan_wraps user_rbp a k plt le pos below top back between n (i + 1) prev_rsp slot s r,
        )
        | inl here ↦
            let same : i ≡ a = ground arith in
            let skip : contains i plt ≡ 2 ^ 64 - k = rw same back in
            let again : add64 i (contains i plt) ≡ a - k = rw skip (omega arith) in
            elim (Run-cases (flush kmalloc prev_rsp i slot s)) [
              | inr bad ↦ ground arith
              | inl ((slot', s'), run) ↦ ground (
                arith,
                scan_wraps user_rbp a k plt le pos below top back between n (a - k) (a - k) slot' s'
                    r,
              )
            ]
      ]

  -- If a full buffer cannot grow for want of memory, the bytes are overwritten with '0' all the same,
  -- and the buffer is as it was.
  pub flush_loses :
      (prev_rsp i : ℕ) (sbuf : Sbuf) (s : Machine)
      → prev_rsp < i
      → sbuf.cur ≡ sbuf.cap
      → kmalloc s.allocs (mul64 (mul64 2 sbuf.cap) sizeof_sbuf) ≡ 0
      → (s' : Machine) × (flush kmalloc prev_rsp i (live sbuf) s ≡ ok (live sbuf, s'))
        × ((a : ℕ) → prev_rsp ≤ a → a < i → s'.mem a ≡ b'0')
  unfolding flush copy_stack_buf grow alloc
  flush_loses prev_rsp i sbuf s lt full null = (
    record s { mem = memset s.mem prev_rsp b'0' (i - prev_rsp); allocs = s.allocs + 1 },
    ground arith,
    λ a ge lt'. unfold memset in ground arith,
  )
