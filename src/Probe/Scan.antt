-- ===== src/Probe/Scan.antt =====
-- The loop of jsys_encrypt_stack (kernel_probe/jprobe.c) over the caller's stack: what no parameter
-- protects is saved and overwritten.
use cloud_memory_security.Base.{
  ℕ, zero, suc, ◌-◌, true, false, List, ltb, ◌==◌, if◌then◌else◌, add64, Run, ok, oops, hung, ◌>>=◌,
}
use cloud_memory_security.Memory.{Machine, memset, set_mem}
use cloud_memory_security.StackBuf.{Sbuf, copy_stack_buf}
use cloud_memory_security.Probe.Paras.{Para, contains}

-- A pointer to a stack buffer: NULL where `init_stack_buf` failed, stale where the array behind it was
-- freed.
pub data Slot : Type 0 where
  null : Slot
  live : Sbuf → Slot
  stale : Slot

abbrev pub deref : Slot → Run Sbuf
deref (live sbuf) = ok sbuf
deref null = oops
deref stale = oops

module _ (kmalloc : ℕ → ℕ → ℕ) where
  -- `[prev_rsp, i)` is saved and filled with '0'. The result of copy_stack_buf is not looked at.
  unfoldable pub flush : (prev_rsp i : ℕ) → Slot → Machine → Run (Slot × Machine)
  flush prev_rsp i stack_buf s =
      if ltb prev_rsp i
      then (do
        sbuf ← deref stack_buf
        (_, sbuf', s') ← copy_stack_buf kmalloc sbuf s prev_rsp (i - prev_rsp)
        ok (live sbuf', set_mem s' (memset s'.mem prev_rsp b'0' (i - prev_rsp))))
      else ok (stack_buf, s)

  -- `for(i = user_rsp; i <= user_rbp;)`, with the rounds left.
  unfoldable pub scan :
      (user_rbp : ℕ) → List Para → ℕ → (i prev_rsp : ℕ) → Slot → Machine → Run (Slot × Machine)
  unfolding flush
  scan user_rbp plt zero i prev_rsp stack_buf s = hung
  scan user_rbp plt (suc n) i prev_rsp stack_buf s =
      let skip = contains i plt in
      elim (ltb user_rbp i) [
        | true ↦ ok (stack_buf, s)
        | false ↦ elim (skip == 0) [
          | false ↦ do
            (stack_buf', s') ← flush prev_rsp i stack_buf s
            scan user_rbp plt n (add64 i skip) (add64 i skip) stack_buf' s'
          | true ↦ elim (i == user_rbp) [
            | true ↦ do
              (stack_buf', s') ← flush prev_rsp i stack_buf s
              scan user_rbp plt n (add64 i 1) prev_rsp stack_buf' s'
            | false ↦ scan user_rbp plt n (add64 i 1) prev_rsp stack_buf s
          ]
        ]
      ]
