-- ===== src/FileOps.antt =====
-- kernel_probe/file_ops.c: files read and written from the kernel. The kernel's file calls are the
-- parameter Vfs, what is relied on of them the hypotheses ReadsFiles and SparesMemory.
use cloud_memory_security.Base.{
  ℕ, ◌+◌, ◌-◌, ◌^◌, ◌≤◌, ◌<◌, ◌≡◌, refl, ◌∙◌, false, List, [], ◌∷◌, leb, if◌then◌else◌, arith,
}
use cloud_memory_security.Memory.{Mem, within}

-- `current_thread_info()->addr_limit`, and memory.
pub record Task : Type 0 where
  pub addr_limit : ℕ
  pub mem : Mem

-- `get_ds()`
abbrev pub kernel_ds : ℕ
kernel_ds = 2 ^ 64 - 1

-- `set_fs(fs)`
abbrev pub set_fs : ℕ → Task → Task
set_fs fs t = record t { addr_limit = fs }

-- `-EFAULT` in an int.
abbrev pub efault : ℕ
efault = 2 ^ 32 - 14

-- An error pointer is one of the last 4095 addresses. An int is its bit pattern.
pub record Vfs : Type 0 where
  pub filp_open : (path flags rights : ℕ) → Task → ℕ × Task
  pub vfs_read : (file offset data_addr size : ℕ) → Task → ℕ × Task
  pub vfs_write : (file offset data_addr size : ℕ) → Task → ℕ × Task

module _ (vfs : Vfs) where
  -- NULL for an error. The limit is set and set back around the call.
  unfoldable pub file_open : (path flags rights : ℕ) → Task → ℕ × Task
  file_open path flags rights t =
      let oldfs = t.addr_limit in
      let t1 = set_fs kernel_ds t in
      let (filp, t2) = vfs.filp_open path flags rights t1 in
      let t3 = set_fs oldfs t2 in if leb (2 ^ 64 - 4095) filp then (0, t3) else (filp, t3)

  unfoldable pub file_read : (file offset data_addr size : ℕ) → Task → ℕ × Task
  file_read file offset data_addr size t =
      let oldfs = t.addr_limit in
      let t1 = set_fs kernel_ds t in
      let (ret, t2) = vfs.vfs_read file offset data_addr size t1 in
      let t3 = set_fs oldfs t2 in (ret, t3)

  unfoldable pub file_write : (file offset data_addr size : ℕ) → Task → ℕ × Task
  file_write file offset data_addr size t =
      let oldfs = t.addr_limit in
      let t1 = set_fs kernel_ds t in
      let (ret, t2) = vfs.vfs_write file offset data_addr size t1 in
      let t3 = set_fs oldfs t2 in (ret, t3)

  -- The calls of this file, in whatever order they are made.
  pub data Call : Type 0 where
    open_call : (path flags rights : ℕ) → Call
    read_call : (file offset data_addr size : ℕ) → Call
    write_call : (file offset data_addr size : ℕ) → Call

  unfoldable pub run_calls : List Call → Task → Task
  run_calls [] t = t
  run_calls (open_call path flags rights ∷ cs) t = run_calls cs (file_open path flags rights t).1
  run_calls (read_call file offset data_addr size ∷ cs) t =
      run_calls cs (file_read file offset data_addr size t).1
  run_calls (write_call file offset data_addr size ∷ cs) t =
      run_calls cs (file_write file offset data_addr size t).1

  -- The address is in no buffer that is read into.
  abbrev pub IsSpared : (a : ℕ) → List Call → Type 0
  IsSpared a [] = Unit {0}
  IsSpared a (open_call path flags rights ∷ cs) = IsSpared a cs
  IsSpared a (read_call file offset data_addr size ∷ cs) =
      (within data_addr (data_addr + size) a ≡ false) × IsSpared a cs
  IsSpared a (write_call file offset data_addr size ∷ cs) = IsSpared a cs

  -- A buffer that does not lie below the task's limit is refused. Else, when no error is returned, as many
  -- bytes of the file as the result says are in the buffer.
  pub record ReadsFiles (byte : (file offset : ℕ) → ℕ) : Type 0 where
    pub refused :
        (file offset data_addr size : ℕ) (t : Task)
        → t.addr_limit < data_addr + size
        → vfs.vfs_read file offset data_addr size t ≡ (efault, t)
    pub filled :
        (file offset data_addr size i : ℕ) (t : Task)
        → data_addr + size ≤ t.addr_limit
        → (vfs.vfs_read file offset data_addr size t).0 < 2 ^ 31
        → i < (vfs.vfs_read file offset data_addr size t).0
        → (vfs.vfs_read file offset data_addr size t).1.mem (data_addr + i) ≡ byte file (offset + i)

  -- Memory outside the buffer that is read into stays.
  pub record SparesMemory : Type 0 where
    pub opened :
        (path flags rights : ℕ) (t : Task) (a : ℕ)
        → (vfs.filp_open path flags rights t).1.mem a ≡ t.mem a
    pub read :
        (file offset data_addr size : ℕ) (t : Task) (a : ℕ)
        → within data_addr (data_addr + size) a ≡ false
        → (vfs.vfs_read file offset data_addr size t).1.mem a ≡ t.mem a
    pub written :
        (file offset data_addr size : ℕ) (t : Task) (a : ℕ)
        → (vfs.vfs_write file offset data_addr size t).1.mem a ≡ t.mem a

  -- Where vfs_read refuses a buffer behind the task's limit, file_read reads the bytes of the file into it,
  -- as long as it does not reach the end of the address space.
  file_read-vfs_read :
      (byte : (file offset : ℕ) → ℕ)
      → ReadsFiles byte
      → (file offset data_addr size i : ℕ) (t : Task) → t.addr_limit < data_addr + size
      → data_addr + size ≤ kernel_ds
      → (file_read file offset data_addr size t).0 < 2 ^ 31
      → i < (file_read file offset data_addr size t).0
      → (vfs.vfs_read file offset data_addr size t ≡ (efault, t))
        × ((file_read file offset data_addr size t).1.mem (data_addr + i) ≡ byte file (offset + i))
  unfolding file_read
  file_read-vfs_read byte reads file offset data_addr size i t above below no_error lt = (
    reads.refused file offset data_addr size t above,
    reads.filled file offset data_addr size i (set_fs kernel_ds t) below no_error lt,
  )

  file_open-mem :
      SparesMemory
      → (path flags rights : ℕ) (t : Task) (a : ℕ)
      → ((file_open path flags rights t).1.addr_limit ≡ t.addr_limit)
        × ((file_open path flags rights t).1.mem a ≡ t.mem a)
  unfolding file_open
  file_open-mem spares path flags rights t a =
      let kept = spares.opened path flags rights (set_fs kernel_ds t) a in ground (arith, kept)

  -- However the calls are ordered, the task's limit is the one that there was, and so is every byte that is
  -- in no buffer that is read into.
  run_calls-IsSpared :
      SparesMemory
      → (a : ℕ) (cs : List Call) (t : Task) → IsSpared a cs
      → ((run_calls cs t).addr_limit ≡ t.addr_limit) × ((run_calls cs t).mem a ≡ t.mem a)
  unfolding run_calls file_read file_write
  run_calls-IsSpared spares a [] t spared = (refl, refl)
  run_calls-IsSpared spares a (open_call path flags rights ∷ cs) t spared =
      let (limit, kept) = run_calls-IsSpared spares a cs (file_open path flags rights t).1 spared in
      let (limit', kept') = file_open-mem spares path flags rights t a in
      (limit ∙ limit', kept ∙ kept')
  run_calls-IsSpared spares a (read_call file offset data_addr size ∷ cs) t spared =
      let (limit, kept) =
        run_calls-IsSpared spares a cs (file_read file offset data_addr size t).1 spared.1 in
      (limit, kept ∙ spares.read file offset data_addr size (set_fs kernel_ds t) a spared.0)
  run_calls-IsSpared spares a (write_call file offset data_addr size ∷ cs) t spared =
      let (limit, kept) =
        run_calls-IsSpared spares a cs (file_write file offset data_addr size t).1 spared in
      (limit, kept ∙ spares.written file offset data_addr size (set_fs kernel_ds t) a)
