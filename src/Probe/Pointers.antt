-- ===== src/Probe/Pointers.antt =====
-- restore_pointers of kernel_probe/jprobe.c: what a declared pointer leads to is written back at once,
-- and left out of the later write-back of the whole stack.
pub mod Exposed
pub mod Steps
pub mod Follow
pub mod Restored
pub mod Left
use cloud_memory_security.Base.{
  ℕ, zero, suc, true, false, List, [], ◌∷◌, ◌++◌, none, some, ◌==◌, if◌then◌else◌, dec_int, Run, ok,
  oops, ◌>>=◌, Status, success, failure,
}
use cloud_memory_security.Memory.{Machine, alloc, load64, store64, memcpy, set_mem}
use cloud_memory_security.StackBuf.{Hole, ring, dangling, Entry, Sbuf}
use cloud_memory_security.Probe.Paras.{Para, find_in_stack_buf}

-- `sizeof(hole_t)`
abbrev pub sizeof_hole : ℕ
sizeof_hole = 32

-- `list_add_tail(&h->list, &sbuf->hole_list)`: the list is the first slot's, whichever slot holds the
-- hole. The links of a copied head lead into freed memory.
unfoldable pub add_tail : Hole → List Entry → Run (List Entry)
add_tail h [] = oops
add_tail h (e ∷ es) = elim e.hole_list [
  | ring hs ↦ ok (record e { hole_list = ring (hs ++ h ∷ []) } ∷ es)
  | dangling ↦ oops
]

module _ (kmalloc : ℕ → ℕ → ℕ) where
  -- `h = kmalloc(…)`, not tested for NULL, and its entry into the list.
  unfoldable pub add_hole : (start len : ℕ) → Sbuf → Machine → Run (Sbuf × Machine)
  unfolding alloc add_tail
  add_hole start len sbuf s =
      let (p, s1) = alloc kmalloc sizeof_hole s in
      if p == 0 then oops else do
        slots ← add_tail (record { start = start; len = len }) sbuf.slots
        ok (record sbuf { slots = slots }, s1)

  -- The saved pointer at `addr_in_buf` goes back to `addr_in_stack`.
  unfoldable pub copy_pointer :
      (addr_in_stack addr_in_buf : ℕ) → Sbuf → Machine → Run (Sbuf × Machine)
  unfolding add_hole
  copy_pointer addr_in_stack addr_in_buf sbuf s =
      let org_value = load64 s.mem addr_in_buf in
      add_hole addr_in_buf 8 sbuf (set_mem s (store64 s.mem addr_in_stack org_value))

  -- `while(tmp->pointer != 0)`, with the levels left. A NULL address in the buffer is followed.
  unfoldable pub follow : ℕ → (addr_in_stack : ℕ) → Sbuf → Machine → Run (ℕ × Sbuf × Machine)
  unfolding copy_pointer
  follow zero addr_in_stack sbuf s = ok (addr_in_stack, sbuf, s)
  follow (suc pointer) addr_in_stack sbuf s = elim (find_in_stack_buf addr_in_stack 8 sbuf) [
    | none ↦ oops
    | some addr_in_buf ↦ do
      (sbuf', s') ← copy_pointer addr_in_stack addr_in_buf sbuf s
      follow pointer (load64 s'.mem addr_in_stack) sbuf' s'
  ]

  -- What the last pointer leads to.
  unfoldable pub copy_target : (addr_in_stack size : ℕ) → Sbuf → Machine → Run (Sbuf × Machine)
  unfolding add_hole
  copy_target addr_in_stack size sbuf s = elim (find_in_stack_buf addr_in_stack size sbuf) [
    | none ↦ ok (sbuf, s)
    | some addr_in_buf ↦
        add_hole addr_in_buf size sbuf (set_mem s (memcpy s.mem addr_in_stack addr_in_buf size))
  ]

  -- One declared pointer. The parameter's own counter is used up on the way.
  unfoldable pub restore_pointer : Para → Sbuf → Machine → Run (Status × Para × Sbuf × Machine)
  unfolding follow copy_target
  restore_pointer tmp sbuf s =
      let pointer = dec_int tmp.pointer in
      elim (find_in_stack_buf tmp.addr 8 sbuf) [
        | none ↦ ok (failure, record tmp { pointer = pointer }, sbuf, s)
        | some addr_in_buf ↦ do
          (sbuf1, s1) ← copy_pointer tmp.addr addr_in_buf sbuf s
          (addr_in_stack, sbuf2, s2) ← follow pointer (load64 s1.mem tmp.addr) sbuf1 s1
          (sbuf3, s3) ← copy_target addr_in_stack tmp.size sbuf2 s2
          ok (success, record tmp { pointer = 0 }, sbuf3, s3)
      ]

  -- The list that is returned is the caller's, as it is left.
  unfoldable pub restore_pointers :
      List Para → Sbuf → Machine → Run (Status × List Para × Sbuf × Machine)
  unfolding restore_pointer
  restore_pointers [] sbuf s = ok (success, [], sbuf, s)
  restore_pointers (tmp ∷ plt) sbuf s = elim (tmp.pointer == 0) [
    | true ↦ do
      (status, plt', sbuf', s') ← restore_pointers plt sbuf s
      ok (status, tmp ∷ plt', sbuf', s')
    | false ↦ do
      (status, tmp', sbuf', s') ← restore_pointer tmp sbuf s
      elim status [
        | failure ↦ ok (failure, tmp' ∷ plt, sbuf', s')
        | success ↦ do
          (status', plt', sbuf'', s'') ← restore_pointers plt sbuf' s'
          ok (status', tmp' ∷ plt', sbuf'', s'')
      ]
  ]
