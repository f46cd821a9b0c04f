-- ===== src/StackBuf.antt =====
-- kernel_probe/stack_buf.c: an array that grows, each slot a saved range of the stack with the
-- holes that are not to be written back. `cur` and `cap` are the first slot's fields.
pub mod Holes
pub mod Sorting
pub mod Saved
pub mod Copy
pub mod Grown
pub mod Restore
pub mod PastBlock
pub mod InsertionSort
mod Tests
use cloud_memory_security.Base.{
  ℕ, zero, suc, ◌+◌, ◌^◌, ◌||◌, List, [], ◌∷◌, Option, none, some, ltb, ◌==◌, if◌then◌else◌, add64,
  sub64, mul64, to_int, Run, ok, oops, ◌>>=◌, Status, success, failure,
}
use cloud_memory_security.Memory.{Mem, Machine, memcpy, set_mem, alloc, kfree}

-- `hole_t`; its list node is the list's.
pub record Hole : Type 0 where
  pub start : ℕ
  pub len : ℕ

-- A `struct list_head`. A head that was copied as a structure still links to the nodes of the old
-- head, so that a walk from the copy never comes back to where it began.
pub data HoleList : Type 0 where
  ring : List Hole → HoleList
  dangling : HoleList

-- A slot of the array. `buf` is the block that holds the saved bytes.
pub record Entry : Type 0 where
  pub buf : ℕ
  pub start : ℕ
  pub len : ℕ
  pub hole_list : HoleList

-- The array behind the pointer `addr`. `slots` are those that were written since it was allocated.
pub record Sbuf : Type 0 where
  pub addr : ℕ
  pub slots : List Entry
  pub cur : ℕ
  pub cap : ℕ

-- `sizeof(sbuf_t)`
abbrev pub sizeof_sbuf : ℕ
sizeof_sbuf = 56

-- `sbuf[i] = e`; no slot is written before the one below it.
unfoldable pub put_slot : List Entry → ℕ → Entry → List Entry
put_slot [] i e = e ∷ []
put_slot (x ∷ xs) zero e = e ∷ xs
put_slot (x ∷ xs) (suc i) e = x ∷ put_slot xs i e

-- `(int)(ha->start - hb->start)`, as a bit pattern.
unfoldable pub cmp : Hole → Hole → ℕ
cmp ha hb = to_int (sub64 ha.start hb.start)

-- A memcpy out of the block or into the stack; one that would run past the end of the address space is a
-- fault.
unfoldable pub copy_back : Mem → (to from len : ℕ) → Run Mem
copy_back m to from len =
    if ltb (2 ^ 64) (from + len) || ltb (2 ^ 64) (to + len) then oops else ok (memcpy m to from len)

-- The write-back of one slot: what lies between the holes is copied, and at last what follows them.
unfoldable pub restore_range : Mem → (to from stop : ℕ) → List Hole → Run Mem
unfolding copy_back
restore_range m to from stop [] = copy_back m to from (sub64 stop from)
restore_range m to from stop (h ∷ hs) = do
  let len = sub64 h.start from
  m1 ← if len == 0 then ok m else copy_back m to from len
  restore_range m1 (add64 to (add64 len h.len)) (add64 h.start h.len) stop hs

-- `kmalloc` says what each call returns, by the number of calls before it and the size.
module _ (kmalloc : ℕ → ℕ → ℕ) where
  unfoldable pub init_stack_buf : ℕ → Machine → Option Sbuf × Machine
  unfolding alloc
  init_stack_buf size s =
      let (p, s1) = alloc kmalloc (mul64 size sizeof_sbuf) s in
      if p == 0
      then (none, s1)
      else (some (record { addr = p; slots = []; cur = 0; cap = size }), s1)

  -- The slots' move to a new array. Each block is copied, and each list head as a structure.
  unfoldable pub copy_slots : ℕ → List Entry → Machine → Run (List Entry × Machine)
  unfolding alloc
  copy_slots zero es s = ok ([], s)
  copy_slots (suc n) [] s = oops
  copy_slots (suc n) (t1 ∷ es) s =
      let (p, s1) = alloc kmalloc t1.len s in
      let copied = kfree t1.buf (set_mem s1 (memcpy s1.mem p t1.buf t1.len)) in
      let rest = copy_slots n es copied in
      if p == 0
      then oops
      else do (es', s') ← rest; ok (record t1 { buf = p; hole_list = dangling } ∷ es', s')

  unfoldable pub grow : Sbuf → Machine → Run (Status × Sbuf × Machine)
  unfolding alloc copy_slots
  grow sbuf s =
      let tmp_cap = mul64 2 sbuf.cap in
      let (p, s1) = alloc kmalloc (mul64 tmp_cap sizeof_sbuf) s in
      if p == 0 then ok (failure, sbuf, s1) else do
        (slots, s2) ← copy_slots sbuf.cur sbuf.slots s1
        ok (
          success,
          record { addr = p; slots = slots; cur = sbuf.cur; cap = tmp_cap },
          kfree sbuf.addr s2,
        )

  -- The new item. A slot past the array's end is out of bounds.
  unfoldable pub insert_entry : Sbuf → Machine → (buf len : ℕ) → Run (Status × Sbuf × Machine)
  unfolding alloc
  insert_entry sbuf s buf len =
      let (p, s1) = alloc kmalloc len s in
      let e : Entry = record { buf = p; start = buf; len = len; hole_list = HoleList.ring [] } in
      if ltb sbuf.cur sbuf.cap
      then (if p == 0
          then oops
          else ok (
            success,
            record sbuf { slots = put_slot sbuf.slots sbuf.cur e; cur = add64 sbuf.cur 1 },
            set_mem s1 (memcpy s1.mem p buf len),
          ))
      else oops

  -- The second result is `*sbuf` at the return.
  unfoldable pub copy_stack_buf : Sbuf → Machine → (buf len : ℕ) → Run (Status × Sbuf × Machine)
  unfolding grow insert_entry
  copy_stack_buf sbuf s buf len =
      if sbuf.cur == sbuf.cap
      then (do
        (status, sbuf', s') ← grow sbuf s
        elim status [ success ↦ insert_entry sbuf' s' buf len | failure ↦ ok (failure, sbuf', s') ])
      else insert_entry sbuf s buf len

-- The kernel's `list_sort` under a comparison.
module _ (list_sort : (Hole → Hole → ℕ) → List Hole → List Hole) where
  -- The loop over the slots, with `n` rounds left; `sbuf->cur--` in each.
  unfoldable pub restore_slots : ℕ → List Entry → ℕ → Mem → Run (List Entry × ℕ × Mem)
  restore_slots zero es cur m = ok (es, cur, m)
  restore_slots (suc n) [] cur m = oops
  restore_slots (suc n) (e ∷ es) cur m = elim e.hole_list [
    | dangling ↦ oops
    | ring hs ↦ do
      let sorted = list_sort cmp hs
      m1 ← restore_range m e.start e.buf (add64 e.buf e.len) sorted
      (es', cur', m') ← restore_slots n es (sub64 cur 1) m1
      ok (record e { hole_list = ring sorted } ∷ es', cur', m')
  ]

  unfoldable pub restore_stack_buf : Sbuf → Mem → Run (Sbuf × Mem)
  unfolding restore_slots
  restore_stack_buf sbuf m = do
    (slots, cur, m') ← restore_slots sbuf.cur sbuf.slots sbuf.cur m
    ok (record sbuf { slots = slots; cur = cur }, m')
