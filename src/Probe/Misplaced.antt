-- ===== src/Probe/Misplaced.antt =====
-- restore_pointers on a buffer of two ranges, as a value parameter between them leaves it: the hole of a
-- pointer in the second range is entered in the list of the first.
mod Tests
use mathlib.Core.List.Perm
use mathlib.Core.List.{Perm, mem-cons, not-mem-nil, mem-cons_self}
use mathlib.Core.Logic.Or
use native.Mathlib.Nat.{ℕ_set}
use cloud_memory_security.Base.{
  byte_of, ℕ, zero, suc, ◌+◌, ◌-◌, ◌*◌, ◌/◌, ◌%◌, ◌^◌, ◌≤◌, ◌<◌, ◌≡◌, ◌≢◌, refl, ◌∙◌, ◌&&◌, Bool,
  true, false, List, [], ◌∷◌, none, some, ltb, leb, ◌==◌, if◌then◌else◌, add64, sub64, dec_int,
  arith, Run, ok, oops, success, ◌>>=◌,
}
use cloud_memory_security.Memory.{
  Mem, Machine, within, load64, store64, memcpy, set_mem, alloc, user_end,
}
use cloud_memory_security.StackBuf.{
  Hole, ring, Entry, Sbuf, cmp, restore_range, restore_slots, restore_stack_buf,
}
use cloud_memory_security.StackBuf.Sorting.{ListSort}
use cloud_memory_security.StackBuf.PastBlock.{two_ranges, one_left, past_block, restored_two}
use cloud_memory_security.Probe.Paras.{Para, find_in_slots, find_in_stack_buf}
use cloud_memory_security.Probe.Pointers.{
  sizeof_hole, add_tail, add_hole, copy_pointer, follow, copy_target, restore_pointer,
  restore_pointers,
}
use cloud_memory_security.Probe.Pointers.Steps.{
  load64-store64, copy_target-none, restore_pointer-found, restore_pointers-pointer,
  restore_pointers-nil,
}

-- A pointer of one level in the second of two ranges, which follow one another on the stack and in
-- the kernel's memory.
pub record InSecond (e1 e2 : Entry) (p : Para) : Type 0 where
  pub ring1 : e1.hole_list ≡ ring []
  pub ring2 : e2.hole_list ≡ ring []
  pub order : e1.start + e1.len ≤ e2.start
  pub user : e2.start + e2.len ≤ user_end
  pub kernel : user_end ≤ e1.buf
  pub blocks : e1.buf + e1.len ≤ e2.buf
  pub top : e2.buf + e2.len < 2 ^ 64
  pub not_empty : 0 < e1.len
  pub level : p.pointer ≡ 1
  pub cell : e2.start ≤ p.addr
  pub cell_end : p.addr + 8 ≤ e2.start + e2.len

module _ (kmalloc : ℕ → ℕ → ℕ) (addr cap : ℕ) (e1 e2 : Entry) (es : List Entry) (p : Para)
    (c : InSecond e1 e2 p) where
  -- Where the pointer was saved.
  abbrev place : ℕ
  place = e2.buf + (p.addr - e2.start)

  abbrev misplaced : Sbuf
  misplaced =
      two_ranges addr cap (record e1 { hole_list = ring (record { start = place; len = 8 } ∷ []) })
        e2 es

  abbrev cell_back : Machine → Machine
  cell_back s = record s { mem = store64 s.mem p.addr (load64 s.mem place); allocs = s.allocs + 1 }

  found_second : find_in_stack_buf p.addr 8 (two_ranges addr cap e1 e2 es) ≡ some place
  unfolding find_in_stack_buf
  found_second =
      let miss : (leb e1.start p.addr && leb (add64 p.addr 8) (add64 e1.start e1.len)) ≡ false =
        ground (arith, c.cell, c.order, c.cell_end, c.user) in
      let hit : (leb e2.start p.addr && leb (add64 p.addr 8) (add64 e2.start e2.len)) ≡ true =
        ground (arith, c.cell, c.cell_end, c.user) in
      let at : add64 e2.buf (sub64 p.addr e2.start) ≡ place =
        omega (arith, c.cell, c.cell_end, c.top, c.user) in
      rw miss (rw hit (rw at))

  copied_back :
      (s : Machine)
      → kmalloc s.allocs sizeof_hole ≢ 0
      → copy_pointer kmalloc p.addr place (two_ranges addr cap e1 e2 es) s
        ≡ ok (misplaced, cell_back s)
  unfolding copy_pointer alloc add_tail
  copied_back s found =
      let given : (kmalloc s.allocs sizeof_hole == 0) ≡ false = ground (arith, found) in
      rw (given, copy_pointer) (rw (c.ring1))

module _ (list_sort : (Hole → Hole → ℕ) → List Hole → List Hole) (sorts : ListSort list_sort)
    (kmalloc : ℕ → ℕ → ℕ) (addr cap : ℕ) (e1 e2 : Entry) (es : List Entry) (p : Para)
    (c : InSecond e1 e2 p) where
  abbrev gap : ℕ
  gap = e2.buf + (p.addr - e2.start) - e1.buf

  abbrev hole : Hole
  hole = record { start = e2.buf + (p.addr - e2.start); len = 8 }

  restore_faults :
      (m : Mem) → restore_stack_buf list_sort (misplaced kmalloc addr cap e1 e2 es p c) m ≡ oops
  restore_faults m =
      let one : list_sort cmp (hole ∷ []) ≡ hole ∷ [] =
        one_left hole _ (sorts.perm cmp (hole ∷ [])) in
      let stop : add64 e1.buf e1.len ≡ e1.buf + e1.len = omega (arith, c.blocks, c.top) in
      restored_two list_sort addr cap e1 e2 es (hole ∷ []) (hole ∷ []) m one (
        rw stop (
          past_block m e1.start e1.buf (e1.buf + e1.len) gap hole.start (omega (arith, c.blocks))
            (omega (arith, c.blocks, c.not_empty))
            (omega (arith, c.blocks, c.top, c.cell_end, c.cell)) (omega (arith, c.not_empty))
            (omega (arith, c.blocks))))

  -- restore_pointers is given a pointer of one level that was saved in the second of two ranges, whose block
  -- lies behind the first's, and that leads out of both; memory holds bytes and kmalloc does not fail. Then
  -- it ends well, and restore_stack_buf on the buffer that it leaves faults, whatever memory holds by then:
  -- a memcpy runs past the end of the address space.
  pub restore_stack_buf-restore_pointers :
      (s : Machine) (m : Mem)
      → kmalloc s.allocs sizeof_hole ≢ 0
      → ((b : ℕ) → s.mem b < 2 ^ 8)
      → find_in_stack_buf (load64 s.mem hole.start) p.size (two_ranges addr cap e1 e2 es) ≡ none
      → (b : Sbuf) × (s' : Machine) × (restore_pointers kmalloc
            (p ∷ [])
            (two_ranges addr cap e1 e2 es)
            s
          ≡ ok (success, record p { pointer = 0 } ∷ [], b, s'))
        × (restore_stack_buf list_sort b m ≡ oops)
  unfolding follow find_in_stack_buf
  restore_stack_buf-restore_pointers s m given bytes missed =
      let start = two_ranges addr cap e1 e2 es in
      let left = misplaced kmalloc addr cap e1 e2 es p c in
      let s1 = cell_back kmalloc addr cap e1 e2 es p c s in
      let value = load64 s.mem hole.start in
      let loads : load64 s1.mem p.addr ≡ value =
        load64-store64 s.mem s.mem p.addr hole.start bytes in
      let followed : follow kmalloc (dec_int p.pointer) (load64 s1.mem p.addr) left s1
          ≡ ok (value, left, s1) =
        rw (c.level) (rw loads) in
      let run =
        restore_pointer-found kmalloc p hole.start value start left left left s s1 s1 s1
          (found_second kmalloc addr cap e1 e2 es p c)
          (copied_back kmalloc addr cap e1 e2 es p c s given) followed
          (copy_target-none kmalloc value p.size left s1 missed) in
      let pointer : (p.pointer == 0) ≡ false = ground (arith, c.level) in
      (
        left,
        s1,
        restore_pointers-pointer kmalloc p (record p { pointer = 0 }) [] [] start left left s s1 s1
            success pointer run (restore_pointers-nil kmalloc left s1),
        restore_faults m,
      )
