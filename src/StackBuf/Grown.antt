-- ===== src/StackBuf/Grown.antt =====
-- A buffer that had to grow cannot be restored.
use cloud_memory_security.Base.{
  ◌^◌, Run-cases, ℕ, zero, suc, ◌<◌, ◌≡◌, sym, subst, ◌-◌, ◌+◌, inl, inr, List, [], ◌∷◌, arith,
  add64, ok, oops, Status, success, failure,
}
use cloud_memory_security.Memory.{Mem, Machine, alloc}
use cloud_memory_security.StackBuf.{
  Hole, HoleList, dangling, Entry, Sbuf, put_slot, copy_slots, grow, insert_entry, copy_stack_buf,
  restore_slots, restore_stack_buf,
}

-- The list of the first slot is the copy of a head.
abbrev FirstDangles : List Entry → Type 0
FirstDangles es = (e : Entry) × (rest : List Entry) × (es ≡ e ∷ rest) × (e.hole_list ≡ dangling)

FirstDangles-put_slot :
    (i : ℕ) (es : List Entry) (e : Entry) → FirstDangles es → FirstDangles (put_slot es (suc i) e)
unfolding put_slot
FirstDangles-put_slot i es e (x, rest, eq, dangles) = (x, put_slot rest i e, rw eq, dangles)

restore_slots-FirstDangles :
    (list_sort : (Hole → Hole → ℕ) → List Hole → List Hole) (n : ℕ) (es : List Entry) (cur : ℕ)
    (m : Mem)
    → 0 < n
    → FirstDangles es
    → restore_slots list_sort n es cur m ≡ oops
unfolding restore_slots
restore_slots-FirstDangles list_sort zero es cur m pos first = elim pos [ ]
restore_slots-FirstDangles list_sort (suc n) es cur m pos (x, rest, eq, dangles) =
    rw eq (rw (dangles))

module _ (kmalloc : ℕ → ℕ → ℕ) where
  copy_slots-FirstDangles :
      (n : ℕ) (es : List Entry) (s : Machine) (es' : List Entry) (s' : Machine)
      → 0 < n
      → copy_slots kmalloc n es s ≡ ok (es', s')
      → FirstDangles es'
  unfolding copy_slots
  copy_slots-FirstDangles zero es s es' s' pos h = elim pos [ ]
  copy_slots-FirstDangles (suc n) [] s es' s' pos h = cc
  copy_slots-FirstDangles (suc n) (e ∷ es) s es' s' pos h = ground arith

  grow-FirstDangles :
      (sbuf sbuf' : Sbuf) (s s' : Machine)
      → 0 < sbuf.cur
      → grow kmalloc sbuf s ≡ ok (success, sbuf', s')
      → FirstDangles sbuf'.slots × (sbuf'.cur ≡ sbuf.cur)
  unfolding grow alloc
  grow-FirstDangles sbuf sbuf' s s' pos h =
      let s1 : Machine = record s { allocs = s.allocs + 1 } in
      elim (Run-cases (copy_slots kmalloc sbuf.cur sbuf.slots s1)) [
        | inl ((es, s2), run) ↦
            let first = copy_slots-FirstDangles sbuf.cur sbuf.slots s1 es s2 pos run in
            let slots : (sbuf'.slots ≡ es) × (sbuf'.cur ≡ sbuf.cur) = ground arith in
            (rw (slots.0) first, slots.1)
        | inr bad ↦ ground arith
      ]

  -- The slot of a new item is not the first where one is in use.
  insert_entry-FirstDangles :
      (sbuf sbuf' : Sbuf) (s s' : Machine) (buf len : ℕ) (status : Status)
      → 0 < sbuf.cur
      → sbuf.cur + 1 < 2 ^ 64
      → FirstDangles sbuf.slots
      → insert_entry kmalloc sbuf s buf len ≡ ok (status, sbuf', s')
      → FirstDangles sbuf'.slots × (0 < sbuf'.cur)
  unfolding insert_entry alloc
  insert_entry-FirstDangles sbuf sbuf' s s' buf len status pos small first h =
      let e : Entry = record {
        buf = kmalloc s.allocs len;
        start = buf;
        len = len;
        hole_list = HoleList.ring [];
      } in
      let put : (sbuf'.slots ≡ put_slot sbuf.slots sbuf.cur e) × (sbuf'.cur ≡ add64 sbuf.cur 1) =
        ground arith in
      let later : sbuf.cur ≡ suc (sbuf.cur - 1) = omega arith in
      let moved : FirstDangles (put_slot sbuf.slots (suc (sbuf.cur - 1)) e) =
        FirstDangles-put_slot (sbuf.cur - 1) sbuf.slots e first in
      (
        rw (put.0) (subst (λ n. FirstDangles (put_slot sbuf.slots n e)) (sym later) moved),
        omega arith,
      )

  -- Once a full buffer with a slot in use has grown to take one more range, restore_stack_buf on it
  -- follows a list head that was copied as a structure, and faults.
  pub restore_stack_buf-copy_stack_buf_full :
      (list_sort : (Hole → Hole → ℕ) → List Hole → List Hole) (sbuf sbuf' : Sbuf) (s s' : Machine)
      (buf len : ℕ) (m : Mem)
      → sbuf.cur ≡ sbuf.cap
      → 0 < sbuf.cur
      → sbuf.cur + 1 < 2 ^ 64
      → copy_stack_buf kmalloc sbuf s buf len ≡ ok (success, sbuf', s')
      → restore_stack_buf list_sort sbuf' m ≡ oops
  unfolding copy_stack_buf restore_stack_buf
  restore_stack_buf-copy_stack_buf_full list_sort sbuf sbuf' s s' buf len m full pos small h =
      elim (Run-cases (grow kmalloc sbuf s)) [
        | inr bad ↦ ground arith
        | inl ((failure, b, t), run) ↦ ground arith
        | inl ((success, b, t), run) ↦
            let first = grow-FirstDangles sbuf b s t pos run in
            let insert : insert_entry kmalloc b t buf len ≡ ok (success, sbuf', s') =
              ground arith in
            let last =
              insert_entry-FirstDangles b sbuf' t s' buf len success (omega arith) (omega arith)
                first.0 insert in
            rw
              (restore_slots-FirstDangles list_sort sbuf'.cur sbuf'.slots sbuf'.cur m last.1 last.0)
      ]
