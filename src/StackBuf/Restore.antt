-- ===== src/StackBuf/Restore.antt =====
-- restore_stack_buf writes each saved range back, less its holes.
use cloud_memory_security.Base.{
  ℕ, zero, suc, ◌+◌, ◌-◌, ◌^◌, ◌≤◌, ◌<◌, ◌≡◌, refl, ◌∙◌, List, [], ◌∷◌, arith, add64, sub64, length,
  ok, Bool-cases, inl, inr, ap,
}
use cloud_memory_security.Memory.{Mem, within}
use cloud_memory_security.StackBuf.{
  Hole, ring, Entry, Sbuf, cmp, restore_range, restore_slots, restore_stack_buf,
}
use cloud_memory_security.StackBuf.Holes.{IsPlaced, restore_range_lem}
use cloud_memory_security.StackBuf.Saved.{
  holes_of, read_back, IsSaved, AllSaved, AllSame-user, read_back_below, read_back_congr,
}
use cloud_memory_security.StackBuf.Sorting.{ListSort, in_hole-perm}

module _ (list_sort : (Hole → Hole → ℕ) → List Hole → List Hole) where
  -- Once sorted, the holes of each of the first `n` slots lie in order in the slot's block.
  abbrev pub AllPlaced : ℕ → List Entry → Type 0
  AllPlaced zero es = Unit {0}
  AllPlaced (suc n) [] = Unit {0}
  AllPlaced (suc n) (e ∷ es) =
      IsPlaced e.buf (e.buf + e.len) (list_sort cmp (holes_of e)) × AllPlaced n es

  module _ (sorts : ListSort list_sort) where
    restored_entry :
        (lo : ℕ) (e : Entry) (m : Mem)
        → IsSaved lo e
        → IsPlaced e.buf (e.buf + e.len) (list_sort cmp (holes_of e))
        → (m' : Mem) × (restore_range m e.start e.buf
              (add64 e.buf e.len)
              (list_sort cmp (holes_of e))
            ≡ ok m')
          × ((a : ℕ) → m' a ≡ read_back 1 (e ∷ []) m a)
    restored_entry lo e m s placed =
        let stop : add64 e.buf e.len ≡ e.buf + e.len = omega (arith, s.top) in
        let length : e.buf + e.len - e.buf ≡ e.len = omega arith in
        let (m', run, reads) =
          restore_range_lem m e.start e.buf (e.buf + e.len) (list_sort cmp (holes_of e)) placed
            (inl (omega (arith, s.user, s.kernel))) s.top (omega (arith, s.user)) in
        (
          m',
          ap (λ stop. restore_range m e.start e.buf stop (list_sort cmp (holes_of e))) stop ∙ run,
          λ a.
              reads a
              ∙ ground (
                arith,
                length,
                in_hole-perm (e.buf + (a - e.start)) (sorts.perm cmp (holes_of e)),
              ),
        )

    -- What the other slots say once the first was written back.
    later :
        (lo hi n : ℕ) (e : Entry) (es : List Entry) (m m1 : Mem)
        → AllSaved lo hi (suc n) (e ∷ es)
        → ((a : ℕ) → m1 a ≡ read_back 1 (e ∷ []) m a)
        → (a : ℕ) → read_back n es m1 a ≡ read_back (suc n) (e ∷ es) m a
    later lo hi n e es m m1 p first a = elim (Bool-cases (within e.start (e.start + e.len) a)) [
      | inl inside ↦
          read_back_below (e.start + e.len) hi n es m1 a p.1 (ground arith) ∙ first a ∙ rw inside
      | inr outside ↦ rw outside (
          read_back_congr n es m m1 a
            (AllSame-user (e.start + e.len) hi n es m m1 p.1
              (λ b kernel. ground (arith, first b, p.0.user)))
            (first a ∙ rw outside))
    ]

    restore_slots_lem :
        (lo hi n : ℕ) (es : List Entry) (cur : ℕ) (m : Mem)
        → AllSaved lo hi n es
        → AllPlaced n es
        → n ≤ cur
        → cur < 2 ^ 64
        → (es' : List Entry) × (m' : Mem) × (restore_slots list_sort n es cur m
            ≡ ok (es', cur - n, m'))
          × (length es' ≡ length es)
          × ((a : ℕ) → m' a ≡ read_back n es m a)
    unfolding restore_slots
    restore_slots_lem lo hi zero es cur m p q le lt = (es, m, rw (sub0 cur), refl, λ a. refl)
      where
        sub0 : (c : ℕ) → c - 0 ≡ c
        sub0 c = omega arith
    restore_slots_lem lo hi (suc n) [] cur m p q le lt = absurd p
    restore_slots_lem lo hi (suc n) (e ∷ es) cur m p q le lt =
        let hs = holes_of e in
        let (m1, back, first) = restored_entry lo e m p.0 q.0 in
        let less : sub64 cur 1 ≡ cur - 1 = omega arith in
        let (es', m', run, len, reads) =
          restore_slots_lem (e.start + e.len) hi n es (sub64 cur 1) m1 p.1 q.1 (omega arith)
            (omega arith) in
        let done : sub64 cur 1 - n ≡ cur - suc n = omega arith in
        (
          record e { hole_list = ring (list_sort cmp hs) } ∷ es',
          m',
          rw (p.0.has_ring) (rw back (rw run (rw done))),
          ap suc len,
          λ a. reads a ∙ later lo hi n e es m m1 p first a,
        )

    -- If the slots in use are saved ranges whose sorted holes lie in order, restoring them reaches no
    -- bad pointer. Each byte of a saved range gets its saved value
    -- back, except in the holes, and no other byte changes; no slot is in use any more, and the array
    -- stays where it is.
    pub restore_stack_buf_lem :
        (lo hi : ℕ) (sbuf : Sbuf) (m : Mem)
        → AllSaved lo hi sbuf.cur sbuf.slots
        → AllPlaced sbuf.cur sbuf.slots
        → sbuf.cur < 2 ^ 64
        → (sbuf' : Sbuf) × (m' : Mem) × (restore_stack_buf list_sort sbuf m ≡ ok (sbuf', m'))
          × ((a : ℕ) → m' a ≡ read_back sbuf.cur sbuf.slots m a)
          × (sbuf'.cur ≡ 0)
          × (sbuf'.addr ≡ sbuf.addr)
          × (sbuf'.cap ≡ sbuf.cap)
          × (length sbuf'.slots ≡ length sbuf.slots)
    unfolding restore_stack_buf
    restore_stack_buf_lem lo hi sbuf m p q lt =
        let (es', m', run, len, reads) =
          restore_slots_lem lo hi sbuf.cur sbuf.slots sbuf.cur m p q (omega arith) lt in
        (
          record sbuf { slots = es'; cur = sbuf.cur - sbuf.cur },
          m',
          rw run,
          reads,
          omega arith,
          refl,
          refl,
          len,
        )
