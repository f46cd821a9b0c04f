-- ===== src/Probe/Pointers/Restored.antt =====
-- restore_pointers on a buffer of one slot, against the ranges that it exposes.
use mathlib.Core.List.{append-nil}
use cloud_memory_security.Base.{
  ℕ, zero, suc, ◌+◌, ◌-◌, ◌^◌, ◌≤◌, ◌<◌, ◌≡◌, refl, ◌∙◌, inl, inr, true, false, List, [], ◌∷◌, ◌++◌,
  ◌==◌, if◌then◌else◌, dec_int, arith, length, ok, success, Bool-cases,
}
use cloud_memory_security.Memory.{Mem, Machine, within, load64, memcpy, set_mem}
use cloud_memory_security.StackBuf.{Hole}
use cloud_memory_security.StackBuf.Holes.{in_hole}
use cloud_memory_security.Probe.Paras.{Para}
use cloud_memory_security.Probe.Pointers.{copy_target, restore_pointer, restore_pointers}
use cloud_memory_security.Probe.Pointers.Exposed.{
  length-++, inside, range, target, cells, pointee, exposed_by, exposed, Chained, AllChained,
  AllInside, Shows, exposed_by-AllInside, exposed_by-few, cells-AllInside, Shows-trans,
  length-cells,
}
use cloud_memory_security.Probe.Pointers.Steps.{
  copy_target-none, copy_target-some, restore_pointer-found, restore_pointers-value,
  restore_pointers-pointer, restore_pointers-nil,
}
use cloud_memory_security.Probe.Pointers.Follow.{
  SavedStack, in_block, moved, buffer, Backs, shown_cell, find_lem, found_cell, add_hole_lem,
  load_cell, Backs-Shows, shown_cell-Shows, copy_pointer_lem, buffer_join, follow_lem,
}

-- The parameters as they are left: the levels are used up.
abbrev pub used_up : List Para → List Para
used_up [] = []
used_up (p ∷ plt) = (if p.pointer == 0 then p else record p { pointer = 0 }) ∷ used_up plt

-- The cells and the targets of the pointers, each of which takes a block.
abbrev pub blocks : List Para → ℕ
blocks [] = 0
blocks (p ∷ plt) = (if p.pointer == 0 then 0 else p.pointer + 1) + blocks plt

pub exposed-few :
    (m0 : Mem) (lo hi : ℕ) (plt : List Para) → length (exposed m0 lo hi plt) ≤ blocks plt
exposed-few m0 lo hi [] = omega arith
exposed-few m0 lo hi (p ∷ plt) =
    let rest = exposed-few m0 lo hi plt in
    elim (Bool-cases (p.pointer == 0)) [
      | inl value ↦ rw value (omega (arith, rest))
      | inr pointer ↦ rw pointer (
          omega (
            arith,
            rest,
            exposed_by-few m0 lo hi p,
            length-++ (exposed_by m0 lo hi p) (exposed m0 lo hi plt),
          ))
    ]

module _ (f : SavedStack) where
  open f use {kmalloc, calls, heap, m0, bytes, lo, hi, buf, addr, cap, es, order, top, kernel, room}

  copied :
      (m : Mem) (a size b : ℕ)
      → Backs f m
      → inside lo hi a size ≡ true
      → memcpy m a (buf + (a - lo)) size b ≡ (if in_hole (range a size ∷ []) b then m0 b else m b)
  unfolding memcpy
  copied m a size b backs here = elim (Bool-cases (within a (a + size) b)) [
    | inr out ↦ rw out
    | inl at_b ↦
        let place : buf + (a - lo) + (b - a) ≡ buf + (b - lo) = ground arith in
        rw (at_b, place) (backs b (ground arith) (ground arith))
  ]

  copy_target_lem :
      (hs : List Hole) (a size : ℕ) (s : Machine)
      → a + size < 2 ^ 64
      → Backs f s.mem
      → s.allocs < calls
      → (s' : Machine) × (copy_target kmalloc a size (buffer f hs) s
          ≡ ok (buffer f (hs ++ moved f (pointee m0 lo hi a size)), s'))
        × Shows m0 lo hi s s' (pointee m0 lo hi a size)
  copy_target_lem hs a size s wrap backs call = elim (Bool-cases (inside lo hi a size)) [
    | inr out ↦ (
      s,
      rw out (
          copy_target-none kmalloc a size (buffer f hs) s (find_lem f hs a size wrap ∙ rw out)
          ∙ rw append-nil),
      rw out (record { allocs = omega arith; freed = refl; mem = λ b. refl }),
    )
    | inl here ↦
        let p = buf + (a - lo) in
        (
          record s { mem = memcpy s.mem a p size; allocs = s.allocs + 1 },
          rw here (
              copy_target-some kmalloc a size p (buffer f hs) s
                (find_lem f hs a size wrap ∙ rw here)
              ∙ add_hole_lem f hs p size (set_mem s (memcpy s.mem a p size)) call),
          rw here
              (record { allocs = refl; freed = refl; mem = λ b. copied s.mem a size b backs here }),
        )
  ]

  abbrev para : (a size pointer : ℕ) → Para
  para a size pointer = record { addr = a; size = size; pointer = pointer }

  -- One declared pointer.
  restore_pointer_lem :
      (hs : List Hole) (a size n : ℕ) (s : Machine)
      → n < 2 ^ 31
      → Chained m0 lo hi (suc n) a
      → target m0 lo hi (suc n) a + size < 2 ^ 64
      → Backs f s.mem
      → s.allocs + suc (suc n) ≤ calls
      → (s' : Machine) × (restore_pointer kmalloc (para a size (suc n)) (buffer f hs) s
          ≡ ok (
            success,
            para a size 0,
            buffer f (hs ++ moved f (exposed_by m0 lo hi (para a size (suc n)))),
            s',
          ))
        × Shows m0 lo hi s s' (exposed_by m0 lo hi (para a size (suc n)))
  restore_pointer_lem hs a size n s bits chained wrap backs enough =
      let next = load64 m0 a in
      let end = target m0 lo hi n next in
      let s1 = shown_cell f s a in
      let first : Shows m0 lo hi s s1 (range a 8 ∷ []) = shown_cell-Shows f s a chained.0 in
      let backs1 : Backs f s1.mem =
        Backs-Shows f s s1 (range a 8 ∷ []) backs first (chained.0, omega arith, tt) in
      let (s2, run, rest) =
        follow_lem f n (hs ++ in_block f (range a 8) ∷ []) next s1 chained.1 backs1 (omega arith) in
      let chain = cells m0 lo hi (suc n) a in
      let shown : Shows m0 lo hi s s2 chain =
        Shows-trans m0 lo hi s s1 s2 (range a 8 ∷ []) (cells m0 lo hi n next) first rest in
      let backs2 : Backs f s2.mem =
        Backs-Shows f s1 s2 (cells m0 lo hi n next) backs1 rest
          (cells-AllInside m0 lo hi n next chained.1) in
      let call : s2.allocs < calls = omega (arith, rest.allocs, length-cells m0 lo hi n next) in
      let (s3, reached, ended) =
        copy_target_lem (hs ++ moved f chain) end size s2 wrap backs2 call in
      let counted : dec_int (suc n) ≡ n = omega arith in
      let loads : load64 s1.mem a ≡ next = load_cell f s.mem a chained.0 in
      let joined : buffer f (hs ++ in_block f (range a 8) ∷ [] ++ moved f (cells m0 lo hi n next))
          ≡ buffer f (hs ++ moved f chain) =
        buffer_join f hs (range a 8 ∷ []) (cells m0 lo hi n next) in
      (
        s3,
        restore_pointer-found kmalloc (para a size (suc n)) (buf + (a - lo)) end (buffer f hs)
              (buffer f (hs ++ in_block f (range a 8) ∷ [])) (buffer f (hs ++ moved f chain))
              (buffer f ((hs ++ moved f chain) ++ moved f (pointee m0 lo hi end size))) s s1 s2 s3
              (found_cell f hs a chained.0)
              (copy_pointer_lem f hs a s chained.0 backs (omega arith))
              (rw (counted, loads) (run ∙ rw joined)) reached
            ∙ rw (buffer_join f hs chain (pointee m0 lo hi end size)),
        Shows-trans m0 lo hi s s2 s3 chain (pointee m0 lo hi end size) shown ended,
      )

  -- One declared pointer, its parameter given as it is.
  restore_para_lem :
      (hs : List Hole) (p : Para) (s : Machine)
      → (p.pointer == 0) ≡ false
      → p.pointer < 2 ^ 31
      → Chained m0 lo hi p.pointer p.addr
      → target m0 lo hi p.pointer p.addr + p.size < 2 ^ 64
      → Backs f s.mem
      → s.allocs + p.pointer + 1 ≤ calls
      → (s' : Machine) × (restore_pointer kmalloc p (buffer f hs) s
          ≡ ok (
            success,
            record p { pointer = 0 },
            buffer f (hs ++ moved f (exposed_by m0 lo hi p)),
            s',
          ))
        × Shows m0 lo hi s s' (exposed_by m0 lo hi p)
  restore_para_lem hs p s is_pointer bits chained wrap backs enough =
      by_levels p.pointer refl is_pointer bits chained wrap enough
    where
      by_levels :
          (k : ℕ)
          → p.pointer ≡ k
          → (k == 0) ≡ false
          → k < 2 ^ 31
          → Chained m0 lo hi k p.addr
          → target m0 lo hi k p.addr + p.size < 2 ^ 64
          → s.allocs + k + 1 ≤ calls
          → (s' : Machine) × (restore_pointer kmalloc (para p.addr p.size k) (buffer f hs) s
              ≡ ok (
                success,
                para p.addr p.size 0,
                buffer f (hs ++ moved f (exposed_by m0 lo hi (para p.addr p.size k))),
                s',
              ))
            × Shows m0 lo hi s s' (exposed_by m0 lo hi (para p.addr p.size k))
      by_levels zero e is_pointer bits chained wrap enough = absurd (cc is_pointer)
      by_levels (suc n) e is_pointer bits chained wrap enough =
          restore_pointer_lem hs p.addr p.size n s (omega arith) chained wrap backs (omega arith)

  pub restore_pointers_lem :
      (hs : List Hole) (plt : List Para) (s : Machine)
      → AllChained m0 lo hi plt
      → Backs f s.mem
      → s.allocs + blocks plt ≤ calls
      → (s' : Machine) × (restore_pointers kmalloc plt (buffer f hs) s
          ≡ ok (success, used_up plt, buffer f (hs ++ moved f (exposed m0 lo hi plt)), s'))
        × Shows m0 lo hi s s' (exposed m0 lo hi plt)
  restore_pointers_lem hs [] s chained backs enough = (
    s,
    restore_pointers-nil kmalloc (buffer f hs) s ∙ rw append-nil,
    record { allocs = omega arith; freed = refl; mem = λ b. refl },
  )
  restore_pointers_lem hs (p ∷ plt) s (bits, chained, pos, wrap, rest) backs enough =
      elim (Bool-cases (p.pointer == 0)) [
        | inl value ↦
            let (s', run, shows) = restore_pointers_lem hs plt s rest backs (ground arith) in
            (
              s',
              rw value (restore_pointers-value kmalloc p plt _ _ _ _ _ _ value run),
              rw value shows,
            )
        | inr pointer ↦
            let mine = exposed_by m0 lo hi p in
            let (s1, run, shown) =
              restore_para_lem hs p s pointer bits chained wrap backs (ground arith) in
            let parts : AllInside m0 lo hi mine = exposed_by-AllInside m0 lo hi p chained pos in
            let few : length mine ≤ p.pointer + 1 = exposed_by-few m0 lo hi p in
            let (s2, later, shows) =
              restore_pointers_lem (hs ++ moved f mine) plt s1 rest
                (Backs-Shows f s s1 mine backs shown parts) (ground (arith, shown.allocs)) in
            (
              s2,
              rw pointer (
                  restore_pointers-pointer kmalloc p _ plt _ _ _ _ _ _ _ _ pointer run later
                  ∙ rw (buffer_join f hs mine (exposed m0 lo hi plt))),
              rw pointer (Shows-trans m0 lo hi s s1 s2 mine (exposed m0 lo hi plt) shown shows),
            )
      ]
