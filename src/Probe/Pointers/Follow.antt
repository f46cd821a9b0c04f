-- ===== src/Probe/Pointers/Follow.antt =====
-- restore_pointers on a buffer of one slot: the chain of pointers, against the cells it passes.
use mathlib.Core.List.{append_assoc, append-nil}
use cloud_memory_security.Base.{
  ℕ, zero, suc, ◌+◌, ◌-◌, ◌^◌, ◌≤◌, ◌<◌, ◌≡◌, refl, ◌∙◌, inl, inr, true, false, List, [], ◌∷◌, ◌++◌,
  none, some, ◌==◌, if◌then◌else◌, add64, sub64, arith, ok, Bool-cases,
}
use cloud_memory_security.Memory.{Mem, Machine, within, load64, store64, set_mem, alloc, user_end}
use cloud_memory_security.Memory.Alloc.{KernelHeap}
use cloud_memory_security.Cipher.Bytes.{UserBytes, byte_of-load64}
use cloud_memory_security.StackBuf.{Hole, ring, Entry, Sbuf}
use cloud_memory_security.Probe.Paras.{find_in_slots, find_in_stack_buf}
use cloud_memory_security.Probe.Pointers.{sizeof_hole, add_tail, add_hole, copy_pointer, follow}
use cloud_memory_security.Probe.Pointers.Exposed.{
  inside, range, target, cells, Chained, AllInside, Shows, AllInside-outside, Shows-trans,
}
use cloud_memory_security.Probe.Pointers.Steps.{load64_at, follow-suc}

-- A buffer whose one slot holds the stack `[lo, hi)` as it was in the memory `m0`, in the block at
-- `buf`, and a `kmalloc` that adds to it.
pub record SavedStack : Type 0 where
  pub kmalloc : ℕ → ℕ → ℕ
  pub calls : ℕ
  pub heap : KernelHeap kmalloc calls
  pub m0 : Mem
  pub bytes : UserBytes m0
  pub lo : ℕ
  pub hi : ℕ
  pub buf : ℕ
  pub addr : ℕ
  pub cap : ℕ
  pub es : List Entry
  pub order : lo ≤ hi
  pub top : hi ≤ user_end
  pub kernel : user_end ≤ buf
  pub room : buf + (hi - lo) < 2 ^ 64

module _ (f : SavedStack) where
  open f use {kmalloc, calls, heap, m0, bytes, lo, hi, buf, addr, cap, es, order, top, kernel, room}

  -- Where the block has what the stack had at the address.
  abbrev pub in_block : Hole → Hole
  in_block h = range (buf + (h.start - lo)) h.len

  abbrev pub moved : List Hole → List Hole
  moved [] = []
  moved (h ∷ hs) = in_block h ∷ moved hs

  abbrev pub buffer : List Hole → Sbuf
  buffer hs = record {
    addr = addr;
    slots = record { buf = buf; start = lo; len = hi - lo; hole_list = ring hs } ∷ es;
    cur = 1;
    cap = cap;
  }

  -- The block holds the stack as it was saved.
  abbrev pub Backs : Mem → Type 0
  Backs m = (a : ℕ) → lo ≤ a → a < hi → m (buf + (a - lo)) ≡ m0 a

  pub find_lem :
      (hs : List Hole) (a len : ℕ)
      → a + len < 2 ^ 64
      → find_in_stack_buf a len (buffer hs)
        ≡ (if inside lo hi a len then some (buf + (a - lo)) else none)
  unfolding find_in_stack_buf find_in_slots
  find_lem hs a len wrap =
      let sum : add64 a len ≡ a + len = omega arith in
      let stop : add64 lo (hi - lo) ≡ hi = omega arith in
      rw (sum, stop)
        (elim (Bool-cases (inside lo hi a len)) [
          | inr out ↦ rw out
          | inl here ↦
              let place : add64 buf (sub64 a lo) ≡ buf + (a - lo) = ground arith in rw (here, place)
        ])

  pub found_cell :
      (hs : List Hole) (a : ℕ)
      → inside lo hi a 8 ≡ true
      → find_in_stack_buf a 8 (buffer hs) ≡ some (buf + (a - lo))
  found_cell hs a here = find_lem hs a 8 (ground arith) ∙ rw here

  pub add_hole_lem :
      (hs : List Hole) (start len : ℕ) (s : Machine)
      → s.allocs < calls
      → add_hole kmalloc start len (buffer hs) s
        ≡ ok (buffer (hs ++ range start len ∷ []), record s { allocs = s.allocs + 1 })
  unfolding add_hole alloc add_tail
  add_hole_lem hs start len s call =
      let block : (kmalloc s.allocs sizeof_hole == 0) ≡ false =
        ground (arith, heap.kernel s.allocs sizeof_hole call) in
      rw block

  pub load_block :
      (m : Mem) (a : ℕ)
      → Backs m
      → inside lo hi a 8 ≡ true
      → load64 m (buf + (a - lo)) ≡ load64 m0 a
  load_block m a backs here = load64_at m m0 (buf + (a - lo)) a (λ i b c lt e f.
      let at_b : b ≡ buf + (c - lo) = ground arith in
      rw at_b (backs c (ground arith) (ground arith)))

  pub store_cell :
      (m : Mem) (a b : ℕ)
      → inside lo hi a 8 ≡ true
      → store64 m a (load64 m0 a) b ≡ (if within a (a + 8) b then m0 b else m b)
  unfolding store64
  store_cell m a b here = elim (Bool-cases (within a (a + 8) b)) [
    | inr out ↦ rw out
    | inl at_b ↦ rw at_b (
        byte_of-load64 m0 a (b - a) b (λ c lt. bytes c (ground arith)) (ground arith)
          (ground arith))
  ]

  pub load_cell :
      (m : Mem) (a : ℕ)
      → inside lo hi a 8 ≡ true
      → load64 (store64 m a (load64 m0 a)) a ≡ load64 m0 a
  load_cell m a here = load64_at (store64 m a (load64 m0 a)) m0 a a (λ i b c lt e f.
      let at_b : b ≡ c = omega arith in
      let cell : within a (a + 8) c ≡ true = ground arith in
      rw at_b (store_cell m a c here ∙ rw cell))

  -- Ranges of the stack are user memory, so that the block is left alone.
  pub Backs-Shows :
      (s s' : Machine) (hs : List Hole)
      → Backs s.mem
      → Shows m0 lo hi s s' hs
      → AllInside m0 lo hi hs
      → Backs s'.mem
  Backs-Shows s s' hs backs shows parts a ge lt =
      let away : within lo hi (buf + (a - lo)) ≡ false = ground arith in
      shows.mem (buf + (a - lo))
      ∙ rw (AllInside-outside m0 lo hi hs (buf + (a - lo)) parts away) (backs a ge lt)

  -- The cell at `a` is written back.
  abbrev pub shown_cell : Machine → ℕ → Machine
  shown_cell s a = record s { mem = store64 s.mem a (load64 m0 a); allocs = s.allocs + 1 }

  pub shown_cell-Shows :
      (s : Machine) (a : ℕ)
      → inside lo hi a 8 ≡ true
      → Shows m0 lo hi s (shown_cell s a) (range a 8 ∷ [])
  shown_cell-Shows s a here = record {
    allocs = refl;
    freed = refl;
    mem = λ b. store_cell s.mem a b here ∙ ground arith;
  }

  pub copy_pointer_lem :
      (hs : List Hole) (a : ℕ) (s : Machine)
      → inside lo hi a 8 ≡ true
      → Backs s.mem
      → s.allocs < calls
      → copy_pointer kmalloc a (buf + (a - lo)) (buffer hs) s
        ≡ ok (buffer (hs ++ in_block (range a 8) ∷ []), shown_cell s a)
  unfolding copy_pointer
  copy_pointer_lem hs a s here backs call =
      rw (load_block s.mem a backs here)
        (add_hole_lem hs (buf + (a - lo)) 8 (set_mem s (store64 s.mem a (load64 m0 a))) call)

  pub moved-++ : (hs hs' : List Hole) → moved (hs ++ hs') ≡ moved hs ++ moved hs'
  moved-++ [] hs' = refl
  moved-++ (h ∷ hs) hs' = rw (moved-++ hs hs')

  pub buffer_join :
      (hs h1 h2 : List Hole)
      → buffer ((hs ++ moved h1) ++ moved h2) ≡ buffer (hs ++ moved (h1 ++ h2))
  buffer_join hs h1 h2 = rw (append_assoc, moved-++ h1 h2)

  pub follow_lem :
      (n : ℕ) (hs : List Hole) (a : ℕ) (s : Machine)
      → Chained m0 lo hi n a
      → Backs s.mem
      → s.allocs + n ≤ calls
      → (s' : Machine) × (follow kmalloc n a (buffer hs) s
          ≡ ok (target m0 lo hi n a, buffer (hs ++ moved (cells m0 lo hi n a)), s'))
        × Shows m0 lo hi s s' (cells m0 lo hi n a)
  unfolding follow
  follow_lem zero hs a s chained backs call =
      (s, rw append-nil, record { allocs = omega arith; freed = refl; mem = λ b. refl })
  follow_lem (suc n) hs a s chained backs call =
      let s1 = shown_cell s a in
      let here : Shows m0 lo hi s s1 (range a 8 ∷ []) = shown_cell-Shows s a chained.0 in
      let next = load64 m0 a in
      let (s2, run, rest) =
        follow_lem n (hs ++ in_block (range a 8) ∷ []) next s1 chained.1
          (Backs-Shows s s1 (range a 8 ∷ []) backs here (chained.0, omega arith, tt))
          (omega arith) in
      (
        s2,
        follow-suc kmalloc n a (buf + (a - lo)) next (buffer hs)
              (buffer (hs ++ in_block (range a 8) ∷ [])) s s1 (found_cell hs a chained.0)
              (copy_pointer_lem hs a s (chained.0) backs (omega arith))
              (load_cell s.mem a (chained.0))
            ∙ run
            ∙ rw (buffer_join hs (range a 8 ∷ []) (cells m0 lo hi n next)),
        Shows-trans m0 lo hi s s1 s2 (range a 8 ∷ []) (cells m0 lo hi n next) here rest,
      )
