-- ===== src/Probe/Shown.antt =====
-- jsys_encrypt_stack on a call whose parameters are pointers.
use cloud_memory_security.Base.{
  ℕ, zero, suc, ◌+◌, ◌-◌, ◌≤◌, ◌<◌, ◌≡◌, refl, ◌∙◌, ◌⊎◌, inl, inr, Bool, true, false, List, [], ◌∷◌,
  some, arith, ltb, ◌==◌, if◌then◌else◌, add64, subst, length, get_elem?, length-set,
  get_elem?-set_self, get_elem?-set_ne, Run, ok, success, Bool-cases,
}
use cloud_memory_security.Memory.{Machine, within, user_end, memcpy, memset}
use cloud_memory_security.Memory.Alloc.{KernelHeap, KeepsBlocks}
use cloud_memory_security.Cipher.Bytes.{UserBytes}
use cloud_memory_security.StackBuf.{Entry, Sbuf, put_slot}
use cloud_memory_security.StackBuf.Holes.{in_hole}
use cloud_memory_security.StackBuf.Sorting.{covers}
use cloud_memory_security.StackBuf.Copy.{copy_stack_buf-saves}
use cloud_memory_security.Elf.{Lookup}
use cloud_memory_security.Probe.{
  CsItem, Module, Regs, Exit, jprobe_returned, red_zone, any_pointer, at, clear_stack,
  jsys_encrypt_stack,
}
use cloud_memory_security.Probe.Clearing.{scan_end}
use cloud_memory_security.Probe.Paras.{Para, contains}
use cloud_memory_security.Probe.Scan.{Slot, live, flush, scan}
use cloud_memory_security.Probe.Pointers.{restore_pointers}
use cloud_memory_security.Probe.Pointers.Exposed.{
  exposed, AllChained, exposed-AllInside, AllInside-outside,
}
use cloud_memory_security.Probe.Pointers.Follow.{SavedStack, moved, buffer, Backs, Backs-Shows}
use cloud_memory_security.Probe.Pointers.Restored.{
  used_up, blocks, exposed-few, restore_pointers_lem,
}
use cloud_memory_security.Probe.Encrypt.{Ready, encrypt_runs, d2, after_scan, pushed}

-- Where no parameter protects a byte the loop saves the whole range at its end.
scan_idle :
    (kmalloc : ℕ → ℕ → ℕ) (user_rbp : ℕ) (plt : List Para) (n i prev : ℕ) (slot slot' : Slot)
    (s s' : Machine)
    → user_rbp < user_end
    → ((j : ℕ) → i ≤ j → j ≤ user_rbp → contains j plt ≡ 0)
    → i ≤ user_rbp
    → user_rbp + 1 < n + i
    → flush kmalloc prev user_rbp slot s ≡ ok (slot', s')
    → scan kmalloc user_rbp plt n i prev slot s ≡ ok (slot', s')
unfolding scan
scan_idle kmalloc user_rbp plt zero i prev slot slot' s s' top idle le rounds flushed =
    absurd (omega arith)
scan_idle kmalloc user_rbp plt (suc n) i prev slot slot' s s' top idle le rounds flushed =
    let inside : ltb user_rbp i ≡ false = ground arith in
    let miss : (contains i plt == 0) ≡ true = ground (arith, idle i) in
    elim (Bool-cases (i == user_rbp)) [
      | inl last ↦
          let here : flush kmalloc prev i slot s ≡ ok (slot', s') =
            subst (λ x. flush kmalloc prev x slot s ≡ ok (slot', s')) (ground arith) flushed in
          rw (inside, scan)
            (rw (miss, last)
              (rw here (
                scan_end kmalloc plt user_rbp n (add64 i 1) prev slot' s' (omega arith)
                  (ground arith))))
      | inr more ↦
          let next : add64 i 1 ≡ i + 1 = omega arith in
          rw (inside, scan)
            (rw (miss, more)
              (rw next (
                scan_idle kmalloc user_rbp plt n (i + 1) prev slot slot' s s' top
                  (λ j ge lt. idle j (omega arith) lt) (ground arith) (omega arith) flushed)))
    ]

abbrev rest_of : List Entry → List Entry
rest_of [] = []
rest_of (e ∷ es) = es

put_slot-zero : (es : List Entry) (e : Entry) → put_slot es 0 e ≡ e ∷ rest_of es
unfolding put_slot
put_slot-zero [] e = refl
put_slot-zero (x ∷ es) e = refl

-- A call that reaches the loop over the stack, all of whose parameters are pointers: their chains lie in
-- the caller's stack, and none of the ranges that they expose meets another.
pub record Declares (calls : ℕ) (d : Module) (regs : Regs) (plt : List Para) (rounds : ℕ)
    : Type 0 where
  pub ready : Ready calls d regs [] rounds
  pub pointers : any_pointer plt ≡ true
  pub no_values : (i : ℕ) → regs.sp + red_zone ≤ i → i ≤ regs.bp → contains i plt ≡ 0
  pub not_empty : regs.sp + red_zone < regs.bp
  pub bytes : UserBytes d.machine.mem
  pub chained : AllChained d.machine.mem (regs.sp + red_zone) regs.bp plt
  pub once : (a : ℕ) → covers (exposed d.machine.mem (regs.sp + red_zone) regs.bp plt) a ≤ 1
  pub enough : d.machine.allocs + 3 + blocks plt ≤ calls

module _ (kmalloc : ℕ → ℕ → ℕ) (calls : ℕ) (heap : KernelHeap kmalloc calls) (d : Module)
    (regs : Regs) (plt : List Para) (rounds : ℕ) (c : Declares calls d regs plt rounds) where
  abbrev pub lo : ℕ
  lo = regs.sp + red_zone

  abbrev pub size : ℕ
  size = regs.bp - lo

  abbrev pub block : ℕ
  block = kmalloc (d.machine.allocs + 1 + 1) size

  abbrev start : Module
  start = d2 kmalloc calls heap d regs [] rounds c.ready

  -- The stack has been saved in one block, and is '0'.
  abbrev after_flush : Machine
  after_flush = record d.machine {
    mem = memset (memcpy d.machine.mem block lo size) lo b'0' size;
    allocs = d.machine.allocs + 1 + 1 + 1;
  }

  abbrev pub saved_stack : SavedStack
  saved_stack = record {
    kmalloc = kmalloc;
    calls = calls;
    heap = heap;
    m0 = d.machine.mem;
    bytes = c.bytes;
    lo = lo;
    hi = regs.bp;
    buf = block;
    addr = c.ready.sbuf.addr;
    cap = c.ready.sbuf.cap;
    es = rest_of c.ready.sbuf.slots;
    order = c.ready.order;
    top = omega (arith, c.ready.user);
    kernel =
        heap.kernel (d.machine.allocs + 1 + 1) size (omega (arith, c.enough))
          (omega (arith, c.ready.small));
    room =
        heap.top (d.machine.allocs + 1 + 1) size (omega (arith, c.enough))
          (omega (arith, c.ready.small));
  }

  flush_lem :
      flush kmalloc lo regs.bp (live c.ready.sbuf) start.machine
      ≡ ok (live (buffer saved_stack []), after_flush)
  unfolding flush
  flush_lem =
      let below : ltb lo regs.bp ≡ true = ground (arith, c.not_empty) in
      let saves =
        copy_stack_buf-saves kmalloc calls heap start.machine c.ready.sbuf lo size
          (omega (arith, c.ready.unused, c.ready.capacity)) c.ready.small_cap
          (omega (arith, c.enough)) (omega (arith, c.ready.small)) in
      rw below (rw saves (rw (c.ready.unused) (rw put_slot-zero)))

  Backs-after_flush : Backs saved_stack after_flush.mem
  unfolding memset memcpy
  Backs-after_flush a ge lt = ground (arith, saved_stack.kernel, c.ready.user)

  -- What the pointers lead to, and the cells on the way.
  abbrev pub visible : ℕ → Bool
  visible = in_hole (exposed d.machine.mem lo regs.bp plt)

  abbrev pub holed : Sbuf
  holed = buffer saved_stack (moved saved_stack (exposed d.machine.mem lo regs.bp plt))

  -- The state after the call: of the caller's stack only what the pointers lead to is left to read, the
  -- bytes around it are as before, and the buffer at the top holds the stack, with holes.
  pub record Shown (r : Run (Exit × List Para × Module)) : Type 0 where
    pub d' : Module
    pub returns : r ≡ ok (jprobe_returned, used_up plt, d')
    pub stack :
        (a : ℕ)
        → regs.sp + red_zone ≤ a
        → a < regs.bp
        → d'.machine.mem a ≡ (if visible a then d.machine.mem a else b'0')
    pub outside :
        (a : ℕ)
        → a < user_end
        → (a < regs.sp + red_zone) ⊎ (regs.bp ≤ a)
        → d'.machine.mem a ≡ d.machine.mem a
    pub csit : CsItem
    pub call_top : d'.call_stack_top ≡ d.call_stack_top + 1
    pub sbuf_top : d'.sbuf_stack_top ≡ d.sbuf_stack_top + 1
    pub call_item : get_elem? d'.call_stack d.call_stack_top ≡ some (some csit)
    pub slot : get_elem? d'.sbuf_stack d.sbuf_stack_top ≡ some (live holed)
    pub slot_in : d.sbuf_stack_top < length d'.sbuf_stack
    pub init : d'.init ≡ d.init
    pub mapper : d'.mapper ≡ d.mapper
    pub calls_below :
        (i : ℕ) → i < d.call_stack_top → get_elem? d'.call_stack i ≡ get_elem? d.call_stack i
    pub slots_below :
        (i : ℕ) → i < d.sbuf_stack_top → get_elem? d'.sbuf_stack i ≡ get_elem? d.sbuf_stack i
    pub slots_above :
        (i : ℕ) → d.sbuf_stack_top < i → get_elem? d'.sbuf_stack i ≡ get_elem? d.sbuf_stack i
    pub call_room : length d'.call_stack ≡ length d.call_stack
    pub slot_room : length d'.sbuf_stack ≡ length d.sbuf_stack
    pub allocs : d.machine.allocs + 3 ≤ d'.machine.allocs
    pub within_calls : d'.machine.allocs ≤ calls
    pub kept : KeepsBlocks kmalloc d.machine.allocs d.machine.mem d'.machine.mem
    pub backs : Backs saved_stack d'.machine.mem

  abbrev ends : Sbuf → Machine → Module
  ends b s = after_scan kmalloc calls heap d regs [] rounds c.ready b s

  clear_stack_lem :
      (b : Sbuf) (s : Machine)
      → b.addr ≡ c.ready.sbuf.addr
      → restore_pointers kmalloc plt (buffer saved_stack []) after_flush
        ≡ ok (success, used_up plt, b, s)
      → clear_stack kmalloc rounds lo regs.bp plt start ≡ ok (used_up plt, ends b s)
  unfolding clear_stack
  clear_stack_lem b s stays run =
      let same : (c.ready.sbuf.addr == b.addr) ≡ true = ground arith in
      let scanned =
        scan_idle kmalloc regs.bp plt rounds lo lo (live c.ready.sbuf)
          (live (buffer saved_stack [])) start.machine after_flush c.ready.user c.no_values
          c.ready.order c.ready.enough flush_lem in
      rw (c.ready.slot, at) (rw scanned (rw (c.pointers) (rw run (rw same))))

  after_flush-stack : (a : ℕ) → lo ≤ a → a < regs.bp → after_flush.mem a ≡ b'0'
  unfolding memset
  after_flush-stack a ge lt = ground arith

  after_flush-outside :
      (a : ℕ) → a < user_end → (a < lo) ⊎ (regs.bp ≤ a) → after_flush.mem a ≡ d.machine.mem a
  unfolding memset memcpy
  after_flush-outside a low out = ground (arith, saved_stack.kernel, c.ready.order)

  -- The blocks that were allocated before are as they were.
  after_flush-block : KeepsBlocks kmalloc d.machine.allocs d.machine.mem after_flush.mem
  unfolding memset memcpy
  after_flush-block i len a lt le ge lt' = ground (
    arith,
    heap.kernel i len (omega (arith, c.enough)) le,
    heap.apart i (d.machine.allocs + 1 + 1) len size (omega arith) (omega (arith, c.enough)) le
        (omega (arith, c.ready.small)),
    c.ready.user,
  )

  -- In a ready state jsys_encrypt_stack on parameters that are pointers, whose chains lie in the
  -- caller's stack, ends well, with the pointers' levels used up: of the caller's stack the cells of the
  -- chains and what they lead to are as they were and all else is '0', other user bytes are as before,
  -- and the buffer on top holds the stack with a hole for each of these ranges.
  pub jsys_encrypt_stack-Shown :
      (exe : Lookup) → Shown (jsys_encrypt_stack kmalloc exe rounds regs plt d)
  jsys_encrypt_stack-Shown exe =
      let hs = exposed d.machine.mem lo regs.bp plt in
      let (s, run, shows) =
        restore_pointers_lem saved_stack [] plt after_flush c.chained Backs-after_flush
          (omega (arith, c.enough)) in
      let parts = exposed-AllInside d.machine.mem lo regs.bp plt c.chained in
      record {
        d' = ends holed s;
        returns =
            encrypt_runs kmalloc calls heap d regs [] rounds c.ready exe plt (used_up plt)
              (ends holed s) (clear_stack_lem holed s refl run);
        stack = λ a ge lt. rw (← after_flush-stack a ge lt) (shows.mem a);
        outside = λ a low out. rw (← after_flush-outside a low out) (
            shows.mem a
            ∙ rw (AllInside-outside d.machine.mem lo regs.bp hs a parts (ground arith)));
        csit = pushed kmalloc calls heap d c.ready.func_name lo regs.bp;
        call_top = refl;
        sbuf_top = refl;
        call_item = get_elem?-set_self d.call_stack d.call_stack_top _ c.ready.call_room;
        slot = get_elem?-set_self d.sbuf_stack d.sbuf_stack_top _ c.ready.slot_room;
        slot_in = rw length-set (c.ready.slot_room);
        init = refl;
        mapper = refl;
        calls_below = λ i lt. get_elem?-set_ne d.call_stack i d.call_stack_top _ (omega arith);
        slots_below = λ i lt. get_elem?-set_ne d.sbuf_stack i d.sbuf_stack_top _ (omega arith);
        slots_above = λ i lt. get_elem?-set_ne d.sbuf_stack i d.sbuf_stack_top _ (omega arith);
        call_room = length-set d.call_stack d.call_stack_top _;
        slot_room = length-set d.sbuf_stack d.sbuf_stack_top _;
        allocs = omega (arith, shows.allocs);
        within_calls =
            omega (arith, shows.allocs, exposed-few d.machine.mem lo regs.bp plt, c.enough);
        kept = λ i len a lt le ge lt'.
            let high : user_end ≤ a =
              omega (arith, heap.kernel i len (omega (arith, c.enough)) le) in
            let away : within lo regs.bp a ≡ false = ground (arith, c.ready.user) in
            shows.mem a
            ∙ rw (AllInside-outside d.machine.mem lo regs.bp hs a parts away)
                (after_flush-block i len a lt le ge lt');
        backs = Backs-Shows saved_stack after_flush s hs Backs-after_flush shows parts;
      }
