-- ===== src/Probe/Encrypt.antt =====
-- jsys_encrypt_stack on a call that passes its checks.
use cloud_memory_security.Base.{
  ℕ, ◌+◌, ◌-◌, ◌^◌, ◌≤◌, ◌<◌, ◌≡◌, refl, ◌∙◌, inl, inr, true, false, List, [], ◌∷◌, some, arith,
  ltb, ◌==◌, add64, length, get_elem?, set, length-set, get_elem?-set_self, get_elem?-set_ne, Run,
  ok, Bool-cases,
}
use cloud_memory_security.Memory.{Machine, user_end, alloc}
use cloud_memory_security.Memory.Alloc.{KernelHeap, KeepsBlocks, max_block}
use cloud_memory_security.StackBuf.{Sbuf}
use cloud_memory_security.StackBuf.Saved.{held}
use cloud_memory_security.Mapper.{Name, Mapper, get_func_name, copy_name}
use cloud_memory_security.Elf.{Lookup}
use cloud_memory_security.Probe.{
  CsItem, Module, Regs, Exit, jprobe_returned, red_zone, any_pointer, sizeof_cs_item, at, non_null,
  encrypt_from, ensure_init, check_caller, push_call, clear_stack, jsys_encrypt_stack,
}
use cloud_memory_security.Probe.Paras.{Para}
use cloud_memory_security.Probe.Shielded.{IsShielded}
use cloud_memory_security.Probe.Scan.{live, scan}
use cloud_memory_security.Probe.Clearing.{ahead, scan-Passed}
use cloud_memory_security.Probe.Passed.{NoWrap, Passed}

ahead-le-length : (i : ℕ) (plt : List Para) → ahead i plt ≤ length plt
ahead-le-length i [] = omega arith
ahead-le-length i (p ∷ plt) = ground (arith, ahead-le-length i plt)

-- A state and a call that reach the loop over the stack: the module is set up, the caller is a known
-- function, `rsp` is not above `rbp`, both stacks have room, the buffer at the top is not in use, and the
-- parameters are no pointers.
pub record Ready (calls : ℕ) (d : Module) (regs : Regs) (plt : List Para) (rounds : ℕ)
    : Type 0 where
  pub mapper : Mapper
  pub func_name : Name
  pub sbuf : Sbuf
  pub is_init : d.init ≡ true
  pub has_mapper : d.mapper ≡ some mapper
  pub known : get_func_name mapper regs.ip ≡ some func_name
  pub short : length func_name + 1 ≤ max_block
  pub order : regs.sp + red_zone ≤ regs.bp
  pub user : regs.bp < user_end
  pub small : regs.bp ≤ regs.sp + red_zone + max_block
  pub call_room : d.call_stack_top < length d.call_stack
  pub caller :
      0 < d.call_stack_top
      → (csit : CsItem) × (get_elem? d.call_stack (d.call_stack_top - 1) ≡ some (some csit))
  pub slot_room : d.sbuf_stack_top < length d.sbuf_stack
  pub slot : get_elem? d.sbuf_stack d.sbuf_stack_top ≡ some (live sbuf)
  pub unused : sbuf.cur ≡ 0
  pub capacity : length plt < sbuf.cap
  pub small_cap : sbuf.cap < 2 ^ 63
  pub left : d.machine.allocs + 2 + sbuf.cap ≤ calls
  pub values : any_pointer plt ≡ false
  pub no_wrap : NoWrap plt
  pub enough : regs.bp + 1 < rounds + (regs.sp + red_zone)

-- The state after a call that cleared the caller's stack: what it left in user memory, and what it
-- keeps to undo that.
pub record Encrypted (kmalloc : ℕ → ℕ → ℕ) (calls : ℕ) (d : Module) (regs : Regs) (plt : List Para)
    (func_name : Name) (r : Run (Exit × List Para × Module)) : Type 0 where
  pub d' : Module
  pub old : Sbuf
  pub sbuf : Sbuf
  pub before : Machine
  pub hi : ℕ
  pub returns : r ≡ ok (jprobe_returned, plt, d')
  pub same_mem : before.mem ≡ d.machine.mem
  pub same_freed : before.freed ≡ d.machine.freed
  pub reached : regs.bp ≤ hi
  pub small_cap : old.cap < 2 ^ 63
  pub passed : Passed kmalloc plt (regs.sp + red_zone) regs.bp old before hi sbuf d'.machine
  pub shielded :
      (a : ℕ) (h : IsShielded plt a)
      → regs.sp + red_zone ≤ h.para.addr
      → a < user_end
      → (d'.machine.mem a ≡ d.machine.mem a) × (held sbuf.cur sbuf.slots a ≡ false)
  pub csit : CsItem
  pub csit_rsp : csit.user_rsp ≡ regs.sp + red_zone
  pub csit_rbp : csit.user_rbp ≡ regs.bp
  pub csit_name : csit.func_name ≡ func_name
  pub call_top : d'.call_stack_top ≡ d.call_stack_top + 1
  pub sbuf_top : d'.sbuf_stack_top ≡ d.sbuf_stack_top + 1
  pub call_item : get_elem? d'.call_stack d.call_stack_top ≡ some (some csit)
  pub slot : get_elem? d'.sbuf_stack d.sbuf_stack_top ≡ some (live sbuf)
  pub mapper : d'.mapper ≡ d.mapper
  pub user : regs.bp < user_end
  pub init : d'.init ≡ d.init
  pub calls_below :
      (i : ℕ) → i < d.call_stack_top → get_elem? d'.call_stack i ≡ get_elem? d.call_stack i
  pub slots_below :
      (i : ℕ) → i < d.sbuf_stack_top → get_elem? d'.sbuf_stack i ≡ get_elem? d.sbuf_stack i
  pub slots_above :
      (i : ℕ) → d.sbuf_stack_top < i → get_elem? d'.sbuf_stack i ≡ get_elem? d.sbuf_stack i
  pub old_slot : get_elem? d.sbuf_stack d.sbuf_stack_top ≡ some (live old)
  pub call_room : length d'.call_stack ≡ length d.call_stack
  pub slot_room : length d'.sbuf_stack ≡ length d.sbuf_stack
  pub allocs : d.machine.allocs ≤ d'.machine.allocs
  pub within_calls : d'.machine.allocs ≤ calls
  pub few_allocs : d'.machine.allocs ≤ d.machine.allocs + 2 + old.cap
  pub kept : KeepsBlocks kmalloc d.machine.allocs d.machine.mem d'.machine.mem
  pub slot_in : d.sbuf_stack_top < length d'.sbuf_stack

module _ (kmalloc : ℕ → ℕ → ℕ) (calls : ℕ) (heap : KernelHeap kmalloc calls) where
  not_null : (i size : ℕ) → i < calls → size ≤ max_block → (kmalloc i size == 0) ≡ false
  not_null i size call le = ground (arith, heap.kernel i size call le)

  abbrev pub pushed : Module → Name → ℕ → ℕ → CsItem
  pushed d func_name user_rsp user_rbp = record {
    user_rsp = user_rsp;
    user_rbp = user_rbp;
    func_name = func_name;
    name_block = kmalloc (d.machine.allocs + 1) (length func_name + 1);
    block = kmalloc d.machine.allocs sizeof_cs_item;
  }

  abbrev pub after_push : Module → Name → ℕ → ℕ → Module
  after_push d func_name user_rsp user_rbp = record d {
    call_stack = set d.call_stack d.call_stack_top (some (pushed d func_name user_rsp user_rbp));
    call_stack_top = d.call_stack_top + 1;
    machine = record d.machine { allocs = d.machine.allocs + 1 + 1 };
  }

  push_call_lem :
      (d : Module) (func_name : Name) (user_rsp user_rbp : ℕ)
      → length func_name + 1 ≤ max_block
      → d.machine.allocs + 2 ≤ calls
      → d.call_stack_top < length d.call_stack
      → push_call kmalloc func_name user_rsp user_rbp d
        ≡ ok (after_push d func_name user_rsp user_rbp)
  unfolding push_call copy_name alloc
  push_call_lem d func_name user_rsp user_rbp short left room =
      let inside : ltb d.call_stack_top (length d.call_stack) ≡ true = ground arith in
      rw (not_null d.machine.allocs sizeof_cs_item (omega arith) (omega arith)) (
        rw (not_null (d.machine.allocs + 1) (length func_name + 1) (omega arith) short) (rw inside))

  module _ (d : Module) (regs : Regs) (plt : List Para) (rounds : ℕ)
      (r : Ready calls d regs plt rounds) where
    abbrev pub user_rsp : ℕ
    user_rsp = regs.sp + red_zone

    ensure_init_lem : (exe : Lookup) → ensure_init kmalloc exe d ≡ ok (r.mapper, d)
    unfolding ensure_init
    ensure_init_lem exe = simp (r.is_init, r.has_mapper, non_null)

    check_caller_lem : check_caller d ≡ ok tt
    unfolding check_caller
    check_caller_lem = elim (Bool-cases (ltb 0 d.call_stack_top)) [
      | inl some_caller ↦ let (csit, e) = r.caller (ground arith) in rw some_caller (rw (e, at))
      | inr no_caller ↦ rw no_caller
    ]

    abbrev pub d2 : Module
    d2 = after_push d r.func_name user_rsp regs.bp

    unheld : (a : ℕ) → held r.sbuf.cur r.sbuf.slots a ≡ false
    unheld a = rw (r.unused)

    start : Passed kmalloc plt user_rsp regs.bp r.sbuf d2.machine user_rsp r.sbuf d2.machine
    start = record {
      valid = record {
        written = omega (arith, r.unused);
        fits = omega (arith, r.unused);
        saved = rw (r.unused) (omega arith);
        blocks = rw (r.unused) tt;
      };
      addr = refl;
      cap = refl;
      freed = refl;
      allocs = refl;
      kept = λ i size a lt le ge lt'. refl;
      cur = omega arith;
      no_holes = rw (r.unused) tt;
      recovers = λ a low. rw (r.unused);
      cleared = λ a ge lt. absurd (omega arith);
      holds = λ a ge lt. absurd (omega arith);
      in_stack = λ a h. cc (unheld a, h);
      outside = λ a low out. refl;
      pending = λ a low ge. refl;
    }

    abbrev pub after_scan : Sbuf → Machine → Module
    after_scan b t = record d2 {
      sbuf_stack = set d.sbuf_stack d.sbuf_stack_top (live b);
      sbuf_stack_top = d.sbuf_stack_top + 1;
      machine = t;
    }

    -- All but the loop over the stack.
    pub encrypt_runs :
        (exe : Lookup) (given left : List Para) (d3 : Module)
        → clear_stack kmalloc rounds user_rsp regs.bp given d2 ≡ ok (left, d3)
        → jsys_encrypt_stack kmalloc exe rounds regs given d ≡ ok (jprobe_returned, left, d3)
    unfolding jsys_encrypt_stack encrypt_from
    encrypt_runs exe given left d3 clears =
        let sum : add64 regs.sp red_zone ≡ user_rsp = omega (arith, r.order, r.user) in
        let ordered : ltb regs.bp user_rsp ≡ false = ground (arith, r.order) in
        rw (ensure_init_lem exe) (
          rw (r.known) (
            rw sum (
              rw ordered (
                rw check_caller_lem (
                  rw
                    (push_call_lem d r.func_name user_rsp regs.bp r.short (omega (arith, r.left))
                      r.call_room)
                    (rw clears))))))

    module _ (b : Sbuf) (t : Machine)
        (run : scan kmalloc regs.bp plt rounds user_rsp user_rsp (live r.sbuf) d2.machine
          ≡ ok (live b, t))
        (stays : b.addr ≡ r.sbuf.addr) where
      clear_stack_lem :
          clear_stack kmalloc rounds user_rsp regs.bp plt d2 ≡ ok (plt, after_scan b t)
      unfolding clear_stack
      clear_stack_lem =
          let same : (r.sbuf.addr == b.addr) ≡ true = ground arith in
          rw (r.slot, at) (rw run (rw (r.values) (rw same)))

    -- In a state that is ready the call ends well. The unprotected bytes of the caller's stack are '0',
    -- the buffer on top of the stack of buffers holds what they were, the bytes of a parameter that starts
    -- in the stack, and whose first byte no other parameter has, are as before, as are the bytes of user
    -- memory outside the stack, and the call is on the call stack.
    pub jsys_encrypt_stack-Encrypted :
        (exe : Lookup)
        → Encrypted kmalloc calls d regs plt r.func_name
            (jsys_encrypt_stack kmalloc exe rounds regs plt d)
    jsys_encrypt_stack-Encrypted exe =
        let (hi, b, t, run, reached, passed, spares) =
          scan-Passed kmalloc plt user_rsp regs.bp r.sbuf d2.machine calls heap r.user r.small
            r.small_cap (omega (arith, r.left, r.unused)) rounds user_rsp user_rsp r.sbuf d2.machine
            start r.no_wrap (omega arith) (omega arith) (inl r.order) r.enough
            (omega (arith, r.enough, r.order))
            (omega (arith, r.unused, r.capacity, ahead-le-length user_rsp plt)) in
        record {
          d' = after_scan b t;
          old = r.sbuf;
          sbuf = b;
          before = d2.machine;
          hi = hi;
          returns = encrypt_runs exe plt plt (after_scan b t) (clear_stack_lem b t run passed.addr);
          same_mem = refl;
          same_freed = refl;
          reached = reached;
          small_cap = r.small_cap;
          passed = passed;
          shielded = λ a h above low.
              let (same, held') = spares a h (inr above) low in (same, held' ∙ unheld a);
          csit = pushed d r.func_name user_rsp regs.bp;
          csit_rsp = refl;
          csit_rbp = refl;
          csit_name = refl;
          call_top = refl;
          sbuf_top = refl;
          call_item = get_elem?-set_self d.call_stack d.call_stack_top _ r.call_room;
          slot = get_elem?-set_self d.sbuf_stack d.sbuf_stack_top _ r.slot_room;
          mapper = refl;
          user = r.user;
          init = refl;
          calls_below = λ i lt. get_elem?-set_ne d.call_stack i d.call_stack_top _ (omega arith);
          slots_below = λ i lt. get_elem?-set_ne d.sbuf_stack i d.sbuf_stack_top _ (omega arith);
          slots_above = λ i lt. get_elem?-set_ne d.sbuf_stack i d.sbuf_stack_top _ (omega arith);
          old_slot = r.slot;
          call_room = length-set d.call_stack d.call_stack_top _;
          slot_room = length-set d.sbuf_stack d.sbuf_stack_top _;
          allocs = omega (arith, passed.allocs, passed.cur);
          within_calls =
              omega (arith, passed.allocs, passed.valid.fits, passed.cap, r.left, r.unused);
          few_allocs = omega (arith, passed.allocs, passed.valid.fits, passed.cap, r.unused);
          kept = λ i size a lt. passed.kept i size a (omega arith);
          slot_in = rw length-set (r.slot_room);
        }
