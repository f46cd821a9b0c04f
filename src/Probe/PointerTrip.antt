-- ===== src/Probe/PointerTrip.antt =====
-- jsys_encrypt_stack on a call whose parameters are pointers, the call, and jsys_decrypt_stack.
mod Tests
use cloud_memory_security.Base.{
  ℕ, ◌+◌, ◌-◌, ◌≤◌, ◌<◌, ◌≡◌, refl, sym, ◌∙◌, ◌⊎◌, subst, true, false, List, some, arith, get_elem?,
  get_elem?-set_self, get_elem?-set_ne, length-set, set, Run, ok,
}
use cloud_memory_security.Memory.{Mem, user_end, set_mem, kfree}
use cloud_memory_security.Memory.Alloc.{KernelHeap}
use cloud_memory_security.StackBuf.{Hole, Sbuf}
use cloud_memory_security.StackBuf.Holes.{in_hole}
use cloud_memory_security.StackBuf.Sorting.{ListSort}
use cloud_memory_security.Mapper.{Name, get_func_name}
use cloud_memory_security.Elf.{Lookup}
use cloud_memory_security.Probe.{
  resumed, Module, Regs, Exit, jprobe_returned, red_zone, jsys_encrypt_stack, jsys_decrypt_stack,
}
use cloud_memory_security.Probe.Paras.{Para}
use cloud_memory_security.Probe.Scan.{live}
use cloud_memory_security.Probe.Keeps.{Keeps, resumed-Keeps}
use cloud_memory_security.Probe.SetUp.{Pushes, Pops}
use cloud_memory_security.Probe.Decrypt.{decrypt_runs}
use cloud_memory_security.Probe.Pointers.Exposed.{exposed, exposed-AllInside}
use cloud_memory_security.Probe.Pointers.Follow.{Backs}
use cloud_memory_security.Probe.Pointers.Left.{restored_between}
use cloud_memory_security.Probe.Pointers.Restored.{used_up}
use cloud_memory_security.Probe.Shown.{
  Declares, Shown, saved_stack, holed, jsys_encrypt_stack-Shown,
}

-- A call of jsys_decrypt_stack, made with `m` in memory, that undoes a jsys_encrypt_stack of a call with
-- pointer parameters made in the state `d`: what was hidden of the caller's stack is what it was, what
-- the pointers lead to and all other bytes of user memory are the program's.
pub record Returned (d : Module) (regs : Regs) (plt : List Para) (m : Mem)
    (result : Run (Exit × Module)) : Type 0 where
  pub d'' : Module
  pub sbuf : Sbuf
  pub returns : result ≡ ok (jprobe_returned, d'')
  pub hidden :
      (a : ℕ)
      → regs.sp + red_zone ≤ a
      → a < regs.bp
      → in_hole (exposed d.machine.mem (regs.sp + red_zone) regs.bp plt) a ≡ false
      → d''.machine.mem a ≡ d.machine.mem a
  pub shown :
      (a : ℕ)
      → in_hole (exposed d.machine.mem (regs.sp + red_zone) regs.bp plt) a ≡ true
      → d''.machine.mem a ≡ m a
  pub outside :
      (a : ℕ) → a < user_end → (a < regs.sp + red_zone) ⊎ (regs.bp ≤ a) → d''.machine.mem a ≡ m a
  pub call_top : d''.call_stack_top ≡ d.call_stack_top
  pub sbuf_top : d''.sbuf_stack_top ≡ d.sbuf_stack_top
  pub slot : get_elem? d''.sbuf_stack d.sbuf_stack_top ≡ some (live sbuf)
  pub unused : sbuf.cur ≡ 0

module _ (kmalloc : ℕ → ℕ → ℕ) (calls : ℕ) (heap : KernelHeap kmalloc calls)
    (list_sort : (Hole → Hole → ℕ) → List Hole → List Hole) (sorts : ListSort list_sort)
    (d : Module) (regs : Regs) (plt : List Para) (rounds : ℕ)
    (c : Declares calls d regs plt rounds) where
  pub Shown-Pushes :
      {r : Run (Exit × List Para × Module)} (e : Shown kmalloc calls heap d regs plt rounds c r)
      → Pushes d e.d'
  Shown-Pushes e = record {
    csit = e.csit;
    init = e.init;
    mapper = e.mapper;
    call_top = e.call_top;
    sbuf_top = e.sbuf_top;
    call_item = e.call_item;
    calls_below = e.calls_below;
    slots_above = e.slots_above;
    slot_room = e.slot_room;
  }

  -- The decryption at the end of the call, when what ran in between kept what it had to.
  pub Shown-Returned :
      {r : Run (Exit × List Para × Module)} (e : Shown kmalloc calls heap d regs plt rounds c r)
      (d2 : Module) (k : Keeps kmalloc e.d' d2) (regs' : Regs) (name : Name)
      → get_func_name c.ready.mapper regs'.ip ≡ some name
      → (u : Returned d regs plt d2.machine.mem (jsys_decrypt_stack list_sort regs' d2)) × Pops
          kmalloc d d2 u.d''
  unfolding kfree
  Shown-Returned e d2 k regs' name known =
      let f = saved_stack kmalloc calls heap d regs plt rounds c in
      let len = regs.bp - (regs.sp + red_zone) in
      let (b, m', run, reads, unused, capacity) =
        restored_between f list_sort sorts (exposed d.machine.mem (regs.sp + red_zone) regs.bp plt)
          d2.machine.mem (omega (arith, c.ready.small))
          (exposed-AllInside d.machine.mem (regs.sp + red_zone) regs.bp plt c.chained) c.once
          (λ a ge lt.
            k.kept (d.machine.allocs + 1 + 1) len (f.buf + (a - (regs.sp + red_zone)))
              (omega (arith, e.allocs)) (omega (arith, c.ready.small)) (omega arith) (omega arith)
            ∙ e.backs a ge lt) in
      let d'' : Module = record d2 {
        call_stack_top = d.call_stack_top;
        sbuf_stack_top = d.sbuf_stack_top;
        sbuf_stack = set d2.sbuf_stack d.sbuf_stack_top (live b);
        machine = set_mem (kfree e.csit.block (kfree e.csit.name_block d2.machine)) m';
      } in
      let slot =
        get_elem?-set_self d2.sbuf_stack d.sbuf_stack_top (live b)
          (omega (arith, e.slot_in, k.slot_room)) in
      (
        record {
          d'' = d'';
          sbuf = b;
          returns =
              decrypt_runs list_sort d2 regs' c.ready.mapper name e.csit
                (holed kmalloc calls heap d regs plt rounds c) b m' d.call_stack_top
                d.sbuf_stack_top (k.mapper ∙ e.mapper ∙ c.ready.has_mapper) known
                (k.call_top ∙ e.call_top)
                (k.calls_below d.call_stack_top (omega (arith, e.call_top)) ∙ e.call_item)
                (k.sbuf_top ∙ e.sbuf_top)
                (k.slots_below d.sbuf_stack_top (omega (arith, e.sbuf_top)) ∙ e.slot) run;
          hidden = λ a ge lt out. reads a ∙ ground arith;
          shown = λ a out. reads a ∙ ground (arith, out);
          outside = λ a low out. reads a ∙ ground arith;
          call_top = refl;
          sbuf_top = refl;
          slot = slot;
          unused = unused;
        },
        record {
          keeps = record {
            init = k.init ∙ e.init;
            mapper = k.mapper ∙ e.mapper;
            call_top = refl;
            sbuf_top = refl;
            calls_below = λ i lt. k.calls_below i (omega (arith, e.call_top)) ∙ e.calls_below i lt;
            slots_below = λ i lt.
                get_elem?-set_ne d2.sbuf_stack i d.sbuf_stack_top _ (omega arith)
                ∙ k.slots_below i (omega (arith, e.sbuf_top))
                ∙ e.slots_below i lt;
            call_room = k.call_room ∙ e.call_room;
            slot_room = length-set d2.sbuf_stack d.sbuf_stack_top _ ∙ k.slot_room ∙ e.slot_room;
            allocs = omega (arith, k.allocs, e.allocs);
            kept = λ i size a lt le ge lt'.
                let high : user_end ≤ a =
                  omega (arith, heap.kernel i size (omega (arith, c.enough)) le) in
                let same : m' a ≡ d2.machine.mem a = reads a ∙ ground (arith, c.ready.user) in
                same
                ∙ k.kept i size a (omega (arith, e.allocs)) le ge lt'
                ∙ e.kept i size a lt le ge lt';
          };
          old = c.ready.sbuf;
          sbuf = b;
          old_slot = c.ready.slot;
          slot = slot;
          slots_above = λ i lt. get_elem?-set_ne d2.sbuf_stack i d.sbuf_stack_top _ (omega arith);
          unused = unused;
          capacity = capacity;
        },
      )

  -- If jsys_encrypt_stack ran in a ready state on parameters that are pointers, whose chains lie in the
  -- caller's stack and expose ranges that do not meet, kmalloc and list_sort do as documented, and the
  -- program then wrote to user memory only, jsys_decrypt_stack from a known function ends well: of the
  -- caller's stack the hidden bytes are what they were, and what the pointers lead to keeps what the
  -- program wrote there.
  pub jsys_decrypt_stack-Shown :
      (d' : Module) (regs' : Regs) (exe : Lookup) (name : Name) (m : Mem)
      → jsys_encrypt_stack kmalloc exe rounds regs plt d ≡ ok (jprobe_returned, used_up plt, d')
      → ((p : ℕ) → user_end ≤ p → m p ≡ d'.machine.mem p)
      → get_func_name c.ready.mapper regs'.ip ≡ some name
      → Returned d regs plt m (jsys_decrypt_stack list_sort regs' (resumed d' m))
  jsys_decrypt_stack-Shown d' regs' exe name m run kernel known =
      let e = jsys_encrypt_stack-Shown kmalloc calls heap d regs plt rounds c exe in
      let same : e.d' ≡ d' = cc (e.returns, run) in
      subst (λ x. Returned d regs plt m (jsys_decrypt_stack list_sort regs' (resumed x m))) same
        (Shown-Returned e (resumed e.d' m)
          (resumed-Keeps kmalloc calls heap e.d' m e.within_calls
            (subst (λ x. (p : ℕ) → user_end ≤ p → m p ≡ x.machine.mem p) (sym same) kernel))
          regs' name known).0
