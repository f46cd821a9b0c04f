-- ===== src/Probe/SetUp.antt =====
-- The state that the module is in between two system calls.
use cloud_memory_security.Base.{
  ℕ, ◌+◌, ◌-◌, ◌≤◌, ◌<◌, ◌≡◌, ◌∙◌, inl, inr, true, false, ◌==◌, List, some, arith, length,
  get_elem?, Run, Bool-cases,
}
use cloud_memory_security.Memory.{user_end}
use cloud_memory_security.Memory.Alloc.{max_block}
use cloud_memory_security.StackBuf.{Sbuf}
use cloud_memory_security.Mapper.{Name, Mapper, get_func_name}
use cloud_memory_security.Probe.{CsItem, Module, Regs, Exit, red_zone, any_pointer}
use cloud_memory_security.Probe.Paras.{Para}
use cloud_memory_security.Probe.Scan.{live}
use cloud_memory_security.Probe.Passed.{NoWrap}
use cloud_memory_security.Probe.Keeps.{Keeps}
use cloud_memory_security.Probe.Encrypt.{Ready, Encrypted}
use cloud_memory_security.Probe.Decrypt.{Decrypted}

-- The slot holds a buffer that is not in use, with room for 32 ranges.
abbrev pub IsFree : Module → ℕ → Type 0
IsFree d i = (b : Sbuf) × (get_elem? d.sbuf_stack i ≡ some (live b)) × (b.cur ≡ 0) × (b.cap ≡ 32)

-- The module is initialised with the table `mapper`, each call below the top of the call stack is there, and the slots from the
-- top of the buffer stack on are free.
pub record IsSetUp (mapper : Mapper) (d : Module) : Type 0 where
  pub is_init : d.init ≡ true
  pub has_mapper : d.mapper ≡ some mapper
  pub called :
      (i : ℕ)
      → i < d.call_stack_top
      → (csit : CsItem) × (get_elem? d.call_stack i ≡ some (some csit))
  pub free : (i : ℕ) → d.sbuf_stack_top ≤ i → i < length d.sbuf_stack → IsFree d i

-- A call that passes its checks, for a state with room on both stacks and `calls` calls of kmalloc in
-- all: the caller is a known function, its frame is an ordered range of at most 4 MB of user memory, and
-- its at most 31 parameters are no pointers and do not wrap round.
pub record IsCall (calls : ℕ) (d : Module) (regs : Regs) (plt : List Para) (rounds : ℕ)
    (mapper : Mapper) : Type 0 where
  pub func_name : Name
  pub known : get_func_name mapper regs.ip ≡ some func_name
  pub short : length func_name + 1 ≤ max_block
  pub order : regs.sp + red_zone ≤ regs.bp
  pub user : regs.bp < user_end
  pub small : regs.bp ≤ regs.sp + red_zone + max_block
  pub call_room : d.call_stack_top < length d.call_stack
  pub slot_room : d.sbuf_stack_top < length d.sbuf_stack
  pub few : length plt < 32
  pub left : d.machine.allocs + 34 ≤ calls
  pub values : any_pointer plt ≡ false
  pub no_wrap : NoWrap plt
  pub enough : regs.bp + 1 < rounds + (regs.sp + red_zone)

abbrev pub IsSetUp-Ready :
    (calls : ℕ) (d : Module) (regs : Regs) (plt : List Para) (rounds : ℕ) (mapper : Mapper)
    → IsSetUp mapper d
    → IsCall calls d regs plt rounds mapper
    → Ready calls d regs plt rounds
IsSetUp-Ready calls d regs plt rounds mapper s c =
    let (b, slot, unused, cap) = s.free d.sbuf_stack_top (omega arith) c.slot_room in
    record {
      mapper = mapper;
      func_name = c.func_name;
      sbuf = b;
      is_init = s.is_init;
      has_mapper = s.has_mapper;
      known = c.known;
      short = c.short;
      order = c.order;
      user = c.user;
      small = c.small;
      call_room = c.call_room;
      caller = λ pos. s.called (d.call_stack_top - 1) (omega arith);
      slot_room = c.slot_room;
      slot = slot;
      unused = unused;
      capacity = omega (arith, c.few, cap);
      small_cap = omega (arith, cap);
      left = omega (arith, c.left, cap);
      values = c.values;
      no_wrap = c.no_wrap;
      enough = c.enough;
    }

-- What a call of jsys_encrypt_stack puts on both stacks.
pub record Pushes (d d' : Module) : Type 0 where
  pub csit : CsItem
  pub init : d'.init ≡ d.init
  pub mapper : d'.mapper ≡ d.mapper
  pub call_top : d'.call_stack_top ≡ d.call_stack_top + 1
  pub sbuf_top : d'.sbuf_stack_top ≡ d.sbuf_stack_top + 1
  pub call_item : get_elem? d'.call_stack d.call_stack_top ≡ some (some csit)
  pub calls_below :
      (i : ℕ) → i < d.call_stack_top → get_elem? d'.call_stack i ≡ get_elem? d.call_stack i
  pub slots_above :
      (i : ℕ) → d.sbuf_stack_top < i → get_elem? d'.sbuf_stack i ≡ get_elem? d.sbuf_stack i
  pub slot_room : length d'.sbuf_stack ≡ length d.sbuf_stack

-- What a call of jsys_decrypt_stack in the state `d2` leaves, which takes that off again.
pub record Pops (kmalloc : ℕ → ℕ → ℕ) (d d2 d'' : Module) : Type 0 where
  pub keeps : Keeps kmalloc d d''
  pub old : Sbuf
  pub sbuf : Sbuf
  pub old_slot : get_elem? d.sbuf_stack d.sbuf_stack_top ≡ some (live old)
  pub slot : get_elem? d''.sbuf_stack d.sbuf_stack_top ≡ some (live sbuf)
  pub slots_above :
      (i : ℕ) → d.sbuf_stack_top < i → get_elem? d''.sbuf_stack i ≡ get_elem? d2.sbuf_stack i
  pub unused : sbuf.cur ≡ 0
  pub capacity : sbuf.cap ≡ old.cap

-- The state after a call that cleared its caller's stack is set up for the next.
pub Pushes-IsSetUp :
    {d d' : Module} {mapper : Mapper} → Pushes d d' → IsSetUp mapper d → IsSetUp mapper d'
Pushes-IsSetUp {d} e s = record {
  is_init = e.init ∙ s.is_init;
  has_mapper = e.mapper ∙ s.has_mapper;
  called = λ i lt. elim (Bool-cases (i == d.call_stack_top)) [
    | inl top ↦ let same : i ≡ d.call_stack_top = ground arith in (e.csit, rw same (e.call_item))
    | inr below ↦
        let lt' : i < d.call_stack_top = ground (arith, e.call_top) in
        let (csit, item) = s.called i lt' in (csit, e.calls_below i lt' ∙ item)
  ];
  free = λ i le lt.
      let (b, slot, unused, capacity) =
        s.free i (omega (arith, e.sbuf_top)) (omega (arith, e.slot_room)) in
      (b, e.slots_above i (omega (arith, e.sbuf_top)) ∙ slot, unused, capacity);
}

-- And so is the state after its end, if what ran in between left a state that is.
pub Pops-IsSetUp :
    {kmalloc : ℕ → ℕ → ℕ} {d d' d2 d'' : Module} {mapper : Mapper}
    → Pushes d d'
    → IsSetUp mapper d
    → Keeps kmalloc d' d2
    → IsSetUp mapper d2
    → Pops kmalloc d d2 d''
    → IsSetUp mapper d''
Pops-IsSetUp {kmalloc} {d} e s k s2 u = record {
  is_init = u.keeps.init ∙ s.is_init;
  has_mapper = u.keeps.mapper ∙ s.has_mapper;
  called = λ i lt.
      let lt' : i < d.call_stack_top = omega (arith, u.keeps.call_top) in
      let (csit, item) = s.called i lt' in (csit, u.keeps.calls_below i lt' ∙ item);
  free = λ i le lt. elim (Bool-cases (i == d.sbuf_stack_top)) [
    | inl at_top ↦
        let same : i ≡ d.sbuf_stack_top = ground arith in
        let (b, slot, unused, capacity) =
          s.free d.sbuf_stack_top (omega arith) (omega (arith, u.keeps.slot_room)) in
        let capacity' : u.sbuf.cap ≡ 32 = ground (arith, u.capacity, u.old_slot) in
        (u.sbuf, rw same (u.slot), u.unused, capacity')
    | inr above ↦
        let gt : d.sbuf_stack_top < i = ground (arith, u.keeps.sbuf_top) in
        let (b, slot, unused, capacity) =
          s2.free i (omega (arith, k.sbuf_top, e.sbuf_top))
            (omega (arith, k.slot_room, e.slot_room, u.keeps.slot_room)) in
        (b, u.slots_above i gt ∙ slot, unused, capacity)
  ];
}

module _ {kmalloc : ℕ → ℕ → ℕ} {calls : ℕ} {d : Module} {regs : Regs} {plt : List Para}
    {func_name : Name} {r : Run (Exit × List Para × Module)}
    (e : Encrypted kmalloc calls d regs plt func_name r) where
  pub Encrypted-Pushes : Pushes d e.d'
  Encrypted-Pushes = record {
    csit = e.csit;
    init = e.init;
    mapper = e.mapper;
    call_top = e.call_top;
    sbuf_top = e.sbuf_top;
    call_item = e.call_item;
    calls_below = e.calls_below;
    slots_above = e.slots_above;
    slot_room = e.slot_room;
  }

  pub Decrypted-Pops :
      (d2 : Module) {result : Run (Exit × Module)}
      → (u : Decrypted e d2 result) → Pops kmalloc d d2 u.d''
  Decrypted-Pops d2 u = record {
    keeps = u.keeps;
    old = e.old;
    sbuf = u.sbuf;
    old_slot = e.old_slot;
    slot = u.slot;
    slots_above = u.slots_above;
    unused = u.unused;
    capacity = u.cap;
  }
