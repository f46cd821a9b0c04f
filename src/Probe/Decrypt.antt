-- ===== src/Probe/Decrypt.antt =====
-- jsys_decrypt_stack after a jsys_encrypt_stack that cleared the caller's stack.
use mathlib.Core.List.Perm
use cloud_memory_security.Base.{
  get_elem?-set_self, get_elem?-set_ne, length-set, ℕ, zero, suc, ◌+◌, ◌-◌, ◌≤◌, ◌<◌, ◌≡◌, refl,
  ◌∙◌, ◌⊎◌, inl, inr, false, List, [], ◌∷◌, some, arith, ◌==◌, if◌then◌else◌, get_elem?, set, Run,
  ok, Bool-cases,
}
use cloud_memory_security.Memory.{Mem, set_mem, kfree, user_end}
use cloud_memory_security.StackBuf.{Hole, Entry, Sbuf, cmp, restore_stack_buf}
use cloud_memory_security.StackBuf.Saved.{
  AllSame, holes_of, read_back, held, NoHoles, read_back-held,
}
use cloud_memory_security.StackBuf.Sorting.{ListSort}
use cloud_memory_security.StackBuf.Restore.{AllPlaced, restore_stack_buf_lem}
use cloud_memory_security.Mapper.{Name, Mapper, get_func_name}
use cloud_memory_security.Probe.{
  CsItem, Module, Regs, Exit, jprobe_returned, red_zone, at, non_null, pop_and_restore,
  jsys_decrypt_stack,
}
use cloud_memory_security.Probe.Paras.{Para}
use cloud_memory_security.Probe.Shielded.{IsShielded}
use cloud_memory_security.Probe.Scan.{live}
use cloud_memory_security.Probe.Passed.{in_para}
use cloud_memory_security.Probe.Encrypt.{Encrypted}
use cloud_memory_security.Probe.Keeps.{Keeps, KeepsBlocks-AllSame}
use cloud_memory_security.Memory.Alloc.{KernelHeap}

-- A call of jsys_decrypt_stack in the state `d2` that undid what a jsys_encrypt_stack in the state `d`
-- did.
pub record Decrypted {kmalloc : ℕ → ℕ → ℕ} {calls : ℕ} {d : Module} {regs : Regs} {plt : List Para}
    {func_name : Name} {r : Run (Exit × List Para × Module)}
    (e : Encrypted kmalloc calls d regs plt func_name r) (d2 : Module)
    (result : Run (Exit × Module)) : Type 0 where
  pub d'' : Module
  pub sbuf : Sbuf
  pub returns : result ≡ ok (jprobe_returned, d'')
  pub restored :
      (a : ℕ)
      → regs.sp + red_zone ≤ a
      → a < regs.bp
      → in_para plt a ≡ false
      → d''.machine.mem a ≡ d.machine.mem a
  pub outside :
      (a : ℕ)
      → a < user_end
      → (a < regs.sp + red_zone) ⊎ (regs.bp ≤ a)
      → d''.machine.mem a ≡ d2.machine.mem a
  pub shielded :
      (a : ℕ) (h : IsShielded plt a)
      → regs.sp + red_zone ≤ h.para.addr
      → a < user_end
      → d''.machine.mem a ≡ d2.machine.mem a
  pub keeps : Keeps kmalloc d d''
  pub allocs : d''.machine.allocs ≡ d2.machine.allocs
  pub slot : get_elem? d''.sbuf_stack d.sbuf_stack_top ≡ some (live sbuf)
  pub slots_above :
      (i : ℕ) → d.sbuf_stack_top < i → get_elem? d''.sbuf_stack i ≡ get_elem? d2.sbuf_stack i
  pub unused : sbuf.cur ≡ 0
  pub cap : sbuf.cap ≡ e.old.cap
  pub freed : d''.machine.freed ≡ e.csit.block ∷ e.csit.name_block ∷ d2.machine.freed

pub decrypt_runs :
    (list_sort : (Hole → Hole → ℕ) → List Hole → List Hole) (d : Module) (regs : Regs)
    (mapper : Mapper) (name : Name) (csit : CsItem) (b b' : Sbuf) (m' : Mem) (k j : ℕ)
    → d.mapper ≡ some mapper
    → get_func_name mapper regs.ip ≡ some name
    → d.call_stack_top ≡ k + 1
    → get_elem? d.call_stack k ≡ some (some csit)
    → d.sbuf_stack_top ≡ j + 1
    → get_elem? d.sbuf_stack j ≡ some (live b)
    → restore_stack_buf list_sort b d.machine.mem ≡ ok (b', m')
    → jsys_decrypt_stack list_sort regs d
      ≡ ok (
        jprobe_returned,
        record d {
          call_stack_top = k;
          sbuf_stack_top = j;
          sbuf_stack = set d.sbuf_stack j (live b');
          machine = set_mem (kfree csit.block (kfree csit.name_block d.machine)) m';
        },
      )
unfolding jsys_decrypt_stack pop_and_restore kfree
decrypt_runs list_sort d regs mapper name csit b b' m' k j has_mapper known top item sbuf_top slot
      run =
    let called : (d.call_stack_top == 0) ≡ false = ground arith in
    let held_one : (d.sbuf_stack_top == 0) ≡ false = ground arith in
    let k' : d.call_stack_top - 1 ≡ k = omega arith in
    let j' : d.sbuf_stack_top - 1 ≡ j = omega arith in
    simp (has_mapper, known, called, held_one, k', j', item, slot, run, at, non_null)

module _ (list_sort : (Hole → Hole → ℕ) → List Hole → List Hole) (sorts : ListSort list_sort) where
  list_sort-nil : list_sort cmp [] ≡ []
  list_sort-nil = Perm.eq-nil (sorts.perm cmp [])

  NoHoles-AllPlaced : (n : ℕ) (es : List Entry) → NoHoles n es → AllPlaced list_sort n es
  NoHoles-AllPlaced zero es p = tt
  NoHoles-AllPlaced (suc n) [] p = tt
  NoHoles-AllPlaced (suc n) (e ∷ es) p =
      let none_left : holes_of e ≡ [] = rw (p.0, holes_of) in
      (rw none_left (rw list_sort-nil (omega arith)), NoHoles-AllPlaced n es p.1)

  module _ {kmalloc : ℕ → ℕ → ℕ} {calls : ℕ} (heap : KernelHeap kmalloc calls) {d : Module}
      {regs : Regs} {plt : List Para} {func_name : Name} {r : Run (Exit × List Para × Module)}
      (e : Encrypted kmalloc calls d regs plt func_name r) (d2 : Module)
      (k : Keeps kmalloc e.d' d2) where
    blocks_same : AllSame e.d'.machine.mem d2.machine.mem e.sbuf.cur e.sbuf.slots
    blocks_same =
        KeepsBlocks-AllSame kmalloc e.d'.machine.allocs e.sbuf.cur e.sbuf.slots e.d'.machine.mem
          d2.machine.mem k.kept e.passed.valid.blocks

    -- What the buffer says of the byte at `a`, whatever the program wrote there.
    given_back :
        (a : ℕ)
        → a < user_end
        → read_back e.sbuf.cur e.sbuf.slots d2.machine.mem a
          ≡ (if held e.sbuf.cur e.sbuf.slots a then d.machine.mem a else d2.machine.mem a)
    given_back a low =
        read_back-held e.sbuf.cur e.sbuf.slots e.d'.machine.mem d2.machine.mem a e.passed.no_holes
          blocks_same
        ∙ elim (Bool-cases (held e.sbuf.cur e.sbuf.slots a)) [
          | inl h ↦ rw h (rw (← e.same_mem) (e.passed.recovers a low))
          | inr h ↦ rw h
        ]

    not_held :
        (a : ℕ) → (a < regs.sp + red_zone) ⊎ (regs.bp ≤ a) → held e.sbuf.cur e.sbuf.slots a ≡ false
    not_held a out = elim (Bool-cases (held e.sbuf.cur e.sbuf.slots a)) [
      | inr h ↦ h
      | inl h ↦ let inside = e.passed.in_stack a h in absurd (omega arith)
    ]

    -- No slot holds a byte of the kernel.
    kernel_same :
        (a : ℕ)
        → user_end ≤ a
        → read_back e.sbuf.cur e.sbuf.slots d2.machine.mem a ≡ d2.machine.mem a
    kernel_same a ge =
        read_back-held e.sbuf.cur e.sbuf.slots e.d'.machine.mem d2.machine.mem a e.passed.no_holes
          blocks_same
        ∙ rw (not_held a (inr (omega (arith, e.user))))

    -- The state that a handler leaves whose buffer's restoration gives `b'` and `m'`.
    abbrev popped : Sbuf → Mem → Module
    popped b' m' = record d2 {
      call_stack_top = d.call_stack_top;
      sbuf_stack_top = d.sbuf_stack_top;
      sbuf_stack = set d2.sbuf_stack d.sbuf_stack_top (live b');
      machine = set_mem (kfree e.csit.block (kfree e.csit.name_block d2.machine)) m';
    }

    popped-Keeps :
        (b' : Sbuf) (m' : Mem)
        → ((a : ℕ) → m' a ≡ read_back e.sbuf.cur e.sbuf.slots d2.machine.mem a)
        → Keeps kmalloc d (popped b' m')
    unfolding kfree
    popped-Keeps b' m' reads = record {
      init = k.init ∙ e.init;
      mapper = k.mapper ∙ e.mapper;
      call_top = refl;
      sbuf_top = refl;
      calls_below = λ i lt. k.calls_below i (omega (arith, e.call_top)) ∙ e.calls_below i lt;
      slots_below = λ i lt.
          get_elem?-set_ne d2.sbuf_stack i d.sbuf_stack_top _ (omega arith)
          ∙ k.slots_below i (omega (arith, e.sbuf_top))
          ∙ e.slots_below i lt;
      call_room = k.call_room ∙ e.call_room;
      slot_room = length-set d2.sbuf_stack d.sbuf_stack_top _ ∙ k.slot_room ∙ e.slot_room;
      allocs = omega (arith, k.allocs, e.allocs);
      kept = λ i size a lt le ge lt'.
          let high : user_end ≤ a =
            omega (arith, heap.kernel i size (omega (arith, e.allocs, e.within_calls)) le) in
          reads a
          ∙ kernel_same a high
          ∙ k.kept i size a (omega (arith, e.allocs)) le ge lt'
          ∙ e.kept i size a lt le ge lt';
    }

    -- If since the call of jsys_encrypt_stack the stacks were kept below their tops and the blocks were
    -- kept, jsys_decrypt_stack from a known function undoes that call.
    pub jsys_decrypt_stack-Decrypted :
        (regs' : Regs) (mapper : Mapper) (name : Name)
        → d.mapper ≡ some mapper
        → get_func_name mapper regs'.ip ≡ some name
        → Decrypted e d2 (jsys_decrypt_stack list_sort regs' d2)
    unfolding kfree
    jsys_decrypt_stack-Decrypted regs' mapper name has_mapper known =
        let (b', m', run, reads, unused, addr, cap, len) =
          restore_stack_buf_lem list_sort sorts 0 e.hi e.sbuf d2.machine.mem e.passed.valid.saved
            (NoHoles-AllPlaced e.sbuf.cur e.sbuf.slots e.passed.no_holes)
            (omega (arith, e.passed.valid.fits, e.passed.cap, e.small_cap)) in
        record {
          d'' = popped b' m';
          sbuf = b';
          returns =
              decrypt_runs list_sort d2 regs' mapper name e.csit e.sbuf b' m' d.call_stack_top
                d.sbuf_stack_top (k.mapper ∙ e.mapper ∙ has_mapper) known (k.call_top ∙ e.call_top)
                (k.calls_below d.call_stack_top (omega (arith, e.call_top)) ∙ e.call_item)
                (k.sbuf_top ∙ e.sbuf_top)
                (k.slots_below d.sbuf_stack_top (omega (arith, e.sbuf_top)) ∙ e.slot) run;
          restored = λ a ge lt free.
              reads a
              ∙ given_back a (omega (arith, e.user))
              ∙ rw (e.passed.holds a ge (omega (arith, e.reached)) lt free);
          outside = λ a low out. reads a ∙ given_back a low ∙ rw (not_held a out);
          shielded =
              λ a h above low. reads a ∙ given_back a low ∙ rw ((e.shielded a h above low).1);
          keeps = popped-Keeps b' m' reads;
          allocs = refl;
          slot =
              get_elem?-set_self d2.sbuf_stack d.sbuf_stack_top _
                (omega (arith, e.slot_in, k.slot_room));
          slots_above = λ i lt. get_elem?-set_ne d2.sbuf_stack i d.sbuf_stack_top _ (omega arith);
          unused = unused;
          cap = cap ∙ e.passed.cap;
          freed = refl;
        }
