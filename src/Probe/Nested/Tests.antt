-- ===== src/Probe/Nested/Tests.antt =====
-- The theorems on nested calls, at a concrete input: while one frame is hidden, a function that is
-- called hides another, and both write to memory.
use cloud_memory_security.Base.{
  ℕ, zero, suc, ◌+◌, ◌*◌, ◌^◌, ◌≤◌, ◌<◌, refl, true, [], ◌∷◌, none, some, arith, ltb, if◌then◌else◌,
}
use cloud_memory_security.Memory.{Mem, user_end}
use cloud_memory_security.StackBuf.{Sbuf}
use cloud_memory_security.StackBuf.InsertionSort.{
  insertion_sort, insertion_sort-ListSort, bump, bump-KernelHeap,
}
use cloud_memory_security.Elf.{missing}
use cloud_memory_security.Probe.{
  Module, Regs, red_zone, resumed, jsys_encrypt_stack, jsys_decrypt_stack,
}
use cloud_memory_security.Probe.Samples.{main_name, one_symbol, known_example, callee_known}
use cloud_memory_security.Probe.Scan.{live}
use cloud_memory_security.Probe.Encrypt.{Ready, Encrypted, jsys_encrypt_stack-Encrypted}
use cloud_memory_security.Probe.Keeps.{Keeps}
use cloud_memory_security.Probe.RoundTrip.{Undone}
use cloud_memory_security.Probe.SetUp.{
  IsFree, IsSetUp, IsCall, IsSetUp-Ready, Encrypted-Pushes, Pushes-IsSetUp,
}
use cloud_memory_security.Probe.Nested.{
  Decrypted, Nested, write, call, undo, Nested-Keeps, Nested-IsSetUp, jsys_decrypt_stack-Nested,
}

abbrev free_buf : ℕ → Sbuf
free_buf addr = record { addr = addr; slots = []; cur = 0; cap = 32 }

abbrev idle : Module
idle = record {
  call_stack_top = 0;
  call_stack = none ∷ none ∷ [];
  mapper = some one_symbol;
  sbuf_stack_top = 0;
  sbuf_stack = live (free_buf (2 ^ 47 + 2 ^ 23)) ∷ live (free_buf (2 ^ 47 + 3 * 2 ^ 22)) ∷ [];
  init = true;
  machine = record { mem = λ a. 7; allocs = 4; freed = [] };
}

idle-IsFree : (i : ℕ) → 0 ≤ i → i < 2 → IsFree idle i
idle-IsFree zero le lt = (free_buf (2 ^ 47 + 2 ^ 23), refl, refl, refl)
idle-IsFree (suc zero) le lt = (free_buf (2 ^ 47 + 3 * 2 ^ 22), refl, refl, refl)
idle-IsFree (suc (suc i)) le lt = absurd (omega arith)

idle-IsSetUp : IsSetUp one_symbol idle
idle-IsSetUp = record {
  is_init = refl;
  has_mapper = refl;
  called = λ i lt. absurd (omega arith);
  free = idle-IsFree;
}

abbrev outer_regs : Regs
outer_regs = record { sp = 1000; ip = 4100; bp = 1000 + red_zone + 12 }

abbrev inner_regs : Regs
inner_regs = record { sp = 500; ip = 4110; bp = 500 + red_zone + 4 }

outer-IsCall : IsCall (2 ^ 20) idle outer_regs [] 20 one_symbol
outer-IsCall = record {
  func_name = main_name;
  known = known_example;
  short = omega arith;
  order = omega arith;
  user = omega arith;
  small = omega arith;
  call_room = omega arith;
  slot_room = omega arith;
  few = omega arith;
  left = omega arith;
  values = refl;
  no_wrap = tt;
  enough = omega arith;
}

abbrev outer : Ready (2 ^ 20) idle outer_regs [] 20
outer = IsSetUp-Ready (2 ^ 20) idle outer_regs [] 20 one_symbol idle-IsSetUp outer-IsCall

abbrev hidden :
    Encrypted bump
      (2 ^ 20)
      idle
      outer_regs
      []
      outer.func_name
      (jsys_encrypt_stack bump missing 20 outer_regs [] idle)
hidden =
    jsys_encrypt_stack-Encrypted bump (2 ^ 20) bump-KernelHeap idle outer_regs [] 20 outer missing

inner-IsCall : IsCall (2 ^ 20) hidden.d' inner_regs [] 20 one_symbol
inner-IsCall = record {
  func_name = main_name;
  known = callee_known;
  short = omega arith;
  order = omega arith;
  user = omega arith;
  small = omega arith;
  call_room = omega (arith, hidden.call_top, hidden.call_room);
  slot_room = omega (arith, hidden.sbuf_top, hidden.slot_room);
  few = omega arith;
  left = ground (arith, hidden.few_allocs, hidden.old_slot);
  values = refl;
  no_wrap = tt;
  enough = omega arith;
}

abbrev inner : Ready (2 ^ 20) hidden.d' inner_regs [] 20
inner =
    IsSetUp-Ready (2 ^ 20) hidden.d' inner_regs [] 20 one_symbol
      (Pushes-IsSetUp (Encrypted-Pushes hidden) idle-IsSetUp) inner-IsCall

abbrev hidden_twice :
    Encrypted bump
      (2 ^ 20)
      hidden.d'
      inner_regs
      []
      inner.func_name
      (jsys_encrypt_stack bump missing 20 inner_regs [] hidden.d')
hidden_twice =
    jsys_encrypt_stack-Encrypted bump (2 ^ 20) bump-KernelHeap hidden.d' inner_regs [] 20 inner
      missing

-- The function in the middle fills user memory with 9.
abbrev nines : Mem
nines a = if ltb a user_end then 9 else hidden_twice.d'.machine.mem a

inner_run : Nested bump (2 ^ 20) insertion_sort hidden_twice.d' (resumed hidden_twice.d' nines)
inner_run = write nines hidden_twice.within_calls (λ p ge. ground arith)

abbrev given_back :
    Decrypted hidden_twice
      (resumed hidden_twice.d' nines)
      (jsys_decrypt_stack insertion_sort inner_regs (resumed hidden_twice.d' nines))
given_back =
    undo bump (2 ^ 20) insertion_sort bump-KernelHeap insertion_sort-ListSort inner_regs inner_regs
      [] 20 missing main_name inner hidden_twice.returns
      (Nested-Keeps bump (2 ^ 20) insertion_sort bump-KernelHeap insertion_sort-ListSort inner_run)
      callee_known

abbrev middle_run : Nested bump (2 ^ 20) insertion_sort hidden.d' given_back.d''
middle_run =
    call inner_regs inner_regs [] 20 missing main_name inner hidden_twice.returns inner_run
      callee_known given_back.returns

Nested-Keeps_example : Keeps bump hidden.d' given_back.d''
Nested-Keeps_example =
    Nested-Keeps bump (2 ^ 20) insertion_sort bump-KernelHeap insertion_sort-ListSort middle_run

Nested-IsSetUp_example : IsSetUp one_symbol given_back.d''
Nested-IsSetUp_example =
    Nested-IsSetUp bump (2 ^ 20) insertion_sort bump-KernelHeap insertion_sort-ListSort middle_run
      (Pushes-IsSetUp (Encrypted-Pushes hidden) idle-IsSetUp)

jsys_decrypt_stack-Nested_example :
    Undone idle outer_regs [] given_back.d''.machine.mem
      (jsys_decrypt_stack insertion_sort outer_regs given_back.d'')
jsys_decrypt_stack-Nested_example =
    jsys_decrypt_stack-Nested bump (2 ^ 20) insertion_sort bump-KernelHeap insertion_sort-ListSort
      outer_regs outer_regs [] 20 missing main_name outer hidden.returns middle_run known_example
