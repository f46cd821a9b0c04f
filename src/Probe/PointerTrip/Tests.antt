-- ===== src/Probe/PointerTrip/Tests.antt =====
-- The theorems on pointer parameters, at a concrete input: the frame of the caller has a pointer at its
-- fifth byte, which leads to four bytes further up in the frame.
use cloud_memory_security.Base.{
  ℕ, ◌+◌, ◌^◌, ◌≤◌, ◌≡◌, refl, true, List, [], ◌∷◌, none, some, arith, ltb, leb, ◌==◌,
  if◌then◌else◌,
}
use cloud_memory_security.Cipher.Bytes.{UserBytes}
use cloud_memory_security.Memory.{Mem, load64, user_end}
use cloud_memory_security.StackBuf.{Sbuf}
use cloud_memory_security.StackBuf.Sorting.{covers}
use cloud_memory_security.StackBuf.InsertionSort.{
  insertion_sort, insertion_sort-ListSort, bump, bump-KernelHeap,
}
use cloud_memory_security.Elf.{missing}
use cloud_memory_security.Probe.{
  Module, Regs, red_zone, resumed, jsys_encrypt_stack, jsys_decrypt_stack,
}
use cloud_memory_security.Probe.Paras.{Para, contains}
use cloud_memory_security.Probe.Nested.{Nested, write, pointer_call, jsys_decrypt_stack-Returned}
use cloud_memory_security.Probe.PointerTrip.{Returned, jsys_decrypt_stack-Shown}
use cloud_memory_security.Probe.Pointers.Exposed.{exposed, AllChained}
use cloud_memory_security.Probe.Samples.{main_name, one_symbol, known_example, callee_known}
use cloud_memory_security.Probe.Scan.{live}
use cloud_memory_security.Probe.Shown.{Declares, Shown, jsys_encrypt_stack-Shown}

-- 2876 holds the address 2888.
abbrev frame_mem : Mem
frame_mem a =
    if a == 2876
    then 72
    else if a == 2877
    then 11
    else if leb 2878 a
    then (if ltb a 2884 then 0 else 7)
    else 7

frame_loads : load64 frame_mem 2876 ≡ 2888
unfolding load64
frame_loads = refl

abbrev empty_buf : Sbuf
empty_buf = record { addr = 2 ^ 47 + 2 ^ 23; slots = []; cur = 0; cap = 4 }

abbrev idle : Module
idle = record {
  call_stack_top = 0;
  call_stack = none ∷ none ∷ [];
  mapper = some one_symbol;
  sbuf_stack_top = 0;
  sbuf_stack = live empty_buf ∷ [];
  init = true;
  machine = record { mem = frame_mem; allocs = 3; freed = [] };
}

abbrev caller_regs : Regs
caller_regs = record { sp = 1000; ip = 4100; bp = 1000 + red_zone + 32 }

abbrev pointers : List Para
pointers = record { addr = 2876; size = 4; pointer = 1 } ∷ []

pointers-values : (i : ℕ) → 1000 + red_zone ≤ i → i ≤ 1000 + red_zone + 32 → contains i pointers ≡ 0
unfolding contains
pointers-values i ge le = ground arith

pointers-AllChained : AllChained frame_mem (1000 + red_zone) (1000 + red_zone + 32) pointers
pointers-AllChained = rw frame_loads (omega arith, (refl, tt), omega arith, omega arith, tt)

pointers_once :
    (a : ℕ) → covers (exposed frame_mem (1000 + red_zone) (1000 + red_zone + 32) pointers) a ≤ 1
pointers_once a = rw frame_loads (ground arith)

frame-UserBytes : UserBytes frame_mem
frame-UserBytes a low = ground arith

abbrev pointers-Declares : Declares (2 ^ 20) idle caller_regs pointers 40
pointers-Declares = record {
  ready = record {
    mapper = one_symbol;
    func_name = main_name;
    sbuf = empty_buf;
    is_init = refl;
    has_mapper = refl;
    known = known_example;
    short = omega arith;
    order = omega arith;
    user = omega arith;
    small = omega arith;
    call_room = omega arith;
    caller = λ lt. absurd (omega arith);
    slot_room = omega arith;
    slot = refl;
    unused = refl;
    capacity = omega arith;
    small_cap = omega arith;
    left = omega arith;
    values = refl;
    no_wrap = tt;
    enough = omega arith;
  };
  pointers = refl;
  no_values = pointers-values;
  not_empty = omega arith;
  bytes = frame-UserBytes;
  chained = pointers-AllChained;
  once = pointers_once;
  enough = omega arith;
}

abbrev after_call :
    Shown bump
      (2 ^ 20)
      bump-KernelHeap
      idle
      caller_regs
      pointers
      40
      pointers-Declares
      (jsys_encrypt_stack bump missing 40 caller_regs pointers idle)
after_call =
    jsys_encrypt_stack-Shown bump (2 ^ 20) bump-KernelHeap idle caller_regs pointers 40
      pointers-Declares missing

jsys_encrypt_stack-Shown_example :
    Shown bump
      (2 ^ 20)
      bump-KernelHeap
      idle
      caller_regs
      pointers
      40
      pointers-Declares
      (jsys_encrypt_stack bump missing 40 caller_regs pointers idle)
jsys_encrypt_stack-Shown_example =
    jsys_encrypt_stack-Shown bump (2 ^ 20) bump-KernelHeap idle caller_regs pointers 40
      pointers-Declares missing

-- The callee has filled user memory with 9.
abbrev callee_mem : Mem
callee_mem a = if ltb a user_end then 9 else after_call.d'.machine.mem a

abbrev callee_regs : Regs
callee_regs = record { sp = 500; ip = 4110; bp = 900 }

jsys_decrypt_stack-Shown_example :
    Returned idle caller_regs pointers callee_mem
      (jsys_decrypt_stack insertion_sort callee_regs (resumed after_call.d' callee_mem))
jsys_decrypt_stack-Shown_example =
    jsys_decrypt_stack-Shown bump (2 ^ 20) bump-KernelHeap insertion_sort insertion_sort-ListSort
      idle caller_regs pointers 40 pointers-Declares after_call.d' callee_regs missing main_name
      callee_mem after_call.returns (λ p ge. ground arith) callee_known

callee_run : Nested bump (2 ^ 20) insertion_sort after_call.d' (resumed after_call.d' callee_mem)
callee_run = write callee_mem after_call.within_calls (λ p ge. ground arith)

jsys_decrypt_stack-Returned_example :
    Returned idle caller_regs pointers callee_mem
      (jsys_decrypt_stack insertion_sort callee_regs (resumed after_call.d' callee_mem))
jsys_decrypt_stack-Returned_example =
    jsys_decrypt_stack-Returned bump (2 ^ 20) insertion_sort bump-KernelHeap insertion_sort-ListSort
      caller_regs callee_regs pointers 40 missing main_name pointers-Declares after_call.returns
      callee_run callee_known

-- The whole call is a run.
call_over : (d3 : Module) × Nested bump (2 ^ 20) insertion_sort idle d3
call_over =
    let u =
      jsys_decrypt_stack-Shown bump (2 ^ 20) bump-KernelHeap insertion_sort insertion_sort-ListSort
        idle caller_regs pointers 40 pointers-Declares after_call.d' callee_regs missing main_name
        callee_mem after_call.returns (λ p ge. ground arith) callee_known in
    (
      u.d'',
      pointer_call caller_regs callee_regs pointers 40 missing main_name pointers-Declares
          after_call.returns callee_run callee_known u.returns,
    )
