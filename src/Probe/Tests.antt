-- ===== src/Probe/Tests.antt =====
-- The theorems on the probes, at concrete inputs: a function of a program with one symbol is called
-- with a parameter in the middle of its caller's stack frame of 12 bytes.
use cloud_memory_security.Base.{
  ℕ, ◌+◌, ◌-◌, ◌^◌, ◌≤◌, ◌<◌, ◌≡◌, ◌≢◌, refl, inr, true, List, [], ◌∷◌, none, some, arith, ok, ltb,
  if◌then◌else◌,
}
use cloud_memory_security.Memory.{Mem, Machine, user_end}
use cloud_memory_security.StackBuf.{Sbuf}
use cloud_memory_security.StackBuf.InsertionSort.{
  insertion_sort, insertion_sort-ListSort, bump, bump-KernelHeap,
}
use cloud_memory_security.Elf.{missing}
use cloud_memory_security.Probe.{
  resumed, Module, Regs, red_zone, jsys_encrypt_stack, jsys_decrypt_stack,
}
use cloud_memory_security.Probe.Paras.{Para, contains}
use cloud_memory_security.Probe.Samples.{main_name, one_symbol, known_example, callee_known}
use cloud_memory_security.Probe.Scan.{live, flush, scan}
use cloud_memory_security.Probe.Clearing.{scan-Passed}
use cloud_memory_security.Probe.Passed.{Passed, ScanEnds}
use cloud_memory_security.Probe.Encrypt.{Ready, Encrypted, jsys_encrypt_stack-Encrypted}
use cloud_memory_security.Probe.RoundTrip.{Undone, jsys_decrypt_stack-jsys_encrypt_stack}
use cloud_memory_security.Probe.Faults.{scan_wraps, flush_loses}

abbrev empty_buf : Sbuf
empty_buf = record { addr = 2 ^ 47 + 2 ^ 23; slots = []; cur = 0; cap = 4 }

abbrev idle : Module
idle = record {
  call_stack_top = 0;
  call_stack = none ∷ none ∷ [];
  mapper = some one_symbol;
  sbuf_stack_top = 0;
  sbuf_stack = live empty_buf ∷ [];
  init = true;
  machine = record { mem = λ a. 7; allocs = 3; freed = [] };
}

abbrev caller_regs : Regs
caller_regs = record { sp = 1000; ip = 4100; bp = 1000 + red_zone + 12 }

abbrev middle : List Para
middle = record { addr = 1000 + red_zone + 4; size = 2; pointer = 0 } ∷ []

abbrev idle-Ready : Ready (2 ^ 20) idle caller_regs middle 20
idle-Ready = record {
  mapper = one_symbol;
  func_name = main_name;
  sbuf = empty_buf;
  is_init = refl;
  has_mapper = refl;
  known = known_example;
  short = omega arith;
  order = omega arith;
  user = omega arith;
  small = omega arith;
  call_room = omega arith;
  caller = λ lt. absurd (omega arith);
  slot_room = omega arith;
  slot = refl;
  unused = refl;
  capacity = omega arith;
  small_cap = omega arith;
  left = omega arith;
  values = refl;
  no_wrap = (omega arith, tt);
  enough = omega arith;
}

jsys_encrypt_stack-Encrypted_example :
    Encrypted bump
      (2 ^ 20)
      idle
      caller_regs
      middle
      main_name
      (jsys_encrypt_stack bump missing 20 caller_regs middle idle)
jsys_encrypt_stack-Encrypted_example =
    jsys_encrypt_stack-Encrypted bump (2 ^ 20) bump-KernelHeap idle caller_regs middle 20 idle-Ready
      missing

abbrev encrypted :
    Encrypted bump
      (2 ^ 20)
      idle
      caller_regs
      middle
      main_name
      (jsys_encrypt_stack bump missing 20 caller_regs middle idle)
encrypted =
    jsys_encrypt_stack-Encrypted bump (2 ^ 20) bump-KernelHeap idle caller_regs middle 20 idle-Ready
      missing

-- The callee has filled user memory with 9.
abbrev callee_mem : Mem
callee_mem a = if ltb a user_end then 9 else encrypted.d'.machine.mem a

abbrev callee_regs : Regs
callee_regs = record { sp = 500; ip = 4110; bp = 900 }

jsys_decrypt_stack-jsys_encrypt_stack_example :
    Undone idle caller_regs middle callee_mem
      (jsys_decrypt_stack insertion_sort callee_regs (resumed encrypted.d' callee_mem))
jsys_decrypt_stack-jsys_encrypt_stack_example =
    jsys_decrypt_stack-jsys_encrypt_stack bump (2 ^ 20) bump-KernelHeap insertion_sort
      insertion_sort-ListSort idle encrypted.d' caller_regs callee_regs middle 20 idle-Ready missing
      main_name callee_mem encrypted.returns (λ p ge. ground arith) callee_known

-- Nothing of the frame is handled yet.
idle-Passed :
    Passed bump middle
      (1000 + red_zone)
      (1000 + red_zone + 12)
      empty_buf
      idle.machine
      (1000 + red_zone)
      empty_buf
      idle.machine
idle-Passed = record {
  valid = record { written = omega arith; fits = omega arith; saved = omega arith; blocks = tt };
  addr = refl;
  cap = refl;
  freed = refl;
  allocs = refl;
  kept = λ i size a lt le ge lt'. refl;
  cur = omega arith;
  no_holes = tt;
  recovers = λ a low. refl;
  cleared = λ a ge lt. absurd (omega arith);
  holds = λ a ge lt. absurd (omega arith);
  in_stack = λ a h. cc;
  outside = λ a low out. refl;
  pending = λ a low ge. refl;
}

scan-Passed_example :
    ScanEnds bump middle
      (1000 + red_zone)
      (1000 + red_zone + 12)
      empty_buf
      idle.machine
      (1000 + red_zone)
      (1000 + red_zone)
      empty_buf
      idle.machine
      (scan bump
        (1000 + red_zone + 12)
        middle
        20
        (1000 + red_zone)
        (1000 + red_zone)
        (live empty_buf)
        idle.machine)
scan-Passed_example =
    scan-Passed bump middle (1000 + red_zone) (1000 + red_zone + 12) empty_buf idle.machine (2 ^ 20)
      bump-KernelHeap (omega arith) (omega arith) (omega arith) (omega arith) 20 (1000 + red_zone)
      (1000 + red_zone) empty_buf idle.machine idle-Passed (omega arith, tt) (omega arith)
      (omega arith) (inr refl) (omega arith) (omega arith) (omega arith)

-- A parameter that takes the loop back by 5 bytes.
abbrev wrapping : List Para
wrapping = record { addr = 2990; size = 2 ^ 64 - 5; pointer = 0 } ∷ []

wrapping_back : contains 2990 wrapping ≡ 2 ^ 64 - 5
unfolding contains
wrapping_back = refl

wrapping_between : (j : ℕ) → 2990 ≤ j + 5 → j < 2990 → contains j wrapping ≡ 0
unfolding contains
wrapping_between j lo hi = ground arith

scan_wraps_example :
    scan bump 3000 wrapping 100 2990 2990 (live empty_buf) idle.machine
    ≢ ok (live empty_buf, idle.machine)
scan_wraps_example =
    scan_wraps bump 3000 2990 5 wrapping (omega arith) (omega arith) (omega arith) (omega arith)
      wrapping_back wrapping_between 100 2990 2990 (live empty_buf) idle.machine
      (live empty_buf, idle.machine) (omega arith) (omega arith)

abbrev full_buf : Sbuf
full_buf = record { addr = 2 ^ 47; slots = []; cur = 0; cap = 0 }

flush_loses_example :
    (s' : Machine) × (flush (λ i size. 0) 3000 3008 (live full_buf) idle.machine
      ≡ ok (live full_buf, s'))
    × ((a : ℕ) → 3000 ≤ a → a < 3008 → s'.mem a ≡ b'0')
flush_loses_example =
    flush_loses (λ i size. 0) 3000 3008 full_buf idle.machine (omega arith) refl refl
