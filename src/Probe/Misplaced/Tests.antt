-- ===== src/Probe/Misplaced/Tests.antt =====
-- A hole in the wrong list, at a concrete input: two ranges of 8 and 16 bytes with 4 bytes between them,
-- and a pointer in the second.
use cloud_memory_security.Base.{◌+◌, ◌^◌, ◌≡◌, refl, [], ◌∷◌, none, arith, ok, oops, success}
use cloud_memory_security.Memory.{Mem, Machine, load64}
use cloud_memory_security.StackBuf.{ring, Entry, Sbuf, restore_stack_buf}
use cloud_memory_security.StackBuf.InsertionSort.{insertion_sort, insertion_sort-ListSort, bump}
use cloud_memory_security.StackBuf.PastBlock.{two_ranges}
use cloud_memory_security.Probe.Paras.{Para, find_in_stack_buf}
use cloud_memory_security.Probe.Pointers.{restore_pointers}
use cloud_memory_security.Probe.Misplaced.{InSecond, restore_stack_buf-restore_pointers}

abbrev first_range : Entry
first_range = record { buf = 2 ^ 47; start = 3000; len = 8; hole_list = ring [] }

abbrev second_range : Entry
second_range = record { buf = 2 ^ 47 + 64; start = 3012; len = 16; hole_list = ring [] }

abbrev pointer : Para
pointer = record { addr = 3016; size = 4; pointer = 1 }

pointer-InSecond : InSecond first_range second_range pointer
pointer-InSecond = record {
  ring1 = refl;
  ring2 = refl;
  order = omega arith;
  user = omega arith;
  kernel = omega arith;
  blocks = omega arith;
  top = omega arith;
  not_empty = omega arith;
  level = refl;
  cell = omega arith;
  cell_end = omega arith;
}

abbrev sevens : Machine
sevens = record { mem = λ a. 7; allocs = 3; freed = [] }

abbrev later_mem : Mem
later_mem a = a

leads_out :
    find_in_stack_buf
      (load64 sevens.mem (2 ^ 47 + 68))
      4
      (two_ranges (2 ^ 46) 4 first_range second_range [])
    ≡ none
unfolding find_in_stack_buf load64
leads_out = refl

restore_stack_buf-restore_pointers_example :
    (b : Sbuf) × (s' : Machine) × (restore_pointers bump
        (pointer ∷ [])
        (two_ranges (2 ^ 46) 4 first_range second_range [])
        sevens
      ≡ ok (success, record { addr = 3016; size = 4; pointer = 0 } ∷ [], b, s'))
    × (restore_stack_buf insertion_sort b later_mem ≡ oops)
restore_stack_buf-restore_pointers_example =
    restore_stack_buf-restore_pointers insertion_sort insertion_sort-ListSort bump (2 ^ 46) 4
      first_range second_range [] pointer pointer-InSecond sevens later_mem (omega arith)
      (λ b. omega arith) leads_out
