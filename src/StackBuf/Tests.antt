-- ===== src/StackBuf/Tests.antt =====
-- The theorems on stack buffers, at concrete inputs.
use mathlib.Core.List.{mem-cons, not-mem-nil}
use mathlib.Core.Logic.Or
use native.Mathlib.Bridge.{le_prop}
use cloud_memory_security.Base.{
  ℕ, ◌+◌, ◌^◌, ◌≤◌, ◌<◌, ◌≡◌, refl, List, [], ◌∷◌, arith, length, ok, oops, success,
}
use cloud_memory_security.Memory.{Mem as Memory, Machine, alloc, kfree}
use cloud_memory_security.StackBuf.{
  Hole, ring, Sbuf, cmp, put_slot, copy_slots, grow, insert_entry, copy_stack_buf,
  restore_stack_buf,
}
use cloud_memory_security.StackBuf.Holes.{IsPlaced}
use cloud_memory_security.StackBuf.Sorting.{InBlock, ListSort-IsPlaced}
use cloud_memory_security.StackBuf.Saved.{read_back}
use cloud_memory_security.StackBuf.Copy.{Copies, copy_stack_buf-Copies}
use cloud_memory_security.StackBuf.Grown.{restore_stack_buf-copy_stack_buf_full}
use cloud_memory_security.StackBuf.Restore.{AllPlaced, restore_stack_buf_lem}
use cloud_memory_security.StackBuf.InsertionSort.{
  insert, insertion_sort, insertion_sort-ListSort, bump, bump-KernelHeap,
}

abbrev sevens : Machine
sevens = record { mem = λ a. 7; allocs = 1; freed = [] }

abbrev empty_buf : Sbuf
empty_buf = record { addr = 2 ^ 47; slots = []; cur = 0; cap = 4 }

copy_stack_buf-Copies_example :
    Copies bump sevens empty_buf 3000 8 (copy_stack_buf bump empty_buf sevens 3000 8)
copy_stack_buf-Copies_example =
    copy_stack_buf-Copies bump (2 ^ 20) bump-KernelHeap sevens empty_buf 0 3000 8
      (record { written = omega arith; fits = omega arith; saved = omega arith; blocks = tt })
      (omega arith) (omega arith) (omega arith) (omega arith) (omega arith) (omega arith)

abbrev hole : ℕ → ℕ → Hole
hole start len = record { start = start; len = len }

abbrev at_block : ℕ → ℕ → Hole
at_block offset len = hole (2 ^ 47 + offset) len

abbrev saved_buf : Sbuf
saved_buf = record {
  addr = 2 ^ 47;
  slots =
      record {
        buf = 2 ^ 47 + 2 ^ 22;
        start = 3000;
        len = 8;
        hole_list = ring (at_block (2 ^ 22 + 2) 3 ∷ []);
      }
      ∷ [];
  cur = 1;
  cap = 4;
}

saved_buf-AllPlaced : AllPlaced insertion_sort 1 saved_buf.slots
unfolding insertion_sort insert
saved_buf-AllPlaced = ((omega arith, omega arith), tt)

restore_stack_buf_lem_example :
    (sbuf' : Sbuf) × (m' : Memory) × (restore_stack_buf insertion_sort saved_buf (λ a. a)
      ≡ ok (sbuf', m'))
    × ((a : ℕ) → m' a ≡ read_back 1 saved_buf.slots (λ a. a) a)
    × (sbuf'.cur ≡ 0)
    × (sbuf'.addr ≡ 2 ^ 47)
    × (sbuf'.cap ≡ 4)
    × (length sbuf'.slots ≡ 1)
restore_stack_buf_lem_example =
    restore_stack_buf_lem insertion_sort insertion_sort-ListSort 0 4000 saved_buf (λ a. a)
      (
        record {
          has_ring = refl;
          above = omega arith;
          user = omega arith;
          kernel = omega arith;
          top = omega arith;
        },
        omega arith,
      )
      saved_buf-AllPlaced (omega arith)

InBlock-cons :
    (lo hi : ℕ) (x : Hole) (hs : List Hole)
    → (lo ≤ x.start) × (x.start + x.len ≤ hi) × (0 < x.len)
    → InBlock lo hi hs
    → InBlock lo hi (x ∷ hs)
InBlock-cons lo hi x hs p q h m = (
  Or.elim le_prop (mem-cons.0 m) (λ e. rw e (p.0)) (λ m'. (q h m').0),
  Or.elim le_prop (mem-cons.0 m) (λ e. rw e (p.1)) (λ m'. (q h m').1),
  Or.elim le_prop (mem-cons.0 m) (λ e. rw e (p.2)) (λ m'. (q h m').2),
)

two_holes-InBlock : InBlock 40 80 (hole 60 4 ∷ hole 50 8 ∷ [])
two_holes-InBlock =
    InBlock-cons 40 80 (hole 60 4) (hole 50 8 ∷ []) (omega arith, omega arith, omega arith)
      (InBlock-cons 40 80 (hole 50 8) [] (omega arith, omega arith, omega arith)
        (λ h m. absurd (not-mem-nil m)))

ListSort-IsPlaced_example : IsPlaced 40 80 (insertion_sort cmp (hole 60 4 ∷ hole 50 8 ∷ []))
ListSort-IsPlaced_example =
    ListSort-IsPlaced insertion_sort-ListSort 40 80 (hole 60 4 ∷ hole 50 8 ∷ []) (omega arith)
      (omega arith) (omega arith) two_holes-InBlock (λ p. ground arith)

-- The array is full.
abbrev full_buf : Sbuf
full_buf = record {
  addr = 2 ^ 47;
  slots = record { buf = 2 ^ 47 + 2 ^ 22; start = 3000; len = 8; hole_list = ring [] } ∷ [];
  cur = 1;
  cap = 1;
}

grows :
    (sbuf' : Sbuf) × (s' : Machine) × (copy_stack_buf bump full_buf
        (record sevens { allocs = 2 })
        3008
        8
      ≡ ok (success, sbuf', s'))
unfolding copy_stack_buf grow copy_slots insert_entry alloc put_slot kfree
grows = (_, _, refl)

restore_stack_buf-copy_stack_buf_full_example :
    restore_stack_buf insertion_sort grows.0 (λ a. 7) ≡ oops
restore_stack_buf-copy_stack_buf_full_example =
    restore_stack_buf-copy_stack_buf_full bump insertion_sort full_buf grows.0
      (record sevens { allocs = 2 }) grows.1 3008 8 (λ a. 7) refl (omega arith) (omega arith)
      grows.2
