-- ===== src/StackBuf/PastBlock.antt =====
-- restore_stack_buf on a buffer of two ranges, where the first slot's list has a hole that lies behind
-- the slot's block.
use mathlib.Core.List.{Perm, mem-cons, not-mem-nil, mem-cons_self}
use mathlib.Core.List.Perm
use mathlib.Core.Logic.Or
use native.Mathlib.Nat.{ℕ_set}
use cloud_memory_security.Base.{
  ℕ, ◌+◌, ◌^◌, ◌<◌, ◌≡◌, true, false, List, [], ◌∷◌, ◌==◌, add64, sub64, arith, refl, inl, inr, ltb,
  ◌||◌, oops, Bool-cases,
}
use cloud_memory_security.Memory.{Mem}
use cloud_memory_security.StackBuf.{
  Hole, ring, Entry, Sbuf, cmp, copy_back, restore_range, restore_slots, restore_stack_buf,
}

-- The buffer of two ranges.
abbrev pub two_ranges : (addr cap : ℕ) (e1 e2 : Entry) → List Entry → Sbuf
two_ranges addr cap e1 e2 es = record { addr = addr; slots = e1 ∷ e2 ∷ es; cur = 2; cap = cap }

Hole-set : IsSet Hole
Hole-set = hlevel (ℕ_set)

pub one_left : (h : Hole) (hs : List Hole) → Perm hs (h ∷ []) → hs ≡ h ∷ []
one_left h [] p = cc (Perm.nil-eq p)
one_left h (x ∷ []) p =
    let same : x ≡ h =
      Or.elim (Hole-set x h) (mem-cons.0 (Perm.subset p x mem-cons_self)) (λ e. e)
        (λ m. absurd (not-mem-nil m)) in
    rw same
one_left h (x ∷ y ∷ hs) p = cc (Perm.length-eq p)

-- The write-back of a range whose only hole lies `gap` bytes behind its block's start, further than the
-- block goes: what is left behind the hole has a negative length.
pub past_block :
    (m : Mem) (to from stop gap start : ℕ)
    → start ≡ from + gap
    → 0 < gap
    → from + gap + 8 < 2 ^ 64
    → 0 < stop
    → stop < start + 8
    → restore_range m to from stop (record { start = start; len = 8 } ∷ []) ≡ oops
unfolding restore_range copy_back
past_block m to from stop gap start at pos top some_block behind =
    let len : sub64 start from ≡ gap = omega arith in
    let some_bytes : (gap == 0) ≡ false = ground arith in
    let next : add64 start 8 ≡ start + 8 = omega arith in
    let wrapped : ltb (2 ^ 64) (start + 8 + sub64 stop (start + 8)) ≡ true = ground arith in
    rw len (
      rw some_bytes (elim (Bool-cases (ltb (2 ^ 64) (from + gap) || ltb (2 ^ 64) (to + gap))) [
        | inl first ↦ rw first refl
        | inr below ↦ rw below (rw next (rw wrapped refl))
      ]))

pub restored_two :
    (list_sort : (Hole → Hole → ℕ) → List Hole → List Hole) (addr cap : ℕ) (e1 e2 : Entry)
    (es : List Entry) (hs hs' : List Hole) (m : Mem)
    → list_sort cmp hs ≡ hs'
    → restore_range m e1.start e1.buf (add64 e1.buf e1.len) hs' ≡ oops
    → restore_stack_buf list_sort (two_ranges addr cap (record e1 { hole_list = ring hs }) e2 es) m
      ≡ oops
unfolding restore_stack_buf restore_slots
restored_two list_sort addr cap e1 e2 es hs hs' m sorted fails = rw sorted (rw fails refl)
