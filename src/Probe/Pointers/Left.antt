-- ===== src/Probe/Pointers/Left.antt =====
-- The holes that restore_pointers leaves in the saved block, and the write-back between them.
use mathlib.Core.List.{mem-cons, not-mem-nil}
use mathlib.Core.Logic.Or
use native.Mathlib.Bridge.{le_prop}
use cloud_memory_security.Base.{
  ℕ, ◌+◌, ◌-◌, ◌≤◌, ◌≡◌, refl, ◌∙◌, ◌&&◌, List, [], ◌∷◌, not, leb, if◌then◌else◌, arith, ok,
}
use cloud_memory_security.Memory.{Mem, within}
use cloud_memory_security.Memory.Alloc.{max_block}
use cloud_memory_security.StackBuf.{Hole, ring, Sbuf, cmp, restore_stack_buf}
use cloud_memory_security.StackBuf.Holes.{in_hole, IsPlaced}
use cloud_memory_security.StackBuf.Saved.{read_back, IsSaved}
use cloud_memory_security.StackBuf.Sorting.{ListSort, covers, InBlock, ListSort-IsPlaced}
use cloud_memory_security.StackBuf.Restore.{restore_stack_buf_lem}
use cloud_memory_security.Probe.Pointers.Exposed.{AllInside}
use cloud_memory_security.Probe.Pointers.Follow.{SavedStack, moved, buffer, Backs}

module _ (f : SavedStack) where
  open f use {m0, lo, hi, buf, order, top, kernel, room}

  covers-moved :
      (hs : List Hole) (p : ℕ)
      → AllInside m0 lo hi hs
      → covers (moved f hs) p ≡ (if leb buf p then covers hs (lo + (p - buf)) else 0)
  covers-moved [] p parts = ground arith
  covers-moved (h ∷ hs) p parts = ground (arith, parts.0, covers-moved hs p parts.2)

  in_hole-moved :
      (hs : List Hole) (a : ℕ)
      → AllInside m0 lo hi hs
      → lo ≤ a
      → in_hole (moved f hs) (buf + (a - lo)) ≡ in_hole hs a
  in_hole-moved [] a parts le = refl
  in_hole-moved (h ∷ hs) a parts le = ground (arith, parts.0, in_hole-moved hs a parts.2 le)

  moved-InBlock :
      (hs : List Hole) → AllInside m0 lo hi hs → InBlock buf (buf + (hi - lo)) (moved f hs)
  moved-InBlock [] parts h m = absurd (not-mem-nil m)
  moved-InBlock (x ∷ hs) parts h m =
      Or.elim (hlevel (le_prop)) (mem-cons.0 m) (λ e. rw e (ground (arith, parts.0, parts.1)))
        (λ m'. moved-InBlock hs parts.2 h m')

  moved-IsPlaced :
      {list_sort : (Hole → Hole → ℕ) → List Hole → List Hole} (sorts : ListSort list_sort)
      (hs : List Hole)
      → hi ≤ lo + max_block
      → AllInside m0 lo hi hs
      → ((a : ℕ) → covers hs a ≤ 1)
      → IsPlaced buf (buf + (hi - lo)) (list_sort cmp (moved f hs))
  moved-IsPlaced sorts hs small parts once =
      ListSort-IsPlaced sorts buf (buf + (hi - lo)) (moved f hs) (omega arith) (omega arith)
        (omega arith) (moved-InBlock hs parts)
        (λ p. ground (arith, covers-moved hs p parts, once (lo + (p - buf))))

  -- After the restoration the bytes of the stack outside the ranges are as they were saved.
  pub restored_between :
      (list_sort : (Hole → Hole → ℕ) → List Hole → List Hole) (sorts : ListSort list_sort)
      (hs : List Hole) (m : Mem)
      → hi ≤ lo + max_block
      → AllInside m0 lo hi hs
      → ((a : ℕ) → covers hs a ≤ 1)
      → Backs f m
      → (b : Sbuf) × (m' : Mem) × (restore_stack_buf list_sort (buffer f (moved f hs)) m
          ≡ ok (b, m'))
        × ((a : ℕ) → m' a ≡ (if within lo hi a && not (in_hole hs a) then m0 a else m a))
        × (b.cur ≡ 0)
        × (b.cap ≡ f.cap)
  restored_between list_sort sorts hs m small parts once backs =
      let (b, m', run, reads, unused, same_addr, same_cap, len) =
        restore_stack_buf_lem list_sort sorts lo hi (buffer f (moved f hs)) m (saved, omega arith)
          (moved-IsPlaced sorts hs small parts once, tt) (omega arith) in
      (b, m', run, λ a. reads a ∙ between a, unused, same_cap)
    where
      saved :
          IsSaved lo record { buf = buf; start = lo; len = hi - lo; hole_list = ring (moved f hs) }
      saved = record {
        has_ring = refl;
        above = omega arith;
        user = omega arith;
        kernel = kernel;
        top = room;
      }

      between :
          (a : ℕ)
          → read_back 1 ((buffer f (moved f hs)).slots) m a
            ≡ (if within lo hi a && not (in_hole hs a) then m0 a else m a)
      between a =
          let stop : lo + (hi - lo) ≡ hi = omega arith in
          ground (arith, stop, in_hole-moved hs a parts, backs a)
