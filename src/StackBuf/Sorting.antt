-- ===== src/StackBuf/Sorting.antt =====
-- What restore_stack_buf relies on in the kernel's `list_sort`, and where its result leaves the holes.
use mathlib.Core.List.{Perm, Permᴰ, Mem, mem-cons, not-mem-nil, mem-cons_self, mem-cons_of_mem}
use mathlib.Core.List.Perm
use mathlib.Core.Logic.{∥∥₁_elim}
use mathlib.Core.Logic.Or
use native.Mathlib.Nat.{ℕ_set}
use native.Mathlib.Bridge.{le_prop}
use cloud_memory_security.Base.{
  ℕ, ◌+◌, ◌^◌, ◌≤◌, ◌<◌, ◌≡◌, refl, ◌∙◌, ◌↔◌, Bool, true, ◌&&◌, List, [], ◌∷◌, arith, ltb,
  if◌then◌else◌,
}
use cloud_memory_security.Memory.{within}
use cloud_memory_security.StackBuf.{Hole, cmp}
use cloud_memory_security.StackBuf.Holes.{in_hole, IsPlaced}

-- The `int` with this bit pattern is above 0.
abbrev pub positive_int : ℕ → Bool
positive_int n = ltb 0 n && ltb n (2 ^ 31)

abbrev pub IsOrdered : (Hole → ℕ) → List Hole → Type 0
IsOrdered key [] = Unit
IsOrdered key (h ∷ hs) = ((h' : Hole) → Mem h' hs → key h ≤ key h') × IsOrdered key hs

-- `list_sort` as lib/list_sort.c documents it: the nodes are relinked, none is lost, and where the
-- sign of the comparison agrees with a key, the keys do not fall.
pub record ListSort (list_sort : (Hole → Hole → ℕ) → List Hole → List Hole) : Type 0 where
  pub perm : (c : Hole → Hole → ℕ) (hs : List Hole) → Perm (list_sort c hs) hs
  pub ordered :
      (c : Hole → Hole → ℕ) (hs : List Hole) (key : Hole → ℕ)
      → ((a b : Hole) → Mem a hs → Mem b hs → (positive_int (c a b) ≡ true) ↔ (key b < key a))
      → IsOrdered key (list_sort c hs)

-- How many holes cover the address.
abbrev pub covers : List Hole → ℕ → ℕ
covers [] p = 0
covers (h ∷ hs) p = (if within h.start (h.start + h.len) p then 1 else 0) + covers hs p

in_hole-covers : (hs : List Hole) (p : ℕ) → in_hole hs p ≡ ltb 0 (covers hs p)
in_hole-covers [] p = refl
in_hole-covers (h ∷ hs) p = ground (arith, in_hole-covers hs p)

covers-permᴰ : {hs hs' : List Hole} (p : ℕ) → Permᴰ hs hs' → covers hs p ≡ covers hs' p
covers-permᴰ p Permᴰ.nil = refl
covers-permᴰ p (Permᴰ.cons e q) = rw (e, covers-permᴰ p q)
covers-permᴰ p (Permᴰ.swap e f) = rw (e, f) (omega arith)
covers-permᴰ p (Permᴰ.trans q r) = covers-permᴰ p q ∙ covers-permᴰ p r

covers-perm : {hs hs' : List Hole} (p : ℕ) → Perm hs hs' → covers hs p ≡ covers hs' p
covers-perm p q = ∥∥₁_elim q (ℕ_set _ _) (covers-permᴰ p)

pub in_hole-perm : {hs hs' : List Hole} (p : ℕ) → Perm hs hs' → in_hole hs p ≡ in_hole hs' p
in_hole-perm {hs} {hs'} p q = rw (in_hole-covers hs p, in_hole-covers hs' p, covers-perm p q)

-- Holes that are not empty and lie in `[lo, hi)`.
abbrev pub InBlock : ℕ → ℕ → List Hole → Type 0
InBlock lo hi hs = (h : Hole) → Mem h hs → (lo ≤ h.start) × (h.start + h.len ≤ hi) × (0 < h.len)

covers-mem :
    (h : Hole) (hs : List Hole) (p : ℕ)
    → Mem h hs
    → within h.start (h.start + h.len) p ≡ true
    → 1 ≤ covers hs p
covers-mem h [] p m w = absurd (not-mem-nil m)
covers-mem h (x ∷ hs) p m w =
    Or.elim le_prop (mem-cons.0 m) (λ e. rw (← e) (rw w (omega arith)))
      (λ m'. omega (arith, covers-mem h hs p m' w))

IsOrdered-IsPlaced :
    (lo hi : ℕ) (hs : List Hole)
    → lo ≤ hi
    → IsOrdered (λ h. h.start) hs
    → InBlock lo hi hs
    → ((p : ℕ) → covers hs p ≤ 1)
    → IsPlaced lo hi hs
IsOrdered-IsPlaced lo hi [] le ord inside once = le
IsOrdered-IsPlaced lo hi (h ∷ hs) le ord inside once =
    let here = inside h (mem-cons_self) in
    (
      here.0,
      IsOrdered-IsPlaced (h.start + h.len) hi hs here.1 ord.1 (λ h' m. later h' m)
          (λ p. omega (arith, once p)),
    )
  where
    later :
        (h' : Hole)
        → Mem h' hs
        → (h.start + h.len ≤ h'.start) × (h'.start + h'.len ≤ hi) × (0 < h'.len)
    later h' m = ground (
      arith,
      ord.0 h' m,
      inside h' (mem-cons_of_mem h m),
      once h'.start,
      covers-mem h' hs h'.start m,
    )

-- The truncation to `int` keeps the sign of a difference of addresses less than 2 GB apart.
cmp_sign :
    (lo hi : ℕ) (a b : Hole)
    → hi ≤ lo + 2 ^ 31
    → hi < 2 ^ 64
    → (lo ≤ a.start) × (a.start < hi)
    → (lo ≤ b.start) × (b.start < hi)
    → (positive_int (cmp a b) ≡ true) ↔ (b.start < a.start)
unfolding cmp
cmp_sign lo hi a b near top pa pb = ground arith

-- The sorted holes of a block below 2 GB lie one behind the other, if none is empty, all lie in the
-- block, and no address is in two of them.
pub ListSort-IsPlaced :
    {list_sort : (Hole → Hole → ℕ) → List Hole → List Hole} (sorts : ListSort list_sort) (lo hi : ℕ)
    (hs : List Hole)
    → lo ≤ hi
    → hi ≤ lo + 2 ^ 31
    → hi < 2 ^ 64
    → InBlock lo hi hs
    → ((p : ℕ) → covers hs p ≤ 1)
    → IsPlaced lo hi (list_sort cmp hs)
ListSort-IsPlaced {list_sort} sorts lo hi hs le near top inside once =
    IsOrdered-IsPlaced lo hi (list_sort cmp hs) le
      (sorts.ordered cmp hs (λ h. h.start)
        (λ a b ma mb.
          let pa = inside a ma in
          let pb = inside b mb in
          cmp_sign lo hi a b near top (pa.0, omega arith) (pb.0, omega arith)))
      (λ h m. inside h ((Perm.mem_iff (sorts.perm cmp hs)).0 m))
      (λ p. rw (covers-perm p (sorts.perm cmp hs)) (once p))
