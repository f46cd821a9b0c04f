-- ===== src/StackBuf/InsertionSort.antt =====
-- A list_sort and a kmalloc that do what the proofs rely on, for the tests.
use mathlib.Core.List.{Perm, Mem, not-mem-nil, mem-cons, mem-cons_self, mem-cons_of_mem}
use mathlib.Core.List.Perm
use mathlib.Core.Logic.Or
use native.Mathlib.Bridge.{le_prop}
use cloud_memory_security.Base.{
  ℕ, ◌+◌, ◌*◌, ◌^◌, ◌≤◌, ◌<◌, ◌≡◌, ◌↔◌, inl, inr, true, false, List, [], ◌∷◌, arith, Bool-cases,
}
use cloud_memory_security.Memory.Alloc.{KernelHeap}
use cloud_memory_security.StackBuf.{Hole}
use cloud_memory_security.StackBuf.Sorting.{positive_int, IsOrdered, ListSort}

-- Behind what it is above.
unfoldable pub insert : (Hole → Hole → ℕ) → Hole → List Hole → List Hole
insert c x [] = x ∷ []
insert c x (y ∷ ys) =
    let rest = insert c x ys in elim (positive_int (c x y)) [ true ↦ y ∷ rest | false ↦ x ∷ y ∷ ys ]

unfoldable pub insertion_sort : (Hole → Hole → ℕ) → List Hole → List Hole
unfolding insert
insertion_sort c [] = []
insertion_sort c (x ∷ xs) = insert c x (insertion_sort c xs)

insert-perm : (c : Hole → Hole → ℕ) (x : Hole) (ys : List Hole) → Perm (insert c x ys) (x ∷ ys)
unfolding insert
insert-perm c x [] = Perm.refl _
insert-perm c x (y ∷ ys) = elim (Bool-cases (positive_int (c x y))) [
  | inr stay ↦ rw (stay, insert) (Perm.refl _)
  | inl later ↦
      rw (later, insert) (Perm.trans (Perm.cons y (insert-perm c x ys)) (Perm.swap x y ys))
]

insertion_sort-perm : (c : Hole → Hole → ℕ) (xs : List Hole) → Perm (insertion_sort c xs) xs
unfolding insertion_sort
insertion_sort-perm c [] = Perm.refl _
insertion_sort-perm c (x ∷ xs) =
    Perm.trans (insert-perm c x (insertion_sort c xs)) (Perm.cons x (insertion_sort-perm c xs))

insert-IsOrdered :
    (c : Hole → Hole → ℕ) (key : Hole → ℕ) (x : Hole) (ys : List Hole)
    → ((y : Hole) → Mem y ys → (positive_int (c x y) ≡ true) ↔ (key y < key x))
    → IsOrdered key ys
    → IsOrdered key (insert c x ys)
unfolding insert
insert-IsOrdered c key x [] agrees ord = (λ h m. absurd (not-mem-nil m), tt)
insert-IsOrdered c key x (y ∷ ys) agrees ord = elim (Bool-cases (positive_int (c x y))) [
  | inr stay ↦
      let le : key x ≤ key y = ground (arith, agrees y mem-cons_self) in
      rw (stay, insert)
        (
          λ h m.
              Or.elim le_prop (mem-cons.0 m) (λ e. rw e le) (λ m'. omega (arith, le, ord.0 h m')),
          ord,
        )
  | inl later ↦
      let lt : key y < key x = (agrees y mem-cons_self).0 later in
      rw (later, insert)
        (
          λ h m.
              Or.elim le_prop (mem-cons.0 ((Perm.mem_iff (insert-perm c x ys)).0 m))
                (λ e. rw e (omega arith)) (λ m'. ord.0 h m'),
          insert-IsOrdered c key x ys (λ z m. agrees z (mem-cons_of_mem y m)) ord.1,
        )
]

insertion_sort-IsOrdered :
    (c : Hole → Hole → ℕ) (hs : List Hole) (key : Hole → ℕ)
    → ((a b : Hole) → Mem a hs → Mem b hs → (positive_int (c a b) ≡ true) ↔ (key b < key a))
    → IsOrdered key (insertion_sort c hs)
unfolding insertion_sort
insertion_sort-IsOrdered c [] key agrees = tt
insertion_sort-IsOrdered c (x ∷ xs) key agrees =
    insert-IsOrdered c key x (insertion_sort c xs)
      (λ y m.
        agrees x y mem-cons_self
          (mem-cons_of_mem x ((Perm.mem_iff (insertion_sort-perm c xs)).0 m)))
      (insertion_sort-IsOrdered c xs key
        (λ a b ma mb. agrees a b (mem-cons_of_mem x ma) (mem-cons_of_mem x mb)))

pub insertion_sort-ListSort : ListSort insertion_sort
insertion_sort-ListSort = record { perm = insertion_sort-perm; ordered = insertion_sort-IsOrdered }

-- Each call has 4 MB of its own.
abbrev pub bump : ℕ → ℕ → ℕ
bump i size = 2 ^ 47 + i * 2 ^ 22

pub bump-KernelHeap : KernelHeap bump (2 ^ 20)
bump-KernelHeap = record {
  kernel = λ i size lt le. omega arith;
  top = λ i size lt le. omega arith;
  apart = λ i j size size' lt call le le'. omega arith;
}
