-- ===== src/Memory.antt =====
-- The memory that the module of `kernel_probe` reads and writes: one byte at each address, the
-- kernel's and the user's alike, with the allocator's calls counted and the freed blocks recorded.
pub mod Alloc
pub mod Glibc
use cloud_memory_security.Base.{
  ℕ, ◌+◌, ◌-◌, ◌*◌, ◌/◌, ◌%◌, ◌^◌, Bool, ◌&&◌, List, ◌∷◌, ltb, leb, if◌then◌else◌,
}

abbrev pub Mem : Type 0
Mem = ℕ → ℕ

-- `lo <= a && a < hi`
abbrev pub within : ℕ → ℕ → ℕ → Bool
within lo hi a = leb lo a && ltb a hi

unfoldable pub memcpy : Mem → (to from len : ℕ) → Mem
memcpy m to from len a = if within to (to + len) a then m (from + (a - to)) else m a

unfoldable pub memset : Mem → (to c len : ℕ) → Mem
memset m to c len a = if within to (to + len) a then c else m a

-- `*(unsigned long *)p`, the lowest byte first.
unfoldable pub load64 : Mem → ℕ → ℕ
load64 m p =
    m p
    + m (p + 1) * 2 ^ 8
    + m (p + 2) * 2 ^ 16
    + m (p + 3) * 2 ^ 24
    + m (p + 4) * 2 ^ 32
    + m (p + 5) * 2 ^ 40
    + m (p + 6) * 2 ^ 48
    + m (p + 7) * 2 ^ 56

-- `*(unsigned long *)p = v`
unfoldable pub store64 : Mem → (p v : ℕ) → Mem
store64 m p v a = if within p (p + 8) a then v / 2 ^ (8 * (a - p)) % 2 ^ 8 else m a

-- `allocs` counts the calls of `kmalloc`: what the next call returns is `kmalloc allocs size`, for
-- a parameter `kmalloc`. A freed block keeps its bytes.
pub record Machine : Type 0 where
  pub mem : Mem
  pub allocs : ℕ
  pub freed : List ℕ

abbrev pub set_mem : Machine → Mem → Machine
set_mem s m = record s { mem = m }

-- `kmalloc(size)`: what the call returns, 0 for NULL.
unfoldable pub alloc : (ℕ → ℕ → ℕ) → ℕ → Machine → ℕ × Machine
alloc kmalloc size s = (kmalloc s.allocs size, record s { allocs = s.allocs + 1 })

unfoldable pub kfree : ℕ → Machine → Machine
kfree p s = record s { freed = p ∷ s.freed }

-- User addresses are below, and the kernel's blocks above.
abbrev pub user_end : ℕ
user_end = 2 ^ 47
