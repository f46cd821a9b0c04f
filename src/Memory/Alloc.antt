-- ===== src/Memory/Alloc.antt =====
-- What the proofs rely on in the kernel's `kmalloc`, for the calls that succeed.
use cloud_memory_security.Base.{ℕ, ◌+◌, ◌^◌, ◌≤◌, ◌<◌, ◌⊎◌, ◌≡◌}
use cloud_memory_security.Memory.{Mem, user_end}

-- Two ranges that do not meet.
abbrev pub Apart : (a len b len' : ℕ) → Type 0
Apart a len b len' = (a + len ≤ b) ⊎ (b + len' ≤ a)

-- The largest block, 4 MB.
abbrev pub max_block : ℕ
max_block = 2 ^ 22

-- The first `calls` calls: up to the largest size none of them fails, the blocks lie in the kernel's
-- addresses, and those of two calls do not meet.
pub record KernelHeap (kmalloc : ℕ → ℕ → ℕ) (calls : ℕ) : Type 0 where
  pub kernel : (i size : ℕ) → i < calls → size ≤ max_block → user_end ≤ kmalloc i size
  pub top : (i size : ℕ) → i < calls → size ≤ max_block → kmalloc i size + size < 2 ^ 64
  pub apart :
      (i j size size' : ℕ)
      → i < j
      → j < calls
      → size ≤ max_block
      → size' ≤ max_block
      → Apart (kmalloc i size) size (kmalloc j size') size'

-- The blocks of the first `k` calls hold what they held.
abbrev pub KeepsBlocks : (ℕ → ℕ → ℕ) → ℕ → Mem → Mem → Type 0
KeepsBlocks kmalloc k m m' =
    (i size a : ℕ)
    → i < k
    → size ≤ max_block
    → kmalloc i size ≤ a
    → a < kmalloc i size + size
    → m' a ≡ m a
