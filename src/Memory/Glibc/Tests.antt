-- ===== src/Memory/Glibc/Tests.antt =====
-- The copy of memset, at a concrete input.
use cloud_memory_security.Base.{ℕ, ◌%◌, ◌^◌, ◌≡◌, arith, ok}
use cloud_memory_security.Memory.{Mem, memset}
use cloud_memory_security.Memory.Glibc.{glibc_memset}
use cloud_memory_security.Memory.Glibc.Fills.{glibc_memset-memset}

glibc_memset-memset_example :
    (m' : Mem) × (glibc_memset 8 1003 b'0' 150 (λ a. 7) ≡ ok m')
    × ((a : ℕ) → m' a ≡ memset (λ a. 7) 1003 (b'0' % 2 ^ 8) 150 a)
glibc_memset-memset_example = glibc_memset-memset 1003 b'0' 150 (λ a. 7) (omega arith)
