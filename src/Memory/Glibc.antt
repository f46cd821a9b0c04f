-- ===== src/Memory/Glibc.antt =====
-- The copy of glibc's memset in test/user_level_memset.c and test/kernel_module_memset.c, on a machine
-- whose `unsigned long` has 8 bytes.
pub mod Fills
mod Tests
use cloud_memory_security.Base.{
  ℕ, zero, suc, ◌*◌, ◌/◌, ◌%◌, ◌^◌, bit_or, leb, ◌==◌, if◌then◌else◌, add64, true, false, Run, ok,
  hung, ◌>>=◌, sub64,
}
use cloud_memory_security.Memory.{Mem, store64}

-- `((byte *) dstp)[0] = c`
abbrev pub store_byte : Mem → (p c : ℕ) → Mem
store_byte m p c a = if a == p then c % 2 ^ 8 else m a

-- The byte in all eight places of a word.
unfoldable pub spread : ℕ → ℕ
spread c =
    let c1 = c % 2 ^ 8 in
    let c2 = bit_or c1 (c1 * 2 ^ 8) in
    let c4 = bit_or c2 (c2 * 2 ^ 16 % 2 ^ 64) in bit_or c4 (c4 * 2 ^ 16 % 2 ^ 64 * 2 ^ 16 % 2 ^ 64)

-- `while (dstp % OPSIZ != 0)`, with the rounds left: the address and the length it ends with.
unfoldable pub align : (rounds c dstp len : ℕ) → Mem → Run (ℕ × ℕ × Mem)
align zero c dstp len m = hung
align (suc n) c dstp len m = elim (dstp % 8 == 0) [
  | true ↦ ok (dstp, len, m)
  | false ↦ align n c (add64 dstp 1) (sub64 len 1) (store_byte m dstp c)
]

-- The words from `dstp` on: one round each.
unfoldable pub set_words : (n cccc dstp : ℕ) → Mem → Mem
set_words zero cccc dstp m = m
set_words (suc n) cccc dstp m = set_words n cccc (add64 dstp 8) (store64 m dstp cccc)

-- `while (xlen > 0)` with 8 words each.
unfoldable pub set_blocks : (xlen cccc dstp : ℕ) → Mem → Mem
set_blocks zero cccc dstp m = m
set_blocks (suc xlen) cccc dstp m = set_blocks xlen cccc (add64 dstp 64) (set_words 8 cccc dstp m)

-- The last bytes.
unfoldable pub set_bytes : (len c dstp : ℕ) → Mem → Mem
set_bytes zero c dstp m = m
set_bytes (suc len) c dstp m = set_bytes len c (add64 dstp 1) (store_byte m dstp c)

unfoldable pub glibc_memset : (rounds dstpp c len : ℕ) → Mem → Run Mem
glibc_memset rounds dstpp c len m =
    if leb 8 len
    then (do
      (dstp, rest, m') ← align rounds c dstpp len m
      ok (
          set_bytes (rest % 64 % 8) c (add64 (add64 dstp (rest / 64 * 64)) (rest % 64 / 8 * 8)) (
            set_words (rest % 64 / 8) (spread c) (add64 dstp (rest / 64 * 64))
              (set_blocks (rest / 64) (spread c) dstp m'))))
    else ok (set_bytes len c dstpp m)
