-- ===== src/Probe/Paras.antt =====
-- The parameters that a caller declares (kernel_patches/patch3.diff, memclear_para.h), and the two
-- searches of kernel_probe/jprobe.c.
use cloud_memory_security.Base.{
  ℕ, zero, suc, not, ◌&&◌, List, [], ◌∷◌, Option, none, some, leb, ◌==◌, if◌then◌else◌, add64,
  sub64,
}
use cloud_memory_security.StackBuf.{Entry, Sbuf}

-- `para_t`. `pointer` is the `int`'s bit pattern, the levels of pointers to follow; 0 declares the
-- bytes themselves.
pub record Para : Type 0 where
  pub addr : ℕ
  pub size : ℕ
  pub pointer : ℕ

-- How many bytes from `addr` on are left as they are, 0 for none.
unfoldable pub contains : ℕ → List Para → ℕ
contains addr [] = 0
contains addr (tmp ∷ plt) =
    if addr == tmp.addr then (if not (tmp.pointer == 0) then 0 else tmp.size) else contains addr plt

-- The loop with `n` rounds left: the address of the saved copy of `[addr, addr + len)`, or NULL.
unfoldable pub find_in_slots : ℕ → List Entry → (addr len : ℕ) → Option ℕ
find_in_slots zero es addr len = none
find_in_slots (suc n) [] addr len = none
find_in_slots (suc n) (tmp ∷ es) addr len =
    if leb tmp.start addr && leb (add64 addr len) (add64 tmp.start tmp.len)
    then some (add64 tmp.buf (sub64 addr tmp.start))
    else find_in_slots n es addr len

unfoldable pub find_in_stack_buf : (addr len : ℕ) → Sbuf → Option ℕ
unfolding find_in_slots
find_in_stack_buf addr len sbuf = find_in_slots sbuf.cur sbuf.slots addr len
