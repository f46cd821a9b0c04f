-- ===== src/Probe.antt =====
-- kernel_probe/jprobe.c: the handlers of the two system calls, over the module's static variables.
pub mod Paras
pub mod Pointers
pub mod Scan
pub mod Keeps
pub mod Shielded
pub mod Passed
pub mod Clearing
pub mod Encrypt
pub mod Decrypt
pub mod Faults
pub mod Watch
pub mod Misplaced
pub mod RoundTrip
pub mod Shown
pub mod PointerTrip
pub mod SetUp
pub mod Nested
mod Samples
mod Tests
use cloud_memory_security.Base.{
  ℕ, zero, suc, ◌+◌, ◌-◌, ◌*◌, Bool, true, false, not, List, [], ◌∷◌, Option, none, some, ltb, ◌==◌,
  if◌then◌else◌, add64, length, get_elem?, set, Run, ok, oops, ◌>>=◌,
}
use cloud_memory_security.Memory.{Mem, Machine, alloc, kfree, set_mem}
use cloud_memory_security.StackBuf.{Hole, Sbuf, init_stack_buf, restore_stack_buf}
use cloud_memory_security.Mapper.{Name, Mapper, init_mapper, get_func_name, copy_name}
use cloud_memory_security.Elf.{Lookup, parse}
use Paras.{Para}
use Pointers.{restore_pointers}
use Scan.{Slot, null, live, stale, deref, scan}

-- `cs_item_t` in the block `block`. `op` is always ENCRYPT and `key` is never set; neither is read.
pub record CsItem : Type 0 where
  pub user_rsp : ℕ
  pub user_rbp : ℕ
  pub func_name : Name
  pub name_block : ℕ
  pub block : ℕ

abbrev pub sizeof_cs_item : ℕ
sizeof_cs_item = 32

-- The static variables, and the machine. `call_stack` has 64 pointers and `sbuf_stack` 16.
pub record Module : Type 0 where
  pub call_stack_top : ℕ
  pub call_stack : List (Option CsItem)
  pub mapper : Option Mapper
  pub sbuf_stack_top : ℕ
  pub sbuf_stack : List Slot
  pub init : Bool
  pub machine : Machine

-- What the handlers read of the interrupted user program: `regs->sp`, and from the kernel's stack the
-- return address and `rbp`.
pub record Regs : Type 0 where
  pub sp : ℕ
  pub ip : ℕ
  pub bp : ℕ

-- How a handler ends. jprobes want `jprobe_return()`; the returns of the checks do without.
pub data Exit : Type 0 where
  jprobe_returned : Exit
  left_zero : Exit
  left_minus_one : Exit

abbrev pub red_zone : ℕ
red_zone = 0x750

-- The program has run: it has written what it likes to user memory, and made no call.
abbrev pub resumed : Module → Mem → Module
resumed d m = record d { machine = set_mem d.machine m }

-- `a[i]`, where an index past the end is out of bounds.
abbrev pub at {ℓ} : {A : Type ℓ} → List A → ℕ → Run A
at xs i = elim (get_elem? xs i) [ none ↦ oops | some x ↦ ok x ]

-- A pointer that is followed.
abbrev pub non_null {ℓ} : {A : Type ℓ} → Option A → Run A
non_null none = oops
non_null (some a) = ok a

abbrev pub any_pointer : List Para → Bool
any_pointer [] = false
any_pointer (tmp ∷ plt) = if tmp.pointer == 0 then any_pointer plt else true

-- What is left behind a pointer of `sbuf_stack` once the local copy of it went through
-- copy_stack_buf, which may have moved the array and freed the old one.
abbrev pub left_behind : Slot → Slot → Slot
left_behind (live old) (live new) = if old.addr == new.addr then live new else stale
left_behind old _ = old

-- The buffer stack after `slot` was used and the local copy of its pointer has become `stack_buf`.
abbrev pub leave_slot : Slot → Slot → Machine → Module → Module
leave_slot slot stack_buf s d = record d {
  sbuf_stack = set d.sbuf_stack d.sbuf_stack_top (left_behind slot stack_buf);
  sbuf_stack_top = d.sbuf_stack_top + 1;
  machine = s;
}

-- The reads of the caller's item; the check behind them only prints.
unfoldable pub check_caller : Module → Run (Unit {0})
check_caller d =
    if ltb 0 d.call_stack_top
    then (do prev ← at d.call_stack (d.call_stack_top - 1); _ ← non_null prev; ok tt)
    else ok tt

module _ (kmalloc : ℕ → ℕ → ℕ) where
  -- `init_stack_buf(32)` for the first `n` slots.
  unfoldable pub init_slots : ℕ → Machine → List Slot × Machine
  init_slots zero s = ([], s)
  init_slots (suc n) s =
      let (sbuf, s1) = init_stack_buf kmalloc 32 s in
      let (slots, s2) = init_slots n s1 in
      ((elim sbuf [ none ↦ null | some b ↦ live b ]) ∷ slots, s2)

  -- The block under `if(init == 0)`. A mapper that is NULL is followed right after it.
  unfoldable pub ensure_init : Lookup → Module → Run (Mapper × Module)
  unfolding init_slots
  ensure_init exe d =
      if d.init
      then (do mapper ← non_null d.mapper; ok (mapper, d))
      else (let (made, s1) = init_mapper kmalloc 8 d.machine in
          let (slots, s2) = init_slots 16 s1 in
          do
            empty ← non_null made
            (mapper, s3) ← parse kmalloc exe empty s2
            ok (
              mapper,
              record d { mapper = some mapper; sbuf_stack = slots; init = true; machine = s3 },
            ))

  -- The new item of the call stack; neither `kmalloc` is tested for NULL.
  unfoldable pub push_call : Name → (user_rsp user_rbp : ℕ) → Module → Run Module
  push_call func_name user_rsp user_rbp d =
      let (p, s1) = alloc kmalloc sizeof_cs_item d.machine in
      if p == 0 then oops else do
        (name, s2) ← copy_name kmalloc func_name s1
        let csit : CsItem = record {
          user_rsp = user_rsp;
          user_rbp = user_rbp;
          func_name = func_name;
          name_block = name;
          block = p;
        }
        if ltb d.call_stack_top (length d.call_stack)
            then ok (record d {
              call_stack = set d.call_stack d.call_stack_top (some csit);
              call_stack_top = d.call_stack_top + 1;
              machine = s2;
            })
            else oops

  -- From `stack_buf = sbuf_stack[sbuf_stack_top++]` on. What restore_pointers returns is not looked at.
  unfoldable pub clear_stack :
      ℕ → (user_rsp user_rbp : ℕ) → List Para → Module → Run (List Para × Module)
  clear_stack rounds user_rsp user_rbp plt d = do
    slot ← at d.sbuf_stack d.sbuf_stack_top
    (stack_buf, s1) ← scan kmalloc user_rbp plt rounds user_rsp user_rsp slot d.machine
    if any_pointer plt
        then (do
          sbuf ← deref stack_buf
          (_, plt', sbuf', s2) ← restore_pointers kmalloc plt sbuf s1
          ok (plt', leave_slot slot (live sbuf') s2 d))
        else ok (plt, leave_slot slot stack_buf s1 d)

  -- From the test of `func_name` on. `rounds` bounds the loop over the stack. Beside the state, the
  -- result has the caller's list of parameters as it is left.
  unfoldable pub encrypt_from :
      ℕ → Regs → List Para → Option Name → Module → Run (Exit × List Para × Module)
  unfolding check_caller push_call clear_stack
  encrypt_from rounds regs plt none d = ok (left_zero, plt, d)
  encrypt_from rounds regs plt (some func_name) d =
      let user_rsp = add64 regs.sp red_zone in
      if ltb regs.bp user_rsp then ok (left_minus_one, plt, d) else do
        _ ← check_caller d
        d2 ← push_call func_name user_rsp regs.bp d
        (plt', d3) ← clear_stack rounds user_rsp regs.bp plt d2
        ok (jprobe_returned, plt', d3)

  unfoldable pub jsys_encrypt_stack :
      Lookup → ℕ → Regs → List Para → Module → Run (Exit × List Para × Module)
  unfolding ensure_init encrypt_from
  jsys_encrypt_stack exe rounds regs plt d = do
    (mapper, d1) ← ensure_init exe d
    encrypt_from rounds regs plt (get_func_name mapper regs.ip) d1

module _ (list_sort : (Hole → Hole → ℕ) → List Hole → List Hole) where
  -- From the second check on: `func_name` goes through `strcmp` before anything changes, and what
  -- comes of the comparison is only printed.
  unfoldable pub pop_and_restore : Option Name → Module → Run Module
  pop_and_restore func_name d = do
    csit ← non_null (← at d.call_stack (d.call_stack_top - 1))
    _ ← non_null func_name
    let s1 = kfree csit.block (kfree csit.name_block d.machine)
    if d.sbuf_stack_top == 0 then oops else do
      sbuf ← deref (← at d.sbuf_stack (d.sbuf_stack_top - 1))
      (sbuf', m) ← restore_stack_buf list_sort sbuf s1.mem
      ok (record d {
        call_stack_top = d.call_stack_top - 1;
        sbuf_stack_top = d.sbuf_stack_top - 1;
        sbuf_stack = set d.sbuf_stack (d.sbuf_stack_top - 1) (live sbuf');
        machine = set_mem s1 m;
      })

  -- The handler does not use its argument.
  unfoldable pub jsys_decrypt_stack : Regs → Module → Run (Exit × Module)
  unfolding pop_and_restore
  jsys_decrypt_stack regs d = do
    mapper ← non_null d.mapper
    if d.call_stack_top == 0
        then ok (left_minus_one, d)
        else do d' ← pop_and_restore (get_func_name mapper regs.ip) d; ok (jprobe_returned, d')
