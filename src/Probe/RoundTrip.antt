-- ===== src/Probe/RoundTrip.antt =====
-- jsys_encrypt_stack at a call's start, the call, and jsys_decrypt_stack at its end.
use cloud_memory_security.Base.{
  ℕ, ◌+◌, ◌≤◌, ◌<◌, ◌≡◌, ◌⊎◌, subst, sym, false, List, some, Run, ok, get_elem?,
}
use cloud_memory_security.Memory.{Mem, user_end}
use cloud_memory_security.Memory.Alloc.{KernelHeap}
use cloud_memory_security.StackBuf.{Hole, Sbuf}
use cloud_memory_security.StackBuf.Sorting.{ListSort}
use cloud_memory_security.Mapper.{Name, get_func_name}
use cloud_memory_security.Elf.{Lookup}
use cloud_memory_security.Probe.{
  resumed, Module, Regs, Exit, jprobe_returned, red_zone, jsys_encrypt_stack, jsys_decrypt_stack,
}
use cloud_memory_security.Probe.Paras.{Para}
use cloud_memory_security.Probe.Shielded.{IsShielded}
use cloud_memory_security.Probe.Scan.{live}
use cloud_memory_security.Probe.Passed.{in_para}
use cloud_memory_security.Probe.Keeps.{resumed-Keeps}
use cloud_memory_security.Probe.Encrypt.{Ready, Encrypted, jsys_encrypt_stack-Encrypted}
use cloud_memory_security.Probe.Decrypt.{Decrypted, jsys_decrypt_stack-Decrypted}

-- A call of jsys_decrypt_stack, made with `m` in memory, that undoes a jsys_encrypt_stack made in the
-- state `d`: the unprotected bytes of the caller's stack are what they were, the bytes of the parameters
-- that were kept and those of user memory outside the stack are the program's, both stacks are as high
-- as before, and the buffer is not in use.
pub record Undone (d : Module) (regs : Regs) (plt : List Para) (m : Mem)
    (result : Run (Exit × Module)) : Type 0 where
  pub d'' : Module
  pub sbuf : Sbuf
  pub returns : result ≡ ok (jprobe_returned, d'')
  pub restored :
      (a : ℕ)
      → regs.sp + red_zone ≤ a
      → a < regs.bp
      → in_para plt a ≡ false
      → d''.machine.mem a ≡ d.machine.mem a
  pub outside :
      (a : ℕ) → a < user_end → (a < regs.sp + red_zone) ⊎ (regs.bp ≤ a) → d''.machine.mem a ≡ m a
  pub shielded :
      (a : ℕ) (h : IsShielded plt a)
      → regs.sp + red_zone ≤ h.para.addr
      → a < user_end
      → d''.machine.mem a ≡ m a
  pub call_top : d''.call_stack_top ≡ d.call_stack_top
  pub sbuf_top : d''.sbuf_stack_top ≡ d.sbuf_stack_top
  pub slot : get_elem? d''.sbuf_stack d.sbuf_stack_top ≡ some (live sbuf)
  pub unused : sbuf.cur ≡ 0

pub Decrypted-Undone :
    {kmalloc : ℕ → ℕ → ℕ} {calls : ℕ} {d : Module} {regs : Regs} {plt : List Para}
    {func_name : Name} {r : Run (Exit × List Para × Module)}
    (e : Encrypted kmalloc calls d regs plt func_name r) (d2 : Module)
    {result : Run (Exit × Module)}
    → Decrypted e d2 result
    → Undone d regs plt d2.machine.mem result
Decrypted-Undone e d2 u = record {
  d'' = u.d'';
  sbuf = u.sbuf;
  returns = u.returns;
  restored = u.restored;
  outside = u.outside;
  shielded = u.shielded;
  call_top = u.keeps.call_top;
  sbuf_top = u.keeps.sbuf_top;
  slot = u.slot;
  unused = u.unused;
}

-- If jsys_encrypt_stack ran in a state that is ready, kmalloc and list_sort do as documented, and the
-- program then wrote to user memory only, jsys_decrypt_stack from a known function ends well, gives the
-- unprotected bytes of the caller's stack back, whatever the program wrote there, and leaves what the program
-- wrote to a parameter that starts in the stack, and whose first byte no other parameter has, and to user
-- memory outside the stack.
pub jsys_decrypt_stack-jsys_encrypt_stack :
    (kmalloc : ℕ → ℕ → ℕ) (calls : ℕ) (heap : KernelHeap kmalloc calls)
    (list_sort : (Hole → Hole → ℕ) → List Hole → List Hole) (sorts : ListSort list_sort)
    (d d' : Module) (regs regs' : Regs) (plt : List Para) (rounds : ℕ)
    (r : Ready calls d regs plt rounds) (exe : Lookup) (name : Name) (m : Mem)
    → jsys_encrypt_stack kmalloc exe rounds regs plt d ≡ ok (jprobe_returned, plt, d')
    → ((p : ℕ) → user_end ≤ p → m p ≡ d'.machine.mem p)
    → get_func_name r.mapper regs'.ip ≡ some name
    → Undone d regs plt m (jsys_decrypt_stack list_sort regs' (resumed d' m))
jsys_decrypt_stack-jsys_encrypt_stack kmalloc calls heap list_sort sorts d d' regs regs' plt rounds
      r exe name m run kernel known =
    let e = jsys_encrypt_stack-Encrypted kmalloc calls heap d regs plt rounds r exe in
    let same : e.d' ≡ d' = cc (e.returns, run) in
    subst (λ x. Undone d regs plt m (jsys_decrypt_stack list_sort regs' (resumed x m))) same
      (Decrypted-Undone e (resumed e.d' m) (
        jsys_decrypt_stack-Decrypted list_sort sorts heap e (resumed e.d' m)
          (resumed-Keeps kmalloc calls heap e.d' m e.within_calls
            (subst (λ x. (p : ℕ) → user_end ≤ p → m p ≡ x.machine.mem p) (sym same) kernel))
          regs' r.mapper name r.has_mapper known))
