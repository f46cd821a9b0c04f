-- ===== src/Probe/Nested.antt =====
-- Calls within calls: any run of the program between the two system calls of a frame, protected calls of
-- its own included.
mod Tests
use cloud_memory_security.Base.{ℕ, ◌≤◌, ◌<◌, ◌≡◌, subst, sym, List, some, arith, ok}
use cloud_memory_security.Memory.{Mem, user_end}
use cloud_memory_security.Memory.Alloc.{KernelHeap}
use cloud_memory_security.StackBuf.{Hole}
use cloud_memory_security.StackBuf.Sorting.{ListSort}
use cloud_memory_security.Mapper.{Name, Mapper, get_func_name}
use cloud_memory_security.Elf.{Lookup}
use cloud_memory_security.Probe.{
  Module, Regs, Exit, jprobe_returned, resumed, jsys_encrypt_stack, jsys_decrypt_stack,
}
use cloud_memory_security.Probe.Paras.{Para}
use cloud_memory_security.Probe.Keeps.{Keeps, Keeps-trans, resumed-Keeps}
use cloud_memory_security.Probe.Encrypt.{Ready, Encrypted, jsys_encrypt_stack-Encrypted}
use cloud_memory_security.Probe.Decrypt.{Decrypted, jsys_decrypt_stack-Decrypted}
use cloud_memory_security.Probe.SetUp.{
  IsSetUp, Pushes, Pops, Pushes-IsSetUp, Pops-IsSetUp, Encrypted-Pushes, Decrypted-Pops,
}
use cloud_memory_security.Probe.Pointers.Restored.{used_up}
use cloud_memory_security.Probe.Shown.{Declares, Shown, jsys_encrypt_stack-Shown}
use cloud_memory_security.Probe.PointerTrip.{Returned, Shown-Pushes, Shown-Returned}
use cloud_memory_security.Probe.RoundTrip.{Undone, Decrypted-Undone}

module _ (kmalloc : ℕ → ℕ → ℕ) (calls : ℕ)
    (list_sort : (Hole → Hole → ℕ) → List Hole → List Hole) where
  -- A run from one state to another: writes to user memory, and calls that clear their caller's stack,
  -- run, and give it back, one after the other. The parameters of a call are all values or all pointers.
  pub data Nested : Module → Module → Type 0 where
    write :
        {d : Module} (m : Mem)
        → d.machine.allocs ≤ calls
        → ((p : ℕ) → user_end ≤ p → m p ≡ d.machine.mem p)
        → Nested d (resumed d m)
    call :
        {d d' d2 d3 : Module} (regs regs' : Regs) (plt : List Para) (rounds : ℕ) (exe : Lookup)
        (name : Name) (r : Ready calls d regs plt rounds)
        → jsys_encrypt_stack kmalloc exe rounds regs plt d ≡ ok (jprobe_returned, plt, d')
        → Nested d' d2
        → get_func_name r.mapper regs'.ip ≡ some name
        → jsys_decrypt_stack list_sort regs' d2 ≡ ok (jprobe_returned, d3)
        → Nested d d3
    pointer_call :
        {d d' d2 d3 : Module} (regs regs' : Regs) (plt : List Para) (rounds : ℕ) (exe : Lookup)
        (name : Name) (c : Declares calls d regs plt rounds)
        → jsys_encrypt_stack kmalloc exe rounds regs plt d ≡ ok (jprobe_returned, used_up plt, d')
        → Nested d' d2
        → get_func_name c.ready.mapper regs'.ip ≡ some name
        → jsys_decrypt_stack list_sort regs' d2 ≡ ok (jprobe_returned, d3)
        → Nested d d3
    then_run : {d d' d'' : Module} → Nested d d' → Nested d' d'' → Nested d d''

  module _ (heap : KernelHeap kmalloc calls) (sorts : ListSort list_sort) where
    -- The decryption at the end of a call, when what ran in between kept what it had to.
    pub undo :
        {d d' d2 : Module} (regs regs' : Regs) (plt : List Para) (rounds : ℕ) (exe : Lookup)
        (name : Name) (r : Ready calls d regs plt rounds)
        → jsys_encrypt_stack kmalloc exe rounds regs plt d ≡ ok (jprobe_returned, plt, d')
        → Keeps kmalloc d' d2
        → get_func_name r.mapper regs'.ip ≡ some name
        → Decrypted
            (jsys_encrypt_stack-Encrypted kmalloc calls heap d regs plt rounds r exe)
            d2
            (jsys_decrypt_stack list_sort regs' d2)
    undo {d} {d'} {d2} regs regs' plt rounds exe name r run k known =
        let e = jsys_encrypt_stack-Encrypted kmalloc calls heap d regs plt rounds r exe in
        let same : e.d' ≡ d' = cc (e.returns, run) in
        jsys_decrypt_stack-Decrypted list_sort sorts heap e d2
          (subst (λ x. Keeps kmalloc x d2) (sym same) k) regs' r.mapper name r.has_mapper known

    -- What a complete call does to the stacks.
    call_ends :
        {d d' d2 d3 : Module} (regs regs' : Regs) (plt : List Para) (rounds : ℕ) (exe : Lookup)
        (name : Name) (r : Ready calls d regs plt rounds)
        → jsys_encrypt_stack kmalloc exe rounds regs plt d ≡ ok (jprobe_returned, plt, d')
        → Keeps kmalloc d' d2
        → get_func_name r.mapper regs'.ip ≡ some name
        → jsys_decrypt_stack list_sort regs' d2 ≡ ok (jprobe_returned, d3)
        → Pushes d d' × Pops kmalloc d d2 d3
    call_ends {d} {d'} {d2} {d3} regs regs' plt rounds exe name r run k known back =
        let e = jsys_encrypt_stack-Encrypted kmalloc calls heap d regs plt rounds r exe in
        let u = undo regs regs' plt rounds exe name r run k known in
        let same : e.d' ≡ d' = cc (e.returns, run) in
        let same' : u.d'' ≡ d3 = cc (u.returns, back) in
        (
          subst (Pushes d) same (Encrypted-Pushes e),
          subst (Pops kmalloc d d2) same' (Decrypted-Pops e d2 u),
        )

    -- The decryption at the end of a call with pointer parameters.
    pub undo_pointers :
        {d d' d2 : Module} (regs regs' : Regs) (plt : List Para) (rounds : ℕ) (exe : Lookup)
        (name : Name) (c : Declares calls d regs plt rounds)
        → jsys_encrypt_stack kmalloc exe rounds regs plt d ≡ ok (jprobe_returned, used_up plt, d')
        → Keeps kmalloc d' d2
        → get_func_name c.ready.mapper regs'.ip ≡ some name
        → (u : Returned d regs plt d2.machine.mem (jsys_decrypt_stack list_sort regs' d2)) × Pops
            kmalloc d d2 u.d''
    undo_pointers {d} {d'} {d2} regs regs' plt rounds exe name c run k known =
        let e = jsys_encrypt_stack-Shown kmalloc calls heap d regs plt rounds c exe in
        let same : e.d' ≡ d' = cc (e.returns, run) in
        Shown-Returned kmalloc calls heap list_sort sorts d regs plt rounds c e d2
          (subst (λ x. Keeps kmalloc x d2) (sym same) k) regs' name known

    pointer_call_ends :
        {d d' d2 d3 : Module} (regs regs' : Regs) (plt : List Para) (rounds : ℕ) (exe : Lookup)
        (name : Name) (c : Declares calls d regs plt rounds)
        → jsys_encrypt_stack kmalloc exe rounds regs plt d ≡ ok (jprobe_returned, used_up plt, d')
        → Keeps kmalloc d' d2
        → get_func_name c.ready.mapper regs'.ip ≡ some name
        → jsys_decrypt_stack list_sort regs' d2 ≡ ok (jprobe_returned, d3)
        → Pushes d d' × Pops kmalloc d d2 d3
    pointer_call_ends {d} {d'} {d2} {d3} regs regs' plt rounds exe name c run k known back =
        let e = jsys_encrypt_stack-Shown kmalloc calls heap d regs plt rounds c exe in
        let (u, pops) = undo_pointers regs regs' plt rounds exe name c run k known in
        let same : e.d' ≡ d' = cc (e.returns, run) in
        let same' : u.d'' ≡ d3 = cc (u.returns, back) in
        (
          subst (Pushes d) same
              (Shown-Pushes kmalloc calls heap list_sort sorts d regs plt rounds c e),
          subst (Pops kmalloc d d2) same' pops,
        )

    -- After a run of writes to user memory and complete protected calls, one after the other or nested to
    -- any depth, each made in a ready state with parameters that are all values or all pointers, both stacks
    -- are as high as before it and hold below their tops what they held, and no block that was allocated
    -- before has changed.
    pub Nested-Keeps : {d d3 : Module} → Nested d d3 → Keeps kmalloc d d3
    Nested-Keeps (write {d} m le same) = resumed-Keeps kmalloc calls heap d m le same
    Nested-Keeps (call regs regs' plt rounds exe name r run inner known back) =
        (call_ends regs regs' plt rounds exe name r run (Nested-Keeps inner) known back).1.keeps
    Nested-Keeps (pointer_call regs regs' plt rounds exe name c run inner known back) =
        (pointer_call_ends regs regs' plt rounds exe name c run (Nested-Keeps inner) known
          back).1.keeps
    Nested-Keeps (then_run {d} {d'} {d''} first second) =
        Keeps-trans kmalloc d d' d'' (Nested-Keeps first) (Nested-Keeps second)

    -- If jsys_encrypt_stack ran in a ready state, and what followed is a run of writes to user memory and
    -- complete protected calls, one after the other or nested to any depth, each made in a ready state with
    -- parameters that are all values or all pointers, jsys_decrypt_stack from a known function ends well,
    -- gives the unprotected bytes of the caller's stack back, and leaves what the run left in the parameters
    -- that are kept and outside the stack.
    pub jsys_decrypt_stack-Nested :
        {d d' d2 : Module} (regs regs' : Regs) (plt : List Para) (rounds : ℕ) (exe : Lookup)
        (name : Name) (r : Ready calls d regs plt rounds)
        → jsys_encrypt_stack kmalloc exe rounds regs plt d ≡ ok (jprobe_returned, plt, d')
        → Nested d' d2
        → get_func_name r.mapper regs'.ip ≡ some name
        → Undone d regs plt d2.machine.mem (jsys_decrypt_stack list_sort regs' d2)
    jsys_decrypt_stack-Nested {d} {d'} {d2} regs regs' plt rounds exe name r run inner known =
        Decrypted-Undone (jsys_encrypt_stack-Encrypted kmalloc calls heap d regs plt rounds r exe)
          d2 (undo regs regs' plt rounds exe name r run (Nested-Keeps inner) known)

    -- If jsys_encrypt_stack ran in a ready state on parameters that are pointers, whose chains lie in
    -- the caller's stack and expose ranges that do not meet, and what followed is a run of writes to
    -- user memory and complete protected calls, one after the other or nested to any depth, each made in
    -- a ready state with parameters that are all values or all pointers, jsys_decrypt_stack from a known
    -- function ends well: the hidden bytes of the caller's stack are what they were, and what the
    -- pointers lead to and what is outside the stack is what the run left.
    pub jsys_decrypt_stack-Returned :
        {d d' d2 : Module} (regs regs' : Regs) (plt : List Para) (rounds : ℕ) (exe : Lookup)
        (name : Name) (c : Declares calls d regs plt rounds)
        → jsys_encrypt_stack kmalloc exe rounds regs plt d ≡ ok (jprobe_returned, used_up plt, d')
        → Nested d' d2
        → get_func_name c.ready.mapper regs'.ip ≡ some name
        → Returned d regs plt d2.machine.mem (jsys_decrypt_stack list_sort regs' d2)
    jsys_decrypt_stack-Returned regs regs' plt rounds exe name c run inner known =
        (undo_pointers regs regs' plt rounds exe name c run (Nested-Keeps inner) known).0

    -- A run of writes to user memory and complete protected calls, one after the other or nested to any
    -- depth, each made in a ready state with parameters that are all values or all pointers, leaves a module
    -- that is set up for the next protected call as it found it: initialised, every call below the top of the
    -- call stack there, and free buffers from the top of the buffer stack on.
    pub Nested-IsSetUp :
        {mapper : Mapper} {d d3 : Module} → Nested d d3 → IsSetUp mapper d → IsSetUp mapper d3
    Nested-IsSetUp (write {d} m le same) s = record {
      is_init = s.is_init;
      has_mapper = s.has_mapper;
      called = s.called;
      free = s.free;
    }
    Nested-IsSetUp (call regs regs' plt rounds exe name r run inner known back) s =
        let k = Nested-Keeps inner in
        let (pushes, pops) = call_ends regs regs' plt rounds exe name r run k known back in
        Pops-IsSetUp pushes s k (Nested-IsSetUp inner (Pushes-IsSetUp pushes s)) pops
    Nested-IsSetUp (pointer_call regs regs' plt rounds exe name c run inner known back) s =
        let k = Nested-Keeps inner in
        let (pushes, pops) = pointer_call_ends regs regs' plt rounds exe name c run k known back in
        Pops-IsSetUp pushes s k (Nested-IsSetUp inner (Pushes-IsSetUp pushes s)) pops
    Nested-IsSetUp (then_run first second) s = Nested-IsSetUp second (Nested-IsSetUp first s)
