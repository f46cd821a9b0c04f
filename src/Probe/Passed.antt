-- ===== src/Probe/Passed.antt =====
-- Saving and overwriting a range of the caller's stack, in the loop of jsys_encrypt_stack.
use cloud_memory_security.Base.{
  ℕ, suc, ◌+◌, ◌-◌, ◌^◌, ◌≤◌, ◌<◌, ◌≡◌, refl, subst, ◌∙◌, ◌⊎◌, inl, inr, Bool, true, false, ◌&&◌,
  ◌||◌, List, [], ◌∷◌, arith, ltb, ◌==◌, Run, Status, ltb→lt, ok, Bool-cases,
}
use cloud_memory_security.Memory.{Mem, Machine, within, memset, set_mem, user_end}
use cloud_memory_security.Memory.Alloc.{KernelHeap, KeepsBlocks, max_block}
use cloud_memory_security.StackBuf.{Sbuf, copy_stack_buf}
use cloud_memory_security.StackBuf.Saved.{
  read_back, AllSame-user, NoHoles, held, AllSaved-mono, read_back_congr,
}
use cloud_memory_security.StackBuf.Copy.{IsValid, Copies, copy_stack_buf-Copies}
use cloud_memory_security.Probe.Paras.{Para}
use cloud_memory_security.Probe.Shielded.{Spares}
use cloud_memory_security.Probe.Scan.{Slot, live, flush}

-- The byte is one that a parameter declares to stay as it is.
abbrev pub in_para : List Para → ℕ → Bool
in_para [] a = false
in_para (p ∷ plt) a = (p.pointer == 0 && within p.addr (p.addr + p.size) a) || in_para plt a

-- No declared parameter reaches past the end of the address space.
abbrev pub NoWrap : List Para → Type 0
NoWrap [] = Unit {0}
NoWrap (p ∷ plt) = (p.addr + p.size < 2 ^ 64) × NoWrap plt

module _ (kmalloc : ℕ → ℕ → ℕ) (plt : List Para) (user_rsp user_rbp : ℕ) (sbuf : Sbuf)
    (s : Machine) where
  -- The machine and the buffer after some of the stack, up to `prev`, was handled: the buffer gives
  -- every byte of user memory back, what was passed is protected or cleared, and nothing outside
  -- `[user_rsp, user_rbp)` has changed.
  pub record Passed (prev : ℕ) (sbuf' : Sbuf) (s' : Machine) : Type 0 where
    pub valid : IsValid kmalloc prev s' sbuf'
    pub addr : sbuf'.addr ≡ sbuf.addr
    pub cap : sbuf'.cap ≡ sbuf.cap
    pub freed : s'.freed ≡ s.freed
    pub allocs : s'.allocs + sbuf.cur ≡ s.allocs + sbuf'.cur
    pub kept : KeepsBlocks kmalloc s.allocs s.mem s'.mem
    pub cur : sbuf.cur ≤ sbuf'.cur
    pub no_holes : NoHoles sbuf'.cur sbuf'.slots
    pub recovers : (a : ℕ) → a < user_end → read_back sbuf'.cur sbuf'.slots s'.mem a ≡ s.mem a
    pub cleared :
        (a : ℕ) → user_rsp ≤ a → a < prev → a < user_rbp → in_para plt a ≡ false → s'.mem a ≡ b'0'
    pub holds :
        (a : ℕ)
        → user_rsp ≤ a
        → a < prev
        → a < user_rbp
        → in_para plt a ≡ false
        → held sbuf'.cur sbuf'.slots a ≡ true
    pub in_stack : (a : ℕ) → held sbuf'.cur sbuf'.slots a ≡ true → (user_rsp ≤ a) × (a < user_rbp)
    pub outside : (a : ℕ) → a < user_end → (a < user_rsp) ⊎ (user_rbp ≤ a) → s'.mem a ≡ s.mem a
    pub pending : (a : ℕ) → a < user_end → prev ≤ a → s'.mem a ≡ s.mem a

  -- How the loop ends that saved up to `prev` and looks at `i`: its buffer and its machine have passed all
  -- of the stack, and the bytes of the parameters that it had yet to reach are as they were.
  abbrev pub ScanEnds : (prev i : ℕ) → Sbuf → Machine → Run (Slot × Machine) → Type 0
  ScanEnds prev i b t r =
      (hi : ℕ) × (b' : Sbuf) × (t' : Machine) × (r ≡ ok (live b', t'))
      × (user_rbp ≤ hi)
      × Passed hi b' t'
      × Spares plt prev i b t b' t'

  module _ (calls : ℕ) (heap : KernelHeap kmalloc calls) (top : user_rbp < user_end)
      (small : user_rbp ≤ user_rsp + max_block) (slots : sbuf.cap < 2 ^ 63)
      (left : s.allocs + sbuf.cap ≤ calls + sbuf.cur) where
    -- What was saved is overwritten.
    overwritten :
        (prev i : ℕ) (b : Sbuf) (t : Machine) {r : Run (Status × Sbuf × Machine)}
        → Passed prev b t
        → user_rsp ≤ prev
        → prev < i
        → i ≤ user_rbp
        → (c : Copies kmalloc t b prev (i - prev) r)
        → Passed i c.sbuf' (set_mem c.s' (memset c.s'.mem prev b'0' (i - prev)))
    overwritten prev i b t p lo lt hi c = record {
      valid = record {
        written = c.valid.written;
        fits = c.valid.fits;
        saved =
            AllSaved-mono 0 (prev + (i - prev)) i c.sbuf'.cur c.sbuf'.slots c.valid.saved
              (omega arith);
        blocks = c.valid.blocks;
      };
      addr = c.addr ∙ p.addr;
      cap = c.cap ∙ p.cap;
      freed = c.freed ∙ p.freed;
      allocs = omega (arith, c.allocs, c.cur, p.allocs);
      kept = λ k size a lt le ge lt'.
          unfold memset in
          ground (
            arith,
            heap.kernel k size (omega (arith, p.cur, p.valid.fits, p.cap)) le,
            c.kept k size a (omega (arith, p.allocs, p.cur)) le ge lt',
            p.kept k size a lt le ge lt',
          );
      cur = omega (arith, c.cur, p.cur);
      no_holes = c.no_holes p.no_holes;
      recovers = gives_back;
      cleared = λ a ge lt' below free. unfold memset in ground (arith, c.user a, p.cleared a ge);
      holds = λ a ge lt' below free. ground (arith, c.holds a, p.holds a ge);
      in_stack = λ a h. ground (arith, c.holds a, p.in_stack a);
      outside = λ a low out. unfold memset in ground (arith, c.user a, p.outside a low);
      pending = λ a low ge. unfold memset in ground (arith, c.user a, p.pending a low);
    }
      where
        m₂ : Mem
        m₂ = memset c.s'.mem prev b'0' (i - prev)

        kernel_same : (q : ℕ) → user_end ≤ q → m₂ q ≡ c.s'.mem q
        kernel_same q ge = unfold memset in ground arith

        -- Of the bytes outside the range the older slots say what they said.
        older :
            (a : ℕ)
            → a < user_end
            → within prev (prev + (i - prev)) a ≡ false
            → read_back b.cur b.slots m₂ a ≡ s.mem a
        older a low out =
            read_back_congr b.cur b.slots c.s'.mem m₂ a
              (AllSame-user 0 prev b.cur b.slots c.s'.mem m₂ p.valid.saved kernel_same)
              (unfold memset in rw out)
            ∙ read_back_congr b.cur b.slots t.mem c.s'.mem a c.same (c.user a low)
            ∙ p.recovers a low

        gives_back : (a : ℕ) → a < user_end → read_back c.sbuf'.cur c.sbuf'.slots m₂ a ≡ s.mem a
        gives_back a low =
            c.reads m₂ kernel_same a ∙ elim (Bool-cases (within prev (prev + (i - prev)) a)) [
              | inl inside ↦ rw inside (p.pending a low (ground arith))
              | inr out ↦ rw out (older a low out)
            ]

    -- Saving and overwriting the bytes that are pending.
    pub flush-Passed :
        (prev i : ℕ) (b : Sbuf) (t : Machine)
        → Passed prev b t
        → user_rsp ≤ prev
        → prev ≤ i
        → i ≤ user_rbp
        → b.cur < b.cap
        → (b' : Sbuf) × (t' : Machine) × (flush kmalloc prev i (live b) t ≡ ok (live b', t'))
          × Passed i b' t'
          × (b'.cur ≤ suc b.cur)
          × ((a : ℕ)
              → a < user_end
              → (a < prev) ⊎ (i ≤ a)
              → (t'.mem a ≡ t.mem a) × (held b'.cur b'.slots a ≡ held b.cur b.slots a))
    unfolding flush
    flush-Passed prev i b t p lo le hi room = elim (Bool-cases (ltb prev i)) [
      | inr none_left ↦
          let same : prev ≡ i = ground arith in
          (
            b,
            t,
            rw none_left,
            subst (λ j. Passed j b t) same p,
            omega arith,
            λ a low out. (refl, refl),
          )
      | inl some_left ↦
          let c = saves in
          (
            c.sbuf',
            set_mem c.s' (memset c.s'.mem prev b'0' (i - prev)),
            rw some_left (rw c.returns),
            overwritten prev i b t p lo (ltb→lt prev i some_left) hi c,
            omega (arith, c.cur),
            λ a low out. (unfold memset in ground (arith, c.user a low), ground (arith, c.holds a)),
          )
    ]
      where
        len : ℕ
        len = i - prev

        saves : Copies kmalloc t b prev len (copy_stack_buf kmalloc b t prev len)
        saves =
            copy_stack_buf-Copies kmalloc calls heap t b prev prev len p.valid room (rw p.cap slots)
              (omega arith) (omega arith) (omega (arith, p.allocs, p.cap)) (omega arith)

    -- What is jumped over is protected.
    pub skipped :
        (i j : ℕ) (b : Sbuf) (t : Machine)
        → Passed i b t
        → i ≤ j
        → ((a : ℕ) → i ≤ a → a < j → in_para plt a ≡ true)
        → Passed j b t
    skipped i j b t p le protected = record {
      valid = record {
        written = p.valid.written;
        fits = p.valid.fits;
        saved = AllSaved-mono 0 i j b.cur b.slots p.valid.saved le;
        blocks = p.valid.blocks;
      };
      addr = p.addr;
      cap = p.cap;
      freed = p.freed;
      allocs = p.allocs;
      kept = p.kept;
      cur = p.cur;
      no_holes = p.no_holes;
      recovers = p.recovers;
      cleared = λ a ge lt below free. ground (arith, p.cleared a ge, protected a);
      holds = λ a ge lt below free. ground (arith, p.holds a ge, protected a);
      in_stack = p.in_stack;
      outside = p.outside;
      pending = λ a low ge. p.pending a low (omega arith);
    }
