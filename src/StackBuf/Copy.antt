-- ===== src/StackBuf/Copy.antt =====
-- copy_stack_buf saves a range of the stack.
use cloud_memory_security.Base.{
  ◌||◌, ℕ, zero, suc, ◌+◌, ◌^◌, ◌≤◌, ◌<◌, ◌≡◌, refl, true, false, List, [], ◌∷◌, arith, ltb, ◌==◌,
  if◌then◌else◌, add64, length, Run, ok, Status, success,
}
use cloud_memory_security.Memory.{Mem, Machine, memcpy, alloc, within, user_end}
use cloud_memory_security.Memory.Alloc.{KernelHeap, KeepsBlocks, max_block}
use cloud_memory_security.StackBuf.{ring, Entry, Sbuf, put_slot, copy_stack_buf}
use cloud_memory_security.StackBuf.Saved.{
  copy_of, read_back, IsSaved, AllSaved, AllSame, AllSaved-mono, NoHoles, NoHoles-put_slot, held,
  held-put_slot, AllSaved-put_slot, read_back-put_slot, length-put_slot,
}

module _ (kmalloc : ℕ → ℕ → ℕ) where
  -- The block of each of the first `n` slots came from one of the first `k` calls of `kmalloc`.
  abbrev pub AllBlocks : ℕ → ℕ → List Entry → Type 0
  AllBlocks k zero es = Unit {0}
  AllBlocks k (suc n) [] = Unit {0}
  AllBlocks k (suc n) (e ∷ es) =
      ((i : ℕ) × (i < k) × (e.buf ≡ kmalloc i e.len) × (e.len ≤ max_block)) × AllBlocks k n es

  -- A buffer whose slots in use are saved ranges below `hi`, in blocks of their own.
  pub record IsValid (hi : ℕ) (s : Machine) (sbuf : Sbuf) : Type 0 where
    pub written : sbuf.cur ≤ length sbuf.slots
    pub fits : sbuf.cur ≤ sbuf.cap
    pub saved : AllSaved 0 hi sbuf.cur sbuf.slots
    pub blocks : AllBlocks s.allocs sbuf.cur sbuf.slots

  AllBlocks-put_slot :
      (k n : ℕ) (es : List Entry) (e : Entry)
      → AllBlocks k n es
      → e.buf ≡ kmalloc k e.len
      → e.len ≤ max_block
      → AllBlocks (k + 1) (suc n) (put_slot es n e)
  unfolding put_slot
  AllBlocks-put_slot k zero [] e p eq le = ((k, omega arith, eq, le), tt)
  AllBlocks-put_slot k zero (x ∷ es) e p eq le = ((k, omega arith, eq, le), tt)
  AllBlocks-put_slot k (suc n) [] e p eq le = ((k, omega arith, eq, le), tt)
  AllBlocks-put_slot k (suc n) (x ∷ es) e p eq le =
      ((p.0.0, omega (arith, p.0.1), p.0.2, p.0.3), AllBlocks-put_slot k n es e p.1 eq le)

  -- A call that saved `[buf, buf + len)`: the buffer is valid and holds the bytes of the range,
  -- whatever is written to user memory from now on; it says of every other byte what it said before.
  pub record Copies (s : Machine) (sbuf : Sbuf) (buf len : ℕ) (r : Run (Status × Sbuf × Machine))
      : Type 0 where
    pub sbuf' : Sbuf
    pub s' : Machine
    pub returns : r ≡ ok (success, sbuf', s')
    pub valid : IsValid (buf + len) s' sbuf'
    pub addr : sbuf'.addr ≡ sbuf.addr
    pub cap : sbuf'.cap ≡ sbuf.cap
    pub cur : sbuf'.cur ≡ suc sbuf.cur
    pub freed : s'.freed ≡ s.freed
    pub allocs : s'.allocs ≡ s.allocs + 1
    pub user : (a : ℕ) → a < user_end → s'.mem a ≡ s.mem a
    pub reads :
        (m : Mem)
        → ((p : ℕ) → user_end ≤ p → m p ≡ s'.mem p)
        → (a : ℕ)
        → read_back sbuf'.cur sbuf'.slots m a
          ≡ (if within buf (buf + len) a then s.mem a else read_back sbuf.cur sbuf.slots m a)
    pub no_holes : NoHoles sbuf.cur sbuf.slots → NoHoles sbuf'.cur sbuf'.slots
    pub holds :
        (a : ℕ)
        → held sbuf'.cur sbuf'.slots a ≡ (held sbuf.cur sbuf.slots a || within buf (buf + len) a)
    pub same : AllSame s.mem s'.mem sbuf.cur sbuf.slots
    pub kept : KeepsBlocks kmalloc s.allocs s.mem s'.mem

  abbrev pub new_entry : Machine → ℕ → ℕ → Entry
  new_entry s buf len = record {
    buf = kmalloc s.allocs len;
    start = buf;
    len = len;
    hole_list = ring [];
  }

  module _ (calls : ℕ) (heap : KernelHeap kmalloc calls) where
    -- Filling the next block touches none of those in use.
    AllSame-memcpy :
        (k n : ℕ) (es : List Entry) (m : Mem) (from len : ℕ)
        → AllBlocks k n es
        → k < calls
        → len ≤ max_block
        → AllSame m (memcpy m (kmalloc k len) from len) n es
    unfolding memcpy
    AllSame-memcpy k zero es m from len p call le = tt
    AllSame-memcpy k (suc n) [] m from len p call le = tt
    AllSame-memcpy k (suc n) (e ∷ es) m from len p call le = (
      λ q lo hi.
          let (i, lt, eq, small) = p.0 in ground (arith, heap.apart i k e.len len lt call small le),
      AllSame-memcpy k n es m from len p.1 call le,
    )

    pub copy_stack_buf-saves :
        (s : Machine) (sbuf : Sbuf) (buf len : ℕ)
        → sbuf.cur < sbuf.cap
        → sbuf.cap < 2 ^ 63
        → s.allocs < calls
        → len ≤ max_block
        → copy_stack_buf kmalloc sbuf s buf len
          ≡ ok (
            success,
            record sbuf {
              slots = put_slot sbuf.slots sbuf.cur (new_entry s buf len);
              cur = suc sbuf.cur;
            },
            record s { mem = memcpy s.mem (kmalloc s.allocs len) buf len; allocs = s.allocs + 1 },
          )
    copy_stack_buf-saves s sbuf buf len room small call le =
        let no_grow : (sbuf.cur == sbuf.cap) ≡ false = ground arith in
        let slot : ltb sbuf.cur sbuf.cap ≡ true = ground arith in
        let block : (kmalloc s.allocs len == 0) ≡ false =
          ground (arith, heap.kernel s.allocs len call le) in
        let next : add64 sbuf.cur 1 ≡ suc sbuf.cur = omega arith in
        unfold copy_stack_buf alloc in rw no_grow (rw slot (rw block (rw next)))

    pub new_entry-IsSaved :
        (s : Machine) (buf len : ℕ)
        → buf + len ≤ user_end
        → s.allocs < calls
        → len ≤ max_block
        → IsSaved buf (new_entry s buf len)
    new_entry-IsSaved s buf len user call small = record {
      has_ring = refl;
      above = omega arith;
      user = user;
      kernel = heap.kernel s.allocs len call small;
      top = heap.top s.allocs len call small;
    }

    -- With a slot and a call of kmalloc left, saving a range of user memory of at most 4 MB above the
    -- ranges saved so far succeeds: the
    -- buffer stays valid and stays where it is, no byte of user memory changes and no block is freed;
    -- from now on it says of the range's bytes what they are now, and of all others what it said.
    pub copy_stack_buf-Copies :
        (s : Machine) (sbuf : Sbuf) (hi buf len : ℕ)
        → IsValid hi s sbuf
        → sbuf.cur < sbuf.cap
        → sbuf.cap < 2 ^ 63
        → hi ≤ buf
        → buf + len ≤ user_end
        → s.allocs < calls
        → len ≤ max_block
        → Copies s sbuf buf len (copy_stack_buf kmalloc sbuf s buf len)
    copy_stack_buf-Copies s sbuf hi buf len v room small above user call le = record {
      sbuf' = record sbuf { slots = put_slot sbuf.slots sbuf.cur e; cur = suc sbuf.cur };
      s' = record s { mem = memcpy s.mem e.buf buf len; allocs = s.allocs + 1 };
      returns = copy_stack_buf-saves s sbuf buf len room small call le;
      valid = record {
        written = length-put_slot sbuf.slots sbuf.cur e v.written;
        fits = room;
        saved = AllSaved-put_slot 0 buf sbuf.cur sbuf.slots e saved (v.written) is_saved;
        blocks = AllBlocks-put_slot s.allocs sbuf.cur sbuf.slots e v.blocks refl le;
      };
      addr = refl;
      cap = refl;
      cur = refl;
      freed = refl;
      allocs = refl;
      user = λ a low. unfold memcpy in ground (arith, heap.kernel s.allocs len call le);
      reads = λ m agree a.
          unfold memcpy in
          ground (
            arith,
            read_back-put_slot 0 buf sbuf.cur sbuf.slots e m a saved (omega arith),
            agree (copy_of e a),
            heap.kernel s.allocs len call le,
          );
      no_holes = λ p. NoHoles-put_slot sbuf.cur sbuf.slots e p refl;
      holds = λ a. held-put_slot sbuf.cur sbuf.slots e a v.written;
      same = AllSame-memcpy s.allocs sbuf.cur sbuf.slots s.mem buf len v.blocks call le;
      kept = λ i size a lt le' ge lt'.
          unfold memcpy in ground (arith, heap.apart i s.allocs size len lt call le' le);
    }
      where
        e : Entry
        e = new_entry s buf len

        is_saved : IsSaved buf e
        is_saved = new_entry-IsSaved s buf len user call le

        saved : AllSaved 0 buf sbuf.cur sbuf.slots
        saved = AllSaved-mono 0 hi buf sbuf.cur sbuf.slots v.saved above
