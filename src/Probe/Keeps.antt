-- ===== src/Probe/Keeps.antt =====
-- What a stretch of the program's run leaves alone, for the calls that are on the stack meanwhile.
use cloud_memory_security.Base.{
  ℕ, zero, suc, ◌≤◌, ◌<◌, ◌≡◌, refl, ◌∙◌, List, [], ◌∷◌, arith, length, get_elem?,
}
use cloud_memory_security.Memory.{Mem, user_end}
use cloud_memory_security.Memory.Alloc.{KernelHeap, KeepsBlocks}
use cloud_memory_security.StackBuf.{Entry}
use cloud_memory_security.StackBuf.Saved.{AllSame}
use cloud_memory_security.StackBuf.Copy.{AllBlocks}
use cloud_memory_security.Probe.{Module, resumed}

-- From `d` to `d'`: both stacks are as high and hold below their tops what they held, the module is set
-- up as it was, and no block that was allocated has changed.
pub record Keeps (kmalloc : ℕ → ℕ → ℕ) (d d' : Module) : Type 0 where
  pub init : d'.init ≡ d.init
  pub mapper : d'.mapper ≡ d.mapper
  pub call_top : d'.call_stack_top ≡ d.call_stack_top
  pub sbuf_top : d'.sbuf_stack_top ≡ d.sbuf_stack_top
  pub calls_below :
      (i : ℕ) → i < d.call_stack_top → get_elem? d'.call_stack i ≡ get_elem? d.call_stack i
  pub slots_below :
      (i : ℕ) → i < d.sbuf_stack_top → get_elem? d'.sbuf_stack i ≡ get_elem? d.sbuf_stack i
  pub call_room : length d'.call_stack ≡ length d.call_stack
  pub slot_room : length d'.sbuf_stack ≡ length d.sbuf_stack
  pub allocs : d.machine.allocs ≤ d'.machine.allocs
  pub kept : KeepsBlocks kmalloc d.machine.allocs d.machine.mem d'.machine.mem

module _ (kmalloc : ℕ → ℕ → ℕ) where
  pub Keeps-trans :
      (d d' d'' : Module) → Keeps kmalloc d d' → Keeps kmalloc d' d'' → Keeps kmalloc d d''
  Keeps-trans d d' d'' p q = record {
    init = q.init ∙ p.init;
    mapper = q.mapper ∙ p.mapper;
    call_top = q.call_top ∙ p.call_top;
    sbuf_top = q.sbuf_top ∙ p.sbuf_top;
    calls_below = λ i lt. q.calls_below i (omega (arith, p.call_top)) ∙ p.calls_below i lt;
    slots_below = λ i lt. q.slots_below i (omega (arith, p.sbuf_top)) ∙ p.slots_below i lt;
    call_room = q.call_room ∙ p.call_room;
    slot_room = q.slot_room ∙ p.slot_room;
    allocs = omega (arith, p.allocs, q.allocs);
    kept = λ i size a lt le ge lt'.
        q.kept i size a (omega (arith, p.allocs)) le ge lt' ∙ p.kept i size a lt le ge lt';
  }

  -- The program writes to user memory only.
  pub resumed-Keeps :
      (calls : ℕ) (heap : KernelHeap kmalloc calls) (d : Module) (m : Mem)
      → d.machine.allocs ≤ calls
      → ((p : ℕ) → user_end ≤ p → m p ≡ d.machine.mem p)
      → Keeps kmalloc d (resumed d m)
  resumed-Keeps calls heap d m le same = record {
    init = refl;
    mapper = refl;
    call_top = refl;
    sbuf_top = refl;
    calls_below = λ i lt. refl;
    slots_below = λ i lt. refl;
    call_room = refl;
    slot_room = refl;
    allocs = omega arith;
    kept = λ i size a lt le' ge lt'. same a (omega (arith, heap.kernel i size (omega arith) le'));
  }

  -- Blocks that no call has handed out again hold their saved bytes.
  pub KeepsBlocks-AllSame :
      (k n : ℕ) (es : List Entry) (m m' : Mem)
      → KeepsBlocks kmalloc k m m'
      → AllBlocks kmalloc k n es
      → AllSame m m' n es
  KeepsBlocks-AllSame k zero es m m' kept p = tt
  KeepsBlocks-AllSame k (suc n) [] m m' kept p = tt
  KeepsBlocks-AllSame k (suc n) (e ∷ es) m m' kept p = (
    λ q lo hi.
        let (i, lt, eq, small) = p.0 in
        kept i e.len q lt small (omega (arith, eq)) (omega (arith, eq)),
    KeepsBlocks-AllSame k n es m m' kept p.1,
  )
