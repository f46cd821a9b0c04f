-- ===== src/Probe/Pointers/Exposed.antt =====
-- What restore_pointers makes visible of a saved stack: the cells of every declared pointer's chain, and
-- what the last one leads to.
use cloud_memory_security.Base.{
  ℕ, zero, suc, ◌+◌, ◌^◌, ◌≤◌, ◌<◌, ◌≡◌, refl, ◌∙◌, Bool, true, false, ◌&&◌, ◌||◌, List, [],
  Bool-cases, inl, inr, ◌∷◌, ◌++◌, leb, ◌==◌, if◌then◌else◌, arith, length,
}
use cloud_memory_security.Memory.{Mem, Machine, within, load64}
use cloud_memory_security.StackBuf.{Hole}
use cloud_memory_security.StackBuf.Holes.{in_hole}
use cloud_memory_security.Probe.Paras.{Para}

-- `[a, a + len)` lies in `[lo, hi)`.
abbrev pub inside : (lo hi a len : ℕ) → Bool
inside lo hi a len = leb lo a && leb (a + len) hi

abbrev pub range : (start len : ℕ) → Hole
range start len = record { start = start; len = len }

-- `m0` is the memory that was saved, `[lo, hi)` the saved stack.
module _ (m0 : Mem) (lo hi : ℕ) where
  -- Where the chain of pointers from `a` on leads after so many levels.
  abbrev pub target : (levels a : ℕ) → ℕ
  target zero a = a
  target (suc n) a = target n (load64 m0 a)

  abbrev pub cells : (levels a : ℕ) → List Hole
  cells zero a = []
  cells (suc n) a = range a 8 ∷ cells n (load64 m0 a)

  -- What lies at the end of the chain, if the stack holds it.
  abbrev pub pointee : (a size : ℕ) → List Hole
  pointee a size = if inside lo hi a size then range a size ∷ [] else []

  abbrev pub exposed_by : Para → List Hole
  exposed_by p = cells p.pointer p.addr ++ pointee (target p.pointer p.addr) p.size

  abbrev pub exposed : List Para → List Hole
  exposed [] = []
  exposed (p ∷ plt) = if p.pointer == 0 then exposed plt else exposed_by p ++ exposed plt

  -- Every cell of the chain lies in the stack.
  abbrev pub Chained : (levels a : ℕ) → Type 0
  Chained zero a = Unit {0}
  Chained (suc n) a = (inside lo hi a 8 ≡ true) × Chained n (load64 m0 a)

  -- The declared pointers' chains lie in the stack; what they lead to is not empty and does not wrap
  -- round.
  abbrev pub AllChained : List Para → Type 0
  AllChained [] = Unit {0}
  AllChained (p ∷ plt) =
      (p.pointer < 2 ^ 31)
      × Chained p.pointer p.addr
      × (0 < p.size)
      × (target p.pointer p.addr + p.size < 2 ^ 64)
      × AllChained plt

  -- Every range is a part of the stack that is not empty.
  abbrev pub AllInside : List Hole → Type 0
  AllInside [] = Unit {0}
  AllInside (h ∷ hs) = (inside lo hi h.start h.len ≡ true) × (0 < h.len) × AllInside hs

  -- From `s` to `s'` the bytes of the ranges have become what they were in `m0`, and nothing else has
  -- changed but the allocator, which handed out a block for each range.
  pub record Shows (s s' : Machine) (hs : List Hole) : Type 0 where
    pub allocs : s'.allocs ≡ s.allocs + length hs
    pub freed : s'.freed ≡ s.freed
    pub mem : (a : ℕ) → s'.mem a ≡ (if in_hole hs a then m0 a else s.mem a)

pub in_hole-++ :
    (hs hs' : List Hole) (a : ℕ) → in_hole (hs ++ hs') a ≡ (in_hole hs a || in_hole hs' a)
in_hole-++ [] hs' a = refl
in_hole-++ (h ∷ hs) hs' a = ground (arith, in_hole-++ hs hs' a)

pub length-++ : (hs hs' : List Hole) → length (hs ++ hs') ≡ length hs + length hs'
length-++ [] hs' = omega arith
length-++ (h ∷ hs) hs' = omega (arith, length-++ hs hs')

module _ (m0 : Mem) (lo hi : ℕ) where
  pub AllInside-++ :
      (hs hs' : List Hole)
      → AllInside m0 lo hi hs
      → AllInside m0 lo hi hs'
      → AllInside m0 lo hi (hs ++ hs')
  AllInside-++ [] hs' p q = q
  AllInside-++ (h ∷ hs) hs' p q = (p.0, p.1, AllInside-++ hs hs' p.2 q)

  pub cells-AllInside :
      (levels a : ℕ) → Chained m0 lo hi levels a → AllInside m0 lo hi (cells m0 lo hi levels a)
  cells-AllInside zero a c = tt
  cells-AllInside (suc n) a c = (c.0, omega arith, cells-AllInside n (load64 m0 a) c.1)

  pub pointee-AllInside : (a size : ℕ) → 0 < size → AllInside m0 lo hi (pointee m0 lo hi a size)
  pointee-AllInside a size pos = elim (Bool-cases (inside lo hi a size)) [
    | inl here ↦ rw here (here, pos, tt)
    | inr out ↦ rw out tt
  ]

  pub exposed_by-AllInside :
      (p : Para)
      → Chained m0 lo hi p.pointer p.addr
      → 0 < p.size
      → AllInside m0 lo hi (exposed_by m0 lo hi p)
  exposed_by-AllInside p chained pos =
      AllInside-++ (cells m0 lo hi p.pointer p.addr)
        (pointee m0 lo hi (target m0 lo hi p.pointer p.addr) p.size)
        (cells-AllInside p.pointer p.addr chained)
        (pointee-AllInside (target m0 lo hi p.pointer p.addr) p.size pos)

  pub exposed-AllInside :
      (plt : List Para) → AllChained m0 lo hi plt → AllInside m0 lo hi (exposed m0 lo hi plt)
  exposed-AllInside [] c = tt
  exposed-AllInside (p ∷ plt) (bits, chained, pos, top, rest) = elim (Bool-cases (p.pointer == 0)) [
    | inl value ↦ rw value (exposed-AllInside plt rest)
    | inr pointer ↦ rw pointer (
        AllInside-++ (exposed_by m0 lo hi p) (exposed m0 lo hi plt)
          (exposed_by-AllInside p chained pos) (exposed-AllInside plt rest))
  ]

  pub length-cells : (levels a : ℕ) → length (cells m0 lo hi levels a) ≡ levels
  length-cells zero a = refl
  length-cells (suc n) a = omega (arith, length-cells n (load64 m0 a))

  pub length-pointee : (a size : ℕ) → length (pointee m0 lo hi a size) ≤ 1
  length-pointee a size = ground arith

  pub exposed_by-few : (p : Para) → length (exposed_by m0 lo hi p) ≤ p.pointer + 1
  exposed_by-few p =
      let end = target m0 lo hi p.pointer p.addr in
      omega (
        arith,
        length-++ (cells m0 lo hi p.pointer p.addr) (pointee m0 lo hi end p.size),
        length-cells p.pointer p.addr,
        length-pointee end p.size,
      )

  pub AllInside-outside :
      (hs : List Hole) (a : ℕ)
      → AllInside m0 lo hi hs
      → within lo hi a ≡ false
      → in_hole hs a ≡ false
  AllInside-outside [] a p out = refl
  AllInside-outside (h ∷ hs) a p out = ground (arith, p.0, AllInside-outside hs a p.2 out)

  pub Shows-trans :
      (s s' s'' : Machine) (hs hs' : List Hole)
      → Shows m0 lo hi s s' hs
      → Shows m0 lo hi s' s'' hs'
      → Shows m0 lo hi s s'' (hs ++ hs')
  Shows-trans s s' s'' hs hs' p q = record {
    allocs = omega (arith, p.allocs, q.allocs, length-++ hs hs');
    freed = q.freed ∙ p.freed;
    mem = λ a. ground (arith, in_hole-++ hs hs' a, p.mem a, q.mem a);
  }
