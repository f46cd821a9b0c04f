-- ===== src/StackBuf/Holes.antt =====
-- The write-back of one slot between its holes.
use cloud_memory_security.Base.{
  ℕ, ◌+◌, ◌-◌, ◌^◌, ◌≤◌, ◌<◌, ◌≡◌, refl, ◌∙◌, inl, inr, Bool, false, ltb, ok, Bool-cases, not, ◌&&◌,
  ◌||◌, List, [], ◌∷◌, arith, ◌==◌, if◌then◌else◌, add64, sub64,
}
use cloud_memory_security.Memory.{Mem, within, memcpy}
use cloud_memory_security.Memory.Alloc.{Apart}
use cloud_memory_security.StackBuf.{Hole, copy_back, restore_range}

-- The address lies in one of the holes.
abbrev pub in_hole : List Hole → ℕ → Bool
in_hole [] p = false
in_hole (h ∷ hs) p = within h.start (h.start + h.len) p || in_hole hs p

-- The holes lie one behind the other in `[from, stop)`.
abbrev pub IsPlaced : ℕ → ℕ → List Hole → Type 0
IsPlaced from stop [] = from ≤ stop
IsPlaced from stop (h ∷ hs) = (from ≤ h.start) × IsPlaced (h.start + h.len) stop hs

IsPlaced-le : (from stop : ℕ) (hs : List Hole) → IsPlaced from stop hs → from ≤ stop
IsPlaced-le from stop [] p = p
IsPlaced-le from stop (h ∷ hs) p = omega (arith, IsPlaced-le (h.start + h.len) stop hs p.1)

in_hole_before :
    (from stop p : ℕ) (hs : List Hole) → IsPlaced from stop hs → p < from → in_hole hs p ≡ false
in_hole_before from stop p [] placed lt = refl
in_hole_before from stop p (h ∷ hs) placed lt =
    ground (arith, in_hole_before (h.start + h.len) stop p hs placed.1)

-- The test `len != 0` before a `memcpy` changes nothing.
copy_nonempty :
    (m : Mem) (to from len b : ℕ)
    → (if len == 0 then m else memcpy m to from len) b
      ≡ (if within to (to + len) b then m (from + (b - to)) else m b)
unfolding memcpy
copy_nonempty m to from len b = ground arith

-- A copy that stays below the end of the address space returns.
copy_back_lem :
    (m : Mem) (to from len : ℕ)
    → from + len ≤ 2 ^ 64
    → to + len ≤ 2 ^ 64
    → copy_back m to from len ≡ ok (memcpy m to from len)
unfolding copy_back
copy_back_lem m to from len lo hi = ground arith

-- One hole, with the differences and sums of the code free of wrap-around.
restore_range-cons :
    (m : Mem) (to from stop : ℕ) (h : Hole) (hs : List Hole)
    → from ≤ h.start
    → h.start + h.len ≤ stop
    → stop < 2 ^ 64
    → to + (stop - from) < 2 ^ 64
    → restore_range m to from stop (h ∷ hs)
      ≡ restore_range
          (let len = h.start - from in if len == 0 then m else memcpy m to from len)
          (to + (h.start - from + h.len))
          (h.start + h.len)
          stop
          hs
unfolding restore_range copy_back
restore_range-cons m to from stop h hs le fits lo hi =
    let gap : sub64 h.start from ≡ h.start - from = omega arith in
    let moved : add64 to (add64 (h.start - from) h.len) ≡ to + (h.start - from + h.len) =
      omega arith in
    let past : add64 h.start h.len ≡ h.start + h.len = omega arith in
    let below : (ltb (2 ^ 64) (from + (h.start - from)) || ltb (2 ^ 64) (to + (h.start - from)))
        ≡ false =
      ground arith in
    rw gap (
      rw moved (
        rw past (elim (Bool-cases (h.start - from == 0)) [
          | inl empty ↦ rw empty refl
          | inr some_bytes ↦ rw some_bytes (rw below refl)
        ])))

-- If the holes lie one behind the other in the saved block, and neither the block nor the range wraps
-- round or they meet, writing the block back ends well, gives each byte of the range outside the holes its
-- saved value, and leaves every other byte as it is.
pub restore_range_lem :
    (m : Mem) (to from stop : ℕ) (hs : List Hole)
    → IsPlaced from stop hs
    → Apart to (stop - from) from (stop - from)
    → stop < 2 ^ 64
    → to + (stop - from) < 2 ^ 64
    → (m' : Mem) × (restore_range m to from stop hs ≡ ok m')
      × ((a : ℕ)
          → m' a ≡ (
              if within to (to + (stop - from)) a && not (in_hole hs (from + (a - to)))
              then m (from + (a - to))
              else m a))
unfolding restore_range
restore_range_lem m to from stop [] placed apart lo hi =
    let len : sub64 stop from ≡ stop - from = omega arith in
    (
      memcpy m to from (stop - from),
      rw len (copy_back_lem m to from (stop - from) (omega arith) (omega arith)),
      λ a. unfold memcpy in ground arith,
    )
restore_range_lem m to from stop (h ∷ hs) placed apart lo hi =
    let fits : h.start + h.len ≤ stop = IsPlaced-le (h.start + h.len) stop hs placed.1 in
    let len = h.start - from in
    let to' = to + (len + h.len) in
    let from' = h.start + h.len in
    let m1 : Mem = if len == 0 then m else memcpy m to from len in
    let (m', run, reads) =
      restore_range_lem m1 to' from' stop hs placed.1 (ground arith) lo (omega arith) in
    (
      m',
      restore_range-cons m to from stop h hs placed.0 fits lo hi ∙ run,
      λ a. ground (
        arith,
        reads a,
        copy_nonempty m to from len a,
        copy_nonempty m to from len (from' + (a - to')),
        in_hole_before from' stop (from + (a - to)) hs placed.1,
      ),
    )
