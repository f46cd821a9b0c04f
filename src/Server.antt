-- ===== src/Server.antt =====
-- clear_stack/stack_encrypt_server.c: the physical pages behind a stack. The page frame that
-- /proc/<pid>/pagemap gives for an address is the parameter `frame`, the process left to it.
pub mod Pagemap
pub mod DevMem
pub mod Requests
pub mod Client
pub mod Length
pub mod Areas
pub mod Table
pub mod Session
pub mod Echo
pub mod Dump
mod Tests
use cloud_memory_security.Base.{
  ℕ, zero, suc, ◌+◌, ◌-◌, ◌%◌, Bool, false, ◌||◌, List, [], ◌∷◌, leb, ◌==◌, if◌then◌else◌, length,
  Run, ok, oops, ◌≡◌, ◌≤◌, ◌<◌, ◌∙◌, inl, inr, arith, Bool-cases,
}
use cloud_memory_security.Memory.{within}

-- `struct stack_area`
pub record StackArea : Type 0 where
  pub page_frame : ℕ
  pub offset : ℕ
  pub len : ℕ

-- The characters that are shown as they are.
abbrev pub punctuation : List ℕ
punctuation = b' ' ∷ b'.' ∷ b'-' ∷ b',' ∷ b'(' ∷ b')' ∷ b'[' ∷ b']' ∷ b'{' ∷ b'}' ∷ []

abbrev pub one_of : List ℕ → ℕ → Bool
one_of [] c = false
one_of (x ∷ xs) c = (c == x) || one_of xs c

unfoldable pub safechar : ℕ → ℕ
safechar c =
    if within b'a' (b'z' + 1) c
      || within b'A' (b'Z' + 1) c
      || within b'0' (b'9' + 1) c
      || one_of punctuation c
    then c
    else b'@'

module _ (frame : ℕ → ℕ) where
  -- The first address from `addr` on, of the next `n`, that lies in another frame than `pre_offset`:
  -- its frame, or 0.
  unfoldable pub other_frame : (n addr pre_offset : ℕ) → ℕ
  other_frame zero addr pre_offset = 0
  other_frame (suc n) addr pre_offset =
      let rest = other_frame n (addr + 1) pre_offset in
      if frame addr == pre_offset then rest else frame addr

  -- The frames of `[addr, addr + 4096)`, 0 where there is no second.
  unfoldable pub get_page_frames : ℕ → ℕ × ℕ
  get_page_frames addr = (frame addr, other_frame 4095 (addr + 1) (frame addr))

  -- The loop of get_stack_areas, with `n` addresses left before the bottom: `top_addr`, `offset` and
  -- `pre_page_num` are of the area that is open.
  unfoldable pub areas : (n tmp_addr top_addr offset pre_page_num : ℕ) → List StackArea
  areas zero tmp_addr top_addr offset pre_page_num =
      record { page_frame = pre_page_num; offset = offset; len = tmp_addr - top_addr } ∷ []
  areas (suc n) tmp_addr top_addr offset pre_page_num =
      let same_page = areas n (tmp_addr + 1) top_addr offset pre_page_num in
      let next_page = areas n (tmp_addr + 1) tmp_addr (tmp_addr % 4096) (frame tmp_addr) in
      if frame tmp_addr == pre_page_num
      then same_page
      else record { page_frame = pre_page_num; offset = offset; len = tmp_addr - top_addr }
        ∷ next_page

  -- The array has room for 10 areas, and nothing checks it.
  unfoldable pub get_stack_areas : (top_addr bottom_addr : ℕ) → Run (List StackArea)
  get_stack_areas top_addr bottom_addr =
      let found =
        areas (bottom_addr - (top_addr + 1)) (top_addr + 1) top_addr (top_addr % 4096)
          (frame top_addr) in
      if leb (length found) 10 then ok found else oops

abbrev pub total_len : List StackArea → ℕ
total_len [] = 0
total_len (a ∷ more) = a.len + total_len more

total_len-areas :
    (frame : ℕ → ℕ) (n tmp_addr top_addr offset pre_page_num : ℕ)
    → top_addr ≤ tmp_addr
    → total_len (areas frame n tmp_addr top_addr offset pre_page_num) ≡ tmp_addr + n - top_addr
unfolding areas
total_len-areas frame zero tmp_addr top_addr offset pre_page_num le = omega arith
total_len-areas frame (suc n) tmp_addr top_addr offset pre_page_num le =
    elim (Bool-cases (frame tmp_addr == pre_page_num)) [
      | inl same ↦ rw same (
          total_len-areas frame n (tmp_addr + 1) top_addr offset pre_page_num (omega arith)
          ∙ omega arith)
      | inr other ↦ rw other (
          omega (
            arith,
            total_len-areas frame n (tmp_addr + 1) tmp_addr (tmp_addr % 4096) (frame tmp_addr)
                (omega arith),
          ))
    ]

-- When the array has room for them, the lengths of the areas of a stack that is not empty add up to
-- its size.
pub total_len-get_stack_areas :
    (frame : ℕ → ℕ) (top_addr bottom_addr : ℕ) (found : List StackArea)
    → top_addr < bottom_addr
    → get_stack_areas frame top_addr bottom_addr ≡ ok found
    → total_len found ≡ bottom_addr - top_addr
unfolding get_stack_areas
total_len-get_stack_areas frame top_addr bottom_addr found lt h =
    let sum =
      total_len-areas frame (bottom_addr - (top_addr + 1)) (top_addr + 1) top_addr (top_addr % 4096)
        (frame top_addr) (omega arith) in
    ground (arith, sum)
