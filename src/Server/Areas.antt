-- ===== src/Server/Areas.antt =====
-- The areas that get_stack_areas finds, against the stack's addresses.
use cloud_memory_security.Base.{
  ℕ, zero, suc, ◌+◌, ◌-◌, ◌/◌, ◌%◌, ◌≤◌, ◌<◌, ◌≡◌, refl, sym, subst, ◌∙◌, inl, inr, List, [], ◌∷◌,
  ◌==◌, ==_iff, arith, Bool-cases, ok,
}
use cloud_memory_security.Server.{
  StackArea, areas, get_stack_areas, total_len, total_len-get_stack_areas,
}

-- The areas follow one another from `start` to `stop`: each begins at its offset in a page, is not empty,
-- and its frame is that of all its addresses.
abbrev pub Describes : (frame : ℕ → ℕ) (start stop : ℕ) → List StackArea → Type 0
Describes frame start stop [] = start ≡ stop
Describes frame start stop (x ∷ more) =
    (x.offset ≡ start % 4096)
    × (0 < x.len)
    × ((a : ℕ) → start ≤ a → a < start + x.len → frame a ≡ x.page_frame)
    × Describes frame (start + x.len) stop more

-- Every area lies in one page.
abbrev pub InPage : List StackArea → Type 0
InPage [] = Unit {0}
InPage (x ∷ more) = (x.offset + x.len ≤ 4096) × InPage more

module _ (frame : ℕ → ℕ) where
  -- The area that is closed at `tmp_addr`.
  closed_len :
      (tmp_addr top_addr : ℕ) → top_addr < tmp_addr → top_addr + (tmp_addr - top_addr) ≡ tmp_addr
  closed_len tmp_addr top_addr lt = omega arith

  areas-Describes :
      (n tmp_addr top_addr offset pre_page_num : ℕ)
      → top_addr < tmp_addr
      → offset ≡ top_addr % 4096
      → ((a : ℕ) → top_addr ≤ a → a < tmp_addr → frame a ≡ pre_page_num)
      → Describes frame top_addr
          (tmp_addr + n)
          (areas frame n tmp_addr top_addr offset pre_page_num)
  unfolding areas
  areas-Describes zero tmp_addr top_addr offset pre_page_num lt at_offset same =
      (at_offset, omega arith, λ a ge lt'. same a ge (omega arith), omega arith)
  areas-Describes (suc n) tmp_addr top_addr offset pre_page_num lt at_offset same =
      let stop : tmp_addr + suc n ≡ tmp_addr + 1 + n = omega arith in
      rw stop (elim (Bool-cases (frame tmp_addr == pre_page_num)) [
        | inl here ↦
            rw (here, areas)
              (areas-Describes n (tmp_addr + 1) top_addr offset pre_page_num (omega arith) at_offset
                (λ a ge lt'. elim (Bool-cases (a == tmp_addr)) [
                  | inl last ↦
                      let e : a ≡ tmp_addr = (==_iff a tmp_addr).0 last in
                      rw e ((==_iff (frame tmp_addr) pre_page_num).0 here)
                  | inr before ↦ same a ge (ground arith)
                ]))
        | inr other ↦
            rw (other, areas)
              (
                at_offset,
                omega arith,
                λ a ge lt'. same a ge (omega arith),
                rw (closed_len tmp_addr top_addr lt) (
                    areas-Describes n (tmp_addr + 1) tmp_addr (tmp_addr % 4096) (frame tmp_addr)
                      (omega arith) refl (λ a ge lt'. let e : a ≡ tmp_addr = omega arith in rw e)),
              )
      ])

  get_stack_areas-areas :
      (top_addr bottom_addr : ℕ) (found : List StackArea)
      → get_stack_areas frame top_addr bottom_addr ≡ ok found
      → areas frame
          (bottom_addr - (top_addr + 1))
          (top_addr + 1)
          top_addr
          (top_addr % 4096)
          (frame top_addr)
        ≡ found
  unfolding get_stack_areas
  get_stack_areas-areas top_addr bottom_addr found h = ground (arith, h)

  -- When the array has room for them, the areas of a stack that is not empty follow one another from its
  -- top to its bottom, each at its offset in a page, none empty, and with the frame of all its addresses.
  pub get_stack_areas-Describes :
      (top_addr bottom_addr : ℕ) (found : List StackArea)
      → top_addr < bottom_addr
      → get_stack_areas frame top_addr bottom_addr ≡ ok found
      → Describes frame top_addr bottom_addr found
  get_stack_areas-Describes top_addr bottom_addr found lt h =
      let stop : top_addr + 1 + (bottom_addr - (top_addr + 1)) ≡ bottom_addr = omega arith in
      let described =
        areas-Describes (bottom_addr - (top_addr + 1)) (top_addr + 1) top_addr (top_addr % 4096)
          (frame top_addr) (omega arith) refl
          (λ a ge lt'. let e : a ≡ top_addr = omega arith in rw e) in
      subst (Describes frame top_addr bottom_addr)
        (get_stack_areas-areas top_addr bottom_addr found h)
        (subst
          (λ stop. Describes frame top_addr stop (
            areas frame (bottom_addr - (top_addr + 1)) (top_addr + 1) top_addr (top_addr % 4096)
              (frame top_addr)))
          stop described)

  Describes-le :
      (start stop : ℕ) (found : List StackArea) → Describes frame start stop found → start ≤ stop
  Describes-le start stop [] d = omega (arith, d)
  Describes-le start stop (x ∷ more) d = omega (arith, Describes-le (start + x.len) stop more d.3)

  Describes-InPage :
      (start stop : ℕ) (found : List StackArea)
      → ((a b : ℕ)
          → start ≤ a
          → a < stop
          → start ≤ b
          → b < stop
          → frame a ≡ frame b
          → a / 4096 ≡ b / 4096)
      → Describes frame start stop found
      → InPage found
  Describes-InPage start stop [] apart d = tt
  Describes-InPage start stop (x ∷ more) apart d =
      let (at_offset, pos, same, rest) = d in
      let below : start + x.len ≤ stop = Describes-le (start + x.len) stop more rest in
      let last : frame (start + x.len - 1) ≡ frame start =
        same (start + x.len - 1) (omega arith) (omega arith)
        ∙ sym (same start (omega arith) (omega arith)) in
      let one_page : (start + x.len - 1) / 4096 ≡ start / 4096 =
        apart (start + x.len - 1) start (omega arith) (omega arith) (omega arith) (omega arith)
          last in
      (
        omega (arith, one_page),
        Describes-InPage (start + x.len) stop more
            (λ a b ge lt ge' lt' e. apart a b (omega arith) lt (omega arith) lt' e) rest,
      )

  -- When the array has room for the areas of a stack that is not empty, and no two of the stack's pages
  -- have the same frame, each area lies in one page, its bytes being within the 4096 that are read of the
  -- page, and the lengths add up to the stack's size.
  pub get_stack_areas-InPage :
      (top_addr bottom_addr : ℕ) (found : List StackArea)
      → top_addr < bottom_addr
      → ((a b : ℕ)
          → top_addr ≤ a
          → a < bottom_addr
          → top_addr ≤ b
          → b < bottom_addr
          → frame a ≡ frame b
          → a / 4096 ≡ b / 4096)
      → get_stack_areas frame top_addr bottom_addr ≡ ok found
      → InPage found × (total_len found ≡ bottom_addr - top_addr)
  get_stack_areas-InPage top_addr bottom_addr found lt apart h = (
    Describes-InPage top_addr bottom_addr found apart
        (get_stack_areas-Describes top_addr bottom_addr found lt h),
    total_len-get_stack_areas frame top_addr bottom_addr found lt h,
  )
