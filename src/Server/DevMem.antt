-- ===== src/Server/DevMem.antt =====
-- encrypt_stack and read_memory_page of clear_stack/stack_encrypt_server.c: physical pages are read and
-- written through /dev/mem.
use cloud_memory_security.Base.{
  ℕ, zero, suc, ◌+◌, ◌-◌, ◌*◌, ◌%◌, ◌^◌, ◌≤◌, ◌<◌, ◌≡◌, refl, ◌∙◌, inl, inr, ◌⊎◌, Bool, true, false,
  not, List, [], ◌∷◌, Option, none, some, ltb, ◌==◌, if◌then◌else◌, mul64, arith, Bool-cases,
  Status, success, failure, Run, ok, oops, ◌>>=◌,
}
use cloud_memory_security.Memory.{Mem, within}
use cloud_memory_security.Server.{StackArea, safechar, get_stack_areas}
use cloud_memory_security.Server.Pagemap.{get_page_frame_number_of_address}

-- Physical memory, how often `open` was called, how many files are open, and `buffer`.
pub record Device : Type 0 where
  pub phys : Mem
  pub opened : ℕ
  pub fds : ℕ
  pub buffer : Mem

-- The lower of the two.
abbrev pub at_most : ℕ → ℕ → ℕ
at_most cap n = if ltb n cap then n else cap

-- `read(fd, buffer, 4096)` with the file at `pos`, where `count` bytes are transferred.
unfoldable pub read_page : (count pos : ℕ) → Device → Device
read_page count pos d = record d {
  buffer = λ i. if ltb i (at_most 4096 count) then d.phys (pos + i) else d.buffer i;
}

-- `write(fd, buffer, 4096)`, likewise.
unfoldable pub write_page : (count pos : ℕ) → Device → Device
write_page count pos d = record d {
  phys = λ a. if within pos (pos + at_most 4096 count) a then d.buffer (a - pos) else d.phys a;
}

-- Whether the call of `open` with the number succeeds, whether `lseek` accepts an offset, and how
-- many bytes `read` and `write` transfer at an offset.
module _ (opens seeks : ℕ → Bool) (reads writes : ℕ → ℕ) where
  -- What `lseek` returns.
  abbrev pub lseek : ℕ → ℕ
  lseek offset = if seeks offset then offset else 2 ^ 64 - 1

  -- The body of the loop for one area. The position is kept in an `int`. `read` moves it, so that
  -- `write` goes on behind the page. The loop over the area's bytes only prints.
  unfoldable pub encrypt_area : StackArea → Device → Status × Device
  encrypt_area tmp d =
      let d1 = record d { opened = d.opened + 1 } in
      let d2 = record d1 { fds = d.fds + 1 } in
      let offset = mul64 tmp.page_frame 4096 in
      let d3 = read_page (reads offset) offset d2 in
      let pos = offset + at_most 4096 (reads offset) in
      let d4 = write_page (writes pos) pos d3 in
      if tmp.len == 2 ^ 64 - 1
      then (success, d)
      else if not (opens d.opened)
      then (failure, d1)
      else if lseek offset % 2 ^ 32 == 2 ^ 32 - 1
      then (failure, d2)
      else (success, record d4 { fds = d.fds })

  unfoldable pub encrypt_areas : List StackArea → Device → Status × Device
  encrypt_areas [] d = (success, d)
  encrypt_areas (tmp ∷ s) d =
      let here = encrypt_area tmp d in
      let rest = encrypt_areas s here.1 in elim here.0 [ success ↦ rest | failure ↦ here ]

  -- A process without a pagemap is read through a null pointer.
  unfoldable pub encrypt_stack :
      (pagemap : Option (ℕ → Option ℕ)) (top_addr bottom_addr : ℕ) → Device → Run (Status × Device)
  encrypt_stack none top_addr bottom_addr d = oops
  encrypt_stack (some pagemap) top_addr bottom_addr d = do
    s ← get_stack_areas (get_page_frame_number_of_address pagemap) top_addr bottom_addr
    ok (encrypt_areas s d)

  -- What is printed of the bytes from `i` on.
  unfoldable pub shown : (n i : ℕ) → Mem → List ℕ
  shown zero i buffer = []
  shown (suc n) i buffer = b' ' ∷ safechar (buffer i) ∷ shown n (i + 1) buffer

  -- What is printed, or `none` for an error. The buffer is the function's own.
  unfoldable pub read_memory_page :
      (garbage : Mem) (frame_num : ℕ) → Device → Option (List ℕ) × Device
  read_memory_page garbage frame_num d =
      let d1 = record d { opened = d.opened + 1 } in
      let offset = mul64 frame_num 4096 in
      let d2 = read_page (reads offset) offset (record d { buffer = garbage }) in
      if not (opens d.opened)
      then (none, d1)
      else if lseek offset == 2 ^ 64 - 1
      then (none, record d1 { fds = d.fds + 1 })
      else (some (shown 4096 0 d2.buffer), d1)

-- The page behind the one of an area is overwritten with a copy of it.
abbrev pub copied_on : List StackArea → Mem → Mem
copied_on [] m = m
copied_on (tmp ∷ s) m =
    let next = (tmp.page_frame + 1) * 4096 in
    copied_on s (λ a. if within next (next + 4096) a then m (a - 4096) else m a)

-- Page frames whose addresses fit, and lengths that are not the mark of an unused area.
abbrev pub AreUsed : List StackArea → Type 0
AreUsed [] = Unit {0}
AreUsed (tmp ∷ s) = ((tmp.page_frame < 2 ^ 51) × (tmp.len < 2 ^ 64 - 1)) × AreUsed s

copied_on_congr :
    (s : List StackArea) (m m' : Mem)
    → ((a : ℕ) → m a ≡ m' a)
    → (a : ℕ) → copied_on s m a ≡ copied_on s m' a
copied_on_congr [] m m' same a = same a
copied_on_congr (tmp ∷ s) m m' same a =
    let next = (tmp.page_frame + 1) * 4096 in
    copied_on_congr s (λ b. if within next (next + 4096) b then m (b - 4096) else m b)
      (λ b. if within next (next + 4096) b then m' (b - 4096) else m' b)
      (λ b. rw (same b, same (b - 4096))) a

module _ (opens seeks : ℕ → Bool) (reads writes : ℕ → ℕ) where
  -- /dev/mem serves every call in full.
  pub record IsServed : Type 0 where
    pub opened : (k : ℕ) → opens k ≡ true
    pub found : (offset : ℕ) → seeks offset ≡ true
    pub full : (offset : ℕ) → reads offset ≡ 4096
    pub written : (offset : ℕ) → writes offset ≡ 4096

  encrypt_area-phys :
      (tmp : StackArea) (d : Device)
      → IsServed
      → tmp.page_frame < 2 ^ 51
      → tmp.len < 2 ^ 64 - 1
      → ((encrypt_area opens seeks reads writes tmp d).0 ≡ success)
        × ((encrypt_area opens seeks reads writes tmp d).1.fds ≡ d.fds)
        × ((a : ℕ)
            → (encrypt_area opens seeks reads writes tmp d).1.phys a
              ≡ copied_on (tmp ∷ []) d.phys a)
  unfolding encrypt_area read_page write_page
  encrypt_area-phys tmp d served frame len =
      let used : (tmp.len == 2 ^ 64 - 1) ≡ false = ground arith in
      let offset : mul64 tmp.page_frame 4096 ≡ tmp.page_frame * 4096 = omega arith in
      let position : (tmp.page_frame * 4096 % 2 ^ 32 == 2 ^ 32 - 1) ≡ false = ground arith in
      rw
        (
          used,
          served.opened d.opened,
          served.found (mul64 tmp.page_frame 4096),
          served.full (mul64 tmp.page_frame 4096),
          offset,
          position,
          served.written (tmp.page_frame * 4096 + 4096),
        )
        (
          refl,
          refl,
          λ a.
              let next : (tmp.page_frame + 1) * 4096 ≡ tmp.page_frame * 4096 + 4096 = omega arith in
              rw next
                (elim (Bool-cases
                  (within (tmp.page_frame * 4096 + 4096) (tmp.page_frame * 4096 + 4096 + 4096) a)) [
                    | inr out ↦ rw out
                    | inl inside ↦
                        let index : tmp.page_frame * 4096 + (a - (tmp.page_frame * 4096 + 4096))
                            ≡ a - 4096 =
                          ground arith in
                        let short : ltb (a - (tmp.page_frame * 4096 + 4096)) 4096 ≡ true =
                          ground arith in
                        rw (inside, short, index)
                  ]),
        )

  encrypt_areas-success :
      (tmp : StackArea) (s : List StackArea) (d : Device)
      → (encrypt_area opens seeks reads writes tmp d).0 ≡ success
      → encrypt_areas opens seeks reads writes (tmp ∷ s) d
        ≡ encrypt_areas opens seeks reads writes s (encrypt_area opens seeks reads writes tmp d).1
  unfolding encrypt_areas
  encrypt_areas-success tmp s d here = rw (here, encrypt_areas)

  encrypt_areas-failure :
      (tmp : StackArea) (s : List StackArea) (d : Device)
      → (encrypt_area opens seeks reads writes tmp d).0 ≡ failure
      → encrypt_areas opens seeks reads writes (tmp ∷ s) d
        ≡ encrypt_area opens seeks reads writes tmp d
  unfolding encrypt_areas encrypt_area
  encrypt_areas-failure tmp s d here = rw (here, encrypt_areas)

  encrypt_area-fds :
      (tmp : StackArea) (d : Device)
      → (((encrypt_area opens seeks reads writes tmp d).0 ≡ success)
          × ((encrypt_area opens seeks reads writes tmp d).1.fds ≡ d.fds))
        ⊎ (((encrypt_area opens seeks reads writes tmp d).0 ≡ failure)
            × ((encrypt_area opens seeks reads writes tmp d).1.fds ≤ d.fds + 1))
  unfolding encrypt_area
  encrypt_area-fds tmp d =
      let pos = lseek opens seeks reads writes (mul64 tmp.page_frame 4096) % 2 ^ 32 in
      elim (Bool-cases (tmp.len == 2 ^ 64 - 1)) [
        | inl unused ↦ rw unused (inl (refl, refl))
        | inr used ↦ elim (Bool-cases (opens d.opened)) [
          | inr shut ↦ rw (used, shut) (inr (refl, omega arith))
          | inl open' ↦ elim (Bool-cases (pos == 2 ^ 32 - 1)) [
            | inl refused ↦ rw (used, open', refused) (inr (refl, omega arith))
            | inr found ↦ rw (used, open', found) (inl (refl, refl))
          ]
        ]
      ]

  -- When /dev/mem serves every call in full, areas whose page frames are below 2 ^ 51 are all handled
  -- and every file is closed again; in physical memory the page behind that of each area is then
  -- overwritten, one after the other, with a copy of the area's page, and no other byte changes.
  pub encrypt_areas-copied_on :
      (s : List StackArea) (d : Device)
      → IsServed
      → AreUsed s
      → ((encrypt_areas opens seeks reads writes s d).0 ≡ success)
        × ((encrypt_areas opens seeks reads writes s d).1.fds ≡ d.fds)
        × ((a : ℕ) → (encrypt_areas opens seeks reads writes s d).1.phys a ≡ copied_on s d.phys a)
  unfolding encrypt_areas
  encrypt_areas-copied_on [] d served used = (refl, refl, λ a. refl)
  encrypt_areas-copied_on (tmp ∷ s) d served used =
      let (here, closed, copied) = encrypt_area-phys tmp d served used.0.0 used.0.1 in
      let d1 = (encrypt_area opens seeks reads writes tmp d).1 in
      let (rest, closed', copied') = encrypt_areas-copied_on s d1 served used.1 in
      rw (encrypt_areas-success tmp s d here) (
        rest,
        closed' ∙ closed,
        λ a. copied' a ∙ copied_on_congr s d1.phys (copied_on (tmp ∷ []) d.phys) copied a,
      )

  -- Whatever /dev/mem does: a run that succeeds has closed every file that it opened, and one that
  -- fails has left at most one open.
  pub encrypt_areas-fds :
      (s : List StackArea) (d : Device)
      → (((encrypt_areas opens seeks reads writes s d).0 ≡ success)
          × ((encrypt_areas opens seeks reads writes s d).1.fds ≡ d.fds))
        ⊎ (((encrypt_areas opens seeks reads writes s d).0 ≡ failure)
            × ((encrypt_areas opens seeks reads writes s d).1.fds ≤ d.fds + 1))
  unfolding encrypt_areas
  encrypt_areas-fds [] d = inl (refl, refl)
  encrypt_areas-fds (tmp ∷ s) d = elim (encrypt_area-fds tmp d) [
    | inr (here, left) ↦ rw (encrypt_areas-failure tmp s d here) (inr (here, left))
    | inl (here, closed) ↦
        rw (encrypt_areas-success tmp s d here)
          (elim (encrypt_areas-fds s (encrypt_area opens seeks reads writes tmp d).1) [
            | inl (rest, closed') ↦ inl (rest, closed' ∙ closed)
            | inr (rest, left) ↦ inr (rest, omega (arith, left, closed))
          ])
  ]
