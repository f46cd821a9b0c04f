-- ===== src/Cipher/Params.antt =====
-- The parameters are copied into a block, and from there back to where they were.
use cloud_memory_security.Base.{
  ℕ, ◌+◌, ◌-◌, ◌^◌, ◌≤◌, ◌<◌, ◌≡◌, refl, ◌∙◌, Bool, false, ◌||◌, List, [], ◌∷◌, arith,
  if◌then◌else◌, add64, true, inl, inr, Bool-cases,
}
use cloud_memory_security.Memory.{Mem, within, memcpy, user_end}
use cloud_memory_security.Probe.Paras.{Para}
use cloud_memory_security.Cipher.{total_size, save_paras, restore_paras}

-- The byte is one of a declared parameter.
abbrev pub covers : List Para → ℕ → Bool
covers [] a = false
covers (p ∷ plt) a = within p.addr (p.addr + p.size) a || covers plt a

abbrev pub sizes : List Para → ℕ
sizes [] = 0
sizes (p ∷ plt) = p.size + sizes plt

-- Every parameter lies in user memory.
abbrev pub InUser : List Para → Type 0
InUser [] = Unit {0}
InUser (p ∷ plt) = (p.addr + p.size ≤ user_end) × InUser plt

pub total_size-sizes :
    (total : ℕ) (plt : List Para)
    → total + sizes plt < 2 ^ 64
    → total_size total plt ≡ total + sizes plt
unfolding total_size
total_size-sizes total [] lt = omega arith
total_size-sizes total (p ∷ plt) lt =
    let next : add64 total p.size ≡ total + p.size = omega arith in
    rw next (total_size-sizes (total + p.size) plt (omega arith) ∙ omega arith)

if_same : (b : Bool) (x : ℕ) → (if b then x else x) ≡ x
if_same true x = refl
if_same false x = refl

module _ (buf : ℕ) (m0 : Mem) where
  -- From `offset` on, the block holds the parameters' bytes, as they are in `m0`.
  abbrev pub Holds : ℕ → List Para → Mem → Type 0
  Holds offset [] m = Unit {0}
  Holds offset (p ∷ plt) m =
      ((j : ℕ) → j < p.size → m (buf + offset + j) ≡ m0 (p.addr + j))
      × Holds (offset + p.size) plt m

  pub Holds-congr :
      (offset : ℕ) (plt : List Para) (m m' : Mem)
      → user_end ≤ buf
      → ((a : ℕ) → user_end ≤ a → m' a ≡ m a)
      → Holds offset plt m
      → Holds offset plt m'
  Holds-congr offset [] m m' above same h = tt
  Holds-congr offset (p ∷ plt) m m' above same h = (
    λ j lt. same (buf + offset + j) (omega arith) ∙ h.0 j lt,
    Holds-congr (offset + p.size) plt m m' above same h.1,
  )

  pub save_paras-outside :
      (offset : ℕ) (plt : List Para) (m : Mem) (a : ℕ)
      → buf + offset + sizes plt < 2 ^ 64
      → within (buf + offset) (buf + offset + sizes plt) a ≡ false
      → save_paras buf offset plt m a ≡ m a
  unfolding save_paras memcpy
  save_paras-outside offset [] m a lt out = refl
  save_paras-outside offset (p ∷ plt) m a lt out =
      let next : add64 offset p.size ≡ offset + p.size = omega arith in
      let here : add64 buf offset ≡ buf + offset = omega arith in
      rw (next, here)
        (save_paras-outside (offset + p.size) plt (memcpy m (buf + offset) p.addr p.size) a
            (omega arith) (ground arith)
          ∙ ground arith)

  pub save_paras-Holds :
      (offset : ℕ) (plt : List Para) (m : Mem)
      → user_end ≤ buf
      → buf + offset + sizes plt < 2 ^ 64
      → InUser plt
      → ((a : ℕ) → a < user_end → m a ≡ m0 a)
      → Holds offset plt (save_paras buf offset plt m)
  unfolding save_paras memcpy
  save_paras-Holds offset [] m above lt user same = tt
  save_paras-Holds offset (p ∷ plt) m above lt user same =
      let next : add64 offset p.size ≡ offset + p.size = omega arith in
      let here : add64 buf offset ≡ buf + offset = omega arith in
      let m1 : Mem = memcpy m (buf + offset) p.addr p.size in
      rw (next, here)
        (
          λ j lt'.
              let index : buf + offset + j - (buf + offset) ≡ j = omega arith in
              let inside : within (buf + offset) (buf + offset + p.size) (buf + offset + j) ≡ true =
                ground arith in
              save_paras-outside (offset + p.size) plt m1 (buf + offset + j) (omega arith)
                (ground arith)
              ∙ rw (inside, index) (same (p.addr + j) (omega (arith, user.0))),
          save_paras-Holds (offset + p.size) plt m1 above (omega arith) user.1
              (λ a low. ground (arith, same a low)),
        )

  pub restore_paras-kernel :
      (offset : ℕ) (plt : List Para) (m : Mem) (a : ℕ)
      → InUser plt
      → user_end ≤ a
      → restore_paras buf offset plt m a ≡ m a
  unfolding restore_paras memcpy
  restore_paras-kernel offset [] m a user high = refl
  restore_paras-kernel offset (p ∷ plt) m a user high =
      restore_paras-kernel (add64 offset p.size) plt (memcpy m p.addr (add64 buf offset) p.size) a
        user.1 high
      ∙ ground arith

  -- A byte of a parameter is what it was in `m0`, any other what it was.
  pub restore_paras-user :
      (offset : ℕ) (plt : List Para) (m : Mem) (a : ℕ)
      → user_end ≤ buf
      → buf + offset + sizes plt < 2 ^ 64
      → InUser plt
      → Holds offset plt m
      → a < user_end
      → restore_paras buf offset plt m a ≡ (if covers plt a then m0 a else m a)
  unfolding restore_paras memcpy
  restore_paras-user offset [] m a above lt user h low = refl
  restore_paras-user offset (p ∷ plt) m a above lt user h low =
      let next : add64 offset p.size ≡ offset + p.size = omega arith in
      let here : add64 buf offset ≡ buf + offset = omega arith in
      let m1 : Mem = memcpy m p.addr (buf + offset) p.size in
      rw (next, here)
        (restore_paras-user (offset + p.size) plt m1 a above (omega arith) user.1
            (Holds-congr (offset + p.size) plt m m1 above (λ b high. ground arith) h.1) low
          ∙ elim (Bool-cases (within p.addr (p.addr + p.size) a)) [
            | inl inside ↦
                let index : p.addr + (a - p.addr) ≡ a = ground arith in
                let copied : m (buf + offset + (a - p.addr)) ≡ m0 a =
                  h.0 (a - p.addr) (ground arith) ∙ rw index in
                rw (inside, copied) (if_same (covers plt a) (m0 a))
            | inr other ↦ rw other
          ])
