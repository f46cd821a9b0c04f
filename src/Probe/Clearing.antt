-- ===== src/Probe/Clearing.antt =====
-- The loop over the caller's stack ends, leaves nothing unprotected readable, and loses no byte.
use cloud_memory_security.Base.{
  ℕ, zero, suc, ◌+◌, ◌^◌, ◌≤◌, ◌<◌, ◌≡◌, refl, ◌∙◌, ◌⊎◌, inl, inr, true, List, [], ◌∷◌, arith, ltb,
  leb, ◌==◌, if◌then◌else◌, add64, Run, ltb→le, ok, ◌>>=◌, Bool-cases,
}
use cloud_memory_security.Memory.{Machine, user_end}
use cloud_memory_security.Memory.Alloc.{KernelHeap, max_block}
use cloud_memory_security.StackBuf.{Sbuf}
use cloud_memory_security.StackBuf.Saved.{held}
use cloud_memory_security.Probe.Paras.{Para, contains}
use cloud_memory_security.Probe.Shielded.{IsShielded, Clears, Clears-jump, Clears-step}
use cloud_memory_security.Probe.Scan.{Slot, live, flush, scan}
use cloud_memory_security.Probe.Passed.{NoWrap, in_para, Passed, ScanEnds, flush-Passed, skipped}

-- The parameters at `i` or above.
abbrev pub ahead : ℕ → List Para → ℕ
ahead i [] = 0
ahead i (p ∷ plt) = (if leb i p.addr then 1 else 0) + ahead i plt

contains-lt : (i : ℕ) (plt : List Para) → NoWrap plt → i < 2 ^ 64 → i + contains i plt < 2 ^ 64
unfolding contains
contains-lt i [] w lt = omega arith
contains-lt i (p ∷ plt) w lt = ground (arith, contains-lt i plt w.1 lt)

contains-in_para :
    (i a : ℕ) (plt : List Para) → i ≤ a → a < i + contains i plt → in_para plt a ≡ true
unfolding contains
contains-in_para i a [] le lt = absurd (omega arith)
contains-in_para i a (p ∷ plt) le lt = ground (arith, contains-in_para i a plt le)

ahead_mono : (i j : ℕ) (plt : List Para) → i ≤ j → ahead j plt ≤ ahead i plt
ahead_mono i j [] le = omega arith
ahead_mono i j (p ∷ plt) le = ground (arith, ahead_mono i j plt le)

ahead-contains :
    (i j : ℕ) (plt : List Para) → i < j → 0 < contains i plt → ahead j plt < ahead i plt
unfolding contains
ahead-contains i j [] lt pos = absurd (omega arith)
ahead-contains i j (p ∷ plt) lt pos =
    ground (arith, ahead-contains i j plt lt, ahead_mono i j plt (omega arith))

-- The loop is left above `user_rbp`.
pub scan_end :
    (kmalloc : ℕ → ℕ → ℕ) (plt : List Para) (user_rbp n i prev : ℕ) (slot : Slot) (t : Machine)
    → 0 < n
    → user_rbp < i
    → scan kmalloc user_rbp plt n i prev slot t ≡ ok (slot, t)
unfolding scan
scan_end kmalloc plt user_rbp zero i prev slot t pos lt = elim pos [ ]
scan_end kmalloc plt user_rbp (suc n) i prev slot t pos lt =
    let out : ltb user_rbp i ≡ true = ground arith in rw (out, scan)

module _ (kmalloc : ℕ → ℕ → ℕ) (plt : List Para) (user_rsp user_rbp : ℕ) (sbuf : Sbuf) (s : Machine)
    (calls : ℕ) (heap : KernelHeap kmalloc calls) (top : user_rbp < user_end)
    (small : user_rbp ≤ user_rsp + max_block) (slots : sbuf.cap < 2 ^ 63)
    (left : s.allocs + sbuf.cap ≤ calls + sbuf.cur) where
  abbrev Done : ℕ → Sbuf → Machine → Type 0
  Done = Passed kmalloc plt user_rsp user_rbp sbuf s

  abbrev Ends : (prev i : ℕ) → Sbuf → Machine → Run (Slot × Machine) → Type 0
  Ends = ScanEnds kmalloc plt user_rsp user_rbp sbuf s

  -- The loop ends as it does from a later state, if up to that one it kept what it has to keep.
  Ends-later :
      (prev i prev' i' : ℕ) (b b' : Sbuf) (t t' : Machine) {r : Run (Slot × Machine)}
      → ((a : ℕ) (h : IsShielded plt a)
          → Clears plt h prev i
          → a < user_end
          → Clears plt h prev' i'
            × (t'.mem a ≡ t.mem a)
            × (held b'.cur b'.slots a ≡ held b.cur b.slots a))
      → Ends prev' i' b' t' r
      → Ends prev i b t r
  Ends-later prev i prev' i' b b' t t' kept (hi, b₂, t₂, run, reached, passed, spares) = (
    hi,
    b₂,
    t₂,
    run,
    reached,
    passed,
    λ a h clear low.
        let (clear', same, same') = kept a h clear low in
        let (later, later') = spares a h clear' low in (later ∙ same, later' ∙ same'),
  )

  -- The rounds of the loop that save: one at a parameter, and the last.
  module _ (n prev i : ℕ) (b : Sbuf) (t : Machine) (p : Done prev b t) (lo : user_rsp ≤ prev)
      (le : prev ≤ i) (hi : i ≤ user_rbp) (n_pos : 0 < n) (room : b.cur + ahead i plt < b.cap) where
    -- What is saved now has no byte of a parameter that is kept.
    apart_of : (a : ℕ) (h : IsShielded plt a) → Clears plt h prev i → (a < prev) ⊎ (i ≤ a)
    apart_of a h (inl past) = inl (omega (arith, h.below))
    apart_of a h (inr ahead) = inr (omega (arith, h.above))

    at_para :
        NoWrap plt
        → 0 < contains i plt
        → ((j : ℕ) (b' : Sbuf) (t' : Machine)
            → i < j
            → Done j b' t'
            → b'.cur + ahead j plt < b'.cap
            → Ends j j b' t' (scan kmalloc user_rbp plt n j j (live b') t'))
        → Ends prev i b t (
            flush kmalloc prev i (live b) t >>= λ r.
            scan kmalloc user_rbp plt n
              (add64 i (contains i plt))
              (add64 i (contains i plt))
              r.0
              r.1)
    at_para w hit rest =
        let (b', t', run, p', cur, same) =
          flush-Passed kmalloc plt user_rsp user_rbp sbuf s calls heap top small slots left prev i b
            t p lo le hi (omega arith) in
        let j = i + contains i plt in
        let sum : add64 i (contains i plt) ≡ j = omega (arith, contains-lt i plt w (omega arith)) in
        rw run (
          rw sum (
            Ends-later prev i j j b b' t t'
              (λ a h clear low.
                let (here, held_here) = same a low (apart_of a h clear) in
                (Clears-jump plt prev i a h le clear, here, held_here))
              (rest j b' t' (omega arith)
                (skipped kmalloc plt user_rsp user_rbp sbuf s calls heap top small slots left i j b'
                  t' p' (omega arith) (λ a ge lt. contains-in_para i a plt ge lt))
                (omega (arith, ahead-contains i j plt (omega arith) hit, p.cap, p'.cap)))))

    at_end :
        i ≡ user_rbp
        → Ends prev i b t (
            flush kmalloc prev i (live b) t >>= λ r.
            scan kmalloc user_rbp plt n (add64 i 1) prev r.0 r.1)
    at_end e =
        let (b', t', run, p', cur, same) =
          flush-Passed kmalloc plt user_rsp user_rbp sbuf s calls heap top small slots left prev i b
            t p lo le hi (omega arith) in
        (
          i,
          b',
          t',
          rw run
              (scan_end kmalloc plt user_rbp n (add64 i 1) prev (live b') t' n_pos (omega arith)),
          omega arith,
          p',
          λ a h clear low. same a low (apart_of a h clear),
        )

  -- With rounds for every address of the stack, a slot for every parameter and one more, a call of
  -- kmalloc for every slot, and no parameter that wraps round, the loop ends with a buffer and a
  -- machine that have passed the stack up to `user_rbp`; and the bytes of a value parameter that it had yet to
  -- reach, whose first byte no other parameter has, are as they were and were not saved.
  pub scan-Passed :
      (n prev i : ℕ) (b : Sbuf) (t : Machine)
      → Done prev b t
      → NoWrap plt
      → user_rsp ≤ prev
      → prev ≤ i
      → (i ≤ user_rbp) ⊎ (prev ≡ i)
      → user_rbp + 1 < n + i
      → 0 < n
      → b.cur + ahead i plt < b.cap
      → Ends prev i b t (scan kmalloc user_rbp plt n i prev (live b) t)
  unfolding scan
  scan-Passed zero prev i b t p w lo le at rounds pos room = elim pos [ ]
  scan-Passed (suc n) prev i b t p w lo le at rounds pos room = elim (Bool-cases (ltb user_rbp i)) [
    | inl past ↦
        let same : prev ≡ i = ground arith in
        (prev, b, t, rw (past, scan), ground arith, p, λ a h clear low. (refl, refl))
    | inr inside ↦
        let hi : i ≤ user_rbp = ltb→le user_rbp i inside in
        rw (inside, scan)
          (elim (Bool-cases (contains i plt == 0)) [
            | inr hit ↦ rw hit (
                at_para n prev i b t p lo le hi (omega arith) room w (ground arith)
                  (λ j b' t' lt p' room'.
                    scan-Passed n j j b' t' p' w (omega arith) (omega arith) (inr refl)
                      (omega arith) (omega arith) room'))
            | inl miss ↦ rw miss (elim (Bool-cases (i == user_rbp)) [
              | inl last ↦
                  rw last (at_end n prev i b t p lo le hi (omega arith) room (ground arith))
              | inr more ↦
                  let next : add64 i 1 ≡ i + 1 = omega arith in
                  rw more (
                    rw next (
                      Ends-later prev i prev (i + 1) b b t t
                        (λ a h clear low.
                          (Clears-step plt prev i a h (ground arith) clear, refl, refl))
                        (scan-Passed n prev (i + 1) b t p w lo (omega arith) (inl (ground arith))
                          (omega arith) (omega arith)
                          (omega (arith, ahead_mono i (i + 1) plt (omega arith))))))
            ])
          ])
  ]
