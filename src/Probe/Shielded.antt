-- ===== src/Probe/Shielded.antt =====
-- The bytes that a value parameter keeps from the loop over the caller's stack.
use mathlib.Core.List.{◌++◌}
use cloud_memory_security.Base.{
  ℕ, ◌+◌, ◌≤◌, ◌<◌, ◌≡◌, ◌≢◌, ◌⊎◌, inl, inr, subst, sym, List, [], ◌∷◌, arith, ◌==◌, Bool-cases,
}
use cloud_memory_security.Memory.{Machine, user_end}
use cloud_memory_security.StackBuf.{Sbuf}
use cloud_memory_security.StackBuf.Saved.{held}
use cloud_memory_security.Probe.Paras.{Para, contains}

-- The parameter neither starts at the address nor reaches over it from below.
abbrev pub Misses : Para → ℕ → Type 0
Misses q a = (q.addr ≢ a) × (q.addr < a → q.addr + q.size ≤ a)

abbrev pub AllMiss : List Para → ℕ → Type 0
AllMiss [] a = Unit {0}
AllMiss (q ∷ qs) a = Misses q a × AllMiss qs a

-- The byte is one of a value parameter's, whose first byte no other parameter has.
pub record IsShielded (plt : List Para) (a : ℕ) : Type 0 where
  pub before : List Para
  pub para : Para
  pub after : List Para
  pub split : plt ≡ before ++ para ∷ after
  pub missed_before : AllMiss before para.addr
  pub missed_after : AllMiss after para.addr
  pub value : para.pointer ≡ 0
  pub above : para.addr ≤ a
  pub below : a < para.addr + para.size

contains-first :
    (before : List Para) (p : Para) (after : List Para)
    → AllMiss before p.addr
    → p.pointer ≡ 0
    → contains p.addr (before ++ p ∷ after) ≡ p.size
unfolding contains
contains-first [] p after missed value = ground (arith, value)
contains-first (q ∷ before) p after missed value =
    ground (arith, missed.0.0, contains-first before p after missed.1 value)

contains-AllMiss : (i a : ℕ) (qs : List Para) → AllMiss qs a → i < a → i + contains i qs ≤ a
unfolding contains
contains-AllMiss i a [] missed lt = omega arith
contains-AllMiss i a (q ∷ qs) missed lt =
    ground (arith, missed.0.1, contains-AllMiss i a qs missed.1 lt)

contains-before :
    (i : ℕ) (before : List Para) (p : Para) (after : List Para)
    → AllMiss before p.addr
    → AllMiss after p.addr
    → i < p.addr
    → i + contains i (before ++ p ∷ after) ≤ p.addr
unfolding contains
contains-before i [] p after missed missed' lt =
    ground (arith, contains-AllMiss i p.addr after missed' lt)
contains-before i (q ∷ before) p after missed missed' lt =
    ground (arith, missed.0.1, contains-before i before p after missed.1 missed' lt)

module _ (plt : List Para) where
  -- The loop, which saved up to `prev` and looks at `i`, is past the parameter or has yet to reach it.
  abbrev pub Clears : {a : ℕ} → IsShielded plt a → (prev i : ℕ) → Type 0
  Clears h prev i = (h.para.addr + h.para.size ≤ prev) ⊎ (i ≤ h.para.addr)

  -- From the one state to the other no byte that is kept so has changed or was saved.
  abbrev pub Spares : (prev i : ℕ) (b : Sbuf) (t : Machine) (b' : Sbuf) (t' : Machine) → Type 0
  Spares prev i b t b' t' =
      (a : ℕ) (h : IsShielded plt a)
      → Clears h prev i
      → a < user_end
      → (t'.mem a ≡ t.mem a) × (held b'.cur b'.slots a ≡ held b.cur b.slots a)

  -- The loop jumps over a parameter.
  pub Clears-jump :
      (prev i a : ℕ) (h : IsShielded plt a)
      → prev ≤ i
      → Clears h prev i
      → Clears h (i + contains i plt) (i + contains i plt)
  Clears-jump prev i a h le (inl past) = inl (omega arith)
  Clears-jump prev i a h le (inr ahead) =
      let at = contains-first h.before h.para h.after h.missed_before h.value in
      let next = contains-before i h.before h.para h.after h.missed_before h.missed_after in
      let at' : contains h.para.addr plt ≡ h.para.size =
        subst (λ l. contains h.para.addr l ≡ h.para.size) (sym h.split) at in
      let next' : i < h.para.addr → i + contains i plt ≤ h.para.addr =
        subst (λ l. i < h.para.addr → i + contains i l ≤ h.para.addr) (sym h.split) next in
      elim (Bool-cases (i == h.para.addr)) [
        | inl here ↦ let same : i ≡ h.para.addr = ground arith in inl (rw same (omega (arith, at')))
        | inr before ↦ inr (next' (ground arith))
      ]

  -- The loop goes on by one byte where no parameter starts.
  pub Clears-step :
      (prev i a : ℕ) (h : IsShielded plt a)
      → contains i plt ≡ 0
      → Clears h prev i
      → Clears h prev (i + 1)
  Clears-step prev i a h none_here (inl past) = inl past
  Clears-step prev i a h none_here (inr ahead) =
      let at = contains-first h.before h.para h.after h.missed_before h.value in
      let at' : contains h.para.addr plt ≡ h.para.size =
        subst (λ l. contains h.para.addr l ≡ h.para.size) (sym h.split) at in
      elim (Bool-cases (i == h.para.addr)) [
        | inl here ↦
            let same : h.para.addr ≡ i = ground arith in
            let empty : contains h.para.addr plt ≡ 0 = rw same none_here in
            absurd (omega (arith, at', empty, h.above, h.below))
        | inr before ↦ inr (ground arith)
      ]
