-- ===== src/Loading.antt =====
-- How the modules are loaded and taken out: jprobe_init and jprobe_exit of kernel_probe/jprobe.c, and
-- init_module and cleanup_module of kernel_probe/kprobe.c (the same text, but for the function that is
-- probed, as test/kprobe.c). What register_jprobe and register_kprobe return is a parameter, the
-- bit pattern of an `int` for each of their calls; a probe is in the kernel's table once that is not
-- negative.
mod Tests
use cloud_memory_security.Base.{
  ℕ, ◌+◌, ◌^◌, ◌≡◌, refl, ◌⊎◌, inl, inr, Bool, true, false, not, List, [], ◌∷◌, leb, ◌==◌,
  if◌then◌else◌, Status, success, failure, arith, Bool-cases,
}

pub data Jprobe : Type 0 where
  jsys_encrypt_stack_probe : Jprobe
  jsys_decrypt_stack_probe : Jprobe

-- The kernel's tables, the kprobes by their addresses, and the number of registrations so far.
pub record Kernel : Type 0 where
  pub jprobes : List Jprobe
  pub kprobes : List ℕ
  pub calls : ℕ

abbrev pub is_negative : ℕ → Bool
is_negative ret = leb (2 ^ 31) ret

abbrev pub same_jprobe : Jprobe → Jprobe → Bool
same_jprobe jsys_encrypt_stack_probe jsys_encrypt_stack_probe = true
same_jprobe jsys_decrypt_stack_probe jsys_decrypt_stack_probe = true
same_jprobe _ _ = false

-- A table without one entry.
unfoldable pub remove {ℓ} : {A : Type ℓ} → (A → Bool) → List A → List A
remove is_it [] = []
remove is_it (x ∷ xs) = let rest = remove is_it xs in if is_it x then xs else x ∷ rest

abbrev pub unregister_jprobe : Jprobe → Kernel → Kernel
unregister_jprobe p k = record k { jprobes = remove (same_jprobe p) k.jprobes }

unfoldable pub jprobe_exit : Kernel → Kernel
unfolding remove
jprobe_exit k =
    unregister_jprobe jsys_decrypt_stack_probe (unregister_jprobe jsys_encrypt_stack_probe k)

unfoldable pub cleanup_module : (addr : ℕ) → Kernel → Kernel
unfolding remove
cleanup_module addr k = record k { kprobes = remove (λ a. a == addr) k.kprobes }

module _ (returns : ℕ → ℕ) where
  abbrev pub register_jprobe : Jprobe → Kernel → ℕ × Kernel
  register_jprobe p k = (
    returns k.calls,
    record k {
      jprobes = if is_negative (returns k.calls) then k.jprobes else p ∷ k.jprobes;
      calls = k.calls + 1;
    },
  )

  abbrev pub register_kprobe : (addr : ℕ) → Kernel → ℕ × Kernel
  register_kprobe addr k = (
    returns k.calls,
    record k {
      kprobes = if is_negative (returns k.calls) then k.kprobes else addr ∷ k.kprobes;
      calls = k.calls + 1;
    },
  )

  -- Where the second call fails the first probe stays.
  unfoldable pub jprobe_init : Kernel → Status × Kernel
  jprobe_init k =
      let (ret, k1) = register_jprobe jsys_encrypt_stack_probe k in
      let (ret', k2) = register_jprobe jsys_decrypt_stack_probe k1 in
      if is_negative ret
      then (failure, k1)
      else if is_negative ret'
      then (failure, k2)
      else (success, k2)

  -- With the address that kallsyms_lookup_name gives. `ret` becomes the outcome of the comparison and
  -- not what was returned, so that the last result, what is printed of it after a failure, is 1.
  unfoldable pub init_module : (addr : ℕ) → Kernel → Status × Kernel × List ℕ
  init_module addr k =
      let (returned, k1) = register_kprobe addr k in
      let ret : ℕ = if is_negative returned then 1 else 0 in
      if addr == 0
      then (failure, k, [])
      else if ret == 0
      then (success, k1, [])
      else (failure, k1, ret ∷ [])

  -- How jprobe_init ends in `k`.
  abbrev pub Loads : Kernel → Type 0
  Loads k =
      let (status, k') = jprobe_init k in
      ((status ≡ success)
        × (k'.jprobes ≡ jsys_decrypt_stack_probe ∷ jsys_encrypt_stack_probe ∷ k.jprobes)
        × ((jprobe_exit k').jprobes ≡ k.jprobes))
      ⊎ ((status ≡ failure) × (is_negative (returns k.calls) ≡ true) × (k'.jprobes ≡ k.jprobes)
          ⊎ (status ≡ failure)
            × (is_negative (returns k.calls) ≡ false)
            × (is_negative (returns (k.calls + 1)) ≡ true)
            × (k'.jprobes ≡ jsys_encrypt_stack_probe ∷ k.jprobes))

  -- jprobe_init either succeeds, and then both probes are in the table and jprobe_exit leaves the table
  -- as it was, or it fails: with the table as it was if the first registration fails, and with the probe
  -- of jsys_encrypt_stack left in it if the second one does.
  pub jprobe_exit-jprobe_init : (k : Kernel) → Loads k
  unfolding jprobe_init jprobe_exit
  jprobe_exit-jprobe_init k = elim (Bool-cases (is_negative (returns k.calls))) [
    | inl fails ↦ inr (inl (rw fails, fails, rw fails))
    | inr first ↦ elim (Bool-cases (is_negative (returns (k.calls + 1)))) [
      | inl fails ↦ inr (inr (rw first (rw fails), first, fails, rw first (rw fails)))
      | inr second ↦ inl (rw first (rw second), rw first (rw second), rw first (rw second))
    ]
  ]

  -- Once init_module has registered its probe, cleanup_module leaves the table as it was; after a
  -- failure the table is as it was.
  pub cleanup_module-init_module :
      (addr : ℕ) (k : Kernel)
      → (((init_module addr k).0 ≡ success)
          × ((cleanup_module addr (init_module addr k).1).kprobes ≡ k.kprobes))
        ⊎ (((init_module addr k).0 ≡ failure) × ((init_module addr k).1.kprobes ≡ k.kprobes))
  unfolding init_module cleanup_module
  cleanup_module-init_module addr k = ground arith
