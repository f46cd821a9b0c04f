-- ===== src/Loading/Tests.antt =====
-- Loading the module, at concrete inputs.
use cloud_memory_security.Base.{ℕ, ◌^◌, ◌-◌, ◌≡◌, refl, [], ◌∷◌, ltb, if◌then◌else◌, failure}
use cloud_memory_security.Loading.{
  jsys_encrypt_stack_probe, Kernel, jprobe_init, init_module, Loads, jprobe_exit-jprobe_init,
}

abbrev empty : Kernel
empty = record { jprobes = []; kprobes = []; calls = 0 }

-- The second registration fails.
abbrev fails_at_one : ℕ → ℕ
fails_at_one n = if ltb 0 n then 2 ^ 32 - 22 else 0

half_loaded :
    jprobe_init fails_at_one empty
    ≡ (failure, record { jprobes = jsys_encrypt_stack_probe ∷ []; kprobes = []; calls = 2 })
unfolding jprobe_init
half_loaded = refl

prints_one : (init_module (λ n. 2 ^ 32 - 22) 4096 empty).2 ≡ 1 ∷ []
unfolding init_module
prints_one = refl

jprobe_exit-jprobe_init_example : Loads fails_at_one empty
jprobe_exit-jprobe_init_example = jprobe_exit-jprobe_init fails_at_one empty
