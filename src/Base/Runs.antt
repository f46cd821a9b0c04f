-- ===== src/Base/Runs.antt =====
-- How a call ends. `oops` is a fault of the kernel: a null or dangling pointer is followed, or an
-- array is indexed out of its bounds. `hung` says that the rounds given to a loop ran out.
use mathlib.Core.Path.{◌≡◌, refl}
use mathlib.Core.Logic.{◌⊎◌, inl, inr}

pub data Run {ℓ} (A : Type ℓ) : Type ℓ where
  ok : A → Run A
  oops : Run A
  hung : Run A

infixl 5 ◌>>=◌
abbrev pub ◌>>=◌ {a b} : {X : Type a} {Y : Type b} (run : Run X) (next : X → Run Y) → Run Y
oops >>= next = oops
hung >>= next = hung
ok x >>= next = next x

-- The C functions that return 0 or -1.
pub data Status : Type 0 where
  success : Status
  failure : Status

pub Run-cases {ℓ} : {A : Type ℓ} (r : Run A) → ((a : A) × (r ≡ ok a)) ⊎ ((r ≡ oops) ⊎ (r ≡ hung))
Run-cases (ok a) = inl (a, refl)
Run-cases oops = inr (inl refl)
Run-cases hung = inr (inr refl)
