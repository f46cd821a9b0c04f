-- ===== src/Mapper/Destroy.antt =====
-- destroy_mapper on a table that is not full.
use cloud_memory_security.Base.{ℕ, zero, suc, ◌<◌, ◌≡◌, refl, List, [], ◌∷◌, arith, length, oops}
use cloud_memory_security.Memory.{Machine, kfree}
use cloud_memory_security.Mapper.{Item, Mapper, free_names, destroy_mapper}
use cloud_memory_security.Mapper.View.{IsTable}

free_names-oops :
    (n : ℕ) (items : List Item) (s : Machine) → length items < n → free_names n items s ≡ oops
unfolding free_names
free_names-oops zero items s lt = absurd (omega arith)
free_names-oops (suc n) [] s lt = refl
free_names-oops (suc n) (tmp ∷ items) s lt =
    free_names-oops n items (kfree tmp.name_block s) (omega arith)

-- In a table that has room for one more symbol, destroy_mapper follows a pointer that was never
-- written, and faults.
pub destroy_mapper-oops :
    (mapper : Mapper) (s : Machine)
    → IsTable mapper
    → mapper.cur < mapper.cap
    → destroy_mapper mapper s ≡ oops
unfolding destroy_mapper
destroy_mapper-oops mapper s t room =
    let short : length mapper.items < mapper.cap = omega (arith, t.written) in
    rw (free_names-oops mapper.cap mapper.items s short)
