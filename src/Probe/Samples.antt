-- ===== src/Probe/Samples.antt =====
-- The function and the registers that the tests of the probes share: a program with one symbol.
use cloud_memory_security.Base.{◌+◌, ◌^◌, ◌≡◌, refl, [], ◌∷◌, some}
use cloud_memory_security.Mapper.{Name, Mapper, get_func_name}

abbrev pub main_name : Name
main_name = b'm' ∷ b'a' ∷ b'i' ∷ b'n' ∷ []

abbrev pub one_symbol : Mapper
one_symbol = record {
  addr = 2 ^ 47;
  items = record { func_name = main_name; name_block = 2 ^ 47 + 2 ^ 22; ip = 4096; size = 64 } ∷ [];
  cur = 1;
  cap = 4;
}

pub known_example : get_func_name one_symbol 4100 ≡ some main_name
unfolding get_func_name
known_example = refl

pub callee_known : get_func_name one_symbol 4110 ≡ some main_name
unfolding get_func_name
callee_known = refl
