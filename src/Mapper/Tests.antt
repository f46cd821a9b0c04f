-- ===== src/Mapper/Tests.antt =====
-- The mapper's theorems, at concrete inputs: a table of one symbol, full.
use cloud_memory_security.Base.{oops, ◌+◌, ◌^◌, ◌≡◌, refl, [], ◌∷◌, arith}
use cloud_memory_security.Memory.{Machine}
use cloud_memory_security.StackBuf.InsertionSort.{bump}
use cloud_memory_security.Mapper.{Mapper, get_func_name, insert_mapper, destroy_mapper}
use cloud_memory_security.Mapper.Destroy.{destroy_mapper-oops}
use cloud_memory_security.Mapper.View.{
  IsTable, symbols, IsFirst, Inserted, get_func_name-IsFirst, insert_mapper-Inserted,
}

abbrev one_symbol : Mapper
one_symbol = record {
  addr = 2 ^ 47;
  items = record { func_name = b'f' ∷ []; name_block = 2 ^ 47 + 2 ^ 22; ip = 4096; size = 64 } ∷ [];
  cur = 1;
  cap = 1;
}

abbrev fresh : Machine
fresh = record { mem = λ a. 7; allocs = 2; freed = [] }

one_symbol-IsTable : IsTable one_symbol
one_symbol-IsTable = record { written = refl; fits = omega arith; has_room = omega arith }

insert_mapper-Inserted_example :
    Inserted one_symbol
      (b'g' ∷ [])
      4160
      32
      (insert_mapper bump one_symbol fresh (b'g' ∷ []) 4160 32)
insert_mapper-Inserted_example =
    insert_mapper-Inserted bump (λ i size. omega arith) one_symbol fresh (b'g' ∷ []) 4160 32
      one_symbol-IsTable (omega arith)

get_func_name-IsFirst_example :
    IsFirst (symbols one_symbol.items) 4100 (get_func_name one_symbol 4100)
get_func_name-IsFirst_example =
    get_func_name-IsFirst one_symbol 4100 one_symbol-IsTable (omega arith, tt)

abbrev with_room : Mapper
with_room = record one_symbol { cap = 4 }

destroy_mapper-oops_example : destroy_mapper with_room fresh ≡ oops
destroy_mapper-oops_example =
    destroy_mapper-oops with_room fresh
      (record { written = refl; fits = omega arith; has_room = omega arith }) (omega arith)
