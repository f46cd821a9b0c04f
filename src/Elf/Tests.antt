-- ===== src/Elf/Tests.antt =====
-- The ELF readers' theorems, at concrete inputs: tables of 20 symbols in memory full of 7, and of 0.
use cloud_memory_security.Base.{ℕ, ok, ◌≡◌, ◌+◌, ◌^◌, ◌≢◌, refl, [], some, none, arith, hung}
use cloud_memory_security.Memory.{Machine}
use cloud_memory_security.StackBuf.InsertionSort.{bump}
use cloud_memory_security.Mapper.{Mapper}
use cloud_memory_security.Elf.{
  elf_symname, st_name, string_at, elf_symvalue, elf_symsize, ElfObj, parse_symbols, symbol_rounds,
}
use cloud_memory_security.Elf.User.{Line, line, list_symbols}
use cloud_memory_security.Elf.Listing.{symbol_count, lines_from, list_symbols_lem}
use cloud_memory_security.Elf.Rounds.{parse_symbols-symbol_rounds}

abbrev sevens : ElfObj
sevens = record {
  obj_block = 2 ^ 47;
  bytes = λ a. 7;
  maddr = 2 ^ 47 + 2 ^ 22;
  mlen = 4096;
  symtab = some (2 ^ 47 + 2 ^ 22 + 100);
  symtab_end = some (2 ^ 47 + 2 ^ 22 + 580);
  strtab = some (2 ^ 47 + 2 ^ 22 + 600);
  dsymtab = none;
  dsymtab_end = none;
  dstrtab = none;
}

abbrev no_symbols : Mapper
no_symbols = record { addr = 2 ^ 47 + 2 ^ 23; items = []; cur = 0; cap = 8 }

abbrev fresh : Machine
fresh = record { mem = λ a. 7; allocs = 3; freed = [] }

parse_symbols-symbol_rounds_example :
    parse_symbols bump
      (symbol_rounds bump sevens.symtab_end (2 ^ 47 + 2 ^ 22 + 100))
      sevens
      (2 ^ 47 + 2 ^ 22 + 100)
      no_symbols
      fresh
    ≢ hung
parse_symbols-symbol_rounds_example =
    parse_symbols-symbol_rounds bump sevens (2 ^ 47 + 2 ^ 22 + 580) (2 ^ 47 + 2 ^ 22 + 100)
      no_symbols fresh refl (omega arith) (omega arith)

abbrev zeros : ElfObj
zeros = record sevens { bytes = λ a. 0; mlen = 602 }

abbrev blank : Line
blank = record { name = []; value = 0; size = 0 }

zeros-blank : (a : ℕ) → line zeros a ≡ ok blank
unfolding line elf_symname st_name string_at elf_symvalue elf_symsize
zeros-blank a = refl

list_symbols_lem_example :
    list_symbols 20 zeros (2 ^ 47 + 2 ^ 22 + 100)
    ≡ ok (
        lines_from
          (λ a. blank)
          (symbol_count (2 ^ 47 + 2 ^ 22 + 580) (2 ^ 47 + 2 ^ 22 + 100))
          (2 ^ 47 + 2 ^ 22 + 100))
list_symbols_lem_example =
    list_symbols_lem 20 zeros (2 ^ 47 + 2 ^ 22 + 580) (2 ^ 47 + 2 ^ 22 + 100) (λ a. blank) refl
      (omega arith) (omega arith) (omega arith) (λ j a lt e. zeros-blank a)
