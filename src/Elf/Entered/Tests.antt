-- ===== src/Elf/Entered/Tests.antt =====
-- parse on a file of 178 bytes: a header, one section, a table of two symbols, of which the second is a
-- function, and its name.
use cloud_memory_security.Base.{
  ℕ, zero, suc, ◌+◌, ◌*◌, ◌^◌, ◌≡◌, ◌<◌, refl, sym, subst, List, [], ◌∷◌, some, none, ok, arith,
  sub64, ◌==◌, if◌then◌else◌,
}
use cloud_memory_security.Memory.{Machine, alloc}
use cloud_memory_security.StackBuf.InsertionSort.{bump}
use cloud_memory_security.Mapper.{Name, Mapper, get_func_name}
use cloud_memory_security.Mapper.View.{Symbol, symbols, IsFirst, NoneWraps}
use cloud_memory_security.Elf.{
  found, File, ElfObj, elf_open, elf_map, is_elf, e_shnum, read_sections, read_section, sh_type,
  sh_offset, sh_size, sh_link, shdr, parse, elf_symname, st_name, elf_symsize, elf_symvalue,
  string_at,
}
use cloud_memory_security.Elf.Listing.{symbol_count}
use cloud_memory_security.Elf.Entered.{Named, functions_from, parse-functions_from}

-- The bytes that are not 0, with their offsets.
abbrev byte_of_file : List (ℕ × ℕ) → ℕ → ℕ
byte_of_file [] a = 0
byte_of_file ((offset, b) ∷ bs) a = if offset == a then b else byte_of_file bs a

abbrev file_bytes : List (ℕ × ℕ)
file_bytes =
    (0, 0x7f)
    ∷ (1, b'E')
    ∷ (2, b'L')
    ∷ (3, b'F')
    ∷ (40, 64)
    ∷ (60, 1)
    ∷ (68, 2)
    ∷ (88, 128)
    ∷ (96, 48)
    ∷ (152, 48)
    ∷ (161, 16)
    ∷ (168, 32)
    ∷ (176, b'f')
    ∷ []

abbrev elf_file : File
elf_file = record { size = 178; byte = byte_of_file file_bytes }

abbrev maddr : ℕ
maddr = 2 ^ 47 + 4 * 2 ^ 22

abbrev object : ElfObj
object = record {
  obj_block = 2 ^ 47 + 3 * 2 ^ 22;
  bytes = λ p. byte_of_file file_bytes (sub64 p maddr);
  maddr = maddr;
  mlen = 178;
  symtab = some (maddr + 128);
  symtab_end = some (maddr + 176);
  strtab = some (maddr + 128);
  dsymtab = none;
  dsymtab_end = none;
  dstrtab = none;
}

abbrev fresh : Machine
fresh = record { mem = λ a. 7; allocs = 3; freed = [] }

object-opened : elf_open bump (found elf_file) fresh ≡ ok (some object, record fresh { allocs = 5 })
unfolding elf_open elf_map is_elf e_shnum read_sections read_section sh_type sh_offset sh_size
    sh_link shdr alloc
object-opened = refl

-- The first symbol has no name.
abbrev names : ℕ → Name
names a = if a == maddr + 128 then [] else b'f' ∷ []

first-Named : Named object (maddr + 128) (names (maddr + 128))
unfolding elf_symname st_name string_at
first-Named = (maddr + 128, refl, refl, refl)

second-Named : Named object (maddr + 152) (names (maddr + 152))
unfolding elf_symname st_name string_at
second-Named = (maddr + 176, refl, refl, refl)

object-Named : (j a : ℕ) → j < 2 → a ≡ maddr + 128 + 24 * j → Named object a (names a)
object-Named zero a lt e = subst (λ a. Named object a (names a)) (omega arith) first-Named
object-Named (suc zero) a lt e = subst (λ a. Named object a (names a)) (omega arith) second-Named
object-Named (suc (suc j)) a lt e = absurd (omega arith)

abbrev no_symbols : Mapper
no_symbols = record { addr = 2 ^ 47; items = []; cur = 0; cap = 1 }

abbrev entered : List Symbol
entered = functions_from object names (symbol_count (maddr + 176) (maddr + 128)) (maddr + 128)

-- f is at 4096 and has 32 bytes.
entered-f : entered ≡ record { func_name = b'f' ∷ []; ip = 4096; size = 32 } ∷ []
unfolding elf_symvalue elf_symsize
entered-f = refl

entered-NoneWraps : NoneWraps entered
entered-NoneWraps = subst NoneWraps (sym entered-f) (omega arith, tt)

parse-functions_from_example :
    (mapper' : Mapper) × (s' : Machine) × (parse bump (found elf_file) no_symbols fresh
      ≡ ok (mapper', s'))
    × (symbols mapper'.items ≡ entered)
    × ((ip : ℕ) → IsFirst entered ip (get_func_name mapper' ip))
parse-functions_from_example =
    parse-functions_from bump (λ i size. omega arith) (found elf_file) object names (maddr + 128)
      (maddr + 176) no_symbols fresh (record fresh { allocs = 5 }) object-opened refl refl
      (omega arith) (omega arith) (λ j a lt e. object-Named j a (omega arith) e)
      (record {
        table = record { written = refl; fits = omega arith; has_room = omega arith };
        cap = omega arith;
        cur = omega arith;
      })
      entered-NoneWraps
