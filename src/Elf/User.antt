-- ===== src/Elf/User.antt =====
-- parse_elf/elf.c: the user-level reader that parse_elf.c was made from, with a main that lists the
-- symbols. The accessors have the same text in both files. Where the program leaves by `exit(1)` the
-- result is `none`.
use cloud_memory_security.Base.{
  ℕ, zero, suc, ◌+◌, ◌-◌, ◌%◌, ◌^◌, List, [], ◌∷◌, Option, none, some, ltb, ◌==◌, if◌then◌else◌,
  sub64, to_int, Run, ok, oops, hung, ◌>>=◌,
}
use cloud_memory_security.Mapper.{Name}
use cloud_memory_security.Elf.{
  File, Lookup, missing, no_stat, found, ElfObj, is_elf, e_shnum, read_sections, elf_firstsym,
  elf_nextsym, elf_symname, elf_symvalue, elf_symsize, string_at, to_size, sizeof_ehdr,
  symbol_rounds,
}

-- From `mmap` on. `mapped` is what `mmap` returns for a length, `none` where it fails.
unfoldable pub map_elf : (obj : ℕ) (mapped : ℕ → Option ℕ) → File → Option ElfObj
map_elf obj mapped f = elim (mapped (to_size (to_int f.size))) [
  | none ↦ none
  | some maddr ↦
      let ep : ElfObj = record {
        obj_block = obj;
        bytes = λ p. f.byte (sub64 p maddr);
        maddr = maddr;
        mlen = to_int f.size;
        symtab = none;
        symtab_end = none;
        strtab = none;
        dsymtab = none;
        dsymtab_end = none;
        dstrtab = none;
      } in
      if is_elf ep then some (read_sections (e_shnum ep) 0 ep) else none
]

-- `obj` is what `malloc` returns.
unfoldable pub open_elf : (obj : ℕ) (mapped : ℕ → Option ℕ) → Lookup → Option ElfObj
open_elf obj mapped file = if obj == 0 then none else elim file [
  | missing ↦ none
  | no_stat ↦ none
  | found f ↦ if ltb f.size sizeof_ehdr then none else map_elf obj mapped f
]

-- A line that main prints. The size is printed as an `int`.
pub record Line : Type 0 where
  pub name : Name
  pub value : ℕ
  pub size : ℕ

-- A name whose end is not in the mapping is read past it.
unfoldable pub line : ElfObj → ℕ → Run Line
line ep sym = elim (elf_symname ep sym) [
  | none ↦ oops
  | some p ↦ elim (string_at (ep.maddr + ep.mlen - p) ep.bytes p) [
    | none ↦ oops
    | some name ↦
        ok (record { name = name; value = elf_symvalue ep sym; size = elf_symsize ep sym % 2 ^ 32 })
  ]
]

-- The loop of main, with the rounds left.
unfoldable pub list_symbols : ℕ → ElfObj → ℕ → Run (List Line)
list_symbols zero ep sym = hung
list_symbols (suc n) ep sym = do
  here ← line ep sym
  elim (elf_nextsym ep sym) [
    | none ↦ ok (here ∷ [])
    | some next ↦ do rest ← list_symbols n ep next; ok (here ∷ rest)
  ]

-- What main prints of a file, `none` where it exits.
unfoldable pub main_lines : (obj : ℕ) (mapped : ℕ → Option ℕ) → Lookup → Option (Run (List Line))
main_lines obj mapped file = elim (open_elf obj mapped file) [
  | none ↦ none
  | some ep ↦ some (elim (elf_firstsym ep) [
    | none ↦ oops
    | some sym ↦ list_symbols (symbol_rounds (λ i size. obj) ep.symtab_end sym) ep sym
  ])
]
