-- ===== src/Elf/Entered.antt =====
-- What parse of kernel_probe/parse_elf.c puts into the table of functions.
mod Tests
use mathlib.Core.List.{◌++◌, append_assoc, append-nil}
use cloud_memory_security.Base.{
  ℕ, zero, suc, ◌+◌, ◌-◌, ◌*◌, ◌/◌, ◌^◌, ◌≤◌, ◌<◌, ◌≡◌, refl, sym, subst, ap, ◌∙◌, inl, inr, true,
  false, List, [], ◌∷◌, none, some, ltb, ◌==◌, if◌then◌else◌, Run, ok, arith, Status, success,
  Bool-cases,
}
use cloud_memory_security.Memory.{Machine}
use cloud_memory_security.Mapper.{Name, Mapper, get_func_name, insert_mapper}
use cloud_memory_security.Mapper.View.{
  Symbol, new_symbol, symbols, NoneWraps, IsFirst, IsTable, get_func_name-IsFirst,
  insert_mapper-Inserted,
}
use cloud_memory_security.Elf.{
  Lookup, ElfObj, sizeof_sym, elf_symname, elf_symvalue, elf_symsize, string_at, elf_nextsym,
  next_below, elf_firstsym, elf_open, elf_close, enter_symbol, parse_symbols, symbol_rounds, parse,
}
use cloud_memory_security.Elf.Listing.{symbol_count, elf_nextsym-ltb}

-- The string that the symbol's name, which is not NULL, points to.
abbrev pub Named : ElfObj → ℕ → Name → Type 0
Named ep sym name =
    (p : ℕ) × (elf_symname ep sym ≡ some p)
    × ((p == 0) ≡ false)
    × (string_at (ep.maddr + ep.mlen - p) ep.bytes p ≡ some name)

-- A symbol of size 0 is no function.
abbrev pub function_at : ElfObj → (names : ℕ → Name) → ℕ → List Symbol
function_at ep names sym =
    if elf_symsize ep sym == 0
    then []
    else new_symbol (names sym) (elf_symvalue ep sym) (elf_symsize ep sym) ∷ []

-- The functions among `n` symbols from `sym` on.
abbrev pub functions_from : ElfObj → (names : ℕ → Name) → (n sym : ℕ) → List Symbol
functions_from ep names zero sym = []
functions_from ep names (suc n) sym =
    function_at ep names sym ++ functions_from ep names n (sym + sizeof_sym)

-- A table that can take `n` more symbols.
pub record Takes (n : ℕ) (mapper : Mapper) : Type 0 where
  pub table : IsTable mapper
  pub cap : mapper.cap < 2 ^ 63
  pub cur : mapper.cur + n < 2 ^ 62

module _ (kmalloc : ℕ → ℕ → ℕ) (never_null : (i size : ℕ) → 0 < kmalloc i size) where
  -- The call ends well and leaves a table with `more` behind the symbols that there were.
  abbrev Entered : ℕ → Mapper → List Symbol → Run (Status × Mapper × Machine) → Type 0
  Entered n mapper more r =
      (mapper' : Mapper) × (s' : Machine) × (r ≡ ok (success, mapper', s'))
      × Takes n mapper'
      × (symbols mapper'.items ≡ symbols mapper.items ++ more)

  enter_symbol-Named :
      (ep : ElfObj) (symbol : ℕ) (name : Name) (mapper : Mapper) (s : Machine)
      → Named ep symbol name
      → enter_symbol kmalloc ep symbol mapper s ≡ (
          if elf_symsize ep symbol == 0
          then ok (success, mapper, s)
          else insert_mapper kmalloc mapper s name (elf_symvalue ep symbol) (elf_symsize ep symbol))
  unfolding enter_symbol elf_symname
  enter_symbol-Named ep symbol name mapper s (p, at_name, named, read) =
      ground (arith, at_name, named, read)

  enter_symbol-Entered :
      (n : ℕ) (ep : ElfObj) (names : ℕ → Name) (symbol : ℕ) (mapper : Mapper) (s : Machine)
      → Named ep symbol (names symbol)
      → Takes (suc n) mapper
      → Entered n mapper (function_at ep names symbol) (enter_symbol kmalloc ep symbol mapper s)
  enter_symbol-Entered n ep names symbol mapper s named takes =
      let entered = enter_symbol-Named ep symbol (names symbol) mapper s named in
      elim (Bool-cases (elf_symsize ep symbol == 0)) [
        | inl empty ↦ (
          mapper,
          s,
          rw entered (rw empty refl),
          record { table = takes.table; cap = takes.cap; cur = omega (arith, takes.cur) },
          rw empty (sym (append-nil (symbols mapper.items))),
        )
        | inr sized ↦
            let (mapper', s', run, table, all, next, room) =
              insert_mapper-Inserted kmalloc never_null mapper s (names symbol)
                (elf_symvalue ep symbol) (elf_symsize ep symbol) takes.table takes.cap in
            (
              mapper',
              s',
              rw entered (rw sized run),
              record {
                table = table;
                cap = ground (arith, room, takes.cap, takes.cur);
                cur = omega (arith, next, takes.cur);
              },
              rw sized all,
            )
      ]

  parse_symbols-last :
      (n : ℕ) (ep : ElfObj) (symbol : ℕ) (mapper mapper' : Mapper) (s s' : Machine)
      → enter_symbol kmalloc ep symbol mapper s ≡ ok (success, mapper', s')
      → elf_nextsym ep symbol ≡ none
      → parse_symbols kmalloc (suc n) ep symbol mapper s ≡ ok (mapper', elf_close kmalloc ep s')
  unfolding parse_symbols elf_nextsym next_below
  parse_symbols-last n ep symbol mapper mapper' s s' entered last =
      rw (parse_symbols, entered) (ground (arith, last))

  parse_symbols-next :
      (n : ℕ) (ep : ElfObj) (symbol next : ℕ) (mapper mapper' : Mapper) (s s' : Machine)
      → enter_symbol kmalloc ep symbol mapper s ≡ ok (success, mapper', s')
      → elf_nextsym ep symbol ≡ some next
      → parse_symbols kmalloc (suc n) ep symbol mapper s
        ≡ parse_symbols kmalloc n ep next mapper' s'
  unfolding parse_symbols elf_nextsym next_below
  parse_symbols-next n ep symbol next mapper mapper' s s' entered more =
      rw (parse_symbols, entered) (ground (arith, more))

  -- The loop ends and leaves a table with `more` behind the symbols that there were.
  abbrev Filled : Mapper → List Symbol → Run (Mapper × Machine) → Type 0
  Filled mapper more r =
      (mapper' : Mapper) × (s' : Machine) × (r ≡ ok (mapper', s'))
      × IsTable mapper'
      × (symbols mapper'.items ≡ symbols mapper.items ++ more)

  parse_symbols-Filled :
      (n count : ℕ) (ep : ElfObj) (names : ℕ → Name) (stop symbol : ℕ) (mapper : Mapper)
      (s : Machine)
      → ep.symtab_end ≡ some stop
      → symbol + sizeof_sym < 2 ^ 64
      → stop + sizeof_sym < 2 ^ 64
      → symbol_count stop symbol ≡ suc count
      → count < n
      → ((j a : ℕ) → j ≤ count → a ≡ symbol + sizeof_sym * j → Named ep a (names a))
      → Takes (suc count) mapper
      → Filled mapper
          (functions_from ep names (suc count) symbol)
          (parse_symbols kmalloc n ep symbol mapper s)
  parse_symbols-Filled zero count ep names stop symbol mapper s end top top' size enough each
        takes =
      absurd (omega arith)
  parse_symbols-Filled (suc n) zero ep names stop symbol mapper s end top top' size enough each
        takes =
      let last : ltb (symbol + sizeof_sym) stop ≡ false = ground arith in
      let (mapper', s', run, takes', all) =
        enter_symbol-Entered 0 ep names symbol mapper s (each 0 symbol (omega arith) (omega arith))
          takes in
      (
        mapper',
        elf_close kmalloc ep s',
        parse_symbols-last n ep symbol mapper mapper' s s' run
            (elf_nextsym-ltb ep stop symbol end top ∙ rw last),
        takes'.table,
        all ∙ ap (λ l. symbols mapper.items ++ l) (sym (append-nil (function_at ep names symbol))),
      )
  parse_symbols-Filled (suc n) (suc count) ep names stop symbol mapper s end top top' size enough
        each takes =
      let more : ltb (symbol + sizeof_sym) stop ≡ true = ground arith in
      let (mapper1, s1, run, takes1, all) =
        enter_symbol-Entered (suc count) ep names symbol mapper s
          (each 0 symbol (omega arith) (omega arith)) takes in
      let next = symbol + sizeof_sym in
      let (mapper', s', rest, table, all') =
        parse_symbols-Filled n count ep names stop next mapper1 s1 end (omega arith) top'
          (omega arith) (omega arith) (λ j a le e. each (suc j) a (omega arith) (omega arith))
          takes1 in
      (
        mapper',
        s',
        parse_symbols-next n ep symbol next mapper mapper1 s s1 run
              (elf_nextsym-ltb ep stop symbol end top ∙ rw more)
            ∙ rest,
        table,
        all'
            ∙ ap (λ l. l ++ functions_from ep names (suc count) next) all
            ∙ append_assoc (symbols mapper.items) (function_at ep names symbol)
                (functions_from ep names (suc count) next),
      )

  parse-parse_symbols :
      (file : Lookup) (ep : ElfObj) (start : ℕ) (mapper : Mapper) (s s1 : Machine)
      → elf_open kmalloc file s ≡ ok (some ep, s1)
      → ep.symtab ≡ some start
      → parse kmalloc file mapper s
        ≡ parse_symbols kmalloc (symbol_rounds kmalloc ep.symtab_end start) ep start mapper s1
  unfolding parse elf_firstsym
  parse-parse_symbols file ep start mapper s s1 opened begin = rw opened (ground (arith, begin))

  -- elf_open gave an object with a symbol table that does not end within a symbol of the end of the address
  -- space, the names of whose symbols are not NULL and end, the table of functions can take them all, none
  -- of the functions reaches past the end of the address space, and kmalloc does not fail. Then parse ends,
  -- behind the functions that there were the table has those symbols whose size is not 0, from the first on,
  -- and get_func_name gives for every address the name of the first of all these functions that has it, and
  -- NULL where none has it.
  pub parse-functions_from :
      (file : Lookup) (ep : ElfObj) (names : ℕ → Name) (start stop : ℕ) (mapper : Mapper)
      (s s1 : Machine)
      → elf_open kmalloc file s ≡ ok (some ep, s1)
      → ep.symtab ≡ some start
      → ep.symtab_end ≡ some stop
      → start + sizeof_sym < 2 ^ 64
      → stop + sizeof_sym < 2 ^ 64
      → ((j a : ℕ)
          → j < symbol_count stop start
          → a ≡ start + sizeof_sym * j
          → Named ep a (names a))
      → Takes (symbol_count stop start) mapper
      → NoneWraps (symbols mapper.items ++ functions_from ep names (symbol_count stop start) start)
      → let all = symbols mapper.items ++ functions_from ep names (symbol_count stop start) start in
        (mapper' : Mapper) × (s' : Machine) × (parse kmalloc file mapper s ≡ ok (mapper', s'))
        × (symbols mapper'.items ≡ all)
        × ((ip : ℕ) → IsFirst all ip (get_func_name mapper' ip))
  parse-functions_from file ep names start stop mapper s s1 opened begin end top top' each takes
        within_space =
      let rounds : symbol_rounds kmalloc ep.symtab_end start ≡ (stop - start) / sizeof_sym + 2 =
        rw end refl in
      let (mapper', s', run, table, all) =
        parse_symbols-Filled (symbol_rounds kmalloc ep.symtab_end start)
          ((stop - start - 1) / sizeof_sym) ep names stop start mapper s1 end top top' refl
          (omega (arith, rounds)) (λ j a le e. each j a (omega arith) e) takes in
      (
        mapper',
        s',
        parse-parse_symbols file ep start mapper s s1 opened begin ∙ run,
        all,
        λ ip.
            subst (λ l. IsFirst l ip (get_func_name mapper' ip)) all
              (get_func_name-IsFirst mapper' ip table (subst NoneWraps (sym all) within_space)),
      )
