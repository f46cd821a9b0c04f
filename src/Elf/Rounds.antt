-- ===== src/Elf/Rounds.antt =====
-- The loop over the symbols has enough rounds.
use cloud_memory_security.Base.{
  ℕ, zero, suc, ◌+◌, ◌-◌, ◌/◌, ◌*◌, ◌^◌, ◌≤◌, ◌<◌, ◌≡◌, ◌≢◌, refl, inl, inr, List, [], ◌∷◌, some,
  arith, ltb, add64, Run, ok, oops, hung, ◌>>=◌, success, failure, Bool-cases, Run-cases,
  Option-cases,
}
use cloud_memory_security.Memory.{Machine, alloc}
use cloud_memory_security.Mapper.{
  Name, Item, Mapper, copy_name, copy_items, grow_mapper, add_item, insert_mapper,
}
use cloud_memory_security.Elf.{
  ElfObj, sizeof_sym, next_below, elf_symname, elf_symvalue, elf_symsize, string_at, elf_nextsym,
  enter_symbol, parse_symbols, symbol_rounds,
}

-- A chain whose parts do not run out of rounds does not.
>>=-hung {ℓ κ} :
    {A : Type ℓ} {B : Type κ} (r : Run A) (f : A → Run B)
    → r ≢ hung
    → ((x : A) → f x ≢ hung)
    → (r >>= f) ≢ hung
>>=-hung (ok x) f p q h = q x h
>>=-hung oops f p q h = cc
>>=-hung hung f p q h = p refl

module _ (kmalloc : ℕ → ℕ → ℕ) where
  copy_name-hung : (name : Name) (s : Machine) → copy_name kmalloc name s ≢ hung
  unfolding copy_name alloc
  copy_name-hung name s h = ground arith

  copy_items-hung : (n : ℕ) (items : List Item) (s : Machine) → copy_items kmalloc n items s ≢ hung
  unfolding copy_items
  copy_items-hung zero items s h = cc
  copy_items-hung (suc n) [] s h = cc
  copy_items-hung (suc n) (e ∷ items) s h =
      >>=-hung _ _ (copy_name-hung e.func_name s)
        (λ x. >>=-hung _ _ (copy_items-hung n items _) (λ y h'. cc)) h

  add_item-hung :
      (mapper : Mapper) (s : Machine) (name : Name) (ip size : ℕ)
      → add_item kmalloc mapper s name ip size ≢ hung
  unfolding add_item
  add_item-hung mapper s name ip size h =
      >>=-hung _ _ (copy_name-hung name s) (λ x h'. ground arith) h

  grow_mapper-hung : (mapper : Mapper) (s : Machine) → grow_mapper kmalloc mapper s ≢ hung
  unfolding grow_mapper alloc
  grow_mapper-hung mapper s h =
      elim (Run-cases
        (copy_items kmalloc mapper.cur mapper.items (record s { allocs = s.allocs + 1 }))) [
          | inl ((items, t), run) ↦ ground arith
          | inr (inl run) ↦ ground arith
          | inr (inr run) ↦ copy_items-hung _ _ _ run
        ]

  insert_mapper-hung :
      (mapper : Mapper) (s : Machine) (name : Name) (ip size : ℕ)
      → insert_mapper kmalloc mapper s name ip size ≢ hung
  unfolding insert_mapper
  insert_mapper-hung mapper s name ip size h = elim (Run-cases (grow_mapper kmalloc mapper s)) [
    | inl ((success, b, t), run) ↦
        ground (arith, add_item-hung b t name ip size, add_item-hung mapper s name ip size)
    | inl ((failure, b, t), run) ↦ ground (arith, add_item-hung mapper s name ip size)
    | inr (inl run) ↦ ground (arith, add_item-hung mapper s name ip size)
    | inr (inr run) ↦ grow_mapper-hung mapper s run
  ]

  enter_symbol-hung :
      (ep : ElfObj) (sym : ℕ) (mapper : Mapper) (s : Machine)
      → enter_symbol kmalloc ep sym mapper s ≢ hung
  unfolding enter_symbol elf_symname
  enter_symbol-hung ep sym mapper s h = elim (Option-cases (elf_symname ep sym)) [
    | inl no_name ↦ ground arith
    | inr (p, at_name) ↦ elim (Option-cases (string_at (ep.maddr + ep.mlen - p) ep.bytes p)) [
      | inl endless ↦ ground arith
      | inr (name, read) ↦
          ground
            (arith, insert_mapper-hung mapper s name (elf_symvalue ep sym) (elf_symsize ep sym))
    ]
  ]

  parse_symbols-rounds :
      (n : ℕ) (ep : ElfObj) (stop sym : ℕ) (mapper : Mapper) (s : Machine)
      → ep.symtab_end ≡ some stop
      → sym ≤ stop
      → stop + sizeof_sym < 2 ^ 64
      → stop < sizeof_sym * n + sym
      → 0 < n
      → parse_symbols kmalloc n ep sym mapper s ≢ hung
  unfolding parse_symbols elf_nextsym next_below
  parse_symbols-rounds zero ep stop sym mapper s e le top enough pos h = elim pos [ ]
  parse_symbols-rounds (suc n) ep stop sym mapper s e le top enough pos h =
      elim (Run-cases (enter_symbol kmalloc ep sym mapper s)) [
        | inl ((failure, mapper', s'), run) ↦ ground arith
        | inr (inl run) ↦ ground arith
        | inr (inr run) ↦ enter_symbol-hung ep sym mapper s run
        | inl ((success, mapper', s'), run) ↦ elim (Bool-cases (ltb (add64 sym sizeof_sym) stop)) [
          | inr last ↦ ground arith
          | inl more ↦
              let rest : parse_symbols kmalloc n ep (add64 sym sizeof_sym) mapper' s' ≡ hung =
                ground arith in
              parse_symbols-rounds n ep stop (add64 sym sizeof_sym) mapper' s' e (ground arith) top
                (ground arith) (ground arith) rest
        ]
      ]

  -- If the symbol table does not end before its first symbol, and not within a symbol of the end of the
  -- address space, the loop over the symbols does not run out of the rounds it is given.
  pub parse_symbols-symbol_rounds :
      (ep : ElfObj) (stop sym : ℕ) (mapper : Mapper) (s : Machine)
      → ep.symtab_end ≡ some stop
      → sym ≤ stop
      → stop + sizeof_sym < 2 ^ 64
      → parse_symbols kmalloc (symbol_rounds kmalloc ep.symtab_end sym) ep sym mapper s ≢ hung
  parse_symbols-symbol_rounds ep stop sym mapper s e le top =
      let rounds : symbol_rounds kmalloc ep.symtab_end sym ≡ (stop - sym) / sizeof_sym + 2 =
        rw e refl in
      parse_symbols-rounds (symbol_rounds kmalloc ep.symtab_end sym) ep stop sym mapper s e le top
        (omega (arith, rounds)) (omega (arith, rounds))
