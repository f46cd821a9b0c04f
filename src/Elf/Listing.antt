-- ===== src/Elf/Listing.antt =====
-- What main of parse_elf/elf.c lists.
use cloud_memory_security.Base.{
  ℕ, zero, suc, ◌+◌, ◌-◌, ◌*◌, ◌/◌, ◌^◌, ◌≤◌, ◌<◌, ◌≡◌, refl, ◌∙◌, true, false, List, [], ◌∷◌, none,
  some, ltb, if◌then◌else◌, add64, ok, arith,
}
use cloud_memory_security.Elf.{ElfObj, elf_nextsym, next_below, sizeof_sym}
use cloud_memory_security.Elf.User.{Line, line, list_symbols}

-- The symbols from `sym` to the table's end, at least the one at `sym`.
abbrev pub symbol_count : (stop sym : ℕ) → ℕ
symbol_count stop sym = suc ((stop - sym - 1) / sizeof_sym)

-- The lines of `n` symbols from `sym` on.
abbrev pub lines_from : (ℕ → Line) → (n sym : ℕ) → List Line
lines_from lines zero sym = []
lines_from lines (suc n) sym = lines sym ∷ lines_from lines n (sym + sizeof_sym)

pub elf_nextsym-ltb :
    (ep : ElfObj) (stop sym : ℕ)
    → ep.symtab_end ≡ some stop
    → sym + sizeof_sym < 2 ^ 64
    → elf_nextsym ep sym ≡ (if ltb (sym + sizeof_sym) stop then some (sym + sizeof_sym) else none)
unfolding elf_nextsym next_below
elf_nextsym-ltb ep stop sym end top =
    let next : add64 sym sizeof_sym ≡ sym + sizeof_sym = omega arith in rw (end, next)

list_symbols-last :
    (n : ℕ) (ep : ElfObj) (sym : ℕ) (l : Line)
    → line ep sym ≡ ok l
    → elf_nextsym ep sym ≡ none
    → list_symbols (suc n) ep sym ≡ ok (l ∷ [])
unfolding list_symbols
list_symbols-last n ep sym l here last = rw (list_symbols, here) (rw last)

list_symbols-next :
    (n : ℕ) (ep : ElfObj) (sym next : ℕ) (l : Line) (ls : List Line)
    → line ep sym ≡ ok l
    → elf_nextsym ep sym ≡ some next
    → list_symbols n ep next ≡ ok ls
    → list_symbols (suc n) ep sym ≡ ok (l ∷ ls)
unfolding list_symbols
list_symbols-next n ep sym next l ls here more rest = rw (list_symbols, here) (rw more (rw rest))

list_symbols-rounds :
    (n count : ℕ) (ep : ElfObj) (stop sym : ℕ) (lines : ℕ → Line)
    → ep.symtab_end ≡ some stop
    → sym + sizeof_sym < 2 ^ 64
    → stop + sizeof_sym < 2 ^ 64
    → symbol_count stop sym ≡ suc count
    → count < n
    → ((j a : ℕ) → j ≤ count → a ≡ sym + sizeof_sym * j → line ep a ≡ ok (lines a))
    → list_symbols n ep sym ≡ ok (lines_from lines (suc count) sym)
list_symbols-rounds zero count ep stop sym lines end top top' size enough each =
    absurd (omega arith)
list_symbols-rounds (suc n) zero ep stop sym lines end top top' size enough each =
    let last : ltb (sym + sizeof_sym) stop ≡ false = ground arith in
    list_symbols-last n ep sym (lines sym) (each 0 sym (omega arith) (omega arith))
      (elf_nextsym-ltb ep stop sym end top ∙ rw last)
list_symbols-rounds (suc n) (suc count) ep stop sym lines end top top' size enough each =
    let more : ltb (sym + sizeof_sym) stop ≡ true = ground arith in
    list_symbols-next n ep sym (sym + sizeof_sym) (lines sym)
      (lines_from lines (suc count) (sym + sizeof_sym)) (each 0 sym (omega arith) (omega arith))
      (elf_nextsym-ltb ep stop sym end top ∙ rw more)
      (list_symbols-rounds n count ep stop (sym + sizeof_sym) lines end (omega arith) top'
        (omega arith) (omega arith) (λ j a le e. each (suc j) a (omega arith) (omega arith)))

-- A table of symbols that does not end within a symbol of the end of the address space, every symbol's
-- line being one that can be printed: with a round for every symbol the loop of main ends, and prints
-- the line of every symbol from the first to the table's end, in their order.
pub list_symbols_lem :
    (rounds : ℕ) (ep : ElfObj) (stop start : ℕ) (lines : ℕ → Line)
    → ep.symtab_end ≡ some stop
    → start + sizeof_sym < 2 ^ 64
    → stop + sizeof_sym < 2 ^ 64
    → symbol_count stop start ≤ rounds
    → ((j a : ℕ)
        → j < symbol_count stop start
        → a ≡ start + sizeof_sym * j
        → line ep a ≡ ok (lines a))
    → list_symbols rounds ep start ≡ ok (lines_from lines (symbol_count stop start) start)
list_symbols_lem rounds ep stop start lines end top top' enough each =
    list_symbols-rounds rounds ((stop - start - 1) / sizeof_sym) ep stop start lines end top top'
      refl (omega arith) (λ j a le e. each j a (omega arith) e)
