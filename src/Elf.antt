-- ===== src/Elf.antt =====
-- kernel_probe/parse_elf.c: the symbol tables of an ELF binary, and the functions that `parse` enters
-- into the mapper. The offsets into the headers are those of the 64-bit format of <elf.h>.
pub mod Rounds
pub mod User
pub mod Entered
pub mod Listing
mod Tests
use cloud_memory_security.Base.{
  ℕ, zero, suc, ◌+◌, ◌-◌, ◌*◌, ◌/◌, ◌%◌, ◌^◌, Bool, not, ◌&&◌, ◌||◌, [], ◌∷◌, Option, none, some,
  ltb, ◌==◌, if◌then◌else◌, add64, sub64, to_int, Run, ok, oops, hung, ◌>>=◌, Status, success,
  failure,
}
use cloud_memory_security.Memory.{Mem, Machine, alloc, kfree}
use cloud_memory_security.Mapper.{Name, Mapper, insert_mapper}

-- What `file_open`, `vfs_fstat` and `file_read` say of a path. A file has a size and its bytes; what is
-- read behind its end is whatever the kernel keeps there.
pub record File : Type 0 where
  pub size : ℕ
  pub byte : Mem

pub data Lookup : Type 0 where
  missing : Lookup
  no_stat : Lookup
  found : File → Lookup

-- Little-endian fields.
abbrev pub u16_at : Mem → ℕ → ℕ
u16_at m p = m p + m (p + 1) * 2 ^ 8

abbrev pub u32_at : Mem → ℕ → ℕ
u32_at m p = u16_at m p + u16_at m (p + 2) * 2 ^ 16

abbrev pub u64_at : Mem → ℕ → ℕ
u64_at m p = u32_at m p + u32_at m (p + 4) * 2 ^ 32

abbrev pub sizeof_ehdr : ℕ
sizeof_ehdr = 64

abbrev pub sizeof_shdr : ℕ
sizeof_shdr = 64

abbrev pub sizeof_sym : ℕ
sizeof_sym = 24

abbrev pub sht_symtab : ℕ
sht_symtab = 2

abbrev pub sht_dynsym : ℕ
sht_dynsym = 11

abbrev pub stt_func : ℕ
stt_func = 2

-- `sizeof(Elf_obj)`
abbrev pub sizeof_elf_obj : ℕ
sizeof_elf_obj = 72

-- `Elf_obj`, in the block `obj_block`; `bytes` is the memory as it is while the object is open, and
-- `ehdr` is `maddr`. A field that was never assigned holds `none`, for `kmalloc` clears nothing.
pub record ElfObj : Type 0 where
  pub obj_block : ℕ
  pub bytes : Mem
  pub maddr : ℕ
  pub mlen : ℕ
  pub symtab : Option ℕ
  pub symtab_end : Option ℕ
  pub strtab : Option ℕ
  pub dsymtab : Option ℕ
  pub dsymtab_end : Option ℕ
  pub dstrtab : Option ℕ

-- "\177ELF"
unfoldable pub is_elf : ElfObj → Bool
is_elf ep =
    let m = ep.bytes in
    let p = ep.maddr in m p == 0x7f && m (p + 1) == b'E' && m (p + 2) == b'L' && m (p + 3) == b'F'

-- The address of `shdr[i]`.
unfoldable pub shdr : ElfObj → ℕ → ℕ
shdr ep i = add64 (add64 ep.maddr (u64_at ep.bytes (ep.maddr + 40))) (i * sizeof_shdr)

unfoldable pub e_shnum : ElfObj → ℕ
e_shnum ep = u16_at ep.bytes (ep.maddr + 60)

unfoldable pub sh_type : ElfObj → ℕ → ℕ
unfolding shdr
sh_type ep i = u32_at ep.bytes (shdr ep i + 4)

unfoldable pub sh_offset : ElfObj → ℕ → ℕ
unfolding shdr
sh_offset ep i = u64_at ep.bytes (shdr ep i + 24)

unfoldable pub sh_size : ElfObj → ℕ → ℕ
unfolding shdr
sh_size ep i = u64_at ep.bytes (shdr ep i + 32)

unfoldable pub sh_link : ElfObj → ℕ → ℕ
unfolding shdr
sh_link ep i = u32_at ep.bytes (shdr ep i + 40)

-- One section header: the last symbol table of each kind is the one that counts.
unfoldable pub read_section : ElfObj → ℕ → ElfObj
unfolding sh_type sh_offset sh_size sh_link
read_section ep i =
    let start = add64 ep.maddr (sh_offset ep i) in
    let stop = add64 start (sh_size ep i) in
    let strings = add64 ep.maddr (sh_offset ep (sh_link ep i)) in
    let kind = sh_type ep i in
    if kind == sht_symtab
    then record ep { symtab = some start; symtab_end = some stop; strtab = some strings }
    else if kind == sht_dynsym
    then record ep { dsymtab = some start; dsymtab_end = some stop; dstrtab = some strings }
    else ep

-- The loop over the headers from `i` on, with `n` left.
unfoldable pub read_sections : ℕ → ℕ → ElfObj → ElfObj
unfolding read_section
read_sections zero i ep = ep
read_sections (suc n) i ep = read_sections n (i + 1) (read_section ep i)

unfoldable pub elf_symvalue : ElfObj → ℕ → ℕ
elf_symvalue ep sym = u64_at ep.bytes (sym + 8)

unfoldable pub elf_symsize : ElfObj → ℕ → ℕ
elf_symsize ep sym = u64_at ep.bytes (sym + 16)

unfoldable pub st_name : ElfObj → ℕ → ℕ
st_name ep sym = u32_at ep.bytes sym

unfoldable pub st_type : ElfObj → ℕ → ℕ
st_type ep sym = ep.bytes (sym + 4) % 2 ^ 4

-- `&ep->strtab[sym->st_name]`: an address, in the first case undefined.
unfoldable pub elf_symname : ElfObj → ℕ → Option ℕ
unfolding st_name
elf_symname ep sym = elim ep.strtab [ none ↦ none | some t ↦ some (add64 t (st_name ep sym)) ]

unfoldable pub elf_dsymname : ElfObj → ℕ → Option ℕ
unfolding st_name
elf_dsymname ep sym = elim ep.dstrtab [ none ↦ none | some t ↦ some (add64 t (st_name ep sym)) ]

unfoldable pub elf_firstsym : ElfObj → Option ℕ
elf_firstsym ep = ep.symtab

unfoldable pub elf_firstdsym : ElfObj → Option ℕ
elf_firstdsym ep = ep.dsymtab

-- The symbol behind `sym`, or NULL at the end of the table.
unfoldable pub next_below : Option ℕ → ℕ → Option ℕ
next_below stop sym = elim stop [
  | none ↦ none
  | some e ↦ if ltb (add64 sym sizeof_sym) e then some (add64 sym sizeof_sym) else none
]

unfoldable pub elf_nextsym : ElfObj → ℕ → Option ℕ
unfolding next_below
elf_nextsym ep sym = next_below ep.symtab_end sym

unfoldable pub elf_nextdsym : ElfObj → ℕ → Option ℕ
unfolding next_below
elf_nextdsym ep sym = next_below ep.dsymtab_end sym

unfoldable pub elf_isdfunc : ElfObj → ℕ → Bool
unfolding st_type
elf_isdfunc ep sym = st_type ep sym == stt_func

-- `SHT_NULL` is 0.
unfoldable pub elf_isfunc : ElfObj → ℕ → Bool
unfolding st_type
elf_isfunc ep sym = st_type ep sym == stt_func && not (u16_at ep.bytes (sym + 6) == 0)

-- The string at `p`, its end sought in `n` bytes; `none` where they hold no 0.
unfoldable pub string_at : ℕ → Mem → ℕ → Option Name
string_at zero m p = none
string_at (suc n) m p =
    let rest = string_at n m (p + 1) in
    if m p == 0 then some [] else elim rest [ none ↦ none | some cs ↦ some (m p ∷ cs) ]

-- The `int` field `mlen` as the `size_t` of a call.
abbrev pub to_size : ℕ → ℕ
to_size mlen = if ltb mlen (2 ^ 31) then mlen else mlen + (2 ^ 64 - 2 ^ 32)

module _ (kmalloc : ℕ → ℕ → ℕ) where
  -- From the read of the file on. A NULL buffer is not tested for.
  unfoldable pub elf_map : ℕ → File → Machine → Run (Option ElfObj × Machine)
  unfolding alloc is_elf e_shnum read_sections
  elf_map obj f s =
      let mlen = to_int f.size in
      let (buf, s1) = alloc kmalloc (to_size mlen) s in
      let ep : ElfObj = record {
        obj_block = obj;
        bytes = λ p. f.byte (sub64 p buf);
        maddr = buf;
        mlen = mlen;
        symtab = none;
        symtab_end = none;
        strtab = none;
        dsymtab = none;
        dsymtab_end = none;
        dstrtab = none;
      } in
      if buf == 0
      then oops
      else if is_elf ep
      then ok (some (read_sections (e_shnum ep) 0 ep), s1)
      else ok (none, s1)

  unfoldable pub elf_open : Lookup → Machine → Run (Option ElfObj × Machine)
  unfolding alloc elf_map
  elf_open file s =
      let (obj, s1) = alloc kmalloc sizeof_elf_obj s in
      if obj == 0 then ok (none, s1) else elim file [
        | missing ↦ ok (none, s1)
        | no_stat ↦ ok (none, s1)
        | found f ↦ if ltb f.size sizeof_ehdr then ok (none, s1) else elf_map obj f s1
      ]

  unfoldable pub elf_close : ElfObj → Machine → Machine
  unfolding kfree
  elf_close ep s = kfree ep.obj_block (kfree ep.maddr s)

  -- One symbol, entered where neither its name is NULL nor its size 0. A name whose end is not in the
  -- buffer is read past it.
  unfoldable pub enter_symbol : ElfObj → ℕ → Mapper → Machine → Run (Status × Mapper × Machine)
  unfolding elf_symname elf_symsize elf_symvalue
  enter_symbol ep sym mapper s = elim (elf_symname ep sym) [
    | none ↦ oops
    | some p ↦
        if p == 0 || elf_symsize ep sym == 0
        then ok (success, mapper, s)
        else elim (string_at (ep.maddr + ep.mlen - p) ep.bytes p) [
          | none ↦ oops
          | some name ↦
              insert_mapper kmalloc mapper s name (elf_symvalue ep sym) (elf_symsize ep sym)
        ]
  ]

  -- The loop over the symbols from `sym` on. A failed insertion leaves without closing the file.
  unfoldable pub parse_symbols : ℕ → ElfObj → ℕ → Mapper → Machine → Run (Mapper × Machine)
  unfolding enter_symbol elf_nextsym
  parse_symbols zero ep sym mapper s = hung
  parse_symbols (suc n) ep sym mapper s = do
    (status, mapper', s') ← enter_symbol ep sym mapper s
    elim status [
      | failure ↦ ok (mapper', s')
      | success ↦ elim (elf_nextsym ep sym) [
        | none ↦ ok (mapper', elf_close ep s')
        | some next ↦ parse_symbols n ep next mapper' s'
      ]
    ]

  -- The symbols that fit between the table's ends, and one more.
  abbrev pub symbol_rounds : Option ℕ → ℕ → ℕ
  symbol_rounds none start = 1
  symbol_rounds (some stop) start = (stop - start) / sizeof_sym + 2

  unfoldable pub parse : Lookup → Mapper → Machine → Run (Mapper × Machine)
  unfolding elf_open parse_symbols elf_firstsym
  parse file mapper s = do
    (opened, s1) ← elf_open file s
    elim opened [
      | none ↦ ok (mapper, s1)
      | some ep ↦ elim (elf_firstsym ep) [
        | none ↦ oops
        | some sym ↦ parse_symbols (symbol_rounds ep.symtab_end sym) ep sym mapper s1
      ]
    ]
