-- ===== src/Mapper/View.antt =====
-- What a mapper says: the symbols in the order of their insertion, wherever their strings lie.
use mathlib.Core.List.{◌++◌}
use cloud_memory_security.Base.{
  ℕ, suc, ◌+◌, ◌*◌, ◌^◌, ◌⊎◌, ◌≤◌, ◌<◌, ◌≡◌, refl, ap, ◌∙◌, inl, inr, true, false, ◌&&◌, List, [],
  ◌∷◌, Option, none, some, arith, ltb, leb, ◌==◌, add64, mul64, length, Run, ok, Status, success,
  Bool-cases,
}
use cloud_memory_security.Memory.{Machine, alloc, kfree}
use cloud_memory_security.Mapper.{
  Name, Item, Mapper, put_item, find_item, get_func_name, copy_name, copy_items, grow_mapper,
  add_item, insert_mapper,
}

pub record Symbol : Type 0 where
  pub func_name : Name
  pub ip : ℕ
  pub size : ℕ

abbrev pub symbol_of : Item → Symbol
symbol_of e = record { func_name = e.func_name; ip = e.ip; size = e.size }

abbrev pub new_symbol : Name → (ip size : ℕ) → Symbol
new_symbol func_name ip size = record { func_name = func_name; ip = ip; size = size }

abbrev pub symbols : List Item → List Symbol
symbols [] = []
symbols (e ∷ items) = symbol_of e ∷ symbols items

-- The address is one of the symbol's.
abbrev pub Has : Symbol → ℕ → Type 0
Has x ip = (x.ip ≤ ip) × (ip < x.ip + x.size)

abbrev pub NoneHas : List Symbol → ℕ → Type 0
NoneHas [] ip = Unit {0}
NoneHas (x ∷ xs) ip = (¬ (Has x ip)) × NoneHas xs ip

-- What is found is the name of the first symbol that has the address, or nothing where none has it.
abbrev pub IsFirst : List Symbol → ℕ → Option Name → Type 0
IsFirst xs ip none = NoneHas xs ip
IsFirst xs ip (some name) =
    (before : List Symbol) × (x : Symbol) × (after : List Symbol) × (xs ≡ before ++ x ∷ after)
    × NoneHas before ip
    × Has x ip
    × (name ≡ x.func_name)

-- No symbol reaches past the end of the address space.
abbrev pub NoneWraps : List Symbol → Type 0
NoneWraps [] = Unit {0}
NoneWraps (x ∷ xs) = (x.ip + x.size < 2 ^ 64) × NoneWraps xs

-- Every item in use was written, and they fit.
pub record IsTable (mapper : Mapper) : Type 0 where
  pub written : length mapper.items ≡ mapper.cur
  pub fits : mapper.cur ≤ mapper.cap
  pub has_room : 0 < mapper.cap

put_item-symbols :
    (items : List Item) (e : Item)
    → (symbols (put_item items (length items) e) ≡ symbols items ++ symbol_of e ∷ [])
      × (length (put_item items (length items) e) ≡ suc (length items))
unfolding put_item
put_item-symbols [] e = (refl, refl)
put_item-symbols (x ∷ items) e =
    let (same, len) = put_item-symbols items e in (ap (λ l. symbol_of x ∷ l) same, ap suc len)

IsFirst-cons :
    (x : Symbol) (xs : List Symbol) (ip : ℕ) (found : Option Name)
    → ¬ (Has x ip)
    → IsFirst xs ip found
    → IsFirst (x ∷ xs) ip found
IsFirst-cons x xs ip none missed first = (missed, first)
IsFirst-cons x xs ip (some name) missed (before, y, after, split, none_has, has, same) =
    (x ∷ before, y, after, ap (λ l. x ∷ l) split, (missed, none_has), has, same)

find_item-IsFirst :
    (items : List Item) (ip : ℕ)
    → NoneWraps (symbols items)
    → IsFirst (symbols items) ip (find_item (length items) items ip)
unfolding find_item
find_item-IsFirst [] ip w = tt
find_item-IsFirst (e ∷ items) ip w = elim (Bool-cases (leb e.ip ip && ltb ip (add64 e.ip e.size))) [
  | inl hit ↦ rw hit ([], symbol_of e, symbols items, refl, tt, ground (arith, w.0), refl)
  | inr miss ↦ rw miss (
      IsFirst-cons (symbol_of e) (symbols items) ip (find_item (length items) items ip)
        (λ has. ground (arith, w.0, has)) (find_item-IsFirst items ip w.1))
]

-- In a table whose symbols do not reach past the end of the address space, get_func_name gives the name of
-- the first symbol that has the address, and NULL where none has it.
pub get_func_name-IsFirst :
    (mapper : Mapper) (ip : ℕ)
    → IsTable mapper
    → NoneWraps (symbols mapper.items)
    → IsFirst (symbols mapper.items) ip (get_func_name mapper ip)
unfolding get_func_name
get_func_name-IsFirst mapper ip t w = rw (← t.written) (find_item-IsFirst mapper.items ip w)

-- The call succeeded and left a table that has one symbol more, behind those it had, and room for as many
-- as before or twice as many as there were.
abbrev pub Inserted : Mapper → Name → ℕ → ℕ → Run (Status × Mapper × Machine) → Type 0
Inserted mapper func_name ip size r =
    (mapper' : Mapper) × (s' : Machine) × (r ≡ ok (success, mapper', s'))
    × IsTable mapper'
    × (symbols mapper'.items ≡ symbols mapper.items ++ new_symbol func_name ip size ∷ [])
    × (mapper'.cur ≡ suc mapper.cur)
    × ((mapper'.cap ≡ mapper.cap) ⊎ (mapper'.cap ≡ 2 * mapper.cur))

module _ (kmalloc : ℕ → ℕ → ℕ) (never_null : (i size : ℕ) → 0 < kmalloc i size) where
  not_null : (i size : ℕ) → (kmalloc i size == 0) ≡ false
  not_null i size = ground (arith, never_null i size)

  copy_name_lem :
      (name : Name) (s : Machine)
      → copy_name kmalloc name s
        ≡ ok (kmalloc s.allocs (length name + 1), record s { allocs = s.allocs + 1 })
  unfolding copy_name alloc
  copy_name_lem name s = rw (not_null s.allocs (length name + 1))

  -- The copies say what the items said.
  copy_items-symbols :
      (items : List Item) (s : Machine)
      → (items' : List Item) × (s' : Machine) × (copy_items kmalloc (length items) items s
          ≡ ok (items', s'))
        × (symbols items' ≡ symbols items)
        × (length items' ≡ length items)
  unfolding copy_items
  copy_items-symbols [] s = ([], s, refl, refl, refl)
  copy_items-symbols (e ∷ items) s =
      let s1 : Machine = record s { allocs = s.allocs + 1 } in
      let (items', s', run, same, len) = copy_items-symbols items (kfree e.name_block s1) in
      (
        record e { name_block = kmalloc s.allocs (length e.func_name + 1) } ∷ items',
        s',
        rw (copy_name_lem e.func_name s) (rw run),
        ap (λ l. symbol_of e ∷ l) same,
        ap suc len,
      )

  add_item-Inserted :
      (mapper : Mapper) (s : Machine) (func_name : Name) (ip size : ℕ)
      → IsTable mapper
      → mapper.cur < mapper.cap
      → mapper.cap < 2 ^ 64
      → Inserted mapper func_name ip size (add_item kmalloc mapper s func_name ip size)
  unfolding add_item
  add_item-Inserted mapper s func_name ip size t room small =
      let e : Item = record {
        func_name = func_name;
        name_block = kmalloc s.allocs (length func_name + 1);
        ip = ip;
        size = size;
      } in
      let inside : ltb mapper.cur mapper.cap ≡ true = ground arith in
      let next : add64 mapper.cur 1 ≡ suc mapper.cur = omega arith in
      let (same, len) = put_item-symbols mapper.items e in
      (
        record mapper { items = put_item mapper.items mapper.cur e; cur = suc mapper.cur },
        record s { allocs = s.allocs + 1 },
        rw (copy_name_lem func_name s) (rw inside (rw next)),
        record { written = rw (← t.written) len; fits = room; has_room = t.has_room },
        rw (← t.written) same,
        refl,
        inl refl,
      )

  grow_mapper-copy_items :
      (mapper : Mapper) (items' : List Item) (s s2 : Machine)
      → copy_items kmalloc mapper.cur mapper.items (record s { allocs = s.allocs + 1 })
        ≡ ok (items', s2)
      → grow_mapper kmalloc mapper s
        ≡ ok (
          success,
          record {
            addr = kmalloc s.allocs (mul64 (mul64 2 mapper.cap) 40);
            items = items';
            cur = mapper.cur;
            cap = mul64 2 mapper.cap;
          },
          kfree mapper.addr s2,
        )
  unfolding grow_mapper alloc
  grow_mapper-copy_items mapper items' s s2 run =
      rw (not_null s.allocs (mul64 (mul64 2 mapper.cap) 40)) (rw run)

  -- If kmalloc does not fail, an insertion into a table whose size can be doubled succeeds: the result
  -- is a table again, with the symbols there were, also when it had to grow, and the new one behind
  -- them; its room is what it was, or twice the number of symbols there were.
  pub insert_mapper-Inserted :
      (mapper : Mapper) (s : Machine) (func_name : Name) (ip size : ℕ)
      → IsTable mapper
      → mapper.cap < 2 ^ 63
      → Inserted mapper func_name ip size (insert_mapper kmalloc mapper s func_name ip size)
  unfolding insert_mapper
  insert_mapper-Inserted mapper s func_name ip size t small =
      elim (Bool-cases (mapper.cur == mapper.cap)) [
        | inr room ↦
            rw room (
              add_item-Inserted mapper s func_name ip size t (ground (arith, t.fits)) (omega arith))
        | inl full ↦
            let s1 : Machine = record s { allocs = s.allocs + 1 } in
            let (items', s2, run, same, len) = copy_items-symbols mapper.items s1 in
            let copied : copy_items kmalloc mapper.cur mapper.items s1 ≡ ok (items', s2) =
              rw (← t.written) run in
            let grown : Mapper = record {
              addr = kmalloc s.allocs (mul64 (mul64 2 mapper.cap) 40);
              items = items';
              cur = mapper.cur;
              cap = mul64 2 mapper.cap;
            } in
            let t' : IsTable grown = record {
              written = len ∙ t.written;
              fits = ground (arith, t.fits);
              has_room = omega (arith, t.has_room);
            } in
            let (mapper', s', added, table, all, next, room) =
              add_item-Inserted grown (kfree mapper.addr s2) func_name ip size t'
                (ground (arith, t.has_room)) (omega arith) in
            (
              mapper',
              s',
              rw full (rw (grow_mapper-copy_items mapper items' s s2 copied) added),
              table,
              rw (← same) all,
              next,
              inr (ground (arith, room, t.fits)),
            )
      ]
