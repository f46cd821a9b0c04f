-- ===== src/Hash.antt =====
-- clear_stack/hash.c: a hash table of the daemon, its bins sorted lists. A C string is the list of its
-- bytes, without the final 0. `malloc` and `strdup` are taken to succeed; the values are their bytes.
pub mod Others
pub mod Sorted
mod Tests
use native.Mathlib.Nat.{mod-lt}
use cloud_memory_security.Base.{
  ℕ, zero, suc, ◌+◌, ◌-◌, ◌*◌, ◌%◌, ◌^◌, Bool, true, false, ◌&&◌, not, List, [], ◌∷◌, Option, none,
  some, ltb, leb, ◌==◌, if◌then◌else◌, add64, get_elem?, set, length, ◌≡◌, ◌<◌, ◌⊎◌, inl, inr, refl,
  arith, length-set, get_elem?-set_self, get_elem?-lt,
}
use cloud_memory_security.Mapper.{Name}

-- `struct htEntry`, the `next` of a bin's list left to the list.
pub record HtEntry : Type 0 where
  pub key : Name
  pub value : List ℕ

-- `struct hashtable`
pub record Hashtable : Type 0 where
  pub size : ℕ
  pub table : List (List HtEntry)

-- The `char` as it is added to an `unsigned long`: the sign is extended.
abbrev pub char_word : ℕ → ℕ
char_word c = if ltb c (2 ^ 7) then c else c + 2 ^ 64 - 2 ^ 8

-- The loop of htHash, `hashval` being what it starts with.
unfoldable pub hash_bytes : ℕ → Name → ℕ
hash_bytes hashval [] = hashval
hash_bytes hashval (c ∷ key) =
    let rest = hash_bytes (add64 (hashval * 2 ^ 8 % 2 ^ 64) (char_word c)) key in
    if ltb hashval (2 ^ 64 - 1) then rest else hashval

-- `hashval` is not initialised: it starts with what the stack holds. The remainder is returned as an
-- `int`; `size` is positive, as htCreate checks.
unfoldable pub ht_hash : (garbage size : ℕ) → Name → ℕ
ht_hash garbage size key = hash_bytes garbage key % size

-- `strcmp(a, b)`, as one of below, equal and above.
pub data Order : Type 0 where
  below : Order
  same : Order
  above : Order

-- The bytes are compared as `unsigned char`.
unfoldable pub strcmp : Name → Name → Order
strcmp [] [] = same
strcmp [] (y ∷ ys) = below
strcmp (x ∷ xs) [] = above
strcmp (x ∷ xs) (y ∷ ys) =
    let rest = strcmp xs ys in if ltb x y then below else (if ltb y x then above else rest)

-- `strcmp(…) == 0`
abbrev pub is_named : Name → Name → Bool
is_named expected name = elim (strcmp expected name) [ below ↦ false | same ↦ true | above ↦ false ]

unfoldable pub ht_newpair : Name → List ℕ → HtEntry
ht_newpair key value = record { key = key; value = value }

unfoldable pub empty_bins : ℕ → List (List HtEntry)
empty_bins zero = []
empty_bins (suc n) = [] ∷ empty_bins n

-- `size` is an `int`, as its bit pattern.
unfoldable pub ht_create : ℕ → Option Hashtable
ht_create size =
    if ltb 0 size && ltb size (2 ^ 31)
    then some (record { size = size; table = empty_bins size })
    else none

-- The walk through a bin, and what is done where it stops.
unfoldable pub set_in_bin : Name → List ℕ → List HtEntry → List HtEntry
unfolding ht_newpair
set_in_bin key value [] = ht_newpair key value ∷ []
set_in_bin key value (e ∷ bin) =
    let rest = set_in_bin key value bin in
    elim (strcmp key e.key) [
      | above ↦ e ∷ rest
      | same ↦ record e { value = value } ∷ bin
      | below ↦ ht_newpair key value ∷ e ∷ bin
    ]

-- `none` for a bin out of bounds.
unfoldable pub ht_set : (garbage : ℕ) → Hashtable → Name → List ℕ → Option Hashtable
ht_set garbage hashtable key value =
    let bin = ht_hash garbage hashtable.size key in
    elim (get_elem? hashtable.table bin) [
      | none ↦ none
      | some entries ↦
          some (record hashtable { table = set hashtable.table bin (set_in_bin key value entries) })
    ]

unfoldable pub get_in_bin : Name → List HtEntry → Option (List ℕ)
get_in_bin key [] = none
get_in_bin key (e ∷ bin) =
    let rest = get_in_bin key bin in
    elim (strcmp key e.key) [ above ↦ rest | same ↦ some e.value | below ↦ none ]

-- A bin out of bounds, or no value: NULL.
unfoldable pub ht_get : (garbage : ℕ) → Hashtable → Name → Option (List ℕ)
ht_get garbage hashtable key =
    elim (get_elem? hashtable.table (ht_hash garbage hashtable.size key)) [
      | none ↦ none
      | some entries ↦ get_in_bin key entries
    ]

pub Order-cases : (o : Order) → (o ≡ below) ⊎ ((o ≡ same) ⊎ (o ≡ above))
Order-cases below = inl refl
Order-cases same = inr (inl refl)
Order-cases above = inr (inr refl)

pub strcmp_refl : (key : Name) → strcmp key key ≡ same
unfolding strcmp
strcmp_refl [] = refl
strcmp_refl (x ∷ xs) = ground (arith, strcmp_refl xs)

get-set_in_bin :
    (key : Name) (value : List ℕ) (bin : List HtEntry)
    → get_in_bin key (set_in_bin key value bin) ≡ some value
unfolding get_in_bin set_in_bin ht_newpair
get-set_in_bin key value [] = rw (strcmp_refl key, get_in_bin)
get-set_in_bin key value (e ∷ bin) = elim (Order-cases (strcmp key e.key)) [
  | inl lt ↦ rw (lt, set_in_bin) (rw (strcmp_refl key, get_in_bin))
  | inr (inl eq) ↦ rw (eq, set_in_bin) (rw (eq, get_in_bin))
  | inr (inr gt) ↦ rw (gt, set_in_bin) (rw (gt, get_in_bin) (get-set_in_bin key value bin))
]

pub ht_hash-lt : (garbage size : ℕ) (key : Name) → 0 < size → ht_hash garbage size key < size
unfolding ht_hash
ht_hash-lt garbage size key pos = mod-lt (hash_bytes garbage key) pos

-- In a table with as many bins as its positive size says, a value that was set is found again, if both
-- calls hash with the same garbage, and the table keeps its bins.
pub ht_get-ht_set :
    (garbage : ℕ) (hashtable : Hashtable) (key : Name) (value : List ℕ)
    → 0 < hashtable.size
    → length hashtable.table ≡ hashtable.size
    → (hashtable' : Hashtable) × (ht_set garbage hashtable key value ≡ some hashtable')
      × (ht_get garbage hashtable' key ≡ some value)
      × (length hashtable'.table ≡ hashtable'.size)
unfolding ht_set ht_get
ht_get-ht_set garbage hashtable key value pos full =
    let inside : bin < length hashtable.table =
      rw full (ht_hash-lt garbage hashtable.size key pos) in
    let (entries, at_bin) = get_elem?-lt hashtable.table bin inside in
    (
      record hashtable { table = set hashtable.table bin (set_in_bin key value entries) },
      rw (at_bin, ht_set),
      rw (get_elem?-set_self hashtable.table bin (set_in_bin key value entries) inside, ht_get)
          (get-set_in_bin key value entries),
      rw length-set full,
    )
  where
    bin : ℕ
    bin = ht_hash garbage hashtable.size key
