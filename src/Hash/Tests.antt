-- ===== src/Hash/Tests.antt =====
-- The hash table's theorems, at concrete inputs.
use cloud_memory_security.Base.{ap, ℕ, ◌≡◌, refl, arith, [], ◌∷◌, some, length}
use cloud_memory_security.Mapper.{Name}
use cloud_memory_security.Hash.{
  ht_create, empty_bins, ht_hash, hash_bytes, set_in_bin, ht_newpair, strcmp, Hashtable, ht_set,
  ht_get, ht_get-ht_set,
}
use cloud_memory_security.Hash.Sorted.{AllSorted, created, and_set, Made-AllSorted}
use cloud_memory_security.Hash.Others.{ht_get-ht_set_other}

abbrev one_bin : Hashtable
one_bin = record { size = 1; table = (record { key = b'b' ∷ []; value = 1 ∷ [] } ∷ []) ∷ [] }

ht_get-ht_set_example :
    (hashtable' : Hashtable) × (ht_set 12345 one_bin (b'c' ∷ []) (2 ∷ []) ≡ some hashtable')
    × (ht_get 12345 hashtable' (b'c' ∷ []) ≡ some (2 ∷ []))
    × (length hashtable'.table ≡ hashtable'.size)
ht_get-ht_set_example = ht_get-ht_set 12345 one_bin (b'c' ∷ []) (2 ∷ []) (omega arith) refl

abbrev front : Name → ℕ
front [] = 0
front (c ∷ name) = c

ht_get-ht_set_other_example :
    (hashtable' : Hashtable) × (ht_set 12345 one_bin (b'c' ∷ []) (2 ∷ []) ≡ some hashtable')
    × (ht_get 12345 hashtable' (b'b' ∷ []) ≡ ht_get 12345 one_bin (b'b' ∷ []))
ht_get-ht_set_other_example =
    ht_get-ht_set_other 12345 one_bin (b'c' ∷ []) (b'b' ∷ []) (2 ∷ []) (omega arith) refl
      (λ e. omega (arith, ap front e))

abbrev after_c : Hashtable
after_c = record { size = 1; table = (record { key = b'c' ∷ []; value = 2 ∷ [] } ∷ []) ∷ [] }

abbrev after_b : Hashtable
after_b = record {
  size = 1;
  table =
      (record { key = b'b' ∷ []; value = 1 ∷ [] } ∷ record { key = b'c' ∷ []; value = 2 ∷ [] } ∷ [])
      ∷ [];
}

abbrev empty : Hashtable
empty = record { size = 1; table = [] ∷ [] }

created-empty : ht_create 1 ≡ some empty
unfolding ht_create empty_bins
created-empty = refl

set-after_c : ht_set 12345 empty (b'c' ∷ []) (2 ∷ []) ≡ some after_c
unfolding ht_set ht_hash hash_bytes set_in_bin ht_newpair
set-after_c = refl

set-after_b : ht_set 777 after_c (b'b' ∷ []) (1 ∷ []) ≡ some after_b
unfolding ht_set ht_hash hash_bytes set_in_bin ht_newpair strcmp
set-after_b = refl

Made-AllSorted_example : AllSorted after_b.table
Made-AllSorted_example = Made-AllSorted (
    and_set 777 (b'b' ∷ []) (1 ∷ [])
      (and_set 12345 (b'c' ∷ []) (2 ∷ []) (created 1 created-empty) set-after_c) set-after_b)
