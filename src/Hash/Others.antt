-- ===== src/Hash/Others.antt =====
-- htSet of clear_stack/hash.c, seen from the other keys.
use cloud_memory_security.Base.{
  ℕ, ◌<◌, ◌≡◌, ◌≢◌, refl, sym, ◌∙◌, inl, inr, List, [], ◌∷◌, none, some, ◌==◌, ==_iff, ==_ne,
  get_elem?, set, length, arith, Bool-cases, get_elem?-set_self, get_elem?-set_ne, get_elem?-lt,
}
use cloud_memory_security.Mapper.{Name}
use cloud_memory_security.Hash.{
  HtEntry, Hashtable, below, same, above, Order-cases, strcmp, ht_newpair, set_in_bin, get_in_bin,
  ht_hash, ht_hash-lt, ht_set, ht_get,
}

pub strcmp-same : (a b : Name) → strcmp a b ≡ same → a ≡ b
unfolding strcmp
strcmp-same [] [] e = refl
strcmp-same [] (y ∷ ys) e = absurd (cc e)
strcmp-same (x ∷ xs) [] e = absurd (cc e)
strcmp-same (x ∷ xs) (y ∷ ys) e =
    let heads : x ≡ y = ground (arith, e) in
    let tails : strcmp xs ys ≡ same = ground (arith, e) in let rest = strcmp-same xs ys tails in cc

pub strcmp_trans : (a b c : Name) → strcmp a b ≡ below → strcmp b c ≡ below → strcmp a c ≡ below
unfolding strcmp
strcmp_trans [] [] c e f = absurd (cc e)
strcmp_trans [] (y ∷ ys) [] e f = absurd (cc f)
strcmp_trans [] (y ∷ ys) (z ∷ zs) e f = refl
strcmp_trans (x ∷ xs) [] c e f = absurd (cc e)
strcmp_trans (x ∷ xs) (y ∷ ys) [] e f = absurd (cc f)
strcmp_trans (x ∷ xs) (y ∷ ys) (z ∷ zs) e f = ground (arith, e, f, strcmp_trans xs ys zs)

get_in_bin-above :
    (key : Name) (e : HtEntry) (bin : List HtEntry)
    → strcmp key e.key ≡ above
    → get_in_bin key (e ∷ bin) ≡ get_in_bin key bin
unfolding get_in_bin
get_in_bin-above key e bin h = rw (h, get_in_bin)

get_in_bin-below :
    (key : Name) (e : HtEntry) (bin : List HtEntry)
    → strcmp key e.key ≡ below
    → get_in_bin key (e ∷ bin) ≡ none
unfolding get_in_bin
get_in_bin-below key e bin h = rw (h, get_in_bin)

get_in_bin-same :
    (key : Name) (e : HtEntry) (bin : List HtEntry)
    → strcmp key e.key ≡ same
    → get_in_bin key (e ∷ bin) ≡ some e.value
unfolding get_in_bin
get_in_bin-same key e bin h = rw (h, get_in_bin)

-- The front of a bin decides for any key but its own what is behind it, or nothing.
get_in_bin-front :
    (key' : Name) (e e' : HtEntry) (bin bin' : List HtEntry)
    → e.key ≡ e'.key
    → (strcmp key' e.key ≡ same → e.value ≡ e'.value)
    → get_in_bin key' bin ≡ get_in_bin key' bin'
    → get_in_bin key' (e ∷ bin) ≡ get_in_bin key' (e' ∷ bin')
get_in_bin-front key' e e' bin bin' keys values rest = elim (Order-cases (strcmp key' e.key)) [
  | inl lt ↦ get_in_bin-below key' e bin lt ∙ sym (get_in_bin-below key' e' bin' (rw (← keys) lt))
  | inr (inl eq) ↦
      get_in_bin-same key' e bin eq
      ∙ (rw (values eq))
      ∙ sym (get_in_bin-same key' e' bin' (rw (← keys) eq))
  | inr (inr gt) ↦
      get_in_bin-above key' e bin gt ∙ rest ∙ sym (get_in_bin-above key' e' bin' (rw (← keys) gt))
]

get_in_bin-pair :
    (key key' : Name) (value : List ℕ) (bin : List HtEntry)
    → key' ≢ key
    → (strcmp key' key ≡ below → get_in_bin key' bin ≡ none)
    → get_in_bin key' (ht_newpair key value ∷ bin) ≡ get_in_bin key' bin
unfolding ht_newpair
get_in_bin-pair key key' value bin other short = elim (Order-cases (strcmp key' key)) [
  | inl lt ↦ get_in_bin-below key' (ht_newpair key value) bin lt ∙ sym (short lt)
  | inr (inl eq) ↦ absurd (other (strcmp-same key' key eq))
  | inr (inr gt) ↦ get_in_bin-above key' (ht_newpair key value) bin gt
]

get-set_in_bin_other :
    (key key' : Name) (value : List ℕ) (bin : List HtEntry)
    → key' ≢ key
    → get_in_bin key' (set_in_bin key value bin) ≡ get_in_bin key' bin
unfolding set_in_bin
get-set_in_bin_other key key' value [] other =
    get_in_bin-pair key key' value [] other (λ lt. unfold get_in_bin in refl)
get-set_in_bin_other key key' value (e ∷ bin) other = elim (Order-cases (strcmp key e.key)) [
  | inl lt ↦
      rw (lt, set_in_bin)
        (get_in_bin-pair key key' value (e ∷ bin) other
          (λ lt'. get_in_bin-below key' e bin (strcmp_trans key' key e.key lt' lt)))
  | inr (inl eq) ↦
      rw (eq, set_in_bin)
        (get_in_bin-front key' (record e { value = value }) e bin bin refl
          (λ eq'. absurd (other (strcmp-same key' e.key eq' ∙ sym (strcmp-same key e.key eq))))
          refl)
  | inr (inr gt) ↦
      rw (gt, set_in_bin)
        (get_in_bin-front key' e e (set_in_bin key value bin) bin refl (λ eq. refl)
          (get-set_in_bin_other key key' value bin other))
]

ht_get-at :
    (garbage : ℕ) (hashtable : Hashtable) (key : Name) (entries : List HtEntry)
    → get_elem? hashtable.table (ht_hash garbage hashtable.size key) ≡ some entries
    → ht_get garbage hashtable key ≡ get_in_bin key entries
unfolding ht_get
ht_get-at garbage hashtable key entries at_bin = rw (at_bin, ht_get)

ht_get-same_bin :
    (garbage : ℕ) (h : Hashtable) (t : List (List HtEntry)) (key : Name)
    → get_elem? t (ht_hash garbage h.size key) ≡ get_elem? h.table (ht_hash garbage h.size key)
    → ht_get garbage (record h { table = t }) key ≡ ht_get garbage h key
unfolding ht_get
ht_get-same_bin garbage h t key bins = rw (ht_get, bins)

-- What is found for another key once its bin, or another one, was set.
ht_get-set_table :
    (garbage : ℕ) (h : Hashtable) (bin : ℕ) (key key' : Name) (value : List ℕ)
    (entries : List HtEntry)
    → key' ≢ key
    → bin < length h.table
    → get_elem? h.table bin ≡ some entries
    → ht_get garbage (record h { table = set h.table bin (set_in_bin key value entries) }) key'
      ≡ ht_get garbage h key'
ht_get-set_table garbage h bin key key' value entries other inside at_bin =
    let h' : Hashtable = record h { table = set h.table bin (set_in_bin key value entries) } in
    let bin' : ℕ = ht_hash garbage h.size key' in
    elim (Bool-cases (bin' == bin)) [
      | inl here ↦
          let e : bin' ≡ bin = (==_iff bin' bin).0 here in
          let now : get_elem? h'.table bin' ≡ some (set_in_bin key value entries) =
            rw e (get_elem?-set_self h.table bin (set_in_bin key value entries) inside) in
          let before : get_elem? h.table bin' ≡ some entries = rw e at_bin in
          ht_get-at garbage h' key' (set_in_bin key value entries) now
          ∙ get-set_in_bin_other key key' value entries other
          ∙ sym (ht_get-at garbage h key' entries before)
      | inr away ↦
          ht_get-same_bin garbage h (set h.table bin (set_in_bin key value entries)) key'
            (get_elem?-set_ne h.table bin' bin (set_in_bin key value entries) (==_ne bin' bin away))
    ]

-- In a table with as many bins as its positive size says, setting a key leaves what is found for every
-- other key as it was, if all calls hash with the same garbage.
pub ht_get-ht_set_other :
    (garbage : ℕ) (hashtable : Hashtable) (key key' : Name) (value : List ℕ)
    → 0 < hashtable.size
    → length hashtable.table ≡ hashtable.size
    → key' ≢ key
    → (hashtable' : Hashtable) × (ht_set garbage hashtable key value ≡ some hashtable')
      × (ht_get garbage hashtable' key' ≡ ht_get garbage hashtable key')
unfolding ht_set
ht_get-ht_set_other garbage hashtable key key' value pos full other =
    let bin = ht_hash garbage hashtable.size key in
    let inside : bin < length hashtable.table =
      rw full (ht_hash-lt garbage hashtable.size key pos) in
    let (entries, at_bin) = get_elem?-lt hashtable.table bin inside in
    (
      record hashtable { table = set hashtable.table bin (set_in_bin key value entries) },
      rw (at_bin, ht_set),
      ht_get-set_table garbage hashtable bin key key' value entries other inside at_bin,
    )
