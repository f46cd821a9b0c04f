-- ===== src/Hash/Sorted.antt =====
-- The order of the keys in a bin of the daemon's table (clear_stack/hash.c).
use cloud_memory_security.Base.{
  ℕ, ◌≡◌, refl, ◌^◌, ◌&&◌, true, false, Bool-cases, sym, subst, Option-cases, zero, suc, ◌∙◌, inl,
  inr, List, [], ◌∷◌, some, none, ltb, get_elem?, set, arith,
}
use cloud_memory_security.Mapper.{Name}
use cloud_memory_security.Hash.{
  HtEntry, Hashtable, below, above, Order-cases, strcmp, ht_newpair, set_in_bin, ht_hash, ht_set,
  ht_create, empty_bins,
}
use cloud_memory_security.Hash.Others.{strcmp_trans}

strcmp_flip : (a b : Name) → strcmp a b ≡ above → strcmp b a ≡ below
unfolding strcmp
strcmp_flip [] [] e = absurd (cc e)
strcmp_flip [] (y ∷ ys) e = absurd (cc e)
strcmp_flip (x ∷ xs) [] e = refl
strcmp_flip (x ∷ xs) (y ∷ ys) e = ground (arith, e, strcmp_flip xs ys)

-- Every key of the bin is above `key`.
abbrev AllAbove : Name → List HtEntry → Type 0
AllAbove key [] = Unit {0}
AllAbove key (e ∷ bin) = (strcmp key e.key ≡ below) × AllAbove key bin

abbrev pub IsSorted : List HtEntry → Type 0
IsSorted [] = Unit {0}
IsSorted (e ∷ bin) = AllAbove e.key bin × IsSorted bin

abbrev pub AllSorted : List (List HtEntry) → Type 0
AllSorted [] = Unit {0}
AllSorted (bin ∷ bins) = IsSorted bin × AllSorted bins

AllAbove-trans :
    (key key' : Name) (bin : List HtEntry)
    → strcmp key key' ≡ below
    → AllAbove key' bin
    → AllAbove key bin
AllAbove-trans key key' [] lt a = tt
AllAbove-trans key key' (e ∷ bin) lt a =
    (strcmp_trans key key' e.key lt a.0, AllAbove-trans key key' bin lt a.1)

AllAbove-set_in_bin :
    (low key : Name) (value : List ℕ) (bin : List HtEntry)
    → strcmp low key ≡ below
    → AllAbove low bin
    → AllAbove low (set_in_bin key value bin)
unfolding set_in_bin ht_newpair
AllAbove-set_in_bin low key value [] lt a = (lt, tt)
AllAbove-set_in_bin low key value (e ∷ bin) lt a = elim (Order-cases (strcmp key e.key)) [
  | inl less ↦ rw (less, set_in_bin) (lt, a)
  | inr (inl eq) ↦ rw (eq, set_in_bin) a
  | inr (inr more) ↦ rw (more, set_in_bin) (a.0, AllAbove-set_in_bin low key value bin lt a.1)
]

set_in_bin-IsSorted :
    (key : Name) (value : List ℕ) (bin : List HtEntry)
    → IsSorted bin
    → IsSorted (set_in_bin key value bin)
unfolding set_in_bin ht_newpair
set_in_bin-IsSorted key value [] s = (tt, tt)
set_in_bin-IsSorted key value (e ∷ bin) s = elim (Order-cases (strcmp key e.key)) [
  | inl less ↦ rw (less, set_in_bin) ((less, AllAbove-trans key e.key bin less s.0), s)
  | inr (inl eq) ↦ rw (eq, set_in_bin) s
  | inr (inr more) ↦
      rw (more, set_in_bin)
        (
          AllAbove-set_in_bin e.key key value bin (strcmp_flip key e.key more) s.0,
          set_in_bin-IsSorted key value bin s.1,
        )
]

AllSorted-get_elem? :
    (bins : List (List HtEntry)) (i : ℕ) (bin : List HtEntry)
    → AllSorted bins
    → get_elem? bins i ≡ some bin
    → IsSorted bin
AllSorted-get_elem? [] i bin s at_bin = absurd (cc at_bin)
AllSorted-get_elem? (x ∷ bins) zero bin s at_bin =
    let here : x ≡ bin = cc at_bin in subst IsSorted here s.0
AllSorted-get_elem? (x ∷ bins) (suc i) bin s at_bin = AllSorted-get_elem? bins i bin s.1 at_bin

AllSorted-set :
    (bins : List (List HtEntry)) (i : ℕ) (bin : List HtEntry)
    → AllSorted bins
    → IsSorted bin
    → AllSorted (set bins i bin)
AllSorted-set [] i bin s sorted = tt
AllSorted-set (x ∷ bins) zero bin s sorted = (sorted, s.1)
AllSorted-set (x ∷ bins) (suc i) bin s sorted = (s.0, AllSorted-set bins i bin s.1 sorted)

AllSorted-empty_bins : (n : ℕ) → AllSorted (empty_bins n)
unfolding empty_bins
AllSorted-empty_bins zero = tt
AllSorted-empty_bins (suc n) = (tt, AllSorted-empty_bins n)

ht_set-none :
    (garbage : ℕ) (h : Hashtable) (key : Name) (value : List ℕ)
    → get_elem? h.table (ht_hash garbage h.size key) ≡ none
    → ht_set garbage h key value ≡ none
unfolding ht_set
ht_set-none garbage h key value out = rw (out, ht_set)

ht_set-some :
    (garbage : ℕ) (h : Hashtable) (key : Name) (value : List ℕ) (entries : List HtEntry)
    → get_elem? h.table (ht_hash garbage h.size key) ≡ some entries
    → ht_set garbage h key value
      ≡ some (record h {
        table = set h.table (ht_hash garbage h.size key) (set_in_bin key value entries);
      })
unfolding ht_set
ht_set-some garbage h key value entries at_bin = rw (at_bin, ht_set)

ht_set-AllSorted :
    (garbage : ℕ) (h h' : Hashtable) (key : Name) (value : List ℕ)
    → ht_set garbage h key value ≡ some h'
    → AllSorted h.table
    → AllSorted h'.table
ht_set-AllSorted garbage h h' key value done s =
    let bin : ℕ = ht_hash garbage h.size key in
    elim (Option-cases (get_elem? h.table bin)) [
      | inl out ↦
          let clash : none ≡ some h' = sym (ht_set-none garbage h key value out) ∙ done in
          absurd (cc clash)
      | inr (entries, at_bin) ↦
          let t : List (List HtEntry) = set h.table bin (set_in_bin key value entries) in
          let same_table : record h { table = t } ≡ h' =
            cc (ht_set-some garbage h key value entries at_bin, done) in
          subst (λ x. AllSorted x.table) same_table
            (AllSorted-set h.table bin (set_in_bin key value entries) s (
              set_in_bin-IsSorted key value entries
                (AllSorted-get_elem? h.table bin entries s at_bin)))
    ]

ht_create-some :
    (size : ℕ)
    → (ltb 0 size && ltb size (2 ^ 31)) ≡ true
    → ht_create size ≡ some (record { size = size; table = empty_bins size })
unfolding ht_create
ht_create-some size fits = rw fits

ht_create-none : (size : ℕ) → (ltb 0 size && ltb size (2 ^ 31)) ≡ false → ht_create size ≡ none
unfolding ht_create
ht_create-none size unfit = rw unfit

ht_create-AllSorted : (size : ℕ) (h : Hashtable) → ht_create size ≡ some h → AllSorted h.table
ht_create-AllSorted size h made = elim (Bool-cases (ltb 0 size && ltb size (2 ^ 31))) [
  | inl fits ↦
      let same_table : record { size = size; table = empty_bins size } ≡ h =
        cc (ht_create-some size fits, made) in
      subst (λ x. AllSorted x.table) same_table (AllSorted-empty_bins size)
  | inr unfit ↦
      let clash : none ≡ some h = sym (ht_create-none size unfit) ∙ made in absurd (cc clash)
]

-- The tables that htCreate made, with any number of calls of htSet, each with its own garbage.
pub data Made : Hashtable → Type 0 where
  created : {h : Hashtable} (size : ℕ) → ht_create size ≡ some h → Made h
  and_set :
      {h h' : Hashtable} (garbage : ℕ) (key : Name) (value : List ℕ)
      → Made h
      → ht_set garbage h key value ≡ some h'
      → Made h'

-- In a table that htCreate made and htSet filled, in any number of calls that each hash with a start
-- value of their own, every bin is sorted, each key above those before it.
pub Made-AllSorted : {h : Hashtable} → Made h → AllSorted h.table
Made-AllSorted (created {h} size made) = ht_create-AllSorted size h made
Made-AllSorted (and_set {h} {h'} garbage key value before done) =
    ht_set-AllSorted garbage h h' key value done (Made-AllSorted before)
