-- ===== src/Mapper.antt =====
-- kernel_probe/mapper.c: a growing array of functions, each with its name and its range of addresses.
-- A C string is the list of its bytes, without the final 0. `cur` and `cap` are the first item's
-- fields.
pub mod View
pub mod Destroy
mod Tests
use cloud_memory_security.Base.{
  ℕ, zero, suc, ◌+◌, ◌&&◌, List, [], ◌∷◌, Option, none, some, ltb, leb, ◌==◌, if◌then◌else◌, add64,
  mul64, length, Run, ok, oops, ◌>>=◌, Status, success, failure,
}
use cloud_memory_security.Memory.{Machine, alloc, kfree}

abbrev pub Name : Type 0
Name = List ℕ

-- `item_t`: the string that `func_name` points to, in the block `name_block`.
pub record Item : Type 0 where
  pub func_name : Name
  pub name_block : ℕ
  pub ip : ℕ
  pub size : ℕ

-- The array behind the pointer `addr`. `items` are those that were written since it was allocated.
pub record Mapper : Type 0 where
  pub addr : ℕ
  pub items : List Item
  pub cur : ℕ
  pub cap : ℕ

-- `sizeof(item_t)`
abbrev pub sizeof_item : ℕ
sizeof_item = 40

unfoldable pub put_item : List Item → ℕ → Item → List Item
put_item [] i e = e ∷ []
put_item (x ∷ xs) zero e = e ∷ xs
put_item (x ∷ xs) (suc i) e = x ∷ put_item xs i e

-- The loop of get_func_name, with `n` rounds left; an item that was never written is not read.
unfoldable pub find_item : ℕ → List Item → ℕ → Option Name
find_item zero items ip = none
find_item (suc n) [] ip = none
find_item (suc n) (tmp ∷ items) ip =
    if leb tmp.ip ip && ltb ip (add64 tmp.ip tmp.size)
    then some tmp.func_name
    else find_item n items ip

-- The result is NULL for an address outside every function.
unfoldable pub get_func_name : Mapper → ℕ → Option Name
unfolding find_item
get_func_name mapper ip = find_item mapper.cur mapper.items ip

-- `kfree(tmp->func_name)` for the first `n` items. One that was never written holds no pointer.
unfoldable pub free_names : ℕ → List Item → Machine → Run Machine
free_names zero items s = ok s
free_names (suc n) [] s = oops
free_names (suc n) (tmp ∷ items) s = free_names n items (kfree tmp.name_block s)

unfoldable pub destroy_mapper : Mapper → Machine → Run Machine
unfolding free_names
destroy_mapper mapper s = do s' ← free_names mapper.cap mapper.items s; ok (kfree mapper.addr s')

module _ (kmalloc : ℕ → ℕ → ℕ) where
  unfoldable pub init_mapper : ℕ → Machine → Option Mapper × Machine
  unfolding alloc
  init_mapper size s =
      let (p, s1) = alloc kmalloc (mul64 size sizeof_item) s in
      if p == 0
      then (none, s1)
      else (some (record { addr = p; items = []; cur = 0; cap = size }), s1)

  -- `kmalloc(len + 1)` and the copy of the string; a NULL is not tested for.
  unfoldable pub copy_name : Name → Machine → Run (ℕ × Machine)
  unfolding alloc
  copy_name name s =
      let (p, s1) = alloc kmalloc (length name + 1) s in if p == 0 then oops else ok (p, s1)

  unfoldable pub copy_items : ℕ → List Item → Machine → Run (List Item × Machine)
  unfolding copy_name
  copy_items zero items s = ok ([], s)
  copy_items (suc n) [] s = oops
  copy_items (suc n) (t1 ∷ items) s = do
    (p, s1) ← copy_name t1.func_name s
    (items', s') ← copy_items n items (kfree t1.name_block s1)
    ok (record t1 { name_block = p } ∷ items', s')

  unfoldable pub grow_mapper : Mapper → Machine → Run (Status × Mapper × Machine)
  unfolding alloc copy_items
  grow_mapper mapper s =
      let tmp_cap = mul64 2 mapper.cap in
      let (p, s1) = alloc kmalloc (mul64 tmp_cap sizeof_item) s in
      if p == 0 then ok (failure, mapper, s1) else do
        (items, s2) ← copy_items mapper.cur mapper.items s1
        ok (
          success,
          record { addr = p; items = items; cur = mapper.cur; cap = tmp_cap },
          kfree mapper.addr s2,
        )

  -- The new item. An item past the array's end is out of bounds.
  unfoldable pub add_item :
      Mapper → Machine → Name → (ip size : ℕ) → Run (Status × Mapper × Machine)
  unfolding copy_name
  add_item mapper s func_name ip size = do
    (p, s1) ← copy_name func_name s
    let e : Item = record { func_name = func_name; name_block = p; ip = ip; size = size }
    if ltb mapper.cur mapper.cap
        then ok (
          success,
          record mapper { items = put_item mapper.items mapper.cur e; cur = add64 mapper.cur 1 },
          s1,
        )
        else oops

  -- The second result is `*mapper` at the return.
  unfoldable pub insert_mapper :
      Mapper → Machine → Name → (ip size : ℕ) → Run (Status × Mapper × Machine)
  unfolding grow_mapper add_item
  insert_mapper mapper s func_name ip size =
      if mapper.cur == mapper.cap
      then (do
        (status, mapper', s') ← grow_mapper mapper s
        elim status [
          | success ↦ add_item mapper' s' func_name ip size
          | failure ↦ ok (failure, mapper', s')
        ])
      else add_item mapper s func_name ip size
