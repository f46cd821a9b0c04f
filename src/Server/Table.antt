-- ===== src/Server/Table.antt =====
-- The table of clear_stack/stack_encrypt_server.c, through the requests that main serves.
use cloud_memory_security.Base.{
  ℕ, ◌%◌, ◌^◌, ◌<◌, ◌≡◌, refl, ◌∙◌, Bool, List, ◌∷◌, Option, none, some, length, Status, ok,
}
use cloud_memory_security.Mapper.{Name}
use cloud_memory_security.Hash.{Hashtable, ht_set, ht_get, ht_get-ht_set}
use cloud_memory_security.Server.DevMem.{Device, encrypt_stack}
use cloud_memory_security.Server.Requests.{
  first_char, Request, parse_request, Daemon, again, stop, set_and_encrypt, dispatch, serve,
  serve_all,
}

module _ (opens seeks : ℕ → Bool) (reads writes : ℕ → ℕ) (pagemap : ℕ → Option (ℕ → Option ℕ))
    (garbage : ℕ) (padding : List ℕ) where
  set_and_encrypt-served :
      (r : Request) (d : Daemon) (ht : Hashtable) (res : Status) (dev : Device)
      → ht_set garbage d.ht r.func_name (r.op ∷ padding) ≡ some ht
      → encrypt_stack opens seeks reads writes (pagemap (r.pid % 2 ^ 32)) r.rsp r.rbp d.dev
        ≡ ok (res, dev)
      → set_and_encrypt opens seeks reads writes pagemap garbage padding r d
        ≡ ok (again, record { ht = ht; dev = dev })
  unfolding set_and_encrypt
  set_and_encrypt-served r d ht res dev kept served = rw (set_and_encrypt, kept) (rw served)

  dispatch-e :
      (r : Request) (d : Daemon)
      → first_char r.p ≡ b'e'
      → dispatch opens seeks reads writes pagemap garbage padding r d
        ≡ set_and_encrypt opens seeks reads writes pagemap garbage padding r d
  unfolding dispatch
  dispatch-e r d is_e = rw is_e

  dispatch-known :
      (r : Request) (d : Daemon) (value : List ℕ)
      → first_char r.p ≡ b'd'
      → ht_get garbage d.ht r.func_name ≡ some value
      → dispatch opens seeks reads writes pagemap garbage padding r d ≡ ok (again, d)
  unfolding dispatch
  dispatch-known r d value is_d known = rw (is_d, known)

  -- A request whose last token starts with e, whose stack the devices can be asked for, is served,
  -- in a table with as many bins as its positive size says: the devices are as encrypt_stack left
  -- them, and the table keeps its bins; in the state after it a request with the same name whose last
  -- token starts with d is served and changes nothing, if its htGet hashes with the start value that
  -- htSet had.
  pub dispatch-set_and_encrypt :
      (r : Request) (d : Daemon) (res : Status) (dev : Device)
      → 0 < d.ht.size
      → length d.ht.table ≡ d.ht.size
      → first_char r.p ≡ b'e'
      → encrypt_stack opens seeks reads writes (pagemap (r.pid % 2 ^ 32)) r.rsp r.rbp d.dev
        ≡ ok (res, dev)
      → (d' : Daemon) × (dispatch opens seeks reads writes pagemap garbage padding r d
          ≡ ok (again, d'))
        × (d'.dev ≡ dev)
        × (length d'.ht.table ≡ d'.ht.size)
        × ((r' : Request)
            → first_char r'.p ≡ b'd'
            → r'.func_name ≡ r.func_name
            → dispatch opens seeks reads writes pagemap garbage padding r' d' ≡ ok (again, d'))
  dispatch-set_and_encrypt r d res dev pos full is_e served =
      let (ht, kept, found, full') =
        ht_get-ht_set garbage d.ht r.func_name (r.op ∷ padding) pos full in
      (
        record { ht = ht; dev = dev },
        dispatch-e r d is_e ∙ set_and_encrypt-served r d ht res dev kept served,
        refl,
        full',
        λ r' is_d same.
            dispatch-known r' (record { ht = ht; dev = dev }) (r.op ∷ padding) is_d (rw same found),
      )

  dispatch-unknown :
      (r : Request) (d : Daemon)
      → first_char r.p ≡ b'd'
      → ht_get garbage d.ht r.func_name ≡ none
      → dispatch opens seeks reads writes pagemap garbage padding r d ≡ ok (stop, d)
  unfolding dispatch
  dispatch-unknown r d is_d unknown = rw (is_d, unknown)

  serve-unknown :
      (str : Name) (r : Request) (d : Daemon)
      → parse_request str ≡ ok r
      → first_char r.p ≡ b'd'
      → ht_get garbage d.ht r.func_name ≡ none
      → serve opens seeks reads writes pagemap garbage padding str d ≡ ok (stop, d)
  unfolding serve
  serve-unknown str r d parsed is_d unknown = rw parsed (dispatch-unknown r d is_d unknown)

  -- A request whose last token starts with d, with a name that the table does not have, ends the
  -- daemon: nothing changes, and no request behind it is served.
  pub serve_all-unknown :
      (str : Name) (strs : List Name) (r : Request) (d : Daemon)
      → parse_request str ≡ ok r
      → first_char r.p ≡ b'd'
      → ht_get garbage d.ht r.func_name ≡ none
      → serve_all opens seeks reads writes pagemap garbage padding (str ∷ strs) d ≡ ok (stop, d)
  unfolding serve_all
  serve_all-unknown str strs r d parsed is_d unknown =
      rw (serve-unknown str r d parsed is_d unknown)
