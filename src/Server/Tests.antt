-- ===== src/Server/Tests.antt =====
-- The daemon's theorems at concrete inputs.
use cloud_memory_security.Base.{
  byte_of, ℕ, ◌+◌, ◌*◌, ◌/◌, ◌%◌, ◌^◌, ◌≤◌, ◌<◌, ◌≡◌, refl, ◌⊎◌, Bool, true, false, List, [], ◌∷◌,
  Option, some, arith, length, ok, Status, success, failure,
}
use cloud_memory_security.Hash.{empty_bins}
use cloud_memory_security.Server.{StackArea, total_len, areas, get_stack_areas}
use cloud_memory_security.Server.Pagemap.{
  read_bytes, get_page_frame_number_of_address, get_page_frame_number_of_address_lem,
}
use cloud_memory_security.Server.DevMem.{
  Device, encrypt_areas, encrypt_stack, copied_on, encrypt_areas-copied_on, encrypt_areas-fds,
}
use cloud_memory_security.Server.Requests.{first_char, Request, Daemon, again, dispatch}
use cloud_memory_security.Server.Areas.{
  Describes, InPage, get_stack_areas-Describes, get_stack_areas-InPage,
}
use cloud_memory_security.Server.Table.{dispatch-set_and_encrypt}

-- A stack over two pages.
abbrev page_of : ℕ → ℕ
page_of addr = (2 ^ 63 + addr / 4096) % 2 ^ 55

abbrev two_areas : List StackArea
two_areas =
    record { page_frame = 1; offset = 4094; len = 2 }
    ∷ record { page_frame = 2; offset = 0; len = 3 }
    ∷ []

two_areas-found : get_stack_areas page_of 8190 8195 ≡ ok two_areas
unfolding get_stack_areas areas
two_areas-found = refl

abbrev entry_of : ℕ → ℕ
entry_of k = 2 ^ 63 + k

abbrev pagemap : ℕ → Option ℕ
pagemap offset = some (byte_of (entry_of (offset / 8)) (offset % 8))

pagemap-entry_of : (k i : ℕ) → i < 8 → pagemap (k * 8 + i) ≡ some (byte_of (entry_of k) i)
pagemap-entry_of k i lt =
    let word : (k * 8 + i) / 8 ≡ k = omega arith in
    let index : (k * 8 + i) % 8 ≡ i = omega arith in rw (word, index)

get_page_frame_number_of_address_lem_example :
    get_page_frame_number_of_address pagemap 8190 ≡ entry_of (8190 / 4096) % 2 ^ 55
get_page_frame_number_of_address_lem_example =
    get_page_frame_number_of_address_lem pagemap entry_of 8190 pagemap-entry_of

abbrev always : ℕ → Bool
always k = true

abbrev page_size : ℕ → ℕ
page_size offset = 4096

abbrev idle : Device
idle = record { phys = λ a. a / 4096 % 256; opened = 0; fds = 3; buffer = λ i. 0 }

encrypt_areas-copied_on_example :
    ((encrypt_areas always always page_size page_size two_areas idle).0 ≡ success)
    × ((encrypt_areas always always page_size page_size two_areas idle).1.fds ≡ 3)
    × ((a : ℕ)
        → (encrypt_areas always always page_size page_size two_areas idle).1.phys a
          ≡ copied_on two_areas idle.phys a)
encrypt_areas-copied_on_example =
    encrypt_areas-copied_on always always page_size page_size two_areas idle
      (record {
        opened = λ k. refl;
        found = λ offset. refl;
        full = λ offset. refl;
        written = λ offset. refl;
      })
      ((omega arith, omega arith), ((omega arith, omega arith), tt))

encrypt_areas-fds_example :
    (((encrypt_areas always (λ k. false) page_size page_size two_areas idle).0 ≡ success)
      × ((encrypt_areas always (λ k. false) page_size page_size two_areas idle).1.fds ≡ 3))
    ⊎ (((encrypt_areas always (λ k. false) page_size page_size two_areas idle).0 ≡ failure)
        × ((encrypt_areas always (λ k. false) page_size page_size two_areas idle).1.fds ≤ 4))
encrypt_areas-fds_example = encrypt_areas-fds always (λ k. false) page_size page_size two_areas idle

abbrev daemon : Daemon
daemon = record { ht = record { size = 10; table = empty_bins 10 }; dev = idle }

abbrev pagemaps : ℕ → Option (ℕ → Option ℕ)
pagemaps pid = some pagemap

abbrev padding : List ℕ
padding = 0 ∷ 0 ∷ 0 ∷ 0 ∷ 0 ∷ 0 ∷ 0 ∷ []

abbrev one_area : List StackArea
one_area = record { page_frame = 1; offset = 4094; len = 1 } ∷ []

abbrev request : Request
request = record { op = b'e'; func_name = b'f' ∷ []; pid = 7; rsp = 8190; rbp = 0; p = b'e' ∷ [] }

abbrev served : Status × Device
served = encrypt_areas always always page_size page_size one_area idle

request-served :
    encrypt_stack always always page_size page_size (some pagemap) 8190 0 idle
    ≡ ok (served.0, served.1)
unfolding encrypt_stack get_stack_areas areas get_page_frame_number_of_address read_bytes
request-served = refl

dispatch-set_and_encrypt_example :
    (d' : Daemon) × (dispatch always always page_size page_size pagemaps 0 padding request daemon
      ≡ ok (again, d'))
    × (d'.dev ≡ served.1)
    × (length d'.ht.table ≡ d'.ht.size)
    × ((r' : Request)
        → first_char r'.p ≡ b'd'
        → r'.func_name ≡ b'f' ∷ []
        → dispatch always always page_size page_size pagemaps 0 padding r' d' ≡ ok (again, d'))
unfolding empty_bins
dispatch-set_and_encrypt_example =
    dispatch-set_and_encrypt always always page_size page_size pagemaps 0 padding request daemon
      served.0 served.1 (omega arith) refl refl request-served

get_stack_areas-Describes_example : Describes page_of 8190 8195 two_areas
get_stack_areas-Describes_example =
    get_stack_areas-Describes page_of 8190 8195 two_areas (omega arith) two_areas-found

get_stack_areas-InPage_example : InPage two_areas × (total_len two_areas ≡ 5)
get_stack_areas-InPage_example =
    get_stack_areas-InPage page_of 8190 8195 two_areas (omega arith)
      (λ a b ge lt ge' lt' e. omega arith) two_areas-found
