-- ===== src/Server/Echo/Tests.antt =====
-- The daemon and two of its clients, at concrete inputs.
use cloud_memory_security.Base.{
  ℕ, zero, suc, ◌≡◌, refl, Bool, true, false, List, [], ◌∷◌, Option, none, ok, oops,
}
use cloud_memory_security.Hash.{empty_bins}
use cloud_memory_security.Mapper.{Name}
use cloud_memory_security.Server.Requests.{Daemon, request_encrypt_stack, print_signed, digits}
use cloud_memory_security.Server.Session.{
  overwrite, cut_tokens, waiting, serve_connections, bytes, send_request,
}
use cloud_memory_security.Server.Echo.{Client, requests, ArePrinted, serve_connections-requests}

abbrev zeros : ℕ → Name
zeros zero = []
zeros (suc n) = 0 ∷ zeros n

abbrev always : ℕ → Bool
always k = true

abbrev no_pagemap : ℕ → Option (ℕ → Option ℕ)
no_pagemap pid = none

abbrev daemon : Daemon
daemon = record {
  ht = record { size = 10; table = empty_bins 10 };
  dev = record { phys = λ a. 0; opened = 0; fds = 0; buffer = λ a. 0 };
}

abbrev clients : List Client
clients =
    record { pid = 1234; top_addr = 8190; bottom_addr = 8195 }
    ∷ record { pid = 7; top_addr = 10; bottom_addr = 20 }
    ∷ []

serve_connections-requests_example :
    (answers : List Name) × (serve_connections always always
        (λ a. 4096)
        (λ a. 4096)
        no_pagemap
        0
        []
        (requests clients)
        (zeros 100)
        daemon
      ≡ ok (waiting, daemon, answers))
    × ArePrinted clients answers
serve_connections-requests_example =
    serve_connections-requests always always (λ a. 4096) (λ a. 4096) no_pagemap 0 [] clients
      (zeros 100) daemon refl

-- "e f1 7 1 2", as it is left, and the string that it is then.
left_example :
    cut_tokens 5 false (overwrite (request_encrypt_stack 7 1 2 []) (zeros 14))
    ≡ b'e' ∷ 0 ∷ b'f' ∷ b'1' ∷ 0 ∷ b'7' ∷ 0 ∷ b'1' ∷ 0 ∷ b'2' ∷ 10 ∷ 0 ∷ 0 ∷ 0 ∷ []
unfolding cut_tokens overwrite request_encrypt_stack print_signed digits
left_example = refl

-- An answer of 100 bytes gets its 0 behind the array.
send_request_full : send_request true true true (λ s. bytes (zeros 100)) 7 1 2 ≡ oops
unfolding send_request
send_request_full = refl
