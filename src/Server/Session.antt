-- ===== src/Server/Session.antt =====
-- The two ends of the daemon's socket: the connections of main of clear_stack/stack_encrypt_server.c,
-- with the array `str` of 100 bytes that it keeps from one to the next, and request_encrypt_stack and
-- main of clear_stack/stack_encrypt_client.c. Whether the calls of the socket succeed and what comes
-- through it are parameters.
use cloud_memory_security.Base.{
  ℕ, zero, suc, ◌+◌, ◌%◌, ◌^◌, Bool, true, false, not, List, [], ◌∷◌, Option, none, some, ltb, ◌==◌,
  if◌then◌else◌, length, take, Run, ok, oops, ◌>>=◌,
}
use cloud_memory_security.Hash.{ht_create}
use cloud_memory_security.Mapper.{Name}
use cloud_memory_security.Server.DevMem.{Device, at_most}
use cloud_memory_security.Server.Requests.{Daemon, Next, again, stop, serve, request_encrypt_stack}

-- The C string at the start of an array, which has to end in it.
unfoldable pub c_string : Name → Option Name
c_string [] = none
c_string (c ∷ str) =
    let rest = c_string str in
    if c == 0 then some [] else elim rest [ none ↦ none | some more ↦ some (c ∷ more) ]

-- The array after `recv` has put bytes at its start.
unfoldable pub overwrite : (bytes str : Name) → Name
overwrite [] str = str
overwrite (b ∷ bytes) [] = []
overwrite (b ∷ bytes) (c ∷ str) = b ∷ overwrite bytes str

-- The array after `strtok` was asked for so many tokens: the space behind each has become a 0.
unfoldable pub cut_tokens : (tokens : ℕ) (in_token : Bool) → Name → Name
cut_tokens zero in_token str = str
cut_tokens (suc n) in_token [] = []
cut_tokens (suc n) false (c ∷ str) =
    let skipped = cut_tokens (suc n) false str in
    let token = cut_tokens (suc n) true str in
    if c == 0 then c ∷ str else if c == b' ' then c ∷ skipped else c ∷ token
cut_tokens (suc n) true (c ∷ str) =
    let next = cut_tokens n false str in
    let token = cut_tokens (suc n) true str in
    if c == 0 then c ∷ str else if c == b' ' then 0 ∷ next else c ∷ token

-- How main ends, or that it waits for the next connection.
pub data End : Type 0 where
  exited : End
  returned_zero : End
  waiting : End

module _ (opens seeks : ℕ → Bool) (reads writes : ℕ → ℕ) (pagemap : ℕ → Option (ℕ → Option ℕ))
    (garbage : ℕ) (padding : List ℕ) where
  -- One connection, from `recv` to `send`: beside what `serve` gives, the answer, and the array as it
  -- is left. Where `recv` fails or the client has closed the connection nothing is received, and the
  -- round goes on with the array as it was.
  unfoldable pub serve_connection :
      (received str : Name) → Daemon → Run (Next × Daemon × Name × Name)
  serve_connection received str d =
      let filled = overwrite received str in
      elim (c_string filled) [
        | none ↦ oops
        | some request ↦ do
          (next, d') ← serve opens seeks reads writes pagemap garbage padding request d
          let left = cut_tokens 5 false filled
          ok (next, d', take (at_most 100 (length received)) left, left)
      ]

  -- The loop over the connections, each with what is received, or `none` where `accept` fails. The
  -- answers that were sent come with the result.
  unfoldable pub serve_connections :
      List (Option Name) → (str : Name) → Daemon → Run (End × Daemon × List Name)
  serve_connections [] str d = ok (waiting, d, [])
  serve_connections (none ∷ more) str d = ok (exited, d, [])
  serve_connections (some received ∷ more) str d = do
    (next, d', answer, str') ← serve_connection received str d
    elim next [
      | stop ↦ ok (returned_zero, d', [])
      | again ↦ do
        (end, d'', answers) ← serve_connections more str' d'
        ok (end, d'', answer ∷ answers)
    ]

  -- main, with what `str` holds at its start. The table is not read if a call fails.
  unfoldable pub server_main :
      (socket bind listen : Bool)
      → List (Option Name)
      → (str : Name) → Device
      → Run (End × Option Daemon × List Name)
  server_main socket bind listen connections str dev = elim (ht_create 10) [
    | none ↦ oops
    | some ht ↦
        let d : Daemon = record { ht = ht; dev = dev } in
        if not socket
        then ok (exited, some d, [])
        else if not bind
        then ok (exited, some d, [])
        else if not listen
        then ok (exited, some d, [])
        else (do
          (end, d', answers) ← serve_connections connections str d
          ok (end, some d', answers))
  ]

-- What `recv` gives the client: an error, the end of the connection, or bytes.
pub data Reply : Type 0 where
  failed : Reply
  closed : Reply
  bytes : Name → Reply

-- The client exits with 1, or returns 0 after it printed the answer.
pub data Outcome : Type 0 where
  exited_one : Outcome
  printed : Name → Outcome

-- What is printed of the answer: up to its first 0, or to the one that was put behind it.
abbrev pub up_to_nul : Name → Name
up_to_nul [] = []
up_to_nul (c ∷ str) = let rest = up_to_nul str in if c == 0 then [] else c ∷ rest

-- request_encrypt_stack, with what its peer answers to what is sent. An answer that fills the array
-- gets its 0 behind the array's end.
unfoldable pub send_request :
    (socket connect send : Bool) (reply : Name → Reply) (pid top_addr bottom_addr : ℕ) → Run Outcome
send_request socket connect send reply pid top_addr bottom_addr =
    if not socket
    then ok exited_one
    else if not connect
    then ok exited_one
    else if not send
    then ok exited_one
    else elim (reply (request_encrypt_stack pid top_addr bottom_addr [])) [
      | failed ↦ ok exited_one
      | closed ↦ ok exited_one
      | bytes answer ↦ if ltb (length answer) 100 then ok (printed (up_to_nul answer)) else oops
    ]

-- main of the client: `pid` is never set.
unfoldable pub client_main :
    (socket connect send : Bool) (reply : Name → Reply) (pid rsp rbp : ℕ) → Run Outcome
client_main socket connect send reply pid rsp rbp =
    send_request socket connect send reply ((pid + 2) % 2 ^ 32) rsp rbp
