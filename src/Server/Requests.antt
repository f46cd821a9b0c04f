-- ===== src/Server/Requests.antt =====
-- main of clear_stack/stack_encrypt_server.c from strtok on, and the request that
-- request_encrypt_stack of stack_encrypt_client.c builds. A request is the C string in `str`, the list
-- of its bytes.
use cloud_memory_security.Base.{
  ℕ, zero, suc, ◌+◌, ◌-◌, ◌*◌, ◌/◌, ◌%◌, ◌^◌, Bool, ◌||◌, List, [], ◌∷◌, Option, none, some, ltb,
  ◌==◌, if◌then◌else◌, Run, ok, oops, ◌>>=◌,
}
use cloud_memory_security.Memory.{within}
use cloud_memory_security.Mapper.{Name}
use cloud_memory_security.Hash.{Hashtable, ht_set, ht_get}
use cloud_memory_security.Server.DevMem.{Device, encrypt_stack}

-- `strtok`'s search for the start of a token.
unfoldable pub skip_spaces : Name → Name
skip_spaces [] = []
skip_spaces (c ∷ str) = let rest = skip_spaces str in if c == b' ' then rest else c ∷ str

-- The token at the start of a string, and what follows the space behind it.
unfoldable pub split_token : Name → Name × Name
split_token [] = ([], [])
split_token (c ∷ str) =
    let rest = split_token str in if c == b' ' then ([], str) else (c ∷ rest.0, rest.1)

-- `strtok(str, " ")`: NULL at the end of the string.
unfoldable pub strtok : Name → Option (Name × Name)
strtok str = elim (skip_spaces str) [ [] ↦ none | c ∷ rest ↦ some (split_token (c ∷ rest)) ]

-- A token that is read without a test for NULL.
unfoldable pub next_token : Name → Run (Name × Name)
next_token str = elim (strtok str) [ none ↦ oops | some found ↦ ok found ]

-- The digits at the start, behind the number read so far, up to the largest `long`.
unfoldable pub read_digits : (limit number : ℕ) → Name → ℕ
read_digits limit number [] = number
read_digits limit number (c ∷ str) =
    let more = number * 10 + (c - b'0') in
    let rest = read_digits limit (if ltb limit more then limit else more) str in
    if within b'0' (b'9' + 1) c then rest else number

unfoldable pub skip_blanks : Name → Name
skip_blanks [] = []
skip_blanks (c ∷ str) =
    let rest = skip_blanks str in if c == b' ' || within 9 14 c then rest else c ∷ str

-- A sign, and the digits behind it.
unfoldable pub read_signed : Name → ℕ
read_signed [] = 0
read_signed (c ∷ str) =
    if c == b'-'
    then (2 ^ 64 - read_digits (2 ^ 63) 0 str) % 2 ^ 64
    else if c == b'+'
    then read_digits (2 ^ 63 - 1) 0 str
    else read_digits (2 ^ 63 - 1) 0 (c ∷ str)

-- The bit pattern of the `long`.
unfoldable pub atol : Name → ℕ
atol str = read_signed (skip_blanks str)

-- The first character of a token.
abbrev pub first_char : Name → ℕ
first_char [] = 0
first_char (c ∷ str) = c

-- A request as it was parsed: `p` is left at the last token.
pub record Request : Type 0 where
  pub op : ℕ
  pub func_name : Name
  pub pid : ℕ
  pub rsp : ℕ
  pub rbp : ℕ
  pub p : Name

unfoldable pub parse_request : Name → Run Request
parse_request str = do
  (op, str1) ← next_token str
  (func_name, str2) ← next_token str1
  (pid, str3) ← next_token str2
  (rsp, str4) ← next_token str3
  (rbp, str5) ← next_token str4
  ok (record {
    op = first_char op;
    func_name = func_name;
    pid = atol pid;
    rsp = atol rsp;
    rbp = atol rbp;
    p = rbp;
  })

-- The table, and the devices.
pub record Daemon : Type 0 where
  pub ht : Hashtable
  pub dev : Device

-- Whether the loop of main goes on, or was left by `break`.
pub data Next : Type 0 where
  again : Next
  stop : Next

-- `garbage` is what htHash finds on the stack, `padding` the bytes behind `op` in the value.
-- `pagemap` is the pagemap of a process.
module _ (opens seeks : ℕ → Bool) (reads writes : ℕ → ℕ) (pagemap : ℕ → Option (ℕ → Option ℕ))
    (garbage : ℕ) (padding : List ℕ) where
  -- The size of the pointer is passed for the size of the value, so that the table keeps its first
  -- eight bytes, `op` and what pads it. What encrypt_stack returns is not read.
  unfoldable pub set_and_encrypt : Request → Daemon → Run (Next × Daemon)
  set_and_encrypt r d = elim (ht_set garbage d.ht r.func_name (r.op ∷ padding)) [
    | none ↦ oops
    | some ht ↦ do
      (res, dev) ←
          encrypt_stack opens seeks reads writes (pagemap (r.pid % 2 ^ 32)) r.rsp r.rbp d.dev
      ok (again, record { ht = ht; dev = dev })
  ]

  -- The two tests read the first character of the last token.
  unfoldable pub dispatch : Request → Daemon → Run (Next × Daemon)
  dispatch r d =
      let found = ht_get garbage d.ht r.func_name in
      if first_char r.p == b'e'
      then set_and_encrypt r d
      else if first_char r.p == b'd'
      then elim found [ none ↦ ok (stop, d) | some value ↦ ok (again, d) ]
      else ok (again, d)

  -- One round of the loop.
  unfoldable pub serve : Name → Daemon → Run (Next × Daemon)
  serve str d = do r ← parse_request str; dispatch r d

  -- The loop over the requests, until one leaves it.
  unfoldable pub serve_all : List Name → Daemon → Run (Next × Daemon)
  serve_all [] d = ok (again, d)
  serve_all (str ∷ strs) d = do
    (next, d') ← serve str d
    elim next [ stop ↦ ok (stop, d') | again ↦ serve_all strs d' ]

-- The decimal digits of a number, in front of what follows; with rounds for the digits.
unfoldable pub digits : (rounds n : ℕ) → Name → Name
digits zero n str = str
digits (suc k) n str =
    let c = b'0' + n % 10 in if ltb n 10 then c ∷ str else digits k (n / 10) (c ∷ str)

-- `%lld` and, of the lowest 32 bits, `%d`.
unfoldable pub print_signed : (bits n : ℕ) → Name → Name
print_signed bits n str =
    let low = n % 2 ^ bits in
    if ltb (low + low) (2 ^ bits) then digits 20 low str else b'-' ∷ digits 20 (2 ^ bits - low) str

-- The string that request_encrypt_stack sends, in front of what `str` held behind it.
unfoldable pub request_encrypt_stack : (pid top_addr bottom_addr : ℕ) → Name → Name
request_encrypt_stack pid top_addr bottom_addr left =
    b'e'
    ∷ b' '
    ∷ b'f'
    ∷ b'1'
    ∷ b' '
    ∷ print_signed 32 pid
        (b' ' ∷ print_signed 64 top_addr (b' ' ∷ print_signed 64 bottom_addr (10 ∷ left)))
