-- ===== src/Server/Echo.antt =====
-- The client and the daemon together: what comes of the client's requests, one connection after the
-- other, over one array.
mod Tests
use cloud_memory_security.Base.{
  ℕ, zero, suc, ◌+◌, ◌-◌, ◌/◌, ◌%◌, ◌^◌, ◌≤◌, ◌<◌, ◌≡◌, refl, ◌∙◌, inl, inr, Bool, true, false,
  List, [], ◌∷◌, ◌++◌, Option, none, some, ltb, ◌==◌, if◌then◌else◌, length, take, get_elem?, arith,
  Bool-cases, ok, ◌>>=◌,
}
use cloud_memory_security.Mapper.{Name}
use cloud_memory_security.Server.DevMem.{at_most}
use cloud_memory_security.Server.Requests.{
  Daemon, again, serve, digits, print_signed, request_encrypt_stack,
}
use cloud_memory_security.Server.Client.{serve-request_encrypt_stack}
use cloud_memory_security.Server.Length.{length-request_encrypt_stack}
use cloud_memory_security.Server.Session.{
  c_string, overwrite, cut_tokens, waiting, serve_connection, serve_connections, bytes, printed,
  up_to_nul, send_request,
}

abbrev NoNul : Name → Type 0
NoNul [] = Unit {0}
NoNul (c ∷ str) = (0 < c) × NoNul str

digits-NoNul : (k n : ℕ) (str : Name) → NoNul str → NoNul (digits k n str)
unfolding digits
digits-NoNul zero n str clean = clean
digits-NoNul (suc k) n str clean = elim (Bool-cases (ltb n 10)) [
  | inl last ↦ rw last (omega arith, clean)
  | inr more ↦ rw more (digits-NoNul k (n / 10) ((b'0' + n % 10) ∷ str) (omega arith, clean))
]

print_signed-NoNul : (bits n : ℕ) (str : Name) → NoNul str → NoNul (print_signed bits n str)
unfolding print_signed
print_signed-NoNul bits n str clean =
    let low : ℕ = n % 2 ^ bits in
    elim (Bool-cases (ltb (low + low) (2 ^ bits))) [
      | inl pos ↦ rw pos (digits-NoNul 20 low str clean)
      | inr neg ↦ rw neg (omega arith, digits-NoNul 20 (2 ^ bits - low) str clean)
    ]

digits-append : (k n : ℕ) (str tail : Name) → digits k n (str ++ tail) ≡ digits k n str ++ tail
unfolding digits
digits-append zero n str tail = refl
digits-append (suc k) n str tail = elim (Bool-cases (ltb n 10)) [
  | inl last ↦ rw last
  | inr more ↦ rw more (digits-append k (n / 10) ((b'0' + n % 10) ∷ str) tail)
]

print_signed-append :
    (bits n : ℕ) (str tail : Name)
    → print_signed bits n (str ++ tail) ≡ print_signed bits n str ++ tail
unfolding print_signed
print_signed-append bits n str tail =
    let low : ℕ = n % 2 ^ bits in
    elim (Bool-cases (ltb (low + low) (2 ^ bits))) [
      | inl pos ↦ rw pos (digits-append 20 low str tail)
      | inr neg ↦ rw neg (rw (digits-append 20 (2 ^ bits - low) str tail))
    ]

-- A request behind its first two characters.
abbrev rest_of_request : (pid top_addr bottom_addr : ℕ) → Name
rest_of_request pid top_addr bottom_addr =
    b'f'
    ∷ b'1'
    ∷ b' '
    ∷ print_signed 32 pid
        (b' ' ∷ print_signed 64 top_addr (b' ' ∷ print_signed 64 bottom_addr (10 ∷ [])))

request_lem :
    (pid top_addr bottom_addr : ℕ)
    → request_encrypt_stack pid top_addr bottom_addr []
      ≡ b'e' ∷ b' ' ∷ rest_of_request pid top_addr bottom_addr
unfolding request_encrypt_stack
request_lem pid top_addr bottom_addr = refl

request-NoNul :
    (pid top_addr bottom_addr : ℕ) → NoNul (request_encrypt_stack pid top_addr bottom_addr [])
unfolding request_encrypt_stack
request-NoNul pid top_addr bottom_addr = (
  omega arith,
  (
    omega arith,
    (
      omega arith,
      (
        omega arith,
        (
          omega arith,
          print_signed-NoNul 32 pid _ (
            omega arith,
            print_signed-NoNul 64 top_addr _
                (omega arith, print_signed-NoNul 64 bottom_addr _ (omega arith, tt)),
          ),
        ),
      ),
    ),
  ),
)

request-append :
    (pid top_addr bottom_addr : ℕ) (tail : Name)
    → request_encrypt_stack pid top_addr bottom_addr tail
      ≡ request_encrypt_stack pid top_addr bottom_addr [] ++ tail
unfolding request_encrypt_stack
request-append pid top_addr bottom_addr tail =
    let str4 : Name = print_signed 64 bottom_addr (10 ∷ []) in
    let str3 : Name = print_signed 64 top_addr (b' ' ∷ str4) in
    rw (print_signed-append 64 bottom_addr (10 ∷ []) tail) (
      rw (print_signed-append 64 top_addr (b' ' ∷ str4) tail)
        (rw (print_signed-append 32 pid (b' ' ∷ str3) tail)))

-- An array that holds a 0 at the index.
abbrev Ends : (i : ℕ) → Name → Type 0
Ends i str = get_elem? str i ≡ some 0

c_string-Ends : (i : ℕ) (str : Name) → Ends i str → (s : Name) × (c_string str ≡ some s)
unfolding c_string
c_string-Ends i [] end = absurd (cc end)
c_string-Ends zero (c ∷ str) end = ([], ground (arith, end))
c_string-Ends (suc i) (c ∷ str) end =
    let (s, found) = c_string-Ends i str end in
    elim (Bool-cases (c == 0)) [ inl nul ↦ ([], rw nul) | inr other ↦ (c ∷ s, rw other (rw found)) ]

-- What was received stands in front of what is left of the string that was in the array.
c_string-overwrite :
    (received str : Name) (i : ℕ)
    → NoNul received
    → length received ≤ i
    → Ends i str
    → (s : Name) × (c_string (overwrite received str) ≡ some (received ++ s))
unfolding c_string overwrite
c_string-overwrite [] str i clean le end = c_string-Ends i str end
c_string-overwrite (b ∷ received) [] i clean le end = absurd (cc end)
c_string-overwrite (b ∷ received) (c ∷ str) zero clean le end = absurd (omega arith)
c_string-overwrite (b ∷ received) (c ∷ str) (suc i) clean le end =
    let (s, found) = c_string-overwrite received str i clean.1 (omega arith) end in
    let other : (b == 0) ≡ false = ground (arith, clean.0) in (s, rw other (rw found))

overwrite-Ends :
    (received str : Name) (i : ℕ)
    → length received ≤ i
    → Ends i str
    → Ends i (overwrite received str)
unfolding overwrite
overwrite-Ends [] str i le end = end
overwrite-Ends (b ∷ received) [] i le end = absurd (cc end)
overwrite-Ends (b ∷ received) (c ∷ str) zero le end = absurd (omega arith)
overwrite-Ends (b ∷ received) (c ∷ str) (suc i) le end =
    overwrite-Ends received str i (omega arith) end

cut_tokens-Ends :
    (n : ℕ) (in_token : Bool) (str : Name) (i : ℕ) → Ends i str → Ends i (cut_tokens n in_token str)
unfolding cut_tokens
cut_tokens-Ends zero in_token str i end = end
cut_tokens-Ends (suc n) in_token [] i end = absurd (cc end)
cut_tokens-Ends (suc n) false (c ∷ str) zero end = ground (arith, end)
cut_tokens-Ends (suc n) true (c ∷ str) zero end = ground (arith, end)
cut_tokens-Ends (suc n) false (c ∷ str) (suc i) end =
    ground (arith, cut_tokens-Ends (suc n) false str i end, cut_tokens-Ends (suc n) true str i end)
cut_tokens-Ends (suc n) true (c ∷ str) (suc i) end =
    ground (arith, cut_tokens-Ends n false str i end, cut_tokens-Ends (suc n) true str i end)

-- What the daemon leaves of a request starts with the operation, and a 0.
cut_request :
    (rest str : Name) (i : ℕ)
    → 1 < i
    → Ends i str
    → (a : Name) × (cut_tokens 5 false (overwrite (b'e' ∷ b' ' ∷ rest) str) ≡ b'e' ∷ 0 ∷ a)
unfolding overwrite cut_tokens
cut_request rest [] i gt end = absurd (cc end)
cut_request rest (c ∷ []) zero gt end = absurd (omega arith)
cut_request rest (c ∷ []) (suc i) gt end = absurd (cc end)
cut_request rest (c ∷ c' ∷ str) i gt end = (cut_tokens 4 false (overwrite rest str), refl)

length-take : (n : ℕ) (str : Name) → length (take n str) ≤ n
length-take zero str = omega arith
length-take (suc n) [] = omega arith
length-take (suc n) (c ∷ str) = omega (arith, length-take n str)

abbrev sent : (pid top_addr bottom_addr : ℕ) → Name
sent pid top_addr bottom_addr = request_encrypt_stack pid top_addr bottom_addr []

sent-fits : (pid top_addr bottom_addr : ℕ) → length (sent pid top_addr bottom_addr) ≤ 99
sent-fits pid top_addr bottom_addr =
    omega (arith, length-request_encrypt_stack pid top_addr bottom_addr)

abbrev left_in_str : (received str : Name) → Name
left_in_str received str = cut_tokens 5 false (overwrite received str)

abbrev answer_to : (received str : Name) → Name
answer_to received str = take (at_most 100 (length received)) (left_in_str received str)

-- The client prints its operation, and nothing else, of the daemon's answer.
answer-printed :
    (pid top_addr bottom_addr : ℕ) (str : Name)
    → Ends 99 str
    → send_request true true true
        (λ s. bytes (answer_to (sent pid top_addr bottom_addr) str))
        pid
        top_addr
        bottom_addr
      ≡ ok (printed (b'e' ∷ []))
unfolding send_request
answer-printed pid top_addr bottom_addr str end =
    let rest = rest_of_request pid top_addr bottom_addr in
    let (a, cut) = cut_request rest str 99 (omega arith) end in
    let whole : length (b'e' ∷ b' ' ∷ rest) ≤ 99 =
      rw (request_lem pid top_addr bottom_addr) at (sent-fits pid top_addr bottom_addr) in
    let all : at_most 100 (length (b'e' ∷ b' ' ∷ rest)) ≡ suc (suc (length rest)) = ground arith in
    let short : ltb (suc (suc (length (take (length rest) a)))) 100 ≡ true =
      ground (arith, length-take (length rest) a) in
    rw (request_lem pid top_addr bottom_addr) (rw all (rw cut (rw short)))

-- A client of the daemon: the process and the ends of its stack.
pub record Client : Type 0 where
  pub pid : ℕ
  pub top_addr : ℕ
  pub bottom_addr : ℕ

-- Connections that all succeed and bring the requests of these clients.
abbrev pub requests : List Client → List (Option Name)
requests [] = []
requests (c ∷ cs) = some (sent c.pid c.top_addr c.bottom_addr) ∷ requests cs

-- Each client, given its answer, ends well and prints `e` of it.
abbrev pub ArePrinted : List Client → List Name → Type 0
ArePrinted [] [] = Unit {0}
ArePrinted (c ∷ cs) (answer ∷ answers) =
    (send_request true true true (λ s. bytes answer) c.pid c.top_addr c.bottom_addr
      ≡ ok (printed (b'e' ∷ [])))
    × ArePrinted cs answers
ArePrinted _ _ = ⊥

module _ (opens seeks : ℕ → Bool) (reads writes : ℕ → ℕ) (pagemap : ℕ → Option (ℕ → Option ℕ))
    (garbage : ℕ) (padding : List ℕ) where
  serve_connection-sent :
      (pid top_addr bottom_addr : ℕ) (str : Name) (d : Daemon)
      → Ends 99 str
      → serve_connection opens seeks reads writes pagemap garbage padding
          (sent pid top_addr bottom_addr)
          str
          d
        ≡ ok (
          again,
          d,
          answer_to (sent pid top_addr bottom_addr) str,
          left_in_str (sent pid top_addr bottom_addr) str,
        )
  unfolding serve_connection
  serve_connection-sent pid top_addr bottom_addr str d end =
      let (s, found) =
        c_string-overwrite (sent pid top_addr bottom_addr) str 99
          (request-NoNul pid top_addr bottom_addr) (sent-fits pid top_addr bottom_addr) end in
      let served =
        serve-request_encrypt_stack opens seeks reads writes pagemap garbage padding pid top_addr
          bottom_addr s d in
      rw (found, serve_connection) (rw (← request-append pid top_addr bottom_addr s) (rw served))

  -- While the array that the daemon starts with ends in a 0 and its calls succeed, it serves the
  -- requests of any clients one after the other, answers each and waits for the next, with the table
  -- and the devices as they were; and each client, given its answer, returns and prints `e` of it.
  pub serve_connections-requests :
      (clients : List Client) (str : Name) (d : Daemon)
      → get_elem? str 99 ≡ some 0
      → (answers : List Name) × (serve_connections opens seeks reads writes pagemap garbage padding
            (requests clients)
            str
            d
          ≡ ok (waiting, d, answers))
        × ArePrinted clients answers
  unfolding serve_connections
  serve_connections-requests [] str d end = ([], refl, tt)
  serve_connections-requests (c ∷ clients) str d end =
      let received = sent c.pid c.top_addr c.bottom_addr in
      let end' : Ends 99 (left_in_str received str) =
        cut_tokens-Ends 5 false (overwrite received str) 99
          (overwrite-Ends received str 99 (sent-fits c.pid c.top_addr c.bottom_addr) end) in
      let (answers, run, all) =
        serve_connections-requests clients (left_in_str received str) d end' in
      (
        answer_to received str ∷ answers,
        rw (serve_connection-sent c.pid c.top_addr c.bottom_addr str d end) (rw run),
        (answer-printed c.pid c.top_addr c.bottom_addr str end, all),
      )
