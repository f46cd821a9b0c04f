-- ===== src/Server/Client.antt =====
-- What the daemon makes of a request that the client of clear_stack/stack_encrypt_client.c sends.
use cloud_memory_security.Base.{
  ℕ, zero, suc, ◌+◌, ◌-◌, ◌/◌, ◌%◌, ◌^◌, ◌≤◌, ◌<◌, ◌≡◌, refl, ◌∙◌, inl, inr, Bool, false, List, [],
  ◌∷◌, ◌++◌, Option, ltb, ◌==◌, arith, Bool-cases, ok,
}
use cloud_memory_security.Mapper.{Name}
use cloud_memory_security.Server.Requests.{
  skip_spaces, split_token, strtok, next_token, atol, first_char, Request, parse_request, Daemon,
  again, dispatch, serve, digits, print_signed, request_encrypt_stack,
}

-- No character is a space, or below it.
abbrev NoSpace : Name → Type 0
NoSpace [] = Unit {0}
NoSpace (c ∷ str) = (b' ' < c) × NoSpace str

-- A number was printed in front of `tail`: it starts with a digit or a sign.
record Printed (str tail : Name) : Type 0 where
  head : ℕ
  body : Name
  eq : str ≡ head ∷ (body ++ tail)
  above : b' ' < head
  digit : head ≤ b'9'
  no_space : NoSpace body

digits-Printed :
    (k n head : ℕ) (body tail : Name)
    → b' ' < head
    → head ≤ b'9'
    → NoSpace body
    → Printed (digits k n (head ∷ (body ++ tail))) tail
unfolding digits
digits-Printed zero n head body tail above digit no_space = record {
  head = head;
  body = body;
  eq = refl;
  above = above;
  digit = digit;
  no_space = no_space;
}
digits-Printed (suc k) n head body tail above digit no_space = elim (Bool-cases (ltb n 10)) [
  | inl last ↦ record {
    head = b'0' + n % 10;
    body = head ∷ body;
    eq = rw (last, digits);
    above = omega arith;
    digit = omega arith;
    no_space = (above, no_space);
  }
  | inr more ↦
      rw (more, digits)
        (digits-Printed k (n / 10) (b'0' + n % 10) (head ∷ body) tail (omega arith) (omega arith)
          (above, no_space))
]

digits-all_Printed : (n : ℕ) (tail : Name) → Printed (digits 20 n tail) tail
unfolding digits
digits-all_Printed n tail = elim (Bool-cases (ltb n 10)) [
  | inl last ↦ record {
    head = b'0' + n % 10;
    body = [];
    eq = rw (last, digits);
    above = omega arith;
    digit = omega arith;
    no_space = tt;
  }
  | inr more ↦
      rw (more, digits)
        (digits-Printed 19 (n / 10) (b'0' + n % 10) [] tail (omega arith) (omega arith) tt)
]

print_signed-Printed : (bits n : ℕ) (tail : Name) → Printed (print_signed bits n tail) tail
unfolding print_signed
print_signed-Printed bits n tail =
    elim (Bool-cases (ltb (n % 2 ^ bits + n % 2 ^ bits) (2 ^ bits))) [
      | inl pos ↦ rw (pos, print_signed) (digits-all_Printed (n % 2 ^ bits) tail)
      | inr neg ↦
          let p = digits-all_Printed (2 ^ bits - n % 2 ^ bits) tail in
          rw (neg, print_signed)
            (record {
              head = b'-';
              body = p.head ∷ p.body;
              eq = rw (p.eq);
              above = omega arith;
              digit = omega arith;
              no_space = (p.above, p.no_space);
            })
    ]

split_token-NoSpace :
    (body tail : Name) → NoSpace body → split_token (body ++ (b' ' ∷ tail)) ≡ (body, tail)
unfolding split_token
split_token-NoSpace [] tail no_space = refl
split_token-NoSpace (c ∷ body) tail no_space =
    let other : (c == b' ') ≡ false = ground (arith, no_space.0) in
    rw (other, split_token) (rw (split_token-NoSpace body tail no_space.1))

skip_spaces-cons : (c : ℕ) (str : Name) → (c == b' ') ≡ false → skip_spaces (c ∷ str) ≡ c ∷ str
unfolding skip_spaces
skip_spaces-cons c str other = rw (other, skip_spaces)

split_token-cons :
    (c : ℕ) (str : Name)
    → (c == b' ') ≡ false
    → split_token (c ∷ str) ≡ (c ∷ (split_token str).0, (split_token str).1)
unfolding split_token
split_token-cons c str other = rw (other, split_token)

next_token-cons :
    (c : ℕ) (str : Name)
    → (c == b' ') ≡ false
    → next_token (c ∷ str) ≡ ok (c ∷ (split_token str).0, (split_token str).1)
unfolding next_token strtok
next_token-cons c str other =
    rw (skip_spaces-cons c str other, strtok, next_token) (rw (split_token-cons c str other))

next_token-Printed :
    (str tail : Name) (p : Printed str (b' ' ∷ tail)) → next_token str ≡ ok (p.head ∷ p.body, tail)
next_token-Printed str tail p = rw (p.eq) (
    next_token-cons p.head (p.body ++ (b' ' ∷ tail)) (ground (arith, p.above))
    ∙ rw (split_token-NoSpace p.body tail p.no_space))

parse_request-tokens :
    (str str1 str2 str3 str4 str5 op func_name pid rsp rbp : Name)
    → next_token str ≡ ok (op, str1)
    → next_token str1 ≡ ok (func_name, str2)
    → next_token str2 ≡ ok (pid, str3)
    → next_token str3 ≡ ok (rsp, str4)
    → next_token str4 ≡ ok (rbp, str5)
    → parse_request str
      ≡ ok (record {
        op = first_char op;
        func_name = func_name;
        pid = atol pid;
        rsp = atol rsp;
        rbp = atol rbp;
        p = rbp;
      })
unfolding parse_request
parse_request-tokens str str1 str2 str3 str4 str5 op func_name pid rsp rbp e e1 e2 e3 e4 =
    rw e (rw e1 (rw e2 (rw e3 (rw e4))))

op_token : (str : Name) → next_token (b'e' ∷ b' ' ∷ str) ≡ ok (b'e' ∷ [], str)
unfolding next_token strtok skip_spaces split_token
op_token str = refl

name_token : (str : Name) → next_token (b'f' ∷ b'1' ∷ b' ' ∷ str) ≡ ok (b'f' ∷ b'1' ∷ [], str)
unfolding next_token strtok skip_spaces split_token
name_token str = refl

module _ (opens seeks : ℕ → Bool) (reads writes : ℕ → ℕ) (pagemap : ℕ → Option (ℕ → Option ℕ))
    (garbage : ℕ) (padding : List ℕ) where
  dispatch-other :
      (r : Request) (d : Daemon)
      → first_char r.p ≤ b'9'
      → dispatch opens seeks reads writes pagemap garbage padding r d ≡ ok (again, d)
  unfolding dispatch
  dispatch-other r d le =
      let not_e : (first_char r.p == b'e') ≡ false = ground arith in
      let not_d : (first_char r.p == b'd') ≡ false = ground arith in rw (not_e) (rw (not_d))

  serve-parsed :
      (str : Name) (r : Request) (d : Daemon)
      → parse_request str ≡ ok r
      → first_char r.p ≤ b'9'
      → serve opens seeks reads writes pagemap garbage padding str d ≡ ok (again, d)
  unfolding serve
  serve-parsed str r d parsed le = rw parsed (dispatch-other r d le)

  -- A request of the client, for any process and any stack and with anything behind it, is served
  -- without a fault, and neither the table nor the devices change: no stack is encrypted.
  pub serve-request_encrypt_stack :
      (pid top_addr bottom_addr : ℕ) (left : Name) (d : Daemon)
      → serve opens seeks reads writes pagemap garbage padding
          (request_encrypt_stack pid top_addr bottom_addr left)
          d
        ≡ ok (again, d)
  unfolding request_encrypt_stack
  serve-request_encrypt_stack pid top_addr bottom_addr left d =
      let str4 = print_signed 64 bottom_addr (10 ∷ left) in
      let str3 = print_signed 64 top_addr (b' ' ∷ str4) in
      let str2 = print_signed 32 pid (b' ' ∷ str3) in
      let str1 = b'f' ∷ b'1' ∷ b' ' ∷ str2 in
      let pid' = print_signed-Printed 32 pid (b' ' ∷ str3) in
      let rsp = print_signed-Printed 64 top_addr (b' ' ∷ str4) in
      let rbp = print_signed-Printed 64 bottom_addr (10 ∷ left) in
      let last = rbp.body ++ (10 ∷ left) in
      serve-parsed (b'e' ∷ b' ' ∷ str1)
        (record {
          op = b'e';
          func_name = b'f' ∷ b'1' ∷ [];
          pid = atol (pid'.head ∷ pid'.body);
          rsp = atol (rsp.head ∷ rsp.body);
          rbp = atol (rbp.head ∷ (split_token last).0);
          p = rbp.head ∷ (split_token last).0;
        })
        d
        (parse_request-tokens (b'e' ∷ b' ' ∷ str1) str1 str2 str3 str4 (split_token last).1
          (b'e' ∷ []) (b'f' ∷ b'1' ∷ []) (pid'.head ∷ pid'.body) (rsp.head ∷ rsp.body)
          (rbp.head ∷ (split_token last).0) (op_token str1) (name_token str2)
          (next_token-Printed str2 str3 pid') (next_token-Printed str3 str4 rsp)
          (rw (rbp.eq) (next_token-cons rbp.head last (ground (arith, rbp.above)))))
        rbp.digit
