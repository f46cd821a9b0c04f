-- ===== src/Server/Length.antt =====
-- The length of the request that clear_stack/stack_encrypt_client.c sends.
use cloud_memory_security.Base.{
  ℕ, zero, suc, ◌+◌, ◌-◌, ◌/◌, ◌%◌, ◌^◌, ◌≤◌, inl, inr, [], ◌∷◌, ltb, arith, Bool-cases, length,
}
use cloud_memory_security.Mapper.{Name}
use cloud_memory_security.Server.Requests.{digits, print_signed, request_encrypt_stack}

length-digits : (k n : ℕ) (str : Name) → length (digits k n str) ≤ k + length str
unfolding digits
length-digits zero n str = omega arith
length-digits (suc k) n str = elim (Bool-cases (ltb n 10)) [
  | inl last ↦ rw (last, digits) (omega arith)
  | inr more ↦ rw (more, digits) (omega (arith, length-digits k (n / 10) ((b'0' + n % 10) ∷ str)))
]

length-print_signed : (bits n : ℕ) (str : Name) → length (print_signed bits n str) ≤ 21 + length str
unfolding print_signed
length-print_signed bits n str =
    let low : ℕ = n % 2 ^ bits in
    elim (Bool-cases (ltb (low + low) (2 ^ bits))) [
      | inl pos ↦ rw (pos, print_signed) (omega (arith, length-digits 20 low str))
      | inr neg ↦ rw (neg, print_signed) (omega (arith, length-digits 20 (2 ^ bits - low) str))
    ]

-- What request_encrypt_stack prints into the 100 bytes of `str` fits, with the 0 at its end, for
-- every process and every stack.
pub length-request_encrypt_stack :
    (pid top_addr bottom_addr : ℕ)
    → length (request_encrypt_stack pid top_addr bottom_addr []) + 1 ≤ 100
unfolding request_encrypt_stack
length-request_encrypt_stack pid top_addr bottom_addr =
    let str4 : Name = print_signed 64 bottom_addr (10 ∷ []) in
    let str3 : Name = print_signed 64 top_addr (b' ' ∷ str4) in
    omega (
      arith,
      length-print_signed 64 bottom_addr (10 ∷ []),
      length-print_signed 64 top_addr (b' ' ∷ str4),
      length-print_signed 32 pid (b' ' ∷ str3),
    )
