-- ===== src/Server/Pagemap.antt =====
-- get_page_frame_number_of_address of clear_stack/stack_encrypt_server.c. A process's pagemap is the
-- parameter `pagemap`, what it holds at each offset, with `none` from its end on.
use cloud_memory_security.Base.{
  byte_of, shifted, byte_of-shifted, ℕ, zero, suc, ◌+◌, ◌*◌, ◌/◌, ◌%◌, ◌^◌, ◌<◌, ◌≡◌, refl, ◌∙◌,
  Option, none, some, arith,
}

-- `fread` of at most `n` bytes from the offset on, into a number that was 0, the lowest byte first.
unfoldable pub read_bytes : (ℕ → Option ℕ) → (n offset : ℕ) → ℕ
read_bytes pagemap zero offset = 0
read_bytes pagemap (suc n) offset =
    let rest = read_bytes pagemap n (offset + 1) in
    elim (pagemap offset) [ none ↦ 0 | some byte ↦ byte + rest * 2 ^ 8 ]

-- The mask keeps the 55 lowest bits. The offset of an address is too small for `fseek` to refuse it.
unfoldable pub get_page_frame_number_of_address : (ℕ → Option ℕ) → ℕ → ℕ
get_page_frame_number_of_address pagemap addr = read_bytes pagemap 7 (addr / 4096 * 8) % 2 ^ 55

read_bytes-suc :
    (pagemap : ℕ → Option ℕ) (n offset byte : ℕ)
    → pagemap offset ≡ some byte
    → read_bytes pagemap (suc n) offset ≡ byte + read_bytes pagemap n (offset + 1) * 2 ^ 8
unfolding read_bytes
read_bytes-suc pagemap n offset byte here = rw (here, read_bytes)

-- The `n` lowest bytes.
abbrev lowest : ℕ → ℕ → ℕ
lowest zero word = 0
lowest (suc n) word = word % 2 ^ 8 + lowest n (word / 2 ^ 8) * 2 ^ 8

shifted-suc : (i word : ℕ) → shifted i (word / 2 ^ 8) ≡ shifted (suc i) word
shifted-suc zero word = refl
shifted-suc (suc i) word = rw (shifted-suc i word)

read_bytes-lowest :
    (pagemap : ℕ → Option ℕ) (n offset word : ℕ)
    → ((i a : ℕ) → i < n → a ≡ offset + i → pagemap a ≡ some (shifted i word % 2 ^ 8))
    → read_bytes pagemap n offset ≡ lowest n word
read_bytes-lowest pagemap zero offset word bytes = unfold read_bytes in refl
read_bytes-lowest pagemap (suc n) offset word bytes =
    let rest : read_bytes pagemap n (offset + 1) ≡ lowest n (word / 2 ^ 8) =
      read_bytes-lowest pagemap n (offset + 1) (word / 2 ^ 8)
        (λ i a lt e. bytes (suc i) a (omega arith) (omega arith) ∙ rw (shifted-suc i word)) in
    read_bytes-suc pagemap n offset (word % 2 ^ 8) (bytes 0 offset (omega arith) (omega arith))
    ∙ rw rest

-- When the pagemap holds one word of eight bytes for each page, what is returned for an address is
-- the 55 lowest bits of the word of its page.
pub get_page_frame_number_of_address_lem :
    (pagemap : ℕ → Option ℕ) (entry : ℕ → ℕ) (addr : ℕ)
    → ((k i : ℕ) → i < 8 → pagemap (k * 8 + i) ≡ some (byte_of (entry k) i))
    → get_page_frame_number_of_address pagemap addr ≡ entry (addr / 4096) % 2 ^ 55
unfolding get_page_frame_number_of_address
get_page_frame_number_of_address_lem pagemap entry addr bytes =
    let page = addr / 4096 in
    let read : read_bytes pagemap 7 (page * 8) ≡ lowest 7 (entry page) =
      read_bytes-lowest pagemap 7 (page * 8) (entry page) (λ i a lt e.
        let here : pagemap a ≡ pagemap (page * 8 + i) = rw e in
        here ∙ bytes page i (omega arith) ∙ rw (byte_of-shifted i (entry page) (omega arith))) in
    omega (arith, read)
