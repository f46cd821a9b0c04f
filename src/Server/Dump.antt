-- ===== src/Server/Dump.antt =====
-- read_memory_page and main of kernel_probe/readmem.c: a physical page is read through /dev/mem and
-- printed in hexadecimal. The functions for page frames have the text of the daemon's.
mod Tests
use cloud_memory_security.Base.{
  ℕ, zero, suc, ◌+◌, ◌-◌, ◌*◌, ◌/◌, ◌%◌, ◌^◌, ◌<◌, ◌≤◌, ◌≡◌, refl, ap, ◌∙◌, Bool, true, false, not,
  List, [], ◌∷◌, ◌++◌, Option, none, some, ltb, ◌==◌, if◌then◌else◌, mul64, arith,
}
use cloud_memory_security.Memory.{Mem}
use cloud_memory_security.Server.DevMem.{Device, read_page, lseek, IsServed}

unfoldable pub hex_digit : ℕ → ℕ
hex_digit n = if ltb n 10 then b'0' + n else b'a' + (n - 10)

-- `printf("%02x ", buffer[i]&0xFF)` for the bytes from `i` on, with what is printed behind them.
unfoldable pub print_bytes : (n i : ℕ) → Mem → List ℕ → List ℕ
print_bytes zero i buffer tail = tail
print_bytes (suc n) i buffer tail =
    let byte = buffer i % 2 ^ 8 in
    hex_digit (byte / 16) ∷ hex_digit (byte % 16) ∷ b' ' ∷ print_bytes n (i + 1) buffer tail

module _ (opens seeks : ℕ → Bool) (reads writes : ℕ → ℕ) where
  -- What is printed, or `none` for an error. `garbage` is what the function's buffer holds at first.
  unfoldable pub read_memory_page :
      (garbage : Mem) (frame_num : ℕ) → Device → Option (List ℕ) × Device
  read_memory_page garbage frame_num d =
      let d1 = record d { opened = d.opened + 1 } in
      let offset = mul64 frame_num 4096 in
      let d2 = read_page (reads offset) offset (record d { buffer = garbage }) in
      if not (opens d.opened)
      then (none, d1)
      else if lseek opens seeks reads writes offset == 2 ^ 64 - 1
      then (none, record d1 { fds = d.fds + 1 })
      else (some (print_bytes 4096 0 d2.buffer (10 ∷ 10 ∷ 10 ∷ [])), d1)

  unfoldable pub main : (garbage : Mem) → Device → Option (List ℕ) × Device
  main garbage d = read_memory_page garbage 340417 d

-- A digit's value.
abbrev pub hex_value : ℕ → ℕ
hex_value c = if ltb c b'a' then c - b'0' else c - b'a' + 10

-- The bytes that stand at the start of a text.
pub read_hex : (n : ℕ) → List ℕ → List ℕ
read_hex zero text = []
read_hex (suc n) (hi ∷ lo ∷ space ∷ text) = (hex_value hi * 16 + hex_value lo) ∷ read_hex n text
read_hex (suc n) text = []

-- The bytes of a memory from an address on.
pub bytes_from : (n a : ℕ) → Mem → List ℕ
bytes_from zero a m = []
bytes_from (suc n) a m = m a ∷ bytes_from n (a + 1) m

hex_value-hex_digit : (n : ℕ) → n < 16 → hex_value (hex_digit n) ≡ n
unfolding hex_digit
hex_value-hex_digit n lt = ground arith

read_hex-print_bytes :
    (n i p : ℕ) (buffer phys : Mem) (tail : List ℕ)
    → ((j a : ℕ) → j < i + n → a ≡ p + j → (buffer j ≡ phys a) × (phys a < 2 ^ 8))
    → read_hex n (print_bytes n i buffer tail) ≡ bytes_from n (p + i) phys
unfolding print_bytes read_hex bytes_from
read_hex-print_bytes zero i p buffer phys tail same = refl
read_hex-print_bytes (suc n) i p buffer phys tail same =
    let here = same i (p + i) (omega arith) refl in
    let byte : ℕ = buffer i % 2 ^ 8 in
    let rest : read_hex n (print_bytes n (i + 1) buffer tail) ≡ bytes_from n (p + i + 1) phys =
      read_hex-print_bytes n (i + 1) p buffer phys tail (λ j a lt e. same j a (omega arith) e)
      ∙ ap (λ x. bytes_from n x phys) (omega arith) in
    let high = hex_value-hex_digit (byte / 16) (omega arith) in
    let low = hex_value-hex_digit (byte % 16) (omega arith) in
    let value : byte / 16 * 16 + byte % 16 ≡ phys (p + i) = omega (arith, here.0, here.1) in
    rw rest (rw (high, low) (rw value))

-- When /dev/mem serves every call in full, and the page's frame is below 2^51 and its cells are bytes,
-- read_memory_page of readmem.c prints a text from which the 4096 bytes of the page can be read back,
-- and changes no byte and leaves no file open.
pub read_memory_page-read_hex :
    (opens seeks : ℕ → Bool) (reads writes : ℕ → ℕ) (garbage : Mem) (frame_num : ℕ) (d : Device)
    → IsServed opens seeks reads writes
    → frame_num < 2 ^ 51
    → ((a : ℕ) → d.phys a < 2 ^ 8)
    → (text : List ℕ) × (d' : Device) × (read_memory_page opens seeks reads writes garbage frame_num
          d
        ≡ (some text, d'))
      × (read_hex 4096 text ≡ bytes_from 4096 (frame_num * 4096) d.phys)
      × (d'.phys ≡ d.phys)
      × (d'.fds ≡ d.fds)
unfolding read_memory_page read_page
read_memory_page-read_hex opens seeks reads writes garbage frame_num d served frame cells =
    let offset : mul64 frame_num 4096 ≡ frame_num * 4096 = omega arith in
    let buffer : Mem = λ i. if ltb i 4096 then d.phys (frame_num * 4096 + i) else garbage i in
    let found : (lseek opens seeks reads writes (frame_num * 4096) == 2 ^ 64 - 1) ≡ false =
      ground (arith, served.found (frame_num * 4096)) in
    (
      print_bytes 4096 0 buffer (10 ∷ 10 ∷ 10 ∷ []),
      record d { opened = d.opened + 1 },
      rw offset (rw (served.opened d.opened) (rw found (rw (served.full (frame_num * 4096))))),
      read_hex-print_bytes 4096 0 (frame_num * 4096) buffer d.phys (10 ∷ 10 ∷ 10 ∷ [])
            (λ j a lt e. (ground (arith, e), cells a))
          ∙ ap (λ x. bytes_from 4096 x d.phys) (omega arith),
      refl,
      refl,
    )
