-- ===== src/Server/Dump/Tests.antt =====
-- The dump of a page, at concrete inputs.
use cloud_memory_security.Base.{ℕ, ◌*◌, ◌%◌, ◌^◌, ◌≡◌, refl, Bool, true, List, [], ◌∷◌, some, arith}
use cloud_memory_security.Server.DevMem.{Device, IsServed}
use cloud_memory_security.Server.Dump.{
  hex_digit, print_bytes, read_memory_page, read_hex, bytes_from, read_memory_page-read_hex,
}

abbrev always : ℕ → Bool
always k = true

abbrev page_size : ℕ → ℕ
page_size offset = 4096

abbrev idle : Device
idle = record { phys = λ a. a % 2 ^ 8; opened = 0; fds = 0; buffer = λ a. 0 }

always-IsServed : IsServed always always page_size page_size
always-IsServed = record {
  opened = λ k. refl;
  found = λ o. refl;
  full = λ o. refl;
  written = λ o. refl;
}

-- "1e 1f "
print_bytes_example : print_bytes 2 30 idle.phys [] ≡ b'1' ∷ b'e' ∷ b' ' ∷ b'1' ∷ b'f' ∷ b' ' ∷ []
unfolding print_bytes hex_digit
print_bytes_example = refl

read_memory_page-read_hex_example :
    (text : List ℕ) × (d' : Device) × (read_memory_page always always page_size page_size
        (λ a. 0)
        340417
        idle
      ≡ (some text, d'))
    × (read_hex 4096 text ≡ bytes_from 4096 (340417 * 4096) idle.phys)
    × (d'.phys ≡ idle.phys)
    × (d'.fds ≡ 0)
read_memory_page-read_hex_example =
    read_memory_page-read_hex always always page_size page_size (λ a. 0) 340417 idle always-IsServed
      (omega arith) (λ a. omega arith)
