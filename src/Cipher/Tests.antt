-- ===== src/Cipher/Tests.antt =====
-- The loop over the words of a stack, and the two runs, at a concrete input.
use cloud_memory_security.Base.{ℕ, ◌^◌, ◌<◌, ◌≡◌, List, [], ◌∷◌, arith, ok}
use cloud_memory_security.Memory.{Mem, Machine, user_end}
use cloud_memory_security.StackBuf.InsertionSort.{bump, bump-KernelHeap}
use cloud_memory_security.Probe.Paras.{Para}
use cloud_memory_security.Cipher.{xor_words, xor_tail, encrypt_stack, decrypt_stack, xor_words_lem}
use cloud_memory_security.Cipher.Params.{sizes}
use cloud_memory_security.Cipher.RoundTrip.{crypted, decrypt_stack-encrypt_stack}

xor_words_lem_example :
    (q : ℕ) × (m' : Mem) × (xor_words 4 1000 1012 255 (λ a. 7) ≡ ok (q, m'))
    × (1012 < q)
    × (xor_tail q 1012 255 m' ≡ m')
xor_words_lem_example =
    xor_words_lem 4 1000 1012 255 (λ a. 7) (omega arith) (omega arith) (omega arith)

-- One parameter, of four bytes in the middle of a word.
abbrev one_para : List Para
one_para = record { addr = 1010; size = 4; pointer = 0 } ∷ []

abbrev idle : Machine
idle = record { mem = λ a. 7; allocs = 0; freed = [] }

decrypt_stack-encrypt_stack_example :
    (s1 s2 : Machine) × (encrypt_stack bump 4 1000 1012 one_para 0xBEEF idle ≡ ok s1)
    × (decrypt_stack bump 4 1000 1012 one_para 0xBEEF s1 ≡ ok s2)
    × ((a : ℕ) → a < user_end → s1.mem a ≡ crypted idle.mem one_para 1000 1012 0xBEEF a)
    × ((a : ℕ) → a < user_end → s2.mem a ≡ idle.mem a)
    × (s2.freed ≡ bump 1 (sizes one_para) ∷ bump 0 (sizes one_para) ∷ [])
decrypt_stack-encrypt_stack_example =
    decrypt_stack-encrypt_stack bump (2 ^ 20) bump-KernelHeap 4 1000 1012 one_para 0xBEEF idle
      (record {
        top = omega arith;
        ordered = omega arith;
        enough = omega arith;
        in_user = (omega arith, tt);
        small = omega arith;
      })
      (omega arith) (λ a low. omega arith)
