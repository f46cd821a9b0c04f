-- ===== src/Probe/Watch.antt =====
-- The probes of the write path in kernel_probe/jprobe.c, over the static variables `pid` and `p`: the
-- page that 512 bytes of text.txt were copied to is remembered, and shown at the next write. The three
-- handlers that only print a line, and jmark_page_accessed, which does nothing, are left out, and so
-- are the lines that go with the bytes.
mod Tests
use cloud_memory_security.Base.{
  ℕ, zero, suc, ◌+◌, ◌-◌, ◌^◌, ◌<◌, ◌≡◌, ◌≢◌, refl, subst, sym, ◌⊎◌, inl, inr, Bool, true, false,
  List, [], ◌∷◌, ◌==◌, if◌then◌else◌, arith, Bool-cases,
}
use cloud_memory_security.Hash.{is_named}
use cloud_memory_security.Mapper.{Name}

abbrev pub text_txt : Name
text_txt = b't' ∷ b'e' ∷ b'x' ∷ b't' ∷ b'.' ∷ b't' ∷ b'x' ∷ b't' ∷ []

-- `pid` is the bit pattern of an `int`, `p` the address of a `struct page`.
pub record Watch : Type 0 where
  pub pid : ℕ
  pub p : ℕ

-- The initial values, -1 and NULL.
abbrev pub unwatched : Watch
unwatched = record { pid = 2 ^ 32 - 1; p = 0 }

-- The calls of the probed functions that change the variables.
pub data Event : Type 0 where
  generic_perform_write : (file_name : Name) (current : ℕ) → Event
  iov_iter_copy_from_user_atomic : (page bytes current : ℕ) → Event

unfoldable pub jgeneric_perform_write : (file_name : Name) (current : ℕ) → Watch → Watch
jgeneric_perform_write file_name current w =
    if is_named text_txt file_name then record w { pid = current } else w

unfoldable pub jiov_iter_copy_from_user_atomic : (page bytes current : ℕ) → Watch → Watch
jiov_iter_copy_from_user_atomic page bytes current w =
    if current == w.pid then (if bytes == 512 then record w { p = page } else w) else w

unfoldable pub step : Event → Watch → Watch
unfolding jgeneric_perform_write jiov_iter_copy_from_user_atomic
step (generic_perform_write file_name current) w = jgeneric_perform_write file_name current w
step (iov_iter_copy_from_user_atomic page bytes current) w =
    jiov_iter_copy_from_user_atomic page bytes current w

-- What the variables have become after a history, the latest event first.
unfoldable pub after : List Event → Watch
after [] = unwatched
after (e ∷ history) = step e (after history)

-- `n` bytes of a page's content from `i` on.
pub shown_bytes : (n i : ℕ) → (ℕ → ℕ) → List ℕ
shown_bytes zero i content = []
shown_bytes (suc n) i content = content i ∷ shown_bytes n (i + 1) content

-- The bytes that are printed at a write, where `content` is what the pages hold.
unfoldable pub jvfs_write : (content : ℕ → ℕ → ℕ) (file_name : Name) → Watch → List ℕ
jvfs_write content file_name w =
    if is_named text_txt file_name
    then (if w.p == 0 then [] else shown_bytes 512 0 (content w.p))
    else []

-- The process has written to text.txt.
abbrev pub Wrote : (pid : ℕ) → List Event → Type 0
Wrote pid [] = ⊥
Wrote pid (generic_perform_write file_name current ∷ history) =
    ((is_named text_txt file_name ≡ true) × (current ≡ pid)) ⊎ Wrote pid history
Wrote pid (iov_iter_copy_from_user_atomic page bytes current ∷ history) = Wrote pid history

-- A process that had written to text.txt before copied 512 bytes to the page.
abbrev pub Copied : (page : ℕ) → List Event → Type 0
Copied page [] = ⊥
Copied page (generic_perform_write file_name current ∷ history) = Copied page history
Copied page (iov_iter_copy_from_user_atomic page' bytes current ∷ history) =
    ((page' ≡ page) × (bytes ≡ 512) × Wrote current history) ⊎ Copied page history

-- No process has the number -1.
abbrev pub AreProcesses : List Event → Type 0
AreProcesses [] = Unit {0}
AreProcesses (generic_perform_write file_name current ∷ history) =
    (current < 2 ^ 31) × AreProcesses history
AreProcesses (iov_iter_copy_from_user_atomic page bytes current ∷ history) =
    (current < 2 ^ 31) × AreProcesses history

after-Wrote :
    (history : List Event) → ((after history).pid ≡ 2 ^ 32 - 1) ⊎ Wrote (after history).pid history
unfolding after step
after-Wrote [] = inl refl
after-Wrote (generic_perform_write file_name current ∷ history) =
    elim (Bool-cases (is_named text_txt file_name)) [
      | inl text ↦ inr (inl (text, rw text))
      | inr other ↦
          let same : (after history).pid
              ≡ (after (generic_perform_write file_name current ∷ history)).pid =
            rw other in
          subst
            (λ x. (x ≡ 2 ^ 32 - 1) ⊎ Wrote x (generic_perform_write file_name current ∷ history))
            same
            (elim (after-Wrote history) [ inl never ↦ inl never | inr wrote ↦ inr (inr wrote) ])
    ]
after-Wrote (iov_iter_copy_from_user_atomic page bytes current ∷ history) =
    subst (λ x. (x ≡ 2 ^ 32 - 1) ⊎ Wrote x history) (ground arith) (after-Wrote history)

after-Copied :
    (history : List Event)
    → AreProcesses history
    → ((after history).p ≡ 0) ⊎ Copied (after history).p history
unfolding after step
after-Copied [] processes = inl refl
after-Copied (generic_perform_write file_name current ∷ history) processes =
    subst (λ x. (x ≡ 0) ⊎ Copied x history) (ground arith) (after-Copied history processes.1)
after-Copied (iov_iter_copy_from_user_atomic page bytes current ∷ history) processes =
    let now = iov_iter_copy_from_user_atomic page bytes current ∷ history in
    let kept : ((after history).p ≡ 0) ⊎ Copied (after history).p now =
      elim (after-Copied history processes.1) [
        | inl none ↦ inl none
        | inr copied ↦ inr (inr copied)
      ] in
    elim (Bool-cases (current == (after history).pid)) [
      | inr other ↦ subst (λ x. (x ≡ 0) ⊎ Copied x now) (rw other) kept
      | inl writer ↦
          let pid : current ≡ (after history).pid = ground (arith, writer) in
          elim (Bool-cases (bytes == 512)) [
            | inr short ↦ subst (λ x. (x ≡ 0) ⊎ Copied x now) (rw writer (rw short)) kept
            | inl whole ↦ elim (after-Wrote history) [
              | inl never ↦ absurd (omega (arith, pid, never, processes.0))
              | inr wrote ↦ inr (
                  inl (
                    rw writer (rw whole),
                    ground (arith, whole),
                    subst (λ x. Wrote x history) (sym pid) wrote,
                  ))
            ]
          ]
    ]

-- Whatever calls the probes have seen, of processes none of which has the number -1, when jvfs_write
-- prints bytes, these are the 512 of a page to which a process had copied 512 bytes, and that process
-- had written to text.txt before.
pub jvfs_write-Copied :
    (history : List Event) (content : ℕ → ℕ → ℕ) (file_name : Name)
    → AreProcesses history
    → jvfs_write content file_name (after history) ≢ []
    → (page : ℕ) × Copied page history
      × (jvfs_write content file_name (after history) ≡ shown_bytes 512 0 (content page))
unfolding jvfs_write
jvfs_write-Copied history content file_name processes prints =
    elim (Bool-cases (is_named text_txt file_name)) [
      | inr other ↦ absurd (prints (rw other))
      | inl text ↦ elim (after-Copied history processes) [
        | inl none ↦ absurd (prints (rw text (rw none)))
        | inr copied ↦ elim (Bool-cases ((after history).p == 0)) [
          | inl null ↦ absurd (prints (rw text (rw null)))
          | inr page ↦ ((after history).p, copied, rw text (rw page))
        ]
      ]
    ]
