-- ===== src/Probe/Watch/Tests.antt =====
-- The probes of the write path, at concrete inputs: process 7 writes text.txt, and its 512 bytes are
-- copied to the page at 64; a copy of process 8 is not taken for one of text.txt.
use cloud_memory_security.Base.{ℕ, ◌+◌, ◌≡◌, ◌≢◌, refl, List, [], ◌∷◌, arith}
use cloud_memory_security.Hash.{strcmp}
use cloud_memory_security.Probe.Watch.{
  text_txt, Event, generic_perform_write, iov_iter_copy_from_user_atomic, step, after, shown_bytes,
  jvfs_write, Copied, jvfs_write-Copied,
}

abbrev history : List Event
history =
    iov_iter_copy_from_user_atomic 96 512 8
    ∷ iov_iter_copy_from_user_atomic 64 512 7
    ∷ iov_iter_copy_from_user_atomic 32 511 7
    ∷ generic_perform_write text_txt 7
    ∷ []

abbrev content : ℕ → ℕ → ℕ
content page i = page + i

watched : after history ≡ record { pid = 7; p = 64 }
unfolding after step strcmp
watched = refl

prints : jvfs_write content text_txt (after history) ≢ []
unfolding after step jvfs_write strcmp shown_bytes
prints e = cc e

jvfs_write-Copied_example :
    (page : ℕ) × Copied page history
    × (jvfs_write content text_txt (after history) ≡ shown_bytes 512 0 (content page))
jvfs_write-Copied_example =
    jvfs_write-Copied history content text_txt
      (omega arith, (omega arith, (omega arith, (omega arith, tt)))) prints
