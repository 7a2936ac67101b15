-- ===== src/Chunk/Tests.antt =====
-- The chunk loops at work on a file in memory.
use safe_disk.Base.{ℕ, ◌+◌, ◌*◌, ◌%◌, refl, List, [], ◌∷◌}
use safe_disk.Base.Int.{two_63}
use safe_disk.Storage.Memory.{MemFile}
use safe_disk.Cipher.Keystream.{xor_at}
use safe_disk.Chunk.Run.{Encrypts}
use safe_disk.Chunk.Gap.{EncryptsOrFails}
use safe_disk.Context.{no_error}

abbrev three : List ℕ
three = 7 ∷ 8 ∷ 9 ∷ []

abbrev stream : ℕ → ℕ
stream i = i * 31 % 256

abbrev encrypt : List ℕ → ℕ → Unit {0} → List ℕ × Unit {0}
encrypt p at s = (xor_at stream at p, s)

abbrev file : MemFile
file = record { size = 4; cursor = 4; byte = (λ i. i + 5) }

encrypts : Encrypts {E = Unit {0}} (λ s. Unit) stream two_63 encrypt
encrypts = record { out = λ p at s r h. refl; ready = λ p at s r. r }

encrypts_or_fails : EncryptsOrFails {E = Unit {0}} (λ s. Unit) stream two_63 (no_error encrypt)
unfolding no_error
encrypts_or_fails = record { out = λ p at s r h e. refl; ready = λ p at s r. r }
