-- ===== src/SecFile/Tests.antt =====
-- A file in memory that is written, read, closed and used again.
use safe_disk.Base.{◌+◌, List, [], ◌∷◌}
use safe_disk.Storage.Memory.{memory}
use safe_disk.Cipher.{Cipher}
use safe_disk.Cipher.Keystream.{xor_at}
use safe_disk.Context.{Context}
use safe_disk.SecFile.{
  Call, size_call, close_call, read_call, write_at_call, read_at_call, sync_call,
}

abbrev K : Cipher
K = record {
  State = Unit {0};
  encrypt = λ p at s. (xor_at (λ i. 3) at p, s);
  decrypt = λ p at s. (xor_at (λ i. 3) at p, s);
}

abbrev sample_context : Context memory K
sample_context = record {
  file = record { size = 2; cursor = 0; byte = (λ i. i + 5) };
  cipher = tt;
  pos = 0;
  size = 2;
}

abbrev calls_before : List Call
calls_before = write_at_call (7 ∷ 8 ∷ []) 1 ∷ read_at_call 5 0 ∷ size_call ∷ []

abbrev calls_after : List Call
calls_after = read_call 1 ∷ sync_call ∷ close_call ∷ []
