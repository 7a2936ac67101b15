-- ===== src/Cipher/Tests.antt =====
-- The algorithms at work with toy block ciphers and a toy RC4 and ChaCha20.
use safe_disk.Base.{
  ℕ, ◌+◌, ◌*◌, ◌%◌, ◌/◌, ◌≡◌, ◌≢◌, refl, true, List, [], ◌∷◌, length, get_or, replicate, none, some,
  arith,
}
use safe_disk.Base.Int.{two_64}
use safe_disk.Storage.Memory.{memory, memory_laws}
use safe_disk.Cipher.Keystream.{xor_at}
use safe_disk.Context.{Context}
use safe_disk.Context.View.{IsValid}
use safe_disk.AesCtr.{BlockCipher, BlockLaws, Buffers, fresh}
use safe_disk.AesCtr as AesCtr
use safe_disk.AesCtr.Laws as CtrLaws
use safe_disk.ChaCha20.{ChaCha, ChaChaLaws}
use safe_disk.Rc4.{Rc4Cipher, Rc4Laws, CipherState}
use safe_disk.AesXts.{Blocks, BlocksLaws}
use safe_disk.AesXts as AesXts
use safe_disk.AesXts.Laws as XtsTheory

abbrev block_of : ℕ → List ℕ
block_of n = 11 ∷ (7 * n % 256) ∷ 99 ∷ 42 ∷ replicate 12 (n % 256)

abbrev three : List ℕ
three = 7 ∷ 8 ∷ 9 ∷ []

abbrev aes : BlockCipher
aes = record {
  encrypt = block_of;
  ctr_stream = λ iv i. get_or (block_of ((iv + i / 16) % (two_64 * two_64))) (i % 16) 0;
}

aes_laws : BlockLaws aes
aes_laws = record { block = λ n. refl; counter_mode = λ iv i. refl }

fresh-IsReady : CtrLaws.IsReady fresh
fresh-IsReady = record { nonce = omega arith }

xor_keystream_example :
    ((AesCtr.xor_keystream aes three 15 fresh).0 ≡ xor_at (CtrLaws.keystream aes) 15 three)
    × CtrLaws.IsReady (AesCtr.xor_keystream aes three 15 fresh).1
xor_keystream_example =
    CtrLaws.xor_keystream-xor_at aes aes_laws three 15 fresh fresh-IsReady (omega arith)

abbrev cha_cha : ChaCha
cha_cha = record {
  accepts = true;
  stream_from = λ counter i. get_or (block_of (counter + i / 64)) (i % 64) 0;
}

abbrev cha_cha_laws : ChaChaLaws cha_cha
cha_cha_laws = record { accepted = refl; block = block_of; block_stream = λ counter i h. refl }

abbrev rc4 : Rc4Cipher
rc4 = record {
  State = ℕ;
  new_cipher = some 0;
  xor_key_stream = λ p s. (xor_at (λ i. i * 31 % 256) s p, s + length p);
  reset = λ s. 0;
}

rc4_start : (s : ℕ) → some 0 ≡ some s → s ≡ 0
rc4_start s e = cc

rc4_key : rc4.new_cipher ≢ none
rc4_key e = cc

abbrev rc4_laws : Rc4Laws rc4
rc4_laws = record {
  stream = λ i. i * 31 % 256;
  place = λ s. s;
  start = rc4_start;
  out = λ p s. refl;
  move = λ p s. refl;
  key_fits = rc4_key;
}

abbrev at_two : CipherState rc4
at_two = record { cipher = 2; pos = 2 }

abbrev blocks : Blocks
blocks = record {
  cipher1 = λ b. block_of (get_or b 0 0 + 3);
  cipher2 = λ b. block_of (get_or b 0 0 + 5);
}

blocks_laws : BlocksLaws blocks
blocks_laws = record { block1 = λ b h. refl; block2 = λ b h. refl }

abbrev xts_file : Context memory (AesXts.cipher blocks)
unfolding AesXts.cipher
xts_file = record {
  file = record { size = 40; cursor = 9; byte = (λ i. i) };
  cipher = tt;
  pos = 14;
  size = 40;
}

xts_file-IsValid :
    IsValid memory (AesXts.cipher blocks) (XtsTheory.cipher_laws blocks blocks_laws) xts_file
unfolding xts_file
xts_file-IsValid =
    XtsTheory.backed-IsValid memory memory_laws blocks blocks_laws xts_file (omega arith)
