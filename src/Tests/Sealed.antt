-- ===== src/Tests/Sealed.antt =====
-- A cipher and a message at concrete inputs: a text, padded to a multiple of 16 bytes, is its own
-- ciphertext.
use deep_messenger.Prelude.{
  ℕ, ◌-◌, ◌%◌, ◌≡◌, refl, some, List, [], ◌∷◌, ◌++◌, take, drop, length, arith,
}
use deep_messenger.BufferCrypto.Envelope.{
  Cipher, rsa_none, rsa_buffer_encrypt, rsa_buffer_decrypt, sealed,
}
use deep_messenger.BufferCrypto.Envelope.RoundTrip.{Sealing, rsa_buffer_decrypt-encrypt}
use deep_messenger.Tests.Parts.{filled}

abbrev last_of : List ℕ → ℕ
last_of [] = 0
last_of (x ∷ []) = x
last_of (x ∷ y ∷ xs) = last_of (y ∷ xs)

abbrev pub toy : Cipher ℕ (List ℕ) (List ℕ)
toy = record {
  pub_key_decode = λ der. some 1;
  priv_key_decode = λ der. some 1;
  key_size = λ k. 256;
  seal_init = λ k. some ([], filled 256 7, filled 16 8);
  seal_update = λ s x. some (s ++ x, []);
  seal_final = λ s. some (s ++ filled (16 - length s % 16) (16 - length s % 16));
  open_init = λ k ek iv. some [];
  open_update = λ o x. some (o ++ x, []);
  open_final = λ o. some (take (length o - last_of o) o);
  peek = λ pos n b. drop pos b ∷ [];
}

-- The type of a text, and "hey".
abbrev pub hey : List ℕ
hey = 1 ∷ 104 ∷ 101 ∷ 121 ∷ []

abbrev pub hey_sealing : Sealing toy (4 ∷ []) (4 ∷ []) hey
unfolding sealed
hey_sealing = record {
  pkey = 1;
  pkey_priv = 1;
  state = [];
  ek = filled 256 7;
  iv = filled 16 8;
  body = hey ++ filled 12 12;
  start = [];
  middle = hey ++ filled 12 12;
  front = [];
  back = hey;
  decoded = refl;
  decoded_priv = refl;
  seal_started = refl;
  seal_done = refl;
  body_blocks = refl;
  ek_size = refl;
  iv_size = refl;
  open_started = refl;
  open_updated = refl;
  open_done = refl;
  same_text = refl;
}

decrypt_example :
    ((rsa_buffer_encrypt toy hey (4 ∷ []) []).0 ≡ rsa_none)
    × (rsa_buffer_decrypt toy
          ((rsa_buffer_encrypt toy hey (4 ∷ []) []).1 ++ (9 ∷ []))
          (4 ∷ [])
          (5 ∷ [])
        ≡ (rsa_none, (5 ∷ []) ++ hey, some 292))
unfolding rsa_buffer_encrypt
decrypt_example =
    rsa_buffer_decrypt-encrypt toy (4 ∷ []) (4 ∷ []) hey hey_sealing (omega arith) (9 ∷ []) (5 ∷ [])
      refl
