-- ===== src/BufferCrypto.antt =====
-- buffer_crypto.c: signing a buffer with ed25519 and validating its signature. `sha512`, `sign` and
-- `verify` stand for OpenSSL's digest and signature calls; the extents of a buffer are what
-- `evbuffer_peek` reports for the bytes asked for.
pub mod Extents
pub mod Envelope
use deep_messenger.Prelude.{
  ℕ, ◌+◌, ◌-◌, ◌%◌, ◌^◌, Bool, true, false, List, [], ◌∷◌, ◌++◌, take, drop, length, min,
}

-- `EVP_DigestVerify`: the signature is valid, it is not, or the check failed.
pub data Verified : Type 0 where
  valid invalid verify_failed : Verified

-- Only a zero is false in C.
abbrev pub is_nonzero : Verified → Bool
is_nonzero valid = true
is_nonzero invalid = false
is_nonzero verify_failed = true

-- The loop over the extents: the bytes that the digest is updated with. `len` is a `size_t`.
unfoldable pub hashed : ℕ → List (List ℕ) → List ℕ
hashed len [] = []
hashed len (extent ∷ extents) =
    take (min (length extent) len) extent
    ++ hashed ((len + 2 ^ 64 - length extent) % 2 ^ 64) extents

abbrev pub signature_len : ℕ
signature_len = 64

module _ (sha512 : List ℕ → List ℕ) (sign : List ℕ → List ℕ → List ℕ)
    (verify : List ℕ → List ℕ → List ℕ → Verified) where
  -- A length of 0 asks for the whole buffer, which is one extent here.
  unfoldable pub ed25519_buffer_sign : List ℕ → List ℕ → List ℕ
  unfolding hashed
  ed25519_buffer_sign buff priv_key =
      buff ++ sign priv_key (sha512 (hashed (length buff) (buff ∷ [])))

  -- Of a buffer in one extent, the first `len` bytes.
  unfoldable pub ed25519_buffer_validate : List ℕ → ℕ → List ℕ → Bool
  unfolding hashed
  ed25519_buffer_validate buff len pub_key =
      let content_len = len - signature_len in
      let sig = take signature_len (drop content_len buff) in
      is_nonzero (verify pub_key sig (sha512 (hashed content_len (buff ∷ []))))
