-- ===== src/BufferCrypto/Envelope.antt =====
-- buffer_crypto.c: a buffer encrypted for the owner of an RSA key, and its decryption. A cipher is
-- OpenSSL's decoding of keys and its seal and open calls, and libevent's `evbuffer_peek`.
pub mod RoundTrip
use deep_messenger.Prelude.{
  ℕ, ◌+◌, ◌*◌, ◌/◌, ◌%◌, ◌^◌, Bool, true, false, Option, none, some, List, [], ◌∷◌, ◌++◌, ltb, take,
  drop, length, min, if◌then◌else◌,
}

pub data RsaError : Type 0 where
  rsa_none rsa_key rsa_length rsa_openssl : RsaError

-- Keys, and the contexts of an encryption and of a decryption in progress. A call that fails is
-- none. Sealing for a key gives the context, the encrypted symmetric key and the initial vector.
-- The bytes of a buffer from a position on, at least as many as asked for, are peeked in extents.
pub record Cipher (K S O : Type 0) : Type 0 where
  pub pub_key_decode : List ℕ → Option K
  pub priv_key_decode : List ℕ → Option K
  pub key_size : K → ℕ
  pub seal_init : K → Option (S × List ℕ × List ℕ)
  pub seal_update : S → List ℕ → Option (S × List ℕ)
  pub seal_final : S → Option (List ℕ)
  pub open_init : K → List ℕ → List ℕ → Option O
  pub open_update : O → List ℕ → Option (O × List ℕ)
  pub open_final : O → Option (List ℕ)
  pub peek : ℕ → ℕ → List ℕ → List (List ℕ)

-- What is written to a buffer, and whether every call succeeded.
abbrev pub Written : Type 0
Written = List ℕ × Bool

abbrev pub prepend : List ℕ → Written → Written
prepend out (more, ok) = (out ++ more, ok)

abbrev pub written : Option (List ℕ) → Written
written none = ([], false)
written (some out) = (out, true)

abbrev pub block_size : ℕ
block_size = 16

abbrev pub iv_length : ℕ
iv_length = 16

-- The number of bytes of the ciphertext, a `uint32_t`.
unfoldable pub encrypted_len : ℕ → ℕ
encrypted_len n = ((n / block_size + 1) * block_size) % 2 ^ 32

unfoldable pub htonl : ℕ → List ℕ
htonl n = n / 2 ^ 24 % 256 ∷ n / 2 ^ 16 % 256 ∷ n / 2 ^ 8 % 256 ∷ n % 256 ∷ []

unfoldable pub ntohl : List ℕ → ℕ
ntohl (a ∷ b ∷ c ∷ d ∷ _) = a * 2 ^ 24 + b * 2 ^ 16 + c * 2 ^ 8 + d
ntohl _ = 0

-- A number in network order, read in the order of the machine.
unfoldable pub swapped : ℕ → ℕ
swapped n =
    n % 256 * 2 ^ 24 + n / 2 ^ 8 % 256 * 2 ^ 16 + n / 2 ^ 16 % 256 * 2 ^ 8 + n / 2 ^ 24 % 256

module _ {K S O : Type 0} (c : Cipher K S O) where
  -- The loop over the extents of the plaintext, and the final block.
  unfoldable pub sealed : S → List (List ℕ) → Written
  sealed s [] = written (c.seal_final s)
  sealed s (extent ∷ extents) = elim (c.seal_update s extent) [
    | none ↦ ([], false)
    | some (s', out) ↦ prepend out (sealed s' extents)
  ]

  -- The error, the buffer, and the length that is reported, if it is: an `int`, as its 32 bits,
  -- made of the ciphertext's length in network order.
  unfoldable pub seal_into : List ℕ → ℕ → Written → List ℕ → List ℕ → RsaError × List ℕ × Option ℕ
  seal_into enc len (out, false) ek iv = (rsa_openssl, enc ++ out, none)
  seal_into enc len (out, true) ek iv = (
    rsa_none,
    enc ++ (out ++ (ek ++ iv)),
    some ((4 + swapped len + length ek + iv_length) % 2 ^ 32),
  )

  unfoldable pub rsa_buffer_encrypt : List ℕ → List ℕ → List ℕ → RsaError × List ℕ × Option ℕ
  unfolding encrypted_len htonl sealed seal_into
  rsa_buffer_encrypt plain der_pub_key enc = elim (c.pub_key_decode der_pub_key) [
    | none ↦ (rsa_key, enc, none)
    | some pkey ↦
        let len = encrypted_len (length plain) in
        elim (c.seal_init pkey) [
          | none ↦ (rsa_openssl, enc ++ htonl len, none)
          | some (s, ek, iv) ↦
              seal_into (enc ++ htonl len) len (sealed s (c.peek 0 (length plain) plain)) ek iv
        ]
  ]

  -- The loop over the extents of the ciphertext, and the final block. The number of bytes that
  -- are left is not counted down.
  unfoldable pub opened : ℕ → O → List (List ℕ) → Written
  opened len o [] = written (c.open_final o)
  opened len o (extent ∷ extents) = elim (c.open_update o (take (min (length extent) len) extent)) [
    | none ↦ ([], false)
    | some (o', out) ↦ prepend out (opened len o' extents)
  ]

  unfoldable pub open_into : List ℕ → Written → ℕ → RsaError × List ℕ × Option ℕ
  open_into plain (out, false) enc_len = (rsa_openssl, plain ++ out, some enc_len)
  open_into plain (out, true) enc_len = (rsa_none, plain ++ out, some enc_len)

  -- With the key: its encrypted symmetric key follows the ciphertext, and the initial vector that.
  unfoldable pub open_body : K → ℕ → List ℕ → List ℕ → RsaError × List ℕ × Option ℕ
  unfolding opened open_into
  open_body pkey len enc_buff plain =
      let ekl = c.key_size pkey in
      let enc_len = (4 + ekl + iv_length + len) % 2 ^ 32 in
      let ek = take ekl (drop (4 + len) enc_buff) in
      let iv = take iv_length (drop (4 + len + ekl) enc_buff) in
      if ltb (length enc_buff) (4 + len + ekl + iv_length)
      then (rsa_length, plain, some enc_len)
      else elim (c.open_init pkey ek iv) [
        | none ↦ (rsa_openssl, plain, some enc_len)
        | some o ↦ open_into plain (opened len o (c.peek 4 len enc_buff)) enc_len
      ]

  -- The encrypted bytes stay in their buffer.
  unfoldable pub rsa_buffer_decrypt : List ℕ → List ℕ → List ℕ → RsaError × List ℕ × Option ℕ
  unfolding open_body ntohl
  rsa_buffer_decrypt enc_buff der_priv_key plain = elim (c.priv_key_decode der_priv_key) [
    | none ↦ (rsa_key, plain, none)
    | some pkey ↦
        if ltb (length enc_buff) 4
        then (rsa_length, plain, some ((4 + c.key_size pkey + iv_length) % 2 ^ 32))
        else open_body pkey (ntohl enc_buff) enc_buff plain
  ]
