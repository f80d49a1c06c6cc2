-- ===== src/BufferCrypto/Envelope/RoundTrip.antt =====
-- A buffer encrypted for a key is decrypted with the key that belongs to it.
use deep_messenger.Prelude.{
  ℕ, ◌+◌, ◌*◌, ◌/◌, ◌%◌, ◌^◌, ◌<◌, ◌≡◌, refl, sym, ap, ◌∙◌, true, false, some, List, [], ◌∷◌, ◌++◌,
  ltb, take, drop, length, min, length-append, take-append, drop-append, arith,
}
use mathlib.Core.List.{append_assoc}
use deep_messenger.BufferCrypto.Extents.{take_same}
use deep_messenger.BufferCrypto.Envelope.{
  Cipher, rsa_none, encrypted_len, htonl, ntohl, swapped, sealed, seal_into, opened, open_into,
  open_body, rsa_buffer_encrypt, rsa_buffer_decrypt,
}

-- One encryption of a text with a public key, and the decryption of its ciphertext with the
-- private key, call by call.
pub record Sealing {K S O : Type 0} (c : Cipher K S O) (pub_key priv_key plain : List ℕ)
    : Type 0 where
  pub pkey : K
  pub pkey_priv : K
  pub state : S
  pub ek : List ℕ
  pub iv : List ℕ
  pub body : List ℕ
  pub start : O
  pub middle : O
  pub front : List ℕ
  pub back : List ℕ
  pub decoded : c.pub_key_decode pub_key ≡ some pkey
  pub decoded_priv : c.priv_key_decode priv_key ≡ some pkey_priv
  pub seal_started : c.seal_init pkey ≡ some (state, ek, iv)
  pub seal_done : sealed c state (c.peek 0 (length plain) plain) ≡ (body, true)
  pub body_blocks : length body ≡ (length plain / 16 + 1) * 16
  pub ek_size : length ek ≡ c.key_size pkey_priv
  pub iv_size : length iv ≡ 16
  pub open_started : c.open_init pkey_priv ek iv ≡ some start
  pub open_updated : c.open_update start body ≡ some (middle, front)
  pub open_done : c.open_final middle ≡ some back
  pub same_text : front ++ back ≡ plain

pub ntohl-htonl : (n : ℕ) (xs : List ℕ) → n < 2 ^ 32 → ntohl (htonl n ++ xs) ≡ n
unfolding ntohl htonl
ntohl-htonl n xs h = omega arith

pub length-htonl : (n : ℕ) → length (htonl n) ≡ 4
unfolding htonl
length-htonl n = refl

-- The encrypted bytes.
abbrev pub envelope :
    {K S O : Type 0} {c : Cipher K S O} {pub_key priv_key plain : List ℕ}
    → Sealing c pub_key priv_key plain
    → List ℕ
envelope e = htonl (length e.body) ++ (e.body ++ (e.ek ++ e.iv))

module _ {K S O : Type 0} (c : Cipher K S O) (pub_key priv_key plain : List ℕ)
    (e : Sealing c pub_key priv_key plain) (short : length plain < 2 ^ 31) where
  pub encrypted_len-body : encrypted_len (length plain) ≡ length e.body
  unfolding encrypted_len
  encrypted_len-body = let blocks = e.body_blocks in omega (arith, blocks)

  pub body_bound : length e.body < 2 ^ 32
  body_bound = let blocks = e.body_blocks in omega (arith, blocks)

  pub rsa_buffer_encrypt-envelope :
      (enc : List ℕ)
      → rsa_buffer_encrypt c plain pub_key enc ≡ (
        rsa_none,
        enc ++ envelope e,
        some ((4 + swapped (length e.body) + length e.ek + 16) % 2 ^ 32),
      )
  unfolding rsa_buffer_encrypt seal_into
  rsa_buffer_encrypt-envelope enc =
      rw (rsa_buffer_encrypt, e.decoded, e.seal_started, e.seal_done, encrypted_len-body)
        (ap (λ l. (rsa_none, l, some ((4 + swapped (length e.body) + length e.ek + 16) % 2 ^ 32)))
          (append_assoc enc (htonl (length e.body)) (e.body ++ (e.ek ++ e.iv))))

  pub length-envelope : length (envelope e) ≡ 4 + length e.body + c.key_size e.pkey_priv + 16
  length-envelope =
      let outer = length-append (htonl (length e.body)) (e.body ++ (e.ek ++ e.iv)) in
      let inner = length-append e.body (e.ek ++ e.iv) in
      let keys = length-append e.ek e.iv in
      let four = length-htonl (length e.body) in
      let ek_size = e.ek_size in
      let iv_size = e.iv_size in omega (arith, outer, inner, keys, four, ek_size, iv_size)

  -- What is peeked at, cut to the ciphertext's length, is the ciphertext.
  opened-body :
      (rest : List ℕ) → opened c (length e.body) e.start ((e.body ++ rest) ∷ []) ≡ (plain, true)
  unfolding opened
  opened-body rest =
      rw
        (
          opened,
          take_same (min (length (e.body ++ rest)) (length e.body)) (length e.body) (e.body ++ rest)
              refl,
          take-append e.body rest (length e.body) refl,
          e.open_updated,
          e.open_done,
        )
        (ap (λ l. (l, true)) e.same_text)

  parts :
      (rest : List ℕ)
      → envelope e ++ rest ≡ htonl (length e.body) ++ (e.body ++ (e.ek ++ (e.iv ++ rest)))
  parts rest = simp append_assoc refl

  ek_lem :
      (rest : List ℕ)
      → take (c.key_size e.pkey_priv) (drop (4 + length e.body) (envelope e ++ rest)) ≡ e.ek
  ek_lem rest =
      let front = htonl (length e.body) ++ e.body in
      let four = length-htonl (length e.body) in
      let size : length front ≡ 4 + length e.body =
        omega (arith, length-append (htonl (length e.body)) e.body, four) in
      ap (λ l. take (c.key_size e.pkey_priv) (drop (4 + length e.body) l))
        (parts rest ∙ sym (append_assoc (htonl (length e.body)) e.body (e.ek ++ (e.iv ++ rest))))
      ∙ ap (take (c.key_size e.pkey_priv))
          (drop-append front (e.ek ++ (e.iv ++ rest)) (4 + length e.body) size)
      ∙ take-append e.ek (e.iv ++ rest) (c.key_size e.pkey_priv) e.ek_size

  iv_lem :
      (rest : List ℕ)
      → take 16 (drop (4 + length e.body + c.key_size e.pkey_priv) (envelope e ++ rest)) ≡ e.iv
  iv_lem rest =
      let front = (htonl (length e.body) ++ e.body) ++ e.ek in
      let four = length-htonl (length e.body) in
      let ek_size = e.ek_size in
      let size : length front ≡ 4 + length e.body + c.key_size e.pkey_priv = omega (
        arith,
        length-append (htonl (length e.body) ++ e.body) e.ek,
        length-append (htonl (length e.body)) e.body,
        four,
        ek_size,
      ) in
      let same : envelope e ++ rest ≡ front ++ (e.iv ++ rest) = simp append_assoc refl in
      ap (λ l. take 16 (drop (4 + length e.body + c.key_size e.pkey_priv) l)) same
      ∙ ap (take 16)
          (drop-append front (e.iv ++ rest) (4 + length e.body + c.key_size e.pkey_priv) size)
      ∙ take-append e.iv rest 16 e.iv_size

  pub total_length :
      (rest : List ℕ)
      → length (envelope e ++ rest) ≡ 4 + length e.body + c.key_size e.pkey_priv + 16 + length rest
  total_length rest = omega (arith, length-append (envelope e) rest, length-envelope)

  behind_length : (rest : List ℕ) → drop 4 (envelope e ++ rest) ≡ e.body ++ (e.ek ++ (e.iv ++ rest))
  behind_length rest =
      ap (drop 4) (parts rest)
      ∙ drop-append (htonl (length e.body)) (e.body ++ (e.ek ++ (e.iv ++ rest))) 4
          (length-htonl (length e.body))

  pub rsa_buffer_decrypt-envelope :
      (rest dest : List ℕ)
      → c.peek 4 (length e.body) (envelope e ++ rest) ≡ drop 4 (envelope e ++ rest) ∷ []
      → rsa_buffer_decrypt c (envelope e ++ rest) priv_key dest
        ≡ (rsa_none, dest ++ plain, some (length (envelope e) % 2 ^ 32))
  unfolding rsa_buffer_decrypt open_body open_into
  rsa_buffer_decrypt-envelope rest dest contiguous =
      let total = total_length rest in
      let size : (4 + c.key_size e.pkey_priv + 16 + length e.body) % 2 ^ 32
          ≡ length (envelope e) % 2 ^ 32 =
        ap (λ n. n % 2 ^ 32) (omega (arith, length-envelope)) in
      let header : ltb (length (envelope e ++ rest)) 4 ≡ false = ground (arith, total) in
      let whole : ltb (length (envelope e ++ rest))
            (4 + length e.body + c.key_size e.pkey_priv + 16)
          ≡ false =
        ground (arith, total) in
      let number : ntohl (envelope e ++ rest) ≡ length e.body =
        ap ntohl (append_assoc (htonl (length e.body)) (e.body ++ (e.ek ++ e.iv)) rest)
        ∙ ntohl-htonl (length e.body) ((e.body ++ (e.ek ++ e.iv)) ++ rest) body_bound in
      let text : opened c (length e.body) e.start (c.peek 4 (length e.body) (envelope e ++ rest))
          ≡ (plain, true) =
        ap (opened c (length e.body) e.start) (contiguous ∙ ap (λ l. l ∷ []) (behind_length rest))
        ∙ opened-body (e.ek ++ (e.iv ++ rest)) in
      rw
        (
          rsa_buffer_decrypt,
          e.decoded_priv,
          header,
          number,
          open_body,
          whole,
          ek_lem rest,
          iv_lem rest,
          e.open_started,
          number,
          text,
          size,
        )
        refl

  -- A text of less than 2 ^ 31 bytes that is encrypted for a public key is decrypted with the
  -- private key, whatever follows it, if the cipher's calls undo each other on it and the
  -- ciphertext lies in one extent of the buffer: the text is put behind what the buffer for it
  -- holds, and the length that is reported is that of the encrypted bytes.
  pub rsa_buffer_decrypt-encrypt :
      (rest dest : List ℕ)
      → c.peek 4 (length e.body) ((rsa_buffer_encrypt c plain pub_key []).1 ++ rest)
        ≡ drop 4 ((rsa_buffer_encrypt c plain pub_key []).1 ++ rest) ∷ []
      → ((rsa_buffer_encrypt c plain pub_key []).0 ≡ rsa_none)
        × (rsa_buffer_decrypt c ((rsa_buffer_encrypt c plain pub_key []).1 ++ rest) priv_key dest
            ≡ (
              rsa_none,
              dest ++ plain,
              some (length (rsa_buffer_encrypt c plain pub_key []).1 % 2 ^ 32),
            ))
  rsa_buffer_decrypt-encrypt rest dest =
      rw (rsa_buffer_encrypt-envelope [])
        (λ contiguous. (refl, rsa_buffer_decrypt-envelope rest dest contiguous))
