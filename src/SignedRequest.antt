-- ===== src/SignedRequest.antt =====
-- A request of a header, a transaction's identifier, and an identifier or a key of its sender,
-- signed, as the handlers read it.
use deep_messenger.Prelude.{
  ℕ, ◌+◌, ◌≡◌, sym, ap, ◌∙◌, true, false, List, [], ◌∷◌, ◌++◌, ltb, ge→ltb, take, drop, length,
  length-append, drop-append, take-drop, arith,
}
use mathlib.Core.List.{append_assoc}
use deep_messenger.BufferCrypto.{Verified, valid, ed25519_buffer_sign, ed25519_buffer_validate}
use deep_messenger.Ack.Exchange.{validate-sign, sign_lem, total_length}
use deep_messenger.Fetch.{request}

module _ (sha512 : List ℕ → List ℕ) (sign : List ℕ → List ℕ → List ℕ)
    (verify : List ℕ → List ℕ → List ℕ → Verified)
    (sign-length : (key hash : List ℕ) → length (sign key hash) ≡ 64) (code k n : ℕ)
    (txn_id id priv_key input rest : List ℕ) (id16 : length txn_id ≡ 16) (size : length id ≡ k)
    (whole : n ≡ 82 + k)
    (arrived : input
      ≡ ed25519_buffer_sign sha512 sign verify (request code txn_id id) priv_key ++ rest) where
  length-request : length (request code txn_id id) + 64 ≡ n
  unfolding request
  length-request = let both = length-append txn_id id in omega (arith, both, id16, size, whole)

  request_arrived : ltb (length input) n ≡ false
  request_arrived =
      let total =
        total_length sha512 sign verify sign-length input (request code txn_id id) priv_key rest
          arrived in
      let part = length-request in ge→ltb _ _ (omega (arith, total, part))

  request_id : take k (drop 18 input) ≡ id
  unfolding request
  request_id =
      let sig = sign priv_key (sha512 (request code txn_id id)) in
      ap (λ l. take k (drop 18 l))
        (arrived
          ∙ ap (λ l. l ++ rest)
              (sign_lem sha512 sign verify sign-length (request code txn_id id) priv_key)
          ∙ ap (λ l. 1 ∷ code ∷ l) (append_assoc (txn_id ++ id) sig rest)
          ∙ ap (λ l. 1 ∷ code ∷ l) (append_assoc txn_id id (sig ++ rest)))
      ∙ take-drop txn_id id (sig ++ rest) 16 k id16 size

  request_genuine :
      (pub_key : List ℕ)
      → ((hash : List ℕ) → verify pub_key (sign priv_key hash) hash ≡ valid)
      → ed25519_buffer_validate sha512 sign verify input n pub_key ≡ true
  request_genuine pub_key pair =
      ap (λ l. ed25519_buffer_validate sha512 sign verify l n pub_key) arrived
      ∙ ap
          (λ m.
            ed25519_buffer_validate sha512 sign verify
              (ed25519_buffer_sign sha512 sign verify (request code txn_id id) priv_key ++ rest) m
              pub_key)
          (sym length-request)
      ∙ validate-sign sha512 sign verify sign-length pub_key priv_key (request code txn_id id) rest
          pair

  request_taken : drop n input ≡ rest
  request_taken =
      let signed = ed25519_buffer_sign sha512 sign verify (request code txn_id id) priv_key in
      let one =
        length-append (request code txn_id id) (sign priv_key (sha512 (request code txn_id id))) in
      let sixty_four = sign-length priv_key (sha512 (request code txn_id id)) in
      let part = length-request in
      ap (drop n) (
        arrived
        ∙ ap (λ l. l ++ rest)
            (sign_lem sha512 sign verify sign-length (request code txn_id id) priv_key))
      ∙ drop-append (request code txn_id id ++ sign priv_key (sha512 (request code txn_id id))) rest
          n (omega (arith, one, sixty_four, part))

module _ (sha512 : List ℕ → List ℕ) (sign : List ℕ → List ℕ → List ℕ)
    (verify : List ℕ → List ℕ → List ℕ → Verified)
    (sign-length : (key hash : List ℕ) → length (sign key hash) ≡ 64) where
  -- A request that was set up in an empty buffer has arrived, names its sender, is genuine, and is
  -- followed by `rest`.
  pub request_read :
      (code k n : ℕ) (buffer txn_id id priv_key pub_key input rest : List ℕ)
      → length txn_id ≡ 16
      → length id ≡ k
      → n ≡ 82 + k
      → buffer ≡ []
      → ((hash : List ℕ) → verify pub_key (sign priv_key hash) hash ≡ valid)
      → input
        ≡ ed25519_buffer_sign sha512 sign verify (buffer ++ request code txn_id id) priv_key ++ rest
      → (ltb (length input) n ≡ false)
        × (take k (drop 18 input) ≡ id)
        × (ed25519_buffer_validate sha512 sign verify input n pub_key ≡ true)
        × (drop n input ≡ rest)
  request_read code k n buffer txn_id id priv_key pub_key input rest id16 size whole fresh pair
        arrived =
      let arrived' : input
          ≡ ed25519_buffer_sign sha512 sign verify (request code txn_id id) priv_key ++ rest =
        arrived
        ∙ ap
            (λ b.
              ed25519_buffer_sign sha512 sign verify (b ++ request code txn_id id) priv_key ++ rest)
            fresh in
      (
        request_arrived sha512 sign verify sign-length code k n txn_id id priv_key input rest id16
            size whole arrived',
        request_id sha512 sign verify sign-length code k n txn_id id priv_key input rest id16 size
            whole arrived',
        request_genuine sha512 sign verify sign-length code k n txn_id id priv_key input rest id16
            size whole arrived' pub_key pair,
        request_taken sha512 sign verify sign-length code k n txn_id id priv_key input rest id16
            size whole arrived',
      )
