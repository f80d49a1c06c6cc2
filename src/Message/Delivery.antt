-- ===== src/Message/Delivery.antt =====
-- A message that a client sends passes the checks of the handler that gets it.
pub mod Client
pub mod Mailbox
use deep_messenger.Prelude.{
  if◌then◌else◌, if_false, ℕ, ◌+◌, ◌*◌, ◌%◌, ◌^◌, ◌<◌, ◌≡◌, refl, sym, ap, ◌∙◌, Bool, true, false,
  not, ◌||◌, Option, none, some, List, [], ◌∷◌, ◌++◌, ltb, take, drop, length, length-append,
  drop-append, arith,
}
use mathlib.Core.List.{append_assoc}
use deep_messenger.ProtMain.{client, mailbox, Recv, Tran, Pmain, Run, Handlers}
use deep_messenger.BufferCrypto.{Verified, valid, ed25519_buffer_sign, ed25519_buffer_validate}
use deep_messenger.BufferCrypto.Envelope.{
  Cipher, rsa_none, htonl, ntohl, rsa_buffer_encrypt, rsa_buffer_decrypt,
}
use deep_messenger.BufferCrypto.Envelope.RoundTrip.{
  Sealing, envelope, rsa_buffer_encrypt-envelope, rsa_buffer_decrypt-envelope, ntohl-htonl,
  length-envelope, body_bound,
}
use deep_messenger.Ack.{Ack}
use deep_messenger.Ack.Exchange.{validate-sign, sign_lem, total_length}
use deep_messenger.Message.Objects.{
  recv_confirmed, friend, DbMessage, DbContact, Db, Message, db_message_new,
}
use deep_messenger.Message.{is_client, message_body, message_fill, message_header}
use deep_messenger.Message.Fields.{Parts, front, front_length, read_front}
use deep_messenger.Message.Receive.{is_active, whole_length, read_body, finish_client}
use deep_messenger.Message.Handler.{
  mb_ack_send, new_mb_message, handle_mailbox, handle_client, handle_contact, handle_decrypted,
  message_handle, handle_plain,
}

-- What a sender encrypts.
abbrev pub plain_of : DbMessage → List ℕ
plain_of m = m.kind % 2 ^ 8 ∷ message_body m (m.kind % 2 ^ 8)

module _ {K S O : Type 0} (sha512 : List ℕ → List ℕ) (sign : List ℕ → List ℕ → List ℕ)
    (verify : List ℕ → List ℕ → List ℕ → Verified)
    (sign-length : (key hash : List ℕ) → length (sign key hash) ≡ 64) (c : Cipher K S O)
    (cont : DbContact) (m : DbMessage) (priv_key : List ℕ)
    (e : Sealing c cont.remote_enc_key_pub priv_key (plain_of m))
    (short : length (plain_of m) < 2 ^ 31) (rsa_2048 : c.key_size e.pkey_priv ≡ 256)
    (txn_id : List ℕ)
    (sizes : Parts txn_id cont.mailbox_id cont.local_sig_key_pub m.global_id) where
  abbrev pub F : List ℕ
  F = front txn_id cont.mailbox_id cont.local_sig_key_pub m.global_id

  abbrev pub content : List ℕ
  content = F ++ envelope e

  pub content-length : length content ≡ 82 + (4 + length e.body + 256 + 16)
  content-length =
      let front_size =
        front_length txn_id cont.mailbox_id cont.local_sig_key_pub m.global_id sizes in
      let both = length-append F (envelope e) in
      let envelope_size = length-envelope c cont.remote_enc_key_pub priv_key (plain_of m) e short in
      omega (arith, front_size, both, envelope_size, rsa_2048)

  pub message_fill_lem :
      {M W : Type 0} (t : Tran M) (s : Pmain M W)
      → t.buffer ≡ []
      → s.transaction_id ≡ txn_id
      → (message_fill sha512 sign verify c cont m t s).buffer
        ≡ ed25519_buffer_sign sha512 sign verify content cont.local_sig_key_priv
  unfolding message_fill message_header
  message_fill_lem t s fresh id =
      ap
        (λ b.
          ed25519_buffer_sign sha512 sign verify
            (rsa_buffer_encrypt c (plain_of m) cont.remote_enc_key_pub
              (b ++ message_header s.transaction_id cont m)).1
            cont.local_sig_key_priv)
        fresh
      ∙ ap
          (λ i.
            ed25519_buffer_sign sha512 sign verify
              (rsa_buffer_encrypt c (plain_of m) cont.remote_enc_key_pub
                (message_header i cont m)).1
              cont.local_sig_key_priv)
          id
      ∙ ap (λ r. ed25519_buffer_sign sha512 sign verify r.1 cont.local_sig_key_priv)
          (rsa_buffer_encrypt-envelope c cont.remote_enc_key_pub priv_key (plain_of m) e short F)

  pub data_len_lem :
      (input behind : List ℕ)
      → drop 82 input ≡ envelope e ++ behind
      → ntohl (drop 82 input) ≡ length e.body
  data_len_lem input behind e' =
      ap ntohl e'
      ∙ ap ntohl (append_assoc (htonl (length e.body)) (e.body ++ (e.ek ++ e.iv)) behind)
      ∙ ntohl-htonl (length e.body) ((e.body ++ (e.ek ++ e.iv)) ++ behind)
          (body_bound c cont.remote_enc_key_pub priv_key (plain_of m) e short)

  pub whole_length_lem : whole_length (length e.body) ≡ length content + 64
  unfolding whole_length
  whole_length_lem =
      let size = content-length in let blocks = e.body_blocks in omega (arith, size, blocks, short)

  abbrev pub signature : List ℕ
  signature = sign cont.local_sig_key_priv (sha512 content)

  -- The arrived input, in its parts.
  pub arrived_lem :
      (input rest : List ℕ)
      → input ≡ ed25519_buffer_sign sha512 sign verify content cont.local_sig_key_priv ++ rest
      → input ≡ F ++ (envelope e ++ (signature ++ rest))
  arrived_lem input rest whole =
      whole
      ∙ ap (λ l. l ++ rest)
          (sign_lem sha512 sign verify sign-length content cont.local_sig_key_priv)
      ∙ append_assoc content signature rest
      ∙ append_assoc F (envelope e) (signature ++ rest)

  pub genuine_lem :
      (input rest : List ℕ)
      → ((hash : List ℕ)
          → verify cont.local_sig_key_pub (sign cont.local_sig_key_priv hash) hash ≡ valid)
      → input ≡ ed25519_buffer_sign sha512 sign verify content cont.local_sig_key_priv ++ rest
      → ed25519_buffer_validate sha512 sign verify input
          (length content + 64)
          cont.local_sig_key_pub
        ≡ true
  genuine_lem input rest pair whole =
      ap
        (λ l.
          ed25519_buffer_validate sha512 sign verify l (length content + 64) cont.local_sig_key_pub)
        whole
      ∙ validate-sign sha512 sign verify sign-length cont.local_sig_key_pub cont.local_sig_key_priv
          content rest pair

  -- The body is decrypted to what the sender wrote.
  pub text_lem :
      (input behind : List ℕ)
      → drop 82 input ≡ envelope e ++ behind
      → c.peek 4 (length e.body) (drop 82 input) ≡ drop 4 (drop 82 input) ∷ []
      → rsa_buffer_decrypt c (drop 82 input) priv_key []
        ≡ (rsa_none, plain_of m, some (length (envelope e) % 2 ^ 32))
  text_lem input behind part contiguous =
      ap (λ l. rsa_buffer_decrypt c l priv_key []) part
      ∙ rsa_buffer_decrypt-envelope c cont.remote_enc_key_pub priv_key (plain_of m) e short behind
          [] (ap (c.peek 4 (length e.body)) (sym part) ∙ contiguous ∙ ap (λ l. drop 4 l ∷ []) part)

  -- The receiving client takes the encrypted body and the signature off its input at the end.
  pub taken :
      (rest : List ℕ) → drop (length e.body + 340) (envelope e ++ (signature ++ rest)) ≡ rest
  taken rest =
      let size = length-envelope c cont.remote_enc_key_pub priv_key (plain_of m) e short in
      let both = length-append (envelope e) signature in
      let sixty_four = sign-length cont.local_sig_key_priv (sha512 content) in
      ap (drop (length e.body + 340)) (sym (append_assoc (envelope e) signature rest))
      ∙ drop-append (envelope e ++ signature) rest (length e.body + 340)
          (omega (arith, size, both, sixty_four, rsa_2048))

  module _ {M W : Type 0} (sha3 : List ℕ → List ℕ) (buffer : List ℕ) (db : Db W) (hs : Handlers M W)
      (wrap : Message → M) (ack_tran : Ack → Message → Tran M) (msg : Message) (phand : Recv M)
      (p : Pmain M W) (rest : List ℕ)
      (pair : (hash : List ℕ)
        → verify cont.local_sig_key_pub (sign cont.local_sig_key_priv hash) hash ≡ valid)
      (whole : p.input
        ≡ ed25519_buffer_sign sha512 sign verify content cont.local_sig_key_priv ++ rest) where
    pub parts :
        (take 16 (drop 18 p.input) ≡ cont.mailbox_id)
        × (take 32 (drop 34 p.input) ≡ cont.local_sig_key_pub)
        × (take 16 (drop 66 p.input) ≡ m.global_id)
        × (drop 82 p.input ≡ envelope e ++ (signature ++ rest))
    parts =
        read_front txn_id cont.mailbox_id cont.local_sig_key_pub m.global_id sizes p.input
          (envelope e ++ (signature ++ rest)) (arrived_lem p.input rest whole)

    -- A message that has arrived passes the checks before the modes part.
    checked : message_handle sha512 sign verify sha3 buffer c db hs wrap ack_tran msg phand p ≡ (
        if is_client p.mode
        then handle_client sha3 buffer c db hs wrap ack_tran (length e.body) msg phand p
        else handle_mailbox db hs wrap ack_tran (length content + 64) msg phand p)
    unfolding message_handle
    checked =
        let total =
          total_length sha512 sign verify sign-length p.input content cont.local_sig_key_priv rest
            whole in
        let size = content-length in
        let header : ltb (length p.input) 86 ≡ false = ground (arith, total, size) in
        let all_in : ltb (length p.input) (length content + 64) ≡ false = ground (arith, total) in
        rw
          (
            message_handle,
            data_len_lem p.input (signature ++ rest) parts.3,
            whole_length_lem,
            header,
            all_in,
            parts.1,
            genuine_lem p.input rest pair whole,
          )
          refl
