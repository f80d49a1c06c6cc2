-- ===== src/Message/Delivery/Client.antt =====
-- A message that a client sends is what the receiving client takes it for.
use deep_messenger.Prelude.{
  if_false, ℕ, ◌+◌, ◌%◌, ◌^◌, ◌<◌, ◌≡◌, refl, ap, ◌∙◌, true, false, not, ◌||◌, none, some, List, [],
  ◌∷◌, ◌++◌, take, drop, length, if_true,
}
use deep_messenger.ProtMain.{client, Recv, Tran, Pmain, Handlers}
use deep_messenger.BufferCrypto.{Verified, valid, ed25519_buffer_sign}
use deep_messenger.BufferCrypto.Envelope.{Cipher, rsa_buffer_decrypt}
use deep_messenger.BufferCrypto.Envelope.RoundTrip.{Sealing}
use deep_messenger.Ack.{Ack}
use deep_messenger.Message.Objects.{
  recv_confirmed, friend, DbMessage, DbContact, Db, Message, db_message_new,
}
use deep_messenger.Message.{is_client, message_body, message_fill}
use deep_messenger.Message.Delivery.{
  plain_of, content, signature, message_fill_lem, parts, checked, taken, text_lem,
}
use deep_messenger.Message.Fields.{Parts}
use deep_messenger.Message.Receive.{is_active, read_body, finish_client}
use deep_messenger.Message.Handler.{
  handle_client, handle_contact, handle_decrypted, message_handle, handle_plain,
}

-- The message object that the receiver makes of it, before the body is read.
unfoldable pub received : DbMessage → DbContact → DbMessage
received m known = record db_message_new {
  contact_id = known.id;
  sender = friend;
  global_id = m.global_id;
  kind = m.kind % 2 ^ 8;
  status = recv_confirmed;
}

module _ {K S O M W : Type 0} (sha3 : List ℕ → List ℕ) (buffer : List ℕ) (c : Cipher K S O)
    (db : Db W) (hs : Handlers M W) (wrap : Message → M) (ack_tran : Ack → Message → Tran M) (n : ℕ)
    (msg : Message) (known : DbContact) (phand : Recv M) (p : Pmain M W) where
  handle_client_lem :
      db.contact_by_rsk_pub p.world (take 32 (drop 34 p.input)) ≡ some known
      → is_active known.status ≡ true
      → known.deleted ≡ false
      → handle_client sha3 buffer c db hs wrap ack_tran n msg phand p
        ≡ handle_contact sha3 buffer c db hs wrap ack_tran n
            (take 16 (drop 66 p.input))
            msg
            known
            phand
            (record p { input = drop 82 p.input })
  unfolding handle_client
  handle_client_lem found active_lem deleted_lem =
      let admitted : (not (is_active known.status) || known.deleted) ≡ false =
        ap (λ b. not b || known.deleted) active_lem ∙ deleted_lem in
      rw (handle_client, found) (if_false _ _ _ admitted)

  handle_contact_lem :
      (gid : List ℕ)
      → db.message_by_gid p.world gid ≡ none
      → handle_contact sha3 buffer c db hs wrap ack_tran n gid msg known phand p
        ≡ handle_decrypted sha3 buffer c db hs wrap ack_tran n msg
            (record db_message_new { contact_id = known.id; sender = friend; global_id = gid })
            known
            phand
            p
            (rsa_buffer_decrypt c p.input known.local_enc_key_priv [])
  unfolding handle_contact
  handle_contact_lem gid fresh = rw (handle_contact, fresh) refl

module _ {K S O : Type 0} (sha512 : List ℕ → List ℕ) (sign : List ℕ → List ℕ → List ℕ)
    (verify : List ℕ → List ℕ → List ℕ → Verified)
    (sign-length : (key hash : List ℕ) → length (sign key hash) ≡ 64) (c : Cipher K S O)
    (cont : DbContact) (m : DbMessage) (priv_key : List ℕ)
    (e : Sealing c cont.remote_enc_key_pub priv_key (plain_of m))
    (short : length (plain_of m) < 2 ^ 31) (rsa_2048 : c.key_size e.pkey_priv ≡ 256)
    (txn_id : List ℕ)
    (sizes : Parts txn_id cont.mailbox_id cont.local_sig_key_pub m.global_id) where
  module _ {M W : Type 0} (sha3 : List ℕ → List ℕ) (buffer : List ℕ) (db : Db W) (hs : Handlers M W)
      (wrap : Message → M) (ack_tran : Ack → Message → Tran M) (msg : Message) (phand : Recv M)
      (p : Pmain M W) (rest : List ℕ)
      (pair : (hash : List ℕ)
        → verify cont.local_sig_key_pub (sign cont.local_sig_key_priv hash) hash ≡ valid)
      (whole : p.input
        ≡ ed25519_buffer_sign sha512 sign verify
            (content sha512 sign verify sign-length c cont m priv_key e short rsa_2048 txn_id sizes)
            cont.local_sig_key_priv
          ++ rest) where
    -- The client's handler, behind the checks: the body is decrypted to what the sender wrote.
    decrypted :
        (known : DbContact)
        → known.local_enc_key_priv ≡ priv_key
        → is_active known.status ≡ true
        → known.deleted ≡ false
        → db.contact_by_rsk_pub p.world cont.local_sig_key_pub ≡ some known
        → db.message_by_gid p.world m.global_id ≡ none
        → c.peek 4 (length e.body) (drop 82 p.input) ≡ drop 4 (drop 82 p.input) ∷ []
        → handle_client sha3 buffer c db hs wrap ack_tran (length e.body) msg phand p
          ≡ finish_client hs wrap ack_tran
              (length e.body)
              msg
              phand
              (record p { input = drop 82 p.input })
              (read_body sha3 buffer db p.world
                (m.kind % 2 ^ 8)
                (message_body m (m.kind % 2 ^ 8))
                (received m known)
                known)
    unfolding handle_decrypted handle_plain received
    decrypted known key active_lem deleted_lem found fresh contiguous =
        let p' = record p { input = drop 82 p.input } in
        handle_client_lem sha3 buffer c db hs wrap ack_tran (length e.body) msg known phand p
          (ap (db.contact_by_rsk_pub p.world)
              (parts sha512 sign verify sign-length c cont m priv_key e short rsa_2048 txn_id sizes
                sha3 buffer db hs wrap ack_tran msg phand p rest pair whole).1
            ∙ found)
          active_lem deleted_lem
        ∙ ap
            (λ gid.
              handle_contact sha3 buffer c db hs wrap ack_tran (length e.body) gid msg known phand
                p')
            (parts sha512 sign verify sign-length c cont m priv_key e short rsa_2048 txn_id sizes
              sha3 buffer db hs wrap ack_tran msg phand p rest pair whole).2
        ∙ handle_contact_lem sha3 buffer c db hs wrap ack_tran (length e.body) msg known phand p'
            m.global_id fresh
        ∙ ap
            (handle_decrypted sha3 buffer c db hs wrap ack_tran (length e.body) msg
              (record db_message_new {
                contact_id = known.id;
                sender = friend;
                global_id = m.global_id;
              })
              known phand p')
            (ap (λ k. rsa_buffer_decrypt c (drop 82 p.input) k []) key
              ∙ text_lem sha512 sign verify sign-length c cont m priv_key e short rsa_2048 txn_id
                  sizes p.input
                  (signature sha512 sign verify sign-length c cont m priv_key e short rsa_2048
                      txn_id sizes
                    ++ rest)
                  (parts sha512 sign verify sign-length c cont m priv_key e short rsa_2048 txn_id
                    sizes sha3 buffer db hs wrap ack_tran msg phand p rest pair whole).3
                  contiguous)

  -- A message that a client sends, arriving first in the input of the contact that it is encrypted
  -- for, is handled as the type and the body that the sender wrote, under its own identifier, if it
  -- is not known yet: the receiver has the sender's signing key as that of an active contact, the
  -- private key belongs to the key that it is encrypted for, the ciphertext lies in one extent, and
  -- keys and identifiers have their sizes. What follows the message is left of the input.
  pub message_handle-message_fill :
      {M W : Type 0} (sha3 : List ℕ → List ℕ) (buffer : List ℕ) (db : Db W) (hs : Handlers M W)
      (wrap : Message → M) (ack_tran : Ack → Message → Tran M) (msg : Message) (t : Tran M)
      (phand : Recv M) (s p : Pmain M W) (known : DbContact) (rest : List ℕ)
      → ((hash : List ℕ)
          → verify cont.local_sig_key_pub (sign cont.local_sig_key_priv hash) hash ≡ valid)
      → t.buffer ≡ []
      → s.transaction_id ≡ txn_id
      → p.input ≡ (message_fill sha512 sign verify c cont m t s).buffer ++ rest
      → p.mode ≡ client
      → known.local_enc_key_priv ≡ priv_key
      → is_active known.status ≡ true
      → known.deleted ≡ false
      → db.contact_by_rsk_pub p.world cont.local_sig_key_pub ≡ some known
      → db.message_by_gid p.world m.global_id ≡ none
      → c.peek 4 (length e.body) (drop 82 p.input) ≡ drop 4 (drop 82 p.input) ∷ []
      → (message_handle sha512 sign verify sha3 buffer c db hs wrap ack_tran msg phand p
          ≡ finish_client hs wrap ack_tran
              (length e.body)
              msg
              phand
              (record p { input = drop 82 p.input })
              (read_body sha3 buffer db p.world
                (m.kind % 2 ^ 8)
                (message_body m (m.kind % 2 ^ 8))
                (received m known)
                known))
        × (drop (length e.body + 340) (drop 82 p.input) ≡ rest)
  message_handle-message_fill sha3 buffer db hs wrap ack_tran msg t phand s p known rest pair fresh
        id arrived mode key active_lem deleted_lem found new contiguous =
      let whole : p.input
          ≡ ed25519_buffer_sign sha512 sign verify
              (content sha512 sign verify sign-length c cont m priv_key e short rsa_2048 txn_id
                sizes)
              cont.local_sig_key_priv
            ++ rest =
        arrived
        ∙ ap (λ b. b ++ rest)
            (message_fill_lem sha512 sign verify sign-length c cont m priv_key e short rsa_2048
              txn_id sizes t s fresh id) in
      (
        checked sha512 sign verify sign-length c cont m priv_key e short rsa_2048 txn_id sizes sha3
              buffer db hs wrap ack_tran msg phand p rest pair whole
            ∙ if_true _ _ _ (ap is_client mode)
            ∙ decrypted sha3 buffer db hs wrap ack_tran msg phand p rest pair whole known key
                active_lem deleted_lem found new contiguous,
        ap (drop (length e.body + 340)) (
              (parts sha512 sign verify sign-length c cont m priv_key e short rsa_2048 txn_id sizes
                sha3 buffer db hs wrap ack_tran msg phand p rest pair whole).3)
            ∙ taken sha512 sign verify sign-length c cont m priv_key e short rsa_2048 txn_id sizes
                rest,
      )
