-- ===== src/MessageList/Relay.antt =====
-- A message that was sent alone, to a mailbox, is read from the list that the mailbox sends.
use deep_messenger.Prelude.{ℕ, ◌%◌, ◌^◌, ◌<◌, ◌≡◌, sym, ap, ◌∙◌, List, [], ◌∷◌, ◌++◌, length, arith}
use deep_messenger.ProtMain.{Tran, Pmain}
use deep_messenger.BufferCrypto.{Verified, ed25519_buffer_sign}
use deep_messenger.BufferCrypto.Envelope.{Cipher, rsa_buffer_encrypt}
use deep_messenger.BufferCrypto.Envelope.RoundTrip.{Sealing}
use deep_messenger.Message.{message_body, message_header, message_fill}
use deep_messenger.Message.Objects.{friend, DbMessage, DbContact, db_message_new}
use deep_messenger.Message.Fields.{Parts}
use deep_messenger.Message.Delivery.{plain_of, content}
use deep_messenger.MessageList.{From, list_item}
use deep_messenger.MessageList.Items.{status_from}

-- A message in a list is, byte for byte, what the same client sends when it sends the message alone
-- in the same transaction, for the types of one byte.
pub list_item-message_fill :
    {K S O M W : Type 0} (sha512 : List ℕ → List ℕ) (sign : List ℕ → List ℕ → List ℕ)
    (verify : List ℕ → List ℕ → List ℕ → Verified) (c : Cipher K S O) (cont : DbContact)
    (m : DbMessage) (t : Tran M) (s : Pmain M W)
    → t.buffer ≡ []
    → m.kind < 256
    → list_item sha512 sign verify c s.transaction_id cont m
      ≡ (message_fill sha512 sign verify c cont m t s).buffer
unfolding list_item message_fill
list_item-message_fill sha512 sign verify c cont m t s fresh byte =
    let same : m.kind % 2 ^ 8 ≡ m.kind = omega arith in
    ap
      (λ k.
        ed25519_buffer_sign sha512 sign verify
          (rsa_buffer_encrypt c (m.kind % 2 ^ 8 ∷ message_body m k) cont.remote_enc_key_pub
            (message_header s.transaction_id cont m)).1
          cont.local_sig_key_priv)
      (sym same)
    ∙ ap
        (λ b.
          ed25519_buffer_sign sha512 sign verify
            (rsa_buffer_encrypt c (plain_of m) cont.remote_enc_key_pub
              (b ++ message_header s.transaction_id cont m)).1
            cont.local_sig_key_priv)
        (sym fresh)

-- The message object that the receiver makes of it, before the body is read.
unfoldable pub listed : DbMessage → DbContact → From → DbMessage
listed m known from = record db_message_new {
  kind = m.kind % 2 ^ 8;
  sender = friend;
  contact_id = known.id;
  global_id = m.global_id;
  status = status_from from;
}

module _ {K S O : Type 0} (sha512 : List ℕ → List ℕ) (sign : List ℕ → List ℕ → List ℕ)
    (verify : List ℕ → List ℕ → List ℕ → Verified)
    (sign-length : (key hash : List ℕ) → length (sign key hash) ≡ 64) (c : Cipher K S O)
    (cont : DbContact) (m : DbMessage) (priv_key : List ℕ)
    (e : Sealing c cont.remote_enc_key_pub priv_key (plain_of m))
    (short : length (plain_of m) < 2 ^ 31) (rsa_2048 : c.key_size e.pkey_priv ≡ 256)
    (txn_id : List ℕ)
    (sizes : Parts txn_id cont.mailbox_id cont.local_sig_key_pub m.global_id) where
  abbrev sent : List ℕ
  sent =
      ed25519_buffer_sign sha512 sign verify
        (content sha512 sign verify sign-length c cont m priv_key e short rsa_2048 txn_id sizes)
        cont.local_sig_key_priv
