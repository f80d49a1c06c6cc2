-- ===== src/Message/Delivery/Mailbox.antt =====
-- A message that a client leaves in a mailbox is stored there as it was sent.
use deep_messenger.Prelude.{
  if_false, ℕ, true, false, ◌+◌, ◌*◌, ◌/◌, ◌^◌, ◌<◌, ◌≡◌, refl, sym, ap, ◌∙◌, none, some, List, [],
  ◌++◌, take, drop, length, drop-append, take-append,
}
use deep_messenger.ProtMain.{mailbox, Recv, Tran, Pmain, live, ◌>>=◌, Handlers}
use deep_messenger.ProtMain.Write.{prot_main_push_tran}
use deep_messenger.ProtMain.Codes.{ack_onion}
use deep_messenger.BufferCrypto.{Verified, valid, ed25519_buffer_sign}
use deep_messenger.BufferCrypto.Envelope.{Cipher}
use deep_messenger.BufferCrypto.Envelope.RoundTrip.{Sealing}
use deep_messenger.Ack.{Ack}
use deep_messenger.Ack.Exchange.{signed_length}
use deep_messenger.SetContacts.{Account, Contact}
use deep_messenger.Message.Objects.{DbMessage, DbContact, Db, Message, MbMessage, data_chunk}
use deep_messenger.Message.{is_client, message_fill, ack_sent}
use deep_messenger.Message.Delivery.{plain_of, content, message_fill_lem, parts, checked}
use deep_messenger.Message.Fields.{Parts}
use deep_messenger.Message.Handler.{mb_ack_send, new_mb_message, handle_mailbox, message_handle}

module _ {M W : Type 0} (db : Db W) (hs : Handlers M W) (wrap : Message → M)
    (ack_tran : Ack → Message → Tran M) (n : ℕ) (msg : Message) (phand : Recv M)
    (p : Pmain M W) where
  handle_mailbox_lem :
      (mb_id key gid bytes : List ℕ) (acc : Account) (contact : Contact)
      → take 16 (drop 18 p.input) ≡ mb_id
      → take 32 (drop 34 p.input) ≡ key
      → take 16 (drop 66 p.input) ≡ gid
      → take n p.input ≡ bytes
      → db.account_by_mbid p.world mb_id ≡ some acc
      → db.contact_by_acc_and_key p.world acc key ≡ some contact
      → db.message_by_acc_and_gid p.world acc gid ≡ none
      → handle_mailbox db hs wrap ack_tran n msg phand p
        ≡ mb_ack_send db hs wrap ack_tran n (new_mb_message acc contact gid bytes) msg phand p
  unfolding handle_mailbox
  handle_mailbox_lem mb_id key gid bytes acc contact at_mb at_key at_gid whole found known new =
      rw (handle_mailbox, at_mb, found, at_key, known, at_gid, new)
        (ap
            (λ g.
              mb_ack_send db hs wrap ack_tran n (new_mb_message acc contact g (take n p.input)) msg
                phand p)
            at_gid
          ∙ ap
              (λ b.
                mb_ack_send db hs wrap ack_tran n (new_mb_message acc contact gid b) msg phand p)
              whole)

-- The message that a mailbox keeps.
abbrev pub kept : Account → Contact → List ℕ → List ℕ → MbMessage
kept acc contact gid bytes = record {
  id = 0;
  account_id = acc.id;
  contact_id = contact.id;
  global_id = gid;
  data_bytes = bytes;
  data_n_chunks = (length bytes / data_chunk + 1) * data_chunk;
}

stored_lem :
    {M W : Type 0} (buffer : List ℕ) (db : Db W) (hs : Handlers M W) (wrap : Message → M)
    (ack_recv : Ack → Message → Recv M) (msg : Message) (q : Pmain M W) (stored : MbMessage)
    → msg.client_cont ≡ none
    → msg.client_msg ≡ none
    → q.mode ≡ mailbox
    → ack_sent buffer db hs wrap ack_recv true (record msg { mailbox_msg = some stored }) q
      ≡ record q { world = db.mb_message_save stored q.world }
unfolding ack_sent
stored_lem buffer db hs wrap ack_recv msg q stored no_cont no_msg later =
    rw (no_cont, no_msg, later) refl

module _ {K S O : Type 0} (sha512 : List ℕ → List ℕ) (sign : List ℕ → List ℕ → List ℕ)
    (verify : List ℕ → List ℕ → List ℕ → Verified)
    (sign-length : (key hash : List ℕ) → length (sign key hash) ≡ 64) (c : Cipher K S O)
    (cont : DbContact) (m : DbMessage) (priv_key : List ℕ)
    (e : Sealing c cont.remote_enc_key_pub priv_key (plain_of m))
    (short : length (plain_of m) < 2 ^ 31) (rsa_2048 : c.key_size e.pkey_priv ≡ 256)
    (txn_id : List ℕ)
    (sizes : Parts txn_id cont.mailbox_id cont.local_sig_key_pub m.global_id) where
  -- A message that a client sends, arriving first in the input of the mailbox whose account it
  -- names, is kept for that account byte for byte as the client sent it, if the account has a
  -- contact with the sender's signing key and the message is not stored yet: the acknowledgement is
  -- put into the queue with the message, the message is received, its length is taken off the input,
  -- and what stands behind it is the rest. When the acknowledgement is out, in any later state `q`
  -- of the mailbox's connection, exactly the message is saved.
  pub handle_mailbox-message_fill :
      {M W : Type 0} (sha3 : List ℕ → List ℕ) (buffer : List ℕ) (db : Db W) (hs : Handlers M W)
      (wrap : Message → M) (ack_tran : Ack → Message → Tran M) (ack_recv : Ack → Message → Recv M)
      (msg : Message) (t : Tran M) (phand : Recv M) (s p q : Pmain M W) (acc : Account)
      (contact : Contact) (rest : List ℕ)
      → ((hash : List ℕ)
          → verify cont.local_sig_key_pub (sign cont.local_sig_key_priv hash) hash ≡ valid)
      → t.buffer ≡ []
      → s.transaction_id ≡ txn_id
      → p.input ≡ (message_fill sha512 sign verify c cont m t s).buffer ++ rest
      → p.mode ≡ mailbox
      → msg.client_cont ≡ none
      → msg.client_msg ≡ none
      → q.mode ≡ mailbox
      → db.account_by_mbid p.world cont.mailbox_id ≡ some acc
      → db.contact_by_acc_and_key p.world acc cont.local_sig_key_pub ≡ some contact
      → db.message_by_acc_and_gid p.world acc m.global_id ≡ none
      → let sent = (message_fill sha512 sign verify c cont m t s).buffer in
        (message_handle sha512 sign verify sha3 buffer c db hs wrap ack_tran msg phand p ≡ (
          prot_main_push_tran hs p (
            ack_tran
              (record {
                ack_success = false;
                pub_key = [];
                priv_key = db.onion_private_key p.world;
                has_cb = true;
                msg_code = ack_onion;
              })
              (record msg { mailbox_msg = some (kept acc contact m.global_id sent) }))
          >>= λ p'. live (
            record phand {
              msg = wrap (record msg { mailbox_msg = some (kept acc contact m.global_id sent) });
              has_cleanup = false;
            },
            record p' { current_recv_done = true; input = drop (length sent) p'.input },
          )))
        × (drop (length sent) p.input ≡ rest)
        × (ack_sent buffer db hs wrap ack_recv true
              (record msg { mailbox_msg = some (kept acc contact m.global_id sent) })
              q
            ≡ record q { world = db.mb_message_save (kept acc contact m.global_id sent) q.world })
  unfolding mb_ack_send new_mb_message ack_sent
  handle_mailbox-message_fill sha3 buffer db hs wrap ack_tran ack_recv msg t phand s p q acc contact
        rest pair fresh id arrived mode no_cont no_msg later found known new =
      let sent = (message_fill sha512 sign verify c cont m t s).buffer in
      let filled =
        message_fill_lem sha512 sign verify sign-length c cont m priv_key e short rsa_2048 txn_id
          sizes t s fresh id in
      let whole : p.input
          ≡ ed25519_buffer_sign sha512 sign verify
              (content sha512 sign verify sign-length c cont m priv_key e short rsa_2048 txn_id
                sizes)
              cont.local_sig_key_priv
            ++ rest =
        arrived ∙ ap (λ b. b ++ rest) filled in
      let size : length (
              content sha512 sign verify sign-length c cont m priv_key e short rsa_2048 txn_id
                sizes)
            + 64
          ≡ length sent =
        sym (
          ap length filled
          ∙ signed_length sha512 sign verify sign-length
              (content sha512 sign verify sign-length c cont m priv_key e short rsa_2048 txn_id
                sizes)
              cont.local_sig_key_priv) in
      let (at_mb, at_key, at_gid, behind) =
        parts sha512 sign verify sign-length c cont m priv_key e short rsa_2048 txn_id sizes sha3
          buffer db hs wrap ack_tran msg phand p rest pair whole in
      (
        checked sha512 sign verify sign-length c cont m priv_key e short rsa_2048 txn_id sizes sha3
              buffer db hs wrap ack_tran msg phand p rest pair whole
            ∙ if_false _ _ _ (ap is_client mode)
            ∙ ap (λ n. handle_mailbox db hs wrap ack_tran n msg phand p) size
            ∙ handle_mailbox_lem db hs wrap ack_tran (length sent) msg phand p cont.mailbox_id
                cont.local_sig_key_pub m.global_id sent acc contact at_mb at_key at_gid
                (ap (take (length sent)) arrived ∙ take-append sent rest (length sent) refl) found
                known new,
        ap (drop (length sent)) arrived ∙ drop-append sent rest (length sent) refl,
        stored_lem buffer db hs wrap ack_recv msg q (kept acc contact m.global_id sent) no_cont
            no_msg later,
      )
