-- ===== src/Message/Handler.antt =====
-- prot_message.c: `recv_handle`, by the connection's mode. `options_key` is the mailbox's onion key.
use deep_messenger.Prelude.{
  ℕ, true, false, not, ◌||◌, Option, none, some, List, [], ◌∷◌, ltb, take, drop, length,
  if◌then◌else◌,
}
use deep_messenger.ProtMain.{err_invalid_msg, Recv, Tran, Pmain, Run, live, fault, ◌>>=◌, Handlers}
use deep_messenger.ProtMain.Codes.{ack_onion}
use deep_messenger.ProtMain.Write.{prot_main_push_tran, prot_main_set_error}
use deep_messenger.BufferCrypto.{Verified, ed25519_buffer_validate}
use deep_messenger.BufferCrypto.Envelope.{Cipher, RsaError, rsa_none, ntohl, rsa_buffer_decrypt}
use deep_messenger.Ack.{Ack}
use deep_messenger.SetContacts.{Account, Contact}
use deep_messenger.Message.{message_ack, is_client}
use deep_messenger.Message.Objects.{
  recv_confirmed, friend, DbMessage, DbContact, MbMessage, Db, Message, db_message_new,
  db_mb_message_new, db_mb_message_set_data,
}
use deep_messenger.Message.Receive.{
  is_active, whole_length, read_body, refuse_client, cl_ack_send, finish_client,
}

-- A new message of an account's contact: all of it is stored as it came.
unfoldable pub new_mb_message : Account → Contact → List ℕ → List ℕ → MbMessage
unfolding db_mb_message_set_data db_mb_message_new
new_mb_message acc contact gid bytes =
    db_mb_message_set_data bytes
      (record db_mb_message_new { account_id = acc.id; contact_id = contact.id; global_id = gid })

module _ {M W : Type 0} (db : Db W) (hs : Handlers M W) (wrap : Message → M)
    (ack_tran : Ack → Message → Tran M) where
  -- `mb_err`, and the mailbox's acknowledgement.
  unfoldable pub mb_ack_send :
      ℕ → MbMessage → Message → Recv M → Pmain M W → Run (Pmain M W) (Recv M × Pmain M W)
  unfolding prot_main_push_tran
  mb_ack_send message_len m msg phand p = do
    let msg' = record msg { mailbox_msg = some m }
    p' ←
        prot_main_push_tran hs p
          (ack_tran (message_ack ack_onion [] (db.onion_private_key p.world)) msg')
    live (
      record phand { msg = wrap msg'; has_cleanup = false },
      record p' { current_recv_done = true; input = drop message_len p'.input },
    )

  abbrev pub refuse_mailbox : ℕ → Recv M → Pmain M W → Run (Pmain M W) (Recv M × Pmain M W)
  unfolding prot_main_set_error
  refuse_mailbox message_len phand p =
      live
        (phand, record (prot_main_set_error p err_invalid_msg) { input = drop message_len p.input })

  unfoldable pub handle_mailbox :
      ℕ → Message → Recv M → Pmain M W → Run (Pmain M W) (Recv M × Pmain M W)
  unfolding mb_ack_send new_mb_message
  handle_mailbox message_len msg phand p =
      let gid = take 16 (drop 66 p.input) in
      elim (db.account_by_mbid p.world (take 16 (drop 18 p.input))) [
        | none ↦ refuse_mailbox message_len phand p
        | some acc ↦ elim (db.contact_by_acc_and_key p.world acc (take 32 (drop 34 p.input))) [
          | none ↦ refuse_mailbox message_len phand p
          | some contact ↦ elim (db.message_by_acc_and_gid p.world acc gid) [
            | some m ↦ mb_ack_send message_len m msg phand p
            | none ↦
                mb_ack_send message_len (new_mb_message acc contact gid (take message_len p.input))
                  msg phand p
          ]
        ]
      ]

module _ {K S O M W : Type 0} (sha3 : List ℕ → List ℕ) (buffer : List ℕ) (c : Cipher K S O)
    (db : Db W) (hs : Handlers M W) (wrap : Message → M) (ack_tran : Ack → Message → Tran M) where
  -- Of a decrypted body with no type the type is not set.
  unfoldable pub handle_plain :
      ℕ
      → Message
      → DbMessage
      → DbContact
      → Recv M
      → Pmain M W
      → List ℕ
      → Run (Pmain M W) (Recv M × Pmain M W)
  unfolding finish_client read_body
  handle_plain data_len msg m cont phand p [] = fault
  handle_plain data_len msg m cont phand p (ctype ∷ bytes) =
      finish_client hs wrap ack_tran data_len msg phand p (
        read_body sha3 buffer db p.world ctype bytes
          (record m { kind = ctype; status = recv_confirmed }) cont)

  unfoldable pub handle_decrypted :
      ℕ
      → Message
      → DbMessage
      → DbContact
      → Recv M
      → Pmain M W
      → RsaError × List ℕ × Option ℕ
      → Run (Pmain M W) (Recv M × Pmain M W)
  unfolding handle_plain
  handle_decrypted data_len msg m cont phand p (rsa_none, plain, enc_len) =
      handle_plain data_len msg m cont phand p plain
  handle_decrypted data_len msg m cont phand p (_, plain, enc_len) =
      refuse_client hs wrap ack_tran data_len
        (record msg { client_msg = some m; client_cont = some cont }) phand p

  -- A message that is known already is only acknowledged. `p` is the connection with the header
  -- taken off its input.
  unfoldable pub handle_contact :
      ℕ → List ℕ → Message → DbContact → Recv M → Pmain M W → Run (Pmain M W) (Recv M × Pmain M W)
  unfolding handle_decrypted cl_ack_send rsa_buffer_decrypt db_message_new
  handle_contact data_len gid msg cont phand p = elim (db.message_by_gid p.world gid) [
    | some m ↦
        cl_ack_send hs wrap ack_tran data_len cont
          (record msg { client_msg = some m; client_cont = some cont }) phand p
    | none ↦
        handle_decrypted data_len msg
          (record db_message_new { contact_id = cont.id; sender = friend; global_id = gid }) cont
          phand p (rsa_buffer_decrypt c p.input cont.local_enc_key_priv [])
  ]

  unfoldable pub handle_client :
      ℕ → Message → Recv M → Pmain M W → Run (Pmain M W) (Recv M × Pmain M W)
  unfolding handle_contact
  handle_client data_len msg phand p =
      let gid = take 16 (drop 66 p.input) in
      let p' = record p { input = drop 82 p.input } in
      elim (db.contact_by_rsk_pub p.world (take 32 (drop 34 p.input))) [
        | none ↦
            refuse_client hs wrap ack_tran data_len (record msg { client_cont = none }) phand p'
        | some cont ↦
            if not (is_active cont.status) || cont.deleted
            then refuse_client hs wrap ack_tran data_len (record msg { client_cont = some cont })
                phand p'
            else handle_contact data_len gid msg cont phand p'
      ]

module _ {K S O M W : Type 0} (sha512 : List ℕ → List ℕ) (sign : List ℕ → List ℕ → List ℕ)
    (verify : List ℕ → List ℕ → List ℕ → Verified) (sha3 : List ℕ → List ℕ) (buffer : List ℕ)
    (c : Cipher K S O) (db : Db W) (hs : Handlers M W) (wrap : Message → M)
    (ack_tran : Ack → Message → Tran M) where
  unfoldable pub message_handle :
      Message → Recv M → Pmain M W → Run (Pmain M W) (Recv M × Pmain M W)
  unfolding handle_client handle_mailbox whole_length ntohl ed25519_buffer_validate
  message_handle msg phand p =
      let data_len = ntohl (drop 82 p.input) in
      let message_len = whole_length data_len in
      if ltb (length p.input) 86
      then live (phand, p)
      else if ltb (length p.input) message_len
      then live (phand, p)
      else if not (
          ed25519_buffer_validate sha512 sign verify p.input message_len
            (take 32 (drop 34 p.input)))
      then live (phand, prot_main_set_error p err_invalid_msg)
      else if is_client p.mode
      then handle_client sha3 buffer c db hs wrap ack_tran data_len msg phand p
      else handle_mailbox db hs wrap ack_tran message_len msg phand p
