-- ===== src/Message.antt =====
-- prot_message.c: the message that a client sends to another client, or leaves in that client's
-- mailbox: sending it, and the acknowledgements in both directions. `hs` stands for the callbacks of
-- all messages of the connection; `ack_tran` and `ack_recv` make handlers of an acknowledgement
-- whose callback gets the message. `buffer` is what an uninitialised buffer holds.
pub mod Objects
pub mod Receive
pub mod Fields
pub mod Delivery
pub mod Fits
pub mod Handler
use deep_messenger.Prelude.{
  ℕ, ◌+◌, ◌%◌, ◌^◌, Bool, true, false, Option, none, some, List, [], ◌∷◌, ◌++◌, ◌==◌, if◌then◌else◌,
  take,
}
use deep_messenger.ProtMain.{Mode, client, mailbox, Recv, Tran, Pmain, Run, live, fault, Handlers}
use deep_messenger.ProtMain.Codes.{prot_header, message_container, ack_onion, ack_signature}
use deep_messenger.ProtMain.Write.{call_hooks, prot_main_push_recv}
use deep_messenger.BufferCrypto.{Verified, ed25519_buffer_sign}
use deep_messenger.BufferCrypto.Envelope.{Cipher, rsa_buffer_encrypt}
use deep_messenger.Onion.{onion_extract_key}
use deep_messenger.Ack.{Ack}
use deep_messenger.Message.Objects.{
  MessageStatus, sent, sent_confirmed, recv_confirmed, me, MessageTo, to_client, to_mailbox,
  DbMessage, DbContact, Db, Message,
}

abbrev pub ev_message_ok : ℕ
ev_message_ok = 0x8401

abbrev pub ev_message_fail : ℕ
ev_message_fail = 0x8402

abbrev pub ev_message_incomming : ℕ
ev_message_incomming = 0x8403

abbrev pub is_client : Mode → Bool
is_client client = true
is_client mailbox = false

abbrev pub message_ack : ℕ → List ℕ → List ℕ → Ack
message_ack msg_code pub_key priv_key = record {
  ack_success = false;
  pub_key = pub_key;
  priv_key = priv_key;
  has_cb = true;
  msg_code = msg_code;
}

-- What is encrypted behind the byte of the type.
unfoldable pub message_body : DbMessage → ℕ → List ℕ
message_body m ctype =
    if ctype == 1
    then m.body_text
    else if ctype == 2
    then m.body_nick
    else if ctype == 3
    then take 16 m.body_mbox_id ++ take 62 m.body_mbox_onion
    else if ctype == 4
    then take 16 m.body_recv_id
    else []

unfoldable pub message_header : List ℕ → DbContact → DbMessage → List ℕ
unfolding prot_header
message_header transaction_id cont m =
    prot_header message_container
    ++ (transaction_id ++ (cont.mailbox_id ++ (cont.local_sig_key_pub ++ m.global_id)))

module _ {K S O M W : Type 0} (sha512 : List ℕ → List ℕ) (sign : List ℕ → List ℕ → List ℕ)
    (verify : List ℕ → List ℕ → List ℕ → Verified) (c : Cipher K S O) where
  -- A failure of the encryption is not looked at.
  unfoldable pub message_fill : DbContact → DbMessage → Tran M → Pmain M W → Tran M
  unfolding message_body message_header rsa_buffer_encrypt ed25519_buffer_sign
  message_fill cont m phand p =
      let ctype = m.kind % 2 ^ 8 in
      let plain = ctype ∷ message_body m ctype in
      let filled = phand.buffer ++ message_header p.transaction_id cont m in
      let (err, enc, enc_len) = rsa_buffer_encrypt c plain cont.remote_enc_key_pub filled in
      record phand { buffer = ed25519_buffer_sign sha512 sign verify enc cont.local_sig_key_priv }

  -- A message with no contact is an access to no object.
  unfoldable pub message_setup :
      Message → Tran M → Pmain M W → Run (Pmain M W) (Message × Tran M × Pmain M W)
  unfolding message_fill
  message_setup msg phand p = elim (is_client p.mode) [
    | false ↦ live (msg, phand, p)
    | true ↦ elim msg.client_cont [
      | none ↦ fault
      | some cont ↦ elim msg.client_msg [
        | none ↦ fault
        | some m ↦ live (
          record msg { client_msg = some (record m { sender = me }) },
          message_fill cont m phand p,
          p,
        )
      ]
    ]
  ]

module _ {M W : Type 0} (buffer : List ℕ) (db : Db W) (hs : Handlers M W) (wrap : Message → M)
    (ack_recv : Ack → Message → Recv M) where
  unfoldable pub wait_ack : MessageTo → DbContact → DbMessage → Ack × DbMessage
  unfolding onion_extract_key
  wait_ack to_client cont m =
      (message_ack ack_signature cont.remote_sig_key_pub [], record m { status = sent_confirmed })
  wait_ack to_mailbox cont m = (
    message_ack ack_onion (onion_extract_key buffer cont.mailbox_onion) [],
    record m { status = sent },
  )

  -- The message is out: its acknowledgement is waited for, and it is not cleaned up.
  unfoldable pub message_done : Message → Tran M → Pmain M W → Run (Pmain M W) (Tran M × Pmain M W)
  unfolding wait_ack prot_main_push_recv
  message_done msg phand p = elim (is_client p.mode) [
    | false ↦ live (phand, p)
    | true ↦ elim msg.client_cont [
      | none ↦ fault
      | some cont ↦ elim msg.client_msg [
        | none ↦ fault
        | some m ↦
            let (ack, m') = wait_ack msg.dest cont m in
            let msg' = record msg { client_msg = some m' } in
            live (
              record phand { msg = wrap msg'; has_cleanup = false },
              prot_main_push_recv p (ack_recv ack msg'),
            )
      ]
    ]
  ]

  unfoldable pub message_cleanup : Message → Pmain M W → Pmain M W
  unfolding call_hooks
  message_cleanup msg p = call_hooks hs ev_message_fail p

  -- A confirmation of a received message confirms the message that it names.
  unfoldable pub ack_save : DbMessage → W → W
  ack_save m w =
      if m.kind == 4
      then elim (db.message_by_gid w m.body_recv_id) [
        | none ↦ w
        | some to_conf ↦ db.message_save (record to_conf { status = recv_confirmed }) w
      ]
      else db.message_save m w

  unfoldable pub ack_received : Bool → DbMessage → Pmain M W → Pmain M W
  unfolding call_hooks ack_save
  ack_received success m p =
      if success
      then call_hooks hs ev_message_ok (record p { world = ack_save m p.world })
      else call_hooks hs ev_message_fail p

  abbrev pub saved {ℓ} : {A : Type ℓ} → (A → W → W) → Option A → W → W
  saved save none w = w
  saved save (some a) w = save a w

  -- The acknowledgement of a received message is out: only then the message is kept.
  unfoldable pub ack_sent : Bool → Message → Pmain M W → Pmain M W
  unfolding call_hooks
  ack_sent success msg p =
      if success
      then (let p' = record p {
        world =
            saved db.mb_message_save msg.mailbox_msg (
              saved db.contact_save msg.client_cont (saved db.message_save msg.client_msg p.world));
      } in
          if is_client p.mode then call_hooks hs ev_message_incomming p' else p')
      else p
