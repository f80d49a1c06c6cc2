-- ===== src/MessageList.antt =====
-- prot_message_list.c: the list of messages that a client or a mailbox answers a fetch with:
-- sending it.
pub mod Items
pub mod Leaves
pub mod Kept
pub mod Framing
pub mod Exchange
pub mod Relay
pub mod Handler
use deep_messenger.Prelude.{
  ℕ, ◌+◌, ◌%◌, ◌^◌, Bool, true, false, not, Option, none, some, List, [], ◌∷◌, ◌++◌, ◌==◌, length,
  if◌then◌else◌,
}
use deep_messenger.ProtMain.{Tran, Pmain, Run, live, fault, Handlers}
use deep_messenger.ProtMain.Codes.{prot_header, message_list}
use deep_messenger.ProtMain.Write.{call_hooks}
use deep_messenger.BufferCrypto.{Verified, ed25519_buffer_sign}
use deep_messenger.BufferCrypto.Envelope.{Cipher, htonl, rsa_buffer_encrypt}
use deep_messenger.Message.{is_client, message_body, message_header}
use deep_messenger.Message.Objects.{
  MessageStatus, undelivered, sent_confirmed, DbMessage, DbContact, MbMessage, Db,
}

pub data From : Type 0 where
  from_client from_mailbox : From

pub record MessageList : Type 0 where
  pub from : From
  pub client_cont : Option DbContact
  pub client_msgs : List DbMessage
  pub mailbox_msgs : List MbMessage

abbrev pub ev_client_fetch_incomming : ℕ
ev_client_fetch_incomming = 0x8B03

abbrev pub joined : List (List ℕ) → List ℕ
joined [] = []
joined (item ∷ items) = item ++ joined items

-- The length of the items is a `uint32_t`, and goes in front of them.
unfoldable pub list_content : List ℕ → List ℕ → List ℕ
unfolding prot_header htonl
list_content transaction_id items =
    prot_header message_list ++ (transaction_id ++ (htonl (length items % 2 ^ 32) ++ items))

module _ {K S O : Type 0} (sha512 : List ℕ → List ℕ) (sign : List ℕ → List ℕ → List ℕ)
    (verify : List ℕ → List ℕ → List ℕ → Verified) (c : Cipher K S O) where
  -- One message, encrypted and signed as it is when it is sent alone.
  unfoldable pub list_item : List ℕ → DbContact → DbMessage → List ℕ
  unfolding message_body message_header rsa_buffer_encrypt ed25519_buffer_sign
  list_item transaction_id cont m =
      let plain = m.kind % 2 ^ 8 ∷ message_body m m.kind in
      let (err, enc, enc_len) =
        rsa_buffer_encrypt c plain cont.remote_enc_key_pub (message_header transaction_id cont m) in
      ed25519_buffer_sign sha512 sign verify enc cont.local_sig_key_priv

  -- The messages of other contacts are left out.
  unfoldable pub client_items : List ℕ → DbContact → List DbMessage → List (List ℕ)
  unfolding list_item
  client_items transaction_id cont [] = []
  client_items transaction_id cont (m ∷ ms) =
      let rest = client_items transaction_id cont ms in
      if m.contact_id == cont.id then list_item transaction_id cont m ∷ rest else rest

  abbrev pub mailbox_items : List MbMessage → List (List ℕ)
  mailbox_items [] = []
  mailbox_items (m ∷ ms) = m.data_bytes ∷ mailbox_items ms

  unfoldable pub list_setup :
      {M W : Type 0}
      → Db W
      → MessageList
      → Tran M
      → Pmain M W
      → Run (Pmain M W) (Tran M × Pmain M W)
  unfolding client_items list_content
  list_setup db msg phand p = elim (is_client p.mode) [
    | true ↦ elim msg.client_cont [
      | none ↦ fault
      | some cont ↦ live (
        record phand {
          buffer =
              ed25519_buffer_sign sha512 sign verify
                (list_content p.transaction_id
                  (phand.buffer ++ joined (client_items p.transaction_id cont msg.client_msgs)))
                cont.local_sig_key_priv;
        },
        p,
      )
    ]
    | false ↦ live (
      record phand {
        buffer =
            ed25519_buffer_sign sha512 sign verify
              (list_content p.transaction_id
                (phand.buffer ++ joined (mailbox_items msg.mailbox_msgs)))
              (db.onion_private_key p.world);
      },
      p,
    )
  ]

abbrev pub is_undelivered : MessageStatus → Bool
is_undelivered undelivered = true
is_undelivered _ = false

module _ {W : Type 0} (db : Db W) where
  -- The loop over the messages that are out: those that waited are confirmed and saved.
  unfoldable pub confirm_all : List DbMessage → W → List DbMessage × W
  confirm_all [] w = ([], w)
  confirm_all (m ∷ ms) w =
      let m' = record m { status = sent_confirmed } in
      let (m1, w1) = if is_undelivered m.status then (m', db.message_save m' w) else (m, w) in
      let (ms', w') = confirm_all ms w1 in (m1 ∷ ms', w')

  unfoldable pub list_done :
      {M : Type 0} → Handlers M W → MessageList → Pmain M W → MessageList × Pmain M W
  unfolding confirm_all call_hooks
  list_done hs msg p =
      let (ms, w) = confirm_all msg.client_msgs p.world in
      let p' = record p { world = w } in
      (
        record msg { client_msgs = ms },
        if is_client p.mode then call_hooks hs ev_client_fetch_incomming p' else p',
      )
