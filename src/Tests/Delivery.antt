-- ===== src/Tests/Delivery.antt =====
-- Messages between clients at concrete inputs.
use deep_messenger.Prelude.{
  ℕ, ◌+◌, ◌≡◌, refl, true, false, none, some, List, [], ◌∷◌, ◌++◌, drop, arith, length,
}
use deep_messenger.Prelude.Int.{pos}
use deep_messenger.ProtMain.{mailbox, Recv, Tran, Pmain, prot_main_new}
use deep_messenger.Ack.{Ack}
use deep_messenger.SetContacts.{Account, Contact}
use deep_messenger.Message.{message_body, message_fill}
use deep_messenger.Message.Objects.{
  me, undelivered, active, to_client, DbMessage, DbContact, Db, Message,
}
use deep_messenger.Message.Receive.{finish_client, read_body}
use deep_messenger.Message.Handler.{message_handle, mb_ack_send, new_mb_message}
use deep_messenger.Message.Fields.{Parts}
use deep_messenger.Message.{ack_sent}
use deep_messenger.Message.Delivery.Mailbox.{kept, handle_mailbox-message_fill}
use deep_messenger.Message.Handler.{mb_ack_send, new_mb_message}
use deep_messenger.Message.Delivery.Client.{received, message_handle-message_fill}
use deep_messenger.Tests.Parts.{filled}
use deep_messenger.Tests.Protocol.{sha512, sign, verify, message, plain}
use deep_messenger.Tests.Sealed.{toy, hey_sealing}

abbrev pub bob : DbContact
bob = record {
  id = 2;
  status = active;
  deleted = false;
  nickname = 98 ∷ 111 ∷ 98 ∷ [];
  onion_address = [];
  onion_pub_key = [];
  has_mailbox = true;
  mailbox_id = filled 16 6;
  mailbox_onion = [];
  local_sig_key_pub = filled 32 3;
  local_sig_key_priv = filled 32 3;
  local_enc_key_pub = 4 ∷ [];
  local_enc_key_priv = 4 ∷ [];
  remote_sig_key_pub = filled 32 3;
  remote_enc_key_pub = 4 ∷ [];
}

abbrev pub text : DbMessage
text = record {
  id = 1;
  contact_id = 2;
  sender = me;
  status = undelivered;
  kind = 1;
  global_id = filled 16 5;
  body_text = 104 ∷ 101 ∷ 121 ∷ [];
  body_text_n_chunks = 32;
  body_nick = [];
  body_recv_id = [];
  body_mbox_id = [];
  body_mbox_onion = [];
}

abbrev account : Account
account = record { id = 8; mailbox_id = filled 16 6; signing_pub_key = filled 32 3 }

abbrev contact : Contact
contact = record { id = 9; account_id = 8; signing_pub_key = filled 32 3 }

abbrev pub db : Db ℕ
db = record {
  contact_by_pk = λ w id. some bob;
  contact_by_rsk_pub = λ w key. some bob;
  contact_save = λ cont w. w + 1;
  message_by_gid = λ w gid. none;
  message_save = λ m w. w + 10;
  account_by_mbid = λ w id. some account;
  contact_by_acc_and_key = λ w acc key. some contact;
  message_by_acc_and_gid = λ w acc gid. none;
  mb_message_save = λ m w. w + 100;
  onion_private_key = λ w. filled 32 3;
  mailbox_onion_address = λ w. [];
  contact_by_onion = λ w onion. none;
  messages_all = λ w cont status. text ∷ [];
  mb_messages_all = λ w acc. [];
  mb_key_by_key = λ w key. some (record { id = 1; key = key; uses_left = pos 2 });
  mb_key_save = λ key w. w + 1000;
  account_save = λ acc w. w + 10000;
  account_delete = λ acc w. w;
  random_id = λ w. (filled 16 w, w + 1);
}

abbrev pub sizes : Parts (filled 16 9) bob.mailbox_id bob.local_sig_key_pub text.global_id
sizes = record { txn_size = refl; mb_size = refl; key_size = refl; gid_size = refl }

abbrev msg : Message
msg = record { dest = to_client; client_msg = none; client_cont = none; mailbox_msg = none }

abbrev waiting : Recv ℕ
waiting = record {
  msg_code = 0x84;
  msg = 0;
  success = false;
  require_transaction = true;
  has_cleanup = true;
  queued = true;
}

abbrev pub sender : Pmain ℕ ℕ
sender = record (prot_main_new 0) { bev_ready = true; transaction_id = filled 16 9 }

abbrev pub bytes : List ℕ
bytes = (message_fill sha512 sign verify toy bob text (message 2) sender).buffer

abbrev ack_tran : Ack → Message → Tran ℕ
ack_tran ack m = message 1

abbrev at_client : Pmain ℕ ℕ
at_client = record sender { input = bytes ++ (1 ∷ []) }

abbrev at_mailbox : Pmain ℕ ℕ
at_mailbox = record at_client { mode = mailbox }

client_example :
    (message_handle sha512 sign verify sha512 [] toy db plain
        (λ m. 0)
        ack_tran
        msg
        waiting
        at_client
      ≡ finish_client plain
          (λ m. 0)
          ack_tran
          16
          msg
          waiting
          (record at_client { input = drop 82 at_client.input })
          (read_body sha512 [] db 0 1 (104 ∷ 101 ∷ 121 ∷ []) (received text bob) bob))
    × (drop 356 (drop 82 at_client.input) ≡ 1 ∷ [])
unfolding prot_main_new message_body message_fill
client_example =
    message_handle-message_fill sha512 sign verify (λ key hash. refl) toy bob text (4 ∷ [])
      hey_sealing (omega arith) refl (filled 16 9) sizes sha512 [] db plain (λ m. 0) ack_tran msg
      (message 2) waiting sender at_client bob (1 ∷ []) (λ hash. refl) refl refl refl refl refl refl
      refl refl refl refl

mailbox_example :
    (message_handle sha512 sign verify sha512 [] toy db plain
        (λ m. 0)
        ack_tran
        msg
        waiting
        at_mailbox
      ≡ mb_ack_send db plain
          (λ m. 0)
          ack_tran
          (length bytes)
          (new_mb_message account contact text.global_id bytes)
          msg
          waiting
          at_mailbox)
    × (drop (length bytes) at_mailbox.input ≡ 1 ∷ [])
    × (ack_sent [] db plain
          (λ m. 0)
          (λ ack m. waiting)
          true
          (record msg { mailbox_msg = some (kept account contact text.global_id bytes) })
          at_mailbox
        ≡ record at_mailbox { world = 100 })
unfolding prot_main_new message_fill mb_ack_send new_mb_message
mailbox_example =
    handle_mailbox-message_fill sha512 sign verify (λ key hash. refl) toy bob text (4 ∷ [])
      hey_sealing (omega arith) refl (filled 16 9) sizes sha512 [] db plain (λ m. 0) ack_tran
      (λ ack m. waiting) msg (message 2) waiting sender at_mailbox at_mailbox account contact
      (1 ∷ []) (λ hash. refl) refl refl refl refl refl refl refl refl refl refl
