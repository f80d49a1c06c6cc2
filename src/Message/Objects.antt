-- ===== src/Message/Objects.antt =====
-- db_message.h, db_contact.h, db_mb_message.h, db_mb_key.h and prot_message.h: the objects that the messages
-- between clients and mailboxes are about. A text of a length field is the list of its bytes.
use deep_messenger.Prelude.{
  ℕ, ◌+◌, ◌*◌, ◌/◌, Bool, Option, List, [], ltb, take, if◌then◌else◌, length,
}
use deep_messenger.Prelude.Int.{ℤ}
use deep_messenger.Array.{limit}
use deep_messenger.SetContacts.{Account, Contact}

pub data MessageStatus : Type 0 where
  undelivered sent sent_confirmed recv recv_confirmed any_status : MessageStatus

pub data Sender : Type 0 where
  me friend : Sender

pub data ContactStatus : Type 0 where
  active pending_in pending_out : ContactStatus

pub data MessageTo : Type 0 where
  to_client to_mailbox : MessageTo

-- The room for the text, `body_text_n_chunks`, is 0 before it is allocated.
pub record DbMessage : Type 0 where
  pub id : ℕ
  pub contact_id : ℕ
  pub sender : Sender
  pub status : MessageStatus
  pub kind : ℕ
  pub global_id : List ℕ
  pub body_text : List ℕ
  pub body_text_n_chunks : ℕ
  pub body_nick : List ℕ
  pub body_recv_id : List ℕ
  pub body_mbox_id : List ℕ
  pub body_mbox_onion : List ℕ

pub record DbContact : Type 0 where
  pub id : ℕ
  pub status : ContactStatus
  pub deleted : Bool
  pub nickname : List ℕ
  pub onion_address : List ℕ
  pub onion_pub_key : List ℕ
  pub has_mailbox : Bool
  pub mailbox_id : List ℕ
  pub mailbox_onion : List ℕ
  pub local_sig_key_pub : List ℕ
  pub local_sig_key_priv : List ℕ
  pub local_enc_key_pub : List ℕ
  pub local_enc_key_priv : List ℕ
  pub remote_sig_key_pub : List ℕ
  pub remote_enc_key_pub : List ℕ

pub record MbMessage : Type 0 where
  pub id : ℕ
  pub account_id : ℕ
  pub contact_id : ℕ
  pub global_id : List ℕ
  pub data_bytes : List ℕ
  pub data_n_chunks : ℕ

-- A key that lets clients register, as often as it has uses left.
pub record MbKey : Type 0 where
  pub id : ℕ
  pub key : List ℕ
  pub uses_left : ℤ

-- The database, by the queries that the messages make, and the random generator.
pub record Db (W : Type 0) : Type 0 where
  pub contact_by_pk : W → ℕ → Option DbContact
  pub contact_by_rsk_pub : W → List ℕ → Option DbContact
  pub contact_save : DbContact → W → W
  pub message_by_gid : W → List ℕ → Option DbMessage
  pub message_save : DbMessage → W → W
  pub account_by_mbid : W → List ℕ → Option Account
  pub contact_by_acc_and_key : W → Account → List ℕ → Option Contact
  pub message_by_acc_and_gid : W → Account → List ℕ → Option MbMessage
  pub mb_message_save : MbMessage → W → W
  pub onion_private_key : W → List ℕ
  pub mailbox_onion_address : W → List ℕ
  pub contact_by_onion : W → List ℕ → Option DbContact
  pub messages_all : W → DbContact → MessageStatus → List DbMessage
  pub mb_messages_all : W → Account → List MbMessage
  pub mb_key_by_key : W → List ℕ → Option MbKey
  pub mb_key_save : MbKey → W → W
  pub account_save : Account → W → W
  pub account_delete : Account → W → W
  pub random_id : W → List ℕ × W

pub record Message : Type 0 where
  pub dest : MessageTo
  pub client_msg : Option DbMessage
  pub client_cont : Option DbContact
  pub mailbox_msg : Option MbMessage

unfoldable pub db_message_new : DbMessage
db_message_new = record {
  id = 0;
  contact_id = 0;
  sender = me;
  status = undelivered;
  kind = 0;
  global_id = [];
  body_text = [];
  body_text_n_chunks = 0;
  body_nick = [];
  body_recv_id = [];
  body_mbox_id = [];
  body_mbox_onion = [];
}

abbrev pub text_chunk : ℕ
text_chunk = 32

unfoldable pub room_for : ℕ → ℕ
room_for text_len = (text_len / text_chunk + 1) * text_chunk

-- A length of -1 is none: the text then ends at its first zero. The room only grows; one byte
-- more than the text is written, its end.
unfoldable pub db_message_set_text : List ℕ → Option ℕ → DbMessage → DbMessage
unfolding room_for
db_message_set_text text text_len msg =
    let len = limit text_len text in
    record msg {
      body_text = take len text;
      body_text_n_chunks =
          if ltb msg.body_text_n_chunks (room_for len)
          then room_for len
          else msg.body_text_n_chunks;
    }

abbrev pub data_chunk : ℕ
data_chunk = 63

-- The room is for the new length whatever it was.
unfoldable pub db_mb_message_set_data : List ℕ → MbMessage → MbMessage
db_mb_message_set_data bytes msg = record msg {
  data_bytes = bytes;
  data_n_chunks = (length bytes / data_chunk + 1) * data_chunk;
}

unfoldable pub db_mb_message_new : MbMessage
db_mb_message_new = record {
  id = 0;
  account_id = 0;
  contact_id = 0;
  global_id = [];
  data_bytes = [];
  data_n_chunks = 0;
}
