-- ===== src/Database/Messages.antt =====
-- db_message.c: saving the messages of a client and reading them. Every array that is bound has
-- its bytes, and a text of the object is bound up to its end.
pub mod Stored
use Prim.Native.String.{String}
use deep_messenger.Prelude.{ℕ, Option, none, some, List, [], ◌∷◌, ◌==◌, take, length, if◌then◌else◌}
use deep_messenger.Prelude.Int.{pos}
use deep_messenger.Array.{text}
use deep_messenger.Message.Objects.{
  MessageStatus, undelivered, sent, sent_confirmed, recv, recv_confirmed, any_status, Sender, me,
  friend, DbContact, DbMessage, db_message_new, db_message_set_text,
}
use deep_messenger.Sqlite.{
  Value, Condition, null, int, bytes, Binds, select, select_count, equals, below, any, unordered,
  last_one, select_by, by_int, by_bytes, Sqlite, ◌>>=◌, nat_of, copy_into, column_int, column_blob,
  fetch, fetch_all, save, remove,
}

abbrev pub kind_text : ℕ
kind_text = 1

abbrev pub kind_nick : ℕ
kind_nick = 2

abbrev pub kind_mbox : ℕ
kind_mbox = 3

abbrev pub kind_recv : ℕ
kind_recv = 4

abbrev pub message_table : String
message_table = "client_messages"

abbrev pub message_columns : List String
message_columns =
    "global_id" ∷ "contact_id" ∷ "sender" ∷ "status" ∷ "type" ∷ "body_text" ∷ "body_nick"
    ∷ "body_mbox_id" ∷ "body_mbox_onion" ∷ []

unfoldable pub message_status_code : MessageStatus → ℕ
message_status_code undelivered = 0
message_status_code sent = 1
message_status_code sent_confirmed = 2
message_status_code recv = 3
message_status_code recv_confirmed = 4
message_status_code any_status = 5

-- A number that no status has does not come from a message that was saved.
unfoldable pub message_status : ℕ → MessageStatus
message_status n =
    if n == 0
    then undelivered
    else if n == 1
    then sent
    else if n == 2
    then sent_confirmed
    else if n == 3
    then recv
    else if n == 4
    then recv_confirmed
    else any_status

unfoldable pub sender_code : Sender → ℕ
sender_code me = 0
sender_code friend = 1

unfoldable pub sender_of : ℕ → Sender
sender_of n = if n == 0 then me else friend

-- A text that was never set is a null pointer, and is bound as null.
unfoldable pub text_value : DbMessage → Value
text_value msg = if msg.body_text_n_chunks == 0 then null else bytes (text msg.body_text)

unfoldable pub message_binds : DbMessage → Binds
unfolding message_status_code sender_code text_value
message_binds msg =
    (1, bytes (take 16 msg.global_id))
    ∷ (2, int (pos msg.contact_id))
    ∷ (3, int (pos (sender_code msg.sender)))
    ∷ (4, int (pos (message_status_code msg.status)))
    ∷ (5, int (pos msg.kind))
    ∷ (6, if msg.kind == kind_text then text_value msg else null)
    ∷ (7, if msg.kind == kind_nick then bytes (text msg.body_nick) else null)
    ∷ (8, if msg.kind == kind_mbox then bytes (take 16 msg.body_mbox_id) else null)
    ∷ (9, if msg.kind == kind_mbox then bytes (text msg.body_mbox_onion) else null)
    ∷ []

unfoldable pub db_message_gen_id : {W : Type 0} → (W → List ℕ × W) → DbMessage → W → DbMessage × W
db_message_gen_id random_id msg w =
    let (id, w') = random_id w in (record msg { global_id = id }, w')

module _ {W : Type 0} (sq : Sqlite W) where
  unfoldable pub db_message_save : DbMessage → W → Option (DbMessage × W)
  unfolding message_binds save
  db_message_save msg w =
      if msg.kind == kind_recv
      then some (msg, w)
      else (save sq message_table message_columns (message_binds msg) 10 msg.id w
          >>= (λ (id, w'). some (record msg { id = id }, w')))

  -- The fields that all messages have.
  unfoldable pub message_head : List Value → DbMessage → DbMessage
  unfolding message_status sender_of column_int column_blob copy_into
  message_head row msg = record msg {
    id = nat_of (column_int sq row 0);
    global_id = copy_into 16 (column_blob sq row 1) msg.global_id;
    contact_id = nat_of (column_int sq row 2);
    sender = sender_of (nat_of (column_int sq row 3));
    status = message_status (nat_of (column_int sq row 4));
    kind = nat_of (column_int sq row 5);
  }

  unfoldable pub row_text : List Value → DbMessage → DbMessage
  unfolding column_blob db_message_set_text
  row_text row msg =
      let body = column_blob sq row 6 in
      if msg.kind == kind_text then db_message_set_text body (some (length body)) msg else msg

  unfoldable pub row_nick : List Value → DbMessage → DbMessage
  unfolding column_blob
  row_nick row msg =
      if msg.kind == kind_nick
      then record msg { body_nick = take 255 (column_blob sq row 7) }
      else msg

  -- Both fields are copied up to the length of the identifier.
  unfoldable pub row_mbox : List Value → DbMessage → DbMessage
  unfolding column_blob copy_into
  row_mbox row msg =
      if msg.kind == kind_mbox
      then record msg {
        body_mbox_id = copy_into 16 (column_blob sq row 8) msg.body_mbox_id;
        body_mbox_onion = copy_into 16 (column_blob sq row 9) msg.body_mbox_onion;
      }
      else msg

  unfoldable pub message_row : List Value → DbMessage → DbMessage
  unfolding message_head row_text row_nick row_mbox
  message_row row msg = row_mbox row (row_nick row (row_text row (message_head row msg)))

  unfoldable pub db_message_process_row : List Value → Option DbMessage → DbMessage
  unfolding message_row db_message_new
  db_message_process_row row none = message_row row db_message_new
  db_message_process_row row (some dest) = message_row row dest

  unfoldable pub db_message_get_by_pk : ℕ → Option DbMessage → W → Option (Option DbMessage × W)
  unfolding fetch db_message_process_row
  db_message_get_by_pk id =
      fetch sq db_message_process_row (select_by message_table ("id" ∷ [])) (by_int id)

  unfoldable pub db_message_get_by_gid :
      List ℕ → Option DbMessage → W → Option (Option DbMessage × W)
  unfolding fetch db_message_process_row
  db_message_get_by_gid gid =
      fetch sq db_message_process_row (select_by message_table ("global_id" ∷ []))
        (by_bytes (take 16 gid))

  unfoldable pub db_message_get_last :
      Option DbContact → Option DbMessage → W → Option (Option DbMessage × W)
  unfolding fetch db_message_process_row
  db_message_get_last none dest w = some (none, w)
  db_message_get_last (some cont) dest w =
      fetch sq db_message_process_row (select [] message_table (equals "contact_id" ∷ []) last_one)
        (by_int cont.id) dest w

  -- The second parameter, that of the contact, is bound to the message's id, and the first, that
  -- of the id, to the contact.
  unfoldable pub db_message_get_before :
      DbMessage → Option DbMessage → W → Option (Option DbMessage × W)
  unfolding fetch db_message_process_row
  db_message_get_before current dest w =
      fetch sq db_message_process_row
        (select [] message_table (below "id" ∷ equals "contact_id" ∷ []) last_one)
        ((2, int (pos current.id)) ∷ (1, int (pos current.contact_id)) ∷ []) dest w

  unfoldable pub db_message_refresh : DbMessage → W → Option (DbMessage × W)
  unfolding db_message_get_by_pk
  db_message_refresh msg w =
      if msg.id == 0
      then some (msg, w)
      else (db_message_get_by_pk msg.id (some msg) w
          >>= (λ (found, w'). some (elim found [ none ↦ msg | some msg' ↦ msg' ], w')))

  unfoldable pub db_message_delete : DbMessage → W → Option W
  unfolding remove
  db_message_delete msg = remove sq message_table "id" msg.id

  unfoldable pub db_message_get_all :
      DbContact → MessageStatus → W → Option (List (Option DbMessage) × W)
  unfolding fetch_all db_message_process_row message_status_code
  db_message_get_all cont status =
      let of_status : Condition = elim status [ any_status ↦ any "status" | _ ↦ equals "status" ] in
      let conditions = equals "contact_id" ∷ of_status ∷ [] in
      fetch_all sq db_message_process_row (select_count message_table conditions [])
        (select [] message_table conditions unordered)
        ((1, int (pos cont.id)) ∷ (2, int (pos (message_status_code status))) ∷ [])
