-- ===== src/Database/Mailbox/Messages.antt =====
-- db_mb_message.c: the messages that a mailbox stores.
use Prim.Native.String.{String}
use deep_messenger.Prelude.{ℕ, Option, none, some, List, [], ◌∷◌, ◌==◌, take, if◌then◌else◌}
use deep_messenger.Prelude.Int.{pos}
use deep_messenger.SetContacts.{Account}
use deep_messenger.Message.Objects.{MbMessage, db_mb_message_new, db_mb_message_set_data}
use deep_messenger.Sqlite.{
  Value, null, int, bytes, Binds, select_count, equals, select_by, by_int, Sqlite, ◌>>=◌, nat_of,
  copy_into, column_int, column_blob, fetch, fetch_all, save, remove,
}

abbrev pub mb_message_table : String
mb_message_table = "mailbox_messages"

abbrev pub mb_message_columns : List String
mb_message_columns = "account_id" ∷ "contact_id" ∷ "global_id" ∷ "data" ∷ []

-- Data that were never set are a null pointer, and are bound as null.
unfoldable pub mb_message_binds : MbMessage → Binds
mb_message_binds msg =
    (1, int (pos msg.account_id))
    ∷ (2, int (pos msg.contact_id))
    ∷ (3, bytes (take 16 msg.global_id))
    ∷ (4, if msg.data_n_chunks == 0 then null else bytes msg.data_bytes)
    ∷ []

module _ {W : Type 0} (sq : Sqlite W) where
  -- The id of an update is bound as the fourth parameter, which is the data.
  unfoldable pub db_mb_message_save : MbMessage → W → Option (MbMessage × W)
  unfolding mb_message_binds save
  db_mb_message_save msg w =
      save sq mb_message_table mb_message_columns (mb_message_binds msg) 4 msg.id w
      >>= (λ (id, w'). some (record msg { id = id }, w'))

  unfoldable pub db_mb_message_delete : MbMessage → W → Option W
  unfolding remove
  db_mb_message_delete msg = remove sq mb_message_table "id" msg.id

  unfoldable pub mb_message_row : List Value → MbMessage → MbMessage
  unfolding column_int column_blob copy_into db_mb_message_set_data
  mb_message_row row msg = db_mb_message_set_data (column_blob sq row 4) (record msg {
    id = nat_of (column_int sq row 0);
    account_id = nat_of (column_int sq row 1);
    contact_id = nat_of (column_int sq row 2);
    global_id = copy_into 16 (column_blob sq row 3) msg.global_id;
  })

  unfoldable pub db_mb_message_process_row : List Value → Option MbMessage → MbMessage
  unfolding mb_message_row db_mb_message_new
  db_mb_message_process_row row none = mb_message_row row db_mb_message_new
  db_mb_message_process_row row (some dest) = mb_message_row row dest

  unfoldable pub db_mb_message_get_by_pk : ℕ → Option MbMessage → W → Option (Option MbMessage × W)
  unfolding fetch db_mb_message_process_row
  db_mb_message_get_by_pk id =
      fetch sq db_mb_message_process_row (select_by mb_message_table ("id" ∷ [])) (by_int id)

  unfoldable pub db_mb_message_get_by_acc_and_gid :
      Account → List ℕ → Option MbMessage → W → Option (Option MbMessage × W)
  unfolding fetch db_mb_message_process_row
  db_mb_message_get_by_acc_and_gid acc gid =
      fetch sq db_mb_message_process_row
        (select_by mb_message_table ("account_id" ∷ "global_id" ∷ []))
        ((1, int (pos acc.id)) ∷ (2, bytes (take 16 gid)) ∷ [])

  unfoldable pub db_mb_message_get_all : Account → W → Option (List (Option MbMessage) × W)
  unfolding fetch_all db_mb_message_process_row
  db_mb_message_get_all acc =
      fetch_all sq db_mb_message_process_row
        (select_count mb_message_table (equals "account_id" ∷ []) [])
        (select_by mb_message_table ("account_id" ∷ [])) (by_int acc.id)
