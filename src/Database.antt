-- ===== src/Database.antt =====
-- db_init.c: the tables, by the order of their columns.
pub mod Contacts
pub mod Messages
pub mod Mailbox
pub mod Options
use Prim.Native.String.{String}
use text.Mathlib.Text.{◌==◌}
use deep_messenger.Prelude.{List, [], ◌∷◌, if◌then◌else◌}

unfoldable pub db_init_schema : String → List String
db_init_schema table =
    if table == "options"
    then "id" ∷ "key" ∷ "int_value" ∷ "bin_value" ∷ "text_value" ∷ []
    else if table == "client_contacts"
    then "id" ∷ "status" ∷ "deleted" ∷ "nickname" ∷ "onion_address" ∷ "onion_pub_key"
      ∷ "has_mailbox" ∷ "mailbox_id" ∷ "mailbox_onion" ∷ "local_sig_key_pub" ∷ "local_sig_key_priv"
      ∷ "local_enc_key_pub" ∷ "local_enc_key_priv" ∷ "remote_sig_key_pub" ∷ "remote_enc_key_pub"
      ∷ []
    else if table == "client_messages"
    then "id" ∷ "global_id" ∷ "contact_id" ∷ "sender" ∷ "status" ∷ "type" ∷ "body_text"
      ∷ "body_nick" ∷ "body_mbox_id" ∷ "body_mbox_onion" ∷ []
    else if table == "mailbox_keys"
    then "id" ∷ "key" ∷ "uses_left" ∷ []
    else if table == "mailbox_accounts"
    then "id" ∷ "mailbox_id" ∷ "signing_pub_key" ∷ []
    else if table == "mailbox_contacts"
    then "id" ∷ "account_id" ∷ "signing_pub_key" ∷ []
    else if table == "mailbox_messages"
    then "id" ∷ "account_id" ∷ "contact_id" ∷ "global_id" ∷ "data" ∷ []
    else []

-- The declared type of a column, which decides how SQLite converts what is stored in it.
pub data ColumnType : Type 0 where
  integer_column text_column blob_column : ColumnType

-- The types of the columns, in the same order.
unfoldable pub db_init_types : String → List ColumnType
db_init_types table =
    if table == "options"
    then integer_column ∷ text_column ∷ integer_column ∷ blob_column ∷ text_column ∷ []
    else if table == "client_contacts"
    then integer_column ∷ integer_column ∷ integer_column ∷ text_column ∷ text_column ∷ blob_column
      ∷ integer_column ∷ blob_column ∷ text_column ∷ blob_column ∷ blob_column ∷ blob_column
      ∷ blob_column ∷ blob_column ∷ blob_column ∷ []
    else if table == "client_messages"
    then integer_column ∷ blob_column ∷ integer_column ∷ integer_column ∷ integer_column
      ∷ integer_column ∷ text_column ∷ text_column ∷ blob_column ∷ text_column ∷ []
    else if table == "mailbox_keys"
    then integer_column ∷ text_column ∷ integer_column ∷ []
    else if table == "mailbox_accounts"
    then integer_column ∷ blob_column ∷ blob_column ∷ []
    else if table == "mailbox_contacts"
    then integer_column ∷ integer_column ∷ blob_column ∷ []
    else if table == "mailbox_messages"
    then integer_column ∷ integer_column ∷ integer_column ∷ blob_column ∷ blob_column ∷ []
    else []
