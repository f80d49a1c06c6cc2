-- ===== src/Database/Contacts.antt =====
-- db_contact.c: saving a client's contacts and reading them. `buffer` is what an uninitialised
-- buffer holds. A text is bound up to its end, and every array that is bound has its bytes.
pub mod Stored
use Prim.Native.String.{String}
use deep_messenger.Prelude.{
  ℕ, Bool, true, false, not, Option, none, some, List, [], ◌∷◌, ◌==◌, take, if◌then◌else◌,
}
use deep_messenger.Prelude.Int.{ℤ, pos, negsuc}
use deep_messenger.Array.{text}
use deep_messenger.Onion.{onion_extract_key}
use deep_messenger.Message.Objects.{ContactStatus, active, pending_in, pending_out, DbContact}
use deep_messenger.FriendRequest.{db_contact_new}
use deep_messenger.Sqlite.{
  Value, int, bytes, Binds, select_count, select_by, by_int, by_bytes, Sqlite, ◌>>=◌, nat_of,
  copy_into, column_int, column_blob, fetch, fetch_all, save, remove,
}

abbrev pub contact_table : String
contact_table = "client_contacts"

abbrev pub contact_columns : List String
contact_columns =
    "status" ∷ "deleted" ∷ "nickname" ∷ "onion_address" ∷ "onion_pub_key" ∷ "has_mailbox"
    ∷ "mailbox_id" ∷ "mailbox_onion" ∷ "local_sig_key_pub" ∷ "local_sig_key_priv"
    ∷ "local_enc_key_pub" ∷ "local_enc_key_priv" ∷ "remote_sig_key_pub" ∷ "remote_enc_key_pub" ∷ []

unfoldable pub contact_code : ContactStatus → ℕ
contact_code active = 0
contact_code pending_in = 1
contact_code pending_out = 2

-- A number that no status has does not come from a contact that was saved.
unfoldable pub contact_status : ℕ → ContactStatus
contact_status n = if n == 0 then active else if n == 1 then pending_in else pending_out

abbrev pub flag : Bool → Value
flag false = int (pos 0)
flag true = int (pos 1)

abbrev pub is_set : ℤ → Bool
is_set n = elim n [ pos k ↦ not (k == 0) | negsuc k ↦ true ]

unfoldable pub contact_binds : DbContact → Binds
unfolding contact_code
contact_binds cont =
    (1, int (pos (contact_code cont.status)))
    ∷ (2, flag cont.deleted)
    ∷ (3, bytes (text cont.nickname))
    ∷ (4, bytes (take 62 cont.onion_address))
    ∷ (5, bytes (take 32 cont.onion_pub_key))
    ∷ (6, flag cont.has_mailbox)
    ∷ (7, bytes (take 16 cont.mailbox_id))
    ∷ (8, bytes (take 62 cont.mailbox_onion))
    ∷ (9, bytes (take 32 cont.local_sig_key_pub))
    ∷ (10, bytes (take 32 cont.local_sig_key_priv))
    ∷ (11, bytes (take 270 cont.local_enc_key_pub))
    ∷ (12, bytes (take 1400 cont.local_enc_key_priv))
    ∷ (13, bytes (take 32 cont.remote_sig_key_pub))
    ∷ (14, bytes (take 270 cont.remote_enc_key_pub))
    ∷ []

unfoldable pub db_contact_onion_extract_key : List ℕ → DbContact → DbContact
unfolding onion_extract_key
db_contact_onion_extract_key buffer cont = record cont {
  onion_pub_key = onion_extract_key buffer cont.onion_address;
}

module _ {W : Type 0} (sq : Sqlite W) where
  unfoldable pub db_contact_save : List ℕ → DbContact → W → Option (DbContact × W)
  unfolding contact_binds db_contact_onion_extract_key save
  db_contact_save buffer cont w =
      let cont' = db_contact_onion_extract_key buffer cont in
      save sq contact_table contact_columns (contact_binds cont') 15 cont'.id w
      >>= (λ (id, w'). some (record cont' { id = id }, w'))

  unfoldable pub contact_row : List Value → DbContact → DbContact
  unfolding contact_status column_int column_blob copy_into
  contact_row row cont = record {
    id = nat_of (column_int sq row 0);
    status = contact_status (nat_of (column_int sq row 1));
    deleted = is_set (column_int sq row 2);
    nickname = take 255 (column_blob sq row 3);
    onion_address = copy_into 62 (column_blob sq row 4) cont.onion_address;
    onion_pub_key = copy_into 32 (column_blob sq row 5) cont.onion_pub_key;
    has_mailbox = is_set (column_int sq row 6);
    mailbox_id = copy_into 16 (column_blob sq row 7) cont.mailbox_id;
    mailbox_onion = copy_into 62 (column_blob sq row 8) cont.mailbox_onion;
    local_sig_key_pub = copy_into 32 (column_blob sq row 9) cont.local_sig_key_pub;
    local_sig_key_priv = copy_into 32 (column_blob sq row 10) cont.local_sig_key_priv;
    local_enc_key_pub = copy_into 270 (column_blob sq row 11) cont.local_enc_key_pub;
    local_enc_key_priv = copy_into 1400 (column_blob sq row 12) cont.local_enc_key_priv;
    remote_sig_key_pub = copy_into 32 (column_blob sq row 13) cont.remote_sig_key_pub;
    remote_enc_key_pub = copy_into 270 (column_blob sq row 14) cont.remote_enc_key_pub;
  }

  unfoldable pub db_contact_process_row : List Value → Option DbContact → DbContact
  unfolding contact_row db_contact_new
  db_contact_process_row row none = contact_row row db_contact_new
  db_contact_process_row row (some dest) = contact_row row dest

  unfoldable pub db_contact_get_by_pk : ℕ → Option DbContact → W → Option (Option DbContact × W)
  unfolding fetch db_contact_process_row
  db_contact_get_by_pk id =
      fetch sq db_contact_process_row (select_by contact_table ("id" ∷ [])) (by_int id)

  unfoldable pub db_contact_get_by_onion :
      List ℕ → Option DbContact → W → Option (Option DbContact × W)
  unfolding fetch db_contact_process_row
  db_contact_get_by_onion onion_address =
      fetch sq db_contact_process_row (select_by contact_table ("onion_address" ∷ []))
        (by_bytes (take 62 onion_address))

  unfoldable pub db_contact_get_by_rsk_pub :
      List ℕ → Option DbContact → W → Option (Option DbContact × W)
  unfolding fetch db_contact_process_row
  db_contact_get_by_rsk_pub key =
      fetch sq db_contact_process_row (select_by contact_table ("remote_sig_key_pub" ∷ []))
        (by_bytes (take 32 key))

  -- A contact that the database does not have is left as it is.
  unfoldable pub db_contact_refresh : DbContact → W → Option (DbContact × W)
  unfolding db_contact_get_by_pk
  db_contact_refresh cont w =
      if cont.id == 0
      then some (cont, w)
      else (db_contact_get_by_pk cont.id (some cont) w
          >>= (λ (found, w'). some (elim found [ none ↦ cont | some cont' ↦ cont' ], w')))

  unfoldable pub db_contact_get_all : W → Option (List (Option DbContact) × W)
  unfolding fetch_all db_contact_process_row
  db_contact_get_all =
      fetch_all sq db_contact_process_row (select_count contact_table [] [])
        (select_by contact_table []) []

  unfoldable pub db_contact_delete : DbContact → W → Option W
  unfolding remove
  db_contact_delete cont = remove sq contact_table "id" cont.id
