-- ===== src/Database/Mailbox.antt =====
-- db_mb_account.c, db_mb_contact.c, db_mb_key.c and db_mb_message.c: what a mailbox stores.
pub mod Messages
use Prim.Native.String.{String}
use deep_messenger.Prelude.{ℕ, Option, none, some, List, [], ◌∷◌, ◌==◌, take, if◌then◌else◌}
use deep_messenger.Prelude.Int.{pos}
use deep_messenger.SetContacts.{Account, Contact}
use deep_messenger.Message.Objects.{MbKey}
use deep_messenger.Sqlite.{
  Value, int, bytes, Statement, select_count, select_by, by_int, by_bytes, Sqlite, ◌>>=◌, nat_of,
  copy_into, column_int, column_blob, fetch, fetch_all, save, remove,
}

unfoldable pub db_mb_account_new : Account
db_mb_account_new = record { id = 0; mailbox_id = []; signing_pub_key = [] }

unfoldable pub db_mb_contact_new : Contact
db_mb_contact_new = record { id = 0; account_id = 0; signing_pub_key = [] }

unfoldable pub db_mb_key_new : MbKey
db_mb_key_new = record { id = 0; key = []; uses_left = pos 0 }

module _ {W : Type 0} (sq : Sqlite W) where
  unfoldable pub db_mb_account_save : Account → W → Option (Account × W)
  unfolding save
  db_mb_account_save acc w =
      save sq "mailbox_accounts" ("mailbox_id" ∷ "signing_pub_key" ∷ [])
        ((1, bytes (take 16 acc.mailbox_id)) ∷ (2, bytes (take 32 acc.signing_pub_key)) ∷ []) 3
        acc.id w
      >>= (λ (id, w'). some (record acc { id = id }, w'))

  -- The length of the identifier's array is 16.
  unfoldable pub account_row : List Value → Account → Account
  unfolding column_int column_blob copy_into
  account_row row acc = record {
    id = nat_of (column_int sq row 0);
    mailbox_id = copy_into 32 (column_blob sq row 1) acc.mailbox_id;
    signing_pub_key = copy_into 32 (column_blob sq row 2) acc.signing_pub_key;
  }

  unfoldable pub db_mb_account_process_row : List Value → Option Account → Account
  unfolding account_row db_mb_account_new
  db_mb_account_process_row row none = account_row row db_mb_account_new
  db_mb_account_process_row row (some dest) = account_row row dest

  unfoldable pub db_mb_account_get_by_pk : ℕ → Option Account → W → Option (Option Account × W)
  unfolding fetch db_mb_account_process_row
  db_mb_account_get_by_pk id =
      fetch sq db_mb_account_process_row (select_by "mailbox_accounts" ("id" ∷ [])) (by_int id)

  unfoldable pub db_mb_account_get_by_mbid :
      List ℕ → Option Account → W → Option (Option Account × W)
  unfolding fetch db_mb_account_process_row
  db_mb_account_get_by_mbid mbid =
      fetch sq db_mb_account_process_row (select_by "mailbox_accounts" ("mailbox_id" ∷ []))
        (by_bytes (take 16 mbid))

  unfoldable pub db_mb_account_refresh : Account → W → Option (Account × W)
  unfolding db_mb_account_get_by_pk
  db_mb_account_refresh acc w =
      if acc.id == 0
      then some (acc, w)
      else (db_mb_account_get_by_pk acc.id (some acc) w
          >>= (λ (found, w'). some (elim found [ none ↦ acc | some acc' ↦ acc' ], w')))

  unfoldable pub db_mb_account_delete : Account → W → Option W
  unfolding remove
  db_mb_account_delete acc = remove sq "mailbox_accounts" "id" acc.id

  unfoldable pub db_mb_contact_save : Contact → W → Option (Contact × W)
  unfolding save
  db_mb_contact_save cont w =
      save sq "mailbox_contacts" ("account_id" ∷ "signing_pub_key" ∷ [])
        ((1, int (pos cont.account_id)) ∷ (2, bytes (take 32 cont.signing_pub_key)) ∷ []) 3 cont.id
        w
      >>= (λ (id, w'). some (record cont { id = id }, w'))

  unfoldable pub db_mb_contact_delete : Contact → W → Option W
  unfolding remove
  db_mb_contact_delete cont = remove sq "mailbox_contacts" "id" cont.id

  unfoldable pub db_mb_contact_delete_all : Account → W → Option W
  unfolding remove
  db_mb_contact_delete_all acc = remove sq "mailbox_contacts" "account_id" acc.id

  unfoldable pub contact_row : List Value → Contact → Contact
  unfolding column_int column_blob copy_into
  contact_row row cont = record {
    id = nat_of (column_int sq row 0);
    account_id = nat_of (column_int sq row 1);
    signing_pub_key = copy_into 32 (column_blob sq row 2) cont.signing_pub_key;
  }

  unfoldable pub db_mb_contact_process_row : List Value → Option Contact → Contact
  unfolding contact_row db_mb_contact_new
  db_mb_contact_process_row row none = contact_row row db_mb_contact_new
  db_mb_contact_process_row row (some dest) = contact_row row dest

  unfoldable pub db_mb_contact_get_by_pk : ℕ → Option Contact → W → Option (Option Contact × W)
  unfolding fetch db_mb_contact_process_row
  db_mb_contact_get_by_pk id =
      fetch sq db_mb_contact_process_row (select_by "mailbox_contacts" ("id" ∷ [])) (by_int id)

  unfoldable pub db_mb_contact_get_by_acc_and_key :
      Account → List ℕ → Option Contact → W → Option (Option Contact × W)
  unfolding fetch db_mb_contact_process_row
  db_mb_contact_get_by_acc_and_key acc key =
      fetch sq db_mb_contact_process_row
        (select_by "mailbox_contacts" ("account_id" ∷ "signing_pub_key" ∷ []))
        ((1, int (pos acc.id)) ∷ (2, bytes (take 32 key)) ∷ [])

  unfoldable pub db_mb_contact_refresh : Contact → W → Option (Contact × W)
  unfolding db_mb_contact_get_by_pk
  db_mb_contact_refresh cont w =
      if cont.id == 0
      then some (cont, w)
      else (db_mb_contact_get_by_pk cont.id (some cont) w
          >>= (λ (found, w'). some (elim found [ none ↦ cont | some cont' ↦ cont' ], w')))

  unfoldable pub db_mb_key_save : MbKey → W → Option (MbKey × W)
  unfolding save
  db_mb_key_save dbkey w =
      save sq "mailbox_keys" ("key" ∷ "uses_left" ∷ [])
        ((1, bytes (take 25 dbkey.key)) ∷ (2, int dbkey.uses_left) ∷ []) 3 dbkey.id w
      >>= (λ (id, w'). some (record dbkey { id = id }, w'))

  unfoldable pub db_mb_key_delete : MbKey → W → Option W
  unfolding remove
  db_mb_key_delete dbkey = remove sq "mailbox_keys" "id" dbkey.id

  unfoldable pub key_row : List Value → MbKey → MbKey
  unfolding column_int column_blob copy_into
  key_row row dbkey = record {
    id = nat_of (column_int sq row 0);
    key = copy_into 25 (column_blob sq row 1) dbkey.key;
    uses_left = column_int sq row 2;
  }

  unfoldable pub db_mb_key_process_row : List Value → Option MbKey → MbKey
  unfolding key_row db_mb_key_new
  db_mb_key_process_row row none = key_row row db_mb_key_new
  db_mb_key_process_row row (some dest) = key_row row dest

  unfoldable pub db_mb_key_get_by_pk : ℕ → Option MbKey → W → Option (Option MbKey × W)
  unfolding fetch db_mb_key_process_row
  db_mb_key_get_by_pk id =
      fetch sq db_mb_key_process_row (select_by "mailbox_keys" ("id" ∷ [])) (by_int id)

  unfoldable pub db_mb_key_get_by_key : List ℕ → Option MbKey → W → Option (Option MbKey × W)
  unfolding fetch db_mb_key_process_row
  db_mb_key_get_by_key access_key =
      fetch sq db_mb_key_process_row (select_by "mailbox_keys" ("key" ∷ []))
        (by_bytes (take 25 access_key))

  unfoldable pub db_mb_key_refresh : MbKey → W → Option (MbKey × W)
  unfolding db_mb_key_get_by_pk
  db_mb_key_refresh dbkey w =
      if dbkey.id == 0
      then some (dbkey, w)
      else (db_mb_key_get_by_pk dbkey.id (some dbkey) w
          >>= (λ (found, w'). some (elim found [ none ↦ dbkey | some k' ↦ k' ], w')))

  unfoldable pub db_mb_key_get_all : W → Option (List (Option MbKey) × W)
  unfolding fetch_all db_mb_key_process_row
  db_mb_key_get_all =
      fetch_all sq db_mb_key_process_row (select_count "mailbox_keys" [] [])
        (select_by "mailbox_keys" []) []
