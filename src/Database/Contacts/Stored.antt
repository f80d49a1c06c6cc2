-- ===== src/Database/Contacts/Stored.antt =====
-- A contact that is saved is read back whole.
use deep_messenger.Prelude.{
  ℕ, ◌<◌, ◌≤◌, ◌≡◌, refl, sym, ap, ◌∙◌, Bool, true, false, Option, none, some, List, [], ◌∷◌,
  length, take, length-take, arith,
}
use mathlib.Core.Path.{subst}
use deep_messenger.Prelude.Int.{pos}
use deep_messenger.Array.{text}
use deep_messenger.Base32.{base32_decode}
use deep_messenger.Onion.{onion_extract_key}
use deep_messenger.Message.Objects.{ContactStatus, active, pending_in, pending_out, DbContact}
use deep_messenger.Sqlite.{int, bytes, Sqlite, ◌>>=◌, params_from, bound, int_of, bytes_of, save}
use deep_messenger.Sqlite.Laws.{
  InsertsRow, Fits, Keeps, distinct, row_of, value_of, fetch-save, saved_with, copy_into-take,
  take_all,
}
use deep_messenger.Database.{db_init_schema, db_init_types, integer_column}
use deep_messenger.Database.Contacts.{
  contact_table, contact_columns, contact_code, contact_status, flag, is_set, contact_binds,
  db_contact_process_row, db_contact_save, db_contact_get_by_pk, db_contact_onion_extract_key,
}

-- Every field is at most as long as its array, and the nickname is a text.
pub record IsSized (cont : DbContact) : Type 0 where
  pub nickname_text : text cont.nickname ≡ cont.nickname
  pub nickname_size : length cont.nickname ≤ 255
  pub onion_size : length cont.onion_address ≤ 62
  pub mailbox_id_size : length cont.mailbox_id ≤ 16
  pub mailbox_onion_size : length cont.mailbox_onion ≤ 62
  pub sig_pub_size : length cont.local_sig_key_pub ≤ 32
  pub sig_priv_size : length cont.local_sig_key_priv ≤ 32
  pub enc_pub_size : length cont.local_enc_key_pub ≤ 270
  pub enc_priv_size : length cont.local_enc_key_priv ≤ 1400
  pub remote_sig_size : length cont.remote_sig_key_pub ≤ 32
  pub remote_enc_size : length cont.remote_enc_key_pub ≤ 270

onion_extract_key-length : (buffer onion : List ℕ) → length (onion_extract_key buffer onion) ≤ 32
unfolding onion_extract_key
onion_extract_key-length buffer onion =
    omega (arith, length-take 32 (base32_decode (take 56 onion) buffer))

module _ {W : Type 0} (sq : Sqlite W) where
  -- The columns of the row in the order of the table.
  row_lem :
      (cont : DbContact) (id : ℕ)
      → row_of
          (db_init_schema contact_table)
          ("id" ∷ contact_columns)
          (int (pos id) ∷ params_from 1 14 (contact_binds cont))
        ≡ int (pos id)
          ∷ int (pos (contact_code cont.status))
          ∷ flag cont.deleted
          ∷ bytes (text cont.nickname)
          ∷ bytes (take 62 cont.onion_address)
          ∷ bytes (take 32 cont.onion_pub_key)
          ∷ flag cont.has_mailbox
          ∷ bytes (take 16 cont.mailbox_id)
          ∷ bytes (take 62 cont.mailbox_onion)
          ∷ bytes (take 32 cont.local_sig_key_pub)
          ∷ bytes (take 32 cont.local_sig_key_priv)
          ∷ bytes (take 270 cont.local_enc_key_pub)
          ∷ bytes (take 1400 cont.local_enc_key_priv)
          ∷ bytes (take 32 cont.remote_sig_key_pub)
          ∷ bytes (take 270 cont.remote_enc_key_pub)
          ∷ []
  unfolding row_of value_of db_init_schema params_from bound contact_binds
  row_lem cont id = refl

  status_lem : (s : ContactStatus) → contact_status (contact_code s) ≡ s
  unfolding contact_status contact_code
  status_lem active = refl
  status_lem pending_in = refl
  status_lem pending_out = refl

  flag_lem : (b : Bool) → is_set (int_of sq (flag b)) ≡ b
  unfolding int_of
  flag_lem true = refl
  flag_lem false = refl

  process_row-row :
      (buffer : List ℕ) (cont : DbContact) (id : ℕ)
      → IsSized cont
      → let cont' = db_contact_onion_extract_key buffer cont in
        db_contact_process_row sq
          (row_of
            (db_init_schema contact_table)
            ("id" ∷ contact_columns)
            (int (pos id) ∷ params_from 1 14 (contact_binds cont')))
          none
        ≡ record cont' { id = id }
  unfolding db_contact_process_row bytes_of db_contact_onion_extract_key
  process_row-row buffer cont id v =
      let key = onion_extract_key buffer cont.onion_address in
      ap (λ row. db_contact_process_row sq row none)
        (row_lem (db_contact_onion_extract_key buffer cont) id)
      ∙ (λ i. record {
        id = id;
        status = status_lem cont.status i;
        deleted = flag_lem cont.deleted i;
        nickname = (ap (take 255) v.nickname_text ∙ take_all 255 cont.nickname v.nickname_size) i;
        onion_address = copy_into-take 62 cont.onion_address v.onion_size i;
        onion_pub_key =
            copy_into-take 32 key (onion_extract_key-length buffer cont.onion_address) i;
        has_mailbox = flag_lem cont.has_mailbox i;
        mailbox_id = copy_into-take 16 cont.mailbox_id v.mailbox_id_size i;
        mailbox_onion = copy_into-take 62 cont.mailbox_onion v.mailbox_onion_size i;
        local_sig_key_pub = copy_into-take 32 cont.local_sig_key_pub v.sig_pub_size i;
        local_sig_key_priv = copy_into-take 32 cont.local_sig_key_priv v.sig_priv_size i;
        local_enc_key_pub = copy_into-take 270 cont.local_enc_key_pub v.enc_pub_size i;
        local_enc_key_priv = copy_into-take 1400 cont.local_enc_key_priv v.enc_priv_size i;
        remote_sig_key_pub = copy_into-take 32 cont.remote_sig_key_pub v.remote_sig_size i;
        remote_enc_key_pub = copy_into-take 270 cont.remote_enc_key_pub v.remote_enc_size i;
      })

  code_lem : (s : ContactStatus) → Keeps integer_column (int (pos (contact_code s)))
  unfolding contact_code
  code_lem active = omega arith
  code_lem pending_in = omega arith
  code_lem pending_out = omega arith

  flag-Keeps : (b : Bool) → Keeps integer_column (flag b)
  flag-Keeps true = omega arith
  flag-Keeps false = omega arith

  contact-Fits :
      (cont : DbContact)
      → Fits contact_table contact_columns (params_from 1 14 (contact_binds cont))
  unfolding Fits params_from bound contact_binds db_init_schema db_init_types
  contact-Fits cont = (
    code_lem cont.status,
    (
      flag-Keeps cont.deleted,
      (
        tt,
        (
          tt,
          (tt, (flag-Keeps cont.has_mailbox, (tt, (tt, (tt, (tt, (tt, (tt, (tt, (tt, tt)))))))))),
        ),
      ),
    ),
  )

  -- A new contact that is saved, where SQLite finds the row that was inserted by its id, is read
  -- back by the id that it was given, with every field as it was and with the public key of its
  -- onion address, for fields that fit in their arrays, a nickname without a zero byte and an id
  -- that fits in an int. What is relied on of SQLite is only that a row is found with the values
  -- that were inserted, where the columns' types keep them.
  pub db_contact_get_by_pk-save :
      (buffer : List ℕ) (cont saved : DbContact) (w w' : W)
      → InsertsRow sq
      → IsSized cont
      → cont.id ≡ 0
      → saved.id < 2147483648
      → db_contact_save sq buffer cont w ≡ some (saved, w')
      → (db_contact_get_by_pk sq saved.id none w' ≡ some (some saved, w'))
        × (saved ≡ record (db_contact_onion_extract_key buffer cont) { id = saved.id })
  unfolding db_contact_save db_contact_get_by_pk db_contact_onion_extract_key distinct
  db_contact_get_by_pk-save buffer cont saved w w' law v new small e =
      let cont' = db_contact_onion_extract_key buffer cont in
      let made : ℕ → DbContact = λ n. record cont' { id = n } in
      let insert : ℕ → Option (ℕ × W) =
        λ n. save sq contact_table contact_columns (contact_binds cont') 15 n w in
      let e0 =
        ap (λ n. ◌>>=◌ {B = DbContact × W} (insert n) (λ (id, w''). some (made id, w''))) (sym new)
        ∙ e in
      let (id, ran, same) = saved_with sq (insert 0) made saved w' e0 in
      subst (λ s. (db_contact_get_by_pk sq s.id none w' ≡ some (some s, w')) × (s ≡ made s.id)) same
        (
          fetch-save sq (db_contact_process_row sq) none contact_table contact_columns
                (contact_binds cont') 15 id w w' law refl (contact-Fits cont')
                (subst (λ (s : DbContact). s.id < 2147483648) (sym same) small) ran
              ∙ ap (λ c. some (some c, w')) (process_row-row buffer cont id v),
          refl,
        )
