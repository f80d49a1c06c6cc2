-- ===== src/Tests/Stored.antt =====
-- The stored objects at concrete inputs.
use deep_messenger.Prelude.{◌≡◌, refl, Option, none, some, [], ◌∷◌, arith}
use deep_messenger.Message.Objects.{DbContact, DbMessage, db_message_new}
use deep_messenger.FriendRequest.{db_contact_new}
use deep_messenger.Database.Contacts.{
  db_contact_save, db_contact_get_by_pk, db_contact_onion_extract_key,
}
use deep_messenger.Database.Contacts.Stored.{db_contact_get_by_pk-save}
use deep_messenger.Database.Messages.{db_message_save, db_message_get_by_pk}
use deep_messenger.Database.Messages.Stored.{
  text_message, mbox_message, db_message_get_by_pk-save, db_message_get_by_pk-save_mbox,
}
use deep_messenger.Tests.Engine.{Rows, engine, engine-InsertsRow}
use deep_messenger.Tests.Parts.{filled}

abbrev empty : Rows
empty = record { rows = []; last_id = 4 }

abbrev world_of {ℓ} : {A : Type ℓ} → Option (A × Rows) → Rows
world_of none = empty
world_of (some (a, w)) = w

abbrev saved_of {ℓ} : {A : Type ℓ} → A → Option (A × Rows) → A
saved_of a none = a
saved_of a (some (b, w)) = b

abbrev ann : DbContact
unfolding db_contact_new
ann = record db_contact_new { nickname = 97 ∷ 110 ∷ 110 ∷ []; onion_address = filled 62 97 }

abbrev saved_ann : Option (DbContact × Rows)
unfolding db_contact_save
saved_ann = db_contact_save engine (filled 35 0) ann empty

abbrev ann_saved : DbContact
unfolding db_contact_new db_contact_save
ann_saved = saved_of ann saved_ann

abbrev ann_world : Rows
unfolding db_contact_new db_contact_save
ann_world = world_of saved_ann

contact_example :
    (db_contact_get_by_pk engine ann_saved.id none ann_world ≡ some (some ann_saved, ann_world))
    × (ann_saved ≡ record (db_contact_onion_extract_key (filled 35 0) ann) { id = ann_saved.id })
unfolding db_contact_new db_contact_save
contact_example =
    db_contact_get_by_pk-save engine (filled 35 0) ann ann_saved empty ann_world engine-InsertsRow
      (record {
        nickname_text = refl;
        nickname_size = omega arith;
        onion_size = omega arith;
        mailbox_id_size = omega arith;
        mailbox_onion_size = omega arith;
        sig_pub_size = omega arith;
        sig_priv_size = omega arith;
        enc_pub_size = omega arith;
        enc_priv_size = omega arith;
        remote_sig_size = omega arith;
        remote_enc_size = omega arith;
      })
      refl (omega arith) refl

-- "hi"
abbrev hello : DbMessage
unfolding db_message_new
hello = record db_message_new {
  kind = 1;
  global_id = filled 16 9;
  body_text = 104 ∷ 105 ∷ [];
  body_text_n_chunks = 32;
}

abbrev hello_saved : Option (DbMessage × Rows)
unfolding db_message_new db_message_save
hello_saved = db_message_save engine hello empty

text_example :
    db_message_get_by_pk engine 5 none (world_of hello_saved)
    ≡ some (some (text_message (saved_of hello hello_saved)), world_of hello_saved)
unfolding db_message_new db_message_save
text_example =
    db_message_get_by_pk-save engine hello (saved_of hello hello_saved) empty (world_of hello_saved)
      engine-InsertsRow refl refl refl refl (omega arith) (omega arith) (omega arith) refl

abbrev moved : DbMessage
unfolding db_message_new
moved = record db_message_new {
  kind = 3;
  global_id = filled 16 9;
  body_mbox_id = filled 16 7;
  body_mbox_onion = filled 62 97;
}

abbrev moved_saved : Option (DbMessage × Rows)
unfolding db_message_new db_message_save
moved_saved = db_message_save engine moved empty

moved_example :
    db_message_get_by_pk engine 5 none (world_of moved_saved)
    ≡ some (some (mbox_message (saved_of moved moved_saved)), world_of moved_saved)
unfolding db_message_new db_message_save
moved_example =
    db_message_get_by_pk-save_mbox engine moved (saved_of moved moved_saved) empty
      (world_of moved_saved) engine-InsertsRow refl refl refl (omega arith) (omega arith)
      (omega arith) (omega arith) refl
