-- ===== src/Database/Messages/Stored.antt =====
-- What is read back of a message that is saved.
use deep_messenger.Prelude.{
  ◌<◌, if_elim, ℕ, ◌≤◌, ◌≡◌, refl, sym, ap, ◌∙◌, false, Option, none, some, List, [], ◌∷◌, ◌++◌,
  ◌==◌, length, take, if_true, if_false, lt→ltb, ltb, drop-nil, arith,
}
use mathlib.Core.Path.{subst}
use mathlib.Core.List.{append-nil}
use deep_messenger.Prelude.Int.{pos}
use deep_messenger.Array.{text}
use deep_messenger.Message.Objects.{
  MessageStatus, undelivered, sent, sent_confirmed, recv, recv_confirmed, any_status, Sender, me,
  friend, DbMessage, db_message_set_text, room_for,
}
use deep_messenger.Sqlite.{
  int, Sqlite, ◌>>=◌, params_from, bound, int_of, bytes_of, copy_into, save,
}
use deep_messenger.Sqlite.Laws.{
  InsertsRow, Fits, Keeps, distinct, row_of, value_of, fetch-save, saved_with, copy_into-take,
  take_all,
}
use deep_messenger.Database.{db_init_schema, db_init_types, text_column}
use deep_messenger.Database.Messages.{
  kind_text, kind_mbox, message_table, message_columns, message_status_code, message_status,
  sender_code, sender_of, text_value, message_binds, db_message_process_row, db_message_save,
  db_message_get_by_pk,
}

status_lem : (s : MessageStatus) → message_status (message_status_code s) ≡ s
unfolding message_status message_status_code
status_lem undelivered = refl
status_lem sent = refl
status_lem sent_confirmed = refl
status_lem recv = refl
status_lem recv_confirmed = refl
status_lem any_status = refl

sender_lem : (s : Sender) → sender_of (sender_code s) ≡ s
unfolding sender_of sender_code
sender_lem me = refl
sender_lem friend = refl

copy_into-nil : (n : ℕ) (xs : List ℕ) → copy_into n xs [] ≡ take n xs
unfolding copy_into
copy_into-nil n xs =
    ap (λ l. take n xs ++ l) (drop-nil (length (take n xs))) ∙ append-nil (take n xs)

-- The fields that all messages have, and no body.
abbrev pub head_of : DbMessage → DbMessage
head_of msg = record msg {
  body_text = [];
  body_text_n_chunks = 0;
  body_nick = [];
  body_recv_id = [];
  body_mbox_id = [];
  body_mbox_onion = [];
}

-- A text message as it is read: the room of its text is for the text alone.
abbrev pub text_message : DbMessage → DbMessage
text_message msg = record (head_of msg) {
  body_text = msg.body_text;
  body_text_n_chunks = room_for (length msg.body_text);
}

-- A message of a mailbox as it is read.
abbrev pub mbox_message : DbMessage → DbMessage
mbox_message msg = record (head_of msg) {
  body_mbox_id = msg.body_mbox_id;
  body_mbox_onion = take 16 msg.body_mbox_onion;
}

module _ {W : Type 0} (sq : Sqlite W) where
  -- The row of a message of a kind is read as `back` says.
  abbrev ReadsAs : DbMessage → (DbMessage → DbMessage) → Type 0
  ReadsAs msg back =
      (id : ℕ)
      → db_message_process_row sq
          (row_of (db_init_schema message_table) ("id" ∷ message_columns)
            (int (pos id) ∷ params_from 1 9 (message_binds msg)))
          none
        ≡ back (record msg { id = id })

  code_lem : (s : MessageStatus) → message_status_code s < 2147483648
  unfolding message_status_code
  code_lem undelivered = omega arith
  code_lem sent = omega arith
  code_lem sent_confirmed = omega arith
  code_lem recv = omega arith
  code_lem recv_confirmed = omega arith
  code_lem any_status = omega arith

  side_lem : (s : Sender) → sender_code s < 2147483648
  unfolding sender_code
  side_lem me = omega arith
  side_lem friend = omega arith

  -- The values of a message's row are kept.
  abbrev Stores : DbMessage → Type 0
  Stores msg = Fits message_table message_columns (params_from 1 9 (message_binds msg))

  text-Stores :
      (msg : DbMessage) → msg.contact_id < 2147483648 → Stores (record msg { kind = kind_text })
  unfolding Fits params_from bound message_binds db_init_schema db_init_types text_value
  text-Stores msg small = (
    tt,
    (
      small,
      (
        side_lem msg.sender,
        (
          code_lem msg.status,
          (
            omega arith,
            (
              if_elim (Keeps text_column) (msg.body_text_n_chunks == 0) (λ e. tt) (λ e. tt),
              (tt, (tt, (tt, tt))),
            ),
          ),
        ),
      ),
    ),
  )

  mbox-Stores :
      (msg : DbMessage) → msg.contact_id < 2147483648 → Stores (record msg { kind = kind_mbox })
  unfolding Fits params_from bound message_binds db_init_schema db_init_types
  mbox-Stores msg small = (
    tt,
    (
      small,
      (side_lem msg.sender, (code_lem msg.status, (omega arith, (tt, (tt, (tt, (tt, tt))))))),
    ),
  )

  get-save :
      (msg saved : DbMessage) (back : DbMessage → DbMessage) (w w' : W)
      → InsertsRow sq
      → (msg.kind == 4) ≡ false
      → msg.id ≡ 0
      → ReadsAs msg back
      → Stores msg
      → saved.id < 2147483648
      → db_message_save sq msg w ≡ some (saved, w')
      → db_message_get_by_pk sq saved.id none w' ≡ some (some (back saved), w')
  unfolding db_message_save db_message_get_by_pk distinct
  get-save msg saved back w w' law real new reads fits small e =
      let made : ℕ → DbMessage = λ n. record msg { id = n } in
      let insert : ℕ → Option (ℕ × W) =
        λ n. save sq message_table message_columns (message_binds msg) 10 n w in
      let e0 =
        ap (λ n. ◌>>=◌ {B = DbMessage × W} (insert n) (λ (id, w''). some (made id, w''))) (sym new)
        ∙ sym (if_false (msg.kind == 4) _ _ real)
        ∙ e in
      let (id, ran, same) = saved_with sq (insert 0) made saved w' e0 in
      subst (λ s. db_message_get_by_pk sq s.id none w' ≡ some (some (back s), w')) same
        (fetch-save sq (db_message_process_row sq) none message_table message_columns
            (message_binds msg) 10 id w w' law refl fits
            (subst (λ (s : DbMessage). s.id < 2147483648) (sym same) small) ran
          ∙ ap (λ m. some (some m, w')) (reads id))

  -- The fields that all messages have, as they are read.
  read_head : DbMessage → ℕ → DbMessage
  unfolding message_status sender_of copy_into
  read_head msg id = record (head_of msg) {
    id = id;
    sender = sender_of (sender_code msg.sender);
    status = message_status (message_status_code msg.status);
    global_id = copy_into 16 (take 16 msg.global_id) [];
  }

  read_head_lem :
      (msg : DbMessage) (id : ℕ)
      → length msg.global_id ≤ 16
      → read_head msg id ≡ head_of (record msg { id = id })
  unfolding read_head
  read_head_lem msg id size = λ i. record (head_of msg) {
    id = id;
    sender = sender_lem msg.sender i;
    status = status_lem msg.status i;
    global_id = copy_into-take 16 msg.global_id size i;
  }

  set_text_lem :
      (b : List ℕ) (msg : DbMessage)
      → msg.body_text_n_chunks ≡ 0
      → db_message_set_text b (some (length b)) msg
        ≡ record msg { body_text = b; body_text_n_chunks = room_for (length b) }
  unfolding db_message_set_text room_for
  set_text_lem b msg none_yet = λ i. record msg {
    body_text = take_all (length b) b (omega arith) i;
    body_text_n_chunks =
        if_true (ltb msg.body_text_n_chunks (room_for (length b))) (room_for (length b))
          msg.body_text_n_chunks
          (lt→ltb msg.body_text_n_chunks (room_for (length b)) (omega (arith, none_yet))) i;
  }

  text-ReadsAs :
      (msg : DbMessage)
      → text msg.body_text ≡ msg.body_text
      → (msg.body_text_n_chunks == 0) ≡ false
      → length msg.global_id ≤ 16
      → ReadsAs (record msg { kind = kind_text }) text_message
  unfolding db_message_process_row message_binds bytes_of row_of value_of db_init_schema params_from
      bound int_of read_head text_value
  text-ReadsAs msg whole given size id =
      let msg' = record msg { kind = kind_text } in
      let body : bytes_of sq (text_value msg') ≡ msg.body_text =
        ap (bytes_of sq) (if_false _ _ _ given) ∙ whole in
      ap (λ b. db_message_set_text b (some (length b)) (read_head msg' id)) body
      ∙ set_text_lem msg.body_text (read_head msg' id) refl
      ∙ ap {B = DbMessage}
          (λ m. record m {
            body_text = msg.body_text;
            body_text_n_chunks = room_for (length msg.body_text);
          })
          (read_head_lem msg' id size)

  mbox-ReadsAs :
      (msg : DbMessage)
      → text msg.body_mbox_onion ≡ msg.body_mbox_onion
      → length msg.body_mbox_id ≤ 16
      → length msg.global_id ≤ 16
      → ReadsAs (record msg { kind = kind_mbox }) mbox_message
  unfolding db_message_process_row message_binds bytes_of row_of value_of db_init_schema params_from
      bound int_of read_head
  mbox-ReadsAs msg whole id_size size id =
      let msg' = record msg { kind = kind_mbox } in
      (λ i. record (read_head msg' id) {
        body_mbox_id = copy_into-take 16 msg.body_mbox_id id_size i;
        body_mbox_onion = (copy_into-nil 16 (text msg.body_mbox_onion) ∙ ap (take 16) whole) i;
      })
      ∙ ap {B = DbMessage}
          (λ m. record m {
            body_mbox_id = msg.body_mbox_id;
            body_mbox_onion = take 16 msg.body_mbox_onion;
          })
          (read_head_lem msg' id size)

  -- A new text message that is saved, where SQLite finds the row that was inserted by its id, is
  -- read back by the id that it was given with its text, for a text that was set and has no zero
  -- byte, a global identifier of at most 16 bytes and ids that fit in an int; bodies of other types
  -- are not stored. What is relied on of SQLite is only that a row is found with the values that
  -- were inserted, where the columns' types keep them.
  pub db_message_get_by_pk-save :
      (msg saved : DbMessage) (w w' : W)
      → InsertsRow sq
      → msg.kind ≡ kind_text
      → msg.id ≡ 0
      → text msg.body_text ≡ msg.body_text
      → (msg.body_text_n_chunks == 0) ≡ false
      → length msg.global_id ≤ 16
      → msg.contact_id < 2147483648
      → saved.id < 2147483648
      → db_message_save sq msg w ≡ some (saved, w')
      → db_message_get_by_pk sq saved.id none w' ≡ some (some (text_message saved), w')
  db_message_get_by_pk-save msg saved w w' law kind new whole given size contact small e =
      get-save msg saved text_message w w' law (ap (λ k. k == 4) kind) new
        (subst (λ k. ReadsAs (record msg { kind = k }) text_message) (sym kind)
          (text-ReadsAs msg whole given size))
        (subst (λ k. Stores (record msg { kind = k })) (sym kind) (text-Stores msg contact)) small e

  -- A new message that tells of a mailbox, saved and read back by the id that it was given, has the
  -- mailbox's identifier and only the first 16 of the 62 characters of its onion address, for an
  -- address without a zero byte, identifiers of at most 16 bytes and ids that fit in an int. What is
  -- relied on of SQLite is only that a row is found with the values that were inserted, where the
  -- columns' types keep them.
  pub db_message_get_by_pk-save_mbox :
      (msg saved : DbMessage) (w w' : W)
      → InsertsRow sq
      → msg.kind ≡ kind_mbox
      → msg.id ≡ 0
      → text msg.body_mbox_onion ≡ msg.body_mbox_onion
      → length msg.body_mbox_id ≤ 16
      → length msg.global_id ≤ 16
      → msg.contact_id < 2147483648
      → saved.id < 2147483648
      → db_message_save sq msg w ≡ some (saved, w')
      → db_message_get_by_pk sq saved.id none w' ≡ some (some (mbox_message saved), w')
  db_message_get_by_pk-save_mbox msg saved w w' law kind new whole id_size size contact small e =
      get-save msg saved mbox_message w w' law (ap (λ k. k == 4) kind) new
        (subst (λ k. ReadsAs (record msg { kind = k }) mbox_message) (sym kind)
          (mbox-ReadsAs msg whole id_size size))
        (subst (λ k. Stores (record msg { kind = k })) (sym kind) (mbox-Stores msg contact)) small e
