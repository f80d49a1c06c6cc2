-- ===== src/MessageList/Items.antt =====
-- prot_message_list.c: the loop over the messages of a list that has arrived.
use deep_messenger.Prelude.{
  ℕ, zero, suc, ◌-◌, true, false, not, Option, none, some, List, [], ◌∷◌, ◌++◌, ◌==◌, ltb, take,
  drop, length, if◌then◌else◌,
}
use deep_messenger.ProtMain.{Run, live, fault, out_of_fuel, ◌>>=◌}
use deep_messenger.BufferCrypto.{Verified, ed25519_buffer_validate}
use deep_messenger.BufferCrypto.Envelope.{Cipher, RsaError, rsa_none, ntohl, rsa_buffer_decrypt}
use deep_messenger.Onion.{onion_address_valid}
use deep_messenger.Message.Objects.{
  MessageStatus, recv, recv_confirmed, friend, DbMessage, DbContact, Db, db_message_new,
  db_message_set_text,
}
use deep_messenger.Message.Receive.{Processed, whole_length, set_mailbox, read_recv}
use deep_messenger.MessageList.{From, from_client, from_mailbox}

-- The input, the contact object, the messages for the hook and the database, as the loop has them.
pub record Reading (W : Type 0) : Type 0 where
  pub input : List ℕ
  pub cont : Option DbContact
  pub messages : List DbMessage
  pub world : W

abbrev pub status_from : From → MessageStatus
status_from from_client = recv_confirmed
status_from from_mailbox = recv

unfoldable pub read_item_nick : List ℕ → DbMessage → DbContact → Processed
read_item_nick bytes m cont =
    if ltb 255 (length bytes)
    then (false, m, cont)
    else (true, record m { body_nick = bytes }, record cont { nickname = bytes })

-- `message_free`: what is left of the message is taken off the input.
abbrev pub skip : {W : Type 0} → ℕ → Reading W → Reading W
skip n st = record st { input = drop n st.input }

module _ {W : Type 0} (sha3 : List ℕ → List ℕ) (buffer : List ℕ) (db : Db W) where
  -- The address is checked before it is read.
  unfoldable pub read_item_mbox : List ℕ → DbMessage → DbContact → Processed
  unfolding set_mailbox
  read_item_mbox bytes m cont =
      let m' = record m { body_mbox_id = take 16 bytes } in
      if ltb (length bytes) 78
      then (false, m, cont)
      else if not (onion_address_valid sha3 buffer m'.body_mbox_onion)
      then (false, m', cont)
      else (true, record m' { body_mbox_onion = take 62 (drop 16 bytes) }, set_mailbox bytes cont)

  unfoldable pub read_item_body : W → ℕ → List ℕ → DbMessage → DbContact → Processed
  unfolding read_item_nick read_item_mbox read_recv db_message_set_text
  read_item_body w ctype bytes m cont =
      if ctype == 1
      then (true, db_message_set_text bytes (some (length bytes)) m, cont)
      else if ctype == 2
      then read_item_nick bytes m cont
      else if ctype == 3
      then read_item_mbox bytes m cont
      else if ctype == 4
      then read_recv sha3 buffer db w bytes m cont
      else (false, m, cont)

  unfoldable pub keep_item : ℕ → Reading W → Processed → Reading W
  keep_item n st (false, m, cont) = skip n (record st { cont = some cont })
  keep_item n st (true, m, cont) = skip n (record st {
    cont = some cont;
    messages = st.messages ++ (m ∷ []);
    world = db.contact_save cont (db.message_save m st.world);
  })

  -- Of a decrypted body with no type the type is not set.
  unfoldable pub plain_item :
      {P : Type 0}
      → From
      → List ℕ
      → ℕ
      → DbContact
      → Reading W
      → RsaError × List ℕ × Option ℕ
      → Run P (Reading W)
  unfolding keep_item read_item_body
  plain_item from gid n cont st (rsa_none, [], enc_len) = fault
  plain_item from gid n cont st (rsa_none, ctype ∷ bytes, enc_len) = live (
      keep_item n st (
        read_item_body st.world ctype bytes
          (record db_message_new {
            kind = ctype;
            sender = friend;
            contact_id = cont.id;
            global_id = gid;
            status = status_from from;
          })
          cont))
  plain_item from gid n cont st (_, plain, enc_len) = live (skip n st)

module _ {K S O W : Type 0} (sha512 : List ℕ → List ℕ) (sign : List ℕ → List ℕ → List ℕ)
    (verify : List ℕ → List ℕ → List ℕ → Verified) (sha3 : List ℕ → List ℕ) (buffer : List ℕ)
    (c : Cipher K S O) (db : Db W) where
  -- A message whose sender is known. The header is taken off the input first.
  unfoldable pub known_item : {P : Type 0} → From → ℕ → DbContact → Reading W → Run P (Reading W)
  unfolding plain_item rsa_buffer_decrypt
  known_item from message_len cont st =
      let gid = take 16 (drop 66 st.input) in
      let st' = record st { input = drop 82 st.input; cont = some cont } in
      elim (db.message_by_gid st.world gid) [
        | some m ↦ live (skip (message_len - 82) st')
        | none ↦
            plain_item sha3 buffer db from gid (message_len - 82) cont st'
              (rsa_buffer_decrypt c st'.input cont.local_enc_key_priv [])
      ]

  unfoldable pub handle_item : {P : Type 0} → From → ℕ → Reading W → Run P (Reading W)
  unfolding known_item ed25519_buffer_validate
  handle_item from message_len st =
      let key = take 32 (drop 34 st.input) in
      elim (ed25519_buffer_validate sha512 sign verify st.input message_len key) [
        | false ↦ live (skip message_len st)
        | true ↦ elim (db.contact_by_rsk_pub st.world key) [
          | none ↦ live (skip message_len (record st { cont = none }))
          | some cont ↦ known_item from message_len cont st
        ]
      ]

  -- `while (length > 0)`, on fuel, with the length that is left where it ends. A length of 0 is
  -- below that of a header, too.
  unfoldable pub item_loop : {P : Type 0} → ℕ → From → ℕ → Reading W → Run P (ℕ × Reading W)
  unfolding handle_item whole_length ntohl
  item_loop zero from len st = out_of_fuel
  item_loop (suc n) from len st =
      let message_len = whole_length (ntohl (drop 82 st.input)) in
      elim (ltb len 86) [
        | true ↦ live (len, st)
        | false ↦ elim (ltb len message_len) [
          | true ↦ live (len, st)
          | false ↦
              handle_item from message_len st >>= (λ st'. item_loop n from (len - message_len) st')
        ]
      ]
