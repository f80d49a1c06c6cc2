-- ===== src/Message/Receive.antt =====
-- prot_message.c: the handler of an incoming message, in a client and in a mailbox. An encrypted
-- body is decrypted from the input where it lies.
use deep_messenger.Prelude.{
  ℕ, ◌+◌, ◌%◌, ◌^◌, Bool, true, false, not, ◌||◌, none, some, List, [], ◌∷◌, ◌++◌, ◌==◌, ltb, leb,
  take, drop, length, if◌then◌else◌,
}
use deep_messenger.ProtMain.{err_invalid_msg, Recv, Tran, Pmain, Run, live, ◌>>=◌, Handlers}
use deep_messenger.ProtMain.Codes.{ack_signature}
use deep_messenger.ProtMain.Write.{prot_main_push_tran, prot_main_set_error}
use deep_messenger.Onion.{onion_address_valid}
use deep_messenger.Ack.{Ack}
use deep_messenger.Message.{message_ack}
use deep_messenger.Message.Objects.{
  sent_confirmed, ContactStatus, active, DbMessage, DbContact, Db, Message, db_message_set_text,
}

abbrev pub is_active : ContactStatus → Bool
is_active active = true
is_active _ = false

-- The loop that looks for a byte that is not zero.
unfoldable pub has_nonzero : List ℕ → Bool
has_nonzero [] = false
has_nonzero (b ∷ bs) = not (b == 0) || has_nonzero bs

-- A message of 86 bytes up to the length, and 336 bytes behind the encrypted ones. The sum of the
-- length and the constants is a `uint32_t`.
unfoldable pub whole_length : ℕ → ℕ
whole_length data_len = 86 + (data_len + 336) % 2 ^ 32

-- Whether the body is accepted, and the objects as they are then.
abbrev pub Processed : Type 0
Processed = Bool × DbMessage × DbContact

unfoldable pub read_nick : List ℕ → DbMessage → DbContact → Processed
read_nick bytes m cont =
    if leb 255 (length bytes)
    then (false, m, cont)
    else (true, record m { body_nick = bytes }, record cont { nickname = bytes })

unfoldable pub set_mailbox : List ℕ → DbContact → DbContact
unfolding has_nonzero
set_mailbox bytes cont =
    let cont' = record cont { has_mailbox = has_nonzero (take 16 bytes) } in
    if has_nonzero (take 16 bytes)
    then record cont' { mailbox_id = take 16 bytes; mailbox_onion = take 62 (drop 16 bytes) }
    else cont'

module _ {W : Type 0} (sha3 : List ℕ → List ℕ) (buffer : List ℕ) (db : Db W) where
  -- The onion address ends in the array's last byte, which is zero.
  unfoldable pub read_mbox : List ℕ → DbMessage → DbContact → Processed
  unfolding set_mailbox
  read_mbox bytes m cont =
      let onion = take 62 (drop 16 bytes) ++ (0 ∷ []) in
      let m' = record m { body_mbox_id = take 16 bytes; body_mbox_onion = onion } in
      if ltb (length bytes) 78
      then (false, m, cont)
      else if not (onion_address_valid sha3 buffer onion)
      then (false, m', cont)
      else (true, m', set_mailbox bytes cont)

  -- The confirmed message is read into the message object.
  unfoldable pub read_recv : W → List ℕ → DbMessage → DbContact → Processed
  read_recv w bytes m cont =
      if ltb (length bytes) 16
      then (false, m, cont)
      else elim (db.message_by_gid w (take 16 bytes)) [
        | none ↦ (false, m, cont)
        | some found ↦ (true, record found { status = sent_confirmed }, cont)
      ]

  unfoldable pub read_body : W → ℕ → List ℕ → DbMessage → DbContact → Processed
  unfolding read_nick read_mbox read_recv db_message_set_text
  read_body w ctype bytes m cont =
      if ctype == 1
      then (true, db_message_set_text bytes (some (length bytes)) m, cont)
      else if ctype == 2
      then read_nick bytes m cont
      else if ctype == 3
      then read_mbox bytes m cont
      else if ctype == 4
      then read_recv w bytes m cont
      else (false, m, cont)

module _ {M W : Type 0} (hs : Handlers M W) (wrap : Message → M)
    (ack_tran : Ack → Message → Tran M) where
  -- `cl_err`: what is left of the message is taken off the input.
  abbrev pub leave_client : ℕ → Pmain M W → Pmain M W
  leave_client data_len p = record p { input = drop (data_len + 340) p.input }

  abbrev pub refuse_client : ℕ → Message → Recv M → Pmain M W → Run (Pmain M W) (Recv M × Pmain M W)
  unfolding prot_main_set_error
  refuse_client data_len msg phand p = live (
    record phand { msg = wrap msg },
    leave_client data_len (prot_main_set_error p err_invalid_msg),
  )

  -- `cl_ack_send`: the cleanup is taken from the handler inside the message object, also where a
  -- copy of it runs.
  unfoldable pub cl_ack_send :
      ℕ → DbContact → Message → Recv M → Pmain M W → Run (Pmain M W) (Recv M × Pmain M W)
  unfolding prot_main_push_tran
  cl_ack_send data_len cont msg phand p = do
    p' ←
        prot_main_push_tran hs p
          (ack_tran (message_ack ack_signature [] cont.local_sig_key_priv) msg)
    live (
      record phand {
        msg = wrap msg;
        has_cleanup = if phand.queued then phand.has_cleanup else false;
      },
      leave_client data_len (record p' { current_recv_done = true }),
    )

  unfoldable pub finish_client :
      ℕ → Message → Recv M → Pmain M W → Processed → Run (Pmain M W) (Recv M × Pmain M W)
  unfolding cl_ack_send
  finish_client data_len msg phand p (ok, m, cont) =
      let msg' = record msg { client_msg = some m; client_cont = some cont } in
      if ok then cl_ack_send data_len cont msg' phand p else refuse_client data_len msg' phand p
