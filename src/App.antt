-- ===== src/App.antt =====
-- app_actions.c and app_ui_handle_msg.c: what the application does with the events of a connection,
-- and the messages that it sends. The windows are what is asked of them; `get_by_pk` is the query of
-- the contacts. Where the code follows a null pointer there is no result.
pub mod Refresh
use deep_messenger.Prelude.{
  ℕ, zero, suc, ◌+◌, Bool, true, false, not, ◌&&◌, ◌||◌, Option, none, some, List, [], ◌∷◌, ◌++◌,
  ◌==◌, ◌>>=◌, map, length, if◌then◌else◌,
}
use deep_messenger.Message.Objects.{
  DbMessage, DbContact, ContactStatus, active, pending_in, pending_out, me, undelivered,
  db_message_new,
}
use deep_messenger.Database.Messages.{kind_text, kind_nick, kind_recv}

-- The texts of `app_ui_info`, with what they hold.
pub data Notice : Type 0 where
  accepted_request : (nickname onion_address : List ℕ) → Notice
  sent_request : (nickname onion_address : List ℕ) → Notice
  new_message : (nickname : List ℕ) → Notice
  changed_nickname : (nickname : List ℕ) → Notice
  fetched_from : ℕ → (nickname : List ℕ) → Notice
  fetched_from_mailbox : ℕ → Notice
  someone_changed_nickname : Notice

-- `chat_refresh` is told whether to keep its position.
pub data UiCall : Type 0 where
  info : Notice → UiCall
  chat_refresh : Bool → UiCall
  update_contacts : UiCall
  stack_redraw : UiCall

unfoldable pub hook_friend_req : DbContact → List UiCall
hook_friend_req friend = if friend.deleted then [] else elim friend.status [
  | active ↦
      info (accepted_request friend.nickname friend.onion_address)
      ∷ update_contacts
      ∷ stack_redraw
      ∷ []
  | pending_in ↦ info (sent_request friend.nickname friend.onion_address) ∷ []
  | pending_out ↦ []
]

-- The chat that is open is that of the message's contact.
unfoldable pub is_open : Option DbContact → DbMessage → Bool
is_open none msg = false
is_open (some cont) msg = cont.id == msg.contact_id

unfoldable pub hook_message :
    (get_by_pk : ℕ → Option DbContact) (cont_selected : Option DbContact)
    → DbMessage
    → Option (List UiCall)
unfolding is_open
hook_message get_by_pk cont_selected msg =
    let refresh =
      if is_open cont_selected msg
      then (if msg.kind == kind_text then chat_refresh false ∷ [] else [])
        ++ (if msg.kind == kind_recv then chat_refresh true ∷ [] else [])
      else [] in
    elim (get_by_pk msg.contact_id) [
      | none ↦ if (msg.kind == kind_text) || (msg.kind == kind_nick) then none else some refresh
      | some cont ↦ some (
          refresh
          ++ (if msg.kind == kind_text then info (new_message cont.nickname) ∷ [] else [])
          ++ (if msg.kind == kind_nick
              then update_contacts ∷ stack_redraw ∷ info (changed_nickname cont.nickname) ∷ []
              else []))
    ]

-- The selected contact is read when there is a message.
unfoldable pub hook_client_fetch :
    (cont_selected : Option DbContact) → List DbMessage → Option (List UiCall)
hook_client_fetch cont_selected [] = some []
hook_client_fetch none (msg ∷ messages) = none
hook_client_fetch (some cont) (msg ∷ messages) =
    some (if msg.contact_id == cont.id then chat_refresh true ∷ [] else [])

-- The loop that looks whether the chat and the contacts are to be refreshed.
unfoldable pub to_refresh :
    (cont_selected : Option DbContact)
    → List DbMessage
    → (ref_chat ref_contacts : Bool) → Bool × Bool
unfolding is_open
to_refresh cont_selected [] ref_chat ref_contacts = (ref_chat, ref_contacts)
to_refresh cont_selected (msg ∷ messages) ref_chat ref_contacts =
    to_refresh cont_selected messages (if is_open cont_selected msg then true else ref_chat)
      (if msg.kind == kind_nick then true else ref_contacts)

-- Of a contact that answered; `failed` is the event that it did not.
unfoldable pub hook_contact_sync :
    (get_by_pk : ℕ → Option DbContact) (cont_selected : Option DbContact)
    → (failed : Bool) → List DbMessage
    → Option (List UiCall)
unfolding to_refresh
hook_contact_sync get_by_pk cont_selected true messages = some []
hook_contact_sync get_by_pk cont_selected false [] = some []
hook_contact_sync get_by_pk cont_selected false (msg ∷ messages) = do
  let refs = to_refresh cont_selected (msg ∷ messages) false false
  cont ← get_by_pk msg.contact_id
  some (
      (info (fetched_from (length (msg ∷ messages)) cont.nickname) ∷ [])
      ++ (if refs.0 then chat_refresh false ∷ [] else [])
      ++ (if refs.1
          then update_contacts ∷ stack_redraw ∷ info (changed_nickname cont.nickname) ∷ []
          else []))

-- Of the mailbox.
unfoldable pub hook_mb_sync :
    (cont_selected : Option DbContact) → (failed : Bool) → List DbMessage → List UiCall
unfolding to_refresh
hook_mb_sync cont_selected true messages = []
hook_mb_sync cont_selected false messages =
    let refs = to_refresh cont_selected messages false false in
    (info (fetched_from_mailbox (length messages)) ∷ [])
    ++ (if refs.0 then chat_refresh false ∷ [] else [])
    ++ (if refs.1 then update_contacts ∷ info someone_changed_nickname ∷ [] else [])

-- What a connection is given to send, in order.
pub data Outgoing : Type 0 where
  txn_request : Outgoing
  to_client : DbMessage → Outgoing
  client_fetch_of : DbContact → Outgoing
  mailbox_fetch_of : Outgoing

-- The answer that a message was received; `id` is the identifier that it is given.
unfoldable pub recv_of : DbContact → (id : List ℕ) → DbMessage → DbMessage
unfolding db_message_new
recv_of cont id msg = record db_message_new {
  kind = kind_recv;
  contact_id = cont.id;
  sender = me;
  status = undelivered;
  global_id = id;
  body_recv_id = msg.global_id;
}

-- The answers, the first of which is given the identifier `i`.
unfoldable pub receipts : (gen_id : ℕ → List ℕ) → DbContact → ℕ → List DbMessage → List Outgoing
unfolding recv_of
receipts gen_id cont i [] = []
receipts gen_id cont i (msg ∷ msgs) =
    to_client (recv_of cont (gen_id i) msg) ∷ receipts gen_id cont (i + 1) msgs

-- What is sent to the contact: the messages that wait, those received that were not confirmed, and
-- the request for the contact's own.
unfoldable pub app_contact_sync :
    (gen_id : ℕ → List ℕ) (undelivered_to received_from : DbContact → List DbMessage)
    → DbContact
    → List Outgoing
unfolding receipts
app_contact_sync gen_id undelivered_to received_from cont =
    (txn_request ∷ [])
    ++ (map to_client (undelivered_to cont)
        ++ (receipts gen_id cont 0 (received_from cont) ++ (client_fetch_of cont ∷ [])))

-- `is_defined` is whether the option "mailbox_onion_address" is set.
unfoldable pub app_mailbox_sync : (is_defined : Bool) → Option (List Outgoing)
app_mailbox_sync is_defined =
    if is_defined then some (txn_request ∷ mailbox_fetch_of ∷ []) else none

-- Whether the chat is refreshed, once a message is out or has failed.
unfoldable pub message_mb_hook_cb :
    (cont_selected : Option DbContact) → (ok : Bool) → DbMessage → List UiCall
unfolding is_open
message_mb_hook_cb cont_selected ok dbmsg =
    if ok && is_open cont_selected dbmsg then chat_refresh true ∷ [] else []
