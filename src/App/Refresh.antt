-- ===== src/App/Refresh.antt =====
-- When the chat and the contacts are refreshed, and which messages are answered.
use deep_messenger.Prelude.{
  none, some, length, ◌++◌, ℕ, ◌≡◌, refl, ap, ◌∙◌, ◌+◌, Bool, true, false, ◌||◌, Option, List, [],
  ◌∷◌, map, ◌==◌, if◌then◌else◌,
}
use deep_messenger.Message.Objects.{DbMessage, DbContact}
use deep_messenger.Database.Messages.{kind_nick}
use deep_messenger.App.{
  info, chat_refresh, update_contacts, stack_redraw, fetched_from, fetched_from_mailbox,
  changed_nickname, someone_changed_nickname, hook_contact_sync, hook_mb_sync, is_open, to_refresh,
  Outgoing, to_client, txn_request, client_fetch_of, mailbox_fetch_of, recv_of, receipts,
}

-- Whether a message has a property.
abbrev pub any : (DbMessage → Bool) → List DbMessage → Bool
any p [] = false
any p (msg ∷ messages) = p msg || any p messages

set_if : (b c : Bool) → (if b then true else c) ≡ (c || b)
set_if true true = refl
set_if true false = refl
set_if false true = refl
set_if false false = refl

or_assoc : (a b c : Bool) → ((a || b) || c) ≡ (a || (b || c))
or_assoc true b c = refl
or_assoc false b c = refl

or_false : (a : Bool) → (a || false) ≡ a
or_false true = refl
or_false false = refl

-- The two flags, from those that were set before.
to_refresh-any :
    (cont_selected : Option DbContact) (messages : List DbMessage) (ref_chat ref_contacts : Bool)
    → to_refresh cont_selected messages ref_chat ref_contacts ≡ (
      ref_chat || any (is_open cont_selected) messages,
      ref_contacts || any (λ msg. msg.kind == kind_nick) messages,
    )
unfolding to_refresh
to_refresh-any cont_selected [] ref_chat ref_contacts =
    rw (or_false ref_chat, or_false ref_contacts)
to_refresh-any cont_selected (msg ∷ messages) ref_chat ref_contacts =
    to_refresh-any cont_selected messages _ _
    ∙ ap
        (λ b. (
          b || any (is_open cont_selected) messages,
          (if msg.kind == kind_nick then true else ref_contacts)
              || any (λ m. m.kind == kind_nick) messages,
        ))
        (set_if (is_open cont_selected msg) ref_chat)
    ∙ ap
        (λ b. (
          (ref_chat || is_open cont_selected msg) || any (is_open cont_selected) messages,
          b || any (λ m. m.kind == kind_nick) messages,
        ))
        (set_if (msg.kind == kind_nick) ref_contacts)
    ∙ rw (
      or_assoc ref_chat (is_open cont_selected msg) (any (is_open cont_selected) messages),
      or_assoc ref_contacts (msg.kind == kind_nick) (any (λ m. m.kind == kind_nick) messages),
    )

-- The identifier of the message that an answer is to.
abbrev answers : Outgoing → List ℕ
answers txn_request = []
answers (to_client msg) = msg.body_recv_id
answers (client_fetch_of cont) = []
answers mailbox_fetch_of = []

-- Each message that was received is answered once, in order.
pub receipts-answers :
    (gen_id : ℕ → List ℕ) (cont : DbContact) (i : ℕ) (msgs : List DbMessage)
    → map answers (receipts gen_id cont i msgs) ≡ map (λ msg. msg.global_id) msgs
unfolding receipts recv_of
receipts-answers gen_id cont i [] = refl
receipts-answers gen_id cont i (msg ∷ msgs) =
    ap (λ rest. msg.global_id ∷ rest) (receipts-answers gen_id cont (i + 1) msgs)

-- A message is of the contact whose chat is open.
abbrev pub opened : Option DbContact → List DbMessage → Bool
opened none messages = false
opened (some cont) messages = any (λ msg. cont.id == msg.contact_id) messages

-- A message tells of a new nickname.
abbrev pub renamed : List DbMessage → Bool
renamed messages = any (λ msg. msg.kind == 2) messages

any-is_open :
    (cont_selected : Option DbContact) (messages : List DbMessage)
    → any (is_open cont_selected) messages ≡ opened cont_selected messages
unfolding is_open
any-is_open none [] = refl
any-is_open none (msg ∷ messages) = any-is_open none messages
any-is_open (some cont) messages = refl

flags_lem :
    (cont_selected : Option DbContact) (messages : List DbMessage)
    → to_refresh cont_selected messages false false
      ≡ (opened cont_selected messages, renamed messages)
flags_lem cont_selected messages =
    to_refresh-any cont_selected messages false false
    ∙ ap (λ b. (b, renamed messages)) (any-is_open cont_selected messages)

-- When messages have been fetched, from a contact or from the mailbox, the user is told how many,
-- then the chat is refreshed if one of them, wherever in the list, is of the contact whose chat is
-- open, and the contacts are if one has a nickname; and not otherwise. The contact that is named is
-- that of the first message.
pub sync-refreshes :
    (get_by_pk : ℕ → Option DbContact) (cont_selected : Option DbContact) (msg : DbMessage)
    (messages : List DbMessage) (cont : DbContact)
    → get_by_pk msg.contact_id ≡ some cont
    → (hook_contact_sync get_by_pk cont_selected false (msg ∷ messages)
        ≡ some (
            info (fetched_from (length (msg ∷ messages)) cont.nickname)
            ∷ ((if opened cont_selected (msg ∷ messages) then chat_refresh false ∷ [] else [])
                ++ (if renamed (msg ∷ messages)
                    then update_contacts ∷ stack_redraw ∷ info (changed_nickname cont.nickname) ∷ []
                    else []))))
      × (hook_mb_sync cont_selected false (msg ∷ messages)
          ≡ info (fetched_from_mailbox (length (msg ∷ messages)))
            ∷ ((if opened cont_selected (msg ∷ messages) then chat_refresh false ∷ [] else [])
                ++ (if renamed (msg ∷ messages)
                    then update_contacts ∷ info someone_changed_nickname ∷ []
                    else [])))
unfolding hook_contact_sync hook_mb_sync
sync-refreshes get_by_pk cont_selected msg messages cont found = (
  rw (found, flags_lem cont_selected (msg ∷ messages)) refl,
  rw (flags_lem cont_selected (msg ∷ messages)) refl,
)
