-- ===== src/SetContacts.antt =====
-- prot_mb_set_contacts.c: the message in which a client tells its mailbox whose messages to accept.
-- `find_account` stands for the look-up in the database of a mailbox's accounts, `hs` for the
-- callbacks of all messages of the connection, `wrap` makes a message object of this message, and
-- `ack_tran` is the acknowledgement that answers it.
pub mod Fields
pub mod Exchange
use deep_messenger.Prelude.{
  ℕ, zero, suc, ◌+◌, ◌*◌, ◌%◌, ◌^◌, Bool, true, false, not, Option, none, some, List, [], ◌∷◌, ◌++◌,
  ltb, take, drop, length, if◌then◌else◌,
}
use deep_messenger.ProtMain.{err_invalid_msg, Recv, Tran, Pmain, Run, live, ◌>>=◌, Handlers}
use deep_messenger.ProtMain.Codes.{prot_header, mailbox_set_contacts}
use deep_messenger.ProtMain.Write.{
  call_hooks, prot_main_push_tran, prot_main_push_recv, prot_main_set_error,
}
use deep_messenger.Socks5.{htons}
use deep_messenger.BufferCrypto.{Verified, ed25519_buffer_sign, ed25519_buffer_validate}

pub record Account : Type 0 where
  pub id : ℕ
  pub mailbox_id : List ℕ
  pub signing_pub_key : List ℕ

pub record Contact : Type 0 where
  pub id : ℕ
  pub account_id : ℕ
  pub signing_pub_key : List ℕ

-- The keys of the client's contacts, and the contacts that a mailbox has received.
pub record SetContacts : Type 0 where
  pub cl_mb_id : List ℕ
  pub cl_sig_priv_key : List ℕ
  pub cl_conts : List (List ℕ)
  pub mb_acc : Option Account
  pub mb_conts : List Contact

-- A number in network order at the front of the buffer.
abbrev pub ntohs : List ℕ → ℕ
ntohs (high ∷ low ∷ _) = high * 256 + low
ntohs _ = 0

-- The loop that adds the keys to the buffer.
abbrev pub joined : List (List ℕ) → List ℕ
joined [] = []
joined (key ∷ keys) = key ++ joined keys

-- The loop that takes n contacts off the input, and what is left of it.
unfoldable pub remove_contacts : ℕ → ℕ → List ℕ → List Contact × List ℕ
remove_contacts zero account_id input = ([], input)
remove_contacts (suc n) account_id input =
    let (conts, rest) = remove_contacts n account_id (drop 32 input) in
    (record { id = 0; account_id = account_id; signing_pub_key = take 32 input } ∷ conts, rest)

module _ {M W : Type 0} (sha512 : List ℕ → List ℕ) (sign : List ℕ → List ℕ → List ℕ)
    (verify : List ℕ → List ℕ → List ℕ → Verified) (find_account : W → List ℕ → Option Account)
    (hs : Handlers M W) (wrap : SetContacts → M) (ack_tran : SetContacts → Tran M) where
  unfoldable pub contacts_setup : SetContacts → Tran M → Pmain M W → Tran M × Pmain M W
  unfolding prot_header ed25519_buffer_sign
  contacts_setup msg phand p =
      let filled =
        phand.buffer
        ++ (prot_header mailbox_set_contacts
            ++ (p.transaction_id
                ++ (msg.cl_mb_id
                    ++ (htons (length msg.cl_conts % 2 ^ 16) ++ joined msg.cl_conts)))) in
      (
        record phand { buffer = ed25519_buffer_sign sha512 sign verify filled msg.cl_sig_priv_key },
        p,
      )

  unfoldable pub store_contacts :
      Account → ℕ → SetContacts → Recv M → Pmain M W → Run (Pmain M W) (Recv M × Pmain M W)
  unfolding remove_contacts prot_main_push_tran
  store_contacts acc contacts_len msg phand p = do
    let (conts, rest) = remove_contacts contacts_len acc.id (drop 36 p.input)
    let msg' = record msg { mb_acc = some acc; mb_conts = conts }
    p' ← prot_main_push_tran hs (record p { input = drop 64 rest }) (ack_tran msg')
    live (
      record phand { msg = wrap msg'; has_cleanup = false },
      record p' { current_recv_done = true },
    )

  unfoldable pub check_account :
      Option Account → ℕ → SetContacts → Recv M → Pmain M W → Run (Pmain M W) (Recv M × Pmain M W)
  unfolding store_contacts prot_main_set_error ed25519_buffer_validate
  check_account none contacts_len msg phand p = live (phand, prot_main_set_error p err_invalid_msg)
  check_account (some acc) contacts_len msg phand p =
      if not (
        ed25519_buffer_validate sha512 sign verify p.input (36 + (contacts_len * 32 + 64))
          acc.signing_pub_key)
      then live (
        record phand { msg = wrap (record msg { mb_acc = some acc }) },
        prot_main_set_error p err_invalid_msg,
      )
      else store_contacts acc contacts_len msg phand p

  unfoldable pub contacts_handle :
      SetContacts → Recv M → Pmain M W → Run (Pmain M W) (Recv M × Pmain M W)
  unfolding check_account
  contacts_handle msg phand p =
      if ltb (length p.input) 36
      then live (phand, p)
      else (let mailbox_id = take 16 (drop 18 p.input) in
          let contacts_len = ntohs (drop 34 p.input) in
          if ltb (length p.input) (36 + (contacts_len * 32 + 64))
          then live (phand, p)
          else check_account (find_account p.world mailbox_id) contacts_len msg phand p)

abbrev pub ev_set_contacts_ok : ℕ
ev_set_contacts_ok = 0x8801

abbrev pub ev_set_contacts_fail : ℕ
ev_set_contacts_fail = 0x8802

-- `contact_save` stands for `db_mb_contact_save` on the database of the mailbox, and `ack_recv` makes
-- the acknowledgement that is waited for, by the client's key of the mailbox's onion address.
module _ {M W : Type 0} (hs : Handlers M W) (contact_save : Contact → W → W)
    (ack_recv : List ℕ → SetContacts → Recv M) where
  unfoldable pub contacts_ack_received : Bool → Pmain M W → Pmain M W
  unfolding call_hooks
  contacts_ack_received success p =
      call_hooks hs (if success then ev_set_contacts_ok else ev_set_contacts_fail) p

  unfoldable pub contacts_done :
      (onion_pub_key : List ℕ) → SetContacts → Tran M → Pmain M W → Tran M × Pmain M W
  unfolding prot_main_push_recv
  contacts_done onion_pub_key msg phand p =
      (record phand { has_cleanup = false }, prot_main_push_recv p (ack_recv onion_pub_key msg))

  unfoldable pub contacts_cleanup : Pmain M W → Pmain M W
  unfolding call_hooks
  contacts_cleanup p = call_hooks hs ev_set_contacts_fail p

  unfoldable pub save_contacts : List Contact → W → W
  save_contacts [] w = w
  save_contacts (cont ∷ conts) w = save_contacts conts (contact_save cont w)

  -- Only once the acknowledgement is out the contacts are stored.
  unfoldable pub contacts_ack_sent : Bool → SetContacts → Pmain M W → Pmain M W
  unfolding save_contacts
  contacts_ack_sent success msg p =
      if success then record p { world = save_contacts msg.mb_conts p.world } else p
