-- ===== src/ProtMain/Connect.antt =====
-- How a connection to an onion address is begun through the tor client, and which object receives a
-- message that nobody waits for.
use deep_messenger.Prelude.{
  ℕ, ◌≡◌, Bool, Option, none, some, List, [], ◌∷◌, ◌==◌, if_elim, if◌then◌else◌, arith,
}
use deep_messenger.Socks5.{Socks5Data, socks5_connect_onion}
use deep_messenger.ProtMain.{Recv, Pmain, Run, live, Handlers, err_socks_conn_fail}
use deep_messenger.ProtMain.Codes.{
  transaction_request, friend_request, message_container, client_fetch, mailbox_register,
  mailbox_del_account, mailbox_set_contacts, mailbox_fetch,
}
use deep_messenger.ProtMain.Write.{prot_main_fail}

-- What the system's calls give: whether a bufferevent could be made, the addresses of the tor
-- client or none on an error, those to which a connection could be begun, and the number that sscanf
-- reads.
pub record Network (A : Type 0) : Type 0 where
  pub socket_new : Bool
  pub getaddrinfo : Option (List A)
  pub socket_connect : A → Bool
  pub sscanf : List ℕ → Option ℕ

-- The first address to which a connection could be begun.
unfoldable pub first_connected : {A : Type 0} → (A → Bool) → List A → Option A
first_connected connect [] = none
first_connected connect (aip ∷ rest) =
    let found = first_connected connect rest in if connect aip then some aip else found

module _ {M W : Type 0} (hs : Handlers M W) where
  unfoldable pub begin_socks5 :
      {A : Type 0}
      → Option A
      → Option ℕ
      → (onion_address : List ℕ) → Pmain M W
      → Run (Pmain M W) (Pmain M W × Socks5Data)
  unfolding prot_main_fail
  begin_socks5 none port onion_address p = prot_main_fail hs p err_socks_conn_fail
  begin_socks5 (some aip) none onion_address p = prot_main_fail hs p err_socks_conn_fail
  begin_socks5 (some aip) (some port) onion_address p =
      live (p, socks5_connect_onion onion_address port)

  -- The connection, and the SOCKS5 connection that calls `prot_main_socks5_cb` at its end.
  unfoldable pub prot_main_connect :
      {A : Type 0}
      → Network A
      → (onion_address onion_port : List ℕ) → Pmain M W
      → Run (Pmain M W) (Pmain M W × Socks5Data)
  unfolding begin_socks5 first_connected prot_main_fail
  prot_main_connect net onion_address onion_port p =
      if net.socket_new
      then elim net.getaddrinfo [
        | none ↦ prot_main_fail hs p err_socks_conn_fail
        | some servinfo ↦
            begin_socks5 (first_connected net.socket_connect servinfo) (net.sscanf onion_port)
              onion_address p
      ]
      else prot_main_fail hs p err_socks_conn_fail

-- The new objects of the messages that are received, each as its handler.
pub record Made (M : Type 0) : Type 0 where
  pub txn_req : Recv M
  pub friend_req : Recv M
  pub message_to_client : Recv M
  pub client_fetch_req : Recv M
  pub acc_register : Recv M
  pub acc_delete : Recv M
  pub set_contacts_req : Recv M
  pub message_to_mailbox : Recv M
  pub mb_fetch_req : Recv M

unfoldable pub prot_handler_autogen_client : {M : Type 0} → Made M → ℕ → Option (Recv M)
prot_handler_autogen_client made code =
    if code == transaction_request
    then some made.txn_req
    else if code == friend_request
    then some made.friend_req
    else if code == message_container
    then some made.message_to_client
    else if code == client_fetch
    then some made.client_fetch_req
    else none

unfoldable pub prot_handler_autogen_mailbox : {M : Type 0} → Made M → ℕ → Option (Recv M)
prot_handler_autogen_mailbox made code =
    if code == transaction_request
    then some made.txn_req
    else if code == mailbox_register
    then some made.acc_register
    else if code == mailbox_del_account
    then some made.acc_delete
    else if code == mailbox_set_contacts
    then some made.set_contacts_req
    else if code == message_container
    then some made.message_to_mailbox
    else if code == mailbox_fetch
    then some made.mb_fetch_req
    else none

-- Each object has the code of its message.
pub record HasCodes {M : Type 0} (made : Made M) : Type 0 where
  pub txn_req : made.txn_req.msg_code ≡ transaction_request
  pub friend_req : made.friend_req.msg_code ≡ friend_request
  pub message_to_client : made.message_to_client.msg_code ≡ message_container
  pub client_fetch_req : made.client_fetch_req.msg_code ≡ client_fetch
  pub acc_register : made.acc_register.msg_code ≡ mailbox_register
  pub acc_delete : made.acc_delete.msg_code ≡ mailbox_del_account
  pub set_contacts_req : made.set_contacts_req.msg_code ≡ mailbox_set_contacts
  pub message_to_mailbox : made.message_to_mailbox.msg_code ≡ message_container
  pub mb_fetch_req : made.mb_fetch_req.msg_code ≡ mailbox_fetch

abbrev OfCode : {M : Type 0} → ℕ → Option (Recv M) → Type 0
OfCode code none = Unit
OfCode code (some phand) = phand.msg_code ≡ code

entry-OfCode :
    {M : Type 0} (code own : ℕ) (phand : Recv M) (others : Option (Recv M))
    → phand.msg_code ≡ own
    → OfCode code others
    → OfCode code (if code == own then some phand else others)
entry-OfCode code own phand others h rest =
    if_elim (OfCode code) (code == own) (λ same. ground (arith, same, h)) (λ other. rest)

-- In both modes the object that is made for a code is one of that code.
pub autogen-OfCode :
    {M : Type 0} (made : Made M) (code : ℕ)
    → HasCodes made
    → OfCode code (prot_handler_autogen_client made code)
      × OfCode code (prot_handler_autogen_mailbox made code)
unfolding prot_handler_autogen_client prot_handler_autogen_mailbox
autogen-OfCode made code h = (
  entry-OfCode code transaction_request made.txn_req _ h.txn_req (
      entry-OfCode code friend_request made.friend_req _ h.friend_req (
        entry-OfCode code message_container made.message_to_client _ h.message_to_client
          (entry-OfCode code client_fetch made.client_fetch_req none h.client_fetch_req tt))),
  entry-OfCode code transaction_request made.txn_req _ h.txn_req (
      entry-OfCode code mailbox_register made.acc_register _ h.acc_register (
        entry-OfCode code mailbox_del_account made.acc_delete _ h.acc_delete (
          entry-OfCode code mailbox_set_contacts made.set_contacts_req _ h.set_contacts_req (
            entry-OfCode code message_container made.message_to_mailbox _ h.message_to_mailbox
              (entry-OfCode code mailbox_fetch made.mb_fetch_req none h.mb_fetch_req tt))))),
)
