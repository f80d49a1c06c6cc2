-- ===== src/Fetch/Answer.antt =====
-- A request to fetch is answered with the messages that wait for its sender.
use deep_messenger.Prelude.{
  ℕ, ◌≡◌, refl, ap, ◌∙◌, true, false, not, ◌||◌, none, some, List, [], ◌++◌, take, drop, length,
  if_false,
}
use deep_messenger.ProtMain.{Recv, Tran, Pmain, live, ◌>>=◌, Handlers}
use deep_messenger.ProtMain.Write.{prot_main_push_tran}
use deep_messenger.BufferCrypto.{Verified, valid, ed25519_buffer_validate}
use deep_messenger.SetContacts.{Account}
use deep_messenger.SignedRequest.{request_read}
use deep_messenger.Message.Objects.{undelivered, DbContact, Db}
use deep_messenger.Message.Receive.{is_active}
use deep_messenger.MessageList.{from_client, MessageList}
use deep_messenger.ProtMain.Codes.{mailbox_fetch, client_fetch}
use deep_messenger.Fetch.{
  MbFetch, answer, answer_contact, mb_fetch_setup, mb_fetch_handle, client_fetch_setup,
  client_fetch_handle,
}

module _ {M W : Type 0} (sha512 : List ℕ → List ℕ) (sign : List ℕ → List ℕ → List ℕ)
    (verify : List ℕ → List ℕ → List ℕ → Verified)
    (sign-length : (key hash : List ℕ) → length (sign key hash) ≡ 64) (db : Db W)
    (hs : Handlers M W) (list_tran : MessageList → Tran M) (t : Tran M) (s p : Pmain M W)
    (phand : Recv M) (rest : List ℕ) (fresh : t.buffer ≡ [])
    (id16 : length s.transaction_id ≡ 16) where
  -- A client's request to its mailbox, arriving first in the mailbox's input and signed with the
  -- key of the account that it names, is answered with a list of all messages that the mailbox has
  -- stored for that account and of no others: the list is put into the queue, and then the request
  -- is taken off the input and is received.
  pub mb_fetch_handle-mb_fetch_setup :
      (msg : MbFetch) (acc : Account)
      → length msg.mb_id ≡ 16
      → ((hash : List ℕ) → verify acc.signing_pub_key (sign msg.mb_priv_sig_key hash) hash ≡ valid)
      → db.account_by_mbid p.world msg.mb_id ≡ some acc
      → p.input ≡ (mb_fetch_setup sha512 sign verify msg t s).buffer ++ rest
      → (mb_fetch_handle sha512 sign verify db hs list_tran phand p ≡ (
          prot_main_push_tran hs p (
            list_tran (record {
              from = from_client;
              client_cont = none;
              client_msgs = [];
              mailbox_msgs = db.mb_messages_all p.world acc;
            }))
          >>= λ p'. live (phand, record p' { input = drop 98 p'.input; current_recv_done = true })))
        × (drop 98 p.input ≡ rest)
  unfolding mb_fetch_setup mb_fetch_handle answer
  mb_fetch_handle-mb_fetch_setup msg acc size pair found arrived =
      let (enough, id, genuine, taken) =
        request_read sha512 sign verify sign-length mailbox_fetch 16 98 t.buffer s.transaction_id
          msg.mb_id msg.mb_priv_sig_key acc.signing_pub_key p.input rest id16 size refl fresh pair
          arrived in
      let found' : db.account_by_mbid p.world (take 16 (drop 18 p.input)) ≡ some acc =
        ap (db.account_by_mbid p.world) id ∙ found in
      (rw (mb_fetch_handle, enough, found', genuine) refl, taken)

  -- A client's request to a contact, arriving first in the contact's input, is answered with a list
  -- of the messages that could not be delivered to the client, if the contact knows its signing key
  -- as that of an active contact: the list is put into the queue, and then the request is taken off
  -- the input and is received.
  pub client_fetch_handle-client_fetch_setup :
      (cont known : DbContact)
      → length cont.local_sig_key_pub ≡ 32
      → ((hash : List ℕ)
          → verify cont.local_sig_key_pub (sign cont.local_sig_key_priv hash) hash ≡ valid)
      → db.contact_by_rsk_pub p.world cont.local_sig_key_pub ≡ some known
      → is_active known.status ≡ true
      → known.deleted ≡ false
      → p.input ≡ (client_fetch_setup sha512 sign verify cont t s).buffer ++ rest
      → (client_fetch_handle sha512 sign verify db hs list_tran phand p ≡ (
          prot_main_push_tran hs p (
            list_tran (record {
              from = from_client;
              client_cont = some known;
              client_msgs = db.messages_all p.world known undelivered;
              mailbox_msgs = [];
            }))
          >>= λ p'.
              live (phand, record p' { input = drop 114 p'.input; current_recv_done = true })))
        × (drop 114 p.input ≡ rest)
  unfolding client_fetch_setup client_fetch_handle answer_contact answer
  client_fetch_handle-client_fetch_setup cont known size pair found active_lem deleted_lem arrived =
      let key = cont.local_sig_key_pub in
      let (enough, id, genuine, taken) =
        request_read sha512 sign verify sign-length client_fetch 32 114 t.buffer s.transaction_id
          key cont.local_sig_key_priv key p.input rest id16 size refl fresh pair arrived in
      let found' : db.contact_by_rsk_pub p.world (take 32 (drop 18 p.input)) ≡ some known =
        ap (db.contact_by_rsk_pub p.world) id ∙ found in
      let genuine' : ed25519_buffer_validate sha512 sign verify p.input 114
            (take 32 (drop 18 p.input))
          ≡ true =
        ap (ed25519_buffer_validate sha512 sign verify p.input 114) id ∙ genuine in
      let admitted : (not (is_active known.status) || known.deleted) ≡ false =
        ap (λ b. not b || known.deleted) active_lem ∙ deleted_lem in
      (rw (client_fetch_handle, enough, genuine', found') (if_false _ _ _ admitted), taken)
