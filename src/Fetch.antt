-- ===== src/Fetch.antt =====
-- prot_mb_fetch.c and prot_client_fetch.c: the requests for the messages that a mailbox stores and
-- for those that a contact could not deliver. `list_tran` and `list_recv` make the handlers of a
-- list of messages.
pub mod Answer
use deep_messenger.Prelude.{
  ℕ, ◌+◌, Bool, true, false, not, ◌||◌, Option, none, some, List, [], ◌∷◌, ◌++◌, ltb, take, drop,
  length, if◌then◌else◌,
}
use deep_messenger.ProtMain.{err_invalid_msg, Recv, Tran, Pmain, Run, live, fault, ◌>>=◌, Handlers}
use deep_messenger.ProtMain.Codes.{prot_header, mailbox_fetch, client_fetch}
use deep_messenger.ProtMain.Write.{
  call_hooks, prot_main_push_tran, prot_main_push_recv, prot_main_set_error,
}
use deep_messenger.BufferCrypto.{Verified, ed25519_buffer_sign, ed25519_buffer_validate}
use deep_messenger.SetContacts.{Account}
use deep_messenger.Message.Objects.{undelivered, DbContact, Db}
use deep_messenger.Message.Receive.{is_active}
use deep_messenger.MessageList.{from_client, from_mailbox, MessageList}
use deep_messenger.MessageList.Handler.{ev_client_fetch_fail, ev_mb_fetch_fail}

pub record MbFetch : Type 0 where
  pub mb_id : List ℕ
  pub mb_priv_sig_key : List ℕ

-- A request that names its sender, up to the signature.
unfoldable pub request : ℕ → List ℕ → List ℕ → List ℕ
unfolding prot_header
request msg_code transaction_id id = prot_header msg_code ++ (transaction_id ++ id)

abbrev pub mailbox_list : MessageList
mailbox_list = record {
  from = from_mailbox;
  client_cont = none;
  client_msgs = [];
  mailbox_msgs = [];
}

module _ {M W : Type 0} (hs : Handlers M W) where
  unfoldable pub mb_fetch_cleanup : Tran M → Pmain M W → Pmain M W
  unfolding call_hooks
  mb_fetch_cleanup phand p = if phand.success then p else call_hooks hs ev_mb_fetch_fail p

  unfoldable pub client_fetch_cleanup : Tran M → Pmain M W → Pmain M W
  unfolding call_hooks
  client_fetch_cleanup phand p = if phand.success then p else call_hooks hs ev_client_fetch_fail p

module _ {M W : Type 0} (list_recv : MessageList → Recv M) where
  unfoldable pub mb_fetch_done : Pmain M W → Pmain M W
  unfolding prot_main_push_recv
  mb_fetch_done p = prot_main_push_recv p (list_recv mailbox_list)

  unfoldable pub client_fetch_done : DbContact → Pmain M W → Pmain M W
  unfolding prot_main_push_recv
  client_fetch_done cont p =
      prot_main_push_recv p
        (list_recv (record mailbox_list { from = from_client; client_cont = some cont }))

module _ {M W : Type 0} (sha512 : List ℕ → List ℕ) (sign : List ℕ → List ℕ → List ℕ)
    (verify : List ℕ → List ℕ → List ℕ → Verified) where
  unfoldable pub mb_fetch_setup : MbFetch → Tran M → Pmain M W → Tran M
  unfolding request ed25519_buffer_sign
  mb_fetch_setup msg phand p = record phand {
    buffer =
        ed25519_buffer_sign sha512 sign verify
          (phand.buffer ++ request mailbox_fetch p.transaction_id msg.mb_id) msg.mb_priv_sig_key;
  }

  unfoldable pub client_fetch_setup : DbContact → Tran M → Pmain M W → Tran M
  unfolding request ed25519_buffer_sign
  client_fetch_setup cont phand p = record phand {
    buffer =
        ed25519_buffer_sign sha512 sign verify
          (phand.buffer ++ request client_fetch p.transaction_id cont.local_sig_key_pub)
          cont.local_sig_key_priv;
  }

  module _ (db : Db W) (hs : Handlers M W) (list_tran : MessageList → Tran M) where
    -- The list is sent, and the request, of `n` bytes, is received.
    unfoldable pub answer :
        ℕ → MessageList → Recv M → Pmain M W → Run (Pmain M W) (Recv M × Pmain M W)
    unfolding prot_main_push_tran
    answer n msg phand p = do
      p' ← prot_main_push_tran hs p (list_tran msg)
      live (phand, record p' { input = drop n p'.input; current_recv_done = true })

    unfoldable pub mb_fetch_handle : Recv M → Pmain M W → Run (Pmain M W) (Recv M × Pmain M W)
    unfolding answer prot_main_set_error ed25519_buffer_validate
    mb_fetch_handle phand p = elim (ltb (length p.input) 98) [
      | true ↦ live (phand, p)
      | false ↦ elim (db.account_by_mbid p.world (take 16 (drop 18 p.input))) [
        | none ↦ live (phand, prot_main_set_error p err_invalid_msg)
        | some acc ↦
            elim (ed25519_buffer_validate sha512 sign verify p.input 98 acc.signing_pub_key) [
              | false ↦ live (phand, prot_main_set_error p err_invalid_msg)
              | true ↦
                  answer 98
                    (record mailbox_list {
                      from = from_client;
                      mailbox_msgs = db.mb_messages_all p.world acc;
                    })
                    phand p
            ]
      ]
    ]

    unfoldable pub answer_contact :
        Option DbContact → Recv M → Pmain M W → Run (Pmain M W) (Recv M × Pmain M W)
    unfolding answer prot_main_set_error
    answer_contact none phand p = live (phand, prot_main_set_error p err_invalid_msg)
    answer_contact (some cont) phand p =
        if not (is_active cont.status) || cont.deleted
        then live (phand, prot_main_set_error p err_invalid_msg)
        else answer 114
            (record mailbox_list {
              from = from_client;
              client_cont = some cont;
              client_msgs = db.messages_all p.world cont undelivered;
            })
            phand p

    unfoldable pub client_fetch_handle : Recv M → Pmain M W → Run (Pmain M W) (Recv M × Pmain M W)
    unfolding answer_contact prot_main_set_error ed25519_buffer_validate
    client_fetch_handle phand p =
        let key = take 32 (drop 18 p.input) in
        elim (ltb (length p.input) 114) [
          | true ↦ live (phand, p)
          | false ↦ elim (ed25519_buffer_validate sha512 sign verify p.input 114 key) [
            | false ↦ live (phand, prot_main_set_error p err_invalid_msg)
            | true ↦ answer_contact (db.contact_by_rsk_pub p.world key) phand p
          ]
        ]
