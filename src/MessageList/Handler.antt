-- ===== src/MessageList/Handler.antt =====
-- prot_message_list.c: `recv_handle`, which reads the list, and the end of its handler.
use deep_messenger.Prelude.{
  ℕ, ◌+◌, ◌%◌, ◌^◌, suc, true, false, Option, none, some, List, [], ltb, drop, length,
  if◌then◌else◌,
}
use deep_messenger.ProtMain.{err_invalid_msg, Recv, Pmain, Run, live, fault, ◌>>=◌, Handlers}
use deep_messenger.ProtMain.Write.{call_hooks, prot_main_set_error}
use deep_messenger.BufferCrypto.{Verified, ed25519_buffer_validate}
use deep_messenger.BufferCrypto.Envelope.{Cipher, ntohl}
use deep_messenger.Onion.{onion_extract_key}
use deep_messenger.Message.Objects.{DbContact, Db}
use deep_messenger.MessageList.{From, from_client, from_mailbox, MessageList}
use deep_messenger.MessageList.Items.{item_loop}

abbrev pub ev_client_fetch_ok : ℕ
ev_client_fetch_ok = 0x8B01

abbrev pub ev_client_fetch_fail : ℕ
ev_client_fetch_fail = 0x8B02

abbrev pub ev_mb_fetch_ok : ℕ
ev_mb_fetch_ok = 0x8701

abbrev pub ev_mb_fetch_fail : ℕ
ev_mb_fetch_fail = 0x8702

abbrev pub fetch_ok : From → ℕ
fetch_ok from_client = ev_client_fetch_ok
fetch_ok from_mailbox = ev_mb_fetch_ok

abbrev pub fetch_fail : From → ℕ
fetch_fail from_client = ev_client_fetch_fail
fetch_fail from_mailbox = ev_mb_fetch_fail

module _ {M W : Type 0} (hs : Handlers M W) where
  unfoldable pub list_cleanup : MessageList → Recv M → Pmain M W → Pmain M W
  unfolding call_hooks
  list_cleanup msg phand p = if phand.success then p else call_hooks hs (fetch_fail msg.from) p

-- The key that the list is signed with: the contact's, or that of the client's mailbox.
unfoldable pub list_key :
    {P W : Type 0} → List ℕ → Db W → From → Option DbContact → W → Run P (List ℕ)
unfolding onion_extract_key
list_key buffer db from_client none w = fault
list_key buffer db from_client (some cont) w = live cont.remote_sig_key_pub
list_key buffer db from_mailbox cont w =
    live (onion_extract_key buffer (db.mailbox_onion_address w))

module _ {K S O M W : Type 0} (sha512 : List ℕ → List ℕ) (sign : List ℕ → List ℕ → List ℕ)
    (verify : List ℕ → List ℕ → List ℕ → Verified) (sha3 : List ℕ → List ℕ) (buffer : List ℕ)
    (c : Cipher K S O) (db : Db W) (hs : Handlers M W) (wrap : MessageList → M) where
  -- The list's own header is off the input: its items are read, the hooks get those that were
  -- kept, and what is left of the list goes, and its signature.
  unfoldable pub read_items :
      ℕ → MessageList → Recv M → Pmain M W → Run (Pmain M W) (Recv M × Pmain M W)
  unfolding item_loop call_hooks
  read_items len msg phand p = do
    (left, st) ←
        item_loop sha512 sign verify sha3 buffer c db (suc len) msg.from len
          (record { input = p.input; cont = msg.client_cont; messages = []; world = p.world })
    let p' = call_hooks hs (fetch_ok msg.from) (record p { input = st.input; world = st.world })
    live (
      record phand { msg = wrap (record msg { client_cont = st.cont }) },
      record p' { input = drop 64 (drop left p'.input); current_recv_done = true },
    )

  unfoldable pub list_signed :
      ℕ → ℕ → MessageList → Recv M → Pmain M W → List ℕ → Run (Pmain M W) (Recv M × Pmain M W)
  unfolding read_items ed25519_buffer_validate
  list_signed len message_len msg phand p key =
      elim (ed25519_buffer_validate sha512 sign verify p.input message_len key) [
        | false ↦ live (phand, prot_main_set_error p err_invalid_msg)
        | true ↦ read_items len msg phand (record p { input = drop 22 p.input })
      ]

  -- The sum of the length and the signature's is a `uint32_t`.
  unfoldable pub list_handle :
      MessageList → Recv M → Pmain M W → Run (Pmain M W) (Recv M × Pmain M W)
  unfolding list_signed list_key ntohl
  list_handle msg phand p =
      let len = ntohl (drop 18 p.input) in
      let message_len = 22 + (len + 64) % 2 ^ 32 in
      elim (ltb (length p.input) 22) [
        | true ↦ live (phand, p)
        | false ↦ elim (ltb (length p.input) message_len) [
          | true ↦ live (phand, p)
          | false ↦
              list_key buffer db msg.from msg.client_cont p.world
              >>= (λ key. list_signed len message_len msg phand p key)
        ]
      ]
