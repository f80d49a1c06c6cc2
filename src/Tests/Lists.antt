-- ===== src/Tests/Lists.antt =====
-- Lists of messages, and the objects, at concrete inputs.
use deep_messenger.Prelude.{ℕ, ◌≡◌, refl, true, false, none, some, List, [], ◌∷◌, ◌++◌, drop, arith}
use deep_messenger.ProtMain.{Recv, Pmain, ◌>>=◌, prot_main_new}
use deep_messenger.BufferCrypto.{ed25519_buffer_sign}
use deep_messenger.Message.{message_fill}
use deep_messenger.Message.Receive.{whole_length, read_body}
use deep_messenger.Message.Fits.{Fits, read_body-Fits}
use deep_messenger.MessageList.{from_client, MessageList, list_content}
use deep_messenger.MessageList.Items.{Reading, read_item_body, item_loop}
use deep_messenger.MessageList.Leaves.{Ends}
use deep_messenger.MessageList.Framing.{each, item_loop-Ends}
use deep_messenger.MessageList.Handler.{list_key, list_handle}
use deep_messenger.BufferCrypto.Envelope.{ntohl}
use deep_messenger.MessageList.Exchange.{finish_list, list_handle-each}
use deep_messenger.MessageList.Kept.{read_item_body-mbox}
use deep_messenger.Tests.Parts.{filled}
use deep_messenger.Tests.Protocol.{sha512, sign, verify, plain}
use deep_messenger.Tests.Sealed.{toy}
use deep_messenger.Tests.Delivery.{bob, text, db, sender, bytes}

abbrev reading : List ℕ → Reading ℕ
reading input = record { input = input; cont = none; messages = []; world = 0 }

loop_example : Ends (
    item_loop sha512 sign verify sha512 [] toy db {P = ℕ} 301 from_client 300
      (reading (filled 20 1)))
loop_example =
    item_loop-Ends sha512 sign verify sha512 [] toy db ℕ 301 from_client 300 (reading (filled 20 1))
      (omega arith)

abbrev waiting : Recv ℕ
waiting = record {
  msg_code = 0x8C;
  msg = 0;
  success = false;
  require_transaction = true;
  has_cleanup = true;
  queued = true;
}

abbrev msg : MessageList
msg = record { from = from_client; client_cont = some bob; client_msgs = []; mailbox_msgs = [] }

abbrev p : Pmain ℕ ℕ
p = record sender {
  input =
      ed25519_buffer_sign sha512 sign verify (list_content (filled 16 9) (bytes ++ (bytes ++ [])))
        (filled 32 3)
      ++ (1 ∷ []);
}

list_example : list_handle sha512 sign verify sha512 [] toy db plain (λ m. 0) msg waiting p ≡ (
    each sha512 sign verify sha512 [] toy db from_client
      (bytes ∷ bytes ∷ [])
      (record { input = drop 22 p.input; cont = some bob; messages = []; world = 0 })
    >>= (λ st.
        finish_list sha512 sign verify
          (λ key hash. refl)
          sha512
          []
          toy
          db
          plain
          (λ m. 0)
          msg
          waiting
          p
          st))
unfolding prot_main_new message_fill whole_length ntohl list_key
list_example =
    list_handle-each sha512 sign verify (λ key hash. refl) sha512 [] toy db plain (λ m. 0)
      (filled 16 9) (filled 32 3) (filled 32 3) (1 ∷ []) (bytes ∷ bytes ∷ []) msg waiting p refl
      (omega arith) (refl, (refl, tt)) (λ hash. refl) refl refl

body_example :
    Fits
      (read_body sha512 [] db 0 2 (filled 300 7) text bob).1
      (read_body sha512 [] db 0 2 (filled 300 7) text bob).2
body_example =
    read_body-Fits sha512 [] db 0 2 (filled 300 7) text bob (λ gid found e. cc)
      (omega arith, omega arith, omega arith, omega arith, omega arith, omega arith, omega arith)

mbox_example :
    ((read_item_body sha512 [] db 0 3 (filled 78 97) text bob).0 ≡ false)
    × ((read_item_body sha512 [] db 0 3 (filled 78 97) text bob).2 ≡ bob)
mbox_example = read_item_body-mbox sha512 [] db 0 (filled 78 97) text bob refl
