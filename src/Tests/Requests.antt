-- ===== src/Tests/Requests.antt =====
-- Requests at concrete inputs.
use deep_messenger.Prelude.{ℕ, ◌≡◌, refl, true, false, none, some, List, [], ◌∷◌, ◌++◌, drop}
use deep_messenger.Prelude.Int.{pos}
use deep_messenger.ProtMain.{Recv, Tran, Pmain, prot_main_new}
use deep_messenger.SetContacts.{Account}
use deep_messenger.Message.Objects.{undelivered, DbContact}
use deep_messenger.MessageList.{from_client, MessageList}
use deep_messenger.Fetch.{
  MbFetch, mailbox_list, answer, mb_fetch_setup, mb_fetch_handle, client_fetch_setup,
  client_fetch_handle,
}
use deep_messenger.Fetch.Answer.{
  mb_fetch_handle-mb_fetch_setup, client_fetch_handle-client_fetch_setup,
}
use deep_messenger.MbAccount.{
  AccountData, MbAcc, register_setup, register_handle, open_account, granted_setup, granted_handle,
  told,
}
use deep_messenger.MbAccount.Opening.{register_handle-register_setup, granted_handle-granted_setup}
use deep_messenger.Ack.{Ack}
use deep_messenger.FriendRequest.{Own, friend_setup}
use deep_messenger.Tests.Parts.{filled}
use deep_messenger.Tests.Protocol.{sha512, sign, verify, message, plain}
use deep_messenger.Tests.Delivery.{bob, db, sender}

abbrev waiting : Recv ℕ
waiting = record {
  msg_code = 0x87;
  msg = 0;
  success = false;
  require_transaction = true;
  has_cleanup = true;
  queued = true;
}

abbrev fetch : MbFetch
fetch = record { mb_id = filled 16 6; mb_priv_sig_key = filled 32 3 }

abbrev account : Account
account = record { id = 8; mailbox_id = filled 16 6; signing_pub_key = filled 32 3 }

abbrev list_tran : MessageList → Tran ℕ
list_tran l = message 5

abbrev asked : Pmain ℕ ℕ
asked = record sender {
  input = (mb_fetch_setup sha512 sign verify fetch (message 2) sender).buffer ++ (1 ∷ []);
}

mb_fetch_example :
    (mb_fetch_handle sha512 sign verify db plain list_tran waiting asked
      ≡ answer sha512 sign verify db plain list_tran 98
          (record mailbox_list { from = from_client; mailbox_msgs = [] })
          waiting
          asked)
    × (drop 98 asked.input ≡ 1 ∷ [])
unfolding prot_main_new answer
mb_fetch_example =
    mb_fetch_handle-mb_fetch_setup sha512 sign verify (λ key hash. refl) db plain list_tran
      (message 2) sender asked waiting (1 ∷ []) refl refl fetch account refl (λ hash. refl) refl
      refl

abbrev called : Pmain ℕ ℕ
called = record sender {
  input = (client_fetch_setup sha512 sign verify bob (message 2) sender).buffer ++ (1 ∷ []);
}

client_fetch_example :
    (client_fetch_handle sha512 sign verify db plain list_tran waiting called
      ≡ answer sha512 sign verify db plain list_tran 114
          (record mailbox_list {
            from = from_client;
            client_cont = some bob;
            client_msgs = db.messages_all 0 bob undelivered;
          })
          waiting
          called)
    × (drop 114 called.input ≡ 1 ∷ [])
unfolding prot_main_new answer
client_fetch_example =
    client_fetch_handle-client_fetch_setup sha512 sign verify (λ key hash. refl) db plain list_tran
      (message 2) sender called waiting (1 ∷ []) refl refl bob bob refl (λ hash. refl) refl refl
      refl refl

abbrev data_of : AccountData
data_of = record {
  onion_address = [];
  onion_key = filled 32 3;
  access_key = filled 25 7;
  sig_pub_key = filled 32 4;
  sig_priv_key = filled 32 4;
  mailbox_id = [];
}

abbrev wrap : MbAcc → ℕ
wrap acc = 0

abbrev granted_tran : MbAcc → Tran ℕ
granted_tran acc = message 6

abbrev granted_recv : MbAcc → Recv ℕ
granted_recv acc = waiting

abbrev registering : Pmain ℕ ℕ
registering = record sender {
  input =
      (register_setup db plain wrap granted_tran granted_recv data_of (message 2) sender).buffer
      ++ (1 ∷ []);
}

register_example :
    register_handle db plain wrap granted_tran granted_recv waiting registering
    ≡ open_account db plain wrap granted_tran granted_recv
        (record { id = 1; key = filled 25 7; uses_left = pos 1 })
        (filled 32 4)
        waiting
        (record registering { input = 1 ∷ [] })
unfolding prot_main_new open_account
register_example =
    register_handle-register_setup db plain wrap granted_tran granted_recv data_of (message 2)
      sender registering waiting (record { id = 1; key = filled 25 7; uses_left = pos 2 }) 1
      (1 ∷ []) refl refl refl refl refl refl refl

abbrev granting : Pmain ℕ ℕ
granting = record sender {
  input = (granted_setup sha512 sign verify db account (message 2) sender).buffer ++ (1 ∷ []);
}

granted_example :
    (granted_handle sha512 sign verify db wrap plain data_of waiting granting
      ≡ told sha512 sign verify db wrap plain data_of waiting granting
          (filled 16 6)
          (drop 34 granting.input))
    × (drop 64 (drop 34 granting.input) ≡ 1 ∷ [])
unfolding prot_main_new told
granted_example =
    granted_handle-granted_setup sha512 sign verify (λ key hash. refl) db wrap plain account data_of
      (message 2) sender granting waiting (1 ∷ []) refl refl refl (λ hash. refl) refl

abbrev onion : List ℕ
onion =
    97 ∷ 52 ∷ 100 ∷ 113 ∷ 111 ∷ 98 ∷ 121 ∷ 104 ∷ 97 ∷ 52 ∷ 100 ∷ 113 ∷ 111 ∷ 98 ∷ 121 ∷ 104 ∷ 97
    ∷ 52 ∷ 100 ∷ 113 ∷ 111 ∷ 98 ∷ 121 ∷ 104 ∷ 97 ∷ 52 ∷ 100 ∷ 113 ∷ 111 ∷ 98 ∷ 121 ∷ 104 ∷ 97 ∷ 52
    ∷ 100 ∷ 113 ∷ 111 ∷ 98 ∷ 121 ∷ 104 ∷ 97 ∷ 52 ∷ 100 ∷ 113 ∷ 111 ∷ 98 ∷ 121 ∷ 104 ∷ 97 ∷ 52 ∷ 100
    ∷ 113 ∷ 107 ∷ 98 ∷ 105 ∷ 100 ∷ 46 ∷ 111 ∷ 110 ∷ 105 ∷ 111 ∷ 110 ∷ []

abbrev fives : List ℕ → List ℕ
fives m = filled 32 5

-- The generators leave the world as it is.
abbrev own : Own ℕ
own = record {
  onion_address = λ w. onion;
  nickname = λ w. 97 ∷ 110 ∷ 110 ∷ [];
  mailbox_id = λ w. none;
  mailbox_onion = λ w. none;
  ed25519_keygen = λ w. (filled 32 3, filled 32 4, w);
  rsa_2048bit_keygen = λ w. (filled 270 5, filled 270 6, w);
}

abbrev ack_tran : Ack → DbContact → Tran ℕ
ack_tran ack friend = message 7

abbrev befriending : Pmain ℕ ℕ
befriending = record sender {
  input =
      (friend_setup sha512 sign verify fives (filled 35 0) db own bob (message 2) sender).1.buffer
      ++ (1 ∷ []);
}
