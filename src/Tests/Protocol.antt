-- ===== src/Tests/Protocol.antt =====
-- Connections at concrete inputs.
use deep_messenger.Prelude.{ℕ, suc, ◌+◌, ◌≡◌, refl, Bool, true, false, none, List, [], ◌∷◌, ◌++◌}
use deep_messenger.Hooks.{Hook, hook_list_call}
use deep_messenger.ProtMain.{mailbox, Tran, Pmain, live, Handlers, prot_main_new}
use deep_messenger.ProtMain.Write.{call_hooks}
use deep_messenger.ProtMain.Read.{bev_read_cb}
use deep_messenger.ProtMain.Receiving.Contract.{CallbackSafe}
use deep_messenger.ProtMain.Receiving.Safety.{bev_read_cb-CallbackSafe}
use deep_messenger.ProtMain.Sending.{
  after, IsGone, after-IsGone, outputs, in_flight, bodies, outputs-in_order,
}
use deep_messenger.Transaction.{Msg}
use deep_messenger.Transaction.Handshake.{Agreed, handshake_with, handshake-Agreed}
use deep_messenger.BufferCrypto.{Verified, valid}
use deep_messenger.Ack.{Ack, prot_ack_recv, recv_handle, tran_setup, ack_handlers}
use deep_messenger.Ack.Lawful.{ack_handlers-IsLawful}
use deep_messenger.Ack.Exchange.{recv_handle-tran_setup}
use deep_messenger.Tests.Parts.{filled}

abbrev pub sha512 : List ℕ → List ℕ
sha512 m = m

-- A signature is made of the key's first byte, and names it.
abbrev first_of : List ℕ → ℕ
first_of [] = 0
first_of (x ∷ xs) = x

abbrev pub sign : List ℕ → List ℕ → List ℕ
sign key hash = filled 64 (first_of key)

abbrev pub verify : List ℕ → List ℕ → List ℕ → Verified
verify key sig hash = valid

abbrev cb : Bool → Ack → Pmain Ack ℕ → Pmain Ack ℕ
cb success ack p = record p { world = p.world + 1 }

abbrev call_hook : Hook → ℕ → Pmain Ack ℕ → Pmain Ack ℕ
call_hook hk event p = record p { run_free = true }

abbrev hs : Handlers Ack ℕ
hs = ack_handlers sha512 sign verify cb call_hook

abbrev ack : Ack
ack = record {
  ack_success = false;
  pub_key = 3 ∷ [];
  priv_key = 3 ∷ [];
  has_cb = true;
  msg_code = 0x82;
}

abbrev sender : Pmain Ack ℕ
sender = record (prot_main_new 0) {
  bev_ready = true;
  transaction_started = true;
  transaction_id = filled 16 9;
}

abbrev signed : List ℕ
signed = 1 ∷ 0x82 ∷ (filled 16 9 ++ filled 64 3)

-- An acknowledgement and a first byte of the next message.
abbrev receiver : Pmain Ack ℕ
receiver = record sender {
  input = signed ++ (1 ∷ []);
  recv_q = record (prot_ack_recv ack) { queued = true } ∷ [];
}

bev_read_cb_example : CallbackSafe (bev_read_cb hs receiver)
unfolding prot_main_new
bev_read_cb_example =
    bev_read_cb-CallbackSafe hs
      (ack_handlers-IsLawful sha512 sign verify cb (λ success ack p. refl) call_hook
        (λ hk event p. (refl, refl, refl)))
      receiver (λ h. cc) refl

ack_example :
    recv_handle sha512 sign verify cb (prot_ack_recv ack) receiver
    ≡ live (
      record (prot_ack_recv ack) { msg = record ack { ack_success = true } },
      record receiver { input = 1 ∷ []; current_recv_done = true; world = 1 },
    )
unfolding prot_main_new tran_setup
ack_example =
    recv_handle-tran_setup sha512 sign verify (λ key hash. refl) cb ack ack sender receiver (1 ∷ [])
      (λ hash. refl) (λ success ack p. refl) refl refl

abbrev silent : Handlers (Msg ℕ) ℕ
silent = record {
  call_hook = λ hk event p. p;
  recv_handle = λ phand p. live (phand, p);
  recv_cleanup = λ phand p. p;
  tran_setup = λ phand p. (phand, p);
  tran_done = λ phand p. (phand, p);
  tran_cleanup = λ phand p. p;
  autogen_client = λ _. none;
  autogen_mailbox = λ _. none;
}

handshake_example :
    Agreed
      (filled 16 9)
      (1 ∷ 0x81 ∷ filled 16 9)
      (handshake_with silent (λ id. 1 ∷ 0x81 ∷ id) suc (filled 16 9) 0 7 0x81 0 mailbox)
handshake_example =
    handshake-Agreed silent (λ id. 1 ∷ 0x81 ∷ id) suc 0 0 7 0x81 mailbox (filled 16 9) refl

abbrev pub message : ℕ → Tran ℕ
message x = record {
  msg_code = 0x84;
  msg = x;
  success = false;
  buffer = [];
  has_done = true;
  has_setup = true;
  has_cleanup = true;
}

abbrev pub plain : Handlers ℕ ℕ
plain = record {
  call_hook = λ hk event p. p;
  recv_handle = λ phand p. live (phand, p);
  recv_cleanup = λ phand p. p;
  tran_setup = λ phand p. (phand, p);
  tran_done = λ phand p. (phand, p);
  tran_cleanup = λ phand p. p;
  autogen_client = λ _. none;
  autogen_mailbox = λ _. none;
}

abbrev asked : Pmain ℕ ℕ
asked = record (prot_main_new 0) { bev_ready = true; tran_enabled = false }

order_example :
    outputs plain
      (λ x. x ∷ x ∷ [])
      (λ _ w. w + 1)
      (λ _ w. w)
      2
      (in_flight plain
        (λ x. x ∷ x ∷ [])
        (λ _ w. w + 1)
        (λ _ w. w)
        (record (prot_main_new 0) { output = 4 ∷ 4 ∷ [] })
        (message 4)
        (message 5 ∷ message 6 ∷ []))
    ≡ (4 ∷ 4 ∷ [])
      ++ bodies plain (λ x. x ∷ x ∷ []) (λ _ w. w + 1) (λ _ w. w) (message 5 ∷ message 6 ∷ [])
order_example =
    outputs-in_order plain (λ x. x ∷ x ∷ []) (λ _ w. w + 1) (λ _ w. w) (message 5 ∷ message 6 ∷ [])
      (record (prot_main_new 0) { output = 4 ∷ 4 ∷ [] }) (message 4) (refl, (refl, tt))

abbrev to_free : Pmain ℕ ℕ
to_free = record (prot_main_new 0) { free_on_done = true }

gone_example :
    IsGone plain
      (λ x. x ∷ x ∷ [])
      (λ _ w. w + 1)
      (λ _ w. w)
      (after plain
        (λ x. x ∷ x ∷ [])
        (λ _ w. w + 1)
        (λ _ w. w)
        3
        (in_flight plain
          (λ x. x ∷ x ∷ [])
          (λ _ w. w + 1)
          (λ _ w. w)
          to_free
          (message 4)
          (message 5 ∷ message 6 ∷ [])))
unfolding prot_main_new call_hooks hook_list_call
gone_example =
    after-IsGone plain (λ x. x ∷ x ∷ []) (λ _ w. w + 1) (λ _ w. w) (message 5 ∷ message 6 ∷ [])
      to_free (message 4) (refl, (refl, tt)) (λ p wish. wish) refl refl
