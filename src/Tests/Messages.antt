-- ===== src/Tests/Messages.antt =====
-- Messages and queues at concrete inputs.
use deep_messenger.Prelude.{
  ◌+◌, zero, suc, ℕ, ◌≡◌, refl, true, false, Option, none, some, List, [], ◌∷◌, ◌++◌, map, arith,
  length, suc, ap,
}
use deep_messenger.ProtMain.{Recv, Pmain, live, Handlers, prot_main_new}
use deep_messenger.ProtMain.Write.{prot_main_free}
use deep_messenger.ProtMain.Freeing.{Log, logging, failed_recv, failed_tran, prot_main_free-log}
use deep_messenger.Queue.{Queue, queue_enqueue}
use deep_messenger.Queue.Chain.{Holds, queue-Holds, Removes}
use deep_messenger.SetContacts.{
  contacts_ack_sent, Account, SetContacts, contacts_setup, contacts_handle,
}
use deep_messenger.SetContacts.Fields.{contact_of}
use deep_messenger.SetContacts.Exchange.{acknowledge, contacts_handle-contacts_setup}
use deep_messenger.Tests.Parts.{filled}
use deep_messenger.Tests.Protocol.{sha512, sign, verify, message, plain}

length-filled : (k : ℕ) → length (filled k 77) ≡ k
length-filled zero = refl
length-filled (suc k) = ap suc (length-filled k)

abbrev account : Account
account = record { id = 8; mailbox_id = filled 16 6; signing_pub_key = 3 ∷ [] }

abbrev find_account : ℕ → List ℕ → Option Account
find_account w mb_id = some account

abbrev sent : SetContacts
sent = record {
  cl_mb_id = filled 16 6;
  cl_sig_priv_key = 3 ∷ [];
  cl_conts = filled 32 1 ∷ filled 32 2 ∷ [];
  mb_acc = none;
  mb_conts = [];
}

abbrev empty : SetContacts
empty = record { cl_mb_id = []; cl_sig_priv_key = []; cl_conts = []; mb_acc = none; mb_conts = [] }

abbrev pub waiting : Recv ℕ
waiting = record {
  msg_code = 0x88;
  msg = 0;
  success = false;
  require_transaction = true;
  has_cleanup = true;
  queued = true;
}

abbrev client_side : Pmain ℕ ℕ
client_side = record (prot_main_new 0) { transaction_id = filled 16 9 }

abbrev arrived : List ℕ
arrived =
    (contacts_setup sha512 sign verify find_account plain (λ _. 0) (λ _. message 1) sent (message 2)
      client_side).0.buffer

abbrev mailbox_side : Pmain ℕ ℕ
mailbox_side = record client_side { bev_ready = true; input = arrived ++ (5 ∷ []) }

contacts_example :
    (contacts_handle sha512 sign verify find_account plain
        (λ _. 0)
        (λ _. message 1)
        empty
        waiting
        mailbox_side
      ≡ acknowledge sha512 sign verify
          (λ key hash. refl)
          find_account
          plain
          (λ _. 0)
          (λ _. message 1)
          (record empty {
            mb_acc = some account;
            mb_conts = map (contact_of 8) (filled 32 1 ∷ filled 32 2 ∷ []);
          })
          waiting
          (record mailbox_side { input = 5 ∷ [] }))
    × (contacts_ack_sent plain
          (λ cont w. w + cont.account_id)
          (λ key msg. waiting)
          true
          (record empty {
            mb_acc = some account;
            mb_conts = map (contact_of 8) (filled 32 1 ∷ filled 32 2 ∷ []);
          })
          mailbox_side
        ≡ record mailbox_side { world = 16 })
    × (contacts_ack_sent plain
          (λ cont w. w + cont.account_id)
          (λ key msg. waiting)
          false
          (record empty {
            mb_acc = some account;
            mb_conts = map (contact_of 8) (filled 32 1 ∷ filled 32 2 ∷ []);
          })
          mailbox_side
        ≡ mailbox_side)
unfolding prot_main_new
contacts_example =
    contacts_handle-contacts_setup sha512 sign verify (λ key hash. refl) find_account plain (λ _. 0)
      (λ _. message 1) (λ cont w. w + cont.account_id) (λ key msg. waiting) sent empty (message 2)
      waiting client_side mailbox_side mailbox_side account (5 ∷ []) refl refl refl
      (refl, (refl, tt)) (omega arith) refl (λ hash. refl) refl

abbrev silent_log : Handlers ℕ (Log ℕ)
silent_log = record {
  call_hook = λ hk event p. p;
  recv_handle = λ phand p. live (phand, p);
  recv_cleanup = λ phand p. p;
  tran_setup = λ phand p. (phand, p);
  tran_done = λ phand p. (phand, p);
  tran_cleanup = λ phand p. p;
  autogen_client = λ _. none;
  autogen_mailbox = λ _. none;
}

abbrev loaded : Pmain ℕ (Log ℕ)
loaded = record (prot_main_new []) { recv_q = waiting ∷ []; tran_q = message 4 ∷ message 5 ∷ [] }

free_example : prot_main_free (logging silent_log) loaded ≡ record loaded {
  recv_q = [];
  tran_q = [];
  world =
      loaded.world
      ++ (failed_recv silent_log loaded.recv_q ++ failed_tran silent_log loaded.tran_q);
}
free_example = prot_main_free-log silent_log loaded

abbrev one : Queue ℕ
one = record {
  len = 1;
  front = some 0;
  rear = some 0;
  memory = record { item = 7; next = none } ∷ [];
}

queue_example :
    ((q' : Queue ℕ) × (queue_enqueue one 8 ≡ some q') × Holds q' (7 ∷ 8 ∷ []))
    × Removes one (7 ∷ [])
queue_example = queue-Holds one (7 ∷ []) 8 (0, 0, refl, refl, refl, (refl, refl))
