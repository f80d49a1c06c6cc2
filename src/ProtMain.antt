-- ===== src/ProtMain.antt =====
-- prot_main.c: the handler of one connection, a queue of messages to receive and one of messages
-- to send over the two buffers of a libevent bufferevent. `M` is the type of message objects that
-- `msg` points to, and `W` is what callbacks change outside the connection: the database, the
-- application and the random generator.
pub mod Connect
pub mod Codes
pub mod Write
pub mod Read
pub mod Sending
pub mod Freeing
pub mod Emptied
pub mod Receiving
use deep_messenger.Prelude.{ℕ, Bool, true, false, Option, List, [], ◌∷◌, ◌++◌}
use deep_messenger.Hooks.{Hook, HookList, hook_list_new, hook_list_call}

pub data Mode : Type 0 where
  client mailbox : Mode

pub data Status : Type 0 where
  status_ok err_conn_closed err_timeout err_socks_conn_fail err_protocol : Status
  err_invalid_msg err_unexpected_msg err_transaction : Status

module _ (M : Type 0) where
  -- `queued` tells the copy that a queue holds from the handler inside the message object.
  pub record Recv : Type 0 where
    pub msg_code : ℕ
    pub msg : M
    pub success : Bool
    pub require_transaction : Bool
    pub has_cleanup : Bool
    pub queued : Bool

  pub record Tran : Type 0 where
    pub msg_code : ℕ
    pub msg : M
    pub success : Bool
    pub buffer : List ℕ
    pub has_done : Bool
    pub has_setup : Bool
    pub has_cleanup : Bool

pub record Pmain (M W : Type 0) : Type 0 where
  pub hooks : HookList
  pub run_free : Bool
  pub free_on_done : Bool
  pub mode : Mode
  pub status : Status
  pub bev_ready : Bool
  pub input : List ℕ
  pub output : List ℕ
  pub transaction_started : Bool
  pub transaction_id : List ℕ
  pub current_recv_done : Bool
  pub tran_in_progress : Bool
  pub tran_enabled : Bool
  pub message_check_done : Bool
  pub tran_q : List (Tran M)
  pub recv_q : List (Recv M)
  pub world : W

-- What a function of the connection leaves: the object alive; the object freed, in the state that
-- it had then; or an access to an object that is freed or was never set.
pub data Run (P A : Type 0) : Type 0 where
  live : A → Run P A
  gone : P → Run P A
  fault : Run P A
  out_of_fuel : Run P A

-- Going on after the object is freed is an access to freed memory.
infixl 5 ◌>>=◌
abbrev pub ◌>>=◌ : {P A B : Type 0} → Run P A → (A → Run P B) → Run P B
live a >>= f = f a
gone p >>= f = fault
fault >>= f = fault
out_of_fuel >>= f = out_of_fuel

-- The hooks, which do not change the list that is walked, and the callbacks of the messages, by
-- the message object that they are called for.
pub record Handlers (M W : Type 0) : Type 0 where
  pub call_hook : Hook → ℕ → Pmain M W → Pmain M W
  pub recv_handle : Recv M → Pmain M W → Run (Pmain M W) (Recv M × Pmain M W)
  pub recv_cleanup : Recv M → Pmain M W → Pmain M W
  pub tran_setup : Tran M → Pmain M W → Tran M × Pmain M W
  pub tran_done : Tran M → Pmain M W → Tran M × Pmain M W
  pub tran_cleanup : Tran M → Pmain M W → Pmain M W
  pub autogen_client : ℕ → Option (Recv M)
  pub autogen_mailbox : ℕ → Option (Recv M)

unfoldable pub prot_main_new : {M W : Type 0} → W → Pmain M W
prot_main_new db = record {
  hooks = hook_list_new;
  run_free = false;
  free_on_done = false;
  mode = client;
  status = status_ok;
  bev_ready = false;
  input = [];
  output = [];
  transaction_started = false;
  transaction_id = 0 ∷ 0 ∷ 0 ∷ 0 ∷ 0 ∷ 0 ∷ 0 ∷ 0 ∷ 0 ∷ 0 ∷ 0 ∷ 0 ∷ 0 ∷ 0 ∷ 0 ∷ 0 ∷ [];
  current_recv_done = false;
  tran_in_progress = false;
  tran_enabled = true;
  message_check_done = false;
  tran_q = [];
  recv_q = [];
  world = db;
}

unfoldable pub is_ok : Status → Bool
is_ok status_ok = true
is_ok _ = false
