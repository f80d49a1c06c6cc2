-- ===== src/Ack.antt =====
-- prot_ack.c: the signed acknowledgement of a message. `cb` stands for the callback that the
-- message gives, which may change the connection.
pub mod Exchange
pub mod Lawful
use deep_messenger.Prelude.{
  ℕ, ◌+◌, Bool, true, false, not, ◌&&◌, Option, none, List, [], ◌∷◌, ◌++◌, ltb, drop, length,
  if◌then◌else◌,
}
use deep_messenger.Hooks.{Hook}
use deep_messenger.ProtMain.{err_invalid_msg, Recv, Tran, Pmain, Run, live, Handlers}
use deep_messenger.ProtMain.Codes.{prot_header, prot_header_len, transaction_id_len}
use deep_messenger.BufferCrypto.{
  Verified, signature_len, ed25519_buffer_sign, ed25519_buffer_validate,
}

pub record Ack : Type 0 where
  pub ack_success : Bool
  pub pub_key : List ℕ
  pub priv_key : List ℕ
  pub has_cb : Bool
  pub msg_code : ℕ

abbrev pub ack_len : ℕ
ack_len = 82

abbrev pub prot_ack_recv : Ack → Recv Ack
prot_ack_recv ack = record {
  msg_code = ack.msg_code;
  msg = ack;
  success = false;
  require_transaction = true;
  has_cleanup = true;
  queued = false;
}

abbrev pub prot_ack_tran : Ack → Tran Ack
prot_ack_tran ack = record {
  msg_code = ack.msg_code;
  msg = ack;
  success = false;
  buffer = [];
  has_done = true;
  has_setup = true;
  has_cleanup = true;
}

module _ {W : Type 0} (sha512 : List ℕ → List ℕ) (sign : List ℕ → List ℕ → List ℕ)
    (verify : List ℕ → List ℕ → List ℕ → Verified)
    (cb : Bool → Ack → Pmain Ack W → Pmain Ack W) where
  abbrev P : Type 0
  P = Pmain Ack W

  abbrev pub call_cb : Bool → Ack → P → P
  call_cb success ack p = if ack.has_cb then cb success ack p else p

  -- The cleanup of both directions.
  unfoldable pub cleanup : Ack → P → P
  cleanup ack p = if not ack.ack_success && ack.has_cb then cb false ack p else p

  unfoldable pub tran_done : Tran Ack → P → Tran Ack × P
  tran_done phand p =
      let ack = record phand.msg { ack_success = true } in
      (record phand { msg = ack }, call_cb true ack p)

  unfoldable pub tran_setup : Tran Ack → P → Tran Ack × P
  unfolding prot_header ed25519_buffer_sign
  tran_setup phand p =
      let filled = phand.buffer ++ (prot_header phand.msg.msg_code ++ p.transaction_id) in
      (
        record phand { buffer = ed25519_buffer_sign sha512 sign verify filled phand.msg.priv_key },
        p,
      )

  unfoldable pub recv_handle : Recv Ack → P → Run P (Recv Ack × P)
  unfolding ed25519_buffer_validate
  recv_handle phand p =
      if ltb (length p.input) ack_len
      then live (phand, p)
      else if not (ed25519_buffer_validate sha512 sign verify p.input ack_len phand.msg.pub_key)
      then live (phand, record p { status = err_invalid_msg })
      else (let ack = record phand.msg { ack_success = true } in
          let p' = call_cb true ack p in
          live (
            record phand { msg = ack },
            record p' { input = drop ack_len p'.input; current_recv_done = true },
          ))

  -- A connection on which only acknowledgements are exchanged.
  abbrev pub ack_handlers : (Hook → ℕ → P → P) → Handlers Ack W
  ack_handlers call_hook = record {
    call_hook = call_hook;
    recv_handle = recv_handle;
    recv_cleanup = λ phand. cleanup phand.msg;
    tran_setup = tran_setup;
    tran_done = tran_done;
    tran_cleanup = λ phand. cleanup phand.msg;
    autogen_client = λ _. none;
    autogen_mailbox = λ _. none;
  }
