-- ===== src/Transaction.antt =====
-- prot_transaction.c: the two messages that start a transaction. `other` holds the callbacks of
-- all other messages, and `rand_bytes` stands for `RAND_bytes`, whose failure ends the process.
pub mod Handshake
use deep_messenger.Prelude.{
  ℕ, ◌+◌, Bool, true, false, Option, none, some, List, [], ◌∷◌, ◌++◌, ◌==◌, ltb, if◌then◌else◌,
  length, take, drop,
}
use deep_messenger.ProtMain.{Recv, Tran, Pmain, Run, live, ◌>>=◌, Handlers}
use deep_messenger.ProtMain.Codes.{
  prot_header_len, transaction_id_len, transaction_request, transaction_response, prot_header,
}
use deep_messenger.ProtMain.Write.{prot_main_push_tran, prot_main_push_recv, prot_main_tran_enable}

-- The message object of a response holds the identifier.
pub data Msg (M : Type 0) : Type 0 where
  txn_req : Msg M
  txn_res : List ℕ → Msg M
  other : M → Msg M

module _ {M : Type 0} where
  abbrev pub req_recv : Recv (Msg M)
  req_recv = record {
    msg_code = transaction_request;
    msg = txn_req;
    success = false;
    require_transaction = false;
    has_cleanup = true;
    queued = false;
  }

  abbrev pub req_tran : Tran (Msg M)
  req_tran = record {
    msg_code = transaction_request;
    msg = txn_req;
    success = false;
    buffer = [];
    has_done = true;
    has_setup = true;
    has_cleanup = true;
  }

  abbrev pub res_recv : Recv (Msg M)
  res_recv = record {
    msg_code = transaction_response;
    msg = txn_res [];
    success = false;
    require_transaction = false;
    has_cleanup = true;
    queued = false;
  }

  abbrev pub res_tran : Tran (Msg M)
  res_tran = record {
    msg_code = transaction_response;
    msg = txn_res [];
    success = false;
    buffer = [];
    has_done = true;
    has_setup = true;
    has_cleanup = true;
  }

module _ {M W : Type 0} (others : Handlers (Msg M) W) (rand_bytes : W → List ℕ × W) where
  abbrev P : Type 0
  P = Pmain (Msg M) W

  unfoldable pub req_tran_setup : Tran (Msg M) → P → Tran (Msg M) × P
  unfolding prot_header
  req_tran_setup phand p =
      (record phand { buffer = phand.buffer ++ prot_header transaction_request }, p)

  -- `prot_main_tran_enable(pmain, 0)` writes nothing.
  unfoldable pub req_tran_done : Tran (Msg M) → P → Tran (Msg M) × P
  unfolding prot_main_push_recv
  req_tran_done phand p = (phand, record (prot_main_push_recv p res_recv) { tran_enabled = false })

  unfoldable pub res_tran_setup : Tran (Msg M) → P → Tran (Msg M) × P
  unfolding prot_header
  res_tran_setup phand p =
      let (txn_id, w) = rand_bytes p.world in
      (
        record phand {
          msg = txn_res txn_id;
          buffer = phand.buffer ++ (prot_header transaction_response ++ txn_id);
        },
        record p { world = w },
      )

  unfoldable pub res_tran_done : List ℕ → Tran (Msg M) → P → Tran (Msg M) × P
  res_tran_done txn_id phand p =
      (phand, record p { transaction_started = true; transaction_id = txn_id })

  abbrev tran_setup : Msg M → Tran (Msg M) → P → Tran (Msg M) × P
  tran_setup txn_req = req_tran_setup
  tran_setup (txn_res _) = res_tran_setup
  tran_setup (other m) = others.tran_setup

  abbrev tran_done : Msg M → Tran (Msg M) → P → Tran (Msg M) × P
  tran_done txn_req = req_tran_done
  tran_done (txn_res txn_id) = res_tran_done txn_id
  tran_done (other m) = others.tran_done

  -- The cleanup of both only frees the message object.
  abbrev tran_cleanup : Msg M → Tran (Msg M) → P → P
  tran_cleanup txn_req phand p = p
  tran_cleanup (txn_res _) phand p = p
  tran_cleanup (other m) phand p = others.tran_cleanup phand p

  abbrev recv_cleanup : Msg M → Recv (Msg M) → P → P
  recv_cleanup txn_req phand p = p
  recv_cleanup (txn_res _) phand p = p
  recv_cleanup (other m) phand p = others.recv_cleanup phand p

  -- The callbacks that sending uses; those of receiving are never called by it.
  abbrev sending : Handlers (Msg M) W
  sending = record others {
    tran_setup = λ phand. tran_setup phand.msg phand;
    tran_done = λ phand. tran_done phand.msg phand;
    tran_cleanup = λ phand. tran_cleanup phand.msg phand;
    recv_cleanup = λ phand. recv_cleanup phand.msg phand;
  }

  unfoldable pub req_recv_handle : Recv (Msg M) → P → Run P (Recv (Msg M) × P)
  unfolding prot_main_push_tran
  req_recv_handle phand p = do
    let drained = record p { input = drop prot_header_len p.input }
    p' ← prot_main_push_tran sending drained res_tran
    live (phand, record p' { current_recv_done = true })

  unfoldable pub res_recv_handle : Recv (Msg M) → P → Run P (Recv (Msg M) × P)
  unfolding prot_main_tran_enable
  res_recv_handle phand p =
      if ltb (length p.input) (prot_header_len + transaction_id_len) then live (phand, p) else do
        let rest = drop prot_header_len p.input
        let received = record p {
          input = drop transaction_id_len rest;
          transaction_id = take transaction_id_len rest;
          transaction_started = true;
        }
        p' ← prot_main_tran_enable sending received true
        live (phand, record p' { current_recv_done = true })

  abbrev recv_handle : Msg M → Recv (Msg M) → P → Run P (Recv (Msg M) × P)
  recv_handle txn_req = req_recv_handle
  recv_handle (txn_res _) = res_recv_handle
  recv_handle (other m) = others.recv_handle

  -- Both modes make a handler for a request; the other codes are those of `others`.
  abbrev pub txn_handlers : Handlers (Msg M) W
  txn_handlers = record sending {
    recv_handle = λ phand. recv_handle phand.msg phand;
    autogen_client =
        λ code. if code == transaction_request then some req_recv else others.autogen_client code;
    autogen_mailbox =
        λ code. if code == transaction_request then some req_recv else others.autogen_mailbox code;
  }
