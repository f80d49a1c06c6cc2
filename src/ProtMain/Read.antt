-- ===== src/ProtMain/Read.antt =====
-- prot_main.c: receiving messages.
use deep_messenger.Prelude.{
  ℕ, zero, suc, ◌+◌, Bool, true, false, not, Option, none, some, [], ◌∷◌, ◌==◌, ltb, agrees, drop,
  length, if◌then◌else◌, List,
}
use deep_messenger.ProtMain.{
  Mode, client, mailbox, Status, err_protocol, err_invalid_msg, err_unexpected_msg, err_transaction,
  Recv, Pmain, Run, live, fault, out_of_fuel, ◌>>=◌, Handlers,
}
use deep_messenger.ProtMain.Codes.{prot_header_len, transaction_id_len, protocol_ver}
use deep_messenger.ProtMain.Write.{
  tail, set_head, unless_freed, prot_main_fail, if_ok, prot_main_done_check, prot_main_push_recv,
  is_empty,
}

-- The outcome of the check of a message's header: the handler to run, more data to wait for, or
-- an error.
pub data Check (M W : Type 0) : Type 0 where
  pass : Recv M → Pmain M W → Check M W
  wait : Pmain M W → Check M W
  refuse : Status → Pmain M W → Check M W

module _ {M W : Type 0} where
  unfoldable pub check_transaction : Recv M → Pmain M W → Check M W
  check_transaction phand p =
      let checked = record p { message_check_done = true } in
      if not phand.require_transaction
      then pass phand checked
      else if not p.transaction_started
      then refuse err_transaction p
      else if ltb (length p.input) (prot_header_len + transaction_id_len)
      then wait p
      else if agrees p.transaction_id (drop prot_header_len p.input)
      then pass phand checked
      else refuse err_transaction p

  -- A handler of the queue is run in place.
  abbrev pub write_back : Recv M → Pmain M W → Pmain M W
  write_back phand p = if phand.queued then record p { recv_q = set_head phand p.recv_q } else p

module _ {M W : Type 0} (hs : Handlers M W) where
  abbrev pub autogen : Mode → ℕ → Option (Recv M)
  autogen client code = hs.autogen_client code
  autogen mailbox code = hs.autogen_mailbox code

  -- A handler made for the message is copied to the receiving queue.
  unfoldable pub check_made : Option (Recv M) → Pmain M W → Check M W
  unfolding check_transaction prot_main_push_recv
  check_made none p = refuse err_invalid_msg p
  check_made (some phand) p =
      check_transaction phand (record (prot_main_push_recv p phand) { current_recv_done = false })

  -- With no handler waiting, one is made for the message's code. The list is the receiving queue.
  unfoldable pub check_code : List (Recv M) → ℕ → Pmain M W → Check M W
  unfolding check_made
  check_code [] message_code p = check_made (autogen p.mode message_code) p
  check_code (phand ∷ _) message_code p =
      if phand.msg_code == message_code
      then check_transaction phand p
      else refuse err_unexpected_msg p

  -- The list is the input.
  unfoldable pub check_header : List ℕ → Pmain M W → Check M W
  unfolding check_code
  check_header [] p = wait p
  check_header (version ∷ []) p = wait p
  check_header (version ∷ message_code ∷ _) p =
      if version == protocol_ver then check_code p.recv_q message_code p else refuse err_protocol p

  -- A handler that a message was checked for before is the head of the receiving queue.
  unfoldable pub checked_handler : List (Recv M) → Pmain M W → Run (Pmain M W) (Check M W)
  checked_handler [] p = fault
  checked_handler (phand ∷ _) p = live (pass phand p)

  unfoldable pub check_message : Pmain M W → Run (Pmain M W) (Check M W)
  unfolding check_header checked_handler
  check_message p =
      if not p.message_check_done then live (check_header p.input p) else checked_handler p.recv_q p

  -- The message is received: its handler is cleaned up and taken off the queue.
  unfoldable pub finish_recv : Recv M → Pmain M W → Run (Pmain M W) (Pmain M W)
  unfolding if_ok prot_main_done_check
  finish_recv phand p =
      let phand' = record phand { success = true } in
      if_ok hs (if phand'.has_cleanup then hs.recv_cleanup phand' p else p) (λ p.
        prot_main_done_check hs (record p {
          recv_q = tail p.recv_q;
          current_recv_done = false;
          message_check_done = false;
        }))

  -- One run of the handler, and whether the loop goes on.
  unfoldable pub run_handler : Recv M → Pmain M W → Run (Pmain M W) (Pmain M W × Bool)
  unfolding if_ok finish_recv
  run_handler phand p = do
    (phand', p') ← hs.recv_handle phand (record p { current_recv_done = false })
    if_ok hs (write_back phand' p') (λ p.
        if p.current_recv_done
        then unless_freed (finish_recv phand' p) (λ p. live (p, true))
        else live (p, false))

  unfoldable pub read_round : Pmain M W → Run (Pmain M W) (Pmain M W × Bool)
  unfolding check_message run_handler prot_main_fail
  read_round p = do
    c ← check_message p
    elim c [
      | pass phand p ↦ run_handler phand p
      | wait p ↦ live (p, false)
      | refuse reported p ↦ prot_main_fail hs p reported
    ]

  -- `while (evbuffer_get_length(buff) > 0)`, on fuel.
  unfoldable pub read_loop : ℕ → Pmain M W → Run (Pmain M W) (Pmain M W)
  read_loop zero p = out_of_fuel
  read_loop (suc n) p = elim (is_empty p.input) [
    | true ↦ live p
    | false ↦
        unless_freed (read_round p)
          (λ (p', again). elim again [ true ↦ read_loop n p' | false ↦ live p' ])
  ]

  -- Each message that is received takes a byte at least off the input.
  unfoldable pub bev_read_cb : Pmain M W → Run (Pmain M W) (Pmain M W)
  unfolding read_loop read_round
  bev_read_cb p = if not p.bev_ready then live p else read_loop (length p.input + 1) p
