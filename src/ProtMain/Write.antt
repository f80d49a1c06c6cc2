-- ===== src/ProtMain/Write.antt =====
-- prot_main.c: freeing a connection, and sending the messages of its transmission queue.
use deep_messenger.Prelude.{
  ℕ, zero, suc, ◌+◌, length, Bool, true, false, not, ◌&&◌, ◌||◌, List, [], ◌∷◌, ◌++◌, ltb,
  if◌then◌else◌,
}
use deep_messenger.Hooks.{hook_list_call}
use deep_messenger.ProtMain.{
  Status, is_ok, Recv, Tran, Pmain, Run, live, gone, fault, out_of_fuel, Handlers,
  err_socks_conn_fail, err_timeout, err_conn_closed,
}
use deep_messenger.ProtMain.Codes.{ev_done, ev_close}

abbrev pub is_empty {ℓ} : {A : Type ℓ} → List A → Bool
is_empty [] = true
is_empty (x ∷ xs) = false

abbrev pub tail {ℓ} : {A : Type ℓ} → List A → List A
tail [] = []
tail (x ∷ xs) = xs

-- A write through the pointer to the head of a queue.
abbrev pub set_head {ℓ} : {A : Type ℓ} → A → List A → List A
set_head a [] = []
set_head a (x ∷ xs) = a ∷ xs

-- The caller returns at once when it learns that the object is freed.
abbrev pub unless_freed : {P A B : Type 0} → Run P A → (A → Run P B) → Run P B
unless_freed (live a) f = f a
unless_freed (gone p) f = gone p
unless_freed fault f = fault
unless_freed out_of_fuel f = out_of_fuel

-- The handlers that cleanups may put into a queue while it is freed.
abbrev pub pushed_limit : ℕ
pushed_limit = 65536

module _ {M W : Type 0} (hs : Handlers M W) where
  unfoldable pub call_hooks : ℕ → Pmain M W → Pmain M W
  call_hooks event p = hook_list_call hs.call_hook p.hooks event p

  -- The two loops of `prot_main_free`: the head is cleaned up before it is taken off, and the queue
  -- is looked at anew in each round, since a cleanup may have put handlers into it.
  unfoldable pub free_recv : ℕ → Pmain M W → Pmain M W
  free_recv zero p = p
  free_recv (suc fuel) p = elim p.recv_q [
    | [] ↦ p
    | phand ∷ _ ↦
        let phand' = record phand { success = false } in
        let p' = if phand.has_cleanup then hs.recv_cleanup phand' p else p in
        free_recv fuel (record p' { recv_q = tail p'.recv_q })
  ]

  unfoldable pub free_tran : ℕ → Pmain M W → Pmain M W
  free_tran zero p = p
  free_tran (suc fuel) p = elim p.tran_q [
    | [] ↦ p
    | phand ∷ _ ↦
        let phand' = record phand { success = false } in
        let p' = if phand.has_cleanup then hs.tran_cleanup phand' p else p in
        free_tran fuel (record p' { tran_q = tail p'.tran_q })
  ]

  unfoldable pub prot_main_free : Pmain M W → Pmain M W
  unfolding free_recv free_tran
  prot_main_free p =
      let p' = free_recv (length p.recv_q + pushed_limit) p in
      free_tran (length p'.tran_q + pushed_limit) p'

  -- The status is only reported.
  unfoldable pub prot_main_fail : {A : Type 0} → Pmain M W → Status → Run (Pmain M W) A
  unfolding call_hooks prot_main_free
  prot_main_fail p reported = gone (prot_main_free (call_hooks ev_close p))

  -- Fails if a callback has set an error.
  unfoldable pub if_ok :
      {A : Type 0} → Pmain M W → (Pmain M W → Run (Pmain M W) A) → Run (Pmain M W) A
  unfolding prot_main_fail is_ok
  if_ok p go_on = if is_ok p.status then go_on p else prot_main_fail p p.status

  unfoldable pub prot_main_done_check : Pmain M W → Run (Pmain M W) (Pmain M W)
  unfolding call_hooks prot_main_free
  prot_main_done_check p =
      if is_empty p.recv_q && is_empty p.tran_q
      then (let p' = call_hooks ev_done p in
          if p'.run_free || p'.free_on_done then gone (prot_main_free p') else live p')
      else live p

  -- The last part of the write callback: the head of the queue goes to the output buffer.
  unfoldable pub start_tran : Tran M → Pmain M W → Run (Pmain M W) (Pmain M W)
  unfolding if_ok
  start_tran phand p =
      if not p.tran_enabled
      then live p
      else (let (phand', p') = if phand.has_setup then hs.tran_setup phand p else (phand, p) in
          let p'' = record p' { tran_q = set_head phand' p'.tran_q } in
          if_ok p'' (λ p. live (record p {
            output = p.output ++ phand'.buffer;
            tran_q = set_head (record phand' { buffer = [] }) p.tran_q;
            tran_in_progress = true;
          })))

  unfoldable pub start_next : List (Tran M) → Pmain M W → Run (Pmain M W) (Pmain M W)
  unfolding start_tran
  start_next [] p = live p
  start_next (phand ∷ _) p = start_tran phand p

  -- The message in flight is out: it is reported done, cleaned up and taken off the queue.
  unfoldable pub finish_tran : Tran M → Pmain M W → Run (Pmain M W) (Pmain M W)
  unfolding if_ok prot_main_done_check start_next
  finish_tran phand p =
      let (phand', p') = if phand.has_done then hs.tran_done phand p else (phand, p) in
      if_ok (record p' { tran_q = set_head phand' p'.tran_q })
        (λ p.
          let phand'' = record phand' { success = true } in
          let p' = record p { tran_q = set_head phand'' p.tran_q } in
          if_ok (if phand''.has_cleanup then hs.tran_cleanup phand'' p' else p') (λ p.
            unless_freed
              (prot_main_done_check (record p { tran_q = tail p.tran_q; tran_in_progress = false }))
              (λ p. start_next p.tran_q p)))

  -- The list is the transmission queue.
  unfoldable pub write_head : List (Tran M) → Pmain M W → Run (Pmain M W) (Pmain M W)
  unfolding finish_tran start_tran
  write_head [] p = live p
  write_head (phand ∷ _) p = if p.tran_in_progress then finish_tran phand p else start_tran phand p

  unfoldable pub bev_write_cb : Pmain M W → Run (Pmain M W) (Pmain M W)
  unfolding write_head
  bev_write_cb p =
      if not p.bev_ready
      then live p
      else if not (is_empty p.output)
      then live p
      else write_head p.tran_q p

  unfoldable pub prot_main_push_tran : Pmain M W → Tran M → Run (Pmain M W) (Pmain M W)
  unfolding bev_write_cb
  prot_main_push_tran p phand =
      let p' = record p { tran_q = p.tran_q ++ (phand ∷ []) } in
      if p.bev_ready && not p.tran_in_progress then bev_write_cb p' else live p'

  unfoldable pub prot_main_tran_enable : Pmain M W → Bool → Run (Pmain M W) (Pmain M W)
  unfolding bev_write_cb
  prot_main_tran_enable p enable =
      let p' = record p { tran_enabled = enable } in if enable then bev_write_cb p' else live p'

  -- The end of the SOCKS connection, with the error that it ended in.
  unfoldable pub prot_main_socks5_cb : Pmain M W → ℕ → Run (Pmain M W) (Pmain M W)
  unfolding bev_write_cb prot_main_fail
  prot_main_socks5_cb p err =
      if ltb 0 err
      then prot_main_fail p err_socks_conn_fail
      else (let p' = record p { bev_ready = true } in
          if not (is_empty p'.tran_q) then bev_write_cb p' else live p')

  -- The events of the buffer: whether it timed out, and whether it failed or was closed.
  unfoldable pub bev_event_cb : Pmain M W → Bool → Bool → Run (Pmain M W) (Pmain M W)
  unfolding prot_main_fail
  bev_event_cb p timeout error_or_eof =
      if timeout
      then prot_main_fail p err_timeout
      else if error_or_eof
      then prot_main_fail p err_conn_closed
      else live p

module _ {M W : Type 0} where
  unfoldable pub prot_main_push_recv : Pmain M W → Recv M → Pmain M W
  prot_main_push_recv p phand = record p {
    recv_q = p.recv_q ++ (record phand { queued = true } ∷ []);
  }

  unfoldable pub prot_main_assign : Pmain M W → Pmain M W
  prot_main_assign p = record p { bev_ready = true }

  unfoldable pub prot_main_defer_free : Pmain M W → Pmain M W
  prot_main_defer_free p = record p { run_free = true }

  -- The second argument is not read.
  unfoldable pub prot_main_free_on_done : Pmain M W → Bool → Pmain M W
  prot_main_free_on_done p enable = record p { free_on_done = true }

  -- A message's callbacks report an error, or that the message is received, by these.
  unfoldable pub prot_main_set_error : Pmain M W → Status → Pmain M W
  prot_main_set_error p reported = record p { status = reported }

  unfoldable pub prot_main_recv_done : Pmain M W → Pmain M W
  prot_main_recv_done p = record p { current_recv_done = true }
