-- ===== src/ProtMain/Receiving/Safety.antt =====
-- The read callback touches no freed or unset object and returns, for handlers that keep to their
-- part of the contract.
use deep_messenger.Prelude.{
  ℕ, zero, suc, ◌<◌, ◌≡◌, refl, Bool, true, false, if_elim, List, arith, length, if◌then◌else◌, suc,
  not, ◌+◌,
}
use deep_messenger.ProtMain.{
  status_ok, Recv, Pmain, Run, live, gone, fault, out_of_fuel, Handlers, ◌>>=◌,
}
use deep_messenger.ProtMain.Write.{is_empty, if_ok, unless_freed, prot_main_fail}
use deep_messenger.ProtMain.Read.{
  finish_recv, write_back, run_handler, read_round, Check, check_message, pass, wait, refuse,
  read_loop, bev_read_cb,
}
use deep_messenger.ProtMain.Receiving.{
  IsAdmitted, IsGuarded, Admits, PassedRun, check_message-Passed,
}
use deep_messenger.ProtMain.Receiving.Contract.{
  Handled, RoundSafe, CallbackSafe, IsLawful, Finished, set_head-Admitted, RoundSafe-same,
  if_ok_elim, finish_recv-Finished,
}

module _ {M W : Type 0} (hs : Handlers M W) where
  unless_freed-Finished :
      (input : List ℕ) (p : Pmain M W) (r : Run (Pmain M W) (Pmain M W))
      → length input < length p.input
      → Finished hs input r
      → RoundSafe p (unless_freed r (λ p'. live (p', true)))
  unless_freed-Finished input p (live p') less (e, ok, same) =
      ((λ checked. absurd (ground arith)), ok, (λ _. ground (arith, same)))
  unless_freed-Finished input p (gone q) less h = tt
  unless_freed-Finished input p fault less h = absurd h
  unless_freed-Finished input p out_of_fuel less h = absurd h

  -- The rest of the round, from the state that the handler leaves.
  after_handle : Recv M → Pmain M W → Run (Pmain M W) (Pmain M W × Bool)
  unfolding if_ok
  after_handle phand p = if_ok hs p (λ p.
      if p.current_recv_done
      then unless_freed (finish_recv hs phand p) (λ p. live (p, true))
      else live (p, false))

  after_handle-RoundSafe :
      (laws : IsLawful hs) (phand : Recv M) (p p' : Pmain M W)
      → (p'.current_recv_done ≡ false → IsGuarded p')
      → (p'.current_recv_done ≡ true → length p'.input < length p.input)
      → RoundSafe p (after_handle phand p')
  unfolding after_handle
  after_handle-RoundSafe laws phand p p' undone done =
      if_ok_elim hs (RoundSafe p) p'
        (λ p.
          if p.current_recv_done
          then unless_freed (finish_recv hs phand p) (λ p. live (p, true))
          else live (p, false))
        (λ q. tt)
        (λ ok.
          if_elim (RoundSafe p) p'.current_recv_done {y = live (p', false)}
            (λ e.
              unless_freed-Finished p'.input p (finish_recv hs phand p') (done e)
                (finish_recv-Finished hs laws phand p'))
            (λ e. (undone e, ok, (λ h. cc))))

  Handled-RoundSafe :
      (laws : IsLawful hs) (phand phand' : Recv M) (p p' : Pmain M W)
      → IsAdmitted phand p.transaction_started p.transaction_id p.input
      → Admits p
      → Handled phand p (live (phand', p'))
      → RoundSafe p (after_handle phand' (write_back phand' p'))
  Handled-RoundSafe laws phand phand' p p' a h (undone, done) =
      if_elim (λ q. RoundSafe p (after_handle phand' q)) phand'.queued
        (λ _.
          after_handle-RoundSafe laws phand' p _
            (λ e _.
              let (same, sq, ss, si, sb) = undone e in
              rw (same, sq, ss, si, sb)
                (set_head-Admitted p.recv_q phand p.transaction_started p.transaction_id p.input h
                  a))
            done)
        (λ _.
          after_handle-RoundSafe laws phand' p p'
            (λ e _. let (same, sq, ss, si, sb) = undone e in rw (sq, ss, si, sb) h) done)

  run-Handled :
      (laws : IsLawful hs) (phand : Recv M) (p : Pmain M W)
      (r : Run (Pmain M W) (Recv M × Pmain M W))
      → IsAdmitted phand p.transaction_started p.transaction_id p.input
      → Admits p
      → Handled phand p r
      → RoundSafe p (r >>= (λ (phand', p'). after_handle phand' (write_back phand' p')))
  run-Handled laws phand p (live (phand', p')) a h s =
      Handled-RoundSafe laws phand phand' p p' a h s
  run-Handled laws phand p (gone q) a h s = absurd s
  run-Handled laws phand p fault a h s = absurd s
  run-Handled laws phand p out_of_fuel a h s = absurd s

  run_handler-RoundSafe :
      (laws : IsLawful hs) (phand : Recv M) (p : Pmain M W)
      → p.status ≡ status_ok
      → IsAdmitted phand p.transaction_started p.transaction_id p.input
      → Admits p
      → RoundSafe p (run_handler hs phand p)
  unfolding run_handler after_handle
  run_handler-RoundSafe laws phand p ok a h =
      run-Handled laws phand (record p { current_recv_done = false })
        (hs.recv_handle phand (record p { current_recv_done = false })) a h
        (laws.handle phand (record p { current_recv_done = false }) ok refl a)

  -- The rest of the round, from the outcome of the check.
  after_check : Check M W → Run (Pmain M W) (Pmain M W × Bool)
  unfolding run_handler prot_main_fail
  after_check c = elim c [
    | pass phand p ↦ run_handler hs phand p
    | wait p ↦ live (p, false)
    | refuse reported p ↦ prot_main_fail hs p reported
  ]

  after_check-RoundSafe :
      (laws : IsLawful hs) (p : Pmain M W) (r : Run (Pmain M W) (Check M W))
      → PassedRun p.input r
      → RoundSafe p (r >>= after_check)
  unfolding after_check prot_main_fail
  after_check-RoundSafe laws p (live (pass phand p')) (a, h, ok, same) =
      RoundSafe-same p p' same _ (run_handler-RoundSafe laws phand p' ok a h)
  after_check-RoundSafe laws p (live (wait p')) (e, ok) =
      ((λ checked. absurd (ground arith)), ok, (λ h. cc))
  after_check-RoundSafe laws p (live (refuse reported p')) h = tt
  after_check-RoundSafe laws p (gone q) h = absurd h
  after_check-RoundSafe laws p fault h = absurd h
  after_check-RoundSafe laws p out_of_fuel h = absurd h

  read_round-RoundSafe :
      (laws : IsLawful hs) (p : Pmain M W)
      → IsGuarded p
      → p.status ≡ status_ok
      → RoundSafe p (read_round hs p)
  unfolding read_round after_check
  read_round-RoundSafe laws p g ok =
      after_check-RoundSafe laws p (check_message hs p) (check_message-Passed hs p g ok)

  -- The rest of the loop, from the outcome of a round.
  next_round-CallbackSafe :
      (n : ℕ) (p : Pmain M W) (r : Run (Pmain M W) (Pmain M W × Bool))
      → length p.input < suc n
      → ((p' : Pmain M W)
          → length p'.input < n
          → IsGuarded p'
          → p'.status ≡ status_ok
          → CallbackSafe (read_loop hs n p'))
      → RoundSafe p r
      → CallbackSafe (
          unless_freed r (λ (p', again). elim again [ true ↦ read_loop hs n p' | false ↦ live p' ]))
  next_round-CallbackSafe n p (live (p', true)) room next (g, ok, less) =
      let shorter : length p'.input < length p.input = less refl in next p' (omega arith) g ok
  next_round-CallbackSafe n p (live (p', false)) room next (g, ok, less) = (g, ok)
  next_round-CallbackSafe n p (gone q) room next h = tt
  next_round-CallbackSafe n p fault room next h = absurd h
  next_round-CallbackSafe n p out_of_fuel room next h = absurd h

  read_loop-CallbackSafe :
      (laws : IsLawful hs) (n : ℕ) (p : Pmain M W)
      → length p.input < n
      → IsGuarded p
      → p.status ≡ status_ok
      → CallbackSafe (read_loop hs n p)
  unfolding read_loop
  read_loop-CallbackSafe laws zero p room g ok = absurd (omega arith)
  read_loop-CallbackSafe laws (suc n) p room g ok =
      elim (is_empty p.input)
        as (λ empty. CallbackSafe (elim empty [
          | true ↦ live p
          | false ↦
              unless_freed (read_round hs p)
                (λ (p', again). elim again [ true ↦ read_loop hs n p' | false ↦ live p' ])
        ])) [
          | true ↦ (g, ok)
          | false ↦
              next_round-CallbackSafe n p (read_round hs p) room
                (λ p' room g ok. read_loop-CallbackSafe laws n p' room g ok)
                (read_round-RoundSafe laws p g ok)
        ]

  -- For handlers and hooks that keep to their contract, data that arrives on a connection whose
  -- status is ok
  -- and whose checked message, if any, is admitted, is read without an access to a freed or an
  -- unset object and without running out of fuel; the connection is freed or is in such a state
  -- again.
  pub bev_read_cb-CallbackSafe :
      (laws : IsLawful hs) (p : Pmain M W)
      → IsGuarded p
      → p.status ≡ status_ok
      → CallbackSafe (bev_read_cb hs p)
  unfolding bev_read_cb
  bev_read_cb-CallbackSafe laws p g ok =
      if_elim CallbackSafe (not p.bev_ready) {y = read_loop hs (length p.input + 1) p}
        (λ _. (g, ok)) (λ _. read_loop-CallbackSafe laws (length p.input + 1) p (omega arith) g ok)
