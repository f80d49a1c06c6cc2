-- ===== src/ProtMain/Sending.antt =====
-- What is sent: the queue's messages in their order, to the last.
use deep_messenger.Prelude.{
  ℕ, zero, suc, Bool, true, false, List, [], ◌∷◌, ◌++◌, ◌≡◌, refl, sym, ap, ◌∙◌, length, if_elim,
  arith, ap, sym, arith, ◌||◌,
}
use mathlib.Core.Path.{subst}
use mathlib.Core.List.{append-nil}
use deep_messenger.ProtMain.{
  Recv, Tran, Pmain, live, Handlers, status_ok, Run, gone, fault, out_of_fuel,
}
use deep_messenger.Hooks.{HookList}
use deep_messenger.ProtMain.Codes.{ev_done}
use deep_messenger.ProtMain.Write.{unless_freed, call_hooks, prot_main_done_check, bev_write_cb}

-- Callbacks that set up a message from its object, and change nothing else of the connection.
module _ {M W : Type 0} (others : Handlers M W) (body : M → List ℕ)
    (done cleanup : Tran M → W → W) where
  abbrev pub writers : Handlers M W
  writers = record others {
    tran_setup = λ phand p. (record phand { buffer = phand.buffer ++ body phand.msg }, p);
    tran_done = λ phand p. (phand, record p { world = done phand p.world });
    tran_cleanup = λ phand p. record p { world = cleanup phand p.world };
  }

  -- What is put in the output buffer by n runs of the write callback, which the network empties.
  pub outputs : ℕ → Pmain M W → List ℕ
  outputs zero p = p.output
  outputs (suc n) p = elim (bev_write_cb writers (record p { output = [] })) [
    | live p' ↦ p.output ++ outputs n p'
    | _ ↦ p.output
  ]

  abbrev pub bodies : List (Tran M) → List ℕ
  bodies [] = []
  bodies (phand ∷ rest) = (phand.buffer ++ body phand.msg) ++ bodies rest

  -- The queue behind the message in flight.
  abbrev pub HaveSetup : List (Tran M) → Type 0
  HaveSetup [] = Unit
  HaveSetup (phand ∷ rest) = (phand.has_setup ≡ true) × HaveSetup rest

  -- A connection with a message in flight.
  abbrev pub in_flight : Pmain M W → Tran M → List (Tran M) → Pmain M W
  in_flight p phand rest = record p {
    status = status_ok;
    bev_ready = true;
    tran_enabled = true;
    tran_in_progress = true;
    tran_q = phand ∷ rest;
  }

  abbrev settle : (has_done has_cleanup : Bool) → Tran M → W → W
  settle true true phand w = cleanup (record phand { success = true }) (done phand w)
  settle true false phand w = done phand w
  settle false true phand w = cleanup (record phand { success = true }) w
  settle false false phand w = w

  -- One run of the write callback, where another message follows the one in flight. The list is
  -- the receiving queue.
  abbrev Step : (has_done has_cleanup : Bool) → List (Recv M) → Type 0
  Step d c q =
      (p : Pmain M W) (phand next : Tran M) (rest : List (Tran M))
      → bev_write_cb writers (
          in_flight (record p { output = []; recv_q = q })
            (record phand { has_done = d; has_cleanup = c })
            (record next { has_setup = true } ∷ rest))
        ≡ live (
            in_flight
              (record p {
                output = next.buffer ++ body next.msg;
                recv_q = q;
                world = settle d c (record phand { has_done = d; has_cleanup = c }) p.world;
              })
              (record next { has_setup = true; buffer = [] }) rest)

  bev_write_cb-Step : (d c : Bool) (q : List (Recv M)) → Step d c q
  unfolding bev_write_cb
  bev_write_cb-Step true true [] p phand next rest = refl
  bev_write_cb-Step true true (_ ∷ _) p phand next rest = refl
  bev_write_cb-Step true false [] p phand next rest = refl
  bev_write_cb-Step true false (_ ∷ _) p phand next rest = refl
  bev_write_cb-Step false true [] p phand next rest = refl
  bev_write_cb-Step false true (_ ∷ _) p phand next rest = refl
  bev_write_cb-Step false false [] p phand next rest = refl
  bev_write_cb-Step false false (_ ∷ _) p phand next rest = refl

  outputs_step :
      (n : ℕ) (p p' : Pmain M W)
      → bev_write_cb writers (record p { output = [] }) ≡ live p'
      → outputs (suc n) p ≡ p.output ++ outputs n p'
  unfolding outputs
  outputs_step n p p' e = rw (e, outputs) refl

  -- The same step, for the connection as it stands.
  flight_step :
      (p : Pmain M W) (phand next : Tran M) (rest : List (Tran M))
      → next.has_setup ≡ true
      → bev_write_cb writers (in_flight (record p { output = [] }) phand (next ∷ rest))
        ≡ live (
            in_flight
              (record p {
                output = next.buffer ++ body next.msg;
                world = settle phand.has_done phand.has_cleanup phand p.world;
              })
              (record next { buffer = [] })
              rest)
  flight_step p phand next rest e =
      subst
        (λ x.
          bev_write_cb writers (in_flight (record p { output = [] }) phand (x ∷ rest))
          ≡ live (
              in_flight
                (record p {
                  output = x.buffer ++ body x.msg;
                  world = settle phand.has_done phand.has_cleanup phand p.world;
                })
                (record x { buffer = [] }) rest))
        (ap (λ b. record next { has_setup = b }) (sym e))
        (bev_write_cb-Step phand.has_done phand.has_cleanup p.recv_q p phand next rest)

  -- With a message in flight, each run of the write callback after the network has emptied the
  -- output buffer sends the next message of the queue: nothing is lost, doubled or sent out of
  -- order, for callbacks that only set up their own message.
  pub outputs-in_order :
      (rest : List (Tran M)) (p : Pmain M W) (phand : Tran M)
      → HaveSetup rest
      → outputs (length rest) (in_flight p phand rest) ≡ p.output ++ bodies rest
  unfolding outputs
  outputs-in_order [] p phand h = sym (append-nil p.output)
  outputs-in_order (next ∷ rest) p phand (e, h) =
      outputs_step (length rest) (in_flight p phand (next ∷ rest)) _
        (flight_step p phand next rest e)
      ∙ ap (λ l. p.output ++ l)
          (outputs-in_order rest
            (record p {
              output = next.buffer ++ body next.msg;
              world = settle phand.has_done phand.has_cleanup phand p.world;
            })
            (record next { buffer = [] }) h)

  -- The connection after n runs of the write callback, each on an emptied output buffer, or until it
  -- is freed.
  pub after : ℕ → Pmain M W → Run (Pmain M W) (Pmain M W)
  after zero p = live p
  after (suc n) p = unless_freed (bev_write_cb writers (record p { output = [] })) (after n)

  abbrev pub IsGone : Run (Pmain M W) (Pmain M W) → Type 0
  IsGone (gone p) = Unit
  IsGone _ = ⊥

  -- The hooks leave the wish to be freed as it is.
  abbrev pub HooksKeep : HookList → Type 0
  HooksKeep hooks =
      (p : Pmain M W)
      → p.free_on_done ≡ true
      → (call_hooks writers ev_done (record p { hooks = hooks })).free_on_done ≡ true

  done-IsGone :
      (p : Pmain M W) (go_on : Pmain M W → Run (Pmain M W) (Pmain M W))
      → HooksKeep p.hooks
      → p.free_on_done ≡ true
      → IsGone (
          unless_freed (prot_main_done_check writers (record p { recv_q = []; tran_q = [] })) go_on)
  unfolding prot_main_done_check
  done-IsGone p go_on keep wish =
      if_elim (λ r. IsGone (unless_freed r go_on)) (ended.run_free || ended.free_on_done) (λ _. tt)
        (λ off. ground (arith, off, keep (record p { recv_q = []; tran_q = [] }) wish))
    where
      ended : Pmain M W
      ended = call_hooks writers ev_done (record p { recv_q = []; tran_q = [] })

  -- The connection when the last message is out.
  abbrev settled : Pmain M W → W → Pmain M W
  settled p w = record p {
    status = status_ok;
    bev_ready = true;
    tran_enabled = true;
    tran_in_progress = false;
    output = [];
    world = w;
  }

  last-IsGone :
      (d c : Bool) (p : Pmain M W) (phand : Tran M)
      → HooksKeep p.hooks
      → p.free_on_done ≡ true
      → IsGone (
          bev_write_cb writers (
            in_flight
              (record p { output = []; recv_q = [] })
              (record phand { has_done = d; has_cleanup = c })
              []))
  unfolding bev_write_cb
  last-IsGone true true p phand keep wish =
      done-IsGone
        (settled p
          (settle true true (record phand { has_done = true; has_cleanup = true }) p.world))
        _ keep wish
  last-IsGone true false p phand keep wish =
      done-IsGone
        (settled p
          (settle true false (record phand { has_done = true; has_cleanup = false }) p.world))
        _ keep wish
  last-IsGone false true p phand keep wish =
      done-IsGone
        (settled p
          (settle false true (record phand { has_done = false; has_cleanup = true }) p.world))
        _ keep wish
  last-IsGone false false p phand keep wish =
      done-IsGone
        (settled p
          (settle false false (record phand { has_done = false; has_cleanup = false }) p.world))
        _ keep wish

  unless_freed-IsGone :
      (r : Run (Pmain M W) (Pmain M W)) (f : Pmain M W → Run (Pmain M W) (Pmain M W))
      → IsGone r
      → IsGone (unless_freed r f)
  unless_freed-IsGone (gone p) f h = tt
  unless_freed-IsGone (live _) f h = elim h [ ]
  unless_freed-IsGone fault f h = elim h [ ]
  unless_freed-IsGone out_of_fuel f h = elim h [ ]

  -- A connection that is to be freed once it is done, that waits for nothing to be received and has
  -- a message in flight and any number of messages queued, is freed by as many runs of the write
  -- callback as it has messages, each after the network has emptied the output buffer, for callbacks
  -- that only set up their own message and hooks of its own that leave the wish to be freed as it is.
  pub after-IsGone :
      (rest : List (Tran M)) (p : Pmain M W) (phand : Tran M)
      → HaveSetup rest
      → HooksKeep p.hooks
      → p.recv_q ≡ []
      → p.free_on_done ≡ true
      → IsGone (after (suc (length rest)) (in_flight p phand rest))
  unfolding after
  after-IsGone [] p phand h keep quiet wish = unless_freed-IsGone _ (after 0) (
      subst
        (λ q.
          IsGone (bev_write_cb writers (in_flight (record p { output = []; recv_q = q }) phand [])))
        (sym quiet) (last-IsGone phand.has_done phand.has_cleanup p phand keep wish))
  after-IsGone (next ∷ rest) p phand (e, h) keep quiet wish =
      subst (λ r. IsGone (unless_freed r (after (suc (length rest)))))
        (sym (flight_step p phand next rest e))
        (after-IsGone rest
          (record p {
            output = next.buffer ++ body next.msg;
            world = settle phand.has_done phand.has_cleanup phand p.world;
          })
          (record next { buffer = [] }) h keep quiet wish)
