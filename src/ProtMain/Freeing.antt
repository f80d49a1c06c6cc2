-- ===== src/ProtMain/Freeing.antt =====
-- What freeing a connection does with the messages that are left in its queues.
use deep_messenger.Prelude.{
  ℕ, zero, suc, ◌+◌, ◌≤◌, length, arith, ◌≡◌, sym, ap, ◌∙◌, Bool, true, false, List, [], ◌∷◌, ◌++◌,
  if◌then◌else◌,
}
use mathlib.Core.List.{append_assoc, append-nil}
use deep_messenger.ProtMain.{Recv, Tran, Pmain, Handlers}
use deep_messenger.ProtMain.Write.{tail, pushed_limit, free_recv, free_tran, prot_main_free}

-- A message and the success that its cleanup was told.
abbrev pub Log : Type 0 → Type 0
Log M = List (M × Bool)

module _ {M : Type 0} (others : Handlers M (Log M)) where
  -- Cleanups that record their message and the success they read, and change nothing else.
  abbrev pub logging : Handlers M (Log M)
  logging = record others {
    recv_cleanup = λ phand p. record p { world = p.world ++ ((phand.msg, phand.success) ∷ []) };
    tran_cleanup = λ phand p. record p { world = p.world ++ ((phand.msg, phand.success) ∷ []) };
  }

  -- The messages of a queue that have a cleanup, each told that it failed.
  abbrev pub failed_recv : List (Recv M) → Log M
  failed_recv [] = []
  failed_recv (phand ∷ rest) =
      (if phand.has_cleanup then (phand.msg, false) ∷ [] else []) ++ failed_recv rest

  abbrev pub failed_tran : List (Tran M) → Log M
  failed_tran [] = []
  failed_tran (phand ∷ rest) =
      (if phand.has_cleanup then (phand.msg, false) ∷ [] else []) ++ failed_tran rest

  -- A round that is told whether the head has a cleanup.
  free_recv_round :
      (b : Bool) (m : M) (fuel : ℕ) (phand : Recv M) (rest : List (Recv M)) (p : Pmain M (Log M))
      → ((p : Pmain M (Log M))
          → free_recv logging fuel (record p { recv_q = rest })
            ≡ record p { recv_q = []; world = p.world ++ failed_recv rest })
      → let full = record p { recv_q = phand ∷ rest } in
        let p' = if b then record full { world = full.world ++ ((m, false) ∷ []) } else full in
        free_recv logging fuel (record p' { recv_q = tail p'.recv_q }) ≡ record p {
          recv_q = [];
          world = p.world ++ ((if b then (m, false) ∷ [] else []) ++ failed_recv rest);
        }
  free_recv_round true m fuel phand rest p next =
      next (record p { world = p.world ++ ((m, false) ∷ []) })
      ∙ ap (λ w. record p { recv_q = []; world = w })
          (append_assoc p.world ((m, false) ∷ []) (failed_recv rest))
  free_recv_round false m fuel phand rest p next = next p

  free_recv_lem :
      (fuel : ℕ) (q : List (Recv M)) (p : Pmain M (Log M))
      → length q ≤ fuel
      → free_recv logging fuel (record p { recv_q = q })
        ≡ record p { recv_q = []; world = p.world ++ failed_recv q }
  unfolding free_recv
  free_recv_lem zero [] p h =
      ap (λ w. record p { recv_q = []; world = w }) (sym (append-nil p.world))
  free_recv_lem (suc fuel) [] p h =
      ap (λ w. record p { recv_q = []; world = w }) (sym (append-nil p.world))
  free_recv_lem zero (phand ∷ rest) p h = absurd (omega arith)
  free_recv_lem (suc fuel) (phand ∷ rest) p h =
      free_recv_round phand.has_cleanup phand.msg fuel phand rest p
        (λ p. free_recv_lem fuel rest p (omega arith))

  -- A round that is told whether the head has a cleanup.
  free_tran_round :
      (b : Bool) (m : M) (fuel : ℕ) (phand : Tran M) (rest : List (Tran M)) (p : Pmain M (Log M))
      → ((p : Pmain M (Log M))
          → free_tran logging fuel (record p { tran_q = rest })
            ≡ record p { tran_q = []; world = p.world ++ failed_tran rest })
      → let full = record p { tran_q = phand ∷ rest } in
        let p' = if b then record full { world = full.world ++ ((m, false) ∷ []) } else full in
        free_tran logging fuel (record p' { tran_q = tail p'.tran_q }) ≡ record p {
          tran_q = [];
          world = p.world ++ ((if b then (m, false) ∷ [] else []) ++ failed_tran rest);
        }
  free_tran_round true m fuel phand rest p next =
      next (record p { world = p.world ++ ((m, false) ∷ []) })
      ∙ ap (λ w. record p { tran_q = []; world = w })
          (append_assoc p.world ((m, false) ∷ []) (failed_tran rest))
  free_tran_round false m fuel phand rest p next = next p

  free_tran_lem :
      (fuel : ℕ) (q : List (Tran M)) (p : Pmain M (Log M))
      → length q ≤ fuel
      → free_tran logging fuel (record p { tran_q = q })
        ≡ record p { tran_q = []; world = p.world ++ failed_tran q }
  unfolding free_tran
  free_tran_lem zero [] p h =
      ap (λ w. record p { tran_q = []; world = w }) (sym (append-nil p.world))
  free_tran_lem (suc fuel) [] p h =
      ap (λ w. record p { tran_q = []; world = w }) (sym (append-nil p.world))
  free_tran_lem zero (phand ∷ rest) p h = absurd (omega arith)
  free_tran_lem (suc fuel) (phand ∷ rest) p h =
      free_tran_round phand.has_cleanup phand.msg fuel phand rest p
        (λ p. free_tran_lem fuel rest p (omega arith))

  -- Freeing a connection cleans each message up that is left in its queues and has a cleanup, once
  -- and in the order of the queues, those to receive before those to send; each is told that it
  -- failed, and both queues are empty in the end.
  pub prot_main_free-log :
      (p : Pmain M (Log M))
      → prot_main_free logging p ≡ record p {
        recv_q = [];
        tran_q = [];
        world = p.world ++ (failed_recv p.recv_q ++ failed_tran p.tran_q);
      }
  unfolding prot_main_free
  prot_main_free-log p =
      let kept = free_recv_lem (length p.recv_q + pushed_limit) p.recv_q p (omega arith) in
      ap (λ p'. free_tran logging (length p'.tran_q + pushed_limit) p') kept
      ∙ free_tran_lem (length p.tran_q + pushed_limit) p.tran_q
          (record p { recv_q = []; world = p.world ++ failed_recv p.recv_q }) (omega arith)
      ∙ ap (λ w. record p { recv_q = []; tran_q = []; world = w })
          (append_assoc p.world (failed_recv p.recv_q) (failed_tran p.tran_q))
