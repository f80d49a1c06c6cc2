-- ===== src/ProtMain/Receiving.antt =====
-- What the read callback guarantees, for handlers that keep to their part of the contract.
pub mod Contract
pub mod Safety
use deep_messenger.Prelude.{
  none, some, Option, ℕ, ◌≡◌, refl, Bool, true, false, not, if_elim, ltb, ◌==◌, List, [], ◌∷◌,
  arith, agrees, drop, length, Option, some,
}
use deep_messenger.ProtMain.{status_ok, Recv, Pmain, Run, live, Handlers}
use deep_messenger.ProtMain.Codes.{prot_header_len}
use deep_messenger.ProtMain.Write.{prot_main_push_recv}
use deep_messenger.ProtMain.Read.{
  Check, pass, wait, refuse, check_transaction, check_made, autogen, check_code, check_header,
  check_message, checked_handler,
}

module _ {M : Type 0} where
  -- A message that needs a transaction carries the identifier of the one that was started.
  abbrev pub IsAdmitted : Recv M → (started : Bool) (id input : List ℕ) → Type 0
  IsAdmitted phand started id input =
      phand.require_transaction ≡ true
      → (started ≡ true) × (agrees id (drop prot_header_len input) ≡ true)

  -- The head of the queue is a handler that the message is admitted to.
  abbrev pub HeadAdmitted : List (Recv M) → (started : Bool) (id input : List ℕ) → Type 0
  HeadAdmitted [] started id input = ⊥
  HeadAdmitted (phand ∷ rest) started id input = IsAdmitted phand started id input

module _ {M W : Type 0} where
  abbrev pub Admits : Pmain M W → Type 0
  Admits p = HeadAdmitted p.recv_q p.transaction_started p.transaction_id p.input

  -- A message whose header was checked is still admitted when more of it arrives.
  abbrev pub IsGuarded : Pmain M W → Type 0
  IsGuarded p = p.message_check_done ≡ true → Admits p

  -- A check that passes hands over an admitted message, whose handler is the queue's head or was
  -- copied there.
  abbrev pub Passed : List ℕ → Check M W → Type 0
  Passed input (pass phand p) =
      IsAdmitted phand p.transaction_started p.transaction_id p.input
      × Admits p
      × (p.status ≡ status_ok)
      × (p.input ≡ input)
  Passed input (wait p) = (p.message_check_done ≡ false) × (p.status ≡ status_ok)
  Passed input (refuse reported p) = Unit

  abbrev pub PassedRun : List ℕ → Run (Pmain M W) (Check M W) → Type 0
  PassedRun input (live c) = Passed input c
  PassedRun input _ = ⊥

  check_transaction-Passed :
      (phand : Recv M) (p : Pmain M W)
      → p.message_check_done ≡ false
      → p.status ≡ status_ok
      → (IsAdmitted phand p.transaction_started p.transaction_id p.input → Admits p)
      → Passed p.input (check_transaction phand p)
  unfolding check_transaction
  check_transaction-Passed phand p e ok h =
      if_elim (Passed p.input) (not phand.require_transaction)
        (λ free.
          let a : IsAdmitted phand p.transaction_started p.transaction_id p.input =
            (λ r. absurd (ground arith)) in
          (a, h a, ok, refl))
        (λ needed.
          if_elim (Passed p.input) (not p.transaction_started) (λ _. tt)
            (λ started.
              if_elim (Passed p.input) (ltb (length p.input) 18) (λ _. (e, ok))
                (λ arrived.
                  if_elim (Passed p.input) (agrees p.transaction_id (drop prot_header_len p.input))
                    (λ same.
                      let a : IsAdmitted phand p.transaction_started p.transaction_id p.input =
                        (λ r. (ground arith, same)) in
                      (a, h a, ok, refl))
                    (λ other. tt))))

module _ {M W : Type 0} (hs : Handlers M W) where
  check_made-Passed :
      (made : Option (Recv M)) (p : Pmain M W)
      → p.recv_q ≡ []
      → p.message_check_done ≡ false
      → p.status ≡ status_ok
      → Passed p.input (check_made hs made p)
  unfolding check_made
  check_made-Passed none p q e ok = tt
  check_made-Passed (some phand) p q e ok =
      check_transaction-Passed phand
        (record (prot_main_push_recv p phand) { current_recv_done = false }) e ok (λ a. rw q a)

  check_code-Passed :
      (q : List (Recv M)) (message_code : ℕ) (p : Pmain M W)
      → p.recv_q ≡ q
      → p.message_check_done ≡ false
      → p.status ≡ status_ok
      → Passed p.input (check_code hs q message_code p)
  unfolding check_code
  check_code-Passed [] message_code p q e ok =
      check_made-Passed (autogen hs p.mode message_code) p q e ok
  check_code-Passed (phand ∷ rest) message_code p q e ok =
      if_elim (Passed p.input) (phand.msg_code == message_code)
        (λ _. check_transaction-Passed phand p e ok (λ a. rw q a)) (λ _. tt)

  check_header-Passed :
      (input : List ℕ) (p : Pmain M W)
      → p.message_check_done ≡ false
      → p.status ≡ status_ok
      → Passed p.input (check_header hs input p)
  unfolding check_header
  check_header-Passed [] p e ok = (e, ok)
  check_header-Passed (version ∷ []) p e ok = (e, ok)
  check_header-Passed (version ∷ message_code ∷ rest) p e ok =
      if_elim (Passed p.input) (version == 1)
        (λ _. check_code-Passed p.recv_q message_code p refl e ok) (λ _. tt)

  checked_handler-Passed :
      (q : List (Recv M)) (p : Pmain M W)
      → p.recv_q ≡ q
      → p.status ≡ status_ok
      → HeadAdmitted q p.transaction_started p.transaction_id p.input
      → PassedRun p.input (checked_handler hs q p)
  unfolding checked_handler
  checked_handler-Passed [] p q ok h = h
  checked_handler-Passed (phand ∷ rest) p q ok h = (h, rw q h, ok, refl)

  check_message-Passed :
      (p : Pmain M W) → IsGuarded p → p.status ≡ status_ok → PassedRun p.input (check_message hs p)
  unfolding check_message
  check_message-Passed p g ok =
      if_elim (PassedRun p.input) (not p.message_check_done)
        (λ e. check_header-Passed p.input p (ground arith) ok)
        (λ e. checked_handler-Passed p.recv_q p refl ok (g (ground arith)))
