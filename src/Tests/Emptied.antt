-- ===== src/Tests/Emptied.antt =====
-- Freeing a connection whose cleanups put messages into the queue that is freed.
use deep_messenger.Prelude.{
  ℕ, zero, suc, ◌+◌, ◌≡◌, refl, [], ◌∷◌, ◌++◌, length, arith, length-append,
}
use deep_messenger.ProtMain.{Pmain, Handlers, prot_main_new}
use deep_messenger.ProtMain.Write.{pushed_limit, free_recv, prot_main_free}
use deep_messenger.ProtMain.Emptied.{Spends, IsBounded, prot_main_free-empty}
use deep_messenger.Tests.Protocol.{message, plain}
use deep_messenger.Tests.Messages.{waiting}

-- As often as the world says, a cleanup puts a message into the queue that is freed.
abbrev wait_again : ℕ → Pmain ℕ ℕ → Pmain ℕ ℕ
wait_again zero p = p
wait_again (suc n) p = record p { world = n; recv_q = p.recv_q ++ (waiting ∷ []) }

abbrev send_again : ℕ → Pmain ℕ ℕ → Pmain ℕ ℕ
send_again zero p = p
send_again (suc n) p = record p { world = n; tran_q = p.tran_q ++ (message 7 ∷ []) }

abbrev again : Handlers ℕ ℕ
again = record plain {
  recv_cleanup = λ phand p. wait_again p.world p;
  tran_cleanup = λ phand p. send_again p.world p;
}

wait_again-Spends :
    (n : ℕ) (p : Pmain ℕ ℕ)
    → p.world ≡ n
    → Spends again (λ p. p.world) (λ p. p.recv_q) p (wait_again n p)
wait_again-Spends zero p e = (omega arith, omega arith)
wait_again-Spends (suc n) p e =
    let more = length-append p.recv_q (waiting ∷ []) in (omega (arith, e), omega (arith, e, more))

send_again-Spends :
    (n : ℕ) (p : Pmain ℕ ℕ)
    → p.world ≡ n
    → Spends again (λ p. p.world) (λ p. p.tran_q) p (send_again n p)
send_again-Spends zero p e = (omega arith, omega arith)
send_again-Spends (suc n) p e =
    let more = length-append p.tran_q (message 7 ∷ []) in (omega (arith, e), omega (arith, e, more))

again-IsBounded : IsBounded again (λ p. p.world)
again-IsBounded = record {
  recv_cleanup = λ phand p. wait_again-Spends p.world p refl;
  tran_cleanup = λ phand p. send_again-Spends p.world p refl;
  recv_q = λ p q. refl;
  tran_q = λ p q. refl;
}

-- Each queue has one message, and three more are put in.
abbrev one_each : Pmain ℕ ℕ
one_each = record (prot_main_new 3) { recv_q = waiting ∷ []; tran_q = message 4 ∷ [] }

empty_example :
    ((free_recv again (length one_each.recv_q + pushed_limit) one_each).recv_q ≡ [])
    × ((prot_main_free again one_each).tran_q ≡ [])
unfolding prot_main_new
empty_example = prot_main_free-empty again (λ p. p.world) one_each again-IsBounded (omega arith)
