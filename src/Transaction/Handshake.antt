-- ===== src/Transaction/Handshake.antt =====
-- The messages that two parties exchange until a transaction is started.
use deep_messenger.Prelude.{
  ℕ, zero, suc, true, false, List, [], ◌∷◌, ◌++◌, ◌≡◌, refl, length, arith,
}
use deep_messenger.Hooks.{hook_list_call}
use deep_messenger.ProtMain.{
  Mode, client, mailbox, Tran, Pmain, Run, live, ◌>>=◌, Handlers, prot_main_new,
}
use deep_messenger.ProtMain.Write.{
  prot_main_push_tran, prot_main_socks5_cb, bev_write_cb, prot_main_assign,
}
use deep_messenger.ProtMain.Read.{bev_read_cb}
use deep_messenger.Transaction.{
  Msg, other, req_tran, txn_handlers, req_tran_setup, req_tran_done, res_tran_setup, res_tran_done,
  req_recv_handle, res_recv_handle,
}

module _ {M W : Type 0} where
  -- The network takes what is in the output buffer, and appends what arrives to the input buffer.
  abbrev pub drain : Pmain M W → Pmain M W
  drain p = record p { output = [] }

  abbrev pub feed : List ℕ → Pmain M W → Pmain M W
  feed bytes p = record p { input = p.input ++ bytes }

  -- Callbacks that send data made from the identifier of the transaction, as those of the signed
  -- messages do.
  abbrev pub signing : (List ℕ → List ℕ) → Handlers M W → Handlers M W
  signing body others = record others {
    tran_setup = λ phand p. (record phand { buffer = phand.buffer ++ body p.transaction_id }, p);
  }

module _ {M W : Type 0} (hs : Handlers (Msg M) W) where
  -- The client asks for a transaction and queues a message before it is connected.
  abbrev client_asks : W → Tran (Msg M) → Run (Pmain (Msg M) W) (Pmain (Msg M) W)
  client_asks w message = do
    p ← prot_main_push_tran hs (prot_main_new w) req_tran
    p' ← prot_main_push_tran hs p message
    prot_main_socks5_cb hs p' 0

  abbrev server_accepts : W → Mode → Pmain (Msg M) W
  server_accepts w side = record (prot_main_assign (prot_main_new w)) { mode = side }

  -- The request arrives, both learn that their messages are out, and the response arrives.
  abbrev pub handshake :
      W → Tran (Msg M) → W → Mode → Run (Pmain (Msg M) W) (Pmain (Msg M) W × Pmain (Msg M) W)
  handshake w message w' side = do
    c ← client_asks w message
    s ← bev_read_cb hs (feed c.output (server_accepts w' side))
    c' ← bev_write_cb hs (drain c)
    s' ← bev_write_cb hs (drain s)
    c'' ← bev_read_cb hs (feed s.output c')
    live (c'', s')

-- Both have started the transaction with this identifier, the client has sent this and waits for
-- no message, and the server has none to send.
abbrev pub Agreed : {P M W : Type 0} → List ℕ → List ℕ → Run P (Pmain M W × Pmain M W) → Type 0
Agreed txn_id sent (live (c, s)) =
    (c.transaction_started ≡ true)
    × (s.transaction_started ≡ true)
    × (c.transaction_id ≡ txn_id)
    × (s.transaction_id ≡ txn_id)
    × (c.output ≡ sent)
    × (s.output ≡ [])
    × (c.recv_q ≡ [])
    × (s.tran_q ≡ [])
Agreed txn_id sent _ = ⊥

-- A statement about each list of n elements.
abbrev EachOfLength : ℕ → (List ℕ → Type 0) → Type 0
EachOfLength zero P = P []
EachOfLength (suc n) P = (x : ℕ) → EachOfLength n (λ xs. P (x ∷ xs))

each_of_length :
    (n : ℕ) (P : List ℕ → Type 0) (xs : List ℕ) → length xs ≡ n → EachOfLength n P → P xs
each_of_length zero P [] e h = h
each_of_length zero P (x ∷ xs) e h = absurd (omega arith)
each_of_length (suc n) P [] e h = absurd (omega arith)
each_of_length (suc n) P (x ∷ xs) e h = each_of_length n (λ xs. P (x ∷ xs)) xs (omega arith) (h x)

module _ {M W : Type 0} (others : Handlers (Msg M) W) (body : List ℕ → List ℕ) (next : W → W) where
  -- The client's message `x`, which is set up when it is sent.
  abbrev pub signed : M → ℕ → Tran (Msg M)
  signed x code = record {
    msg_code = code;
    msg = other x;
    success = false;
    buffer = [];
    has_done = true;
    has_setup = true;
    has_cleanup = true;
  }

  -- The handshake where the random generator gives r.
  abbrev pub handshake_with :
      List ℕ → W → M → ℕ → W → Mode → Run (Pmain (Msg M) W) (Pmain (Msg M) W × Pmain (Msg M) W)
  handshake_with r w x code =
      handshake (txn_handlers (signing body others) (λ w. (r, next w))) w (signed x code)

  -- A client that asks for a transaction with a message queued behind the request, and a server in
  -- either mode that draws 16 random bytes, have started a transaction with these bytes in the end;
  -- the message was set up after that, with the identifier, and is sent.
  pub handshake-Agreed :
      (w w' : W) (x : M) (code : ℕ) (side : Mode) (r : List ℕ)
      → length r ≡ 16
      → Agreed r (body r) (handshake_with r w x code w' side)
  unfolding bev_write_cb bev_read_cb prot_main_new prot_main_assign prot_main_push_tran
      prot_main_socks5_cb req_tran_setup req_tran_done res_tran_setup res_tran_done req_recv_handle
      res_recv_handle hook_list_call
  handshake-Agreed w w' x code client r e =
      each_of_length 16 (λ r. Agreed r (body r) (handshake_with r w x code w' client)) r e
        (λ _ _ _ _ _ _ _ _ _ _ _ _ _ _ _ _. (refl, refl, refl, refl, refl, refl, refl, refl))
  handshake-Agreed w w' x code mailbox r e =
      each_of_length 16 (λ r. Agreed r (body r) (handshake_with r w x code w' mailbox)) r e
        (λ _ _ _ _ _ _ _ _ _ _ _ _ _ _ _ _. (refl, refl, refl, refl, refl, refl, refl, refl))
