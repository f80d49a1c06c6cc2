-- ===== src/ProtMain/Emptied.antt =====
-- Freeing a connection takes every message out of its queues, also where cleanups put messages in.
use deep_messenger.Prelude.{
  ℕ, zero, suc, ◌+◌, ◌≤◌, length, arith, ◌≡◌, refl, Bool, true, false, List, [], ◌∷◌, if◌then◌else◌,
}
use deep_messenger.ProtMain.{Recv, Tran, Pmain, Handlers}
use deep_messenger.ProtMain.Write.{tail, pushed_limit, free_recv, free_tran, prot_main_free}

module _ {M W : Type 0} (hs : Handlers M W) (left : Pmain M W → ℕ) where
  -- From the first state to the second no more messages are put into a queue than `left` allows.
  abbrev pub Spends : {A : Type 0} → (queue : Pmain M W → List A) → (p p' : Pmain M W) → Type 0
  Spends queue p p' = (left p' ≤ left p) × (length (queue p') + left p' ≤ length (queue p) + left p)

  -- The cleanups put no more messages into the queue that is freed than `left` says of the
  -- connection's state, which does not depend on the queues.
  pub record IsBounded : Type 0 where
    pub recv_cleanup :
        (phand : Recv M) (p : Pmain M W) → Spends (λ p. p.recv_q) p (hs.recv_cleanup phand p)
    pub tran_cleanup :
        (phand : Tran M) (p : Pmain M W) → Spends (λ p. p.tran_q) p (hs.tran_cleanup phand p)
    pub recv_q : (p : Pmain M W) (q : List (Recv M)) → left (record p { recv_q = q }) ≡ left p
    pub tran_q : (p : Pmain M W) (q : List (Tran M)) → left (record p { tran_q = q }) ≡ left p

  length-tail :
      {A : Type 0} (a : A) (rest q : List A) (n m : ℕ)
      → length q + n ≤ length (a ∷ rest) + m
      → n ≤ m
      → length (tail q) + n ≤ length rest + m
  length-tail a rest [] n m h le = omega (arith, h, le)
  length-tail a rest (b ∷ q) n m h le = omega (arith, h, le)

  recv_round :
      (b : Bool) (phand' phand : Recv M) (rest : List (Recv M)) (p : Pmain M W)
      → IsBounded
      → let full = record p { recv_q = phand ∷ rest } in
        let p' = if b then hs.recv_cleanup phand' full else full in
        (left p' ≤ left p) × (length (tail p'.recv_q) + left p' ≤ length rest + left p)
  recv_round true phand' phand rest p law =
      let full = record p { recv_q = phand ∷ rest } in
      let (le, h) = law.recv_cleanup phand' full in
      let same = law.recv_q p (phand ∷ rest) in
      let p' = hs.recv_cleanup phand' full in
      (
        omega (arith, le, same),
        length-tail phand rest p'.recv_q (left p') (left p) (omega (arith, h, same))
            (omega (arith, le, same)),
      )
  recv_round false phand' phand rest p law =
      let same = law.recv_q p (phand ∷ rest) in (omega (arith, same), omega (arith, same))

  free_recv-empty :
      (fuel : ℕ) (q : List (Recv M)) (p : Pmain M W)
      → IsBounded
      → length q + left p ≤ fuel
      → let p' = free_recv hs fuel (record p { recv_q = q }) in
        (p'.recv_q ≡ []) × (left p' ≤ left p)
  unfolding free_recv
  free_recv-empty zero [] p law h = (refl, omega (arith, law.recv_q p []))
  free_recv-empty (suc fuel) [] p law h = (refl, omega (arith, law.recv_q p []))
  free_recv-empty zero (phand ∷ rest) p law h = absurd (omega arith)
  free_recv-empty (suc fuel) (phand ∷ rest) p law h =
      let full = record p { recv_q = phand ∷ rest } in
      let phand' = record phand { success = false } in
      let p' = if phand.has_cleanup then hs.recv_cleanup phand' full else full in
      let (le, room) = recv_round phand.has_cleanup phand' phand rest p law in
      let (empty, less) = free_recv-empty fuel (tail p'.recv_q) p' law (omega (arith, h, room)) in
      (empty, omega (arith, le, less))

  tran_round :
      (b : Bool) (phand' phand : Tran M) (rest : List (Tran M)) (p : Pmain M W)
      → IsBounded
      → let full = record p { tran_q = phand ∷ rest } in
        let p' = if b then hs.tran_cleanup phand' full else full in
        (left p' ≤ left p) × (length (tail p'.tran_q) + left p' ≤ length rest + left p)
  tran_round true phand' phand rest p law =
      let full = record p { tran_q = phand ∷ rest } in
      let (le, h) = law.tran_cleanup phand' full in
      let same = law.tran_q p (phand ∷ rest) in
      let p' = hs.tran_cleanup phand' full in
      (
        omega (arith, le, same),
        length-tail phand rest p'.tran_q (left p') (left p) (omega (arith, h, same))
            (omega (arith, le, same)),
      )
  tran_round false phand' phand rest p law =
      let same = law.tran_q p (phand ∷ rest) in (omega (arith, same), omega (arith, same))

  free_tran-empty :
      (fuel : ℕ) (q : List (Tran M)) (p : Pmain M W)
      → IsBounded
      → length q + left p ≤ fuel
      → (free_tran hs fuel (record p { tran_q = q })).tran_q ≡ []
  unfolding free_tran
  free_tran-empty zero [] p law h = refl
  free_tran-empty (suc fuel) [] p law h = refl
  free_tran-empty zero (phand ∷ rest) p law h = absurd (omega arith)
  free_tran-empty (suc fuel) (phand ∷ rest) p law h =
      let full = record p { tran_q = phand ∷ rest } in
      let phand' = record phand { success = false } in
      let p' = if phand.has_cleanup then hs.tran_cleanup phand' full else full in
      let (le, room) = tran_round phand.has_cleanup phand' phand rest p law in
      free_tran-empty fuel (tail p'.tran_q) p' law (omega (arith, h, room))

  -- Where the cleanups put at most 65536 messages into the queue that is freed, which `left` counts
  -- down, freeing a connection takes every message out of its queues, those included that the
  -- cleanups put in: the loop over the messages to receive ends with an empty queue, and the one over
  -- those to send does after it.
  pub prot_main_free-empty :
      (p : Pmain M W)
      → IsBounded
      → left p ≤ pushed_limit
      → ((free_recv hs (length p.recv_q + pushed_limit) p).recv_q ≡ [])
        × ((prot_main_free hs p).tran_q ≡ [])
  unfolding prot_main_free
  prot_main_free-empty p law few =
      let (empty, le) =
        free_recv-empty (length p.recv_q + pushed_limit) p.recv_q p law (omega (arith, few)) in
      let p' = free_recv hs (length p.recv_q + pushed_limit) p in
      (
        empty,
        free_tran-empty (length p'.tran_q + pushed_limit) p'.tran_q p' law (omega (arith, le, few)),
      )
