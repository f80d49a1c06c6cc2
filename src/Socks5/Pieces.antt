-- ===== src/Socks5/Pieces.antt =====
-- The server's reply in whatever pieces it arrives.
use deep_messenger.Prelude.{
  not_ltb, ℕ, zero, suc, ◌+◌, ◌<◌, ◌≡◌, refl, ap, sym, ◌∙◌, some, List, [], ◌∷◌, ◌++◌, ltb, lt→ltb,
  ltb→lt, if◌then◌else◌, if_elim, length, drop, drop-append, length-append, get_or, arith,
}
use mathlib.Core.Path.{subst}
use mathlib.Core.List.{append_assoc, append-nil}
use deep_messenger.Socks5.{
  Socks5Data, connect, Outcome, going_on, connected, failed, address_len, connect_step,
  socks5_read_cb, run_step,
}

-- The pieces that arrive, each reported to the read callback until there is none.
pub arrive : List (List ℕ) → Outcome → Outcome
arrive [] o = o
arrive (piece ∷ pieces) (going_on d) =
    arrive pieces (socks5_read_cb (record d { input = d.input ++ piece }))
arrive (piece ∷ pieces) (connected d) =
    arrive pieces (connected (record d { input = d.input ++ piece }))
arrive (piece ∷ pieces) (failed err) = failed err

abbrev pub joined : List (List ℕ) → List ℕ
joined [] = []
joined (piece ∷ pieces) = piece ++ joined pieces

-- A reply that reports success and is followed by data.
abbrev pub reply_header : (rsv address_type first : ℕ) (body : List ℕ) → List ℕ
reply_header rsv address_type first body = 5 ∷ 0 ∷ rsv ∷ address_type ∷ first ∷ body

arrive-connected :
    (pieces : List (List ℕ)) (d : Socks5Data)
    → arrive pieces (connected d) ≡ connected (record d { input = d.input ++ joined pieces })
unfolding arrive
arrive-connected [] d = ap (λ l. connected (record d { input = l })) (sym (append-nil d.input))
arrive-connected (piece ∷ pieces) d =
    arrive-connected pieces (record d { input = d.input ++ piece })
    ∙ ap (λ l. connected (record d { input = l })) (append_assoc d.input piece (joined pieces))

-- What a step does with the part of a reply that has arrived.
abbrev expected : ℕ → Socks5Data → Outcome
expected n d =
    if ltb (length d.input) (4 + n + 2)
    then going_on d
    else connected (record d { input = drop (4 + n + 2) d.input })

connect_step-part :
    (rsv address_type first : ℕ) (body part later : List ℕ) (n : ℕ) (d : Socks5Data)
    → address_len address_type first ≡ some n
    → part ++ later ≡ reply_header rsv address_type first body
    → d.input ≡ part
    → connect_step part d ≡ expected n d
unfolding connect_step
connect_step-part rsv at first body [] later n d a e i =
    rw (i, lt→ltb 0 (4 + n + 2) (omega arith)) refl
connect_step-part rsv at first body (v ∷ []) later n d a e i =
    rw (i, lt→ltb 1 (4 + n + 2) (omega arith)) refl
connect_step-part rsv at first body (v ∷ r ∷ []) later n d a e i =
    rw (i, lt→ltb 2 (4 + n + 2) (omega arith)) refl
connect_step-part rsv at first body (v ∷ r ∷ s ∷ []) later n d a e i =
    rw (i, lt→ltb 3 (4 + n + 2) (omega arith)) refl
connect_step-part rsv at first body (v ∷ r ∷ s ∷ t ∷ []) later n d a e i =
    rw (i, lt→ltb 4 (4 + n + 2) (omega arith)) refl
connect_step-part rsv at first body (v ∷ r ∷ s ∷ t ∷ f ∷ part) later n d a e i =
    let v5 : v ≡ 5 = ap (λ l. get_or l 0 0) e in
    let r0 : r ≡ 0 = ap (λ l. get_or l 1 0) e in
    let ta : t ≡ at = ap (λ l. get_or l 3 0) e in
    let fa : f ≡ first = ap (λ l. get_or l 4 0) e in rw (v5, r0, ta, fa, a) refl

module _ (rsv address_type first : ℕ) (body rest : List ℕ) (n : ℕ)
    (size : address_len address_type first ≡ some n)
    (whole : length (reply_header rsv address_type first body) ≡ 4 + n + 2) where
  abbrev reply : List ℕ
  reply = reply_header rsv address_type first body

  drop-same :
      (part later : List ℕ) (k : ℕ)
      → k < length part + 1
      → drop k (part ++ later) ≡ drop k part ++ later
  drop-same part later zero h = refl
  drop-same [] later (suc k) h = absurd (omega arith)
  drop-same (x ∷ part) later (suc k) h = drop-same part later k (omega arith)

  read_part :
      (d : Socks5Data) (later : List ℕ)
      → d.step ≡ connect
      → d.input ++ later ≡ reply ++ rest
      → socks5_read_cb d ≡ expected n d
  unfolding socks5_read_cb
  read_part d later s e =
      ap (λ st. run_step st d) s
      ∙ (connect_step-part rsv address_type first (body ++ rest) d.input later n d size e refl)

  -- A reply that reports success, then data, in any pieces that the network makes of them: the
  -- connection is handed over when the last byte of the reply is in, with exactly the data that
  -- follows the reply in its input buffer, and nothing is sent.
  pub arrive-reply :
      (pieces : List (List ℕ)) (d : Socks5Data)
      → d.step ≡ connect
      → length d.input < length reply
      → d.input ++ joined pieces ≡ reply ++ rest
      → arrive pieces (going_on d) ≡ connected (record d { input = rest })
  unfolding arrive
  arrive-reply [] d s short e =
      let lengths : length (d.input ++ []) ≡ length (reply ++ rest) = ap length e in
      absurd (omega (arith, lengths, length-append d.input [], length-append reply rest))
  arrive-reply (piece ∷ pieces) d s short e =
      let part = d.input ++ piece in
      let d' = record d { input = part } in
      let together : part ++ joined pieces ≡ reply ++ rest =
        append_assoc d.input piece (joined pieces) ∙ e in
      let read : socks5_read_cb d' ≡ expected n d' = read_part d' (joined pieces) s together in
      subst (λ o. arrive pieces o ≡ connected (record d { input = rest })) (sym read)
        (if_elim (λ o. arrive pieces o ≡ connected (record d { input = rest }))
          (ltb (length part) (4 + n + 2))
          (λ less.
            arrive-reply pieces d' s (omega (arith, ltb→lt (length part) (4 + n + 2) less))
              together)
          (λ enough.
            arrive-connected pieces (record d { input = drop (4 + n + 2) part })
            ∙ ap (λ l. connected (record d { input = l }))
                (sym (
                    drop-same part (joined pieces) (4 + n + 2)
                      (not_ltb (length part) (4 + n + 2) enough))
                  ∙ ap (drop (4 + n + 2)) together
                  ∙ drop-append reply rest (4 + n + 2) whole)))
