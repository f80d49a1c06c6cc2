-- ===== src/MessageList/Framing.antt =====
-- The loop over a list's messages ends, and reads each message from its own bytes.
use deep_messenger.Prelude.{
  ℕ, zero, suc, ◌-◌, ◌≤◌, ◌<◌, ◌≡◌, refl, sym, ap, ◌∙◌, false, List, [], ◌∷◌, ◌++◌, All, ltb, drop,
  length, length-append, drop-append, drop-within, length-drop, arith, not_ltb, Bool-cases, inl,
  inr, ge→ltb,
}
use mathlib.Core.Path.{subst}
use mathlib.Core.List.{append_assoc}
use deep_messenger.ProtMain.{Run, live, ◌>>=◌}
use deep_messenger.BufferCrypto.{Verified}
use deep_messenger.BufferCrypto.Envelope.{Cipher, ntohl}
use deep_messenger.Message.Objects.{Db}
use deep_messenger.Message.Receive.{whole_length}
use deep_messenger.MessageList.{From, joined}
use deep_messenger.MessageList.Items.{Reading, handle_item, item_loop}
use deep_messenger.MessageList.Leaves.{
  Ends, Leaves-bind, bind-agree, header_fits, handle_item-Leaves,
}

-- A message whose length is that which stands in it.
abbrev pub IsItem : List ℕ → Type 0
IsItem item = length item ≡ whole_length (ntohl (drop 82 item))

ntohl-four : (xs ys : List ℕ) → 4 ≤ length xs → ntohl (xs ++ ys) ≡ ntohl xs
unfolding ntohl
ntohl-four [] ys h = absurd (omega arith)
ntohl-four (x ∷ []) ys h = absurd (omega arith)
ntohl-four (x ∷ y ∷ []) ys h = absurd (omega arith)
ntohl-four (x ∷ y ∷ z ∷ []) ys h = absurd (omega arith)
ntohl-four (x ∷ y ∷ z ∷ w ∷ xs) ys h = refl

ntohl-front :
    (item rest : List ℕ) → 86 ≤ length item → ntohl (drop 82 (item ++ rest)) ≡ ntohl (drop 82 item)
ntohl-front item rest h =
    ap ntohl (drop-within 82 item rest (omega (arith, h)))
    ∙ ntohl-four (drop 82 item) rest (omega (arith, h, length-drop 82 item))

module _ {K S O W : Type 0} (sha512 : List ℕ → List ℕ) (sign : List ℕ → List ℕ → List ℕ)
    (verify : List ℕ → List ℕ → List ℕ → Verified) (sha3 : List ℕ → List ℕ) (buffer : List ℕ)
    (c : Cipher K S O) (db : Db W) where
  -- With more fuel than bytes the loop over the list's messages ends: each takes 86 bytes at
  -- least off the length, whatever the input holds. It may end in reading a type that no message
  -- has set.
  pub item_loop-Ends :
      (P : Type 0) (n : ℕ) (from : From) (len : ℕ) (st : Reading W)
      → len < n
      → Ends (item_loop sha512 sign verify sha3 buffer c db {P = P} n from len st)
  unfolding item_loop
  item_loop-Ends P zero from len st h = absurd (omega arith)
  item_loop-Ends P (suc n) from len st h =
      let message_len = whole_length (ntohl (drop 82 st.input)) in
      let least = header_fits (ntohl (drop 82 st.input)) in
      elim (Bool-cases (ltb len 86)) [
        | inl e ↦ rw (item_loop, e) tt
        | inr e ↦ elim (Bool-cases (ltb len message_len)) [
          | inl e' ↦ rw (item_loop, e, e') tt
          | inr e' ↦
              let room = not_ltb len message_len e' in
              rw (item_loop, e, e')
                (Leaves-bind _
                  (handle_item sha512 sign verify sha3 buffer c db {P = P} from message_len st) _
                  (handle_item-Leaves sha512 sign verify sha3 buffer c db P from message_len st
                    (omega (arith, least)))
                  (λ st'.
                    item_loop-Ends P n from (len - message_len) st'
                      (omega (arith, room, least, h))))
        ]
      ]

  -- The messages, one after the other.
  unfoldable pub each : {P : Type 0} → From → List (List ℕ) → Reading W → Run P (Reading W)
  each from [] st = live st
  each from (item ∷ items) st =
      handle_item sha512 sign verify sha3 buffer c db from (length item) st
      >>= (λ st'. each from items st')

  item_loop_step :
      (P : Type 0) (n : ℕ) (from : From) (len message_len : ℕ) (st : Reading W)
      → whole_length (ntohl (drop 82 st.input)) ≡ message_len
      → 86 ≤ message_len
      → message_len ≤ len
      → item_loop sha512 sign verify sha3 buffer c db {P = P} (suc n) from len st ≡ (
          handle_item sha512 sign verify sha3 buffer c db {P = P} from message_len st >>= (λ st'.
            item_loop sha512 sign verify sha3 buffer c db {P = P} n from (len - message_len) st'))
  unfolding item_loop
  item_loop_step P n from len message_len st read least room =
      let header : ltb len 86 ≡ false = ge→ltb len 86 (omega arith) in
      let all_in : ltb len message_len ≡ false = ge→ltb len message_len room in
      subst
        (λ k.
          ltb len k ≡ false
          → item_loop sha512 sign verify sha3 buffer c db {P = P} (suc n) from len st ≡ (
              handle_item sha512 sign verify sha3 buffer c db {P = P} from k st >>= (λ st'.
                item_loop sha512 sign verify sha3 buffer c db {P = P} n from (len - k) st')))
        read (λ e. rw (item_loop, header, e) refl) all_in

  -- Messages that one after the other make up the list, each as long as the length inside it says,
  -- are handled one at a time and in their order, each from its own bytes on, whatever becomes of
  -- those before it; the loop ends with nothing of the list left.
  pub item_loop-each :
      (P : Type 0) (n : ℕ) (from : From) (items : List (List ℕ)) (rest : List ℕ) (st : Reading W)
      → All IsItem items
      → st.input ≡ joined items ++ rest
      → length (joined items) < n
      → item_loop sha512 sign verify sha3 buffer c db {P = P} n from (length (joined items)) st
        ≡ (each from items st >>= (λ st'. live (0, st')))
  unfolding item_loop each
  item_loop-each P zero from items rest st sizes arrived fuel = absurd (omega arith)
  item_loop-each P (suc n) from [] rest st sizes arrived fuel = refl
  item_loop-each P (suc n) from (item ∷ items) rest st (size, sizes) arrived fuel =
      let both = length-append item (joined items) in
      let whole : st.input ≡ item ++ (joined items ++ rest) =
        arrived ∙ append_assoc item (joined items) rest in
      let least : 86 ≤ length item = omega (arith, size, header_fits (ntohl (drop 82 item))) in
      let read : whole_length (ntohl (drop 82 st.input)) ≡ length item =
        ap (λ l. whole_length (ntohl (drop 82 l))) whole
        ∙ ap whole_length (ntohl-front item (joined items ++ rest) least)
        ∙ sym size in
      item_loop_step P n from (length (item ++ joined items)) (length item) st read least
        (omega (arith, both))
      ∙ ap
          (λ k.
            handle_item sha512 sign verify sha3 buffer c db {P = P} from (length item) st
            >>= (λ st'. item_loop sha512 sign verify sha3 buffer c db {P = P} n from k st'))
          (omega (arith, both))
      ∙ bind-agree (drop (length item) st.input)
          (handle_item sha512 sign verify sha3 buffer c db {P = P} from (length item) st) _ _ _
          (handle_item-Leaves sha512 sign verify sha3 buffer c db P from (length item) st
            (omega (arith, least)))
          (λ st' e.
            item_loop-each P n from items rest st' sizes
              (e
                ∙ ap (drop (length item)) whole
                ∙ drop-append item (joined items ++ rest) (length item) refl)
              (omega (arith, both, least, fuel)))
