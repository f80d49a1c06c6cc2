-- ===== src/Message/Fits.antt =====
-- What is read from a message fits in the arrays of the objects.
use deep_messenger.Prelude.{
  ℕ, ◌+◌, ◌*◌, ◌/◌, ◌≤◌, ◌<◌, ◌≡◌, false, not, Option, some, List, [], ◌∷◌, ◌++◌, ◌==◌, ltb, leb,
  take, drop, length, length-take, length-append, min, if_elim, arith, Option-cases, inl, inr,
}
use deep_messenger.Array.{limit}
use deep_messenger.Onion.{onion_address_valid}
use deep_messenger.Message.Objects.{DbMessage, DbContact, Db, room_for, db_message_set_text}
use deep_messenger.Message.Receive.{
  Processed, has_nonzero, set_mailbox, read_nick, read_mbox, read_recv, read_body,
}

-- The text and its end fit in their room, once there is one.
abbrev pub HasRoom : DbMessage → Type 0
HasRoom m = length m.body_text + min m.body_text_n_chunks 1 ≤ m.body_text_n_chunks

take_least : (n : ℕ) (xs : List ℕ) → length (take n xs) ≤ n
take_least n xs = let size = length-take n xs in omega (arith, size)

-- Whatever room there was, setting a text leaves room for it and for the zero at its end, and the
-- room never shrinks; the text is the first `text_len` characters, or, with no length, those before
-- the first zero.
pub db_message_set_text-HasRoom :
    (text : List ℕ) (text_len : Option ℕ) (m : DbMessage)
    → (limit text_len text + 1 ≤ (db_message_set_text text text_len m).body_text_n_chunks)
      × (m.body_text_n_chunks ≤ (db_message_set_text text text_len m).body_text_n_chunks)
      × HasRoom (db_message_set_text text text_len m)
unfolding db_message_set_text room_for
db_message_set_text-HasRoom text text_len m =
    let n = limit text_len text in
    let least = take_least n text in
    if_elim
      (λ room.
        (n + 1 ≤ room) × (m.body_text_n_chunks ≤ room) × (length (take n text) + min room 1 ≤ room))
      (ltb m.body_text_n_chunks ((n / 32 + 1) * 32))
      (λ small. (omega arith, ground arith, omega (arith, least)))
      (λ large. (ground arith, omega arith, ground (arith, least)))

-- A nickname leaves the last byte of its array zero.
abbrev pub Fits : DbMessage → DbContact → Type 0
Fits m cont =
    HasRoom m
    × (length m.body_nick < 255)
    × (length cont.nickname < 256)
    × (length m.body_mbox_id ≤ 16)
    × (length m.body_mbox_onion ≤ 63)
    × (length cont.mailbox_id ≤ 16)
    × (length cont.mailbox_onion ≤ 62)

abbrev FitsAll : Processed → Type 0
FitsAll (ok, m, cont) = Fits m cont

read_nick-Fits :
    (bytes : List ℕ) (m : DbMessage) (cont : DbContact)
    → Fits m cont
    → FitsAll (read_nick bytes m cont)
unfolding read_nick
read_nick-Fits bytes m cont (room, nick, name, id, onion, cid, conion) =
    if_elim FitsAll (leb 255 (length bytes)) (λ long. (room, nick, name, id, onion, cid, conion))
      (λ short. (room, ground arith, ground arith, id, onion, cid, conion))

set_mailbox-Fits :
    (bytes : List ℕ) (m : DbMessage) (cont : DbContact)
    → Fits m cont
    → Fits m (set_mailbox bytes cont)
unfolding set_mailbox
set_mailbox-Fits bytes m cont (room, nick, name, id, onion, cid, conion) =
    if_elim (Fits m) (has_nonzero (take 16 bytes))
      (λ some_id. (room, nick, name, id, onion, take_least 16 bytes, take_least 62 (drop 16 bytes)))
      (λ no_id. (room, nick, name, id, onion, cid, conion))

onion_least : (bytes : List ℕ) → length (take 62 (drop 16 bytes) ++ (0 ∷ [])) ≤ 63
onion_least bytes =
    let least = take_least 62 (drop 16 bytes) in
    omega (arith, least, length-append (take 62 (drop 16 bytes)) (0 ∷ []))

module _ {W : Type 0} (sha3 : List ℕ → List ℕ) (buffer : List ℕ) (db : Db W) where
  read_mbox-Fits :
      (bytes : List ℕ) (m : DbMessage) (cont : DbContact)
      → Fits m cont
      → FitsAll (read_mbox sha3 buffer db bytes m cont)
  unfolding read_mbox
  read_mbox-Fits bytes m cont (room, nick, name, id, onion, cid, conion) =
      let new_onion = take 62 (drop 16 bytes) ++ (0 ∷ []) in
      let m' = record m { body_mbox_id = take 16 bytes; body_mbox_onion = new_onion } in
      let fits : Fits m' cont =
        (room, nick, name, take_least 16 bytes, onion_least bytes, cid, conion) in
      if_elim FitsAll (ltb (length bytes) 78) (λ short. (room, nick, name, id, onion, cid, conion))
        (λ long.
          if_elim FitsAll (not (onion_address_valid sha3 buffer new_onion)) (λ bad. fits)
            (λ good. set_mailbox-Fits bytes m' cont fits))

  read_recv-Fits :
      (w : W) (bytes : List ℕ) (m : DbMessage) (cont : DbContact)
      → ((gid : List ℕ) (found : DbMessage)
          → db.message_by_gid w gid ≡ some found
          → Fits found cont)
      → Fits m cont
      → FitsAll (read_recv sha3 buffer db w bytes m cont)
  unfolding read_recv
  read_recv-Fits w bytes m cont stored fits =
      if_elim FitsAll (ltb (length bytes) 16) {x = (false, m, cont)} (λ short. fits)
        (λ long. elim (Option-cases (db.message_by_gid w (take 16 bytes))) [
          | inl e ↦ rw e fits
          | inr (found, e) ↦ rw e (stored (take 16 bytes) found e)
        ])

  -- Whatever type a decrypted body has and whatever bytes it is of, accepted or refused, the message
  -- and the contact fit in their arrays afterwards, if they did before and every stored message
  -- does: a text with its end in its room, a nickname with its end in 255 bytes, an identifier of a
  -- mailbox in 16, and an onion address in 62, with its end in 63.
  pub read_body-Fits :
      (w : W) (ctype : ℕ) (bytes : List ℕ) (m : DbMessage) (cont : DbContact)
      → ((gid : List ℕ) (found : DbMessage)
          → db.message_by_gid w gid ≡ some found
          → Fits found cont)
      → Fits m cont
      → Fits
          (read_body sha3 buffer db w ctype bytes m cont).1
          (read_body sha3 buffer db w ctype bytes m cont).2
  unfolding read_body db_message_set_text
  read_body-Fits w ctype bytes m cont stored fits =
      if_elim FitsAll (ctype == 1)
        (λ e. (
          (db_message_set_text-HasRoom bytes (some (length bytes)) m).2,
          fits.1,
          fits.2,
          fits.3,
          fits.4,
          fits.5,
          fits.6,
        ))
        (λ e.
          if_elim FitsAll (ctype == 2) (λ e. read_nick-Fits bytes m cont fits)
            (λ e.
              if_elim FitsAll (ctype == 3) (λ e. read_mbox-Fits bytes m cont fits)
                (λ e.
                  if_elim FitsAll (ctype == 4) (λ e. read_recv-Fits w bytes m cont stored fits)
                    (λ e. fits))))
