-- ===== src/SetContacts/Fields.antt =====
-- The parts of the message, as it is written and read.
use deep_messenger.Prelude.{
  ℕ, ◌+◌, ◌*◌, ◌<◌, ◌≡◌, refl, sym, ap, ◌∙◌, List, [], ◌∷◌, ◌++◌, map, All, take, drop, length,
  length-append, take-append, drop-append, arith,
}
use mathlib.Core.List.{append_assoc}
use deep_messenger.Socks5.{htons}
use deep_messenger.SetContacts.{Contact, ntohs, joined, remove_contacts}

abbrev pub AreKeys : List (List ℕ) → Type 0
AreKeys keys = All (λ key. length key ≡ 32) keys

-- A contact of an account, by its key.
abbrev pub contact_of : ℕ → List ℕ → Contact
contact_of account_id key = record { id = 0; account_id = account_id; signing_pub_key = key }

pub length-joined : (keys : List (List ℕ)) → AreKeys keys → length (joined keys) ≡ length keys * 32
length-joined [] h = refl
length-joined (key ∷ keys) (h, hs) =
    let both = length-append key (joined keys) in
    let rest = length-joined keys hs in omega (arith, both, rest, h)

pub ntohs-htons : (n : ℕ) (xs : List ℕ) → n < 65536 → ntohs (htons n ++ xs) ≡ n
ntohs-htons n xs h = omega arith

pub remove_contacts-joined :
    (keys : List (List ℕ)) (account_id : ℕ) (rest : List ℕ)
    → AreKeys keys
    → remove_contacts (length keys) account_id (joined keys ++ rest)
      ≡ (map (contact_of account_id) keys, rest)
unfolding remove_contacts
remove_contacts-joined [] account_id rest h = refl
remove_contacts-joined (key ∷ keys) account_id rest (h, hs) =
    rw
      (
        append_assoc key (joined keys) rest,
        take-append key (joined keys ++ rest) 32 h,
        drop-append key (joined keys ++ rest) 32 h,
        remove_contacts-joined keys account_id rest hs,
      )
      refl

-- What the handler reads, of a message in its parts.
pub read_fields :
    (input txn_id mb_id : List ℕ) (n : ℕ) (rest : List ℕ)
    → length txn_id ≡ 16
    → length mb_id ≡ 16
    → n < 65536
    → input ≡ 1 ∷ 0x88 ∷ (txn_id ++ (mb_id ++ (htons n ++ rest)))
    → (take 16 (drop 18 input) ≡ mb_id) × (ntohs (drop 34 input) ≡ n) × (drop 36 input ≡ rest)
read_fields input txn_id mb_id n rest id16 mb16 few e =
    let ids : length (txn_id ++ mb_id) ≡ 32 =
      omega (arith, length-append txn_id mb_id, id16, mb16) in
    let front : length ((txn_id ++ mb_id) ++ htons n) ≡ 34 =
      omega (arith, length-append (txn_id ++ mb_id) (htons n), ids) in
    let second : input ≡ 1 ∷ 0x88 ∷ ((txn_id ++ mb_id) ++ (htons n ++ rest)) =
      e ∙ ap (λ l. 1 ∷ 0x88 ∷ l) (sym (append_assoc txn_id mb_id (htons n ++ rest))) in
    let third : input ≡ 1 ∷ 0x88 ∷ (((txn_id ++ mb_id) ++ htons n) ++ rest) =
      second ∙ ap (λ l. 1 ∷ 0x88 ∷ l) (sym (append_assoc (txn_id ++ mb_id) (htons n) rest)) in
    (
      ap (λ l. take 16 (drop 18 l)) e
          ∙ ap (take 16) (drop-append txn_id (mb_id ++ (htons n ++ rest)) 16 id16)
          ∙ take-append mb_id (htons n ++ rest) 16 mb16,
      ap (λ l. ntohs (drop 34 l)) second
          ∙ ap ntohs (drop-append (txn_id ++ mb_id) (htons n ++ rest) 32 ids)
          ∙ ntohs-htons n rest few,
      ap (drop 36) third ∙ drop-append ((txn_id ++ mb_id) ++ htons n) rest 34 front,
    )

-- The message's length up to its signature.
pub content-length :
    (txn_id mb_id : List ℕ) (n : ℕ) (body : List ℕ)
    → length txn_id ≡ 16
    → length mb_id ≡ 16
    → length (txn_id ++ (mb_id ++ (htons n ++ body))) ≡ 34 + length body
content-length txn_id mb_id n body id16 mb16 = omega (
  arith,
  length-append txn_id (mb_id ++ (htons n ++ body)),
  length-append mb_id (htons n ++ body),
  id16,
  mb16,
)

-- The input from the transaction's identifier on, in its parts.
pub fields :
    (txn_id mb_id len body sig rest : List ℕ)
    → ((txn_id ++ (mb_id ++ (len ++ body))) ++ sig) ++ rest
      ≡ txn_id ++ (mb_id ++ (len ++ (body ++ (sig ++ rest))))
fields txn_id mb_id len body sig rest = simp append_assoc refl
