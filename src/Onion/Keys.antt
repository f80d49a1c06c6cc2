-- ===== src/Onion/Keys.antt =====
-- An address made from a public key is valid, and gives the key back.
use mathlib.Core.List.{append-nil}
use deep_messenger.Prelude.{
  agrees, agrees-take, ℕ, zero, suc, ◌+◌, ◌≤◌, ◌≡◌, refl, sym, ap, ◌∙◌, true, false, List, [], ◌∷◌,
  ◌++◌, arith, length, length-append, length-take, get_or, take, drop, take-append, drop-append,
  All, All-append, All-take,
}
use deep_messenger.Base32.{IsByte, base32_encode, base32_decode, base32_valid}
use deep_messenger.Base32.RoundTrip.{base32_decode-base32_encode}
use deep_messenger.Base32.Shape.{AreCodes, base32_encode-whole}
use deep_messenger.Onion.{
  checksum_prefix, onion_version, onion_pub_key_len, onion_base_len, onion_address_len,
  onion_checksum_len, onion_end, ends_within, onion_hash, raw_valid, onion_address_valid,
  onion_address_from_pub_key, onion_extract_key,
}

base32_valid-codes : (xs : List ℕ) → AreCodes xs → base32_valid xs ≡ true
unfolding base32_valid
base32_valid-codes [] h = refl
base32_valid-codes (x ∷ xs) (h, hs) = ground (arith, base32_valid-codes xs hs)

-- Past the characters of the code the search for the end of the text goes on.
ends_within-codes :
    (xs ys : List ℕ) (m n : ℕ)
    → AreCodes xs
    → m ≡ length xs + n
    → ends_within m (xs ++ ys) ≡ ends_within n ys
unfolding ends_within
ends_within-codes [] ys m n h e = ap (λ k. ends_within k ys) (omega arith)
ends_within-codes (x ∷ xs) ys zero n h e = absurd (omega arith)
ends_within-codes (x ∷ xs) ys (suc m) n (h, hs) e =
    ground (arith, ends_within-codes xs ys m n hs (omega arith))

pub get_or-append :
    (xs ys : List ℕ) (n i : ℕ) → n ≡ length xs + i → get_or (xs ++ ys) n 0 ≡ get_or ys i 0
get_or-append [] ys n i e = ap (λ k. get_or ys k 0) (omega arith)
get_or-append (x ∷ xs) ys zero i e = absurd (omega arith)
get_or-append (x ∷ xs) ys (suc n) i e = get_or-append xs ys n i (omega arith)

take_all : (xs : List ℕ) (n : ℕ) → length xs ≡ n → take n xs ≡ xs
take_all xs n e = ap (take n) (sym (append-nil xs)) ∙ take-append xs [] n e

module _ (sha3 : List ℕ → List ℕ) (sha3_IsByte : (m : List ℕ) → All IsByte (sha3 m))
    (sha3_length : (m : List ℕ) → length (sha3 m) ≡ 32) (pub_key buffer : List ℕ)
    (key_IsByte : All IsByte pub_key) (key_length : length pub_key ≡ onion_pub_key_len)
    (room : 35 ≤ length buffer) where
  abbrev tail : List ℕ
  tail = take onion_checksum_len (onion_hash sha3 pub_key) ++ (onion_version ∷ [])

  abbrev code : List ℕ
  code = base32_encode (pub_key ++ tail) false

  hash_length : length (take onion_checksum_len (onion_hash sha3 pub_key)) ≡ 2
  unfolding onion_hash
  hash_length =
      rw length-take
        (omega (arith, sha3_length (checksum_prefix ++ (pub_key ++ (onion_version ∷ [])))))

  raw_length : length (pub_key ++ tail) ≡ 35
  raw_length = rw (length-append, length-append, hash_length, key_length) (omega arith)

  raw_IsByte : All IsByte (pub_key ++ tail)
  unfolding onion_hash
  raw_IsByte = All-append IsByte pub_key tail key_IsByte (
      All-append IsByte (take onion_checksum_len (onion_hash sha3 pub_key)) (onion_version ∷ [])
        (All-take IsByte 2 (onion_hash sha3 pub_key) (sha3_IsByte _)) (omega arith))

  code_lem : (length code ≡ 56) × AreCodes code
  code_lem = base32_encode-whole 7 false (pub_key ++ tail) raw_IsByte raw_length

  address_lem : onion_address_from_pub_key sha3 pub_key ≡ code ++ (onion_end ++ (0 ∷ []))
  unfolding onion_address_from_pub_key
  address_lem = rw (take_all pub_key 32 key_length)

  decoded_lem :
      base32_decode (take onion_base_len (onion_address_from_pub_key sha3 pub_key)) buffer
      ≡ pub_key ++ tail
  decoded_lem =
      rw (address_lem, take-append code (onion_end ++ (0 ∷ [])) 56 code_lem.0)
        (base32_decode-base32_encode (pub_key ++ tail) buffer false raw_IsByte (rw raw_length room))

  raw_valid_lem : raw_valid sha3 (pub_key ++ tail) ≡ true
  unfolding raw_valid
  raw_valid_lem = rw (
    raw_length,
    take-append pub_key tail 32 key_length,
    drop-append pub_key tail 32 key_length,
    take-append (take 2 (onion_hash sha3 pub_key)) (onion_version ∷ []) 2 hash_length,
    get_or-append pub_key tail 34 2 (omega (arith, key_length)),
    get_or-append (take 2 (onion_hash sha3 pub_key)) (onion_version ∷ []) 2 0
        (omega (arith, hash_length)),
    agrees-take,
  )

  address_checks :
      (ends_within onion_address_len (code ++ (onion_end ++ (0 ∷ []))) ≡ false)
      × (agrees onion_end (drop onion_base_len (code ++ (onion_end ++ (0 ∷ [])))) ≡ true)
      × (base32_valid (take onion_base_len (code ++ (onion_end ++ (0 ∷ [])))) ≡ true)
  unfolding ends_within agrees
  address_checks = (
    ends_within-codes code (onion_end ++ (0 ∷ [])) 62 6 code_lem.1 (omega (arith, code_lem)),
    rw (drop-append code (onion_end ++ (0 ∷ [])) 56 code_lem.0),
    rw (take-append code (onion_end ++ (0 ∷ [])) 56 code_lem.0)
        (base32_valid-codes code code_lem.1),
  )

  -- The address made from a 32-byte public key is valid, and the key extracted from it is that
  -- key, whatever hash of 32 bytes SHA3-256 is.
  pub onion_address_valid-from_pub_key :
      (onion_address_valid sha3 buffer (onion_address_from_pub_key sha3 pub_key) ≡ true)
      × (onion_extract_key buffer (onion_address_from_pub_key sha3 pub_key) ≡ pub_key)
  unfolding onion_address_valid onion_extract_key
  onion_address_valid-from_pub_key = (
    rw (
      decoded_lem, address_lem, address_checks.0, address_checks.1, address_checks.2, raw_valid_lem,
    ),
    rw decoded_lem (take-append pub_key tail 32 key_length),
  )
