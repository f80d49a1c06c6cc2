-- ===== src/Onion.antt =====
-- onion.c: onion addresses. SHA3-256 is the parameter `sha3`; an uninitialised buffer is a
-- parameter that holds what its memory held before.
pub mod Keys
pub mod Alias
pub mod Front
use deep_messenger.Prelude.{
  agrees, ℕ, zero, suc, ◌-◌, Bool, true, false, not, ◌&&◌, ◌||◌, List, [], ◌∷◌, ◌++◌, ◌==◌,
  if◌then◌else◌, length, get_or, take, drop,
}
use deep_messenger.Base32.{base32_encode, base32_decode, base32_valid}

abbrev pub onion_version : ℕ
onion_version = 3

abbrev pub onion_pub_key_len : ℕ
onion_pub_key_len = 32

abbrev pub onion_base_len : ℕ
onion_base_len = 56

abbrev pub onion_address_len : ℕ
onion_address_len = 62

abbrev pub onion_checksum_len : ℕ
onion_checksum_len = 2

-- ".onion"
abbrev pub onion_end : List ℕ
onion_end = 46 ∷ 111 ∷ 110 ∷ 105 ∷ 111 ∷ 110 ∷ []

-- ".onion checksum"
abbrev pub checksum_prefix : List ℕ
checksum_prefix =
    46 ∷ 111 ∷ 110 ∷ 105 ∷ 111 ∷ 110 ∷ 32 ∷ 99 ∷ 104 ∷ 101 ∷ 99 ∷ 107 ∷ 115 ∷ 117 ∷ 109 ∷ []

-- The loop over the first `n` characters that looks for the end of the text.
unfoldable pub ends_within : ℕ → List ℕ → Bool
ends_within zero text = false
ends_within (suc n) [] = true
ends_within (suc n) (c ∷ rest) = c == 0 || ends_within n rest

module _ (sha3 : List ℕ → List ℕ) where
  unfoldable pub onion_hash : List ℕ → List ℕ
  onion_hash pub_key = sha3 (checksum_prefix ++ (pub_key ++ (onion_version ∷ [])))

  -- The checks on the decoded address: its last byte, and the two bytes before it.
  unfoldable pub raw_valid : List ℕ → Bool
  raw_valid onion_raw =
      let len = length onion_raw in
      get_or onion_raw (len - 1) 0 == onion_version
      && agrees (take onion_checksum_len (drop (len - 3) onion_raw))
          (onion_hash (take onion_pub_key_len onion_raw))

  unfoldable pub onion_address_valid : List ℕ → List ℕ → Bool
  onion_address_valid buffer onion_address =
      if ends_within onion_address_len onion_address
      then false
      else if not (agrees onion_end (drop onion_base_len onion_address))
      then false
      else if not (base32_valid (take onion_base_len onion_address))
      then false
      else raw_valid (base32_decode (take onion_base_len onion_address) buffer)

  -- The text is ended by `strcpy`.
  unfoldable pub onion_address_from_pub_key : List ℕ → List ℕ
  onion_address_from_pub_key pub_key =
      let buffer =
        take onion_pub_key_len pub_key
        ++ (take onion_checksum_len (onion_hash pub_key) ++ (onion_version ∷ [])) in
      base32_encode buffer false ++ (onion_end ++ (0 ∷ []))

unfoldable pub onion_extract_key : List ℕ → List ℕ → List ℕ
onion_extract_key buffer onion_address =
    take onion_pub_key_len (base32_decode (take onion_base_len onion_address) buffer)
