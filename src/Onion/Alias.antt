-- ===== src/Onion/Alias.antt =====
-- `base32_valid` accepts '8', which `decode_char` reads as it reads 'a': an address has others
-- beside it that name the same key.
use deep_messenger.Prelude.{
  ℕ, zero, suc, ◌≡◌, refl, ap, List, [], ◌∷◌, map, arith, ◌==◌, if◌then◌else◌, length, get_or, take,
  drop,
}
use deep_messenger.Base32.{
  base32_pad_character, decode_char, unpadded, decode_rounds, base32_decode_chunk, decode_chunks,
  base32_decode, base32_valid, valid_char,
}
use deep_messenger.Onion.{onion_base_len, ends_within, onion_address_valid, onion_extract_key}

-- '8' for 'a'.
unfoldable pub respell_char : ℕ → ℕ
respell_char c = if c == b'a' then b'8' else c

-- The text with each 'a' among its first `n` characters spelled '8'.
unfoldable pub respell : ℕ → List ℕ → List ℕ
respell zero text = text
respell (suc n) [] = []
respell (suc n) (c ∷ rest) = respell_char c ∷ respell n rest

respell_char_lem :
    (c : ℕ)
    → (decode_char (respell_char c) ≡ decode_char c)
      × (valid_char (respell_char c) ≡ valid_char c)
      × ((respell_char c == base32_pad_character) ≡ (c == base32_pad_character))
      × ((respell_char c == 0) ≡ (c == 0))
unfolding decode_char respell_char valid_char
respell_char_lem c = ground arith

unpadded-respell : (xs : List ℕ) → unpadded (map respell_char xs) ≡ unpadded xs
unfolding unpadded
unpadded-respell [] = refl
unpadded-respell (x ∷ xs) = rw ((respell_char_lem x).2, unpadded-respell xs)

decode_char-respell :
    (xs : List ℕ) (i : ℕ)
    → decode_char (get_or (map respell_char xs) i 0) ≡ decode_char (get_or xs i 0)
decode_char-respell [] i = refl
decode_char-respell (x ∷ xs) zero = (respell_char_lem x).0
decode_char-respell (x ∷ xs) (suc i) = decode_char-respell xs i

decode_rounds-respell :
    (n i len : ℕ) (xs plain : List ℕ)
    → decode_rounds n i (map respell_char xs) len plain ≡ decode_rounds n i xs len plain
unfolding decode_rounds
decode_rounds-respell zero i len xs plain = refl
decode_rounds-respell (suc n) i len xs plain =
    rw (decode_char-respell xs i, decode_rounds-respell n)

decode_chunk-respell :
    (xs plain : List ℕ)
    → base32_decode_chunk (map respell_char xs) plain ≡ base32_decode_chunk xs plain
unfolding base32_decode_chunk
decode_chunk-respell xs plain =
    rw (unpadded-respell xs) (decode_rounds-respell 8 0 (unpadded xs) xs _)

take-map : (n : ℕ) (xs : List ℕ) → take n (map respell_char xs) ≡ map respell_char (take n xs)
take-map zero xs = refl
take-map (suc n) [] = refl
take-map (suc n) (x ∷ xs) = ap (λ l. respell_char x ∷ l) (take-map n xs)

drop-map : (n : ℕ) (xs : List ℕ) → drop n (map respell_char xs) ≡ map respell_char (drop n xs)
drop-map zero xs = refl
drop-map (suc n) [] = refl
drop-map (suc n) (x ∷ xs) = drop-map n xs

take_chunk-respell :
    (xs plain : List ℕ)
    → base32_decode_chunk (take 8 (map respell_char xs)) plain
      ≡ base32_decode_chunk (take 8 xs) plain
take_chunk-respell xs plain = rw (take-map 8 xs) (decode_chunk-respell (take 8 xs) plain)

decode_chunks-respell :
    (n : ℕ) (xs plain : List ℕ)
    → decode_chunks n (map respell_char xs) plain ≡ decode_chunks n xs plain
unfolding decode_chunks
decode_chunks-respell zero xs plain = refl
decode_chunks-respell (suc n) [] plain = refl
decode_chunks-respell (suc n) (x ∷ xs) plain =
    rw (take_chunk-respell (x ∷ xs) plain, drop-map 7 xs, decode_chunks-respell n)

length-respell : (xs : List ℕ) → length (map respell_char xs) ≡ length xs
length-respell [] = refl
length-respell (x ∷ xs) = ap suc (length-respell xs)

base32_decode-respell :
    (xs plain : List ℕ) → base32_decode (map respell_char xs) plain ≡ base32_decode xs plain
unfolding base32_decode
base32_decode-respell xs plain = rw (length-respell xs) (decode_chunks-respell (length xs) xs plain)

base32_valid-respell : (xs : List ℕ) → base32_valid (map respell_char xs) ≡ base32_valid xs
unfolding base32_valid
base32_valid-respell [] = refl
base32_valid-respell (x ∷ xs) = rw ((respell_char_lem x).1, base32_valid-respell xs)

take-respell : (n : ℕ) (xs : List ℕ) → take n (respell n xs) ≡ map respell_char (take n xs)
unfolding respell
take-respell zero xs = refl
take-respell (suc n) [] = refl
take-respell (suc n) (x ∷ xs) = ap (λ l. respell_char x ∷ l) (take-respell n xs)

drop-respell : (n : ℕ) (xs : List ℕ) → drop n (respell n xs) ≡ drop n xs
unfolding respell
drop-respell zero xs = refl
drop-respell (suc n) [] = refl
drop-respell (suc n) (x ∷ xs) = drop-respell n xs

ends_within-respell : (m n : ℕ) (xs : List ℕ) → ends_within m (respell n xs) ≡ ends_within m xs
unfolding respell ends_within
ends_within-respell m zero xs = refl
ends_within-respell zero (suc n) [] = refl
ends_within-respell (suc m) (suc n) [] = refl
ends_within-respell zero (suc n) (x ∷ xs) = refl
ends_within-respell (suc m) (suc n) (x ∷ xs) =
    rw ((respell_char_lem x).3, ends_within-respell m n xs)

-- Spelling each 'a' of an address as '8', which is no base32 digit, changes neither whether the
-- address is valid nor the key that it names.
pub onion_address_valid-respell :
    (sha3 : List ℕ → List ℕ) (buffer address : List ℕ)
    → (onion_address_valid sha3 buffer (respell onion_base_len address)
        ≡ onion_address_valid sha3 buffer address)
      × (onion_extract_key buffer (respell onion_base_len address)
          ≡ onion_extract_key buffer address)
unfolding onion_address_valid onion_extract_key
onion_address_valid-respell sha3 buffer address = (
  rw (ends_within-respell, drop-respell, take-respell, base32_valid-respell, base32_decode-respell),
  rw (take-respell, base32_decode-respell),
)
