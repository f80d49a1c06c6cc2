-- ===== src/Base32.antt =====
-- base32.c: encoding of bytes to the lower case alphabet, and decoding. A text and a block of
-- memory are lists of bytes.
mod Blocks
mod Rounds
mod Chunk
pub mod Shape
pub mod RoundTrip
use deep_messenger.Prelude.{
  ℕ, zero, suc, ◌+◌, ◌-◌, ◌*◌, ◌/◌, ◌%◌, ◌^◌, ◌<◌, Bool, true, not, ◌&&◌, ◌||◌, List, [], ◌∷◌, ◌++◌,
  bit_and, bit_or, ltb, leb, ◌==◌, if◌then◌else◌, length, get_or, take, drop, set,
}
use deep_messenger.Prelude.Int.{ℤ, pos, negsuc, sub_ℕ}

abbrev pub IsByte : ℕ → Type 0
IsByte b = b < 256

abbrev pub base32_pad_character : ℕ
base32_pad_character = b'='

-- "abcdefghijklmnopqrstuvwxyz234567"
abbrev pub alphabet : List ℕ
alphabet =
    97 ∷ 98 ∷ 99 ∷ 100 ∷ 101 ∷ 102 ∷ 103 ∷ 104 ∷ 105 ∷ 106 ∷ 107 ∷ 108 ∷ 109 ∷ 110 ∷ 111 ∷ 112 ∷ 113
    ∷ 114 ∷ 115 ∷ 116 ∷ 117 ∷ 118 ∷ 119 ∷ 120 ∷ 121 ∷ 122 ∷ 50 ∷ 51 ∷ 52 ∷ 53 ∷ 54 ∷ 55 ∷ []

unfoldable pub encode_5bit : ℕ → ℕ
encode_5bit bt = get_or alphabet (bit_and bt 0x1F) 0

unfoldable pub decode_char : ℕ → ℕ
decode_char ch =
    if leb b'a' ch && leb ch b'z'
    then ch - b'a'
    else if leb b'2' ch && leb ch b'7'
    then ch - b'2' + 26
    else 0

-- The byte in which a block of five bits starts.
abbrev pub get_byte : ℕ → ℕ
get_byte block = block * 5 / 8

abbrev pub get_offset : ℕ → ℤ
get_offset block = sub_ℕ ((get_byte block + 1) * 8) ((block + 1) * 5)

-- Shifts of a `uint8_t` whose direction is the sign of the second argument.
abbrev pub shift_left : ℕ → ℤ → ℕ
shift_left num (pos s) = num * 2 ^ s % 256
shift_left num (negsuc s) = num / 2 ^ (s + 1)

abbrev pub shift_right : ℕ → ℤ → ℕ
shift_right num (pos s) = num / 2 ^ s
shift_right num (negsuc s) = num * 2 ^ (s + 1) % 256

-- What the second byte of a block adds, if the block reaches into it: the offset is then
-- negative, -(s + 1), and 8 + offset is 7 - s.
abbrev pub spill : ℤ → ℕ → List ℕ → ℕ → ℕ
spill (pos s) cbyte plain ch_index = ch_index
spill (negsuc s) cbyte plain ch_index = bit_or ch_index (
    if ltb (cbyte + 1) (length plain)
    then shift_right (get_or plain (cbyte + 1) 0) (sub_ℕ 7 s)
    else 0)

abbrev pub ch_index_at : List ℕ → ℕ → ℕ
ch_index_at plain i =
    spill (get_offset i) (get_byte i) plain
      (shift_right (get_or plain (get_byte i) 0) (get_offset i))

-- The rounds `i`, `i + 1`, … of the loop; the result is what is written from `coded + i` on.
unfoldable pub encode_rounds : ℕ → ℕ → List ℕ → Bool → List ℕ
encode_rounds zero i plain use_padding = []
encode_rounds (suc n) i plain use_padding =
    let more = encode_rounds n (i + 1) plain use_padding in
    if leb (length plain) (get_byte i)
    then (if use_padding then base32_pad_character ∷ more else [])
    else encode_5bit (ch_index_at plain i) ∷ more

unfoldable pub base32_encode_chunk : List ℕ → Bool → List ℕ
unfolding encode_rounds
base32_encode_chunk plain use_padding = encode_rounds 8 0 plain use_padding

-- `for (i = 0; i < len; i += 5)`, on fuel: `length plain` rounds are enough.
unfoldable pub encode_chunks : ℕ → List ℕ → Bool → List ℕ
encode_chunks zero plain use_padding = []
encode_chunks (suc n) [] use_padding = []
encode_chunks (suc n) (x ∷ xs) use_padding =
    base32_encode_chunk (take 5 (x ∷ xs)) use_padding
    ++ encode_chunks n (drop 5 (x ∷ xs)) use_padding

unfoldable pub base32_encode : List ℕ → Bool → List ℕ
unfolding encode_chunks
base32_encode plain use_padding = encode_chunks (length plain) plain use_padding

-- The characters of a chunk that are not padding.
unfoldable pub unpadded : List ℕ → ℕ
unpadded [] = 0
unpadded (c ∷ cs) = unpadded cs + (if c == base32_pad_character then 0 else 1)

-- `plain[cbyte + 1]` is set when a negative offset leaves bits for it and enough text follows.
abbrev pub carry : ℤ → ℕ → ℕ → ℕ → ℕ → List ℕ → List ℕ
carry (pos s) i len cbyte ch_index plain = plain
carry (negsuc s) i len cbyte ch_index plain =
    if leb 8 (s + 1 + (len - (i + 1)) * 5)
    then set plain (cbyte + 1) (shift_left ch_index (sub_ℕ 7 s))
    else plain

abbrev pub decode_round : List ℕ → ℕ → ℕ → List ℕ → List ℕ
decode_round coded len i plain =
    let cbyte = get_byte i in
    let ch_index = decode_char (get_or coded i 0) in
    carry (get_offset i) i len cbyte ch_index
      (set plain cbyte (bit_or (get_or plain cbyte 0) (shift_left ch_index (get_offset i))))

-- The memory at `plain` after the loop, and the number of bytes decoded.
unfoldable pub decode_rounds : ℕ → ℕ → List ℕ → ℕ → List ℕ → List ℕ × ℕ
decode_rounds zero i coded len plain = (plain, 5)
decode_rounds (suc n) i coded len plain =
    let more = decode_rounds n (i + 1) coded len (decode_round coded len i plain) in
    if leb len i then (plain, get_byte i) else more

unfoldable pub base32_decode_chunk : List ℕ → List ℕ → List ℕ × ℕ
unfolding decode_rounds
base32_decode_chunk coded plain = decode_rounds 8 0 coded (unpadded coded) (set plain 0 0)

-- `for (i = 0; i < len; i += 8)`: the bytes decoded, `plain` being the memory they are written to.
unfoldable pub decode_chunks : ℕ → List ℕ → List ℕ → List ℕ
decode_chunks zero coded plain = []
decode_chunks (suc n) [] plain = []
decode_chunks (suc n) (c ∷ cs) plain =
    let (written, count) = base32_decode_chunk (take 8 (c ∷ cs)) plain in
    take count written ++ decode_chunks n (drop 8 (c ∷ cs)) (drop count written)

unfoldable pub base32_decode : List ℕ → List ℕ → List ℕ
unfolding decode_chunks
base32_decode coded plain = decode_chunks (length coded) coded plain

unfoldable pub valid_char : ℕ → Bool
valid_char ch = not ((ltb ch b'a' || ltb b'z' ch) && (ltb ch b'2' || ltb b'9' ch))

-- The loop over the first `len` characters; -1 stands for the length of the text.
unfoldable pub base32_valid : List ℕ → Bool
unfolding valid_char
base32_valid [] = true
base32_valid (ch ∷ rest) = valid_char ch && base32_valid rest
