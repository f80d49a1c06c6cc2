-- ===== src/Base32/Shape.antt =====
-- What whole chunks are encoded to: eight characters each, all of the alphabet.
use deep_messenger.Prelude.{
  ℕ, zero, suc, ◌+◌, ◌*◌, ◌≤◌, ◌<◌, ◌≡◌, refl, Bool, true, false, ◌&&◌, List, [], ◌∷◌, ◌++◌, map,
  arith, length, All, if◌then◌else◌, ◌==◌,
}
use deep_messenger.Prelude.Bits.{agree_below, agree_below→eq}
use deep_messenger.Base32.{
  IsByte, encode_5bit, base32_encode_chunk, encode_chunks, base32_encode, valid_char,
}
use deep_messenger.Base32.Chunk.{blocks_5, blocks_5-IsByte}

-- A character that ends no text and that `base32_valid` accepts.
abbrev pub is_code : ℕ → Bool
is_code c = valid_char c && (if c == 0 then false else true)

abbrev code_bit : ℕ → ℕ
code_bit x = if is_code (encode_5bit x) then 1 else 0

code_bit_lem : (x : ℕ) → x < 256 → code_bit x ≡ 1
unfolding agree_below encode_5bit valid_char
code_bit_lem = agree_below→eq code_bit (λ x. 1) 256 refl

is_code-encode_5bit : (x : ℕ) → x < 256 → is_code (encode_5bit x) ≡ true
is_code-encode_5bit x h = ground (arith, code_bit_lem x h)

abbrev pub AreCodes : List ℕ → Type 0
AreCodes = All (λ c. is_code c ≡ true)

codes_of_blocks :
    (xs ys : List ℕ) → All IsByte xs → AreCodes ys → AreCodes (map encode_5bit xs ++ ys)
codes_of_blocks [] ys h k = k
codes_of_blocks (x ∷ xs) ys (h, hs) k = (is_code-encode_5bit x h, codes_of_blocks xs ys hs k)

module _ (a b c d e : ℕ) (ha : IsByte a) (hb : IsByte b) (hc : IsByte c) (hd : IsByte d)
    (he : IsByte e) (pad : Bool) (ys : List ℕ) where
  chunk_codes : AreCodes ys → AreCodes (base32_encode_chunk (a ∷ b ∷ c ∷ d ∷ e ∷ []) pad ++ ys)
  unfolding base32_encode_chunk blocks_5
  chunk_codes =
      codes_of_blocks (blocks_5 a b c d e ha hb hc hd he) ys
        (blocks_5-IsByte a b c d e ha hb hc hd he)

  chunk_length : length (base32_encode_chunk (a ∷ b ∷ c ∷ d ∷ e ∷ []) pad ++ ys) ≡ 8 + length ys
  unfolding base32_encode_chunk
  chunk_length = omega arith

encode_chunks-whole :
    (k n : ℕ) (pad : Bool) (plain : List ℕ)
    → All IsByte plain
    → length plain ≡ k * 5
    → length plain ≤ n
    → (length (encode_chunks n plain pad) ≡ k * 8) × AreCodes (encode_chunks n plain pad)
unfolding encode_chunks
encode_chunks-whole zero zero pad [] bs e f = (omega arith, tt)
encode_chunks-whole zero (suc n) pad [] bs e f = (omega arith, tt)
encode_chunks-whole zero n pad (a ∷ plain) bs e f = absurd (omega arith)
encode_chunks-whole (suc k) n pad [] bs e f = absurd (omega arith)
encode_chunks-whole (suc k) n pad (a ∷ []) bs e f = absurd (omega arith)
encode_chunks-whole (suc k) n pad (a ∷ b ∷ []) bs e f = absurd (omega arith)
encode_chunks-whole (suc k) n pad (a ∷ b ∷ c ∷ []) bs e f = absurd (omega arith)
encode_chunks-whole (suc k) n pad (a ∷ b ∷ c ∷ d ∷ []) bs e f = absurd (omega arith)
encode_chunks-whole (suc k) zero pad (a ∷ b ∷ c ∷ d ∷ e ∷ plain) bs l f = absurd (omega arith)
encode_chunks-whole (suc k) (suc n) pad (a ∷ b ∷ c ∷ d ∷ e ∷ plain) (ha, (hb, (hc, (hd, (he, bs)))))
      l f =
    let (count, codes) = encode_chunks-whole k n pad plain bs (omega arith) (omega arith) in
    (
      omega (arith, count, chunk_length a b c d e ha hb hc hd he pad (encode_chunks n plain pad)),
      chunk_codes a b c d e ha hb hc hd he pad (encode_chunks n plain pad) codes,
    )

pub base32_encode-whole :
    (k : ℕ) (pad : Bool) (plain : List ℕ)
    → All IsByte plain
    → length plain ≡ k * 5
    → (length (base32_encode plain pad) ≡ k * 8) × AreCodes (base32_encode plain pad)
unfolding base32_encode
base32_encode-whole k pad plain bs e =
    encode_chunks-whole k (length plain) pad plain bs e (omega arith)
