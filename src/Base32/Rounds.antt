-- ===== src/Base32/Rounds.antt =====
-- The rounds of the decoding of a chunk, and the padding that is not counted.
use deep_messenger.Prelude.{
  ℕ, ◌*◌, ◌/◌, ◌%◌, ◌<◌, ◌≡◌, refl, List, [], ◌∷◌, ◌++◌, map, arith, bit_or, ◌==◌, if◌then◌else◌,
  length, All,
}
use deep_messenger.Prelude.Bits.{agree_below, agree_below→eq}
use deep_messenger.Base32.{IsByte, base32_pad_character, encode_5bit, unpadded, decode_rounds}
use deep_messenger.Base32.Blocks.{decoded}

abbrev pub pad_bit : ℕ → ℕ
pad_bit c = if c == base32_pad_character then 0 else 1

pub pad_bit-encode_5bit : (x : ℕ) → x < 256 → pad_bit (encode_5bit x) ≡ 1
unfolding agree_below encode_5bit
pad_bit-encode_5bit = agree_below→eq (λ x. pad_bit (encode_5bit x)) (λ x. 1) 256 refl

-- No character of the alphabet is padding.
pub unpadded-encoded :
    (xs padding : List ℕ)
    → All IsByte xs
    → unpadded padding ≡ 0
    → unpadded (map encode_5bit xs ++ padding) ≡ length xs
unfolding unpadded
unpadded-encoded [] padding h z = z
unpadded-encoded (x ∷ xs) padding (h, hs) z =
    omega (arith, unpadded-encoded xs padding hs z, pad_bit-encode_5bit x h)

-- The loop of `base32_decode_chunk` over 2, 4, 5, 7 and 8 characters.

pub rounds_1 :
    (x0 x1 p : ℕ) (padding rest : List ℕ)
    → decode_rounds 8 0 (map encode_5bit (x0 ∷ x1 ∷ []) ++ padding) 2 (0 ∷ rest)
      ≡ ((bit_or (bit_or 0 (decoded x0 * 8 % 256)) (decoded x1 / 4)) ∷ rest, 1)
unfolding decode_rounds
rounds_1 x0 x1 p padding rest = refl

pub rounds_2 :
    (x0 x1 x2 x3 p q : ℕ) (padding rest : List ℕ)
    → decode_rounds 8 0 (map encode_5bit (x0 ∷ x1 ∷ x2 ∷ x3 ∷ []) ++ padding) 4 (0 ∷ q ∷ rest) ≡ (
      (bit_or (bit_or 0 (decoded x0 * 8 % 256)) (decoded x1 / 4))
          ∷ (bit_or (bit_or (decoded x1 * 64 % 256) (decoded x2 * 2 % 256)) (decoded x3 / 16))
          ∷ rest,
      2,
    )
unfolding decode_rounds
rounds_2 x0 x1 x2 x3 p q padding rest = refl

pub rounds_3 :
    (x0 x1 x2 x3 x4 p q r : ℕ) (padding rest : List ℕ)
    → decode_rounds 8 0
        (map encode_5bit (x0 ∷ x1 ∷ x2 ∷ x3 ∷ x4 ∷ []) ++ padding)
        5
        (0 ∷ q ∷ r ∷ rest)
      ≡ (
        (bit_or (bit_or 0 (decoded x0 * 8 % 256)) (decoded x1 / 4))
            ∷ (bit_or (bit_or (decoded x1 * 64 % 256) (decoded x2 * 2 % 256)) (decoded x3 / 16))
            ∷ (bit_or (decoded x3 * 16 % 256) (decoded x4 / 2))
            ∷ rest,
        3,
      )
unfolding decode_rounds
rounds_3 x0 x1 x2 x3 x4 p q r padding rest = refl

pub rounds_4 :
    (x0 x1 x2 x3 x4 x5 x6 p q r s : ℕ) (padding rest : List ℕ)
    → decode_rounds 8 0
        (map encode_5bit (x0 ∷ x1 ∷ x2 ∷ x3 ∷ x4 ∷ x5 ∷ x6 ∷ []) ++ padding)
        7
        (0 ∷ q ∷ r ∷ s ∷ rest)
      ≡ (
        (bit_or (bit_or 0 (decoded x0 * 8 % 256)) (decoded x1 / 4))
            ∷ (bit_or (bit_or (decoded x1 * 64 % 256) (decoded x2 * 2 % 256)) (decoded x3 / 16))
            ∷ (bit_or (decoded x3 * 16 % 256) (decoded x4 / 2))
            ∷ (bit_or (bit_or (decoded x4 * 128 % 256) (decoded x5 * 4 % 256)) (decoded x6 / 8))
            ∷ rest,
        4,
      )
unfolding decode_rounds
rounds_4 x0 x1 x2 x3 x4 x5 x6 p q r s padding rest = refl

pub rounds_5 :
    (x0 x1 x2 x3 x4 x5 x6 x7 p q r s t : ℕ) (padding rest : List ℕ)
    → decode_rounds 8 0
        (map encode_5bit (x0 ∷ x1 ∷ x2 ∷ x3 ∷ x4 ∷ x5 ∷ x6 ∷ x7 ∷ []) ++ padding)
        8
        (0 ∷ q ∷ r ∷ s ∷ t ∷ rest)
      ≡ (
        (bit_or (bit_or 0 (decoded x0 * 8 % 256)) (decoded x1 / 4))
            ∷ (bit_or (bit_or (decoded x1 * 64 % 256) (decoded x2 * 2 % 256)) (decoded x3 / 16))
            ∷ (bit_or (decoded x3 * 16 % 256) (decoded x4 / 2))
            ∷ (bit_or (bit_or (decoded x4 * 128 % 256) (decoded x5 * 4 % 256)) (decoded x6 / 8))
            ∷ (bit_or (decoded x6 * 32 % 256) (decoded x7 * 1 % 256))
            ∷ rest,
        5,
      )
unfolding decode_rounds
rounds_5 x0 x1 x2 x3 x4 x5 x6 x7 p q r s t padding rest = refl
