-- ===== src/Base32/Chunk.antt =====
-- Decoding a chunk gives back the bytes that it encodes.
use deep_messenger.Prelude.{
  ℕ, ◌*◌, ◌/◌, ◌%◌, ◌<◌, ◌≡◌, refl, ◌∙◌, List, [], ◌∷◌, ◌++◌, map, arith, bit_or, All,
}
use deep_messenger.Base32.{IsByte, encode_5bit, unpadded, base32_decode_chunk}
use deep_messenger.Base32.Blocks.{
  block_1, block_3, block_4, block_6, block_1_last, block_3_last, block_4_last, block_6_last,
  restore_0, restore_1, restore_2, restore_3, restore_4,
}
use deep_messenger.Base32.Rounds.{
  unpadded-encoded, rounds_1, rounds_2, rounds_3, rounds_4, rounds_5,
}

module _ (a : ℕ) (ha : a < 256) where
  blocks_1 : List ℕ
  blocks_1 = (a / 8) ∷ (bit_or (a * 4 % 256) (0)) ∷ []

  blocks_1-IsByte : All IsByte blocks_1
  unfolding blocks_1
  blocks_1-IsByte = omega (arith, block_1_last a ha)

  pub chunk_1 :
      (padding : List ℕ) (p : ℕ) (rest : List ℕ)
      → unpadded padding ≡ 0
      → base32_decode_chunk
          (map encode_5bit ((a / 8) ∷ (bit_or (a * 4 % 256) (0)) ∷ []) ++ padding)
          (p ∷ rest)
        ≡ (a ∷ rest, 1)
  unfolding base32_decode_chunk blocks_1
  chunk_1 padding p rest z = rw (unpadded-encoded blocks_1 padding blocks_1-IsByte z) (
      rounds_1 (a / 8) (bit_or (a * 4 % 256) (0)) p padding rest
      ∙ rw (
          restore_0 a 0 (a / 8) (bit_or (a * 4 % 256) (0)) ha (omega arith) refl
            (block_1_last a ha)))

module _ (a b : ℕ) (ha : a < 256) (hb : b < 256) where
  blocks_2 : List ℕ
  blocks_2 = (a / 8) ∷ (bit_or (a * 4 % 256) (b / 64)) ∷ (b / 2) ∷ (bit_or (b * 16 % 256) (0)) ∷ []

  blocks_2-IsByte : All IsByte blocks_2
  unfolding blocks_2
  blocks_2-IsByte = omega (arith, block_1 a b ha hb, block_3_last b hb)

  pub chunk_2 :
      (padding : List ℕ) (p q : ℕ) (rest : List ℕ)
      → unpadded padding ≡ 0
      → base32_decode_chunk
          (map encode_5bit (
              (a / 8)
              ∷ (bit_or (a * 4 % 256) (b / 64))
              ∷ (b / 2)
              ∷ (bit_or (b * 16 % 256) (0))
              ∷ [])
            ++ padding)
          (p ∷ q ∷ rest)
        ≡ (a ∷ b ∷ rest, 2)
  unfolding base32_decode_chunk blocks_2
  chunk_2 padding p q rest z = rw (unpadded-encoded blocks_2 padding blocks_2-IsByte z) (
      rounds_2 (a / 8) (bit_or (a * 4 % 256) (b / 64)) (b / 2) (bit_or (b * 16 % 256) (0)) p q
        padding rest
      ∙ rw (
        restore_0 a b (a / 8) (bit_or (a * 4 % 256) (b / 64)) ha hb refl (block_1 a b ha hb),
        restore_1 a b 0 (bit_or (a * 4 % 256) (b / 64)) (b / 2) (bit_or (b * 16 % 256) (0)) ha hb
            (omega arith) (block_1 a b ha hb) refl (block_3_last b hb),
      ))

module _ (a b c : ℕ) (ha : a < 256) (hb : b < 256) (hc : c < 256) where
  blocks_3 : List ℕ
  blocks_3 =
      (a / 8)
      ∷ (bit_or (a * 4 % 256) (b / 64))
      ∷ (b / 2)
      ∷ (bit_or (b * 16 % 256) (c / 16))
      ∷ (bit_or (c * 2 % 256) (0))
      ∷ []

  blocks_3-IsByte : All IsByte blocks_3
  unfolding blocks_3
  blocks_3-IsByte = omega (arith, block_1 a b ha hb, block_3 b c hb hc, block_4_last c hc)

  pub chunk_3 :
      (padding : List ℕ) (p q r : ℕ) (rest : List ℕ)
      → unpadded padding ≡ 0
      → base32_decode_chunk
          (map encode_5bit (
              (a / 8)
              ∷ (bit_or (a * 4 % 256) (b / 64))
              ∷ (b / 2)
              ∷ (bit_or (b * 16 % 256) (c / 16))
              ∷ (bit_or (c * 2 % 256) (0))
              ∷ [])
            ++ padding)
          (p ∷ q ∷ r ∷ rest)
        ≡ (a ∷ b ∷ c ∷ rest, 3)
  unfolding base32_decode_chunk blocks_3
  chunk_3 padding p q r rest z = rw (unpadded-encoded blocks_3 padding blocks_3-IsByte z) (
      rounds_3 (a / 8) (bit_or (a * 4 % 256) (b / 64)) (b / 2) (bit_or (b * 16 % 256) (c / 16))
        (bit_or (c * 2 % 256) (0)) p q r padding rest
      ∙ rw (
        restore_0 a b (a / 8) (bit_or (a * 4 % 256) (b / 64)) ha hb refl (block_1 a b ha hb),
        restore_1 a b c (bit_or (a * 4 % 256) (b / 64)) (b / 2) (bit_or (b * 16 % 256) (c / 16)) ha
            hb hc (block_1 a b ha hb) refl (block_3 b c hb hc),
        restore_2 b c 0 (bit_or (b * 16 % 256) (c / 16)) (bit_or (c * 2 % 256) (0)) hb hc
            (omega arith) (block_3 b c hb hc) (block_4_last c hc),
      ))

module _ (a b c d : ℕ) (ha : a < 256) (hb : b < 256) (hc : c < 256) (hd : d < 256) where
  blocks_4 : List ℕ
  blocks_4 =
      (a / 8)
      ∷ (bit_or (a * 4 % 256) (b / 64))
      ∷ (b / 2)
      ∷ (bit_or (b * 16 % 256) (c / 16))
      ∷ (bit_or (c * 2 % 256) (d / 128))
      ∷ (d / 4)
      ∷ (bit_or (d * 8 % 256) (0))
      ∷ []

  blocks_4-IsByte : All IsByte blocks_4
  unfolding blocks_4
  blocks_4-IsByte =
      omega (arith, block_1 a b ha hb, block_3 b c hb hc, block_4 c d hc hd, block_6_last d hd)

  pub chunk_4 :
      (padding : List ℕ) (p q r s : ℕ) (rest : List ℕ)
      → unpadded padding ≡ 0
      → base32_decode_chunk
          (map encode_5bit (
              (a / 8)
              ∷ (bit_or (a * 4 % 256) (b / 64))
              ∷ (b / 2)
              ∷ (bit_or (b * 16 % 256) (c / 16))
              ∷ (bit_or (c * 2 % 256) (d / 128))
              ∷ (d / 4)
              ∷ (bit_or (d * 8 % 256) (0))
              ∷ [])
            ++ padding)
          (p ∷ q ∷ r ∷ s ∷ rest)
        ≡ (a ∷ b ∷ c ∷ d ∷ rest, 4)
  unfolding base32_decode_chunk blocks_4
  chunk_4 padding p q r s rest z = rw (unpadded-encoded blocks_4 padding blocks_4-IsByte z) (
      rounds_4 (a / 8) (bit_or (a * 4 % 256) (b / 64)) (b / 2) (bit_or (b * 16 % 256) (c / 16))
        (bit_or (c * 2 % 256) (d / 128)) (d / 4) (bit_or (d * 8 % 256) (0)) p q r s padding rest
      ∙ rw (
        restore_0 a b (a / 8) (bit_or (a * 4 % 256) (b / 64)) ha hb refl (block_1 a b ha hb),
        restore_1 a b c (bit_or (a * 4 % 256) (b / 64)) (b / 2) (bit_or (b * 16 % 256) (c / 16)) ha
            hb hc (block_1 a b ha hb) refl (block_3 b c hb hc),
        restore_2 b c d (bit_or (b * 16 % 256) (c / 16)) (bit_or (c * 2 % 256) (d / 128)) hb hc hd
            (block_3 b c hb hc) (block_4 c d hc hd),
        restore_3 c d 0 (bit_or (c * 2 % 256) (d / 128)) (d / 4) (bit_or (d * 8 % 256) (0)) hc hd
            (omega arith) (block_4 c d hc hd) refl (block_6_last d hd),
      ))

module _ (a b c d e : ℕ) (ha : a < 256) (hb : b < 256) (hc : c < 256) (hd : d < 256)
    (he : e < 256) where
  unfoldable pub blocks_5 : List ℕ
  blocks_5 =
      (a / 8)
      ∷ (bit_or (a * 4 % 256) (b / 64))
      ∷ (b / 2)
      ∷ (bit_or (b * 16 % 256) (c / 16))
      ∷ (bit_or (c * 2 % 256) (d / 128))
      ∷ (d / 4)
      ∷ (bit_or (d * 8 % 256) (e / 32))
      ∷ (e / 1)
      ∷ []

  pub blocks_5-IsByte : All IsByte blocks_5
  unfolding blocks_5
  blocks_5-IsByte =
      omega (arith, block_1 a b ha hb, block_3 b c hb hc, block_4 c d hc hd, block_6 d e hd he)

  pub chunk_5 :
      (padding : List ℕ) (p q r s t : ℕ) (rest : List ℕ)
      → unpadded padding ≡ 0
      → base32_decode_chunk
          (map encode_5bit (
              (a / 8)
              ∷ (bit_or (a * 4 % 256) (b / 64))
              ∷ (b / 2)
              ∷ (bit_or (b * 16 % 256) (c / 16))
              ∷ (bit_or (c * 2 % 256) (d / 128))
              ∷ (d / 4)
              ∷ (bit_or (d * 8 % 256) (e / 32))
              ∷ (e / 1)
              ∷ [])
            ++ padding)
          (p ∷ q ∷ r ∷ s ∷ t ∷ rest)
        ≡ (a ∷ b ∷ c ∷ d ∷ e ∷ rest, 5)
  unfolding base32_decode_chunk blocks_5
  chunk_5 padding p q r s t rest z = rw (unpadded-encoded blocks_5 padding blocks_5-IsByte z) (
      rounds_5 (a / 8) (bit_or (a * 4 % 256) (b / 64)) (b / 2) (bit_or (b * 16 % 256) (c / 16))
        (bit_or (c * 2 % 256) (d / 128)) (d / 4) (bit_or (d * 8 % 256) (e / 32)) (e / 1) p q r s t
        padding rest
      ∙ rw (
        restore_0 a b (a / 8) (bit_or (a * 4 % 256) (b / 64)) ha hb refl (block_1 a b ha hb),
        restore_1 a b c (bit_or (a * 4 % 256) (b / 64)) (b / 2) (bit_or (b * 16 % 256) (c / 16)) ha
            hb hc (block_1 a b ha hb) refl (block_3 b c hb hc),
        restore_2 b c d (bit_or (b * 16 % 256) (c / 16)) (bit_or (c * 2 % 256) (d / 128)) hb hc hd
            (block_3 b c hb hc) (block_4 c d hc hd),
        restore_3 c d e (bit_or (c * 2 % 256) (d / 128)) (d / 4) (bit_or (d * 8 % 256) (e / 32)) hc
            hd he (block_4 c d hc hd) refl (block_6 d e hd he),
        restore_4 d e (bit_or (d * 8 % 256) (e / 32)) (e / 1) hd he (block_6 d e hd he) refl,
      ))
