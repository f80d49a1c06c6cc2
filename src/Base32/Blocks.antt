-- ===== src/Base32/Blocks.antt =====
-- The blocks of five bits of a chunk, and the bytes put together from them, as arithmetic.
use deep_messenger.Prelude.{ℕ, ◌+◌, ◌*◌, ◌/◌, ◌%◌, ◌<◌, ◌≡◌, refl, ◌∙◌, arith, bit_or}
use deep_messenger.Prelude.Bits.{
  agree_below, agree_below→eq, or_2, or_4, or_8, or_16, or_32, or_64, or_128, or_zero, zero_or,
}
use deep_messenger.Base32.{encode_5bit, decode_char}

abbrev pub decoded : ℕ → ℕ
decoded x = decode_char (encode_5bit x)

decoded_lem : (x : ℕ) → x < 256 → decoded x ≡ x % 32
unfolding agree_below decode_char encode_5bit
decoded_lem = agree_below→eq (λ x. decode_char (encode_5bit x)) (λ x. x % 32) 256 refl

-- The five bytes that a chunk's blocks of five bits are put together to, as arithmetic.
pub byte_0 :
    (x y : ℕ)
    → x < 256
    → y < 256
    → bit_or (bit_or 0 (decoded x * 8 % 256)) (decoded y / 4) ≡ x % 32 * 8 + y % 32 / 4
byte_0 x y h k =
    rw (decoded_lem x h, decoded_lem y k, zero_or (x % 32 * 8 % 256) (omega arith))
      (or_8 (x % 32 * 8 % 256) (y % 32 / 4) (omega arith) (omega arith) (omega arith) ∙ omega arith)

pub byte_1_first :
    (x y : ℕ)
    → x < 256
    → y < 256
    → bit_or (decoded x * 64 % 256) (decoded y * 2 % 256) ≡ x % 4 * 64 + y % 32 * 2
byte_1_first x y h k =
    rw (decoded_lem x h, decoded_lem y k)
      (or_64 (x % 32 * 64 % 256) (y % 32 * 2 % 256) (omega arith) (omega arith) (omega arith)
        ∙ omega arith)

pub byte_1 :
    (x y z : ℕ)
    → x < 256
    → y < 256
    → z < 256
    → bit_or (bit_or (decoded x * 64 % 256) (decoded y * 2 % 256)) (decoded z / 16)
      ≡ x % 4 * 64 + y % 32 * 2 + z % 32 / 16
byte_1 x y z h k l =
    rw (byte_1_first x y h k, decoded_lem z l)
      (or_2 (x % 4 * 64 + y % 32 * 2) (z % 32 / 16) (omega arith) (omega arith) (omega arith))

pub byte_2 :
    (x y : ℕ)
    → x < 256
    → y < 256
    → bit_or (decoded x * 16 % 256) (decoded y / 2) ≡ x % 16 * 16 + y % 32 / 2
byte_2 x y h k =
    rw (decoded_lem x h, decoded_lem y k)
      (or_16 (x % 32 * 16 % 256) (y % 32 / 2) (omega arith) (omega arith) (omega arith)
        ∙ omega arith)

pub byte_3_first :
    (x y : ℕ)
    → x < 256
    → y < 256
    → bit_or (decoded x * 128 % 256) (decoded y * 4 % 256) ≡ x % 2 * 128 + y % 32 * 4
byte_3_first x y h k =
    rw (decoded_lem x h, decoded_lem y k)
      (or_128 (x % 32 * 128 % 256) (y % 32 * 4 % 256) (omega arith) (omega arith) (omega arith)
        ∙ omega arith)

pub byte_3 :
    (x y z : ℕ)
    → x < 256
    → y < 256
    → z < 256
    → bit_or (bit_or (decoded x * 128 % 256) (decoded y * 4 % 256)) (decoded z / 8)
      ≡ x % 2 * 128 + y % 32 * 4 + z % 32 / 8
byte_3 x y z h k l =
    rw (byte_3_first x y h k, decoded_lem z l)
      (or_4 (x % 2 * 128 + y % 32 * 4) (z % 32 / 8) (omega arith) (omega arith) (omega arith))

pub byte_4 :
    (x y : ℕ)
    → x < 256
    → y < 256
    → bit_or (decoded x * 32 % 256) (decoded y * 1 % 256) ≡ x % 8 * 32 + y % 32
byte_4 x y h k =
    rw (decoded_lem x h, decoded_lem y k)
      (or_32 (x % 32 * 32 % 256) (y % 32 * 1 % 256) (omega arith) (omega arith) (omega arith)
        ∙ omega arith)

-- The blocks of five bits that reach into two bytes, as arithmetic.
pub block_1 : (a b : ℕ) → a < 256 → b < 256 → bit_or (a * 4 % 256) (b / 64) ≡ a % 64 * 4 + b / 64
block_1 a b h k =
    or_4 (a * 4 % 256) (b / 64) (omega arith) (omega arith) (omega arith) ∙ omega arith

pub block_3 : (a b : ℕ) → a < 256 → b < 256 → bit_or (a * 16 % 256) (b / 16) ≡ a % 16 * 16 + b / 16
block_3 a b h k =
    or_16 (a * 16 % 256) (b / 16) (omega arith) (omega arith) (omega arith) ∙ omega arith

pub block_4 : (a b : ℕ) → a < 256 → b < 256 → bit_or (a * 2 % 256) (b / 128) ≡ a % 128 * 2 + b / 128
block_4 a b h k =
    or_2 (a * 2 % 256) (b / 128) (omega arith) (omega arith) (omega arith) ∙ omega arith

pub block_6 : (a b : ℕ) → a < 256 → b < 256 → bit_or (a * 8 % 256) (b / 32) ≡ a % 32 * 8 + b / 32
block_6 a b h k =
    or_8 (a * 8 % 256) (b / 32) (omega arith) (omega arith) (omega arith) ∙ omega arith

-- The last block of a short chunk, which reaches into no second byte.
pub block_1_last : (a : ℕ) → a < 256 → bit_or (a * 4 % 256) 0 ≡ a % 64 * 4 + 0 / 64
block_1_last a h = or_zero (a * 4 % 256) (omega arith) ∙ omega arith

pub block_3_last : (a : ℕ) → a < 256 → bit_or (a * 16 % 256) 0 ≡ a % 16 * 16 + 0 / 16
block_3_last a h = or_zero (a * 16 % 256) (omega arith) ∙ omega arith

pub block_4_last : (a : ℕ) → a < 256 → bit_or (a * 2 % 256) 0 ≡ a % 128 * 2 + 0 / 128
block_4_last a h = or_zero (a * 2 % 256) (omega arith) ∙ omega arith

pub block_6_last : (a : ℕ) → a < 256 → bit_or (a * 8 % 256) 0 ≡ a % 32 * 8 + 0 / 32
block_6_last a h = or_zero (a * 8 % 256) (omega arith) ∙ omega arith

-- Each byte is put together again from its blocks.

pub restore_0 :
    (a b x0 x1 : ℕ)
    → a < 256
    → b < 256
    → x0 ≡ a / 8
    → x1 ≡ a % 64 * 4 + b / 64
    → bit_or (bit_or 0 (decoded x0 * 8 % 256)) (decoded x1 / 4) ≡ a
restore_0 a b x0 x1 ha hb e0 e1 = byte_0 x0 x1 (omega arith) (omega arith) ∙ omega arith

pub restore_1 :
    (a b c x1 x2 x3 : ℕ)
    → a < 256
    → b < 256
    → c < 256
    → x1 ≡ a % 64 * 4 + b / 64
    → x2 ≡ b / 2
    → x3 ≡ b % 16 * 16 + c / 16
    → bit_or (bit_or (decoded x1 * 64 % 256) (decoded x2 * 2 % 256)) (decoded x3 / 16) ≡ b
restore_1 a b c x1 x2 x3 ha hb hc e1 e2 e3 =
    byte_1 x1 x2 x3 (omega arith) (omega arith) (omega arith) ∙ omega arith

pub restore_2 :
    (b c d x3 x4 : ℕ)
    → b < 256
    → c < 256
    → d < 256
    → x3 ≡ b % 16 * 16 + c / 16
    → x4 ≡ c % 128 * 2 + d / 128
    → bit_or (decoded x3 * 16 % 256) (decoded x4 / 2) ≡ c
restore_2 b c d x3 x4 hb hc hd e3 e4 = byte_2 x3 x4 (omega arith) (omega arith) ∙ omega arith

pub restore_3 :
    (c d e x4 x5 x6 : ℕ)
    → c < 256
    → d < 256
    → e < 256
    → x4 ≡ c % 128 * 2 + d / 128
    → x5 ≡ d / 4
    → x6 ≡ d % 32 * 8 + e / 32
    → bit_or (bit_or (decoded x4 * 128 % 256) (decoded x5 * 4 % 256)) (decoded x6 / 8) ≡ d
restore_3 c d e x4 x5 x6 hc hd he e4 e5 e6 =
    byte_3 x4 x5 x6 (omega arith) (omega arith) (omega arith) ∙ omega arith

pub restore_4 :
    (d e x6 x7 : ℕ)
    → d < 256
    → e < 256
    → x6 ≡ d % 32 * 8 + e / 32
    → x7 ≡ e / 1
    → bit_or (decoded x6 * 32 % 256) (decoded x7 * 1 % 256) ≡ e
restore_4 d e x6 x7 hd he e6 e7 = byte_4 x6 x7 (omega arith) (omega arith) ∙ omega arith
