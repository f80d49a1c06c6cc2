-- ===== src/Base32/RoundTrip.antt =====
-- Decoding gives back what was encoded.
use mathlib.Core.List.{append-nil}
use deep_messenger.Prelude.{
  ℕ, zero, suc, ◌+◌, ◌≤◌, ◌<◌, ◌≡◌, refl, ap, ◌∙◌, Bool, true, false, List, [], ◌∷◌, ◌++◌, arith,
  length, length-drop, drop, take, All,
}
use deep_messenger.Base32.{
  IsByte, base32_encode_chunk, encode_chunks, base32_encode, unpadded, base32_decode_chunk,
  decode_chunks, base32_decode,
}
use deep_messenger.Base32.Chunk.{chunk_1, chunk_2, chunk_3, chunk_4, chunk_5}

-- One round of the decoding loop.
decode_step :
    (n : ℕ) (coded plain : List ℕ) (count : ℕ) (written : List ℕ)
    → 0 < length coded
    → base32_decode_chunk (take 8 coded) plain ≡ (written, count)
    → decode_chunks (suc n) coded plain
      ≡ take count written ++ decode_chunks n (drop 8 coded) (drop count written)
unfolding decode_chunks
decode_step n [] plain count written h e = absurd (omega arith)
decode_step n (c ∷ cs) plain count written h e = rw e

decode_chunks-nil : (m : ℕ) (dest : List ℕ) → decode_chunks m [] dest ≡ []
unfolding decode_chunks
decode_chunks-nil zero dest = refl
decode_chunks-nil (suc m) dest = refl

encode_chunks-nil : (n : ℕ) (pad : Bool) → encode_chunks n [] pad ≡ []
unfolding encode_chunks
encode_chunks-nil zero pad = refl
encode_chunks-nil (suc n) pad = refl

-- The last chunk.
finish :
    (m : ℕ) (coded dest written : List ℕ) (count : ℕ)
    → 0 < length coded
    → take 8 coded ≡ coded
    → drop 8 coded ≡ []
    → base32_decode_chunk coded dest ≡ (written, count)
    → decode_chunks (suc m) coded dest ≡ take count written
finish m coded dest written count h t d e =
    decode_step m coded dest count written h (rw t e) ∙ rw (d, decode_chunks-nil, append-nil)

-- A text of fewer than five bytes.
module _ (a n : ℕ) (ha : IsByte a) where
  short_1 :
      (m : ℕ) (pad : Bool) (dest : List ℕ)
      → length (encode_chunks (suc n) (a ∷ []) pad) ≤ m
      → 1 ≤ length dest
      → decode_chunks m (encode_chunks (suc n) (a ∷ []) pad) dest ≡ a ∷ []
  unfolding encode_chunks base32_encode_chunk unpadded
  short_1 zero true dest f l = absurd (omega arith)
  short_1 (suc m) true (p ∷ rest) f l = rw (encode_chunks-nil n true) (
      finish m _ _ _ _ (omega arith) refl refl
        (chunk_1 a ha (b'=' ∷ b'=' ∷ b'=' ∷ b'=' ∷ b'=' ∷ b'=' ∷ []) p rest refl))
  short_1 zero false dest f l = absurd (omega arith)
  short_1 (suc m) false (p ∷ rest) f l =
      rw (encode_chunks-nil n false)
        (finish m _ _ _ _ (omega arith) refl refl (chunk_1 a ha ([]) p rest refl))
  short_1 m pad dest f l = absurd (omega arith)

module _ (a b n : ℕ) (ha : IsByte a) (hb : IsByte b) where
  short_2 :
      (m : ℕ) (pad : Bool) (dest : List ℕ)
      → length (encode_chunks (suc n) (a ∷ b ∷ []) pad) ≤ m
      → 2 ≤ length dest
      → decode_chunks m (encode_chunks (suc n) (a ∷ b ∷ []) pad) dest ≡ a ∷ b ∷ []
  unfolding encode_chunks base32_encode_chunk unpadded
  short_2 zero true dest f l = absurd (omega arith)
  short_2 (suc m) true (p ∷ q ∷ rest) f l = rw (encode_chunks-nil n true) (
      finish m _ _ _ _ (omega arith) refl refl
        (chunk_2 a b ha hb (b'=' ∷ b'=' ∷ b'=' ∷ b'=' ∷ []) p q rest refl))
  short_2 zero false dest f l = absurd (omega arith)
  short_2 (suc m) false (p ∷ q ∷ rest) f l =
      rw (encode_chunks-nil n false)
        (finish m _ _ _ _ (omega arith) refl refl (chunk_2 a b ha hb ([]) p q rest refl))
  short_2 m pad dest f l = absurd (omega arith)

module _ (a b c n : ℕ) (ha : IsByte a) (hb : IsByte b) (hc : IsByte c) where
  short_3 :
      (m : ℕ) (pad : Bool) (dest : List ℕ)
      → length (encode_chunks (suc n) (a ∷ b ∷ c ∷ []) pad) ≤ m
      → 3 ≤ length dest
      → decode_chunks m (encode_chunks (suc n) (a ∷ b ∷ c ∷ []) pad) dest ≡ a ∷ b ∷ c ∷ []
  unfolding encode_chunks base32_encode_chunk unpadded
  short_3 zero true dest f l = absurd (omega arith)
  short_3 (suc m) true (p ∷ q ∷ r ∷ rest) f l = rw (encode_chunks-nil n true) (
      finish m _ _ _ _ (omega arith) refl refl
        (chunk_3 a b c ha hb hc (b'=' ∷ b'=' ∷ b'=' ∷ []) p q r rest refl))
  short_3 zero false dest f l = absurd (omega arith)
  short_3 (suc m) false (p ∷ q ∷ r ∷ rest) f l =
      rw (encode_chunks-nil n false)
        (finish m _ _ _ _ (omega arith) refl refl (chunk_3 a b c ha hb hc ([]) p q r rest refl))
  short_3 m pad dest f l = absurd (omega arith)

module _ (a b c d n : ℕ) (ha : IsByte a) (hb : IsByte b) (hc : IsByte c) (hd : IsByte d) where
  short_4 :
      (m : ℕ) (pad : Bool) (dest : List ℕ)
      → length (encode_chunks (suc n) (a ∷ b ∷ c ∷ d ∷ []) pad) ≤ m
      → 4 ≤ length dest
      → decode_chunks m (encode_chunks (suc n) (a ∷ b ∷ c ∷ d ∷ []) pad) dest ≡ a ∷ b ∷ c ∷ d ∷ []
  unfolding encode_chunks base32_encode_chunk unpadded
  short_4 zero true dest f l = absurd (omega arith)
  short_4 (suc m) true (p ∷ q ∷ r ∷ s ∷ rest) f l = rw (encode_chunks-nil n true) (
      finish m _ _ _ _ (omega arith) refl refl
        (chunk_4 a b c d ha hb hc hd (b'=' ∷ []) p q r s rest refl))
  short_4 zero false dest f l = absurd (omega arith)
  short_4 (suc m) false (p ∷ q ∷ r ∷ s ∷ rest) f l = rw (encode_chunks-nil n false) (
      finish m _ _ _ _ (omega arith) refl refl (chunk_4 a b c d ha hb hc hd ([]) p q r s rest refl))
  short_4 m pad dest f l = absurd (omega arith)

-- A full chunk, and the text after it.
module _ (a b c d e : ℕ) (ha : IsByte a) (hb : IsByte b) (hc : IsByte c) (hd : IsByte d)
    (he : IsByte e) (n m : ℕ) (pad : Bool) (plain : List ℕ) where
  full :
      (dest : List ℕ)
      → 5 ≤ length dest
      → decode_chunks m (encode_chunks n plain pad) (drop 5 dest) ≡ plain
      → decode_chunks (suc m) (encode_chunks (suc n) (a ∷ b ∷ c ∷ d ∷ e ∷ plain) pad) dest
        ≡ a ∷ b ∷ c ∷ d ∷ e ∷ plain
  unfolding encode_chunks base32_encode_chunk unpadded
  full (p ∷ q ∷ r ∷ s ∷ t ∷ rest) l ih =
      decode_step m _ _ _ _ (omega arith) (chunk_5 a b c d e ha hb hc hd he [] p q r s t rest refl)
      ∙ ap (λ x. a ∷ b ∷ c ∷ d ∷ e ∷ x) ih
  full dest l ih = absurd (omega arith)

  coded-length :
      length (encode_chunks (suc n) (a ∷ b ∷ c ∷ d ∷ e ∷ plain) pad)
      ≡ 8 + length (encode_chunks n plain pad)
  unfolding encode_chunks base32_encode_chunk
  coded-length = omega arith

decode_chunks-encode_chunks :
    (n m : ℕ) (pad : Bool) (plain dest : List ℕ)
    → All IsByte plain
    → length plain ≤ n
    → length (encode_chunks n plain pad) ≤ m
    → length plain ≤ length dest
    → decode_chunks m (encode_chunks n plain pad) dest ≡ plain
decode_chunks-encode_chunks n m pad [] dest bs f g l =
    rw encode_chunks-nil (decode_chunks-nil m dest)
decode_chunks-encode_chunks zero m pad (a ∷ plain) dest bs f g l = absurd (omega arith)
decode_chunks-encode_chunks (suc n) m pad (a ∷ []) dest (ha, tt) f g l =
    short_1 a n ha m pad dest g l
decode_chunks-encode_chunks (suc n) m pad (a ∷ b ∷ []) dest (ha, (hb, tt)) f g l =
    short_2 a b n ha hb m pad dest g l
decode_chunks-encode_chunks (suc n) m pad (a ∷ b ∷ c ∷ []) dest (ha, (hb, (hc, tt))) f g l =
    short_3 a b c n ha hb hc m pad dest g l
decode_chunks-encode_chunks (suc n) m pad (a ∷ b ∷ c ∷ d ∷ []) dest (ha, (hb, (hc, (hd, tt)))) f g
      l =
    short_4 a b c d n ha hb hc hd m pad dest g l
decode_chunks-encode_chunks (suc n) zero pad (a ∷ b ∷ c ∷ d ∷ e ∷ plain) dest
      (ha, (hb, (hc, (hd, (he, bs))))) f g l =
    absurd (omega (arith, coded-length a b c d e ha hb hc hd he n 0 pad plain))
decode_chunks-encode_chunks (suc n) (suc m) pad (a ∷ b ∷ c ∷ d ∷ e ∷ plain) dest
      (ha, (hb, (hc, (hd, (he, bs))))) f g l =
    full a b c d e ha hb hc hd he n m pad plain dest (omega arith) (
      decode_chunks-encode_chunks n m pad plain (drop 5 dest) bs (omega arith)
        (omega (arith, coded-length a b c d e ha hb hc hd he n 0 pad plain))
        (omega (arith, length-drop 5 dest)))

-- Decoding the encoding of bytes gives the bytes back, whatever their number and with padding or
-- without, provided that the memory written to has room for them.
pub base32_decode-base32_encode :
    (plain dest : List ℕ) (use_padding : Bool)
    → All IsByte plain
    → length plain ≤ length dest
    → base32_decode (base32_encode plain use_padding) dest ≡ plain
unfolding base32_decode base32_encode
base32_decode-base32_encode plain dest use_padding bounds room =
    decode_chunks-encode_chunks (length plain) _ use_padding plain dest bounds (omega arith)
      (omega arith) room
