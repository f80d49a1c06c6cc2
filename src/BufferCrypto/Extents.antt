-- ===== src/BufferCrypto/Extents.antt =====
-- What is hashed does not depend on how the buffer is cut into extents.
use deep_messenger.Prelude.{
  ℕ, zero, suc, ◌+◌, ◌-◌, ◌%◌, ◌^◌, ◌≡◌, ◌≤◌, ◌<◌, refl, ap, sym, ◌∙◌, List, [], ◌∷◌, ◌++◌, take,
  length, min, arith, length-append,
}
use mathlib.Core.List.{append-nil}
use deep_messenger.BufferCrypto.{hashed}

abbrev pub joined : List (List ℕ) → List ℕ
joined [] = []
joined (extent ∷ extents) = extent ++ joined extents

take_all : (n : ℕ) (xs : List ℕ) → length xs ≤ n → take n xs ≡ xs
take_all zero [] h = refl
take_all (suc n) [] h = refl
take_all zero (x ∷ xs) h = absurd (omega arith)
take_all (suc n) (x ∷ xs) h = ap (λ l. x ∷ l) (take_all n xs (omega arith))

take_past : (xs ys : List ℕ) (n m : ℕ) → n ≡ length xs + m → take n (xs ++ ys) ≡ xs ++ take m ys
take_past [] ys n m h = let e : n ≡ m = omega arith in ap (λ k. take k ys) e
take_past (x ∷ xs) ys zero m h = absurd (omega arith)
take_past (x ∷ xs) ys (suc n) m h = ap (λ l. x ∷ l) (take_past xs ys n m (omega arith))

pub take_same : (k n : ℕ) (xs : List ℕ) → k ≡ min (length xs) n → take k xs ≡ take n xs
take_same zero zero xs h = refl
take_same zero (suc n) [] h = refl
take_same zero (suc n) (x ∷ xs) h = absurd (omega arith)
take_same (suc k) zero xs h = absurd (omega arith)
take_same (suc k) (suc n) [] h = refl
take_same (suc k) (suc n) (x ∷ xs) h = ap (λ l. x ∷ l) (take_same k n xs (omega arith))

-- The bytes that are hashed are the first `len` of the buffer, for extents that all but the last
-- lie within them, which is how many are asked for; the length that is left never wraps around
-- before the last extent.
pub hashed-joined :
    (extents : List (List ℕ)) (last : List ℕ) (len : ℕ)
    → length (joined extents) ≤ len
    → len < 2 ^ 64
    → hashed len (extents ++ (last ∷ [])) ≡ take len (joined (extents ++ (last ∷ [])))
unfolding hashed
hashed-joined [] last len within word =
    append-nil (take (min (length last) len) last)
    ∙ take_same (min (length last) len) len last refl
    ∙ ap (take len) (sym (append-nil last))
hashed-joined (extent ∷ extents) last len within word =
    let both : length (extent ++ joined extents) ≡ length extent + length (joined extents) =
      length-append extent (joined extents) in
    let left : (len + 2 ^ 64 - length extent) % 2 ^ 64 ≡ len - length extent = omega arith in
    ap (λ l. l ++ hashed ((len + 2 ^ 64 - length extent) % 2 ^ 64) (extents ++ (last ∷ [])))
      (take_all (min (length extent) len) extent (omega arith))
    ∙ ap (λ n. extent ++ hashed n (extents ++ (last ∷ []))) left
    ∙ ap (λ l. extent ++ l)
        (hashed-joined extents last (len - length extent) (omega arith) (omega arith))
    ∙ sym
        (take_past extent (joined (extents ++ (last ∷ []))) len (len - length extent) (omega arith))
