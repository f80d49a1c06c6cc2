-- ===== src/Onion/Front.antt =====
-- Whether an address is valid, and the key in it, depend on its 62 characters alone.
use deep_messenger.Prelude.{
  ℕ, zero, suc, ◌≤◌, ◌≡◌, refl, ap, ◌∙◌, ◌&&◌, ◌||◌, List, [], ◌∷◌, ◌++◌, ◌==◌, agrees, take, drop,
  length, length-drop, take-within, drop-within, arith,
}
use deep_messenger.Base32.{base32_decode}
use deep_messenger.Onion.{onion_end, ends_within, onion_address_valid, onion_extract_key}

ends_within-append :
    (n : ℕ) (xs ys : List ℕ) → n ≤ length xs → ends_within n (xs ++ ys) ≡ ends_within n xs
unfolding ends_within
ends_within-append zero xs ys h = refl
ends_within-append (suc n) [] ys h = absurd (omega arith)
ends_within-append (suc n) (x ∷ xs) ys h =
    ap (λ b. x == 0 || b) (ends_within-append n xs ys (omega arith))

agrees-append : (es xs ys : List ℕ) → length es ≤ length xs → agrees es (xs ++ ys) ≡ agrees es xs
unfolding agrees
agrees-append [] xs ys h = refl
agrees-append (e ∷ es) [] ys h = absurd (omega arith)
agrees-append (e ∷ es) (x ∷ xs) ys h = ap (λ b. x == e && b) (agrees-append es xs ys (omega arith))

pub onion_address_valid-append :
    (sha3 : List ℕ → List ℕ) (buffer xs ys : List ℕ)
    → length xs ≡ 62
    → onion_address_valid sha3 buffer (xs ++ ys) ≡ onion_address_valid sha3 buffer xs
unfolding onion_address_valid
onion_address_valid-append sha3 buffer xs ys size =
    let ends = ends_within-append 62 xs ys (omega (arith, size)) in
    let code = take-within 56 xs ys (omega (arith, size)) in
    let tail : agrees onion_end (drop 56 (xs ++ ys)) ≡ agrees onion_end (drop 56 xs) =
      ap (agrees onion_end) (drop-within 56 xs ys (omega (arith, size)))
      ∙ agrees-append onion_end (drop 56 xs) ys (omega (arith, length-drop 56 xs, size)) in
    rw (ends, tail, code) refl

pub onion_extract_key-append :
    (buffer xs ys : List ℕ)
    → length xs ≡ 62
    → onion_extract_key buffer (xs ++ ys) ≡ onion_extract_key buffer xs
unfolding onion_extract_key
onion_extract_key-append buffer xs ys size =
    ap (λ l. take 32 (base32_decode l buffer)) (take-within 56 xs ys (omega (arith, size)))
