-- ===== src/Prelude/Bytes.antt =====
-- Comparison of byte arrays.
use deep_messenger.Prelude.Tests.{◌==◌, ==_refl}
use deep_messenger.Prelude.Lists.{length, take}
use Prim.Native.Nat.{ℕ, zero, suc}
use mathlib.Core.Path.{◌≡◌, refl}
use mathlib.Core.Bool.{Bool, true, false, ◌&&◌}
use mathlib.Core.List.{List, [], ◌∷◌, ◌++◌}
use native.Mathlib.Omega.{arith}

-- The first `length expected` bytes of `bytes` are those of `expected`.
unfoldable pub agrees : List ℕ → List ℕ → Bool
agrees [] bytes = true
agrees (e ∷ es) [] = false
agrees (e ∷ es) (b ∷ bs) = b == e && agrees es bs

pub agrees_refl : (xs ys : List ℕ) → agrees xs (xs ++ ys) ≡ true
unfolding agrees
agrees_refl [] ys = refl
agrees_refl (x ∷ xs) ys = rw (==_refl x) (agrees_refl xs ys)

pub agrees-take : (n : ℕ) (xs : List ℕ) → agrees (take n xs) xs ≡ true
unfolding agrees
agrees-take zero xs = refl
agrees-take (suc n) [] = refl
agrees-take (suc n) (x ∷ xs) = rw (==_refl x) (agrees-take n xs)

-- Bytes that agree with the expected ones begin with them.
pub agrees→eq : (xs ys : List ℕ) → agrees xs ys ≡ true → take (length xs) ys ≡ xs
unfolding agrees
agrees→eq [] ys h = refl
agrees→eq (x ∷ xs) [] h = cc
agrees→eq (x ∷ xs) (y ∷ ys) h = ground (arith, agrees→eq xs ys)
