-- ===== src/Prelude/Bits.antt =====
-- Bit operations on one byte as arithmetic; each is a table of at most 256 entries, checked by
-- evaluation.
use Prim.Native.Nat.{ℕ, zero, suc, ◌+◌, ◌*◌, ◌/◌, ◌%◌, ◌<◌, bit_and, bit_or}
use mathlib.Core.Path.{◌≡◌, refl, sym, ap₂, ◌∙◌}
use mathlib.Core.Bool.{Bool, true, false}
use mathlib.Core.Logic.{ite}
use native.Mathlib.Decide.{ℕ_discrete}
use native.Mathlib.Omega.{arith}

module _ (f g : ℕ → ℕ) where
  unfoldable pub agree_below : ℕ → Bool
  unfolding ℕ_discrete
  agree_below zero = true
  agree_below (suc n) = ite (ℕ_discrete (f n) (g n)) (agree_below n) false

  pub agree_below→eq : (n : ℕ) → agree_below n ≡ true → (i : ℕ) → i < n → f i ≡ g i
  unfolding agree_below
  agree_below→eq zero e i h = absurd (omega arith)
  agree_below→eq (suc n) e i h = ground (arith, agree_below→eq n (ground arith) i)

-- `b & 0x1F` keeps the low five bits.
pub and_31 : (b : ℕ) → b < 256 → bit_and b 31 ≡ b % 32
unfolding agree_below
and_31 = agree_below→eq _ _ 256 refl

abbrev join : ℕ → ℕ → ℕ
join p x = bit_or (x / p * p) (x % p)

or_of_join : (p a b x : ℕ) → x / p * p ≡ a → x % p ≡ b → join p x ≡ x → bit_or a b ≡ x
or_of_join p a b x e f h = ap₂ bit_or (sym e) (sym f) ∙ h

join_2 : (x : ℕ) → x < 256 → join 2 x ≡ x
unfolding agree_below
join_2 = agree_below→eq _ _ 256 refl

-- A multiple of 2 and a number below 2 have no bit in common.
pub or_2 : (a b : ℕ) → a < 256 → a % 2 ≡ 0 → b < 2 → bit_or a b ≡ a + b
or_2 a b h m k = or_of_join 2 a b (a + b) (omega arith) (omega arith) (join_2 (a + b) (omega arith))

join_4 : (x : ℕ) → x < 256 → join 4 x ≡ x
unfolding agree_below
join_4 = agree_below→eq _ _ 256 refl

-- A multiple of 4 and a number below 4 have no bit in common.
pub or_4 : (a b : ℕ) → a < 256 → a % 4 ≡ 0 → b < 4 → bit_or a b ≡ a + b
or_4 a b h m k = or_of_join 4 a b (a + b) (omega arith) (omega arith) (join_4 (a + b) (omega arith))

join_8 : (x : ℕ) → x < 256 → join 8 x ≡ x
unfolding agree_below
join_8 = agree_below→eq _ _ 256 refl

-- A multiple of 8 and a number below 8 have no bit in common.
pub or_8 : (a b : ℕ) → a < 256 → a % 8 ≡ 0 → b < 8 → bit_or a b ≡ a + b
or_8 a b h m k = or_of_join 8 a b (a + b) (omega arith) (omega arith) (join_8 (a + b) (omega arith))

join_16 : (x : ℕ) → x < 256 → join 16 x ≡ x
unfolding agree_below
join_16 = agree_below→eq _ _ 256 refl

-- A multiple of 16 and a number below 16 have no bit in common.
pub or_16 : (a b : ℕ) → a < 256 → a % 16 ≡ 0 → b < 16 → bit_or a b ≡ a + b
or_16 a b h m k =
    or_of_join 16 a b (a + b) (omega arith) (omega arith) (join_16 (a + b) (omega arith))

join_32 : (x : ℕ) → x < 256 → join 32 x ≡ x
unfolding agree_below
join_32 = agree_below→eq _ _ 256 refl

-- A multiple of 32 and a number below 32 have no bit in common.
pub or_32 : (a b : ℕ) → a < 256 → a % 32 ≡ 0 → b < 32 → bit_or a b ≡ a + b
or_32 a b h m k =
    or_of_join 32 a b (a + b) (omega arith) (omega arith) (join_32 (a + b) (omega arith))

join_64 : (x : ℕ) → x < 256 → join 64 x ≡ x
unfolding agree_below
join_64 = agree_below→eq _ _ 256 refl

-- A multiple of 64 and a number below 64 have no bit in common.
pub or_64 : (a b : ℕ) → a < 256 → a % 64 ≡ 0 → b < 64 → bit_or a b ≡ a + b
or_64 a b h m k =
    or_of_join 64 a b (a + b) (omega arith) (omega arith) (join_64 (a + b) (omega arith))

join_128 : (x : ℕ) → x < 256 → join 128 x ≡ x
unfolding agree_below
join_128 = agree_below→eq _ _ 256 refl

-- A multiple of 128 and a number below 128 have no bit in common.
pub or_128 : (a b : ℕ) → a < 256 → a % 128 ≡ 0 → b < 128 → bit_or a b ≡ a + b
or_128 a b h m k =
    or_of_join 128 a b (a + b) (omega arith) (omega arith) (join_128 (a + b) (omega arith))

pub or_zero : (a : ℕ) → a < 256 → bit_or a 0 ≡ a
unfolding agree_below
or_zero = agree_below→eq (λ a. bit_or a 0) (λ a. a) 256 refl

pub zero_or : (a : ℕ) → a < 256 → bit_or 0 a ≡ a
unfolding agree_below
zero_or = agree_below→eq (λ a. bit_or 0 a) (λ a. a) 256 refl
