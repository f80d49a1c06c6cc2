-- ===== src/Tests/Sharing.antt =====
-- `divide` and `str_ends_with` at concrete inputs.
use deep_messenger.Prelude.{ℕ, ◌≡◌, refl, List, [], ◌∷◌, arith}
use deep_messenger.Helpers.{
  divided, read_format, new_field, add_digit, set_size, read_char, per_sum, fixed_sum, in_order,
  divide, fixed, percentage,
}
use deep_messenger.Helpers.Divide.{Fills, divide-Fills}

-- "f2p33p67": two columns, and the others in thirds.
abbrev format : List ℕ
format = 102 ∷ 50 ∷ 112 ∷ 51 ∷ 51 ∷ 112 ∷ 54 ∷ 55 ∷ []

divide_run : divide format 81 ≡ divided (2 ∷ 26 ∷ 53 ∷ [])
unfolding divide read_format read_char new_field add_digit set_size in_order
divide_run = refl

divide_example : Fills 81 (divide format 81)
unfolding read_format read_char new_field add_digit set_size per_sum fixed_sum in_order
divide_example =
    divide-Fills format
      (record { type = percentage; size = 67; real_size = 0 }
        ∷ record { type = percentage; size = 33; real_size = 0 }
        ∷ record { type = fixed; size = 2; real_size = 2 }
        ∷ [])
      81 refl refl (omega arith) (omega arith)

-- "tor" and "r".
abbrev tor : List ℕ
tor = 116 ∷ 111 ∷ 114 ∷ []

abbrev r : List ℕ
r = 114 ∷ []
