-- ===== src/Array.antt =====
-- array.c: dynamic arrays of one element type. `grown n` stands for the n elements that
-- `realloc` adds, whose content is not set; a text is its characters, its end mark being a 0 or
-- the end of the list. A maximal length of -1 is `none`.
pub mod Text
use deep_messenger.Prelude.{
  ℕ, zero, suc, ◌+◌, ◌-◌, ◌*◌, ◌/◌, ◌==◌, Bool, true, false, Option, none, some, List, [], ◌∷◌,
  ◌++◌, ltb, if◌then◌else◌, set, length,
}

abbrev pub array_chunk_size : ℕ
array_chunk_size = 8

-- The elements that are allocated.
abbrev pub Array : Type 0
Array = List ℕ

-- `array_expand`.
unfoldable pub array_expand : (grown : ℕ → List ℕ) → Array → ℕ → Array
array_expand grown arr new_length =
    if ltb (length arr) new_length
    then arr ++ grown ((new_length / array_chunk_size + 1) * array_chunk_size - length arr)
    else arr

-- The characters of a text.
abbrev pub text : List ℕ → List ℕ
text [] = []
text (ch ∷ rest) = let others = text rest in if ch == 0 then [] else ch ∷ others

-- The loop that copies, with n rounds left at index i, and the end mark that it is followed by.
unfoldable pub copy : ℕ → List ℕ → ℕ → Array → Array
copy zero str i dest = set dest i 0
copy (suc n) [] i dest = set dest i 0
copy (suc n) (ch ∷ str) i dest =
    let rest = copy n str (suc i) (set dest i ch) in if ch == 0 then set dest i 0 else rest

abbrev pub limit : Option ℕ → List ℕ → ℕ
limit none str = length (text str)
limit (some maxlen) str = maxlen

unfoldable pub array_strcpy : (grown : ℕ → List ℕ) → Array → List ℕ → Option ℕ → Array
unfolding array_expand copy
array_strcpy grown arr str maxlen =
    let n = limit maxlen str in copy n str 0 (array_expand grown arr (n + 1))
