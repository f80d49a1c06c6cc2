-- ===== src/Array/Text.antt =====
-- The text that an array holds after a copy.
use deep_messenger.Prelude.{
  ℕ, zero, suc, ◌+◌, ◌-◌, ◌*◌, ◌/◌, ◌≡◌, ◌<◌, refl, ap, ◌∙◌, Bool, true, false, ◌==◌, Option, List,
  [], ◌∷◌, ◌++◌, ltb, if◌then◌else◌, if_elim, set, length, length-append, take, arith,
}
use deep_messenger.Array.{Array, array_expand, text, copy, limit, array_strcpy}

if_cons :
    (b : Bool) (x : ℕ) (xs ys : List ℕ)
    → (if b then x ∷ xs else x ∷ ys) ≡ x ∷ (if b then xs else ys)
if_cons true x xs ys = refl
if_cons false x xs ys = refl

copy_past :
    (n i x : ℕ) (str : List ℕ) (dest : Array)
    → copy n str (suc i) (x ∷ dest) ≡ x ∷ copy n str i dest
unfolding copy
copy_past zero i x str dest = refl
copy_past (suc n) i x [] dest = refl
copy_past (suc n) i x (ch ∷ str) dest =
    ap (λ l. if ch == 0 then x ∷ set dest i 0 else l) (copy_past n (suc i) x str (set dest i ch))
    ∙ if_cons (ch == 0) x (set dest i 0) (copy n str (suc i) (set dest i ch))

-- A text whose first character was copied, and is the end mark or not.
text_first :
    (b : Bool) (ch : ℕ) (dest rest : Array) (str : List ℕ)
    → (ch == 0) ≡ b
    → (b ≡ false → text rest ≡ str)
    → text (if b then 0 ∷ dest else ch ∷ rest) ≡ (if b then [] else ch ∷ str)
text_first true ch dest rest str e h = refl
text_first false ch dest rest str e h = rw e (ap (λ l. ch ∷ l) (h refl))

text-copy :
    (n : ℕ) (str : List ℕ) (dest : Array)
    → n < length dest
    → text (copy n str 0 dest) ≡ text (take n str)
unfolding copy
text-copy n str [] room = absurd (omega arith)
text-copy zero str (x ∷ dest) room = refl
text-copy (suc n) [] (x ∷ dest) room = refl
text-copy (suc n) (ch ∷ str) (x ∷ dest) room =
    ap (λ l. text (if ch == 0 then 0 ∷ dest else l)) (copy_past n 0 ch str dest)
    ∙ text_first (ch == 0) ch dest (copy n str 0 dest) (text (take n str)) refl
        (λ _. text-copy n str dest (omega arith))

length-array_expand :
    (grown : ℕ → List ℕ) (arr : Array) (n : ℕ)
    → ((k : ℕ) → length (grown k) ≡ k)
    → n < length (array_expand grown arr (n + 1))
unfolding array_expand
length-array_expand grown arr n fits =
    if_elim (λ a. n < length a) (ltb (length arr) (n + 1))
      {x = arr ++ grown (((n + 1) / 8 + 1) * 8 - length arr)} {y = arr}
      (λ less.
        let more = ((n + 1) / 8 + 1) * 8 - length arr in
        let both = length-append arr (grown more) in
        let size = fits more in omega (arith, both, size))
      (λ enough. ground arith)

-- A copy makes room for the characters it may copy and their end mark, and the array then holds
-- the text up to the limit. `grown` gives as many elements as asked for.
pub text-array_strcpy :
    (grown : ℕ → List ℕ) (arr : Array) (str : List ℕ) (maxlen : Option ℕ)
    → ((k : ℕ) → length (grown k) ≡ k)
    → text (array_strcpy grown arr str maxlen) ≡ text (take (limit maxlen str) str)
unfolding array_strcpy
text-array_strcpy grown arr str maxlen fits =
    text-copy (limit maxlen str) str (array_expand grown arr (limit maxlen str + 1))
      (length-array_expand grown arr (limit maxlen str) fits)
