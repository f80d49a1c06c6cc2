-- ===== src/Logger/Wrapped.antt =====
-- The rows that a line of the log is wrapped to.
use deep_messenger.Prelude.{
  ℕ, zero, suc, ◌≡◌, refl, ap, ◌∙◌, sym, ◌+◌, ◌-◌, ◌*◌, ◌/◌, ◌%◌, ◌<◌, ◌≤◌, ◌==◌, List, [], ◌∷◌,
  length, take, drop, length-drop, if◌then◌else◌, ltb, Bool-cases, false, inl, inr, arith,
}
use native.Mathlib.Nat.{div-add-mod, mod-lt, mul-add-div, div-eq_of_lt}
use deep_messenger.Logger.{ui_logger_line_size, wline}

-- A line takes as many rows as its characters need, and an empty one takes one.
abbrev pub rows_needed : (cols : ℕ) → List ℕ → ℕ
rows_needed cols line = 1 + (length line - 1) / cols

-- Each row of a line has the characters that follow those of the rows before it, as many as there
-- are columns where there are as many.
abbrev pub row_at : (cols j : ℕ) → List ℕ → List ℕ
row_at cols j line = take cols (drop (cols * j) line)

whole_rows : (cols q r : ℕ) → r < cols → (cols * q + r) / cols ≡ q
whole_rows cols q r h =
    mul-add-div (omega arith) q r ∙ ap (λ k. q + k) (div-eq_of_lt h) ∙ omega arith

size_lem :
    (cols n q r : ℕ)
    → cols * q + r ≡ n
    → r < cols
    → (if n == 0 then 1 else 0) + q + (if r == 0 then 0 else 1) ≡ 1 + (n - 1) / cols
size_lem cols n zero zero h small =
    let none_there : n ≡ 0 = omega (arith, h) in
    rw (none_there, div-eq_of_lt {n = 0} {m = cols} small) refl
size_lem cols n q (suc r) h small =
    let some_there : (n == 0) ≡ false = ground (arith, h) in
    let before : n - 1 ≡ cols * q + r = omega (arith, h) in
    rw (some_there, before, whole_rows cols q r (omega arith)) (ground arith)
size_lem cols n (suc q) zero h small =
    let all_rows : cols * suc q ≡ cols * q + cols = omega arith in
    let some_there : (n == 0) ≡ false = ground (arith, h, all_rows) in
    let before : n - 1 ≡ cols * q + (cols - 1) = omega (arith, h, all_rows) in
    rw (some_there, before, whole_rows cols q (cols - 1) (omega arith)) (omega arith)

pub line_size-needed :
    (cols : ℕ) (line : List ℕ) → 0 < cols → ui_logger_line_size cols line ≡ rows_needed cols line
unfolding ui_logger_line_size
line_size-needed cols line h =
    size_lem cols (length line) (length line / cols) (length line % cols)
      (div-add-mod (length line) cols) (mod-lt (length line) h)

take_enough : (n : ℕ) (xs : List ℕ) → length xs ≤ n → take n xs ≡ xs
take_enough zero [] h = refl
take_enough zero (x ∷ xs) h = absurd (omega arith)
take_enough (suc n) [] h = refl
take_enough (suc n) (x ∷ xs) h = ap (λ ys. x ∷ ys) (take_enough n xs (omega arith))

last_row :
    (cols n q r j : ℕ)
    → cols * q + r ≡ n
    → 0 < cols
    → j < (if n == 0 then 1 else 0) + q + (if r == 0 then 0 else 1)
    → j ≤ q
last_row cols n zero zero j h some_cols at =
    let none_there : n ≡ 0 = omega (arith, h) in ground (arith, none_there, at)
last_row cols n q (suc r) j h some_cols at =
    let some_there : (n == 0) ≡ false = ground (arith, h) in ground (arith, some_there, at)
last_row cols n (suc q) zero j h some_cols at =
    let all_rows : cols * suc q ≡ cols * q + cols = omega arith in
    let some_there : (n == 0) ≡ false = ground (arith, h, all_rows) in
    ground (arith, some_there, at)

pub wline-row_at :
    (cols j : ℕ) (line : List ℕ)
    → 0 < cols
    → j < ui_logger_line_size cols line
    → wline cols j line ≡ row_at cols j line
unfolding wline ui_logger_line_size
wline-row_at cols j line h at =
    let n = length line in
    let split = div-add-mod n cols in
    let up_to : j ≤ n / cols = last_row cols n (n / cols) (n % cols) j split h at in
    elim (Bool-cases (ltb j (n / cols))) [
      | inl full ↦ rw full refl
      | inr not_full ↦
          let last : j ≡ n / cols = ground (arith, up_to, not_full) in
          let left : length (drop (cols * j) line) ≡ n % cols =
            length-drop (cols * j) line ∙ ap (λ k. n - cols * k) last ∙ omega (arith, split) in
          rw not_full (
            take_enough (n % cols) (drop (cols * j) line) (omega (arith, left))
            ∙ sym (take_enough cols (drop (cols * j) line) (omega (arith, left, mod-lt n h))))
    ]
