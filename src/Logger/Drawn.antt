-- ===== src/Logger/Drawn.antt =====
-- What the window shows of the log.
use deep_messenger.Prelude.{
  ℕ, zero, suc, ◌≡◌, refl, ap, ◌∙◌, sym, ◌+◌, ◌-◌, ◌<◌, ◌≤◌, ◌==◌, ◌++◌, List, [], ◌∷◌, Option,
  none, some, ◌>>=◌, get_elem?, length, take, true, false, if◌then◌else◌, arith, length-take, min,
}
use deep_messenger.Logger.{
  Logger, LogWindow, ui_logger_line_size, wline, draw_wraps, draw_lines, bottom_padding,
  ui_logger_draw_cb,
}
use deep_messenger.Logger.Rows.{found_lem}

-- The rows of a line from the one before `j` up to the first.
abbrev pub rows_of : ℕ → List ℕ → ℕ → List (List ℕ)
rows_of cols line zero = []
rows_of cols line (suc j) = wline cols j line ∷ rows_of cols line j

-- All rows of the first `n` lines, from the last up.
abbrev pub rows_before : ℕ → List (List ℕ) → ℕ → List (List ℕ)
rows_before cols lines zero = []
rows_before cols lines (suc n) = elim (get_elem? lines n) [
  | none ↦ []
  | some line ↦ rows_of cols line (ui_logger_line_size cols line) ++ rows_before cols lines n
]

-- Each with its place, from `k` on.
abbrev pub placed : ℕ → List (List ℕ) → List (ℕ × List ℕ)
placed k [] = []
placed k (row ∷ rows) = (k, row) ∷ placed (k + 1) rows

take_nil : (n : ℕ) → take {A = List ℕ} n [] ≡ []
take_nil zero = refl
take_nil (suc n) = refl

-- With `room` rows left, as many of the rows are drawn.
draw_wraps-placed :
    (rows cols padding : ℕ) (line : List ℕ) (cnt room j : ℕ)
    → cnt + room ≡ rows
    → draw_wraps rows cols padding line cnt j
      ≡ placed (padding + cnt) (take room (rows_of cols line j))
unfolding draw_wraps
draw_wraps-placed rows cols padding line cnt room zero h = rw (take_nil room)
draw_wraps-placed rows cols padding line cnt zero (suc j) h =
    let full : (cnt == rows) ≡ true = ground arith in rw full
draw_wraps-placed rows cols padding line cnt (suc room) (suc j) h =
    let free : (cnt == rows) ≡ false = ground arith in
    let next : padding + (cnt + 1) ≡ padding + cnt + 1 = omega arith in
    rw (free, draw_wraps-placed rows cols padding line (cnt + 1) room j (omega arith), next)

length-placed : (k : ℕ) (rows : List (List ℕ)) → length (placed k rows) ≡ length rows
length-placed k [] = refl
length-placed k (row ∷ rows) = rw (length-placed (k + 1) rows)

length-rows_of : (cols : ℕ) (line : List ℕ) (j : ℕ) → length (rows_of cols line j) ≡ j
length-rows_of cols line zero = refl
length-rows_of cols line (suc j) = omega (arith, length-rows_of cols line j)

-- The first rows of two lists, one behind the other.
placed-append :
    (k n m : ℕ) (xs ys : List (List ℕ))
    → length xs ≡ m
    → placed k (take n xs) ++ placed (k + min n m) (take (n - m) ys) ≡ placed k (take n (xs ++ ys))
placed-append k n zero [] ys h =
    let same : k + min n 0 ≡ k = omega arith in
    let left : n - 0 ≡ n = omega arith in rw (same, left, take_nil n)
placed-append k n (suc m) [] ys h = absurd (omega arith)
placed-append k n zero (x ∷ xs) ys h = absurd (omega arith)
placed-append k zero (suc m) (x ∷ xs) ys h =
    let left : zero - suc m ≡ zero = omega arith in
    ap (λ n. placed (k + min zero (suc m)) (take n ys)) left
placed-append k (suc n) (suc m) (x ∷ xs) ys h =
    let place : k + min (suc n) (suc m) ≡ k + 1 + min n m = omega arith in
    let left : suc n - suc m ≡ n - m = omega arith in
    ap (λ l. (k, x) ∷ l)
      (ap (λ p. placed (k + 1) (take n xs) ++ placed p (take (suc n - suc m) ys)) place
        ∙ ap (λ r. placed (k + 1) (take n xs) ++ placed (k + 1 + min n m) (take r ys)) left
        ∙ placed-append (k + 1) n m xs ys (omega arith))

-- A line that is drawn before the rest.
line_drawn :
    (rows cols padding : ℕ) (line : List ℕ) (cnt room wraps : ℕ) (above : List (List ℕ))
    (rest : ℕ → Option (List (ℕ × List ℕ)))
    → cnt + room ≡ rows
    → ((more left : ℕ)
        → more ≡ cnt + min room wraps
        → more + left ≡ rows
        → rest more ≡ some (placed (padding + more) (take left above)))
    → (rest (cnt + length (draw_wraps rows cols padding line cnt wraps)) >>= λ others.
        some (draw_wraps rows cols padding line cnt wraps ++ others))
      ≡ some (placed (padding + cnt) (take room (rows_of cols line wraps ++ above)))
line_drawn rows cols padding line cnt room wraps above rest h next =
    let drawn = draw_wraps-placed rows cols padding line cnt room wraps h in
    let n : length (draw_wraps rows cols padding line cnt wraps) ≡ min room wraps =
      ap length drawn
      ∙ length-placed (padding + cnt) (take room (rows_of cols line wraps))
      ∙ length-take room (rows_of cols line wraps)
      ∙ ap (min room) (length-rows_of cols line wraps) in
    let others = next (cnt + min room wraps) (room - wraps) refl (omega (arith, h)) in
    let place : padding + (cnt + min room wraps) ≡ padding + cnt + min room wraps = omega arith in
    rw (n, others, drawn, place)
      (ap some (
        placed-append (padding + cnt) room wraps (rows_of cols line wraps) above
          (length-rows_of cols line wraps)))

draw_lines-step :
    (rows cols padding i_wrap cnt wraps i : ℕ) (lines : List (List ℕ)) (line : List ℕ)
    → get_elem? lines i ≡ some line
    → (if cnt == 0 then i_wrap + 1 else ui_logger_line_size cols line) ≡ wraps
    → draw_lines rows cols padding i_wrap lines cnt (suc i) ≡ (
        draw_lines rows cols padding i_wrap lines
          (cnt + length (draw_wraps rows cols padding line cnt wraps))
          i
        >>= λ others. some (draw_wraps rows cols padding line cnt wraps ++ others))
unfolding draw_lines
draw_lines-step rows cols padding i_wrap cnt wraps i lines line found size =
    ap
      (λ at. at >>= λ l.
        draw_lines rows cols padding i_wrap lines
          (cnt
            + length (
                draw_wraps rows cols padding l cnt
                  (if cnt == 0 then i_wrap + 1 else ui_logger_line_size cols l)))
          i
        >>= λ others. some (
            draw_wraps rows cols padding l cnt
              (if cnt == 0 then i_wrap + 1 else ui_logger_line_size cols l)
            ++ others))
      found
    ∙ ap
        (λ w.
          draw_lines rows cols padding i_wrap lines
            (cnt + length (draw_wraps rows cols padding line cnt w)) i
          >>= λ others. some (draw_wraps rows cols padding line cnt w ++ others))
        size

rows_before-step :
    (cols i : ℕ) (lines : List (List ℕ)) (line : List ℕ)
    → get_elem? lines i ≡ some line
    → rows_before cols lines (suc i)
      ≡ rows_of cols line (ui_logger_line_size cols line) ++ rows_before cols lines i
rows_before-step cols i lines line found =
    ap
      (λ at. elim at [
        | none ↦ []
        | some l ↦ rows_of cols l (ui_logger_line_size cols l) ++ rows_before cols lines i
      ])
      found

-- The lines above one of which a row is drawn.
draw_lines-placed :
    (rows cols padding i_wrap cnt room n : ℕ) (lines : List (List ℕ))
    → 0 < cnt
    → n ≤ length lines
    → cnt + room ≡ rows
    → draw_lines rows cols padding i_wrap lines cnt n
      ≡ some (placed (padding + cnt) (take room (rows_before cols lines n)))
unfolding draw_lines
draw_lines-placed rows cols padding i_wrap cnt room zero lines pos h eq = rw (take_nil room)
draw_lines-placed rows cols padding i_wrap cnt room (suc i) lines pos h eq =
    let (line, found) = found_lem i lines (omega arith) in
    let later : (cnt == 0) ≡ false = ground arith in
    let size = ui_logger_line_size cols line in
    draw_lines-step rows cols padding i_wrap cnt size i lines line found (rw later)
    ∙ line_drawn rows cols padding line cnt room size (rows_before cols lines i)
        (λ more. draw_lines rows cols padding i_wrap lines more i) eq
        (λ more left at sum.
          draw_lines-placed rows cols padding i_wrap more left i lines (omega (arith, at))
            (omega arith) sum)
    ∙ ap (λ all. some (placed (padding + cnt) (take room all)))
        (sym (rows_before-step cols i lines line found))

-- The rows of the log that end with the one it is at, from that one up.
abbrev pub rows_up : ℕ → Logger → List (List ℕ)
rows_up cols logr = elim (get_elem? logr.lines logr.i_line) [
  | none ↦ []
  | some line ↦ rows_of cols line (logr.i_wrap + 1) ++ rows_before cols logr.lines logr.i_line
]

-- A window with rows shows as many rows of the log as it has, of those that end with the row the
-- log is at: that one just above the padding, each other above the one that follows it.
pub draw_cb-rows_up :
    (win : LogWindow) (logr : Logger)
    → 0 < win.rows
    → logr.i_line < length logr.lines
    → ui_logger_draw_cb win logr
      ≡ some (
          placed
            (bottom_padding win.rows win.cols 0 win.rows logr.lines)
            (take win.rows (rows_up win.cols logr)))
unfolding ui_logger_draw_cb draw_lines
draw_cb-rows_up win logr h inside =
    let (line, found) = found_lem logr.i_line logr.lines inside in
    let any : (length logr.lines == 0) ≡ false = ground (arith, inside) in
    let padding = bottom_padding win.rows win.cols 0 win.rows logr.lines in
    let above = rows_before win.cols logr.lines logr.i_line in
    let next : logr.i_line + 1 ≡ suc logr.i_line = omega arith in
    rw (any, next)
      (draw_lines-step win.rows win.cols padding logr.i_wrap 0 (logr.i_wrap + 1) logr.i_line
          logr.lines line found refl
        ∙ line_drawn win.rows win.cols padding line 0 win.rows (logr.i_wrap + 1) above
            (λ more. draw_lines win.rows win.cols padding logr.i_wrap logr.lines more logr.i_line)
            (omega arith)
            (λ more left at sum.
              draw_lines-placed win.rows win.cols padding logr.i_wrap more left logr.i_line
                logr.lines (omega (arith, h, at)) (omega (arith, inside)) sum)
        ∙ ap
            (λ k.
              some (placed k (take win.rows (rows_of win.cols line (logr.i_wrap + 1) ++ above))))
            {x = padding + 0} {y = padding} (omega arith)
        ∙ ap
            (λ at. some (
              placed padding (
                take win.rows (elim at [
                  | none ↦ []
                  | some l ↦ rows_of win.cols l (logr.i_wrap + 1) ++ above
                ]))))
            (sym found))
