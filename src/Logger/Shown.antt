-- ===== src/Logger/Shown.antt =====
-- What the window shows of the log, by the characters of its lines.
use deep_messenger.Prelude.{
  ℕ, zero, suc, ◌≡◌, refl, ap, ◌∙◌, ◌+◌, ◌-◌, ◌<◌, ◌≤◌, ◌++◌, List, [], ◌∷◌, none, some, get_elem?,
  take, ltb, Bool-cases, inl, inr, arith,
}
use deep_messenger.Logger.{
  Logger, LogWindow, ui_logger_line_size, bottom_padding, ui_logger_draw_cb,
}
use deep_messenger.Logger.Rows.{IsAt, HasRow-line, inside_lem}
use deep_messenger.Logger.Wrapped.{rows_needed, row_at, line_size-needed, wline-row_at}
use deep_messenger.Logger.Drawn.{placed, rows_of, rows_before, rows_up, draw_cb-rows_up}

-- The rows of a line from the one before `j` up to the first.
abbrev pub rows_at : (cols : ℕ) → List ℕ → (j : ℕ) → List (List ℕ)
rows_at cols line zero = []
rows_at cols line (suc j) = row_at cols j line ∷ rows_at cols line j

-- All rows of the first `n` lines, from the last up.
abbrev pub rows_above : (cols : ℕ) → List (List ℕ) → (n : ℕ) → List (List ℕ)
rows_above cols lines zero = []
rows_above cols lines (suc n) = elim (get_elem? lines n) [
  | none ↦ []
  | some line ↦ rows_at cols line (rows_needed cols line) ++ rows_above cols lines n
]

-- The rows of the log that end with the one it is at, from that one up.
abbrev pub log_rows : ℕ → Logger → List (List ℕ)
log_rows cols logr = elim (get_elem? logr.lines logr.i_line) [
  | none ↦ []
  | some line ↦ rows_at cols line (logr.i_wrap + 1) ++ rows_above cols logr.lines logr.i_line
]

-- The rows that all lines need.
abbrev pub total : ℕ → List (List ℕ) → ℕ
total cols [] = 0
total cols (line ∷ lines) = rows_needed cols line + total cols lines

rows_of-rows_at :
    (cols j : ℕ) (line : List ℕ)
    → 0 < cols
    → j ≤ ui_logger_line_size cols line
    → rows_of cols line j ≡ rows_at cols line j
rows_of-rows_at cols zero line h at = refl
rows_of-rows_at cols (suc j) line h at =
    rw (wline-row_at cols j line h (omega arith), rows_of-rows_at cols j line h (omega arith)) refl

rows_before-rows_above :
    (cols n : ℕ) (lines : List (List ℕ))
    → 0 < cols
    → rows_before cols lines n ≡ rows_above cols lines n
rows_before-rows_above cols zero lines h = refl
rows_before-rows_above cols (suc n) lines h =
    let above = rows_before-rows_above cols n lines h in
    elim (get_elem? lines n)
      as (λ found.
        elim found [
          | none ↦ []
          | some line ↦
              rows_of cols line (ui_logger_line_size cols line) ++ rows_before cols lines n
        ]
        ≡ elim found [
          | none ↦ []
          | some line ↦ rows_at cols line (rows_needed cols line) ++ rows_above cols lines n
        ]) [
          | none ↦ refl
          | some line ↦
              ap (λ rows. rows ++ rows_before cols lines n)
                (rows_of-rows_at cols (ui_logger_line_size cols line) line h (omega arith)
                  ∙ ap (rows_at cols line) (line_size-needed cols line h))
              ∙ ap (λ rows. rows_at cols line (rows_needed cols line) ++ rows) above
        ]

rows_up-log_rows :
    (cols : ℕ) (logr : Logger) → 0 < cols → IsAt cols logr → rows_up cols logr ≡ log_rows cols logr
rows_up-log_rows cols logr h at =
    let (line, found, inside) =
      HasRow-line cols logr.i_wrap (get_elem? logr.lines logr.i_line) at in
    rw
      (
        rows_up,
        log_rows,
        found,
        rows_of-rows_at cols (logr.i_wrap + 1) line h (omega arith),
        rows_before-rows_above cols logr.i_line logr.lines h,
      )
      refl

-- With `line_cnt` rows counted.
padding_lem :
    (rows cols line_cnt padding : ℕ) (lines : List (List ℕ))
    → 0 < cols
    → padding ≡ rows - line_cnt
    → bottom_padding rows cols line_cnt padding lines ≡ rows - (line_cnt + total cols lines)
unfolding bottom_padding
padding_lem rows cols line_cnt padding [] h left = omega (arith, left)
padding_lem rows cols line_cnt padding (line ∷ lines) h left =
    let count = line_cnt + ui_logger_line_size cols line in
    let size = line_size-needed cols line h in
    elim (Bool-cases (ltb rows count)) [
      | inl full ↦
          let over : rows < count = ground (arith, full) in rw full (omega (arith, over, size))
      | inr room ↦
          rw room (padding_lem rows cols count (rows - count) lines h refl ∙ omega (arith, size))
    ]

-- A window with rows and columns, of a log that is at one of its rows, shows as many rows of the log
-- as it has, of those that end with that row: that one just above the padding, each other above the
-- one that follows it, and each with the characters of its line that stand on it. The padding is the
-- rows of the window that the whole log leaves free.
pub draw_cb-log_rows :
    (win : LogWindow) (logr : Logger)
    → 0 < win.rows
    → 0 < win.cols
    → IsAt win.cols logr
    → ui_logger_draw_cb win logr
      ≡ some
          (placed (win.rows - total win.cols logr.lines) (take win.rows (log_rows win.cols logr)))
draw_cb-log_rows win logr h cols at =
    let (line, found, _) = HasRow-line win.cols logr.i_wrap (get_elem? logr.lines logr.i_line) at in
    draw_cb-rows_up win logr h (inside_lem logr.i_line logr.lines line found)
    ∙ ap (λ k. some (placed k (take win.rows (rows_up win.cols logr))))
        (padding_lem win.rows win.cols 0 win.rows logr.lines cols (omega arith)
          ∙ ap (λ all. win.rows - all) (omega arith))
    ∙ ap (λ rows. some (placed (win.rows - total win.cols logr.lines) (take win.rows rows)))
        (rows_up-log_rows win.cols logr cols at)
