-- ===== src/Tests/Logs.antt =====
-- A log in a window of two rows and three columns.
use deep_messenger.Prelude.{
  ℕ, ◌≡◌, refl, true, false, none, some, List, [], ◌∷◌, arith, All, take, ◌-◌,
}
use deep_messenger.Logger.{
  Logger, ui_logger_line_size, LogWindow, ui_logger_new, ui_logger_draw_cb, ui_logger_input_cb,
  key_up, key_down, cut,
}
use deep_messenger.Logger.Lines.{join, IsLine, join-cut}
use deep_messenger.Logger.Rows.{EndsAt, MayEndAt, input-EndsAt}
use deep_messenger.Logger.Drawn.{placed}
use deep_messenger.Logger.Shown.{total, log_rows, draw_cb-log_rows}

abbrev two_rows : LogWindow
two_rows = record {
  is_defined = true;
  selected = true;
  manager_selected = false;
  rows = 2;
  cols = 3;
}

-- "abcd", a newline and "e".
abbrev two_lines : List ℕ
two_lines = 97 ∷ 98 ∷ 99 ∷ 100 ∷ b'\n' ∷ 101 ∷ []

abbrev logged : Logger
logged = record {
  i_line = 1;
  i_wrap = 0;
  allow_clear = true;
  lines = (97 ∷ 98 ∷ 99 ∷ 100 ∷ []) ∷ (101 ∷ []) ∷ [];
}

cut_example :
    (join (cut two_lines two_lines 0 0) ≡ two_lines) × All IsLine (cut two_lines two_lines 0 0)
cut_example = join-cut two_lines

scroll_example :
    EndsAt 3 (ui_logger_input_cb two_rows key_down logged)
    × MayEndAt 3 (ui_logger_input_cb two_rows key_up logged)
unfolding ui_logger_line_size
scroll_example = input-EndsAt two_rows logged (omega arith) (omega arith)

draw_example :
    ui_logger_draw_cb two_rows logged
    ≡ some (placed (2 - total 3 logged.lines) (take 2 (log_rows 3 logged)))
unfolding ui_logger_line_size
draw_example = draw_cb-log_rows two_rows logged (omega arith) (omega arith) (omega arith)

drawn : ui_logger_draw_cb two_rows logged ≡ some ((0, 101 ∷ []) ∷ (1, 100 ∷ []) ∷ [])
unfolding ui_logger_draw_cb
drawn = refl

-- Scrolling up in an empty log reads a line that it does not have.
up_empty : ui_logger_input_cb two_rows key_up ui_logger_new ≡ none
unfolding ui_logger_input_cb ui_logger_new
up_empty = refl

down_empty : ui_logger_input_cb two_rows key_down ui_logger_new ≡ none
unfolding ui_logger_input_cb ui_logger_new
down_empty = refl

-- In a log of one line that takes two rows, in a window of four, scrolling up reads behind the last
-- line.
up_one_line :
    ui_logger_input_cb
      (record two_rows { rows = 4 })
      key_up
      (record {
        i_line = 0;
        i_wrap = 0;
        allow_clear = true;
        lines = (97 ∷ 98 ∷ 99 ∷ 100 ∷ []) ∷ [];
      })
    ≡ none
unfolding ui_logger_input_cb
up_one_line = refl
