-- ===== src/Logger.antt =====
-- ui_logger.c: a log of lines, each of which is wrapped to the columns of the window; the window
-- ends with one of the wrapped lines.
-- The lines carry their sizes. Where the code reads the size of a line that the log does not have,
-- there is no result. A window has columns.
pub mod Lines
pub mod Rows
pub mod Drawn
pub mod Wrapped
pub mod Shown
use deep_messenger.Prelude.{
  ℕ, zero, suc, ◌+◌, ◌-◌, ◌*◌, ◌/◌, ◌%◌, Bool, true, false, not, ◌&&◌, ◌||◌, Option, none, some,
  List, [], ◌∷◌, ◌++◌, ◌==◌, ◌>>=◌, ltb, leb, take, drop, length, get_elem?, if◌then◌else◌,
}
use deep_messenger.Array.{text}

pub record Logger : Type 0 where
  pub i_line : ℕ
  pub i_wrap : ℕ
  pub allow_clear : Bool
  pub lines : List (List ℕ)

-- The window of the logger: it is defined, it or its manager is selected, and its size.
pub record LogWindow : Type 0 where
  pub is_defined : Bool
  pub selected : Bool
  pub manager_selected : Bool
  pub rows : ℕ
  pub cols : ℕ

pub data LogKey : Type 0 where
  key_up key_down other_key ctrl_l other_char : LogKey

unfoldable pub ui_logger_new : Logger
ui_logger_new = record { i_line = 0; i_wrap = 0; allow_clear = false; lines = [] }

-- Whether the window is drawn after a change.
unfoldable pub draw_if_selected : LogWindow → Bool
draw_if_selected win = win.is_defined && (win.selected || win.manager_selected)

-- How many rows a line takes.
unfoldable pub ui_logger_line_size : ℕ → List ℕ → ℕ
ui_logger_line_size cols line =
    (if length line == 0 then 1 else 0)
    + length line / cols
    + (if length line % cols == 0 then 0 else 1)

-- The part of a line that is on its row `wi`.
unfoldable pub wline : (cols wi : ℕ) → List ℕ → List ℕ
wline cols wi line =
    take (if ltb wi (length line / cols) then cols else length line % cols) (drop (cols * wi) line)

unfoldable pub ui_logger_clear : Logger → Logger
ui_logger_clear logr = record logr { lines = []; i_line = 0; i_wrap = 0 }

-- The loop that cuts a text into lines, at index `i`, from which on the text is `rest`.
unfoldable pub cut : (str rest : List ℕ) → (line_start i : ℕ) → List (List ℕ)
cut str [] line_start i = take (i - line_start) (drop line_start str) ∷ []
cut str (ch ∷ rest) line_start i =
    let next = if ch == b'\n' then i + 1 else line_start in
    let others = cut str rest next (i + 1) in
    if ch == b'\n' then take (i - line_start) (drop line_start str) ∷ others else others

unfoldable pub line_size_at : ℕ → List (List ℕ) → ℕ → Option ℕ
unfolding ui_logger_line_size
line_size_at cols lines i = elim (get_elem? lines i) [
  | none ↦ none
  | some line ↦ some (ui_logger_line_size cols line)
]

-- The last row of the line `i` ends what is shown.
unfoldable pub show_end : (cols i : ℕ) → Logger → Option Logger
unfolding line_size_at
show_end cols i logr = do
  size ← line_size_at cols logr.lines i
  some (record logr { i_line = i; i_wrap = size - 1 })

unfoldable pub ui_logger_log_wc : LogWindow → List ℕ → Logger → Option Logger
unfolding cut show_end
ui_logger_log_wc win str logr =
    let more = record logr { lines = logr.lines ++ cut (text str) (text str) 0 0 } in
    if win.is_defined
    then show_end win.cols (length more.lines - 1) more
    else some (record more { i_line = length more.lines - 1; i_wrap = 0 })

unfoldable pub ui_logger_define_cb : LogWindow → Logger → Option Logger
unfolding show_end
ui_logger_define_cb win logr =
    if ltb 0 (length logr.lines)
    then show_end win.cols (length logr.lines - 1) logr
    else some (record logr { i_line = 0; i_wrap = 0 })

-- The inner loop that looks where scrolling up stops, with `room` rows left: it takes the size of
-- the line `stop_wi`. The rows that are then left, and the index it ends at.
unfoldable pub stop_wrap : (cols : ℕ) → List (List ℕ) → (room stop_wi : ℕ) → Option (ℕ × ℕ)
unfolding line_size_at
stop_wrap cols lines zero stop_wi = do size ← line_size_at cols lines stop_wi; some (0, stop_wi)
stop_wrap cols lines (suc room) stop_wi = do
  size ← line_size_at cols lines stop_wi
  let rest = stop_wrap cols lines room (stop_wi + 1)
  if ltb stop_wi size then rest else some (suc room, stop_wi)

-- The outer loop, with `n` lines left.
unfoldable pub stop_line :
    (cols : ℕ) → List (List ℕ) → (n room stop_li stop_wi : ℕ) → Option (ℕ × ℕ)
unfolding stop_wrap
stop_line cols lines zero room stop_li stop_wi = some (stop_li, stop_wi)
stop_line cols lines (suc n) zero stop_li stop_wi = some (stop_li, stop_wi)
stop_line cols lines (suc n) (suc room) stop_li stop_wi = do
  (left, wi) ← stop_wrap cols lines (suc room) 0
  stop_line cols lines n left (stop_li + 1) wi

unfoldable pub scroll_up : LogWindow → Logger → Option Logger
unfolding stop_line show_end
scroll_up win logr = do
  (stop_li, stop_wi) ← stop_line win.cols logr.lines (length logr.lines) win.rows 0 0
  if leb stop_li logr.i_line || leb stop_wi logr.i_wrap
      then (if ltb 0 logr.i_wrap
          then some (record logr { i_wrap = logr.i_wrap - 1 })
          else if logr.i_line == 0
          then none
          else show_end win.cols (logr.i_line - 1) logr)
      else some logr

unfoldable pub scroll_down : LogWindow → Logger → Option Logger
unfolding line_size_at
scroll_down win logr = do
  last ← line_size_at win.cols logr.lines (length logr.lines - 1)
  if ltb (logr.i_line + 1) (length logr.lines) || ltb (logr.i_wrap + 1) last
      then (do
        size ← line_size_at win.cols logr.lines logr.i_line
        some (
            if ltb (logr.i_wrap + 1) size
            then record logr { i_wrap = logr.i_wrap + 1 }
            else record logr { i_line = logr.i_line + 1; i_wrap = 0 }))
      else some logr

unfoldable pub ui_logger_input_cb : LogWindow → LogKey → Logger → Option Logger
unfolding ui_logger_clear scroll_up scroll_down
ui_logger_input_cb win key_up logr = scroll_up win logr
ui_logger_input_cb win key_down logr = scroll_down win logr
ui_logger_input_cb win other_key logr = some logr
ui_logger_input_cb win ctrl_l logr = some (if logr.allow_clear then ui_logger_clear logr else logr)
ui_logger_input_cb win other_char logr = some logr

-- How many rows stay empty under the text.
unfoldable pub bottom_padding : (rows cols line_cnt padding : ℕ) → List (List ℕ) → ℕ
unfolding ui_logger_line_size
bottom_padding rows cols line_cnt padding [] = padding
bottom_padding rows cols line_cnt padding (line ∷ lines) =
    let count = line_cnt + ui_logger_line_size cols line in
    let rest = bottom_padding rows cols count (rows - count) lines in
    if ltb rows count then 0 else rest

-- The rows of a line from `j` - 1 up, with `line_cnt` rows drawn: each with how far above the last
-- row of the window it stands.
unfoldable pub draw_wraps : (rows cols padding : ℕ) → List ℕ → (line_cnt j : ℕ) → List (ℕ × List ℕ)
unfolding wline
draw_wraps rows cols padding line line_cnt zero = []
draw_wraps rows cols padding line line_cnt (suc j) =
    let rest = draw_wraps rows cols padding line (line_cnt + 1) j in
    if line_cnt == rows then [] else (padding + line_cnt, wline cols j line) ∷ rest

-- The lines from `n` - 1 up.
unfoldable pub draw_lines :
    (rows cols padding i_wrap : ℕ) → List (List ℕ) → (line_cnt n : ℕ) → Option (List (ℕ × List ℕ))
unfolding draw_wraps ui_logger_line_size
draw_lines rows cols padding i_wrap lines line_cnt zero = some []
draw_lines rows cols padding i_wrap lines line_cnt (suc i) = do
  line ← get_elem? lines i
  let wraps = if line_cnt == 0 then i_wrap + 1 else ui_logger_line_size cols line
  let drawn = draw_wraps rows cols padding line line_cnt wraps
  rest ← draw_lines rows cols padding i_wrap lines (line_cnt + length drawn) i
  some (drawn ++ rest)

unfoldable pub ui_logger_draw_cb : LogWindow → Logger → Option (List (ℕ × List ℕ))
unfolding bottom_padding draw_lines
ui_logger_draw_cb win logr =
    if length logr.lines == 0
    then some []
    else draw_lines win.rows win.cols (bottom_padding win.rows win.cols 0 win.rows logr.lines)
        logr.i_wrap logr.lines 0 (logr.i_line + 1)
