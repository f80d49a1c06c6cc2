-- ===== src/Logger/Rows.antt =====
-- The row that ends what is shown is one of the log's.
use deep_messenger.Prelude.{
  ℕ, zero, suc, ◌≡◌, refl, ◌+◌, ◌-◌, ◌/◌, ◌%◌, ◌<◌, ◌==◌, ◌++◌, List, [], ◌∷◌, Option, none, some,
  get_elem?, length, Bool-cases, inl, inr, Bool, take, drop, length-append, ◌>>=◌, leb, true, false,
  ltb, ◌||◌, sym, ap, ◌*◌, if◌then◌else◌, arith, if_elim,
}
use deep_messenger.Array.{text}
use mathlib.Core.Path.{subst}
use native.Mathlib.Nat.{div-add-mod}
use deep_messenger.Logger.{
  key_up, key_down, ui_logger_input_cb, Logger, LogWindow, ui_logger_line_size, line_size_at,
  show_end, cut, ui_logger_log_wc, scroll_up, scroll_down,
}

abbrev HasRow : (cols wrap : ℕ) → Option (List ℕ) → Type 0
HasRow cols wrap none = ⊥
HasRow cols wrap (some line) = wrap < ui_logger_line_size cols line

-- The line is one of the log's, and has the row.
abbrev pub IsAt : ℕ → Logger → Type 0
IsAt cols logr = HasRow cols logr.i_wrap (get_elem? logr.lines logr.i_line)

pos_lem :
    (len q r cols : ℕ)
    → cols * q + r ≡ len
    → 0 < (if len == 0 then 1 else 0) + q + (if r == 0 then 0 else 1)
pos_lem len zero r cols h = let same : cols * 0 ≡ 0 = omega arith in ground (arith, same)
pos_lem len (suc q) r cols h = omega arith

line_size_pos : (cols : ℕ) (line : List ℕ) → 0 < cols → 0 < ui_logger_line_size cols line
unfolding ui_logger_line_size
line_size_pos cols line h =
    pos_lem (length line) (length line / cols) (length line % cols) cols
      (div-add-mod (length line) cols)

pub found_lem :
    (i : ℕ) (lines : List (List ℕ))
    → i < length lines
    → (line : List ℕ) × (get_elem? lines i ≡ some line)
found_lem i [] h = absurd (omega arith)
found_lem zero (line ∷ lines) h = (line, refl)
found_lem (suc i) (line ∷ lines) h = found_lem i lines (omega arith)

pub inside_lem :
    (i : ℕ) (lines : List (List ℕ)) (line : List ℕ)
    → get_elem? lines i ≡ some line
    → i < length lines
inside_lem i [] line h = absurd (cc)
inside_lem zero (x ∷ lines) line h = omega arith
inside_lem (suc i) (x ∷ lines) line h = let r = inside_lem i lines line h in omega (arith, r)

pub HasRow-line :
    (cols wrap : ℕ) (found : Option (List ℕ))
    → HasRow cols wrap found
    → (line : List ℕ) × (found ≡ some line) × (wrap < ui_logger_line_size cols line)
HasRow-line cols wrap none h = absurd h
HasRow-line cols wrap (some line) h = (line, refl, h)

HasRow-found :
    (cols wrap : ℕ) (found : Option (List ℕ)) (line : List ℕ)
    → found ≡ some line
    → wrap < ui_logger_line_size cols line
    → HasRow cols wrap found
HasRow-found cols wrap found line eq h = subst (HasRow cols wrap) (sym eq) h

line_size_at-found :
    (cols : ℕ) (lines : List (List ℕ)) (i : ℕ) (line : List ℕ)
    → get_elem? lines i ≡ some line
    → line_size_at cols lines i ≡ some (ui_logger_line_size cols line)
unfolding line_size_at
line_size_at-found cols lines i line found =
    ap (λ at. elim at [ none ↦ none | some l ↦ some (ui_logger_line_size cols l) ]) found

-- There is a result, and it is at a row.
abbrev pub EndsAt : ℕ → Option Logger → Type 0
EndsAt cols none = ⊥
EndsAt cols (some logr) = IsAt cols logr

abbrev pub MayEndAt : ℕ → Option Logger → Type 0
MayEndAt cols none = Unit
MayEndAt cols (some logr) = IsAt cols logr

show_end-EndsAt :
    (cols i : ℕ) (logr : Logger)
    → 0 < cols
    → i < length logr.lines
    → EndsAt cols (show_end cols i logr)
unfolding show_end
show_end-EndsAt cols i logr h inside =
    let (line, found) = found_lem i logr.lines inside in
    let pos = line_size_pos cols line h in
    rw (EndsAt, line_size_at-found cols logr.lines i line found)
      (HasRow-found cols _ _ line found (omega (arith, pos)))

HasRow-first :
    (cols i : ℕ) (lines : List (List ℕ))
    → 0 < cols
    → i < length lines
    → HasRow cols 0 (get_elem? lines i)
HasRow-first cols i lines h inside =
    let (line, found) = found_lem i lines inside in
    HasRow-found cols 0 _ line found (line_size_pos cols line h)

no_other : (a b : Bool) → a ≡ false → b ≡ false → (a || b) ≡ true → ⊥
no_other true b f g h = cc
no_other false true f g h = cc
no_other false false f g h = cc

-- If the last row of a line is not that of the log, there is a line behind it.
line_behind :
    (cols i wrap : ℕ) (lines : List (List ℕ)) (line last : List ℕ)
    → get_elem? lines i ≡ some line
    → get_elem? lines (length lines - 1) ≡ some last
    → (ltb (i + 1) (length lines) || ltb (wrap + 1) (ui_logger_line_size cols last)) ≡ true
    → ltb (wrap + 1) (ui_logger_line_size cols line) ≡ false
    → i + 1 < length lines
line_behind cols i wrap lines line last found found_last further ends =
    elim (Bool-cases (ltb (i + 1) (length lines))) [
      | inl before ↦ ground (arith, before)
      | inr behind ↦
          let inside = inside_lem i lines line found in
          let same : length lines - 1 ≡ i = ground (arith, inside, behind) in
          let one : get_elem? lines i ≡ some last = rw (sym same) found_last in
          let equal : line ≡ last = cc in
          let sizes = ap (ui_logger_line_size cols) equal in
          let shut : ltb (wrap + 1) (ui_logger_line_size cols last) ≡ false = rw (sym sizes) ends in
          absurd (no_other _ _ behind shut further)
    ]

scroll_down-EndsAt :
    (win : LogWindow) (logr : Logger)
    → 0 < win.cols
    → IsAt win.cols logr
    → EndsAt win.cols (scroll_down win logr)
unfolding scroll_down
scroll_down-EndsAt win logr h at =
    let (line, found, within) = HasRow-line win.cols logr.i_wrap _ at in
    let inside = inside_lem logr.i_line logr.lines line found in
    let (last, found_last) = found_lem (length logr.lines - 1) logr.lines (omega (arith, inside)) in
    rw (line_size_at-found win.cols logr.lines (length logr.lines - 1) last found_last) (
      if_elim (EndsAt win.cols)
        (ltb (logr.i_line + 1) (length logr.lines)
          || ltb (logr.i_wrap + 1) (ui_logger_line_size win.cols last))
        (λ further. rw (line_size_at-found win.cols logr.lines logr.i_line line found) (
          if_elim (IsAt win.cols) (ltb (logr.i_wrap + 1) (ui_logger_line_size win.cols line))
            (λ same_line. HasRow-found win.cols _ _ line found (ground (arith, same_line)))
            (λ next_line. HasRow-first win.cols (logr.i_line + 1) logr.lines h (
              line_behind win.cols logr.i_line logr.i_wrap logr.lines line last found found_last
                further next_line))))
        (λ stays. at))

cut_some : (str rest : List ℕ) (s i : ℕ) → 0 < length (cut str rest s i)
unfolding cut
cut_some str [] s i = omega arith
cut_some str (ch ∷ rest) s i =
    let more = cut_some str rest (if ch == b'\n' then i + 1 else s) (i + 1) in
    if_elim (λ l. 0 < length l) (ch == b'\n')
      {x = take (i - s) (drop s str) ∷ cut str rest (if ch == b'\n' then i + 1 else s) (i + 1)}
      (λ newline. omega arith) (λ other. more)

-- In a defined window with columns, a logged text ends the log, and its last row ends what is shown.
pub log_wc-EndsAt :
    (win : LogWindow) (str : List ℕ) (logr : Logger)
    → win.is_defined ≡ true
    → 0 < win.cols
    → EndsAt win.cols (ui_logger_log_wc win str logr)
unfolding ui_logger_log_wc
log_wc-EndsAt win str logr defined h =
    let lines = cut (text str) (text str) 0 0 in
    let size = length-append logr.lines lines in
    let some_line = cut_some (text str) (text str) 0 0 in
    rw defined (
      show_end-EndsAt win.cols (length (logr.lines ++ lines) - 1)
        (record logr { lines = logr.lines ++ lines }) h (omega (arith, size, some_line)))

EndsAt-MayEndAt : (cols : ℕ) (result : Option Logger) → EndsAt cols result → MayEndAt cols result
EndsAt-MayEndAt cols none h = tt
EndsAt-MayEndAt cols (some logr) h = h

up_lem :
    (win : LogWindow) (logr : Logger) (stops : Option (ℕ × ℕ))
    → 0 < win.cols
    → IsAt win.cols logr
    → MayEndAt win.cols (
        stops >>= λ (stop_li, stop_wi).
        if leb stop_li logr.i_line || leb stop_wi logr.i_wrap
        then (if ltb 0 logr.i_wrap
            then some (record logr { i_wrap = logr.i_wrap - 1 })
            else if logr.i_line == 0
            then none
            else show_end win.cols (logr.i_line - 1) logr)
        else some logr)
up_lem win logr none h at = tt
up_lem win logr (some (li, wi)) h at =
    let (line, found, within) = HasRow-line win.cols logr.i_wrap _ at in
    let inside = inside_lem logr.i_line logr.lines line found in
    if_elim (MayEndAt win.cols) (leb li logr.i_line || leb wi logr.i_wrap)
      (λ further.
        if_elim (MayEndAt win.cols) (ltb 0 logr.i_wrap)
          (λ same_line. HasRow-found win.cols _ _ line found (omega (arith, within)))
          (λ line_before.
            if_elim (MayEndAt win.cols) (logr.i_line == 0) (λ first. tt)
              (λ other.
                EndsAt-MayEndAt win.cols (show_end win.cols (logr.i_line - 1) logr)
                  (show_end-EndsAt win.cols (logr.i_line - 1) logr h (omega (arith, inside))))))
      (λ stays. at)

scroll_up-MayEndAt :
    (win : LogWindow) (logr : Logger)
    → 0 < win.cols
    → IsAt win.cols logr
    → MayEndAt win.cols (scroll_up win logr)
unfolding scroll_up
scroll_up-MayEndAt win logr h at = up_lem win logr _ h at

-- From a row of the log, in a window with columns, scrolling down leads to a row of the log; and so
-- does scrolling up when the code reads no line that the log does not have.
pub input-EndsAt :
    (win : LogWindow) (logr : Logger)
    → 0 < win.cols
    → IsAt win.cols logr
    → EndsAt win.cols (ui_logger_input_cb win key_down logr)
      × MayEndAt win.cols (ui_logger_input_cb win key_up logr)
unfolding ui_logger_input_cb
input-EndsAt win logr h at = (scroll_down-EndsAt win logr h at, scroll_up-MayEndAt win logr h at)
