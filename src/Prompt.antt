-- ===== src/Prompt.antt =====
-- ui_prompt.c: the line editor of the prompt. A window of at least three columns is meant; `room`
-- is the width that is left for text, the window's columns less 3. `is_control` stands for
-- `iscntrl`, and the submit callback is only counted.
pub mod Bounds
use deep_messenger.Prelude.{
  ℕ, zero, suc, ◌+◌, ◌-◌, ◌==◌, Bool, true, false, not, ◌&&◌, List, [], ◌∷◌, ltb, if◌then◌else◌,
  set, get_or,
}

abbrev pub buffer_size : ℕ
buffer_size = 4095

pub record Prompt : Type 0 where
  pub ch_cursor : ℕ
  pub display_start : ℕ
  pub buffer_len : ℕ
  pub input_buffer : List ℕ
  pub submitted : ℕ

pub data Key : Type 0 where
  key_backspace key_dc key_left key_right key_home key_end other_key : Key
  char : ℕ → Key

-- `n` rounds of the loop that closes a gap: each character from `i` on moves down by one.
unfoldable pub close_gap : (n i : ℕ) → List ℕ → List ℕ
close_gap zero i buffer = buffer
close_gap (suc n) i buffer = close_gap n (i + 1) (set buffer (i - 1) (get_or buffer i 0))

-- `n` rounds of the loop that opens a gap at the cursor: each character moves up by one, the last
-- one first.
unfoldable pub open_gap : (n ch_cursor : ℕ) → List ℕ → List ℕ
open_gap zero ch_cursor buffer = buffer
open_gap (suc n) ch_cursor buffer =
    open_gap n ch_cursor (set buffer (ch_cursor + n + 1) (get_or buffer (ch_cursor + n) 0))

unfoldable pub backspace : Prompt → Prompt
unfolding close_gap
backspace prt =
    if ltb 0 prt.ch_cursor
    then record prt {
      input_buffer = close_gap (prt.buffer_len - prt.ch_cursor) prt.ch_cursor prt.input_buffer;
      ch_cursor = prt.ch_cursor - 1;
      buffer_len = prt.buffer_len - 1;
    }
    else prt

unfoldable pub delete_char : Prompt → Prompt
unfolding close_gap
delete_char prt =
    if ltb prt.ch_cursor prt.buffer_len
    then record prt {
      input_buffer =
          close_gap (prt.buffer_len - 1 - prt.ch_cursor) (prt.ch_cursor + 1) prt.input_buffer;
      buffer_len = prt.buffer_len - 1;
    }
    else prt

abbrev pub cleared : Prompt → Prompt
cleared prt = record prt { ch_cursor = 0; buffer_len = 0; display_start = 0 }

unfoldable pub insert_char : ℕ → Prompt → Prompt
unfolding open_gap
insert_char ch prt = record prt {
  input_buffer =
      set (open_gap (prt.buffer_len - prt.ch_cursor) prt.ch_cursor prt.input_buffer) prt.ch_cursor
        ch;
  ch_cursor = prt.ch_cursor + 1;
  buffer_len = prt.buffer_len + 1;
}

-- A character that is no special key. Control and L is 12, a new line 10 and a return 13.
unfoldable pub type_char : (is_control : ℕ → Bool) → ℕ → Prompt → Prompt
unfolding insert_char
type_char is_control ch prt =
    if ch == 12
    then cleared prt
    else if ch == 10
    then record prt {
      input_buffer = set prt.input_buffer prt.buffer_len 0;
      submitted = prt.submitted + 1;
    }
    else if ch == 13
    then prt
    else if ltb prt.buffer_len buffer_size && not (is_control ch)
    then insert_char ch prt
    else prt

unfoldable pub edit : (is_control : ℕ → Bool) → Key → Prompt → Prompt
unfolding backspace delete_char type_char
edit is_control key_backspace prt = backspace prt
edit is_control key_dc prt = delete_char prt
edit is_control key_left prt =
    if ltb 0 prt.ch_cursor then record prt { ch_cursor = prt.ch_cursor - 1 } else prt
edit is_control key_right prt =
    if ltb prt.ch_cursor prt.buffer_len then record prt { ch_cursor = prt.ch_cursor + 1 } else prt
edit is_control key_home prt = record prt { display_start = 0; ch_cursor = 0 }
edit is_control key_end prt = record prt { ch_cursor = prt.buffer_len }
edit is_control other_key prt = prt
edit is_control (char ch) prt = type_char is_control ch prt

-- The three adjustments of the part that is shown, their subtractions moved to the other side.
abbrev pub fill_room : (room : ℕ) → Prompt → Prompt
fill_room room prt =
    if ltb room prt.buffer_len && ltb prt.buffer_len (prt.display_start + room)
    then record prt { display_start = prt.buffer_len - room }
    else prt

abbrev pub show_right : (room : ℕ) → Prompt → Prompt
show_right room prt =
    if ltb (prt.display_start + room) prt.ch_cursor
    then record prt { display_start = prt.ch_cursor - room }
    else prt

abbrev pub show_left : Prompt → Prompt
show_left prt =
    if ltb prt.ch_cursor prt.display_start
    then record prt { display_start = prt.ch_cursor }
    else prt

unfoldable pub ui_prompt_input_cb : (is_control : ℕ → Bool) (room : ℕ) → Key → Prompt → Prompt
unfolding edit
ui_prompt_input_cb is_control room key prt =
    show_left (show_right room (fill_room room (edit is_control key prt)))

unfoldable pub ui_prompt_clear : Prompt → Prompt
ui_prompt_clear prt = cleared prt
