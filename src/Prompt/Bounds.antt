-- ===== src/Prompt/Bounds.antt =====
-- The prompt's indices stay within its buffer and on its line.
use deep_messenger.Prelude.{
  ℕ, zero, suc, ◌+◌, ◌-◌, ◌==◌, ◌≡◌, ◌≤◌, Bool, true, not, ◌&&◌, List, [], ◌∷◌, ltb, set, get_or,
  length, if_elim, arith, ap, refl, ltb→lt,
}
use deep_messenger.Prompt.{
  Prompt, Key, key_backspace, key_dc, key_left, key_right, key_home, key_end, other_key, char,
  buffer_size, close_gap, open_gap, backspace, delete_char, insert_char, type_char, edit,
  show_right, show_left, ui_prompt_input_cb,
}

-- The cursor is within the text, and the text and its end mark fit in the buffer.
abbrev pub IsValid : Prompt → Type 0
IsValid prt =
    (prt.ch_cursor ≤ prt.buffer_len)
    × (prt.buffer_len ≤ buffer_size)
    × (length prt.input_buffer ≡ buffer_size + 1)

-- The cursor is shown.
abbrev pub IsShown : ℕ → Prompt → Type 0
IsShown room prt = (prt.display_start ≤ prt.ch_cursor) × (prt.ch_cursor ≤ prt.display_start + room)

length-set : (xs : List ℕ) (i x : ℕ) → length (set xs i x) ≡ length xs
length-set [] i x = refl
length-set (y ∷ xs) zero x = refl
length-set (y ∷ xs) (suc i) x = ap suc (length-set xs i x)

length-close_gap : (n i : ℕ) (buffer : List ℕ) → length (close_gap n i buffer) ≡ length buffer
unfolding close_gap
length-close_gap zero i buffer = refl
length-close_gap (suc n) i buffer =
    let rest = length-close_gap n (i + 1) (set buffer (i - 1) (get_or buffer i 0)) in
    let one = length-set buffer (i - 1) (get_or buffer i 0) in omega (arith, rest, one)

length-open_gap : (n c : ℕ) (buffer : List ℕ) → length (open_gap n c buffer) ≡ length buffer
unfolding open_gap
length-open_gap zero c buffer = refl
length-open_gap (suc n) c buffer =
    let rest = length-open_gap n c (set buffer (c + n + 1) (get_or buffer (c + n) 0)) in
    let one = length-set buffer (c + n + 1) (get_or buffer (c + n) 0) in omega (arith, rest, one)

insert_char-IsValid :
    (ch : ℕ) (prt : Prompt)
    → IsValid prt
    → ltb prt.buffer_len buffer_size ≡ true
    → IsValid (insert_char ch prt)
unfolding insert_char
insert_char-IsValid ch prt (c, l, b) room =
    let opened = length-open_gap (prt.buffer_len - prt.ch_cursor) prt.ch_cursor prt.input_buffer in
    let written =
      length-set (open_gap (prt.buffer_len - prt.ch_cursor) prt.ch_cursor prt.input_buffer)
        prt.ch_cursor ch in
    (omega arith, ground arith, omega (arith, opened, written))

type_char-IsValid :
    (is_control : ℕ → Bool) (ch : ℕ) (prt : Prompt)
    → IsValid prt
    → IsValid (type_char is_control ch prt)
unfolding type_char
type_char-IsValid is_control ch prt (c, l, b) =
    if_elim IsValid (ch == 12) (λ _. (omega arith, omega arith, b))
      (λ _.
        if_elim IsValid (ch == 10)
          (λ _. (
            c,
            l,
            (let written = length-set prt.input_buffer prt.buffer_len 0 in omega (arith, written)),
          ))
          (λ _.
            if_elim IsValid (ch == 13) {x = prt} (λ _. (c, l, b))
              (λ _.
                if_elim IsValid (ltb prt.buffer_len buffer_size && not (is_control ch)) {y = prt}
                  (λ fits. insert_char-IsValid ch prt (c, l, b) (ground arith)) (λ _. (c, l, b)))))

backspace-IsValid : (prt : Prompt) → IsValid prt → IsValid (backspace prt)
unfolding backspace
backspace-IsValid prt (c, l, b) =
    if_elim IsValid (ltb 0 prt.ch_cursor) {y = prt}
      (λ e.
        let closed =
          length-close_gap (prt.buffer_len - prt.ch_cursor) prt.ch_cursor prt.input_buffer in
        (omega arith, omega arith, omega (arith, closed)))
      (λ _. (c, l, b))

delete_char-IsValid : (prt : Prompt) → IsValid prt → IsValid (delete_char prt)
unfolding delete_char
delete_char-IsValid prt (c, l, b) =
    if_elim IsValid (ltb prt.ch_cursor prt.buffer_len) {y = prt}
      (λ less.
        let closed =
          length-close_gap (prt.buffer_len - 1 - prt.ch_cursor) (prt.ch_cursor + 1)
            prt.input_buffer in
        let inside = ltb→lt prt.ch_cursor prt.buffer_len less in
        (omega (arith, inside), omega arith, omega (arith, closed)))
      (λ _. (c, l, b))

edit-IsValid :
    (is_control : ℕ → Bool) (key : Key) (prt : Prompt)
    → IsValid prt
    → IsValid (edit is_control key prt)
unfolding edit
edit-IsValid is_control key_backspace prt h = backspace-IsValid prt h
edit-IsValid is_control key_dc prt h = delete_char-IsValid prt h
edit-IsValid is_control key_left prt (c, l, b) =
    if_elim IsValid (ltb 0 prt.ch_cursor) {y = prt} (λ _. (omega arith, l, b)) (λ _. (c, l, b))
edit-IsValid is_control key_right prt (c, l, b) =
    if_elim IsValid (ltb prt.ch_cursor prt.buffer_len) {y = prt} (λ less. (ground arith, l, b))
      (λ _. (c, l, b))
edit-IsValid is_control key_home prt (c, l, b) = (omega arith, l, b)
edit-IsValid is_control key_end prt (c, l, b) = (omega arith, l, b)
edit-IsValid is_control other_key prt h = h
edit-IsValid is_control (char ch) prt h = type_char-IsValid is_control ch prt h

show_left-IsShown :
    (room : ℕ) (prt : Prompt)
    → IsValid prt
    → prt.ch_cursor ≤ prt.display_start + room
    → IsValid (show_left prt) × IsShown room (show_left prt)
show_left-IsShown room prt h right =
    if_elim (λ q. IsValid q × IsShown room q) (ltb prt.ch_cursor prt.display_start) {y = prt}
      (λ _. (h, (omega arith, omega arith))) (λ e. (h, (ground arith, right)))

show_right-IsShown :
    (room : ℕ) (prt : Prompt)
    → IsValid prt
    → IsValid (show_left (show_right room prt)) × IsShown room (show_left (show_right room prt))
show_right-IsShown room prt h =
    if_elim (λ q. IsValid (show_left q) × IsShown room (show_left q))
      (ltb (prt.display_start + room) prt.ch_cursor) {y = prt}
      (λ _.
        show_left-IsShown room (record prt { display_start = prt.ch_cursor - room }) h
          (omega arith))
      (λ e. show_left-IsShown room prt h (ground arith))

-- Whatever key is pressed, the cursor stays within the text, the text and its end mark stay within
-- the buffer, and the cursor is within the shown part of the line afterwards.
pub ui_prompt_input_cb-IsValid :
    (is_control : ℕ → Bool) (room : ℕ) (key : Key) (prt : Prompt)
    → IsValid prt
    → IsValid (ui_prompt_input_cb is_control room key prt)
      × IsShown room (ui_prompt_input_cb is_control room key prt)
unfolding ui_prompt_input_cb
ui_prompt_input_cb-IsValid is_control room key prt h =
    let q = edit is_control key prt in
    let valid : IsValid q = edit-IsValid is_control key prt h in
    if_elim
      (λ q. IsValid (show_left (show_right room q)) × IsShown room (show_left (show_right room q)))
      (ltb room q.buffer_len && ltb q.buffer_len (q.display_start + room)) {y = q}
      (λ _. show_right-IsShown room (record q { display_start = q.buffer_len - room }) valid)
      (λ _. show_right-IsShown room q valid)
