-- ===== src/Tests/Menus.antt =====
-- A menu of three items on a window of two rows.
use deep_messenger.Prelude.{ℕ, ◌≡◌, refl, false, true, none, some, [], ◌∷◌, arith}
use deep_messenger.Menu.{
  Menu, ui_menu_new, ui_menu_add, ui_menu_input_cb, ui_menu_draw_cb, key_down, new_line,
}
use deep_messenger.Menu.Use.{Reached, made, added, pressed, Reached-ShowsSelected, ShowsSelected}

abbrev three_items : Menu ℕ
three_items =
    ui_menu_add (λ text. text) 3 (99 ∷ []) (some 30)
      (ui_menu_add (λ text. text) 2 (98 ∷ []) none
        (ui_menu_add (λ text. text) 1 (97 ∷ []) (some 10) ui_menu_new))

three_items-Reached : Reached (λ text. text) three_items
three_items-Reached =
    added 3 (99 ∷ []) (some 30) (added 2 (98 ∷ []) none (added 1 (97 ∷ []) (some 10) made))

-- Down twice.
abbrev down : Menu ℕ → Menu ℕ
down menu = elim (ui_menu_input_cb 2 10 key_down menu) [ none ↦ menu | some out ↦ out.1 ]

last_selected-Reached : Reached (λ text. text) (down (down three_items))
unfolding ui_menu_add ui_menu_input_cb ui_menu_new
last_selected-Reached =
    pressed 2 10 key_down (omega arith)
      (pressed {after = down three_items} 2 10 key_down (omega arith) three_items-Reached refl) refl

last_selected :
    (ui_menu_draw_cb 2 10 (down (down three_items))).1 ≡ (false, 98 ∷ []) ∷ (true, 99 ∷ []) ∷ []
unfolding ui_menu_add ui_menu_input_cb ui_menu_new ui_menu_draw_cb
last_selected = refl

chosen :
    ui_menu_input_cb 2 10 new_line (down (down three_items))
    ≡ some (some 30, down (down three_items))
unfolding ui_menu_add ui_menu_input_cb ui_menu_new
chosen = refl

selected_example : ShowsSelected 2 10 (down (down three_items))
selected_example = Reached-ShowsSelected 2 10 (omega arith) last_selected-Reached
