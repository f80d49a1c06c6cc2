-- ===== src/Menu/Viewport.antt =====
-- The selected item is one of the menu's and is shown.
use deep_messenger.Prelude.{ℕ, ◌+◌, ◌<◌, ◌≤◌, ◌==◌, if◌then◌else◌, arith}
use deep_messenger.Menu.{Menu, n_items, cursor_up, cursor_down, fix_viewport}

module _ {C : Type 0} where
  -- The cursor is on an item, or on the place of the first if there is none; what is shown begins at
  -- the cursor or before it.
  pub record IsValid (menu : Menu C) : Type 0 where
    pub on_item : menu.cursor < n_items menu + (if n_items menu == 0 then 1 else 0)
    pub starts : menu.display_start ≤ menu.cursor

  pub record IsShown (rows : ℕ) (menu : Menu C) : Type 0 where
    pub valid : IsValid menu
    pub within : menu.cursor < menu.display_start + rows

  pub cursor_up-IsValid : {menu : Menu C} → IsValid menu → IsValid (cursor_up menu)
  unfolding cursor_up
  cursor_up-IsValid v = ground arith

  pub cursor_down-IsValid :
      {menu : Menu C} (rows : ℕ) → 0 < rows → IsValid menu → IsValid (cursor_down rows menu)
  unfolding cursor_down
  cursor_down-IsValid rows h v = ground arith

  pub fix_viewport-IsShown :
      {menu : Menu C} (rows : ℕ) → 0 < rows → IsValid menu → IsShown rows (fix_viewport rows menu)
  unfolding fix_viewport
  fix_viewport-IsShown rows h v = ground arith
