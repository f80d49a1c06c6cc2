-- ===== src/Menu.antt =====
-- ui_menu.c: a menu of items, of which one is selected and as many are shown as the window has rows.
-- `items` are the items in use; `mbstowcs` stands for the C library's, and `C` for the callbacks
-- with what they are given. Where the code reads an item that the menu does not have, there is no
-- result.
pub mod Use
pub mod Viewport
use deep_messenger.Prelude.{
  ℕ, zero, suc, ◌+◌, ◌-◌, Bool, true, false, not, ◌&&◌, Option, none, some, List, [], ◌∷◌, ◌++◌,
  ◌==◌, ltb, leb, take, drop, length, get_elem?, if◌then◌else◌,
}

pub record MenuItem (C : Type 0) : Type 0 where
  pub id : ℕ
  pub label : List ℕ
  pub select_cb : Option C

pub record Menu (C : Type 0) : Type 0 where
  pub cursor : ℕ
  pub display_start : ℕ
  pub items_alloc : ℕ
  pub items : List (MenuItem C)

pub data MenuKey : Type 0 where
  key_up key_down other_key new_line other_char : MenuKey

abbrev pub menu_label_size : ℕ
menu_label_size = 63

abbrev pub menu_alloc_chunk : ℕ
menu_alloc_chunk = 8

-- Room for one more item. It is made at first, and grows by a chunk when it is full.
unfoldable pub menu_room : (alloc n : ℕ) → ℕ
menu_room alloc n =
    let first = if alloc == 0 then menu_alloc_chunk else alloc in
    if first == n then first + menu_alloc_chunk else first

module _ {C : Type 0} where
  unfoldable pub ui_menu_new : Menu C
  ui_menu_new = record { cursor = 0; display_start = 0; items_alloc = 0; items = [] }

  abbrev pub n_items : Menu C → ℕ
  n_items menu = length menu.items

  unfoldable pub ui_menu_add :
      (mbstowcs : List ℕ → List ℕ) → ℕ → List ℕ → Option C → Menu C → Menu C
  unfolding menu_room
  ui_menu_add mbstowcs id label cb menu = record menu {
    items_alloc = menu_room menu.items_alloc (n_items menu);
    items =
        menu.items
        ++ (record { id = id; label = take (menu_label_size - 1) (mbstowcs label); select_cb = cb }
            ∷ []);
  }

  -- The search reads the id before it compares the index, so it looks behind the last item; there
  -- is no memory if the room is full. The index is that of the item or, if none has the id, the
  -- number of the items.
  unfoldable pub find_item : ℕ → ℕ → List (MenuItem C) → ℕ → Option ℕ
  find_item id alloc [] i = if leb alloc i then none else some i
  find_item id alloc (item ∷ items) i =
      let rest = find_item id alloc items (i + 1) in if item.id == id then some i else rest

  unfoldable pub relabel : ℕ → List ℕ → List (MenuItem C) → List (MenuItem C)
  relabel i label [] = []
  relabel zero label (item ∷ items) = record item { label = label } ∷ items
  relabel (suc i) label (item ∷ items) = item ∷ relabel i label items

  unfoldable pub update_at : (mbstowcs : List ℕ → List ℕ) → List ℕ → ℕ → Menu C → Menu C
  unfolding relabel
  update_at mbstowcs label i menu = record menu {
    items = relabel i (take (menu_label_size - 1) (mbstowcs label)) menu.items;
  }

  unfoldable pub ui_menu_item_update :
      (mbstowcs : List ℕ → List ℕ) → ℕ → List ℕ → Menu C → Option (Menu C)
  unfolding find_item update_at
  ui_menu_item_update mbstowcs id label menu = elim (find_item id menu.items_alloc menu.items 0) [
    | none ↦ none
    | some i ↦ some (update_at mbstowcs label i menu)
  ]

  -- The items behind the one that goes move down by one.
  unfoldable pub remove_at : ℕ → Menu C → Menu C
  remove_at i menu = if i == n_items menu then menu else record menu {
    items = take i menu.items ++ drop (i + 1) menu.items;
    cursor = 0;
    display_start = 0;
  }

  unfoldable pub ui_menu_remove : ℕ → Menu C → Option (Menu C)
  unfolding find_item remove_at
  ui_menu_remove id menu = elim (find_item id menu.items_alloc menu.items 0) [
    | none ↦ none
    | some i ↦ some (remove_at i menu)
  ]

  unfoldable pub cursor_up : Menu C → Menu C
  cursor_up menu =
      if ltb 0 menu.cursor
      then record menu {
        cursor = menu.cursor - 1;
        display_start =
            if ltb (menu.cursor - 1) menu.display_start
            then menu.display_start - 1
            else menu.display_start;
      }
      else menu

  unfoldable pub cursor_down : ℕ → Menu C → Menu C
  cursor_down rows menu =
      if ltb (menu.cursor + 1) (n_items menu)
      then record menu {
        cursor = menu.cursor + 1;
        display_start =
            if leb (menu.display_start + rows) (menu.cursor + 1)
            then menu.display_start + 1
            else menu.display_start;
      }
      else menu

  -- Fixes the viewport before the items are drawn.
  unfoldable pub fix_viewport : ℕ → Menu C → Menu C
  fix_viewport rows menu =
      let start =
        if ltb 0 menu.display_start && ltb (n_items menu) (rows + menu.display_start)
        then 0
        else menu.display_start in
      record menu {
        display_start =
            if ltb (rows + start) (menu.cursor + 1) then menu.cursor + 1 - rows else start;
      }

  -- The items that are drawn, from the first row on, each with whether it is the selected one. The
  -- window has four columns at least.
  unfoldable pub shown : (rows cols i cursor : ℕ) → List (MenuItem C) → List (Bool × List ℕ)
  shown zero cols i cursor items = []
  shown (suc rows) cols i cursor [] = []
  shown (suc rows) cols i cursor (item ∷ items) =
      (i == cursor, take (cols - 4) item.label) ∷ shown rows cols (i + 1) cursor items

  unfoldable pub ui_menu_draw_cb : (rows cols : ℕ) → Menu C → Menu C × List (Bool × List ℕ)
  unfolding fix_viewport shown
  ui_menu_draw_cb rows cols menu =
      let fixed = fix_viewport rows menu in
      (
        fixed,
        shown rows cols fixed.display_start fixed.cursor (drop fixed.display_start fixed.items),
      )

  -- The callback that is called, and the menu, which a special key also draws.
  unfoldable pub ui_menu_input_cb : (rows cols : ℕ) → MenuKey → Menu C → Option (Option C × Menu C)
  unfolding cursor_up cursor_down ui_menu_draw_cb
  ui_menu_input_cb rows cols new_line menu = elim (get_elem? menu.items menu.cursor) [
    | none ↦ none
    | some item ↦ some (item.select_cb, menu)
  ]
  ui_menu_input_cb rows cols other_char menu = some (none, menu)
  ui_menu_input_cb rows cols key_up menu =
      some (none, (ui_menu_draw_cb rows cols (cursor_up menu)).0)
  ui_menu_input_cb rows cols key_down menu =
      some (none, (ui_menu_draw_cb rows cols (cursor_down rows menu)).0)
  ui_menu_input_cb rows cols other_key menu = some (none, (ui_menu_draw_cb rows cols menu).0)
