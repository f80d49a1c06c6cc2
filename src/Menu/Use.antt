-- ===== src/Menu/Use.antt =====
-- What a window does with its menu, in any order, and what it then shows.
use deep_messenger.Prelude.{
  ◌⊎◌, inl, inr, ap, ◌∙◌, length-append, if_elim, ℕ, zero, suc, ◌≡◌, refl, ◌+◌, ◌-◌, ◌<◌, ◌==◌,
  Bool, true, Option, none, some, List, [], ◌∷◌, take, drop, length, get_elem?, if◌then◌else◌,
  arith,
}
use mathlib.Core.Path.{subst}
use deep_messenger.Menu.{
  Menu, MenuItem, MenuKey, n_items, find_item, relabel, update_at, remove_at, ui_menu_new,
  ui_menu_add, ui_menu_item_update, ui_menu_remove, ui_menu_draw_cb, ui_menu_input_cb, shown,
  key_up, key_down, other_key, new_line, other_char, fix_viewport,
}
use deep_messenger.Menu.Viewport.{
  IsValid, IsShown, cursor_up-IsValid, cursor_down-IsValid, fix_viewport-IsShown,
}

-- A menu that the calls of this file's operations lead to. The window may have another number of
-- rows at each call, but has some.
pub data Reached {C : Type 0} (mbstowcs : List ℕ → List ℕ) : Menu C → Type 0 where
  made : Reached mbstowcs ui_menu_new
  added :
      {menu : Menu C} (id : ℕ) (label : List ℕ) (cb : Option C)
      → Reached mbstowcs menu
      → Reached mbstowcs (ui_menu_add mbstowcs id label cb menu)
  updated :
      {menu after : Menu C} (id : ℕ) (label : List ℕ)
      → Reached mbstowcs menu
      → ui_menu_item_update mbstowcs id label menu ≡ some after
      → Reached mbstowcs after
  removed :
      {menu after : Menu C} (id : ℕ)
      → Reached mbstowcs menu
      → ui_menu_remove id menu ≡ some after
      → Reached mbstowcs after
  drawn :
      {menu : Menu C} (rows cols : ℕ)
      → 0 < rows
      → Reached mbstowcs menu
      → Reached mbstowcs (ui_menu_draw_cb rows cols menu).0
  pressed :
      {menu after : Menu C} {called : Option C} (rows cols : ℕ) (key : MenuKey)
      → 0 < rows
      → Reached mbstowcs menu
      → ui_menu_input_cb rows cols key menu ≡ some (called, after)
      → Reached mbstowcs after

length-relabel :
    {C : Type 0} (i : ℕ) (label : List ℕ) (items : List (MenuItem C))
    → length (relabel i label items) ≡ length items
unfolding relabel
length-relabel i label [] = refl
length-relabel zero label (item ∷ items) = refl
length-relabel (suc i) label (item ∷ items) = rw (length-relabel i label items)

-- Of a call that faults, nothing is said.
abbrev Keeps : {C : Type 0} → Option (Menu C) → Type 0
Keeps none = Unit
Keeps (some menu) = IsValid menu

abbrev Answers : {C : Type 0} → Option (Option C × Menu C) → Type 0
Answers none = Unit
Answers (some (called, menu)) = IsValid menu

module _ {C : Type 0} where
  add-IsValid :
      (mbstowcs : List ℕ → List ℕ) (id : ℕ) (label : List ℕ) (cb : Option C) {menu : Menu C}
      → IsValid menu
      → IsValid (ui_menu_add mbstowcs id label cb menu)
  unfolding ui_menu_add
  add-IsValid mbstowcs id label cb {menu} v = record {
    on_item =
        let size =
          length-append menu.items
            (record { id = id; label = take 62 (mbstowcs label); select_cb = cb } ∷ []) in
        ground (arith, size);
    starts = v.starts;
  }

  update-Keeps :
      (mbstowcs : List ℕ → List ℕ) (id : ℕ) (label : List ℕ) {menu : Menu C}
      → IsValid menu
      → Keeps (ui_menu_item_update mbstowcs id label menu)
  unfolding ui_menu_item_update update_at
  update-Keeps mbstowcs id label {menu} v =
      elim (find_item id menu.items_alloc menu.items 0)
        as (λ found.
          Keeps (elim found [ none ↦ none | some i ↦ some (update_at mbstowcs label i menu) ])) [
            | none ↦ tt
            | some i ↦ record {
              on_item = rw (length-relabel i (take 62 (mbstowcs label)) menu.items) v.on_item;
              starts = v.starts;
            }
          ]

  remove-Keeps : (id : ℕ) {menu : Menu C} → IsValid menu → Keeps (ui_menu_remove id menu)
  unfolding ui_menu_remove remove_at
  remove-Keeps id {menu} v =
      elim (find_item id menu.items_alloc menu.items 0)
        as (λ found. Keeps (elim found [ none ↦ none | some i ↦ some (remove_at i menu) ])) [
          | none ↦ tt
          | some i ↦
              if_elim IsValid (i == n_items menu) (λ same. v)
                (λ other. record { on_item = ground arith; starts = omega arith })
        ]

  input-Answers :
      (rows cols : ℕ) (key : MenuKey) {menu : Menu C}
      → 0 < rows
      → IsValid menu
      → Answers (ui_menu_input_cb rows cols key menu)
  unfolding ui_menu_input_cb ui_menu_draw_cb
  input-Answers rows cols new_line {menu} h v =
      elim (get_elem? menu.items menu.cursor)
        as (λ item. Answers (elim item [ none ↦ none | some item ↦ some (item.select_cb, menu) ])) [
          | none ↦ tt
          | some item ↦ v
        ]
  input-Answers rows cols other_char h v = v
  input-Answers rows cols key_up h v = (fix_viewport-IsShown rows h (cursor_up-IsValid v)).valid
  input-Answers rows cols key_down h v =
      (fix_viewport-IsShown rows h (cursor_down-IsValid rows h v)).valid
  input-Answers rows cols other_key h v = (fix_viewport-IsShown rows h v).valid

  Reached-IsValid :
      {mbstowcs : List ℕ → List ℕ} {menu : Menu C} → Reached mbstowcs menu → IsValid menu
  unfolding ui_menu_new ui_menu_draw_cb
  Reached-IsValid made = record { on_item = omega arith; starts = omega arith }
  Reached-IsValid (added id label cb r) = add-IsValid _ id label cb (Reached-IsValid r)
  Reached-IsValid (updated id label r eq) =
      subst Keeps eq (update-Keeps _ id label (Reached-IsValid r))
  Reached-IsValid (removed id r eq) = subst Keeps eq (remove-Keeps id (Reached-IsValid r))
  Reached-IsValid (drawn rows cols h r) = (fix_viewport-IsShown rows h (Reached-IsValid r)).valid
  Reached-IsValid (pressed rows cols key h r eq) =
      subst Answers eq (input-Answers rows cols key h (Reached-IsValid r))

  -- What is drawn for the item at `k` places from the first.
  abbrev drawn_item : (cols : ℕ) → Option (MenuItem C) → Option (Bool × List ℕ)
  drawn_item cols none = none
  drawn_item cols (some item) = some (true, take (cols - 4) item.label)

  shown-cursor :
      (rows cols i cursor k : ℕ) (items : List (MenuItem C))
      → k < rows
      → i + k ≡ cursor
      → get_elem? (shown rows cols i cursor items) k ≡ drawn_item cols (get_elem? items k)
  unfolding shown
  shown-cursor zero cols i cursor k items h eq = absurd (omega arith)
  shown-cursor (suc rows) cols i cursor k [] h eq = refl
  shown-cursor (suc rows) cols i cursor zero (item ∷ items) h eq =
      let same : (i == cursor) ≡ true = ground arith in rw same
  shown-cursor (suc rows) cols i cursor (suc k) (item ∷ items) h eq =
      shown-cursor rows cols (i + 1) cursor k items (omega arith) (omega arith)

  get_elem?-drop :
      (n k j : ℕ) (xs : List (MenuItem C)) → j ≡ n + k → get_elem? (drop n xs) k ≡ get_elem? xs j
  get_elem?-drop zero k j xs eq = let same : j ≡ k = omega arith in rw same
  get_elem?-drop (suc n) k j [] eq = refl
  get_elem?-drop (suc n) k zero (x ∷ xs) eq = absurd (omega arith)
  get_elem?-drop (suc n) k (suc j) (x ∷ xs) eq = get_elem?-drop n k j xs (omega arith)

  item_or_none : (menu : Menu C) → IsValid menu → (n_items menu ≡ 0) ⊎ (menu.cursor < n_items menu)
  item_or_none menu v =
      elim menu.items
          as (λ items.
            menu.cursor < length items + (if length items == 0 then 1 else 0)
            → (length items ≡ 0) ⊎ (menu.cursor < length items)) [
              | [] ↦ λ h. inl refl
              | item ∷ items ↦ λ h. inr (ground (arith, h))
            ]
        v.on_item

  -- The selected item is on one of the rows, marked, and there is one unless the menu has none.
  abbrev pub ShowsSelected : (rows cols : ℕ) → Menu C → Type 0
  ShowsSelected rows cols menu =
      let drawing = ui_menu_draw_cb rows cols menu in
      let row = drawing.0.cursor - drawing.0.display_start in
      (get_elem? drawing.1 row ≡ drawn_item cols (get_elem? menu.items menu.cursor))
      × (row < rows)
      × ((n_items menu ≡ 0) ⊎ (menu.cursor < n_items menu))

  -- Whatever was done with a menu before, in windows that had rows, it is drawn on any number of
  -- rows but none so that the selected item is on one of them, marked as selected; and an item is
  -- selected unless the menu has none.
  pub Reached-ShowsSelected :
      {mbstowcs : List ℕ → List ℕ} {menu : Menu C} (rows cols : ℕ)
      → 0 < rows
      → Reached mbstowcs menu
      → ShowsSelected rows cols menu
  unfolding ui_menu_draw_cb
  Reached-ShowsSelected {menu = menu} rows cols h r =
      let v = Reached-IsValid r in
      let fixed = fix_viewport rows menu in
      let s : IsShown rows fixed = fix_viewport-IsShown rows h v in
      let k = fixed.cursor - fixed.display_start in
      let place : menu.cursor ≡ fixed.display_start + k = omega (arith, s.valid.starts) in
      (
        shown-cursor rows cols fixed.display_start fixed.cursor k
              (drop fixed.display_start menu.items) (omega (arith, s.within, s.valid.starts))
              (omega (arith, s.valid.starts))
            ∙ ap (drawn_item cols)
                (get_elem?-drop fixed.display_start k menu.cursor menu.items place),
        omega (arith, s.within, s.valid.starts),
        item_or_none menu v,
      )
