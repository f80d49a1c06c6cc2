-- ===== src/Stack.antt =====
-- ui_stack.c: the windows of the screen, one over the other, of which the one on top is selected.
-- A window is its address, and whether it is selected is a field of it that all who hold the
-- address share. `wins` is from the top down. The outcome none is a read of `wins[-1]`.
pub mod Top
use deep_messenger.Prelude.{
  ℕ, ◌+◌, Bool, true, false, Option, none, some, List, [], ◌∷◌, ◌++◌, ◌==◌, ltb, length,
  if◌then◌else◌,
}

pub record Stack : Type 0 where
  pub wins : List ℕ
  pub selected : ℕ → Bool

-- What a call returns, how it leaves the stack, and the windows that it draws, in order.
pub record Called (A : Type 0) : Type 0 where
  pub returned : A
  pub stack : Stack
  pub drawn : List ℕ

abbrev pub ui_stack_max_windows : ℕ
ui_stack_max_windows = 32

unfoldable pub ui_stack_new : Stack
ui_stack_new = record { wins = []; selected = λ w. false }

unfoldable pub set_selected : ℕ → Bool → (ℕ → Bool) → ℕ → Bool
set_selected win b selected w = if w == win then b else selected w

unfoldable pub unselect : ℕ → (ℕ → Bool) → ℕ → Bool
unfolding set_selected
unselect win selected = if selected win then set_selected win false selected else selected

-- From the bottom up.
unfoldable pub unselect_all : List ℕ → (ℕ → Bool) → ℕ → Bool
unfolding unselect
unselect_all [] selected = selected
unselect_all (win ∷ wins) selected = unselect win (unselect_all wins selected)

-- The windows that are defined, from the bottom up.
unfoldable pub redrawn : (is_defined : ℕ → Bool) → List ℕ → List ℕ
redrawn is_defined [] = []
redrawn is_defined (win ∷ wins) =
    redrawn is_defined wins ++ (if is_defined win then win ∷ [] else [])

-- `win` is none for a null pointer. What is returned is 0 if the window is on the stack.
unfoldable pub ui_stack_push : (is_defined : ℕ → Bool) → Option ℕ → Stack → Called ℕ
unfolding unselect_all set_selected redrawn
ui_stack_push is_defined none stack = record { returned = 1; stack = stack; drawn = [] }
ui_stack_push is_defined (some win) stack =
    if length stack.wins == ui_stack_max_windows
    then record { returned = 1; stack = stack; drawn = [] }
    else record {
      returned = 0;
      stack = record {
        wins = win ∷ stack.wins;
        selected = unselect_all stack.wins (set_selected win true stack.selected);
      };
      drawn = redrawn is_defined (win ∷ stack.wins);
    }

-- The window that is taken, or none for a null pointer.
unfoldable pub take_top : (is_defined : ℕ → Bool) → List ℕ → (ℕ → Bool) → Option (Called (Option ℕ))
unfolding unselect set_selected redrawn
take_top is_defined [] selected =
    some (record { returned = none; stack = record { wins = []; selected = selected }; drawn = [] })
take_top is_defined (top ∷ []) selected = none
take_top is_defined (top ∷ (below ∷ wins)) selected = some (record {
  returned = some top;
  stack = record {
    wins = below ∷ wins;
    selected = set_selected below true (unselect top selected);
  };
  drawn = redrawn is_defined (below ∷ wins);
})

unfoldable pub ui_stack_pop : (is_defined : ℕ → Bool) → Stack → Option (Called (Option ℕ))
unfolding take_top
ui_stack_pop is_defined stack = take_top is_defined stack.wins stack.selected

unfoldable pub ui_stack_redraw : (is_defined : ℕ → Bool) → Stack → List ℕ
unfolding redrawn
ui_stack_redraw is_defined stack = redrawn is_defined stack.wins

-- The window that a character is passed on to, and the one that is freed.
pub data Handled : Type 0 where
  dropped : Handled
  passed_on : ℕ → Handled
  freed : Option ℕ → Handled

abbrev pub escape : ℕ
escape = 27

unfoldable pub pass_on : List ℕ → Handled
pass_on [] = dropped
pass_on (win ∷ wins) = passed_on win

unfoldable pub ui_stack_handle_input :
    (is_defined : ℕ → Bool) → ℕ → Stack → Option (Handled × Stack)
unfolding ui_stack_pop pass_on
ui_stack_handle_input is_defined ch stack =
    if length stack.wins == 0
    then some (dropped, stack)
    else if ch == escape
    then (if ltb 1 (length stack.wins)
        then elim (ui_stack_pop is_defined stack) [
          | none ↦ none
          | some popped ↦ some (freed popped.returned, popped.stack)
        ]
        else some (dropped, stack))
    else some (pass_on stack.wins, stack)
