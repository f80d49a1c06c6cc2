-- ===== src/Stack/Top.antt =====
-- The window on top, and no other, is selected.
use deep_messenger.Prelude.{
  ℕ, ◌≡◌, refl, ◌∙◌, ◌≤◌, ◌==◌, ==_refl, Bool, true, false, Option, none, some, List, [], ◌∷◌, All,
  length, ltb, arith, if_elim,
}
use mathlib.Core.Path.{subst}
use deep_messenger.Stack.{
  Stack, Called, Handled, escape, freed, ui_stack_new, ui_stack_max_windows, set_selected, unselect,
  unselect_all, ui_stack_push, take_top, ui_stack_pop, ui_stack_handle_input,
}

abbrev pub Differs : ℕ → ℕ → Type 0
Differs w v = (v == w) ≡ false

abbrev IsOff : (ℕ → Bool) → ℕ → Type 0
IsOff selected w = selected w ≡ false

-- No window is on the stack twice.
abbrev pub Distinct : List ℕ → Type 0
Distinct [] = Unit
Distinct (w ∷ ws) = All (Differs w) ws × Distinct ws

abbrev pub TopOnly : List ℕ → (ℕ → Bool) → Type 0
TopOnly [] selected = Unit
TopOnly (top ∷ wins) selected = (selected top ≡ true) × All (IsOff selected) wins

pub record IsValid (stack : Stack) : Type 0 where
  pub distinct : Distinct stack.wins
  pub top_only : TopOnly stack.wins stack.selected
  pub has_room : length stack.wins ≤ ui_stack_max_windows

unselect-IsOff :
    (w v : ℕ) (selected : ℕ → Bool) → selected v ≡ false → unselect w selected v ≡ false
unfolding unselect set_selected
unselect-IsOff w v selected off =
    if_elim (λ s. s v ≡ false) (selected w) {x = set_selected w false selected} {y = selected}
      (λ on.
        if_elim (λ b. b ≡ false) (v == w) {x = false} {y = selected v} (λ same. refl)
          (λ other. off))
      (λ off_already. off)

unselect-same : (w : ℕ) (selected : ℕ → Bool) → unselect w selected w ≡ false
unfolding unselect set_selected
unselect-same w selected =
    if_elim (λ s. s w ≡ false) (selected w) {x = set_selected w false selected} {y = selected}
      (λ on. rw (==_refl w)) (λ off. off)

unselect-other :
    (w v : ℕ) (selected : ℕ → Bool) → (v == w) ≡ false → unselect w selected v ≡ selected v
unfolding unselect set_selected
unselect-other w v selected other =
    if_elim (λ s. s v ≡ selected v) (selected w) {x = set_selected w false selected} {y = selected}
      (λ on. rw other) (λ off. refl)

All-imp : (P Q : ℕ → Type 0) (ws : List ℕ) → ((w : ℕ) → P w → Q w) → All P ws → All Q ws
All-imp P Q [] f h = tt
All-imp P Q (w ∷ ws) f (h, hs) = (f w h, All-imp P Q ws f hs)

All-IsOff : (ws : List ℕ) (selected : ℕ → Bool) → All (IsOff (unselect_all ws selected)) ws
unfolding unselect_all
All-IsOff [] selected = tt
All-IsOff (w ∷ ws) selected = (
  unselect-same w (unselect_all ws selected),
  All-imp (IsOff (unselect_all ws selected)) (IsOff (unselect w (unselect_all ws selected))) ws
      (λ v off. unselect-IsOff w v (unselect_all ws selected) off) (All-IsOff ws selected),
)

-- A window that is not on the stack stays as it is.
unselect_all-other :
    (w : ℕ) (ws : List ℕ) (selected : ℕ → Bool)
    → All (Differs w) ws
    → unselect_all ws selected w ≡ selected w
unfolding unselect_all
unselect_all-other w [] selected h = refl
unselect_all-other w (v ∷ ws) selected (h, hs) =
    let other : (w == v) ≡ false = ground (arith, h) in
    unselect-other v w (unselect_all ws selected) other ∙ unselect_all-other w ws selected hs

push-IsValid :
    (is_defined : ℕ → Bool) (w : ℕ) (stack : Stack)
    → All (Differs w) stack.wins
    → IsValid stack
    → IsValid (ui_stack_push is_defined (some w) stack).stack
unfolding ui_stack_push set_selected
push-IsValid is_defined w stack new v =
    if_elim (λ called. IsValid (Called.stack {A = ℕ} called))
      (length stack.wins == ui_stack_max_windows) (λ full. v)
      (λ room. record {
        distinct = (new, v.distinct);
        top_only = (
          unselect_all-other w stack.wins (set_selected w true stack.selected) new ∙ rw (==_refl w),
          All-IsOff stack.wins (set_selected w true stack.selected),
        );
        has_room = ground (arith, v.has_room);
      })

-- Of a call that faults, nothing is said.
abbrev Keeps : Option (Called (Option ℕ)) → Type 0
Keeps none = Unit
Keeps (some called) = IsValid called.stack

All-imp2 :
    (P Q R : ℕ → Type 0) (ws : List ℕ)
    → ((w : ℕ) → P w → Q w → R w)
    → All P ws
    → All Q ws
    → All R ws
All-imp2 P Q R [] f h k = tt
All-imp2 P Q R (w ∷ ws) f (h, hs) (k, ks) = (f w h k, All-imp2 P Q R ws f hs ks)

take_top-Keeps :
    (is_defined : ℕ → Bool) (wins : List ℕ) (selected : ℕ → Bool)
    → IsValid (record { wins = wins; selected = selected })
    → Keeps (take_top is_defined wins selected)
unfolding take_top set_selected
take_top-Keeps is_defined [] selected v = v
take_top-Keeps is_defined (top ∷ []) selected v = tt
take_top-Keeps is_defined (top ∷ (below ∷ wins)) selected v = record {
  distinct = v.distinct.1;
  top_only = (
    rw (==_refl below),
    All-imp2 (Differs below) (IsOff selected)
        (IsOff (set_selected below true (unselect top selected))) wins
        (λ w other off. rw other (unselect-IsOff top w selected off)) v.distinct.1.0 v.top_only.1.1,
  );
  has_room = omega (arith, v.has_room);
}

abbrev HandledKeeps : Option (Handled × Stack) → Type 0
HandledKeeps none = Unit
HandledKeeps (some handled) = IsValid handled.1

popped-HandledKeeps :
    (popped : Option (Called (Option ℕ)))
    → Keeps popped
    → HandledKeeps
        (elim popped [ none ↦ none | some called ↦ some (freed called.returned, called.stack) ])
popped-HandledKeeps none h = tt
popped-HandledKeeps (some called) h = h

handle_input-HandledKeeps :
    (is_defined : ℕ → Bool) (ch : ℕ) (stack : Stack)
    → IsValid stack
    → HandledKeeps (ui_stack_handle_input is_defined ch stack)
unfolding ui_stack_handle_input ui_stack_pop
handle_input-HandledKeeps is_defined ch stack v =
    if_elim HandledKeeps (length stack.wins == 0) (λ empty. v)
      (λ some_window.
        if_elim HandledKeeps (ch == escape)
          (λ closes.
            if_elim HandledKeeps (ltb 1 (length stack.wins))
              (λ two.
                popped-HandledKeeps (ui_stack_pop is_defined stack)
                  (take_top-Keeps is_defined stack.wins stack.selected v))
              (λ one. v))
          (λ other. v))

-- A stack that the calls lead to, with the windows that are defined at each, when no window is put
-- on a stack that it is on.
pub data Reached : Stack → Type 0 where
  made : Reached ui_stack_new
  pushed :
      {stack : Stack} (is_defined : ℕ → Bool) (w : ℕ)
      → All (Differs w) stack.wins
      → Reached stack
      → Reached (ui_stack_push is_defined (some w) stack).stack
  popped :
      {stack : Stack} {called : Called (Option ℕ)} (is_defined : ℕ → Bool)
      → Reached stack
      → ui_stack_pop is_defined stack ≡ some called
      → Reached called.stack
  handled :
      {stack : Stack} {result : Handled × Stack} (is_defined : ℕ → Bool) (ch : ℕ)
      → Reached stack
      → ui_stack_handle_input is_defined ch stack ≡ some result
      → Reached result.1

-- Whatever windows are put on a stack that they are not on, and taken off, the one on top is
-- selected and no other, none is there twice, and they are not more than there is room for.
pub Reached-IsValid : {stack : Stack} → Reached stack → IsValid stack
unfolding ui_stack_new ui_stack_pop
Reached-IsValid made = record { distinct = tt; top_only = tt; has_room = omega arith }
Reached-IsValid (pushed {stack} is_defined w new r) =
    push-IsValid is_defined w stack new (Reached-IsValid r)
Reached-IsValid (popped {stack} is_defined r eq) =
    subst Keeps eq (take_top-Keeps is_defined stack.wins stack.selected (Reached-IsValid r))
Reached-IsValid (handled {stack} is_defined ch r eq) =
    subst HandledKeeps eq (handle_input-HandledKeeps is_defined ch stack (Reached-IsValid r))
