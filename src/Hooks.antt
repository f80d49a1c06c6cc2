-- ===== src/Hooks.antt =====
-- hooks.c: callbacks registered for events. A callback and its argument are numbers that stand
-- for the two pointers.
pub mod Order
use deep_messenger.Prelude.{ℕ, Bool, ◌&&◌, Option, none, some, List, [], ◌∷◌, ◌==◌, if◌then◌else◌}

pub record Hook : Type 0 where
  pub hook_event : ℕ
  pub cb : ℕ
  pub cbarg : ℕ

abbrev pub HookList : Type 0
HookList = List Hook

abbrev pub hook_list_new : HookList
hook_list_new = []

-- The walk to the last hook, and the write of its `next`.
unfoldable pub hook_add : HookList → ℕ → ℕ → ℕ → HookList
hook_add [] hevent cb cbarg = record { hook_event = hevent; cb = cb; cbarg = cbarg } ∷ []
hook_add (hk ∷ rest) hevent cb cbarg = hk ∷ hook_add rest hevent cb cbarg

unfoldable pub is_hook : Hook → ℕ → ℕ → ℕ → Bool
is_hook hk hevent cb cbarg = hk.hook_event == hevent && (hk.cb == cb && hk.cbarg == cbarg)

-- The search from the second hook on.
unfoldable pub remove_next : HookList → ℕ → ℕ → ℕ → HookList
unfolding is_hook
remove_next [] hevent cb cbarg = []
remove_next (hk ∷ rest) hevent cb cbarg =
    if is_hook hk hevent cb cbarg then rest else hk ∷ remove_next rest hevent cb cbarg

-- `none` is the read through the null `head` of an empty list.
unfoldable pub hook_remove : HookList → ℕ → ℕ → ℕ → Option HookList
unfolding remove_next
hook_remove [] hevent cb cbarg = none
hook_remove (hk ∷ rest) hevent cb cbarg =
    if is_hook hk hevent cb cbarg then some rest else some (hk ∷ remove_next rest hevent cb cbarg)

-- Callbacks act on the state `S` that the program keeps outside the list.
module _ {ℓ} {S : Type ℓ} (call : Hook → ℕ → S → S) where
  unfoldable pub hook_list_call : HookList → ℕ → S → S
  hook_list_call [] hevent s = s
  hook_list_call (hk ∷ rest) hevent s =
      hook_list_call rest hevent (if hk.hook_event == hevent then call hk hevent s else s)
