-- ===== src/Hooks/Order.antt =====
-- The order in which hooks are called, and the removal of one.
use deep_messenger.Prelude.{
  ℕ, ◌≡◌, ◌↔◌, refl, true, false, none, some, [], ◌∷◌, ◌==◌, ==_refl, arith, if◌then◌else◌,
}
use deep_messenger.Hooks.{
  Hook, HookList, hook_add, is_hook, remove_next, hook_remove, hook_list_call,
}

-- A hook that was added is called after those that were there before, and only for its own event.
pub hook_list_call-hook_add {ℓ} :
    {S : Type ℓ} (call : Hook → ℕ → S → S) (list : HookList) (hevent cb cbarg event : ℕ) (s : S)
    → hook_list_call call (hook_add list hevent cb cbarg) event s ≡ (
        if hevent == event
        then call
            (record { hook_event = hevent; cb = cb; cbarg = cbarg })
            event
            (hook_list_call call list event s)
        else hook_list_call call list event s)
unfolding hook_list_call hook_add
hook_list_call-hook_add call [] hevent cb cbarg event s = refl
hook_list_call-hook_add call (hk ∷ rest) hevent cb cbarg event s =
    hook_list_call-hook_add call rest hevent cb cbarg event _

-- No hook of the list is the given one.
abbrev pub Absent : HookList → ℕ → ℕ → ℕ → Type 0
Absent [] hevent cb cbarg = Unit
Absent (hk ∷ rest) hevent cb cbarg =
    (is_hook hk hevent cb cbarg ≡ false) × Absent rest hevent cb cbarg

is_hook_refl :
    (hevent cb cbarg : ℕ)
    → is_hook (record { hook_event = hevent; cb = cb; cbarg = cbarg }) hevent cb cbarg ≡ true
unfolding is_hook
is_hook_refl hevent cb cbarg = rw (==_refl hevent, ==_refl cb, ==_refl cbarg)

remove_next-hook_add :
    (list : HookList) (hevent cb cbarg : ℕ)
    → Absent list hevent cb cbarg
    → remove_next (hook_add list hevent cb cbarg) hevent cb cbarg ≡ list
unfolding remove_next hook_add
remove_next-hook_add [] hevent cb cbarg h = rw (is_hook_refl hevent cb cbarg)
remove_next-hook_add (hk ∷ rest) hevent cb cbarg (h, hs) =
    rw (h, remove_next-hook_add rest hevent cb cbarg hs)

-- Removing a hook that was just added, and was not there before, restores the list.
pub hook_remove-hook_add :
    (list : HookList) (hevent cb cbarg : ℕ)
    → Absent list hevent cb cbarg
    → hook_remove (hook_add list hevent cb cbarg) hevent cb cbarg ≡ some list
unfolding hook_remove hook_add
hook_remove-hook_add [] hevent cb cbarg h = rw (is_hook_refl hevent cb cbarg)
hook_remove-hook_add (hk ∷ rest) hevent cb cbarg (h, hs) =
    rw (h, remove_next-hook_add rest hevent cb cbarg hs)

-- `hook_remove` faults exactly on the empty list.
pub hook_remove-none :
    (list : HookList) (hevent cb cbarg : ℕ)
    → (hook_remove list hevent cb cbarg ≡ none) ↔ (list ≡ [])
unfolding hook_remove
hook_remove-none [] hevent cb cbarg = (λ _. refl, λ _. refl)
hook_remove-none (hk ∷ rest) hevent cb cbarg = (λ h. absurd (ground arith), λ h. cc)
