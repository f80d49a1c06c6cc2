-- ===== src/Tests/Screen.antt =====
-- Commands, the window stack and the application.
use deep_messenger.Prelude.{
  if◌then◌else◌, ◌++◌, ◌≢◌, ℕ, ◌≡◌, refl, true, none, some, List, [], ◌∷◌, false,
}
use deep_messenger.Message.Objects.{DbMessage, db_message_new}
use deep_messenger.App.{
  info, chat_refresh, update_contacts, stack_redraw, fetched_from, fetched_from_mailbox,
  changed_nickname, someone_changed_nickname, hook_contact_sync, hook_mb_sync, to_refresh,
  hook_client_fetch,
}
use deep_messenger.Tests.Delivery.{bob}
use deep_messenger.App.Refresh.{opened, renamed, sync-refreshes}
use deep_messenger.Command.{CmdTemplate, cmd_parse, unknown_command, wrong_number, is_delimiter}
use deep_messenger.Command.Words.{line_of, cmd_parse-line_of}
use deep_messenger.Stack.{Stack, ui_stack_new, ui_stack_push, ui_stack_pop}
use deep_messenger.Stack.Top.{IsValid, made, pushed, Reached-IsValid}

-- "mb" with one argument.
abbrev mb : CmdTemplate ℕ
mb = record { name = 109 ∷ 98 ∷ []; arg_cnt = 1; cb = 7 }

-- "x" with no argument.
abbrev other : CmdTemplate ℕ
other = record { name = 120 ∷ []; arg_cnt = 0; cb = 9 }

abbrev words_of_mb : List (List ℕ)
words_of_mb = (109 ∷ 98 ∷ []) ∷ (120 ∷ []) ∷ []

no_such : mb.name ≢ other.name
no_such h = cc

command_example :
    (cmd_parse (other ∷ mb ∷ []) (line_of words_of_mb)
      ≡ record { res = none; called = some (7, words_of_mb) })
    × (cmd_parse (other ∷ []) (line_of words_of_mb)
        ≡ record { res = some unknown_command; called = none })
unfolding is_delimiter
command_example =
    cmd_parse-line_of (other ∷ []) [] mb ((120 ∷ []) ∷ []) ((refl, refl), ((refl, refl), tt))
      (((refl, refl), tt), tt) (no_such, tt)

called_with_words :
    cmd_parse (mb ∷ []) (line_of words_of_mb)
    ≡ record { res = none; called = some (7, words_of_mb) }
unfolding cmd_parse
called_with_words = refl

no_argument :
    cmd_parse (mb ∷ []) (109 ∷ 98 ∷ b'\n' ∷ [])
    ≡ record { res = some (wrong_number (109 ∷ 98 ∷ []) 1 0); called = none }
unfolding cmd_parse
no_argument = refl

not_known :
    cmd_parse (mb ∷ []) (b' ' ∷ 109 ∷ []) ≡ record { res = some unknown_command; called = none }
unfolding cmd_parse
not_known = refl

abbrev two_windows : Stack
two_windows =
    (ui_stack_push (λ w. true) (some 2)
      (ui_stack_push (λ w. true) (some 1) ui_stack_new).stack).stack

stack_example : IsValid two_windows
unfolding ui_stack_push ui_stack_new
stack_example = Reached-IsValid (pushed (λ w. true) 2 (refl, tt) (pushed (λ w. true) 1 tt made))

-- The last window cannot be taken.
pop_last : ui_stack_pop (λ w. true) (ui_stack_push (λ w. true) (some 1) ui_stack_new).stack ≡ none
unfolding ui_stack_pop ui_stack_push ui_stack_new
pop_last = refl

abbrev of_bob : DbMessage
of_bob = record db_message_new { contact_id = 5; kind = 1 }

abbrev of_carol : DbMessage
of_carol = record db_message_new { contact_id = 6; kind = 2 }

refresh_example :
    (hook_contact_sync (λ id. some bob) (some bob) false (of_bob ∷ of_carol ∷ [])
      ≡ some (
          info (fetched_from 2 bob.nickname)
          ∷ ((if opened (some bob) (of_bob ∷ of_carol ∷ []) then chat_refresh false ∷ [] else [])
              ++ (if renamed (of_bob ∷ of_carol ∷ [])
                  then update_contacts ∷ stack_redraw ∷ info (changed_nickname bob.nickname) ∷ []
                  else []))))
    × (hook_mb_sync (some bob) false (of_bob ∷ of_carol ∷ [])
        ≡ info (fetched_from_mailbox 2)
          ∷ ((if opened (some bob) (of_bob ∷ of_carol ∷ []) then chat_refresh false ∷ [] else [])
              ++ (if renamed (of_bob ∷ of_carol ∷ [])
                  then update_contacts ∷ info someone_changed_nickname ∷ []
                  else [])))
refresh_example = sync-refreshes (λ id. some bob) (some bob) of_bob (of_carol ∷ []) bob refl

renamed_refreshes : to_refresh none (of_bob ∷ of_carol ∷ []) false false ≡ (false, true)
unfolding to_refresh db_message_new
renamed_refreshes = refl

-- With no contact selected, a fetch by a contact reads through a null pointer.
fetched_with_none : hook_client_fetch none (of_bob ∷ []) ≡ none
unfolding hook_client_fetch
fetched_with_none = refl
