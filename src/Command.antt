-- ===== src/Command.antt =====
-- cmd_parse.c: a line is split into words, the first of which names a command; it is called if it
-- takes as many arguments as follow. The line is the text before its first zero.
pub mod Words
use deep_messenger.Prelude.{
  ℕ, zero, suc, ◌+◌, ◌-◌, Bool, true, false, ◌||◌, Option, none, some, List, [], ◌∷◌, ◌==◌, length,
  if◌then◌else◌,
}
use deep_messenger.Array.{text}

-- A command, with the callback and what it is given.
pub record CmdTemplate (C : Type 0) : Type 0 where
  pub name : List ℕ
  pub arg_cnt : ℕ
  pub cb : C

-- The text of the second error holds the name and the two counts.
pub data CmdError : Type 0 where
  unknown_command : CmdError
  wrong_number : (name : List ℕ) (expected got : ℕ) → CmdError

-- What is returned, and the callback that was called, with its words.
pub record Parsed (C : Type 0) : Type 0 where
  pub res : Option CmdError
  pub called : Option (C × List (List ℕ))

unfoldable pub is_delimiter : ℕ → Bool
is_delimiter ch = (ch == b' ') || (ch == b'\n')

-- The rest of a word, and what is behind the delimiter that ends it.
unfoldable pub word : List ℕ → List ℕ × List ℕ
unfolding is_delimiter
word [] = ([], [])
word (ch ∷ rest) =
    let others = word rest in if is_delimiter ch then ([], rest) else (ch ∷ others.0, others.1)

-- The next word, and the rest.
unfoldable pub strtok : List ℕ → Option (List ℕ × List ℕ)
unfolding word is_delimiter
strtok [] = none
strtok (ch ∷ rest) =
    let others = strtok rest in
    if is_delimiter ch then others else some (ch ∷ (word rest).0, (word rest).1)

-- The loop over the words, each of which takes a character at least.
unfoldable pub words : ℕ → List ℕ → List (List ℕ)
unfolding strtok
words zero rest = []
words (suc n) rest = elim (strtok rest) [ none ↦ [] | some found ↦ found.0 ∷ words n found.1 ]

unfoldable pub same_text : List ℕ → List ℕ → Bool
same_text [] [] = true
same_text [] (y ∷ ys) = false
same_text (x ∷ xs) [] = false
same_text (x ∷ xs) (y ∷ ys) = if x == y then same_text xs ys else false

module _ {C : Type 0} where
  unfoldable pub find_cmd : List ℕ → List (CmdTemplate C) → Option (CmdTemplate C)
  unfolding same_text
  find_cmd name [] = none
  find_cmd name (cmd ∷ cmds) =
      let rest = find_cmd name cmds in if same_text name cmd.name then some cmd else rest

  -- The command is checked before the other words are looked for.
  unfoldable pub call_cmd : CmdTemplate C → List ℕ → List (List ℕ) → Parsed C
  call_cmd cmd name args =
      if length args == cmd.arg_cnt
      then record { res = none; called = some (cmd.cb, name ∷ args) }
      else record { res = some (wrong_number cmd.name cmd.arg_cnt (length args)); called = none }

  unfoldable pub cmd_parse : List (CmdTemplate C) → List ℕ → Parsed C
  unfolding strtok words find_cmd call_cmd
  cmd_parse cmds cmdstr = elim (strtok (text cmdstr)) [
    | none ↦ record { res = none; called = none }
    | some first ↦ elim (find_cmd first.0 cmds) [
      | none ↦ record { res = some unknown_command; called = none }
      | some cmd ↦ call_cmd cmd first.0 (words (length first.1) first.1)
    ]
  ]
