-- ===== src/Command/Words.antt =====
-- The words of a line.
use deep_messenger.Prelude.{
  sym, true, Option, if◌then◌else◌, ◌≢◌, ==_refl, Bool-cases, inl, inr, if_true, if_false, ℕ, zero,
  suc, ◌≡◌, refl, ap, ◌∙◌, ◌≤◌, ◌<◌, ◌==◌, ◌++◌, false, none, some, List, [], ◌∷◌, All, length,
  length-append, arith,
}
use deep_messenger.Array.{text}
use deep_messenger.Command.{
  CmdTemplate, unknown_command, is_delimiter, word, strtok, words, find_cmd, call_cmd, same_text,
  wrong_number, cmd_parse,
}

abbrev pub IsWordChar : ℕ → Type 0
IsWordChar ch = (is_delimiter ch ≡ false) × ((ch == 0) ≡ false)

-- A word has a character, and neither a delimiter nor a zero.
abbrev pub IsWord : List ℕ → Type 0
IsWord [] = ⊥
IsWord (ch ∷ chars) = IsWordChar ch × All IsWordChar chars

-- The words, each with a space before it.
abbrev pub spaced : List (List ℕ) → List ℕ
spaced [] = []
spaced (w ∷ ws) = b' ' ∷ (w ++ spaced ws)

-- The words with a space between each two.
abbrev pub line_of : List (List ℕ) → List ℕ
line_of [] = []
line_of (w ∷ ws) = w ++ spaced ws

word-spaced :
    (chars : List ℕ) (ws : List (List ℕ))
    → All IsWordChar chars
    → word (chars ++ spaced ws) ≡ (chars, line_of ws)
unfolding word is_delimiter
word-spaced [] [] h = refl
word-spaced [] (w ∷ ws) h = refl
word-spaced (ch ∷ chars) ws ((plain, nonzero), h) = rw (plain, word-spaced chars ws h)

strtok-line_of :
    (w : List ℕ) (ws : List (List ℕ)) → IsWord w → strtok (w ++ spaced ws) ≡ some (w, line_of ws)
unfolding strtok
strtok-line_of [] ws h = absurd h
strtok-line_of (ch ∷ chars) ws ((plain, nonzero), h) = rw (plain, word-spaced chars ws h)

words-line_of :
    (n : ℕ) (ws : List (List ℕ)) → All IsWord ws → length ws ≤ n → words n (line_of ws) ≡ ws
unfolding words strtok
words-line_of zero [] h le = refl
words-line_of zero (w ∷ ws) h le = absurd (omega arith)
words-line_of (suc n) [] h le = refl
words-line_of (suc n) (w ∷ ws) (hw, hs) le =
    let first = strtok-line_of w ws hw in
    ap (λ found. elim found [ none ↦ [] | some f ↦ f.0 ∷ words n f.1 ]) first
    ∙ ap (λ rest. w ∷ rest) (words-line_of n ws hs (omega arith))

word_size : (w : List ℕ) → IsWord w → 0 < length w
word_size [] h = absurd h
word_size (ch ∷ chars) h = omega arith

spaced_size : (ws : List (List ℕ)) → length ws ≤ length (spaced ws)
spaced_size [] = omega arith
spaced_size (w ∷ ws) = omega (arith, length-append w (spaced ws), spaced_size ws)

line_size : (ws : List (List ℕ)) → All IsWord ws → length ws ≤ length (line_of ws)
line_size [] h = omega arith
line_size (w ∷ ws) (hw, hs) =
    omega (arith, length-append w (spaced ws), spaced_size ws, word_size w hw)

text-chars :
    (chars rest : List ℕ) → All IsWordChar chars → text (chars ++ rest) ≡ chars ++ text rest
text-chars [] rest h = refl
text-chars (ch ∷ chars) rest ((plain, nonzero), h) = rw (nonzero, text-chars chars rest h)

text-word : (w rest : List ℕ) → IsWord w → text (w ++ rest) ≡ w ++ text rest
text-word [] rest h = absurd h
text-word (ch ∷ chars) rest h = text-chars (ch ∷ chars) rest h

text-spaced : (ws : List (List ℕ)) → All IsWord ws → text (spaced ws) ≡ spaced ws
text-spaced [] h = refl
text-spaced (w ∷ ws) (hw, hs) =
    ap (λ rest. b' ' ∷ rest)
      (text-word w (spaced ws) hw ∙ ap (λ rest. w ++ rest) (text-spaced ws hs))

same_text_refl : (xs : List ℕ) → same_text xs xs ≡ true
unfolding same_text
same_text_refl [] = refl
same_text_refl (x ∷ xs) = rw (==_refl x) (same_text_refl xs)

same_text→eq : (xs ys : List ℕ) → same_text xs ys ≡ true → xs ≡ ys
unfolding same_text
same_text→eq [] [] h = refl
same_text→eq [] (y ∷ ys) h = absurd (cc)
same_text→eq (x ∷ xs) [] h = absurd (cc)
same_text→eq (x ∷ xs) (y ∷ ys) h = elim (Bool-cases (x == y)) [
  | inl same ↦
      let heads : x ≡ y = ground (arith, same) in
      let rest : same_text xs ys ≡ true = sym (if_true (x == y) _ _ same) ∙ h in
      ap (λ z. z ∷ xs) heads ∙ ap (λ zs. y ∷ zs) (same_text→eq xs ys rest)
  | inr other ↦
      let never : false ≡ true = sym (if_false (x == y) (same_text xs ys) false other) ∙ h in
      absurd (cc)
]

same_text_other : (xs ys : List ℕ) → xs ≢ ys → same_text xs ys ≡ false
same_text_other xs ys h = elim (Bool-cases (same_text xs ys)) [
  | inl same ↦ absurd (h (same_text→eq xs ys same))
  | inr other ↦ other
]

module _ {C : Type 0} where
  -- No command has the name.
  abbrev pub Lacks : List ℕ → List (CmdTemplate C) → Type 0
  Lacks name cmds = All (λ (cmd : CmdTemplate C). name ≢ cmd.name) cmds

  find_cmd-none :
      (name : List ℕ) (cmds : List (CmdTemplate C)) → Lacks name cmds → find_cmd name cmds ≡ none
  unfolding find_cmd
  find_cmd-none name [] h = refl
  find_cmd-none name (cmd ∷ cmds) (h, hs) =
      rw (same_text_other name cmd.name h) (find_cmd-none name cmds hs)

  find_cmd_first :
      (before after : List (CmdTemplate C)) (cmd : CmdTemplate C)
      → Lacks cmd.name before
      → find_cmd cmd.name (before ++ (cmd ∷ after)) ≡ some cmd
  unfolding find_cmd
  find_cmd_first [] after cmd h = rw (same_text_refl cmd.name)
  find_cmd_first (other ∷ before) after cmd (h, hs) =
      rw (same_text_other cmd.name other.name h) (find_cmd_first before after cmd hs)

  parsed_lem :
      (cmds : List (CmdTemplate C)) (name : List ℕ) (args : List (List ℕ))
      (found : Option (CmdTemplate C))
      → IsWord name
      → All IsWord args
      → find_cmd name cmds ≡ found
      → cmd_parse cmds (line_of (name ∷ args)) ≡ elim found [
        | none ↦ record { res = some unknown_command; called = none }
        | some cmd ↦ call_cmd cmd name args
      ]
  unfolding cmd_parse
  parsed_lem cmds name args found h hs eq =
      let line = text-word name (spaced args) h ∙ ap (λ rest. name ++ rest) (text-spaced args hs) in
      let first = ap strtok line ∙ strtok-line_of name args h in
      ap
        (λ words_found. elim words_found [
          | none ↦ record { res = none; called = none }
          | some f ↦ elim (find_cmd f.0 cmds) [
            | none ↦ record { res = some unknown_command; called = none }
            | some cmd ↦ call_cmd cmd f.0 (words (length f.1) f.1)
          ]
        ])
        first
      ∙ ap
          (λ ws. elim (find_cmd name cmds) [
            | none ↦ record { res = some unknown_command; called = none }
            | some cmd ↦ call_cmd cmd name ws
          ])
          (words-line_of (length (line_of args)) args hs (line_size args hs))
      ∙ ap
          (λ f. elim f [
            | none ↦ record { res = some unknown_command; called = none }
            | some cmd ↦ call_cmd cmd name args
          ])
          eq

  -- A line of words, with a space between each two, of which the first is the name of a command
  -- that no command before it has: if as many words follow as the command takes, its callback is
  -- called with all the words, once, and there is no error; if not, none is called and the error
  -- says how many are expected and how many there are. Without that command and those after it the
  -- line is the error of an unknown command.
  pub cmd_parse-line_of :
      (before after : List (CmdTemplate C)) (cmd : CmdTemplate C) (args : List (List ℕ))
      → IsWord cmd.name
      → All IsWord args
      → Lacks cmd.name before
      → (cmd_parse (before ++ (cmd ∷ after)) (line_of (cmd.name ∷ args)) ≡ (
          if length args == cmd.arg_cnt
          then record { res = none; called = some (cmd.cb, cmd.name ∷ args) }
          else record {
            res = some (wrong_number cmd.name cmd.arg_cnt (length args));
            called = none;
          }))
        × (cmd_parse before (line_of (cmd.name ∷ args))
            ≡ record { res = some unknown_command; called = none })
  unfolding call_cmd
  cmd_parse-line_of before after cmd args h hs first = (
    parsed_lem (before ++ (cmd ∷ after)) cmd.name args (some cmd) h hs
        (find_cmd_first before after cmd first),
    parsed_lem before cmd.name args none h hs (find_cmd-none cmd.name before first),
  )
