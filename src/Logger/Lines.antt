-- ===== src/Logger/Lines.antt =====
-- How a text is cut into lines.
use deep_messenger.Prelude.{
  ℕ, ◌≡◌, refl, sym, ap, ◌∙◌, ◌+◌, ◌==◌, ◌++◌, List, [], ◌∷◌, All-append, ◌-◌, true, false, take,
  drop, length, All, if◌then◌else◌, arith, take-drop, length-append, if_elim,
}
use mathlib.Core.Path.{subst}
use mathlib.Core.List.{append_assoc, append-nil}
use deep_messenger.Logger.{cut}

abbrev IsTextOfLine : ℕ → Type 0
IsTextOfLine ch = (ch == b'\n') ≡ false

-- A line holds no newline.
abbrev pub IsLine : List ℕ → Type 0
IsLine line = All IsTextOfLine line

-- The lines with a newline between each two.
abbrev pub join : List (List ℕ) → List ℕ
join [] = []
join (line ∷ []) = line
join (line ∷ (next ∷ lines)) = line ++ (b'\n' ∷ join (next ∷ lines))

abbrev NonEmpty : List (List ℕ) → Type 0
NonEmpty [] = ⊥
NonEmpty (line ∷ lines) = Unit

join-cons :
    (line : List ℕ) (lines : List (List ℕ))
    → NonEmpty lines
    → join (line ∷ lines) ≡ line ++ (b'\n' ∷ join lines)
join-cons line [] h = absurd h
join-cons line (next ∷ lines) h = refl

-- The lines of a text when `line` is already read of the first.
abbrev lines_of : (line rest : List ℕ) → List (List ℕ)
lines_of line [] = line ∷ []
lines_of line (ch ∷ rest) =
    if ch == b'\n' then line ∷ lines_of [] rest else lines_of (line ++ (ch ∷ [])) rest

cut-lines_of :
    (done line rest str : List ℕ) (line_start i : ℕ)
    → str ≡ done ++ (line ++ rest)
    → length done ≡ line_start
    → line_start + length line ≡ i
    → cut str rest line_start i ≡ lines_of line rest
unfolding cut
cut-lines_of done line [] str s i eq hd hl =
    ap (λ piece. piece ∷ [])
      (ap (λ l. take (i - s) (drop s l)) eq
        ∙ take-drop done line [] s (i - s) hd (omega (arith, hl)))
cut-lines_of done line (ch ∷ rest) str s i eq hd hl =
    let piece : take (i - s) (drop s str) ≡ line =
      ap (λ l. take (i - s) (drop s l)) eq
      ∙ take-drop done line (ch ∷ rest) s (i - s) hd (omega (arith, hl)) in
    let size : length (line ++ (ch ∷ [])) ≡ length line + 1 = length-append line (ch ∷ []) in
    let whole : str ≡ done ++ ((line ++ (ch ∷ [])) ++ rest) =
      eq ∙ ap (λ l. done ++ l) (sym (append_assoc line (ch ∷ []) rest)) in
    let next : cut str rest (i + 1) (i + 1) ≡ lines_of [] rest =
      cut-lines_of (done ++ (line ++ (ch ∷ []))) [] rest str (i + 1) (i + 1)
        (whole ∙ sym (append_assoc done (line ++ (ch ∷ [])) rest))
        (omega (arith, length-append done (line ++ (ch ∷ [])), size, hd, hl)) (omega arith) in
    let same : cut str rest s (i + 1) ≡ lines_of (line ++ (ch ∷ [])) rest =
      cut-lines_of done (line ++ (ch ∷ [])) rest str s (i + 1) whole hd (omega (arith, size, hl)) in
    elim (ch == b'\n')
      as (λ b.
        (if b
          then take (i - s) (drop s str) ∷ cut str rest (if b then i + 1 else s) (i + 1)
          else cut str rest (if b then i + 1 else s) (i + 1))
        ≡ (if b then line ∷ lines_of [] rest else lines_of (line ++ (ch ∷ [])) rest)) [
          | true ↦ rw (piece, next)
          | false ↦ same
        ]

All-snoc : (line : List ℕ) (ch : ℕ) → IsLine line → IsTextOfLine ch → IsLine (line ++ (ch ∷ []))
All-snoc line ch h k = All-append IsTextOfLine line (ch ∷ []) h (k, tt)

-- The lines joined are the text, and none has a newline.
lines_of-join :
    (line rest : List ℕ)
    → IsLine line
    → (join (lines_of line rest) ≡ line ++ rest)
      × All IsLine (lines_of line rest)
      × NonEmpty (lines_of line rest)
lines_of-join line [] h = (sym (append-nil line), (h, tt), tt)
lines_of-join line (ch ∷ rest) h =
    if_elim (λ ls. (join ls ≡ line ++ (ch ∷ rest)) × All IsLine ls × NonEmpty ls) (ch == b'\n')
      (λ newline.
        let (joined, lines, some_line) = lines_of-join [] rest tt in
        let same : b'\n' ≡ ch = ground arith in
        (
          join-cons line (lines_of [] rest) some_line ∙ ap (λ l. line ++ l) (rw (joined, same)),
          (h, lines),
          tt,
        ))
      (λ other.
        let (joined, lines, some_line) =
          lines_of-join (line ++ (ch ∷ [])) rest (All-snoc line ch h other) in
        (joined ∙ append_assoc line (ch ∷ []) rest, lines, some_line))

-- A text is cut at its newlines: the lines have none, and with one between each two they are the
-- text again.
pub join-cut : (str : List ℕ) → (join (cut str str 0 0) ≡ str) × All IsLine (cut str str 0 0)
join-cut str =
    let (joined, lines, some_line) = lines_of-join [] str tt in
    let same = cut-lines_of [] [] str str 0 0 refl refl (omega arith) in
    (ap join same ∙ joined, subst (All IsLine) (sym same) lines)
