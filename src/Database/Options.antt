-- ===== src/Database/Options.antt =====
-- db_options.c: the settings, each under a key with a number, bytes or a text.
use Prim.Native.String.{String}
use deep_messenger.Prelude.{
  ℕ, ◌-◌, Bool, true, false, Option, some, List, [], ◌∷◌, ◌++◌, ltb, take, drop, length, set,
  if◌then◌else◌,
}
use deep_messenger.Prelude.Int.{ℤ, pos}
use deep_messenger.Array.{text}
use deep_messenger.FriendRequest.{zeroes}
use deep_messenger.Sqlite.{
  Value, int, bytes, Statement, insert_into, update, select, select_count, equals, unordered,
  by_bytes, Sqlite, ◌>>=◌, nat_of, column_int, column_blob, copy_into, execute,
}

pub data OptionKind : Type 0 where
  int_option bin_option text_option : OptionKind

abbrev pub option_column : OptionKind → String
option_column int_option = "int_value"
option_column bin_option = "bin_value"
option_column text_option = "text_value"

abbrev pub option_of : OptionKind → Statement
option_of kind = select (option_column kind ∷ []) "options" (equals "key" ∷ []) unordered

-- `strncpy` of `n` bytes: up to the end of the text, and zeroes behind it.
unfoldable pub strncpy : ℕ → List ℕ → List ℕ → List ℕ
strncpy n b memory =
    let copied = take n (text b) in copied ++ (zeroes (n - length copied) ++ drop n memory)

module _ {W : Type 0} (sq : Sqlite W) where
  -- Whether the key has a row, or a row with a value of the kind.
  unfoldable pub db_options_row_exists : List ℕ → OptionKind → Bool → W → Option (Bool × W)
  unfolding execute column_int
  db_options_row_exists key kind has_value w =
      execute sq
        (select_count "options" (equals "key" ∷ [])
          (if has_value then option_column kind ∷ [] else []))
        (by_bytes key) w
      >>= (λ (rows, w').
          let found : Bool = elim rows [
            | [] ↦ false
            | row ∷ _ ↦ ltb 0 (nat_of (column_int sq row 0))
          ] in
          some (found, w'))

  unfoldable pub db_options_is_defined : List ℕ → OptionKind → W → Option (Bool × W)
  unfolding db_options_row_exists
  db_options_is_defined key kind = db_options_row_exists key kind true

  -- The number, 0 if there is no row.
  unfoldable pub db_options_get_int : List ℕ → W → Option (ℤ × W)
  unfolding execute column_int
  db_options_get_int key w = execute sq (option_of int_option) (by_bytes key) w >>= (λ (rows, w').
      let value : ℤ = elim rows [ [] ↦ pos 0 | row ∷ _ ↦ column_int sq row 0 ] in some (value, w'))

  -- A row that there is gets the value, else a row is made; the value is bound first.
  unfoldable pub set_option : OptionKind → Value → List ℕ → W → Option W
  unfolding db_options_row_exists execute
  set_option kind value key w = db_options_row_exists key kind false w >>= (λ (found, w').
      let sql =
        if found
        then update "options" (option_column kind ∷ []) "key"
        else insert_into "options" (option_column kind ∷ "key" ∷ []) in
      execute sq sql ((1, value) ∷ (2, bytes key) ∷ []) w' >>= (λ (_, w''). some w''))

  unfoldable pub db_options_set_int : List ℕ → ℤ → W → Option W
  unfolding set_option
  db_options_set_int key value = set_option int_option (int value) key

  unfoldable pub db_options_set_bin : List ℕ → List ℕ → W → Option W
  unfolding set_option
  db_options_set_bin key value = set_option bin_option (bytes value) key

  unfoldable pub db_options_set_text : List ℕ → List ℕ → W → Option W
  unfolding set_option
  db_options_set_text key value = set_option text_option (bytes value) key

  -- The length of the stored bytes, and the array that as many of them as fit are copied into.
  unfoldable pub db_options_get_bin : List ℕ → ℕ → List ℕ → W → Option ((ℕ × List ℕ) × W)
  unfolding execute column_blob copy_into
  db_options_get_bin key value_len value w =
      execute sq (option_of bin_option) (by_bytes key) w >>= (λ (rows, w').
        let copied : ℕ × List ℕ = elim rows [
          | [] ↦ (0, value)
          | row ∷ _ ↦
              let b = column_blob sq row 0 in
              (
                length b,
                copy_into (if ltb value_len (length b) then value_len else length b) b value,
              )
        ] in
        some (copied, w'))

  -- A text's end is written behind it, or in the array's last place. The array has a place.
  unfoldable pub text_into : ℕ → List ℕ → List ℕ → List ℕ
  unfolding strncpy
  text_into value_len b value =
      if ltb (length b) value_len
      then set (strncpy (length b) b value) (length b) 0
      else set (strncpy value_len b value) (value_len - 1) 0

  unfoldable pub db_options_get_text : List ℕ → ℕ → List ℕ → W → Option ((ℕ × List ℕ) × W)
  unfolding execute column_blob text_into
  db_options_get_text key value_len value w =
      execute sq (option_of text_option) (by_bytes key) w >>= (λ (rows, w').
        let copied : ℕ × List ℕ = elim rows [
          | [] ↦ (0, value)
          | row ∷ _ ↦ let b = column_blob sq row 0 in (length b, text_into value_len b value)
        ] in
        some (copied, w'))
