-- ===== src/Sqlite/Laws.antt =====
-- What is relied on of SQLite, and what follows for saving and reading one object.
use Prim.Native.String.{String}
use text.Mathlib.Text.{◌==◌ as ◌==ₛ◌}
use mathlib.Core.Path.{subst}
use mathlib.Core.List.{append-nil}
use deep_messenger.Prelude.{
  ◌<◌, sym, Bool, true, not, ◌&&◌, ℕ, zero, suc, ◌≤◌, ◌++◌, take, drop-nil, ◌∙◌, refl, false, ◌≡◌,
  ap, Option, none, some, List, [], ◌∷◌, length, drop, if◌then◌else◌, arith,
}
use deep_messenger.Prelude.Int.{ℤ, pos, negsuc}
use deep_messenger.Database.{
  db_init_schema, db_init_types, ColumnType, integer_column, text_column, blob_column,
}
use deep_messenger.Sqlite.{
  Value, null, int, bytes, insert_into, select_by, Binds, params_from, Sqlite, ◌>>=◌, execute,
  first_row, fetch, save, copy_into,
}

-- The value of a column among those that were given, and null if it was not given.
unfoldable pub value_of : String → List String → List Value → Value
value_of name [] values = null
value_of name (c ∷ columns) [] = null
value_of name (c ∷ columns) (v ∷ values) = if name ==ₛ c then v else value_of name columns values

unfoldable pub row_of : (schema columns : List String) → List Value → List Value
unfolding value_of
row_of [] columns values = []
row_of (name ∷ schema) columns values = value_of name columns values ∷ row_of schema columns values

-- A number that fits in an int of 32 bits.
abbrev pub IsInt : ℤ → Type 0
IsInt (pos n) = n < 2147483648
IsInt (negsuc n) = n < 2147483648

-- A value that SQLite stores in a column of the type as it is.
abbrev pub Keeps : ColumnType → Value → Type 0
Keeps t null = Unit
Keeps integer_column (int n) = IsInt n
Keeps integer_column (bytes b) = ⊥
Keeps text_column (int n) = ⊥
Keeps text_column (bytes b) = Unit
Keeps blob_column (int n) = IsInt n
Keeps blob_column (bytes b) = Unit

-- A column of the name stands among those given and keeps the value.
unfoldable pub KeepsNamed : String → Value → List String → List ColumnType → Type 0
KeepsNamed name v [] types = ⊥
KeepsNamed name v (c ∷ schema) [] = ⊥
KeepsNamed name v (c ∷ schema) (t ∷ types) =
    if name ==ₛ c then Keeps t v else KeepsNamed name v schema types

-- The values are as many as the columns, which are the table's besides its id, and keep them.
unfoldable pub Fits : String → List String → List Value → Type 0
unfolding KeepsNamed
Fits table [] [] = Unit
Fits table [] (v ∷ values) = ⊥
Fits table (c ∷ columns) [] = ⊥
Fits table (c ∷ columns) (v ∷ values) =
    KeepsNamed c v (drop 1 (db_init_schema table)) (drop 1 (db_init_types table))
    × Fits table columns values

-- No column is named twice.
unfoldable pub distinct : List String → Bool
distinct [] = true
distinct (c ∷ columns) = let rest = distinct columns in not (among columns) && rest
  where
    among : List String → Bool
    among [] = false
    among (d ∷ others) = let more = among others in if c ==ₛ d then true else more

module _ {W : Type 0} (sq : Sqlite W) where
  -- The row that was inserted, of values that the columns keep as they are, is found by its id, with
  -- its columns in the order of the table and the values that were given.
  abbrev pub InsertsRow : Type 0
  InsertsRow =
      (table : String) (columns : List String) (values : List Value) (w w' : W)
      (rows : List (List Value))
      → distinct columns ≡ true
      → Fits table columns values
      → sq.last_insert_rowid w' < 2147483648
      → sq.run (insert_into table columns) values w ≡ some (rows, w')
      → sq.run (select_by table ("id" ∷ [])) (int (pos (sq.last_insert_rowid w')) ∷ []) w'
        ≡ some (
          row_of (db_init_schema table) ("id" ∷ columns)
                (int (pos (sq.last_insert_rowid w')) ∷ values)
              ∷ [],
          w',
        )

  inserted :
      (r : Option (List (List Value) × W)) (id : ℕ) (w' : W)
      → ◌>>=◌ {B = ℕ × W} r (λ (_, w''). some (sq.last_insert_rowid w'', w'')) ≡ some (id, w')
      → (rows : List (List Value)) × (r ≡ some (rows, w')) × (sq.last_insert_rowid w' ≡ id)
  inserted none id w' e = ground (arith, e)
  inserted (some (rows, w'')) id w' e = (rows, cc, cc)

  -- A new object that is saved is read by its id from the row of its values.
  pub fetch-save :
      {A : Type 0} (process_row : List Value → Option A → A) (dest : Option A) (table : String)
      (columns : List String) (binds : Binds) (id_at id : ℕ) (w w' : W)
      → InsertsRow
      → distinct columns ≡ true
      → Fits table columns (params_from 1 (length columns) binds)
      → id < 2147483648
      → save sq table columns binds id_at 0 w ≡ some (id, w')
      → fetch sq process_row (select_by table ("id" ∷ [])) ((1, int (pos id)) ∷ []) dest w'
        ≡ some (
          some (
              process_row
                (row_of
                  (db_init_schema table)
                  ("id" ∷ columns)
                  (int (pos id) ∷ params_from 1 (length columns) binds))
                dest),
          w',
        )
  unfolding save fetch execute
  fetch-save {A} process_row dest table columns binds id_at id w w' law once fits small e =
      let (rows, ran, named) =
        inserted (sq.run (insert_into table columns) (params_from 1 (length columns) binds) w) id w'
          e in
      let found =
        law table columns (params_from 1 (length columns) binds) w w' rows once fits
          (subst (λ n. n < 2147483648) (sym named) small) ran in
      let row = λ (n : ℕ).
        row_of (db_init_schema table) ("id" ∷ columns)
          (int (pos n) ∷ params_from 1 (length columns) binds) in
      ap
        (λ r.
          ◌>>=◌ {B = Option A × W} r
            (λ (rows, w''). some (first_row sq process_row dest rows, w'')))
        (subst
          (λ n. sq.run (select_by table ("id" ∷ [])) (int (pos n) ∷ []) w' ≡ some (row n ∷ [], w'))
          named found)

  -- A saved object is what was saved, with the id.
  pub saved_with :
      {A : Type 0} (m : Option (ℕ × W)) (f : ℕ → A) (saved : A) (w' : W)
      → ◌>>=◌ {B = A × W} m (λ (id, w''). some (f id, w'')) ≡ some (saved, w')
      → (id : ℕ) × (m ≡ some (id, w')) × (f id ≡ saved)
  saved_with none f saved w' e = ground (arith, e)
  saved_with (some (id, w'')) f saved w' e = (id, cc, cc)

pub take_all : {A : Type 0} (n : ℕ) (xs : List A) → length xs ≤ n → take n xs ≡ xs
take_all zero [] h = refl
take_all zero (x ∷ xs) h = ground (arith, h)
take_all (suc n) [] h = refl
take_all (suc n) (x ∷ xs) h = ap (λ l. x ∷ l) (take_all n xs (omega (arith, h)))

-- Bytes that fit are copied whole into an empty array.
pub copy_into-take : (n : ℕ) (xs : List ℕ) → length xs ≤ n → copy_into n (take n xs) [] ≡ xs
unfolding copy_into
copy_into-take n xs h =
    let whole = take_all n xs h in
    ap (λ l. take n l ++ drop (length (take n l)) []) whole
    ∙ ap (λ l. l ++ drop (length l) []) whole
    ∙ ap (λ l. xs ++ l) (drop-nil (length xs))
    ∙ append-nil xs
