-- ===== src/Tests/Engine.antt =====
-- A database in memory, for the theorems on the stored objects at concrete inputs. The row that was
-- stored last stands first.
use Prim.Native.String.{String}
use text.Mathlib.Text.{◌==◌ as ◌==ₛ◌}
use text.Mathlib.TextPositions.{eq_refl}
use deep_messenger.Prelude.{
  ℕ, ◌+◌, ◌≡◌, refl, ap, ◌&&◌, Option, some, List, [], ◌∷◌, ◌++◌, ◌==◌, ==_refl, length,
  if◌then◌else◌, if_true,
}
use mathlib.Core.Path.{subst}
use deep_messenger.Prelude.Int.{pos}
use deep_messenger.Database.{db_init_schema}
use deep_messenger.Sqlite.{
  Value, null, int, equals, Statement, insert_into, update, delete_from, select, select_count,
  Sqlite, column,
}
use deep_messenger.Sqlite.Laws.{row_of, value_of, InsertsRow}

pub record Rows : Type 0 where
  pub rows : List (String × ℕ × List Value)
  pub last_id : ℕ

-- The row of a table with an id.
abbrev with_id : String → ℕ → List (String × ℕ × List Value) → List (List Value)
with_id table n [] = []
with_id table n ((t, id, row) ∷ rows) =
    if t ==ₛ table && id == n then row ∷ [] else with_id table n rows

abbrev pub all_of : String → List (String × ℕ × List Value) → List (List Value)
all_of table [] = []
all_of table ((t, id, row) ∷ rows) =
    let others = all_of table rows in if t ==ₛ table then row ∷ others else others

abbrev last_value : List Value → Value
last_value [] = null
last_value (v ∷ []) = v
last_value (v ∷ u ∷ values) = last_value (u ∷ values)

abbrev update_row : String → List String → Value → List Value → Rows → Rows
update_row table columns null values w = w
update_row table columns key values w = record w {
  rows = (table, 0, row_of (db_init_schema table) (columns ++ ("id" ∷ [])) values) ∷ w.rows;
}

abbrev run : Statement → List Value → Rows → Option (List (List Value) × Rows)
run (insert_into table columns) values w =
    let id = w.last_id + 1 in
    some (
      [],
      record {
        rows =
            (table, id, row_of (db_init_schema table) ("id" ∷ columns) (int (pos id) ∷ values))
            ∷ w.rows;
        last_id = id;
      },
    )
run (update table columns key) values w =
    some ([], update_row table columns (last_value values) values w)
run (select columns table (equals c ∷ []) order) (int (pos n) ∷ []) w =
    some (if c ==ₛ "id" then with_id table n w.rows else all_of table w.rows, w)
run (select columns table conditions order) values w = some (all_of table w.rows, w)
run (select_count table conditions not_null) values w =
    some ((int (pos (length (all_of table w.rows))) ∷ []) ∷ [], w)
run (delete_from table key) values w = some ([], w)

abbrev pub engine : Sqlite Rows
engine = record {
  run = run;
  last_insert_rowid = λ w. w.last_id;
  text_to_int = λ b. pos 0;
  int_to_text = λ n. [];
}

pub engine-InsertsRow : InsertsRow engine
unfolding row_of value_of column db_init_schema
engine-InsertsRow table columns values w w' rows once fits small e =
    let id = w.last_id + 1 in
    let row = row_of (db_init_schema table) ("id" ∷ columns) (int (pos id) ∷ values) in
    let stored : Rows = record { rows = (table, id, row) ∷ w.rows; last_id = id } in
    let same : stored ≡ w' = cc in
    subst
      (λ (v : Rows).
        ◌≡◌ {A = Option (List (List Value) × Rows)} (some (with_id table v.last_id v.rows, v)) (
          some (
            row_of (db_init_schema table) ("id" ∷ columns) (int (pos v.last_id) ∷ values) ∷ [],
            v,
          )))
      same
      (ap (λ l. some (l, stored))
        (if_true (table ==ₛ table && id == id) (row ∷ []) (with_id table id w.rows)
          (rw (eq_refl table, ==_refl id) refl)))
