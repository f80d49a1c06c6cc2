-- ===== src/Sqlite.antt =====
-- The calls of SQLite that the db_*.c files make. A statement is what its SQL text says: the
-- table, the columns in their order and the conditions, each with one parameter. What running one
-- does is the record `Sqlite`; an error ends the process (sys_crash.c), which is `none`.
pub mod Laws
use Prim.Native.String.{String}
use text.Mathlib.Text.{◌==◌ as ◌==ₛ◌}
pub use deep_messenger.Prelude.{◌>>=◌}
use deep_messenger.Prelude.{
  ℕ, zero, suc, ◌+◌, Option, none, some, List, [], ◌∷◌, ◌++◌, ◌==◌, length, map, take, drop,
  if◌then◌else◌, ltb,
}
use deep_messenger.Prelude.Int.{ℤ, pos, negsuc}

-- A text and a blob are both their bytes.
pub data Value : Type 0 where
  null : Value
  int : ℤ → Value
  bytes : List ℕ → Value

pub data Condition : Type 0 where
  equals below : String → Condition
  -- column = ? OR 1 = 1
  any : String → Condition

pub data Order : Type 0 where
  unordered : Order
  -- ORDER BY id DESC LIMIT 1
  last_one : Order

-- An update and a deletion name the column of their condition. No columns of a selection are all.
pub data Statement : Type 0 where
  insert_into : String → List String → Statement
  update : String → List String → String → Statement
  delete_from : String → String → Statement
  select : List String → String → List Condition → Order → Statement
  -- The columns besides are those that are not null.
  select_count : String → List Condition → List String → Statement

abbrev pub Binds : Type 0
Binds = List (ℕ × Value)

-- The parameters' number.
unfoldable pub n_params : Statement → ℕ
n_params (insert_into table columns) = length columns
n_params (update table columns key) = length columns + 1
n_params (delete_from table key) = 1
n_params (select columns table conditions order) = length conditions
n_params (select_count table conditions not_null) = length conditions

-- The value that was bound last; a parameter that was not bound is null.
unfoldable pub bound : ℕ → Value → Binds → Value
bound i value [] = value
bound i value ((j, v) ∷ binds) = bound i (if i == j then v else value) binds

unfoldable pub params_from : ℕ → ℕ → Binds → List Value
unfolding bound
params_from i zero binds = []
params_from i (suc n) binds = bound i null binds ∷ params_from (i + 1) n binds

pub record Sqlite (W : Type 0) : Type 0 where
  -- The rows that a statement returns, and what it does.
  pub run : Statement → List Value → W → Option (List (List Value) × W)
  pub last_insert_rowid : W → ℕ
  pub text_to_int : List ℕ → ℤ
  pub int_to_text : ℤ → List ℕ

unfoldable pub column : ℕ → List Value → Value
column i [] = null
column zero (v ∷ row) = v
column (suc i) (v ∷ row) = column i row

-- An `int` that is not negative.
abbrev pub nat_of : ℤ → ℕ
nat_of (pos n) = n
nat_of (negsuc n) = 0

-- The bytes that are copied over the first of an array.
unfoldable pub copy_into : ℕ → List ℕ → List ℕ → List ℕ
copy_into n new old = let copied = take n new in copied ++ drop (length copied) old

module _ {W : Type 0} (sq : Sqlite W) where
  unfoldable pub execute : Statement → Binds → W → Option (List (List Value) × W)
  unfolding n_params params_from
  execute sql binds w = sq.run sql (params_from 1 (n_params sql) binds) w

  unfoldable pub int_of : Value → ℤ
  int_of null = pos 0
  int_of (int n) = n
  int_of (bytes b) = sq.text_to_int b

  unfoldable pub bytes_of : Value → List ℕ
  bytes_of null = []
  bytes_of (int n) = sq.int_to_text n
  bytes_of (bytes b) = b

  unfoldable pub column_int : List Value → ℕ → ℤ
  unfolding int_of column
  column_int row i = int_of (column i row)

  unfoldable pub column_blob : List Value → ℕ → List ℕ
  unfolding bytes_of column
  column_blob row i = bytes_of (column i row)

  module _ {A : Type 0} (process_row : List Value → Option A → A) where
    abbrev pub first_row : Option A → List (List Value) → Option A
    first_row dest [] = none
    first_row dest (row ∷ rows) = some (process_row row dest)

    -- The first row, into the object that is given or a new one.
    unfoldable pub fetch : Statement → Binds → Option A → W → Option (Option A × W)
    unfolding execute
    fetch sql binds dest w = do (rows, w') ← execute sql binds w; some (first_row dest rows, w')

    -- The loop over as many rows as were counted: behind the last an entry is NULL.
    unfoldable pub read_rows : ℕ → List (List Value) → List (Option A)
    read_rows zero rows = []
    read_rows (suc n) [] = none ∷ read_rows n []
    read_rows (suc n) (row ∷ rows) = some (process_row row none) ∷ read_rows n rows

    -- The first column of the only row.
    unfoldable pub counted : List (List Value) → Option ℕ
    unfolding column_int
    counted [] = none
    counted (row ∷ rows) = some (nat_of (column_int row 0))

    unfoldable pub fetch_all :
        (sql_count sql : Statement) → Binds → W → Option (List (Option A) × W)
    unfolding execute read_rows counted
    fetch_all sql_count sql binds w = execute sql_count binds w >>= (λ (count_rows, w').
        counted count_rows >>= (λ n.
          if n == 0
          then some ([], w')
          else (execute sql binds w' >>= (λ (rows, w''). some (read_rows n rows, w'')))))

  -- An object that has an id is updated, any other inserted; the id is bound at `id_at`.
  unfoldable pub save : String → List String → Binds → ℕ → ℕ → W → Option (ℕ × W)
  unfolding execute
  save table columns binds id_at id w =
      if ltb 0 id
      then (execute (update table columns "id") (binds ++ ((id_at, int (pos id)) ∷ [])) w
          >>= (λ (_, w'). some (id, w')))
      else (execute (insert_into table columns) binds w
          >>= (λ (_, w'). some (sq.last_insert_rowid w', w')))

  unfoldable pub remove : String → String → ℕ → W → Option W
  unfolding execute
  remove table key id w =
      execute (delete_from table key) ((1, int (pos id)) ∷ []) w >>= (λ (_, w'). some w')

-- WHERE column = ?, and no order.
abbrev pub select_by : String → List String → Statement
select_by table columns = select [] table (map equals columns) unordered

abbrev pub by_int : ℕ → Binds
by_int n = (1, int (pos n)) ∷ []

abbrev pub by_bytes : List ℕ → Binds
by_bytes b = (1, bytes b) ∷ []
