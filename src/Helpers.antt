-- ===== src/Helpers.antt =====
-- helpers.c: `divide` shares a length out among the fields of a format, and `str_ends_with`
-- compares the end of a text. A text is its characters before the '\0'.
pub mod Divide
pub mod Ending
use deep_messenger.Prelude.{
  ℕ, zero, suc, ◌+◌, ◌-◌, ◌*◌, ◌/◌, ◌^◌, Bool, true, false, not, ◌&&◌, ◌||◌, List, [], ◌∷◌, ◌==◌,
  ltb, leb, get_or, length, map, if◌then◌else◌,
}

pub data FieldType : Type 0 where
  fixed : FieldType
  percentage : FieldType

pub record DivideField : Type 0 where
  pub type : FieldType
  pub size : ℕ
  pub real_size : ℕ

-- What `divide` ends in: the sizes, its error, or what C leaves undefined, an `int` that
-- overflows or an index out of the array of fields.
pub data Divided (A : Type 0) : Type 0 where
  divided : A → Divided A
  refused : Divided A
  undefined : Divided A

abbrev pub divide_helper_max_divs : ℕ
divide_helper_max_divs = 50

abbrev pub int_end : ℕ
int_end = 2 ^ 31

abbrev pub and_then : {A B : Type 0} → Divided A → (A → Divided B) → Divided B
and_then (divided a) f = f a
and_then refused f = refused
and_then undefined f = undefined

unfoldable pub new_field : FieldType → List DivideField → Divided (List DivideField)
new_field t fields =
    if ltb (length fields) divide_helper_max_divs
    then divided (record { type = t; size = 0; real_size = 0 } ∷ fields)
    else undefined

unfoldable pub set_size : DivideField → ℕ → DivideField
set_size field n = elim field.type [
  | fixed ↦ record field { size = n; real_size = n }
  | percentage ↦ record field { size = n }
]

unfoldable pub add_digit : ℕ → List DivideField → Divided (List DivideField)
unfolding set_size
add_digit digit [] = refused
add_digit digit (field ∷ fields) =
    let n = field.size * 10 + digit in
    if ltb n int_end then divided (set_size field n ∷ fields) else undefined

-- The loop over the format. The field that was begun last stands first.
unfoldable pub read_char : ℕ → List DivideField → Divided (List DivideField)
unfolding new_field add_digit
read_char c fields =
    if c == 102
    then new_field fixed fields
    else if c == 112
    then new_field percentage fields
    else if leb 48 c && leb c 57
    then add_digit (c - 48) fields
    else refused

unfoldable pub read_format : List ℕ → List DivideField → Divided (List DivideField)
unfolding read_char
read_format [] fields = divided fields
read_format (c ∷ format) fields = and_then (read_char c fields) (read_format format)

-- In the order of the format.
unfoldable pub in_order : List DivideField → List DivideField → List DivideField
in_order [] done = done
in_order (field ∷ fields) done = in_order fields (field ∷ done)

unfoldable pub fixed_sum : List DivideField → ℕ
fixed_sum [] = 0
fixed_sum (field ∷ fields) = elim field.type [
  | fixed ↦ field.size + fixed_sum fields
  | percentage ↦ fixed_sum fields
]

unfoldable pub per_sum : List DivideField → ℕ
per_sum [] = 0
per_sum (field ∷ fields) = elim field.type [
  | fixed ↦ per_sum fields
  | percentage ↦ field.size + per_sum fields
]

-- The part of the space that a percentage takes.
unfoldable pub share : ℕ → DivideField → DivideField
share per_space field = elim field.type [
  | fixed ↦ field
  | percentage ↦ record field { real_size = per_space * field.size / 100 }
]

unfoldable pub per_sum_space : List DivideField → ℕ
per_sum_space [] = 0
per_sum_space (field ∷ fields) = elim field.type [
  | fixed ↦ per_sum_space fields
  | percentage ↦ field.real_size + per_sum_space fields
]

-- Whether a product that `share` takes overflows.
unfoldable pub share_overflows : ℕ → List DivideField → Bool
share_overflows per_space [] = false
share_overflows per_space (field ∷ fields) = elim field.type [
  | fixed ↦ share_overflows per_space fields
  | percentage ↦ leb int_end (per_space * field.size) || share_overflows per_space fields
]

unfoldable pub has_percentage : List DivideField → Bool
has_percentage [] = false
has_percentage (field ∷ fields) = elim field.type [
  | fixed ↦ has_percentage fields
  | percentage ↦ true
]

-- The last percentage takes what the rounding has left.
unfoldable pub correct : (per_space space_sum : ℕ) → List DivideField → List DivideField
unfolding has_percentage
correct per_space space_sum [] = []
correct per_space space_sum (field ∷ fields) =
    if has_percentage fields then field ∷ correct per_space space_sum fields else elim field.type [
      | fixed ↦ field ∷ fields
      | percentage ↦ record field { real_size = (field.real_size + per_space) - space_sum } ∷ fields
    ]

unfoldable pub lay_out : ℕ → List DivideField → Divided (List DivideField)
unfolding fixed_sum per_sum share per_sum_space correct has_percentage share_overflows
lay_out full_length fields =
    let taken = fixed_sum fields in
    let per = per_sum fields in
    let per_space = full_length - taken in
    let shared = map (share per_space) fields in
    let space_sum = per_sum_space shared in
    if leb int_end taken || leb int_end per
    then undefined
    else if ltb 100 per || ltb full_length taken
    then refused
    else if share_overflows per_space fields
    then undefined
    else if ltb per_space space_sum || per == 100
    then (if has_percentage fields then divided (correct per_space space_sum shared) else undefined)
    else divided shared

unfoldable pub sizes : List DivideField → List ℕ
sizes fields = map (λ field. field.real_size) fields

-- `full_length` is not negative.
unfoldable pub divide : List ℕ → ℕ → Divided (List ℕ)
unfolding read_format lay_out sizes in_order
divide format full_length = and_then (read_format format []) (λ fields.
    and_then (lay_out full_length (in_order fields [])) (λ laid_out. divided (sizes laid_out)))

-- The loop from the end, with `n` characters of the ending and `m` of the text left.
unfoldable pub ends_loop : (n m : ℕ) → (str end : List ℕ) → Bool
ends_loop zero m str end = true
ends_loop (suc n) zero str end = false
ends_loop (suc n) (suc m) str end =
    if get_or str m 0 == get_or end n 0 then ends_loop n m str end else false

unfoldable pub str_ends_with : List ℕ → List ℕ → Bool
unfolding ends_loop
str_ends_with str end =
    if ltb (length str) (length end) then false else ends_loop (length end) (length str) str end
