-- ===== src/Helpers/Divide.antt =====
-- The sizes that `divide` gives fill the length that it shares out.
use deep_messenger.Prelude.{
  ℕ, ◌+◌, ◌-◌, ◌*◌, ◌^◌, ◌≤◌, ◌<◌, ◌≡◌, refl, ap, ◌∙◌, Bool, true, false, ◌||◌, ◌&&◌, ◌==◌, List,
  [], ◌∷◌, ltb, leb, length, map, All, if_elim, arith,
}
use mathlib.Core.Path.{subst}
use deep_messenger.Helpers.{
  FieldType, fixed, percentage, DivideField, Divided, divided, refused, undefined, int_end,
  and_then, new_field, set_size, add_digit, read_char, read_format, in_order, fixed_sum, per_sum,
  share, per_sum_space, share_overflows, has_percentage, correct, lay_out, sizes, divide,
}

abbrev pub sum : List ℕ → ℕ
sum [] = 0
sum (n ∷ ns) = n + sum ns

-- A fixed field takes its size.
abbrev Sized : FieldType → ℕ → ℕ → Type 0
Sized fixed size real_size = real_size ≡ size
Sized percentage size real_size = Unit

abbrev IsSized : DivideField → Type 0
IsSized field = Sized field.type field.size field.real_size

abbrev OnDivided : {A : Type 0} → (A → Type 0) → Divided A → Type 0
OnDivided P (divided a) = P a
OnDivided P refused = Unit
OnDivided P undefined = Unit

abbrev pub Fills : ℕ → Divided (List ℕ) → Type 0
Fills full_length (divided ns) = sum ns ≡ full_length
Fills full_length refused = ⊥
Fills full_length undefined = ⊥

set_size-IsSized :
    (t : FieldType) (size real_size n : ℕ)
    → IsSized (set_size (record { type = t; size = size; real_size = real_size }) n)
unfolding set_size
set_size-IsSized fixed size real_size n = refl
set_size-IsSized percentage size real_size n = tt

new_field-IsSized :
    (t : FieldType) (fields : List DivideField)
    → All IsSized fields
    → OnDivided (All IsSized) (new_field t fields)
unfolding new_field
new_field-IsSized fixed fields h =
    if_elim (OnDivided (All IsSized)) (ltb (length fields) 50) (λ _. (refl, h)) (λ _. tt)
new_field-IsSized percentage fields h =
    if_elim (OnDivided (All IsSized)) (ltb (length fields) 50) (λ _. (tt, h)) (λ _. tt)

add_digit-IsSized :
    (digit : ℕ) (fields : List DivideField)
    → All IsSized fields
    → OnDivided (All IsSized) (add_digit digit fields)
unfolding add_digit
add_digit-IsSized digit [] h = tt
add_digit-IsSized digit (field ∷ fields) (_, h) =
    let n = field.size * 10 + digit in
    if_elim (OnDivided (All IsSized)) (ltb n int_end)
      (λ _. (set_size-IsSized field.type field.size field.real_size n, h)) (λ _. tt)

read_char-IsSized :
    (c : ℕ) (fields : List DivideField)
    → All IsSized fields
    → OnDivided (All IsSized) (read_char c fields)
unfolding read_char
read_char-IsSized c fields h =
    if_elim (OnDivided (All IsSized)) (c == 102) (λ _. new_field-IsSized fixed fields h)
      (λ _.
        if_elim (OnDivided (All IsSized)) (c == 112) (λ _. new_field-IsSized percentage fields h)
          (λ _.
            if_elim (OnDivided (All IsSized)) (leb 48 c && leb c 57)
              (λ _. add_digit-IsSized (c - 48) fields h) (λ _. tt)))

OnDivided-and_then :
    {A B : Type 0} (P : A → Type 0) (Q : B → Type 0) (d : Divided A) (f : A → Divided B)
    → OnDivided P d
    → ((a : A) → P a → OnDivided Q (f a))
    → OnDivided Q (and_then d f)
OnDivided-and_then P Q (divided a) f h k = k a h
OnDivided-and_then P Q refused f h k = tt
OnDivided-and_then P Q undefined f h k = tt

read_format-IsSized :
    (format : List ℕ) (fields : List DivideField)
    → All IsSized fields
    → OnDivided (All IsSized) (read_format format fields)
unfolding read_format
read_format-IsSized [] fields h = h
read_format-IsSized (c ∷ format) fields h =
    OnDivided-and_then (All IsSized) (All IsSized) (read_char c fields) (read_format format)
      (read_char-IsSized c fields h) (read_format-IsSized format)

in_order-IsSized :
    (fields done : List DivideField)
    → All IsSized fields
    → All IsSized done
    → All IsSized (in_order fields done)
unfolding in_order
in_order-IsSized [] done h k = k
in_order-IsSized (field ∷ fields) done (h, hs) k = in_order-IsSized fields (field ∷ done) hs (h, k)

-- What is shared out, of `s`, is at most what the percentages make of it.
share_le :
    (s : ℕ) (fields : List DivideField)
    → per_sum_space (map (share s) fields) * 100 ≤ s * per_sum fields
unfolding per_sum_space share per_sum
share_le s [] = omega arith
share_le s (field ∷ fields) = step field.type field.size field.real_size (share_le s fields)
  where
    step :
        (t : FieldType) (n r : ℕ)
        → per_sum_space (map (share s) fields) * 100 ≤ s * per_sum fields
        → per_sum_space (map (share s) (record { type = t; size = n; real_size = r } ∷ fields))
            * 100
          ≤ s * per_sum (record { type = t; size = n; real_size = r } ∷ fields)
    step fixed n r ih = ih
    step percentage n r ih = grind (arith, ih)

-- The fixed fields take their sizes, and the percentages what is shared out.
sum-share :
    (s : ℕ) (fields : List DivideField)
    → All IsSized fields
    → sum (sizes (map (share s) fields)) ≡ fixed_sum fields + per_sum_space (map (share s) fields)
unfolding sizes share fixed_sum per_sum_space
sum-share s [] h = refl
sum-share s (field ∷ fields) (h, hs) =
    step field.type field.size field.real_size h (sum-share s fields hs)
  where
    step :
        (t : FieldType) (n r : ℕ)
        → Sized t n r
        → sum (sizes (map (share s) fields))
          ≡ fixed_sum fields + per_sum_space (map (share s) fields)
        → sum (sizes (map (share s) (record { type = t; size = n; real_size = r } ∷ fields)))
          ≡ fixed_sum (record { type = t; size = n; real_size = r } ∷ fields)
            + per_sum_space (map (share s) (record { type = t; size = n; real_size = r } ∷ fields))
    step fixed n r e ih = omega (arith, ih, e)
    step percentage n r e ih = omega (arith, ih)

sum-correct :
    (s m : ℕ) (fields : List DivideField)
    → has_percentage fields ≡ true
    → m ≤ s
    → sum (sizes (correct s m fields)) + m ≡ sum (sizes fields) + s
unfolding sizes correct has_percentage
sum-correct s m [] h le = ground (arith, h)
sum-correct s m (field ∷ fields) h le =
    step field.type field.size field.real_size h (λ more. sum-correct s m fields more le)
  where
    step :
        (t : FieldType) (n r : ℕ)
        → has_percentage (record { type = t; size = n; real_size = r } ∷ fields) ≡ true
        → (has_percentage fields ≡ true
            → sum (sizes (correct s m fields)) + m ≡ sum (sizes fields) + s)
        → sum (sizes (correct s m (record { type = t; size = n; real_size = r } ∷ fields))) + m
          ≡ sum (sizes (record { type = t; size = n; real_size = r } ∷ fields)) + s
    step fixed n r h ih =
        if_elim (λ out. sum (sizes out) + m ≡ (r + sum (sizes fields)) + s) (has_percentage fields)
          (λ more. omega (arith, ih more)) (λ e. ground (arith, e, h))
    step percentage n r h ih =
        if_elim (λ out. sum (sizes out) + m ≡ (r + sum (sizes fields)) + s) (has_percentage fields)
          (λ more. omega (arith, ih more)) (λ _. omega (arith, le))

has_percentage-share :
    (s : ℕ) (fields : List DivideField)
    → has_percentage (map (share s) fields) ≡ has_percentage fields
unfolding has_percentage share
has_percentage-share s [] = refl
has_percentage-share s (field ∷ fields) =
    step field.type field.size field.real_size (has_percentage-share s fields)
  where
    step :
        (t : FieldType) (n r : ℕ)
        → has_percentage (map (share s) fields) ≡ has_percentage fields
        → has_percentage (map (share s) (record { type = t; size = n; real_size = r } ∷ fields))
          ≡ has_percentage (record { type = t; size = n; real_size = r } ∷ fields)
    step fixed n r ih = ih
    step percentage n r ih = refl

per_sum-has_percentage :
    (fields : List DivideField) → has_percentage fields ≡ false → per_sum fields ≡ 0
unfolding has_percentage per_sum
per_sum-has_percentage [] e = refl
per_sum-has_percentage (field ∷ fields) e =
    step field.type field.size field.real_size e (per_sum-has_percentage fields)
  where
    step :
        (t : FieldType) (n r : ℕ)
        → has_percentage (record { type = t; size = n; real_size = r } ∷ fields) ≡ false
        → (has_percentage fields ≡ false → per_sum fields ≡ 0)
        → per_sum (record { type = t; size = n; real_size = r } ∷ fields) ≡ 0
    step fixed n r e ih = ih e
    step percentage n r e ih = ground (arith, e)

some_percentage :
    (b : Bool) (fields : List DivideField)
    → has_percentage fields ≡ b
    → per_sum fields ≡ 100
    → b ≡ true
some_percentage true fields e per = refl
some_percentage false fields e per = ground (arith, per_sum-has_percentage fields e, per)

mul_mono : (s n : ℕ) → n ≤ 100 → s * n ≤ s * 100
mul_mono s n h = grind arith

no_overflow :
    (s : ℕ) (fields : List DivideField)
    → per_sum fields ≤ 100
    → s * 100 < int_end
    → share_overflows s fields ≡ false
unfolding share_overflows per_sum
no_overflow s [] h small = refl
no_overflow s (field ∷ fields) h small =
    step field.type field.size field.real_size h (λ le. no_overflow s fields le small)
  where
    step :
        (t : FieldType) (n r : ℕ)
        → per_sum (record { type = t; size = n; real_size = r } ∷ fields) ≤ 100
        → (per_sum fields ≤ 100 → share_overflows s fields ≡ false)
        → share_overflows s (record { type = t; size = n; real_size = r } ∷ fields) ≡ false
    step fixed n r h ih = ih h
    step percentage n r h ih =
        let small' : s * n < int_end = omega (arith, mul_mono s n (omega (arith, h)), small) in
        let e : leb int_end (s * n) ≡ false = ground (arith, small') in rw e (ih (omega (arith, h)))

lay_out-Fills :
    (full_length : ℕ) (fields : List DivideField)
    → All IsSized fields
    → per_sum fields ≡ 100
    → fixed_sum fields ≤ full_length
    → full_length * 100 < int_end
    → Fills full_length (and_then (lay_out full_length fields) (λ out. divided (sizes out)))
unfolding lay_out
lay_out-Fills full_length fields h per le small =
    let taken = fixed_sum fields in
    let s = full_length - taken in
    let shared = map (share s) fields in
    let m = per_sum_space shared in
    let some_per : has_percentage fields ≡ true = some_percentage _ fields refl per in
    let fits : m ≤ s = omega (arith, share_le s fields, ap (λ n. s * n) per) in
    let e1 : (leb int_end taken || leb int_end (per_sum fields)) ≡ false =
      ground (arith, per, le, small) in
    let e2 : (ltb 100 (per_sum fields) || ltb full_length taken) ≡ false =
      ground (arith, per, le) in
    let e3 : share_overflows s fields ≡ false =
      no_overflow s fields (omega (arith, per)) (omega (arith, small)) in
    let e4 : (ltb s m || per_sum fields == 100) ≡ true = ground (arith, per) in
    rw (lay_out, e1, e2, e3, e4, some_per)
      (omega (
        arith,
        sum-correct s m shared (has_percentage-share s fields ∙ some_per) fits,
        sum-share s fields h,
        le,
      ))

-- A format whose percentages make 100 and whose fixed fields fit in a length is accepted, and the
-- sizes of its fields make exactly that length: what rounding leaves over is given out. The length
-- is below 2 ^ 31 / 100, so that no product overflows.
pub divide-Fills :
    (format : List ℕ) (fields : List DivideField) (full_length : ℕ)
    → read_format format [] ≡ divided fields
    → per_sum (in_order fields []) ≡ 100
    → fixed_sum (in_order fields []) ≤ full_length
    → full_length * 100 < 2 ^ 31
    → Fills full_length (divide format full_length)
unfolding divide
divide-Fills format fields full_length read per le small =
    let known : All IsSized fields =
      subst (OnDivided (All IsSized)) read (read_format-IsSized format [] tt) in
    rw (divide, read)
      (lay_out-Fills full_length (in_order fields []) (in_order-IsSized fields [] known tt) per le
        small)
