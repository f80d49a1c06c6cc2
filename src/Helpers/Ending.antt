-- ===== src/Helpers/Ending.antt =====
-- `str_ends_with` holds of the texts whose last characters are the ending.
use deep_messenger.Prelude.{
  ℕ, zero, suc, ◌+◌, ◌-◌, ◌≤◌, ◌<◌, ◌≡◌, ◌↔◌, ◌⊎◌, inl, inr, refl, sym, ap, ◌∙◌, true, ◌==◌, ==_iff,
  List, [], ◌∷◌, ltb, get_or, drop, length, if_elim, if_true, if_false, ge→ltb, not_ltb,
  length-drop, arith,
}
use deep_messenger.Helpers.{ends_loop, str_ends_with}

-- From position `k` on, a text has the first `n` characters of an ending.
abbrev SameTo : (n k : ℕ) → (str end : List ℕ) → Type 0
SameTo n k str end = (i : ℕ) → i < n → get_or str (k + i) 0 ≡ get_or end i 0

lt_suc : (i n : ℕ) → i < suc n → (i < n) ⊎ (i ≡ n)
lt_suc i n h = ground arith

ends_loop→SameTo :
    (n m k : ℕ) (str end : List ℕ) → m ≡ k + n → ends_loop n m str end ≡ true → SameTo n k str end
unfolding ends_loop
ends_loop→SameTo zero m k str end e h i lt = ground (arith, lt)
ends_loop→SameTo (suc n) zero k str end e h i lt = ground (arith, h)
ends_loop→SameTo (suc n) (suc m) k str end e h i lt =
    if_elim (λ b. b ≡ true → get_or str (k + i) 0 ≡ get_or end i 0)
      (get_or str m 0 == get_or end n 0)
      (λ same h'. elim (lt_suc i n lt) [
        | inl lt' ↦ ends_loop→SameTo n m k str end (omega (arith, e)) h' i lt'
        | inr at_n ↦
            ap (λ j. get_or str j 0) (omega (arith, at_n, e))
            ∙ (==_iff (get_or str m 0) (get_or end n 0)).0 same
            ∙ ap (λ j. get_or end j 0) (sym at_n)
      ])
      (λ _ h'. ground (arith, h')) h

SameTo→ends_loop :
    (n m k : ℕ) (str end : List ℕ) → m ≡ k + n → SameTo n k str end → ends_loop n m str end ≡ true
unfolding ends_loop
SameTo→ends_loop zero m k str end e h = refl
SameTo→ends_loop (suc n) zero k str end e h = ground (arith, e)
SameTo→ends_loop (suc n) (suc m) k str end e h =
    let last : get_or str m 0 ≡ get_or end n 0 =
      ap (λ j. get_or str j 0) (omega (arith, e)) ∙ h n (omega arith) in
    if_true _ _ _ ((==_iff (get_or str m 0) (get_or end n 0)).1 last)
    ∙ SameTo→ends_loop n m k str end (omega (arith, e)) (λ i lt. h i (omega (arith, lt)))

zero_add : (i : ℕ) → i ≡ 0 + i
zero_add i = omega arith

suc_add : (k i : ℕ) → suc (k + i) ≡ suc k + i
suc_add k i = omega arith

get_or-drop : (k i : ℕ) (xs : List ℕ) → get_or (drop k xs) i 0 ≡ get_or xs (k + i) 0
get_or-drop zero i xs = ap (λ j. get_or xs j 0) (zero_add i)
get_or-drop (suc k) i [] = refl
get_or-drop (suc k) i (x ∷ xs) = get_or-drop k i xs ∙ ap (λ j. get_or (x ∷ xs) j 0) (suc_add k i)

get_or_ext :
    (xs ys : List ℕ)
    → length xs ≡ length ys
    → ((i : ℕ) → i < length ys → get_or xs i 0 ≡ get_or ys i 0)
    → xs ≡ ys
get_or_ext [] [] e h = refl
get_or_ext [] (y ∷ ys) e h = ground (arith, e)
get_or_ext (x ∷ xs) [] e h = ground (arith, e)
get_or_ext (x ∷ xs) (y ∷ ys) e h =
    ap (λ z. z ∷ xs) (h 0 (omega arith))
    ∙ ap (λ l. y ∷ l) (get_or_ext xs ys (omega (arith, e)) (λ i lt. h (suc i) (omega (arith, lt))))

-- The comparison from the end of both texts holds exactly if the first is at least as long as the
-- ending and the rest of it, from where the ending would begin, is the ending.
pub str_ends_with_iff :
    (str end : List ℕ)
    → (str_ends_with str end ≡ true)
      ↔ ((length end ≤ length str) × (drop (length str - length end) str ≡ end))
unfolding str_ends_with
str_ends_with_iff str end = (
  if_elim (λ b. b ≡ true → (length end ≤ length str) × (drop k str ≡ end))
      (ltb (length str) (length end)) (λ _ h. ground (arith, h))
      (λ long h. found (omega (arith, not_ltb (length str) (length end) long)) h),
  λ (h : (length end ≤ length str) × (drop k str ≡ end)).
      if_false _ _ _ (ge→ltb (length str) (length end) h.0)
      ∙ SameTo→ends_loop (length end) (length str) k str end (omega (arith, h.0))
          (λ i lt. sym (get_or-drop k i str) ∙ ap (λ l. get_or l i 0) h.1),
)
  where
    k : ℕ
    k = length str - length end

    found :
        length end ≤ length str
        → ends_loop (length end) (length str) str end ≡ true
        → (length end ≤ length str) × (drop k str ≡ end)
    found le h = (
      le,
      get_or_ext (drop k str) end (omega (arith, length-drop k str, le)) (λ i lt.
          get_or-drop k i str
          ∙ ends_loop→SameTo (length end) (length str) k str end (omega (arith, le)) h i lt),
    )
