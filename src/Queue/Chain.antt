-- ===== src/Queue/Chain.antt =====
-- A queue's nodes hold a sequence of items, in the order in which they were put in.
use deep_messenger.Prelude.{
  if_true, if_false, ◌==◌, ◌-◌, ltb, ℕ, zero, suc, ◌+◌, ◌≡◌, ◌≤◌, ◌<◌, refl, sym, ap, ◌∙◌, Option,
  none, some, List, [], ◌∷◌, ◌++◌, if◌then◌else◌, length, get_elem?, length-append, set, arith,
}
use deep_messenger.Queue.{queue_dequeue, queue_peek, Node, Queue, queue_enqueue}

module _ {A : Type 0} where
  -- The nodes from `address` on, which lie at growing addresses, hold these items, at least one;
  -- the last one is at `rear` and points to nothing.
  abbrev pub Chain : List (Node A) → ℕ → ℕ → A → List A → Type 0
  Chain memory address rear x [] =
      (address ≡ rear) × (get_elem? memory address ≡ some (record { item = x; next = none }))
  Chain memory address rear x (y ∷ ys) =
      (next : ℕ) × (address < next)
      × (get_elem? memory address ≡ some (record { item = x; next = some next }))
      × Chain memory next rear y ys

  abbrev pub Holds : Queue A → List A → Type 0
  Holds q [] = (q.len ≡ 0) × (q.front ≡ none)
  Holds q (x ∷ xs) =
      (front : ℕ) × (rear : ℕ) × (q.len ≡ length xs + 1)
      × (q.front ≡ some front)
      × (q.rear ≡ some rear)
      × Chain q.memory front rear x xs

  get_elem?-append :
      (xs ys : List (Node A)) (i : ℕ) (n : Node A)
      → get_elem? xs i ≡ some n
      → get_elem? (xs ++ ys) i ≡ some n
  get_elem?-append [] ys i n h = cc
  get_elem?-append (x ∷ xs) ys zero n h = h
  get_elem?-append (x ∷ xs) ys (suc i) n h = get_elem?-append xs ys i n h

  get_elem?-last :
      (xs : List (Node A)) (n : Node A) → get_elem? (xs ++ (n ∷ [])) (length xs) ≡ some n
  get_elem?-last [] n = refl
  get_elem?-last (x ∷ xs) n = get_elem?-last xs n

  get_elem?-set_other :
      (xs : List (Node A)) (i j : ℕ) (n : Node A)
      → i < j
      → get_elem? (set xs j n) i ≡ get_elem? xs i
  get_elem?-set_other [] i j n h = refl
  get_elem?-set_other (x ∷ xs) i zero n h = absurd (omega arith)
  get_elem?-set_other (x ∷ xs) zero (suc j) n h = refl
  get_elem?-set_other (x ∷ xs) (suc i) (suc j) n h = get_elem?-set_other xs i j n (omega arith)

  get_elem?-set_above :
      (xs : List (Node A)) (i j : ℕ) (n : Node A)
      → j < i
      → get_elem? (set xs j n) i ≡ get_elem? xs i
  get_elem?-set_above [] i j n h = refl
  get_elem?-set_above (x ∷ xs) zero j n h = absurd (omega arith)
  get_elem?-set_above (x ∷ xs) (suc i) zero n h = refl
  get_elem?-set_above (x ∷ xs) (suc i) (suc j) n h = get_elem?-set_above xs i j n (omega arith)

  get_elem?-set :
      (xs : List (Node A)) (i : ℕ) (m n : Node A)
      → get_elem? xs i ≡ some m
      → get_elem? (set xs i n) i ≡ some n
  get_elem?-set [] i m n h = cc
  get_elem?-set (x ∷ xs) zero m n h = refl
  get_elem?-set (x ∷ xs) (suc i) m n h = get_elem?-set xs i m n h

  get_elem?-inside :
      (xs : List (Node A)) (i : ℕ) (n : Node A) → get_elem? xs i ≡ some n → i < length xs
  get_elem?-inside [] i n h = absurd (cc)
  get_elem?-inside (x ∷ xs) zero n h = omega arith
  get_elem?-inside (x ∷ xs) (suc i) n h = let r = get_elem?-inside xs i n h in omega (arith, r)

  rear_lem :
      (memory : List (Node A)) (address rear : ℕ) (x : A) (xs : List A)
      → Chain memory address rear x xs
      → (address ≤ rear)
        × ((y : A) × (get_elem? memory rear ≡ some (record { item = y; next = none })))
  rear_lem memory address rear x [] (e, h) = (omega (arith, e), (x, rw⁻¹ e h))
  rear_lem memory address rear x (y ∷ ys) (next, less, h, c) =
      let (above, last) = rear_lem memory next rear y ys c in (omega (arith, less, above), last)

  item_of : A → Option (Node A) → A
  item_of x none = x
  item_of x (some node) = node.item

  same_item : (m n : Node A) (o : Option (Node A)) → o ≡ some m → o ≡ some n → m.item ≡ n.item
  unfolding item_of
  same_item m n o e f = ap (item_of m.item) (sym e ∙ f)

  first :
      (memory : List (Node A)) (address rear new : ℕ) (x z : A)
      → address ≡ rear
      → z ≡ x
      → get_elem? memory rear ≡ some (record { item = z; next = some new })
      → get_elem? memory address ≡ some (record { item = x; next = some new })
  first memory address rear new x z e same h =
      ap (get_elem? memory) e ∙ h ∙ ap (λ x. some (record { item = x; next = some new })) same

  -- One more node behind the last one.
  Chain-link :
      (memory : List (Node A)) (address rear new : ℕ) (x y z : A) (xs : List A)
      → rear < new
      → get_elem? memory new ≡ some (record { item = y; next = none })
      → get_elem? memory rear ≡ some (record { item = z; next = none })
      → Chain memory address rear x xs
      → Chain
          (set memory rear (record { item = z; next = some new }))
          address
          new
          x
          (xs ++ (y ∷ []))
  Chain-link memory address rear new x y z [] above made last (e, h) =
      let here : get_elem? memory rear ≡ some (record { item = x; next = none }) = rw⁻¹ e h in
      let same : z ≡ x =
        same_item (record { item = z; next = none }) (record { item = x; next = none })
          (get_elem? memory rear) last here in
      let written = get_elem?-set memory rear _ (record { item = z; next = some new }) last in
      (
        new,
        omega (arith, e),
        first (set memory rear (record { item = z; next = some new })) address rear new x z e same
            written,
        (refl, get_elem?-set_above memory new rear _ above ∙ made),
      )
  Chain-link memory address rear new x y z (x' ∷ xs) above made last (next, less, h, c) =
      let (within, _) = rear_lem memory next rear x' xs c in
      (
        next,
        less,
        get_elem?-set_other memory address rear _ (omega (arith, within, less)) ∙ h,
        Chain-link memory next rear new x' y z xs above made last c,
      )

  Chain-append :
      (memory more : List (Node A)) (address rear : ℕ) (x : A) (xs : List A)
      → Chain memory address rear x xs
      → Chain (memory ++ more) address rear x xs
  Chain-append memory more address rear x [] (e, h) =
      (e, get_elem?-append memory more address (record { item = x; next = none }) h)
  Chain-append memory more address rear x (y ∷ ys) (next, less, h, c) = (
    next,
    less,
    get_elem?-append memory more address (record { item = x; next = some next }) h,
    Chain-append memory more next rear y ys c,
  )

  -- Putting an item in.
  queue_enqueue-Holds :
      (q : Queue A) (xs : List A) (y : A)
      → Holds q xs
      → (q' : Queue A) × (queue_enqueue q y ≡ some q') × Holds q' (xs ++ (y ∷ []))
  unfolding queue_enqueue
  queue_enqueue-Holds q [] y (empty, h) =
      let new : Node A = record { item = y; next = none } in
      (
        record {
          len = q.len + 1;
          front = some (length q.memory);
          rear = some (length q.memory);
          memory = q.memory ++ (new ∷ []);
        },
        if_true (q.len == 0) _ _ (ground (arith, empty)),
        (
          length q.memory,
          length q.memory,
          omega (arith, empty),
          refl,
          refl,
          (refl, get_elem?-last q.memory new),
        ),
      )
  queue_enqueue-Holds q (x ∷ xs) y (front, rear, size, f, r, c) =
      let new : Node A = record { item = y; next = none } in
      let memory : List (Node A) = q.memory ++ (new ∷ []) in
      let (_, (z, last)) = rear_lem q.memory front rear x xs c in
      let inside = get_elem?-inside q.memory rear _ last in
      let last' =
        get_elem?-append q.memory (new ∷ []) rear (record { item = z; next = none }) last in
      (
        record {
          len = q.len + 1;
          front = q.front;
          rear = some (length q.memory);
          memory = set memory rear (record { item = z; next = some (length q.memory) });
        },
        if_false (q.len == 0) _ _ (ground (arith, size)) ∙ rw (r, last') refl,
        (
          front,
          length q.memory,
          omega (arith, size, length-append xs (y ∷ [])),
          f,
          refl,
          Chain-link memory front rear (length q.memory) x y z xs inside
              (get_elem?-last q.memory new) last'
              (Chain-append q.memory (new ∷ []) front rear x xs c),
        ),
      )

  -- Taking an item out.
  queue_dequeue-Holds :
      (q : Queue A) (x : A) (xs : List A)
      → Holds q (x ∷ xs)
      → (queue_peek q 0 ≡ some (some x))
        × ((q' : Queue A) × (queue_dequeue q ≡ some (0, q')) × Holds q' xs)
  unfolding queue_dequeue queue_peek
  queue_dequeue-Holds q x [] (front, rear, size, f, r, (e, h)) = (
    if_true (ltb 0 q.len) _ _ (ground (arith, size)) ∙ rw (f, h) refl,
    (
      record q { len = q.len - 1; front = none; rear = if q.len == 1 then none else q.rear },
      if_false (q.len == 0) _ _ (ground (arith, size)) ∙ rw (f, h) refl,
      (omega (arith, size), refl),
    ),
  )
  queue_dequeue-Holds q x (y ∷ ys) (front, rear, size, f, r, (next, less, h, c)) = (
    if_true (ltb 0 q.len) _ _ (ground (arith, size)) ∙ rw (f, h) refl,
    (
      record q { len = q.len - 1; front = some next; rear = if q.len == 1 then none else q.rear },
      if_false (q.len == 0) _ _ (ground (arith, size)) ∙ rw (f, h) refl,
      (
        next,
        rear,
        omega (arith, size),
        refl,
        if_false (q.len == 1) none q.rear (ground (arith, size)) ∙ r,
        c,
      ),
    ),
  )

  -- The first of the items is looked at and taken out, and the others stay; of an empty queue there
  -- is an error, and it stays as it is.
  abbrev pub Removes : Queue A → List A → Type 0
  Removes q [] = queue_dequeue q ≡ some (1, q)
  Removes q (x ∷ xs) =
      (queue_peek q 0 ≡ some (some x))
      × ((q' : Queue A) × (queue_dequeue q ≡ some (0, q')) × Holds q' xs)

  dequeue-Removes : (q : Queue A) (xs : List A) → Holds q xs → Removes q xs
  unfolding queue_dequeue
  dequeue-Removes q [] (empty, h) = if_true (q.len == 0) _ _ (ground (arith, empty))
  dequeue-Removes q (x ∷ xs) h = queue_dequeue-Holds q x xs h

  -- The linked nodes are a queue: putting an item in succeeds and puts it behind the items that are
  -- held, the first of which is the one that is looked at and taken out, while the others stay; of
  -- an empty queue none is taken.
  pub queue-Holds :
      (q : Queue A) (xs : List A) (y : A)
      → Holds q xs
      → ((q' : Queue A) × (queue_enqueue q y ≡ some q') × Holds q' (xs ++ (y ∷ []))) × Removes q xs
  queue-Holds q xs y h = (queue_enqueue-Holds q xs y h, dequeue-Removes q xs h)
