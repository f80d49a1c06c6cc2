-- ===== src/Queue.antt =====
-- queue.c: a queue of linked nodes. The memory is the list of all nodes ever made, an address being
-- a node's place in it; a freed node is left where it is and not made again. `none` is a null
-- pointer, and reading through it gives `none` too.
pub mod Chain
use deep_messenger.Prelude.{
  ℕ, zero, suc, ◌+◌, ◌-◌, ◌==◌, Bool, Option, none, some, List, [], ◌∷◌, ◌++◌, if◌then◌else◌, ltb,
  length, get_elem?, set,
}

module _ (A : Type 0) where
  pub record Node : Type 0 where
    pub item : A
    pub next : Option ℕ

  pub record Queue : Type 0 where
    pub len : ℕ
    pub front : Option ℕ
    pub rear : Option ℕ
    pub memory : List Node

module _ {A : Type 0} where
  unfoldable pub queue_new : Queue A
  queue_new = record { len = 0; front = none; rear = none; memory = [] }

  -- The node that a pointer names.
  abbrev pub at : List (Node A) → Option ℕ → Option (Node A)
  at memory none = none
  at memory (some address) = get_elem? memory address

  -- The write of the node's `next`.
  abbrev pub link : List (Node A) → Option ℕ → ℕ → Option (List (Node A))
  link memory none address = none
  link memory (some rear) address = elim (get_elem? memory rear) [
    | none ↦ none
    | some node ↦ some (set memory rear (record node { next = some address }))
  ]

  unfoldable pub queue_enqueue : Queue A → A → Option (Queue A)
  queue_enqueue q item =
      let address = length q.memory in
      let memory = q.memory ++ (record { item = item; next = none } ∷ []) in
      let linked = link memory q.rear address in
      if q.len == 0
      then some
          (record { len = q.len + 1; front = some address; rear = some address; memory = memory })
      else elim linked [
        | none ↦ none
        | some memory ↦
            some (record { len = q.len + 1; front = q.front; rear = some address; memory = memory })
      ]

  -- `queue_dequeue` with no place to copy the item to: 1 for an empty queue, and 0.
  unfoldable pub queue_dequeue : Queue A → Option (ℕ × Queue A)
  queue_dequeue q =
      let dequeued : Option (ℕ × Queue A) = elim (at q.memory q.front) [
        | none ↦ none
        | some node ↦ some (
          0,
          record q {
            len = q.len - 1;
            front = node.next;
            rear = if q.len == 1 then none else q.rear;
          },
        )
      ] in
      if q.len == 0 then some (1, q) else dequeued

  -- The walk of `index` nodes.
  unfoldable pub walk : List (Node A) → ℕ → Option (Node A) → Option (Node A)
  walk memory zero node = node
  walk memory (suc index) none = none
  walk memory (suc index) (some node) = walk memory index (at memory node.next)

  -- The item at an index, which is no negative number here, or a null pointer.
  unfoldable pub queue_peek : Queue A → ℕ → Option (Option A)
  unfolding walk
  queue_peek q index =
      let found : Option (Option A) = elim (walk q.memory index (at q.memory q.front)) [
        | none ↦ none
        | some node ↦ some (some node.item)
      ] in
      if ltb index q.len then found else some none
