-- ===== src/Message/Fields.antt =====
-- The parts of a message as a client sends it.
use deep_messenger.Prelude.{
  ℕ, ◌≡◌, refl, ap, ◌∙◌, List, ◌∷◌, ◌++◌, take, drop, length, take-drop, length-append, drop-append,
  arith,
}
use mathlib.Core.List.{append_assoc}

-- The identifiers and the key in front of the encrypted body.
pub record Parts (txn_id mb_id key gid : List ℕ) : Type 0 where
  pub txn_size : length txn_id ≡ 16
  pub mb_size : length mb_id ≡ 16
  pub key_size : length key ≡ 32
  pub gid_size : length gid ≡ 16

abbrev pub front : (txn_id mb_id key gid : List ℕ) → List ℕ
front txn_id mb_id key gid = 1 ∷ 0x84 ∷ (txn_id ++ (mb_id ++ (key ++ gid)))

module _ (txn_id mb_id key gid : List ℕ) (sizes : Parts txn_id mb_id key gid) where
  pub front_length : length (front txn_id mb_id key gid) ≡ 82
  front_length =
      let txn_size = sizes.txn_size in
      let mb_size = sizes.mb_size in
      let key_size = sizes.key_size in
      let gid_size = sizes.gid_size in
      omega (
        arith,
        length-append txn_id (mb_id ++ (key ++ gid)),
        length-append mb_id (key ++ gid),
        length-append key gid,
        txn_size,
        mb_size,
        key_size,
        gid_size,
      )

  pub read_front :
      (input behind : List ℕ)
      → input ≡ front txn_id mb_id key gid ++ behind
      → (take 16 (drop 18 input) ≡ mb_id)
        × (take 32 (drop 34 input) ≡ key)
        × (take 16 (drop 66 input) ≡ gid)
        × (drop 82 input ≡ behind)
  read_front input behind e =
      let txn_size = sizes.txn_size in
      let mb_size = sizes.mb_size in
      let key_size = sizes.key_size in
      let two : length (txn_id ++ mb_id) ≡ 32 =
        omega (arith, length-append txn_id mb_id, txn_size, mb_size) in
      let three : length ((txn_id ++ mb_id) ++ key) ≡ 64 =
        omega (arith, length-append (txn_id ++ mb_id) key, two, key_size) in
      let at_mb : input ≡ 1 ∷ 0x84 ∷ (txn_id ++ (mb_id ++ (key ++ (gid ++ behind)))) =
        e ∙ ap (λ l. 1 ∷ 0x84 ∷ l) (simp append_assoc refl) in
      let at_key : input ≡ 1 ∷ 0x84 ∷ ((txn_id ++ mb_id) ++ (key ++ (gid ++ behind))) =
        at_mb ∙ ap (λ l. 1 ∷ 0x84 ∷ l) (simp append_assoc refl) in
      let at_gid : input ≡ 1 ∷ 0x84 ∷ (((txn_id ++ mb_id) ++ key) ++ (gid ++ behind)) =
        at_key ∙ ap (λ l. 1 ∷ 0x84 ∷ l) (simp append_assoc refl) in
      (
        ap (λ l. take 16 (drop 18 l)) at_mb
            ∙ take-drop txn_id mb_id (key ++ (gid ++ behind)) 16 16 txn_size mb_size,
        ap (λ l. take 32 (drop 34 l)) at_key
            ∙ take-drop (txn_id ++ mb_id) key (gid ++ behind) 32 32 two key_size,
        ap (λ l. take 16 (drop 66 l)) at_gid
            ∙ take-drop ((txn_id ++ mb_id) ++ key) gid behind 64 16 three sizes.gid_size,
        ap (drop 82) e ∙ drop-append (front txn_id mb_id key gid) behind 82 front_length,
      )
