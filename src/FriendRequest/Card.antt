-- ===== src/FriendRequest/Card.antt =====
-- What a client sends of itself in a friend request, written and read.
use deep_messenger.Prelude.{
  ℕ, ◌%◌, ◌^◌, ◌≤◌, ◌<◌, ◌≡◌, refl, sym, ap, ◌∙◌, not, List, [], ◌∷◌, ◌++◌, ◌==◌, get_or, take,
  length, length-append, take-append, drop-append, arith,
}
use mathlib.Core.List.{append_assoc, append-nil}
use deep_messenger.Message.Objects.{DbContact}
use deep_messenger.FriendRequest.{friend_content, set_fields, remove_fields}

-- What a client sends of itself.
pub record Card : Type 0 where
  pub onion : List ℕ
  pub sig_key : List ℕ
  pub enc_key : List ℕ
  pub mb_onion : List ℕ
  pub mb_id : List ℕ
  pub nick : List ℕ
  pub onion_size : length onion ≡ 62
  pub sig_size : length sig_key ≡ 32
  pub enc_size : length enc_key ≡ 270
  pub mb_onion_size : length mb_onion ≡ 62
  pub mb_id_size : length mb_id ≡ 16
  pub nick_size : length nick < 256

-- The contact that the receiver makes of it.
unfoldable pub with_card : Card → DbContact → DbContact
with_card card friend = record friend {
  remote_sig_key_pub = card.sig_key;
  remote_enc_key_pub = card.enc_key;
  mailbox_onion = card.mb_onion;
  mailbox_id = card.mb_id;
  has_mailbox = not (get_or card.mb_id 0 0 == 0);
  nickname = card.nick;
}

get_or-front : (xs ys : List ℕ) → 1 ≤ length xs → get_or (xs ++ ys) 0 0 ≡ get_or xs 0 0
get_or-front [] ys h = absurd (omega arith)
get_or-front (x ∷ xs) ys h = refl

take_all : (xs : List ℕ) (n : ℕ) → n ≡ length xs → take n xs ≡ xs
take_all xs n e = ap (take n) (sym (append-nil xs)) ∙ take-append xs [] n (sym e)

module _ (card : Card) where
  abbrev pub tail_of : List ℕ → List ℕ
  tail_of rest =
      card.sig_key
      ++ (card.enc_key
          ++ (card.mb_onion ++ (card.mb_id ++ (length card.nick ∷ (card.nick ++ rest)))))

  pub remove_fields-card :
      (friend : DbContact) (sig rest : List ℕ)
      → length sig ≡ 64
      → remove_fields (length card.nick) friend (tail_of (sig ++ rest))
        ≡ (with_card card friend, rest)
  unfolding remove_fields set_fields with_card
  remove_fields-card friend sig rest size =
      let last = card.nick ++ (sig ++ rest) in
      let id = card.mb_id ++ (length card.nick ∷ last) in
      let onion = card.mb_onion ++ id in
      let enc = card.enc_key ++ onion in
      let first =
        get_or-front card.mb_id (length card.nick ∷ last) (omega (arith, card.mb_id_size)) in
      rw
        (
          remove_fields,
          take-append card.sig_key enc 32 card.sig_size,
          drop-append card.sig_key enc 32 card.sig_size,
          take-append card.enc_key onion 270 card.enc_size,
          drop-append card.enc_key onion 270 card.enc_size,
          take-append card.mb_onion id 62 card.mb_onion_size,
          drop-append card.mb_onion id 62 card.mb_onion_size,
          first,
          take-append card.mb_id (length card.nick ∷ last) 16 card.mb_id_size,
          drop-append card.mb_id (length card.nick ∷ last) 16 card.mb_id_size,
          take-append card.nick (sig ++ rest) (length card.nick) refl,
          drop-append card.nick (sig ++ rest) (length card.nick) refl,
          drop-append sig rest 64 size,
        )
        refl

  pub content_lem :
      (txn_id : List ℕ)
      → friend_content txn_id card.onion card.sig_key card.enc_key card.mb_onion card.mb_id
          card.nick
        ≡ 1 ∷ 0x81 ∷ (txn_id ++ (card.onion ++ tail_of []))
  unfolding friend_content
  content_lem txn_id =
      let small = card.nick_size in
      let counted : length card.nick % 2 ^ 8 ≡ length card.nick = omega (arith, small) in
      let whole : take (length card.nick) card.nick ≡ card.nick ++ [] =
        take_all card.nick (length card.nick) refl ∙ sym (append-nil card.nick) in
      ap
        (λ n.
          1
          ∷ 0x81
          ∷ (txn_id
              ++ (card.onion
                  ++ (card.sig_key
                      ++ (card.enc_key
                          ++ (card.mb_onion ++ (card.mb_id ++ (n ∷ take n card.nick))))))))
        counted
      ∙ ap
          (λ l.
            1
            ∷ 0x81
            ∷ (txn_id
                ++ (card.onion
                    ++ (card.sig_key
                        ++ (card.enc_key
                            ++ (card.mb_onion ++ (card.mb_id ++ (length card.nick ∷ l))))))))
          whole

  unfoldable pub front : List ℕ → List ℕ
  front txn_id =
      1
      ∷ 0x81
      ∷ (txn_id
          ++ (card.onion ++ (card.sig_key ++ (card.enc_key ++ (card.mb_onion ++ card.mb_id)))))

  pub length-front : (txn_id : List ℕ) → length txn_id ≡ 16 → length (front txn_id) ≡ 460
  unfolding front
  length-front txn_id id16 =
      let a =
        length-append txn_id
          (card.onion ++ (card.sig_key ++ (card.enc_key ++ (card.mb_onion ++ card.mb_id)))) in
      let b =
        length-append card.onion
          (card.sig_key ++ (card.enc_key ++ (card.mb_onion ++ card.mb_id))) in
      let c = length-append card.sig_key (card.enc_key ++ (card.mb_onion ++ card.mb_id)) in
      let d = length-append card.enc_key (card.mb_onion ++ card.mb_id) in
      let e = length-append card.mb_onion card.mb_id in
      let s1 = card.onion_size in
      let s2 = card.sig_size in
      let s3 = card.enc_size in
      let s4 = card.mb_onion_size in
      let s5 = card.mb_id_size in omega (arith, a, b, c, d, e, s1, s2, s3, s4, s5, id16)

  pub content-front :
      (txn_id rest : List ℕ)
      → 1 ∷ 0x81 ∷ (txn_id ++ (card.onion ++ tail_of rest))
        ≡ front txn_id ++ (length card.nick ∷ (card.nick ++ rest))
  unfolding front
  content-front txn_id rest = ap (λ l. 1 ∷ 0x81 ∷ l) (simp append_assoc refl)

  pub tail_append :
      (txn_id rest : List ℕ)
      → (1 ∷ 0x81 ∷ (txn_id ++ (card.onion ++ tail_of []))) ++ rest
        ≡ 1 ∷ 0x81 ∷ (txn_id ++ (card.onion ++ tail_of rest))
  tail_append txn_id rest = ap (λ l. 1 ∷ 0x81 ∷ l) (simp append_assoc refl)
