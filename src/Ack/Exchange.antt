-- ===== src/Ack/Exchange.antt =====
-- An acknowledgement that is sent is accepted by the party that waits for it.
use deep_messenger.Prelude.{
  ℕ, ◌+◌, ◌≡◌, refl, ap, ◌∙◌, sym, Bool, true, false, List, [], ◌∷◌, ◌++◌, ltb, length, drop, take,
  length-append, drop-append, take-append, arith, min, ◌-◌, if◌then◌else◌,
}
use mathlib.Core.List.{append_assoc, append-nil}
use deep_messenger.ProtMain.{Pmain, live}
use deep_messenger.BufferCrypto.{
  Verified, valid, hashed, ed25519_buffer_sign, ed25519_buffer_validate,
}
use deep_messenger.BufferCrypto.Extents.{take_same}
use deep_messenger.Ack.{Ack, recv_handle, call_cb, tran_setup, prot_ack_recv, prot_ack_tran}

hashed-one : (xs ys : List ℕ) → hashed (length xs) ((xs ++ ys) ∷ []) ≡ xs
unfolding hashed
hashed-one xs ys =
    append-nil _
    ∙ take_same (min (length (xs ++ ys)) (length xs)) (length xs) (xs ++ ys) refl
    ∙ take-append xs ys (length xs) refl

pub hashed_self : (xs : List ℕ) → hashed (length xs) (xs ∷ []) ≡ xs
hashed_self xs = ap (λ l. hashed (length xs) (l ∷ [])) (sym (append-nil xs)) ∙ hashed-one xs []

module _ (sha512 : List ℕ → List ℕ) (sign : List ℕ → List ℕ → List ℕ)
    (verify : List ℕ → List ℕ → List ℕ → Verified)
    (sign-length : (key hash : List ℕ) → length (sign key hash) ≡ 64) where
  -- A signed buffer validates with the key that belongs to the signing key, whatever follows it.
  pub validate-sign :
      (pub_key priv_key content rest : List ℕ)
      → ((hash : List ℕ) → verify pub_key (sign priv_key hash) hash ≡ valid)
      → ed25519_buffer_validate sha512 sign verify
          (ed25519_buffer_sign sha512 sign verify content priv_key ++ rest)
          (length content + 64)
          pub_key
        ≡ true
  unfolding ed25519_buffer_sign ed25519_buffer_validate
  validate-sign pub_key priv_key content rest pair =
      let sig = sign priv_key (sha512 content) in
      let self = hashed_self content in
      let content_len : length content + 64 - 64 ≡ length content = omega arith in
      let whole : (content ++ sig) ++ rest ≡ content ++ (sig ++ rest) =
        append_assoc content sig rest in
      let behind : drop (length content) (content ++ (sig ++ rest)) ≡ sig ++ rest =
        drop-append content (sig ++ rest) (length content) refl in
      let cut : take 64 (sig ++ rest) ≡ sig =
        take-append sig rest 64 (sign-length priv_key (sha512 content)) in
      let hash : hashed (length content) ((content ++ (sig ++ rest)) ∷ []) ≡ content =
        hashed-one content (sig ++ rest) in
      rw (self, content_len, whole, behind, cut, hash, pair (sha512 content)) refl

  call_cb-input :
      {W : Type 0} (cb : Bool → Ack → Pmain Ack W → Pmain Ack W)
      (keeps : (success : Bool) (ack : Ack) (p : Pmain Ack W) → (cb success ack p).input ≡ p.input)
      (success : Bool) (ack : Ack) (p : Pmain Ack W) (b : Bool)
      → (if b then cb success ack p else p).input ≡ p.input
  call_cb-input cb keeps success ack p true = keeps success ack p
  call_cb-input cb keeps success ack p false = refl

  pub signed_length :
      (content key : List ℕ)
      → length (ed25519_buffer_sign sha512 sign verify content key) ≡ length content + 64
  unfolding ed25519_buffer_sign
  signed_length content key =
      let both =
        length-append content (sign key (sha512 (hashed (length content) (content ∷ [])))) in
      let size = sign-length key (sha512 (hashed (length content) (content ∷ []))) in
      omega (arith, both, size)

  pub sign_lem :
      (content key : List ℕ)
      → ed25519_buffer_sign sha512 sign verify content key ≡ content ++ sign key (sha512 content)
  unfolding ed25519_buffer_sign
  sign_lem content key = ap (λ l. content ++ sign key (sha512 l)) (hashed_self content)

  pub total_length :
      (input content key rest : List ℕ)
      → input ≡ ed25519_buffer_sign sha512 sign verify content key ++ rest
      → length input ≡ length content + 64 + length rest
  total_length input content key rest e =
      let both = length-append (ed25519_buffer_sign sha512 sign verify content key) rest in
      let one = signed_length content key in
      let same = ap length e in omega (arith, both, one, same)

  not_less :
      (input front rest : List ℕ)
      → input ≡ front ++ rest
      → length front ≡ 82
      → ltb (length input) 82 ≡ false
  not_less input front rest e size =
      let both = ap length e ∙ length-append front rest in ground (arith, both)

  accepts :
      {W : Type 0} (cb : Bool → Ack → Pmain Ack W → Pmain Ack W) (waiting : Ack) (r : Pmain Ack W)
      → ltb (length r.input) 82 ≡ false
      → ed25519_buffer_validate sha512 sign verify r.input 82 waiting.pub_key ≡ true
      → recv_handle sha512 sign verify cb (prot_ack_recv waiting) r
        ≡ live (
          record (prot_ack_recv waiting) { msg = record waiting { ack_success = true } },
          record (call_cb sha512 sign verify cb true (record waiting { ack_success = true }) r) {
            input =
                drop 82
                  (call_cb sha512 sign verify cb true
                    (record waiting { ack_success = true })
                    r).input;
            current_recv_done = true;
          },
        )
  unfolding recv_handle
  accepts cb waiting r enough genuine = rw (enough, genuine) refl

  -- An acknowledgement that one party sets up under the transaction's identifier, arriving first
  -- in another party's input in the same transaction, is accepted by the handler with the
  -- belonging public key: its callback, if it has one, is called with success, exactly the acknowledgement is taken
  -- off the input, and the message is done. Its header and identifier are 18 bytes.
  pub recv_handle-tran_setup :
      {W : Type 0} (cb : Bool → Ack → Pmain Ack W → Pmain Ack W) (sent waiting : Ack)
      (s r : Pmain Ack W) (rest : List ℕ)
      → ((hash : List ℕ) → verify waiting.pub_key (sign sent.priv_key hash) hash ≡ valid)
      → ((success : Bool) (ack : Ack) (p : Pmain Ack W) → (cb success ack p).input ≡ p.input)
      → length s.transaction_id ≡ 16
      → r.input ≡ (tran_setup sha512 sign verify cb (prot_ack_tran sent) s).0.buffer ++ rest
      → recv_handle sha512 sign verify cb (prot_ack_recv waiting) r
        ≡ live (
          record (prot_ack_recv waiting) { msg = record waiting { ack_success = true } },
          record (call_cb sha512 sign verify cb true (record waiting { ack_success = true }) r) {
            input = rest;
            current_recv_done = true;
          },
        )
  unfolding recv_handle tran_setup
  recv_handle-tran_setup cb sent waiting s r rest pair cb-input id arrived =
      let content = 1 ∷ sent.msg_code ∷ s.transaction_id in
      let signed = ed25519_buffer_sign sha512 sign verify content sent.priv_key in
      let counted = signed_length content sent.priv_key in
      let size : length signed ≡ 82 = omega (arith, counted, id) in
      let total : 82 ≡ length content + 64 = omega (arith, id) in
      let enough : ltb (length r.input) 82 ≡ false = not_less r.input signed rest arrived size in
      let genuine : ed25519_buffer_validate sha512 sign verify r.input 82 waiting.pub_key ≡ true =
        ap (λ l. ed25519_buffer_validate sha512 sign verify l 82 waiting.pub_key) arrived
        ∙ ap (λ n. ed25519_buffer_validate sha512 sign verify (signed ++ rest) n waiting.pub_key)
            total
        ∙ validate-sign waiting.pub_key sent.priv_key content rest pair in
      let taken : drop 82
            (call_cb sha512 sign verify cb true (record waiting { ack_success = true }) r).input
          ≡ rest =
        ap (drop 82) (
          call_cb-input cb cb-input true (record waiting { ack_success = true }) r waiting.has_cb
          ∙ arrived)
        ∙ drop-append signed rest 82 size in
      accepts cb waiting r enough genuine
      ∙ ap
          (λ l. live (
            record (prot_ack_recv waiting) { msg = record waiting { ack_success = true } },
            record (call_cb sha512 sign verify cb true (record waiting { ack_success = true }) r) {
              input = l;
              current_recv_done = true;
            },
          ))
          taken
