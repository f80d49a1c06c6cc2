-- ===== src/MessageList/Exchange.antt =====
-- A list that is sent is read message by message.
use deep_messenger.Prelude.{
  ℕ, suc, ◌+◌, ◌%◌, ◌^◌, ◌<◌, ◌≡◌, refl, sym, ap, ◌∙◌, true, false, List, [], ◌∷◌, ◌++◌, All, ltb,
  ge→ltb, drop, length, length-append, drop-append, arith,
}
use mathlib.Core.Path.{subst}
use mathlib.Core.List.{append_assoc}
use deep_messenger.ProtMain.{Recv, Pmain, Run, live, ◌>>=◌, Handlers}
use deep_messenger.ProtMain.Write.{call_hooks}
use deep_messenger.BufferCrypto.{Verified, valid, ed25519_buffer_sign, ed25519_buffer_validate}
use deep_messenger.BufferCrypto.Envelope.{Cipher, htonl, ntohl}
use deep_messenger.BufferCrypto.Envelope.RoundTrip.{ntohl-htonl, length-htonl}
use deep_messenger.Ack.Exchange.{validate-sign, sign_lem, total_length}
use deep_messenger.Message.Objects.{Db}
use deep_messenger.MessageList.{MessageList, joined, list_content}
use deep_messenger.MessageList.Items.{Reading}
use deep_messenger.MessageList.Leaves.{bind_assoc}
use deep_messenger.MessageList.Framing.{IsItem, each, item_loop-each}
use deep_messenger.MessageList.Handler.{fetch_ok, list_key, read_items, list_signed, list_handle}

module _ {K S O M W : Type 0} (sha512 : List ℕ → List ℕ) (sign : List ℕ → List ℕ → List ℕ)
    (verify : List ℕ → List ℕ → List ℕ → Verified)
    (sign-length : (key hash : List ℕ) → length (sign key hash) ≡ 64) (sha3 : List ℕ → List ℕ)
    (buffer : List ℕ) (c : Cipher K S O) (db : Db W) (hs : Handlers M W)
    (wrap : MessageList → M) where
  -- The list's end, after its messages.
  unfoldable pub finish_list :
      MessageList → Recv M → Pmain M W → Reading W → Run (Pmain M W) (Recv M × Pmain M W)
  unfolding call_hooks
  finish_list msg phand p st =
      let p' =
        call_hooks hs (fetch_ok msg.from) (record p { input = st.input; world = st.world }) in
      live (
        record phand { msg = wrap (record msg { client_cont = st.cont }) },
        record p' { input = drop 64 p'.input; current_recv_done = true },
      )

  read_items-each :
      (items : List (List ℕ)) (rest : List ℕ) (msg : MessageList) (phand : Recv M) (p : Pmain M W)
      → All IsItem items
      → p.input ≡ joined items ++ rest
      → read_items sha512 sign verify sha3 buffer c db hs wrap (length (joined items)) msg phand p
        ≡ (each sha512 sign verify sha3 buffer c db msg.from items
              (record { input = p.input; cont = msg.client_cont; messages = []; world = p.world })
            >>= (λ st. finish_list msg phand p st))
  unfolding read_items finish_list
  read_items-each items rest msg phand p sizes arrived =
      let start : Reading W = record {
        input = p.input;
        cont = msg.client_cont;
        messages = [];
        world = p.world;
      } in
      let k : ℕ × Reading W → Run (Pmain M W) (Recv M × Pmain M W) = λ (left, st).
        let p' =
          call_hooks hs (fetch_ok msg.from) (record p { input = st.input; world = st.world }) in
        live (
          record phand { msg = wrap (record msg { client_cont = st.cont }) },
          record p' { input = drop 64 (drop left p'.input); current_recv_done = true },
        ) in
      ap (λ r. r >>= k)
        (item_loop-each sha512 sign verify sha3 buffer c db (Pmain M W)
          (suc (length (joined items))) msg.from items rest start sizes arrived (omega arith))
      ∙ bind_assoc (each sha512 sign verify sha3 buffer c db msg.from items start)
          (λ st. live (0, st)) k

  content_lem :
      (txn_id items : List ℕ)
      → length items < 2 ^ 32
      → list_content txn_id items ≡ 1 ∷ 0x8C ∷ (txn_id ++ (htonl (length items) ++ items))
  unfolding list_content
  content_lem txn_id items room =
      let counted : length items % 2 ^ 32 ≡ length items = omega arith in
      ap (λ n. 1 ∷ 0x8C ∷ (txn_id ++ (htonl n ++ items))) counted

  -- A list with its signature that has arrived.
  module _ (txn_id priv_key rest : List ℕ) (items : List (List ℕ)) (input : List ℕ)
      (id16 : length txn_id ≡ 16) (room : length (joined items) < 2 ^ 31)
      (arrived : input
        ≡ ed25519_buffer_sign sha512 sign verify (list_content txn_id (joined items)) priv_key
          ++ rest) where
    abbrev len : ℕ
    len = length (joined items)

    abbrev front : List ℕ
    front = 1 ∷ 0x8C ∷ (txn_id ++ htonl len)

    abbrev pub signature : List ℕ
    signature = sign priv_key (sha512 (list_content txn_id (joined items)))

    parted : input ≡ 1 ∷ 0x8C ∷ (txn_id ++ (htonl len ++ (joined items ++ (signature ++ rest))))
    parted =
        arrived
        ∙ ap (λ l. l ++ rest)
            (sign_lem sha512 sign verify sign-length (list_content txn_id (joined items)) priv_key)
        ∙ ap (λ l. l ++ signature ++ rest) (content_lem txn_id (joined items) (omega (arith, room)))
        ∙ ap (λ l. 1 ∷ 0x8C ∷ l) (simp append_assoc refl)

    len_lem : ntohl (drop 18 input) ≡ len
    len_lem =
        ap (λ l. ntohl (drop 18 l)) parted
        ∙ ap ntohl (drop-append txn_id (htonl len ++ (joined items ++ (signature ++ rest))) 16 id16)
        ∙ ntohl-htonl len (joined items ++ (signature ++ rest)) (omega (arith, room))

    behind : drop 22 input ≡ joined items ++ (signature ++ rest)
    behind =
        let four = length-htonl len in
        let size : length front ≡ 22 =
          omega (arith, length-append txn_id (htonl len), four, id16) in
        ap (drop 22) (
          parted
          ∙ ap (λ l. 1 ∷ 0x8C ∷ l)
              (sym (append_assoc txn_id (htonl len) (joined items ++ (signature ++ rest)))))
        ∙ drop-append front (joined items ++ (signature ++ rest)) 22 size

    content_size : length (list_content txn_id (joined items)) ≡ 22 + len
    content_size =
        let same = ap length (content_lem txn_id (joined items) (omega (arith, room))) in
        let outer = length-append txn_id (htonl len ++ joined items) in
        let inner = length-append (htonl len) (joined items) in
        let four = length-htonl len in omega (arith, same, outer, inner, four, id16)

    total : length input ≡ 22 + len + 64 + length rest
    total =
        let size = content_size in
        let whole =
          total_length sha512 sign verify sign-length input (list_content txn_id (joined items))
            priv_key rest arrived in
        omega (arith, size, whole)

    genuine :
        (pub_key : List ℕ)
        → ((hash : List ℕ) → verify pub_key (sign priv_key hash) hash ≡ valid)
        → ed25519_buffer_validate sha512 sign verify input (22 + (len + 64)) pub_key ≡ true
    genuine pub_key pair =
        let content = list_content txn_id (joined items) in
        ap (λ l. ed25519_buffer_validate sha512 sign verify l (22 + (len + 64)) pub_key) arrived
        ∙ ap
            (λ n.
              ed25519_buffer_validate sha512 sign verify
                (ed25519_buffer_sign sha512 sign verify content priv_key ++ rest) n pub_key)
            (omega (arith, content_size))
        ∙ validate-sign sha512 sign verify sign-length pub_key priv_key content rest pair

  list_handle_lem :
      (n m : ℕ) (pub_key : List ℕ) (msg : MessageList) (phand : Recv M) (p : Pmain M W)
      → ntohl (drop 18 p.input) ≡ n
      → 22 + (n + 64) % 2 ^ 32 ≡ m
      → ltb (length p.input) 22 ≡ false
      → ltb (length p.input) m ≡ false
      → list_key {P = Pmain M W} buffer db msg.from msg.client_cont p.world ≡ live pub_key
      → ed25519_buffer_validate sha512 sign verify p.input m pub_key ≡ true
      → list_handle sha512 sign verify sha3 buffer c db hs wrap msg phand p
        ≡ read_items sha512 sign verify sha3 buffer c db hs wrap n msg phand
            (record p { input = drop 22 p.input })
  unfolding list_handle list_signed
  list_handle_lem n m pub_key msg phand p read whole header all_in key genuine =
      let checked : list_signed sha512 sign verify sha3 buffer c db hs wrap n m msg phand p pub_key
          ≡ read_items sha512 sign verify sha3 buffer c db hs wrap n msg phand
              (record p { input = drop 22 p.input }) =
        rw (list_signed, genuine) refl in
      rw (list_handle, header)
        (subst
          (λ k.
            elim (ltb (length p.input) (22 + (k + 64) % 2 ^ 32)) [
              | true ↦ live (phand, p)
              | false ↦ list_key buffer db msg.from msg.client_cont p.world >>= (λ key.
                  list_signed sha512 sign verify sha3 buffer c db hs wrap k (22 + (k + 64) % 2 ^ 32)
                    msg phand p key)
            ]
            ≡ read_items sha512 sign verify sha3 buffer c db hs wrap n msg phand
                (record p { input = drop 22 p.input }))
          (sym read)
          (subst
            (λ k.
              elim (ltb (length p.input) k) [
                | true ↦ live (phand, p)
                | false ↦ list_key buffer db msg.from msg.client_cont p.world >>= (λ key.
                    list_signed sha512 sign verify sha3 buffer c db hs wrap n k msg phand p key)
              ]
              ≡ read_items sha512 sign verify sha3 buffer c db hs wrap n msg phand
                  (record p { input = drop 22 p.input }))
            (sym whole) (rw (all_in, key) checked)))

  -- A list of messages that is signed with the key that the handler expects, arriving first in the
  -- input, is read message by message in its order, each from its own bytes; then the hooks are
  -- called, and the handler is done. Each message is as long as the length inside it says, and
  -- all together are shorter than 2 ^ 31 bytes.
  pub list_handle-each :
      (txn_id priv_key pub_key rest : List ℕ) (items : List (List ℕ)) (msg : MessageList)
      (phand : Recv M) (p : Pmain M W)
      → length txn_id ≡ 16
      → length (joined items) < 2 ^ 31
      → All IsItem items
      → ((hash : List ℕ) → verify pub_key (sign priv_key hash) hash ≡ valid)
      → list_key {P = Pmain M W} buffer db msg.from msg.client_cont p.world ≡ live pub_key
      → p.input
        ≡ ed25519_buffer_sign sha512 sign verify (list_content txn_id (joined items)) priv_key
          ++ rest
      → list_handle sha512 sign verify sha3 buffer c db hs wrap msg phand p ≡ (
          each sha512 sign verify sha3 buffer c db msg.from items (record {
            input = drop 22 p.input;
            cont = msg.client_cont;
            messages = [];
            world = p.world;
          })
          >>= (λ st. finish_list msg phand p st))
  unfolding finish_list
  list_handle-each txn_id priv_key pub_key rest items msg phand p id16 room sizes pair key arrived =
      let n = length (joined items) in
      let read = len_lem txn_id priv_key rest items p.input id16 room arrived in
      let size = total txn_id priv_key rest items p.input id16 room arrived in
      let counted : (n + 64) % 2 ^ 32 ≡ n + 64 = omega (arith, room) in
      let header : ltb (length p.input) 22 ≡ false = ge→ltb _ _ (omega (arith, size)) in
      let all_in : ltb (length p.input) (22 + (n + 64)) ≡ false =
        ge→ltb _ _ (omega (arith, size)) in
      list_handle_lem n (22 + (n + 64)) pub_key msg phand p read (omega (arith, counted)) header
        all_in key (genuine txn_id priv_key rest items p.input id16 room arrived pub_key pair)
      ∙ read_items-each items
          (signature txn_id priv_key rest items p.input id16 room arrived ++ rest) msg phand
          (record p { input = drop 22 p.input }) sizes
          (behind txn_id priv_key rest items p.input id16 room arrived)
