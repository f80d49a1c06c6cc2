-- ===== src/SetContacts/Exchange.antt =====
-- The contacts that a client sends are those that its mailbox stores.
use deep_messenger.Prelude.{
  ℕ, ◌+◌, ◌*◌, ◌%◌, ◌<◌, ◌≡◌, refl, ap, ◌∙◌, true, false, Option, some, List, [], ◌∷◌, ◌++◌, map,
  ltb, drop, length, drop-append, arith,
}
use deep_messenger.ProtMain.{Recv, Tran, Pmain, Run, live, ◌>>=◌, Handlers}
use deep_messenger.ProtMain.Write.{prot_main_push_tran}
use deep_messenger.Socks5.{htons}
use deep_messenger.BufferCrypto.{Verified, valid, ed25519_buffer_sign, ed25519_buffer_validate}
use deep_messenger.Ack.Exchange.{validate-sign, sign_lem, total_length}
use deep_messenger.SetContacts.{
  Account, Contact, SetContacts, joined, remove_contacts, contacts_setup, store_contacts,
  check_account, contacts_handle, save_contacts, contacts_ack_sent,
}
use deep_messenger.SetContacts.Fields.{
  AreKeys, contact_of, length-joined, remove_contacts-joined, read_fields, content-length, fields,
}

module _ {M W : Type 0} (sha512 : List ℕ → List ℕ) (sign : List ℕ → List ℕ → List ℕ)
    (verify : List ℕ → List ℕ → List ℕ → Verified)
    (sign-length : (key hash : List ℕ) → length (sign key hash) ≡ 64)
    (find_account : W → List ℕ → Option Account) (hs : Handlers M W) (wrap : SetContacts → M)
    (ack_tran : SetContacts → Tran M) where
  -- The rest of the handler's run, once the message is accepted: the acknowledgement is queued.
  abbrev pub acknowledge : SetContacts → Recv M → Pmain M W → Run (Pmain M W) (Recv M × Pmain M W)
  acknowledge msg phand p = do
    p' ← prot_main_push_tran hs p (ack_tran msg)
    live (
      record phand { msg = wrap msg; has_cleanup = false },
      record p' { current_recv_done = true },
    )

  store_contacts_lem :
      (acc : Account) (keys : List (List ℕ)) (sig rest : List ℕ) (mb : SetContacts) (phand : Recv M)
      (p : Pmain M W)
      → AreKeys keys
      → length sig ≡ 64
      → drop 36 p.input ≡ joined keys ++ (sig ++ rest)
      → store_contacts sha512 sign verify find_account hs wrap ack_tran acc (length keys) mb phand p
        ≡ acknowledge
            (record mb { mb_acc = some acc; mb_conts = map (contact_of acc.id) keys })
            phand
            (record p { input = rest })
  unfolding store_contacts
  store_contacts_lem acc keys sig rest mb phand p h size e =
      let read : remove_contacts (length keys) acc.id (drop 36 p.input)
          ≡ (map (contact_of acc.id) keys, sig ++ rest) =
        ap (remove_contacts (length keys) acc.id) e
        ∙ remove_contacts-joined keys acc.id (sig ++ rest) h in
      ap
        (λ (r : List Contact × List ℕ).
          acknowledge (record mb { mb_acc = some acc; mb_conts = r.0 }) phand
            (record p { input = drop 64 r.1 }))
        read
      ∙ ap
          (λ l.
            acknowledge (record mb { mb_acc = some acc; mb_conts = map (contact_of acc.id) keys })
              phand (record p { input = l }))
          (drop-append sig rest 64 size)

  accepted :
      (mb : SetContacts) (phand : Recv M) (p : Pmain M W) (acc : Account) (keys : List (List ℕ))
      (txn_id mb_id priv_key rest : List ℕ)
      → length txn_id ≡ 16
      → length mb_id ≡ 16
      → AreKeys keys
      → length keys < 65536
      → find_account p.world mb_id ≡ some acc
      → ((hash : List ℕ) → verify acc.signing_pub_key (sign priv_key hash) hash ≡ valid)
      → p.input
        ≡ ed25519_buffer_sign sha512 sign verify
            (1 ∷ 0x88 ∷ (txn_id ++ (mb_id ++ (htons (length keys) ++ joined keys))))
            priv_key
          ++ rest
      → contacts_handle sha512 sign verify find_account hs wrap ack_tran mb phand p
        ≡ acknowledge
            (record mb { mb_acc = some acc; mb_conts = map (contact_of acc.id) keys })
            phand
            (record p { input = rest })
  unfolding contacts_handle
  accepted mb phand p acc keys txn_id mb_id priv_key rest id16 mb16 h few found pair whole =
      let n = length keys in
      let content = 1 ∷ 0x88 ∷ (txn_id ++ (mb_id ++ (htons n ++ joined keys))) in
      let sig = sign priv_key (sha512 content) in
      let signed : ed25519_buffer_sign sha512 sign verify content priv_key ≡ content ++ sig =
        sign_lem sha512 sign verify sign-length content priv_key in
      let parted : p.input
          ≡ 1 ∷ 0x88 ∷ (txn_id ++ (mb_id ++ (htons n ++ (joined keys ++ (sig ++ rest))))) =
        whole
        ∙ ap (λ l. l ++ rest) signed
        ∙ ap (λ l. 1 ∷ 0x88 ∷ l) (fields txn_id mb_id (htons n) (joined keys) sig rest) in
      let (account, number, behind) =
        read_fields p.input txn_id mb_id n (joined keys ++ (sig ++ rest)) id16 mb16 few parted in
      let size : length content ≡ 36 + n * 32 =
        omega
          (arith, content-length txn_id mb_id n (joined keys) id16 mb16, length-joined keys h) in
      let total : length p.input ≡ length content + 64 + length rest =
        total_length sha512 sign verify sign-length p.input content priv_key rest whole in
      let header : ltb (length p.input) 36 ≡ false = ground (arith, total, size) in
      let all_in : ltb (length p.input) (36 + (n * 32 + 64)) ≡ false =
        ground (arith, total, size) in
      let genuine : ed25519_buffer_validate sha512 sign verify p.input (36 + (n * 32 + 64))
            acc.signing_pub_key
          ≡ true =
        ap
          (λ l.
            ed25519_buffer_validate sha512 sign verify l (36 + (n * 32 + 64)) acc.signing_pub_key)
          whole
        ∙ ap
            (λ k.
              ed25519_buffer_validate sha512 sign verify
                (ed25519_buffer_sign sha512 sign verify content priv_key ++ rest) k
                acc.signing_pub_key)
            (omega (arith, size))
        ∙ validate-sign sha512 sign verify sign-length acc.signing_pub_key priv_key content rest
            pair in
      rw (contacts_handle, account, number, header, all_in, found, check_account, genuine)
        (store_contacts_lem acc keys sig rest mb phand p h (sign-length priv_key (sha512 content))
          behind)

  -- The keys, one after the other, saved as contacts of the account.
  abbrev pub added : (contact_save : Contact → W → W) → ℕ → List (List ℕ) → W → W
  added contact_save id [] w = w
  added contact_save id (key ∷ keys) w =
      added contact_save id keys
        (contact_save (record { id = 0; account_id = id; signing_pub_key = key }) w)

  save_contacts-added :
      (contact_save : Contact → W → W) (ack_recv : List ℕ → SetContacts → Recv M) (id : ℕ)
      (keys : List (List ℕ)) (w : W)
      → save_contacts hs contact_save ack_recv (map (contact_of id) keys) w
        ≡ added contact_save id keys w
  unfolding save_contacts
  save_contacts-added contact_save ack_recv id [] w = refl
  save_contacts-added contact_save ack_recv id (key ∷ keys) w =
      save_contacts-added contact_save ack_recv id keys (contact_save (contact_of id key) w)

  -- The contacts that a client sends to its mailbox, signed with the key of an account that the
  -- mailbox finds and arriving first in its input, are read as new contacts of that account, in the
  -- same order: the message's 36 + 32 n + 64 bytes are taken off the input and an acknowledgement is
  -- put into the queue. When it is out, in any later state `q` of the connection, each of them is
  -- saved, besides the contacts that there are; when it fails, none is. There are less than 2 ^ 16
  -- contacts, since the count is sent in two bytes.
  pub contacts_handle-contacts_setup :
      (contact_save : Contact → W → W) (ack_recv : List ℕ → SetContacts → Recv M)
      (cl mb : SetContacts) (t : Tran M) (phand : Recv M) (s p q : Pmain M W) (acc : Account)
      (rest : List ℕ)
      → t.buffer ≡ []
      → length s.transaction_id ≡ 16
      → length cl.cl_mb_id ≡ 16
      → AreKeys cl.cl_conts
      → length cl.cl_conts < 65536
      → find_account p.world cl.cl_mb_id ≡ some acc
      → ((hash : List ℕ) → verify acc.signing_pub_key (sign cl.cl_sig_priv_key hash) hash ≡ valid)
      → p.input
        ≡ (contacts_setup sha512 sign verify find_account hs wrap ack_tran cl t s).0.buffer ++ rest
      → (contacts_handle sha512 sign verify find_account hs wrap ack_tran mb phand p
          ≡ acknowledge
              (record mb { mb_acc = some acc; mb_conts = map (contact_of acc.id) cl.cl_conts })
              phand
              (record p { input = rest }))
        × (contacts_ack_sent hs contact_save ack_recv true
              (record mb { mb_acc = some acc; mb_conts = map (contact_of acc.id) cl.cl_conts })
              q
            ≡ record q { world = added contact_save acc.id cl.cl_conts q.world })
        × (contacts_ack_sent hs contact_save ack_recv false
              (record mb { mb_acc = some acc; mb_conts = map (contact_of acc.id) cl.cl_conts })
              q
            ≡ q)
  unfolding contacts_setup contacts_handle contacts_ack_sent
  contacts_handle-contacts_setup contact_save ack_recv cl mb t phand s p q acc rest fresh id16 mb16
        keys few found pair arrived =
      let n = length cl.cl_conts in
      let body = joined cl.cl_conts in
      let content = 1 ∷ 0x88 ∷ (s.transaction_id ++ (cl.cl_mb_id ++ (htons n ++ body))) in
      let counted : n % 65536 ≡ n = omega arith in
      let whole : p.input
          ≡ ed25519_buffer_sign sha512 sign verify content cl.cl_sig_priv_key ++ rest =
        arrived
        ∙ ap
            (λ b.
              ed25519_buffer_sign sha512 sign verify
                (b
                  ++ (1
                      ∷ 0x88
                      ∷ (s.transaction_id ++ (cl.cl_mb_id ++ (htons (n % 65536) ++ body)))))
                cl.cl_sig_priv_key
              ++ rest)
            fresh
        ∙ ap
            (λ m.
              ed25519_buffer_sign sha512 sign verify
                (1 ∷ 0x88 ∷ (s.transaction_id ++ (cl.cl_mb_id ++ (htons m ++ body))))
                cl.cl_sig_priv_key
              ++ rest)
            counted in
      (
        accepted mb phand p acc cl.cl_conts s.transaction_id cl.cl_mb_id cl.cl_sig_priv_key rest
            id16 mb16 keys few found pair whole,
        ap (λ w. record q { world = w })
            (save_contacts-added contact_save ack_recv acc.id cl.cl_conts q.world),
        refl,
      )
