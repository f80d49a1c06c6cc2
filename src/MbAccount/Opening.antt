-- ===== src/MbAccount/Opening.antt =====
-- A client that registers with an access key that has uses left gets the account's identifier.
use deep_messenger.Prelude.{
  ℕ, zero, suc, ◌≡◌, refl, ap, ◌∙◌, true, false, Option, none, some, List, [], ◌∷◌, ◌++◌, ltb,
  ge→ltb, take, drop, length, length-append, take-append, drop-append, drop-drop, arith,
}
use mathlib.Core.List.{append_assoc}
use deep_messenger.Prelude.Int.{ℤ, pos}
use deep_messenger.ProtMain.{Recv, Tran, Pmain, live, ◌>>=◌, Handlers}
use deep_messenger.ProtMain.Write.{prot_main_push_tran, call_hooks}
use deep_messenger.ProtMain.Codes.{mailbox_granted}
use deep_messenger.BufferCrypto.{Verified, valid}
use deep_messenger.SetContacts.{Account}
use deep_messenger.SignedRequest.{request_read}
use deep_messenger.Message.Objects.{MbKey, Db}
use deep_messenger.MbAccount.{
  AccountData, MbAcc, use_key, register_setup, open_account, check_key, register_handle,
  granted_setup, granted_handle, told, ev_register_ok,
}

-- The key after `k` registrations, if they were all accepted.
abbrev pub uses : ℕ → MbKey → Option MbKey
uses zero dbkey = some dbkey
uses (suc k) dbkey = elim (use_key dbkey) [ none ↦ none | some used ↦ uses k used ]

uses_lem :
    (n id : ℕ) (key : List ℕ)
    → (uses n (record { id = id; key = key; uses_left = pos n })
        ≡ some (record { id = id; key = key; uses_left = pos 0 }))
      × (uses (suc n) (record { id = id; key = key; uses_left = pos n }) ≡ none)
unfolding use_key
uses_lem zero id key = (refl, refl)
uses_lem (suc n) id key = uses_lem n id key

-- An access key with n uses left is accepted for n registrations, and then has none left; one more
-- is refused.
pub uses-use_key :
    (n : ℕ) (dbkey : MbKey)
    → dbkey.uses_left ≡ pos n
    → (uses n dbkey ≡ some (record dbkey { uses_left = pos 0 })) × (uses (suc n) dbkey ≡ none)
uses-use_key n dbkey left =
    let same : dbkey ≡ record { id = dbkey.id; key = dbkey.key; uses_left = pos n } =
      ap (λ (u : ℤ). record { id = dbkey.id; key = dbkey.key; uses_left = u }) left in
    (
      ap (uses n) same ∙ (uses_lem n dbkey.id dbkey.key).0,
      ap (uses (suc n)) same ∙ (uses_lem n dbkey.id dbkey.key).1,
    )

used_lem :
    (dbkey : MbKey) (n : ℕ)
    → dbkey.uses_left ≡ pos (suc n)
    → use_key dbkey ≡ some (record dbkey { uses_left = pos n })
unfolding use_key
used_lem dbkey n h = rw h

module _ {M W : Type 0} (db : Db W) (hs : Handlers M W) (wrap : MbAcc → M)
    (granted_tran : MbAcc → Tran M) (granted_recv : MbAcc → Recv M) where
  -- A registration, arriving first in the mailbox's input with an access key that has uses left,
  -- is accepted: exactly the request is taken off the input, the key is saved with one use less, and
  -- the answer for a new account with a random identifier and the client's public key is put into
  -- the queue; then the message is received, and its object goes with the answer.
  pub register_handle-register_setup :
      (acc : AccountData) (t : Tran M) (s p : Pmain M W) (phand : Recv M) (dbkey : MbKey) (n : ℕ)
      (rest : List ℕ)
      → t.buffer ≡ []
      → length s.transaction_id ≡ 16
      → length acc.access_key ≡ 25
      → length acc.sig_pub_key ≡ 32
      → db.mb_key_by_key p.world acc.access_key ≡ some dbkey
      → dbkey.uses_left ≡ pos (suc n)
      → p.input ≡ (register_setup db hs wrap granted_tran granted_recv acc t s).buffer ++ rest
      → register_handle db hs wrap granted_tran granted_recv phand p ≡ (
          let (id, w) =
            db.random_id (db.mb_key_save (record dbkey { uses_left = pos n }) p.world) in
          prot_main_push_tran hs
            (record p { input = rest; world = w })
            (granted_tran (record {
              mb_acc = some (record { id = 0; mailbox_id = id; signing_pub_key = acc.sig_pub_key });
              cl_acc = none;
            }))
          >>= λ p'. live (
            record phand { msg = wrap (record { mb_acc = none; cl_acc = none }) },
            record p' { current_recv_done = true },
          ))
  unfolding register_setup register_handle check_key open_account
  register_handle-register_setup acc t s p phand dbkey n rest fresh id16 key25 pub32 found more
        arrived =
      let used : MbKey = record dbkey { uses_left = pos n } in
      let left : use_key dbkey ≡ some used = used_lem dbkey n more in
      let k = acc.access_key in
      let pub_key = acc.sig_pub_key in
      let parted : p.input ≡ 1 ∷ 0x85 ∷ (s.transaction_id ++ (k ++ (pub_key ++ rest))) =
        arrived
        ∙ ap (λ b. b ++ (1 ∷ 0x85 ∷ (s.transaction_id ++ (k ++ pub_key))) ++ rest) fresh
        ∙ ap (λ l. 1 ∷ 0x85 ∷ l) (simp append_assoc refl) in
      let behind : drop 18 p.input ≡ k ++ (pub_key ++ rest) =
        ap (drop 18) parted ∙ drop-append s.transaction_id (k ++ (pub_key ++ rest)) 16 id16 in
      let enough : ltb (length p.input) 75 ≡ false = ge→ltb _ _ (
        omega (
          arith,
          ap length parted,
          length-append s.transaction_id (k ++ (pub_key ++ rest)),
          length-append k (pub_key ++ rest),
          length-append pub_key rest,
          id16,
          key25,
          pub32,
        )) in
      let key : db.mb_key_by_key p.world (take 25 (drop 18 p.input)) ≡ some dbkey =
        ap (λ l. db.mb_key_by_key p.world (take 25 l)) behind
        ∙ ap (db.mb_key_by_key p.world) (take-append k (pub_key ++ rest) 25 key25)
        ∙ found in
      let tail : drop 25 (drop 18 p.input) ≡ pub_key ++ rest =
        ap (drop 25) behind ∙ drop-append k (pub_key ++ rest) 25 key25 in
      rw (register_handle, enough, key, check_key, left)
        (ap
            (λ l.
              open_account db hs wrap granted_tran granted_recv used (take 32 l) phand
                (record p { input = drop 32 l }))
            tail
          ∙ ap
              (λ l.
                open_account db hs wrap granted_tran granted_recv used l phand
                  (record p { input = drop 32 (pub_key ++ rest) }))
              (take-append pub_key rest 32 pub32)
          ∙ ap
              (λ l.
                open_account db hs wrap granted_tran granted_recv used pub_key phand
                  (record p { input = l }))
              (drop-append pub_key rest 32 pub32))

module _ {M W : Type 0} (sha512 : List ℕ → List ℕ) (sign : List ℕ → List ℕ → List ℕ)
    (verify : List ℕ → List ℕ → List ℕ → Verified)
    (sign-length : (key hash : List ℕ) → length (sign key hash) ≡ 64) (db : Db W) where
  -- The answer of a mailbox, arriving first in the client's input and signed with the onion key of
  -- the mailbox that the client registers with, gives the client the identifier of the account that
  -- the mailbox has opened; then the hooks are called, and the signature goes.
  pub granted_handle-granted_setup :
      (wrap : MbAcc → M) (hs : Handlers M W) (opened : Account) (acc : AccountData) (t : Tran M)
      (s p : Pmain M W) (phand : Recv M) (rest : List ℕ)
      → t.buffer ≡ []
      → length s.transaction_id ≡ 16
      → length opened.mailbox_id ≡ 16
      → ((hash : List ℕ)
          → verify acc.onion_key (sign (db.onion_private_key s.world) hash) hash ≡ valid)
      → p.input ≡ (granted_setup sha512 sign verify db opened t s).buffer ++ rest
      → (granted_handle sha512 sign verify db wrap hs acc phand p ≡ (
          let p' = call_hooks hs ev_register_ok (record p { input = drop 34 p.input }) in
          live (
            record phand {
              msg = wrap (record {
                mb_acc = none;
                cl_acc = some (record acc { mailbox_id = opened.mailbox_id });
              });
            },
            record p' { input = drop 64 p'.input; current_recv_done = true },
          )))
        × (drop 64 (drop 34 p.input) ≡ rest)
  unfolding granted_setup granted_handle told
  granted_handle-granted_setup wrap hs opened acc t s p phand rest fresh id16 mb16 pair arrived =
      let key = db.onion_private_key s.world in
      let (enough, id, genuine, taken) =
        request_read sha512 sign verify sign-length mailbox_granted 16 98 t.buffer s.transaction_id
          opened.mailbox_id key acc.onion_key p.input rest id16 mb16 refl fresh pair arrived in
      let twice : drop 16 (drop 18 p.input) ≡ drop 34 p.input = drop-drop 18 16 34 p.input refl in
      (
        rw (granted_handle, enough, genuine)
            (ap (λ l. told sha512 sign verify db wrap hs acc phand p l (drop 16 (drop 18 p.input)))
                id
              ∙ ap (told sha512 sign verify db wrap hs acc phand p opened.mailbox_id) twice),
        drop-drop 34 64 98 p.input refl ∙ taken,
      )
