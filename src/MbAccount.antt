-- ===== src/MbAccount.antt =====
-- prot_mb_acc_register.c, prot_mb_acc_granted.c and prot_mb_acc_delete.c: a client opens an account
-- at a mailbox with an access key, is told the account's identifier, and deletes the account.
-- `granted_recv` and `granted_tran` make the handlers of the answer, `ack_recv` and `ack_tran`
-- those of an acknowledgement.
pub mod Opening
pub mod New
use deep_messenger.Prelude.{
  ℕ, zero, suc, ◌+◌, Bool, true, false, Option, none, some, List, [], ◌∷◌, ◌++◌, ltb, take, drop,
  length, if◌then◌else◌,
}
use deep_messenger.Prelude.Int.{ℤ, pos, negsuc}
use deep_messenger.ProtMain.{err_invalid_msg, Recv, Tran, Pmain, Run, live, fault, ◌>>=◌, Handlers}
use deep_messenger.ProtMain.Codes.{
  prot_header, mailbox_register, mailbox_granted, mailbox_del_account, ack_onion,
}
use deep_messenger.ProtMain.Write.{
  call_hooks, prot_main_push_tran, prot_main_push_recv, prot_main_set_error,
}
use deep_messenger.BufferCrypto.{Verified, ed25519_buffer_sign, ed25519_buffer_validate}
use deep_messenger.Ack.{Ack}
use deep_messenger.SetContacts.{Account}
use deep_messenger.Message.{message_ack}
use deep_messenger.Message.Objects.{MbKey, Db}
use deep_messenger.Fetch.{request}

-- What a client knows of its account.
pub record AccountData : Type 0 where
  pub onion_address : List ℕ
  pub onion_key : List ℕ
  pub access_key : List ℕ
  pub sig_pub_key : List ℕ
  pub sig_priv_key : List ℕ
  pub mailbox_id : List ℕ

pub record MbAcc : Type 0 where
  pub mb_acc : Option Account
  pub cl_acc : Option AccountData

abbrev pub ev_delete_ok : ℕ
ev_delete_ok = 0x8901

abbrev pub ev_delete_fail : ℕ
ev_delete_fail = 0x8902

abbrev pub ev_register_ok : ℕ
ev_register_ok = 0x8501

abbrev pub ev_register_fail : ℕ
ev_register_fail = 0x8502

-- The number of uses that are left, less one, if there is one.
unfoldable pub use_key : MbKey → Option MbKey
use_key dbkey = elim dbkey.uses_left [
  | pos n ↦ elim n [ zero ↦ none | suc n ↦ some (record dbkey { uses_left = pos n }) ]
  | negsuc n ↦ none
]

module _ {M W : Type 0} (hs : Handlers M W) where
  unfoldable pub register_cleanup : Tran M → Pmain M W → Pmain M W
  unfolding call_hooks
  register_cleanup phand p = if phand.success then p else call_hooks hs ev_register_fail p

  unfoldable pub granted_cleanup : Recv M → Pmain M W → Pmain M W
  unfolding call_hooks
  granted_cleanup phand p = if phand.success then p else call_hooks hs ev_register_fail p

  unfoldable pub delete_cleanup : Pmain M W → Pmain M W
  unfolding call_hooks
  delete_cleanup p = call_hooks hs ev_delete_fail p

  unfoldable pub delete_ack_received : Bool → Pmain M W → Pmain M W
  unfolding call_hooks
  delete_ack_received success p = call_hooks hs (if success then ev_delete_ok else ev_delete_fail) p

module _ {M W : Type 0} (db : Db W) (hs : Handlers M W) (wrap : MbAcc → M)
    (granted_tran : MbAcc → Tran M) (granted_recv : MbAcc → Recv M) where
  unfoldable pub register_setup : AccountData → Tran M → Pmain M W → Tran M
  unfolding prot_header
  register_setup acc phand p = record phand {
    buffer =
        phand.buffer
        ++ (prot_header mailbox_register
            ++ (p.transaction_id ++ (acc.access_key ++ acc.sig_pub_key)));
  }

  -- The client's data goes to the handler of the answer.
  unfoldable pub register_done : MbAcc → Tran M → Pmain M W → Tran M × Pmain M W
  unfolding prot_main_push_recv
  register_done acc phand p = (
    record phand { msg = wrap (record acc { cl_acc = none }) },
    prot_main_push_recv p (granted_recv acc),
  )

  -- The account of a new client, and the answer to it. `key` is the client's.
  unfoldable pub open_account :
      MbKey → List ℕ → Recv M → Pmain M W → Run (Pmain M W) (Recv M × Pmain M W)
  unfolding prot_main_push_tran
  open_account dbkey key phand p = do
    let (id, w) = db.random_id (db.mb_key_save dbkey p.world)
    let acc : Account = record { id = 0; mailbox_id = id; signing_pub_key = key }
    p' ←
        prot_main_push_tran hs (record p { world = w })
          (granted_tran (record { mb_acc = some acc; cl_acc = none }))
    live (
      record phand { msg = wrap (record { mb_acc = none; cl_acc = none }) },
      record p' { current_recv_done = true },
    )

  -- The access key is off the input whether or not it is accepted.
  unfoldable pub check_key :
      Option MbKey → Recv M → Pmain M W → Run (Pmain M W) (Recv M × Pmain M W)
  unfolding use_key open_account prot_main_set_error
  check_key none phand p = live (phand, prot_main_set_error p err_invalid_msg)
  check_key (some dbkey) phand p = elim (use_key dbkey) [
    | none ↦ live (phand, prot_main_set_error p err_invalid_msg)
    | some used ↦ open_account used (take 32 p.input) phand (record p { input = drop 32 p.input })
  ]

  unfoldable pub register_handle : Recv M → Pmain M W → Run (Pmain M W) (Recv M × Pmain M W)
  unfolding check_key
  register_handle phand p = elim (ltb (length p.input) 75) [
    | true ↦ live (phand, p)
    | false ↦
        check_key (db.mb_key_by_key p.world (take 25 (drop 18 p.input))) phand
          (record p { input = drop 25 (drop 18 p.input) })
  ]

module _ {M W : Type 0} (sha512 : List ℕ → List ℕ) (sign : List ℕ → List ℕ → List ℕ)
    (verify : List ℕ → List ℕ → List ℕ → Verified) (db : Db W) where
  unfoldable pub granted_setup : Account → Tran M → Pmain M W → Tran M
  unfolding request ed25519_buffer_sign
  granted_setup acc phand p = record phand {
    buffer =
        ed25519_buffer_sign sha512 sign verify
          (phand.buffer ++ request mailbox_granted p.transaction_id acc.mailbox_id)
          (db.onion_private_key p.world);
  }

  -- Only now the account is stored.
  unfoldable pub granted_done : Account → Pmain M W → Pmain M W
  granted_done acc p = record p { world = db.account_save acc p.world }

  -- The client is told the identifier; `input` starts with the signature.
  unfoldable pub told :
      (wrap : MbAcc → M)
      → Handlers M W
      → AccountData
      → Recv M
      → Pmain M W
      → List ℕ
      → List ℕ
      → Run (Pmain M W) (Recv M × Pmain M W)
  unfolding call_hooks
  told wrap hs acc phand p id input =
      let acc' = record acc { mailbox_id = id } in
      let p' = call_hooks hs ev_register_ok (record p { input = input }) in
      live (
        record phand { msg = wrap (record { mb_acc = none; cl_acc = some acc' }) },
        record p' { input = drop 64 p'.input; current_recv_done = true },
      )

  unfoldable pub granted_handle :
      (wrap : MbAcc → M)
      → Handlers M W
      → AccountData
      → Recv M
      → Pmain M W
      → Run (Pmain M W) (Recv M × Pmain M W)
  unfolding told prot_main_set_error ed25519_buffer_validate
  granted_handle wrap hs acc phand p = elim (ltb (length p.input) 98) [
    | true ↦ live (phand, p)
    | false ↦ elim (ed25519_buffer_validate sha512 sign verify p.input 98 acc.onion_key) [
      | false ↦ live (phand, prot_main_set_error p err_invalid_msg)
      | true ↦ told wrap hs acc phand p (take 16 (drop 18 p.input)) (drop 16 (drop 18 p.input))
    ]
  ]

  unfoldable pub delete_setup : AccountData → Tran M → Pmain M W → Tran M
  unfolding request ed25519_buffer_sign
  delete_setup acc phand p = record phand {
    buffer =
        ed25519_buffer_sign sha512 sign verify
          (phand.buffer ++ request mailbox_del_account p.transaction_id acc.mailbox_id)
          acc.sig_priv_key;
  }

  unfoldable pub delete_done :
      (ack_recv : Ack → MbAcc → Recv M)
      → MbAcc
      → AccountData
      → Tran M
      → Pmain M W
      → Tran M × Pmain M W
  unfolding prot_main_push_recv
  delete_done ack_recv msg acc phand p = (
    record phand { has_cleanup = false },
    prot_main_push_recv p (ack_recv (message_ack ack_onion acc.onion_key []) msg),
  )

  -- Only once the acknowledgement is out the account is deleted.
  unfoldable pub delete_ack_sent : Bool → Account → Pmain M W → Pmain M W
  delete_ack_sent success acc p =
      if success then record p { world = db.account_delete acc p.world } else p

  unfoldable pub delete_handle :
      (wrap : MbAcc → M)
      → Handlers M W
      → (ack_tran : Ack → MbAcc → Tran M) → Recv M
      → Pmain M W
      → Run (Pmain M W) (Recv M × Pmain M W)
  unfolding prot_main_push_tran prot_main_set_error ed25519_buffer_validate
  delete_handle wrap hs ack_tran phand p = elim (ltb (length p.input) 98) [
    | true ↦ live (phand, p)
    | false ↦ elim (db.account_by_mbid p.world (take 16 (drop 18 p.input))) [
      | none ↦ live (phand, prot_main_set_error p err_invalid_msg)
      | some acc ↦
          let msg : MbAcc = record { mb_acc = some acc; cl_acc = none } in
          elim (ed25519_buffer_validate sha512 sign verify p.input 98 acc.signing_pub_key) [
            | false ↦ live (record phand { msg = wrap msg }, prot_main_set_error p err_invalid_msg)
            | true ↦
                prot_main_push_tran hs p
                  (ack_tran (message_ack ack_onion [] (db.onion_private_key p.world)) msg)
                >>= (λ p'. live (
                  record phand { msg = wrap msg; has_cleanup = false },
                  record p' { input = drop 98 p'.input; current_recv_done = true },
                ))
          ]
    ]
  ]
