-- ===== src/FriendRequest.antt =====
-- prot_friend_req.c: two clients become contacts, each sending the other its keys. `own` is what a
-- client has stored of itself and its generators of keys, and `buffer` what an uninitialised
-- buffer holds.
pub mod Card
pub mod Greeting
use deep_messenger.Prelude.{
  ℕ, zero, suc, ◌+◌, ◌%◌, ◌^◌, Bool, true, false, not, ◌||◌, Option, none, some, List, [], ◌∷◌,
  ◌++◌, ◌==◌, ltb, get_or, take, drop, length, if◌then◌else◌,
}
use deep_messenger.ProtMain.{err_invalid_msg, Recv, Tran, Pmain, Run, live, fault, ◌>>=◌, Handlers}
use deep_messenger.ProtMain.Codes.{prot_header, friend_request, ack_onion}
use deep_messenger.ProtMain.Write.{
  call_hooks, prot_main_push_tran, prot_main_push_recv, prot_main_set_error,
}
use deep_messenger.BufferCrypto.{Verified, ed25519_buffer_sign, ed25519_buffer_validate}
use deep_messenger.Onion.{onion_address_valid, onion_extract_key}
use deep_messenger.Ack.{Ack}
use deep_messenger.Message.{message_ack}
use deep_messenger.Message.Objects.{ContactStatus, active, pending_in, pending_out, DbContact, Db}

-- Public and private key, and the generator afterwards.
pub record Own (W : Type 0) : Type 0 where
  pub onion_address : W → List ℕ
  pub nickname : W → List ℕ
  pub mailbox_id : W → Option (List ℕ)
  pub mailbox_onion : W → Option (List ℕ)
  pub ed25519_keygen : W → List ℕ × List ℕ × W
  pub rsa_2048bit_keygen : W → List ℕ × List ℕ × W

abbrev pub ev_friend_ok : ℕ
ev_friend_ok = 0x8101

abbrev pub ev_friend_fail : ℕ
ev_friend_fail = 0x8102

abbrev pub ev_friend_incomming : ℕ
ev_friend_incomming = 0x8103

abbrev pub zeroes : ℕ → List ℕ
zeroes zero = []
zeroes (suc n) = 0 ∷ zeroes n

abbrev pub or_zeroes : ℕ → Option (List ℕ) → List ℕ
or_zeroes n none = zeroes n
or_zeroes n (some bytes) = take n bytes

unfoldable pub db_contact_new : DbContact
db_contact_new = record {
  id = 0;
  status = active;
  deleted = false;
  nickname = [];
  onion_address = [];
  onion_pub_key = [];
  has_mailbox = false;
  mailbox_id = [];
  mailbox_onion = [];
  local_sig_key_pub = [];
  local_sig_key_priv = [];
  local_enc_key_pub = [];
  local_enc_key_priv = [];
  remote_sig_key_pub = [];
  remote_enc_key_pub = [];
}

-- What a client sends of itself: the length of the nickname is one byte.
unfoldable pub friend_content :
    (transaction_id onion sig_key enc_key mb_onion mb_id nick : List ℕ) → List ℕ
unfolding prot_header
friend_content transaction_id onion sig_key enc_key mb_onion mb_id nick =
    prot_header friend_request
    ++ (transaction_id
        ++ (onion
            ++ (sig_key
                ++ (enc_key
                    ++ (mb_onion
                        ++ (mb_id ++ (length nick % 2 ^ 8 ∷ take (length nick % 2 ^ 8) nick)))))))

-- The contact for an address that a request came from.
unfoldable pub friend_of : List ℕ → Option DbContact → DbContact
unfolding db_contact_new
friend_of onion none = record db_contact_new { status = pending_in; onion_address = onion }
friend_of onion (some friend) = elim friend.status [
  | pending_out ↦ record friend { status = active }
  | _ ↦ friend
]

-- The contact for an address that a request goes to.
unfoldable pub prot_friend_req_new : List ℕ → Option DbContact → DbContact
unfolding db_contact_new
prot_friend_req_new onion none = record db_contact_new {
  status = pending_out;
  onion_address = take 62 onion;
}
prot_friend_req_new onion (some friend) = record friend { status = active }

unfoldable pub set_fields :
    DbContact → (sig_key enc_key mb_onion mb_id : List ℕ) → ℕ → List ℕ → DbContact
set_fields friend sig_key enc_key mb_onion mb_id first nick = record friend {
  remote_sig_key_pub = sig_key;
  remote_enc_key_pub = enc_key;
  mailbox_onion = mb_onion;
  mailbox_id = mb_id;
  has_mailbox = not (first == 0);
  nickname = nick;
}

-- The fields behind the address, taken off the input one after the other.
unfoldable pub remove_fields : ℕ → DbContact → List ℕ → DbContact × List ℕ
unfolding set_fields
remove_fields nick_len friend input =
    let enc = drop 32 input in
    let onion = drop 270 enc in
    let id = drop 62 onion in
    let nick = drop 1 (drop 16 id) in
    (
      set_fields friend (take 32 input) (take 270 enc) (take 62 onion) (take 16 id) (get_or id 0 0)
          (take nick_len nick),
      drop 64 (drop nick_len nick),
    )

module _ {M W : Type 0} (hs : Handlers M W) (db : Db W) where
  unfoldable pub friend_ack_received : Bool → DbContact → Pmain M W → Pmain M W
  unfolding call_hooks
  friend_ack_received success friend p =
      if success
      then call_hooks hs ev_friend_ok (record p { world = db.contact_save friend p.world })
      else call_hooks hs ev_friend_fail p

  unfoldable pub friend_ack_sent : Bool → DbContact → Pmain M W → Pmain M W
  unfolding call_hooks
  friend_ack_sent success friend p =
      if success
      then call_hooks hs ev_friend_incomming (record p { world = db.contact_save friend p.world })
      else p

module _ {M W : Type 0} (hs : Handlers M W) where
  -- A request that could not be sent is reported; one that was sent has no cleanup.
  unfoldable pub friend_cleanup : Pmain M W → Pmain M W
  unfolding call_hooks
  friend_cleanup p = call_hooks hs ev_friend_fail p

module _ {M W : Type 0} (ack_recv : Ack → DbContact → Recv M) where
  unfoldable pub friend_done : DbContact → Tran M → Pmain M W → Tran M × Pmain M W
  unfolding prot_main_push_recv
  friend_done friend phand p = (
    record phand { has_cleanup = false },
    prot_main_push_recv p (ack_recv (message_ack ack_onion friend.onion_pub_key []) friend),
  )

module _ {M W : Type 0} (sha512 : List ℕ → List ℕ) (sign : List ℕ → List ℕ → List ℕ)
    (verify : List ℕ → List ℕ → List ℕ → Verified) (sha3 : List ℕ → List ℕ) (buffer : List ℕ)
    (db : Db W) where
  unfoldable pub friend_setup :
      Own W → DbContact → Tran M → Pmain M W → DbContact × Tran M × Pmain M W
  unfolding friend_content onion_extract_key ed25519_buffer_sign
  friend_setup own friend phand p =
      let (sig_pub, sig_priv, w1) = own.ed25519_keygen p.world in
      let (enc_pub, enc_priv, w2) = own.rsa_2048bit_keygen w1 in
      (
        record friend {
          local_sig_key_pub = sig_pub;
          local_sig_key_priv = sig_priv;
          local_enc_key_pub = enc_pub;
          local_enc_key_priv = enc_priv;
          onion_pub_key = onion_extract_key buffer friend.onion_address;
        },
        record phand {
          buffer =
              ed25519_buffer_sign sha512 sign verify
                (phand.buffer
                  ++ friend_content p.transaction_id (own.onion_address w2) sig_pub enc_pub
                      (or_zeroes 62 (own.mailbox_onion w2)) (or_zeroes 16 (own.mailbox_id w2))
                      (own.nickname w2))
                (db.onion_private_key w2);
        },
        record p { world = w2 },
      )

  module _ (hs : Handlers M W) (wrap : DbContact → M) (ack_tran : Ack → DbContact → Tran M) where
    -- The contact is complete, and `input` is what follows the request.
    unfoldable pub greet :
        DbContact → Recv M → Pmain M W → List ℕ → Run (Pmain M W) (Recv M × Pmain M W)
    unfolding prot_main_push_tran
    greet friend phand p input = do
      p' ←
          prot_main_push_tran hs (record p { input = input })
            (ack_tran (message_ack ack_onion [] (db.onion_private_key p.world)) friend)
      live (
        record phand { msg = wrap friend; has_cleanup = false },
        record p' { current_recv_done = true },
      )

    unfoldable pub friend_accept : ℕ → Recv M → Pmain M W → Run (Pmain M W) (Recv M × Pmain M W)
    unfolding greet friend_of remove_fields
    friend_accept nick_len phand p =
        let onion = take 62 (drop 18 p.input) in
        let (friend, rest) =
          remove_fields nick_len (friend_of onion (db.contact_by_onion p.world onion))
            (drop 62 (drop 18 p.input)) in
        greet friend phand p rest

    unfoldable pub friend_handle : Recv M → Pmain M W → Run (Pmain M W) (Recv M × Pmain M W)
    unfolding friend_accept prot_main_set_error onion_address_valid onion_extract_key
        ed25519_buffer_validate
    friend_handle phand p =
        let nick_len = get_or p.input 460 0 in
        let onion = drop 18 p.input in
        let refused = live (phand, prot_main_set_error p err_invalid_msg) in
        elim (ltb (length p.input) 461) [
          | true ↦ live (phand, p)
          | false ↦ elim (ltb 255 nick_len) [
            | true ↦ refused
            | false ↦ elim (ltb (length p.input) (461 + nick_len + 64)) [
              | true ↦ live (phand, p)
              | false ↦ elim (onion_address_valid sha3 buffer onion) [
                | false ↦ refused
                | true ↦
                    elim (ed25519_buffer_validate sha512 sign verify p.input (461 + nick_len + 64)
                      (onion_extract_key buffer onion)) [
                        | false ↦ refused
                        | true ↦ friend_accept nick_len phand p
                      ]
              ]
            ]
          ]
        ]
