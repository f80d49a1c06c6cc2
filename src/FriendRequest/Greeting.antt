-- ===== src/FriendRequest/Greeting.antt =====
-- A friend request that is sent makes its sender a contact of the receiver, with the sender's keys.
use deep_messenger.Prelude.{
  ℕ, ◌<◌, ◌≡◌, true, not, Option, none, some, List, [], ◌∷◌, ◌++◌, ◌==◌, get_or, length,
}
use deep_messenger.ProtMain.{Tran, Pmain, Handlers}
use deep_messenger.BufferCrypto.{Verified, valid}
use deep_messenger.Onion.{onion_address_valid, onion_extract_key}
use deep_messenger.Ack.{Ack}
use deep_messenger.Message.Objects.{ContactStatus, active, pending_in, pending_out, DbContact, Db}
use deep_messenger.FriendRequest.{db_contact_new, Own, friend_setup, or_zeroes}
use deep_messenger.FriendRequest.Card.{Card, tail_of}

-- The status of a contact that has sent a request.
abbrev pub answered : ContactStatus → ContactStatus
answered active = active
answered pending_in = pending_in
answered pending_out = active

module _ {M W : Type 0} (sha512 : List ℕ → List ℕ) (sign : List ℕ → List ℕ → List ℕ)
    (verify : List ℕ → List ℕ → List ℕ → Verified)
    (sign-length : (key hash : List ℕ) → length (sign key hash) ≡ 64) (sha3 : List ℕ → List ℕ)
    (buffer : List ℕ) (db : Db W) (hs : Handlers M W) (wrap : DbContact → M)
    (ack_tran : Ack → DbContact → Tran M) (card : Card) (txn_id priv_key : List ℕ)
    (id16 : length txn_id ≡ 16) (address : onion_address_valid sha3 buffer card.onion ≡ true)
    (pair : (hash : List ℕ)
      → verify (onion_extract_key buffer card.onion) (sign priv_key hash) hash ≡ valid) where
  abbrev content : List ℕ
  content = 1 ∷ 0x81 ∷ (txn_id ++ (card.onion ++ tail_of card []))

module _ {M W : Type 0} (sha512 : List ℕ → List ℕ) (sign : List ℕ → List ℕ → List ℕ)
    (verify : List ℕ → List ℕ → List ℕ → Verified)
    (sign-length : (key hash : List ℕ) → length (sign key hash) ≡ 64) (sha3 : List ℕ → List ℕ)
    (buffer : List ℕ) (db : Db W) (hs : Handlers M W) (wrap : DbContact → M)
    (ack_tran : Ack → DbContact → Tran M) (own : Own W) (friend : DbContact) (t : Tran M)
    (s : Pmain M W) where
  abbrev made : DbContact × Tran M × Pmain M W
  made = friend_setup sha512 sign verify sha3 buffer db own friend t s

  -- The contact that a request, as it is set up, makes of its sender: a new one, or the one there is.
  abbrev pub befriended : Option DbContact → DbContact
  befriended none = record db_contact_new {
    status = pending_in;
    onion_address = own.onion_address made.2.world;
    remote_sig_key_pub = made.0.local_sig_key_pub;
    remote_enc_key_pub = made.0.local_enc_key_pub;
    mailbox_onion = or_zeroes 62 (own.mailbox_onion made.2.world);
    mailbox_id = or_zeroes 16 (own.mailbox_id made.2.world);
    has_mailbox = not (get_or (or_zeroes 16 (own.mailbox_id made.2.world)) 0 0 == 0);
    nickname = own.nickname made.2.world;
  }
  befriended (some known) = record known {
    status = answered known.status;
    remote_sig_key_pub = made.0.local_sig_key_pub;
    remote_enc_key_pub = made.0.local_enc_key_pub;
    mailbox_onion = or_zeroes 62 (own.mailbox_onion made.2.world);
    mailbox_id = or_zeroes 16 (own.mailbox_id made.2.world);
    has_mailbox = not (get_or (or_zeroes 16 (own.mailbox_id made.2.world)) 0 0 == 0);
    nickname = own.nickname made.2.world;
  }

  abbrev own_card :
      length (own.onion_address made.2.world) ≡ 62
      → length made.0.local_sig_key_pub ≡ 32
      → length made.0.local_enc_key_pub ≡ 270
      → length (or_zeroes 62 (own.mailbox_onion made.2.world)) ≡ 62
      → length (or_zeroes 16 (own.mailbox_id made.2.world)) ≡ 16
      → length (own.nickname made.2.world) < 256
      → Card
  own_card h1 h2 h3 h4 h5 h6 = record {
    onion = own.onion_address made.2.world;
    sig_key = made.0.local_sig_key_pub;
    enc_key = made.0.local_enc_key_pub;
    mb_onion = or_zeroes 62 (own.mailbox_onion made.2.world);
    mb_id = or_zeroes 16 (own.mailbox_id made.2.world);
    nick = own.nickname made.2.world;
    onion_size = h1;
    sig_size = h2;
    enc_size = h3;
    mb_onion_size = h4;
    mb_id_size = h5;
    nick_size = h6;
  }
