-- ===== src/MbAccount/New.antt =====
-- prot_mb_acc_register_new and prot_mb_acc_delete_new: what a client sets out with. The data are
-- allocated without being cleared, and `unset` is what their memory holds; `buffer` is an
-- uninitialised buffer of the address's decoding.
use deep_messenger.Prelude.{ℕ, Option, none, some, List, take}
use deep_messenger.Onion.{onion_extract_key}
use deep_messenger.MbAccount.{MbAcc}

module _ (buffer unset : List ℕ) where
  -- The address and the access key are both given, or the message is one to be received.
  unfoldable pub prot_mb_acc_register_new :
      {W : Type 0} → (W → List ℕ × List ℕ × W) → Option (List ℕ × List ℕ) → W → MbAcc × W
  unfolding onion_extract_key
  prot_mb_acc_register_new ed25519_keygen none w = (record { mb_acc = none; cl_acc = none }, w)
  prot_mb_acc_register_new ed25519_keygen (some (onion, access)) w =
      let (sig_pub, sig_priv, w') = ed25519_keygen w in
      (
        record {
          mb_acc = none;
          cl_acc = some (record {
            onion_address = take 62 onion;
            onion_key = onion_extract_key buffer onion;
            access_key = take 25 access;
            sig_pub_key = sig_pub;
            sig_priv_key = sig_priv;
            mailbox_id = unset;
          });
        },
        w',
      )

  -- The address, the account's identifier and its private key.
  unfoldable pub prot_mb_acc_delete_new : Option (List ℕ × List ℕ × List ℕ) → MbAcc
  unfolding onion_extract_key
  prot_mb_acc_delete_new none = record { mb_acc = none; cl_acc = none }
  prot_mb_acc_delete_new (some (onion, mb_id, sig_priv)) = record {
    mb_acc = none;
    cl_acc = some (record {
      onion_address = take 62 onion;
      onion_key = onion_extract_key buffer onion;
      access_key = unset;
      sig_pub_key = unset;
      sig_priv_key = take 32 sig_priv;
      mailbox_id = take 16 mb_id;
    });
  }
