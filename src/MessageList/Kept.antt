-- ===== src/MessageList/Kept.antt =====
-- Which messages of a list are confirmed when it is sent, and which are kept when it is read.
use deep_messenger.Prelude.{
  ℕ, ◌≡◌, refl, ap, ◌∙◌, Bool, true, false, not, List, [], ◌∷◌, map, ltb, length, if◌then◌else◌,
  if_elim, arith,
}
use deep_messenger.Onion.{ends_within, onion_address_valid}
use deep_messenger.Message.Objects.{sent_confirmed, DbMessage, DbContact, Db}
use deep_messenger.Message.Receive.{Processed}
use deep_messenger.MessageList.{is_undelivered, confirm_all}
use deep_messenger.MessageList.Items.{read_item_mbox, read_item_body}

-- An independent description of what is confirmed.
abbrev pub confirmed : DbMessage → DbMessage
confirmed m = if is_undelivered m.status then record m { status = sent_confirmed } else m

abbrev pub save_each : {W : Type 0} → Db W → List DbMessage → W → W
save_each db [] w = w
save_each db (m ∷ ms) w = save_each db ms (
    if is_undelivered m.status then db.message_save (record m { status = sent_confirmed }) w else w)

if_pair :
    {A B : Type 0} (b : Bool) (x : A) (y : B) (x' : A) (y' : B)
    → ◌≡◌ {A = A × B} (if b then (x, y) else (x', y')) (if b then x else x', if b then y else y')
if_pair true x y x' y' = refl
if_pair false x y x' y' = refl

-- When a list is out, its messages that waited to be sent are confirmed, and each of those and no
-- other is saved, in their order, before any hook is called.
pub confirm_all-confirmed :
    {W : Type 0} (db : Db W) (ms : List DbMessage) (w : W)
    → confirm_all db ms w ≡ (map confirmed ms, save_each db ms w)
unfolding confirm_all
confirm_all-confirmed db [] w = refl
confirm_all-confirmed {W = W} db (m ∷ ms) w =
    let w' =
      if is_undelivered m.status
      then db.message_save (record m { status = sent_confirmed }) w
      else w in
    ap (λ (r : DbMessage × W). (r.0 ∷ (confirm_all db ms r.1).0, (confirm_all db ms r.1).1))
      (if_pair (is_undelivered m.status) _ _ m w)
    ∙ ap (λ (r : List DbMessage × W). (confirmed m ∷ r.0, r.1)) (confirm_all-confirmed db ms w')

empty_invalid :
    (sha3 : List ℕ → List ℕ) (buffer : List ℕ) → onion_address_valid sha3 buffer [] ≡ false
unfolding onion_address_valid ends_within
empty_invalid sha3 buffer = refl

-- A message that tells of a mailbox is never kept from a list, whatever its body holds: the onion
-- address that is checked is that of the new message object, which is empty.
pub read_item_body-mbox :
    {W : Type 0} (sha3 : List ℕ → List ℕ) (buffer : List ℕ) (db : Db W) (w : W) (bytes : List ℕ)
    (m : DbMessage) (cont : DbContact)
    → m.body_mbox_onion ≡ []
    → ((read_item_body sha3 buffer db w 3 bytes m cont).0 ≡ false)
      × ((read_item_body sha3 buffer db w 3 bytes m cont).2 ≡ cont)
unfolding read_item_body read_item_mbox
read_item_body-mbox sha3 buffer db w bytes m cont empty =
    let invalid : not (onion_address_valid sha3 buffer m.body_mbox_onion) ≡ true =
      ap (λ l. not (onion_address_valid sha3 buffer l)) empty
      ∙ ap not (empty_invalid sha3 buffer) in
    if_elim (λ (r : Processed). (r.0 ≡ false) × (r.2 ≡ cont)) (ltb (length bytes) 78)
      (λ short. (refl, refl))
      (λ long.
        if_elim (λ (r : Processed). (r.0 ≡ false) × (r.2 ≡ cont))
          (not (onion_address_valid sha3 buffer m.body_mbox_onion)) (λ bad. (refl, refl))
          (λ good. absurd (ground (arith, invalid, good))))
