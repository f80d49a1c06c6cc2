-- ===== src/MessageList/Leaves.antt =====
-- What handling one message of a list leaves of the input.
use deep_messenger.Prelude.{
  ℕ, ◌-◌, ◌≤◌, ◌≡◌, refl, true, false, Option, some, List, [], ◌∷◌, take, drop, drop-drop, arith,
  Bool-cases, Option-cases, inl, inr,
}
use mathlib.Core.Path.{subst}
use deep_messenger.ProtMain.{Run, live, gone, fault, out_of_fuel, ◌>>=◌}
use deep_messenger.BufferCrypto.{Verified, ed25519_buffer_validate}
use deep_messenger.BufferCrypto.Envelope.{
  Cipher, RsaError, rsa_none, rsa_key, rsa_length, rsa_openssl, rsa_buffer_decrypt,
}
use deep_messenger.Message.Objects.{DbContact, Db}
use deep_messenger.Message.Receive.{Processed, whole_length}
use deep_messenger.MessageList.{From}
use deep_messenger.MessageList.Items.{Reading, keep_item, plain_item, known_item, handle_item}

-- The loop's body ends with this input, or in an access to what was never set.
abbrev pub Leaves : {P W : Type 0} → List ℕ → Run P (Reading W) → Type 0
Leaves rest (live st) = st.input ≡ rest
Leaves rest fault = Unit
Leaves rest (gone p) = ⊥
Leaves rest out_of_fuel = ⊥

abbrev pub Ends : {P A : Type 0} → Run P A → Type 0
Ends (live a) = Unit
Ends fault = Unit
Ends (gone p) = ⊥
Ends out_of_fuel = ⊥

pub Leaves-bind :
    {P W A : Type 0} (rest : List ℕ) (r : Run P (Reading W)) (f : Reading W → Run P A)
    → Leaves rest r
    → ((st : Reading W) → Ends (f st))
    → Ends (r >>= f)
Leaves-bind rest (live st) f h k = k st
Leaves-bind rest fault f h k = tt
Leaves-bind rest (gone p) f h k = absurd h
Leaves-bind rest out_of_fuel f h k = absurd h

-- The steps that follow the body agree where the input is as it leaves it.
pub bind-agree :
    {P W A B : Type 0} (rest : List ℕ) (r : Run P (Reading W)) (f : Reading W → Run P B)
    (g : Reading W → Run P A) (k : A → Run P B)
    → Leaves rest r
    → ((st : Reading W) → st.input ≡ rest → f st ≡ (g st >>= k))
    → (r >>= f) ≡ ((r >>= g) >>= k)
bind-agree rest (live st) f g k h e = e st h
bind-agree rest fault f g k h e = refl
bind-agree rest (gone p) f g k h e = refl
bind-agree rest out_of_fuel f g k h e = refl

pub bind_assoc :
    {P A B C : Type 0} (r : Run P A) (f : A → Run P B) (g : B → Run P C)
    → ((r >>= f) >>= g) ≡ (r >>= (λ a. f a >>= g))
bind_assoc (live a) f g = refl
bind_assoc fault f g = refl
bind_assoc (gone p) f g = refl
bind_assoc out_of_fuel f g = refl

pub header_fits : (n : ℕ) → 86 ≤ whole_length n
unfolding whole_length
header_fits n = omega arith

module _ {W : Type 0} (sha3 : List ℕ → List ℕ) (buffer : List ℕ) (db : Db W) where
  keep_item-input :
      (n : ℕ) (st : Reading W) (r : Processed)
      → (keep_item sha3 buffer db n st r).input ≡ drop n st.input
  unfolding keep_item
  keep_item-input n st (true, m, cont) = refl
  keep_item-input n st (false, m, cont) = refl

  plain_item-Leaves :
      (P : Type 0) (from : From) (gid : List ℕ) (n : ℕ) (cont : DbContact) (st : Reading W)
      (r : RsaError × List ℕ × Option ℕ)
      → Leaves (drop n st.input) (plain_item sha3 buffer db {P = P} from gid n cont st r)
  unfolding plain_item
  plain_item-Leaves P from gid n cont st (rsa_none, [], l) = tt
  plain_item-Leaves P from gid n cont st (rsa_none, ctype ∷ bytes, l) = keep_item-input n st _
  plain_item-Leaves P from gid n cont st (rsa_key, bytes, l) = refl
  plain_item-Leaves P from gid n cont st (rsa_length, bytes, l) = refl
  plain_item-Leaves P from gid n cont st (rsa_openssl, bytes, l) = refl

module _ {K S O W : Type 0} (sha512 : List ℕ → List ℕ) (sign : List ℕ → List ℕ → List ℕ)
    (verify : List ℕ → List ℕ → List ℕ → Verified) (sha3 : List ℕ → List ℕ) (buffer : List ℕ)
    (c : Cipher K S O) (db : Db W) where
  known_item-Leaves :
      (P : Type 0) (from : From) (n : ℕ) (cont : DbContact) (st : Reading W)
      → 82 ≤ n
      → Leaves
          (drop n st.input)
          (known_item sha512 sign verify sha3 buffer c db {P = P} from n cont st)
  unfolding known_item
  known_item-Leaves P from n cont st h =
      let whole : drop (n - 82) (drop 82 st.input) ≡ drop n st.input =
        drop-drop 82 (n - 82) n st.input (omega (arith, h)) in
      let st' = record st { input = drop 82 st.input; cont = some cont } in
      elim (Option-cases (db.message_by_gid st.world (take 16 (drop 66 st.input)))) [
        | inl e ↦
            rw (known_item, e)
              (subst
                (λ l. Leaves l (
                  plain_item sha3 buffer db {P = P} from (take 16 (drop 66 st.input)) (n - 82) cont
                    st' (rsa_buffer_decrypt c (drop 82 st.input) cont.local_enc_key_priv [])))
                whole
                (plain_item-Leaves sha3 buffer db P from (take 16 (drop 66 st.input)) (n - 82) cont
                  st' (rsa_buffer_decrypt c (drop 82 st.input) cont.local_enc_key_priv [])))
        | inr (m, e) ↦ rw (known_item, e) whole
      ]

  pub handle_item-Leaves :
      (P : Type 0) (from : From) (n : ℕ) (st : Reading W)
      → 82 ≤ n
      → Leaves (drop n st.input) (handle_item sha512 sign verify sha3 buffer c db {P = P} from n st)
  unfolding handle_item
  handle_item-Leaves P from n st h =
      let key = take 32 (drop 34 st.input) in
      elim (Bool-cases (ed25519_buffer_validate sha512 sign verify st.input n key)) [
        | inr e ↦ rw (handle_item, e) refl
        | inl e ↦ elim (Option-cases (db.contact_by_rsk_pub st.world key)) [
          | inl e' ↦ rw (handle_item, e, e') refl
          | inr (cont, e') ↦ rw (handle_item, e, e') (known_item-Leaves P from n cont st h)
        ]
      ]
