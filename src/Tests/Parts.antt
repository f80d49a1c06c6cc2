-- ===== src/Tests/Parts.antt =====
-- Addresses, base32, hooks, SOCKS5, buffers and the prompt at concrete inputs.
use deep_messenger.Prelude.{ℕ, zero, suc, ◌≡◌, refl, true, false, List, [], ◌∷◌, ◌++◌, All, arith}
use deep_messenger.Base32.{IsByte, base32_encode, base32_decode}
use deep_messenger.Base32.RoundTrip.{base32_decode-base32_encode}
use deep_messenger.Onion.{
  onion_base_len, onion_address_valid, onion_address_from_pub_key, onion_extract_key,
}
use deep_messenger.Onion.Keys.{onion_address_valid-from_pub_key}
use deep_messenger.Onion.Alias.{respell, onion_address_valid-respell}
use deep_messenger.Hooks.{Hook, HookList}
use deep_messenger.Socks5.{Socks5Data, connect, address_len, going_on, connected}
use deep_messenger.Socks5.Pieces.{arrive, arrive-reply}
use deep_messenger.Prompt.{Prompt, char, ui_prompt_input_cb}
use deep_messenger.Prompt.Bounds.{IsValid, IsShown, ui_prompt_input_cb-IsValid}

-- `n` bytes of value `x`.
abbrev pub filled : ℕ → ℕ → List ℕ
filled zero x = []
filled (suc n) x = x ∷ filled n x

filled-IsByte : (n : ℕ) → All IsByte (filled n 7)
filled-IsByte zero = tt
filled-IsByte (suc n) = (omega arith, filled-IsByte n)

base32_example : base32_decode (base32_encode (72 ∷ 105 ∷ []) true) (filled 2 0) ≡ 72 ∷ 105 ∷ []
base32_example =
    base32_decode-base32_encode (72 ∷ 105 ∷ []) (filled 2 0) true (omega arith, (omega arith, tt))
      (omega arith)

abbrev flat_hash : List ℕ → List ℕ
flat_hash m = filled 32 7

onion_example :
    (onion_address_valid flat_hash
        (filled 35 0)
        (onion_address_from_pub_key flat_hash (filled 32 7))
      ≡ true)
    × (onion_extract_key (filled 35 0) (onion_address_from_pub_key flat_hash (filled 32 7))
        ≡ filled 32 7)
onion_example =
    onion_address_valid-from_pub_key flat_hash (λ m. filled-IsByte 32) (λ m. refl) (filled 32 7)
      (filled 35 0) (filled-IsByte 32) refl (omega arith)

abbrev spelled : List ℕ
spelled = filled 56 97 ++ (46 ∷ 111 ∷ 110 ∷ 105 ∷ 111 ∷ 110 ∷ [])

respell_example :
    (onion_address_valid flat_hash (filled 35 0) (respell onion_base_len spelled)
      ≡ onion_address_valid flat_hash (filled 35 0) spelled)
    × (onion_extract_key (filled 35 0) (respell onion_base_len spelled)
        ≡ onion_extract_key (filled 35 0) spelled)
respell_example = onion_address_valid-respell flat_hash (filled 35 0) spelled

abbrev one_hook : HookList
one_hook = record { hook_event = 1; cb = 5; cbarg = 0 } ∷ []

abbrev log_call : Hook → ℕ → List ℕ → List ℕ
log_call hk event s = hk.cb ∷ s

abbrev connecting : Socks5Data
connecting = record {
  step = connect;
  port = 4242;
  onion_address = filled 62 97;
  input = [];
  output = [];
}

-- An IPv4 reply in two pieces, with two bytes of the stream behind it.
socks5_example :
    arrive
      ((5 ∷ 0 ∷ 0 ∷ []) ∷ (1 ∷ 9 ∷ 9 ∷ 9 ∷ 9 ∷ 1 ∷ 2 ∷ 77 ∷ 78 ∷ []) ∷ [])
      (going_on connecting)
    ≡ connected (record connecting { input = 77 ∷ 78 ∷ [] })
unfolding address_len
socks5_example =
    arrive-reply 0 1 9 (9 ∷ 9 ∷ 9 ∷ 1 ∷ 2 ∷ []) (77 ∷ 78 ∷ []) 4 refl refl
      ((5 ∷ 0 ∷ 0 ∷ []) ∷ (1 ∷ 9 ∷ 9 ∷ 9 ∷ 9 ∷ 1 ∷ 2 ∷ 77 ∷ 78 ∷ []) ∷ []) connecting refl
      (omega arith) refl

abbrev typed : Prompt
typed = record {
  ch_cursor = 1;
  display_start = 0;
  buffer_len = 2;
  input_buffer = filled 4096 0;
  submitted = 0;
}

prompt_example :
    IsValid (ui_prompt_input_cb (λ _. false) 77 (char 104) typed)
    × IsShown 77 (ui_prompt_input_cb (λ _. false) 77 (char 104) typed)
prompt_example =
    ui_prompt_input_cb-IsValid (λ _. false) 77 (char 104) typed (omega arith, omega arith, refl)
