-- ===== src/Socks5.antt =====
-- socks5.c: the client's side of a SOCKS5 connection to an onion address over a bufferevent, whose
-- two buffers are lists of bytes. An error is its number in `enum socks5_errors`.
pub mod Pieces
use deep_messenger.Prelude.{
  ℕ, ◌+◌, ◌/◌, ◌%◌, ◌==◌, Bool, true, false, not, ◌&&◌, ◌||◌, Option, none, some, List, [], ◌∷◌,
  ◌++◌, ltb, if◌then◌else◌, length, drop,
}

pub data Socks5Step : Type 0 where
  auth connect : Socks5Step

pub record Socks5Data : Type 0 where
  pub step : Socks5Step
  pub port : ℕ
  pub onion_address : List ℕ
  pub input : List ℕ
  pub output : List ℕ

-- What the callbacks leave: a connection that goes on; one whose done callback was called with the
-- bufferevent, the callbacks removed; or one whose done callback was called with an error.
pub data Outcome : Type 0 where
  going_on : Socks5Data → Outcome
  connected : Socks5Data → Outcome
  failed : ℕ → Outcome

abbrev pub error_unknown : ℕ
error_unknown = 9

abbrev pub error_conn_close : ℕ
error_conn_close = 10

abbrev pub error_auth_failed : ℕ
error_auth_failed = 11

-- A port in network order.
abbrev pub htons : ℕ → List ℕ
htons port = port / 256 % 256 ∷ port % 256 ∷ []

unfoldable pub socks5_connect_onion : (onion_address : List ℕ) (port : ℕ) → Socks5Data
socks5_connect_onion onion_address port = record {
  step = auth;
  port = port;
  onion_address = onion_address;
  input = [];
  output = 5 ∷ 1 ∷ 0 ∷ [];
}

-- The list is the input.
unfoldable pub auth_step : List ℕ → Socks5Data → Outcome
auth_step [] d = going_on d
auth_step (version ∷ []) d = going_on d
auth_step (version ∷ method ∷ rest) d =
    if not (version == 5) || not (method == 0)
    then failed error_auth_failed
    else going_on (record d {
      input = rest;
      output = d.output ++ (5 ∷ 1 ∷ 0 ∷ 3 ∷ 62 ∷ (d.onion_address ++ htons d.port));
      step = connect;
    })

-- The length of the bound address, by its type and its first byte.
unfoldable pub address_len : ℕ → ℕ → Option ℕ
address_len address_type first =
    if address_type == 1
    then some 4
    else if address_type == 4
    then some 16
    else if address_type == 3
    then some (first + 1)
    else none

unfoldable pub drain_reply : Option ℕ → Socks5Data → Outcome
drain_reply none d = failed error_unknown
drain_reply (some n) d =
    if ltb (length d.input) (4 + n + 2)
    then going_on d
    else connected (record d { input = drop (4 + n + 2) d.input })

unfoldable pub connect_step : List ℕ → Socks5Data → Outcome
unfolding drain_reply
connect_step (version ∷ reply ∷ _ ∷ address_type ∷ first ∷ _) d =
    if not (version == 5)
    then failed error_unknown
    else if not (reply == 0)
    then failed reply
    else drain_reply (address_len address_type first) d
connect_step _ d = going_on d

abbrev pub run_step : Socks5Step → Socks5Data → Outcome
run_step auth d = auth_step d.input d
run_step connect d = connect_step d.input d

unfoldable pub socks5_read_cb : Socks5Data → Outcome
unfolding auth_step connect_step
socks5_read_cb d = run_step d.step d

-- How often `socks5_internal_fail` runs for an event, each run freeing the data.
unfoldable pub socks5_event_cb : (error eof : Bool) → ℕ
socks5_event_cb error eof = (if error then 1 else 0) + (if eof then 1 else 0)
