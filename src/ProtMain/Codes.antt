-- ===== src/ProtMain/Codes.antt =====
-- The constants of prot_main.h and constants.h that the messages use.
use deep_messenger.Prelude.{ℕ, List, [], ◌∷◌}

abbrev pub prot_header_len : ℕ
prot_header_len = 2

abbrev pub transaction_id_len : ℕ
transaction_id_len = 16

abbrev pub protocol_ver : ℕ
protocol_ver = 1

abbrev pub transaction_request : ℕ
transaction_request = 0x01

abbrev pub transaction_response : ℕ
transaction_response = 0x02

abbrev pub friend_request : ℕ
friend_request = 0x81

abbrev pub ack_onion : ℕ
ack_onion = 0x82

abbrev pub ack_signature : ℕ
ack_signature = 0x83

abbrev pub message_container : ℕ
message_container = 0x84

abbrev pub mailbox_register : ℕ
mailbox_register = 0x85

abbrev pub mailbox_granted : ℕ
mailbox_granted = 0x86

abbrev pub mailbox_fetch : ℕ
mailbox_fetch = 0x87

abbrev pub mailbox_set_contacts : ℕ
mailbox_set_contacts = 0x88

abbrev pub mailbox_del_account : ℕ
mailbox_del_account = 0x89

abbrev pub client_fetch : ℕ
client_fetch = 0x8B

abbrev pub message_list : ℕ
message_list = 0x8C

abbrev pub ev_done : ℕ
ev_done = 0x0001

abbrev pub ev_close : ℕ
ev_close = 0x0002

unfoldable pub prot_header : ℕ → List ℕ
prot_header msg_code = protocol_ver ∷ msg_code ∷ []
