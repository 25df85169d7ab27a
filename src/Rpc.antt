-- ===== src/Rpc.antt =====
-- httpserver/client_rpc_endpoints.{h,cpp}: the requests of clients, read from a bencoded dictionary
-- and written to one when a request goes on to the swarm. The coding of dictionaries as bytes is
-- libbmq's: here a dictionary is the list of its fields. The json forms of `load` are not modelled.
-- The flags `recurse` and `b64` of a request, which no load sets, are arguments of the handlers.
pub mod Load
use beldex_storage_server.Prelude.{
  ℕ, ◌+◌, ◌*◌, Bool, true, false, not, ◌&&◌, ◌||◌, Option, none, some, List, [], ◌∷◌, ltb, ◌==◌,
  nat_eq, string_eq, Bytes, String, length, find, if◌then◌else◌, ◌++◌,
}
use beldex_storage_server.Common.{UserPubkey, Hex, load, prefixed_raw, is_valid}

-- bmq::bt_value, of the kinds that the requests use
pub data BtValue : Type 0 where
  integer : ℕ → BtValue
  string : Bytes → BtValue
  list : List Bytes → BtValue

abbrev pub BtDict : Type 0
BtDict = List (String × BtValue)

-- The parse_error exceptions, by their messages.
pub data ParseError : Type 0 where
  invalid_value missing : String → ParseError
  both one_of : String → String → ParseError
  bad_pubkey pubkey_ed25519_not_permitted pubkey_ed25519_not_hex pubkey_ed25519_length : ParseError
  bad_signature body_too_long no_message_hashes bad_last_hash : ParseError
  invalid_message_hash : Bytes → ParseError

pub data Parsed {ℓ} (A : Type ℓ) : Type ℓ where
  parsed : A → Parsed A
  failed : ParseError → Parsed A

infixl 10 ◌>>=◌
abbrev pub ◌>>=◌ {ℓ κ} : {A : Type ℓ} {B : Type κ} → Parsed A → (A → Parsed B) → Parsed B
parsed a >>= f = f a
failed e >>= f = failed e

-- parse_field for a bt_dict_consumer: consume_integer, consume_string and consume_list_consumer.
pub integer_field : String → BtDict → Parsed (Option ℕ)
integer_field name d = elim (find name d) [
  | none ↦ parsed none
  | some (integer n) ↦ parsed (some n)
  | some (string s) ↦ failed (invalid_value name)
  | some (list l) ↦ failed (invalid_value name)
]

pub string_field : String → BtDict → Parsed (Option Bytes)
string_field name d = elim (find name d) [
  | none ↦ parsed none
  | some (integer n) ↦ failed (invalid_value name)
  | some (string s) ↦ parsed (some s)
  | some (list l) ↦ failed (invalid_value name)
]

pub list_field : String → BtDict → Parsed (Option (List Bytes))
list_field name d = elim (find name d) [
  | none ↦ parsed none
  | some (integer n) ↦ failed (invalid_value name)
  | some (string s) ↦ failed (invalid_value name)
  | some (list l) ↦ parsed (some l)
]

-- `require`, followed by the use of the value
pub required {ℓ} : {A : Type ℓ} → String → Option A → Parsed A
required name none = failed (missing name)
required name (some a) = parsed a

-- require_exactly_one_of for two spellings of one field, and the value of the one that is given
pub exactly_one_of {ℓ} : {A : Type ℓ} → String → Option A → String → Option A → Parsed A
exactly_one_of first (some a) second (some b) = failed (both first second)
exactly_one_of first (some a) second none = parsed a
exactly_one_of first none second (some b) = parsed b
exactly_one_of first none second none = failed (missing first)

-- bmq::is_base64
pub record Base64 : Type 0 where
  pub is_base64 : Bytes → Bool

-- The part that the signed requests share: RPC::pubkey, RPC::pubkey_ed25519 and RPC::signature.
pub record Signed : Type 0 where
  pub pubkey : UserPubkey
  pub pubkey_ed25519 : Option Bytes
  pub signature : Bytes

pub record Store : Type 0 where
  pub pubkey : UserPubkey
  pub timestamp : ℕ
  pub expiry : ℕ
  pub payload : Bytes

pub record Retrieve : Type 0 where
  pub pubkey : UserPubkey
  pub last_hash : Option Bytes
  pub check_signature : Option (Signed × ℕ)

pub record DeleteMsgs : Type 0 where
  pub signed : Signed
  pub messages : List Bytes

pub record DeleteAll : Type 0 where
  pub signed : Signed
  pub timestamp : ℕ

pub record DeleteBefore : Type 0 where
  pub signed : Signed
  pub before : ℕ

pub record ExpireAll : Type 0 where
  pub signed : Signed
  pub expiry : ℕ

pub record ExpireMsgs : Type 0 where
  pub signed : Signed
  pub expiry : ℕ
  pub messages : List Bytes

abbrev pub max_message_body : ℕ
max_message_body = 76800

pub load_pubkey : Hex → Bool → Bytes → Parsed UserPubkey
unfolding load
load_pubkey hex is_mainnet pk =
    let loaded = load hex is_mainnet pk in
    if is_valid loaded then parsed loaded else failed bad_pubkey

-- The middle of load_pk_signature.
pub load_pubkey_ed25519 : Hex → UserPubkey → Option Bytes → Parsed (Option Bytes)
load_pubkey_ed25519 hex pubkey none = parsed none
load_pubkey_ed25519 hex pubkey (some pk_ed) =
    if not (elim pubkey.network [ none ↦ false | some n ↦ n == 5 ])
    then failed pubkey_ed25519_not_permitted
    else if length pk_ed == 64
    then (if not (hex.is_hex pk_ed)
        then failed pubkey_ed25519_not_hex
        else parsed (some (hex.from_hex pk_ed)))
    else if length pk_ed == 32
    then parsed (some pk_ed)
    else failed pubkey_ed25519_length

pub load_pk_signature : Hex → Bool → Option Bytes → Option Bytes → Option Bytes → Parsed Signed
unfolding required load_pubkey load_pubkey_ed25519
load_pk_signature hex is_mainnet pk pk_ed sig = do
  given ← required "pubkey" pk
  signature ← required "signature" sig
  pubkey ← load_pubkey hex is_mainnet given
  pubkey_ed25519 ← load_pubkey_ed25519 hex pubkey pk_ed
  if not (length signature == 64)
      then failed bad_signature
      else parsed
          (record { pubkey = pubkey; pubkey_ed25519 = pubkey_ed25519; signature = signature })
