-- ===== src/Examples/Channels.antt =====
-- Concrete primitives for the encryption of channels, and a coding of onion requests.
use beldex_storage_server.Prelude.{
  bytes_beq, ◌≤◌, sym, ◌∙◌, ℕ, suc, zero, ◌*◌, ◌%◌, ◌<◌, ◌≡◌, refl, ap, true, false, Option, none,
  some, [], ◌∷◌, ◌++◌, Bytes, codes, length, take, drop, ltb, arith, byte_range, replicate,
  if◌then◌else◌, length-append, take-append, drop-append,
}
use beldex_storage_server.Keys.{X25519Pubkey}
use beldex_storage_server.Keys.Coding.{view, hex_of}
use beldex_storage_server.Keys.Coding.Parsed.{length-hex_of}
use beldex_storage_server.Onion.{EncryptType, aes_cbc, aes_gcm, xchacha20, InnerJson}
use beldex_storage_server.Channel.{Cipher, taglen, Primitives, Random, enc_type_text}
use beldex_storage_server.BmqServer.Values.{
  Json, negative, items, fields, Bt, BtDict, end, field, text, integer, object, string, member,
  no_more,
}
use beldex_storage_server.BmqServer.Onion.{OnionEnv, onion_dict, find_value, required_text}
use beldex_storage_server.HttpsServer.Onion.{EdgeJson}
use beldex_storage_server.OnionClient.{Dumps, routing_json}
use beldex_storage_server.Examples.Concrete.{hex}

pub small : (a : ℕ) → a % byte_range 32 < byte_range 32
unfolding byte_range
small a = omega arith

abbrev pub secret : ℕ → X25519Pubkey → Option Bytes
secret a p = some ((a % byte_range 32 * p) ∷ [])

pub secret_comm : (a b : ℕ) → secret a (b % byte_range 32) ≡ secret b (a % byte_range 32)
secret_comm a b = ap (λ (n : ℕ). some (n ∷ [])) (omega arith)

pub length-replicate : (n a : ℕ) → length (replicate n a) ≡ n
length-replicate zero a = refl
length-replicate (suc n) a = ap suc (length-replicate n a)

abbrev pub seal_with : Cipher → Bytes → Option (Bytes × Bytes)
seal_with c p = some (p, replicate (taglen c) 0)

pub seal_with-parts :
    (c : Cipher) (p ciphertext tag : Bytes)
    → seal_with c p ≡ some (ciphertext, tag)
    → (p ≡ ciphertext) × (replicate (taglen c) 0 ≡ tag)
seal_with-parts c p ciphertext tag e = (cc, cc)

abbrev pub prim : Primitives
prim = record {
  scalarmult_base = λ a. a % byte_range 32;
  scalarmult = secret;
  hmacsha256 = λ k m. k ++ m;
  generichash = λ l. length l ∷ [];
  evp_encrypt = λ c key iv p. seal_with c p;
  evp_decrypt = λ c key iv ciphertext tag. some ciphertext;
  aead_encrypt = λ nonce key p. replicate 16 0 ++ p;
  aead_decrypt = λ nonce key c. some (drop 16 c);
  scalarmult_base-< = small;
  scalarmult_comm = secret_comm;
  evp_decrypt-evp_encrypt =
      λ c key iv p ciphertext tag e. ap some (sym ((seal_with-parts c p ciphertext tag e).0));
  length-evp_tag = λ c key iv p ciphertext tag e.
      ap length (sym ((seal_with-parts c p ciphertext tag e).1)) ∙ length-replicate (taglen c) 0;
  length-evp_ciphertext = λ c key iv p ciphertext tag e.
      omega (arith, ap length ((seal_with-parts c p ciphertext tag e).0));
  aead_decrypt-aead_encrypt = λ nonce key p. refl;
  length-aead_encrypt = λ nonce key p. omega arith;
}

abbrev pub random : Random
random = record { buf = λ n. replicate n 7; length-buf = λ n. length-replicate n 7 }

abbrev pub text_or_empty : Option Bytes → Bytes
text_or_empty none = []
text_or_empty (some b) = b

abbrev pub number_of : Option Bt → ℕ
number_of (some (integer n)) = n
number_of (some (text s)) = 0
number_of (some (negative n)) = 0
number_of (some (items l)) = 0
number_of (some (fields d)) = 0
number_of none = 0

abbrev pub value_text : BtDict → Bytes → Bytes
value_text d key = text_or_empty (required_text (find_value key d))

-- The hop number, and the other values under their lengths.
abbrev pub serialize : BtDict → Bytes
serialize d =
    let payload = value_text d (codes "data") in
    let enc_type = value_text d (codes "enc_type") in
    number_of (find_value (codes "hop_no") d)
    ∷ length payload
    ∷ length enc_type
    ∷ (payload ++ (enc_type ++ value_text d (codes "ephemeral_key")))

abbrev pub consume : Bytes → Option BtDict
consume (h ∷ n ∷ k ∷ rest) = some (
    field (codes "data") (text (take n rest)) (
      field (codes "enc_type") (text (take k (drop n rest))) (
        field (codes "ephemeral_key") (text (drop k (drop n rest)))
          (field (codes "hop_no") (integer h) end))))
consume (h ∷ n ∷ []) = none
consume (h ∷ []) = none
consume [] = none

pub cut :
    (n k : ℕ) (a b c : Bytes)
    → length a ≡ n
    → length b ≡ k
    → (take n (a ++ (b ++ c)) ≡ a)
      × (take k (drop n (a ++ (b ++ c))) ≡ b)
      × (drop k (drop n (a ++ (b ++ c))) ≡ c)
cut n k a b c h l = (
  take-append a (b ++ c) n h,
  ap (take k) (drop-append a (b ++ c) n h) ∙ take-append b c k l,
  ap (drop k) (drop-append a (b ++ c) n h) ∙ drop-append b c k l,
)

pub consume-serialize :
    (payload : Bytes) (enc_type : EncryptType) (key : X25519Pubkey) (hop_no : ℕ)
    → consume (serialize (onion_dict payload enc_type key hop_no))
      ≡ some (onion_dict payload enc_type key hop_no)
unfolding find_value bytes_beq
consume-serialize payload enc_type key hop_no =
    let (a, b, c) = cut _ _ payload (enc_type_text enc_type) (view key) refl refl in
    rw (a, b, c) refl

-- The parts of the dump of an object that names the next node.
abbrev pub routing_of : ℕ → Bytes → InnerJson
routing_of n b = routing_json (take n b) (take n (drop n b)) (drop n (drop n b))

pub routing_of-parts :
    (n : ℕ) (d k t : Bytes)
    → length d ≡ n
    → length k ≡ n
    → routing_of n (d ++ (k ++ t)) ≡ routing_json d k t
routing_of-parts n d k t h l = let (a, b, c) = cut n n d k t h l in rw (a, b, c) refl

abbrev pub final_json : InnerJson
final_json = record (routing_json [] [] []) { has_headers = true }

abbrev pub parse_layer_json : Bytes → Option InnerJson
parse_layer_json b = if ltb (length b) 129 then some final_json else some (routing_of 64 b)

abbrev pub onion_env : OnionEnv
onion_env = record {
  hex = hex;
  prim = prim;
  parse_json = parse_layer_json;
  to_string = λ n. n ∷ [];
  bt_serialize = serialize;
  bt_dict_consumer = consume;
  bt_dict_consumer-bt_serialize = consume-serialize;
}

abbrev pub entry_of : ℕ → Bytes → Json
entry_of n b = object (
    member (codes "enc_type") (string (drop n b))
      (member (codes "ephemeral_key") (string (take n b)) no_more))

abbrev pub edge_json : EdgeJson
edge_json = record { parse = λ b. some (entry_of 64 b); int_of_floating = λ b. 0 }

pub entry_of-parts :
    (n : ℕ) (k t : Bytes)
    → length k ≡ n
    → entry_of n (k ++ t)
      ≡ object
          (member (codes "enc_type") (string t) (member (codes "ephemeral_key") (string k) no_more))
entry_of-parts n k t h = rw (take-append k t n h, drop-append k t n h) refl

pub parse-routing :
    (d k : ℕ) (t : EncryptType)
    → parse_layer_json (hex_of hex d ++ (hex_of hex k ++ enc_type_text t))
      ≡ some (routing_json (hex_of hex d) (hex_of hex k) (enc_type_text t))
parse-routing d k t =
    let first = length-hex_of hex d in
    let second = length-hex_of hex k in
    let some_text : 1 ≤ length (enc_type_text t) = some_type t in
    let long : ltb (length (hex_of hex d ++ (hex_of hex k ++ enc_type_text t))) 129 ≡ false =
      ground (
        arith,
        length-append (hex_of hex d) (hex_of hex k ++ enc_type_text t),
        length-append (hex_of hex k) (enc_type_text t),
        first,
        second,
        some_text,
      ) in
    rw long
      (ap some (routing_of-parts 64 (hex_of hex d) (hex_of hex k) (enc_type_text t) first second))
  where
    some_type : (t : EncryptType) → 1 ≤ length (enc_type_text t)
    some_type xchacha20 = omega arith
    some_type aes_gcm = omega arith
    some_type aes_cbc = omega arith

abbrev pub dumps : Dumps onion_env edge_json
dumps = record {
  routing = λ d k t. d ++ (k ++ t);
  entry = λ k t. k ++ t;
  parse_json-routing = parse-routing;
  parse-entry =
      λ k t. ap some (entry_of-parts 64 (hex_of hex k) (enc_type_text t) (length-hex_of hex k));
}
