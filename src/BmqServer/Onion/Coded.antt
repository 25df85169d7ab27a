-- ===== src/BmqServer/Onion/Coded.antt =====
-- The coding of onion requests between nodes in httpserver/bmq_server.cpp.
use beldex_storage_server.Prelude.{
  ◌^◌, true, none, ◌≡◌, ◌<◌, ◌≤◌, refl, ◌∙◌, some, Bytes, bytes_beq, byte_range, ltb, if◌then◌else◌,
  arith,
}
use beldex_storage_server.Keys.Coding.{view, key_of, load_from_bytes}
use beldex_storage_server.Keys.Coding.Parsed.{length-view, key_of-view}
use beldex_storage_server.Channel.RoundTrip.{some->>=, parse_enc_type-enc_type_text}
use beldex_storage_server.Handler.Onion.{OnionRequestMetadata}
use beldex_storage_server.BmqServer.Onion.{
  fields, items, negative, enc_type_or_default, integer, codes, text, find_value, hop_or_default,
  hop_of, required_text, ℕ, BtDict, Option, Bt, OnionEnv, decode_fields, encode_onion_data,
  decode_onion_data,
}

-- What is decoded of any metadata that was encoded.
abbrev pub received : OnionRequestMetadata → OnionRequestMetadata
received m = record m {
  ephem_key = key_of (view m.ephem_key);
  hop_no = if ltb m.hop_no 1 then 1 else m.hop_no;
}

module _ (env : OnionEnv) where
  pub decode-encode_onion_data :
      (payload : Bytes) (m : OnionRequestMetadata)
      → m.hop_no < 2 ^ 31
      → decode_onion_data env (encode_onion_data env payload m) ≡ some (payload, received m)
  unfolding decode_onion_data encode_onion_data decode_fields bytes_beq load_from_bytes
  decode-encode_onion_data payload m small =
      let fits : ltb m.hop_no (2 ^ 31) ≡ true = ground arith in
      rw
        (
          env.bt_dict_consumer-bt_serialize payload m.enc_type m.ephem_key m.hop_no,
          parse_enc_type-enc_type_text m.enc_type,
          length-view m.ephem_key,
          fits,
        )
        refl

  -- An onion request that one node encodes for another is decoded to the same payload and the same key,
  -- encryption and hop number, if it has made a hop and the hop number is an int.
  pub decode_onion_data_lem :
      (payload : Bytes) (m : OnionRequestMetadata)
      → m.ephem_key < byte_range 32
      → 1 ≤ m.hop_no
      → m.hop_no < 2 ^ 31
      → decode_onion_data env (encode_onion_data env payload m) ≡ some (payload, m)
  decode_onion_data_lem payload m k h small =
      let hop : (if ltb m.hop_no 1 then 1 else m.hop_no) ≡ m.hop_no = ground arith in
      decode-encode_onion_data payload m small ∙ rw (key_of-view m.ephem_key k, hop) refl

hop_of-pos : (v : Bt) (n : ℕ) → hop_of v ≡ some n → 1 ≤ n
hop_of-pos (text s) n h = cc
hop_of-pos (integer k) n h = ground arith
hop_of-pos (negative k) n h = ground arith
hop_of-pos (items l) n h = cc
hop_of-pos (fields d) n h = cc

hop_or_default-pos : (o : Option Bt) (n : ℕ) → hop_or_default o ≡ some n → 1 ≤ n
hop_or_default-pos none n h = ground arith
hop_or_default-pos (some v) n h = hop_of-pos v n h

-- A request that is decoded has made a hop.
decode_fields-pos :
    (d : BtDict) (payload : Bytes) (m : OnionRequestMetadata)
    → decode_fields d ≡ some (payload, m)
    → 1 ≤ m.hop_no
unfolding decode_fields
decode_fields-pos d payload m h =
    let (p, e1, h1) = some->>= (required_text (find_value (codes "data") d)) _ (payload, m) h in
    let (t, e2, h2) =
      some->>= (enc_type_or_default (find_value (codes "enc_type") d)) _ (payload, m) h1 in
    let (k, e3, h3) =
      some->>= (required_text (find_value (codes "ephemeral_key") d)) _ (payload, m) h2 in
    let (x, e4, h4) = some->>= (load_from_bytes k) _ (payload, m) h3 in
    let (n, e5, h5) = some->>= (hop_or_default (find_value (codes "hop_no") d)) _ (payload, m) h4 in
    let pos = hop_or_default-pos (find_value (codes "hop_no") d) n e5 in ground arith

pub decode_onion_data-pos :
    (env : OnionEnv) (wire payload : Bytes) (m : OnionRequestMetadata)
    → decode_onion_data env wire ≡ some (payload, m)
    → 1 ≤ m.hop_no
unfolding decode_onion_data
decode_onion_data-pos env wire payload m h =
    let (d, e, q) = some->>= (env.bt_dict_consumer wire) _ (payload, m) h in
    decode_fields-pos d payload m q
