-- ===== src/Examples/Batches.antt =====
-- Concrete batches, strings and draws.
use beldex_storage_server.Prelude.{
  ℕ, ◌+◌, ◌*◌, ◌/◌, ◌^◌, ◌<◌, ◌⊎◌, ◌≤◌, ◌≡◌, ◌↔◌, true, false, some, List, [], ◌∷◌, arith, Bytes,
  length, if◌then◌else◌, nat_eq, ◌==◌,
}
use beldex_storage_server.Common.{Message}
use beldex_storage_server.Serialization.{
  deserialized, undefined, threw, serialize_messages, deserialize_messages,
  serialization_version_bt, serialization_version_old,
}
use beldex_storage_server.Serialization.Batches.{read_batches, read-serialize_messages}
use beldex_storage_server.Serialization.Old.{read-serialize_messages_old}
use beldex_storage_server.Serialization.Old
use beldex_storage_server.Serialization.Ends.{has_version, deserialize_messages-ends}
use beldex_storage_server.Utils.{mt_max, secure_max, uniform_distribution_portable}
use beldex_storage_server.Utils.Uniform.{uniform_distribution_portable_lem}
use beldex_storage_server.Examples.Concrete.{to_digits, hex, user-IsKey, message}
use beldex_storage_server.Examples.Codes.{codec}

abbrev messages : List Message
messages = message ∷ record message { hash = 3 ∷ []; timestamp = 200 } ∷ []

read-serialize_messages_example :
    (batches : List Bytes) × (serialize_messages hex codec false messages serialization_version_bt
      ≡ some batches)
    × (read_batches hex codec false batches ≡ some messages)
read-serialize_messages_example =
    read-serialize_messages hex codec false messages ((5, user-IsKey 5), ((5, user-IsKey 5), tt))

plain :
    (n : ℕ)
    → n < 2 ^ 64
    → (b : Bytes) → length b < 2 ^ 64
    → Old.IsPlain codec (record message { hash = b; timestamp = n })
plain n h b k = record {
  network = 5;
  key = user-IsKey 5;
  byte = omega arith;
  hash = k;
  payload = omega arith;
  timestamp = h;
  expiry = omega arith;
}

read-serialize_messages_old_example :
    (batches : List Bytes) × (serialize_messages hex codec true messages serialization_version_old
      ≡ some batches)
    × (read_batches hex codec true batches ≡ some messages)
unfolding to_digits
read-serialize_messages_old_example =
    read-serialize_messages_old hex codec (λ n h. (omega (arith, h), omega (arith, h))) messages
      (
        plain 100 (omega arith) (1 ∷ 2 ∷ []) (omega arith),
        (plain 200 (omega arith) (3 ∷ []) (omega arith), tt),
      )

deserialize_messages-ends_example :
    let r = deserialize_messages hex codec true (49 ∷ 50 ∷ []) in
    ((has_version (49 ∷ 50 ∷ []) ≡ false)
      × (((ms : List Message) × (r ≡ some (deserialized ms)) × (length ms ≤ (2 + 63) / 64))
          ⊎ (r ≡ some undefined)))
    ⊎ ((has_version (49 ∷ 50 ∷ []) ≡ true)
        × (((ms : List Message) × (r ≡ some (deserialized ms))
              × (length ms ≤ length (codec.consume (50 ∷ [])).lists))
            ⊎ (r ≡ some threw)))
deserialize_messages-ends_example = deserialize_messages-ends hex codec true (49 ∷ 50 ∷ [])

-- The largest draw is rejected, the next one taken.
abbrev draws : ℕ → ℕ
draws i = if i == 0 then mt_max else i

secure_3 : draws (0 + 1) < secure_max 3
unfolding secure_max
secure_3 = omega arith

uniform_distribution_portable_example :
    ((q v : ℕ) × (0 ≤ q)
      × (uniform_distribution_portable 2 draws 0 3 ≡ some (v, q + 1))
      × (v < 3)
      × (draws q < secure_max 3)
      × ((e : ℕ) → (e < 0) ⊎ (q ≤ e) ⊎ (secure_max 3 ≤ draws e))
      × ((v ≡ 1) ↔ (
          (secure_max 3 / 3 * 1 ≤ draws q) × (draws q < secure_max 3 / 3 * 1 + secure_max 3 / 3))))
    × (secure_max 3 / 3 * 1 + secure_max 3 / 3 ≤ secure_max 3)
uniform_distribution_portable_example =
    uniform_distribution_portable_lem draws 3 (omega arith) (omega arith) 2 0 1 (omega arith)
      secure_3 1 (omega arith)
