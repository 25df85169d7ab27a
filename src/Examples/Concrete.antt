-- ===== src/Examples/Concrete.antt =====
-- A concrete hex coding, and concrete row ids.
use beldex_storage_server.Prelude.{
  ℕ, ◌+◌, ◌*◌, ◌/◌, ◌%◌, ◌-◌, ◌<◌, ◌≡◌, inl, inr, true, some, List, [], ◌∷◌, ◌++◌, arith, refl, In,
  Bytes, length, replicate, nat_eq, bytes_eq,
}
use beldex_storage_server.Common.{UserPubkey, Message, Hex, pubkey_eq}
use beldex_storage_server.Common.Pubkeys.{IsKey}
use beldex_storage_server.Storage.{RowIds}

-- Each byte as two characters, from the character 0 on.
unfoldable pub to_digits : Bytes → Bytes
to_digits [] = []
to_digits (b ∷ bs) = (48 + b / 16) ∷ (48 + b % 16) ∷ to_digits bs

unfoldable pub from_digits : Bytes → Bytes
from_digits [] = []
from_digits (h ∷ []) = []
from_digits (h ∷ l ∷ rest) = ((h - 48) * 16 + (l - 48)) ∷ from_digits rest

pub length-to_digits : (b : Bytes) → length (to_digits b) ≡ 2 * length b
unfolding to_digits
length-to_digits [] = refl
length-to_digits (b ∷ bs) = omega (arith, length-to_digits bs)

pub from_digits-to_digits : (b : Bytes) → from_digits (to_digits b) ≡ b
unfolding to_digits from_digits
from_digits-to_digits [] = refl
from_digits-to_digits (b ∷ bs) =
    let rest = from_digits-to_digits bs in
    let first : (48 + b / 16 - 48) * 16 + (48 + b % 16 - 48) ≡ b = omega arith in
    rw (rest, first) refl

pub to_digits-append : (a b : Bytes) → to_digits (a ++ b) ≡ to_digits a ++ to_digits b
unfolding to_digits
to_digits-append [] b = refl
to_digits-append (x ∷ a) b = rw (to_digits-append a b) refl

abbrev pub hex : Hex
hex = record {
  is_hex = λ b. true;
  from_hex = from_digits;
  to_hex = to_digits;
  is_hex-to_hex = λ b. refl;
  length-to_hex = length-to_digits;
  from_hex-to_hex = from_digits-to_digits;
  to_hex-append = to_digits-append;
}

abbrev pub user : ℕ → UserPubkey
user n = record { network = some n; pubkey = replicate 32 7 }

pub user-IsKey : (n : ℕ) → IsKey (user n) n
user-IsKey n = record { network = refl; size = refl }

-- One above the sum of all ids is above each.
unfoldable pub sum : List ℕ → ℕ
sum [] = 0
sum (n ∷ ns) = n + sum ns

pub sum-above : (ids : List ℕ) (i : ℕ) → In i ids → i < sum ids + 1
unfolding sum
sum-above [] i h = absurd h
sum-above (n ∷ ns) i (inl e) = omega arith
sum-above (n ∷ ns) i (inr h) = omega (arith, sum-above ns i h)

abbrev pub ids : RowIds
ids = record { next = λ used. sum used + 1; above = sum-above }

abbrev pub message : Message
message = record {
  pubkey = user 5;
  hash = 1 ∷ 2 ∷ [];
  timestamp = 100;
  expiry = 900;
  payload = 9 ∷ [];
}
