-- ===== src/Prelude/Words.antt =====
-- Unsigned integers as bytes, and the bytes of a text.
use Prim.Native.Nat.{ℕ, zero, suc, ◌+◌, ◌*◌, ◌/◌, ◌%◌, ◌<◌}
use mathlib.Core.Path.{◌≡◌, refl}
use Prim.Native.Char.{code}
use Prim.Native.String.{String}
use mathlib.Core.List.{List, [], ◌∷◌, ◌++◌}
use native.Mathlib.Omega.{arith}
use beldex_storage_server.Prelude.Lists.{length, length-append}

-- The low `k` bytes of a number, the lowest first.
unfoldable pub le_bytes : ℕ → ℕ → List ℕ
le_bytes zero n = []
le_bytes (suc k) n = n % 256 ∷ le_bytes k (n / 256)

unfoldable pub from_le : List ℕ → ℕ
from_le [] = 0
from_le (b ∷ bs) = b + 256 * from_le bs

-- 256 to the power of `k`
unfoldable pub byte_range : ℕ → ℕ
byte_range zero = 1
byte_range (suc k) = 256 * byte_range k

pub length-le_bytes : (k n : ℕ) → length (le_bytes k n) ≡ k
unfolding le_bytes
length-le_bytes zero n = refl
length-le_bytes (suc k) n = omega (arith, length-le_bytes k (n / 256))

pub from_le-le_bytes : (k n : ℕ) → n < byte_range k → from_le (le_bytes k n) ≡ n
unfolding le_bytes from_le byte_range
from_le-le_bytes zero n h = omega arith
from_le-le_bytes (suc k) n h = let rest = from_le-le_bytes k (n / 256) (omega arith) in omega arith

-- The same with the highest byte first.
unfoldable pub be_bytes : ℕ → ℕ → List ℕ
be_bytes zero n = []
be_bytes (suc k) n = be_bytes k (n / 256) ++ n % 256 ∷ []

unfoldable pub from_be : ℕ → List ℕ → ℕ
from_be high [] = high
from_be high (b ∷ bs) = from_be (256 * high + b) bs

pub length-be_bytes : (k n : ℕ) → length (be_bytes k n) ≡ k
unfolding be_bytes
length-be_bytes zero n = refl
length-be_bytes (suc k) n =
    omega (arith, length-append (be_bytes k (n / 256)) (n % 256 ∷ []), length-be_bytes k (n / 256))

from_be-snoc :
    (high : ℕ) (bs : List ℕ) (b : ℕ) → from_be high (bs ++ b ∷ []) ≡ 256 * from_be high bs + b
unfolding from_be
from_be-snoc high [] b = refl
from_be-snoc high (c ∷ bs) b = from_be-snoc (256 * high + c) bs b

pub from_be-be_bytes : (k n : ℕ) → n < byte_range k → from_be 0 (be_bytes k n) ≡ n
unfolding be_bytes byte_range
from_be-be_bytes zero n h = unfold from_be in omega arith
from_be-be_bytes (suc k) n h =
    let rest = from_be-be_bytes k (n / 256) (omega arith) in
    omega (arith, from_be-snoc 0 (be_bytes k (n / 256)) (n % 256))

-- The bytes of a text in ASCII. The constructors of `String` are named like those of `List`.
abbrev pub codes : String → List ℕ
codes String.[] = []
codes (String.◌∷◌ c rest) = code c ∷ codes rest
