-- ===== src/HttpsServer/Address.antt =====
-- get_remote_address of httpserver/https_server.cpp: the text of a client's address.
pub mod Zeros
pub mod Text
use beldex_storage_server.Prelude.{
  ℕ, zero, suc, ◌+◌, ◌-◌, ◌*◌, ◌<◌, ◌≤◌, ◌≡◌, ◌≢◌, Bool, true, false, not, ◌&&◌, List, [], ◌∷◌,
  ◌++◌, ◌==◌, nat_eq, Bytes, codes, ltb, leb, length, if◌then◌else◌, arith,
}

-- The longest run of zeros so far, and the run that the loop is in.
pub record ZeroRun : Type 0 where
  pub zero_start : ℕ
  pub zero_end : ℕ
  pub start : ℕ
  pub end : ℕ

abbrev pub no_run : ZeroRun
no_run = record { zero_start = 0; zero_end = 0; start = 0; end = 0 }

-- The run that a zero at `i` is in.
abbrev pub extend : ZeroRun → ℕ → ZeroRun
extend z i = record z { start = if z.end == i then z.start else i; end = i + 1 }

abbrev pub keep_longest : ZeroRun → ZeroRun
keep_longest z =
    if ltb (z.zero_end - z.zero_start) (z.end - z.start)
    then record z { zero_start = z.start; zero_end = z.end }
    else z

abbrev pub see : ZeroRun → ℕ → ℕ → ZeroRun
see z i word = if not (word == 0) then z else keep_longest (extend z i)

-- The loop from `i`, with `n` words to go; `a` gives the words.
unfoldable pub zero_run : (ℕ → ℕ) → ℕ → ℕ → ZeroRun → ZeroRun
zero_run a zero i z = z
zero_run a (suc n) i z = zero_run a n (i + 1) (see z i (a i))

-- Big-endian shorts.
unfoldable pub shorts : Bytes → List ℕ
shorts [] = []
shorts (b ∷ []) = []
shorts (b ∷ c ∷ bytes) = (b * 256 + c) ∷ shorts bytes

-- a[i], 0 past the end.
unfoldable pub word_at : List ℕ → ℕ → ℕ
word_at [] i = 0
word_at (w ∷ ws) zero = w
word_at (w ∷ ws) (suc i) = word_at ws i

-- `to_string` prints a number in decimal, `to_hex_string` in hexadecimal, `to_hex` bytes.
module _ (to_string to_hex_string : ℕ → Bytes) (to_hex : Bytes → Bytes) where
  unfoldable pub dotted : Bool → Bytes → Bytes
  dotted first [] = []
  dotted first (c ∷ addr) =
      let rest = dotted false addr in
      if first then to_string c ++ rest else codes "." ++ (to_string c ++ rest)

  -- The output for the words from `i`.
  unfoldable pub colons : ZeroRun → ℕ → List ℕ → Bytes
  colons z i [] = []
  colons z i (w ∷ ws) =
      let rest = colons z (i + 1) ws in
      if leb z.zero_start i && ltb i z.zero_end
      then (if i == z.zero_start then codes "::" ++ rest else rest)
      else if ltb 0 i && not (i == z.zero_end)
      then codes ":" ++ (to_hex_string w ++ rest)
      else to_hex_string w ++ rest

  unfoldable pub remote_address : Bytes → Bytes
  unfolding colons dotted zero_run shorts word_at
  remote_address addr =
      if length addr == 4
      then dotted true addr
      else if length addr == 16
      then (let a = shorts addr in
          codes "[" ++ (colons (zero_run (word_at a) 8 0 no_run) 0 a ++ codes "]"))
      else codes "{unknown:" ++ (to_hex addr ++ codes "}")
