-- ===== src/Utils.antt =====
-- utils/src/utils.cpp and utils/src/string_utils.cpp. A std::mt19937_64 is the stream of its draws,
-- 64-bit numbers, with the number of draws that were made.
pub mod Uniform
pub mod Strings
use beldex_storage_server.Prelude.{
  ℕ, zero, suc, ◌+◌, ◌-◌, ◌/◌, ◌%◌, ◌^◌, Bool, true, false, Option, none, some, ltb, if◌then◌else◌,
}

-- mersenne_twister.max()
abbrev pub mt_max : ℕ
mt_max = 2 ^ 64 - 1

unfoldable pub secure_max : ℕ → ℕ
secure_max n = mt_max - mt_max % n

-- The loop over the draws, from draw `p` on; `none` means that the fuel ran out. It gives the number
-- and the next draw.
unfoldable pub uniform_loop : ℕ → (ℕ → ℕ) → ℕ → ℕ → Option (ℕ × ℕ)
uniform_loop zero draws p n = none
uniform_loop (suc fuel) draws p n =
    let rest = uniform_loop fuel draws (p + 1) n in
    if ltb (draws p) (secure_max n) then some (draws p / (secure_max n / n), p + 1) else rest

unfoldable pub uniform_distribution_portable : ℕ → (ℕ → ℕ) → ℕ → ℕ → Option (ℕ × ℕ)
uniform_distribution_portable fuel draws p n = uniform_loop fuel draws p n
