-- ===== src/Utils/Strings.antt =====
-- utils/src/string_utils.cpp and utils/include/string_utils.hpp: splitting, joining and trimming. A
-- string is its bytes; npos is `none`. The loops over a view that gets shorter recur on fuel.
pub mod Join
use beldex_storage_server.Prelude.{
  ℕ, zero, suc, ◌+◌, ◌-◌, Bool, true, false, not, ◌&&◌, ◌||◌, Option, none, some, List, [], ◌∷◌,
  ◌++◌, ◌==◌, nat_eq, bytes_eq, Bytes, ltb, leb, length, take, drop, any_of, map, if◌then◌else◌,
}

-- starts_with
unfoldable pub starts_with : Bytes → Bytes → Bool
starts_with str prefix = take (length prefix) str == prefix

unfoldable pub ends_with : Bytes → Bytes → Bool
ends_with str suffix =
    leb (length suffix) (length str) && drop (length str - length suffix) str == suffix

abbrev pub succ_of : Option ℕ → Option ℕ
succ_of none = none
succ_of (some n) = some (suc n)

-- std::string_view::find
unfoldable pub find_text : Bytes → Bytes → Option ℕ
find_text delim [] = if starts_with [] delim then some 0 else none
find_text delim (c ∷ str) =
    let later = find_text delim str in if starts_with (c ∷ str) delim then some 0 else succ_of later

abbrev pub is_nil {ℓ} : {A : Type ℓ} → List A → Bool
is_nil [] = true
is_nil (x ∷ xs) = false

-- The piece before a delimiter; a leading empty piece is dropped where `trim` is set.
abbrev pub push_piece : Bool → ℕ → Bytes → List Bytes → List Bytes
push_piece trim pos str results =
    if not trim || (not (is_nil results) || ltb 0 pos)
    then results ++ take pos str ∷ []
    else results

-- while (!results.empty() && results.back().empty()) results.pop_back();
unfoldable pub pop_empty : List Bytes → List Bytes
pop_empty [] = []
pop_empty (r ∷ rs) = elim (pop_empty rs) [
  | [] ↦ if is_nil r then [] else r ∷ []
  | s ∷ ss ↦ r ∷ s ∷ ss
]

-- The rest of the string, at the end of a split.
unfoldable pub push_last : Bool → Bytes → List Bytes → List Bytes
push_last trim str results =
    if not trim || not (is_nil str) then results ++ str ∷ [] else pop_empty results

-- The loop of split; `none` means that the fuel ran out.
unfoldable pub split_loop : ℕ → Bytes → Bool → Bytes → List Bytes → Option (List Bytes)
split_loop zero delim trim str results = none
split_loop (suc fuel) delim trim str results = elim (find_text delim str) [
  | none ↦ some (push_last trim str results)
  | some pos ↦
      split_loop fuel delim trim (drop (pos + length delim) str) (push_piece trim pos str results)
]

unfoldable pub split : Bytes → Bytes → Bool → Option (List Bytes)
split str [] trim = some (map (λ c. c ∷ []) str)
split str (d ∷ ds) trim = split_loop (suc (length str)) (d ∷ ds) trim str []

abbrev pub is_one_of : Bytes → ℕ → Bool
is_one_of chars c = any_of (λ d. d == c) chars

-- find_first_of and find_first_not_of, by a test of a character
unfoldable pub find_first : (ℕ → Bool) → Bytes → Option ℕ
find_first test [] = none
find_first test (c ∷ str) = if test c then some 0 else succ_of (find_first test str)

-- The view after the delimiters that follow a piece.
unfoldable pub skip_delims : Bytes → ℕ → Bytes → Bytes
skip_delims delims pos str =
    elim (find_first (λ c. not (is_one_of delims c)) (drop (pos + 1) str)) [
      | none ↦ []
      | some n ↦ drop (pos + 1 + n) str
    ]

unfoldable pub split_any_loop : ℕ → Bytes → Bool → Bytes → List Bytes → Option (List Bytes)
split_any_loop zero delims trim str results = none
split_any_loop (suc fuel) delims trim str results = elim (find_first (is_one_of delims) str) [
  | none ↦ some (push_last trim str results)
  | some pos ↦
      split_any_loop fuel delims trim (skip_delims delims pos str) (push_piece trim pos str results)
]

unfoldable pub split_any : Bytes → Bytes → Bool → Option (List Bytes)
split_any str [] trim = split str [] trim
split_any str (d ∷ ds) trim = split_any_loop (suc (length str)) (d ∷ ds) trim str []

-- join
unfoldable pub join : Bytes → List Bytes → Bytes
join delimiter [] = []
join delimiter (s ∷ []) = s
join delimiter (s ∷ t ∷ rest) = s ++ (delimiter ++ join delimiter (t ∷ rest))

-- Space, tab, carriage return and line feed.
abbrev pub is_simple_whitespace : ℕ → Bool
is_simple_whitespace c = is_one_of (32 ∷ 9 ∷ 13 ∷ 10 ∷ []) c

unfoldable pub trim_front : Bytes → Bytes
trim_front [] = []
trim_front (c ∷ s) = let rest = trim_front s in if is_simple_whitespace c then rest else c ∷ s

unfoldable pub trim_back : Bytes → Bytes
trim_back [] = []
trim_back (c ∷ s) = elim (trim_back s) [
  | [] ↦ if is_simple_whitespace c then [] else c ∷ []
  | d ∷ ds ↦ c ∷ d ∷ ds
]

unfoldable pub trim : Bytes → Bytes
trim s = trim_back (trim_front s)

unfoldable pub lowercase_ascii_string : Bytes → Bytes
lowercase_ascii_string src = map (λ c. if leb 65 c && leb c 90 then c + 32 else c) src
