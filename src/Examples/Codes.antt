-- ===== src/Examples/Codes.antt =====
-- A concrete coding of lists of lists, each character under a mark of what it is.
use beldex_storage_server.Prelude.{
  ℕ, ◌≡◌, refl, ap, true, List, [], ◌∷◌, ◌++◌, ◌==◌, nat_eq, Bytes, if◌then◌else◌,
}
use beldex_storage_server.Serialization.{Item, string, integer, other, Codec}

unfoldable pub write_chars : Bytes → Bytes → Bytes
write_chars [] rest = rest
write_chars (c ∷ b) rest = 4 ∷ c ∷ write_chars b rest

unfoldable pub write_item : Item → Bytes → Bytes
write_item (string b) rest = 5 ∷ 0 ∷ write_chars b rest
write_item (other b) rest = 6 ∷ 0 ∷ write_chars b rest
write_item (integer n) rest = 2 ∷ n ∷ rest

unfoldable pub write_items : List Item → Bytes → Bytes
write_items [] rest = rest
write_items (i ∷ is) rest = write_item i (write_items is rest)

unfoldable pub write_lists : List (List Item) → Bytes
write_lists [] = []
write_lists (l ∷ ls) = 3 ∷ 0 ∷ write_items l (write_lists ls)

-- What is read so far, from the end: characters, items and lists.
abbrev pub Partial : Type 0
Partial = Bytes × List Item × List (List Item)

unfoldable pub read_mark : ℕ → ℕ → Partial → Partial
read_mark mark c (s, is, ls) =
    if mark == 4
    then (c ∷ s, is, ls)
    else if mark == 5
    then ([], string s ∷ is, ls)
    else if mark == 6
    then ([], other s ∷ is, ls)
    else if mark == 2
    then ([], integer c ∷ is, ls)
    else ([], [], is ∷ ls)

unfoldable pub read_all : Bytes → Partial
read_all [] = ([], [], [])
read_all (mark ∷ []) = ([], [], [])
read_all (mark ∷ c ∷ rest) = read_mark mark c (read_all rest)

read-write_chars :
    (b rest s : Bytes) (is : List Item) (ls : List (List Item))
    → read_all rest ≡ (s, is, ls)
    → read_all (write_chars b rest) ≡ (b ++ s, is, ls)
unfolding write_chars read_all read_mark
read-write_chars [] rest s is ls h = h
read-write_chars (c ∷ b) rest s is ls h = rw (read-write_chars b rest s is ls h) refl

append-nil : (b : Bytes) → b ++ [] ≡ b
append-nil [] = refl
append-nil (c ∷ b) = ap (◌∷◌ c) (append-nil b)

read-write_item :
    (i : Item) (rest : Bytes) (is : List Item) (ls : List (List Item))
    → read_all rest ≡ ([], is, ls)
    → read_all (write_item i rest) ≡ ([], i ∷ is, ls)
unfolding write_item read_all read_mark
read-write_item (string b) rest is ls h = rw (read-write_chars b rest [] is ls h, append-nil b) refl
read-write_item (other b) rest is ls h = rw (read-write_chars b rest [] is ls h, append-nil b) refl
read-write_item (integer n) rest is ls h = rw h refl

read-write_items :
    (is : List Item) (rest : Bytes) (ls : List (List Item))
    → read_all rest ≡ ([], [], ls)
    → read_all (write_items is rest) ≡ ([], is, ls)
unfolding write_items
read-write_items [] rest ls h = h
read-write_items (i ∷ is) rest ls h =
    read-write_item i (write_items is rest) is ls (read-write_items is rest ls h)

pub read-write_lists : (ls : List (List Item)) → read_all (write_lists ls) ≡ ([], [], ls)
unfolding write_lists read_all read_mark
read-write_lists [] = refl
read-write_lists (l ∷ ls) = rw (read-write_items l (write_lists ls) ls (read-write_lists ls)) refl

abbrev pub codec : Codec
codec = record {
  bt_serializer = write_lists;
  consume = λ b. record { lists = (read_all b).2; is_finished = true };
  is_base64 = λ b. true;
  to_base64 = λ b. b;
  from_base64 = λ b. b;
  consume-bt_serializer =
      λ l. ap (λ (r : Partial). record { lists = r.2; is_finished = true }) (read-write_lists l);
  is_base64-to_base64 = λ b. refl;
  from_base64-to_base64 = λ b. refl;
}
