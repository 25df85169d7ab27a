-- ===== src/BmqServer/Values.antt =====
-- json_to_bt and bt_to_json of httpserver/bmq_server.cpp. Objects and dictionaries are the lists of their
-- fields in the order of the keys; an integer -(n + 1) is `negative n`. The 64 bits of an integer are not represented, nor a json integer that is
-- stored as signed and is not negative.
pub mod Converted
use beldex_storage_server.Prelude.{ℕ, Bool, true, false, Option, none, some, Bytes, if◌then◌else◌}

-- bmq::bt_value
mutual
  pub data Bt : Type 0 where
    text : Bytes → Bt
    integer negative : ℕ → Bt
    items : BtList → Bt
    fields : BtDict → Bt

  pub data BtList : Type 0 where
    nil : BtList
    cons : Bt → BtList → BtList

  pub data BtDict : Type 0 where
    end : BtDict
    field : Bytes → Bt → BtDict → BtDict

-- nlohmann::json
mutual
  pub data Json : Type 0 where
    null : Json
    boolean : Bool → Json
    string floating : Bytes → Json
    unsigned signed : ℕ → Json
    array : JsonList → Json
    object : JsonFields → Json

  pub data JsonList : Type 0 where
    empty : JsonList
    push : Json → JsonList → JsonList

  pub data JsonFields : Type 0 where
    no_more : JsonFields
    member : Bytes → Json → JsonFields → JsonFields

-- The parts of a list or a dictionary, if they all convert.
abbrev pub cons_of : Option Bt → Option BtList → Option BtList
cons_of (some v) (some l) = some (cons v l)
cons_of none l = none
cons_of (some v) none = none

abbrev pub field_of : Bytes → Option Bt → Option BtDict → Option BtDict
field_of k (some v) (some d) = some (field k v d)
field_of k none d = none
field_of k (some v) none = none

abbrev pub items_of : Option BtList → Option Bt
items_of none = none
items_of (some l) = some (items l)

abbrev pub fields_of : Option BtDict → Option Bt
fields_of none = none
fields_of (some d) = some (fields d)

-- `none` is the exception for a value of another type.
unfoldable mutual
  pub json_to_bt : Json → Option Bt
  json_to_bt null = none
  json_to_bt (boolean b) = some (integer (if b then 1 else 0))
  json_to_bt (string s) = some (text s)
  json_to_bt (floating f) = none
  json_to_bt (unsigned n) = some (integer n)
  json_to_bt (signed n) = some (negative n)
  json_to_bt (array l) = items_of (json_list_to_bt l)
  json_to_bt (object fs) = fields_of (json_fields_to_bt fs)

  pub json_list_to_bt : JsonList → Option BtList
  json_list_to_bt empty = some nil
  json_list_to_bt (push j js) = cons_of (json_to_bt j) (json_list_to_bt js)

  pub json_fields_to_bt : JsonFields → Option BtDict
  json_fields_to_bt no_more = some end
  json_fields_to_bt (member k j fs) = field_of k (json_to_bt j) (json_fields_to_bt fs)

-- The overload for a dictionary starts with null, which the first field makes an object.
abbrev pub object_of : JsonFields → Json
object_of no_more = null
object_of (member k j fs) = object (member k j fs)

unfoldable mutual
  pub bt_to_json : Bt → Json
  bt_to_json (text s) = string s
  bt_to_json (integer n) = unsigned n
  bt_to_json (negative n) = signed n
  bt_to_json (items l) = array (bt_list_to_json l)
  bt_to_json (fields d) = object_of (bt_dict_to_json d)

  pub bt_list_to_json : BtList → JsonList
  bt_list_to_json nil = empty
  bt_list_to_json (cons v l) = push (bt_to_json v) (bt_list_to_json l)

  pub bt_dict_to_json : BtDict → JsonFields
  bt_dict_to_json end = no_more
  bt_dict_to_json (field k v d) = member k (bt_to_json v) (bt_dict_to_json d)
