-- ===== src/BmqServer/Values/Converted.antt =====
-- What the conversions between bencoded values and json in httpserver/bmq_server.cpp keep.
use beldex_storage_server.Prelude.{refl, none, ◌↔◌, arith, ap, ◌≡◌, ◌≢◌}
use beldex_storage_server.BmqServer.Values.{
  bt_dict_to_json, json_fields_to_bt, bt_list_to_json, json_list_to_bt, some, fields_of, items_of,
  field_of, cons_of, bt_to_json, Bytes, Option, json_to_bt, Bt, text, integer, negative, items,
  fields, BtList, nil, cons, BtDict, end, field,
}

-- Every dictionary in a value has a field.
abbrev mutual
  pub HasFields : Bt → Type 0
  HasFields (text s) = Unit
  HasFields (integer n) = Unit
  HasFields (negative n) = Unit
  HasFields (items l) = ListHasFields l
  HasFields (fields d) = (d ≢ end) × DictHasFields d

  pub ListHasFields : BtList → Type 0
  ListHasFields nil = Unit
  ListHasFields (cons v l) = HasFields v × ListHasFields l

  pub DictHasFields : BtDict → Type 0
  DictHasFields end = Unit
  DictHasFields (field k v d) = HasFields v × DictHasFields d

mutual
  unfolding json_to_bt bt_to_json

  kept : (v : Bt) → HasFields v → json_to_bt (bt_to_json v) ≡ some v
  kept (text s) h = refl
  kept (integer n) h = refl
  kept (negative n) h = refl
  kept (items l) h = ap items_of (list_kept l h)
  kept (fields end) (h, hs) = absurd (h refl)
  kept (fields (field k v d)) (h, hs) = ap fields_of (dict_kept (field k v d) hs)

  list_kept : (l : BtList) → ListHasFields l → json_list_to_bt (bt_list_to_json l) ≡ some l
  list_kept nil h = refl
  list_kept (cons v l) (h, hs) = rw (kept v h, list_kept l hs) refl

  dict_kept : (d : BtDict) → DictHasFields d → json_fields_to_bt (bt_dict_to_json d) ≡ some d
  dict_kept end h = refl
  dict_kept (field k v d) (h, hs) = rw (kept v h, dict_kept d hs) refl

cons_of_inv :
    (o : Option Bt) (p : Option BtList) (v : Bt) (l : BtList)
    → cons_of o p ≡ some (cons v l)
    → (o ≡ some v) × (p ≡ some l)
cons_of_inv none p v l h = cc
cons_of_inv (some w) none v l h = cc
cons_of_inv (some w) (some m) v l h = (ground arith, ground arith)

field_of_inv :
    (k : Bytes) (o : Option Bt) (p : Option BtDict) (v : Bt) (d : BtDict)
    → field_of k o p ≡ some (field k v d)
    → (o ≡ some v) × (p ≡ some d)
field_of_inv k none p v d h = cc
field_of_inv k (some w) none v d h = cc
field_of_inv k (some w) (some m) v d h = (ground arith, ground arith)

items_of_inv : (o : Option BtList) (l : BtList) → items_of o ≡ some (items l) → o ≡ some l
items_of_inv none l h = cc
items_of_inv (some m) l h = ground arith

fields_of_inv : (o : Option BtDict) (d : BtDict) → fields_of o ≡ some (fields d) → o ≡ some d
fields_of_inv none d h = cc
fields_of_inv (some m) d h = ground arith

mutual
  unfolding json_to_bt bt_to_json

  needed : (v : Bt) → json_to_bt (bt_to_json v) ≡ some v → HasFields v
  needed (text s) h = tt
  needed (integer n) h = tt
  needed (negative n) h = tt
  needed (items l) h = list_needed l (items_of_inv _ l h)
  needed (fields end) h = cc
  needed (fields (field k v d)) h =
      (λ q. cc, dict_needed (field k v d) (fields_of_inv _ (field k v d) h))

  list_needed : (l : BtList) → json_list_to_bt (bt_list_to_json l) ≡ some l → ListHasFields l
  list_needed nil h = tt
  list_needed (cons v l) h = let (o, p) = cons_of_inv _ _ v l h in (needed v o, list_needed l p)

  dict_needed : (d : BtDict) → json_fields_to_bt (bt_dict_to_json d) ≡ some d → DictHasFields d
  dict_needed end h = tt
  dict_needed (field k v d) h =
      let (o, p) = field_of_inv k _ _ v d h in (needed v o, dict_needed d p)

-- A bencoded value that becomes json, and the json bencoded again, is the same value exactly if every
-- dictionary in it has a field: an empty dictionary becomes null, which does not convert back.
pub json_to_bt-bt_to_json : (v : Bt) → (json_to_bt (bt_to_json v) ≡ some v) ↔ HasFields v
json_to_bt-bt_to_json v = (needed v, kept v)
