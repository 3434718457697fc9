-- ===== src/Json.antt =====
-- Reading JSON the way Python indexes the value that `json.loads` returns.
use zksync_python.Prelude.{
  List, [], ◌∷◌, Option, none, some, Result, ok, err, or_raise, type_error, key_error,
  attribute_error, if◌then◌else◌, Json, null, bool, int, str, arr, obj, Fields, end, field,
}
use zksync_python.Python.Text.{Text, eqb_text}

-- The keys of a dictionary differ, so the first entry is the one.
unfoldable pub lookup : Text → Fields → Option Json
lookup key end = none
lookup key (field name value rest) =
    let later = lookup key rest in if eqb_text name key then some value else later

-- `d[key]` for a text `key`
unfoldable pub item : Json → Text → Result Json
item (obj fields) key = or_raise (lookup key fields) key_error
item null key = err type_error
item (bool b) key = err type_error
item (int z) key = err type_error
item (str s) key = err type_error
item (arr xs) key = err type_error

abbrev pub values_of : Fields → List Json
values_of end = []
values_of (field name value rest) = value ∷ values_of rest

-- `d.values()`
unfoldable pub values : Json → Result (List Json)
values (obj fields) = ok (values_of fields)
values null = err attribute_error
values (bool b) = err attribute_error
values (int z) = err attribute_error
values (str s) = err attribute_error
values (arr xs) = err attribute_error
