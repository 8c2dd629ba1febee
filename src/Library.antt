-- ===== src/Library.antt =====
-- What the source takes from Python's standard library to read and print values, as a record of
-- functions; and `str(v)`, which is written out for the values that need none of them.
use fintech_data_platform.Prelude.{
  ℕ, ◌+◌, String, Bool, true, false, Option, none, some, [], ◌∷◌, if◌then◌else◌,
}
use fintech_data_platform.Prelude.Int.{ℤ, pos, negsuc}
use fintech_data_platform.Prelude.Text.{concat, show}
use fintech_data_platform.Decimal.{Amount}
use fintech_data_platform.Json.{
  Value, null, bool, int, str, obj, Items, Fields, end, get, lookup, truthy,
}
use fintech_data_platform.Exec.{Result, ok, err, failure, ErrorKind}

-- A `datetime`: an instant, in microseconds, or a time with no zone, as the instant in UTC of which
-- it is the reading.
pub data Time : Type 0 where
  aware : ℕ → Time
  naive : ℕ → Time

pub record Library : Type 0 where
  -- `str(v)` of a float, a list or a dict
  pub repr : Value → String
  -- `Decimal(text)`
  pub decimal : String → Option Amount
  -- `int.from_bytes(base64.b64decode(text, validate=True), "big", signed=True)`
  pub base64_int : String → Option ℤ
  -- `datetime.fromisoformat(text.replace("Z", "+00:00"))`; `none` is the `ValueError`
  pub from_isoformat : String → Option Time
  -- `int(v)`
  pub int_of : Value → Result ℤ
  -- `float(v)`
  pub float_of : Value → Result Amount
  -- `list(v)` of a value that is true
  pub list_of : Value → Result Items
  -- `json.dumps(v, sort_keys=True, separators=(",", ":"))` of a dict or a list
  pub dumps : Value → String
  -- `v == w` and `v < w` of values that are not two integers or two texts
  pub equal : Value → Value → Bool
  pub less : Value → Value → Result Bool
  -- `json.loads` of the bytes of a message, which stand here as a text
  pub loads : String → Result Value
  -- the year, the month, the day and the hour of an instant in UTC
  pub calendar : ℕ → ℕ × ℕ × ℕ × ℕ
  -- `t.isoformat()` of an instant in UTC, with "Z" for "+00:00"
  pub isoformat : ℕ → String
  -- `str(UUID(text))`; `none` is the `ValueError`
  pub uuid_of : String → Option String
  -- `urlparse(text)`: the scheme, the network location and the path
  pub urlparse : String → String × String × String
  -- `urllib.parse.unquote_plus`
  pub unquote_plus : String → String

abbrev pub show_int : ℤ → String
show_int (pos n) = show n
show_int (negsuc n) = concat ("-" ∷ show (n + 1) ∷ [])

-- `str(v)`
unfoldable pub str_of : Library → Value → String
unfolding show
str_of lib null = "None"
str_of lib (bool true) = "True"
str_of lib (bool false) = "False"
str_of lib (int n) = show_int n
str_of lib (str s) = s
str_of lib v = lib.repr v

-- `v or {}`, of which `.get` is then taken: no other kind of value has it
abbrev pub dict_or_empty : Value → Result Fields
dict_or_empty (obj fs) = ok fs
dict_or_empty v =
    if truthy v then err (failure ErrorKind.type_error "object has no attribute 'get'") else ok end

-- `d[k]` of a value: the `KeyError` of a missing key, the `TypeError` of what is no dict
abbrev pub item_of : String → Option Value → Result Value
item_of k none = err (failure ErrorKind.key_error k)
item_of k (some v) = ok v

abbrev pub item : String → Value → Result Value
item k (obj fs) = item_of k (lookup k fs)
item k v = err (failure ErrorKind.type_error "not subscriptable")

-- `v.get(k)` of a value
abbrev pub get_item : String → Value → Result Value
get_item k (obj fs) = ok (get k fs)
get_item k v = err (failure ErrorKind.type_error "object has no attribute 'get'")

-- What a client of the object store takes is a text.
abbrev pub a_text : Value → Result String
a_text (str s) = ok s
a_text v = err (failure ErrorKind.type_error "expected a text")
