-- ===== src/Exclusions/Json.antt =====
-- Python's `json.dumps(value, sort_keys=True, separators=(",", ":"))` of what lib/exclusions.py writes.
-- `json.loads` is an argument of the functions that call it.
use zark.Base.{
  ℕ, ◌+◌, ◌-◌, ◌/◌, ◌%◌, Bool, ◌&&◌, ◌||◌, Option, none, some, [], ◌∷◌, ◌++◌, ltb, leb, ◌==◌,
  if◌then◌else◌, flat_map, Dict, Text, codes, text_eq, decimal,
}

mutual
  -- `other_number` is a number that is no natural one, by its text.
  pub data Json : Type 0 where
    null : Json
    bool : Bool → Json
    num : ℕ → Json
    other_number : Text → Json
    str : Text → Json
    arr : Items → Json
    obj : Fields → Json

  pub data Items : Type 0 where
    nil : Items
    cons : Json → Items → Items

  pub data Fields : Type 0 where
    end : Fields
    field : Text → Json → Fields → Fields

abbrev pub Loads : Type 0
Loads = Text → Option Json

unfoldable pub hex_digit : ℕ → ℕ
hex_digit n = if ltb n 10 then b'0' + n else b'a' + (n - 10)

-- `\uXXXX`
unfoldable pub unicode_escape : ℕ → Text
unicode_escape n =
    b'\\'
    ∷ b'u'
    ∷ hex_digit (n / 4096 % 16)
    ∷ hex_digit (n / 256 % 16)
    ∷ hex_digit (n / 16 % 16)
    ∷ hex_digit (n % 16)
    ∷ []

-- the escapes of two characters
unfoldable pub short_escape : ℕ → Option ℕ
short_escape x =
    if x == b'"' || x == b'\\'
    then some x
    else if x == 10
    then some b'n'
    else if x == 13
    then some b'r'
    else if x == 9
    then some b't'
    else if x == 8
    then some b'b'
    else if x == 12
    then some b'f'
    else none

-- what is not ASCII is escaped, beyond 65535 as a pair of surrogates
unfoldable pub dump_char : ℕ → Text
dump_char x = elim (short_escape x) [
  | some e ↦ b'\\' ∷ e ∷ []
  | none ↦
      if leb 32 x && leb x 126
      then x ∷ []
      else if ltb x 65536
      then unicode_escape x
      else unicode_escape (55296 + (x - 65536) / 1024)
        ++ unicode_escape (56320 + (x - 65536) % 1024)
]

unfoldable pub dump_text : Text → Text
dump_text s = b'"' ∷ (flat_map dump_char s ++ b'"' ∷ [])

unfoldable mutual
  -- keys stand in the order of the fields, which `object_of` sorts
  pub dump : Json → Text
  dump null = codes "null"
  dump (bool b) = if b then codes "true" else codes "false"
  dump (num n) = decimal n
  dump (other_number s) = s
  dump (str s) = dump_text s
  dump (arr xs) = b'[' ∷ dump_items xs
  dump (obj fs) = b'{' ∷ dump_fields fs

  pub dump_items : Items → Text
  dump_items nil = b']' ∷ []
  dump_items (cons x nil) = dump x ++ b']' ∷ []
  dump_items (cons x xs) = dump x ++ (b',' ∷ dump_items xs)

  pub dump_fields : Fields → Text
  dump_fields end = b'}' ∷ []
  dump_fields (field k v end) = dump_text k ++ (b':' ∷ (dump v ++ b'}' ∷ []))
  dump_fields (field k v fs) = dump_text k ++ (b':' ∷ (dump v ++ (b',' ∷ dump_fields fs)))

unfoldable pub fields_of : Dict Json → Fields
fields_of [] = end
fields_of ((k, v) ∷ d) = field k v (fields_of d)

unfoldable pub get_field : Text → Fields → Option Json
get_field k end = none
get_field k (field j v fs) = let rest = get_field k fs in if text_eq k j then some v else rest
