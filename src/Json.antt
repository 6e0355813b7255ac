-- ===== src/Json.antt =====
-- `json.dumps(v, sort_keys=True, separators=(",", ":"))` of the standard library, as
-- controller/ledger.py calls it, and `str` of an int.
pub mod Sorting
pub mod Decimal
use Prim.Native.Char.{Char, code}
use googlecloudhack.Prelude.{
  ℕ, zero, suc, ◌+◌, ◌-◌, ◌/◌, ◌%◌, ◌^◌, ℤ, pos, negsuc, String, Bool, true, false, ◌||◌, ◌&&◌,
  List, [], ◌∷◌, ◌++◌, concat, join, ltb, leb, nat_eq, map, if◌then◌else◌,
}
use googlecloudhack.Value.{
  Value, null, boolean, int, float, str, list, tuple, dict, Items, nil, cons, Fields, end, field,
}
use Sorting.{sort_by}

abbrev digit_of : List String → ℕ → String
digit_of [] n = "?"
digit_of (d ∷ ds) zero = d
digit_of (d ∷ ds) (suc n) = digit_of ds n

-- the hexadecimal digit of a number below 16
abbrev pub hex_digit : ℕ → String
hex_digit = digit_of (
    "0" ∷ "1" ∷ "2" ∷ "3" ∷ "4" ∷ "5" ∷ "6" ∷ "7" ∷ "8" ∷ "9" ∷ "a" ∷ "b" ∷ "c" ∷ "d" ∷ "e" ∷ "f"
    ∷ [])

-- decimal digits; a number has fewer of them than its successor, which is the fuel
decimal : ℕ → ℕ → String
decimal zero n = ""
decimal (suc fuel) n =
    let higher = decimal fuel (n / 10) in
    if ltb n 10 then hex_digit n else concat (higher ∷ hex_digit (n % 10) ∷ [])

-- `str(n)`
unfoldable pub int_text : ℤ → String
unfolding decimal
int_text (pos n) = decimal (suc n) n
int_text (negsuc n) = concat ("-" ∷ decimal (suc (suc n)) (suc n) ∷ [])

abbrev unicode_escape : ℕ → String
unicode_escape n = concat (
    "\\u"
    ∷ hex_digit (n / 4096 % 16)
    ∷ hex_digit (n / 256 % 16)
    ∷ hex_digit (n / 16 % 16)
    ∷ hex_digit (n % 16)
    ∷ [])

-- `ensure_ascii`: what lies outside the printable ASCII characters is written as UTF-16 units
escape_char : Char → String
escape_char c =
    let n = code c in
    if nat_eq n 34
    then "\\\""
    else if nat_eq n 92
    then "\\\\"
    else if nat_eq n 10
    then "\\n"
    else if nat_eq n 13
    then "\\r"
    else if nat_eq n 9
    then "\\t"
    else if nat_eq n 12
    then "\\f"
    else if nat_eq n 8
    then "\\b"
    else if leb 32 n && leb n 126
    then String.◌∷◌ c String.[]
    else if ltb n 65536
    then unicode_escape n
    else concat (
        unicode_escape (55296 + (n - 65536) / 1024 % 1024)
        ∷ unicode_escape (56320 + (n - 65536) % 1024)
        ∷ [])

escape : String → String
unfolding escape_char
escape String.[] = ""
escape (String.◌∷◌ c s) = concat (escape_char c ∷ escape s ∷ [])

abbrev quote : String → String
unfolding escape
quote s = concat ("\"" ∷ escape s ∷ "\"" ∷ [])

abbrev key_text : String × String → String
unfolding escape
key_text (k, text) = concat (quote k ∷ ":" ∷ text ∷ [])

-- `sort_keys`: the entries are sorted by their keys before they are written.
unfoldable mutual
  unfolding escape int_text sort_by

  pub dumps : Value → String
  dumps null = "null"
  dumps (boolean b) = if b then "true" else "false"
  dumps (int n) = int_text n
  dumps (float r) = r
  dumps (str s) = quote s
  dumps (list vs) = concat ("[" ∷ join "," (dumps_items vs) ∷ "]" ∷ [])
  dumps (tuple vs) = concat ("[" ∷ join "," (dumps_items vs) ∷ "]" ∷ [])
  dumps (dict fs) =
      concat ("{" ∷ join "," (map key_text (sort_by (λ e. e.0) (dumps_fields fs))) ∷ "}" ∷ [])

  pub dumps_items : Items → List String
  dumps_items nil = []
  dumps_items (cons v vs) = dumps v ∷ dumps_items vs

  pub dumps_fields : Fields → List (String × String)
  dumps_fields end = []
  dumps_fields (field k v fs) = (k, dumps v) ∷ dumps_fields fs
