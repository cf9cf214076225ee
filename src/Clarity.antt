-- ===== src/Clarity.antt =====
-- libs/stacks/clarity: values of the consensus encoding and the names in them (value.go). The
-- children have the encoder (value.go) and the decoder (decode.go). A Go string and a `[]byte` are
-- lists of bytes; a map is the list of its entries, with no key twice; a `Type` is its tag byte.
-- A limit is a natural number: a negative one is refused where zero is.
pub mod Encode
pub mod Decode
pub mod Parts
pub mod Integers
pub mod Wire
pub mod Dots
pub mod Principals
pub mod Normal
pub mod Written
pub mod Cases
pub mod RoundTrip
pub mod Read
pub mod Canonical
pub mod Examples
use stacks_k8s.Common.{
  ℕ, zero, suc, ◌+◌, ◌^◌, Bool, true, false, not, ◌&&◌, ◌||◌, Option, none, some, List, [], ◌∷◌,
  ltb, leb, ◌==◌, nat_eq, if◌then◌else◌, length, any, all,
}
use stacks_k8s.Common.Int.{ℤ, pos}
use stacks_k8s.Encoding.Hex.{Bytes}

mutual
  -- Type, Integer, Bytes, Text, Items and Fields.
  pub data Value : Type 0 where
    value : ℕ → Option ℤ → Bytes → Bytes → Items → Fields → Value

  pub data Items : Type 0 where
    no_items : Items
    item : Value → Items → Items

  pub data Fields : Type 0 where
    no_fields : Fields
    field : Bytes → Value → Fields → Fields

abbrev pub int_type : ℕ
int_type = 0

abbrev pub uint_type : ℕ
uint_type = 1

abbrev pub buffer_type : ℕ
buffer_type = 2

abbrev pub true_type : ℕ
true_type = 3

abbrev pub false_type : ℕ
false_type = 4

abbrev pub standard_principal : ℕ
standard_principal = 5

abbrev pub contract_principal : ℕ
contract_principal = 6

abbrev pub response_ok : ℕ
response_ok = 7

abbrev pub response_err : ℕ
response_err = 8

abbrev pub none_type : ℕ
none_type = 9

abbrev pub some_type : ℕ
some_type = 10

abbrev pub list_type : ℕ
list_type = 11

abbrev pub tuple_type : ℕ
tuple_type = 12

abbrev pub ascii_type : ℕ
ascii_type = 13

abbrev pub utf8_type : ℕ
utf8_type = 14

-- The cases of `switch v.Type`.
pub data Case : Type 0 where
  integer_case : Case
  buffer_case : Case
  text_case : Case
  constant_case : Case
  principal_case : Case
  wrapper_case : Case
  list_case : Case
  tuple_case : Case
  no_case : Case

unfoldable pub case_of : ℕ → Case
case_of t =
    if t == int_type || t == uint_type
    then integer_case
    else if t == buffer_type
    then buffer_case
    else if t == ascii_type || t == utf8_type
    then text_case
    else if t == true_type || t == false_type || t == none_type
    then constant_case
    else if t == standard_principal || t == contract_principal
    then principal_case
    else if t == some_type || t == response_ok || t == response_err
    then wrapper_case
    else if t == list_type
    then list_case
    else if t == tuple_type
    then tuple_case
    else no_case

pub record Limits : Type 0 where
  pub max_bytes : ℕ
  pub max_depth : ℕ

abbrev pub default_limits : Limits
default_limits = record { max_bytes = 1_048_576; max_depth = 32 }

-- What the codec calls outside the repository: SHA-256 of crypto/sha256 (inside an address), and
-- `Valid` of unicode/utf8.
pub record Builtins : Type 0 where
  pub sha256 : Bytes → Bytes
  pub valid_utf8 : Bytes → Bool

abbrev pub uint : ℕ → Value
uint n = value uint_type (some (pos n)) [] [] no_items no_fields

abbrev pub is_letter : ℕ → Bool
is_letter c = leb 97 c && leb c 122 || leb 65 c && leb c 90

abbrev pub is_digit : ℕ → Bool
is_digit c = leb 48 c && leb c 57

-- `[a-zA-Z0-9_\-!?+<>=/*]`.
unfoldable pub is_name_byte : ℕ → Bool
is_name_byte c =
    is_letter c
    || is_digit c
    || any (λ d. c == d) (95 ∷ 45 ∷ 33 ∷ 63 ∷ 43 ∷ 60 ∷ 62 ∷ 61 ∷ 47 ∷ 42 ∷ [])

-- `^[a-zA-Z][a-zA-Z0-9_\-!?+<>=/*]*$|^[-+=/*]$|^[<>]=?$`.
unfoldable pub name_pattern : Bytes → Bool
unfolding is_name_byte
name_pattern [] = false
name_pattern (c ∷ []) = is_letter c || any (λ d. c == d) (45 ∷ 43 ∷ 61 ∷ 47 ∷ 42 ∷ 60 ∷ 62 ∷ [])
name_pattern (c ∷ d ∷ s) =
    is_letter c && all is_name_byte (d ∷ s)
    || any (λ e. c == e) (60 ∷ 62 ∷ []) && d == 61 && length s == 0

unfoldable pub valid_name : Bytes → Bool
unfolding name_pattern
valid_name s = ltb 0 (length s) && leb (length s) 128 && name_pattern s

unfoldable pub is_contract_byte : ℕ → Bool
is_contract_byte c = is_letter c || is_digit c || c == 45 || c == 95

unfoldable pub valid_contract_name : Bytes → Bool
unfolding is_contract_byte
valid_contract_name [] = false
valid_contract_name (c ∷ s) =
    if ltb 128 (length (c ∷ s))
    then false
    else if not (is_letter c)
    then false
    else all is_contract_byte (c ∷ s)

-- Go's `a < b` on strings.
unfoldable pub ltb_bytes : Bytes → Bytes → Bool
ltb_bytes [] [] = false
ltb_bytes [] (y ∷ ys) = true
ltb_bytes (x ∷ xs) [] = false
ltb_bytes (x ∷ xs) (y ∷ ys) = ltb x y || x == y && ltb_bytes xs ys
