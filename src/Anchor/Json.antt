-- ===== src/Anchor/Json.antt =====
-- JSON values, as `JSON.parse` returns them, and the readers of apps/web/lib/anchor/http.ts.
use showup.Prelude.{
  ℕ, suc, map, ◌==◌, String, Bool, Option, none, some, List, [], ◌∷◌, str_eq, if◌then◌else◌,
}
use Prim.Native.String.{◌++◌ as str_append}
use showup.Prelude.Text.{to_decimal}
use showup.Prelude.Outcome.{Outcome, returned, thrown}
use showup.Anchor.Errors.{AnchorError, new_anchor_error, protocol, no_options}

-- A number is what the code reads of it: its text, `String(value)`, and whether it is finite.
pub record JsNumber : Type 0 where
  pub text : String
  pub is_finite : Bool

mutual
  pub data Json : Type 0 where
    null : Json
    bool : Bool → Json
    num : JsNumber → Json
    str : String → Json
    arr : Items → Json
    obj : Fields → Json

  pub data Items : Type 0 where
    nil : Items
    cons : Json → Items → Items

  pub data Fields : Type 0 where
    end : Fields
    field : String → Json → Fields → Fields

-- `record[key]`; `none` is `undefined`. A parsed object has each key once.
unfoldable pub get : Fields → String → Option Json
get end key = none
get (field k v fields) key = if str_eq k key then some v else get fields key

-- `optionalString`, which takes `undefined` too.
unfoldable pub optional_string : Option Json → Option String
optional_string (some (str s)) = if str_eq s "" then none else some s
optional_string (some (num n)) = if n.is_finite then some n.text else none
optional_string _ = none

abbrev pub protocol_error : String → AnchorError
protocol_error message = new_anchor_error protocol message no_options

-- Template strings.
abbrev pub concat : List String → String
concat [] = ""
concat (s ∷ ss) = str_append s (concat ss)

abbrev missing_message : String → String → String
missing_message context key =
    concat ("The Anchor's " ∷ context ∷ " response is missing \"" ∷ key ∷ "\"." ∷ [])

abbrev not_object_message : String → String
not_object_message context =
    concat ("The Anchor's " ∷ context ∷ " response was not an object." ∷ [])

-- `requireString`.
unfoldable pub require_string : Fields → String → String → Outcome AnchorError String
require_string source key context = elim (optional_string (get source key)) [
  | none ↦ thrown (protocol_error (missing_message context key))
  | some s ↦ returned s
]

-- `requireRecord`: an array or a scalar is refused.
unfoldable pub require_record : Json → String → Outcome AnchorError Fields
require_record (obj fields) context = returned fields
require_record _ context = thrown (protocol_error (not_object_message context))

-- The digits of an index as a property key.
abbrev digit_key : ℕ → String
digit_key c =
    if c == b'0'
    then "0"
    else if c == b'1'
    then "1"
    else if c == b'2'
    then "2"
    else if c == b'3'
    then "3"
    else if c == b'4'
    then "4"
    else if c == b'5'
    then "5"
    else if c == b'6'
    then "6"
    else if c == b'7'
    then "7"
    else if c == b'8'
    then "8"
    else "9"

index_key : ℕ → String
index_key i = concat (map digit_key (to_decimal i))

-- The entries of an array have its indices as keys.
indexed : ℕ → Items → Fields
indexed i nil = end
indexed i (cons v items) = field (index_key i) v (indexed (suc i) items)

-- `value && typeof value === "object"`, and the value's properties: an array is an object too.
unfoldable pub as_object : Json → Option Fields
unfolding indexed index_key
as_object (obj fields) = some fields
as_object (arr items) = some (indexed 0 items)
as_object _ = none

-- The same for a property that may be missing.
abbrev pub as_object? : Option Json → Option Fields
as_object? none = none
as_object? (some v) = as_object v
