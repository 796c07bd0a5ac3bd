-- ===== src/ReasoningEnvelope.antt =====
-- src/responses/reasoning-envelope.ts. `serialize` is `JSON.stringify`, the bytes of its UTF-8 and their
-- base64; `deserialize` is the way back, with none where one of them throws.
pub mod RoundTrip
mod Samples
use agent_chatgpt_bridge.Common.{
  String, Bool, true, false, ◌||◌, List, [], ◌∷◌, ◌++◌, map, Option, none, some, ◌==◌,
  number_equality, if◌then◌else◌,
}
use agent_chatgpt_bridge.Js.{
  Text, codes, starts_with, Value, Items, Fields, undefined, str, arr, obj, end_items, item,
  end_fields, field, lookup_field, from_list, property,
}

pub record ReasoningEnvelope : Type 0 where
  pub sig : Option Text
  pub red : Option (List Text)
  pub txt : Option Text

-- `BRIDGE_REASONING_PREFIX`
abbrev pub prefix : Text
prefix = codes "ocxr1:"

-- A property that is `undefined` is left out by `JSON.stringify`.
abbrev pub text_field : String → Option Text → Fields → Fields
text_field name none fs = fs
text_field name (some t) fs = field name (str t) fs

abbrev pub texts_field : Option (List Text) → Fields → Fields
texts_field none fs = fs
texts_field (some ts) fs = field "red" (arr (from_list (map str ts))) fs

abbrev pub to_value : ReasoningEnvelope → Value
to_value e = obj (text_field "sig" e.sig (texts_field e.red (text_field "txt" e.txt end_fields)))

unfoldable pub encode : (Value → Text) → ReasoningEnvelope → Text
encode serialize e = prefix ++ serialize (to_value e)

-- `typeof v === "string"`
abbrev pub string_of : Value → Option Text
string_of (str t) = some t
string_of _ = none

abbrev pub non_empty {ℓ} : {A : Type ℓ} → Option (List A) → Option (List A)
non_empty none = none
non_empty (some []) = none
non_empty (some (x ∷ xs)) = some (x ∷ xs)

-- `filter(r => typeof r === "string")`
abbrev pub strings_of : Items → List Text
strings_of end_items = []
strings_of (item (str t) vs) = t ∷ strings_of vs
strings_of (item v vs) = strings_of vs

abbrev pub string_items : Value → Option (List Text)
string_items (arr vs) = some (strings_of vs)
string_items _ = none

abbrev pub is_some {ℓ} : {A : Type ℓ} → Option A → Bool
is_some none = false
is_some (some a) = true

-- `envelope.sig || envelope.red || envelope.txt`: an empty string is not, an array is.
abbrev pub is_worth : ReasoningEnvelope → Bool
is_worth e = is_some (non_empty e.sig) || is_some e.red || is_some (non_empty e.txt)

abbrev pub if_worth : ReasoningEnvelope → Option ReasoningEnvelope
if_worth e = if is_worth e then some e else none

abbrev pub read_fields : Fields → ReasoningEnvelope
read_fields fs = record {
  sig = string_of (lookup_field "sig" fs);
  red = non_empty (string_items (lookup_field "red" fs));
  txt = non_empty (string_of (lookup_field "txt" fs));
}

-- What is made of the parsed JSON: an object that is no array.
abbrev pub read_value : Option Value → Option ReasoningEnvelope
read_value (some (obj fs)) = if_worth (read_fields fs)
read_value _ = none

-- `text.slice(n)`, for the text without its first part
abbrev pub slice : Text → Text → Text
slice [] text = text
slice (c ∷ cs) [] = []
slice (c ∷ cs) (d ∷ ds) = slice cs ds

unfoldable pub decode : (Text → Option Value) → Text → Option ReasoningEnvelope
decode deserialize text =
    if starts_with prefix text then read_value (deserialize (slice prefix text)) else none
