-- ===== src/Js.antt =====
-- The values that reach a TypeScript function as `unknown`: plain data, as JSON gives it.
-- Getters, prototypes, functions and symbols are left out.
use agent_chatgpt_bridge.Common.{
  ℕ, zero, suc, Bool, true, false, ◌&&◌, ◌||◌, List, [], ◌∷◌, Option, none, some, String, ◌==◌,
  string_equality, number_equality, if◌then◌else◌, leb, ltb, eqb,
}
use Prim.Native.Char.{code}

-- A string is the list of its UTF-16 code units.
abbrev pub Text : Type 0
Text = List ℕ

-- The code units of a literal (all of the program's are ASCII).
abbrev pub codes : String → Text
codes String.[] = []
codes (String.◌∷◌ c s) = code c ∷ codes s

-- A `number`: `nat n` and `minus n`, which is -(n + 1), are the integers; `between n` is any
-- number strictly between n and n + 1; `negative` is any other number below 0.
pub data Number : Type 0 where
  nat : ℕ → Number
  minus : ℕ → Number
  between : ℕ → Number
  negative : Number
  infinity : Number
  nan : Number

-- n > x, for an integer n that is not negative.
abbrev pub above : ℕ → Number → Bool
above n (nat m) = ltb m n
above n (minus m) = true
above n (between m) = ltb m n
above n negative = true
above n infinity = false
above n nan = false

-- `positiveInteger` and `nonNegativeInteger`, with the integer that they let through.
abbrev pub positive_integer : Number → Option ℕ
positive_integer (nat zero) = none
positive_integer (nat (suc n)) = some (suc n)
positive_integer _ = none

abbrev pub non_negative_integer : Number → Option ℕ
non_negative_integer (nat n) = some n
non_negative_integer _ = none

mutual
  pub data Value : Type 0 where
    undefined : Value
    null : Value
    bool : Bool → Value
    num : Number → Value
    str : Text → Value
    arr : Items → Value
    obj : Fields → Value

  pub data Items : Type 0 where
    end_items : Items
    item : Value → Items → Items

  pub data Fields : Type 0 where
    end_fields : Fields
    field : String → Value → Fields → Fields

abbrev pub to_list : Items → List Value
to_list end_items = []
to_list (item v vs) = v ∷ to_list vs

abbrev pub from_list : List Value → Items
from_list [] = end_items
from_list (v ∷ vs) = item v (from_list vs)

abbrev pub lookup_field : String → Fields → Value
lookup_field name end_fields = undefined
lookup_field name (field key v fs) = if key == name then v else lookup_field name fs

-- `value.name`, for the names that the program reads: no array, string or number has such a
-- property. Of `undefined` and `null` the program reads none.
abbrev pub property : String → Value → Value
property name (obj fs) = lookup_field name fs
property name _ = undefined

-- `typeof value !== "object" || value === null` fails.
abbrev pub is_object : Value → Bool
is_object (arr _) = true
is_object (obj _) = true
is_object _ = false

-- `String.prototype.trim` removes these.
abbrev pub is_space : ℕ → Bool
is_space c =
    leb 0x9 c && leb c 0xd
    || eqb c 0x20
    || eqb c 0xa0
    || eqb c 0x1680
    || leb 0x2000 c && leb c 0x200a
    || eqb c 0x2028
    || eqb c 0x2029
    || eqb c 0x202f
    || eqb c 0x205f
    || eqb c 0x3000
    || eqb c 0xfeff

-- `text.trim().length === 0`
unfoldable pub is_blank : Text → Bool
is_blank [] = true
is_blank (c ∷ cs) = is_space c && is_blank cs

abbrev is_high : ℕ → Bool
is_high c = leb 0xd800 c && leb c 0xdbff

abbrev is_low : ℕ → Bool
is_low c = leb 0xdc00 c && leb c 0xdfff

-- What `for (const c of text)` goes through: the code points.
unfoldable pub code_points : Text → List Text
code_points [] = []
code_points (c ∷ []) = (c ∷ []) ∷ []
code_points (c ∷ d ∷ rest) =
    let pair = (c ∷ d ∷ []) ∷ code_points rest in
    let single = (c ∷ []) ∷ code_points (d ∷ rest) in if is_high c && is_low d then pair else single

-- `text.startsWith(prefix)`
abbrev pub starts_with : Text → Text → Bool
starts_with [] text = true
starts_with (c ∷ cs) [] = false
starts_with (c ∷ cs) (d ∷ ds) = c == d && starts_with cs ds
