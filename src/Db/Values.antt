-- ===== src/Db/Values.antt =====
-- JSON values as the program reads them: one level deep. A jsonb column and a decoded
-- `json.RawMessage` are a `Json`; a nested array or object is kept as its text.
use llm_mcp.Prelude.{
  String, Bool, true, false, ◌==◌, Option, none, some, List, [], ◌∷◌, ◌++◌, if◌then◌else◌,
}
use llm_mcp.Prelude.Int.{ℤ}

pub data Value : Type 0 where
  null : Value
  bool : Bool → Value
  -- the text of a number, and its integer part
  num : String → ℤ → Value
  str : String → Value
  composite : String → Value

-- The fields of an object have distinct names: of a repeated one the decoder keeps the last.
pub data Json : Type 0 where
  object : List (String × Value) → Json
  other : Value → Json

abbrev pub lookup : String → List (String × Value) → Option Value
lookup k [] = none
lookup k ((j, v) ∷ fields) = if j == k then some v else lookup k fields

-- `json.Unmarshal` into a map, then `m[k]`: what is no object is refused or an empty map.
abbrev pub field : String → Json → Option Value
field k (object fields) = lookup k fields
field k (other v) = none

-- `s, _ := m[k].(string)`
abbrev pub as_string : Option Value → String
as_string (some (str s)) = s
as_string _ = ""

abbrev pub text : Value → Option String
text null = none
text (bool true) = some "true"
text (bool false) = some "false"
text (num t n) = some t
text (str s) = some s
text (composite t) = some t

-- SQL's `column->>'k'`, with NULL as `none`.
abbrev pub arrow_text : String → Json → Option String
arrow_text k j = elim (field k j) [ none ↦ none | some v ↦ text v ]

-- SQL's `COALESCE(t, d)`.
abbrev pub coalesce : Option String → String → String
coalesce none d = d
coalesce (some t) d = t

-- The members of the first object that the second does not name.
abbrev pub without : List (String × Value) → List (String × Value) → List (String × Value)
without [] g = []
without ((k, v) ∷ f) g =
    let rest = without f g in elim (lookup k g) [ none ↦ (k, v) ∷ rest | some w ↦ rest ]

-- `COALESCE(tags, '{}') || $1` with an object on the right: its members win. Of a left side that is no
-- object an array comes out, which has no fields either.
abbrev pub merge : Option Json → List (String × Value) → Json
merge none g = object g
merge (some (object f)) g = object (without f g ++ g)
merge (some (other v)) g = other v

-- What a `json.RawMessage` of length 0 is replaced by.
abbrev pub or_empty : Option Json → Json
or_empty none = object []
or_empty (some j) = j
