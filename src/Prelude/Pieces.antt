-- ===== src/Prelude/Pieces.antt =====
-- More of Go's `strings` package: pieces of a text.
use Prim.Native.Nat.{ℕ}
use Prim.Native.Char.{Char, code}
use Prim.Native.String.{String}
use mathlib.Core.Path.{◌≡◌, refl}
use mathlib.Core.Bool.{Bool, false, ◌||◌}
use mathlib.Core.List.{List, [], ◌∷◌}
use text.Mathlib.Text.{◌==◌}
use llm_mcp.Prelude.Text.{has_prefix}
use llm_mcp.Prelude.Tests.{eqb, if◌then◌else◌}

-- A character before the first piece.
abbrev grow : Char → List String → List String
grow c [] = String.◌∷◌ c String.[] ∷ []
grow c (p ∷ ps) = String.◌∷◌ c p ∷ ps

-- `strings.Split` at a separator of one character.
unfoldable pub split_on : ℕ → String → List String
split_on sep String.[] = String.[] ∷ []
split_on sep (String.◌∷◌ c s) =
    let parts = split_on sep s in if eqb (code c) sep then String.[] ∷ parts else grow c parts

-- The code of the last character, 0 of the empty text, and the text without it.
unfoldable pub last_code : String → ℕ
last_code String.[] = 0
last_code (String.◌∷◌ c String.[]) = code c
last_code (String.◌∷◌ c (String.◌∷◌ d s)) = last_code (String.◌∷◌ d s)

unfoldable pub drop_last : String → String
drop_last String.[] = String.[]
drop_last (String.◌∷◌ c String.[]) = String.[]
drop_last (String.◌∷◌ c (String.◌∷◌ d s)) = String.◌∷◌ c (drop_last (String.◌∷◌ d s))

-- `strings.TrimSuffix` with a suffix of one character.
unfoldable pub trim_suffix : ℕ → String → String
unfolding last_code drop_last
trim_suffix c s = if eqb (last_code s) c then drop_last s else s

-- `strings.Contains` with a text of one character.
unfoldable pub has_code : ℕ → String → Bool
has_code n String.[] = false
has_code n (String.◌∷◌ c s) = eqb (code c) n || has_code n s

splits : split_on b',' "a,,b" ≡ "a" ∷ "" ∷ "b" ∷ []
unfolding split_on
splits = refl

trims_dot : trim_suffix b'.' "host.ts.net." ≡ "host.ts.net"
unfolding trim_suffix
trims_dot = refl

-- `strings.HasSuffix`
unfoldable pub has_suffix : String → String → Bool
has_suffix String.[] t = String.[] == t
has_suffix (String.◌∷◌ c s) t = String.◌∷◌ c s == t || has_suffix s t

-- `strings.TrimSuffix`
unfoldable pub cut_suffix : String → String → String
cut_suffix String.[] t = String.[]
cut_suffix (String.◌∷◌ c s) t =
    let rest = String.◌∷◌ c (cut_suffix s t) in if String.◌∷◌ c s == t then String.[] else rest

drop_as_long : String → String → String
drop_as_long s String.[] = s
drop_as_long String.[] (String.◌∷◌ d t) = String.[]
drop_as_long (String.◌∷◌ c s) (String.◌∷◌ d t) = drop_as_long s t

-- `strings.TrimPrefix`
unfoldable pub trim_prefix : String → String → String
unfolding drop_as_long has_prefix
trim_prefix s p = if has_prefix s p then drop_as_long s p else s

cuts : (cut_suffix "ab/stream" "/stream" ≡ "ab") × (trim_prefix "/v1/jobs/x" "/v1/jobs/" ≡ "x")
unfolding cut_suffix trim_prefix
cuts = (refl, refl)
