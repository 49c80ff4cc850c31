-- ===== src/Config.antt =====
-- core/internal/config/config.go: the process environment is a function from names to texts, empty
-- where a variable is not set.
use Prim.Native.Char.{code}
use Prim.Native.String.{[], ◌∷◌}
use llm_mcp.Prelude.{
  ℕ, ◌+◌, ◌-◌, ◌*◌, ◌^◌, ◌≡◌, refl, String, Bool, not, ◌&&◌, ◌||◌, ◌==◌, Option, none, some, leb,
  ltb, eqb, if◌then◌else◌,
}
use llm_mcp.Prelude.Int.{ℤ, pos, negsuc}

abbrev pub Vars : Type 0
Vars = String → String

unfoldable pub getenv : Vars → String → String → String
getenv vars key default = let v = vars key in if not (v == "") then v else default

digits : ℕ → String → Option ℕ
digits acc [] = some acc
digits acc (c ∷ s) =
    let n = code c in
    let rest = digits (acc * 10 + (n - 48)) s in if leb 48 n && leb n 57 then rest else none

-- At least one digit.
number : String → Option ℕ
unfolding digits
number s = if s == "" then none else digits 0 s

-- `strconv.Atoi` on a 64-bit platform: an optional sign, decimal digits, the range of int64.
unfoldable pub atoi : String → Option ℤ
unfolding number
atoi [] = none
atoi (c ∷ s) =
    if eqb (code c) 45
    then negative (number s)
    else if eqb (code c) 43
    then positive (number s)
    else positive (number (c ∷ s))
  where
    positive : Option ℕ → Option ℤ
    positive none = none
    positive (some n) = if ltb n (2 ^ 63) then some (pos n) else none

    negative : Option ℕ → Option ℤ
    negative none = none
    negative (some n) =
        if eqb n 0 then some (pos 0) else if leb n (2 ^ 63) then some (negsuc (n - 1)) else none

-- The value that `strconv.Atoi` returns beside its error: 0, or the nearest int64.
nearest : String → ℤ
unfolding number
nearest [] = pos 0
nearest (c ∷ s) = elim (number (if eqb (code c) 45 || eqb (code c) 43 then s else c ∷ s)) [
  | none ↦ pos 0
  | some n ↦ if eqb (code c) 45 then negsuc (2 ^ 63 - 1) else pos (2 ^ 63 - 1)
]

-- `n, _ := strconv.Atoi(s)`
unfoldable pub atoi_value : String → ℤ
unfolding nearest
atoi_value s = elim (atoi s) [ some n ↦ n | none ↦ nearest s ]

unfoldable pub getenv_int : Vars → String → ℤ → ℤ
getenv_int vars key default =
    let v = vars key in
    if not (v == "") then elim (atoi v) [ some n ↦ n | none ↦ default ] else default

unfoldable pub has_openai : Vars → Bool
has_openai vars = not (vars "OPENAI_API_KEY" == "")

unfoldable pub has_openrouter : Vars → Bool
has_openrouter vars = not (vars "OPENROUTER_API_KEY" == "")

signs : (atoi "-12" ≡ some (negsuc 11)) × (atoi "+7" ≡ some (pos 7)) × (atoi "1 2" ≡ none)
unfolding atoi
signs = (refl, refl, refl)

bounds : (atoi "9223372036854775808" ≡ none) × (atoi "" ≡ none) × (atoi "-" ≡ none)
unfolding atoi
bounds = (refl, refl, refl)
