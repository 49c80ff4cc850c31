-- ===== src/Prelude/Text.antt =====
-- Go's `strings` package, as far as the program uses it, over the native texts. `ToLower` maps the
-- letters that have an ASCII lower case (`K` may be the Kelvin sign, `I` the dotted capital); every
-- other letter is kept, which no comparison with the program's ASCII literals can tell.
use Prim.Native.Nat.{ℕ, zero, suc, ◌+◌, ◌/◌, ◌%◌}
use Prim.Native.Char.{Char, code}
use Prim.Native.String.{String, [], ◌∷◌}
use mathlib.Core.Path.{◌≡◌, refl, sym, ap, ◌∙◌}
use mathlib.Core.Logic.{inl, inr}
use mathlib.Core.Bool.{Bool, true, false, ◌&&◌, ◌||◌}
use text.Mathlib.Text.{◌==◌}
use text.Mathlib.TextEquality.{eq_iff}
use text.Mathlib.TextPositions.{eq_refl}
use native.Mathlib.Omega.{arith}
use llm_mcp.Prelude.Tests.{ltb, leb, eqb, if◌then◌else◌, Bool-cases}

-- `unicode.IsSpace`
is_space : Char → Bool
is_space c =
    let n = code c in
    (leb 9 n && leb n 13)
    || eqb n 32
    || eqb n 0x85
    || eqb n 0xa0
    || eqb n 0x1680
    || (leb 0x2000 n && leb n 0x200a)
    || eqb n 0x2028
    || eqb n 0x2029
    || eqb n 0x202f
    || eqb n 0x205f
    || eqb n 0x3000

trim_left : String → String
trim_left [] = []
trim_left (c ∷ s) = let rest = trim_left s in if is_space c then rest else c ∷ s

-- A space goes when all that follows it goes.
keep_end : Char → String → String
keep_end c [] = if is_space c then [] else c ∷ []
keep_end c (d ∷ s) = c ∷ d ∷ s

trim_right : String → String
trim_right [] = []
trim_right (c ∷ s) = keep_end c (trim_right s)

-- `strings.TrimSpace`
unfoldable pub trim_space : String → String
unfolding trim_left trim_right keep_end is_space
trim_space s = trim_right (trim_left s)

-- Holds of a text that does not begin with a space.
abbrev IsClean : String → Type 0
IsClean [] = Unit {0}
IsClean (c ∷ s) = is_space c ≡ false

trim_left-IsClean : (s : String) → IsClean (trim_left s)
unfolding trim_left
trim_left-IsClean [] = tt
trim_left-IsClean (c ∷ s) = elim (Bool-cases (is_space c)) [
  | inl e ↦ rw e (trim_left-IsClean s)
  | inr e ↦ rw e e
]

trim_left_clean : (s : String) → IsClean s → trim_left s ≡ s
unfolding trim_left
trim_left_clean [] h = refl
trim_left_clean (c ∷ s) h = rw h

trim_right-IsClean : (s : String) → IsClean s → IsClean (trim_right s)
unfolding trim_right
trim_right-IsClean [] h = tt
trim_right-IsClean (c ∷ s) h = keep (trim_right s)
  where
    keep : (r : String) → IsClean (keep_end c r)
    keep [] = unfold keep_end in rw h h
    keep (d ∷ r) = unfold keep_end in h

trim_right-keep_end :
    (c : Char) (r : String) → trim_right r ≡ r → trim_right (keep_end c r) ≡ keep_end c r
unfolding trim_right keep_end
trim_right-keep_end c [] h = elim (Bool-cases (is_space c)) [ inl e ↦ rw e | inr e ↦ simp e ]
trim_right-keep_end c (d ∷ r) h = ap (keep_end c) h

trim_right_idem : (s : String) → trim_right (trim_right s) ≡ trim_right s
unfolding trim_right
trim_right_idem [] = refl
trim_right_idem (c ∷ s) = trim_right-keep_end c (trim_right s) (trim_right_idem s)

pub trim_space_idem : (s : String) → trim_space (trim_space s) ≡ trim_space s
unfolding trim_space
trim_space_idem s =
    ap trim_right (
      trim_left_clean (trim_right (trim_left s))
        (trim_right-IsClean (trim_left s) (trim_left-IsClean s)))
    ∙ trim_right_idem (trim_left s)

-- `strings.TrimSpace(s) == ""`
abbrev pub blank : String → Bool
blank s = trim_space s == ""

lower_char : Char → Char
lower_char c =
    let n = code c in
    if eqb n 65
    then "a"
    else if eqb n 66
    then "b"
    else if eqb n 67
    then "c"
    else if eqb n 68
    then "d"
    else if eqb n 69
    then "e"
    else if eqb n 70
    then "f"
    else if eqb n 71
    then "g"
    else if eqb n 72
    then "h"
    else if eqb n 73
    then "i"
    else if eqb n 74
    then "j"
    else if eqb n 75
    then "k"
    else if eqb n 76
    then "l"
    else if eqb n 77
    then "m"
    else if eqb n 78
    then "n"
    else if eqb n 79
    then "o"
    else if eqb n 80
    then "p"
    else if eqb n 81
    then "q"
    else if eqb n 82
    then "r"
    else if eqb n 83
    then "s"
    else if eqb n 84
    then "t"
    else if eqb n 85
    then "u"
    else if eqb n 86
    then "v"
    else if eqb n 87
    then "w"
    else if eqb n 88
    then "x"
    else if eqb n 89
    then "y"
    else if eqb n 90
    then "z"
    else if eqb n 0x130
    then "i"
    else if eqb n 0x212a
    then "k"
    else c

-- `strings.ToLower`
unfoldable pub to_lower : String → String
unfolding lower_char
to_lower [] = []
to_lower (c ∷ s) = lower_char c ∷ to_lower s

-- `strings.HasPrefix`
unfoldable pub has_prefix : String → String → Bool
has_prefix s [] = true
has_prefix [] (d ∷ t) = false
has_prefix (c ∷ s) (d ∷ t) = eqb (code c) (code d) && has_prefix s t

-- `strings.Contains`
unfoldable pub contains : String → String → Bool
unfolding has_prefix
contains [] t = has_prefix [] t
contains (c ∷ s) t = has_prefix (c ∷ s) t || contains s t

-- `s + t`
unfoldable pub concat : String → String → String
concat [] t = t
concat (c ∷ s) t = c ∷ concat s t

digit : ℕ → String
digit d =
    if eqb d 0
    then "0"
    else if eqb d 1
    then "1"
    else if eqb d 2
    then "2"
    else if eqb d 3
    then "3"
    else if eqb d 4
    then "4"
    else if eqb d 5
    then "5"
    else if eqb d 6
    then "6"
    else if eqb d 7
    then "7"
    else if eqb d 8
    then "8"
    else "9"

digits_up_to : ℕ → ℕ → String
digits_up_to zero n = ""
digits_up_to (suc fuel) n =
    let rest = digits_up_to fuel (n / 10) in
    if ltb n 10 then digit n else concat rest (digit (n % 10))

-- `strconv.FormatInt` of a number below 10 ^ 20, which every int64 is.
unfoldable pub decimal : ℕ → String
unfolding digits_up_to digit concat
decimal n = digits_up_to 20 n

prints : (decimal 0 ≡ "0") × (decimal 11434 ≡ "11434")
unfolding decimal
prints = (refl, refl)

trims : trim_space " \t gpt 4 \n" ≡ "gpt 4"
unfolding trim_space
trims = refl

lowers : to_lower "OpenRouter-9" ≡ "openrouter-9"
unfolding to_lower
lowers = refl

finds : contains "nomic-embed-text" "embed" ≡ true
unfolding contains
finds = refl

-- The bytes of a character in UTF-8.
abbrev char_bytes : Char → ℕ
char_bytes c =
    let n = code c in
    if ltb n 0x80 then 1 else if ltb n 0x800 then 2 else if ltb n 0x10000 then 3 else 4

-- `len(s)`
unfoldable pub byte_len : String → ℕ
byte_len [] = 0
byte_len (c ∷ s) = char_bytes c + byte_len s

pub eq_comm : (a b : String) → (a == b) ≡ (b == a)
eq_comm a b = elim (Bool-cases (a == b)) [
  | inl h ↦ let q : a ≡ b = (eq_iff a b).0 h in rw q refl
  | inr h ↦ elim (Bool-cases (b == a)) [
    | inl k ↦ let q : b ≡ a = (eq_iff b a).0 k in absurd (ground (arith, rw q at h, eq_refl a))
    | inr k ↦ h ∙ sym k
  ]
]
