-- ===== src/Discovery/Infer.antt =====
-- What core/internal/discovery/discovery.go infers of a model from its name and its size.
use llm_mcp.Prelude.{
  ℕ, suc, ◌-◌, ◌*◌, ◌/◌, String, Bool, ◌||◌, ◌==◌, Option, none, some, List, [], ◌∷◌, eqb, any,
  if◌then◌else◌, to_lower, contains, has_prefix, trim_space, last_code, drop_last,
}
use llm_mcp.Prelude.Int.{ℤ, pos, negsuc, leb_ℤ}
use llm_mcp.Db.{Micro}
use llm_mcp.Discovery.Net.{Net}

abbrev pub tier_of_size : Micro → String
tier_of_size b =
    if leb_ℤ b (pos 1_200_000)
    then "tiny"
    else if leb_ℤ b (pos 2_000_000)
    then "small"
    else if leb_ℤ b (pos 4_500_000)
    then "medium"
    else if leb_ℤ b (pos 10_000_000)
    then "large"
    else "xl"

unfoldable pub infer_tier : Option Micro → String → String
infer_tier params name =
    if contains (to_lower name) "embed"
    then "embed"
    else elim params [ none ↦ "" | some b ↦ tier_of_size b ]

abbrev pub names_any : List String → String → Bool
names_any words n = any (λ w. contains n w) words

abbrev pub starts_any : List String → String → Bool
starts_any words n = any (λ w. has_prefix n w) words

-- The family is not looked at.
unfoldable pub infer_thinking : String → String → Bool
infer_thinking name family =
    let n = to_lower name in
    has_prefix n "qwen3:"
    || names_any
        ("deepseek-r1" ∷ "phi4-reasoning" ∷ "lfm2.5-thinking" ∷ "deepscaler" ∷ "exaone-deep" ∷ []) n

unfoldable pub infer_context_k : String → String → ℕ
infer_context_k name family =
    let n = to_lower name in
    if has_prefix n "tinyllama"
    then 2
    else if has_prefix n "yi:"
    then 4
    else if starts_any
        ("qwen3:" ∷ "qwen2.5:" ∷ "qwen2.5-coder:" ∷ "exaone-deep:" ∷ "granite4:"
          ∷ "lfm2.5-thinking:" ∷ "falcon3:" ∷ "smollm2:" ∷ [])
        n
    then 32
    else if starts_any ("llama3.2:" ∷ "phi3.5:" ∷ "phi3:" ∷ "qwen2.5vl:" ∷ "qwen3-vl:" ∷ []) n
    then 128
    else if has_prefix n "phi4-reasoning"
    then 16
    else if contains n "embed"
    then 8
    else if has_prefix n "gemma"
    then 8
    else 4

unfoldable pub infer_kind : String → String
infer_kind name = if contains (to_lower name) "embed" then "embed" else "chat"

-- A product with 1, 0.001 or 0.000001, down to a millionth.
abbrev pub scale_down : ℕ → Micro → Micro
scale_down k (pos n) = pos (n / k)
scale_down k (negsuc n) = let m = suc n / k in if eqb m 0 then pos 0 else negsuc (m - 1)

abbrev pub parsed : Net → String → ℕ → Option Micro
parsed net raw k = elim (net.parse_float raw) [ none ↦ none | some v ↦ some (scale_down k v) ]

-- `7B`, `270M` or `500K`, or a number without a unit.
unfoldable pub parse_params_b : Net → String → Option Micro
parse_params_b net text =
    let raw = trim_space text in
    let last = last_code raw in
    if raw == ""
    then none
    else if eqb last b'B' || eqb last b'b'
    then parsed net (drop_last raw) 1
    else if eqb last b'M' || eqb last b'm'
    then parsed net (drop_last raw) 1_000
    else if eqb last b'K' || eqb last b'k'
    then parsed net (drop_last raw) 1_000_000
    else parsed net raw 1

-- `nullableFloat` of the bytes as GiB.
unfoldable pub size_in_gb : ℤ → Option Micro
size_in_gb (pos n) = if eqb n 0 then none else some (pos (n * 1_000_000 / 1_073_741_824))
size_in_gb (negsuc n) = none
