-- ===== src/Routing/Llm/Request.antt =====
-- A request to a language model, and what the routes of core/internal/routing/router.go make of it.
use llm_mcp.Prelude.{
  ℕ, ◌+◌, ◌/◌, String, Bool, true, false, not, ◌&&◌, ◌==◌, Option, none, some, List, [], ◌∷◌, ltb,
  concat, byte_len, to_lower, trim_space, if◌then◌else◌,
}
use llm_mcp.Prelude.Int.{ℤ}
use llm_mcp.Db.{Micro}
use llm_mcp.Db.Values.{Json}

-- A `map[string]string` of `messages`.
abbrev pub Message : Type 0
Message = List (String × String)

-- `msg[k]`
abbrev pub entry : String → Message → String
entry k [] = ""
entry k ((j, v) ∷ m) = if j == k then v else entry k m

-- models.LLMRequest, as far as it is routed; `options` is the object as it was sent.
pub record LlmRequest : Type 0 where
  pub task : String
  pub provider : String
  pub model : String
  pub prompt : String
  pub messages : List Message
  pub temperature : Option Micro
  pub max_tokens : Option ℤ
  pub options : Option Json
  pub payload : Option Json
  pub quality : String
  pub thinking : Option Bool
  pub prefer_local : Bool
  pub force_cloud : Bool
  pub max_latency_ms : ℤ

-- What a built payload holds, before `json.Marshal`.
pub data Content : Type 0 where
  word : String → Content
  amount : Micro → Content
  count : ℤ → Content
  flag : Bool → Content
  chat : List Message → Content
  options : Json → Content

pub data Payload : Type 0 where
  sent : Json → Payload
  built : List (String × Content) → Payload

pub data Route : Type 0 where
  routed : String → String → Payload → Route
  refused : String → Route

abbrev pub total_bytes : List Message → ℕ
total_bytes [] = 0
total_bytes (m ∷ ms) = byte_len (entry "content" m) + total_bytes ms

unfoldable pub estimate_tokens : String → List Message → ℕ
estimate_tokens prompt messages =
    let tokens = (byte_len prompt + total_bytes messages) / 4 in
    if ltb tokens 256 then 256 else tokens

abbrev pub prompt_lines : List Message → List String
prompt_lines [] = []
prompt_lines (m ∷ ms) =
    let rest = prompt_lines ms in
    if entry "role" m == "" && entry "content" m == ""
    then rest
    else concat (entry "role" m) (concat ": " (entry "content" m)) ∷ rest

-- `strings.Join(lines, "\n")`
abbrev pub join_lines : List String → String
join_lines [] = ""
join_lines (x ∷ []) = x
join_lines (x ∷ y ∷ xs) = concat x (concat "\n" (join_lines (y ∷ xs)))

unfoldable pub messages_to_prompt : List Message → String
messages_to_prompt messages = join_lines (prompt_lines messages)

-- `strings.ToLower(strings.TrimSpace(s))`, and a default for the empty text.
abbrev pub word_or : String → String → String
word_or default s = let t = to_lower (trim_space s) in if t == "" then default else t

abbrev pub is_nil {ℓ} : {A : Type ℓ} → List A → Bool
is_nil [] = true
is_nil (x ∷ xs) = false

-- The prompt, or that of the messages.
abbrev pub prompt_of : LlmRequest → String
prompt_of req =
    if req.prompt == "" && not (is_nil req.messages)
    then messages_to_prompt req.messages
    else req.prompt

-- The messages, or the prompt as one.
abbrev pub messages_of : LlmRequest → List Message
messages_of req =
    if is_nil req.messages && not (req.prompt == "")
    then (("role", "user") ∷ ("content", req.prompt) ∷ []) ∷ []
    else req.messages

-- A field that is left out of the payload when its text is empty, or its value missing.
abbrev pub unless_empty : String → String → List (String × Content)
unless_empty k s = if s == "" then [] else (k, word s) ∷ []

abbrev pub if_given {ℓ} : {A : Type ℓ} → String → (A → Content) → Option A → List (String × Content)
if_given k f none = []
if_given k f (some a) = (k, f a) ∷ []
