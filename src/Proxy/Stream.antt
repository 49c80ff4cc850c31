-- ===== src/Proxy/Stream.antt =====
-- The loops of streamOllamaChat and streamOpenAIChat in core/internal/api/handlers.go, over the lines that
-- the line scanner returns.
use llm_mcp.Prelude.{
  suc, String, Bool, true, false, ◌&&◌, Option, none, some, List, [], ◌∷◌, ◌++◌, eqb, if◌then◌else◌,
  length,
}
use llm_mcp.Prelude.Int.{ℤ, pos, ltb_ℤ}
use llm_mcp.Http.Scanner.{Bytes, scan_lines}
use llm_mcp.Proxy.{Source, OllamaChat, read_all, content_of}

-- An event `data: …`: a part of the answer, its end, or the closing event. The parts carry the model.
pub data Event : Type 0 where
  delta : String → String → Event
  finish : String → Event
  over : Event

-- The tokens of the prompt and of the answer.
pub record Tokens : Type 0 where
  pub input : ℤ
  pub output : ℤ

abbrev pub no_tokens : Tokens
no_tokens = record { input = pos 0; output = pos 0 }

-- The lines of an answer. A scan takes a byte at least.
unfoldable pub lines_in : Source → List Bytes
unfolding scan_lines
lines_in s =
    scan_lines (suc (length (read_all s))) (record { buf = []; chunks = s.chunks; last = s.last })

abbrev pub or_blank : Option String → String
or_blank none = ""
or_blank (some s) = s

-- What one line adds: an empty or ill-formed line nothing, and the line that is done ends the loop.
abbrev pub take_chunk : Option OllamaChat → List Event × Tokens → List Event × Tokens
take_chunk none rest = rest
take_chunk (some k) rest =
    if k.done
    then (finish k.model ∷ over ∷ [], record { input = k.prompt_eval_count; output = k.eval_count })
    else (delta k.model (or_blank (content_of k.message)) ∷ rest.0, rest.1)

abbrev pub decode_line : (Bytes → Option OllamaChat) → Bytes → Option OllamaChat
decode_line decode [] = none
decode_line decode (b ∷ bs) = decode (b ∷ bs)

-- The loop of streamOllamaChat and the the closing event behind it.
unfoldable pub convert_lines : (Bytes → Option OllamaChat) → List Bytes → List Event × Tokens
convert_lines decode [] = (over ∷ [], no_tokens)
convert_lines decode (l ∷ ls) = take_chunk (decode_line decode l) (convert_lines decode ls)

abbrev pub same_bytes : Bytes → Bytes → Bool
same_bytes [] [] = true
same_bytes (x ∷ xs) (y ∷ ys) = eqb x y && same_bytes xs ys
same_bytes _ _ = false

-- `line[6:]` of a line that starts with `data: `.
abbrev pub after : Bytes → Bytes → Option Bytes
after [] line = some line
after (p ∷ ps) [] = none
after (p ∷ ps) (b ∷ line) = if eqb p b then after ps line else none

abbrev pub data_prefix : Bytes
data_prefix = b'd' ∷ b'a' ∷ b't' ∷ b'a' ∷ b':' ∷ b' ' ∷ []

abbrev pub done_mark : Bytes
done_mark = b'[' ∷ b'D' ∷ b'O' ∷ b'N' ∷ b'E' ∷ b']' ∷ []

-- The usage that a line of an event stream carries.
abbrev pub usage_in : (Bytes → Option Tokens) → Option Bytes → Option Tokens
usage_in decode none = none
usage_in decode (some payload) = if same_bytes payload done_mark then none else decode payload

abbrev pub usage_of_line : (Bytes → Option Tokens) → Bytes → Option Tokens
usage_of_line decode line = usage_in decode (after data_prefix line)

abbrev pub or_before : Tokens → Option Tokens → Tokens
or_before t none = t
or_before t (some u) = u

-- The loop of streamOpenAIChat: each line is passed on, and the last usage counts.
unfoldable pub pass_lines : (Bytes → Option Tokens) → List Bytes → Tokens → Bytes × Tokens
pass_lines decode [] t = ([], t)
pass_lines decode (l ∷ ls) t =
    let rest = pass_lines decode ls (or_before t (usage_of_line decode l)) in
    (l ++ 10 ∷ rest.0, rest.1)

-- `totalIn > 0 || totalOut > 0`
abbrev pub is_counted : Tokens → Bool
is_counted t = if ltb_ℤ (pos 0) t.input then true else ltb_ℤ (pos 0) t.output
