-- ===== src/Proxy/Streamed.antt =====
-- What the streams of a chat tell their client, against the text that the service sends.
use llm_mcp.Prelude.{
  suc, ◌≡◌, refl, ap, ◌∙◌, String, true, Option, none, some, List, [], ◌∷◌, ◌++◌, map,
  if◌then◌else◌, length, Bool-cases, inl, inr, find_if, append_nil,
}
use llm_mcp.Db.{Env}
use llm_mcp.Routing.Device.{DeviceTarget, select_ollama_device}
use llm_mcp.Http.Scanner.{Bytes, scan_lines}
use llm_mcp.Http.Lines.{join_all, lines_of, scan_lines-lines_of}
use llm_mcp.Http.{reply, World}
use llm_mcp.Proxy.{answered, OllamaChat, content_of, to_device, report}
use llm_mcp.Proxy.Stream.{
  Event, delta, finish, over, Tokens, no_tokens, lines_in, or_blank, take_chunk, decode_line,
  convert_lines, usage_of_line, or_before, pass_lines,
}
use llm_mcp.Proxy.Providers.{
  ChatRequest, ChatClient, tokens_of, chat_body, device_chat, count_device_chat, to_openrouter,
  stream_openai_chat, settle_stream, events, passed,
}

-- The lines of an answer whose error brings no bytes are those of its text, however it is cut.
lines_in-lines_of :
    (chunks : List Bytes)
    → lines_in (record { chunks = chunks; last = [] }) ≡ lines_of (join_all chunks)
unfolding lines_in
lines_in-lines_of chunks =
    ap
      (λ (t : Bytes). scan_lines (suc (length t)) (record { buf = []; chunks = chunks; last = [] }))
      (append_nil (join_all chunks))
    ∙ scan_lines-lines_of chunks

-- The lines that decode.
unfoldable pub chunks_of : (Bytes → Option OllamaChat) → List Bytes → List OllamaChat
chunks_of decode [] = []
chunks_of decode (l ∷ ls) = elim (decode_line decode l) [
  | none ↦ chunks_of decode ls
  | some k ↦ k ∷ chunks_of decode ls
]

-- The chunks up to the first that is done.
unfoldable pub until_done : List OllamaChat → List OllamaChat
until_done [] = []
until_done (k ∷ ks) = if k.done then [] else k ∷ until_done ks

abbrev pub to_delta : OllamaChat → Event
to_delta k = delta k.model (or_blank (content_of k.message))

-- The end of a stream, and the tokens that it tells.
abbrev pub ending : Option OllamaChat → List Event
ending none = over ∷ []
ending (some k) = finish k.model ∷ over ∷ []

abbrev pub told_tokens : Option OllamaChat → Tokens
told_tokens none = no_tokens
told_tokens (some k) = tokens_of k

abbrev pub last_chunk : List OllamaChat → Option OllamaChat
last_chunk ks = find_if (λ k. k.done) ks

-- The events for the chunks of an answer.
pub stream_of : List OllamaChat → List Event × Tokens
unfolding until_done
stream_of ks = (map to_delta (until_done ks) ++ ending (last_chunk ks), told_tokens (last_chunk ks))

take_chunk-stream_of :
    (k : OllamaChat) (ks : List OllamaChat)
    → take_chunk (some k) (stream_of ks) ≡ stream_of (k ∷ ks)
unfolding stream_of
take_chunk-stream_of k ks = elim (Bool-cases k.done) [ inl e ↦ rw e refl | inr e ↦ rw e refl ]

convert_lines-stream_of :
    (decode : Bytes → Option OllamaChat) (ls : List Bytes)
    → convert_lines decode ls ≡ stream_of (chunks_of decode ls)
unfolding convert_lines chunks_of stream_of
convert_lines-stream_of decode [] = refl
convert_lines-stream_of decode (l ∷ ls) =
    ap (take_chunk (decode_line decode l)) (convert_lines-stream_of decode ls)
    ∙ one (decode_line decode l)
  where
    one :
        (o : Option OllamaChat)
        → take_chunk o (stream_of (chunks_of decode ls))
          ≡ stream_of (elim o [ none ↦ chunks_of decode ls | some k ↦ k ∷ chunks_of decode ls ])
    one none = refl
    one (some k) = take_chunk-stream_of k (chunks_of decode ls)

-- A stream of a chat with a device that answers 200 sends the contents of the chunks in their order, up to
-- the first that is done, then the end that such a chunk has, if there is one, and the closing event, whatever cuts
-- the network makes in the text and whatever lines do not decode, when no bytes come with the error that
-- ends the text. The success is reported to the circuit of the device, and the tokens of the done chunk
-- are counted.
pub device_chat-stream :
    (env : Env) (c : ChatClient) (req : ChatRequest) (w : World) (t : DeviceTarget)
    (text : List Bytes)
    → req.stream ≡ true
    → select_ollama_device env w.db req.model "chat" ≡ some t
    → c.send (to_device t "/api/chat" (chat_body req))
      ≡ answered 200 (record { chunks = text; last = [] })
    → let ks = chunks_of c.decode_chat (lines_of (join_all text)) in
      device_chat env c req w ≡ (
        reply 200 (events env.app_now (map to_delta (until_done ks) ++ ending (last_chunk ks))),
        count_device_chat env c req.model (told_tokens (last_chunk ks)) (report env t true w),
      )
unfolding device_chat stream_of
device_chat-stream env c req w t text s d a =
    let p : convert_lines c.decode_chat (lines_in (record { chunks = text; last = [] }))
        ≡ stream_of (chunks_of c.decode_chat (lines_of (join_all text))) =
      ap (convert_lines c.decode_chat) (lines_in-lines_of text)
      ∙ convert_lines-stream_of c.decode_chat (lines_of (join_all text)) in
    rw (d, device_chat) (rw a (rw s (rw p refl)))

-- Each line with a newline.
pub unlines : List Bytes → Bytes
unlines [] = []
unlines (l ∷ ls) = l ++ 10 ∷ unlines ls

-- The last usage of the lines.
pub last_usage : (Bytes → Option Tokens) → List Bytes → Option Tokens
last_usage decode [] = none
last_usage decode (l ∷ ls) = elim (last_usage decode ls) [
  | some t ↦ some t
  | none ↦ usage_of_line decode l
]

pass_lines-unlines :
    (decode : Bytes → Option Tokens) (ls : List Bytes) (t : Tokens)
    → pass_lines decode ls t ≡ (unlines ls, or_before t (last_usage decode ls))
unfolding pass_lines unlines last_usage
pass_lines-unlines decode [] t = refl
pass_lines-unlines decode (l ∷ ls) t =
    rw (pass_lines-unlines decode ls (or_before t (usage_of_line decode l))) (
      ap (λ (u : Tokens). (l ++ 10 ∷ unlines ls, u))
        (choose (last_usage decode ls) (usage_of_line decode l)))
  where
    choose :
        (o p : Option Tokens)
        → or_before (or_before t p) o ≡ or_before t (elim o [ some u ↦ some u | none ↦ p ])
    choose none p = refl
    choose (some u) p = refl

-- A stream of a chat in the cloud that is answered with 200 passes on the lines of the answer, each with a
-- newline, whatever cuts the network makes in the text, when no bytes come with the error that ends it;
-- the cost and the count are those of the last usage in an event of the answer.
pub stream_openai_chat-passed :
    (env : Env) (c : ChatClient) (body : Bytes) (model : String) (w : World) (text : List Bytes)
    → c.send (to_openrouter env body) ≡ answered 200 (record { chunks = text; last = [] })
    → let ls = lines_of (join_all text) in
      stream_openai_chat env c body model w ≡ (
        reply 200 (passed (unlines ls)),
        settle_stream env c model (or_before no_tokens (last_usage c.decode_usage ls)) w,
      )
unfolding stream_openai_chat
stream_openai_chat-passed env c body model w text a =
    let p : pass_lines c.decode_usage (lines_in (record { chunks = text; last = [] })) no_tokens ≡ (
      unlines (lines_of (join_all text)),
      or_before no_tokens (last_usage c.decode_usage (lines_of (join_all text))),
    ) =
      ap (λ (ls : List Bytes). pass_lines c.decode_usage ls no_tokens) (lines_in-lines_of text)
      ∙ pass_lines-unlines c.decode_usage (lines_of (join_all text)) no_tokens in
    rw (a, stream_openai_chat) (rw p refl)
