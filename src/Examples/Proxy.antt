-- ===== src/Examples/Proxy.antt =====
-- Concrete inputs for the proxies of chats and embeddings.
use llm_mcp.Prelude.{
  ℕ, ◌≤◌, ◌≡◌, eqb, if◌then◌else◌, refl, String, Bool, true, false, Option, none, some, List, [],
  ◌∷◌, ◌++◌, map, All, arith, contains, trim_space,
}
use llm_mcp.Prelude.Int.{pos}
use llm_mcp.Db.Values.{str, num}
use llm_mcp.Db.{Ranking}
use llm_mcp.Routing.Device.{DeviceTarget, eligible, select_ollama_device}
use llm_mcp.Http.Scanner.{Bytes}
use llm_mcp.Http.{World, posted, reply}
use llm_mcp.Http.Lines.{join_all, lines_of}
use llm_mcp.Stats.Replay.{row}
use llm_mcp.Stats.Select.{Floats}
use llm_mcp.Proxy.{unreachable, answered, OllamaChat, report}
use llm_mcp.Proxy.Truncate.{
  Members, Trees, leaf, arr, obj, nil, cons, end, member, get_member, size, first_items,
  truncate_embeddings,
}
use llm_mcp.Proxy.Cut.{vectors_of, truncate_embeddings-vectors}
use llm_mcp.Proxy.Embed.{one, EmbedRequest, EmbedClient, handle_embeddings}
use llm_mcp.Proxy.Retried.{Called, handle_embeddings-Called}
use llm_mcp.Proxy.Stream.{Tokens, delta, finish, over}
use llm_mcp.Proxy.Providers.{
  ChatRequest, ChatCall, ChatClient, count_device_chat, device_chat, record_chat_usage,
  settle_stream, events,
}
use llm_mcp.Proxy.Chat.{handle_chat_completions}
use llm_mcp.Proxy.Streamed.{
  chunks_of, until_done, ending, told_tokens, last_chunk, to_delta, device_chat-stream,
}
use llm_mcp.Proxy.Kept.{Kept}
use llm_mcp.Proxy.Usage.{handle_chat_completions-Kept}
use llm_mcp.Proxy.First.{First, Settled, record_chat_usage-First}
use llm_mcp.Examples.Data.{env_at, two_jobs}

-- Two vectors, of three numbers and of one.
abbrev number : ℕ → Trees → Trees
number n ts = cons (leaf (num "" (pos n))) ts

abbrev vector : Trees → Members
vector ts = member "embedding" (arr ts) end

abbrev two_vectors : Members
two_vectors = member "model" (leaf (str "m")) (
    member "data"
      (arr (
        cons (obj (vector (number 1 (number 2 (number 3 nil)))))
          (cons (obj (vector (number 4 nil))) nil)))
      end)

truncate_embeddings-vectors_example :
    (vectors_of (truncate_embeddings two_vectors 2) ≡ map (first_items 2) (vectors_of two_vectors))
    × All (λ ts. size ts ≤ 2) (vectors_of (truncate_embeddings two_vectors 2))
    × (get_member "model" (truncate_embeddings two_vectors 2) ≡ get_member "model" two_vectors)
truncate_embeddings-vectors_example = truncate_embeddings-vectors two_vectors 2 "model" (λ q. cc)

-- A device with the model "m".
abbrev offering : World
offering = record {
  db = record two_jobs.db {
    device_models = record { device_id = "d1"; model_id = "m"; available = true } ∷ [];
  };
  circuits = [];
}

abbrev target : DeviceTarget
target = record { id = "d1"; addr = "http://h:11434"; host = "" }

selected : (task : String) → select_ollama_device (env_at 100) offering.db "m" task ≡ some target
unfolding select_ollama_device eligible trim_space
selected task = refl

-- A client that no service answers.
abbrev deaf : EmbedClient
deaf = record {
  send = λ n o. unreachable;
  decode_ollama = λ b. none;
  decode_cloud = λ b. none;
  expired = λ n. false;
}

abbrev hi : EmbedRequest
hi = record { model = "m"; input = one "hi"; dimensions = pos 0 }

no_slash : contains "m" "/" ≡ false
unfolding contains
no_slash = refl

handle_embeddings-Called_example :
    Called
      (env_at 100)
      deaf
      "m"
      ("hi" ∷ [])
      target
      300
      offering
      (handle_embeddings (env_at 100) deaf (posted hi) offering)
handle_embeddings-Called_example =
    handle_embeddings-Called (env_at 100) deaf hi offering "hi" [] target 300 refl no_slash refl
      (selected "embed") (λ q. cc) (omega arith)

-- Lines of one byte decode to the chunks that they number.
abbrev chunk : Bool → OllamaChat
chunk d = record {
  model = "m";
  message = ("content", str "hello") ∷ [];
  done = d;
  prompt_eval_count = pos 3;
  eval_count = pos 4;
}

abbrev decode : Bytes → Option OllamaChat
decode [] = none
decode (b ∷ bs) =
    if eqb b 1 then some (chunk false) else if eqb b 2 then some (chunk true) else none

abbrev two_chunks : List Bytes
two_chunks = (1 ∷ 10 ∷ []) ∷ (7 ∷ []) ∷ (10 ∷ 2 ∷ []) ∷ (10 ∷ []) ∷ []

abbrev asked : ChatRequest
asked = record {
  model = "m";
  messages = (("content", str "hi") ∷ []) ∷ [];
  stream = true;
  temperature = none;
  max_tokens = none;
  top_p = none;
  task_type = "";
  accuracy = "";
  max_cost_usd = pos 0;
}

abbrev client : ChatClient
client = record {
  send = λ o. answered 200 (record { chunks = two_chunks; last = [] });
  decode_request = λ b. some asked;
  with_model = λ b m. b;
  decode_chat = decode;
  decode_usage = λ b. some (record { input = pos 3; output = pos 4 });
  parse_float = λ s. none;
  elapsed_ms = 1500;
}

abbrev decoded : List OllamaChat
decoded = chunks_of decode (lines_of (join_all two_chunks))

device_chat-stream_example : device_chat (env_at 100) client asked offering ≡ (
  reply 200 (events 100 (map to_delta (until_done decoded) ++ ending (last_chunk decoded))),
  count_device_chat
      (env_at 100)
      client
      "m"
      (told_tokens (last_chunk decoded))
      (report (env_at 100) target true offering),
)
device_chat-stream_example =
    device_chat-stream (env_at 100) client asked offering target two_chunks refl (selected "chat")
      refl

-- What the client of that chat is told.
told :
    map to_delta (until_done decoded) ++ ending (last_chunk decoded)
    ≡ delta "m" "hello" ∷ finish "m" ∷ over ∷ []
unfolding chunks_of until_done
told = refl

abbrev exact : Floats
exact = record { read_scores = λ j. []; log_price = λ p. p }

abbrev as_listed : List Ranking → List Ranking
as_listed l = l

abbrev call : ChatCall
call = record { method = "POST"; body = some []; header = λ k. "" }

handle_chat_completions-Kept_example :
    Kept offering.db
      (handle_chat_completions (env_at 100) exact as_listed client call offering).1.db
handle_chat_completions-Kept_example =
    handle_chat_completions-Kept (env_at 100) exact as_listed client call offering

no_row : row "a/b" offering.db.model_stats ≡ none
unfolding row
no_row = refl

abbrev some_tokens : Tokens
some_tokens = record { input = pos 3; output = pos 4 }

record_chat_usage-First_example :
    First
      (env_at 100)
      "a/b"
      some_tokens
      offering
      (record_chat_usage (env_at 100) client [] "a/b" offering)
    × Settled
        (env_at 100)
        "a/b"
        some_tokens
        offering
        (settle_stream (env_at 100) client "a/b" some_tokens offering)
record_chat_usage-First_example =
    record_chat_usage-First (env_at 100) client [] "a/b" offering some_tokens refl no_row refl refl
      refl refl
