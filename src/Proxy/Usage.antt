-- ===== src/Proxy/Usage.antt =====
-- What a chat writes: statistics and costs of models, and circuits.
use llm_mcp.Prelude.{
  String, true, not, ◌||◌, ◌==◌, Option, none, some, List, [], ◌∷◌, if◌then◌else◌, if_both,
  contains, eqb,
}
use llm_mcp.Db.{Ranking, Db, Env}
use llm_mcp.Routing.Device.{DeviceTarget, select_ollama_device}
use llm_mcp.Http.Scanner.{Bytes}
use llm_mcp.Http.{Reply, World}
use llm_mcp.Stats.Select.{Floats}
use llm_mcp.Proxy.{
  Message, Sent, bad_request, unreachable, answered, OllamaChat, read_all, report, to_device,
}
use llm_mcp.Proxy.Stream.{Tokens, is_counted, lines_in, convert_lines, pass_lines, no_tokens}
use llm_mcp.Proxy.Embed.{api_key_of}
use llm_mcp.Proxy.Providers.{
  ChatRequest, ChatCall, ChatClient, Chatted, as_usage, count_device_chat, charge_chat, told_usage,
  record_chat_usage, cloud_chat_answer, to_openrouter, proxy_openai_chat, settle_stream,
  cloud_stream_answer, stream_openai_chat, tokens_of, complete_chat, device_answer, chat_body,
  device_chat, limited,
}
use llm_mcp.Proxy.Chat.{
  route_chat, choose_chat_model, chat_with, check_messages, read_chat, body_limit,
  handle_chat_completions,
}
use llm_mcp.Proxy.Kept.{Kept, Kept_refl, update_model_stats-Kept, record_chat_cost-Kept}

module _ (env : Env) (a : Db) where
  module _ (c : ChatClient) where
    record_chat_usage-Kept :
        (body : Bytes) (model : String) (w : World)
        → Kept a w.db
        → Kept a (record_chat_usage env c body model w).db
    unfolding record_chat_usage
    record_chat_usage-Kept body model w k = told (c.decode_usage body)
      where
        told : (o : Option Tokens) → Kept a (told_usage env model w o).db
        told none = k
        told (some t) =
            update_model_stats-Kept env a model (as_usage t 0) (charge_chat env model t w).db
              (record_chat_cost-Kept env a model "openrouter" t.input t.output w.db k)

    -- A reply, and a state with such a database.
    abbrev Safe : Chatted → Type 0
    Safe x = Kept a x.1.db

    settle_stream-Kept :
        (model : String) (t : Tokens) (w : World)
        → Kept a w.db
        → Kept a (settle_stream env c model t w).db
    settle_stream-Kept model t w k =
        if_both (λ (v : World). Kept a v.db) (is_counted t)
          (update_model_stats-Kept env a model (as_usage t c.elapsed_ms)
            (charge_chat env model t w).db
            (record_chat_cost-Kept env a model "openrouter" t.input t.output w.db k))
          k

    count_device_chat-Kept :
        (model : String) (t : Tokens) (w : World)
        → Kept a w.db
        → Kept a (count_device_chat env c model t w).db
    count_device_chat-Kept model t w k =
        if_both (λ (v : World). Kept a v.db) (is_counted t)
          (update_model_stats-Kept env a model (as_usage t c.elapsed_ms) w.db k) k

    proxy_openai_chat-Safe :
        (body : Bytes) (model : String) (w : World)
        → Kept a w.db
        → Safe (proxy_openai_chat env c body model w)
    unfolding proxy_openai_chat
    proxy_openai_chat-Safe body model w k = answer (c.send (to_openrouter env body))
      where
        answer : (x : Sent) → Safe (cloud_chat_answer env c model w x)
        answer bad_request = k
        answer unreachable = k
        answer (answered status s) =
            if_both Safe (not (eqb status 200)) k (record_chat_usage-Kept (read_all s) model w k)

    stream_openai_chat-Safe :
        (body : Bytes) (model : String) (w : World)
        → Kept a w.db
        → Safe (stream_openai_chat env c body model w)
    unfolding stream_openai_chat
    stream_openai_chat-Safe body model w k = answer (c.send (to_openrouter env body))
      where
        answer : (x : Sent) → Safe (cloud_stream_answer env c model w x)
        answer bad_request = k
        answer unreachable = k
        answer (answered status s) =
            if_both Safe (not (eqb status 200)) k
              (settle_stream-Kept model (pass_lines c.decode_usage (lines_in s) no_tokens).1 w k)

    device_chat-Safe :
        (req : ChatRequest) (w : World) → Kept a w.db → Safe (device_chat env c req w)
    unfolding device_chat report
    device_chat-Safe req w k = choose (select_ollama_device env w.db req.model "chat")
      where
        complete : (t : DeviceTarget) (o : Option OllamaChat) → Safe (complete_chat env c req t w o)
        complete t none = k
        complete t (some z) = count_device_chat-Kept req.model (tokens_of z) (report env t true w) k

        answer : (t : DeviceTarget) (x : Sent) → Safe (device_answer env c req t w x)
        answer t bad_request = k
        answer t unreachable = k
        answer t (answered status s) = if_both Safe (not (eqb status 200)) k (
            if_both Safe req.stream
              (count_device_chat-Kept req.model (convert_lines c.decode_chat (lines_in s)).1
                (report env t true w) k)
              (complete t (c.decode_chat (read_all s))))

        choose :
            (o : Option DeviceTarget)
            → Safe (elim o [
              | none ↦ (Reply.fail 503 "no_device", w)
              | some t ↦
                  device_answer env c req t w (c.send (to_device t "/api/chat" (chat_body req)))
            ])
        choose none = k
        choose (some t) = answer t (c.send (to_device t "/api/chat" (chat_body req)))

    route_chat-Safe :
        (req : ChatRequest) (body : Bytes) (w : World)
        → Kept a w.db
        → Safe (route_chat env c req body w)
    unfolding route_chat
    route_chat-Safe req body w k =
        if_both Safe (contains req.model "/")
          (if_both Safe (api_key_of env == "" || api_key_of env == "not-used") k (
            if_both Safe req.stream (stream_openai_chat-Safe body req.model w k)
              (proxy_openai_chat-Safe body req.model w k)))
          (device_chat-Safe req w k)

    module _ (fl : Floats) (sorted : List Ranking → List Ranking) (call : ChatCall) where
      chat_with-Safe :
          (body : Bytes) (w : World) (req : ChatRequest)
          → Kept a w.db
          → Safe (chat_with env fl sorted c call body w req)
      chat_with-Safe body w req k =
          if_both Safe (not (req.model == "")) (route_chat-Safe req body w k)
            (chosen (choose_chat_model env fl sorted c call req w.db))
        where
          chosen :
              (o : Option String)
              → Safe (elim o [
                | none ↦ (Reply.fail 400 "no_model", w)
                | some m ↦
                    if m == ""
                    then (Reply.fail 400 "no_model", w)
                    else route_chat env c (record req { model = m }) (c.with_model body m) w
              ])
          chosen none = k
          chosen (some m) =
              if_both Safe (m == "") k
                (route_chat-Safe (record req { model = m }) (c.with_model body m) w k)

      read_chat-Safe :
          (body : Bytes) (w : World) → Kept a w.db → Safe (read_chat env fl sorted c call body w)
      read_chat-Safe body w k = decoded (c.decode_request body)
        where
          checked :
              (req : ChatRequest) (ms : List Message)
              → Safe (check_messages env fl sorted c call body w req ms)
          checked req [] = k
          checked req (m ∷ ms) = chat_with-Safe body w req k

          decoded :
              (o : Option ChatRequest)
              → Safe (elim o [
                | none ↦ (Reply.fail 400 "invalid_json", w)
                | some req ↦ check_messages env fl sorted c call body w req req.messages
              ])
          decoded none = k
          decoded (some req) = checked req req.messages

-- A chat, however it is asked for and answered and whatever statements fail, writes nothing in the
-- database but the costs and the statistics of models, and counts no error, a failed chat included.
pub handle_chat_completions-Kept :
    (env : Env) (fl : Floats) (sorted : List Ranking → List Ranking) (c : ChatClient)
    (call : ChatCall) (w : World)
    → Kept w.db (handle_chat_completions env fl sorted c call w).1.db
unfolding handle_chat_completions
handle_chat_completions-Kept env fl sorted c call w =
    if_both (Safe env w.db c) (not (call.method == "POST")) (Kept_refl w.db) (body call.body)
  where
    body :
        (o : Option Bytes)
        → Safe env w.db c (elim o [
          | none ↦ (Reply.fail 400 "read_error", w)
          | some bytes ↦ read_chat env fl sorted c call (limited body_limit bytes) w
        ])
    body none = Kept_refl w.db
    body (some bytes) =
        read_chat-Safe env w.db c fl sorted call (limited body_limit bytes) w (Kept_refl w.db)
