-- ===== src/Proxy/Retried.antt =====
-- The attempts of `HandleEmbeddings` on a device, and the circuit of that device.
use llm_mcp.Prelude.{
  ℕ, zero, suc, ◌+◌, ◌≤◌, ◌<◌, ◌≡◌, refl, ap, ◌∙◌, ◌≢◌, ◌⊎◌, inl, inr, String, Bool, true, false,
  ◌==◌, eq_refl, Option, none, some, List, ◌∷◌, arith, eqb, if◌then◌else◌, Bool-cases, Option-cases,
  contains,
}
use llm_mcp.Db.{Env}
use llm_mcp.Routing.Circuit.{
  DeviceCircuit, get, or_fresh, fail_once, five_minutes, is_device_degraded,
  get-record_device_result,
}
use llm_mcp.Routing.Device.{DeviceTarget, select_ollama_device}
use llm_mcp.Http.{Reply, reply, fail, World, posted}
use llm_mcp.Proxy.{report}
use llm_mcp.Proxy.Embed.{
  EmbedRequest, EmbedClient, EmbedList, Embeddings, local, proxy_ollama_embed, embed_attempts,
  texts_of, handle_embeddings,
}

-- The circuit of a device, as the router reads it.
abbrev circuit_of : World → String → DeviceCircuit
circuit_of w d = or_fresh (get w.circuits d)

module _ (env : Env) (c : EmbedClient) (model : String) (texts : List String) (t : DeviceTarget)
    (named : t.id ≢ "") where
  abbrev try_at : ℕ → Option EmbedList
  try_at n = proxy_ollama_embed c n t model texts

  get-report :
      (ok : Bool) (w : World)
      → get (report env t ok w).circuits t.id
        ≡ (if ok then none else some (fail_once env.app_now (circuit_of w t.id)))
  unfolding report
  get-report ok w =
      get-record_device_result env.app_now w.circuits t.id t.id ok named ∙ rw (eq_refl t.id) refl

  db-report : (ok : Bool) (w : World) → (report env t ok w).db ≡ w.db
  unfolding report
  db-report ok w = refl

-- The attempt `j` selects its device in time, and fails.
abbrev pub Fails : EmbedClient → String → List String → DeviceTarget → ℕ → Type 0
Fails c model texts t j = (c.expired j ≡ false) × (proxy_ollama_embed c j t model texts ≡ none)

-- How the attempts from `n` to `n + left` end: the first that succeeds is the answer and closes the
-- circuit; when all fail, all are counted; and when the time is over before, the failures up to then are.
pub data Ended (env : Env) (c : EmbedClient) (model : String) (texts : List String)
    (t : DeviceTarget) (n left : ℕ) (w : World) (x : Reply Embeddings × World) : Type 0 where
  done :
      (k : ℕ) (a : EmbedList)
      → n ≤ k
      → k < n + left
      → ((j : ℕ) → n ≤ j → j < k → Fails c model texts t j)
      → c.expired k ≡ false
      → proxy_ollama_embed c k t model texts ≡ some a
      → x.0 ≡ reply 200 (local a)
      → get x.1.circuits t.id ≡ none
      → x.1.db ≡ w.db
      → Ended env c model texts t n left w x
  failed :
      (k : DeviceCircuit)
      → ((j : ℕ) → n ≤ j → j < n + left → Fails c model texts t j)
      → x.0 ≡ fail 502 "embed_failed"
      → get x.1.circuits t.id ≡ some k
      → (circuit_of w t.id).failures + left ≤ k.failures
      → (3 ≤ k.failures → k.degraded_at ≡ env.app_now)
      → x.1.db ≡ w.db
      → Ended env c model texts t n left w x
  over :
      (m : ℕ)
      → n ≤ m
      → m < n + left
      → ((j : ℕ) → n ≤ j → j < m → Fails c model texts t j)
      → c.expired m ≡ true
      → x.0 ≡ (if eqb m 0 then fail 503 "no_device" else fail 502 "embed_failed")
      → (circuit_of x.1 t.id).failures + n ≡ (circuit_of w t.id).failures + m
      → x.1.db ≡ w.db
      → Ended env c model texts t n left w x

at_or_behind : (n j : ℕ) → n ≤ j → (j ≡ n) ⊎ (suc n ≤ j)
at_or_behind n j h = elim (Bool-cases (eqb j n)) [
  | inl e ↦ inl (ground arith)
  | inr e ↦ inr (ground arith)
]

module _ (env : Env) (c : EmbedClient) (model : String) (texts : List String) (t : DeviceTarget)
    (named : t.id ≢ "") where
  abbrev tried : ℕ → Option EmbedList
  tried j = proxy_ollama_embed c j t model texts

  none_from :
      (n : ℕ)
      → Fails c model texts t n
      → (k : ℕ) → ((j : ℕ) → suc n ≤ j → j < k → Fails c model texts t j)
      → (j : ℕ) → n ≤ j
      → j < k
      → Fails c model texts t j
  none_from n e k rest j p q = elim (at_or_behind n j p) [ inl r ↦ rw r e | inr r ↦ rest j r q ]

  one_more :
      (w : World)
      → (circuit_of (report env t false w) t.id).failures ≡ suc (circuit_of w t.id).failures
  one_more w =
      let h : get (report env t false w).circuits t.id
          ≡ some (fail_once env.app_now (circuit_of w t.id)) =
        get-report env c model texts t named false w in
      let g : circuit_of (report env t false w) t.id ≡ fail_once env.app_now (circuit_of w t.id) =
        ap or_fresh h in
      ap (λ (z : DeviceCircuit). z.failures) g

  -- One more failure before the attempts that follow.
  after_failure :
      (n left : ℕ) (w : World) (x : Reply Embeddings × World)
      → Fails c model texts t n
      → Ended env c model texts t (suc n) (suc left) (report env t false w) x
      → Ended env c model texts t n (suc (suc left)) w x
  after_failure n left w x e (done k a p q earlier i f r closed same) =
      done k a (omega arith) (omega arith) (none_from n e k earlier) i f r closed
        (same ∙ db-report env c model texts t named false w)
  after_failure n left w x e (failed k all r held counts opened same) =
      failed k (λ j p q. none_from n e (suc n + suc left) all j p (omega arith)) r held
        (let g = one_more w in omega arith) opened
        (same ∙ db-report env c model texts t named false w)
  after_failure n left w x e (over m p q earlier o r counts same) =
      over m (omega arith) (omega arith) (none_from n e m earlier) o r
        (let g = one_more w in omega arith) (same ∙ db-report env c model texts t named false w)

  -- The only attempt that is left fails.
  last_failure :
      (n : ℕ) (w : World)
      → Fails c model texts t n
      → Ended env c model texts t n 1 w (fail 502 "embed_failed", report env t false w)
  last_failure n w e =
      failed (fail_once env.app_now (circuit_of w t.id))
        (none_from n e (n + 1) (λ j p q. absurd (omega arith))) refl
        (get-report env c model texts t named false w) (omega arith) (ground arith)
        (db-report env c model texts t named false w)

  first_success :
      (n left : ℕ) (w : World) (a : EmbedList)
      → c.expired n ≡ false
      → tried n ≡ some a
      → Ended env c model texts t n (suc left) w (reply 200 (local a), report env t true w)
  first_success n left w a i e =
      done n a (omega arith) (omega arith) (λ j p q. absurd (omega arith)) i e refl
        (get-report env c model texts t named true w) (db-report env c model texts t named true w)

  -- No attempt is left to the time of the call.
  out_of_time :
      (n left : ℕ) (w : World)
      → c.expired n ≡ true
      → Ended env c model texts t n
          (suc left)
          w
          (if eqb n 0 then fail 503 "no_device" else fail 502 "embed_failed", w)
  out_of_time n left w o =
      over n (omega arith) (omega arith) (λ j p q. absurd (omega arith)) o refl refl refl

  attempts-Ended :
      (left n : ℕ) (w : World)
      → select_ollama_device env w.db model "embed" ≡ some t
      → Ended env c model texts t n (suc left) w (embed_attempts env c model texts (suc left) n w)
  unfolding embed_attempts
  attempts-Ended zero n w s = elim (Bool-cases (c.expired n)) [
    | inl o ↦ rw (o, embed_attempts) (out_of_time n 0 w o)
    | inr i ↦ elim (Option-cases (tried n)) [
      | inl e ↦ rw (i, s, embed_attempts) (rw e (last_failure n w (i, e)))
      | inr (a, e) ↦ rw (i, s, embed_attempts) (rw e (first_success n 0 w a i e))
    ]
  ]
  attempts-Ended (suc left) n w s = elim (Bool-cases (c.expired n)) [
    | inl o ↦ rw (o, embed_attempts) (out_of_time n (suc left) w o)
    | inr i ↦ elim (Option-cases (tried n)) [
      | inl e ↦
          rw (i, s, embed_attempts)
            (rw e (
              after_failure n left w
                (embed_attempts env c model texts (suc left) (suc n) (report env t false w)) (i, e)
                (attempts-Ended left (suc n) (report env t false w) s)))
      | inr (a, e) ↦ rw (i, s, embed_attempts) (rw e (first_success n (suc left) w a i e))
    ]
  ]

-- How the call ends: as an attempt does that succeeds after `k` failures; with all three failed and the
-- circuit of the device open at the time `later`; or after `m` failures, which are counted, when the time
-- of the call is over.
pub data Called (env : Env) (c : EmbedClient) (model : String) (texts : List String)
    (t : DeviceTarget) (later : ℕ) (w : World) (x : Reply Embeddings × World) : Type 0 where
  done :
      (k : ℕ) (a : EmbedList)
      → k < 3
      → ((j : ℕ) → j < k → Fails c model texts t j)
      → c.expired k ≡ false
      → proxy_ollama_embed c k t model texts ≡ some a
      → x.0 ≡ reply 200 (local a)
      → get x.1.circuits t.id ≡ none
      → x.1.db ≡ w.db
      → Called env c model texts t later w x
  failed :
      ((j : ℕ) → j < 3 → Fails c model texts t j)
      → x.0 ≡ fail 502 "embed_failed"
      → is_device_degraded later x.1.circuits t.id ≡ true
      → x.1.db ≡ w.db
      → Called env c model texts t later w x
  over :
      (m : ℕ)
      → m < 3
      → ((j : ℕ) → j < m → Fails c model texts t j)
      → c.expired m ≡ true
      → x.0 ≡ (if eqb m 0 then fail 503 "no_device" else fail 502 "embed_failed")
      → (circuit_of x.1 t.id).failures ≡ (circuit_of w t.id).failures + m
      → x.1.db ≡ w.db
      → Called env c model texts t later w x

Ended-Called :
    (env : Env) (c : EmbedClient) (model : String) (texts : List String) (t : DeviceTarget)
    (later : ℕ) (w : World) (x : Reply Embeddings × World)
    → later ≤ env.app_now + five_minutes
    → Ended env c model texts t 0 3 w x
    → Called env c model texts t later w x
unfolding is_device_degraded
Ended-Called env c model texts t later w x l (Ended.done k a p q earlier i f r closed same) =
    done k a q (λ j u. earlier j (omega arith) u) i f r closed same
Ended-Called env c model texts t later w x l (Ended.failed k all r held counts opened same) =
    let three : 3 ≤ k.failures = omega arith in
    let at : k.degraded_at ≡ env.app_now = opened three in
    failed (λ j u. all j (omega arith) u) r
      (rw (held, is_device_degraded) (ground (arith, three, at))) same
Ended-Called env c model texts t later w x l (Ended.over m p q earlier o r counts same) =
    over m q (λ j u. earlier j (omega arith) u) o r (omega arith) same

local_attempts :
    (env : Env) (c : EmbedClient) (req : EmbedRequest) (w : World) (x : String)
    (texts : List String)
    → (req.model == "") ≡ false
    → contains req.model "/" ≡ false
    → texts_of req.input ≡ some (x ∷ texts)
    → handle_embeddings env c (posted req) w ≡ embed_attempts env c req.model (x ∷ texts) 3 0 w
unfolding handle_embeddings
local_attempts env c req w x texts m l i = rw (m, handle_embeddings) (rw i (rw l refl))

-- When the selection gives a named device for a local model, the call asks that device alone, at most three
-- times: the answer is that of the first attempt that succeeds, which closes the circuit of the device; or,
-- when all three fail, `embed_failed`, and then the circuit is open at each later time up to five minutes
-- on, whatever it counted before; or, when the context of the call is over before the next selection,
-- `no_device` at the first attempt and else `embed_failed`, with just the failures so far counted. The
-- database stays as it was.
pub handle_embeddings-Called :
    (env : Env) (c : EmbedClient) (req : EmbedRequest) (w : World) (x : String)
    (texts : List String) (t : DeviceTarget) (later : ℕ)
    → (req.model == "") ≡ false
    → contains req.model "/" ≡ false
    → texts_of req.input ≡ some (x ∷ texts)
    → select_ollama_device env w.db req.model "embed" ≡ some t
    → t.id ≢ ""
    → later ≤ env.app_now + five_minutes
    → Called env c req.model (x ∷ texts) t later w (handle_embeddings env c (posted req) w)
handle_embeddings-Called env c req w x texts t later m l i s n d =
    rw (local_attempts env c req w x texts m l i) (
      Ended-Called env c req.model (x ∷ texts) t later w
        (embed_attempts env c req.model (x ∷ texts) 3 0 w) d
        (attempts-Ended env c req.model (x ∷ texts) t n 2 0 w s))
