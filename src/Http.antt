-- ===== src/Http.antt =====
-- The HTTP envelope of core/internal/api: a request whose JSON body is decoded or is not valid, a reply
-- as `WriteJSON` or `WriteError` sends it (without the message for people), and the state of the server.
pub mod Jobs
pub mod Workers
pub mod Finish
pub mod Lease
pub mod Claim
pub mod Exclusive
pub mod Progress
pub mod Read
pub mod Stream
pub mod Reported
pub mod Llm
pub mod Bench
pub mod Scanner
pub mod Runs
pub mod Lines
use llm_mcp.Prelude.{
  ℕ, String, Bool, not, ◌==◌, Option, none, some, if◌then◌else◌, if_both, ◌≡◌, refl,
}
use llm_mcp.Db.{Db}
use llm_mcp.Routing.Circuit.{Circuits}

pub data Reply {ℓ} (A : Type ℓ) : Type ℓ where
  reply : ℕ → A → Reply A
  fail : ℕ → String → Reply A

-- `{"ok": true}`
abbrev pub Ack : Type 0
Ack = Unit

pub record Request {ℓ} (A : Type ℓ) : Type ℓ where
  pub method : String
  pub body : Option A

-- A POST whose body decodes.
abbrev pub posted {ℓ} : {A : Type ℓ} → A → Request A
posted a = record { method = "POST"; body = some a }

-- The database, and the circuits of the router, which live in the process.
pub record World : Type 0 where
  pub db : Db
  pub circuits : Circuits

abbrev pub Result {ℓ} : Type ℓ → Type ℓ
Result A = Reply A × World

-- The two guards that open each handler of a POST.
unfoldable pub post {ℓ κ} :
    {A : Type ℓ} {B : Type κ} → Request A → World → (A → Reply B × World) → Reply B × World
post r w k =
    if not (r.method == "POST")
    then (fail 405 "method_not_allowed", w)
    else elim r.body [ none ↦ (fail 400 "invalid_json", w) | some a ↦ k a ]

-- What holds of every refusal and of the handler's body holds of the handler.
pub post_rule {ℓ κ ι} :
    {A : Type ℓ} {B : Type κ} (P : Reply B × World → Type ι) (r : Request A) (w : World)
    (k : A → Reply B × World)
    → ((status : ℕ) (code : String) → P (fail status code, w))
    → ((a : A) → r.body ≡ some a → P (k a))
    → P (post r w k)
unfolding post
post_rule {A} P r w k refused run =
    if_both P (not (r.method == "POST")) (refused 405 "method_not_allowed") (body r.body refl)
  where
    body :
        (o : Option A)
        → r.body ≡ o
        → P (elim o [ none ↦ (fail 400 "invalid_json", w) | some a ↦ k a ])
    body none e = refused 400 "invalid_json"
    body (some a) e = run a e
