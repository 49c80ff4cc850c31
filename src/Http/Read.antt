-- ===== src/Http/Read.antt =====
-- `fetchJob` and `HandleJobByID` in core/internal/api/handlers.go, without the streams.
use Prim.Native.Char.{code}
use llm_mcp.Prelude.{
  ℕ, zero, suc, ◌≡◌, refl, String, Bool, true, false, not, ◌&&◌, ◌||◌, ◌==◌, Option, none, some,
  leb, eqb, find_if, if◌then◌else◌,
}
use llm_mcp.Db.{Job, Db, Env, read_job}
use llm_mcp.Http.{Reply, reply, fail}

-- A row, `pgx.ErrNoRows`, or another error.
pub data Fetch : Type 0 where
  row : Job → Fetch
  no_rows : Fetch
  broken : Fetch

unfoldable pub fetch_job : Env → String → Db → Fetch
fetch_job env id db =
    if env.down read_job
    then broken
    else elim (find_if (λ j. j.id == id) db.jobs) [ none ↦ no_rows | some j ↦ row j ]

-- `[0-9a-f]{n}` at the start of a text, and what follows.
hex_run : ℕ → String → Option String
hex_run zero s = some s
hex_run (suc n) String.[] = none
hex_run (suc n) (String.◌∷◌ c s) =
    let rest = hex_run n s in
    let d = code c in if leb 48 d && leb d 57 || leb 97 d && leb d 102 then rest else none

-- A group, and the hyphen after it.
group : ℕ → Option String → Option String
unfolding hex_run
group n none = none
group n (some s) = elim (hex_run n s) [
  | some (String.◌∷◌ c t) ↦ if eqb (code c) b'-' then some t else none
  | _ ↦ none
]

-- `uuidRe`
unfoldable pub is_uuid : String → Bool
unfolding group hex_run
is_uuid s = elim (group 4 (group 4 (group 4 (group 8 (some s))))) [
  | none ↦ false
  | some t ↦ elim (hex_run 12 t) [ some String.[] ↦ true | _ ↦ false ]
]

uuids :
    (is_uuid "0123abcd-0123-4567-89ab-0123456789ab" ≡ true)
    × (is_uuid "0123ABCD-0123-4567-89ab-0123456789ab" ≡ false)
    × (is_uuid "0123abcd-0123-4567-89ab-0123456789abc" ≡ false)
unfolding is_uuid
uuids = (refl, refl, refl)

abbrev pub job_reply : Fetch → Reply Job
job_reply (row j) = reply 200 j
job_reply no_rows = fail 404 "not_found"
job_reply broken = fail 500 "db_read_failed"

-- The part of the handler after the test for a stream.
unfoldable pub read_job_by_id : Env → String → String → Db → Reply Job
read_job_by_id env method id db =
    if not (method == "GET")
    then fail 405 "method_not_allowed"
    else if not (is_uuid id)
    then fail 404 "not_found"
    else job_reply (fetch_job env id db)
