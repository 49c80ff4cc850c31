-- ===== src/Debug.antt =====
-- The diagnosis of the server in core/internal/api/handlers.go: HandleDebugHealth,
-- HandleDebugCapacity and HandleDebugTest. They only read but for a job of the last.
-- A query that fails leaves its count at 0, or its list empty.
pub mod Health
pub mod Worst
pub mod Capacity
pub mod Shared
pub mod Smoke
pub mod Unnoticed
use llm_mcp.Prelude.{
  ℕ, ◌+◌, ◌*◌, Bool, false, not, ◌&&◌, ◌||◌, ◌==◌, Option, none, some, String, ltb, if◌then◌else◌,
  has_prefix, count_if,
}
use llm_mcp.Db.{Device, Db, Env, is_online, count_workers as count_workers_stmt}
use llm_mcp.Limits.{tagged_ollama}
use llm_mcp.Routing.Device.{tag}

-- `id LIKE 'worker-%'`
abbrev pub is_worker : Device → Bool
is_worker d = has_prefix d.id "worker-"

abbrev pub ten_minutes : ℕ
ten_minutes = 10 * 60 * 1_000_000_000

abbrev pub seen_after : ℕ → Option ℕ → Bool
seen_after t none = false
seen_after t (some s) = ltb t (s + ten_minutes)

-- Workers that are online and were seen in the last ten minutes.
abbrev pub is_live_worker : ℕ → Device → Bool
is_live_worker now d = is_worker d && is_online d.status && seen_after now d.last_seen

unfoldable pub workers_online : Env → Db → ℕ
workers_online env db =
    if env.down count_workers_stmt then 0 else count_if (is_live_worker env.db_now) db.devices

-- `COALESCE(tags->>'ollama', 'false') = 'true' AND id NOT LIKE 'worker-%'`
abbrev pub is_host : Device → Bool
is_host d = tagged_ollama d && not (is_worker d)

-- The same, without the devices of other ports.
abbrev pub is_base_host : Device → Bool
is_base_host d = is_host d && not (tag "port_device" d == "true")
