-- ===== src/Routing/Circuit/History.antt =====
-- The circuit breaker against the history of reported results: what `Router.circuits` holds of a device
-- is determined by the failures reported since its last success.
use llm_mcp.Prelude.{
  ℕ, suc, ◌-◌, ◌≤◌, ◌<◌, ◌≡◌, refl, ◌≢◌, ◌↔◌, String, Bool, true, false, ◌==◌, eq_iff, Option, none,
  some, List, [], ◌∷◌, arith, ltb, leb, eqb, if◌then◌else◌,
}
use llm_mcp.Routing.Circuit.{
  DeviceCircuit, Circuits, get, get-record_device_result, get-delete, get-empty, five_minutes,
  record_device_result, is_device_degraded, get_circuit_status,
}

-- A reported result: its time, its device and whether the job succeeded.
pub record Report : Type 0 where
  pub at : ℕ
  pub device_id : String
  pub success : Bool

-- The circuits after a history, the latest report first.
pub replay : List Report → Circuits
replay [] = []
replay (r ∷ h) = record_device_result r.at (replay h) r.device_id r.success

-- How many failures of the device the history holds since its last success.
pub streak : String → List Report → ℕ
streak d [] = 0
streak d (r ∷ h) =
    if r.device_id == d then (if r.success then 0 else suc (streak d h)) else streak d h

-- The time of the latest failure that was the third or a later one of its run.
pub tripped_at : String → List Report → ℕ
tripped_at d [] = 0
tripped_at d (r ∷ h) =
    if r.device_id == d
    then (if r.success then 0 else if leb 2 (streak d h) then r.at else 0)
    else tripped_at d h

-- What the history says the circuit of a device is.
abbrev pub expected : String → List Report → Option DeviceCircuit
expected d h =
    if eqb (streak d h) 0
    then none
    else some (record { failures = streak d h; degraded_at = tripped_at d h })

-- With fewer than three failures in the run the circuit has not tripped.
pub tripped_at-zero : (d : String) (h : List Report) → streak d h < 3 → tripped_at d h ≡ 0
unfolding streak tripped_at
tripped_at-zero d [] k = refl
tripped_at-zero d (r ∷ h) k = ground (arith, tripped_at-zero d h)

-- After any history, the circuit that the router holds of a named device counts exactly the failures
-- since the device's last success and carries the time of the latest failure from the third on; there
-- is no circuit when no failure stands.
pub get-replay : (d : String) (h : List Report) → d ≢ "" → get (replay h) d ≡ expected d h
unfolding replay streak tripped_at
get-replay d [] n = get-empty d
get-replay d (r ∷ h) n = ground (
  arith,
  get-record_device_result r.at (replay h) r.device_id d r.success n,
  get-replay d h n,
  tripped_at-zero d h,
)

-- A named device is skipped exactly while at least three failures stand since its last success and the
-- latest of those from the third on is at most five minutes old.
pub is_device_degraded-replay :
    (now : ℕ) (d : String) (h : List Report)
    → d ≢ ""
    → (is_device_degraded now (replay h) d ≡ true)
      ↔ ((3 ≤ streak d h) × (now - tripped_at d h ≤ five_minutes))
unfolding is_device_degraded
is_device_degraded-replay now d h n = rw (get-replay d h n, is_device_degraded) (ground arith)

-- The status on the dashboard is `degraded` for exactly the devices that the router skips, and otherwise
-- `ok` below three failures and `probe` from three failures on.
pub get_circuit_status-is_device_degraded :
    (now : ℕ) (d : String) (h : List Report)
    → d ≢ ""
    → get_circuit_status now (replay h) d ≡ (
        if is_device_degraded now (replay h) d
        then "degraded"
        else if ltb (streak d h) 3
        then "ok"
        else "probe")
unfolding is_device_degraded get_circuit_status
get_circuit_status-is_device_degraded now d h n = ground (arith, get-replay d h n)

-- After a success of a named device that device is not skipped, whatever came before, and every other
-- device is skipped exactly when it was skipped before.
pub success_resets :
    (now at : ℕ) (d j : String) (h : List Report)
    → d ≢ ""
    → is_device_degraded now (replay (record { at = at; device_id = d; success = true } ∷ h)) j
      ≡ (if d == j then false else is_device_degraded now (replay h) j)
unfolding is_device_degraded replay record_device_result
success_resets now at d j h n = ground (arith, eq_iff d "", get-delete (replay h) d j)
