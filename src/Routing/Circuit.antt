-- ===== src/Routing/Circuit.antt =====
-- The circuit breaker of core/internal/routing/router.go: `Router.circuits` as an association list, and
-- the time that `time.Now()` gives as an argument. The mutex makes each call one step.
pub mod History
use llm_mcp.Prelude.{
  ℕ, suc, ◌+◌, ◌-◌, ◌*◌, ◌≡◌, refl, ◌≢◌, String, Bool, true, false, ◌==◌, eq_iff, Option, none,
  some, List, [], ◌∷◌, arith, ltb, leb, if◌then◌else◌,
}

pub record DeviceCircuit : Type 0 where
  pub failures : ℕ
  pub degraded_at : ℕ

abbrev pub Circuits : Type 0
Circuits = List (String × DeviceCircuit)

-- `rt.circuits[k]`
unfoldable pub get : Circuits → String → Option DeviceCircuit
get [] k = none
get ((j, c) ∷ m) k = if j == k then some c else get m k

-- `delete(rt.circuits, k)`
pub delete : Circuits → String → Circuits
delete [] k = []
delete ((j, c) ∷ m) k = let rest = delete m k in if j == k then rest else (j, c) ∷ rest

-- `rt.circuits[k] = c`
pub put : Circuits → String → DeviceCircuit → Circuits
put m k c = (k, c) ∷ delete m k

pub get-delete :
    (m : Circuits) (k j : String) → get (delete m k) j ≡ (if k == j then none else get m j)
unfolding get delete
get-delete [] k j = ground arith
get-delete ((i, c) ∷ m) k j = ground (arith, get-delete m k j, eq_iff i k, eq_iff i j, eq_iff k j)

pub get-put :
    (m : Circuits) (k j : String) (c : DeviceCircuit)
    → get (put m k c) j ≡ (if k == j then some c else get m j)
unfolding get put
get-put m k j c = ground (arith, get-delete m k j)

pub get-empty : (k : String) → get [] k ≡ none
unfolding get
get-empty k = refl

abbrev pub five_minutes : ℕ
five_minutes = 5 * 60 * 1_000_000_000

abbrev pub fresh_circuit : DeviceCircuit
fresh_circuit = record { failures = 0; degraded_at = 0 }

-- One more failure; from the third on, the circuit opens anew.
abbrev pub fail_once : ℕ → DeviceCircuit → DeviceCircuit
fail_once now c =
    let n = suc c.failures in
    record { failures = n; degraded_at = if leb 3 n then now else c.degraded_at }

abbrev pub or_fresh : Option DeviceCircuit → DeviceCircuit
or_fresh none = fresh_circuit
or_fresh (some c) = c

unfoldable pub record_device_result : ℕ → Circuits → String → Bool → Circuits
record_device_result now m device_id success =
    if device_id == ""
    then m
    else if success
    then delete m device_id
    else put m device_id (fail_once now (or_fresh (get m device_id)))

unfoldable pub is_device_degraded : ℕ → Circuits → String → Bool
is_device_degraded now m device_id = elim (get m device_id) [
  | none ↦ false
  | some c ↦
      if ltb c.failures 3
      then false
      else if ltb five_minutes (now - c.degraded_at)
      then false
      else true
]

unfoldable pub get_circuit_status : ℕ → Circuits → String → String
get_circuit_status now m device_id = elim (get m device_id) [
  | none ↦ "ok"
  | some c ↦
      if ltb c.failures 3
      then "ok"
      else if ltb five_minutes (now - c.degraded_at)
      then "probe"
      else "degraded"
]

-- What a report does to every device's circuit.
pub get-record_device_result :
    (now : ℕ) (m : Circuits) (k d : String) (success : Bool)
    → d ≢ ""
    → get (record_device_result now m k success) d ≡ (
        if k == d
        then (if success then none else some (fail_once now (or_fresh (get m d))))
        else get m d)
unfolding record_device_result
get-record_device_result now m k d success n = ground (
  arith,
  eq_iff k "",
  eq_iff k d,
  get-delete m k d,
  get-put m k d (fail_once now (or_fresh (get m k))),
)
