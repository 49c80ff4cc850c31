-- ===== src/Limits/Bounds.antt =====
-- What `DeriveDeviceLimits` computes from the memory of a device.
use llm_mcp.Prelude.{ℕ, ◌+◌, ◌*◌, ◌≤◌, ◌<◌, ◌≡◌, Option, none, some, arith}
use llm_mcp.Prelude.Int.{ℤ, pos, ◌≤ℤ◌}
use llm_mcp.Limits.{
  DeviceLimitSpec, memory, params_for, size_for, context_for, derive, derive_device_limits,
}

-- Both limits are known and the first is at most the second.
abbrev pub LeLimit : Option ℤ → Option ℤ → Type 0
LeLimit (some a) (some b) = a ≤ℤ b
LeLimit _ _ = ⊥

params_for_mono : (m n : ℕ) → m ≤ n → params_for m ≤ params_for n
params_for_mono m n h = ground arith

size_for_mono : (m n : ℕ) → m ≤ n → size_for m ≤ size_for n
size_for_mono m n h = omega arith

context_for_mono : (m n : ℕ) → m ≤ n → context_for m ≤ context_for n
context_for_mono m n h = ground arith

derive_mono : (m n a b : ℕ) → 0 < m → m ≤ n → a ≤ b → LeLimit (derive none m a) (derive none n b)
derive_mono m n a b p h k = ground arith

-- More memory never derives a smaller limit: of two specifications that give no limit, with a known
-- memory and at least as much of it in the second, all three limits are derived for both, and each is
-- at least as large for the second.
pub derive_device_limits_mono :
    (s t : DeviceLimitSpec)
    → s.max_params_b ≡ none
    → s.max_size_gb ≡ none
    → s.max_context_k ≡ none
    → t.max_params_b ≡ none
    → t.max_size_gb ≡ none
    → t.max_context_k ≡ none
    → 0 < memory s
    → memory s ≤ memory t
    → let d = derive_device_limits s in
      let e = derive_device_limits t in
      LeLimit d.max_params_b e.max_params_b
      × LeLimit d.max_size_gb e.max_size_gb
      × LeLimit d.max_context_k e.max_context_k
unfolding derive_device_limits
derive_device_limits_mono s t p q r p' q' r' h k = (
  rw (p, p') (derive_mono (memory s) (memory t) _ _ h k (params_for_mono _ _ k)),
  rw (q, q') (derive_mono (memory s) (memory t) _ _ h k (size_for_mono _ _ k)),
  rw (r, r') (derive_mono (memory s) (memory t) _ _ h k (context_for_mono _ _ k)),
)

derive-some : (m a v : ℕ) → derive none m a ≡ some (pos v) → v ≡ a
derive-some m a v h = ground arith

floor_size : (m : ℕ) → (10 * size_for m ≤ 8 * m) × (8 * m < 10 * size_for m + 1_000_000)
floor_size m = omega arith

floor_params :
    (m : ℕ) → 16_000_000 < m → (4 * params_for m ≤ 3 * m) × (3 * m < 4 * params_for m + 2_000_000)
floor_params m h = ground arith

-- For a specification with more than 16 GB that gives neither limit, the derived size is 0.8 of the
-- memory rounded down to a tenth of a GB, and the derived number of parameters is 0.75 of the memory
-- rounded down to a half.
pub derive_device_limits_exact :
    (s : DeviceLimitSpec) (size params : ℕ)
    → s.max_params_b ≡ none
    → s.max_size_gb ≡ none
    → 16_000_000 < memory s
    → (derive_device_limits s).max_size_gb ≡ some (pos size)
    → (derive_device_limits s).max_params_b ≡ some (pos params)
    → (10 * size ≤ 8 * memory s)
      × (8 * memory s < 10 * size + 1_000_000)
      × (4 * params ≤ 3 * memory s)
      × (3 * memory s < 4 * params + 2_000_000)
unfolding derive_device_limits
derive_device_limits_exact s size params p q h e f =
    let a = derive-some (memory s) (size_for (memory s)) size (rw q at e) in
    let b = derive-some (memory s) (params_for (memory s)) params (rw p at f) in
    let (l, u) = floor_size (memory s) in
    let (l', u') = floor_params (memory s) h in (rw a l, rw a u, rw b l', rw b u')
