-- ===== src/Limits/Load.antt =====
-- `LoadDeviceLimitSpecs` in core/internal/limits/limits.go. Reading a file and decoding the JSON object of
-- specifications are parameters; the decoder gives the entries in the order in which the loop meets them,
-- which for a map of Go is any and may differ at each call.
use llm_mcp.Prelude.{
  ◌≡◌, inl, inr, refl, ◌∙◌, String, Bool, true, false, ◌&&◌, ◌||◌, ◌==◌, arith, eq_iff, eq_comm,
  Option, none, some, List, [], ◌∷◌, if◌then◌else◌, trim_space, trim_space_idem, if_each, ap,
  Bool-cases,
}
use llm_mcp.Config.{Vars}
use llm_mcp.Limits.{DeviceLimitSpec, spec_of}

abbrev pub Specs : Type 0
Specs = List (String × DeviceLimitSpec)

-- `specs[k] = spec`
abbrev pub set_spec : String → DeviceLimitSpec → Specs → Specs
set_spec k spec [] = (k, spec) ∷ []
set_spec k spec ((j, s) ∷ rest) =
    let later = set_spec k spec rest in if j == k then (k, spec) ∷ rest else (j, s) ∷ later

-- `specs` and `defaultSpec`.
abbrev pub Loaded : Type 0
Loaded = Specs × Option DeviceLimitSpec

-- The body of the loop, on the trimmed key.
abbrev pub load_key : String → DeviceLimitSpec → Loaded → Loaded
load_key k spec (specs, default) =
    if k == ""
    then (specs, default)
    else if k == "*"
    then (specs, some spec)
    else (set_spec k spec specs, default)

abbrev pub load_all : Specs → Loaded → Loaded
load_all [] loaded = loaded
load_all ((key, spec) ∷ rest) loaded = load_all rest (load_key (trim_space key) spec loaded)

-- Nothing is configured, an error, or the specifications.
pub data Load : Type 0 where
  unconfigured : Load
  load_failed : Load
  loaded : Loaded → Load

abbrev pub load_raw : (String → Option Specs) → String → Load
load_raw decode text =
    let raw = trim_space text in
    if raw == "" then unconfigured else elim (decode raw) [
      | none ↦ load_failed
      | some entries ↦ loaded (load_all entries ([], none))
    ]

unfoldable pub load_device_limit_specs :
    (String → Option String) → (String → Option Specs) → Vars → Load
load_device_limit_specs read_file decode vars =
    let raw = trim_space (vars "DEVICE_LIMITS_JSON") in
    let file = trim_space (vars "DEVICE_LIMITS_FILE") in
    if raw == "" && file == ""
    then unconfigured
    else if raw == ""
    then elim (read_file file) [ none ↦ load_failed | some data' ↦ load_raw decode data' ]
    else load_raw decode raw

-- The last specification whose trimmed key is `k`.
abbrev pub last_for : String → Specs → Option DeviceLimitSpec → Option DeviceLimitSpec
last_for k [] found = found
last_for k ((key, spec) ∷ rest) found =
    last_for k rest (if trim_space key == k then some spec else found)

if_twice {ℓ} :
    {A : Type ℓ} (b : Bool) (x y z : A)
    → (if b then x else y) ≡ (if b then x else if b then z else y)
if_twice true x y z = refl
if_twice false x y z = refl

spec_of-set_spec :
    (k j : String) (spec : DeviceLimitSpec) (specs : Specs)
    → spec_of k (set_spec j spec specs) ≡ (if j == k then some spec else spec_of k specs)
spec_of-set_spec k j spec [] = refl
spec_of-set_spec k j spec ((i, s) ∷ rest) = elim (Bool-cases (i == j)) [
  | inl e ↦
      let q : i ≡ j = (eq_iff i j).0 e in
      rw (e, q) (if_twice (j == k) (some spec) (spec_of k rest) (some s))
  | inr e ↦ elim (Bool-cases (i == k)) [
    | inl f ↦
        let q : i ≡ k = (eq_iff i k).0 f in
        let w : j == k ≡ false = eq_comm j k ∙ rw (← q) e in rw (e, f, w) refl
    | inr f ↦ rw (e, f) (spec_of-set_spec k j spec rest)
  ]
]

-- Neither the empty key nor the star names a device.
abbrev pub for_device : String → Option DeviceLimitSpec → Option DeviceLimitSpec
for_device k found = if k == "" || k == "*" then none else found

no_device :
    (k : String) (a b : Option DeviceLimitSpec)
    → (k == "" || k == "*") ≡ true
    → for_device k a ≡ for_device k b
no_device k a b e = rw e refl

-- A key that names no device.
passed_over :
    (k t : String) (spec : DeviceLimitSpec) (found : Option DeviceLimitSpec)
    → (t == "" || t == "*") ≡ true
    → for_device k found ≡ for_device k (if t == k then some spec else found)
passed_over k t spec found e = elim (Bool-cases (t == k)) [
  | inl f ↦
      let q : t ≡ k = (eq_iff t k).0 f in
      no_device k found (if t == k then some spec else found) (rw (← q) e)
  | inr f ↦ rw f refl
]

named :
    (k t : String) (spec : DeviceLimitSpec) (specs : Specs) (found : Option DeviceLimitSpec)
    → (t == "" || t == "*") ≡ false
    → spec_of k specs ≡ for_device k found
    → spec_of k (set_spec t spec specs) ≡ for_device k (if t == k then some spec else found)
named k t spec specs found e h = spec_of-set_spec k t spec specs ∙ elim (Bool-cases (t == k)) [
  | inl f ↦ let q : t ≡ k = (eq_iff t k).0 f in rw (f, ← q, e) refl
  | inr f ↦ rw f h
]

device_one :
    (k t : String) (spec : DeviceLimitSpec) (specs : Specs) (default found : Option DeviceLimitSpec)
    → spec_of k specs ≡ for_device k found
    → spec_of k (load_key t spec (specs, default)).0
      ≡ for_device k (if t == k then some spec else found)
device_one k t spec specs default found h =
    let P = λ (x : Loaded). spec_of k x.0 ≡ for_device k (if t == k then some spec else found) in
    if_each P (t == "") (λ e. h ∙ passed_over k t spec found (ground arith))
      (λ e.
        if_each P (t == "*") (λ f. h ∙ passed_over k t spec found (ground arith))
          (λ f. named k t spec specs found (ground arith) h))

default_one :
    (t : String) (spec : DeviceLimitSpec) (specs : Specs) (default : Option DeviceLimitSpec)
    → (load_key t spec (specs, default)).1 ≡ (if t == "*" then some spec else default)
default_one t spec specs default = elim (Bool-cases (t == "")) [
  | inl e ↦ let q : t ≡ "" = (eq_iff t "").0 e in rw q refl
  | inr e ↦ elim (Bool-cases (t == "*")) [ inl f ↦ rw (e, f) refl | inr f ↦ rw (e, f) refl ]
]

load_all-last :
    (k : String) (entries specs : Specs) (default found : Option DeviceLimitSpec)
    → spec_of k specs ≡ for_device k found
    → (spec_of k (load_all entries (specs, default)).0 ≡ for_device k (last_for k entries found))
      × ((load_all entries (specs, default)).1 ≡ last_for "*" entries default)
load_all-last k [] specs default found h = (h, refl)
load_all-last k ((key, spec) ∷ rest) specs default found h =
    let t = trim_space key in
    let next = load_key t spec (specs, default) in
    let (p, q) =
      load_all-last k rest next.0 next.1 (if t == k then some spec else found)
        (device_one k t spec specs default found h) in
    (p, q ∙ ap (last_for "*" rest) (default_one t spec specs default))

nothing_kept : (k : String) → none ≡ for_device k none
nothing_kept k = elim (Bool-cases (k == "" || k == "*")) [ inl e ↦ rw e refl | inr e ↦ rw e refl ]

-- What a text that is not blank gives, when it decodes and when it does not.
pub data Decided (decode : String → Option Specs) (raw k : String) (x : Load) : Type 0 where
  refused : decode raw ≡ none → x ≡ load_failed → Decided decode raw k x
  decoded :
      (entries specs : Specs) (default : Option DeviceLimitSpec)
      → decode raw ≡ some entries
      → x ≡ loaded (specs, default)
      → spec_of k specs ≡ for_device k (last_for k entries none)
      → default ≡ last_for "*" entries none
      → Decided decode raw k x

decided :
    (decode : String → Option Specs) (raw k : String) (o : Option Specs)
    → decode raw ≡ o
    → Decided decode raw k (elim o as (λ _. Load) [
      | none ↦ load_failed
      | some entries ↦ loaded (load_all entries ([], none))
    ])
decided decode raw k none e = refused e refl
decided decode raw k (some entries) e =
    let (p, q) = load_all-last k entries [] none none (nothing_kept k) in
    let l = load_all entries ([], none) in decoded entries l.0 l.1 e refl p q

-- When DEVICE_LIMITS_JSON is not blank, the result is that of its text, whatever the file holds: an error
-- when it does not decode; else, in whatever order the loop meets the entries, a device gets the
-- specification of the last entry met whose trimmed key is its id, the default is that of the last entry
-- met for the star, and no specification is kept under the empty key or the star.
pub load_device_limit_specs-last :
    (read_file : String → Option String) (decode : String → Option Specs) (vars : Vars) (k : String)
    → trim_space (vars "DEVICE_LIMITS_JSON") == "" ≡ false
    → Decided decode
        (trim_space (vars "DEVICE_LIMITS_JSON"))
        k
        (load_device_limit_specs read_file decode vars)
unfolding load_device_limit_specs
load_device_limit_specs-last read_file decode vars k h =
    let raw = trim_space (vars "DEVICE_LIMITS_JSON") in
    rw (h, load_raw, trim_space_idem (vars "DEVICE_LIMITS_JSON"), h)
      (decided decode raw k (decode raw) refl)
