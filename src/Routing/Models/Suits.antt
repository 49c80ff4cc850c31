-- ===== src/Routing/Models/Suits.antt =====
-- What the query for a local model asks of a model and a device.
use llm_mcp.Prelude.{
  ℕ, String, Bool, true, false, not, ◌&&◌, ◌==◌, eq_iff, ◌≡◌, ◌≢◌, ◌↔◌, ◌⊎◌, inl, inr, refl, ap,
  arith, Option, none, some, List, [], ◌∷◌, Has, here, there, any, find_if, Bool-cases,
}
use llm_mcp.Prelude.Int.{ℤ, pos, ◌≤ℤ◌, leb_ℤ}
use llm_mcp.Db.Values.{Json, coalesce, arrow_text}
use llm_mcp.Db.{DeviceStatus, unknown, online, offline, is_online, Model, Device, DeviceModel, Db}
use llm_mcp.Limits.{tagged_ollama}
use llm_mcp.Routing.Device.{tag, offers}
use llm_mcp.Routing.Models.{in_tiers, local_fits}

-- A model on a device that may serve a request: what is asked of the two, field by field.
pub record Suits (db : Db) (tiers : List String) (needed : ℕ) (m : Model) (d : Device)
    : Type 0 where
  pub offered :
      (r : DeviceModel) × (find_if (λ r. r.device_id == d.id && r.model_id == m.id) db.device_models
        ≡ some r)
      × (r.available ≡ true)
  pub up : d.status ≡ online
  pub tagged : tag "ollama" d ≡ "true"
  pub addressed : tag "ollama_addr" d ≢ ""
  pub wanted : (t : String) × (m.tier ≡ some t) × Has t tiers
  pub active : (m.status ≡ none) ⊎ (m.status ≡ some "active")
  pub long_enough : pos needed ≤ℤ elim m.context_k [ none ↦ pos 4 | some k ↦ k ]
  pub chats : m.kind ≢ "embed"
  pub local : m.provider ≡ "ollama"

split_all :
    (a b c d e f g h i : Bool)
    → (a && b && c && not d && e && f && g && h && not i) ≡ true
    → (a ≡ true)
      × (b ≡ true)
      × (c ≡ true)
      × (d ≡ false)
      × (e ≡ true)
      × (f ≡ true)
      × (g ≡ true)
      × (h ≡ true)
      × (i ≡ false)
split_all a b c d e f g h i k = ground arith

join_all :
    (a b c d e f g h i : Bool)
    → a ≡ true
    → b ≡ true
    → c ≡ true
    → d ≡ false
    → e ≡ true
    → f ≡ true
    → g ≡ true
    → h ≡ true
    → i ≡ false
    → (a && b && c && not d && e && f && g && h && not i) ≡ true
join_all a b c d e f g h i ka kb kc kd ke kf kg kh ki = ground arith

any-Has : (t : String) (ts : List String) → any (λ x. t == x) ts ≡ true → Has t ts
any-Has t [] h = absurd (cc)
any-Has t (x ∷ ts) h = elim (Bool-cases (t == x)) [
  | inl e ↦ here ((eq_iff t x).0 e)
  | inr e ↦ there (any-Has t ts (rw e at h))
]

Has-any : (t : String) (ts : List String) → Has t ts → any (λ x. t == x) ts ≡ true
Has-any t [] m = elim m [ ]
Has-any t (x ∷ ts) (here e) = rw ((eq_iff t x).1 e) refl
Has-any t (x ∷ ts) (there m) =
    let k = Has-any t ts m in elim (Bool-cases (t == x)) [ inl e ↦ rw e refl | inr e ↦ rw e k ]

in_tiers-Has :
    (tiers : List String) (o : Option String)
    → (elim o [ none ↦ false | some t ↦ any (λ x. t == x) tiers ] ≡ true)
      ↔ ((t : String) × (o ≡ some t) × Has t tiers)
in_tiers-Has tiers none = (λ h. absurd (cc), λ (t, e, m). absurd (cc))
in_tiers-Has tiers (some t) = (
  λ h. (t, refl, any-Has t tiers h),
  λ (s, e, m). let q : s ≡ t = ground arith in Has-any t tiers (rw (← q) m),
)

active-cases :
    (o : Option String)
    → ((coalesce o "active" == "active") ≡ true) ↔ ((o ≡ none) ⊎ (o ≡ some "active"))
active-cases none = (λ h. inl refl, λ h. refl)
active-cases (some s) = (
  λ h. inr (ap some ((eq_iff s "active").0 h)),
  λ h. elim h [ inl e ↦ absurd (cc) | inr e ↦ let q : s ≡ "active" = ground arith in rw q refl ],
)

up-online : (s : DeviceStatus) → (is_online s ≡ true) ↔ (s ≡ online)
up-online online = (λ h. refl, λ h. refl)
up-online unknown = (λ h. absurd (cc), λ h. absurd (cc))
up-online offline = (λ h. absurd (cc), λ h. absurd (cc))

tagged-text :
    (o : Option String)
    → (elim o [ none ↦ false | some v ↦ v == "true" ] ≡ true) ↔ (coalesce o "" ≡ "true")
tagged-text none = (λ h. absurd (cc), λ h. absurd (cc))
tagged-text (some v) = ((eq_iff v "true").0, (eq_iff v "true").1)

abbrev text_of : Option Json → String
text_of none = ""
text_of (some t) = coalesce (arrow_text "ollama" t) ""

tagged-tag :
    (o : Option Json)
    → (elim o [
      | none ↦ false
      | some t ↦ elim (arrow_text "ollama" t) [ none ↦ false | some v ↦ v == "true" ]
    ]
        ≡ true)
      ↔ (text_of o ≡ "true")
tagged-tag none = (λ h. absurd (cc), λ h. absurd (cc))
tagged-tag (some t) = tagged-text (arrow_text "ollama" t)

offered-row :
    (o : Option DeviceModel)
    → (elim o [ none ↦ false | some dm ↦ dm.available ] ≡ true)
      ↔ ((r : DeviceModel) × (o ≡ some r) × (r.available ≡ true))
offered-row none = (λ h. absurd (cc), λ (r, e, a). absurd (cc))
offered-row (some dm) =
    (λ h. (dm, refl, h), λ (r, e, a). let q : r ≡ dm = ground arith in rw (← q) a)

differs : (s t : String) → ((s == t) ≡ false) ↔ (s ≢ t)
differs s t = (
  λ h e. let k : (s == t) ≡ true = (eq_iff s t).1 e in absurd (cc),
  λ n. elim (Bool-cases (s == t)) [ inl e ↦ absurd (n ((eq_iff s t).0 e)) | inr e ↦ e ],
)

within : (needed : ℕ) (k : ℤ) → (leb_ℤ (pos needed) k ≡ true) ↔ (pos needed ≤ℤ k)
within needed k = (λ h. ground arith, λ h. ground arith)

-- The joins and the WHERE clause of the query ask exactly for that.
pub local_fits-Suits :
    (db : Db) (tiers : List String) (needed : ℕ) (m : Model) (d : Device)
    → (local_fits db tiers needed (m, d) ≡ true) ↔ Suits db tiers needed m d
local_fits-Suits db tiers needed m d = (
  λ h.
      let (a, b, c, e, f, g, u, t, n) =
        split_all (in_tiers tiers m) (coalesce m.status "active" == "active") _ (m.kind == "embed")
          (m.provider == "ollama") (offers db m.id d) (is_online d.status) (tagged_ollama d)
          (tag "ollama_addr" d == "") h in
      record {
        offered = (offered-row _).0 g;
        up = (up-online d.status).0 u;
        tagged = (tagged-tag d.tags).0 t;
        addressed = (differs (tag "ollama_addr" d) "").0 n;
        wanted = (in_tiers-Has tiers m.tier).0 a;
        active = (active-cases m.status).0 b;
        long_enough = (within needed _).0 c;
        chats = (differs m.kind "embed").0 e;
        local = (eq_iff m.provider "ollama").0 f;
      },
  λ s.
      join_all (in_tiers tiers m) (coalesce m.status "active" == "active") _ (m.kind == "embed")
        (m.provider == "ollama") (offers db m.id d) (is_online d.status) (tagged_ollama d)
        (tag "ollama_addr" d == "") ((in_tiers-Has tiers m.tier).1 s.wanted)
        ((active-cases m.status).1 s.active) ((within needed _).1 s.long_enough)
        ((differs m.kind "embed").1 s.chats) ((eq_iff m.provider "ollama").1 s.local)
        ((offered-row _).1 s.offered) ((up-online d.status).1 s.up) ((tagged-tag d.tags).1 s.tagged)
        ((differs (tag "ollama_addr" d) "").1 s.addressed),
)
