-- ===== src/Prelude/Lists.antt =====
-- Lists measured by native numbers, Boolean searches in lists, and the `UPDATE … WHERE` of a table.
use Prim.Native.Nat.{ℕ, suc}
use mathlib.Core.Path.{◌≡◌, refl, ap}
use mathlib.Core.Bool.{Bool, true, false, ◌||◌}
use mathlib.Core.Logic.{inl, inr}
use mathlib.Core.List.{List, [], ◌∷◌, ◌++◌}
use mathlib.Core.Option.{Option, none, some}
use native.Mathlib.Omega.{arith}
use llm_mcp.Prelude.Tests.{if◌then◌else◌, Bool-cases, Option-cases}

module _ {ℓ} {A : Type ℓ} where
  abbrev pub length : List A → ℕ
  length [] = 0
  length (x ∷ xs) = suc (length xs)

  -- How many entries pass a test: SQL's `count(*)`.
  abbrev pub count_if : (A → Bool) → List A → ℕ
  count_if p [] = 0
  count_if p (x ∷ xs) = if p x then suc (count_if p xs) else count_if p xs

  abbrev pub any : (A → Bool) → List A → Bool
  any p [] = false
  any p (x ∷ xs) = p x || any p xs

  -- The first entry that passes a test.
  abbrev pub find_if : (A → Bool) → List A → Option A
  find_if p [] = none
  find_if p (x ∷ xs) = if p x then some x else find_if p xs

  abbrev pub filter_if : (A → Bool) → List A → List A
  filter_if p [] = []
  filter_if p (x ∷ xs) = if p x then x ∷ filter_if p xs else filter_if p xs

  -- `UPDATE … SET f WHERE p`.
  abbrev pub update_where : (A → Bool) → (A → A) → List A → List A
  update_where p f [] = []
  update_where p f (x ∷ xs) = (if p x then f x else x) ∷ update_where p f xs

  -- A predicate of all entries.
  abbrev pub All {κ} : (A → Type κ) → List A → Type κ
  All P [] = Unit
  All P (x ∷ xs) = P x × All P xs

  -- An entry stands in a list.
  pub data Has (a : A) : List A → Type ℓ where
    here : {x : A} {xs : List A} → a ≡ x → Has a (x ∷ xs)
    there : {x : A} {xs : List A} → Has a xs → Has a (x ∷ xs)

module _ {ℓ} {A : Type ℓ} where
  pub All-update_where {κ} :
      (P : A → Type κ) (p : A → Bool) (f : A → A) (xs : List A)
      → ((x : A) → P x → P (f x))
      → All P xs
      → All P (update_where p f xs)
  All-update_where P p f [] keep h = h
  All-update_where P p f (x ∷ xs) keep (h, hs) = (
    elim (Bool-cases (p x)) [ inl e ↦ rw e (keep x h) | inr e ↦ rw e h ],
    All-update_where P p f xs keep hs,
  )

  pub All-append {κ} : (P : A → Type κ) (xs ys : List A) → All P xs → All P ys → All P (xs ++ ys)
  All-append P [] ys h k = k
  All-append P (x ∷ xs) ys (h, hs) k = (h, All-append P xs ys hs k)

  pub All-imp {κ ι} :
      {P : A → Type κ} {Q : A → Type ι}
      → ((x : A) → P x → Q x)
      → (xs : List A) → All P xs
      → All Q xs
  All-imp f [] h = tt
  All-imp f (x ∷ xs) (h, hs) = (f x h, All-imp f xs hs)

  -- What `find_if` returns passes the test and stands in the list.
  pub find_if_sound :
      (p : A → Bool) (xs : List A) (a : A) → find_if p xs ≡ some a → (p a ≡ true) × Has a xs
  find_if_sound p [] a h = absurd (cc)
  find_if_sound p (x ∷ xs) a h = elim (Bool-cases (p x)) [
    | inl e ↦ let q : x ≡ a = ground arith in (rw (← q) e, here (rw q))
    | inr e ↦ let (t, m) = find_if_sound p xs a (ground arith) in (t, there m)
  ]

  -- An update that keeps the test is found again.
  pub find_if-update_where :
      (p : A → Bool) (f : A → A)
      → ((x : A) → p (f x) ≡ p x)
      → (xs : List A) (x : A) → find_if p xs ≡ some x
      → find_if p (update_where p f xs) ≡ some (f x)
  find_if-update_where p f keep [] x h = absurd (cc)
  find_if-update_where p f keep (y ∷ ys) x h = elim (Bool-cases (p y)) [
    | inl e ↦ let q : y ≡ x = ground arith in rw (e, keep y, e) (ap (λ z. some (f z)) q)
    | inr e ↦ rw (e, e) (find_if-update_where p f keep ys x (ground arith))
  ]

  -- What `find_if` misses is not there.
  pub find_if-none : (p : A → Bool) (xs : List A) → find_if p xs ≡ none → All (λ x. p x ≡ false) xs
  find_if-none p [] h = tt
  find_if-none p (x ∷ xs) h = elim (Bool-cases (p x)) [
    | inl e ↦ absurd (ground arith)
    | inr e ↦ (e, find_if-none p xs (ground arith))
  ]

  pub All-Has {κ} : (P : A → Type κ) (a : A) (xs : List A) → All P xs → Has a xs → P a
  All-Has P a [] h m = elim m [ ]
  All-Has P a (x ∷ xs) (h, hs) (here e) = rw e h
  All-Has P a (x ∷ xs) (h, hs) (there m) = All-Has P a xs hs m

-- The first entry that no other comes before: SQL's `ORDER BY … LIMIT 1`.
module _ {ℓ} {A : Type ℓ} (before : A → A → Bool) where
  abbrev pub prefer : A → Option A → A
  prefer x none = x
  prefer x (some y) = if before y x then y else x

  abbrev pub first_by : List A → Option A
  first_by [] = none
  first_by (x ∷ xs) = some (prefer x (first_by xs))

module _ {ℓ} {A : Type ℓ} (p : A → Bool) (f : A → A) where
  -- What a table holds after an update was there before, or is an updated row.
  pub Has-update_where :
      (a : A) (xs : List A)
      → Has a (update_where p f xs)
      → (b : A) × Has b xs × (a ≡ (if p b then f b else b))
  Has-update_where a [] m = elim m [ ]
  Has-update_where a (x ∷ xs) (here e) = (x, here refl, e)
  Has-update_where a (x ∷ xs) (there m) = let (b, n, e) = Has-update_where a xs m in (b, there n, e)

  pub length-update_where : (xs : List A) → length (update_where p f xs) ≡ length xs
  length-update_where [] = refl
  length-update_where (x ∷ xs) = ap suc (length-update_where xs)

-- What a filter keeps passes the test and was there.
pub Has-filter_if {ℓ} :
    {A : Type ℓ} (p : A → Bool) (a : A) (xs : List A)
    → Has a (filter_if p xs)
    → (p a ≡ true) × Has a xs
Has-filter_if p a [] m = elim m [ ]
Has-filter_if p a (x ∷ xs) m = elim (Bool-cases (p x)) [
  | inl e ↦ kept e (Has-filter_if p a xs) (rw e at m)
  | inr e ↦ let (t, n) = Has-filter_if p a xs (rw e at m) in (t, there n)
]
  where
    kept :
        p x ≡ true
        → (Has a (filter_if p xs) → (p a ≡ true) × Has a xs)
        → Has a (x ∷ filter_if p xs)
        → (p a ≡ true) × Has a (x ∷ xs)
    kept e ih (here q) = (rw q e, here q)
    kept e ih (there n) = let (t, k) = ih n in (t, there k)

-- What a filter drops fails the test.
pub filter_if-none {ℓ} :
    {A : Type ℓ} (p : A → Bool) (xs : List A) → filter_if p xs ≡ [] → All (λ x. p x ≡ false) xs
filter_if-none p [] h = tt
filter_if-none p (x ∷ xs) h = elim (Bool-cases (p x)) [
  | inl e ↦ absurd (ground arith)
  | inr e ↦ (e, filter_if-none p xs (ground arith))
]

-- A fact about all that a filter keeps is one about all, for those that pass.
pub All-filter_if {ℓ κ} :
    {A : Type ℓ} (P : A → Type κ) (p : A → Bool) (a : A) (xs : List A)
    → All P (filter_if p xs)
    → Has a xs
    → p a ≡ true
    → P a
All-filter_if P p a [] h m t = elim m [ ]
All-filter_if P p a (x ∷ xs) h (here q) t =
    let e : p x ≡ true = rw (← q) t in let k : All P (x ∷ filter_if p xs) = rw e at h in rw q k.0
All-filter_if P p a (x ∷ xs) h (there m) t = elim (Bool-cases (p x)) [
  | inl e ↦ let k : All P (x ∷ filter_if p xs) = rw e at h in All-filter_if P p a xs k.1 m t
  | inr e ↦ All-filter_if P p a xs (rw e at h) m t
]

module _ {ℓ} {A : Type ℓ} (before : A → A → Bool) where
  irreflexive : ((x y : A) → before x y ≡ true → before y x ≡ false) → (x : A) → before x x ≡ false
  irreflexive asym x = elim (Bool-cases (before x x)) [ inl e ↦ asym x x e | inr e ↦ e ]

  pub first_by-Has : (a : A) (xs : List A) → first_by before xs ≡ some a → Has a xs
  first_by-Has a [] h = absurd (cc)
  first_by-Has a (x ∷ xs) h = elim (Option-cases (first_by before xs)) [
    | inl e ↦ here (ground arith)
    | inr (y, e) ↦ elim (Bool-cases (before y x)) [
      | inl b ↦ there (first_by-Has a xs (ground arith))
      | inr b ↦ here (ground arith)
    ]
  ]

  pub first_by-none : (xs : List A) → first_by before xs ≡ none → xs ≡ []
  first_by-none [] h = refl
  first_by-none (x ∷ xs) h = cc

  -- Nothing comes before the entry that is chosen, when the order is a strict weak one.
  pub first_by-first :
      ((x y : A) → before x y ≡ true → before y x ≡ false)
      → ((x y z : A) → before x y ≡ false → before y z ≡ false → before x z ≡ false)
      → (a : A) (xs : List A) → first_by before xs ≡ some a
      → All (λ x. before x a ≡ false) xs
  first_by-first asym weak a [] h = tt
  first_by-first asym weak a (x ∷ xs) h = elim (Option-cases (first_by before xs)) [
    | inl e ↦
        let q : x ≡ a = ground arith in (rw q (irreflexive asym a), rw (first_by-none xs e) tt)
    | inr (y, e) ↦ elim (Bool-cases (before y x)) [
      | inl b ↦
          let q : y ≡ a = ground arith in
          (rw (← q) (asym y x b), first_by-first asym weak a xs (rw (e, q)))
      | inr b ↦
          let q : x ≡ a = ground arith in
          (
            rw q (irreflexive asym a),
            All-imp (λ z h'. weak z y a h' (rw (← q) b)) xs (first_by-first asym weak y xs e),
          )
    ]
  ]

pub append_nil {ℓ} : {A : Type ℓ} (xs : List A) → xs ++ [] ≡ xs
append_nil [] = refl
append_nil (x ∷ xs) = ap (λ ys. x ∷ ys) (append_nil xs)

pub append_assoc {ℓ} : {A : Type ℓ} (xs ys zs : List A) → (xs ++ ys) ++ zs ≡ xs ++ (ys ++ zs)
append_assoc [] ys zs = refl
append_assoc (x ∷ xs) ys zs = ap (λ rest. x ∷ rest) (append_assoc xs ys zs)

-- An entry that passes the test is kept.
pub filter_if-Has {ℓ} :
    {A : Type ℓ} (p : A → Bool) (a : A) (xs : List A)
    → p a ≡ true
    → Has a xs
    → Has a (filter_if p xs)
filter_if-Has p a [] t m = elim m [ ]
filter_if-Has p a (x ∷ xs) t (here e) = let q : p x ≡ true = rw (← e) t in rw q (here e)
filter_if-Has p a (x ∷ xs) t (there m) = elim (Bool-cases (p x)) [
  | inl e ↦ rw e (there (filter_if-Has p a xs t m))
  | inr e ↦ rw e (filter_if-Has p a xs t m)
]
