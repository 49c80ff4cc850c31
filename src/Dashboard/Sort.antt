-- ===== src/Dashboard/Sort.antt =====
-- The sort of `buildHostHierarchy`, an exchange sort in place, for any order.
use Prim.Native.Char.{code}
use llm_mcp.Prelude.{
  ℕ, zero, suc, ◌+◌, ◌≡◌, inl, inr, refl, ap, ◌∙◌, String, Bool, true, false, ◌&&◌, ◌||◌, List, [],
  ◌∷◌, ltb, eqb, length, count_if, arith, if◌then◌else◌, Bool-cases, All, if_both,
}

-- `s < t`
unfoldable pub text_before : String → String → Bool
text_before s String.[] = false
text_before String.[] (String.◌∷◌ d t) = true
text_before (String.◌∷◌ c s) (String.◌∷◌ d t) =
    ltb (code c) (code d) || eqb (code c) (code d) && text_before s t

pub text_before-asym : (s t : String) → text_before s t ≡ true → text_before t s ≡ false
unfolding text_before
text_before-asym s String.[] h = absurd (cc)
text_before-asym String.[] (String.◌∷◌ d t) h = refl
text_before-asym (String.◌∷◌ c s) (String.◌∷◌ d t) h = ground (arith, text_before-asym s t)

pub text_before-weak :
    (s t u : String) → text_before s t ≡ false → text_before t u ≡ false → text_before s u ≡ false
unfolding text_before
text_before-weak s t String.[] h k = refl
text_before-weak s String.[] (String.◌∷◌ e u) h k = absurd (cc)
text_before-weak String.[] (String.◌∷◌ d t) (String.◌∷◌ e u) h k = absurd (cc)
text_before-weak (String.◌∷◌ c s) (String.◌∷◌ d t) (String.◌∷◌ e u) h k =
    ground (arith, text_before-weak s t u)

abbrev pub sum_by {ℓ} : {A : Type ℓ} → (A → ℕ) → List A → ℕ
sum_by f [] = 0
sum_by f (x ∷ xs) = f x + sum_by f xs

module _ {ℓ} {A : Type ℓ} (before : A → A → Bool) where
  -- The inner loop at one place: the entry that stays there, and the entries behind it.
  abbrev pub pass : A → List A → A × List A
  pass x [] = (x, [])
  pass x (y ∷ ys) =
      let swap = before y x in
      let (first, rest) = pass (if swap then y else x) ys in (first, (if swap then x else y) ∷ rest)

  -- The outer loop, over `n` places.
  unfoldable pub exchange : ℕ → List A → List A
  exchange zero xs = xs
  exchange (suc n) [] = []
  exchange (suc n) (x ∷ xs) = let (first, rest) = pass x xs in first ∷ exchange n rest

  unfoldable pub exchange_sort : List A → List A
  unfolding exchange
  exchange_sort xs = exchange (length xs) xs

  -- No entry comes before an earlier one.
  abbrev pub Sorted : List A → Type ℓ
  Sorted [] = Unit
  Sorted (x ∷ xs) = All (λ z. before z x ≡ false) xs × Sorted xs

  length-pass : (x : A) (xs : List A) → length (pass x xs).1 ≡ length xs
  length-pass x [] = refl
  length-pass x (y ∷ ys) = ap suc (length-pass (if before y x then y else x) ys)

  count_pass :
      (p : A → Bool) (x : A) (xs : List A)
      → count_if p ((pass x xs).0 ∷ (pass x xs).1) ≡ count_if p (x ∷ xs)
  count_pass p x [] = refl
  count_pass p x (y ∷ ys) = elim (Bool-cases (before y x)) [
    | inl e ↦ rw e (ground (arith, count_pass p y ys))
    | inr e ↦ rw e (ground (arith, count_pass p x ys))
  ]

  count_exchange : (p : A → Bool) (n : ℕ) (xs : List A) → count_if p (exchange n xs) ≡ count_if p xs
  unfolding exchange
  count_exchange p zero xs = refl
  count_exchange p (suc n) [] = refl
  count_exchange p (suc n) (x ∷ xs) = rw (count_exchange p n (pass x xs).1) (count_pass p x xs)

  sum_pass :
      (f : A → ℕ) (x : A) (xs : List A)
      → sum_by f ((pass x xs).0 ∷ (pass x xs).1) ≡ sum_by f (x ∷ xs)
  sum_pass f x [] = refl
  sum_pass f x (y ∷ ys) = elim (Bool-cases (before y x)) [
    | inl e ↦ rw e (omega (arith, sum_pass f y ys))
    | inr e ↦ rw e (omega (arith, sum_pass f x ys))
  ]

  sum_exchange : (f : A → ℕ) (n : ℕ) (xs : List A) → sum_by f (exchange n xs) ≡ sum_by f xs
  unfolding exchange
  sum_exchange f zero xs = refl
  sum_exchange f (suc n) [] = refl
  sum_exchange f (suc n) (x ∷ xs) = rw (sum_exchange f n (pass x xs).1) (sum_pass f x xs)

  All-pass {κ} :
      (P : A → Type κ) (x : A) (xs : List A)
      → P x
      → All P xs
      → P (pass x xs).0 × All P (pass x xs).1
  All-pass P x [] h hs = (h, tt)
  All-pass P x (y ∷ ys) h (k, ks) =
      let (a, as') = All-pass P (if before y x then y else x) ys (if_both P (before y x) k h) ks in
      (a, (if_both P (before y x) h k, as'))

  All-exchange {κ} : (P : A → Type κ) (n : ℕ) (xs : List A) → All P xs → All P (exchange n xs)
  unfolding exchange
  All-exchange P zero xs h = h
  All-exchange P (suc n) [] h = tt
  All-exchange P (suc n) (x ∷ xs) (h, hs) =
      let (a, rest) = All-pass P x xs h hs in (a, All-exchange P n (pass x xs).1 rest)

  module _ (asym : (x y : A) → before x y ≡ true → before y x ≡ false)
      (weak : (x y z : A) → before x y ≡ false → before y z ≡ false → before x z ≡ false) where
    not_itself : (x : A) → before x x ≡ false
    not_itself x = elim (Bool-cases (before x x)) [ inl e ↦ asym x x e | inr e ↦ e ]

    -- The first of two is not after the one that is kept, nor is the one that is not.
    kept : (x y : A) → before x (if before y x then y else x) ≡ false
    kept x y = elim (Bool-cases (before y x)) [
      | inl e ↦ rw e (asym y x e)
      | inr e ↦ rw e (not_itself x)
    ]

    lost : (x y : A) → before (if before y x then x else y) (if before y x then y else x) ≡ false
    lost x y = elim (Bool-cases (before y x)) [ inl e ↦ rw e (asym y x e) | inr e ↦ rw e e ]

    -- What stays has nothing before it, neither the entry that stood there nor those behind.
    pass_least :
        (x : A) (xs : List A)
        → (before x (pass x xs).0 ≡ false) × All (λ z. before z (pass x xs).0 ≡ false) (pass x xs).1
    pass_least x [] = (not_itself x, tt)
    pass_least x (y ∷ ys) =
        let w = if before y x then y else x in
        let l = if before y x then x else y in
        let m = (pass w ys).0 in
        let (h, hs) = pass_least w ys in (weak x w m (kept x y) h, (weak l w m (lost x y) h, hs))

    Sorted-exchange : (n : ℕ) (xs : List A) → length xs ≡ n → Sorted (exchange n xs)
    unfolding exchange
    Sorted-exchange zero [] h = tt
    Sorted-exchange zero (x ∷ xs) h = absurd (omega arith)
    Sorted-exchange (suc n) [] h = tt
    Sorted-exchange (suc n) (x ∷ xs) h =
        let (_, hs) = pass_least x xs in
        (
          All-exchange (λ z. before z (pass x xs).0 ≡ false) n (pass x xs).1 hs,
          Sorted-exchange n (pass x xs).1 (length-pass x xs ∙ ground arith),
        )

-- What holds of all entries holds of all that are sorted, and sums are the same.
pub All-exchange_sort {ℓ κ} :
    {A : Type ℓ} (before : A → A → Bool) (P : A → Type κ) (xs : List A)
    → All P xs
    → All P (exchange_sort before xs)
unfolding exchange_sort
All-exchange_sort before P xs h = All-exchange before P (length xs) xs h

pub sum_by-exchange_sort {ℓ} :
    {A : Type ℓ} (before : A → A → Bool) (f : A → ℕ) (xs : List A)
    → sum_by f (exchange_sort before xs) ≡ sum_by f xs
unfolding exchange_sort
sum_by-exchange_sort before f xs = sum_exchange before f (length xs) xs

-- The sort keeps all entries, as often as they stand there, and puts them in order.
pub exchange_sort-Sorted {ℓ} :
    {A : Type ℓ} (before : A → A → Bool)
    → ((x y : A) → before x y ≡ true → before y x ≡ false)
    → ((x y z : A) → before x y ≡ false → before y z ≡ false → before x z ≡ false)
    → (xs : List A)
    → Sorted before (exchange_sort before xs)
      × ((p : A → Bool) → count_if p (exchange_sort before xs) ≡ count_if p xs)
unfolding exchange_sort
exchange_sort-Sorted before asym weak xs = (
  Sorted-exchange before asym weak (length xs) xs refl,
  λ p. count_exchange before p (length xs) xs,
)
