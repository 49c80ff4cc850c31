-- ===== src/Proxy/Cut.antt =====
-- What `truncateEmbeddings` leaves of an answer.
use llm_mcp.Prelude.{
  ℕ, zero, suc, ◌≤◌, ◌≡◌, refl, ap, sym, ◌∙◌, ◌≢◌, String, ◌==◌, eq_iff, Option, none, some, List,
  [], ◌∷◌, inl, inr, arith, ltb, if◌then◌else◌, Bool-cases, map, All,
}
use llm_mcp.Proxy.Truncate.{
  Tree, leaf, arr, obj, Trees, nil, cons, Members, end, member, get_member, set_member, size,
  first_items, cut_vector, cut_items, cut_data, truncate_embeddings,
}

first_items-short : (n : ℕ) (ts : Trees) → size ts ≤ n → first_items n ts ≡ ts
unfolding size first_items
first_items-short zero nil h = refl
first_items-short zero (cons t ts) h = absurd (omega arith)
first_items-short (suc n) nil h = refl
first_items-short (suc n) (cons t ts) h =
    ap (λ us. cons t us) (first_items-short n ts (omega arith))

size-first_items : (n : ℕ) (ts : Trees) → size (first_items n ts) ≤ n
unfolding size first_items
size-first_items zero ts = omega arith
size-first_items (suc n) nil = omega arith
size-first_items (suc n) (cons t ts) = omega (arith, size-first_items n ts)

get_member-set_member :
    (k j : String) (t u : Tree) (m : Members)
    → get_member k m ≡ some u
    → get_member j (set_member k t m) ≡ (if k == j then some t else get_member j m)
unfolding get_member set_member
get_member-set_member k j t u end h = absurd (cc)
get_member-set_member k j t u (member i v m) h = elim (Bool-cases (i == k)) [
  | inl e ↦
      let q : i ≡ k = (eq_iff i k).0 e in rw e (ground (arith, eq_iff i k, eq_iff i j, eq_iff k j))
  | inr e ↦ rw e (
      ground
        (arith, eq_iff i k, eq_iff i j, eq_iff k j, get_member-set_member k j t u m (rw e at h)))
]

-- The vector of an item, if it has one.
abbrev pub vector_in : Option Tree → List Trees → List Trees
vector_in (some (arr emb)) rest = emb ∷ rest
vector_in _ rest = rest

-- The vectors of an answer: the arrays under `embedding` in the objects under `data`.
pub vectors : Trees → List Trees
vectors nil = []
vectors (cons (obj m) ts) = vector_in (get_member "embedding" m) (vectors ts)
vectors (cons (leaf v) ts) = vectors ts
vectors (cons (arr us) ts) = vectors ts

abbrev pub vectors_in : Option Tree → List Trees
vectors_in (some (arr ts)) = vectors ts
vectors_in _ = []

pub vectors_of : Members → List Trees
unfolding vectors
vectors_of result = vectors_in (get_member "data" result)

vector-cut :
    (dims : ℕ) (m : Members) (o : Option Tree) (rest : List Trees)
    → get_member "embedding" m ≡ o
    → vector_in (get_member "embedding" (cut_vector dims o m)) (map (first_items dims) rest)
      ≡ map (first_items dims) (vector_in o rest)
vector-cut dims m none rest e = rw e refl
vector-cut dims m (some (leaf v)) rest e = rw e refl
vector-cut dims m (some (obj n)) rest e = rw e refl
vector-cut dims m (some (arr emb)) rest e = elim (Bool-cases (ltb dims (size emb))) [
  | inl l ↦ rw l (
      rw (get_member-set_member "embedding" "embedding" (arr (first_items dims emb)) (arr emb) m e)
        refl)
  | inr l ↦ rw l (
      rw e (
        ap (λ v. v ∷ map (first_items dims) rest)
          (sym (first_items-short dims emb (ground arith)))))
]

vectors-cut_items :
    (dims : ℕ) (ts : Trees) → vectors (cut_items dims ts) ≡ map (first_items dims) (vectors ts)
unfolding vectors cut_items
vectors-cut_items dims nil = refl
vectors-cut_items dims (cons (leaf v) ts) = vectors-cut_items dims ts
vectors-cut_items dims (cons (arr us) ts) = vectors-cut_items dims ts
vectors-cut_items dims (cons (obj m) ts) =
    rw (vectors-cut_items dims ts) (vector-cut dims m (get_member "embedding" m) (vectors ts) refl)

All-first_items : (n : ℕ) (vs : List Trees) → All (λ ts. size ts ≤ n) (map (first_items n) vs)
All-first_items n [] = tt
All-first_items n (v ∷ vs) = (size-first_items n v, All-first_items n vs)

-- Truncation cuts each vector of an answer to its first `dims` numbers: none is longer then, their order
-- and their number stay, and so does each member of the answer but `data`.
pub truncate_embeddings-vectors :
    (result : Members) (dims : ℕ) (k : String)
    → k ≢ "data"
    → (vectors_of (truncate_embeddings result dims) ≡ map (first_items dims) (vectors_of result))
      × All (λ ts. size ts ≤ dims) (vectors_of (truncate_embeddings result dims))
      × (get_member k (truncate_embeddings result dims) ≡ get_member k result)
unfolding truncate_embeddings vectors_of
truncate_embeddings-vectors result dims k n =
    let e = cut (get_member "data" result) refl in
    (
      e,
      rw e (All-first_items dims (vectors_in (get_member "data" result))),
      others k n (get_member "data" result) refl,
    )
  where
    cut :
        (o : Option Tree)
        → get_member "data" result ≡ o
        → vectors_in (get_member "data" (cut_data dims o result))
          ≡ map (first_items dims) (vectors_in o)
    cut none e = rw e refl
    cut (some (leaf v)) e = rw e refl
    cut (some (obj m)) e = rw e refl
    cut (some (arr ts)) e =
        rw (get_member-set_member "data" "data" (arr (cut_items dims ts)) (arr ts) result e)
          (vectors-cut_items dims ts)

    others :
        (k : String)
        → k ≢ "data"
        → (o : Option Tree) → get_member "data" result ≡ o
        → get_member k (cut_data dims o result) ≡ get_member k result
    others k n none e = refl
    others k n (some (leaf v)) e = refl
    others k n (some (obj m)) e = refl
    others k n (some (arr ts)) e =
        get_member-set_member "data" k (arr (cut_items dims ts)) (arr ts) result e
        ∙ ground (arith, eq_iff "data" k)
