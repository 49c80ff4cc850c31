-- ===== src/Proxy/Truncate.antt =====
-- `truncateEmbeddings` in core/internal/api/handlers.go, on the decoded answer of an embedding service.
use llm_mcp.Prelude.{ℕ, zero, suc, String, ◌==◌, Option, none, some, ltb, if◌then◌else◌}
use llm_mcp.Db.Values.{Value}

-- A decoded JSON value; the fields of an object have distinct names.
mutual
  pub data Tree : Type 0 where
    leaf : Value → Tree
    arr : Trees → Tree
    obj : Members → Tree

  pub data Trees : Type 0 where
    nil : Trees
    cons : Tree → Trees → Trees

  pub data Members : Type 0 where
    end : Members
    member : String → Tree → Members → Members

unfoldable pub get_member : String → Members → Option Tree
get_member k end = none
get_member k (member j t ms) = if j == k then some t else get_member k ms

-- `m[k] = t` for a name that is there.
unfoldable pub set_member : String → Tree → Members → Members
set_member k t end = end
set_member k t (member j u ms) = if j == k then member j t ms else member j u (set_member k t ms)

unfoldable pub size : Trees → ℕ
size nil = 0
size (cons t ts) = suc (size ts)

-- `emb[:n]`
unfoldable pub first_items : ℕ → Trees → Trees
first_items zero ts = nil
first_items (suc n) nil = nil
first_items (suc n) (cons t ts) = cons t (first_items n ts)

-- The cut of one vector, when it is an array that is too long.
abbrev pub cut_vector : ℕ → Option Tree → Members → Members
cut_vector dims (some (arr emb)) m =
    if ltb dims (size emb) then set_member "embedding" (arr (first_items dims emb)) m else m
cut_vector dims _ m = m

-- An item that is no object is skipped.
abbrev pub cut_item : ℕ → Tree → Tree
cut_item dims (obj m) = obj (cut_vector dims (get_member "embedding" m) m)
cut_item dims (leaf v) = leaf v
cut_item dims (arr ts) = arr ts

unfoldable pub cut_items : ℕ → Trees → Trees
cut_items dims nil = nil
cut_items dims (cons t ts) = cons (cut_item dims t) (cut_items dims ts)

abbrev pub cut_data : ℕ → Option Tree → Members → Members
cut_data dims (some (arr ts)) result = set_member "data" (arr (cut_items dims ts)) result
cut_data dims _ result = result

unfoldable pub truncate_embeddings : Members → ℕ → Members
unfolding get_member set_member size first_items cut_items
truncate_embeddings result dims = cut_data dims (get_member "data" result) result
