-- ===== src/Discovery/Fastest.antt =====
-- The address that a probe settles on.
use llm_mcp.Prelude.{
  ℕ, ◌≤◌, ◌≡◌, String, false, ◌||◌, ◌==◌, refl, sym, subst, List, [], ◌∷◌, ◌++◌, ltb, arith,
  if_each, or_false, trim_space, Has, here, there, All, All-append, All-imp,
}
use llm_mcp.Prelude.Int.{ℤ}
use llm_mcp.Db.{Db, Env}
use llm_mcp.Discovery.Net.{
  Net, OllamaModel, Answer, no_request, unreachable, bad_status, garbled, listed, Attempted,
}
use llm_mcp.Discovery.Address.{stands_in}
use llm_mcp.Discovery.Sync.{listed_names}
use llm_mcp.Discovery.Probe.{
  Best, no_best, Search, better, take_answer, tags_url, try_hosts, attempt_hosts, try_addr,
  try_addrs, start_search,
}

-- What an attempt that lists models makes of the best one.
abbrev pub best_of : Attempted → Best
best_of a = elim a.answer [
  | listed l ms ↦ record { addr = a.addr; latency = l; models = listed_names ms; host = a.host }
  | _ ↦ no_best
]

-- An attempt that lists models took at least so long.
abbrev pub NotFaster : ℕ → Answer → Type 0
NotFaster l (listed m ms) = l ≤ m
NotFaster l _ = Unit

abbrev pub Fails : Answer → Type 0
Fails (listed m ms) = ⊥
Fails _ = Unit

-- No attempt lists models, or the best is one that does and that no other is faster than.
pub data IsBest (results : List Attempted) (best : Best) : Type 0 where
  nobody : All (λ a. Fails a.answer) results → best ≡ no_best → IsBest results best
  fastest :
      (a : Attempted)
      → Has a results
      → best ≡ best_of a
      → best.addr == "" ≡ false
      → All (λ b. NotFaster best.latency b.answer) results
      → IsBest results best

Has-append {ℓ} : {A : Type ℓ} (a : A) (xs ys : List A) → Has a xs → Has a (xs ++ ys)
Has-append a [] ys m = elim m [ ]
Has-append a (x ∷ xs) ys (here e) = here e
Has-append a (x ∷ xs) ys (there m) = there (Has-append a xs ys m)

Has-last {ℓ} : {A : Type ℓ} (a : A) (xs : List A) → Has a (xs ++ (a ∷ []))
Has-last a [] = here refl
Has-last a (x ∷ xs) = there (Has-last a xs)

NotFaster-Fails : (l : ℕ) (a : Answer) → Fails a → NotFaster l a
NotFaster-Fails l no_request f = tt
NotFaster-Fails l (unreachable t e) f = tt
NotFaster-Fails l (bad_status t c) f = tt
NotFaster-Fails l (garbled t e) f = tt
NotFaster-Fails l (listed t ms) f = absurd f

NotFaster-mono : (l k : ℕ) (a : Answer) → l ≤ k → NotFaster k a → NotFaster l a
NotFaster-mono l k no_request e f = tt
NotFaster-mono l k (unreachable t x) e f = tt
NotFaster-mono l k (bad_status t c) e f = tt
NotFaster-mono l k (garbled t x) e f = tt
NotFaster-mono l k (listed t ms) e f = omega arith

-- An answer that lists nothing.
failed_one :
    (a : Attempted) (results : List Attempted) (best : Best)
    → Fails a.answer
    → IsBest results best
    → IsBest (results ++ (a ∷ [])) best
failed_one a results best f (nobody none_yet e) =
    nobody (All-append (λ b. Fails b.answer) results (a ∷ []) none_yet (f, tt)) e
failed_one a results best f (fastest b m e n h) = fastest b (Has-append b results (a ∷ []) m) e n (
    All-append (λ c. NotFaster best.latency c.answer) results (a ∷ []) h
      (NotFaster-Fails best.latency a.answer f, tt))

module _ (addr host : String) (l : ℕ) (ms : List OllamaModel) (ne : addr == "" ≡ false) where
  a : Attempted
  a = record { addr = addr; host = host; answer = listed l ms }

  -- The new attempt is the best, when it is as fast as all.
  new-IsBest :
      (results : List Attempted)
      → All (λ b. NotFaster l b.answer) results
      → IsBest (results ++ (a ∷ [])) (best_of a)
  unfolding a
  new-IsBest results h =
      fastest a (Has-last a results) refl ne
        (All-append (λ b. NotFaster l b.answer) results (a ∷ []) h (omega arith, tt))

  listed_one :
      (results : List Attempted) (best : Best)
      → IsBest results best
      → IsBest (results ++ (a ∷ [])) (better best (best_of a))
  unfolding a
  listed_one results best (nobody none_yet e) =
      subst (λ b. IsBest (results ++ (a ∷ [])) (better b (best_of a))) (sym e)
        (new-IsBest results (All-imp (λ c f. NotFaster-Fails l c.answer f) results none_yet))
  listed_one results best (fastest b m e n h) =
      if_each (IsBest (results ++ (a ∷ []))) (best.addr == "" || ltb l best.latency)
        (λ t.
          new-IsBest results
            (All-imp (λ c k. NotFaster-mono l best.latency c.answer (ground arith) k) results h))
        (λ t.
          let (_, q) = or_false (best.addr == "") (ltb l best.latency) t in
          fastest b (Has-append b results (a ∷ []) m) e n (
            All-append (λ c. NotFaster best.latency c.answer) results (a ∷ []) h
              (ground arith, tt)))

-- What the loops keep.
abbrev Found : Search → Type 0
Found s = IsBest s.results s.best

module _ (env : Env) (net : Net) (device_id : String) where
  take_answer-Found :
      (addr host : String) (answer : Answer) (s : Search)
      → addr == "" ≡ false
      → Found s
      → Found (take_answer env net device_id addr host answer s)
  take_answer-Found addr host no_request s ne h = h
  take_answer-Found addr host (unreachable t x) s ne h =
      failed_one (record { addr = addr; host = host; answer = unreachable t x }) s.results s.best tt
        h
  take_answer-Found addr host (bad_status t c) s ne h =
      failed_one (record { addr = addr; host = host; answer = bad_status t c }) s.results s.best tt
        h
  take_answer-Found addr host (garbled t x) s ne h =
      failed_one (record { addr = addr; host = host; answer = garbled t x }) s.results s.best tt h
  take_answer-Found addr host (listed l ms) s ne h =
      unfold a in listed_one addr host l ms ne s.results s.best h

  try_hosts-Found :
      (addr : String) (port : ℤ) (hosts : List String) (s : Search)
      → addr == "" ≡ false
      → Found s
      → Found (try_hosts env net device_id addr port hosts s)
  unfolding try_hosts
  try_hosts-Found addr port [] s ne h = h
  try_hosts-Found addr port (x ∷ xs) s ne h =
      let answer = net.fetch (tags_url addr port) x in
      try_hosts-Found addr port xs (take_answer env net device_id addr x answer s) ne
        (take_answer-Found addr x answer s ne h)

  module _ (host_headers : List String) (port : ℤ) where
    try_addr-Found :
        (raw : String) (s : Search)
        → Found s
        → Found (try_addr env net device_id host_headers port raw s)
    unfolding try_hosts
    try_addr-Found raw s h =
        let addr = trim_space raw in
        if_each Found (addr == "" || stands_in s.seen addr) (λ t. h)
          (λ t.
            try_hosts-Found addr port (attempt_hosts net addr host_headers)
              (record s { seen = addr ∷ s.seen })
              (or_false (addr == "") (stands_in s.seen addr) t).0 h)

    try_addrs-Found :
        (addrs : List String) (s : Search)
        → Found s
        → Found (try_addrs env net device_id host_headers port addrs s)
    unfolding try_addrs
    try_addrs-Found [] s h = h
    try_addrs-Found (x ∷ xs) s h =
        try_addrs-Found xs (try_addr env net device_id host_headers port x s) (try_addr-Found x s h)

-- When the loops over the addresses and their hosts end, either no attempt listed models and there is no
-- best address, or the best is one that did, with its latency and models, and none that did was faster.
pub try_addrs-IsBest :
    (env : Env) (net : Net) (device_id : String) (host_headers : List String) (port : ℤ)
    (addrs : List String) (db : Db)
    → let s = try_addrs env net device_id host_headers port addrs (start_search db) in
      IsBest s.results s.best
try_addrs-IsBest env net device_id host_headers port addrs db =
    try_addrs-Found env net device_id host_headers port addrs (start_search db) (nobody tt refl)
