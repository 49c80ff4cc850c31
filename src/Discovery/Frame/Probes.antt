-- ===== src/Discovery/Frame/Probes.antt =====
-- A predicate that the statements of core/internal/discovery/discovery.go keep is kept by the probe of a port.
use llm_mcp.Prelude.{String, ◌||◌, ◌==◌, refl, List, [], ◌∷◌, trim_space, if_both}
use llm_mcp.Prelude.Int.{ℤ}
use llm_mcp.Db.{Db, Env, update_device}
use llm_mcp.Discovery.Net.{
  Net, OllamaModel, Answer, no_request, unreachable, bad_status, garbled, listed,
}
use llm_mcp.Discovery.Address.{stands_in}
use llm_mcp.Discovery.Sync.{save_model, sync_model, sync_all, listed_names, sync_device_models}
use llm_mcp.Discovery.Probe.{
  Search, take_answer, tags_url, try_hosts, attempt_hosts, try_addr, try_addrs, start_search,
  ollama_tags, retag, finish_probe, probe_ollama_port,
}
use llm_mcp.Discovery.Frame.{Kept}

module _ {ℓ} (env : Env) (net : Net) (P : Db → Type ℓ) (kept : Kept env net P) where
  on_sync_all :
      (device : String) (ms : List OllamaModel) (db : Db) → P db → P (sync_all env net device ms db)
  unfolding sync_all
  on_sync_all device [] db h = h
  on_sync_all device (m ∷ ms) db h =
      let n = trim_space m.name in
      on_sync_all device ms (sync_model env net device m db) (
        if_both P (n == "") h
          (kept.offer device n (save_model env net m n db) (kept.model m n db h)))

  on_sync :
      (device : String) (ms : List OllamaModel) (db : Db)
      → P db
      → P (sync_device_models env net device ms db)
  unfolding sync_device_models
  on_sync device ms db h =
      kept.narrow device (listed_names ms) (sync_all env net device ms db)
        (on_sync_all device ms db h)

  on_answer :
      (device addr host : String) (answer : Answer) (s : Search)
      → P s.db
      → P (take_answer env net device addr host answer s).db
  on_answer device addr host no_request s h = h
  on_answer device addr host (unreachable t e) s h = h
  on_answer device addr host (bad_status t c) s h = h
  on_answer device addr host (garbled t e) s h = h
  on_answer device addr host (listed l ms) s h = on_sync device ms s.db h

  on_hosts :
      (device addr : String) (port : ℤ) (hosts : List String) (s : Search)
      → P s.db
      → P (try_hosts env net device addr port hosts s).db
  unfolding try_hosts
  on_hosts device addr port [] s h = h
  on_hosts device addr port (x ∷ xs) s h =
      let answer = net.fetch (tags_url addr port) x in
      on_hosts device addr port xs (take_answer env net device addr x answer s)
        (on_answer device addr x answer s h)

  on_addrs :
      (device : String) (host_headers : List String) (port : ℤ) (addrs : List String) (s : Search)
      → P s.db
      → P (try_addrs env net device host_headers port addrs s).db
  unfolding try_addrs try_hosts
  on_addrs device host_headers port [] s h = h
  on_addrs device host_headers port (x ∷ xs) s h =
      let addr = trim_space x in
      on_addrs device host_headers port xs (try_addr env net device host_headers port x s) (
        if_both (λ (z : Search). P z.db) (addr == "" || stands_in s.seen addr) h
          (on_hosts device addr port (attempt_hosts net addr host_headers)
            (record s { seen = addr ∷ s.seen }) h))

  on_finish :
      (device : String) (port : ℤ) (s : Search) → P s.db → P (finish_probe env net device port s)
  on_finish device port s h = if_both P (s.best.addr == "" || env.down update_device) h (
      kept.tags (λ d. d.id == device) (retag env.db_now (ollama_tags net port s)) s.db (λ e. refl)
        h)

  pub on_probe_port :
      (device : String) (addrs host_headers : List String) (port : ℤ) (db : Db)
      → P db
      → P (probe_ollama_port env net device addrs host_headers port db)
  unfolding probe_ollama_port try_addrs
  on_probe_port device addrs host_headers port db h =
      on_finish device port (try_addrs env net device host_headers port addrs (start_search db))
        (on_addrs device host_headers port addrs (start_search db) h)
