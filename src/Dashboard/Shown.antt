-- ===== src/Dashboard/Shown.antt =====
-- Which devices the hosts on the dashboard show as nodes.
use llm_mcp.Prelude.{
  ℕ, ◌+◌, ◌≡◌, inl, inr, refl, ap, ◌∙◌, sym, subst, String, Bool, true, false, ◌&&◌, ◌==◌, eq_iff,
  none, some, List, [], ◌∷◌, ◌++◌, map, ltb, any, arith, count_if, find_if, find_if_sound,
  if◌then◌else◌, if_both, Bool-cases, Option-cases, and_split, All,
}
use llm_mcp.Prelude.Int.{ℤ, pos, eqb_ℤ}
use llm_mcp.Dashboard.Sort.{sum_by, All-exchange_sort, sum_by-exchange_sort}
use llm_mcp.Dashboard.Hosts.{
  DeviceInfo, NodeInfo, HostInfo, is_port_device, base_hosts, node_at, add_node, add_port, attach,
  attach_ports, own_device, add_own, parse_tags,
}
use llm_mcp.Dashboard.Stats.{finish_host, hosts_of, host_before, build_host_hierarchy}
use llm_mcp.Dashboard.Totals.{
  IsBare, base_hosts-IsBare, IsBare-IsCounted, attach_ports-IsCounted, Adds, finished,
}

abbrev one_if : Bool → ℕ
one_if b = if b then 1 else 0

-- The nodes of a device.
abbrev pub nodes_of : String → HostInfo → ℕ
nodes_of id h = count_if (λ n. n.device_id == id) h.nodes

count_append :
    (p : NodeInfo → Bool) (ns : List NodeInfo) (n : NodeInfo)
    → count_if p (ns ++ (n ∷ [])) ≡ count_if p ns + one_if (p n)
count_append p [] n = if_both (λ (x : ℕ). x ≡ 0 + x) (p n) (omega arith) (omega arith)
count_append p (m ∷ ms) n = elim (Bool-cases (p m)) [
  | inl e ↦ rw (e, count_append p ms n) (omega arith)
  | inr e ↦ rw (e, count_append p ms n) refl
]

count_cons {ℓ} :
    {A : Type ℓ} (p : A → Bool) (x : A) (xs : List A)
    → count_if p (x ∷ xs) ≡ one_if (p x) + count_if p xs
count_cons p x xs = elim (Bool-cases (p x)) [
  | inl e ↦ rw e (omega arith)
  | inr e ↦ rw e (omega arith)
]

module _ (q : String) where
  nodes-add_port :
      (d : DeviceInfo) (h : HostInfo)
      → nodes_of q (add_port d h) ≡ nodes_of q h + one_if (d.id == q)
  nodes-add_port d h =
      let port = (parse_tags d.tags).ollama_port in
      count_append (λ n. n.device_id == q) h.nodes
        (node_at (if eqb_ℤ port (pos 0) then pos 11434 else port) d)

  nodes-attach :
      (d : DeviceInfo) (base : String) (hs : List HostInfo)
      → sum_by (nodes_of q) (attach d base hs) ≡ sum_by (nodes_of q) hs + one_if (d.id == q)
  nodes-attach d base [] = omega arith
  nodes-attach d base (x ∷ xs) = elim (Bool-cases (x.id == base)) [
    | inl e ↦ rw e (omega (arith, nodes-add_port d x))
    | inr e ↦ rw e (omega (arith, nodes-attach d base xs))
  ]

  nodes-attach_ports :
      (ds : List DeviceInfo) (hs : List HostInfo)
      → sum_by (nodes_of q) (attach_ports ds hs)
        ≡ sum_by (nodes_of q) hs + count_if (λ d. is_port_device d && d.id == q) ds
  nodes-attach_ports [] hs = omega arith
  nodes-attach_ports (d ∷ ds) hs =
      let base = (parse_tags d.tags).base_device in
      let hs' = if is_port_device d then attach d base hs else hs in
      omega (
        arith,
        nodes-attach_ports ds hs',
        count_cons (λ d. is_port_device d && d.id == q) d ds,
        attached d base hs,
      )
    where
      attached :
          (d : DeviceInfo) (base : String) (hs : List HostInfo)
          → sum_by (nodes_of q) (if is_port_device d then attach d base hs else hs)
            ≡ sum_by (nodes_of q) hs + one_if (is_port_device d && d.id == q)
      attached d base hs = elim (Bool-cases (is_port_device d)) [
        | inl e ↦ rw e (nodes-attach d base hs)
        | inr e ↦ rw e (omega arith)
      ]

  nodes_bare : (hs : List HostInfo) → All IsBare hs → sum_by (nodes_of q) hs ≡ 0
  nodes_bare [] h = refl
  nodes_bare (x ∷ xs) ((n, m, r), h) = rw (n, nodes_bare xs h) refl

-- A host shows itself when its device has a model.
abbrev pub shows_itself : List DeviceInfo → String → HostInfo → Bool
shows_itself devices q h = h.id == q && any (λ d. d.id == q && ltb 0 d.models) devices

module _ (devices : List DeviceInfo) (q : String) where
  found :
      (p : DeviceInfo → Bool) (ds : List DeviceInfo)
      → any p ds ≡ (elim (find_if p ds) [ none ↦ false | some d ↦ true ])
  found p [] = refl
  found p (d ∷ ds) = elim (Bool-cases (p d)) [ inl e ↦ rw e refl | inr e ↦ rw e (found p ds) ]

  own_by_id :
      (id : String)
      → (id == q && any (λ d. d.id == q && ltb 0 d.models) devices)
        ≡ (id == q && (elim (own_device devices id) [ none ↦ false | some d ↦ true ]))
  own_by_id id = elim (Bool-cases (id == q)) [
    | inl e ↦
        let r : id ≡ q = (eq_iff id q).0 e in
        subst
          (λ k.
            (k == q && any (λ d. d.id == q && ltb 0 d.models) devices)
            ≡ (k == q && (elim (own_device devices k) [ none ↦ false | some d ↦ true ])))
          (sym r) (ap (λ b. q == q && b) (found (λ d. d.id == q && ltb 0 d.models) devices))
    | inr e ↦ rw e refl
  ]

  shows_own :
      (h : HostInfo)
      → shows_itself devices q h
        ≡ (h.id == q && (elim (own_device devices h.id) [ none ↦ false | some d ↦ true ]))
  shows_own h = own_by_id h.id

  nodes-add_own :
      (h : HostInfo)
      → nodes_of q (add_own devices h) ≡ nodes_of q h + one_if (shows_itself devices q h)
  nodes-add_own h = elim (Option-cases (own_device devices h.id)) [
    | inl e ↦
        let s : shows_itself devices q h ≡ false = shows_own h ∙ rw e (ground arith) in
        let same : add_own devices h ≡ h = rw (add_own, e) refl in
        ap (nodes_of q) same ∙ rw s (omega arith)
    | inr (d, e) ↦
        let s : shows_itself devices q h ≡ (h.id == q) = shows_own h ∙ rw e (ground arith) in
        let same : add_own devices h ≡ add_node (pos 11434) d h = rw (add_own, e) refl in
        let t = find_if_sound (λ x. x.id == h.id && ltb 0 x.models) devices d e in
        let r : d.id ≡ h.id =
          (eq_iff d.id h.id).0 (and_split (d.id == h.id) (ltb 0 d.models) t.0).0 in
        ap (nodes_of q) same
        ∙ count_append (λ n. n.device_id == q) h.nodes (node_at (pos 11434) d)
        ∙ rw (s, r) refl
  ]

  nodes_finished :
      (max_conc : ℤ) (hs : List HostInfo)
      → sum_by (nodes_of q) (map (λ h. finish_host devices max_conc h) hs)
        ≡ sum_by (nodes_of q) hs + count_if (shows_itself devices q) hs
  nodes_finished max_conc [] = refl
  nodes_finished max_conc (x ∷ xs) =
      omega (
        arith,
        nodes-add_own x,
        nodes_finished max_conc xs,
        count_cons (shows_itself devices q) x xs,
      )

-- In each host of the hierarchy the totals of the models and of the running jobs are the sums over its
-- nodes, and the slots are the nodes times the concurrency. A device has as many nodes, over all hosts, as
-- rows with port tags, and one more for each host of its id when it is listed with a model.
pub build_host_hierarchy-Adds :
    (devices : List DeviceInfo) (max_conc : ℤ) (q : String)
    → All (Adds max_conc) (build_host_hierarchy devices max_conc)
      × (sum_by (nodes_of q) (build_host_hierarchy devices max_conc)
          ≡ count_if (λ d. is_port_device d && d.id == q) devices
            + count_if (shows_itself devices q) (attach_ports devices (base_hosts devices [])))
unfolding build_host_hierarchy
build_host_hierarchy-Adds devices max_conc q =
    let bare = base_hosts devices [] in
    let hosts = attach_ports devices bare in
    let none_yet = base_hosts-IsBare devices [] tt in
    (
      All-exchange_sort host_before (Adds max_conc) (hosts_of devices max_conc) (
          finished devices max_conc hosts
            (attach_ports-IsCounted devices bare (IsBare-IsCounted bare none_yet))),
      sum_by-exchange_sort host_before (nodes_of q) (hosts_of devices max_conc)
          ∙ nodes_finished devices q max_conc hosts
          ∙ omega (arith, nodes-attach_ports q devices bare, nodes_bare q bare none_yet),
    )
