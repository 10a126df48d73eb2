-- ===== src/Api/Outcomes.antt =====
-- What a handler's answer tells of the state that it left.
use xdp_natd.Base.{
  ℕ, ◌≡◌, ◌≢◌, refl, sym, ap, ◌∙◌, ◌↔◌, inl, inr, Result, ok, err, none, some, List, [], ◌∷◌, ◌++◌,
  In, arith, Bool-cases, Option-cases, ℕ_discrete,
}
use xdp_natd.Common.{ContainerInfo}
use xdp_natd.BpfMap.{BpfMap, bpf_noexist, get-remove_self}
use xdp_natd.PortAllocator.{deallocate}
use xdp_natd.PortAllocator.Queue.{allocate_next-nil, allocate_next-cons}
use xdp_natd.PortAllocator.Partition.{In-append, In-append_left, In-append_last}
use xdp_natd.Containers
use xdp_natd.Containers.{ContainerMetadata}
use xdp_natd.Iptables.{Iptables, IptablesError}
use xdp_natd.Api.{
  AppState, ExposeRequest, exposing, response, Outcome, expose_added, expose_tcp, expose_on,
  expose_next, expose_container, info_of, expose_port, Response, unexposed, unexpose_removed,
  unexpose_tcp, unexpose_port,
}
use xdp_natd.Api.Ports.{Owns}

In-rotate : (port : ℕ) (rest : List ℕ) (j : ℕ) → In j (rest ++ port ∷ []) ↔ In j (port ∷ rest)
In-rotate port rest j = (
  λ h. ground (arith, In-append j rest (port ∷ []) h),
  λ h. elim h [
    | inl own ↦ rw own (In-append_last port rest)
    | inr i ↦ In-append_left j rest (port ∷ []) i
  ],
)

module _ {E N : Type 0} (exposed : BpfMap ℕ ContainerInfo E) (tables : Iptables N) where
  open exposed use {get}

  -- The same ports are exposed, for the same containers, and the same ports are free.
  abbrev pub SamePorts : AppState E → AppState E → Type 0
  SamePorts st st' =
      ((j : ℕ) → get st'.expose_map j ≡ get st.expose_map j)
      × ((j : ℕ) → In j st'.port_allocator.ports ↔ In j st.port_allocator.ports)

  -- On success the first free port is exposed for the container's port, and nothing else changes; on
  -- failure all ports are as they were.
  abbrev pub ExposeMeets : AppState E → ExposeRequest → Outcome exposed tables → Type 0
  ExposeMeets st req (ok r, st', n) =
      (port : ℕ) × (container : ContainerMetadata) × (Containers.get st.container_metas
          req.container_ip
        ≡ some container)
      × (st.port_allocator.ports ≡ port ∷ st'.port_allocator.ports)
      × (r ≡ response 200 (exposing req.container_port port))
      × (get st'.expose_map port ≡ some (info_of container req.container_port))
      × ((j : ℕ) → j ≢ port → get st'.expose_map j ≡ get st.expose_map j)
  ExposeMeets st req (err e, st', n) = SamePorts st st'

  -- The state that a failed handler leaves, with its port given back.
  module _ (lower upper : ℕ) (st : AppState E) (req : ExposeRequest) (container : ContainerMetadata)
      (port : ℕ) (rest : List ℕ)
      (found : Containers.get st.container_metas req.container_ip ≡ some container)
      (first : st.port_allocator.ports ≡ port ∷ rest) (v : Owns exposed tables lower upper st) where
    abbrev entry : ContainerInfo
    entry = info_of container req.container_port

    hidden : get st.expose_map port ≡ none
    hidden = v.apart port (rw first (inl refl))

    given_back :
        (e : E)
        → ((j : ℕ) → get e j ≡ get st.expose_map j)
        → SamePorts st
            (record st { expose_map = e; port_allocator = record { ports = rest ++ port ∷ [] } })
    given_back e same = (same, λ j. rw first (In-rotate port rest j))

    expose_added-Meets :
        (e : E) (r : Result (Unit {0}) IptablesError × N)
        → get e port ≡ some entry
        → ((j : ℕ) → j ≢ port → get e j ≡ get st.expose_map j)
        → ExposeMeets st req (
            expose_added exposed tables
              (record st { expose_map = e; port_allocator = record { ports = rest } })
              entry
              port
              r)
    unfolding expose_added deallocate
    expose_added-Meets e (ok done, n) here others =
        (port, container, found, first, refl, here, others)
    expose_added-Meets e (err failed, n) here others = given_back (exposed.remove e port).1 λ j.
        elim (ℕ_discrete j port) [
          | yes own ↦ rw own (get-remove_self exposed e port ∙ sym hidden)
          | no ne ↦ exposed.remove_ne e j port ne ∙ others j ne
        ]

    expose_on-Meets :
        (n : N)
        → ExposeMeets st req (
            expose_on exposed tables
              (record st { port_allocator = record { ports = rest } })
              n
              entry
              port)
    unfolding expose_on expose_tcp deallocate
    expose_on-Meets n = elim (Bool-cases (exposed.insert st.expose_map port entry bpf_noexist).0) [
      | inl done ↦
          rw (done, expose_on)
            (expose_added-Meets _ _ (exposed.insert_ok st.expose_map port entry bpf_noexist done)
              (λ j ne. exposed.insert_ne st.expose_map j port entry bpf_noexist ne))
      | inr failed ↦
          rw (failed, expose_on)
            (given_back (exposed.insert st.expose_map port entry bpf_noexist).1 (λ j.
              ap (λ e. get e j) (exposed.insert_err st.expose_map port entry bpf_noexist failed)))
    ]

  expose_container-Meets :
      (lower upper : ℕ) (st : AppState E) (n : N) (req : ExposeRequest)
      (container : ContainerMetadata) (ports : List ℕ)
      → Containers.get st.container_metas req.container_ip ≡ some container
      → st.port_allocator.ports ≡ ports
      → Owns exposed tables lower upper st
      → ExposeMeets st req
          (expose_container exposed tables st n (info_of container req.container_port))
  unfolding expose_container expose_next
  expose_container-Meets lower upper st n req container [] found none_left v =
      rw (allocate_next-nil st.port_allocator none_left, expose_next)
        ((λ j. refl), λ j. rw none_left ((λ h. h), (λ h. h)))
  expose_container-Meets lower upper st n req container (port ∷ rest) found first v =
      rw (allocate_next-cons st.port_allocator port rest first, expose_next)
        (expose_on-Meets lower upper st req container port rest found first v n)

  -- In a state that owns its ports: if expose_port succeeds, the container was known, the first
  -- free port is exposed for it and named by the answer, and no other port changes; if it fails, at
  -- whatever step, the same ports are exposed, for the same containers, and the same ports are
  -- free.
  pub expose_port-Meets :
      (lower upper : ℕ) (st : AppState E) (n : N) (req : ExposeRequest)
      → Owns exposed tables lower upper st
      → ExposeMeets st req (expose_port exposed tables st n req)
  unfolding expose_port
  expose_port-Meets lower upper st n req v =
      elim (Option-cases (Containers.get st.container_metas req.container_ip)) [
        | inl missing ↦ rw (missing, expose_port) ((λ j. refl), λ j. ((λ h. h), (λ h. h)))
        | inr (container, found) ↦
            rw (found, expose_port)
              (expose_container-Meets lower upper st n req container _ found refl v)
      ]

  -- On success the port was exposed, is so no more, and is the last free one, and nothing else
  -- changes; on failure nothing does.
  abbrev pub UnexposeMeets : AppState E → ℕ → Outcome exposed tables → Type 0
  UnexposeMeets st port (ok r, st', n) =
      (info : ContainerInfo) × (get st.expose_map port ≡ some info)
      × (r ≡ response 200 (unexposed port))
      × (get st'.expose_map port ≡ none)
      × ((j : ℕ) → j ≢ port → get st'.expose_map j ≡ get st.expose_map j)
      × (st'.port_allocator.ports ≡ st.port_allocator.ports ++ port ∷ [])
  UnexposeMeets st port (err e, st', n) = st' ≡ st

  unexpose_removed-Meets :
      (st : AppState E) (port : ℕ) (info : ContainerInfo) (r : Result (Unit {0}) IptablesError × N)
      → get st.expose_map port ≡ some info
      → UnexposeMeets st port (unexpose_removed exposed tables st port r)
  unfolding unexpose_removed deallocate
  unexpose_removed-Meets st port info (err e, n) was = refl
  unexpose_removed-Meets st port info (ok done, n) was = (
    info,
    was,
    refl,
    get-remove_self exposed st.expose_map port,
    (λ j ne. exposed.remove_ne st.expose_map j port ne),
    refl,
  )

  -- If unexpose_port succeeds, the port was exposed, is so no more, is named by the answer and is
  -- the last free port, and no other port changes; if it fails, the state is as it was.
  pub unexpose_port-Meets :
      (st : AppState E) (n : N) (port : ℕ)
      → UnexposeMeets st port (unexpose_port exposed tables st n port)
  unfolding unexpose_port unexpose_tcp
  unexpose_port-Meets st n port = elim (Option-cases (get st.expose_map port)) [
    | inl absent ↦ rw (absent, unexpose_port) refl
    | inr (info, was) ↦ rw (was, unexpose_port) (unexpose_removed-Meets st port info _ was)
  ]

  -- In a state that owns its ports, expose_port succeeds and names a port, and unexpose_port
  -- succeeds for that port. Then what is exposed is as it was before both, and the port has moved
  -- from the front of the free ones to their end.
  pub unexpose_port-expose_port :
      (lower upper : ℕ) (st : AppState E) (n : N) (req : ExposeRequest) (r : Response)
      (st1 : AppState E) (n1 : N) (port : ℕ) (r2 : Response) (st2 : AppState E) (n2 : N)
      → Owns exposed tables lower upper st
      → expose_port exposed tables st n req ≡ (ok r, st1, n1)
      → r.body ≡ exposing req.container_port port
      → unexpose_port exposed tables st1 n1 port ≡ (ok r2, st2, n2)
      → ((j : ℕ) → get st2.expose_map j ≡ get st.expose_map j)
        × (st.port_allocator.ports ≡ port ∷ st1.port_allocator.ports)
        × (st2.port_allocator.ports ≡ st1.port_allocator.ports ++ port ∷ [])
  unexpose_port-expose_port lower upper st n req r st1 n1 port r2 st2 n2 v e1 body e2 =
      let shown : ExposeMeets st req (ok r, st1, n1) =
        rw e1 at (expose_port-Meets lower upper st n req v) in
      let gone : UnexposeMeets st1 port (ok r2, st2, n2) =
        rw e2 at (unexpose_port-Meets st1 n1 port) in
      let (port', _, _, first, answered, _, others) = shown in
      let (_, _, _, absent, kept, last) = gone in
      let same : port' ≡ port = cc (ap (λ (r : Response). r.body) answered) in
      let first' : st.port_allocator.ports ≡ port ∷ st1.port_allocator.ports = rw same at first in
      (
        λ j. elim (ℕ_discrete j port) [
          | yes own ↦ rw own (absent ∙ sym (v.apart port (rw first' (inl refl))))
          | no ne ↦ kept j ne ∙ others j (λ e. ne (e ∙ same))
        ],
        first',
        last,
      )
