-- ===== src/Api/Ports.antt =====
-- Every handler keeps each host port of the range either free or exposed, on its error paths too.
use xdp_natd.Base.{
  ℕ, ◌≡◌, ◌≢◌, refl, inl, inr, none, List, [], ◌∷◌, arith, Bool-cases, Option-cases,
}
use xdp_natd.Common.{ContainerInfo}
use xdp_natd.BpfMap.{BpfMap, bpf_noexist, get-remove_self}
use xdp_natd.PortAllocator.{deallocate}
use xdp_natd.PortAllocator.Queue.{allocate_next-nil, allocate_next-cons}
use xdp_natd.PortAllocator.Partition.{Partition, Partition-take, Partition-give, Partition-rotate}
use xdp_natd.Containers
use xdp_natd.Iptables.{Iptables}
use xdp_natd.Api.{
  AppState, ExposeRequest, expose_tcp, expose_on, expose_next, expose_container, info_of,
  expose_port, unexpose_tcp, unexpose_port, Request, health, expose, unexpose, handle,
}

module _ {E N : Type 0} (exposed : BpfMap ℕ ContainerInfo E) (tables : Iptables N)
    (lower upper : ℕ) where
  -- Each port of the range is free, once, or exposed, and no other port is either.
  abbrev pub Owns : AppState E → Type 0
  Owns st = Partition exposed lower upper st.port_allocator.ports st.expose_map

  give_back :
      (st : AppState E) (port : ℕ)
      → Owns st
      → exposed.get st.expose_map port ≢ none
      → Partition exposed lower upper
          (deallocate st.port_allocator port).ports
          (exposed.remove st.expose_map port).1
  unfolding deallocate
  give_back st port v was =
      Partition-give exposed lower upper port st.port_allocator.ports st.expose_map _ v was
        (get-remove_self exposed st.expose_map port)
        (λ j ne. exposed.remove_ne st.expose_map j port ne)

  expose_tcp-Owns :
      (st : AppState E) (n : N) (info : ContainerInfo) (port : ℕ)
      → Owns st
      → exposed.get st.expose_map port ≢ none
      → Owns (expose_tcp exposed tables st n info port).1
  unfolding expose_tcp
  expose_tcp-Owns st n info port v was = ground (arith, give_back st port v was)

  expose_on-Owns :
      (st : AppState E) (n : N) (info : ContainerInfo) (port : ℕ)
      → Partition exposed lower upper (port ∷ st.port_allocator.ports) st.expose_map
      → Owns (expose_on exposed tables st n info port).1
  unfolding expose_on deallocate
  expose_on-Owns st n info port v =
      elim (Bool-cases (exposed.insert st.expose_map port info bpf_noexist).0) [
        | inl done ↦
            let here = exposed.insert_ok st.expose_map port info bpf_noexist done in
            rw (done, expose_on)
              (expose_tcp-Owns (record st { expose_map = e' }) n info port
                (Partition-take exposed lower upper port st.port_allocator.ports st.expose_map e'
                  info v here (λ j ne. exposed.insert_ne st.expose_map j port info bpf_noexist ne))
                (λ gone. cc here))
        | inr failed ↦
            rw (failed, expose_on, exposed.insert_err st.expose_map port info bpf_noexist failed)
              (Partition-rotate exposed lower upper port st.port_allocator.ports st.expose_map v)
      ]
    where
      e' : E
      e' = (exposed.insert st.expose_map port info bpf_noexist).1

  expose_container-Owns :
      (ports : List ℕ) (st : AppState E) (n : N) (info : ContainerInfo)
      → st.port_allocator.ports ≡ ports
      → Owns st
      → Owns (expose_container exposed tables st n info).1
  unfolding expose_container
  expose_container-Owns [] st n info e v =
      rw (allocate_next-nil st.port_allocator e, expose_next) (rw e at v)
  expose_container-Owns (port ∷ rest) st n info e v =
      rw (allocate_next-cons st.port_allocator port rest e, expose_next)
        (expose_on-Owns (record st { port_allocator = record { ports = rest } }) n info port
          (rw e at v))

  -- Exposing a port keeps the partition, whether it succeeds or fails, and at whatever step.
  pub expose_port-Owns :
      (st : AppState E) (n : N) (req : ExposeRequest)
      → Owns st
      → Owns (expose_port exposed tables st n req).1
  unfolding expose_port
  expose_port-Owns st n req v =
      elim (Option-cases (Containers.get st.container_metas req.container_ip)) [
        | inl missing ↦ rw (missing, expose_port) v
        | inr (container, found) ↦
            rw (found, expose_port)
              (expose_container-Owns st.port_allocator.ports st n
                (info_of container req.container_port) refl v)
      ]

  -- So does unexposing one.
  pub unexpose_port-Owns :
      (st : AppState E) (n : N) (port : ℕ)
      → Owns st
      → Owns (unexpose_port exposed tables st n port).1
  unfolding unexpose_port unexpose_tcp
  unexpose_port-Owns st n port v = ground (arith, give_back st port v)

  -- If each port of the range is free once or exposed, and no other port is either, then this holds
  -- after any request, whatever fails on the way.
  pub handle-Owns :
      (st : AppState E) (n : N) (req : Request) → Owns st → Owns (handle exposed tables st n req).1
  unfolding handle
  handle-Owns st n health v = v
  handle-Owns st n (expose req) v = ground (arith, expose_port-Owns st n req v)
  handle-Owns st n (unexpose port) v = ground (arith, unexpose_port-Owns st n port v)
