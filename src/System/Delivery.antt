-- ===== src/System/Delivery.antt =====
-- Answers under all that may happen: other packets, requests, and the reaper between its walk and its
-- removals.
use xdp_natd.Base.{ℕ, ◌+◌, ◌^◌, ◌≤◌, ◌<◌, ◌≡◌, ◌≢◌, ap, ◌∙◌, some, In, arith}
use xdp_natd.Common.{
  ConnectionTuple, ContainerInfo, FibMacs, FlowState, NatData, NicInfo, flow_state, reply,
  timeout_new, timeout_est,
}
use xdp_natd.Word.{be16, add64}
use xdp_natd.BpfMap.{BpfMap}
use xdp_natd.Frame.{Frame}
use xdp_natd.Rewrite.ZeroCheck.{source_of, dest_of}
use xdp_natd.Kernel.{Kernel, xdp_pass}
use xdp_natd.Xdp.{Machine, code_of, xdp_redirect_containers, xdp_redirect_host}
use xdp_natd.Xdp.Guards.{IsTranslatable}
use xdp_natd.Xdp.Later.{Keeps}
use xdp_natd.Xdp.Paths.{src_ip, outbound, inbound}
use xdp_natd.Xdp.Programs.{containers_left, host_left}
use xdp_natd.Xdp.RoundTrip
use xdp_natd.Xdp.Service
use xdp_natd.Xdp.EndToEnd.{reply_kept, answer_kept}
use xdp_natd.Iptables.{Iptables}
use xdp_natd.System.{System, machine_of}
use xdp_natd.System.Reaping.{Steps}
use xdp_natd.System.Lifetime.{flow_survives}

module _ {S E N : Type 0} (tracker : BpfMap ConnectionTuple FlowState S)
    (exposed : BpfMap ℕ ContainerInfo E) (tables : Iptables N) (s : System S E N) (k : Kernel)
    (f : Frame) where
  abbrev first : Machine S E
  first = machine_of tracker exposed tables s f

  -- A flow that was opened at `s.now` is kept for 30 s.
  opened-Keeps :
      (j : ConnectionTuple) (nat : NatData) (left : S) (t : System S E N)
      → k.ktime ≡ s.now
      → s.now + timeout_est < 2 ^ 64
      → tracker.get left j ≡ some (flow_state nat reply (add64 k.ktime timeout_new))
      → ¬ In j s.to_go
      → Steps tracker exposed tables (record s { conntrack = left }) t
      → t.now < s.now + timeout_new
      → Keeps tracker exposed j left t.conntrack
  opened-Keeps j nat left t at_now fits opened free steps early v e =
      let (v', e', same, _) =
        flow_survives tracker exposed tables (s.now + timeout_new) j v
          (record s { conntrack = left }) t e free fits late (omega arith) steps early in
      (v', e', same)
    where
      late : s.now + timeout_new ≤ v.timeout
      late = ground (arith, e, opened)

  module _ (nic : NicInfo) (fib_macs : FibMacs) where
    -- In a state of the system whose clock cannot wrap, a container's translatable packet comes,
    -- whose flow is untracked; the host's device and a route are known, its UDP checksum is in use,
    -- addresses and ports fit their widths, the table has room for both directions, and the reaper
    -- has not collected the key of the answers. Then, after any steps of the system that take less
    -- than 30 s, walks and removals of the reaper included, a translatable answer with a UDP
    -- checksum, from the packet's destination to the host's address and the container's port, is
    -- redirected by the entry of REDIRECT_MAP for the container's address, and leaves for the
    -- container's MAC address, address and port, from the source that it had.
    pub reply_delivered :
        IsTranslatable k f
        → RoundTrip.Leaves tracker exposed k first nic fib_macs
        → RoundTrip.Fits tracker exposed k first nic fib_macs
        → k.ktime ≡ s.now
        → s.now + timeout_est < 2 ^ 64
        → ¬ In (RoundTrip.back_key tracker exposed k first nic fib_macs) s.to_go
        → (code : ℕ) (m1 : Machine S E)
        → xdp_redirect_containers tracker exposed k first ≡ some (code, m1)
        → (t : System S E N)
        → Steps tracker exposed tables (record s { conntrack = m1.conntrack }) t
        → t.now < s.now + timeout_new
        → (k' : Kernel) (f' : Frame) → IsTranslatable k' f'
        → source_of k'.endian f' ≡ dest_of k.endian f
        → dest_of k'.endian f' ≡ (nic.nic_ip, be16 k.endian f.udp.source)
        → f'.udp.check ≢ 0
        → (r : Machine S E) × (xdp_redirect_host tracker exposed k'
              (machine_of tracker exposed tables t f')
            ≡ some (
              code_of tracker exposed k'
                  (machine_of tracker exposed tables t f')
                  (k'.redirect (src_ip tracker exposed k first) xdp_pass),
              r,
            ))
          × (r.frame.eth.dst_addr ≡ f.eth.src_addr)
          × (dest_of k'.endian r.frame ≡ source_of k.endian f)
          × (source_of k'.endian r.frame ≡ source_of k'.endian f')
    reply_delivered translatable h room at_now fits free code m1 ran t steps early k' f' t' from to
          used =
        let (out, _, _, _) = RoundTrip.outbound_translated tracker exposed k first nic fib_macs h in
        let left : m1.conntrack ≡ (outbound tracker exposed k first).1.conntrack =
          containers_left tracker exposed k first _ code m1 translatable out ran in
        reply_kept tracker exposed k first nic fib_macs translatable h room code m1 ran k'
          (machine_of tracker exposed tables t f')
          (opened-Keeps (RoundTrip.back_key tracker exposed k first nic fib_macs)
            (RoundTrip.back_nat tracker exposed k first nic fib_macs) m1.conntrack t at_now fits
            (ap (λ c. tracker.get c (RoundTrip.back_key tracker exposed k first nic fib_macs)) left
              ∙ RoundTrip.reply_awaited tracker exposed k first nic fib_macs h room)
            free steps early)
          t' from to used

  module _ (info : ContainerInfo) (fib_macs : FibMacs) where
    -- In a state of the system whose clock cannot wrap, a translatable request to an exposed port
    -- comes, whose flow is untracked; a route back is known, its UDP checksum is in use, addresses
    -- and ports fit their widths, the table has room for both directions, and the reaper has not
    -- collected the key of the answers. Then, after any steps of the system that take less than 30
    -- s, walks and removals of the reaper included, the container's translatable answer with a UDP
    -- checksum, from its exposed address and port to the source of the request, is redirected by
    -- entry 0 of REDIRECT_MAP along the route back, and leaves from the address and port that the
    -- request was sent to, for its source.
    pub answer_delivered :
        IsTranslatable k f
        → Service.Arrives tracker exposed k first info fib_macs
        → Service.Fits tracker exposed k first info fib_macs
        → k.ktime ≡ s.now
        → s.now + timeout_est < 2 ^ 64
        → ¬ In (Service.answer_key tracker exposed k first info fib_macs) s.to_go
        → (code : ℕ) (m1 : Machine S E)
        → xdp_redirect_host tracker exposed k first ≡ some (code, m1)
        → (t : System S E N)
        → Steps tracker exposed tables (record s { conntrack = m1.conntrack }) t
        → t.now < s.now + timeout_new
        → (k' : Kernel) (f' : Frame) → IsTranslatable k' f'
        → source_of k'.endian f' ≡ (info.container_ip, info.container_port)
        → dest_of k'.endian f' ≡ source_of k.endian f
        → f'.udp.check ≢ 0
        → (r : Machine S E) × (xdp_redirect_containers tracker exposed k'
              (machine_of tracker exposed tables t f')
            ≡ some (
              code_of tracker exposed k'
                  (machine_of tracker exposed tables t f')
                  (k'.redirect 0 xdp_pass),
              r,
            ))
          × (r.frame.eth.dst_addr ≡ fib_macs.fib_dmac)
          × (source_of k'.endian r.frame ≡ dest_of k.endian f)
          × (dest_of k'.endian r.frame ≡ source_of k.endian f)
    answer_delivered translatable h room at_now fits free code m1 ran t steps early k' f' t' from to
          used =
        let (_, found, _, _, _, _) =
          Service.request_translated tracker exposed k first info fib_macs h in
        let left : m1.conntrack ≡ (inbound tracker exposed k first).1.conntrack =
          host_left tracker exposed k first _ code m1 translatable found ran in
        answer_kept tracker exposed k first info fib_macs translatable h room code m1 ran k'
          (machine_of tracker exposed tables t f')
          (opened-Keeps (Service.answer_key tracker exposed k first info fib_macs)
            (Service.answer_nat tracker exposed k first info fib_macs) m1.conntrack t at_now fits
            (ap (λ c. tracker.get c (Service.answer_key tracker exposed k first info fib_macs)) left
              ∙ Service.answer_awaited tracker exposed k first info fib_macs h room)
            free steps early)
          t' from to used
