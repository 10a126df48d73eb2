-- ===== src/Xdp/EndToEnd.antt =====
-- Flows through the whole programs: a packet out and its answer in, a request in and its answer out.
use xdp_natd.Base.{ℕ, ◌≡◌, ◌≢◌, refl, subst, ap, some}
use xdp_natd.Common.{ConnectionTuple, ContainerInfo, FibMacs, FlowState, NicInfo}
use xdp_natd.Word.{be16}
use xdp_natd.BpfMap.{BpfMap}
use xdp_natd.Rewrite.{rewrite_macs}
use xdp_natd.Rewrite.ZeroCheck.{source_of, dest_of}
use xdp_natd.Kernel.{Kernel, xdp_pass}
use xdp_natd.Xdp.{Machine, code_of, xdp_redirect_containers, xdp_redirect_host}
use xdp_natd.Xdp.Guards.{IsTranslatable}
use xdp_natd.Xdp.Later.{Later, Keeps, Later-Keeps}
use xdp_natd.Xdp.Paths.{src_ip, outbound, inbound}
use xdp_natd.Xdp.Programs.{
  addressed, host_sends, containers_sends, host_left, containers_left, containers_translated,
}
use xdp_natd.Xdp.RoundTrip
use xdp_natd.Xdp.Service

module _ {S E : Type 0} (tracker : BpfMap ConnectionTuple FlowState S)
    (exposed : BpfMap ℕ ContainerInfo E) (k : Kernel) (m : Machine S E) where
  module _ (nic : NicInfo) (fib_macs : FibMacs) where
    -- A container's translatable packet whose flow is untracked, whose UDP checksum is in use, and
    -- for which the host's device and a route are known, with addresses and ports within their
    -- widths, is redirected by entry 0 of REDIRECT_MAP with the MAC addresses of the route, from
    -- the host's address and its own port, to the destination that it had.
    pub packet_leaves :
        IsTranslatable k m.frame
        → RoundTrip.Leaves tracker exposed k m nic fib_macs
        → (m1 : Machine S E) × (xdp_redirect_containers tracker exposed k m
            ≡ some (code_of tracker exposed k m (k.redirect 0 xdp_pass), m1))
          × (m1.frame.eth ≡ rewrite_macs fib_macs m.frame.eth)
          × (source_of k.endian m1.frame ≡ (nic.nic_ip, be16 k.endian m.frame.udp.source))
          × (dest_of k.endian m1.frame ≡ dest_of k.endian m.frame)
    packet_leaves t h =
        let (found, from, to, eth) =
          RoundTrip.outbound_translated tracker exposed k m nic fib_macs h in
        (
          _,
          containers_translated tracker exposed k m _ t found,
          ap (rewrite_macs fib_macs) eth,
          from,
          to,
        )

    -- The same as below, for a table that has kept the flow of the answers.
    pub reply_kept :
        IsTranslatable k m.frame
        → RoundTrip.Leaves tracker exposed k m nic fib_macs
        → RoundTrip.Fits tracker exposed k m nic fib_macs
        → (code : ℕ) (m1 : Machine S E)
        → xdp_redirect_containers tracker exposed k m ≡ some (code, m1)
        → (k' : Kernel) (r : Machine S E)
        → Keeps tracker exposed
            (RoundTrip.back_key tracker exposed k m nic fib_macs)
            m1.conntrack
            r.conntrack
        → IsTranslatable k' r.frame
        → source_of k'.endian r.frame ≡ dest_of k.endian m.frame
        → dest_of k'.endian r.frame ≡ (nic.nic_ip, be16 k.endian m.frame.udp.source)
        → r.frame.udp.check ≢ 0
        → (r' : Machine S E) × (xdp_redirect_host tracker exposed k' r
            ≡ some (
              code_of tracker exposed k' r (k'.redirect (src_ip tracker exposed k m) xdp_pass),
              r',
            ))
          × (r'.frame.eth.dst_addr ≡ m.frame.eth.src_addr)
          × (dest_of k'.endian r'.frame ≡ source_of k.endian m.frame)
          × (source_of k'.endian r'.frame ≡ source_of k'.endian r.frame)
    unfolding rewrite_macs
    reply_kept t h room code m1 ran k' r kept t' from to used =
        let (out, _, _, _) = RoundTrip.outbound_translated tracker exposed k m nic fib_macs h in
        let left : m1.conntrack ≡ (outbound tracker exposed k m).1.conntrack =
          containers_left tracker exposed k m _ code m1 t out ran in
        let (nat, found, key, mac, aimed, same) =
          RoundTrip.reply_translated tracker exposed k m nic fib_macs h room k' r
            (subst
              (λ c.
                Keeps tracker exposed (RoundTrip.back_key tracker exposed k m nic fib_macs) c
                  r.conntrack)
              left kept)
            from to used in
        (
          addressed tracker exposed k' r nat (inbound tracker exposed k' r).1,
          host_sends tracker exposed k' r nat _ t' found key,
          mac,
          aimed,
          same,
        )

    -- A container's first packet is translatable, its flow is untracked, the host's device and a
    -- route are known, its UDP checksum is in use, addresses and ports fit their widths, and the
    -- table has room for both directions. Then, after any other packets, a translatable answer with
    -- a UDP checksum, from the first packet's destination to the host's address and the container's
    -- port, is redirected by the entry of REDIRECT_MAP for the container's address, and leaves for
    -- the container's MAC address, address and port, from the source that it had.
    pub reply_returns :
        IsTranslatable k m.frame
        → RoundTrip.Leaves tracker exposed k m nic fib_macs
        → RoundTrip.Fits tracker exposed k m nic fib_macs
        → (code : ℕ) (m1 : Machine S E)
        → xdp_redirect_containers tracker exposed k m ≡ some (code, m1)
        → (k' : Kernel) (r : Machine S E) → Later tracker exposed m1.conntrack r.conntrack
        → IsTranslatable k' r.frame
        → source_of k'.endian r.frame ≡ dest_of k.endian m.frame
        → dest_of k'.endian r.frame ≡ (nic.nic_ip, be16 k.endian m.frame.udp.source)
        → r.frame.udp.check ≢ 0
        → (r' : Machine S E) × (xdp_redirect_host tracker exposed k' r
            ≡ some (
              code_of tracker exposed k' r (k'.redirect (src_ip tracker exposed k m) xdp_pass),
              r',
            ))
          × (r'.frame.eth.dst_addr ≡ m.frame.eth.src_addr)
          × (dest_of k'.endian r'.frame ≡ source_of k.endian m.frame)
          × (source_of k'.endian r'.frame ≡ source_of k'.endian r.frame)
    reply_returns t h room code m1 ran k' r later =
        reply_kept t h room code m1 ran k' r
          (Later-Keeps tracker exposed (RoundTrip.back_key tracker exposed k m nic fib_macs) later)

  module _ (info : ContainerInfo) (fib_macs : FibMacs) where
    -- A translatable packet to an exposed port, whose flow is untracked, for which a route back is
    -- known, whose UDP checksum is in use and whose addresses and ports, like the container's, fit
    -- their widths, is redirected by the entry of REDIRECT_MAP for the container's address, to the
    -- container's MAC address, address and port, from the source that it had.
    pub request_delivered :
        IsTranslatable k m.frame
        → Service.Arrives tracker exposed k m info fib_macs
        → (m1 : Machine S E) × (xdp_redirect_host tracker exposed k m
            ≡ some (code_of tracker exposed k m (k.redirect info.container_ip xdp_pass), m1))
          × (m1.frame.eth.dst_addr ≡ info.container_mac)
          × (dest_of k.endian m1.frame ≡ (info.container_ip, info.container_port))
          × (source_of k.endian m1.frame ≡ source_of k.endian m.frame)
    unfolding rewrite_macs
    request_delivered t h =
        let (nat, found, key, mac, aimed, kept) =
          Service.request_translated tracker exposed k m info fib_macs h in
        (
          addressed tracker exposed k m nat (inbound tracker exposed k m).1,
          host_sends tracker exposed k m nat _ t found key,
          mac,
          aimed,
          kept,
        )

    -- The same as below, for a table that has kept the flow of the answers.
    pub answer_kept :
        IsTranslatable k m.frame
        → Service.Arrives tracker exposed k m info fib_macs
        → Service.Fits tracker exposed k m info fib_macs
        → (code : ℕ) (m1 : Machine S E) → xdp_redirect_host tracker exposed k m ≡ some (code, m1)
        → (k' : Kernel) (r : Machine S E)
        → Keeps tracker exposed
            (Service.answer_key tracker exposed k m info fib_macs)
            m1.conntrack
            r.conntrack
        → IsTranslatable k' r.frame
        → source_of k'.endian r.frame ≡ (info.container_ip, info.container_port)
        → dest_of k'.endian r.frame ≡ source_of k.endian m.frame
        → r.frame.udp.check ≢ 0
        → (r' : Machine S E) × (xdp_redirect_containers tracker exposed k' r
            ≡ some (code_of tracker exposed k' r (k'.redirect 0 xdp_pass), r'))
          × (r'.frame.eth.dst_addr ≡ fib_macs.fib_dmac)
          × (source_of k'.endian r'.frame ≡ dest_of k.endian m.frame)
          × (dest_of k'.endian r'.frame ≡ source_of k.endian m.frame)
    unfolding rewrite_macs
    answer_kept t h room code m1 ran k' r kept t' from to used =
        let (_, found, _, _, _, _) =
          Service.request_translated tracker exposed k m info fib_macs h in
        let left : m1.conntrack ≡ (inbound tracker exposed k m).1.conntrack =
          host_left tracker exposed k m _ code m1 t found ran in
        let (nat, found', key, macs, sent, aimed) =
          Service.answer_translated tracker exposed k m info fib_macs h room k' r
            (subst
              (λ c.
                Keeps tracker exposed (Service.answer_key tracker exposed k m info fib_macs) c
                  r.conntrack)
              left kept)
            from to used in
        (
          addressed tracker exposed k' r nat (outbound tracker exposed k' r).1,
          containers_sends tracker exposed k' r nat _ t' found' key,
          rw macs refl,
          sent,
          aimed,
        )

    -- A request to an exposed port is translatable, its flow is untracked, a route back is known,
    -- its UDP checksum is in use, addresses and ports fit their widths, and the table has room for
    -- both directions. Then, after any other packets, the container's translatable answer with a
    -- UDP checksum, from its exposed address and port to the source of the request, is redirected
    -- by entry 0 of REDIRECT_MAP along the route back, and leaves from the address and port that
    -- the request was sent to, for its source.
    pub answer_returns :
        IsTranslatable k m.frame
        → Service.Arrives tracker exposed k m info fib_macs
        → Service.Fits tracker exposed k m info fib_macs
        → (code : ℕ) (m1 : Machine S E) → xdp_redirect_host tracker exposed k m ≡ some (code, m1)
        → (k' : Kernel) (r : Machine S E) → Later tracker exposed m1.conntrack r.conntrack
        → IsTranslatable k' r.frame
        → source_of k'.endian r.frame ≡ (info.container_ip, info.container_port)
        → dest_of k'.endian r.frame ≡ source_of k.endian m.frame
        → r.frame.udp.check ≢ 0
        → (r' : Machine S E) × (xdp_redirect_containers tracker exposed k' r
            ≡ some (code_of tracker exposed k' r (k'.redirect 0 xdp_pass), r'))
          × (r'.frame.eth.dst_addr ≡ fib_macs.fib_dmac)
          × (source_of k'.endian r'.frame ≡ dest_of k.endian m.frame)
          × (dest_of k'.endian r'.frame ≡ source_of k.endian m.frame)
    answer_returns t h room code m1 ran k' r later =
        answer_kept t h room code m1 ran k' r
          (Later-Keeps tracker exposed (Service.answer_key tracker exposed k m info fib_macs) later)
