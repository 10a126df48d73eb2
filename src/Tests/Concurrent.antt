-- ===== src/Tests/Concurrent.antt =====
-- Two processors with packets of one flow, and the two directions of a flow at once.
use xdp_natd.Base.{
  ℕ, ◌≡◌, ◌≢◌, refl, Option, Bool, some, none, arith, false, true, ℕ_discrete, [], ◌∷◌,
}
use xdp_natd.Common.{
  ConnectionTuple, ConnectionTuple-discrete, FlowState, connection_tuple, nat_data, original, reply,
}
use xdp_natd.Word.{be16, be32}
use xdp_natd.Rewrite.{snat_frame}
use xdp_natd.Flow.{refresh}
use xdp_natd.Xdp.{snat}
use xdp_natd.Concurrent.{Access, return, Translated, advance, process}
use xdp_natd.Concurrent.Processors.{
  Processors, arrival, access, set, begins, Steps, done, then, accesses_of, Along, Started, start,
  step,
}
use xdp_natd.Concurrent.Alike.{translated_alike}
use xdp_natd.Concurrent.Bounds.{IsTimely, Reachable-IsTimely}
use xdp_natd.Concurrent.LostReply.{IsNoted, IsLost, lifetime_lost}
use xdp_natd.Tests.Data.{
  Conntrack, tracker, exposed, kernel, container_ip, host_ip, remote_ip, nic, route_macs, query,
}

-- 172.17.0.2:4000 to 8.8.8.8:53, tracked in both directions.
abbrev key : ConnectionTuple
key = connection_tuple container_ip remote_ip 4000 53

abbrev reverse : ConnectionTuple
reverse = connection_tuple remote_ip host_ip 53 4000

abbrev flow : FlowState
flow = record {
  nat = nat_data host_ip 4000 route_macs 0;
  direction = original;
  seen_reply = false;
  timeout = 30_000_000_000;
}

abbrev answers : FlowState
answers = record {
  nat = nat_data container_ip 4000 route_macs container_ip;
  direction = reply;
  seen_reply = false;
  timeout = 30_000_000_000;
}

abbrev tracked : Conntrack
tracked = (key, flow) ∷ (reverse, answers) ∷ []

abbrev first_packet : Access Translated
first_packet = begins tracker exposed (kernel 0) query [] (some nic) snat

-- Both processors have a packet of the flow, after five seconds.
abbrev busy : Processors Conntrack
busy = record { conntrack = tracked; now = 5_000_000_000; running = λ i. first_packet; to_go = [] }

abbrev next : ℕ → Processors Conntrack → Processors Conntrack
next i s = record s {
  conntrack = (advance tracker s.now s.conntrack (s.running i)).0;
  running = set s.running i (advance tracker s.now s.conntrack (s.running i)).1;
}

abbrev is_some : Option FlowState → Bool
is_some none = false
is_some (some v) = true

present : {o : Option FlowState} → is_some o ≡ true → o ≢ none
present {o} h absent = cc (h, absent)

-- Processor 0 has its first access, processor 1 three, and processor 0 the rest.
abbrev after : Processors Conntrack
after = next 0 (
    next 0 (
      next 0 (
        next 0 (
          next 0 (
            next 0 (
              next 0 (
                next 0 (
                  next 0 (next 0 (next 0 (next 0 (next 1 (next 1 (next 1 (next 0 busy)))))))))))))))

interleaved : Steps tracker exposed 0 busy after
interleaved =
    then (access 0) (λ h. h)
      (then (access 1) (λ h. h)
        (then (access 1) (λ h. h)
          (then (access 1) (λ h. h)
            (then (access 0) (λ h. h)
              (then (access 0) (λ h. h)
                (then (access 0) (λ h. h)
                  (then (access 0) (λ h. h)
                    (then (access 0) (λ h. h)
                      (then (access 0) (λ h. h)
                        (then (access 0) (λ h. h)
                          (then (access 0) (λ h. h)
                            (then (access 0) (λ h. h)
                              (then (access 0) (λ h. h)
                                (then (access 0) (λ h. h)
                                  (then (access 0) (λ h. h) done)))))))))))))))

translated_alike_example :
    after.running 0 ≡ return (some flow.nat, snat_frame (kernel 0).endian flow.nat query)
unfolding interleaved accesses_of Along advance process refresh be16 be32 ConnectionTuple-discrete
    ℕ_discrete
translated_alike_example =
    translated_alike tracker exposed 0 busy after (kernel 0) query [] (some nic) snat interleaved
      flow refl (ground arith) refl
      (
        present refl,
        (
          present refl,
          (
            present refl,
            (
              present refl,
              (
                present refl,
                (
                  present refl,
                  (
                    present refl,
                    (
                      present refl,
                      (
                        present refl,
                        (
                          present refl,
                          (
                            present refl,
                            (
                              present refl,
                              (
                                present refl,
                                (present refl, (present refl, (present refl, present refl))),
                              ),
                            ),
                          ),
                        ),
                      ),
                    ),
                  ),
                ),
              ),
            ),
          ),
        ),
      )

-- No flow is tracked, and a packet comes to the first processor.
abbrev idle : Processors Conntrack
idle = record { conntrack = []; now = 0; running = λ i. return (none, query); to_go = [] }

idle-Started : Started tracker exposed idle
idle-Started = record {
  untracked = λ j. refl;
  waiting = λ i. ((none, query), refl);
  none_to_go = refl;
  in_range = ground arith;
}

Reachable-IsTimely_example :
    IsTimely tracker (next 0 (record idle { running = set idle.running 0 first_packet }))
Reachable-IsTimely_example =
    Reachable-IsTimely tracker exposed
      (next 0 (record idle { running = set idle.running 0 first_packet }))
      (step
        (step (start idle-Started)
          (arrival 0 (none, query) (kernel 0) query [] (some nic) snat refl))
        (access 0))

lifetime_lost_example :
    IsNoted tracker tracked key reverse
      (λ nat. reverse)
      (λ nat. key)
      flow
      answers
      5_000_000_000
      5_000_000_100
      (λ nat. tt)
      (λ nat. tt)
    × IsLost tracker tracked key reverse
        (λ nat. reverse)
        (λ nat. key)
        flow
        answers
        5_000_000_000
        5_000_000_100
        (λ nat. tt)
        (λ nat. tt)
unfolding ConnectionTuple-discrete ℕ_discrete
lifetime_lost_example =
    lifetime_lost tracker tracked key reverse (λ nat. reverse) (λ nat. key) flow answers
      5_000_000_000 5_000_000_100 (λ nat. tt) (λ nat. tt) (λ e. cc e) refl refl refl refl refl refl
      refl refl (ground arith) (ground arith) (ground arith)
