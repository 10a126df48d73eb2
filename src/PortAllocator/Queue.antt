-- ===== src/PortAllocator/Queue.antt =====
-- The allocator as a queue.
use xdp_natd.Base.{ℕ, ◌≡◌, ap, none, some, List, [], ◌∷◌}
use xdp_natd.PortAllocator.{PortAllocator, pop_front, allocate_next}

pub allocate_next-nil :
    (a : PortAllocator) → a.ports ≡ [] → allocate_next a ≡ (none, record { ports = [] })
unfolding allocate_next
allocate_next-nil a e = ap pop_front e

pub allocate_next-cons :
    (a : PortAllocator) (port : ℕ) (rest : List ℕ)
    → a.ports ≡ port ∷ rest
    → allocate_next a ≡ (some port, record { ports = rest })
unfolding allocate_next
allocate_next-cons a port rest e = ap pop_front e
