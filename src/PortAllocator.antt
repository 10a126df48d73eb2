-- ===== src/PortAllocator.antt =====
-- The host ports that are free to be exposed: xdp-natd/src/port_allocator.rs.
pub mod Queue
pub mod Partition
use xdp_natd.Base.{ℕ, zero, suc, ◌-◌, Option, none, some, List, [], ◌∷◌, ◌++◌}

-- A `VecDeque`, its front first.
pub record PortAllocator : Type 0 where
  pub ports : List ℕ

abbrev pub count_up : ℕ → ℕ → List ℕ
count_up first zero = []
count_up first (suc n) = first ∷ count_up (suc first) n

-- `PortAllocator::new(lower..=upper)`.
abbrev pub new : ℕ → ℕ → PortAllocator
new lower upper = record { ports = count_up lower (suc upper - lower) }

abbrev pop_front : List ℕ → Option ℕ × PortAllocator
pop_front [] = (none, record { ports = [] })
pop_front (port ∷ rest) = (some port, record { ports = rest })

unfoldable pub allocate_next : PortAllocator → Option ℕ × PortAllocator
allocate_next a = pop_front a.ports

unfoldable pub deallocate : PortAllocator → ℕ → PortAllocator
deallocate a port = record { ports = a.ports ++ port ∷ [] }
