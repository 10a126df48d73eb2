-- ===== src/Containers.antt =====
-- ContainerMetadata and ContainerMap of xdp-natd/src/lib.rs. A `HashMap` is an association list with
-- one entry for each key.
pub mod Keyed
use Prim.Native.String.{String}
use xdp_natd.Base.{ℕ, Option, none, some, List, [], ◌∷◌, ◌==◌, if◌then◌else◌}
use xdp_natd.Common.{MacAddr}

-- An isize.
pub data ℤ : Type 0 where
  pos negsuc : ℕ → ℤ

pub record ContainerMetadata : Type 0 where
  pub name : String
  pub veth : String
  pub ipv4_address : ℕ
  pub ifindex : ℕ
  pub pid : Option ℤ
  pub mac_address : MacAddr

abbrev pub ContainerMap : Type 0
ContainerMap = List (ℕ × ContainerMetadata)

-- `HashMap::get`, `insert` and `values`.
abbrev pub get : ContainerMap → ℕ → Option ContainerMetadata
get [] ip = none
get ((j, c) ∷ rest) ip = if j == ip then some c else get rest ip

abbrev pub insert : ContainerMap → ℕ → ContainerMetadata → ContainerMap
insert [] ip c = (ip, c) ∷ []
insert ((j, d) ∷ rest) ip c = if j == ip then (ip, c) ∷ rest else (j, d) ∷ insert rest ip c

abbrev pub values : ContainerMap → List ContainerMetadata
values [] = []
values ((j, c) ∷ rest) = c ∷ values rest
