-- ===== src/Containers/Keyed.antt =====
-- Containers under their own addresses.
use xdp_natd.Base.{ℕ, ◌≡◌, ◌≢◌, refl, some, none, [], ◌∷◌, arith}
use xdp_natd.Containers.{ContainerMetadata, ContainerMap, get, insert}

-- Each container stands under its own address, once, as get_containers inserts it.
abbrev pub Keyed : ContainerMap → Type 0
Keyed [] = Unit
Keyed ((j, c) ∷ rest) = (c.ipv4_address ≡ j) × (get rest j ≡ none) × Keyed rest

pub get-insert :
    (metas : ContainerMap) (ip : ℕ) (c : ContainerMetadata) → get (insert metas ip c) ip ≡ some c
get-insert [] ip c = ground arith
get-insert ((j, d) ∷ rest) ip c = ground (arith, get-insert rest ip c)

pub get-insert_ne :
    (metas : ContainerMap) (j ip : ℕ) (c : ContainerMetadata)
    → j ≢ ip
    → get (insert metas ip c) j ≡ get metas j
get-insert_ne [] j ip c ne = ground arith
get-insert_ne ((i, d) ∷ rest) j ip c ne = ground (arith, get-insert_ne rest j ip c ne)

pub insert-Keyed :
    (metas : ContainerMap) (c : ContainerMetadata)
    → Keyed metas
    → Keyed (insert metas c.ipv4_address c)
insert-Keyed [] c keyed = (refl, refl, tt)
insert-Keyed ((j, d) ∷ rest) c (own, apart, keyed) =
    ground (arith, insert-Keyed rest c keyed, get-insert_ne rest j c.ipv4_address c)
