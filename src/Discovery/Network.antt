-- ===== src/Discovery/Network.antt =====
-- What get_containers returns for a network.
use Prim.Native.String.{String}
use xdp_natd.Base.{
  ℕ, ◌≡◌, ◌≢◌, refl, sym, ◌∙◌, subst, ok, >>=-eq-ok, or_err-eq-ok, ok_inj, Option, none, some, List,
  [], ◌∷◌, In, ◌⊎◌, inl, inr, arith, ℕ_discrete,
}
use xdp_natd.Containers
use xdp_natd.Containers.{ContainerMap, ContainerMetadata}
use xdp_natd.Containers.Keyed.{Keyed, get-insert, get-insert_ne, insert-Keyed}
use xdp_natd.Discovery.{
  NetworkContainer, Docker, docker_failed, add_container, add_containers, add_network,
  get_containers,
}
use xdp_natd.Discovery.Found.{IsRead, IsSilent, Adds, add_container-Adds}

module _ (docker : Docker) where
  -- A container that is found, unless one that is read later has its address, or prints nothing.
  abbrev pub IsAccounted : ContainerMap → String × NetworkContainer → Type 0
  IsAccounted metas container =
      IsSilent docker container
      ⊎ ((c : ContainerMetadata) × IsRead docker container c
          × (Containers.get metas c.ipv4_address ≢ none))

  -- Each container that is found is one of the network, under its own address, and each of the
  -- network is accounted for.
  pub record Finds (on_network seen : List (String × NetworkContainer)) (metas : ContainerMap)
      : Type 0 where
    pub keyed : Keyed metas
    pub from :
        (ip : ℕ) (c : ContainerMetadata)
        → Containers.get metas ip ≡ some c
        → (container : String × NetworkContainer) × In container on_network
          × IsRead docker container c
    pub all :
        (container : String × NetworkContainer) → In container seen → IsAccounted metas container

  insert_present :
      (metas : ContainerMap) (c : ContainerMetadata) (ip : ℕ)
      → Containers.get metas ip ≢ none
      → Containers.get (Containers.insert metas c.ipv4_address c) ip ≢ none
  insert_present metas c ip there gone = elim (ℕ_discrete ip c.ipv4_address) [
    | yes own ↦ absurd (cc (own, gone, get-insert metas c.ipv4_address c))
    | no ne ↦ there (sym (get-insert_ne metas ip c.ipv4_address c ne) ∙ gone)
  ]

  insert-IsAccounted :
      (metas : ContainerMap) (c : ContainerMetadata) (container : String × NetworkContainer)
      → IsAccounted metas container
      → IsAccounted (Containers.insert metas c.ipv4_address c) container
  insert-IsAccounted metas c container (inl silent) = inl silent
  insert-IsAccounted metas c container (inr (c', read, there)) =
      inr (c', read, insert_present metas c c'.ipv4_address there)

  module _ (on_network : List (String × NetworkContainer)) where
    insert-Finds :
        (seen : List (String × NetworkContainer)) (metas : ContainerMap)
        (container : String × NetworkContainer) (c : ContainerMetadata)
        → In container on_network
        → IsRead docker container c
        → Finds on_network seen metas
        → Finds on_network (container ∷ seen) (Containers.insert metas c.ipv4_address c)
    insert-Finds seen metas container c i read f = record {
      keyed = insert-Keyed metas c f.keyed;
      from = λ ip c' h. elim (ℕ_discrete ip c.ipv4_address) [
        | yes own ↦ (
          container,
          i,
          subst (IsRead docker container) (cc (own, h, get-insert metas c.ipv4_address c)) read,
        )
        | no ne ↦ f.from ip c' (sym (get-insert_ne metas ip c.ipv4_address c ne) ∙ h)
      ];
      all = λ other j. elim j [
        | inl own ↦ inr (
          c,
          subst (λ k. IsRead docker k c) (sym own) read,
          λ gone. cc (gone, get-insert metas c.ipv4_address c),
        )
        | inr before ↦ insert-IsAccounted metas c other (f.all other before)
      ];
    }

    Adds-Finds :
        (seen : List (String × NetworkContainer)) (metas metas' : ContainerMap)
        (container : String × NetworkContainer)
        → In container on_network
        → Finds on_network seen metas
        → Adds docker container metas metas'
        → Finds on_network (container ∷ seen) metas'
    Adds-Finds seen metas metas' container i f (inr (c, read, added)) =
        subst (Finds on_network (container ∷ seen)) (sym added)
          (insert-Finds seen metas container c i read f)
    Adds-Finds seen metas metas' container i f (inl (silent, same)) =
        subst (Finds on_network (container ∷ seen)) (sym same) (record {
          keyed = f.keyed;
          from = f.from;
          all = λ other j. elim j [
            | inl own ↦ inl (subst (IsSilent docker) (sym own) silent)
            | inr before ↦ f.all other before
          ];
        })

    -- Those of `rest` are still to be read.
    add_containers-Finds :
        (rest seen : List (String × NetworkContainer)) (metas metas' : ContainerMap)
        → ((k : String × NetworkContainer) → In k rest → In k on_network)
        → ((k : String × NetworkContainer) → In k on_network → In k seen ⊎ In k rest)
        → Finds on_network seen metas
        → add_containers docker metas rest ≡ ok metas'
        → Finds on_network on_network metas'
    unfolding add_containers
    add_containers-Finds [] seen metas metas' inside split f e =
        subst (Finds on_network on_network) (ok_inj metas metas' e) (record {
          keyed = f.keyed;
          from = f.from;
          all = λ k i. elim (split k i) [ inl before ↦ f.all k before | inr later ↦ absurd later ];
        })
    add_containers-Finds (container ∷ rest) seen metas metas' inside split f e =
        let (metas1, added, e1) = >>=-eq-ok (add_container docker metas container) _ metas' e in
        add_containers-Finds rest (container ∷ seen) metas1 metas' (λ k i. inside k (inr i))
          (λ k i. ground (arith, split k i))
          (Adds-Finds seen metas metas1 container (inside container (inl refl)) f
            (add_container-Adds docker metas metas1 container added))
          e1

  -- The containers of a network, when it can be inspected; a network may have none.
  abbrev pub listed :
      Option (Option (List (String × NetworkContainer))) → List (String × NetworkContainer)
  listed none = []
  listed (some none) = []
  listed (some (some containers)) = containers

  nothing-Finds : (on_network : List (String × NetworkContainer)) → Finds on_network [] []
  nothing-Finds on_network = record {
    keyed = tt;
    from = λ ip c h. absurd (cc h);
    all = λ k i. absurd i;
  }

  add_network-Finds :
      (info : Option (List (String × NetworkContainer))) (metas : ContainerMap)
      → add_network docker info ≡ ok metas
      → Finds (listed (some info)) (listed (some info)) metas
  add_network-Finds none metas e = subst (Finds [] []) (ok_inj [] metas e) (nothing-Finds [])
  add_network-Finds (some containers) metas e =
      add_containers-Finds containers containers [] [] metas (λ k i. i) (λ k i. inr i)
        (nothing-Finds containers) e

  -- If get_containers succeeds, each container that it returns stands under its own address, once,
  -- and is one of the network's, with the name and MAC address that the network gives it, its
  -- process, the device whose index it printed, which the host has, and the address before the
  -- prefix's length; and each container of the network either printed nothing, or was read, and
  -- then a container is found under its address.
  pub get_containers-Finds :
      (network : String) (metas : ContainerMap)
      → get_containers docker network ≡ ok metas
      → let on_network = listed (docker.inspect_network network) in
        Finds on_network on_network metas
  unfolding get_containers
  get_containers-Finds network metas e =
      let (info, inspected, e1) =
        or_err-eq-ok docker_failed (docker.inspect_network network) _ metas e in
      subst (λ o. Finds (listed o) (listed o) metas) (sym inspected)
        (add_network-Finds info metas e1)
