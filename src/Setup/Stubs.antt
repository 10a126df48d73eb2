-- ===== src/Setup/Stubs.antt =====
-- attach_namespace_pass_programs of xdp-natd/src/main.rs: a thread for each container with a process,
-- which attaches the stub inside the container's network namespace. The threads hold one lock from
-- the loading to the end, so they run one after the other, in the order in which they get it; a
-- thread that panics with the lock held poisons it. What the system does is a parameter.
use xdp_natd.Base.{
  ◌≡◌, refl, sym, ap, ◌∙◌, Bool, true, false, not, none, some, List, [], ◌∷◌, ◌++◌, if◌then◌else◌,
  arith,
}
use xdp_natd.Containers.{ContainerMetadata, ℤ}
use xdp_natd.Setup.{XdpFlags}

-- `program.load()`: a program that is loaded already is no failure.
pub data Loading : Type 0 where
  loaded already_loaded failed : Loading

-- The namespace of a process; `L` is the state of the loader.
pub record Namespaces (L : Type 0) : Type 0 where
  pub opens : ℤ → Bool
  pub load_stub : L → Loading × L
  pub setns : ℤ → Bool
  pub attach_eth0 : ℤ → XdpFlags → L → Bool × L

-- `Mutex<Ebpf>`.
pub record Guarded (L : Type 0) : Type 0 where
  pub poisoned : Bool
  pub ebpf : L

module _ {L : Type 0} (namespaces : Namespaces L) (mode : XdpFlags) where
  -- With the program loaded: a failure panics.
  enter : ℤ → L → Guarded L
  enter pid l =
      let (attached, l') = namespaces.attach_eth0 pid mode l in
      if namespaces.setns pid
      then record { poisoned = not attached; ebpf = l' }
      else record { poisoned = true; ebpf = l }

  after_load : ℤ → Loading × L → Guarded L
  unfolding enter
  after_load pid (loaded, l) = enter pid l
  after_load pid (already_loaded, l) = enter pid l
  after_load pid (failed, l) = record { poisoned = true; ebpf = l }

  -- One thread. The file is opened before the lock is taken; a poisoned lock panics at once.
  pub attach_stub : ℤ → Guarded L → Guarded L
  unfolding after_load
  attach_stub pid g =
      if not (namespaces.opens pid)
      then g
      else if g.poisoned
      then g
      else after_load pid (namespaces.load_stub g.ebpf)

  pub attach_stubs : List ContainerMetadata → Guarded L → Guarded L
  unfolding attach_stub
  attach_stubs [] g = g
  attach_stubs (container ∷ rest) g =
      attach_stubs rest (elim container.pid [ none ↦ g | some pid ↦ attach_stub pid g ])

  attach_stubs-poisoned :
      (containers : List ContainerMetadata) (g : Guarded L)
      → g.poisoned ≡ true
      → attach_stubs containers g ≡ g
  unfolding attach_stubs
  attach_stubs-poisoned [] g h = refl
  attach_stubs-poisoned (container ∷ rest) g h = ground (arith, attach_stubs-poisoned rest g h)

  attach_stubs-append :
      (xs ys : List ContainerMetadata) (g : Guarded L)
      → attach_stubs (xs ++ ys) g ≡ attach_stubs ys (attach_stubs xs g)
  unfolding attach_stubs
  attach_stubs-append [] ys g = refl
  attach_stubs-append (x ∷ xs) ys g = attach_stubs-append xs ys _

  poisons :
      (pid : ℤ) (g : Guarded L)
      → namespaces.opens pid ≡ true
      → namespaces.setns pid ≡ false
      → (attach_stub pid g).poisoned ≡ true
  unfolding attach_stub after_load enter
  poisons pid g opened refused = ground arith

  stops_here :
      (after : List ContainerMetadata) (container : ContainerMetadata) (pid : ℤ) (g : Guarded L)
      → container.pid ≡ some pid
      → namespaces.opens pid ≡ true
      → namespaces.setns pid ≡ false
      → attach_stubs (container ∷ after) g ≡ attach_stub pid g
  unfolding attach_stubs
  stops_here after container pid g has_pid opened refused =
      rw has_pid (attach_stubs-poisoned after (attach_stub pid g) (poisons pid g opened refused))

  -- If one container's namespace opens but cannot be entered, then the threads that take the lock
  -- later do nothing: all ends as if their containers were not there, with the lock poisoned.
  pub attach_stubs-stop :
      (before after : List ContainerMetadata) (container : ContainerMetadata) (pid : ℤ)
      (g : Guarded L)
      → container.pid ≡ some pid
      → namespaces.opens pid ≡ true
      → namespaces.setns pid ≡ false
      → (attach_stubs (before ++ container ∷ after) g ≡ attach_stubs (before ++ container ∷ []) g)
        × ((attach_stubs (before ++ container ∷ after) g).poisoned ≡ true)
  attach_stubs-stop before after container pid g has_pid opened refused = (
    ends after ∙ sym (ends []),
    ap (λ (r : Guarded L). r.poisoned) (ends after)
        ∙ poisons pid (attach_stubs before g) opened refused,
  )
    where
      ends :
          (rest : List ContainerMetadata)
          → attach_stubs (before ++ container ∷ rest) g ≡ attach_stub pid (attach_stubs before g)
      ends rest =
          attach_stubs-append before (container ∷ rest) g
          ∙ stops_here rest container pid (attach_stubs before g) has_pid opened refused
