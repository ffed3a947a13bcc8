-- ===== src/Networking.antt =====
-- network/network.go, and GenericNetwork of generic.go: a network with options, and a container's
-- request that is attached to one.
use testcontainers_go.Base.{
  String, =s_iff, true, false, Option, none, some, List, [], ◌∷◌, ◌++◌, ◌≡◌, refl, M,
}
use testcontainers_go.Base.Dict.{Dict, insert, insert_all, lookup, lookup-insert}
use testcontainers_go.Errors.{Error, wrap, followed, Result, ok, err}
use testcontainers_go.Errors.Flow.{Try, and_then, ◌>>=◌, ◌>>◌, done, wrapped, checked, mapped_error}
use testcontainers_go.Labels.{default_labels}
use testcontainers_go.Provider.{NetworkOptions, NetworkRequest, bridge}
use testcontainers_go.Request.{ContainerRequest}

-- A `NetworkCustomizer`.
abbrev pub Customize : Type 0 → Type 0
Customize I = NetworkOptions I → Result (NetworkOptions I)

unfoldable pub with_attachable : {I : Type 0} → Customize I
with_attachable o = ok (record o { attachable = true })

unfoldable pub with_check_duplicate : {I : Type 0} → Customize I
with_check_duplicate o = ok o

unfoldable pub with_driver : {I : Type 0} → String → Customize I
with_driver driver o = ok (record o { driver = driver })

unfoldable pub with_enable_ipv6 : {I : Type 0} → Customize I
with_enable_ipv6 o = ok (record o { enable_ipv6 = some true })

unfoldable pub with_internal : {I : Type 0} → Customize I
with_internal o = ok (record o { internal = true })

unfoldable pub with_network_labels : {I : Type 0} → Dict String → Customize I
unfolding insert_all
with_network_labels labels o = ok (record o { labels = insert_all labels o.labels })

unfoldable pub with_ipam : {I : Type 0} → Option I → Customize I
with_ipam ipam o = ok (record o { ipam = ipam })

unfoldable pub customized_or :
    {I : Type 0}
    → Result (NetworkOptions I)
    → (NetworkOptions I → Result (NetworkOptions I))
    → Result (NetworkOptions I)
customized_or (err e) rest = err e
customized_or (ok o) rest = rest o

-- The loop over the options.
unfoldable pub customize_all : {I : Type 0} → List (Customize I) → Customize I
unfolding customized_or
customize_all [] o = ok o
customize_all (c ∷ cs) o = customized_or (c o) (λ u. customize_all cs u)

-- What the network is created by: a provider, and random names.
pub record Creator (I Network W : Type 0) : Type 0 where
  pub get_provider : M W (Option Error)
  pub create_network : NetworkRequest I → Try W Network
  pub new_name : W → String × W
  pub name_of : Network → String

unfoldable pub default_options : {I : Type 0} → String → NetworkOptions I
unfolding default_labels
default_options session_id = record {
  driver = bridge;
  internal = false;
  enable_ipv6 = none;
  attachable = false;
  labels = default_labels session_id;
  ipam = none;
}

unfoldable pub request_named : {I : Type 0} → NetworkOptions I → String → NetworkRequest I
request_named o name = record {
  driver = o.driver;
  internal = o.internal;
  enable_ipv6 = o.enable_ipv6;
  name = name;
  labels = o.labels;
  attachable = o.attachable;
  ipam = o.ipam;
}

-- `WithNetwork`, on the name of the network.
unfoldable pub with_existing_network :
    {A R F : Type 0} → List String → String → ContainerRequest A R F → ContainerRequest A R F
unfolding insert
with_existing_network aliases name req = record req {
  networks = req.networks ++ name ∷ [];
  network_aliases = insert name aliases req.network_aliases;
}

module _ {I Network W : Type 0} (C : Creator I Network W) (session_id : String) where
  -- `GenericNetwork`
  unfoldable pub generic_network : NetworkRequest I → Try W Network
  unfolding ◌>>◌ and_then wrapped checked
  generic_network req =
      checked C.get_provider
      >> wrapped (λ e. followed e "failed to create network") (C.create_network req)

  unfoldable pub new_network_of : Result (NetworkOptions I) → Try W Network
  unfolding generic_network request_named
  new_network_of (err e) w = (err e, w)
  new_network_of (ok o) w = let (name, v) = C.new_name w in generic_network (request_named o name) v

  -- `New`
  unfoldable pub new_network : List (Customize I) → Try W Network
  unfolding new_network_of customize_all default_options
  new_network opts = new_network_of (customize_all opts (default_options session_id))

  -- `WithNewNetwork`
  unfoldable pub with_new_network :
      {A R F : Type 0}
      → List String
      → List (Customize I)
      → ContainerRequest A R F
      → Try W (ContainerRequest A R F)
  unfolding ◌>>=◌ and_then wrapped new_network with_existing_network
  with_new_network aliases opts req = do
    n ← wrapped (wrap "new network") (new_network opts)
    done (with_existing_network aliases (C.name_of n) req)

  -- A request that is attached to a new network names it last, under the aliases, and one whose
  -- network cannot be created fails with the error of its creation.
  abbrev pub Attached :
      {A R F : Type 0}
      → List String
      → ContainerRequest A R F
      → Result Network × W
      → Result (ContainerRequest A R F) × W
      → Type 0
  Attached aliases req (err e, w) (r, v) = (r ≡ err (wrap "new network" e)) × (v ≡ w)
  Attached aliases req (ok n, w) (err e, v) = ⊥
  Attached aliases req (ok n, w) (ok req', v) =
      (v ≡ w)
      × (req'.networks ≡ req.networks ++ C.name_of n ∷ [])
      × (lookup (C.name_of n) req'.network_aliases ≡ some aliases)

  new_network-Attached :
      {A R F : Type 0} (aliases : List String) (req : ContainerRequest A R F)
      (r : Result Network × W)
      → Attached aliases req r (
          and_then
            (mapped_error (wrap "new network") r.0, r.1)
            (λ n. done (with_existing_network aliases (C.name_of n) req)))
  unfolding and_then mapped_error with_existing_network
  new_network-Attached aliases req (err e, w) = (refl, refl)
  new_network-Attached aliases req (ok n, w) = (
    refl,
    refl,
    (rw
        (
          lookup-insert (C.name_of n) (C.name_of n) aliases req.network_aliases,
          (=s_iff (C.name_of n) (C.name_of n)).1 refl,
        )
        refl),
  )

  with_new_network_lem :
      {A R F : Type 0} (aliases : List String) (opts : List (Customize I))
      (req : ContainerRequest A R F) (w : W)
      → Attached aliases req (new_network opts w) (with_new_network aliases opts req w)
  unfolding with_new_network ◌>>=◌ wrapped
  with_new_network_lem aliases opts req w = new_network-Attached aliases req (new_network opts w)
