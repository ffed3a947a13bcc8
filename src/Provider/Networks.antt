-- ===== src/Provider/Networks.antt =====
-- What the provider promises of its default network and of the host of its daemon.
use testcontainers_go.Base.{
  ◌≡◌, ◌≢◌, refl, sym, ◌∙◌, ap, subst, String, Bool, true, false, ◌=s◌, =s_iff, ◌||◌, not, mem_text,
  Option, none, some, List, [], ◌∷◌, if◌then◌else◌, arith, Bool-cases, inl, inr,
}
use testcontainers_go.Base.Dict.{Dict}
use testcontainers_go.Errors.{Result, ok, err}
use testcontainers_go.Errors.Flow.{and_then, ◌>>=◌, ◌>>◌, finally}
use testcontainers_go.Provider.{
  DockerProvider, NetworkOptions, Daemon, Live, reaper_default, without_bridge, default_network_of,
  get_default_network, daemon_host, overridden_host, inferred_host, host_of_scheme, cached,
  set_host_cache, outside, at_world, gateway_or_localhost, get_gateway_ip,
}

-- What the daemon documents of its networks, which `names` lists in a world: a listing gives them
-- and changes none, and one that was created is among them.
pub record IsDaemon {Ctx I W : Type 0} (D : Daemon Ctx I W) (names : W → List String) : Type 0 where
  pub listed :
      (ctx : Ctx) (w v : W) (ns : List String)
      → D.network_list ctx w ≡ (ok ns, v)
      → (ns ≡ names w) × (names v ≡ names w)
  pub created :
      (ctx : Ctx) (n id : String) (w v : W) (o : NetworkOptions I)
      → D.network_create ctx n o w ≡ (ok id, v)
      → mem_text n (names v) ≡ true

-- A network is met where the loop says so.
without_bridge-met :
    (name : String) (ns : List String) (b : Bool)
    → without_bridge name ns b ≡ none
    → mem_text name ns ≡ true
unfolding without_bridge
without_bridge-met name [] b h = ground arith
without_bridge-met name (n ∷ ns) b h =
    ground
      (arith, =s_iff n name, =s_iff name n, without_bridge-met name ns (b || (n =s reaper_default)))

without_bridge-reaper :
    (name : String) (ns : List String) (b : Bool)
    → without_bridge name ns b ≡ some true
    → (b || mem_text reaper_default ns) ≡ true
unfolding without_bridge
without_bridge-reaper name [] b h = ground (arith, h)
without_bridge-reaper name (n ∷ ns) b h = ground (
  arith,
  =s_iff reaper_default n,
  =s_iff n reaper_default,
  without_bridge-reaper name ns (b || (n =s reaper_default)),
)

module _ {Ctx I W : Type 0} (D : Daemon Ctx I W) (default_labels : Dict String)
    (names : W → List String) (K : IsDaemon D names) where
  -- The network that is returned, where one is, exists.
  abbrev pub Exists : Result String × W → Type 0
  Exists (err e, v) = Unit
  Exists (ok n, v) = mem_text n (names v) ≡ true

  created-Exists :
      (ctx : Ctx) (n : String) (o : NetworkOptions I) (w : W) (r : Result String × W)
      → D.network_create ctx n o w ≡ r
      → Exists (and_then r (λ a v. (ok n, v)))
  unfolding and_then
  created-Exists ctx n o w (err e, v) h = tt
  created-Exists ctx n o w (ok id, v) h = K.created ctx n id w v o h

  default_network_of-Exists :
      (ctx : Ctx) (name : String) (ns : List String) (w v : W) (o : Option Bool)
      → (ns ≡ names w)
      → (names v ≡ names w)
      → without_bridge name ns false ≡ o
      → Exists (default_network_of D default_labels ctx name o v)
  unfolding default_network_of ◌>>◌
  default_network_of-Exists ctx name ns w v none e k h =
      ap (mem_text name) (k ∙ sym e) ∙ without_bridge-met name ns false h
  default_network_of-Exists ctx name ns w v (some true) e k h =
      ap (mem_text reaper_default) (k ∙ sym e) ∙ without_bridge-reaper name ns false h
  default_network_of-Exists ctx name ns w v (some false) e k h =
      created-Exists ctx reaper_default _ v (D.network_create ctx reaper_default _ v) refl

  listed-Exists :
      (ctx : Ctx) (name : String) (w : W) (r : Result (List String) × W)
      → D.network_list ctx w ≡ r
      → Exists (
          and_then r
            (λ ns. default_network_of D default_labels ctx name (without_bridge name ns false)))
  unfolding and_then
  listed-Exists ctx name w (err e, v) h = tt
  listed-Exists ctx name w (ok ns, v) h =
      let k = K.listed ctx w v ns h in
      default_network_of-Exists ctx name ns w v (without_bridge name ns false) k.0 k.1 refl

  -- If the daemon lists its networks, does not change them by that, and has a network that it
  -- created, the default network that is found exists.
  pub get_default_network-exists :
      (ctx : Ctx) (p q : DockerProvider) (w v : W) (n : String)
      → get_default_network D default_labels ctx (p, w) ≡ (ok n, (q, v))
      → mem_text n (names v) ≡ true
  unfolding get_default_network outside ◌>>=◌
  get_default_network-exists ctx p q w v n h =
      subst (λ r. Exists (r.0, r.1.1)) h
        (listed-Exists ctx p.default_bridge_network_name w (D.network_list ctx w) refl)

named : (h : String) → h ≢ "" → not (h =s "") ≡ true
named h n = ground (arith, =s_iff h "")

-- A host that is returned is cached.
abbrev Cached : {W : Type 0} → Result String × Live W → Type 0
Cached (err e, l) = Unit
Cached (ok h, l) = l.0.host_cache ≡ h

module _ {Ctx I W : Type 0} (D : Daemon Ctx I W) (labels : Dict String) where
  cached-Cached : (h : String × Live W) → Cached (cached h)
  unfolding cached set_host_cache
  cached-Cached (h, l) = refl

  if-Cached :
      (b : Bool) (r s : Result String × Live W) → Cached r → Cached s → Cached (if b then r else s)
  if-Cached true r s h k = h
  if-Cached false r s h k = k

  scheme-Cached :
      (ctx : Ctx) (scheme hostname : String) (l : Live W)
      → Cached (host_of_scheme D labels ctx scheme hostname l)
  unfolding host_of_scheme
  scheme-Cached ctx scheme hostname l =
      if-Cached (mem_text scheme ("http" ∷ "https" ∷ "tcp" ∷ [])) _ _ (cached-Cached (hostname, l))
        (if-Cached (mem_text scheme ("unix" ∷ "npipe" ∷ [])) _ _
          (if-Cached (D.in_a_container l.1) _ _
            (cached-Cached (gateway_or_localhost D (get_gateway_ip D labels ctx l)))
            (cached-Cached ("localhost", l)))
          tt)

  finally-Cached : (r : Result String × Live W) → Cached r → Cached (r.0, at_world D.close r.1)
  unfolding at_world
  finally-Cached (err e, l) h = tt
  finally-Cached (ok a, (p, w)) h = h

  inferred-Cached :
      (ctx : Ctx) (u : Result (String × String)) (l : Live W)
      → Cached (inferred_host D labels ctx u l)
  unfolding inferred_host finally
  inferred-Cached ctx (err e) l = tt
  inferred-Cached ctx (ok (s, h)) l =
      finally-Cached (host_of_scheme D labels ctx s h l) (scheme-Cached ctx s h l)

  overridden-Cached :
      (ctx : Ctx) (o : Option String) (l : Live W) → Cached (overridden_host D labels ctx o l)
  unfolding overridden_host
  overridden-Cached ctx none l = inferred-Cached ctx D.daemon_url l
  overridden-Cached ctx (some h) l = cached-Cached (h, l)

  daemon_host-Cached : (ctx : Ctx) (l : Live W) → Cached (daemon_host D labels ctx l)
  unfolding daemon_host
  daemon_host-Cached ctx l = elim (Bool-cases (not (l.0.host_cache =s ""))) [
    | inl e ↦ rw e refl
    | inr e ↦ rw e (overridden-Cached ctx (D.host_override l.1) l)
  ]

  -- A host of the daemon that is not empty is cached: the next call returns it and changes
  -- nothing.
  pub daemon_host-cached :
      (ctx : Ctx) (l l' : Live W) (h : String)
      → daemon_host D labels ctx l ≡ (ok h, l')
      → h ≢ ""
      → daemon_host D labels ctx l' ≡ (ok h, l')
  unfolding daemon_host
  daemon_host-cached ctx l l' h e n =
      let k = subst Cached e (daemon_host-Cached ctx l) in rw k (rw (named h n) refl)
