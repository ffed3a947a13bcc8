-- ===== src/Reaper.antt =====
-- reaper.go: the one reaper of a session, which is looked up, reused or created, and the connection
-- to it. The lock around it makes each call of reuseOrCreateReaper one step of the shared state.
pub mod Instance
pub mod Requests
pub mod Connecting
use testcontainers_go.Base.{
  ℕ, zero, suc, String, ◌<>◌, ◌=s◌, Bool, true, false, Option, none, some, List, [], ◌∷◌,
  if◌then◌else◌, M, ltb,
}
use testcontainers_go.Base.Dict.{Dict, insert}
use testcontainers_go.Errors.{Error, new, wrap, followed, Result, ok, err}
use testcontainers_go.Errors.Flow.{Try, and_then, ◌>>=◌, ◌>>◌, done, wrapped, mapped_error}
use testcontainers_go.Provider.Images.{Attempt, achieved, again}

-- `reaperInstance` and whether `reaperOnce` was done.
pub record Shared (Reaper : Type 0) : Type 0 where
  pub instance : Option Reaper
  pub once_done : Bool

-- A container that was found, and its health, "" where it has none.
pub record Found : Type 0 where
  pub id : String
  pub health : String

-- The calls of the daemon and of the container of a reaper. `retry` is the retry with its backoff,
-- `wait_for` waits for a listening port, `port_endpoint` is `PortEndpoint`, and `search_running` is the
-- search for the container that another creation made at the same time.
pub record Engine (Ctx Container Reaper W : Type 0) : Type 0 where
  pub running : Ctx → Reaper → Try W Bool
  pub is_not_found : Error → Bool
  pub container_list : Ctx → Try W (List Found)
  pub container_of : Ctx → Found → Try W Container
  pub health : Container → String
  pub id : Container → String
  pub retry : Ctx → M W (Attempt (Option Container)) → Try W (Option Container)
  pub port_endpoint : Ctx → Container → Try W String
  pub inspect_ports : Ctx → Container → Try W (List String)
  pub wait_for : Ctx → Container → String → M W (Option Error)
  pub short : String → String
  pub port_text : String → String
  pub run_container : Ctx → Try W Container
  pub is_name_conflict : Error → Bool
  pub search_running : Ctx → Try W (Option Container)
  pub reaper : String → Container → Reaper

abbrev pub healthy : String
healthy = "healthy"

abbrev pub no_healthcheck : String
no_healthcheck = "none"

module _ {Ctx Container Reaper W : Type 0} (E : Engine Ctx Container Reaper W) where
  -- A container with a bad health is looked up again.
  unfoldable pub by_health : Found → Result Container × W → Attempt (Option Container) × W
  by_health f (err e, w) = (again e, w)
  by_health f (ok c, w) =
      if E.health c =s healthy
      then (achieved (some c), w)
      else if E.health c =s no_healthcheck
      then (achieved (some c), w)
      else if E.health c =s ""
      then (achieved (some c), w)
      else (
        again (
            new (
              "container "
              <> (E.short f.id
                  <> (" is not healthy, wanted status=healthy, got status=" <> E.health c)))),
        w,
      )

  unfoldable pub looked_at : Ctx → String → Result (List Found) × W → Attempt (Option Container) × W
  unfolding by_health
  looked_at ctx session_id (err e, w) = (again e, w)
  looked_at ctx session_id (ok [], w) = (achieved none, w)
  looked_at ctx session_id (ok (f ∷ []), w) = by_health f (E.container_of ctx f w)
  looked_at ctx session_id (ok (f ∷ g ∷ fs), w) = (
    again (
        new
          ("not possible to have multiple reaper containers found for session ID " <> session_id)),
    w,
  )

  unfoldable pub look_up_reaper_container : Ctx → String → Try W (Option Container)
  unfolding looked_at
  look_up_reaper_container ctx session_id =
      E.retry ctx (λ w. looked_at ctx session_id (E.container_list ctx w))

  unfoldable pub port_failed : Container → String → Option Error × W → Result Unit × W
  port_failed c port (none, w) = (ok tt, w)
  port_failed c port (some e, w) = (
    err (
        wrap
          ("failed waiting for reaper container "
            <> (E.short (E.id c) <> (" port " <> (E.port_text port <> " to be ready"))))
          e),
    w,
  )

  unfoldable pub wait_for_ports : Ctx → Container → List String → Try W Unit
  unfolding and_then port_failed
  wait_for_ports ctx c [] w = (ok tt, w)
  wait_for_ports ctx c (p ∷ ps) w =
      and_then (port_failed c p (E.wait_for ctx c p w)) (λ u. wait_for_ports ctx c ps)

  unfoldable pub reuse_reaper_container : Ctx → Container → Try W Reaper
  unfolding ◌>>=◌ ◌>>◌ wrapped wait_for_ports
  reuse_reaper_container ctx c = do
    endpoint ← E.port_endpoint ctx c
    ports ←
        wrapped (wrap ("failed to inspect reaper container " <> E.short (E.id c)))
          (E.inspect_ports ctx c)
    wait_for_ports ctx c ports
    done (E.reaper endpoint c)

  unfoldable pub reuse_found : Ctx → Option Container → Try W Reaper
  unfolding reuse_reaper_container
  reuse_found ctx none w = (
    err (new "look up reaper container returned nil although creation failed due to name conflict"),
    w,
  )
  reuse_found ctx (some c) w = reuse_reaper_container ctx c w

  -- A creation that fails for the name of its container means that another one made it.
  unfoldable pub run_or_reuse : Ctx → Result Container × W → Result Reaper × W
  unfolding ◌>>=◌ wrapped reuse_found
  run_or_reuse ctx (ok c, w) = (do endpoint ← E.port_endpoint ctx c; done (E.reaper endpoint c)) w
  run_or_reuse ctx (err e, w) =
      if E.is_name_conflict e
      then (do
        c ←
            wrapped (wrap "look up reaper container due to name conflict failed")
              (E.search_running ctx)
        reuse_found ctx c)
          w
      else (err e, w)

  unfoldable pub new_reaper : Ctx → Try W Reaper
  unfolding run_or_reuse
  new_reaper ctx w = run_or_reuse ctx (E.run_container ctx w)

  -- What is done under `reaperOnce`, and after it.
  unfoldable pub created_once :
      Shared Reaper → Result Reaper × W → Result (Option Reaper) × (Shared Reaper × W)
  created_once s (err e, w) = (err e, (record s { once_done = false }, w))
  created_once s (ok r, w) = (ok (some r), (record s { instance = some r; once_done = true }, w))

  unfoldable pub create_once :
      Ctx → Shared Reaper → W → Result (Option Reaper) × (Shared Reaper × W)
  unfolding created_once new_reaper
  create_once ctx s w =
      if s.once_done then (ok s.instance, (s, w)) else created_once s (new_reaper ctx w)

  -- `reaperInstance, err = reuseReaperContainer(…)`: an error leaves no instance.
  unfoldable pub assign_reused :
      Shared Reaper → Result Reaper × W → Result (Option Reaper) × (Shared Reaper × W)
  assign_reused s (err e, w) = (err e, (record s { instance = none }, w))
  assign_reused s (ok r, w) = (ok (some r), (record s { instance = some r }, w))

  -- An error of the search is taken for no container.
  unfoldable pub reuse_or_create :
      Ctx
      → Shared Reaper
      → Result (Option Container) × W
      → Result (Option Reaper) × (Shared Reaper × W)
  unfolding assign_reused reuse_reaper_container create_once
  reuse_or_create ctx s (err e, w) = create_once ctx s w
  reuse_or_create ctx s (ok none, w) = create_once ctx s w
  reuse_or_create ctx s (ok (some c), w) = assign_reused s (reuse_reaper_container ctx c w)

  unfoldable pub search_and_create :
      Ctx → Ctx → String → Shared Reaper → W → Result (Option Reaper) × (Shared Reaper × W)
  unfolding reuse_or_create look_up_reaper_container
  search_and_create background ctx session_id s w =
      reuse_or_create ctx s (look_up_reaper_container background session_id w)

  -- What the state of the instance's container means.
  unfoldable pub verified :
      Ctx
      → Ctx
      → String
      → Shared Reaper
      → Reaper
      → Result Bool × W
      → Result (Option Reaper) × (Shared Reaper × W)
  unfolding search_and_create
  verified background ctx session_id s r (err e, w) =
      if E.is_not_found e
      then search_and_create background ctx session_id (record s { once_done = false }) w
      else (err e, (s, w))
  verified background ctx session_id s r (ok true, w) = (ok (some r), (s, w))
  verified background ctx session_id s r (ok false, w) =
      search_and_create background ctx session_id (record s { once_done = false }) w

  unfoldable pub from_instance :
      Ctx
      → Ctx
      → String
      → Shared Reaper
      → Option Reaper
      → W
      → Result (Option Reaper) × (Shared Reaper × W)
  unfolding search_and_create verified
  from_instance background ctx session_id s none w = search_and_create background ctx session_id s w
  from_instance background ctx session_id s (some r) w =
      verified background ctx session_id s r (E.running ctx r w)

  -- `background` is the context of the search.
  unfoldable pub reuse_or_create_reaper :
      Ctx → Ctx → String → Shared Reaper × W → Result (Option Reaper) × (Shared Reaper × W)
  unfolding from_instance
  reuse_or_create_reaper background ctx session_id (s, w) =
      from_instance background ctx session_id s s.instance w
