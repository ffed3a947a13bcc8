-- ===== src/Generic.antt =====
-- generic.go: GenericContainer, over the provider that the request names.
-- A container that a provider returns is told by a `Container`; `W` is the world.
pub mod Outcomes
use testcontainers_go.Base.{
  String, ◌=s◌, Bool, true, false, ◌&&◌, not, Option, none, some, List, [], ◌∷◌, if◌then◌else◌, M,
}
use testcontainers_go.Errors.{Error, new, wrap, Result, ok, err}

pub record GenericContainerRequest (Request : Type 0) : Type 0 where
  pub container_request : Request
  pub name : String
  pub started : Bool
  pub reuse : Bool

-- What a creation returns: an error, perhaps with a container, or a container.
pub data Created (Container : Type 0) : Type 0 where
  unsuccessful : Option Container → Error → Created Container
  created : Container → Created Container

-- The calls of the provider and of the container it made.
pub record Provider (Ctx Request Container W : Type 0) : Type 0 where
  pub get_provider : M W (Option Error)
  pub close : W → W
  pub create_container : Ctx → Request → M W (Created Container)
  pub reuse_or_create_container : Ctx → Request → M W (Created Container)
  pub is_running : Container → W → Bool
  pub start : Ctx → Container → M W (Option Error)

abbrev pub err_reuse_empty_name : String
err_reuse_empty_name = "with reuse option a container name mustn't be empty"

module _ {Ctx Request Container W : Type 0} (P : Provider Ctx Request Container W) where
  unfoldable pub start_failed : Container → Option Error × W → (Option Container × Option Error) × W
  start_failed c (none, w) = ((some c, none), w)
  start_failed c (some e, w) = ((some c, some (wrap "start container" e)), w)

  -- From the creation on; the message about the rate limit is left out.
  unfoldable pub after_creation :
      Ctx
      → GenericContainerRequest Request
      → Created Container × W
      → (Option Container × Option Error) × W
  unfolding start_failed
  after_creation ctx req (unsuccessful c e, w) = ((c, some (wrap "create container" e)), w)
  after_creation ctx req (created c, w) =
      if req.started && not (P.is_running c w)
      then start_failed c (P.start ctx c w)
      else ((some c, none), w)

  -- The provider is asked for a container, and closed at the end.
  unfoldable pub with_provider :
      Ctx
      → GenericContainerRequest Request
      → Option Error × W
      → (Option Container × Option Error) × W
  unfolding after_creation
  with_provider ctx req (some e, w) = ((none, some (wrap "get provider" e)), w)
  with_provider ctx req (none, w) =
      let (r, v) = after_creation ctx req (
        if req.reuse
        then P.reuse_or_create_container ctx req.container_request w
        else P.create_container ctx req.container_request w) in
      (r, P.close v)

  unfoldable pub generic_container :
      Ctx → GenericContainerRequest Request → M W (Option Container × Option Error)
  unfolding with_provider
  generic_container ctx req w =
      if req.reuse && (req.name =s "")
      then ((none, some (new err_reuse_empty_name)), w)
      else with_provider ctx req (P.get_provider w)
