-- ===== src/Provider/Reaping.antt =====
-- docker.go: the provider's part of the cleaning, the signal that ends a connection to the reaper,
-- and the networks that the provider creates and removes.
pub mod Signals
use testcontainers_go.Base.{
  String, Bool, true, false, not, Option, none, some, List, [], ◌∷◌, if◌then◌else◌, M,
}
use testcontainers_go.Base.Dict.{Dict, insert_all}
use testcontainers_go.Errors.{Error, followed, Result, ok, err}
use testcontainers_go.Errors.Flow.{
  Try, and_then, ◌>>=◌, ◌>>◌, done, fail, wrapped, mapped_error, finally, on_error, undone,
}
use testcontainers_go.Provider.{
  DockerProvider, Daemon, NetworkRequest, NetworkOptions, Live, outside, at_world,
  ensure_default_network,
}

-- `reuseOrCreateReaper` and `Connect` of reaper.go, where `Signal` is the type of the channels that
-- end a connection, and the send on one.
pub record Reaping (Ctx Reaper Signal W : Type 0) : Type 0 where
  pub reuse_or_create_reaper : Ctx → Try (Live W) Reaper
  pub connect : Reaper → Try (Live W) Signal
  pub send : Signal → W → W
  pub try_send : Signal → W → W

pub record DockerNetwork (Signal : Type 0) : Type 0 where
  pub id : String
  pub driver : String
  pub name : String
  pub termination_signal : Option Signal

module _ {Ctx Reaper Signal W : Type 0} (R : Reaping Ctx Reaper Signal W) where
  -- What is made of the errors of the two calls is told by their callers.
  unfoldable pub connected : Ctx → (Error → Error) → (Error → Error) → Try (Live W) (Option Signal)
  unfolding ◌>>=◌ wrapped
  connected ctx f g = do
    r ← wrapped f (R.reuse_or_create_reaper ctx)
    s ← wrapped g (R.connect r)
    done (some s)

  -- `if termSignal != nil { termSignal <- true }`
  unfoldable pub send_signal : Option Signal → Live W → Live W
  unfolding at_world
  send_signal none l = l
  send_signal (some s) l = at_world (R.send s) l

  unfoldable pub try_signal : Option Signal → Live W → Live W
  unfolding at_world
  try_signal none l = l
  try_signal (some s) l = at_world (R.try_send s) l

  module _ {I : Type 0} (D : Daemon Ctx I W) (default_labels : Dict String) where
    unfoldable pub network_options : NetworkRequest I → NetworkOptions I
    unfolding insert_all
    network_options req = record {
      driver = req.driver;
      internal = req.internal;
      enable_ipv6 = req.enable_ipv6;
      attachable = req.attachable;
      labels = insert_all default_labels req.labels;
      ipam = req.ipam;
    }

    unfoldable pub network_created :
        Ctx → NetworkRequest I → Option Signal → Try (Live W) (DockerNetwork Signal)
    unfolding ◌>>=◌ outside network_options
    network_created ctx req signal = do
      id ← outside (D.network_create ctx req.name (network_options req))
      done (record { id = id; driver = req.driver; name = req.name; termination_signal = signal })

    unfoldable pub network_signal : Ctx → Try (Live W) (Option Signal)
    unfolding connected
    network_signal ctx l =
        if not l.0.ryuk_disabled
        then connected ctx (λ e. followed e "creating network reaper failed")
            (λ e. followed e "connecting to network reaper failed") l
        else (ok none, l)

    -- An error of the daemon comes with an empty network, which is left out.
    unfoldable pub create_network : Ctx → NetworkRequest I → Try (Live W) (DockerNetwork Signal)
    unfolding ◌>>=◌ ◌>>◌ finally at_world ensure_default_network network_signal on_error send_signal
        network_created
    create_network ctx req = finally (at_world D.close) (do
      ensure_default_network D default_labels ctx
      signal ← network_signal ctx
      on_error (send_signal signal) (network_created ctx req signal))

    -- `(*DockerNetwork).Remove`
    unfoldable pub remove_network : Ctx → DockerNetwork Signal → M (Live W) (Option Error)
    unfolding try_signal outside at_world
    remove_network ctx n l =
        let (e, l') = outside (D.network_remove ctx n.id) (try_signal n.termination_signal l) in
        (e, at_world D.close l')
