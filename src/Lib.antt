-- ===== src/Lib.antt =====
-- Testcontainers for Go: the core of the library that starts, awaits and stops containers.
--
-- The program. A caller describes a container by a ContainerRequest (container.go), which is
-- validated before it is used. A provider (docker.go) turns it into a container of the daemon whose
-- address internal/core finds, with the configuration that internal/config reads; mounts are mapped
-- on the way (mounts.go, docker_mounts.go). Around each operation on the container its lifecycle
-- hooks run (lifecycle.go), and one of them waits until the container is ready, by the wait
-- strategies (wait/).
--
-- The files, each named after the code that it models:
--   Base        the shared names, lists, texts, association lists and a state monad
--   Errors      Go's errors: errors.New, fmt.Errorf with %w, errors.Join, errors.Is
--   Clock       contexts with deadlines, and the timers of the runtime as an interface
--   Wait        wait/: Target (wait.go), Poll (the select loop), Port (the loop for a mapped port),
--               Exec, Exit, Health, File, Log, HostPort, Http, Sql, Nop, All (the group)
--   Lifecycle   lifecycle.go: hooks, their combination, how they are run
--   Mounts      mounts.go and docker_mounts.go: mapToDockerMounts
--   Request     container.go: ContainerRequest and Validate; defaultHostConfigModifier
--   Config      internal/config/config.go: read
--   Hosts       internal/core/docker_host.go and docker_rootless.go
--   Options     options.go: image names, commands, wait strategies; their loop in CreateContainer
--   Generic     generic.go: GenericContainer over a provider
--   Container   docker.go: Start, Stop and Terminate, with the hooks of each stage
--   Ports       docker.go: MappedPort, Endpoint; lifecycle.go: checkPortsMapped, mergePortBindings
--   Parallel    parallel.go: the workers, as a step relation
--   Dockerfile  internal/core/images.go: the images that a Dockerfile names
--   Inspection  docker.go: Name, State, Networks, ContainerIP, ContainerIPs, NetworkAliases
--   Archive     file.go: isDir, tarDir, tarFile; docker.go: the copies into a container
--   Exec        exec/processor.go; docker.go: Exec, its options and the loop for the exit code
--   Logs        docker.go: the frames of startLogProduction, the lines of Logs, and Production, the
--               goroutine and the stop of stopLogProduction as a step relation
--   Auth        docker_auth.go: Lookups (the goroutines of getDockerAuthConfigs as a step relation) and
--               Images (the registry and the credentials of an image)
--   Modules     modules/postgres: its options, Run, Snapshot and Restore
--   Build       container.go: the Dockerfile and the context of a build; Options (BuildOptions)
--   Labels      internal/core/labels.go
--   Session     internal/core/bootstrap.go
--   Client      docker_client.go, internal/core/client.go: the options of a client, and Info
--   Choice      provider.go: GetProvider, NewDockerProvider; logger.go: WithLogger
--   Networking  network/network.go: New and its options; generic.go: GenericNetwork
--   PortForwarding  port_forwarding.go and internal/core/network; Tunnels (the forwarders and
--               exposeHostPort as a step relation)
--   Provider    docker.go: the provider, its networks and its host; Reaping (CreateNetwork and the
--               signal to the reaper), Images (BuildImage, attemptToPullImage), Creation and Runs
--               (CreateContainer), Reuse (ReuseOrCreateContainer, RunContainer), Connections (how
--               many are open to the reaper); lifecycle.go: Hooks (the default ones), PreCreate
--   Reaper      reaper.go: reuseOrCreateReaper and what it calls; Requests (the request of a reaper
--               and its look-up) and Connecting (Connect, and the search after a conflict of names)
--   Tests       the theorems at concrete inputs
--
-- State. Code that acts on the world is a function from a world W to a result and a world, where W
-- is any type: the daemon, the timers and the file system are records or functions over W, given as
-- parameters, so that a theorem holds for whatever they do. A nil error is `none`. A function named
-- fooBar in Go is foo_bar here, and WaitUntilReady of a strategy is exec_wait, health_wait and so on.
--
-- Fuel. A loop without a bound takes a number of rounds and returns `none` where they do not
-- suffice. The frames of a log take a round each, and one for the end; so do its lines. Each look of
-- Exec at its command takes one, and so does each look-up after a conflict of names. A round of a strategy lets one polling interval pass, as the
-- interface IsClock says of the timers, so that the rounds needed are bounded by the timeout divided
-- by the interval.
--
-- Numbers. Durations are natural numbers of nanoseconds: a negative timeout is not modelled, nor is
-- the overflow of a duration. Exit codes and statuses are natural numbers. A Go map that is
-- iterated is a list in the order of the iteration, over which the theorems quantify.
--
-- Not modelled: the Docker client, the SSH tunnels once they are connected, the other modules and the
-- generator, which are input and output or glue; the reading of a file out of a container; the
-- caches of internal/config and of the docker socket, which are a sync.Once around the modelled functions.
pub mod Base
pub mod Errors
pub mod Clock
pub mod Wait
pub mod Lifecycle
pub mod Mounts
pub mod Request
pub mod Config
pub mod Hosts
pub mod Options
pub mod Generic
pub mod Container
pub mod Ports
pub mod Parallel
pub mod Logs
pub mod Provider
pub mod Reaper
pub mod Dockerfile
pub mod Exec
pub mod Inspection
pub mod Archive
pub mod Auth
pub mod Labels
pub mod Session
pub mod Client
pub mod Choice
pub mod Networking
pub mod Build
pub mod PortForwarding
pub mod Modules
mod Tests
