-- ===== src/Hosts/Cached.antt =====
-- internal/core/docker_host.go: the docker host, found once.
use testcontainers_go.Base.{String, Bool, true, false, Option, none, some, if◌then◌else◌, ◌≡◌, refl}
use testcontainers_go.Errors.{Result, ok, err}

-- `dockerHostOnce` and `dockerHostCache`.
pub record HostCache : Type 0 where
  pub once_done : Bool
  pub docker_host : String

abbrev pub no_host : HostCache
no_host = record { once_done = false; docker_host = "" }

-- `sync.Once` counts a function that panics as done, and leaves the text as it was.
unfoldable pub extracted_once : Result String → HostCache → Option String × HostCache
extracted_once (ok host) k = (some host, record { once_done = true; docker_host = host })
extracted_once (err e) k = (none, record k { once_done = true })

-- `MustExtractDockerHost`, where `none` is a panic, and the first argument what is extracted.
unfoldable pub must_extract_docker_host : Result String → HostCache → Option String × HostCache
unfolding extracted_once
must_extract_docker_host extracted k =
    if k.once_done then (some k.docker_host, k) else extracted_once extracted k

-- The first call panics exactly where no host is extracted, and whatever is extracted then, a second
-- one returns the host of the first, or the empty text after a panic.
must_extract_docker_host_twice :
    (first second : Result String)
    → let (r, k) = must_extract_docker_host first no_host in
      (r ≡ elim first [ ok h ↦ some h | err e ↦ none ])
      × (must_extract_docker_host second k ≡ (some (elim first [ ok h ↦ h | err e ↦ "" ]), k))
unfolding must_extract_docker_host extracted_once
must_extract_docker_host_twice (ok h) second = (refl, refl)
must_extract_docker_host_twice (err e) second = (refl, refl)
