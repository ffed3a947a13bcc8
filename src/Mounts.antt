-- ===== src/Mounts.antt =====
-- mounts.go and docker_mounts.go: mounts, and how they become Docker's.
pub mod Laws
use testcontainers_go.Base.{
  ℕ, String, ◌=s◌, Bool, true, false, Option, none, some, List, [], ◌∷◌, if◌then◌else◌, is_none,
}
use testcontainers_go.Base.Dict.{Dict, insert_all}

-- The mount types in the order of their numbers. `other` is any other number, which a user's own
-- source may give.
pub data MountType : Type 0 where
  bind volume tmpfs pipe : MountType
  other : ℕ → MountType

-- The labels are the one field that is written; a nil map is `none`.
pub record VolumeOptions : Type 0 where
  pub labels : Option (Dict String)

pub record TmpfsOptions : Type 0 where
  pub size_bytes : ℕ

-- The sources of the program, and a user's own with its text and its type.
pub data MountSource : Type 0 where
  generic_bind : String → MountSource
  generic_volume : String → MountSource
  generic_tmpfs : MountSource
  docker_bind : String → MountSource
  docker_volume : String → Option VolumeOptions → MountSource
  docker_tmpfs : Option TmpfsOptions → MountSource
  custom : String → MountType → MountSource

-- `Source()`
unfoldable pub source : MountSource → String
source (generic_bind path) = path
source (generic_volume name) = name
source generic_tmpfs = ""
source (docker_bind path) = path
source (docker_volume name o) = name
source (docker_tmpfs o) = ""
source (custom s t) = s

-- `Type()`
unfoldable pub mount_type : MountSource → MountType
mount_type (generic_bind path) = bind
mount_type (generic_volume name) = volume
mount_type generic_tmpfs = tmpfs
mount_type (docker_bind path) = bind
mount_type (docker_volume name o) = volume
mount_type (docker_tmpfs o) = tmpfs
mount_type (custom s t) = t

pub record ContainerMount : Type 0 where
  pub source : MountSource
  pub target : String
  pub read_only : Bool

unfoldable pub bind_mount : String → String → ContainerMount
bind_mount path target = record { source = generic_bind path; target = target; read_only = false }

unfoldable pub volume_mount : String → String → ContainerMount
volume_mount name target = record {
  source = generic_volume name;
  target = target;
  read_only = false;
}

-- `mountTypeMapping`
unfoldable pub mount_type_mapping : MountType → Option String
mount_type_mapping bind = some "bind"
mount_type_mapping volume = some "volume"
mount_type_mapping tmpfs = some "tmpfs"
mount_type_mapping pipe = some "npipe"
mount_type_mapping (other n) = none

-- `mount.Mount`
pub record DockerMount : Type 0 where
  pub type : String
  pub source : String
  pub target : String
  pub read_only : Bool
  pub volume_options : Option VolumeOptions
  pub tmpfs_options : Option TmpfsOptions

-- The type switch over the source.
unfoldable pub volume_options_of : MountSource → Option VolumeOptions
volume_options_of (docker_volume name o) = o
volume_options_of _ = none

unfoldable pub tmpfs_options_of : MountSource → Option TmpfsOptions
tmpfs_options_of (docker_tmpfs o) = o
tmpfs_options_of _ = none

-- What a run that does not finish normally ends with.
pub data Outcome (A : Type 0) : Type 0 where
  returned : A → Outcome A
  nil_map_panic : Outcome A

-- `for k, v := range GenericLabels() { labels[k] = v }`: a write into a nil map panics.
unfoldable pub write_labels : Dict String → Option (Dict String) → Outcome (Option (Dict String))
unfolding insert_all
write_labels [] old = returned old
write_labels (l ∷ ls) none = nil_map_panic
write_labels (l ∷ ls) (some old) = returned (some (insert_all (l ∷ ls) old))

unfoldable pub relabeled :
    VolumeOptions → Outcome (Option (Dict String)) → Outcome (Option VolumeOptions)
relabeled o nil_map_panic = nil_map_panic
relabeled o (returned labels) = returned (some (record o { labels = labels }))

-- A nil option gets a fresh map first.
unfoldable pub add_labels : Dict String → Option VolumeOptions → Outcome (Option VolumeOptions)
unfolding write_labels relabeled
add_labels generic none = relabeled (record { labels = some [] }) (write_labels generic (some []))
add_labels generic (some o) = relabeled o (write_labels generic o.labels)

unfoldable pub with_options : DockerMount → Outcome (Option VolumeOptions) → Outcome DockerMount
with_options m nil_map_panic = nil_map_panic
with_options m (returned o) = returned (record m { volume_options = o })

-- The body of the loop, from the mount's Docker type on.
unfoldable pub docker_mount : Dict String → ContainerMount → String → Outcome DockerMount
unfolding source volume_options_of tmpfs_options_of add_labels with_options
docker_mount generic m type =
    let plain : DockerMount = record {
      type = type;
      source = source m.source;
      target = m.target;
      read_only = m.read_only;
      volume_options = volume_options_of m.source;
      tmpfs_options = tmpfs_options_of m.source;
    } in
    if type =s "volume"
    then with_options plain (add_labels generic plain.volume_options)
    else returned plain

unfoldable pub prepend :
    Outcome DockerMount → Outcome (List DockerMount) → Outcome (List DockerMount)
prepend nil_map_panic rest = nil_map_panic
prepend (returned m) nil_map_panic = nil_map_panic
prepend (returned m) (returned ms) = returned (m ∷ ms)

-- A mount of an unknown type is left out.
unfoldable pub mount_or_skip :
    Dict String
    → ContainerMount
    → Option String
    → Outcome (List DockerMount)
    → Outcome (List DockerMount)
unfolding docker_mount prepend
mount_or_skip generic m none rest = rest
mount_or_skip generic m (some type) rest = prepend (docker_mount generic m type) rest

-- `mapToDockerMounts`, over the labels of the session.
unfoldable pub map_to_docker_mounts : Dict String → List ContainerMount → Outcome (List DockerMount)
unfolding mount_or_skip mount_type mount_type_mapping
map_to_docker_mounts generic [] = returned []
map_to_docker_mounts generic (m ∷ ms) =
    mount_or_skip generic m (mount_type_mapping (mount_type m.source))
      (map_to_docker_mounts generic ms)
