-- ===== src/Mounts/Laws.antt =====
-- What the mapping of mounts keeps, and where it panics.
use testcontainers_go.Base.{
  ◌≡◌, refl, sym, ◌∙◌, String, Bool, true, false, Option, none, some, List, [], ◌∷◌, arith, is_none,
  not, if◌then◌else◌, ap,
}
use testcontainers_go.Base.Dict.{Dict}
use testcontainers_go.Mounts.{
  ContainerMount, DockerMount, MountSource, Outcome, returned, nil_map_panic, docker_volume,
  mount_type, mount_type_mapping, source, docker_mount, map_to_docker_mounts, mount_or_skip,
  prepend,
}

-- A volume source with options whose label map is nil.
abbrev pub lacks_labels : MountSource → Bool
lacks_labels (docker_volume name (some o)) = is_none o.labels
lacks_labels _ = false

-- Whether the mount's type is known.
abbrev pub is_known : ContainerMount → Bool
is_known m = not (is_none (mount_type_mapping (mount_type m.source)))

abbrev pub known : List ContainerMount → List ContainerMount
known [] = []
known (m ∷ ms) = if is_known m then m ∷ known ms else known ms

-- A mount agrees with its Docker mount in the source, the target and the access.
abbrev pub Agree : List ContainerMount → List DockerMount → Type 0
Agree [] [] = Unit
Agree (m ∷ ms) (d ∷ ds) =
    (d.source ≡ source m.source)
    × (d.target ≡ m.target)
    × (d.read_only ≡ m.read_only)
    × (some d.type ≡ mount_type_mapping (mount_type m.source))
    × Agree ms ds
Agree _ _ = ⊥

docker_mount_agrees :
    (generic : Dict String) (m : ContainerMount) (type : String) (d : DockerMount)
    → docker_mount generic m type ≡ returned d
    → (d.source ≡ source m.source)
      × (d.target ≡ m.target)
      × (d.read_only ≡ m.read_only)
      × (d.type ≡ type)
unfolding docker_mount
docker_mount_agrees generic m type d h = ground arith

prepend_inv :
    (o : Outcome DockerMount) (rest : Outcome (List DockerMount)) (ds : List DockerMount)
    → prepend o rest ≡ returned ds
    → (d : DockerMount) × (es : List DockerMount) × (o ≡ returned d)
      × (rest ≡ returned es)
      × (d ∷ es ≡ ds)
unfolding prepend
prepend_inv nil_map_panic rest ds h = cc
prepend_inv (returned d) nil_map_panic ds h = cc
prepend_inv (returned d) (returned es) ds h = (d, es, refl, refl, ground arith)

mount_agrees :
    (generic : Dict String) (m : ContainerMount) (ms : List ContainerMount) (t : Option String)
    (rest : Outcome (List DockerMount)) (ds : List DockerMount)
    → mount_type_mapping (mount_type m.source) ≡ t
    → mount_or_skip generic m t rest ≡ returned ds
    → ((es : List DockerMount) → rest ≡ returned es → Agree (known ms) es)
    → Agree (known (m ∷ ms)) ds
unfolding mount_or_skip
mount_agrees generic m ms none rest ds e h later = rw e (later ds h)
mount_agrees generic m ms (some type) rest ds e h later =
    let (d, es, one, others, parts) = prepend_inv (docker_mount generic m type) rest ds h in
    let (src, target, access, same) = docker_mount_agrees generic m type d one in
    rw (e, ← parts) (src, target, access, ap some same ∙ sym e, later es others)

-- Where the mapping of mounts returns, it returns the mounts of a known type, in their order, each
-- with the source, the target, the access and the type of its mount.
pub map_to_docker_mounts-Agree :
    (generic : Dict String) (ms : List ContainerMount) (ds : List DockerMount)
    → map_to_docker_mounts generic ms ≡ returned ds
    → Agree (known ms) ds
unfolding map_to_docker_mounts
map_to_docker_mounts-Agree generic [] [] h = tt
map_to_docker_mounts-Agree generic [] (d ∷ ds) h = cc
map_to_docker_mounts-Agree generic (m ∷ ms) ds h =
    mount_agrees generic m ms _ _ ds refl h (λ es k. map_to_docker_mounts-Agree generic ms es k)

abbrev pub panics : {A : Type 0} → Outcome A → Bool
panics (returned a) = false
panics nil_map_panic = true
