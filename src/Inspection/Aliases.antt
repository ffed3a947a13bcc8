-- ===== src/Inspection/Aliases.antt =====
-- What the map of aliases of a container holds.
use testcontainers_go.Base.{String, =s_iff, ◌≡◌, refl, Option, none, some, List, [], ◌∷◌, arith}
use testcontainers_go.Base.Dict.{Dict, IsMap, lookup, insert, lookup-insert}
use testcontainers_go.Inspection.{ContainerEndpoint, aliases_from}

-- The aliases at one network, or what the map had.
abbrev aliases_or : Option ContainerEndpoint → Option (List String) → Option (List String)
aliases_or none a = a
aliases_or (some v) a = some v.aliases

-- If no network stands twice in the inspection, the map has the aliases at each network, and
-- what it had before under another key.
aliases_from-lookup :
    (ns : Dict ContainerEndpoint) (a : Dict (List String)) (k : String)
    → IsMap ns
    → lookup k (aliases_from ns a) ≡ aliases_or (lookup k ns) (lookup k a)
unfolding aliases_from lookup
aliases_from-lookup [] a k m = refl
aliases_from-lookup ((j, v) ∷ ns) a k (u, m) = ground (
  arith,
  =s_iff j k,
  lookup-insert k j v.aliases a,
  aliases_from-lookup ns (insert j v.aliases a) k m,
)
