-- ===== src/Ports/Merge.antt =====
-- What merging the bindings of ports keeps.
use testcontainers_go.Base.{
  ◌≡◌, refl, String, =s_iff, Bool, Option, none, some, List, [], ◌∷◌, arith, if◌then◌else◌,
  mem_text, map,
}
use testcontainers_go.Base.Dict.{Dict, IsMap, lookup, insert, lookup-insert}
use testcontainers_go.Ports.{merge_from, merge_port_bindings}

module _ {A : Type 0} where
  -- The configured value where the key is configured and wanted, and the old one elsewhere.
  abbrev pub preferred : Bool → Option A → Option A → Option A
  preferred wanted (some v) old = if wanted then some v else old
  preferred wanted none old = old

  merge_from-lookup :
      (number : String → String) (mapped : List String) (config exposed : Dict A) (k : String)
      → IsMap config
      → lookup k (merge_from number mapped config exposed)
        ≡ preferred (mem_text (number k) mapped) (lookup k config) (lookup k exposed)
  unfolding merge_from lookup
  merge_from-lookup number mapped [] exposed k m = refl
  merge_from-lookup number mapped ((j, v) ∷ config) exposed k (u, m) = ground (
    arith,
    =s_iff j k,
    lookup-insert k j v exposed,
    merge_from-lookup number mapped config exposed k m,
    merge_from-lookup number mapped config (insert j v exposed) k m,
  )

  -- If no key is configured twice, a key of the merged bindings has the configured ones where it
  -- is configured and its number is one of the exposed ports, and those of the exposed map
  -- elsewhere.
  pub merge_port_bindings_lem :
      (strip number : String → String) (config exposed : Dict A) (ports : List String) (k : String)
      → IsMap config
      → lookup k (merge_port_bindings strip number config exposed ports)
        ≡ preferred (mem_text (number k) (map strip ports)) (lookup k config) (lookup k exposed)
  unfolding merge_port_bindings
  merge_port_bindings_lem strip number config exposed ports k m =
      merge_from-lookup number (map strip ports) config exposed k m
