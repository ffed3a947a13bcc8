-- ===== src/Auth/Lookups/Ends.antt =====
-- That the goroutines of getDockerAuthConfigs end.
use testcontainers_go.Base.{ℕ, ◌+◌, List, [], ◌∷◌}
use testcontainers_go.Base.Dict.{Dict}
use testcontainers_go.Auth.Lookups.{Lookup, queued, requesting, ready, Lookups, lookups}

-- The steps that are left of a goroutine at most.
abbrev weight : Lookup → ℕ
weight (queued j) = 3
weight (requesting j) = 2
weight (ready r) = 1

abbrev weights : List Lookup → ℕ
weights [] = 0
weights (l ∷ ls) = weight l + weights ls

abbrev left : Lookups → ℕ
left (lookups m ls rs) = weights ls

-- The goroutines that have not ended.
abbrev pub waiting : Lookups → List Lookup
waiting (lookups m ls rs) = ls
