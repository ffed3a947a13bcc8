-- ===== src/Tests/Hooks.antt =====
-- lifecycle.go: the theorems on hooks, at hooks that write their names into a log.
use testcontainers_go.Base.{ℕ, String, none, some, List, [], ◌∷◌, ◌++◌}
use testcontainers_go.Errors.{new}
use testcontainers_go.Lifecycle.{
  ContainerLifecycleHooks, ContainerHook, RequestHook, combine_container_hooks, no_hooks,
}
use testcontainers_go.Lifecycle.Order.{InOrder, combine_container_hooks-InOrder}

abbrev Log : Type 0
Log = List String

abbrev says : String → ContainerHook ℕ Log
says name ctx log = (none, log ++ (name ∷ []))

abbrev breaks : String → ContainerHook ℕ Log
breaks name ctx log = (some (new name), log ++ (name ∷ []))

abbrev asks : String → RequestHook ℕ ℕ Log
asks name ctx req log = (none, log ++ (name ∷ []))

abbrev refuses : String → RequestHook ℕ ℕ Log
refuses name ctx req log = (some (new name), log ++ (name ∷ []))

abbrev default_hooks : ContainerLifecycleHooks ℕ ℕ Log
default_hooks = record no_hooks {
  pre_creates = asks "check" ∷ [];
  pre_starts = says "copy files" ∷ [];
  post_stops = says "stop logs" ∷ [];
}

abbrev user_hooks : ContainerLifecycleHooks ℕ ℕ Log
user_hooks = record no_hooks {
  pre_creates = refuses "quota" ∷ asks "never" ∷ [];
  pre_starts = breaks "migrate" ∷ [];
  post_stops = says "report" ∷ [];
}

combine_container_hooks-InOrder_example :
    InOrder
      (default_hooks ∷ [])
      (user_hooks ∷ [])
      (combine_container_hooks (default_hooks ∷ []) (user_hooks ∷ []))
combine_container_hooks-InOrder_example =
    combine_container_hooks-InOrder (default_hooks ∷ []) (user_hooks ∷ [])
