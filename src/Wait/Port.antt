-- ===== src/Wait/Port.antt =====
-- The loop that the port, HTTP and SQL strategies share: `for port == "" { … }`, which asks for
-- the mapped port until there is one, and the search for the lowest port of a container.
use testcontainers_go.Base.{
  ℕ, String, ◌=s◌, Bool, ◌||◌, Option, none, some, List, [], ◌∷◌, if◌then◌else◌, ltb, M,
}
use testcontainers_go.Errors.{Error}
use testcontainers_go.Clock.{Ctx}
use testcontainers_go.Wait.Target.{Target, PortApi, PortEntry, check_target, with_cause}
use testcontainers_go.Wait.Poll.{Step, again, stop, poll}

-- The variables `port` and `err` of the loop, and the world.
abbrev pub PortVars : Type 0 → Type 0
PortVars W = (String × Option Error) × W

-- What follows a loop, where it ended by its condition.
unfoldable pub then_run :
    {W : Type 0}
    → Option (Option Error) × W
    → M W (Option (Option Error))
    → Option (Option Error) × W
then_run (none, w) k = (none, w)
then_run (some (some e), w) k = (some (some e), w)
then_run (some none, w) k = k w

unfoldable pub with_port :
    {W : Type 0}
    → Option (Option Error) × PortVars W
    → (String → M W (Option (Option Error)))
    → Option (Option Error) × W
with_port (none, (v, w)) k = (none, w)
with_port (some (some e), (v, w)) k = (some (some e), w)
with_port (some none, ((port, e), w)) k = k port w

module _ {W Body : Type 0} (T : Target W Body) (ctx : Ctx) (internal : String) where
  -- `if err := checkTarget(ctx, target); err != nil { return err }`, and the next question.
  unfoldable pub port_checked : String × Option Error → Option Error × W → Step × PortVars W
  port_checked v (some e, w) = (stop (some e), (v, w))
  port_checked v (none, w) = (again, T.mapped_port ctx internal w)

  unfoldable pub port_turn : String × Option Error → Option Error × W → Step × PortVars W
  unfolding port_checked check_target with_cause
  port_turn v (some ce, w) = (stop (some (with_cause ce v.1)), (v, w))
  port_turn v (none, w) = port_checked v (check_target T ctx w)

  -- A round; `select` is the wait of the strategy.
  unfoldable pub port_round : M W (Option Error) → M (PortVars W) Step
  unfolding port_turn
  port_round select (v, w) = if v.0 =s "" then port_turn v (select w) else (stop none, (v, w))

  -- The first question, the loop, and what follows it.
  unfoldable pub map_port :
      ℕ → M W (Option Error) → (String → M W (Option (Option Error))) → M W (Option (Option Error))
  unfolding port_round poll with_port
  map_port n select k w = with_port (poll n (port_round select) (T.mapped_port ctx internal w)) k

module _ (P : PortApi) where
  -- `if lowest == "" || port.Int() < lowest.Int() { lowest = port }`
  unfoldable pub lower : String → String → Bool
  lower port lowest = lowest =s "" || ltb (P.int port) (P.int lowest)

  -- The lowest port, from the best so far.
  unfoldable pub lowest_port : List PortEntry → String → String
  unfolding lower
  lowest_port [] best = best
  lowest_port (e ∷ es) best = lowest_port es (if lower e.port best then e.port else best)
