-- ===== src/Wait/HostPort.antt =====
-- wait/host_port.go: a port is waited for from the host, and then from inside the container.
use testcontainers_go.Base.{
  ℕ, String, ◌<>◌, ◌=s◌, contains, decimal, hex_four, Bool, true, false, Option, none, some, List,
  [], ◌∷◌, if◌then◌else◌, ◌==◌, M, ◌>>=◌, pure,
}
use testcontainers_go.Errors.{Error, new, suffix, same, Result, ok, err}
use testcontainers_go.Clock.{Ctx, Clock, ctx_err, with_timeout}
use testcontainers_go.Wait.Target.{
  Target, PortApi, PortEntry, check_target, default_poll_interval, timeout_or_default,
}
use testcontainers_go.Wait.Poll.{Step, again, stop, on_tick, poll}
use testcontainers_go.Wait.Port.{map_port, lowest_port, then_run}

pub record HostPortStrategy : Type 0 where
  pub port : String
  pub timeout : Option ℕ
  pub poll_interval : ℕ
  pub skip_check : Bool

unfoldable pub new_host_port_strategy : String → HostPortStrategy
new_host_port_strategy port = record {
  port = port;
  timeout = none;
  poll_interval = default_poll_interval;
  skip_check = false;
}

unfoldable pub for_exposed_port : HostPortStrategy
unfolding new_host_port_strategy
for_exposed_port = new_host_port_strategy ""

unfoldable pub skip_internal_check : HostPortStrategy → HostPortStrategy
skip_internal_check hp = record hp { skip_check = true }

unfoldable pub with_startup_timeout : HostPortStrategy → ℕ → HostPortStrategy
with_startup_timeout hp d = record hp { timeout = some d }

unfoldable pub with_poll_interval : HostPortStrategy → ℕ → HostPortStrategy
with_poll_interval hp d = record hp { poll_interval = d }

abbrev pub err_shell_not_executable : String
err_shell_not_executable = "/bin/sh command not executable"

-- `net.JoinHostPort`
unfoldable pub join_host_port : String → String → String
join_host_port host port =
    if contains host ":" then "[" <> (host <> ("]:" <> port)) else host <> (":" <> port)

unfoldable pub build_internal_check_command : ℕ → String
unfolding hex_four decimal
build_internal_check_command port =
    "true && "
    <> ("(\n\t\t\t\t\tcat /proc/net/tcp* | awk '{print $2}' | grep -i :"
        <> (hex_four port
            <> (" ||\n\t\t\t\t\tnc -vz -w 1 localhost "
                <> (decimal port
                    <> (" ||\n\t\t\t\t\t/bin/sh -c '</dev/tcp/localhost/"
                        <> (decimal port <> "'\n\t\t\t\t)\n\t\t\t\t"))))))

-- The code that the shell in the container exits with.
unfoldable pub internal_decision : {Body : Type 0} → Result (ℕ × Body) → Step
internal_decision (err e) = stop (some (suffix e "host port waiting failed"))
internal_decision (ok (code, body)) =
    if code == 0
    then stop none
    else if code == 126
    then stop (some (new err_shell_not_executable))
    else again

-- `errors.Is(errShellNotExecutable, err)` forgives exactly the missing shell.
unfoldable pub forgive_shell : Option Error → Option Error
forgive_shell none = none
forgive_shell (some e) = if same e err_shell_not_executable then none else some e

unfoldable pub forgiven : {W : Type 0} → Option (Option Error) × W → Option (Option Error) × W
unfolding forgive_shell
forgiven (none, w) = (none, w)
forgiven (some r, w) = (some (forgive_shell r), w)

-- `dial` is the dialer's `DialContext`, at a protocol and an address; `is_refused` is the chain of
-- `errors.As` that leads to ECONNREFUSED.
module _ {W Body : Type 0} (C : Clock W) (T : Target W Body) (P : PortApi)
    (dial : Ctx → String → String → M W (Option Error)) (is_refused : Error → Bool) where
  unfoldable pub dial_step : ℕ → Option Error → M W Step
  dial_step interval none w = (stop none, w)
  dial_step interval (some e) w =
      if is_refused e then (again, C.sleep interval w) else (stop (some e), w)

  unfoldable pub external_round : Ctx → String → String → ℕ → M W Step
  unfolding dial_step check_target on_tick
  external_round ctx proto address interval = do
    alive ← check_target T ctx
    on_tick alive (do e ← dial ctx proto address; dial_step interval e)

  unfoldable pub external_check : ℕ → Ctx → String → String → ℕ → M W (Option (Option Error))
  unfolding external_round poll join_host_port
  external_check n ctx ip port interval =
      poll n (external_round ctx (P.proto port) (join_host_port ip (decimal (P.int port))) interval)

  unfoldable pub internal_round : Ctx → String → M W Step
  unfolding internal_decision check_target on_tick
  internal_round ctx command w =
      on_tick (ctx_err C ctx w)
        (do
          alive ← check_target T ctx
          on_tick alive
              (do r ← T.exec ctx ("/bin/sh" ∷ "-c" ∷ command ∷ []); pure (internal_decision r)))
        w

  unfoldable pub internal_check : ℕ → Ctx → String → M W (Option (Option Error))
  unfolding internal_round poll build_internal_check_command
  internal_check n ctx internal =
      poll n (internal_round ctx (build_internal_check_command (P.int internal)))

  -- From the mapped port on.
  unfoldable pub both_checks :
      ℕ → HostPortStrategy → Ctx → String → String → String → M W (Option (Option Error))
  unfolding external_check internal_check then_run forgiven
  both_checks n hp ctx ip internal port w =
      then_run (external_check n ctx ip port hp.poll_interval w)
        (λ v. if hp.skip_check then (some none, v) else forgiven (internal_check n ctx internal v))

  -- From the internal port on.
  unfoldable pub port_known :
      ℕ → HostPortStrategy → Ctx → String → String → M W (Option (Option Error))
  unfolding map_port both_checks
  port_known n hp ctx ip internal w =
      if internal =s ""
      then (some (some (new "no port to wait for")), w)
      else map_port T ctx internal n (C.select_after ctx hp.poll_interval)
          (both_checks n hp ctx ip internal) w

  unfoldable pub inspected :
      ℕ → HostPortStrategy → Ctx → String → Result (List PortEntry) → M W (Option (Option Error))
  unfolding port_known lowest_port
  inspected n hp ctx ip (err e) w = (some (some e), w)
  inspected n hp ctx ip (ok ports) w = port_known n hp ctx ip (lowest_port P ports "") w

  unfoldable pub host_known :
      ℕ → HostPortStrategy → Ctx → Result String → M W (Option (Option Error))
  unfolding inspected
  host_known n hp ctx (err e) w = (some (some e), w)
  host_known n hp ctx (ok ip) w =
      if hp.port =s ""
      then (do r ← T.inspect ctx; inspected n hp ctx ip r) w
      else port_known n hp ctx ip hp.port w

  unfoldable pub host_port_wait : ℕ → HostPortStrategy → Ctx → M W (Option (Option Error))
  unfolding host_known with_timeout timeout_or_default
  host_port_wait n hp ctx w =
      let inner = with_timeout C ctx (timeout_or_default hp.timeout) w in
      (do r ← T.host inner; host_known n hp inner r) w
