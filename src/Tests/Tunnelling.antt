-- ===== src/Tests/Tunnelling.antt =====
-- port_forwarding.go and reaper.go: the theorems at concrete inputs.
use testcontainers_go.Base.{
  ℕ, ◌*◌, ◌≤◌, ◌≡◌, ◌↔◌, ◌⊎◌, refl, true, none, Option, List, [], ◌∷◌, length, all, is_none,
}
use testcontainers_go.Errors.{Error, join}
use testcontainers_go.PortForwarding.Tunnels.{
  Forwarder, Exposure, exposure, launched, Step, connect, receive, Steps, here, next,
}
use testcontainers_go.PortForwarding.Tunnels.Waits.{expose-first}
use testcontainers_go.Reaper.Connecting.{label_filters, join_and}
use testcontainers_go.Labels.{default_labels}

abbrev one_port : List ℕ
one_port = 80 ∷ []

-- One port: its forwarder connects and is heard.
once : Steps 2 (launched [] one_port) (exposure (none ∷ []) none [])
unfolding launched join
once = next (connect [] [] none) (next (receive none) here)

abbrev no_forwarders : List Forwarder
no_forwarders = []

abbrev no_error : Option Error
no_error = none

expose-first_example :
    (2 ≤ 2 * length one_port)
    × ((no_forwarders ≡ []) ⊎ ((u : Exposure) × Step (exposure (none ∷ []) none []) u))
    × ((no_error ≡ none) ↔ (all is_none (no_error ∷ []) ≡ true))
expose-first_example = expose-first one_port once

told :
    join_and (label_filters (default_labels "s"))
    ≡ "label=org.testcontainers=true&label=org.testcontainers.lang=go&label=org.testcontainers.sessionId=s&label=org.testcontainers.version=0.34.0"
unfolding join_and label_filters default_labels
told = refl
