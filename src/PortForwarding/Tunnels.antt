-- ===== src/PortForwarding/Tunnels.antt =====
-- port_forwarding.go: exposeHostPort and the forwarders, as steps of their shared state.
-- A send on the unbuffered channel `connectionCreated` is one step with its receipt.
pub mod Waits
pub mod Again
use testcontainers_go.Base.{ℕ, suc, Bool, true, false, Option, none, some, List, [], ◌∷◌, ◌++◌, map}
use testcontainers_go.Errors.{Error, join}

-- A forwarder dials the server and listens there, offers what came of that on its channel, or has
-- been heard: its channel holds nothing more.
pub data Forwarder : Type 0 where
  dialing : Forwarder
  offering : Option Error → Forwarder
  heard : Forwarder

-- What the loop over the forwarders has received, the error so far, and the forwarders that it has
-- not come to.
pub data Exposure : Type 0 where
  exposure : List (Option Error) → Option Error → List Forwarder → Exposure

-- `sshdC.portForwarders = append(…)`: there is a new forwarder for each port.
unfoldable pub launched : List Forwarder → List ℕ → Exposure
launched kept ports = exposure [] none (kept ++ map (λ p. dialing) ports)

-- The forwarders that are kept when the loop has ended.
unfoldable pub kept_by : Exposure → List Forwarder
kept_by (exposure received e remaining) = map (λ o. heard) received

pub data Step : Exposure → Exposure → Type 0 where
  connect :
      (before after : List Forwarder) (o : Option Error) {rs : List (Option Error)}
      {e : Option Error}
      → Step
          (exposure rs e (before ++ dialing ∷ after))
          (exposure rs e (before ++ offering o ∷ after))
  receive :
      (o : Option Error) {fs : List Forwarder} {rs : List (Option Error)} {e : Option Error}
      → Step (exposure rs e (offering o ∷ fs)) (exposure (rs ++ o ∷ []) (join (e ∷ o ∷ [])) fs)

-- So many steps.
pub data Steps : ℕ → Exposure → Exposure → Type 0 where
  here : {s : Exposure} → Steps 0 s s
  next : {n : ℕ} {s t u : Exposure} → Step s t → Steps n t u → Steps (suc n) s u

unfoldable pub remaining : Exposure → List Forwarder
remaining (exposure received e fs) = fs
