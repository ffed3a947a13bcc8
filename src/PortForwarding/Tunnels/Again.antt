-- ===== src/PortForwarding/Tunnels/Again.antt =====
-- exposeHostPort when it is called again, as it is after every start of the container.
use testcontainers_go.Base.{ℕ, ◌+◌, [], ◌∷◌, length}
use testcontainers_go.PortForwarding.Tunnels.{dialing, offering, heard, Exposure, exposure}

-- The loop is at a forwarder that has been heard.
abbrev IsBlocked : Exposure → Type 0
IsBlocked (exposure rs e []) = ⊥
IsBlocked (exposure rs e (dialing ∷ fs)) = ⊥
IsBlocked (exposure rs e (offering o ∷ fs)) = ⊥
IsBlocked (exposure rs e (heard ∷ fs)) = Unit

-- The forwarders, heard or not.
abbrev total : Exposure → ℕ
total (exposure rs e fs) = length rs + length fs
