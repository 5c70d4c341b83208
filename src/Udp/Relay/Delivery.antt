-- ===== src/Udp/Relay/Delivery.antt =====
-- That the relay can pass a packet on.
use peregrine_proxy.Base.{ℕ, ◌≡◌, Option, [], ◌∷◌, ◌++◌}
use peregrine_proxy.Base.Text.{Bytes}
use peregrine_proxy.Network.{SocketAddr}
use peregrine_proxy.Udp.Relay.{forwarded, Relay}

module _ (lookup_host : Bytes → ℕ → Option SocketAddr) where
  -- The traffic that a relay has sent on top of another's.
  abbrev pub Passes : SocketAddr → SocketAddr → Bytes → Relay → Relay → Type 0
  Passes client addr payload s t =
      (socket : ℕ) × (t.log ≡ s.log ++ forwarded client socket addr payload ∷ [])
