-- ===== src/Udp/Relay/Race.antt =====
-- Two packets of one client in handle_udp_packet before its socket is bound.
use mathlib.Core.Path.{subst}
use peregrine_proxy.Base.{ℕ, ◌≡◌, refl, Option, none, List, [], ◌∷◌}
use peregrine_proxy.Base.Text.{Bytes}
use peregrine_proxy.Network.{SocketAddr}
use peregrine_proxy.Socks5.Handshake.{TargetAddr}
use peregrine_proxy.Socks5.Handshake.Request.{IsTarget}
use peregrine_proxy.Udp.{build_socks5_udp_response}
use peregrine_proxy.Udp.Packet.{parse-build}
use peregrine_proxy.Udp.Relay.{
  get, remove, Waiting, Listener, Relay, start, route, receive, bound, receives, binds, ends, Steps,
  here, next,
}
use peregrine_proxy.Udp.Relay.Labels.{same_addr_refl}

module _ (lookup_host : Bytes → ℕ → Option SocketAddr) (client : SocketAddr) where
  abbrev packet : TargetAddr → Bytes → Waiting
  packet target payload = record { client = client; target = target; payload = payload }

  abbrev asked : List Waiting → Relay
  asked waiting = record start { waiting = waiting }

  arrives :
      (target : TargetAddr) (payload : Bytes) (waiting : List Waiting)
      → IsTarget target
      → Steps lookup_host start (asked waiting)
      → Steps lookup_host start (asked (packet target payload ∷ waiting))
  unfolding receive route get
  arrives target payload waiting h steps =
      subst (λ s. Steps lookup_host start s) (rw (parse-build target payload h) refl)
        (next steps (receives client (build_socks5_udp_response target payload) refl))

  -- If a client's first two packets, for any well-formed targets, both come before a socket is bound
  -- for it, two sockets can be bound, and when the listener of the first one ends, the client is
  -- forgotten although the second one is still listened to.
  pub race_forgets :
      (one two : TargetAddr) (first second : Bytes)
      → IsTarget one
      → IsTarget two
      → (t : Relay) × Steps lookup_host start t
        × (t.opened ≡ 2)
        × (t.listeners ≡ (record { client = client; socket = 1; target = two }) ∷ [])
        × (get client t.client_map ≡ none)
  unfolding bound remove get
  race_forgets one two first second h k =
      let late : Listener = record { client = client; socket = 1; target = two } in
      let early : Listener = record { client = client; socket = 0; target = one } in
      let both = arrives two second _ k (arrives one first [] h here) in
      (
        _,
        next
            (next (next both (binds (packet two second ∷ []) [] (packet one first) refl))
              (binds [] [] (packet two second) refl))
            (ends (late ∷ []) [] early refl),
        refl,
        refl,
        rw (same_addr_refl client) refl,
      )
