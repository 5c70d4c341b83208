-- ===== src/Tests/Relay.antt =====
-- A client of the UDP relay with two targets.
use mathlib.Core.Path.{subst}
use peregrine_proxy.Base.{true, ℕ, ◌≡◌, refl, Option, none, [], ◌∷◌, arith}
use peregrine_proxy.Base.Text.{Bytes}
use peregrine_proxy.Network.{SocketAddr, v4}
use peregrine_proxy.Socks5.Handshake.{TargetAddr, ipv4}
use peregrine_proxy.Socks5.Handshake.Request.{IsTarget}
use peregrine_proxy.Udp.{build_socks5_udp_response}
use peregrine_proxy.Udp.Packet.{parse-build}
use peregrine_proxy.Udp.Relay.{
  Listener, Waiting, Traffic, forwarded, delivered, Relay, start, route, receive, bound, remove,
  get, response, resolve_target_addr, receives, binds, resolves, responds, Steps, here, next,
}
use peregrine_proxy.Udp.Relay.Owners.{same_socket-same_client, party}
use peregrine_proxy.Udp.Relay.Origins.{history, Honest, Honest-Steps}
use peregrine_proxy.Udp.Relay.Race.{race_forgets}

abbrev client : SocketAddr
client = v4 (10 ∷ 0 ∷ 0 ∷ 7 ∷ []) 4000

abbrev one : TargetAddr
one = ipv4 (192 ∷ 0 ∷ 2 ∷ 1 ∷ []) 53

abbrev two : TargetAddr
two = ipv4 (192 ∷ 0 ∷ 2 ∷ 2 ∷ []) 53

one-IsTarget : IsTarget one
one-IsTarget = omega arith

two-IsTarget : IsTarget two
two-IsTarget = omega arith

abbrev no_names : Bytes → ℕ → Option SocketAddr
no_names name port = none

abbrev query : Traffic
query = forwarded client 0 (v4 (192 ∷ 0 ∷ 2 ∷ 1 ∷ []) 53) (1 ∷ [])

abbrev reply : Traffic
reply = delivered client 0 (build_socks5_udp_response one (2 ∷ []))

abbrev answered : Relay
answered = record {
  is_open = true;
  client_map = (client, 0) ∷ [];
  opened = 1;
  waiting = [];
  sending = [];
  listeners = (record { client = client; socket = 0; target = one }) ∷ [];
  log = query ∷ reply ∷ [];
}

abbrev question : Waiting
question = record { client = client; target = one; payload = 1 ∷ [] }

abbrev asked : Relay
asked = record start { waiting = question ∷ [] }

question_received : receive client (build_socks5_udp_response one (1 ∷ [])) start ≡ asked
unfolding receive route get
question_received = rw (parse-build one (1 ∷ []) one-IsTarget) refl

first_step : Steps no_names start asked
first_step =
    subst (λ s. Steps no_names start s) question_received
      (next here (receives client (build_socks5_udp_response one (1 ∷ [])) refl))

conversation : Steps no_names start answered
unfolding bound remove resolve_target_addr response
conversation =
    next
      (next (next first_step (binds [] [] question refl)) (
        resolves [] [] (record { client = client; socket = 0; target = one; payload = 1 ∷ [] })
          refl))
      (responds [] [] (record { client = client; socket = 0; target = one }) (2 ∷ []) refl)

same_socket-same_client_example : party query ≡ party reply
same_socket-same_client_example =
    same_socket-same_client no_names answered [] (reply ∷ []) (query ∷ []) [] query reply
      conversation refl refl refl

Honest-Steps_example : Honest no_names (history no_names conversation) answered
Honest-Steps_example = Honest-Steps no_names conversation

abbrev listener : Listener
listener = record { client = client; socket = 0; target = one }

abbrev second_packet : Bytes
second_packet = build_socks5_udp_response two (3 ∷ [])

abbrev second_asked : Relay
second_asked = record answered {
  sending = (record { client = client; socket = 0; target = two; payload = 3 ∷ [] }) ∷ [];
}

-- The second target answers.
abbrev answered_twice : Relay
answered_twice = record second_asked {
  log = query ∷ reply ∷ delivered client 0 (build_socks5_udp_response one (4 ∷ [])) ∷ [];
}

race_forgets_example :
    (t : Relay) × Steps no_names start t
    × (t.opened ≡ 2)
    × (t.listeners ≡ (record { client = client; socket = 1; target = two }) ∷ [])
    × (get client t.client_map ≡ none)
race_forgets_example =
    race_forgets no_names client one two (1 ∷ []) (3 ∷ []) one-IsTarget two-IsTarget
