-- ===== src/Upstream/Chain/Servers.antt =====
-- Servers of this program in a chain, one behind the other: src/protocol/socks5 on the other end of
-- src/upstream/chain.rs.
use peregrine_proxy.Base.{ℕ, ◌≤◌, ◌<◌, ◌≡◌, true, Option, none, some, List, [], ◌∷◌, ◌++◌, length}
use peregrine_proxy.Base.Text.{Bytes, is_utf8}
use peregrine_proxy.Config.{UserCredential}
use peregrine_proxy.Acl.Auth.{verify_credentials}
use peregrine_proxy.Stream.{Conn, Event, dial, tunnel, closed}
use peregrine_proxy.Network.{Network, opened}
use peregrine_proxy.Socks5.{handle_socks5}
use peregrine_proxy.Socks5.Session.{target_text}
use peregrine_proxy.Upstream.Socks5Client.Wire.{target_of}
use peregrine_proxy.Upstream.Chain.Relays.{Speaks, by_socks5, by_login, by_http, Relay}

-- A connection that a server has just accepted, from a client that has sent these bytes.
abbrev pub accepted : Bytes → Conn
accepted input = record {
  input = input;
  ending = closed;
  segments = [];
  output = [];
  room = none;
  events = [];
}

-- What a chain of servers leaves for the target, answers to the client, and opens.
pub record Served : Type 0 where
  pub left : Bytes
  pub answers : Bytes
  pub events : List Event

abbrev pub with_server : Conn → Served → Served
with_server s rest = record {
  left = rest.left;
  answers = s.output ++ rest.answers;
  events = s.events ++ rest.events;
}

-- A server asks for a login if the chain speaks to it with one.
abbrev pub asked_of : Speaks → List UserCredential → Option (List UserCredential)
asked_of by_socks5 users = none
asked_of by_login users = some users
asked_of (by_http response) users = none

-- Servers one behind the other, each with its own users: the tunnel of each gives what follows its
-- own session to the next, and carries the answers of the next back.
unfoldable pub serve_chain : Network → (Relay → List UserCredential) → List Relay → Bytes → Served
serve_chain net users [] input = record { left = input; answers = []; events = [] }
serve_chain net users (r ∷ hops) input =
    let s = handle_socks5 net (asked_of r.speaks (users r)) (accepted input) in
    with_server s (serve_chain net users hops s.input)

-- The addresses that the servers of a chain lead to.
unfoldable pub next_addresses : List Relay → Bytes → ℕ → List Bytes
next_addresses [] host port = []
next_addresses (r ∷ []) host port = target_text (target_of host port) ∷ []
next_addresses (r ∷ next ∷ rest) host port =
    target_text (target_of next.host next.port) ∷ next_addresses (next ∷ rest) host port

-- A tunnel to each.
unfoldable pub tunnels : List Bytes → List Event
tunnels [] = []
tunnels (a ∷ rest) = dial a ∷ tunnel a ∷ tunnels rest

-- A host and a port that a SOCKS5 request can carry.
abbrev pub Carried : Bytes → ℕ → Type 0
Carried host port = (length host ≤ 255) × (is_utf8 host ≡ true) × (port < 65536)

-- Credentials that a login can carry and that are configured on the server.
abbrev pub Listed : List UserCredential → UserCredential → Type 0
Listed users auth =
    (verify_credentials auth.username auth.password users ≡ true)
    × (length auth.username ≤ 255)
    × (is_utf8 auth.username ≡ true)
    × (length auth.password ≤ 255)
    × (is_utf8 auth.password ≡ true)

abbrev pub Serves : Speaks → List UserCredential → Option UserCredential → Type 0
Serves by_socks5 users auth = Unit
Serves by_login users none = ⊥
Serves by_login users (some auth) = Listed users auth
Serves (by_http response) users auth = ⊥

abbrev pub IsServer : (Relay → List UserCredential) → Relay → Type 0
IsServer users r = Serves r.speaks (users r) r.auth × Carried r.host r.port

abbrev pub Opens : Network → Bytes → Type 0
Opens net addr = (c : Conn) × (net.tcp_connect addr ≡ opened c)
