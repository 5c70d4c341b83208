-- ===== src/Udp/Relay.antt =====
-- src/protocol/socks5/udp_associate.rs: `relay_loop`, `handle_udp_packet` and
-- `listen_for_responses` as a transition system. Each packet is handled by a task of its own, so
-- between two `await`s of a task any other may run: a task waits for its socket to be bound, then
-- for the name of its target to be resolved. Sockets are numbered in the order they are bound.
pub mod Owners
pub mod Labels
pub mod Mislabelled
pub mod Origins
pub mod Delivery
pub mod Race
pub mod Ended
use peregrine_proxy.Base.{
  ℕ, suc, ◌+◌, ◌≡◌, Bool, true, false, ◌&&◌, Option, none, some, List, [], ◌∷◌, ◌++◌, list_eq, ◌==◌,
  if◌then◌else◌,
}
use peregrine_proxy.Base.Text.{Bytes}
use peregrine_proxy.Error.{ProxyResult, ok, err}
use peregrine_proxy.Network.{SocketAddr, v4, v6}
use peregrine_proxy.Socks5.Handshake.{TargetAddr, ipv4, domain, ipv6}
use peregrine_proxy.Udp.{parse_socks5_udp_packet, build_socks5_udp_response}

-- The key equality of the map.
unfoldable pub same_addr : SocketAddr → SocketAddr → Bool
same_addr (v4 a p) (v4 b q) = list_eq a b && p == q
same_addr (v4 a p) (v6 b q) = false
same_addr (v6 a p) (v4 b q) = false
same_addr (v6 a p) (v6 b q) = list_eq a b && p == q

-- `DashMap`: `get`, `remove` and `insert`.
unfoldable pub get : SocketAddr → List (SocketAddr × ℕ) → Option ℕ
get client [] = none
get client ((key, socket) ∷ rest) =
    let found = get client rest in if same_addr client key then some socket else found

unfoldable pub remove : SocketAddr → List (SocketAddr × ℕ) → List (SocketAddr × ℕ)
remove client [] = []
remove client ((key, socket) ∷ rest) =
    let kept = remove client rest in if same_addr client key then kept else (key, socket) ∷ kept

abbrev pub put : SocketAddr → ℕ → List (SocketAddr × ℕ) → List (SocketAddr × ℕ)
put client socket entries = (client, socket) ∷ remove client entries

-- A packet whose task awaits `UdpSocket::bind`.
pub record Waiting : Type 0 where
  pub client : SocketAddr
  pub target : TargetAddr
  pub payload : Bytes

-- A packet whose task awaits `resolve_target_addr`, with the socket it will be sent from.
pub record Sending : Type 0 where
  pub client : SocketAddr
  pub socket : ℕ
  pub target : TargetAddr
  pub payload : Bytes

-- A task in `listen_for_responses`.
pub record Listener : Type 0 where
  pub client : SocketAddr
  pub socket : ℕ
  pub target : TargetAddr

-- What is sent: a payload from a client's packet to a resolved target, and a packet to a client
-- with what its socket has received.
pub data Traffic : Type 0 where
  forwarded : SocketAddr → ℕ → SocketAddr → Bytes → Traffic
  delivered : SocketAddr → ℕ → Bytes → Traffic

-- `is_open` as long as `relay_loop` runs.
pub record Relay : Type 0 where
  pub is_open : Bool
  pub client_map : List (SocketAddr × ℕ)
  pub opened : ℕ
  pub waiting : List Waiting
  pub sending : List Sending
  pub listeners : List Listener
  pub log : List Traffic

abbrev pub start : Relay
start = record {
  is_open = true;
  client_map = [];
  opened = 0;
  waiting = [];
  sending = [];
  listeners = [];
  log = [];
}

-- The arms of `client_map.get(&client_addr)`.
unfoldable pub route : SocketAddr → TargetAddr → Bytes → Option ℕ → Relay → Relay
route client target payload (some socket) s = record s {
  sending =
      (record { client = client; socket = socket; target = target; payload = payload }) ∷ s.sending;
}
route client target payload none s = record s {
  waiting = (record { client = client; target = target; payload = payload }) ∷ s.waiting;
}

abbrev pub accept_packet : SocketAddr → ProxyResult (TargetAddr × Bytes) → Relay → Relay
accept_packet client (err e) s = s
accept_packet client (ok (target, payload)) s =
    route client target payload (get client s.client_map) s

-- A datagram from a client, up to the first `await` of its task.
unfoldable pub receive : SocketAddr → Bytes → Relay → Relay
receive client datagram s = accept_packet client (parse_socks5_udp_packet datagram) s

-- The socket of a waiting task has been bound: the map entry, the listener, and the way on.
unfoldable pub bound : Waiting → List Waiting → Relay → Relay
bound w others s = record s {
  client_map = put w.client s.opened s.client_map;
  opened = suc s.opened;
  waiting = others;
  sending =
      (record { client = w.client; socket = s.opened; target = w.target; payload = w.payload })
      ∷ s.sending;
  listeners = (record { client = w.client; socket = s.opened; target = w.target }) ∷ s.listeners;
}

-- `resolve_target_addr`, over what `lookup_host` finds.
unfoldable pub resolve_target_addr :
    (Bytes → ℕ → Option SocketAddr) → TargetAddr → Option SocketAddr
resolve_target_addr lookup_host (ipv4 ip port) = some (v4 ip port)
resolve_target_addr lookup_host (ipv6 ip port) = some (v6 ip port)
resolve_target_addr lookup_host (domain name port) = lookup_host name port

-- What `send_to` sends. Client sockets are bound to 0.0.0.0, so it fails for an IPv6 address.
abbrev pub sent_to : Sending → Option SocketAddr → List Traffic
sent_to p none = []
sent_to p (some (v4 octets port)) = forwarded p.client p.socket (v4 octets port) p.payload ∷ []
sent_to p (some (v6 octets port)) = []

-- What the listener sends for a datagram on its socket, whoever it is from.
unfoldable pub response : Listener → Bytes → Traffic
response l payload = delivered l.client l.socket (build_socks5_udp_response l.target payload)

module _ (lookup_host : Bytes → ℕ → Option SocketAddr) where
  -- `loop_ends` is the return of `relay_loop`: its `select!`, which may take datagrams first, has
  -- taken the end of the control connection or an error of `recv_from`. `resolves` is the lookup
  -- and a `send_to` that fails for no other reason than the address, `send_fails` any other failure
  -- of one of them. `ends` is a failed `recv_from` or `send_to` of a listener.
  pub data Step (s : Relay) : Relay → Type 0 where
    receives :
        (client : SocketAddr) (datagram : Bytes)
        → s.is_open ≡ true
        → Step s (receive client datagram s)
    loop_ends : s.is_open ≡ true → Step s (record s { is_open = false })
    binds :
        (before after : List Waiting) (w : Waiting)
        → s.waiting ≡ before ++ w ∷ after
        → Step s (bound w (before ++ after) s)
    bind_fails :
        (before after : List Waiting) (w : Waiting)
        → s.waiting ≡ before ++ w ∷ after
        → Step s (record s { waiting = before ++ after })
    resolves :
        (before after : List Sending) (p : Sending)
        → s.sending ≡ before ++ p ∷ after
        → Step s (record s {
          sending = before ++ after;
          log = s.log ++ sent_to p (resolve_target_addr lookup_host p.target);
        })
    send_fails :
        (before after : List Sending) (p : Sending)
        → s.sending ≡ before ++ p ∷ after
        → Step s (record s { sending = before ++ after })
    responds :
        (before after : List Listener) (l : Listener) (payload : Bytes)
        → s.listeners ≡ before ++ l ∷ after
        → Step s (record s { log = s.log ++ response l payload ∷ [] })
    ends :
        (before after : List Listener) (l : Listener)
        → s.listeners ≡ before ++ l ∷ after
        → Step s
            (record s { listeners = before ++ after; client_map = remove l.client s.client_map })

  pub data Steps (s : Relay) : Relay → Type 0 where
    here : Steps s s
    next : {t u : Relay} → Steps s t → Step t u → Steps s u
