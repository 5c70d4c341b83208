-- ===== src/Udp/Relay/Owners.antt =====
-- Each socket of the relay serves one client.
use peregrine_proxy.Base.{
  ℕ, suc, ◌<◌, ◌≡◌, refl, sym, ap, ◌∙◌, true, Option, none, some, List, [], ◌∷◌, ◌++◌, All,
  All-append, All-weaken, All-without, All-at, list_eq→eq, ◌==◌, if◌then◌else◌, arith, Bool-cases,
  inl, inr,
}
use peregrine_proxy.Base.Text.{Bytes}
use peregrine_proxy.Error.{ProxyResult, ok, err}
use peregrine_proxy.Network.{SocketAddr, v4, v6}
use peregrine_proxy.Socks5.Handshake.{TargetAddr}
use peregrine_proxy.Udp.{parse_socks5_udp_packet}
use peregrine_proxy.Udp.Relay.{
  same_addr, get, remove, Waiting, Sending, Traffic, forwarded, delivered, Relay, start, route,
  accept_packet, receive, bound, resolve_target_addr, sent_to, response, Step, receives, loop_ends,
  binds, bind_fails, resolves, send_fails, responds, ends, Steps, here, next,
}

same_addr→eq : (a b : SocketAddr) → same_addr a b ≡ true → a ≡ b
unfolding same_addr
same_addr→eq (v4 a p) (v4 b q) h = ground (arith, list_eq→eq a b)
same_addr→eq (v4 a p) (v6 b q) h = absurd (cc)
same_addr→eq (v6 a p) (v4 b q) h = absurd (cc)
same_addr→eq (v6 a p) (v6 b q) h = ground (arith, list_eq→eq a b)

-- The client and the socket of what was sent.
abbrev pub party : Traffic → SocketAddr
party (forwarded client socket addr payload) = client
party (delivered client socket packet) = client

abbrev pub socket_of : Traffic → ℕ
socket_of (forwarded client socket addr payload) = socket
socket_of (delivered client socket packet) = socket

-- Every use of a socket is for the client that owns it.
abbrev pub Owned : (ℕ → SocketAddr) → ℕ → SocketAddr → ℕ → Type 0
Owned owner opened client socket = (owner socket ≡ client) × (socket < opened)

abbrev pub AllOwned : (ℕ → SocketAddr) → Relay → Type 0
AllOwned owner s =
    All (λ e. Owned owner s.opened e.0 e.1) s.client_map
    × All (λ p. Owned owner s.opened p.client p.socket) s.sending
    × All (λ l. Owned owner s.opened l.client l.socket) s.listeners
    × All (λ t. Owned owner s.opened (party t) (socket_of t)) s.log

module _ (P : SocketAddr × ℕ → Type 0) where
  remove-All :
      (client : SocketAddr) (entries : List (SocketAddr × ℕ))
      → All P entries
      → All P (remove client entries)
  unfolding remove
  remove-All client [] h = tt
  remove-All client ((key, socket) ∷ rest) h = elim (Bool-cases (same_addr client key)) [
    | inl same ↦ rw same (remove-All client rest h.1)
    | inr other ↦ rw other (h.0, remove-All client rest h.1)
  ]

get-Owned :
    (owner : ℕ → SocketAddr) (opened : ℕ) (client : SocketAddr) (entries : List (SocketAddr × ℕ))
    (socket : ℕ)
    → All (λ e. Owned owner opened e.0 e.1) entries
    → get client entries ≡ some socket
    → Owned owner opened client socket
unfolding get
get-Owned owner opened client [] socket h e = absurd (cc)
get-Owned owner opened client ((key, n) ∷ rest) socket h e =
    elim (Bool-cases (same_addr client key)) [
      | inl same ↦ ground (arith, same_addr→eq client key same)
      | inr other ↦ get-Owned owner opened client rest socket h.1 (rw other at e)
    ]

-- The owners once one more socket is bound.
with_owner : (ℕ → SocketAddr) → ℕ → SocketAddr → ℕ → SocketAddr
with_owner owner opened client n = if n == opened then client else owner n

still_Owned :
    (owner : ℕ → SocketAddr) (opened : ℕ) (new client : SocketAddr) (socket : ℕ)
    → Owned owner opened client socket
    → Owned (with_owner owner opened new) (suc opened) client socket
unfolding with_owner
still_Owned owner opened new client socket h = ground arith

new_Owned :
    (owner : ℕ → SocketAddr) (opened : ℕ) (client : SocketAddr)
    → Owned (with_owner owner opened client) (suc opened) client opened
unfolding with_owner
new_Owned owner opened client = ground arith

-- All uses keep their owners when one more socket is bound.
still_AllOwned :
    (owner : ℕ → SocketAddr) (new : SocketAddr) (s : Relay)
    → AllOwned owner s
    → AllOwned (with_owner owner s.opened new) (record s { opened = suc s.opened })
still_AllOwned owner new s (m, p, l, t) = (
  All-weaken s.client_map (λ e h. still_Owned owner s.opened new e.0 e.1 h) m,
  All-weaken s.sending (λ x h. still_Owned owner s.opened new x.client x.socket h) p,
  All-weaken s.listeners (λ x h. still_Owned owner s.opened new x.client x.socket h) l,
  All-weaken s.log (λ x h. still_Owned owner s.opened new (party x) (socket_of x) h) t,
)

bound-AllOwned :
    (owner : ℕ → SocketAddr) (w : Waiting) (others : List Waiting) (s : Relay)
    → AllOwned owner s
    → AllOwned (with_owner owner s.opened w.client) (bound w others s)
unfolding bound
bound-AllOwned owner w others s h =
    let new = new_Owned owner s.opened w.client in
    let (m, p, l, t) = still_AllOwned owner w.client s h in
    ((new, remove-All _ w.client s.client_map m), (new, p), (new, l), t)

route-AllOwned :
    (owner : ℕ → SocketAddr) (client : SocketAddr) (target : TargetAddr) (payload : Bytes)
    (found : Option ℕ) (s : Relay)
    → get client s.client_map ≡ found
    → AllOwned owner s
    → AllOwned owner (route client target payload found s)
unfolding route
route-AllOwned owner client target payload none s e h = h
route-AllOwned owner client target payload (some socket) s e (m, p, l, t) =
    (m, (get-Owned owner s.opened client s.client_map socket m e, p), l, t)

receive-AllOwned :
    (owner : ℕ → SocketAddr) (client : SocketAddr) (s : Relay)
    (packet : ProxyResult (TargetAddr × Bytes))
    → AllOwned owner s
    → AllOwned owner (accept_packet client packet s)
receive-AllOwned owner client s (err e) h = h
receive-AllOwned owner client s (ok (target, payload)) h =
    route-AllOwned owner client target payload (get client s.client_map) s refl h

sent-AllOwned :
    (owner : ℕ → SocketAddr) (opened : ℕ) (p : Sending) (addr : Option SocketAddr)
    → Owned owner opened p.client p.socket
    → All (λ t. Owned owner opened (party t) (socket_of t)) (sent_to p addr)
sent-AllOwned owner opened p none h = tt
sent-AllOwned owner opened p (some (v4 octets port)) h = (h, tt)
sent-AllOwned owner opened p (some (v6 octets port)) h = tt

module _ (lookup_host : Bytes → ℕ → Option SocketAddr) where
  AllOwned-step :
      {s t : Relay} (owner : ℕ → SocketAddr)
      → Step lookup_host s t
      → AllOwned owner s
      → (owner' : ℕ → SocketAddr) × AllOwned owner' t
  unfolding receive response
  AllOwned-step {s = s} owner (receives client datagram running) h =
      (owner, receive-AllOwned owner client s (parse_socks5_udp_packet datagram) h)
  AllOwned-step {s = s} owner (binds before after w e) h =
      (with_owner owner s.opened w.client, bound-AllOwned owner w (before ++ after) s h)
  AllOwned-step owner (loop_ends running) h = (owner, h)
  AllOwned-step owner (bind_fails before after w e) h = (owner, h)
  AllOwned-step {s = s} owner (resolves before after p e) (m, ps, l, t) =
      let here = rw e at ps in
      (
        owner,
        (
          m,
          All-without _ before after p here,
          l,
          All-append _ s.log (sent_to p (resolve_target_addr lookup_host p.target)) t (
              sent-AllOwned owner s.opened p (resolve_target_addr lookup_host p.target)
                (All-at _ before after p here)),
        ),
      )
  AllOwned-step owner (send_fails before after p e) (m, ps, l, t) =
      (owner, (m, All-without _ before after p (rw e at ps), l, t))
  AllOwned-step {s = s} owner (responds before after l payload e) (m, ps, ls, t) = (
    owner,
    (
      m,
      ps,
      ls,
      All-append _ s.log (response l payload ∷ []) t (All-at _ before after l (rw e at ls), tt),
    ),
  )
  AllOwned-step {s = s} owner (ends before after l e) (m, ps, ls, t) = (
    owner,
    (remove-All _ l.client s.client_map m, ps, All-without _ before after l (rw e at ls), t),
  )

  AllOwned-Steps :
      {s t : Relay} (owner : ℕ → SocketAddr)
      → Steps lookup_host s t
      → AllOwned owner s
      → (owner' : ℕ → SocketAddr) × AllOwned owner' t
  AllOwned-Steps owner here h = (owner, h)
  AllOwned-Steps owner (next steps step) h =
      let (owner', h') = AllOwned-Steps owner steps h in AllOwned-step owner' step h'

  -- Clients are kept apart: whatever the order of packets, bindings, resolutions and responses, all
  -- that is ever sent through one of the relay's sockets, or because of what it received, concerns
  -- the same client.
  pub same_socket-same_client :
      (s : Relay) (b a b' a' : List Traffic) (x y : Traffic)
      → Steps lookup_host start s
      → s.log ≡ b ++ x ∷ a
      → s.log ≡ b' ++ y ∷ a'
      → socket_of x ≡ socket_of y
      → party x ≡ party y
  same_socket-same_client s b a b' a' x y steps e e' same =
      let (owner, (m, p, l, t)) = AllOwned-Steps (λ n. v4 [] 0) steps (tt, tt, tt, tt) in
      sym (All-at _ b a x (rw e at t)).0 ∙ ap owner same ∙ (All-at _ b' a' y (rw e' at t)).0
