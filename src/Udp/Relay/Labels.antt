-- ===== src/Udp/Relay/Labels.antt =====
-- From whom a client is told that a response comes.
use peregrine_proxy.Base.{
  ℕ, suc, ◌≡◌, ◌<◌, ◌≤◌, ◌==◌, if◌then◌else◌, refl, sym, ap, ◌∙◌, true, Option, none, some, List,
  All, All-append, All-weaken, All-without, All-at, list_eq_refl, arith,
}
use peregrine_proxy.Base.Text.{Bytes}
use peregrine_proxy.Network.{SocketAddr, v4, v6}
use peregrine_proxy.Socks5.Handshake.{TargetAddr}
use peregrine_proxy.Error.{ProxyResult, ok, err}
use peregrine_proxy.Udp.{parse_socks5_udp_packet, build_socks5_udp_response}
use peregrine_proxy.Udp.Relay.{
  same_addr, get, put, Sending, Listener, Traffic, forwarded, delivered, Relay, route,
  accept_packet, receive, bound, resolve_target_addr, sent_to, response, Step, receives, loop_ends,
  binds, bind_fails, resolves, send_fails, responds, ends, Steps, here, next,
}

pub same_addr_refl : (a : SocketAddr) → same_addr a a ≡ true
unfolding same_addr
same_addr_refl (v4 octets port) = ground (arith, list_eq_refl octets)
same_addr_refl (v6 octets port) = ground (arith, list_eq_refl octets)

get-put :
    (client : SocketAddr) (socket : ℕ) (entries : List (SocketAddr × ℕ))
    → get client (put client socket entries) ≡ some socket
unfolding get
get-put client socket entries = rw (same_addr_refl client)

-- Every listener of a socket, and every response through it, has the label of the socket.
abbrev pub Labels : Type 0
Labels = ℕ → TargetAddr

abbrev pub IsLabelled : Labels → ℕ → Listener → Type 0
IsLabelled label opened l = (l.target ≡ label l.socket) × (l.socket < opened)

abbrev pub Says : Labels → ℕ → Traffic → Type 0
Says label opened (forwarded client socket addr payload) = Unit
Says label opened (delivered client socket packet) =
    (answer : Bytes) × (packet ≡ build_socks5_udp_response (label socket) answer)
    × (socket < opened)

abbrev pub AllLabelled : Labels → Relay → Type 0
AllLabelled label s = All (IsLabelled label s.opened) s.listeners × All (Says label s.opened) s.log

-- The labels once one more socket is bound.
with_label : Labels → ℕ → TargetAddr → Labels
with_label label opened target n = if n == opened then target else label n

with_label-old :
    (label : Labels) (opened n : ℕ) (target : TargetAddr)
    → n < opened
    → with_label label opened target n ≡ label n
unfolding with_label
with_label-old label opened n target h = ground arith

with_label-new :
    (label : Labels) (opened : ℕ) (target : TargetAddr)
    → target ≡ with_label label opened target opened
unfolding with_label
with_label-new label opened target = ground arith

still_IsLabelled :
    (label : Labels) (opened : ℕ) (target : TargetAddr) (l : Listener)
    → IsLabelled label opened l
    → IsLabelled (with_label label opened target) (suc opened) l
still_IsLabelled label opened target l (e, h) =
    (e ∙ sym (with_label-old label opened l.socket target h), omega arith)

still_Says :
    (label : Labels) (opened : ℕ) (target : TargetAddr) (t : Traffic)
    → Says label opened t
    → Says (with_label label opened target) (suc opened) t
still_Says label opened target (forwarded client socket addr payload) h = tt
still_Says label opened target (delivered client socket packet) (answer, e, h) = (
  answer,
  e
      ∙ ap (λ n. build_socks5_udp_response n answer)
          (sym (with_label-old label opened socket target h)),
  omega arith,
)

sent_to-Says :
    (label : Labels) (opened : ℕ) (p : Sending) (o : Option SocketAddr)
    → All (Says label opened) (sent_to p o)
sent_to-Says label opened p none = tt
sent_to-Says label opened p (some (v4 octets port)) = (tt, tt)
sent_to-Says label opened p (some (v6 octets port)) = tt

-- Labels of a later state; those of the sockets that were open have stayed.
abbrev pub Relabels : Labels → Relay → Relay → Type 0
Relabels label s t =
    (label' : Labels) × AllLabelled label' t
    × (s.opened ≤ t.opened)
    × ((n : ℕ) → n < s.opened → label' n ≡ label n)

route-AllLabelled :
    (label : Labels) (client : SocketAddr) (target : TargetAddr) (payload : Bytes) (o : Option ℕ)
    (s : Relay)
    → AllLabelled label s
    → Relabels label s (route client target payload o s)
unfolding route
route-AllLabelled label client target payload none s h = (label, h, omega arith, λ n k. refl)
route-AllLabelled label client target payload (some k) s h = (label, h, omega arith, λ n k. refl)

accept-AllLabelled :
    (label : Labels) (client : SocketAddr) (packet : ProxyResult (TargetAddr × Bytes)) (s : Relay)
    → AllLabelled label s
    → Relabels label s (accept_packet client packet s)
accept-AllLabelled label client (err e) s h = (label, h, omega arith, λ n k. refl)
accept-AllLabelled label client (ok (target, payload)) s h =
    route-AllLabelled label client target payload (get client s.client_map) s h

module _ (lookup_host : Bytes → ℕ → Option SocketAddr) where
  AllLabelled-step :
      {s t : Relay} (label : Labels)
      → Step lookup_host s t
      → AllLabelled label s
      → Relabels label s t
  unfolding receive response bound
  AllLabelled-step {s = s} label (receives client datagram running) h =
      accept-AllLabelled label client (parse_socks5_udp_packet datagram) s h
  AllLabelled-step {s = s} label (loop_ends running) h = (label, h, omega arith, λ n k. refl)
  AllLabelled-step {s = s} label (binds before after w e) (ls, ts) = (
    with_label label s.opened w.target,
    (
      (
        (with_label-new label s.opened w.target, omega arith),
        All-weaken s.listeners (still_IsLabelled label s.opened w.target) ls,
      ),
      All-weaken s.log (still_Says label s.opened w.target) ts,
    ),
    omega arith,
    λ n k. with_label-old label s.opened n w.target k,
  )
  AllLabelled-step {s = s} label (bind_fails before after w e) h =
      (label, h, omega arith, λ n k. refl)
  AllLabelled-step {s = s} label (resolves before after p e) (ls, ts) =
      let sent = sent_to-Says label s.opened p (resolve_target_addr lookup_host p.target) in
      (label, (ls, All-append _ s.log _ ts sent), omega arith, λ n k. refl)
  AllLabelled-step {s = s} label (send_fails before after p e) h =
      (label, h, omega arith, λ n k. refl)
  AllLabelled-step {s = s} label (responds before after l payload e) (ls, ts) =
      let (same, old) = All-at (IsLabelled label s.opened) before after l (rw e at ls) in
      let said = ap (λ n. build_socks5_udp_response n payload) same in
      (label, (ls, All-append _ s.log _ ts ((payload, said, old), tt)), omega arith, λ n k. refl)
  AllLabelled-step {s = s} label (ends before after l e) (ls, ts) =
      (label, (All-without _ before after l (rw e at ls), ts), omega arith, λ n k. refl)

  pub AllLabelled-Steps :
      {s t : Relay} (label : Labels)
      → Steps lookup_host s t
      → AllLabelled label s
      → Relabels label s t
  AllLabelled-Steps {s = s} label here h = (label, h, omega arith, λ n k. refl)
  AllLabelled-Steps label (next steps step) h =
      let (middle, h', grows, keeps) = AllLabelled-Steps label steps h in
      let (last, h2, grows', keeps') = AllLabelled-step middle step h' in
      (last, h2, omega arith, λ n k. keeps' n (omega arith) ∙ keeps n k)
