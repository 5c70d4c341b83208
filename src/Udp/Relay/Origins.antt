-- ===== src/Udp/Relay/Origins.antt =====
-- Where the traffic of the relay comes from.
use peregrine_proxy.Base.{
  ℕ, ◌≡◌, refl, Option, none, some, List, [], ◌∷◌, All, All-append, All-weaken, All-without, All-at,
  ◌⊎◌, inl, inr,
}
use peregrine_proxy.Base.Text.{Bytes}
use peregrine_proxy.Error.{ProxyResult, ok, err}
use peregrine_proxy.Network.{SocketAddr, v4, v6}
use peregrine_proxy.Socks5.Handshake.{TargetAddr}
use peregrine_proxy.Udp.{parse_socks5_udp_packet, build_socks5_udp_response}
use peregrine_proxy.Udp.Relay.{
  Waiting, Sending, Listener, Traffic, forwarded, delivered, Relay, start, get, route,
  accept_packet, receive, bound, resolve_target_addr, sent_to, response, receives, loop_ends, binds,
  bind_fails, resolves, send_fails, responds, ends, Steps, here, next,
}

abbrev pub History : Type 0
History = List (SocketAddr × Bytes)

-- A datagram of the history is a packet of this client with this target and this payload.
abbrev pub Came : History → SocketAddr → TargetAddr → Bytes → Type 0
Came [] client target payload = ⊥
Came ((from, datagram) ∷ history) client target payload =
    ((from ≡ client) × (parse_socks5_udp_packet datagram ≡ ok (target, payload)))
    ⊎ Came history client target payload

module _ (lookup_host : Bytes → ℕ → Option SocketAddr) where
  -- The datagrams that the relay has received, the newest first.
  unfoldable pub history : {s t : Relay} → Steps lookup_host s t → History
  history here = []
  history (next steps (receives client datagram running)) = (client, datagram) ∷ history steps
  history (next steps (loop_ends running)) = history steps
  history (next steps (binds before after w e)) = history steps
  history (next steps (bind_fails before after w e)) = history steps
  history (next steps (resolves before after p e)) = history steps
  history (next steps (send_fails before after p e)) = history steps
  history (next steps (responds before after l payload e)) = history steps
  history (next steps (ends before after l e)) = history steps

  -- What is sent to a target is the payload of a packet for it, and what is sent to a client names
  -- a target that this client has sent a packet to.
  abbrev pub Sent : History → Traffic → Type 0
  Sent h (forwarded client socket addr payload) =
      (target : TargetAddr) × Came h client target payload
      × (resolve_target_addr lookup_host target ≡ some addr)
  Sent h (delivered client socket packet) =
      (target : TargetAddr) × (first answer : Bytes) × Came h client target first
      × (packet ≡ build_socks5_udp_response target answer)

  abbrev pub FromWaiting : History → Waiting → Type 0
  FromWaiting h w = Came h w.client w.target w.payload

  abbrev pub FromSending : History → Sending → Type 0
  FromSending h p = Came h p.client p.target p.payload

  abbrev pub FromListener : History → Listener → Type 0
  FromListener h l = (first : Bytes) × Came h l.client l.target first

  abbrev pub Honest : History → Relay → Type 0
  Honest h s =
      All (FromWaiting h) s.waiting
      × All (FromSending h) s.sending
      × All (FromListener h) s.listeners
      × All (Sent h) s.log

  -- More history changes nothing of what came before.
  Sent-later : (h : History) (c : SocketAddr × Bytes) (t : Traffic) → Sent h t → Sent (c ∷ h) t
  Sent-later h c (forwarded client socket addr payload) (target, came, e) = (target, inr came, e)
  Sent-later h c (delivered client socket packet) (target, first, answer, came, e) =
      (target, first, answer, inr came, e)

  Honest-later : (h : History) (c : SocketAddr × Bytes) (s : Relay) → Honest h s → Honest (c ∷ h) s
  Honest-later h c s (w, p, l, t) = (
    All-weaken s.waiting (λ x k. inr k) w,
    All-weaken s.sending (λ x k. inr k) p,
    All-weaken s.listeners (λ x k. (k.0, inr k.1)) l,
    All-weaken s.log (Sent-later h c) t,
  )

  Honest-route :
      (h : History) (client : SocketAddr) (target : TargetAddr) (payload : Bytes) (o : Option ℕ)
      (s : Relay)
      → Came h client target payload
      → Honest h s
      → Honest h (route client target payload o s)
  unfolding route
  Honest-route h client target payload (some socket) s came (w, p, l, t) = (w, (came, p), l, t)
  Honest-route h client target payload none s came (w, p, l, t) = ((came, w), p, l, t)

  Honest-accept :
      (h : History) (client : SocketAddr) (datagram : Bytes)
      (parsed : ProxyResult (TargetAddr × Bytes)) (s : Relay)
      → parse_socks5_udp_packet datagram ≡ parsed
      → Honest h s
      → Honest ((client, datagram) ∷ h) (accept_packet client parsed s)
  Honest-accept h client datagram (err e) s k honest = Honest-later h (client, datagram) s honest
  Honest-accept h client datagram (ok (target, payload)) s k honest =
      Honest-route ((client, datagram) ∷ h) client target payload (get client s.client_map) s
        (inl (refl, k)) (Honest-later h (client, datagram) s honest)

  sent_to-Sent :
      (h : History) (p : Sending) (o : Option SocketAddr)
      → resolve_target_addr lookup_host p.target ≡ o
      → FromSending h p
      → All (Sent h) (sent_to p o)
  sent_to-Sent h p none e came = tt
  sent_to-Sent h p (some (v4 octets port)) e came = ((p.target, came, e), tt)
  sent_to-Sent h p (some (v6 octets port)) e came = tt

  -- In every run, whatever the order of the tasks, the relay is honest.
  pub Honest-Steps : {t : Relay} (steps : Steps lookup_host start t) → Honest (history steps) t
  unfolding history receive bound response
  Honest-Steps here = (tt, tt, tt, tt)
  Honest-Steps (next {t = s} steps (receives client datagram running)) =
      Honest-accept (history steps) client datagram (parse_socks5_udp_packet datagram) s refl
        (Honest-Steps steps)
  Honest-Steps (next steps (loop_ends running)) = Honest-Steps steps
  Honest-Steps (next {t = s} steps (binds before after w e)) =
      let (ws, ps, ls, ts) = Honest-Steps steps in
      let ws' = rw e at ws in
      let came = All-at (FromWaiting (history steps)) before after w ws' in
      (
        All-without (FromWaiting (history steps)) before after w ws',
        (came, ps),
        ((w.payload, came), ls),
        ts,
      )
  Honest-Steps (next {t = s} steps (bind_fails before after w e)) =
      let (ws, ps, ls, ts) = Honest-Steps steps in
      (All-without (FromWaiting (history steps)) before after w (rw e at ws), ps, ls, ts)
  Honest-Steps (next {t = s} steps (resolves before after p e)) =
      let (ws, ps, ls, ts) = Honest-Steps steps in
      let ps' = rw e at ps in
      (
        ws,
        All-without (FromSending (history steps)) before after p ps',
        ls,
        All-append (Sent (history steps)) s.log _ ts (
            sent_to-Sent (history steps) p (resolve_target_addr lookup_host p.target) refl
              (All-at (FromSending (history steps)) before after p ps')),
      )
  Honest-Steps (next steps (send_fails before after p e)) =
      let (ws, ps, ls, ts) = Honest-Steps steps in
      (ws, All-without (FromSending (history steps)) before after p (rw e at ps), ls, ts)
  Honest-Steps (next {t = s} steps (responds before after l payload e)) =
      let (ws, ps, ls, ts) = Honest-Steps steps in
      let (first, came) = All-at (FromListener (history steps)) before after l (rw e at ls) in
      (
        ws,
        ps,
        ls,
        All-append (Sent (history steps)) s.log _ ts ((l.target, first, payload, came, refl), tt),
      )
  Honest-Steps (next {t = s} steps (ends before after l e)) =
      let (ws, ps, ls, ts) = Honest-Steps steps in
      (ws, ps, All-without (FromListener (history steps)) before after l (rw e at ls), ts)
