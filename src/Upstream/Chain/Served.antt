-- ===== src/Upstream/Chain/Served.antt =====
-- A chain whose proxies are servers of this program: src/upstream/chain.rs against
-- src/protocol/socks5.
use mathlib.Core.List.{append_assoc, append-nil}
use peregrine_proxy.Base.{
  ℕ, ◌≡◌, refl, sym, ap, ◌∙◌, Option, none, some, List, [], ◌∷◌, ◌++◌, All, All-weaken,
}
use peregrine_proxy.Base.Text.{Bytes}
use peregrine_proxy.Config.{UserCredential}
use peregrine_proxy.Stream.{Conn, dial, tunnel, done}
use peregrine_proxy.Network.{Network, opened}
use peregrine_proxy.Acl.Auth.{Base64}
use peregrine_proxy.Socks5.{handle_socks5}
use peregrine_proxy.Socks5.Session.{target_text}
use peregrine_proxy.Upstream.{address, address_text}
use peregrine_proxy.Upstream.Socks5Client.{after}
use peregrine_proxy.Upstream.Socks5Client.Wire.{target_of}
use peregrine_proxy.Upstream.Socks5Client.Interop.{server_reads_open, server_reads_login}
use peregrine_proxy.Upstream.Chain.{chain_connect}
use peregrine_proxy.Upstream.Chain.Opened.{chain_connect-run_hops}
use peregrine_proxy.Upstream.Chain.Relays.{
  Speaks, by_socks5, by_login, by_http, answer, segment, Relay, chain_of, Accepts, IsRelay,
  agreement, segments, asks, transcript,
}
use peregrine_proxy.Upstream.Chain.Hops.{run_hops_lem}
use peregrine_proxy.Upstream.Chain.Servers.{
  accepted, Served, with_server, asked_of, serve_chain, next_addresses, tunnels, Carried, Serves,
  IsServer, Opens,
}

-- One session on a connection of its own, with what it leaves.
abbrev session : Speaks → Bytes → Bytes → Conn
session kind rest addr = record (accepted rest) {
  output = answer kind [];
  events = dial addr ∷ tunnel addr ∷ [];
}

answer-append : (kind : Speaks) (rest : Bytes) → answer kind [] ++ rest ≡ answer kind rest
answer-append by_socks5 rest = refl
answer-append by_login rest = refl
answer-append (by_http response) rest = append_assoc response [] rest

Serves-Accepts :
    (kind : Speaks) (listed : List UserCredential) (auth : Option UserCredential)
    → Serves kind listed auth
    → Accepts kind auth
Serves-Accepts by_socks5 listed auth k = tt
Serves-Accepts by_login listed none k = absurd k
Serves-Accepts by_login listed (some auth) k = tt
Serves-Accepts (by_http response) listed auth k = absurd k

agreement-append :
    (hops : List Relay) (rest : Bytes) → agreement hops rest ≡ agreement hops [] ++ rest
unfolding agreement
agreement-append [] rest = refl
agreement-append (r ∷ hops) rest =
    ap (answer r.speaks) (agreement-append hops rest)
    ∙ sym (answer-append r.speaks (agreement hops [] ++ rest))
    ∙ sym (append_assoc (answer r.speaks []) (agreement hops []) rest)
    ∙ ap (λ a. a ++ rest) (answer-append r.speaks (agreement hops []))

segment_served :
    (kind : Speaks) (listed : List UserCredential) (auth : Option UserCredential) (later : List ℕ)
    → Serves kind listed auth
    → segment kind later ≡ later
segment_served by_socks5 listed auth later k = refl
segment_served by_login listed auth later k = refl
segment_served (by_http response) listed auth later k = absurd k

module _ (net : Network) (base64 : Base64) where
  serve_by :
      (kind : Speaks) (users : List UserCredential) (auth : Option UserCredential)
      (host rest : Bytes) (port : ℕ)
      → Serves kind users auth
      → Carried host port
      → Opens net (target_text (target_of host port))
      → handle_socks5 net (asked_of kind users) (accepted (asks base64 kind auth host port ++ rest))
        ≡ session kind rest (target_text (target_of host port))
  serve_by by_socks5 users auth host rest port k (h, u, p) (c, reached) =
      server_reads_open net auth host rest port c
        (accepted (asks base64 by_socks5 auth host port ++ rest)) reached refl refl h u p
  serve_by by_login users none host rest port k fits opens = absurd k
  serve_by by_login users (some auth) host rest port (listed, lu, uu, lp, up) (h, u, p)
        (c, reached) =
      server_reads_login net users auth host rest port c
        (accepted (asks base64 by_login (some auth) host port ++ rest)) reached listed lu uu lp up h
        u p refl refl
  serve_by (by_http response) users auth host rest port k fits opens = absurd k

module _ (net : Network) (base64 : Base64) (users : Relay → List UserCredential) where
  -- One server: it answers, opens its tunnel, and gives the rest to the servers behind it.
  serve_one :
      (r : Relay) (hops : List Relay) (host rest : Bytes) (port : ℕ) (behind : Served)
      → Serves r.speaks (users r) r.auth
      → Carried host port
      → Opens net (target_text (target_of host port))
      → serve_chain net users hops rest ≡ behind
      → serve_chain net users (r ∷ hops) (asks base64 r.speaks r.auth host port ++ rest) ≡ record {
        left = behind.left;
        answers = answer r.speaks behind.answers;
        events =
            dial (target_text (target_of host port))
            ∷ tunnel (target_text (target_of host port))
            ∷ behind.events;
      }
  unfolding serve_chain
  serve_one r hops host rest port behind k fits opens e =
      let addr = target_text (target_of host port) in
      ap (λ s. with_server s (serve_chain net users hops s.input))
        (serve_by net base64 r.speaks (users r) r.auth host rest port k fits opens)
      ∙ ap (with_server (session r.speaks rest addr)) e
      ∙ ap
          (λ a. record {
            left = behind.left;
            answers = a;
            events = dial addr ∷ tunnel addr ∷ behind.events;
          })
          (answer-append r.speaks behind.answers)

  -- Each server has its session and opens its tunnel.
  pub serve_chain_lem :
      (hops : List Relay) (host rest : Bytes) (port : ℕ)
      → All (IsServer users) hops
      → Carried host port
      → All (Opens net) (next_addresses hops host port)
      → serve_chain net users hops (transcript base64 hops host port ++ rest) ≡ record {
        left = rest;
        answers = agreement hops [];
        events = tunnels (next_addresses hops host port);
      }
  unfolding serve_chain transcript agreement next_addresses tunnels
  serve_chain_lem [] host rest port h fits reached = refl
  serve_chain_lem (r ∷ []) host rest port h fits reached =
      ap (λ i. serve_chain net users (r ∷ []) (i ++ rest))
        (append-nil (asks base64 r.speaks r.auth host port))
      ∙ serve_one r [] host rest port (record { left = rest; answers = []; events = [] }) h.0.0 fits
          reached.0 refl
  serve_chain_lem (r ∷ next ∷ hops) host rest port h fits reached =
      let later = transcript base64 (next ∷ hops) host port in
      ap (serve_chain net users (r ∷ next ∷ hops))
        (append_assoc (asks base64 r.speaks r.auth next.host next.port) later rest)
      ∙ serve_one r (next ∷ hops) next.host (later ++ rest) next.port
          (record {
            left = rest;
            answers = agreement (next ∷ hops) [];
            events = tunnels (next_addresses (next ∷ hops) host port);
          })
          h.0.0 h.1.0.1 reached.0 (serve_chain_lem (next ∷ hops) host rest port h.1 fits reached.1)

  server-IsRelay : (r : Relay) → IsServer users r → IsRelay r
  server-IsRelay r (k, fits) = (fits.2, Serves-Accepts r.speaks (users r) r.auth k)

  segments_served :
      (hops : List Relay) (later : List ℕ) → All (IsServer users) hops → segments hops later ≡ later
  unfolding segments
  segments_served [] later h = refl
  segments_served (r ∷ hops) later h =
      ap (segment r.speaks) (segments_served hops later h.1)
      ∙ segment_served r.speaks (users r) r.auth later h.0.0

  -- Servers of this program, one behind the other, each without users or with users that list the
  -- credentials configured for it (UTF-8, at most 255 bytes each), each able to open the next one's
  -- address and the last the target, with hosts in UTF-8 of at most 255 bytes and ports below
  -- 65536, serve the chain connector: given what it writes and `up` behind it, each opens a tunnel
  -- to the next, the last to the target, and `up` is left for the target; and given their answers,
  -- in whatever segments, and `down` behind them, the connector connects through the stream to the
  -- first, has written just that, and leaves `down`.
  pub chain_connect-serve_chain :
      (r : Relay) (later : List Relay) (host up down : Bytes) (port : ℕ) (c : Conn)
      → All (IsServer users) (r ∷ later)
      → Carried host port
      → All (Opens net) (next_addresses (r ∷ later) host port)
      → net.tcp_connect (address_text r.host r.port) ≡ opened c
      → c.input
        ≡ (serve_chain net users
            (r ∷ later)
            (transcript base64 (r ∷ later) host port ++ up)).answers
          ++ down
      → c.room ≡ none
      → (chain_connect base64 net (chain_of (r ∷ later)) (address host port)
          ≡ done (record c {
            input = down;
            output = c.output ++ transcript base64 (r ∷ later) host port;
          }))
        × ((serve_chain net users (r ∷ later) (transcript base64 (r ∷ later) host port ++ up)).left
            ≡ up)
        × ((serve_chain net users
              (r ∷ later)
              (transcript base64 (r ∷ later) host port ++ up)).events
            ≡ tunnels (next_addresses (r ∷ later) host port))
  chain_connect-serve_chain r later host up down port c h fits reached first e room =
      let hops = r ∷ later in
      let served = serve_chain_lem hops host up port h fits reached in
      let told = e ∙ ap (λ s. s.answers ++ down) served ∙ sym (agreement-append hops down) in
      (
        chain_connect-run_hops base64 net (address host port) c r later first
            ∙ ap after (
                run_hops_lem base64 host port hops down c.segments c
                  (All-weaken hops server-IsRelay h) told (sym (segments_served hops c.segments h))
                  room),
        ap (λ s. s.left) served,
        ap (λ s. s.events) served,
      )
