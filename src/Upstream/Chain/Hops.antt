-- ===== src/Upstream/Chain/Hops.antt =====
-- Which targets the hops of a chain are asked for.
use mathlib.Core.List.{append_assoc, append-nil}
use peregrine_proxy.Base.{
  ℕ, ◌<◌, ◌≡◌, refl, sym, ap, ◌∙◌, Bool, Option, none, some, List, [], ◌∷◌, ◌++◌, All,
}
use peregrine_proxy.Base.Text.{Bytes}
use peregrine_proxy.Config.{UserCredential, direct, UpstreamChain, nil, hop}
use peregrine_proxy.Stream.{Conn, Outcome, done}
use peregrine_proxy.Acl.Auth.{Base64}
use peregrine_proxy.Upstream.{ConnectTarget, address, address_text}
use peregrine_proxy.Upstream.Socks5Client.Wire.{
  perform_socks5_handshake_open, perform_socks5_handshake_login,
}
use peregrine_proxy.Upstream.HttpClient.Answer.{perform_http_handshake_lem}
use peregrine_proxy.Upstream.Chain.{
  extract_proxy_address, perform_proxy_handshake, next_target, run_hops,
}
use peregrine_proxy.Upstream.Chain.Addresses.{parse_addr-address_text}
use peregrine_proxy.Upstream.Chain.Relays.{
  Speaks, by_socks5, by_login, by_http, Relay, config_as, config_of, chain_of, Accepts, IsRelay,
  answer, segment, agreement, segments, asks, transcript,
}

module _ (base64 : Base64) (host : Bytes) (port : ℕ) where
  next_target_lem :
      (r : Relay) (rest : UpstreamChain) (s : Conn)
      → r.port < 65536
      → next_target base64 (hop (config_of r) rest) (address host port) s
        ≡ (done (address r.host r.port), s)
  unfolding next_target extract_proxy_address
  next_target_lem r rest s h = by_kind r.speaks
    where
      by_kind :
          (kind : Speaks)
          → next_target base64
              (hop (config_as kind (address_text r.host r.port) r.auth r.tls) rest)
              (address host port)
              s
            ≡ (done (address r.host r.port), s)
      by_kind by_socks5 = rw (parse_addr-address_text r.host r.port h)
      by_kind by_login = rw (parse_addr-address_text r.host r.port h)
      by_kind (by_http response) = rw (parse_addr-address_text r.host r.port h)

  next_target_nil :
      (s : Conn) → next_target base64 nil (address host port) s ≡ (done (address host port), s)
  unfolding next_target
  next_target_nil s = refl

  next_target_direct :
      (rest : UpstreamChain) (s : Conn)
      → next_target base64 (hop direct rest) (address host port) s ≡ (done (address host port), s)
  unfolding next_target
  next_target_direct rest s = refl

  -- What one handshake makes of a connection.
  abbrev taken : Conn → Bytes → Bytes → List ℕ → Outcome (Unit {0}) × Conn
  taken s tail said later =
      (done tt, record s { input = tail; segments = later; output = s.output ++ said })

  -- One handshake with a proxy that accepts.
  handshake :
      (kind : Speaks) (addr : Bytes) (auth : Option UserCredential) (tls : Option Bool)
      (next tail : Bytes) (next_port : ℕ) (later : List ℕ) (s : Conn)
      → Accepts kind auth
      → s.input ≡ answer kind tail
      → s.segments ≡ segment kind later
      → s.room ≡ none
      → perform_proxy_handshake base64 (config_as kind addr auth tls) (address next next_port) s ≡ (
        done tt,
        record s {
          input = tail;
          segments = later;
          output = s.output ++ asks base64 kind auth next next_port;
        },
      )
  unfolding perform_proxy_handshake
  handshake by_socks5 addr auth tls next tail next_port later s a e k r =
      perform_socks5_handshake_open auth next tail next_port s e r
      ∙ ap (taken s tail (asks base64 by_socks5 auth next next_port)) k
  handshake by_login addr none tls next tail next_port later s a e k r = absurd a
  handshake by_login addr (some login) tls next tail next_port later s a e k r =
      perform_socks5_handshake_login login next tail next_port s e r
      ∙ ap (taken s tail (asks base64 by_login (some login) next next_port)) k
  handshake (by_http response) addr auth tls next tail next_port later s (a, pos, fits) e k r =
      perform_http_handshake_lem base64 auth next response tail next_port later s e k pos fits r
      ∙ (rw a refl)

  -- One hop: its proxy is asked for the next target, and the loop goes on with the rest.
  run_hop :
      (p : Relay) (rest : UpstreamChain) (next tail : Bytes) (next_port : ℕ) (later : List ℕ)
      (s : Conn)
      → Accepts p.speaks p.auth
      → next_target base64 rest (address host port) s ≡ (done (address next next_port), s)
      → s.input ≡ answer p.speaks tail
      → s.segments ≡ segment p.speaks later
      → s.room ≡ none
      → run_hops base64 (hop (config_of p) rest) (address host port) s
        ≡ run_hops base64 rest (address host port) (record s {
          input = tail;
          segments = later;
          output = s.output ++ asks base64 p.speaks p.auth next next_port;
        })
  unfolding run_hops
  run_hop p rest next tail next_port later s a t e k r =
      rw
        (
          t,
          handshake p.speaks (address_text p.host p.port) p.auth p.tls next tail next_port later s a
              e k r,
        )
        refl

  run_hops_nil :
      (rest : Bytes) (later : List ℕ) (s : Conn)
      → s.input ≡ rest
      → s.segments ≡ later
      → run_hops base64 nil (address host port) s
        ≡ (done tt, record s { input = rest; segments = later; output = s.output ++ [] })
  unfolding run_hops
  run_hops_nil rest later s e k = rw (append-nil s.output, sym e, sym k) refl

  -- A chain of proxies with ports below 65536 that take everything and accept, SOCKS5 proxies
  -- without a login or with the configured one, and HTTP proxies by an answer of 1 to 4096 bytes in
  -- a segment of its own, is one conversation after the other: each proxy is asked for the address of the next, and the last for the target.
  pub run_hops_lem :
      (hops : List Relay) (rest : Bytes) (later : List ℕ) (s : Conn)
      → All IsRelay hops
      → s.input ≡ agreement hops rest
      → s.segments ≡ segments hops later
      → s.room ≡ none
      → run_hops base64 (chain_of hops) (address host port) s ≡ (
        done tt,
        record s {
          input = rest;
          segments = later;
          output = s.output ++ transcript base64 hops host port;
        },
      )
  unfolding chain_of agreement segments transcript
  run_hops_lem [] rest later s h e k r = run_hops_nil rest later s e k
  run_hops_lem (p ∷ []) rest later s h e k r =
      let said = asks base64 p.speaks p.auth host port in
      run_hop p nil host rest port later s h.0.1 (next_target_nil s) e k r
      ∙ run_hops_nil rest later
          (record s { input = rest; segments = later; output = s.output ++ said }) refl refl
      ∙ ap (λ o. (done tt, record s { input = rest; segments = later; output = o }))
          (append_assoc s.output said [])
  run_hops_lem (p ∷ next ∷ hops) rest later s h e k r =
      let said = asks base64 p.speaks p.auth next.host next.port in
      let asked : Conn = record s {
        input = agreement (next ∷ hops) rest;
        segments = segments (next ∷ hops) later;
        output = s.output ++ said;
      } in
      run_hop p (chain_of (next ∷ hops)) next.host (agreement (next ∷ hops) rest) next.port
        (segments (next ∷ hops) later) s h.0.1 (next_target_lem next (chain_of hops) s h.1.0.0) e k
        r
      ∙ run_hops_lem (next ∷ hops) rest later asked h.1 refl refl r
      ∙ ap (λ o. (done tt, record s { input = rest; segments = later; output = o }))
          (append_assoc s.output said (transcript base64 (next ∷ hops) host port))

  run_hops_skip :
      (rest : UpstreamChain) (next : ConnectTarget) (s : Conn)
      → next_target base64 rest (address host port) s ≡ (done next, s)
      → run_hops base64 (hop direct rest) (address host port) s
        ≡ run_hops base64 rest (address host port) s
  unfolding run_hops perform_proxy_handshake
  run_hops_skip rest next s t = rw t refl

  -- A `direct` hop between two proxies: both are asked for the target, so the second is spoken to
  -- through a tunnel that already leads to the target, and its address is not used.
  pub run_hops_direct :
      (p q : Relay) (rest : Bytes) (later : List ℕ) (s : Conn)
      → All IsRelay (p ∷ q ∷ [])
      → s.input ≡ agreement (p ∷ q ∷ []) rest
      → s.segments ≡ segments (p ∷ q ∷ []) later
      → s.room ≡ none
      → run_hops base64
          (hop (config_of p) (hop direct (hop (config_of q) nil)))
          (address host port)
          s
        ≡ (
          done tt,
          record s {
            input = rest;
            segments = later;
            output =
                (s.output ++ asks base64 p.speaks p.auth host port)
                ++ asks base64 q.speaks q.auth host port;
          },
        )
  unfolding agreement segments run_hops
  run_hops_direct p q rest later s h e k r =
      let asked : Conn = record s {
        input = agreement (q ∷ []) rest;
        segments = segments (q ∷ []) later;
        output = s.output ++ asks base64 p.speaks p.auth host port;
      } in
      run_hop p (hop direct (hop (config_of q) nil)) host (agreement (q ∷ []) rest) port
        (segments (q ∷ []) later) s h.0.1 (next_target_direct (hop (config_of q) nil) s) e k r
      ∙ run_hops_skip (hop (config_of q) nil) (address q.host q.port) asked
          (next_target_lem q nil asked h.1.0.0)
      ∙ run_hop q nil host rest port later asked h.1.0.1 (next_target_nil asked) refl refl r
