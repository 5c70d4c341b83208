-- ===== src/Upstream/Chain/Opened.antt =====
-- `ChainConnector::connect` of src/upstream/chain.rs by its loop over the hops.
use peregrine_proxy.Base.{◌≡◌, refl, sym, Bool, Option, List, ◌∷◌}
use peregrine_proxy.Base.Text.{Bytes}
use peregrine_proxy.Config.{UserCredential, UpstreamChain, nil, hop}
use peregrine_proxy.Stream.{Conn, Outcome, done, fail, hung, pure, bind_outcome}
use peregrine_proxy.Network.{Network, opened}
use peregrine_proxy.Acl.Auth.{Base64}
use peregrine_proxy.Upstream.{ConnectTarget, address_text}
use peregrine_proxy.Upstream.Socks5Client.{after}
use peregrine_proxy.Upstream.Chain.{
  extract_proxy_address, perform_proxy_handshake, next_target, run_hops, connect_single,
  connect_multi, chain_connect,
}
use peregrine_proxy.Upstream.Chain.Relays.{
  Speaks, by_socks5, by_login, by_http, Relay, config_as, chain_of,
}

after_nothing :
    (o : Outcome (Unit {0})) (s : Conn) → after (bind_outcome o s (λ u. pure tt)) ≡ after (o, s)
after_nothing (done u) s = refl
after_nothing (fail e) s = refl
after_nothing hung s = refl

module _ (base64 : Base64) (net : Network) (target : ConnectTarget) (c : Conn) where
  connect_by :
      (kind : Speaks) (addr : Bytes) (auth : Option UserCredential) (tls : Option Bool)
      (rest : UpstreamChain)
      → net.tcp_connect addr ≡ opened c
      → chain_connect base64 net (hop (config_as kind addr auth tls) rest) target
        ≡ after (run_hops base64 (hop (config_as kind addr auth tls) rest) target c)
  unfolding chain_connect connect_single connect_multi extract_proxy_address run_hops next_target
  connect_by by_socks5 addr auth tls nil e =
      let (o, s) = perform_proxy_handshake base64 (config_as by_socks5 addr auth tls) target c in
      rw e (sym (after_nothing o s))
  connect_by by_socks5 addr auth tls (hop second rest) e = rw e refl
  connect_by by_login addr auth tls nil e =
      let (o, s) = perform_proxy_handshake base64 (config_as by_login addr auth tls) target c in
      rw e (sym (after_nothing o s))
  connect_by by_login addr auth tls (hop second rest) e = rw e refl
  connect_by (by_http response) addr auth tls nil e =
      let (o, s) =
        perform_proxy_handshake base64 (config_as (by_http response) addr auth tls) target c in
      rw e (sym (after_nothing o s))
  connect_by (by_http response) addr auth tls (hop second rest) e = rw e refl

  -- When the first proxy can be reached, the connection is what the loop makes of the stream to it.
  pub chain_connect-run_hops :
      (r : Relay) (hops : List Relay)
      → net.tcp_connect (address_text r.host r.port) ≡ opened c
      → chain_connect base64 net (chain_of (r ∷ hops)) target
        ≡ after (run_hops base64 (chain_of (r ∷ hops)) target c)
  unfolding chain_of
  chain_connect-run_hops r hops e =
      connect_by r.speaks (address_text r.host r.port) r.auth r.tls (chain_of hops) e
