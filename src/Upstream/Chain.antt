-- ===== src/Upstream/Chain.antt =====
-- src/upstream/chain.rs: a connection through several proxies. The handshakes are those of
-- `Socks5Client` and `HttpClient`, whose code the source repeats here; the TLS flag of a hop is
-- read and not used.
pub mod Addresses
pub mod Relays
pub mod Hops
pub mod Tls
pub mod Opened
pub mod Servers
pub mod Served
use peregrine_proxy.Base.{ℕ, ◌+◌, Option, none, some, List, [], ◌∷◌, take, drop}
use peregrine_proxy.Base.Text.{Bytes}
use peregrine_proxy.Base.Decimal.{parse_u16}
use peregrine_proxy.Base.Search.{rfind}
use peregrine_proxy.Config.{UpstreamConfig, direct, http, socks5, chain, UpstreamChain, nil, hop}
use peregrine_proxy.Error.{
  IoError, UpstreamMessage, upstream, empty_chain, direct_has_no_address, nested_chain,
  direct_failed, proxy_failed, first_proxy_failed, invalid_port, missing_port, ProxyResult, ok, err,
}
use peregrine_proxy.Stream.{Conn, Outcome, done, fail, hung, M, pure, raise, ◌>>=◌, ◌>>◌}
use peregrine_proxy.Network.{Network, Connected, opened, refused}
use peregrine_proxy.Acl.Auth.{Base64}
use peregrine_proxy.Upstream.{ConnectTarget, address, address_text}
use peregrine_proxy.Upstream.Socks5Client.{after, and_then, perform_socks5_handshake}
use peregrine_proxy.Upstream.HttpClient.{perform_http_handshake}

unfoldable pub extract_proxy_address : UpstreamConfig → ProxyResult Bytes
extract_proxy_address direct = err (upstream direct_has_no_address)
extract_proxy_address (http addr auth tls) = ok addr
extract_proxy_address (socks5 addr auth tls) = ok addr
extract_proxy_address (chain c) = err (upstream nested_chain)

with_port : Bytes → Bytes → Option ℕ → ProxyResult ConnectTarget
with_port addr host none = err (upstream (invalid_port addr))
with_port addr host (some port) = ok (address host port)

split_addr : Bytes → Option ℕ → ProxyResult ConnectTarget
unfolding with_port
split_addr addr none = err (upstream (missing_port addr))
split_addr addr (some colon_pos) =
    with_port addr (take colon_pos addr) (parse_u16 (drop (colon_pos + 1) addr))

unfoldable pub parse_addr_to_target : Bytes → ProxyResult ConnectTarget
unfolding split_addr
parse_addr_to_target addr = split_addr addr (rfind b':' addr)

abbrev pub lift : {A : Type 0} → ProxyResult A → M A
lift (ok a) = pure a
lift (err e) = raise e

module _ (base64 : Base64) where
  unfoldable pub perform_proxy_handshake : UpstreamConfig → ConnectTarget → M (Unit {0})
  perform_proxy_handshake direct target = pure tt
  perform_proxy_handshake (http addr auth tls) target = perform_http_handshake base64 auth target
  perform_proxy_handshake (socks5 addr auth tls) target = perform_socks5_handshake auth target
  perform_proxy_handshake (chain c) target = raise (upstream nested_chain)

  abbrev proxy_target : UpstreamConfig → M ConnectTarget
  proxy_target config =
      lift (extract_proxy_address config) >>= λ addr. lift (parse_addr_to_target addr)

  -- `next_target` of the loop, by the hops that follow.
  unfoldable pub next_target : UpstreamChain → ConnectTarget → M ConnectTarget
  next_target nil target = pure target
  next_target (hop direct rest) target = pure target
  next_target (hop (http addr auth tls) rest) target = proxy_target (http addr auth tls)
  next_target (hop (socks5 addr auth tls) rest) target = proxy_target (socks5 addr auth tls)
  next_target (hop (chain c) rest) target = proxy_target (chain c)

  -- The loop over the hops.
  unfoldable pub run_hops : UpstreamChain → ConnectTarget → M (Unit {0})
  run_hops nil target = pure tt
  run_hops (hop config rest) target = do
    next ← next_target rest target
    perform_proxy_handshake config next
    run_hops rest target

  abbrev open_or : (IoError → UpstreamMessage) → Connected → Outcome Conn
  open_or message (opened c) = done c
  open_or message (refused e) = fail (upstream (message e))

  abbrev lift_outcome : {A : Type 0} → ProxyResult A → Outcome A
  lift_outcome (ok a) = done a
  lift_outcome (err e) = fail e

  -- A chain of one hop.
  unfoldable pub connect_single : Network → UpstreamConfig → ConnectTarget → Outcome Conn
  connect_single net direct (address host port) =
      open_or direct_failed (net.tcp_connect (address_text host port))
  connect_single net config target =
      and_then (lift_outcome (extract_proxy_address config)) λ proxy_addr.
        and_then (open_or (proxy_failed proxy_addr) (net.tcp_connect proxy_addr))
          λ stream. after (perform_proxy_handshake config target stream)

  unfoldable pub connect_multi :
      Network → UpstreamConfig → UpstreamChain → ConnectTarget → Outcome Conn
  connect_multi net first rest target =
      and_then (lift_outcome (extract_proxy_address first)) λ first_proxy_addr.
        and_then (open_or (first_proxy_failed first_proxy_addr) (net.tcp_connect first_proxy_addr))
          λ stream. after (run_hops (hop first rest) target stream)

  -- `ChainConnector::connect`.
  unfoldable pub chain_connect : Network → UpstreamChain → ConnectTarget → Outcome Conn
  chain_connect net nil target = fail (upstream empty_chain)
  chain_connect net (hop config nil) target = connect_single net config target
  chain_connect net (hop first (hop second rest)) target =
      connect_multi net first (hop second rest) target
