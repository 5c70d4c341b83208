-- ===== src/Upstream/Chain/Tls.antt =====
-- What a chain makes of the TLS flags of its hops.
use mathlib.Core.Path.{fun_ext}
use peregrine_proxy.Base.{◌≡◌, refl, ap, ◌∙◌, none}
use peregrine_proxy.Base.Text.{Bytes}
use peregrine_proxy.Config.{UpstreamConfig, direct, http, socks5, chain, UpstreamChain, nil, hop}
use peregrine_proxy.Stream.{Conn, Outcome, M, ◌>>=◌, ◌>>◌}
use peregrine_proxy.Error.{ProxyResult, first_proxy_failed}
use peregrine_proxy.Upstream.Socks5Client.{after, and_then}
use peregrine_proxy.Network.{Network}
use peregrine_proxy.Acl.Auth.{Base64}
use peregrine_proxy.Upstream.{ConnectTarget}
use peregrine_proxy.Upstream.Chain.{
  extract_proxy_address, perform_proxy_handshake, next_target, run_hops, connect_single,
  connect_multi, chain_connect, lift_outcome, open_or,
}

-- The configuration without its TLS flags.
abbrev pub plain_config : UpstreamConfig → UpstreamConfig
plain_config direct = direct
plain_config (http addr auth tls) = http addr auth none
plain_config (socks5 addr auth tls) = socks5 addr auth none
plain_config (chain c) = chain c

unfoldable pub plain_chain : UpstreamChain → UpstreamChain
plain_chain nil = nil
plain_chain (hop config rest) = hop (plain_config config) (plain_chain rest)

module _ (base64 : Base64) where
  plain_handshake :
      (config : UpstreamConfig) (target : ConnectTarget)
      → perform_proxy_handshake base64 (plain_config config) target
        ≡ perform_proxy_handshake base64 config target
  unfolding perform_proxy_handshake
  plain_handshake direct target = refl
  plain_handshake (http addr auth tls) target = refl
  plain_handshake (socks5 addr auth tls) target = refl
  plain_handshake (chain c) target = refl

  plain_next :
      (rest : UpstreamChain) (target : ConnectTarget)
      → next_target base64 (plain_chain rest) target ≡ next_target base64 rest target
  unfolding next_target extract_proxy_address plain_chain
  plain_next nil target = refl
  plain_next (hop direct rest) target = refl
  plain_next (hop (http addr auth tls) rest) target = refl
  plain_next (hop (socks5 addr auth tls) rest) target = refl
  plain_next (hop (chain c) rest) target = refl

  plain_hops :
      (hops : UpstreamChain) (target : ConnectTarget)
      → run_hops base64 (plain_chain hops) target ≡ run_hops base64 hops target
  unfolding run_hops plain_chain
  plain_hops nil target = refl
  plain_hops (hop config rest) target =
      ap
        (λ m. m >>= λ next.
          perform_proxy_handshake base64 (plain_config config) next
          >> run_hops base64 (plain_chain rest) target)
        (plain_next rest target)
      ∙ ap
          (λ f. next_target base64 rest target >>= λ next.
            f next >> run_hops base64 (plain_chain rest) target)
          (fun_ext (plain_handshake config))
      ∙ ap
          (λ m. next_target base64 rest target >>= λ next.
            perform_proxy_handshake base64 config next >> m)
          (plain_hops rest target)

module _ (base64 : Base64) (net : Network) where
  plain_single :
      (config : UpstreamConfig) (target : ConnectTarget)
      → connect_single base64 net (plain_config config) target
        ≡ connect_single base64 net config target
  unfolding connect_single extract_proxy_address perform_proxy_handshake
  plain_single direct target = refl
  plain_single (http addr auth tls) target = refl
  plain_single (socks5 addr auth tls) target = refl
  plain_single (chain c) target = refl

  plain_address :
      (config : UpstreamConfig)
      → extract_proxy_address (plain_config config) ≡ extract_proxy_address config
  unfolding extract_proxy_address
  plain_address direct = refl
  plain_address (http addr auth tls) = refl
  plain_address (socks5 addr auth tls) = refl
  plain_address (chain c) = refl

  plain_multi :
      (first : UpstreamConfig) (rest : UpstreamChain) (target : ConnectTarget)
      → connect_multi base64 net (plain_config first) (plain_chain rest) target
        ≡ connect_multi base64 net first rest target
  unfolding connect_multi plain_chain
  plain_multi first rest target =
      ap (λ a. through a (run_hops base64 (hop (plain_config first) (plain_chain rest)) target))
        (plain_address first)
      ∙ ap (λ m. through (extract_proxy_address first) m)
          (plain_hops base64 (hop first rest) target)
    where
      through : ProxyResult Bytes → M (Unit {0}) → Outcome Conn
      through addr hops = and_then (lift_outcome base64 addr) λ first_proxy_addr.
          and_then
            (open_or base64 (first_proxy_failed first_proxy_addr)
              (net.tcp_connect first_proxy_addr))
            λ stream. after (hops stream)

  -- The TLS flags of a chain have no effect: what a chain that asks for TLS sends, its credentials
  -- included, is what the same chain without TLS sends.
  pub chain_connect-plain_chain :
      (hops : UpstreamChain) (target : ConnectTarget)
      → chain_connect base64 net (plain_chain hops) target ≡ chain_connect base64 net hops target
  unfolding chain_connect plain_chain
  chain_connect-plain_chain nil target = refl
  chain_connect-plain_chain (hop config nil) target = plain_single config target
  chain_connect-plain_chain (hop first (hop second rest)) target =
      plain_multi first (hop second rest) target
