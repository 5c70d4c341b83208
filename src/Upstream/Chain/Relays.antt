-- ===== src/Upstream/Chain/Relays.antt =====
-- What a chain of proxies that accept says and is told, written without the code of the chain.
use peregrine_proxy.Base.{
  ◌≤◌, true, none, some, ℕ, ◌<◌, ◌≡◌, Bool, Option, List, [], ◌∷◌, ◌++◌, length,
}
use peregrine_proxy.Base.Text.{Bytes}
use peregrine_proxy.Config.{UserCredential, UpstreamConfig, http, socks5, UpstreamChain, nil, hop}
use peregrine_proxy.Acl.Auth.{Base64}
use peregrine_proxy.Upstream.{address_text}
use peregrine_proxy.Upstream.Socks5Client.{greeting, login_request, connect_request}
use peregrine_proxy.Upstream.Socks5Client.Wire.{success}
use peregrine_proxy.Upstream.HttpClient.{is_success, connect_text}

-- How a proxy of a chain speaks: SOCKS5 without or with a login, or HTTP with the answer that it
-- gives.
pub data Speaks : Type 0 where
  by_socks5 by_login : Speaks
  by_http : Bytes → Speaks

-- A proxy of a chain.
pub record Relay : Type 0 where
  pub host : Bytes
  pub port : ℕ
  pub auth : Option UserCredential
  pub tls : Option Bool
  pub speaks : Speaks

abbrev pub config_as : Speaks → Bytes → Option UserCredential → Option Bool → UpstreamConfig
config_as by_socks5 addr auth tls = socks5 addr auth tls
config_as by_login addr auth tls = socks5 addr auth tls
config_as (by_http response) addr auth tls = http addr auth tls

abbrev pub config_of : Relay → UpstreamConfig
config_of r = config_as r.speaks (address_text r.host r.port) r.auth r.tls

unfoldable pub chain_of : List Relay → UpstreamChain
chain_of [] = nil
chain_of (r ∷ rest) = hop (config_of r) (chain_of rest)

-- A proxy that asks for a login gets one, and an HTTP proxy accepts by an answer that one read
-- takes.
abbrev pub Accepts : Speaks → Option UserCredential → Type 0
Accepts by_socks5 auth = Unit
Accepts by_login none = ⊥
Accepts by_login (some login) = Unit
Accepts (by_http response) auth =
    (is_success response ≡ true) × (0 < length response) × (length response ≤ 4096)

abbrev pub IsRelay : Relay → Type 0
IsRelay r = (r.port < 65536) × Accepts r.speaks r.auth

-- What a proxy answers when it accepts, before `tail`.
abbrev pub answer : Speaks → Bytes → Bytes
answer by_socks5 tail = 0x05 ∷ 0x00 ∷ (success ++ tail)
answer by_login tail = 0x05 ∷ 0x02 ∷ 0x01 ∷ 0x00 ∷ (success ++ tail)
answer (by_http response) tail = response ++ tail

-- The answer of an HTTP proxy arrives as a segment of its own.
abbrev pub segment : Speaks → List ℕ → List ℕ
segment by_socks5 later = later
segment by_login later = later
segment (by_http response) later = length response ∷ later

unfoldable pub agreement : List Relay → Bytes → Bytes
agreement [] rest = rest
agreement (r ∷ hops) rest = answer r.speaks (agreement hops rest)

unfoldable pub segments : List Relay → List ℕ → List ℕ
segments [] later = later
segments (r ∷ hops) later = segment r.speaks (segments hops later)

module _ (base64 : Base64) where
  -- What the client says to one proxy to reach a host.
  abbrev pub asks : Speaks → Option UserCredential → Bytes → ℕ → Bytes
  asks by_socks5 auth host port = greeting auth ++ connect_request host port
  asks by_login none host port = greeting none
  asks by_login (some login) host port =
      greeting (some login) ++ (login_request login ++ connect_request host port)
  asks (by_http response) auth host port = connect_text base64 auth host port

  -- What the client says to a chain: to each proxy, the address of the next one.
  unfoldable pub transcript : List Relay → Bytes → ℕ → Bytes
  transcript [] host port = []
  transcript (r ∷ []) host port = asks r.speaks r.auth host port ++ []
  transcript (r ∷ next ∷ rest) host port =
      asks r.speaks r.auth next.host next.port ++ transcript (next ∷ rest) host port
