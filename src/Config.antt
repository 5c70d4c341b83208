-- ===== src/Config.antt =====
-- src/config.rs: the configuration as serde_yaml hands it over. Texts are their UTF-8 bytes. The
-- YAML parser and the command line parser are not modelled.
use peregrine_proxy.Base.{ℕ, Bool, Option, List}
use peregrine_proxy.Base.Text.{Bytes}

pub data Protocol : Type 0 where
  http socks5 : Protocol

pub record TlsConfig : Type 0 where
  pub cert : Bytes
  pub key : Bytes

pub record ListenConfig : Type 0 where
  pub addr : Bytes
  pub protocol : Protocol
  pub tls : Option TlsConfig

pub record ServerConfig : Type 0 where
  pub listen : List ListenConfig
  pub max_connections : Option ℕ
  pub tcp_keepalive : Option ℕ
  pub connect_timeout : Option ℕ
  pub read_timeout : Option ℕ
  pub write_timeout : Option ℕ

pub data AclActionConfig : Type 0 where
  allow deny authenticate : AclActionConfig

pub record UserCredential : Type 0 where
  pub username : Bytes
  pub password : Bytes

-- `auth_type` is the key `type` of the file.
pub record AuthConfig : Type 0 where
  pub auth_type : Bytes
  pub users : Option (List UserCredential)

pub record AclRuleConfig : Type 0 where
  pub action : AclActionConfig
  pub src_ip : Option (List Bytes)
  pub dst_domain : Option (List Bytes)
  pub dst_port : Option (List Bytes)
  pub http_method : Option (List Bytes)
  pub auth : Option AuthConfig

pub record AccessControlConfig : Type 0 where
  pub default_action : AclActionConfig
  pub rules : List AclRuleConfig

-- A chain holds upstreams, so its list is a type of the same block.
mutual
  pub data UpstreamConfig : Type 0 where
    direct : UpstreamConfig
    http : Bytes → Option UserCredential → Option Bool → UpstreamConfig
    socks5 : Bytes → Option UserCredential → Option Bool → UpstreamConfig
    chain : UpstreamChain → UpstreamConfig

  pub data UpstreamChain : Type 0 where
    nil : UpstreamChain
    hop : UpstreamConfig → UpstreamChain → UpstreamChain

pub record LoggingConfig : Type 0 where
  pub level : Bytes
  pub access_log : Option Bytes
  pub format : Option Bytes

pub record MetricsConfig : Type 0 where
  pub enabled : Bool
  pub listen : Bytes

pub record AppConfig : Type 0 where
  pub server : ServerConfig
  pub access_control : AccessControlConfig
  pub upstream : UpstreamConfig
  pub logging : LoggingConfig
  pub metrics : Option MetricsConfig
