-- ===== src/Startup.antt =====
-- src/main.rs, src/logging.rs and the loading of src/config.rs: what happens before the server
-- listens. The file system, the YAML parser, the environment and rustls are parameters.
pub mod Tls
pub mod Listen
pub mod Reload
pub mod Main
use peregrine_proxy.Base.{
  ◌⊎◌, inl, inr, ◌≡◌, refl, Bool, true, false, Option, none, some, list_eq, if◌then◌else◌, ℕ,
}
use peregrine_proxy.Base.Text.{Bytes, codes}
use peregrine_proxy.Config.{AppConfig, LoggingConfig}
use peregrine_proxy.Error.{IoError}

-- The messages of `load_tls_acceptor`, with the path or the cause that they quote.
pub data TlsMessage : Type 0 where
  open_cert_failed open_key_failed : Bytes → IoError → TlsMessage
  parse_certs_failed parse_key_failed : IoError → TlsMessage
  no_certificates no_private_key : Bytes → TlsMessage
  build_failed : Bytes → TlsMessage

-- `anyhow::Error`: an error of the standard library, of serde_yaml, or a message of the source.
pub data AnyhowError : Type 0 where
  os : IoError → AnyhowError
  yaml : Bytes → AnyhowError
  tls : TlsMessage → AnyhowError

pub data AnyhowResult {ℓ} (A : Type ℓ) : Type ℓ where
  ok : A → AnyhowResult A
  err : AnyhowError → AnyhowResult A

-- `?`.
infixl 5 ◌>>=◌
abbrev pub ◌>>=◌ {ℓ κ} :
    {A : Type ℓ} {B : Type κ} → AnyhowResult A → (A → AnyhowResult B) → AnyhowResult B
ok a >>= f = f a
err e >>= f = err e

-- A chain of calls that gives a value has a first call that gives one.
pub bind-eq-ok {ℓ κ} :
    {A : Type ℓ} {B : Type κ} (r : AnyhowResult A) (f : A → AnyhowResult B) {b : B}
    → (r >>= f) ≡ ok b
    → (a : A) × (r ≡ ok a) × (f a ≡ ok b)
bind-eq-ok (ok a) f h = (a, refl, h)
bind-eq-ok (err e) f h = absurd (cc)

pub AnyhowResult-cases {ℓ} :
    {A : Type ℓ} (r : AnyhowResult A) → ((a : A) × (r ≡ ok a)) ⊎ ((e : AnyhowError) × (r ≡ err e))
AnyhowResult-cases (ok a) = inl (a, refl)
AnyhowResult-cases (err e) = inr (e, refl)

-- `std::fs::read_to_string` at one moment, and `serde_yaml::from_str`.
pub record Files : Type 0 where
  pub read_to_string : Bytes → AnyhowResult Bytes
  pub from_str : Bytes → AnyhowResult AppConfig

unfoldable pub load_from_file : Files → Bytes → AnyhowResult AppConfig
load_from_file files path = do content ← files.read_to_string path; files.from_str content

abbrev pub reload : Files → Bytes → AnyhowResult AppConfig
reload files path = load_from_file files path

-- `CliArgs` as clap hands it over.
pub record CliArgs : Type 0 where
  pub config : Bytes
  pub listen : Option Bytes
  pub log_level : Option Bytes

abbrev pub override : LoggingConfig → Option Bytes → LoggingConfig
override log_config none = log_config
override log_config (some level) = record log_config { level = level }

-- Where the filter of the log comes from: the environment variable, or `EnvFilter::new`.
pub data Filter : Type 0 where
  from_env from_level : Bytes → Filter

-- The subscriber that `init_logging` installs, and the path that it notes.
pub record Subscriber : Type 0 where
  pub filter : Filter
  pub json : Bool
  pub with_target : Bool
  pub with_thread_ids : Bool
  pub with_file : Bool
  pub with_line_number : Bool
  pub access_log : Option Bytes

or_text : Option Bytes → Bytes
or_text none = codes "text"
or_text (some format) = format

or_level : Option Bytes → Bytes → Filter
or_level none level = from_level level
or_level (some directives) level = from_env directives

-- The first argument is the environment's filter, if it is set and valid.
unfoldable pub init_logging : Option Bytes → LoggingConfig → Subscriber
unfolding or_text or_level
init_logging env config =
    let json = list_eq (or_text config.format) (codes "json") in
    record {
      filter = or_level env config.level;
      json = json;
      with_target = true;
      with_thread_ids = json;
      with_file = json;
      with_line_number = json;
      access_log = config.access_log;
    }
