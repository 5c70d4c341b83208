-- ===== src/Startup/Tls.antt =====
-- src/server.rs: `load_tls_acceptor`. Opening a file gives its bytes; rustls and its PEM reader are
-- parameters.
pub mod Accepts
use peregrine_proxy.Base.{
  ◌↔◌, map, Option, none, some, List, [], ◌∷◌, ◌≡◌, ◌≢◌, refl, ap, sym, ◌∙◌, arith,
}
use peregrine_proxy.Base.Text.{Bytes}
use peregrine_proxy.Config.{TlsConfig}
use peregrine_proxy.Error.{IoError}
use peregrine_proxy.Startup.{
  AnyhowError, os, tls, TlsMessage, open_cert_failed, open_key_failed, parse_certs_failed,
  parse_key_failed, no_certificates, no_private_key, build_failed, AnyhowResult, ok, err, ◌>>=◌,
  bind-eq-ok,
}

-- The result of a call of the libraries with its own error.
pub data Fallible (E A : Type 0) : Type 0 where
  good : A → Fallible E A
  bad : E → Fallible E A

-- A certificate and a key are their DER bytes.
pub record Pem : Type 0 where
  pub open_file : Bytes → Fallible IoError Bytes
  pub certs : Bytes → List (Fallible IoError Bytes)
  pub private_key : Bytes → Fallible IoError (Option Bytes)
  pub with_single_cert : List Bytes → Bytes → Option Bytes

pub record TlsAcceptor : Type 0 where
  pub certs : List Bytes
  pub key : Bytes

module _ {E : Type 0} where
  -- `map_err`, then `?`.
  abbrev pub map_err : {A : Type 0} → Fallible E A → (E → TlsMessage) → AnyhowResult A
  map_err (good a) f = ok a
  map_err (bad e) f = err (tls (f e))

  unfoldable pub cons_good : {A : Type 0} → A → Fallible E (List A) → Fallible E (List A)
  cons_good a (good more) = good (a ∷ more)
  cons_good a (bad e) = bad e

  -- `collect` of results: the first error, or all values.
  unfoldable pub collect : {A : Type 0} → List (Fallible E A) → Fallible E (List A)
  unfolding cons_good
  collect [] = good []
  collect (good a ∷ rs) = cons_good a (collect rs)
  collect (bad e ∷ rs) = bad e

abbrev pub fail_if_empty : List Bytes → TlsMessage → AnyhowResult (Unit {0})
fail_if_empty [] m = err (tls m)
fail_if_empty (c ∷ cs) m = ok tt

abbrev pub ok_or : Option Bytes → TlsMessage → AnyhowResult Bytes
ok_or none m = err (tls m)
ok_or (some a) m = ok a

-- `with_single_cert` fails with a text, or accepts the pair.
abbrev pub accept_pair : Option Bytes → AnyhowResult (Unit {0})
accept_pair none = ok tt
accept_pair (some why) = err (tls (build_failed why))

module _ (pem : Pem) where
  unfoldable pub load_tls_acceptor : TlsConfig → AnyhowResult TlsAcceptor
  unfolding collect
  load_tls_acceptor config = do
    cert_file ← map_err (pem.open_file config.cert) (open_cert_failed config.cert)
    key_file ← map_err (pem.open_file config.key) (open_key_failed config.key)
    certs ← map_err (collect (pem.certs cert_file)) parse_certs_failed
    _ ← fail_if_empty certs (no_certificates config.cert)
    found ← map_err (pem.private_key key_file) parse_key_failed
    key ← ok_or found (no_private_key config.key)
    _ ← accept_pair (pem.with_single_cert certs key)
    ok (record { certs = certs; key = key })
