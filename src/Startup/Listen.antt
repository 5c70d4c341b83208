-- ===== src/Startup/Listen.antt =====
-- src/server.rs: the loop of `run` that binds the listeners.
use peregrine_proxy.Base.{
  map, Option, none, some, List, [], ◌∷◌, ◌++◌, ◌≡◌, refl, ap, ◌⊎◌, inl, inr,
}
use peregrine_proxy.Base.Text.{Bytes, codes}
use peregrine_proxy.Config.{Protocol, ListenConfig, TlsConfig, http, socks5}
use peregrine_proxy.Error.{IoError}
use peregrine_proxy.Startup.{AnyhowResult-cases, AnyhowError, os, AnyhowResult, ok, err, ◌>>=◌}
use peregrine_proxy.Startup.Tls.{Pem, TlsAcceptor, load_tls_acceptor}

unfoldable pub protocol_name : Protocol → Bytes
protocol_name http = codes "HTTP"
protocol_name socks5 = codes "SOCKS5"

unfoldable pub protocol_label : Option TlsAcceptor → Protocol → Bytes
protocol_label none protocol = protocol_name protocol
protocol_label (some acceptor) protocol = protocol_name protocol ++ codes " with TLS"

-- What is spawned for one listener: the accept loop with its address and its acceptor, and the
-- label in the log.
pub record Listener : Type 0 where
  pub addr : Bytes
  pub tls_acceptor : Option TlsAcceptor
  pub label : Bytes

-- The listeners that are running, and how the loop ended.
pub record Launch : Type 0 where
  pub listeners : List Listener
  pub result : AnyhowResult (Unit {0})

-- `TcpListener::bind`: the error, if any.
abbrev pub bound : Option IoError → AnyhowResult (Unit {0})
bound none = ok tt
bound (some e) = err (os e)

module _ (bind : Bytes → Option IoError) (pem : Pem) where
  abbrev pub acceptor_of : Option TlsConfig → AnyhowResult (Option TlsAcceptor)
  acceptor_of none = ok none
  acceptor_of (some config) = do acceptor ← load_tls_acceptor pem config; ok (some acceptor)

  -- One round: the address is bound before the certificates are read.
  unfoldable pub listen : ListenConfig → AnyhowResult Listener
  unfolding protocol_label
  listen config = do
    _ ← bound (bind config.addr)
    acceptor ← acceptor_of config.tls
    ok (record {
      addr = config.addr;
      tls_acceptor = acceptor;
      label = protocol_label acceptor config.protocol;
    })

  abbrev pub started : AnyhowResult Listener → Launch → Launch
  started (ok l) rest = record rest { listeners = l ∷ rest.listeners }
  started (err e) rest = record { listeners = []; result = err e }

  -- The first error leaves `run`; the loops that were spawned before it go on.
  unfoldable pub listen_all : List ListenConfig → Launch
  listen_all [] = record { listeners = []; result = ok tt }
  listen_all (c ∷ cs) = started (listen c) (listen_all cs)

  -- Either every listener runs, in the order of the configuration, or exactly the ones before the
  -- first that fails run, and `run` ends with that one's error.
  pub listen_all_lem :
      (configs : List ListenConfig)
      → (((listen_all configs).result ≡ ok tt)
          × (map listen configs ≡ map ok (listen_all configs).listeners))
        ⊎ ((before : List ListenConfig) × (failing : ListenConfig) × (after : List ListenConfig)
            × (e : AnyhowError) × (configs ≡ before ++ failing ∷ after)
            × (listen failing ≡ err e)
            × (map listen before ≡ map ok (listen_all configs).listeners)
            × ((listen_all configs).result ≡ err e))
  unfolding listen_all
  listen_all_lem [] = inl (refl, refl)
  listen_all_lem (c ∷ cs) = elim (AnyhowResult-cases (listen c)) [
    | inl (l, e) ↦ elim (listen_all_lem cs) [
      | inl (h, k) ↦ inl (rw e h, rw e (ap (◌∷◌ (ok l)) k))
      | inr (before, failing, after, x, split, f, k, r) ↦
          inr (c ∷ before, failing, after, x, ap (◌∷◌ c) split, f, rw e (ap (◌∷◌ (ok l)) k), rw e r)
    ]
    | inr (x, e) ↦ inr ([], c, cs, x, refl, e, rw e refl, rw e refl)
  ]
