-- ===== src/Tests/Startup.antt =====
-- A start of the server, a reload, and a request for the metrics.
use peregrine_proxy.Base.{
  true, false, ◌≡◌, ◌≢◌, ◌↔◌, ◌⊎◌, refl, Option, none, some, List, [], ◌∷◌, ◌++◌, map, length,
  list_eq, if◌then◌else◌, arith,
}
use peregrine_proxy.Base.Text.{Bytes, codes}
use peregrine_proxy.Config.{AppConfig, ListenConfig, TlsConfig, Protocol}
use peregrine_proxy.Error.{IoError, connection_refused}
use peregrine_proxy.Stream.{Conn}
use peregrine_proxy.Startup.{
  AnyhowError, yaml, ok, err, Files, CliArgs, load_from_file, init_logging, Subscriber, from_level,
}
use peregrine_proxy.Startup.Tls.{good, Pem, TlsAcceptor, load_tls_acceptor}
use peregrine_proxy.Startup.Tls.Accepts.{load_tls_acceptor_iff}
use peregrine_proxy.Startup.Listen.{
  Listener, protocol_label, protocol_name, listen, listen_all, listen_all_lem,
}
use peregrine_proxy.Startup.Reload.{World, start_world, on_sighup, Moves, sighup}
use peregrine_proxy.Startup.Reload as Reload
use peregrine_proxy.Startup.Reload.Isolated.{Open, last_good, signals, reload_isolated}
use peregrine_proxy.Startup.Main.{System, running, waiting, run, main}
use peregrine_proxy.Startup.Main.Waits.{level, main_waits}
use peregrine_proxy.Server.Shutdown.{Steps, start}
use peregrine_proxy.Metrics.{ProxyMetrics, new_metrics, serve}
use peregrine_proxy.Metrics.Reader.{read_answer}
use peregrine_proxy.Metrics.Answer.{page, serve_lem}
use peregrine_proxy.Tests.Sample.{config, talk}

-- Every file holds its own path; a file is one certificate and one key.
abbrev pem : Pem
pem = record {
  open_file = good;
  certs = λ file. good file ∷ [];
  private_key = λ file. good (some file);
  with_single_cert = λ certs key. none;
}

abbrev cert_and_key : TlsConfig
cert_and_key = record { cert = codes "a.crt"; key = codes "a.key" }

abbrev acceptor : TlsAcceptor
acceptor = record { certs = codes "a.crt" ∷ []; key = codes "a.key" }

load_tls_acceptor_iff_example : (load_tls_acceptor pem cert_and_key ≡ ok acceptor) ↔ (
    (cert_file : Bytes) × (key_file : Bytes) × (pem.open_file (codes "a.crt") ≡ good cert_file)
    × (pem.open_file (codes "a.key") ≡ good key_file)
    × (pem.certs cert_file ≡ map good acceptor.certs)
    × (acceptor.certs ≢ [])
    × (pem.private_key key_file ≡ good (some acceptor.key))
    × (pem.with_single_cert acceptor.certs acceptor.key ≡ none))
load_tls_acceptor_iff_example = load_tls_acceptor_iff pem cert_and_key acceptor

abbrev taken : Bytes
taken = codes "127.0.0.1:80"

-- One address is taken.
abbrev bind : Bytes → Option IoError
bind addr = if list_eq addr taken then some connection_refused else none

abbrev free_listen : ListenConfig
free_listen = record { addr = codes "127.0.0.1:1080"; protocol = Protocol.socks5; tls = none }

abbrev taken_listen : ListenConfig
taken_listen = record { addr = taken; protocol = Protocol.http; tls = some cert_and_key }

abbrev two_listeners : List ListenConfig
two_listeners = free_listen ∷ taken_listen ∷ []

listen_all_lem_example :
    (((listen_all bind pem two_listeners).result ≡ ok tt)
      × (map (listen bind pem) two_listeners
          ≡ map ok (listen_all bind pem two_listeners).listeners))
    ⊎ ((before : List ListenConfig) × (failing : ListenConfig) × (after : List ListenConfig)
        × (e : AnyhowError) × (two_listeners ≡ before ++ failing ∷ after)
        × (listen bind pem failing ≡ err e)
        × (map (listen bind pem) before ≡ map ok (listen_all bind pem two_listeners).listeners)
        × ((listen_all bind pem two_listeners).result ≡ err e))
listen_all_lem_example = listen_all_lem bind pem two_listeners

-- The file at the start, and after an edit that breaks it.
abbrev good_files : Files
good_files = record { read_to_string = λ path. ok path; from_str = λ text. ok config }

abbrev broken_files : Files
broken_files = record { read_to_string = λ path. ok path; from_str = λ text. err (yaml text) }

abbrev path : Bytes
path = codes "config.yaml"

abbrev reloaded_twice : World
reloaded_twice = on_sighup path broken_files (on_sighup path good_files (start_world config))

two_signals : Moves path (start_world config) reloaded_twice
two_signals = Reload.next (Reload.next Reload.here (sighup good_files)) (sighup broken_files)

reload_isolated_example :
    (reloaded_twice.watch.value ≡ last_good path config (signals two_signals))
    × Open reloaded_twice
    × Steps (start config) reloaded_twice.server
reload_isolated_example = reload_isolated path config reloaded_twice two_signals

abbrev machine : System
machine = record { files = good_files; rust_log = none; bind = bind; pem = pem }

abbrev arguments : CliArgs
arguments = record { config = path; listen = none; log_level = some (codes "debug") }

abbrev listeners : List Listener
listeners =
    (record { addr = codes "127.0.0.1:1080"; tls_acceptor = none; label = codes "SOCKS5" }) ∷ []

abbrev subscriber : Subscriber
subscriber = record {
  filter = from_level (codes "debug");
  json = false;
  with_target = true;
  with_thread_ids = false;
  with_file = false;
  with_line_number = false;
  access_log = none;
}

machine_waits : main machine arguments ≡ running subscriber (waiting listeners (start_world config))
unfolding main load_from_file init_logging run listen_all listen protocol_label protocol_name
machine_waits = refl

main_waits_example :
    (loaded : AppConfig) × (load_from_file good_files path ≡ ok loaded)
    × (map (listen bind pem) loaded.server.listen ≡ map ok listeners)
    × (start_world config ≡ start_world loaded)
    × (length (start_world config).server.loops ≡ length listeners)
    × (subscriber.filter ≡ level none (some (codes "debug")) loaded.logging.level)
main_waits_example =
    main_waits machine arguments subscriber listeners (start_world config) machine_waits

abbrev up : ProxyMetrics → Bytes
up metrics = codes "peregrine_connections_active 0"

abbrev scrape : Conn
scrape = record (talk (codes "GET /metrics HTTP/1.1")) { segments = 21 ∷ [] }

serve_lem_example :
    (text : Bytes) × (serve up new_metrics scrape ≡ record (talk []) { output = text })
    × ((rest : Bytes)
        → read_answer (text ++ rest)
          ≡ some (page (up new_metrics) (codes "GET /metrics HTTP/1.1"), rest))
serve_lem_example =
    serve_lem up new_metrics (codes "GET /metrics HTTP/1.1") [] [] scrape (omega arith) refl refl
      (omega arith) (omega arith) refl
