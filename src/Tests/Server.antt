-- ===== src/Tests/Server.antt =====
-- Connections and shutdowns of a small server.
use peregrine_proxy.Base.{◌↔◌, ℕ, ◌<◌, ◌≡◌, refl, some, List, [], ◌∷◌, All, arith, inl}
use peregrine_proxy.Base.Text.{codes, is_utf8_ascii}
use peregrine_proxy.Stream.{Conn, Outcome, done, read}
use peregrine_proxy.Socks5.Handshake.{connect, TargetAddr, domain}
use peregrine_proxy.Socks5.Handshake.Request.{request_bytes, IsTarget}
use peregrine_proxy.Socks5.Session.{answer}
use peregrine_proxy.Server.{ProxyStream, plain, tls, stream_conn, handle_connection}
use peregrine_proxy.Server.Connection.{handle_connection_open, handle_connection_split}
use peregrine_proxy.Server.Shutdown.{
  AcceptLoop, selecting, acquiring, stopped, listening, joining, drained, Server, start,
  notify_waiters, join_phase, IsStopped, accept, accept_selecting, acquire, finish, stop, ctrl_c,
  join, Steps, here, next,
}
use peregrine_proxy.Server.Shutdown.Drain.{drained-idle}
use peregrine_proxy.Server.Shutdown.Clean.{ctrl_c_drains}
use peregrine_proxy.Server.Shutdown.Tunnels.{tunnels_outlive}
use peregrine_proxy.Server.Shutdown.Missed.{ctrl_c_missed}
use peregrine_proxy.Startup.Tls.{TlsAcceptor}
use peregrine_proxy.Server.Task.{serve_connection, served}
use peregrine_proxy.Server.Task.Streams.{serve_connection_tls}
use peregrine_proxy.Tests.Sample.{local, talk, config}

abbrev answer_http : ProxyStream → Conn
answer_http stream = record (stream_conn stream) { output = codes "HTTP/1.1 200 OK" }

abbrev site : TargetAddr
site = domain (codes "example.org") 443

site-IsTarget : IsTarget site
site-IsTarget = (omega arith, is_utf8_ascii (codes "example.org") (omega arith), omega arith)

abbrev open_client : Conn
open_client = talk (0x05 ∷ 0x01 ∷ 0x00 ∷ request_bytes connect site [])

handle_connection_open_example :
    handle_connection local answer_http (plain open_client) ≡ record open_client {
      input = [];
      output = 0x05 ∷ 0x00 ∷ (answer local connect site).0;
      events = (answer local connect site).1;
    }
handle_connection_open_example =
    handle_connection_open local answer_http connect site (0x00 ∷ []) [] open_client refl refl refl
      site-IsTarget

abbrev browser : List ℕ → Conn
browser segments = record (talk (codes "GET / HTTP/1.1")) { segments = segments }

whole_seen : (read 8 (browser [])).0 ≡ done (codes "GET / HT")
unfolding read
whole_seen = refl

part_seen : (read 8 (browser (2 ∷ []))).0 ≡ done (codes "GE")
unfolding read
part_seen = refl

handle_connection_split_example :
    handle_connection local answer_http (plain (browser (2 ∷ []))) ≡ browser (2 ∷ [])
handle_connection_split_example =
    handle_connection_split local answer_http (browser (2 ∷ [])) (codes "E") (codes " ") b'G' b'T'
      (inl refl) part_seen

abbrev server : ℕ → ℕ → AcceptLoop → Server
server available active l = record {
  max_conn = 1;
  available = available;
  active = active;
  tunnels = 0;
  loops = l ∷ [];
  phase = listening;
}

one_served : Steps (start config) (server 0 1 selecting)
unfolding start
one_served =
    next (next here (accept [] [] selecting refl accept_selecting)) (acquire [] [] 0 refl refl)

one_permit : (start config).max_conn < 4294967296
unfolding start
one_permit = omega arith

one_connection : (start config).max_conn ≡ 1
unfolding start
one_connection = refl

abbrev ended : Server
ended = record (server 1 0 stopped) { phase = drained }

all_drained : Steps (start config) ended
unfolding start notify_waiters join_phase
all_drained =
    next (next (next (next one_served (finish 0 refl)) (ctrl_c refl)) (stop [] [] refl))
      (join refl (refl, tt))

drained-idle_example : (ended.active ≡ 0) × All IsStopped ended.loops
drained-idle_example = drained-idle config ended one_permit all_drained refl

abbrev overtaken : Server
overtaken = record (server 0 1 acquiring) { phase = joining; loops = acquiring ∷ [] }

unnoticed :
    Steps
      (record (server 0 1 acquiring) { phase = joining; loops = notify_waiters (acquiring ∷ []) })
      (record (server 1 0 acquiring) { phase = joining })
unfolding notify_waiters
unnoticed = next here (finish 0 refl)

ctrl_c_missed_example : (record (server 1 0 acquiring) { phase = joining }).phase ≡ joining
ctrl_c_missed_example =
    ctrl_c_missed (server 0 1 acquiring) (record (server 1 0 acquiring) { phase = joining }) [] []
      refl unnoticed

ctrl_c_drains_example :
    (t : Server) × Steps (server 0 1 selecting) t × (t.phase ≡ drained) × (t.active ≡ 0)
ctrl_c_drains_example = ctrl_c_drains (server 0 1 selecting) refl (refl, tt) refl

tunnels_outlive_example :
    (t : Server) × Steps (start config) t × (t.phase ≡ drained) × (t.tunnels ≡ 3)
tunnels_outlive_example = tunnels_outlive config 3 0 0 one_connection refl

abbrev certificate : TlsAcceptor
certificate = record { certs = codes "leaf" ∷ []; key = codes "secret" }

-- A handshake that leaves the connection as it is.
abbrev transparent : TlsAcceptor → Conn → Outcome Conn
transparent acceptor stream = done stream

serve_connection_tls_example :
    (serve_connection transparent local answer_http (some certificate) open_client
      ≡ served (answer_http (tls open_client)))
    ↔ ((inner : Conn) × (transparent certificate open_client ≡ done inner)
        × (answer_http (tls inner) ≡ answer_http (tls open_client)))
serve_connection_tls_example =
    serve_connection_tls transparent local answer_http certificate open_client
      (answer_http (tls open_client))
