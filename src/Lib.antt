-- ===== src/Lib.antt =====
-- Peregrine Proxy: a forward proxy for HTTP and SOCKS5 with access control and upstream proxies.
--
-- A listener accepts a connection when the shared semaphore has a permit. The server looks at its
-- first bytes and gives it to the HTTP or to the SOCKS5 handler. A SOCKS5 client negotiates a
-- method, may log in, and asks for a connection, or for a UDP relay whose loop lives as long
-- as its connection. An HTTP request is forwarded without its hop-by-hop headers, or opens a tunnel. An
-- access controller decides requests by rules, and an upstream router connects through another
-- proxy or a chain of them; both are libraries that the server does not call.
--
-- The files and the code they model:
--   Base and its modules: lists, bytes, words, numbers in decimal, the text and the parsing of IP
--     addresses (std::net, which the code calls), UTF-8, find, rfind and trim.
--   Config: the records of src/config.rs. Error: src/error.rs.
--   Stream: the calls of tokio on a connection, read_exact, read, write_all and timeout, over a peer
--     that sends what it likes in segments of its choice, and then closes, resets or falls silent.
--     An asynchronous function is a function from the connection's state to an outcome and a state;
--     a call that never returns is the outcome `hung`. Network: what connect and bind give.
--   Detect: src/protocol/detect.rs; Detect/Peek: the buffer of handle_connection.
--   Acl/Auth: src/acl/auth.rs. Acl/DomainFilter: src/acl/domain_filter.rs. Acl/Access:
--     src/acl/mod.rs, rule.rs and ip_filter.rs. Acl/Matchers: the crates globset, regex and ipnet.
--   Socks5/Handshake: src/protocol/socks5/handshake.rs. Socks5: mod.rs and tcp_connect.rs there, and
--     the reply to UDP ASSOCIATE.
--   Udp: the packets of src/protocol/socks5/udp_associate.rs; Udp/Relay: its table of clients and
--     its tasks as a transition system, one step for each stretch of code between two awaits.
--   Upstream: src/upstream/mod.rs and direct.rs; Upstream/Socks5Client: socks5_proxy.rs;
--     Upstream/HttpClient: http_proxy.rs; Upstream/Chain: chain.rs, and Servers and
--     Served there, servers of this program in a chain; Upstream/Router: UpstreamRouter.
--   Http: src/protocol/http_handler.rs.
--   Server: handle_connection of src/server.rs; Server/Task: the task of a connection with its TLS
--     handshake, and the calls of ProxyStream; Server/Shutdown: run and accept_loop as a transition
--     system over the loops, the permits, the tunnels that http_handler.rs spawns beside them, and the
--     phases of the shutdown, and Sessions there, the abstract system of sessions and tunnels.
--   Startup: load_from_file of src/config.rs and src/logging.rs; Startup/Tls: load_tls_acceptor of
--     src/server.rs; Startup/Listen: the binding of the listeners in run; Startup/Reload: its watch
--     channel and SIGHUP beside the server; Startup/Main: src/main.rs.
--   Metrics: src/metrics.rs; Metrics/Reader: a reader of HTTP answers to judge its answers by.
--   Tests: the theorems at concrete inputs.
--
-- Texts are their UTF-8 bytes, and bytes and words are natural numbers; where the code casts a
-- length to u8 the model wraps it. Every function is by recursion on lists or numbers. The only fuel
-- is that of the digits of a number, which is the number plus one, or its length in hexadecimal. The
-- crates base64, globset, regex, ipnet, hyper, rustls and prometheus_client are parameters, with what
-- they document as fields of the records Base64 and Matchers.
--
-- Not modelled: the parsing of the configuration file and of the command line, what installing a
-- log subscriber does, the text that prometheus_client makes of the metrics, and what hyper does
-- with the bytes of a connection. A write never waits for a peer that takes no more: the messages of
-- the handshakes are a few dozen bytes, and the source puts no time limit on writing them.
pub mod Base
pub mod Config
pub mod Error
pub mod Startup
pub mod Stream
pub mod Metrics
pub mod Network
pub mod Acl
pub mod Upstream
pub mod Socks5
pub mod Detect
pub mod Udp
pub mod Http
pub mod Server
pub mod Tests
