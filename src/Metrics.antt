-- ===== src/Metrics.antt =====
-- src/metrics.rs: the metrics, their registration, and the server that shows them. The text that
-- prometheus_client makes of the registry is a parameter.
pub mod Reader
pub mod Answer
use peregrine_proxy.Base.{
  ℕ, Option, some, none, List, [], ◌∷◌, ◌++◌, map, starts_with, length, if◌then◌else◌,
}
use peregrine_proxy.Base.Text.{Bytes, codes}
use peregrine_proxy.Base.Decimal.{decimal}
use peregrine_proxy.Error.{IoError}
use peregrine_proxy.Stream.{Conn, Outcome, done, fail, hung, read, write_all}

pub data ProtocolLabel : Type 0 where
  http socks5 : ProtocolLabel

-- `Display`.
unfoldable pub protocol_text : ProtocolLabel → Bytes
protocol_text http = codes "http"
protocol_text socks5 = codes "socks5"

pub data ActionLabel : Type 0 where
  forward connect tcp_connect udp_associate : ActionLabel

unfoldable pub action_text : ActionLabel → Bytes
action_text forward = codes "forward"
action_text connect = codes "connect"
action_text tcp_connect = codes "tcp_connect"
action_text udp_associate = codes "udp_associate"

pub record RequestLabels : Type 0 where
  pub protocol : ProtocolLabel
  pub action : ActionLabel

-- Which field of `ProxyMetrics` a registered metric is a clone of: the clone shares its value.
pub data Metric : Type 0 where
  connections_active requests_total request_duration_seconds upstream_errors_total : Metric

pub record Registration : Type 0 where
  pub name : Bytes
  pub help : Bytes
  pub metric : Metric

-- The gauge is an `i64`, kept as its 64 bits; a histogram has its upper bounds in milliseconds,
-- each with the number of observations, and the number above all of them.
pub record Histogram : Type 0 where
  pub buckets : List (ℕ × ℕ)
  pub above : ℕ

pub record ProxyMetrics : Type 0 where
  pub connections_active : ℕ
  pub requests_total : List (RequestLabels × ℕ)
  pub request_duration_seconds : Histogram
  pub upstream_errors_total : ℕ
  pub registry : List Registration

-- `Histogram::new` of its bounds.
new_histogram : List ℕ → Histogram
new_histogram bounds = record { buckets = map (λ b. (b, 0)) bounds; above = 0 }

unfoldable pub new_metrics : ProxyMetrics
unfolding new_histogram
new_metrics = record {
  connections_active = 0;
  requests_total = [];
  request_duration_seconds =
      new_histogram (1 ∷ 5 ∷ 10 ∷ 50 ∷ 100 ∷ 250 ∷ 500 ∷ 1000 ∷ 5000 ∷ 10000 ∷ []);
  upstream_errors_total = 0;
  registry =
      record {
        name = codes "peregrine_connections_active";
        help = codes "Currently active connections";
        metric = connections_active;
      }
      ∷ record {
        name = codes "peregrine_requests_total";
        help = codes "Total requests handled";
        metric = requests_total;
      }
      ∷ record {
        name = codes "peregrine_request_duration_seconds";
        help = codes "Request duration in seconds";
        metric = request_duration_seconds;
      }
      ∷ record {
        name = codes "peregrine_upstream_errors_total";
        help = codes "Total upstream connection errors";
        metric = upstream_errors_total;
      }
      ∷ [];
}

abbrev pub crlf : Bytes
crlf = 13 ∷ 10 ∷ []

-- An answer as the source formats it: the line of the status, the two headers and the body.
unfoldable pub format_answer : Bytes → Bytes → ℕ → Bytes → Bytes
format_answer status content_type content_length body =
    (codes "HTTP/1.1 " ++ status)
    ++ (crlf
        ++ ((codes "Content-Type: " ++ content_type)
            ++ (crlf
                ++ ((codes "Content-Length: " ++ decimal content_length)
                    ++ (crlf ++ (crlf ++ body))))))

-- What `TcpListener::bind` and each `accept` give.
pub data Listening : Type 0 where
  listening : Listening
  bind_failed : IoError → Listening

pub data Accepted : Type 0 where
  accepted : Conn → Accepted
  accept_failed : IoError → Accepted

-- `encode` of prometheus_client is the parameter.
module _ (encode : ProxyMetrics → Bytes) where
  -- `response` for the first bytes of a request. The lossy decoding leaves ASCII as it is.
  unfoldable pub response : ProxyMetrics → Bytes → Bytes
  unfolding format_answer
  response metrics request =
      let metrics_text = encode metrics in
      if starts_with (codes "GET /metrics") request
      then format_answer (codes "200 OK") (codes "text/plain; version=0.0.4; charset=utf-8")
          (length metrics_text) metrics_text
      else if starts_with (codes "GET /health") request
      then format_answer (codes "200 OK") (codes "text/plain") 2 (codes "OK")
      else format_answer (codes "404 Not Found") (codes "text/plain") 9 (codes "Not Found")

  -- The two arms of `match socket.read(&mut buffer).await`; the result of `write_all` is ignored.
  abbrev pub respond : ProxyMetrics → Outcome Bytes → Conn → Conn
  respond metrics (done request) socket = (write_all (response metrics request) socket).1
  respond metrics (fail e) socket = socket
  respond metrics hung socket = socket

  -- The task of one connection.
  unfoldable pub serve : ProxyMetrics → Conn → Conn
  serve metrics socket =
      let (request, socket') = read 1024 socket in respond metrics request socket'

  -- The loop: each accepted connection is served by a task of its own, as it is left.
  unfoldable pub accept_all : ProxyMetrics → List Accepted → List Conn
  accept_all metrics [] = []
  accept_all metrics (accepted socket ∷ more) = serve metrics socket ∷ accept_all metrics more
  accept_all metrics (accept_failed e ∷ more) = accept_all metrics more

  unfoldable pub start_server : ProxyMetrics → Listening → List Accepted → List Conn
  start_server metrics listening connections = accept_all metrics connections
  start_server metrics (bind_failed e) connections = []
