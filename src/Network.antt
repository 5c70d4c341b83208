-- ===== src/Network.antt =====
-- The operating system's network, a parameter of the code that opens connections: what
-- `TcpStream::connect` and `UdpSocket::bind` with `local_addr` give.
use peregrine_proxy.Base.{ℕ}
use peregrine_proxy.Base.Text.{Bytes}
use peregrine_proxy.Error.{IoError}
use peregrine_proxy.Stream.{Conn}

-- `std::net::SocketAddr`: octets and a port.
pub data SocketAddr : Type 0 where
  v4 v6 : Bytes → ℕ → SocketAddr

pub data Connected : Type 0 where
  opened : Conn → Connected
  refused : IoError → Connected

pub data Bound : Type 0 where
  bound : SocketAddr → Bound
  unbound : IoError → Bound

pub record Network : Type 0 where
  pub tcp_connect : Bytes → Connected
  pub udp_bind : Bound
