-- ===== src/Shared/Tls.antt =====
-- shared/tls.hpp and shared/tls.cpp: the state of `TLS<RecvMsg>`, and what it asks of OpenSSL, of the sockets, of
-- the serialisation library and of the representation of an `int`, which are parameters.
pub mod Io
pub mod Send
pub mod Connect
pub mod Loop
pub mod Streams
pub mod Writing
pub mod Bounds
pub mod Framing
pub mod Fifo
pub mod Broadcasts
pub mod Erasing
pub mod Passes
pub mod Maps
pub mod Carrier
pub mod Delivered
use disk_tees.Prelude.{
  ℕ, zero, suc, ℤ, pos, Bool, Option, none, some, List, [], ◌∷◌, Bytes, Outcome, ok, threw, exited,
  undefined, out_of_fuel,
}
use disk_tees.Shared.IntMap.{IntMap}
use disk_tees.Shared.StrMap.{StrMap}
use disk_tees.Shared.NetworkConfig.{NodeType}

-- An `SSL*`; 0 is the null pointer.
abbrev pub Ssl : Type 0
Ssl = ℕ

pub data SslError : Type 0 where
  no_error want_read want_write fatal : SslError

pub data PollEvent : Type 0 where
  pollin pollout : PollEvent

-- What `SSL_read` returns, and the bytes that it leaves in the buffer.
pub record SslRead : Type 0 where
  pub rc : ℤ
  pub out : Bytes

-- `W` is the state of the world outside the process.
pub record Openssl (W : Type 0) : Type 0 where
  pub ssl_write : Ssl → Bytes → ℤ → W → ℤ × W
  pub ssl_read : Ssl → ℕ → W → SslRead × W
  pub ssl_get_error : Ssl → ℤ → W → SslError
  -- `SSL_new` and the calls that name the socket and, for a client, the host
  pub ssl_new : ℤ → Option Bytes → W → Ssl × W
  pub ssl_accept : Ssl → W → ℤ × W
  pub ssl_connect : Ssl → W → ℤ × W
  -- `SSL_shutdown`, `SSL_free` and `close` of the socket
  pub ssl_close : Ssl → ℤ → W → W
  pub load_verify_locations : Bytes → W → W
  pub use_certificate_file : Bytes → W → ℤ × W
  pub use_private_key_file : Bytes → W → ℤ × W

pub record Sockets (W : Type 0) : Type 0 where
  pub socket : W → ℤ × W
  pub set_nodelay : ℤ → W → ℤ × W
  pub set_nonblock : ℤ → W → ℤ × W
  pub bind : ℤ → ℤ → W → ℤ × W
  pub listen : ℤ → W → ℤ × W
  -- the new socket, and the readable address and the port of the peer
  pub accept : ℤ → W → (ℤ × Bytes × ℤ) × W
  pub connect : ℤ → Bytes → ℤ → W → ℤ × W
  -- `poll` of one socket without a timeout
  pub poll_one : ℤ → PollEvent → W → W
  -- `poll` of all, with its timeout: which of them have `revents`
  pub poll : List ℤ → ℤ → W → (ℤ × List Bool) × W

-- What the compiler and the machine decide.
pub record Platform (W : Type 0) : Type 0 where
  -- the memory of an `int`, which has four bytes
  pub int_bytes : ℤ → Bytes
  pub bytes_int : Bytes → ℤ
  -- so many bytes that are not initialised
  pub junk : ℕ → W → Bytes
  -- what a reference to a string reads that has been erased from its map
  pub dangling : Bytes → Bytes

-- `zpp::bits`: `out` and `in`, each with its failure.
pub record Codec (M : Type 0) : Type 0 where
  pub serialize : M → Option Bytes
  pub deserialize : Bytes → Option M

-- The members that are constant.
pub record Options : Type 0 where
  pub id : ℤ
  pub name : Bytes
  pub own_type : NodeType
  pub path : Bytes

pub record Tls (W : Type 0) : Type 0 where
  pub read_buffer : Bytes
  -- of each `pollfd` the `fd`: the `events` are always `POLLIN`
  pub open_sockets : List ℤ
  pub server_socket : ℤ
  pub ssl_from_addr : StrMap Ssl
  pub ssl_from_socket : IntMap Ssl
  pub addr_from_socket : IntMap Bytes
  pub socket_from_addr : StrMap ℤ
  pub round_robin_index : ℕ
  pub world : W

abbrev pub read_buffer_size : ℕ
read_buffer_size = 8192

pub zeros : ℕ → Bytes
zeros zero = []
zeros (suc n) = 0 ∷ zeros n
