-- ===== src/Shared/Tls/Connect.antt =====
-- shared/tls.cpp: connections, how they begin and how they end.
use disk_tees.Prelude.{
  ℕ, zero, suc, ℤ, pos, ltb_ℤ, leb_ℤ, ◌==ℤ◌, Bool, true, false, ◌||◌, Option, none, some, [], ◌∷◌,
  ◌++◌, Bytes, codes, to_string, Outcome, ok, exited, out_of_fuel, ◌>>=◌, map_outcome, and_then,
  if◌then◌else◌,
}
use disk_tees.Shared.IntMap.{find, put, erase}
use disk_tees.Shared.StrMap.{put_str, erase_str}
use disk_tees.Shared.NetworkConfig.{NetworkConfig, NodeType, get_port}
use disk_tees.Shared.Tls.{Ssl, Openssl, Sockets, Platform, Options, Tls, read_buffer_size}
use disk_tees.Shared.Tls.Io.{block_on_err}

-- The four maps of a new connection.
unfoldable pub add_connection : {W : Type 0} → ℤ → Bytes → Ssl → Tls W → Tls W
add_connection sock addr ssl t = record t {
  ssl_from_addr = put_str addr ssl t.ssl_from_addr;
  ssl_from_socket = put sock ssl t.ssl_from_socket;
  addr_from_socket = put sock addr t.addr_from_socket;
  socket_from_addr = put_str addr sock t.socket_from_addr;
}

pub ssl_or_null : Option Ssl → Ssl
ssl_or_null none = 0
ssl_or_null (some ssl) = ssl

unfoldable pub addr_or_empty : Option Bytes → Bytes
addr_or_empty none = []
addr_or_empty (some addr) = addr

module _ {W : Type 0} (lib : Openssl W) (os : Sockets W) (machine : Platform W) (opts : Options)
    (fuel : ℕ) where
  pub disable_nagles_algorithm : ℤ → W → Outcome W
  disable_nagles_algorithm sock w =
      let (result, w1) = os.set_nodelay sock w in if ltb_ℤ result (pos 0) then exited else ok w1

  pub set_non_blocking : ℤ → W → Outcome W
  set_non_blocking sock w =
      let (result, w1) = os.set_nonblock sock w in if ltb_ℤ result (pos 0) then exited else ok w1

  pub load_own_certificates : W → Outcome W
  load_own_certificates w =
      let (cert, w1) =
        lib.use_certificate_file (opts.path ++ codes "/" ++ opts.name ++ codes "_cert.pem") w in
      let (key, w2) =
        lib.use_private_key_file (opts.path ++ codes "/" ++ opts.name ++ codes "_key.pem") w1 in
      if leb_ℤ cert (pos 0) || leb_ℤ key (pos 0) then exited else ok w2

  -- `loadAcceptableCertificates` and `loadOwnCertificates`
  pub load_certificates : W → Outcome W
  unfolding load_own_certificates
  load_certificates w = load_own_certificates (lib.load_verify_locations opts.path w)

  -- A server that cannot bind or listen ends the process.
  pub start_server : Tls W → Outcome (Tls W)
  unfolding disable_nagles_algorithm set_non_blocking
  start_server t =
      let (sock, w) = os.socket t.world in
      map_outcome
        (λ v. record t {
          server_socket = sock;
          open_sockets = t.open_sockets ++ sock ∷ [];
          world = v;
        })
        (disable_nagles_algorithm sock w >>= λ w1. set_non_blocking sock w1 >>= λ w2.
          let (bound, w3) = os.bind sock (get_port opts.own_type opts.id) w2 in
          let (listening, w4) = os.listen sock w3 in
          if ltb_ℤ bound (pos 0) || ltb_ℤ listening (pos 0) then exited else ok w4)

  -- The loop around `SSL_accept` or `SSL_connect`: whether the connection is complete.
  pub handshake : (Ssl → W → ℤ × W) → ℕ → ℤ → Ssl → W → Outcome (Bool × W)
  handshake step zero sock ssl w = out_of_fuel
  handshake step (suc rounds) sock ssl w =
      let (rc, w1) = step ssl w in
      let (success, w2) = block_on_err lib os sock ssl rc w1 in
      elim success [
        | false ↦ ok (false, w2)
        | true ↦ (elim (leb_ℤ rc (pos 0)) [
          | true ↦ handshake step rounds sock ssl w2
          | false ↦ ok (true, w2)
        ])
      ]

  -- The new socket, or `none` for -1.
  unfoldable pub accept_connection : Tls W → Outcome (Option ℤ × Tls W)
  unfolding disable_nagles_algorithm load_certificates handshake
  accept_connection t =
      let ((sock, ip, port), w) = os.accept t.server_socket t.world in
      if ltb_ℤ sock (pos 0)
      then ok (none, record t { world = w })
      else and_then (disable_nagles_algorithm sock w >>= λ w1. load_certificates w1) (λ w2.
        let (ssl, w3) = lib.ssl_new sock none w2 in
        and_then (handshake lib.ssl_accept fuel sock ssl w3) (λ (success, w4). ok (
          if success
          then (
            some sock,
            add_connection sock (ip ++ codes ":" ++ to_string port) ssl (record t { world = w4 }),
          )
          else (none, record t { world = w4 }))))

  -- `while (connect(...) != 0)`
  pub connect_forever : ℕ → ℤ → Bytes → ℤ → W → Outcome W
  connect_forever zero sock ip port w = out_of_fuel
  connect_forever (suc rounds) sock ip port w =
      let (rc, w1) = os.connect sock ip port w in
      elim (rc ==ℤ pos 0) [ true ↦ ok w1 | false ↦ connect_forever rounds sock ip port w1 ]

  -- A connection whose handshake fails is left out.
  pub connect_to_server : ℤ → Bytes → Tls W → Outcome (Tls W)
  unfolding disable_nagles_algorithm set_non_blocking load_certificates connect_forever handshake
      add_connection
  connect_to_server peer_id peer_ip t =
      let port = get_port NodeType.replica peer_id in
      and_then (load_certificates t.world) (λ w.
        let (sock, w1) = os.socket w in
        and_then (disable_nagles_algorithm sock w1 >>= λ w2. set_non_blocking sock w2) (λ w3.
          let (ssl, w4) = lib.ssl_new sock (some peer_ip) w3 in
          and_then (connect_forever fuel sock peer_ip port w4) (λ w5.
            and_then (handshake lib.ssl_connect fuel sock ssl w5) (λ (success, w6).
              let u = record t { world = w6 } in
              ok (
                if success
                then (let v = add_connection sock (peer_ip ++ codes ":" ++ to_string port) ssl u in
                    record v { open_sockets = v.open_sockets ++ sock ∷ [] })
                else u)))))

  -- Lower-numbered replicas connect to higher-numbered ones.
  pub connects_to : ℤ → Bool
  connects_to peer_id = elim opts.own_type [
    | NodeType.client ↦ true
    | NodeType.replica ↦ ltb_ℤ opts.id peer_id
  ]

  pub new_network : NetworkConfig → Tls W → Outcome (Tls W)
  unfolding connect_to_server connects_to
  new_network [] t = ok t
  new_network ((peer_id, peer_ip) ∷ net_conf) t =
      (if connects_to peer_id then connect_to_server peer_id peer_ip t else ok t) >>= λ u.
      new_network net_conf u

  -- The constructor. A client has no server socket, and the member is not initialised; nor is the buffer.
  pub new_tls : NetworkConfig → W → Outcome (Tls W)
  unfolding start_server new_network
  new_tls net_conf w =
      let t : Tls W = record {
        read_buffer = machine.junk read_buffer_size w;
        open_sockets = [];
        server_socket = machine.bytes_int (machine.junk 4 w);
        ssl_from_addr = [];
        ssl_from_socket = [];
        addr_from_socket = [];
        socket_from_addr = [];
        round_robin_index = 0;
        world = w;
      } in
      (elim opts.own_type [ NodeType.replica ↦ start_server t | NodeType.client ↦ ok t ]) >>= λ u.
      new_network net_conf u

  -- `[sock]` inserts an empty address or a null pointer where there is none. The second `erase` of an address
  -- goes by a reference to a string that the one before it has erased.
  unfoldable pub close_socket : ℤ → Tls W → Tls W
  unfolding addr_or_empty ssl_or_null
  close_socket sock t =
      let addr = addr_or_empty (find sock t.addr_from_socket) in
      let ssl = ssl_or_null (find sock t.ssl_from_socket) in
      record t {
        ssl_from_addr = erase_str addr t.ssl_from_addr;
        addr_from_socket = erase sock t.addr_from_socket;
        socket_from_addr = erase_str (machine.dangling addr) t.socket_from_addr;
        ssl_from_socket = erase sock t.ssl_from_socket;
        world = lib.ssl_close ssl sock t.world;
      }
