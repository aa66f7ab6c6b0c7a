-- ===== src/Shared/Tls/Maps.antt =====
-- shared/tls.cpp: the four maps of the connections, while connections begin and end.
use disk_tees.Prelude.{ℕ, ℤ, eqb_ℤ_iff, eqb_str_iff, none, some, List, Bytes, ◌≡◌, ◌≢◌, arith}
use disk_tees.Shared.IntMap.{find, erase, find-put, find-erase}
use disk_tees.Shared.StrMap.{find_str, erase_str, find_str-put_str, find_str-erase_str}
use disk_tees.Shared.Tls.{Ssl, Openssl, Sockets, Platform, Options, Tls}
use disk_tees.Shared.Tls.Connect.{add_connection, close_socket, addr_or_empty}

-- The maps between sockets and addresses are inverse to each other, and the two maps to connections agree.
pub record IsConsistent {W : Type 0} (t : Tls W) : Type 0 where
  pub forward :
      (sock : ℤ) (addr : Bytes)
      → find sock t.addr_from_socket ≡ some addr
      → find_str addr t.socket_from_addr ≡ some sock
  pub backward :
      (sock : ℤ) (addr : Bytes)
      → find_str addr t.socket_from_addr ≡ some sock
      → find sock t.addr_from_socket ≡ some addr
  pub agree :
      (sock : ℤ) (addr : Bytes)
      → find sock t.addr_from_socket ≡ some addr
      → find_str addr t.ssl_from_addr ≡ find sock t.ssl_from_socket

module _ {W : Type 0} where
  add_connection-IsConsistent :
      (sock : ℤ) (addr : Bytes) (ssl : Ssl) (t : Tls W)
      → IsConsistent t
      → find sock t.addr_from_socket ≡ none
      → find_str addr t.socket_from_addr ≡ none
      → IsConsistent (add_connection sock addr ssl t)
  unfolding add_connection
  add_connection-IsConsistent sock addr ssl t h fresh new = record {
    forward = λ s a e. grind (
      arith,
      e,
      find-put sock s addr t.addr_from_socket,
      find_str-put_str addr a sock t.socket_from_addr,
      eqb_ℤ_iff sock s,
      eqb_str_iff addr a,
      h.forward s a,
      fresh,
      new,
    );
    backward = λ s a e. grind (
      arith,
      e,
      find-put sock s addr t.addr_from_socket,
      find_str-put_str addr a sock t.socket_from_addr,
      eqb_ℤ_iff sock s,
      eqb_str_iff addr a,
      h.backward s a,
      fresh,
      new,
    );
    agree = λ s a e. grind (
      arith,
      e,
      find-put sock s addr t.addr_from_socket,
      find-put sock s ssl t.ssl_from_socket,
      find_str-put_str addr a ssl t.ssl_from_addr,
      eqb_ℤ_iff sock s,
      eqb_str_iff addr a,
      h.forward s a,
      h.agree s a,
      fresh,
      new,
    );
  }

module _ {W : Type 0} where
  -- A connection that begins under an address that already has one leaves the maps inconsistent: the old socket still
  -- leads to the address, and the address to the new socket only.
  pub reused-IsConsistent :
      (old sock : ℤ) (addr : Bytes) (ssl : Ssl) (t : Tls W)
      → IsConsistent t
      → find_str addr t.socket_from_addr ≡ some old
      → old ≢ sock
      → ¬ IsConsistent (add_connection sock addr ssl t)
  unfolding add_connection
  reused-IsConsistent old sock addr ssl t h there other k = grind (
    arith,
    there,
    other,
    h.backward old addr,
    k.forward old addr,
    find-put sock old addr t.addr_from_socket,
    find_str-put_str addr addr sock t.socket_from_addr,
    eqb_ℤ_iff sock old,
    eqb_str_iff addr addr,
  )

module _ {W : Type 0} (lib : Openssl W) (os : Sockets W) (machine : Platform W) (opts : Options)
    (fuel : ℕ) where
  close_socket-IsConsistent :
      (sock : ℤ) (addr : Bytes) (t : Tls W)
      → IsConsistent t
      → find sock t.addr_from_socket ≡ some addr
      → machine.dangling addr ≡ addr
      → IsConsistent (close_socket lib os machine opts fuel sock t)
  unfolding close_socket addr_or_empty
  close_socket-IsConsistent sock addr t h there intact = record {
    forward = λ s a e.
        let e' : find s (erase sock t.addr_from_socket) ≡ some a = e in
        rw (there, intact)
          (grind (
            arith,
            e',
            find-erase sock s t.addr_from_socket,
            find_str-erase_str addr a t.socket_from_addr,
            eqb_ℤ_iff sock s,
            eqb_str_iff addr a,
            h.forward s a,
            h.forward sock addr,
            there,
          ));
    backward = λ s a e.
        let e' : find_str a (erase_str addr t.socket_from_addr) ≡ some s =
          rw (there, intact) at e in
        grind (
          arith,
          e',
          find-erase sock s t.addr_from_socket,
          find_str-erase_str addr a t.socket_from_addr,
          eqb_ℤ_iff sock s,
          eqb_str_iff addr a,
          h.backward s a,
          there,
        );
    agree = λ s a e.
        let e' : find s (erase sock t.addr_from_socket) ≡ some a = e in
        rw there (
          grind (
            arith,
            e',
            find-erase sock s t.addr_from_socket,
            find-erase sock s t.ssl_from_socket,
            find_str-erase_str addr a t.ssl_from_addr,
            eqb_ℤ_iff sock s,
            eqb_str_iff addr a,
            h.forward s a,
            h.forward sock addr,
            h.agree s a,
            there,
          ));
  }

  -- The maps after connections have begun, under a socket and an address that are not in use, and ended, where a
  -- string that was just erased still reads as it was; whatever else has happened to the other members.
  pub data Evolves (t : Tls W) : Tls W → Type 0 where
    unchanged : Evolves t t
    opens :
        (u : Tls W) (sock : ℤ) (addr : Bytes) (ssl : Ssl)
        → Evolves t u
        → find sock u.addr_from_socket ≡ none
        → find_str addr u.socket_from_addr ≡ none
        → Evolves t (add_connection sock addr ssl u)
    closes :
        (u : Tls W) (sock : ℤ) (addr : Bytes)
        → Evolves t u
        → find sock u.addr_from_socket ≡ some addr
        → machine.dangling addr ≡ addr
        → Evolves t (close_socket lib os machine opts fuel sock u)
    elsewhere :
        (u : Tls W) (buffer : Bytes) (socks : List ℤ) (index : ℕ) (w : W)
        → Evolves t u
        → Evolves t (record u {
          read_buffer = buffer;
          open_sockets = socks;
          round_robin_index = index;
          world = w;
        })

  -- The four maps of the connections stay consistent.
  pub Evolves-IsConsistent : (t u : Tls W) → Evolves t u → IsConsistent t → IsConsistent u
  Evolves-IsConsistent t u unchanged h = h
  Evolves-IsConsistent t _ (opens u sock addr ssl v fresh new) h =
      add_connection-IsConsistent sock addr ssl u (Evolves-IsConsistent t u v h) fresh new
  Evolves-IsConsistent t _ (closes u sock addr v there intact) h =
      close_socket-IsConsistent sock addr u (Evolves-IsConsistent t u v h) there intact
  Evolves-IsConsistent t _ (elsewhere u buffer socks index w v) h =
      let k = Evolves-IsConsistent t u v h in
      record { forward = k.forward; backward = k.backward; agree = k.agree }
