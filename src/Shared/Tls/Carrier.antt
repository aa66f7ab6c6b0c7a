-- ===== src/Shared/Tls/Carrier.antt =====
-- shared/tls.cpp as the connections of the client and of the replica: the interface Shared/Transport, filled.
use disk_tees.Prelude.{
  ℕ, ◌≡◌, refl, none, some, List, [], ◌∷◌, ◌++◌, Bytes, Outcome, ok, threw, exited, undefined,
  out_of_fuel, ◌>>=◌, arith,
}
use disk_tees.Shared.StrMap.{find_str}
use disk_tees.Shared.NetworkConfig.{Addresses}
use disk_tees.Shared.Transport.{Transport, IsTransport}
use disk_tees.Shared.Tls.{Openssl, Sockets, Platform, Codec, Tls, Options}
use disk_tees.Shared.Tls.Send.{send, broadcast}
use disk_tees.Shared.Tls.Connect.{close_socket, new_network}

-- The object, and what was asked of it. Where a broadcast has not returned, nothing is left of the object, and no
-- later call does anything.
pub record Network (W M : Type 0) : Type 0 where
  pub live : Outcome (Tls W)
  pub to_all : List (M × Addresses)
  pub to_one : List (M × Bytes)

module _ {W M : Type 0} where
  -- The end of a call: `n` is what is noted where it returns, and `n0` where it throws.
  settled : Outcome (Tls W) → (n n0 : Network W M) → Outcome (Network W M)
  settled (ok t) n n0 = ok (record n { live = ok t })
  settled (threw t) n n0 = threw (record n0 { live = ok t })
  settled exited n n0 = exited
  settled undefined n n0 = undefined
  settled out_of_fuel n n0 = out_of_fuel

  settled-ok :
      (m : Outcome (Tls W)) (n n0 n' : Network W M)
      → settled m n n0 ≡ ok n'
      → (n'.to_all ≡ n.to_all) × (n'.to_one ≡ n.to_one)
  unfolding settled
  settled-ok (ok t) n n0 n' e = (ground arith, ground arith)
  settled-ok (threw t) n n0 n' e = cc
  settled-ok exited n n0 n' e = cc
  settled-ok undefined n n0 n' e = cc
  settled-ok out_of_fuel n n0 n' e = cc

  settled-threw :
      (m : Outcome (Tls W)) (n n0 n' : Network W M)
      → settled m n n0 ≡ threw n'
      → n'.to_all ≡ n0.to_all
  unfolding settled
  settled-threw (ok t) n n0 n' e = cc
  settled-threw (threw t) n n0 n' e = ground arith
  settled-threw exited n n0 n' e = cc
  settled-threw undefined n n0 n' e = cc
  settled-threw out_of_fuel n n0 n' e = cc

module _ {W M : Type 0} (lib : Openssl W) (os : Sockets W) (machine : Platform W) (codec : Codec M)
    (opts : Options) (fuel : ℕ) where
  -- The connection of an address that is known.
  closed : Bytes → Tls W → Tls W
  closed addr t = elim (find_str addr t.socket_from_addr) [
    | none ↦ t
    | some sock ↦ close_socket lib os machine opts fuel sock t
  ]

  unfoldable pub tls_transport : Transport M (Network W M)
  unfolding settled closed
  tls_transport = record {
    send = λ m addr n.
        settled (n.live >>= send lib os machine codec fuel m addr)
          (record n { to_one = n.to_one ++ (m, addr) ∷ [] }) n;
    broadcast = λ m ds n. record n {
      live = n.live >>= broadcast lib os machine codec fuel m ds;
      to_all = n.to_all ++ (m, ds) ∷ [];
    };
    close_socket = λ addr n. record n { live = n.live >>= λ t. ok (closed addr t) };
    new_network = λ conf n. settled (n.live >>= new_network lib os machine opts fuel conf) n n;
    broadcasts = λ n. n.to_all;
    sends = λ n. n.to_one;
  }

  pub tls_transport-IsTransport : IsTransport tls_transport
  unfolding tls_transport
  tls_transport-IsTransport = record {
    broadcasts-broadcast = λ m ds n. refl;
    broadcasts-close_socket = λ addr n. refl;
    broadcasts-throw = λ m addr n n' e. settled-threw _ _ n n' e;
    sends-broadcast = λ m ds n. refl;
    sends-send = λ m addr n n' e. (settled-ok _ _ n n' e).1;
    broadcasts-send = λ m addr n n' e. (settled-ok _ _ n n' e).0;
    sends-new_network = λ conf n n' e. (settled-ok _ n n n' e).1;
  }
