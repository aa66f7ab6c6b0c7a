-- ===== src/Shared/Transport.antt =====
-- What the client and the replica use of `TLS<RecvMsg>` in shared/tls.hpp: an interface over the state
-- `N` of the connections, with one view of it, the broadcasts and sends that were made.
use disk_tees.Prelude.{◌≡◌, refl, List, [], ◌∷◌, ◌++◌, Outcome, ok, threw, Bytes}
use disk_tees.Shared.NetworkConfig.{NetworkConfig, Addresses}

-- `M` is the type of the messages that are sent.
pub record Transport (M : Type 0) (N : Type 0) : Type 0 where
  -- `send`: throws where the address has no connection, or the connection is lost
  pub send : M → Bytes → N → Outcome N
  -- `broadcast`: catches what `send` would throw
  pub broadcast : M → Addresses → N → N
  -- `closeSocket` of the connection to an address
  pub close_socket : Bytes → N → N
  pub new_network : NetworkConfig → N → Outcome N
  -- The calls of `broadcast`, oldest first, and the calls of `send` that returned.
  pub broadcasts : N → List (M × Addresses)
  pub sends : N → List (M × Bytes)

-- What the calls do to the view.
pub record IsTransport {M : Type 0} {N : Type 0} (t : Transport M N) : Type 0 where
  pub broadcasts-broadcast :
      (m : M) (ds : Addresses) (n : N)
      → t.broadcasts (t.broadcast m ds n) ≡ t.broadcasts n ++ (m, ds) ∷ []
  pub broadcasts-close_socket :
      (d : Bytes) (n : N) → t.broadcasts (t.close_socket d n) ≡ t.broadcasts n
  pub broadcasts-throw :
      (m : M) (d : Bytes) (n n' : N) → t.send m d n ≡ threw n' → t.broadcasts n' ≡ t.broadcasts n
  pub sends-broadcast : (m : M) (ds : Addresses) (n : N) → t.sends (t.broadcast m ds n) ≡ t.sends n
  pub sends-send :
      (m : M) (d : Bytes) (n n' : N) → t.send m d n ≡ ok n' → t.sends n' ≡ t.sends n ++ (m, d) ∷ []
  pub broadcasts-send :
      (m : M) (d : Bytes) (n n' : N) → t.send m d n ≡ ok n' → t.broadcasts n' ≡ t.broadcasts n
  -- Connections that begin carry no message of ours.
  pub sends-new_network :
      (conf : NetworkConfig) (n n' : N) → t.new_network conf n ≡ ok n' → t.sends n' ≡ t.sends n

-- One broadcast after the other.
unfoldable pub broadcast_all : {M N : Type 0} → Transport M N → List M → Addresses → N → N
broadcast_all tls [] ds n = n
broadcast_all tls (m ∷ ms) ds n = broadcast_all tls ms ds (tls.broadcast m ds n)

pub broadcast_all-snoc :
    {M N : Type 0} (tls : Transport M N) (ms : List M) (m : M) (ds : Addresses) (n : N)
    → broadcast_all tls (ms ++ m ∷ []) ds n ≡ tls.broadcast m ds (broadcast_all tls ms ds n)
unfolding broadcast_all
broadcast_all-snoc tls [] m ds n = refl
broadcast_all-snoc tls (x ∷ xs) m ds n = broadcast_all-snoc tls xs m ds (tls.broadcast x ds n)
