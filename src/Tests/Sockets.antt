-- ===== src/Tests/Sockets.antt =====
-- A server whose one connection is lost.
use disk_tees.Prelude.{
  ℕ, zero, pos, Bool, true, ◌≡◌, refl, some, [], ◌∷◌, ◌++◌, codes, eqb_str, ◌==ℤ◌, ok,
}
use disk_tees.Shared.IntMap.{find, put}
use disk_tees.Shared.StrMap.{find_str, put_str}
use disk_tees.Shared.NetworkConfig.{NodeType}
use disk_tees.Shared.Tls.{Options, Tls, zeros, read_buffer_size}
use disk_tees.Shared.Tls.Connect.{close_socket, add_connection}
use disk_tees.Shared.Tls.Send.{broadcast}
use disk_tees.Shared.Tls.Loop.{
  Pass, OnRecv, receive_from, drop_socket, received, visit_socket, visit_sockets, modify_sockets,
}
use disk_tees.Shared.Tls.Erasing.{survivors}
use disk_tees.Shared.Tls.Passes.{modify_sockets_lem}
use disk_tees.Shared.Tls.Broadcasts.{send_each, broadcast_lem}
use disk_tees.Shared.Tls.Maps.{
  IsConsistent, unchanged, opens, closes, Evolves-IsConsistent, reused-IsConsistent,
}
use disk_tees.Tests.Pipe.{Pipe, pipe, still, plain, numbers}
use disk_tees.Tests.Connections.{sender}

abbrev server : Options
server = record {
  id = pos 0;
  name = codes "replica0";
  own_type = NodeType.replica;
  path = codes "/b";
}

broadcast_lem_example :
    broadcast pipe still plain numbers 3 7 (codes "a" ∷ codes "b" ∷ []) sender
    ≡ send_each pipe still plain numbers 3 7 (codes "a" ∷ codes "b" ∷ []) sender
broadcast_lem_example =
    broadcast_lem pipe still plain numbers 3 7 (codes "a" ∷ codes "b" ∷ []) sender

-- It has no connection for the one socket that it polls.
abbrev broken : Tls Pipe
broken = record sender { ssl_from_socket = [] }

ignore : OnRecv Bool Pipe ℕ
ignore m addr x = ok x

abbrev dropped : Pass Bool Pipe
dropped = record {
  new_sockets = [];
  deleted = zero ∷ [];
  app = true;
  tls =
      close_socket pipe still plain server 3 (pos 3)
        (record broken { read_buffer = zeros read_buffer_size });
}

visited :
    visit_sockets pipe still plain numbers server ignore 3 0
      (pos 3 ∷ [])
      (true ∷ [])
      (record { new_sockets = []; deleted = []; app = true; tls = broken })
    ≡ ok dropped
unfolding visit_sockets visit_socket received receive_from drop_socket find ◌==ℤ◌ close_socket
visited = refl

modify_sockets_lem_example :
    (modify_sockets pipe still plain numbers server ignore 3 dropped).1.open_sockets
    ≡ survivors 0 dropped.deleted dropped.tls.open_sockets ++ dropped.new_sockets
modify_sockets_lem_example =
    modify_sockets_lem pipe still plain numbers server ignore 3 (pos 3 ∷ []) (true ∷ []) true broken
      dropped visited

abbrev empty : Tls Pipe
empty = record sender {
  ssl_from_addr = [];
  ssl_from_socket = [];
  addr_from_socket = [];
  socket_from_addr = [];
}

empty-IsConsistent : IsConsistent empty
unfolding find find_str
empty-IsConsistent = record { forward = λ s a e. cc; backward = λ s a e. cc; agree = λ s a e. refl }

three_four : pos 3 ≡ pos 4 → ⊥
three_four e = cc

-- One connection, and another that begins under its address.
abbrev one_line : Tls Pipe
one_line = add_connection (pos 3) (codes "a") 1 empty

one_line-IsConsistent : IsConsistent one_line
unfolding find find_str add_connection put put_str ◌==ℤ◌ eqb_str
one_line-IsConsistent =
    Evolves-IsConsistent pipe still plain server 3 empty one_line
      (opens _ (pos 3) (codes "a") 1 unchanged refl refl) empty-IsConsistent

in_use : find_str (codes "a") one_line.socket_from_addr ≡ some (pos 3)
unfolding find_str add_connection put_str eqb_str
in_use = refl

reused-IsConsistent_example : ¬ IsConsistent (add_connection (pos 4) (codes "a") 2 one_line)
reused-IsConsistent_example =
    reused-IsConsistent (pos 3) (pos 4) (codes "a") 2 one_line one_line-IsConsistent in_use
      three_four

abbrev reopened : Tls Pipe
reopened =
    close_socket pipe still plain server 3 (pos 3) (add_connection (pos 3) (codes "a") 1 empty)

Evolves-IsConsistent_example : IsConsistent reopened
unfolding find find_str add_connection put put_str ◌==ℤ◌ eqb_str
Evolves-IsConsistent_example =
    Evolves-IsConsistent pipe still plain server 3 empty reopened
      (closes _ (pos 3) (codes "a") (opens _ (pos 3) (codes "a") 1 unchanged refl refl) refl refl)
      empty-IsConsistent
