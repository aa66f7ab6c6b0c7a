-- ===== src/Tests/Nodes.antt =====
-- A replica that asks the one CCF node there is for a certificate.
use disk_tees.Prelude.{pos, [], ◌∷◌, codes}
use disk_tees.Shared.Ccf.{CcfNetwork, new_ccf, get_cert}
use disk_tees.Shared.Ccf.Live.{IsLive, EndsLive, get_cert_asks}
use disk_tees.Tests.World.{logging_os}

abbrev one_node : CcfNetwork
one_node = new_ccf (codes "/b") ((pos 0, codes "10.0.0.1:8000") ∷ [])

one_node-IsLive : IsLive one_node
unfolding IsLive new_ccf
one_node-IsLive = (λ e. cc, λ e. cc)

get_cert_asks_example :
    EndsLive (get_cert logging_os 3 (pos 1) (codes "replica1") (codes "replica") (one_node, []))
get_cert_asks_example =
    get_cert_asks logging_os 3 (pos 1) (codes "replica1") (codes "replica") one_node []
      one_node-IsLive
