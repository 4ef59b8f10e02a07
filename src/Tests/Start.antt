-- ===== src/Tests/Start.antt =====
-- The start of a command with peers and the configured peers at concrete values.
use bbserver.Base.{◌≡◌, refl, false, none, [], ◌∷◌, arith, codes, ok, pos}
use bbserver.Types.{sync_null}
use bbserver.World.{World}
use bbserver.Types.{sync_disconnect, sync_idle, client_cmd_write}
use bbserver.World.{Os}
use bbserver.Clients.{update}
use bbserver.Msg.Client.{start_sync}
use bbserver.Msg.Client.Start.{waiting, start_sync_refused}
use bbserver.Servers.Config.{init_sync_server_list}
use bbserver.Servers.Config.Parse.{peers_text, peer_nodes, init_sync_server_list-peers}
use bbserver.Tests.{os, client, server, world}

-- the second peer is not connected, and nobody accepts
abbrev peer_down : World
peer_down = world (client 1 sync_idle ∷ []) (server 1 sync_idle ∷ server 2 sync_disconnect ∷ [])

abbrev refusing : Os
refusing = record os { connects = λ log fd ip port. false }

start_sync_refused_example :
    (v : World) × (start_sync refusing peer_down
        (client 1 sync_idle)
        client_cmd_write
        (codes "3/ann/new")
      ≡ ok (v, codes "3.2 ERROR WRITE"))
    × (v.clients ≡ update 1 (waiting client_cmd_write (codes "3/ann/new")) peer_down.clients)
start_sync_refused_example =
    start_sync_refused refusing peer_down (client 1 sync_idle) client_cmd_write (codes "3/ann/new")
      (server 1 sync_idle ∷ []) (server 2 sync_disconnect) [] refl (refl, tt)
      (refl, λ log. (20, refl, refl)) tt

abbrev two_peers : World
two_peers = record (world [] []) {
  config = record (world [] []).config {
    peers = peers_text (codes "ann", 10000) ((codes "10.0.0.9", 10001) ∷ []);
  };
}

init_sync_server_list-peers_example :
    (v : World) × (init_sync_server_list (λ name. none) sync_null two_peers ≡ ok (v, pos 0))
    × (v.servers
        ≡ peer_nodes
            (λ name. none)
            sync_null
            7
            ((codes "ann", 10000) ∷ (codes "10.0.0.9", 10001) ∷ []))
init_sync_server_list-peers_example =
    init_sync_server_list-peers (λ name. none) sync_null two_peers (codes "ann", 10000)
      ((codes "10.0.0.9", 10001) ∷ []) refl
      ((omega arith, omega arith), ((omega arith, omega arith), tt))
