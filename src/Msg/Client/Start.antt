-- ===== src/Msg/Client/Start.antt =====
-- WRITE and REPLACE with peers: the start of the first phase.
use bbserver.Base.{◌≡◌, refl, List, ◌∷◌, ◌++◌, All, Bytes, codes, ok}
use bbserver.Types.{ClientCb, ClientCmdType, SyncServerCb, sync_u_waiting_commit}
use bbserver.Text.{before_slash}
use bbserver.World.{World, Os}
use bbserver.Clients.{update, sync_save_client_cmd}
use bbserver.Servers.Connect.{Linked, Unreachable, init_sync_server_connection-Unreachable}
use bbserver.Msg.Client.{start_sync}

-- `sync_save_client_cmd` on the client
abbrev pub waiting : ClientCmdType → Bytes → ClientCb → ClientCb
waiting k m c = record c {
  cmd = k;
  msg = m;
  msg_number = before_slash m;
  slave_state = sync_u_waiting_commit;
}

abbrev saved : World → ClientCb → ClientCmdType → Bytes → World
saved w c k m = record w { clients = update c.addr (waiting k m) w.clients }

-- When one peer is not connected and refuses to be, and all others are connected, the user is
-- answered "3.2 ERROR WRITE", but still waits for the commit with the command saved.
pub start_sync_refused :
    (os : Os) (w : World) (c : ClientCb) (k : ClientCmdType) (m : Bytes) (pre : List SyncServerCb)
    (p : SyncServerCb) (post : List SyncServerCb)
    → w.servers ≡ pre ++ p ∷ post
    → All Linked pre
    → Unreachable os p
    → All Linked post
    → (v : World) × (start_sync os w c k m ≡ ok (v, codes "3.2 ERROR WRITE"))
      × (v.clients ≡ update c.addr (waiting k m) w.clients)
unfolding start_sync sync_save_client_cmd
start_sync_refused os w c k m pre p post e h u l =
    let (v, f, clients) =
      init_sync_server_connection-Unreachable os (saved w c k m) pre p post e h u l in
    (v, rw f refl, clients)
