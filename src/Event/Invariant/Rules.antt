-- ===== src/Event/Invariant/Rules.antt =====
-- The shape of the shared state allows for the changes that the handlers make.
use bbserver.Base.{ℕ, Option, none, some, List, [], ◌∷◌, arith}
use bbserver.Types.{ClientCb, SyncServerCb, SyncState}
use bbserver.World.{World}
use bbserver.Conn.Table.{conn_add-IsTable, conn_del-IsTable}
use bbserver.Clients.{client_list_del}
use bbserver.Clients.Find.{Below, update-Below}
use bbserver.Clients.Shape.{remove-Below}
use bbserver.Servers.{sync_server_list_set_state, sync_set_master_state}
use bbserver.Servers.Count.{moved-Rising, set_first-Rising}
use bbserver.Event.Timeout.{mark_slaves}
use bbserver.Event.Keeping.{Rules}
use bbserver.Event.Invariant.{IsWorld}
use bbserver.Event.Invariant.Servers.{broadcast-IsWorld, init_sync_server_connection-IsWorld}

client_list_del-IsWorld : (w : World) (o : Option ℕ) → IsWorld w → IsWorld (client_list_del w o).0
unfolding client_list_del
client_list_del-IsWorld w none h = h
client_list_del-IsWorld w (some a) h = (remove-Below a w.next_addr w.clients h.0, h.1, h.2)

set_state-IsWorld :
    (w : World) (o : Option SyncServerCb) (s : SyncState)
    → IsWorld w
    → IsWorld (sync_server_list_set_state w o s).0
unfolding sync_server_list_set_state
set_state-IsWorld w none s h = h
set_state-IsWorld w (some p) s h = (h.0, h.1, moved-Rising s p.addr 0 w.servers h.2)

master_state-IsWorld : (w : World) (s : SyncState) → IsWorld w → IsWorld (sync_set_master_state w s)
unfolding sync_set_master_state
master_state-IsWorld w s h = (h.0, h.1, set_first-Rising s 0 w.servers h.2)

pub mark_slaves-Below : (n : ℕ) (cs : List ClientCb) → Below n cs → Below n (mark_slaves cs)
unfolding mark_slaves
mark_slaves-Below n [] h = tt
mark_slaves-Below n (c ∷ cs) h = ground (arith, mark_slaves-Below c.addr cs h.1)

pub IsWorld-Rules : Rules IsWorld
IsWorld-Rules = record {
  quiet = λ w events calls master slave h. h;
  number = λ w n h. h;
  assigns = λ w f a k h. (update-Below f a w.next_addr w.clients k h.0, h.1, h.2);
  marks = λ w h. (mark_slaves-Below w.next_addr w.clients h.0, h.1, h.2);
  comes = λ w n c e h. ((omega (arith, e), rw e h.0), conn_add-IsTable w.conns n h.1, h.2);
  goes = client_list_del-IsWorld;
  closes = λ w fd h. (h.0, conn_del-IsTable w.conns fd h.1, h.2);
  server = set_state-IsWorld;
  master = master_state-IsWorld;
  sends = λ os w m s h. broadcast-IsWorld os m s w h;
  connects = init_sync_server_connection-IsWorld;
  saves = λ w f e h. h;
}
