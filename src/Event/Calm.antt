-- ===== src/Event/Calm.antt =====
-- With peers the file is saved by a commit only.
use bbserver.Base.{
  Each, bind-Each, weaken, if-Each, if-any, ℕ, ◌≡◌, refl, ap, ◌∙◌, true, not, Option, none, some,
  List, [], ◌∷◌, arith, ltb, length, Bytes, ℤ, is_neg,
}
use bbserver.Types.{SyncServerCb, SyncState, SysCfg, is_state, sync_disconnect, sync_idle}
use bbserver.Board.{BbFile}
use bbserver.World.{World, Os, called, socket_call}
use bbserver.Clients.{client_list_add, client_list_del}
use bbserver.Servers.{
  sync_check_server_state, sync_set_master_state, sync_server_list_set_state, ip_size, connect_with,
  sync_connect_to_server, connect_loop, connect_servers, Connected, dialled, keep_node, fail_node,
  init_sync_server_connection,
}
use bbserver.Servers.Broadcast.{broadcast-Kept}
use bbserver.Event.Handle.{handle_client_event}
use bbserver.Event.Keeping.{Rules}
use bbserver.Event.Keeping.Dispatch.{SavesNext, handle_client_event_keeps}

-- There are peers, and the file is this one.
abbrev pub IsCalm : BbFile → World → Type 0
IsCalm f w = (w.config.sync_enable ≡ true) × (w.file ≡ f)

module _ (f : BbFile) (os : Os) where
  connect_with-IsCalm :
      (w : World) (ip : Bytes) (port : ℕ) (o : Option ℕ)
      → IsCalm f w
      → Each (λ r. IsCalm f r.0) (connect_with os w ip port o)
  unfolding connect_with client_list_add
  connect_with-IsCalm w ip port none h = tt
  connect_with-IsCalm w ip port (some fd) h =
      if-Each (λ (r : World × ℤ). IsCalm f r.0) (not (os.connects w.calls fd ip port)) _ _ h
        (if-Each (λ (r : World × ℤ). IsCalm f r.0) (ltb (length ip) ip_size) _ _ h tt)

  dialled-IsCalm :
      (p : SyncServerCb) (fd : ℤ) (r : Connected)
      → IsCalm f r.world
      → IsCalm f (dialled p fd r).world
  dialled-IsCalm p fd r h =
      if-any (λ (c : Connected). IsCalm f c.world) (is_neg fd) (fail_node p r)
        (keep_node (record p { fd = fd; state = sync_idle }) r) h h

  connect_loop-IsCalm :
      (ps : List SyncServerCb) (w : World)
      → IsCalm f w
      → Each (λ r. IsCalm f r.world) (connect_loop os ps w)
  unfolding connect_loop sync_connect_to_server
  connect_loop-IsCalm [] w h = h
  connect_loop-IsCalm (p ∷ ps) w h =
      if-Each (λ (r : Connected). IsCalm f r.world) (is_state p.state sync_disconnect) _ _
        (bind-Each (λ (c : World × ℤ). IsCalm f c.0) (λ (r : Connected). IsCalm f r.world)
          (sync_connect_to_server os w p.ip p.port) _
          (connect_with-IsCalm (called w socket_call) p.ip p.port (os.socket w.calls) h)
          (λ c k.
            bind-Each (λ (r : Connected). IsCalm f r.world) (λ (r : Connected). IsCalm f r.world)
              (connect_loop os ps c.0) _ (connect_loop-IsCalm ps c.0 k)
              (λ r d. dialled-IsCalm p c.1 r d)))
        (bind-Each (λ (r : Connected). IsCalm f r.world) (λ (r : Connected). IsCalm f r.world)
          (connect_loop os ps w) _ (connect_loop-IsCalm ps w h) (λ r d. d))

  connect_servers-IsCalm :
      (w : World) (ps : List SyncServerCb)
      → IsCalm f w
      → Each (λ r. IsCalm f r.0) (connect_servers os w ps)
  unfolding connect_servers sync_set_master_state
  connect_servers-IsCalm w [] h = h
  connect_servers-IsCalm w (p ∷ ps) h =
      bind-Each (λ (r : Connected). IsCalm f r.world) (λ (r : World × ℤ). IsCalm f r.0)
        (connect_loop os (p ∷ ps) w) _ (connect_loop-IsCalm (p ∷ ps) w h)
        (λ r d.
          let v = record r.world { servers = r.nodes } in
          if-any (IsCalm f) (sync_check_server_state v.servers sync_idle)
            (sync_set_master_state v sync_idle) v d d)

  init_sync_server_connection-IsCalm :
      (w : World) → IsCalm f w → Each (λ r. IsCalm f r.0) (init_sync_server_connection os w)
  unfolding init_sync_server_connection
  init_sync_server_connection-IsCalm w h = connect_servers-IsCalm w w.servers h

client_list_del-IsCalm :
    (f : BbFile) (w : World) (o : Option ℕ) → IsCalm f w → IsCalm f (client_list_del w o).0
unfolding client_list_del
client_list_del-IsCalm f w none h = h
client_list_del-IsCalm f w (some a) h = h

set_state-IsCalm :
    (f : BbFile) (w : World) (o : Option SyncServerCb) (s : SyncState)
    → IsCalm f w
    → IsCalm f (sync_server_list_set_state w o s).0
unfolding sync_server_list_set_state
set_state-IsCalm f w none s h = h
set_state-IsCalm f w (some p) s h = h

IsCalm-Rules : (f : BbFile) → Rules (IsCalm f)
unfolding sync_set_master_state
IsCalm-Rules f = record {
  quiet = λ w events calls master slave h. h;
  number = λ w n h. h;
  assigns = λ w g a k h. h;
  marks = λ w h. h;
  comes = λ w n c e h. h;
  goes = client_list_del-IsCalm f;
  closes = λ w fd h. h;
  server = set_state-IsCalm f;
  master = λ w s h. h;
  sends = λ os w m s h.
      let kept = broadcast-Kept os w m s in
      (ap (λ (c : SysCfg). c.sync_enable) kept.config ∙ h.0, kept.file ∙ h.1);
  connects = init_sync_server_connection-IsCalm f;
  saves = λ w g e h. absurd (ground (arith, e, h.0));
}

-- When peers are configured, an event thread leaves the file as it is, whatever the operating
-- system returns, unless the event is the success of a COMMIT or data over the connection of a
-- master. The other threads, for as long as a time-out lets them run, keep the file and the peers.
pub handle_client_event-IsCalm :
    (n : ℕ) (os : Os) (others : World → World) (w : World)
    → w.config.sync_enable ≡ true
    → ((v : World) → IsCalm w.file v → IsCalm w.file (others v))
    → ¬ SavesNext w w.events
    → Each (λ v. v.file ≡ w.file) (handle_client_event n os others w)
handle_client_event-IsCalm n os others w e k never =
    weaken (IsCalm w.file) (λ v. v.file ≡ w.file) (handle_client_event n os others w) (λ v h. h.1)
      (handle_client_event_keeps (IsCalm w.file) (IsCalm-Rules w.file) n os others k w
        (λ s. absurd (never s)) (e, refl))
