-- ===== src/Servers/Connect.antt =====
-- The connections to the peers: all are there, or one peer refuses.
use bbserver.Base.{
  ℕ, ◌<◌, ◌≡◌, refl, ap, ◌∙◌, true, false, some, List, [], ◌∷◌, ◌++◌, arith, length, All, ok, pos,
  negsuc,
}
use bbserver.Types.{SyncServerCb, SyncState, sync_disconnect, sync_idle, is_state}
use bbserver.World.{World, Os, SysCall, socket_call, connect_call}
use bbserver.Servers.{
  Connected, keep_node, connected, connect_loop, connect_servers, connect_with,
  sync_connect_to_server, init_sync_server_connection, sync_set_master_state, settle,
}

-- The peer has a connection.
abbrev pub Linked : SyncServerCb → Type 0
Linked p = is_state p.state sync_disconnect ≡ false

connected-clients : (r : Connected) → (connected r).0.clients ≡ r.world.clients
unfolding sync_set_master_state
connected-clients r = ground arith

connect_loop-Linked :
    (os : Os) (ps : List SyncServerCb) (w : World)
    → All Linked ps
    → connect_loop os ps w ≡ ok (record { nodes = ps; world = w; init_state = pos 0 })
unfolding connect_loop
connect_loop-Linked os [] w h = refl
connect_loop-Linked os (p ∷ ps) w h =
    rw (h.0, connect_loop) (rw (connect_loop-Linked os ps w h.1) refl)

-- The peer is not connected, and refuses to be.
abbrev pub Unreachable : Os → SyncServerCb → Type 0
Unreachable os p =
    (is_state p.state sync_disconnect ≡ true)
    × ((log : List SysCall)
        → (fd : ℕ) × (os.socket log ≡ some fd)
          × (os.connects (socket_call ∷ log) fd p.ip p.port ≡ false))

connect_loop-Unreachable :
    (os : Os) (pre : List SyncServerCb) (p : SyncServerCb) (post : List SyncServerCb) (w : World)
    → All Linked pre
    → Unreachable os p
    → All Linked post
    → (r : Connected) × (connect_loop os (pre ++ p ∷ post) w ≡ ok r)
      × (r.nodes ≡ pre ++ p ∷ post)
      × (r.world.clients ≡ w.clients)
      × (r.init_state ≡ negsuc 0)
unfolding connect_loop sync_connect_to_server connect_with
connect_loop-Unreachable os [] p post w h u l =
    let (fd, e, f) = u.1 w.calls in
    let v : World = record w { calls = connect_call fd p.ip p.port ∷ socket_call ∷ w.calls } in
    (
      record { nodes = p ∷ post; world = v; init_state = negsuc 0 },
      rw (u.0, connect_loop)
          (rw (e, connect_loop) (rw (f, connect_loop) (rw (connect_loop-Linked os post v l) refl))),
      refl,
      refl,
      refl,
    )
connect_loop-Unreachable os (q ∷ pre) p post w h u l =
    let (r, e, nodes, clients, failed) = connect_loop-Unreachable os pre p post w h.1 u l in
    (keep_node q r, rw (h.0, connect_loop) (rw e refl), ap (◌∷◌ q) nodes, clients, failed)

connect_servers-Linked :
    (os : Os) (w : World) (ps : List SyncServerCb)
    → 0 < length ps
    → All Linked ps
    → connect_servers os w ps ≡ ok (settle (record w { servers = ps }) sync_idle, pos 0)
unfolding connect_servers
connect_servers-Linked os w [] lt h = absurd (omega (arith, lt))
connect_servers-Linked os w (p ∷ ps) lt h = rw (connect_loop-Linked os (p ∷ ps) w h) refl

connect_servers-Unreachable :
    (os : Os) (w : World) (pre : List SyncServerCb) (p : SyncServerCb) (post : List SyncServerCb)
    → All Linked pre
    → Unreachable os p
    → All Linked post
    → (v : World) × (connect_servers os w (pre ++ p ∷ post) ≡ ok (v, negsuc 0))
      × (v.clients ≡ w.clients)
unfolding connect_servers
connect_servers-Unreachable os w [] p post h u l =
    let (r, e, nodes, clients, failed) = connect_loop-Unreachable os [] p post w h u l in
    (
      (connected r).0,
      rw e (ap (λ i. ok ((connected r).0, i)) failed),
      connected-clients r ∙ clients,
    )
connect_servers-Unreachable os w (q ∷ pre) p post h u l =
    let (r, e, nodes, clients, failed) = connect_loop-Unreachable os (q ∷ pre) p post w h u l in
    (
      (connected r).0,
      rw e (ap (λ i. ok ((connected r).0, i)) failed),
      connected-clients r ∙ clients,
    )

-- With some peer, and all of them connected, `init_sync_server_connection` connects to none.
pub init_sync_server_connection-Linked :
    (os : Os) (w : World)
    → 0 < length w.servers
    → All Linked w.servers
    → init_sync_server_connection os w ≡ ok (settle w sync_idle, pos 0)
unfolding init_sync_server_connection connect_servers
init_sync_server_connection-Linked os w some_peer h =
    connect_servers-Linked os w w.servers some_peer h

-- One peer that refuses is enough for -1; the clients are as they were.
pub init_sync_server_connection-Unreachable :
    (os : Os) (w : World) (pre : List SyncServerCb) (p : SyncServerCb) (post : List SyncServerCb)
    → w.servers ≡ pre ++ p ∷ post
    → All Linked pre
    → Unreachable os p
    → All Linked post
    → (v : World) × (init_sync_server_connection os w ≡ ok (v, negsuc 0)) × (v.clients ≡ w.clients)
unfolding init_sync_server_connection connect_servers
init_sync_server_connection-Unreachable os w pre p post e h u l =
    let (v, f, g) = connect_servers-Unreachable os w pre p post h u l in
    (v, ap (connect_servers os w) e ∙ f, g)

pub settle_kept :
    (w : World) (s : SyncState)
    → ((settle w s).clients ≡ w.clients)
      × ((settle w s).calls ≡ w.calls)
      × ((settle w s).file ≡ w.file)
unfolding sync_set_master_state
settle_kept w s = ground arith
