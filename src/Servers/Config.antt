-- ===== src/Servers/Config.antt =====
-- sync.cpp: `init_sync_server_list`, which takes the peers from the configuration.
pub mod Parse
use bbserver.Base.{
  ℕ, zero, suc, ◌+◌, ◌-◌, ◌*◌, ◌/◌, ◌%◌, ◌^◌, ◌≤◌, ◌<◌, ◌≡◌, refl, sym, ap, ◌∙◌, ◌≢◌, ◌↔◌, ◌⊎◌, inl,
  inr, Bool, true, false, not, ◌&&◌, ◌||◌, Option, none, some, List, [], ◌∷◌, ◌++◌, map, append-nil,
  append_assoc, arith, ltb, leb, ◌==◌, if◌then◌else◌, ltb→lt, lt→ltb, ==_iff, ==_refl, Bool-cases,
  Option-cases, length, get_elem?, take, drop, replicate, any_of, all_of, count_of, first_of_list,
  length-append, take-append, drop-append, length-replicate, All, Bytes, codes, bytes_eq,
  bytes_eq_refl, bytes_eq→eq, Lacks, Lacks-append, Fault, out_of_range, invalid_argument, undefined,
  spinning, exited, Result, ok, err, ◌>>=◌, deref, ℤ, pos, negsuc, int_max, eq_ℤ, is_neg, is_pos,
  eq_ℤ_iff, eq_ℤ_refl,
}
use bbserver.Text.{find, atoi, to_unsigned}
use bbserver.Types.{SyncServerCb, SyncState, sync_disconnect}
use bbserver.World.{World}
use bbserver.Servers.{sync_server_list_add}

-- The loop, on the text from `pos` on: the pairs of `server` and `serverport`.
pub peer_loop : ℕ → Bytes → Result (List (Bytes × Bytes))
peer_loop zero s = err spinning
peer_loop (suc n) s = elim (find b':' s) [
  | none ↦ ok []
  | some i ↦ elim (find b' ' (drop i s)) [
    | none ↦ ok ((take i s, drop (i + 1) s) ∷ [])
    | some j ↦ do
      rest ← peer_loop n (drop (i + j + 1) s)
      ok ((take i s, take (j - 1) (drop (i + 1) s)) ∷ rest)
  ]
]

-- The address that gethostbyname finds, or the text itself.
abbrev pub ip_of : (Bytes → Option Bytes) → Bytes → Bytes
ip_of resolve server = elim (resolve server) [ none ↦ server | some ip ↦ ip ]

-- A new node. `unset` is what `new` leaves in `masterState`.
abbrev pub peer_node : (Bytes → Option Bytes) → SyncState → ℕ → Bytes → ℕ → SyncServerCb
peer_node resolve unset a server port = record {
  addr = a;
  fd = negsuc 0;
  hostname = [];
  ip = ip_of resolve server;
  port = port;
  state = sync_disconnect;
  master_state = unset;
}

unfoldable pub add_peers :
    (Bytes → Option Bytes) → SyncState → World → List (Bytes × Bytes) → Result World
unfolding sync_server_list_add
add_peers resolve unset w [] = ok w
add_peers resolve unset w ((server, serverport) ∷ ps) = do
  port ← atoi serverport
  add_peers resolve unset
      (sync_server_list_add (record w { next_addr = w.next_addr + 1 })
        (peer_node resolve unset w.next_addr server (to_unsigned port)))
      ps

-- Each round goes on behind a colon, so that the length of the text bounds the rounds. `resolve` is
-- gethostbyname.
unfoldable pub init_sync_server_list :
    (Bytes → Option Bytes) → SyncState → World → Result (World × ℤ)
unfolding peer_loop add_peers
init_sync_server_list resolve unset w = if length w.config.peers == 0 then ok (w, negsuc 0) else (do
  ps ← peer_loop (length w.config.peers + 1) w.config.peers
  v ← add_peers resolve unset (record w { servers = [] }) ps
  ok (v, pos 0))
